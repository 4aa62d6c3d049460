-- ===== src/Invite/Life.antt =====
-- The map of invite sessions, over the calls that can reach a session.
use libgb.Base.{
  ℕ, ◌≡◌, subst, refl, Bool, true, false, not, ◌&&◌, Option, none, some, List, [], ◌∷◌, arith,
  &&-true, of_some, if_cases,
}
use libgb.Message.{Text}
use libgb.Sip.{SipCodes}
use libgb.Sdp.{SdpDescription, SdpFormat}
use libgb.Invite.{InviteRequest, Reason, is_closed, add_invite, Action, to_bye}
use libgb.Invite.Steps.{to_invite_request, started, is_empty, with_ssrc}
use libgb.Invite.Incoming.{handle_reply, on_ack_timer}
use libgb.Invite.Run.{
  Call, happened, invited, step, run, call, run_calls, state_of, answer, ack_timer, close,
}
use libgb.Invite.Open.{Open, is_timely, step-Open}

-- An answer is given to an open session only, and only an open session is started.
abbrev pub is_timely_call : Call → InviteRequest → Bool
is_timely_call (happened e) i = is_timely e i
is_timely_call (invited drawn) i = not (is_closed i.status)

unfoldable pub are_timely : SipCodes → SdpFormat → List Call → InviteRequest → Bool
unfolding call
are_timely codes f [] i = true
are_timely codes f (c ∷ cs) i =
    is_timely_call c i && elim (call codes f c i) [ none ↦ true | some j ↦ are_timely codes f cs j ]

-- The session is not both closed and in the map.
abbrev pub is_sound : InviteRequest → Bool
is_sound i = not (i.registered && is_closed i.status)

started-Open :
    (codes : SipCodes) (f : SdpFormat) (drawn : ℕ) (sdp : Option SdpDescription)
    (i j : InviteRequest)
    → is_closed i.status ≡ false
    → state_of codes f (started f drawn sdp i) ≡ some j
    → Open j
unfolding add_invite
started-Open codes f drawn none i j still e = absurd (cc)
started-Open codes f drawn (some sdp) i j still e =
    if_cases
      (λ (made : InviteRequest × List Action).
        ◌≡◌ {A = Option InviteRequest} (some made.0) (some j) → Open j)
      (is_empty (f.generate (with_ssrc drawn sdp))) _ _
      (λ empty made. subst Open (of_some made) (λ r. still))
      (λ filled made. subst Open (of_some made) (λ r. still)) e

invited-Open :
    (codes : SipCodes) (f : SdpFormat) (drawn : ℕ) (i j : InviteRequest)
    → is_closed i.status ≡ false
    → state_of codes f (to_invite_request f drawn i) ≡ some j
    → Open j
unfolding to_invite_request
invited-Open codes f drawn i j still =
    if_cases (λ o. state_of codes f o ≡ some j → Open j) i.has_platform _ none
      (λ there. started-Open codes f drawn i.local_sdp i j still) (λ gone e. absurd (cc))

call-Open :
    (codes : SipCodes) (f : SdpFormat) (c : Call) (i j : InviteRequest)
    → is_timely_call c i ≡ true
    → Open i
    → call codes f c i ≡ some j
    → Open j
unfolding call
call-Open codes f (happened e) i j timely o made =
    subst Open (of_some made) (step-Open codes f e i timely o)
call-Open codes f (invited drawn) i j timely o made =
    invited-Open codes f drawn i j (ground arith) made

-- What is after a call, if it meets no fault.
after_call :
    (codes : SipCodes) (f : SdpFormat) (cs : List Call) (j : InviteRequest)
    (reached : Option InviteRequest)
    → ((k : InviteRequest)
        → Open k
        → are_timely codes f cs k ≡ true
        → run_calls codes f cs k ≡ some j
        → Open j)
    → ((k : InviteRequest) → reached ≡ some k → Open k)
    → elim reached [ none ↦ true | some k ↦ are_timely codes f cs k ] ≡ true
    → elim reached [ none ↦ none | some k ↦ run_calls codes f cs k ] ≡ some j
    → Open j
after_call codes f cs j none later sound timely made = absurd (cc)
after_call codes f cs j (some k) later sound timely made = later k (sound k refl) timely made

calls-Open :
    (codes : SipCodes) (f : SdpFormat) (cs : List Call) (i j : InviteRequest)
    → Open i
    → are_timely codes f cs i ≡ true
    → run_calls codes f cs i ≡ some j
    → Open j
unfolding run_calls are_timely
calls-Open codes f [] i j o timely made = subst Open (of_some made) o
calls-Open codes f (c ∷ cs) i j o timely made =
    let (first, rest) = &&-true _ _ timely in
    after_call codes f cs j (call codes f c i) (λ k. calls-Open codes f cs k j)
      (λ k. call-Open codes f c i k first o) rest made

-- A session that is not both closed and in the map is so after any calls that meet no fault, if every
-- answer among them is given to a session that is open then, and to_invite_request is called of such a
-- session only.
pub run_calls-is_sound :
    (codes : SipCodes) (f : SdpFormat) (cs : List Call) (i j : InviteRequest)
    → is_sound i ≡ true
    → are_timely codes f cs i ≡ true
    → run_calls codes f cs i ≡ some j
    → is_sound j ≡ true
run_calls-is_sound codes f cs i j h t made =
    let o : Open i = ground arith in
    let p : Open j = calls-Open codes f cs i j o t made in ground arith

-- A closed session that is answered with a success code and a description whose text is not empty
-- comes into the map all the same, and it is still there, closed, after the timer that waits for
-- the acknowledgement and one more call that ends it.
handle_reply-closed :
    (codes : SipCodes) (f : SdpFormat) (code : ℕ) (sdp : SdpDescription) (x : ℕ) (xs : Text)
    (e : Reason) (i : InviteRequest)
    → codes.is_success code ≡ true
    → f.generate sdp ≡ x ∷ xs
    → is_closed i.status ≡ true
    → let (j, acts) = run codes f (answer code (some sdp) ∷ ack_timer ∷ close e ∷ []) i in
      (j.registered ≡ true) × (is_closed j.status ≡ true)
unfolding run step handle_reply on_ack_timer to_bye add_invite
handle_reply-closed codes f code sdp x xs e i ok text closed = ground arith
