-- ===== src/Invite/Results.antt =====
-- The callbacks of a session: the result is reported once, and the status as it changes.
use libgb.Base.{
  ℕ, ◌+◌, ◌≡◌, refl, ◌∙◌, ap, Bool, true, false, Option, none, some, List, [], ◌∷◌, ◌++◌, arith,
}
use libgb.Message.{Text}
use libgb.Sip.{SipCodes}
use libgb.Sdp.{SdpDescription, SdpFormat}
use libgb.Invite.{
  InviteStatus, Reason, Action, result_called, status_called, sent_ack, InviteRequest, then_do,
  to_bye, to_teardown, teardown, set_status, trying, ack, bye, cancel, failed, get_invite,
  remove_invite, no_reason, given, sdp_not_parsed, no_remote_sdp, ack_not_sent, remote_code,
}
use libgb.Invite.Steps.{
  Effect, call_result, on_sent, on_invite_reply, on_final, on_accepted, take_remote, reply_failed,
}

abbrev pub is_result : Action → ℕ
is_result (result_called ok e sdp) = 1
is_result _ = 0

-- How often the result is reported.
unfoldable pub results : List Action → ℕ
results [] = 0
results (a ∷ xs) = is_result a + results xs

abbrev pub reported : InviteStatus → Action → InviteStatus
reported s (status_called t e) = t
reported s _ = s

-- The status that the status callback has seen last, at first `s`.
unfoldable pub last_status : InviteStatus → List Action → InviteStatus
last_status s [] = s
last_status s (a ∷ xs) = last_status (reported s a) xs

pub results-append : (xs bs : List Action) → results (xs ++ bs) ≡ results xs + results bs
unfolding results
results-append [] bs = omega arith
results-append (a ∷ xs) bs = omega (arith, results-append xs bs)

last_status-append :
    (s : InviteStatus) (xs bs : List Action)
    → last_status s (xs ++ bs) ≡ last_status (last_status s xs) bs
unfolding last_status
last_status-append s [] bs = refl
last_status-append s (a ∷ xs) bs = last_status-append (reported s a) xs bs

abbrev pub due : Bool → ℕ
due true = 1
due false = 0

-- The result is reported or still due as before, and the status callback has seen the status.
abbrev pub Accounted : InviteRequest → Effect → Type 0
Accounted i (j, acts) =
    (results acts + due j.has_rcb ≡ due i.has_rcb)
    × (j.has_status_cb ≡ i.has_status_cb)
    × (i.has_status_cb ≡ true → last_status i.status acts ≡ j.status)

pub then_do-Accounted :
    (i : InviteRequest) (r : Effect) (g : InviteRequest → Effect)
    → Accounted i r
    → Accounted r.0 (g r.0)
    → Accounted i (then_do r g)
then_do-Accounted i (j, acts) g (a, b, c) (d, e, h) = (
  omega (arith, results-append acts (g j).1),
  e ∙ b,
  λ cb.
      last_status-append i.status acts (g j).1
      ∙ ap (λ s. last_status s (g j).1) (c cb)
      ∙ h (b ∙ cb),
)

pub set_status-Accounted :
    (s : InviteStatus) (e : Reason) (i : InviteRequest) → Accounted i (set_status s e i)
unfolding set_status remove_invite results last_status
set_status-Accounted s e i = ground arith

call_result-Accounted :
    (ok : Bool) (e : Reason) (sdp : Option SdpDescription) (i : InviteRequest)
    → Accounted i (call_result ok e sdp i)
unfolding results last_status
call_result-Accounted ok e sdp i = ground arith

-- One action that is no callback.
pub one-Accounted :
    (a : Action) (i : InviteRequest)
    → is_result a ≡ 0
    → ((s : InviteStatus) → reported s a ≡ s)
    → Accounted i (i, a ∷ [])
unfolding results last_status
one-Accounted a i h k = (omega (arith, h), refl, λ cb. k i.status)

pub same-Accounted : (i : InviteRequest) → Accounted i (i, [])
unfolding results last_status
same-Accounted i = (omega arith, refl, λ cb. refl)

pub to_bye-Accounted : (e : Reason) (i : InviteRequest) → Accounted i (to_bye e i)
unfolding to_bye results last_status
to_bye-Accounted e i =
    let cancelled = set_status-Accounted cancel e i in
    let ended = set_status-Accounted bye e i in ground arith

pub to_teardown-Accounted : (e : Reason) (i : InviteRequest) → Accounted i (to_teardown e i)
unfolding to_teardown results last_status
to_teardown-Accounted e i =
    let torn = to_bye-Accounted teardown i in let ended = to_bye-Accounted e i in ground arith

reply_failed-Accounted : (e : Reason) (i : InviteRequest) → Accounted i (reply_failed e i)
unfolding reply_failed
reply_failed-Accounted e i =
    let j = (set_status failed e i).0 in
    then_do-Accounted i (set_status failed e i) (λ k. call_result false k.error k.remote_sdp k)
      (set_status-Accounted failed e i) (call_result-Accounted false j.error j.remote_sdp j)

bye_failed-Accounted :
    (e : Reason) (i : InviteRequest) → Accounted i (then_do (to_bye (given []) i) (reply_failed e))
bye_failed-Accounted e i =
    then_do-Accounted i (to_bye (given []) i) (reply_failed e) (to_bye-Accounted (given []) i)
      (reply_failed-Accounted e (to_bye (given []) i).0)

take_remote-Accounted :
    (sdp : Option SdpDescription) (acked : Bool) (i : InviteRequest)
    → Accounted i (take_remote sdp acked i)
unfolding take_remote
take_remote-Accounted none acked i = bye_failed-Accounted sdp_not_parsed i
take_remote-Accounted (some sdp) true i =
    let j : InviteRequest = record i { remote_sdp = some sdp } in
    let r = then_do (j, sent_ack ∷ []) (set_status ack no_reason) in
    then_do-Accounted j r (λ k. call_result true k.error k.remote_sdp k)
      (then_do-Accounted j (j, sent_ack ∷ []) (set_status ack no_reason)
        (one-Accounted sent_ack j refl (λ s. refl)) (set_status-Accounted ack no_reason j))
      (call_result-Accounted true r.0.error r.0.remote_sdp r.0)
take_remote-Accounted (some sdp) false i =
    bye_failed-Accounted ack_not_sent (record i { remote_sdp = some sdp })

on_accepted-Accounted :
    (f : SdpFormat) (payload : Option Text) (acked : Bool) (i : InviteRequest)
    → Accounted i (on_accepted f payload acked i)
unfolding on_accepted
on_accepted-Accounted f none acked i = bye_failed-Accounted no_remote_sdp i
on_accepted-Accounted f (some []) acked i = bye_failed-Accounted no_remote_sdp i
on_accepted-Accounted f (some (x ∷ xs)) acked i = take_remote-Accounted (f.parse (x ∷ xs)) acked i

on_final-Accounted :
    (codes : SipCodes) (f : SdpFormat) (code : ℕ) (dialog : Bool) (payload : Option Text)
    (acked : Bool) (i : InviteRequest)
    → Accounted i (on_final codes f code dialog payload acked i)
unfolding on_final
on_final-Accounted codes f code true payload acked i =
    let j : InviteRequest = record i { has_transaction = false; has_dialog = true } in
    let accepted = on_accepted-Accounted f payload acked j in
    let refused = reply_failed-Accounted (remote_code code) j in ground arith
on_final-Accounted codes f code false payload acked i =
    let j : InviteRequest = record i { has_transaction = false } in
    let accepted = on_accepted-Accounted f payload acked j in
    let refused = reply_failed-Accounted (remote_code code) j in ground arith

pub on_sent-Accounted :
    (ok : Bool) (err : Text) (i : InviteRequest) → Accounted i (on_sent ok err i)
unfolding on_sent
on_sent-Accounted ok err i =
    let failing =
      then_do-Accounted i (set_status failed (given err) i) (call_result ok (given err) none)
        (set_status-Accounted failed (given err) i)
        (call_result-Accounted ok (given err) none (set_status failed (given err) i).0) in
    let same = same-Accounted i in ground arith

pub on_invite_reply-Accounted :
    (codes : SipCodes) (f : SdpFormat) (code : ℕ) (dialog : Bool) (payload : Option Text)
    (acked : Bool) (i : InviteRequest)
    → Accounted i (on_invite_reply codes f code dialog payload acked i)
unfolding on_invite_reply get_invite
on_invite_reply-Accounted codes f code dialog payload acked i =
    let provisional = set_status-Accounted trying no_reason i in
    let final = on_final-Accounted codes f code dialog payload acked i in
    let same = same-Accounted i in ground arith

-- A reply that goes with a new status, before or after it.
pub replying-Accounted :
    (a : Action) (s : InviteStatus) (e : Reason) (i : InviteRequest)
    → is_result a ≡ 0
    → ((t : InviteStatus) → reported t a ≡ t)
    → Accounted i (then_do (set_status s e i) (λ k. (k, a ∷ [])))
      × Accounted i (then_do (i, a ∷ []) (set_status s e))
replying-Accounted a s e i h k = (
  then_do-Accounted i (set_status s e i) (λ j. (j, a ∷ [])) (set_status-Accounted s e i)
      (one-Accounted a (set_status s e i).0 h k),
  then_do-Accounted i (i, a ∷ []) (set_status s e) (one-Accounted a i h k)
      (set_status-Accounted s e i),
)
