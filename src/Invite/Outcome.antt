-- ===== src/Invite/Outcome.antt =====
-- What a reply makes of a session, and what a request of a peer makes one of.
use libgb.Base.{
  ℕ, ◌≡◌, ◌≢◌, Bool, true, false, ◌&&◌, Option, none, some, [], ◌∷◌, arith, if◌then◌else◌,
}
use libgb.Message.{Text}
use libgb.Sip.{SipCodes}
use libgb.Sdp.{SdpDescription, SdpFormat, SessionType, talk, unknown, playback, download}
use libgb.Invite.{
  Reason, replied, InviteRequest, to_bye, set_status, ack, failed, get_invite, remove_invite,
  no_reason, given, sdp_not_parsed, no_remote_sdp, ack_not_sent, remote_code, new_invite_request,
}
use libgb.Invite.Steps.{
  Effect, on_invite_reply, on_recv_bye, on_recv_cancel, on_final, attached, on_accepted,
  take_remote, reply_failed,
}
use libgb.Invite.Incoming.{handle_reply, on_recv_invite, hand_over, receive}
use libgb.Invite.Run.{step, run, bye_request, cancel_request}

-- The description that is read from a payload, if there is one.
abbrev pub described : SdpFormat → Option Text → Option SdpDescription
described f none = none
described f (some []) = none
described f (some (x ∷ xs)) = f.parse (x ∷ xs)

abbrev pub is_there : Option SdpDescription → Bool
is_there none = false
is_there (some sdp) = true

-- A reply that sets the session up: it accepts, its description can be read, and it can be
-- acknowledged.
abbrev pub sets_up : SipCodes → SdpFormat → ℕ → Option Text → Bool → Bool
sets_up codes f code payload acked =
    codes.is_success code && (is_there (described f payload) && acked)

-- The session is set up with a description, or it has failed and is out of the map; the result
-- callback is gone.
abbrev pub Concluded : Option SdpDescription → Bool → InviteRequest → Type 0
Concluded sdp true j =
    (j.status ≡ ack) × (j.error ≡ no_reason) × (j.has_rcb ≡ false) × (j.remote_sdp ≡ sdp)
Concluded sdp false j =
    (j.status ≡ failed) × (j.registered ≡ false) × (j.error ≢ no_reason) × (j.has_rcb ≡ false)

reply_failed-Concluded :
    (sdp : Option SdpDescription) (e : Reason) (i : InviteRequest)
    → e ≢ no_reason
    → Concluded sdp false (reply_failed e i).0
unfolding reply_failed set_status remove_invite
reply_failed-Concluded sdp e i h = ground arith

take_remote-Concluded :
    (sdp : Option SdpDescription) (acked : Bool) (i : InviteRequest)
    → Concluded sdp (is_there sdp && acked) (take_remote sdp acked i).0
unfolding take_remote
take_remote-Concluded none acked i =
    reply_failed-Concluded none sdp_not_parsed (to_bye (given []) i).0 (λ h. cc)
take_remote-Concluded (some sdp) true i = ground arith
take_remote-Concluded (some sdp) false i =
    reply_failed-Concluded (some sdp) ack_not_sent
      (to_bye (given []) (record i { remote_sdp = some sdp })).0 (λ h. cc)

on_accepted-Concluded :
    (f : SdpFormat) (payload : Option Text) (acked : Bool) (i : InviteRequest)
    → Concluded
        (described f payload)
        (is_there (described f payload) && acked)
        (on_accepted f payload acked i).0
unfolding on_accepted
on_accepted-Concluded f none acked i =
    reply_failed-Concluded none no_remote_sdp (to_bye (given []) i).0 (λ h. cc)
on_accepted-Concluded f (some []) acked i =
    reply_failed-Concluded none no_remote_sdp (to_bye (given []) i).0 (λ h. cc)
on_accepted-Concluded f (some (x ∷ xs)) acked i = take_remote-Concluded (f.parse (x ∷ xs)) acked i

choice-Concluded :
    (sdp : Option SdpDescription) (b p : Bool) (r s : Effect)
    → Concluded sdp p r.0
    → Concluded sdp false s.0
    → Concluded sdp (b && p) (if b then r else s).0
choice-Concluded sdp true p r s h k = h
choice-Concluded sdp false p r s h k = k

on_final-Concluded :
    (codes : SipCodes) (f : SdpFormat) (code : ℕ) (dialog : Bool) (payload : Option Text)
    (acked : Bool) (i : InviteRequest)
    → Concluded
        (described f payload)
        (sets_up codes f code payload acked)
        (on_final codes f code dialog payload acked i).0
unfolding on_final
on_final-Concluded codes f code dialog payload acked i =
    let j = attached dialog i in
    choice-Concluded (described f payload) (codes.is_success code)
      (is_there (described f payload) && acked) (on_accepted f payload acked j)
      (reply_failed (remote_code code) j) (on_accepted-Concluded f payload acked j)
      (reply_failed-Concluded (described f payload) (remote_code code) j (λ h. cc))

-- A final reply to a session in the map settles it: it ends acknowledged, with the peer's
-- description as it is read from the reply, exactly if the code accepts, the payload can be read and the acknowledgement can be
-- sent; in every other case it has failed, has a reason and is out of the map. The result
-- callback is not held any more.
pub on_invite_reply-Concluded :
    (codes : SipCodes) (f : SdpFormat) (code : ℕ) (dialog : Bool) (payload : Option Text)
    (acked : Bool) (i : InviteRequest)
    → i.registered ≡ true
    → codes.is_info code ≡ false
    → Concluded
        (described f payload)
        (sets_up codes f code payload acked)
        (on_invite_reply codes f code dialog payload acked i).0
unfolding on_invite_reply get_invite
on_invite_reply-Concluded codes f code dialog payload acked i here last = rw here (
    rw last (on_final-Concluded codes f code dialog payload acked (record i { registered = true })))

hand_over-registered :
    (codes : SipCodes) (f : SdpFormat) (sub super : Bool) (sdp : SdpDescription) (t : SessionType)
    (i : InviteRequest)
    → (hand_over codes f sub super sdp t).0 ≡ some i
    → codes.is_success 400 ≡ false
    → i.registered ≡ false
unfolding handle_reply set_status remove_invite new_invite_request
hand_over-registered codes f sub super sdp unknown i e h = ground arith
hand_over-registered codes f sub super sdp talk i e h = ground arith
hand_over-registered codes f sub super sdp SessionType.play i e h = ground arith
hand_over-registered codes f sub super sdp playback i e h = ground arith
hand_over-registered codes f sub super sdp download i e h = ground arith

received-registered :
    (codes : SipCodes) (f : SdpFormat) (sub super : Bool) (sdp : Option SdpDescription)
    (i : InviteRequest)
    → (receive codes f sub super sdp).0 ≡ some i
    → codes.is_success 400 ≡ false
    → i.registered ≡ false
received-registered codes f sub super none i e h = absurd (cc)
received-registered codes f sub super (some sdp) i e h =
    hand_over-registered codes f sub super sdp sdp.session_type i e h

unregistered_refuses :
    (codes : SipCodes) (f : SdpFormat) (i : InviteRequest)
    → i.registered ≡ false
    → run codes f (cancel_request ∷ bye_request ∷ []) i
      ≡ (i, replied 481 none ∷ replied 481 none ∷ [])
unfolding run step on_recv_cancel on_recv_bye get_invite
unregistered_refuses codes f i h = ground arith

-- Where 400 is no success code: a session that a peer asks for is not in the map until the
-- application has accepted it, and a CANCEL and a BYE that come before are refused with 481 and
-- leave it as it was.
pub cancel-on_recv_invite :
    (codes : SipCodes) (f : SdpFormat) (sub super : Bool) (payload : Text) (i : InviteRequest)
    → codes.is_success 400 ≡ false
    → (on_recv_invite codes f sub super payload).0 ≡ some i
    → run codes f (cancel_request ∷ bye_request ∷ []) i
      ≡ (i, replied 481 none ∷ replied 481 none ∷ [])
unfolding on_recv_invite
cancel-on_recv_invite codes f sub super payload i h e =
    unregistered_refuses codes f i (received-registered codes f sub super (f.parse payload) i e h)
