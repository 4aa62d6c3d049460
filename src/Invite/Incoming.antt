-- ===== src/Invite/Incoming.antt =====
-- src/request/invite_request_impl.cpp, on_recv_invite: sessions that a peer opens, the answer of the
-- application and the wait for the acknowledgement.
use libgb.Base.{ℕ, Bool, true, false, Option, none, some, List, [], ◌∷◌, if◌then◌else◌}
use libgb.Message.{Text}
use libgb.Sip.{SipCodes}
use libgb.Sdp.{SdpDescription, SdpFormat, SessionType, unknown, talk}
use libgb.Invite.{
  InviteStatus, ack, failed, local_sdp_error, rejected, wait_ack_timeout, Action, replied, offered,
  set_ack_timer, InviteRequest, new_invite_request, add_invite, set_status, then_do, to_bye,
}
use libgb.Invite.Steps.{Effect}

-- The answer accepts with a description whose text is given.
abbrev pub accept : ℕ → Text → InviteRequest → Effect
accept code [] i = then_do (i, replied 400 none ∷ []) (set_status failed local_sdp_error)
accept code (x ∷ xs) i = (add_invite i, replied code (some (x ∷ xs)) ∷ set_ack_timer ∷ [])

abbrev pub accept_with : SdpFormat → ℕ → Option SdpDescription → InviteRequest → Effect
accept_with f code none i = then_do (i, replied 400 none ∷ []) (set_status failed local_sdp_error)
accept_with f code (some sdp) i = accept code (f.generate sdp) (record i { local_sdp = some sdp })

-- handle_reply of on_recv_invite, for a session that still exists.
unfoldable pub handle_reply :
    SipCodes → SdpFormat → ℕ → Option SdpDescription → InviteRequest → Effect
unfolding add_invite set_status
handle_reply codes f code sdp i =
    if codes.is_success code
    then accept_with f code sdp i
    else then_do (i, replied code none ∷ []) (set_status failed rejected)

abbrev pub is_acked : InviteStatus → Bool
is_acked ack = true
is_acked _ = false

-- The timer of five seconds that handle_reply sets.
unfoldable pub on_ack_timer : InviteRequest → Effect
unfolding to_bye
on_ack_timer i = if is_acked i.status then (i, []) else to_bye wait_ack_timeout i

-- A session made for a request of a peer.
abbrev pub received : SdpDescription → InviteRequest
received sdp = record (new_invite_request none true false) {
  remote_sdp = some sdp;
  has_dialog = true;
}

-- A talk session goes to the subordinate platform, whose on_invite answers 400, every other one to
-- the superior platform, whose on_invite offers it to the application.
abbrev pub hand_over :
    SipCodes
    → SdpFormat
    → Bool
    → Bool
    → SdpDescription
    → SessionType
    → Option InviteRequest × List Action
hand_over codes f sub super sdp unknown = (none, replied 400 none ∷ [])
hand_over codes f sub super sdp talk =
    if sub
    then (let (i, acts) = handle_reply codes f 400 none (received sdp) in
        (some i, replied 100 none ∷ acts))
    else (none, replied 480 none ∷ [])
hand_over codes f sub super sdp type =
    if super
    then (some (received sdp), replied 100 none ∷ offered ∷ [])
    else (none, replied 480 none ∷ [])

abbrev pub receive :
    SipCodes → SdpFormat → Bool → Bool → Option SdpDescription → Option InviteRequest × List Action
receive codes f sub super none = (none, replied 400 none ∷ [])
receive codes f sub super (some sdp) = hand_over codes f sub super sdp sdp.session_type

-- on_recv_invite, with the session that it makes: whether there is a subordinate and a superior
-- platform of the peer's identifier is given.
unfoldable pub on_recv_invite :
    SipCodes → SdpFormat → Bool → Bool → Text → Option InviteRequest × List Action
unfolding new_invite_request handle_reply
on_recv_invite codes f sub super payload = receive codes f sub super (f.parse payload)
