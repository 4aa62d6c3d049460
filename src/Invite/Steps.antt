-- ===== src/Invite/Steps.antt =====
-- src/request/invite_request_impl.cpp: what a session does on requests, replies, answers and timers.
use libgb.Base.{
  ℕ, Bool, true, false, not, ◌&&◌, Option, none, some, List, [], ◌∷◌, if◌then◌else◌, ◌==◌,
}
use libgb.Message.{Text}
use libgb.Sip.{SipCodes}
use libgb.Sdp.{SdpDescription, SdpFormat}
use libgb.Invite.{
  trying, ack, bye, cancel, failed, Reason, no_reason, no_local_sdp, they_bye, they_cancel,
  no_remote_sdp, ack_not_sent, sdp_not_parsed, recv_teardown, remote_code, given, Action,
  result_called, replied, info_replied, sent_invite, sent_ack, InviteRequest, get_invite,
  add_invite, set_status, then_do, to_bye,
}

-- A session after an operation, and the actions.
abbrev pub Effect : Type 0
Effect = InviteRequest × List Action

-- A text of no characters.
abbrev pub is_empty : Text → Bool
is_empty [] = true
is_empty (x ∷ xs) = false

-- A payload that is there and not empty.
abbrev pub has_payload : Option Text → Bool
has_payload none = false
has_payload (some t) = not (is_empty t)

-- The stream number of the first medium, drawn when it is 0.
abbrev pub with_ssrc : ℕ → SdpDescription → SdpDescription
with_ssrc drawn sdp = if sdp.ssrc == 0 then record sdp { ssrc = drawn } else sdp

-- The session offers its description, unless its text is empty.
abbrev pub offer : Text → SdpDescription → InviteRequest → Effect
offer text sdp i =
    if is_empty text
    then (
      record i { local_sdp = some sdp; has_transaction = true },
      result_called false no_local_sdp none ∷ [],
    )
    else (
      add_invite (record i { local_sdp = some sdp; has_transaction = true; has_rcb = true }),
      sent_invite text ∷ [],
    )

-- `drawn` is the number that make_ssrc would give.
abbrev pub started : SdpFormat → ℕ → Option SdpDescription → InviteRequest → Option Effect
started f drawn none i = none
started f drawn (some sdp) i =
    some (offer (f.generate (with_ssrc drawn sdp)) (with_ssrc drawn sdp) i)

-- to_invite_request. The code dereferences the platform and the description untested, and then
-- there is no result.
unfoldable pub to_invite_request : SdpFormat → ℕ → InviteRequest → Option Effect
unfolding add_invite
to_invite_request f drawn i = if i.has_platform then started f drawn i.local_sdp i else none

-- The result callback, which is then dropped.
abbrev pub call_result : Bool → Reason → Option SdpDescription → InviteRequest → Effect
call_result ok e sdp i =
    if i.has_rcb then (record i { has_rcb = false }, result_called ok e sdp ∷ []) else (i, [])

-- The callback of uac_send2.
unfoldable pub on_sent : Bool → Text → InviteRequest → Effect
unfolding set_status
on_sent ok err i =
    if not ok && i.has_rcb
    then then_do (set_status failed (given err) i) (call_result ok (given err) none)
    else (i, [])

-- The end of on_invite_reply when the session could not be set up.
unfoldable pub reply_failed : Reason → InviteRequest → Effect
unfolding set_status
reply_failed e i = then_do (set_status failed e i) (λ j. call_result false j.error j.remote_sdp j)

-- The peer's description is taken and acknowledged.
unfoldable pub take_remote : Option SdpDescription → Bool → InviteRequest → Effect
unfolding set_status to_bye reply_failed
take_remote none acked i = then_do (to_bye (given []) i) (reply_failed sdp_not_parsed)
take_remote (some sdp) acked i =
    let j : InviteRequest = record i { remote_sdp = some sdp } in
    if acked
    then then_do (then_do (j, sent_ack ∷ []) (set_status ack no_reason))
        (λ k. call_result true k.error k.remote_sdp k)
    else then_do (to_bye (given []) j) (reply_failed ack_not_sent)

-- A final reply that accepts.
unfoldable pub on_accepted : SdpFormat → Option Text → Bool → InviteRequest → Effect
unfolding to_bye reply_failed take_remote
on_accepted f none acked i = then_do (to_bye (given []) i) (reply_failed no_remote_sdp)
on_accepted f (some []) acked i = then_do (to_bye (given []) i) (reply_failed no_remote_sdp)
on_accepted f (some (x ∷ xs)) acked i = take_remote (f.parse (x ∷ xs)) acked i

-- The transaction is over, and a dialog that comes with the reply is kept.
abbrev pub attached : Bool → InviteRequest → InviteRequest
attached true i = record i { has_transaction = false; has_dialog = true }
attached false i = record i { has_transaction = false }

-- A final reply of a session that is in the map.
unfoldable pub on_final :
    SipCodes → SdpFormat → ℕ → Bool → Option Text → Bool → InviteRequest → Effect
unfolding on_accepted reply_failed
on_final codes f code dialog payload acked i =
    if codes.is_success code
    then on_accepted f payload acked (attached dialog i)
    else reply_failed (remote_code code) (attached dialog i)

-- on_invite_reply: the code, whether the reply comes with a dialog, its payload, and whether the
-- acknowledgement can be sent.
unfoldable pub on_invite_reply :
    SipCodes → SdpFormat → ℕ → Bool → Option Text → Bool → InviteRequest → Effect
unfolding get_invite set_status on_final
on_invite_reply codes f code dialog payload acked i = elim (get_invite i) [
  | none ↦ (i, [])
  | some j ↦
      if codes.is_info code
      then set_status trying no_reason j
      else on_final codes f code dialog payload acked j
]

unfoldable pub on_recv_bye : InviteRequest → Effect
unfolding get_invite set_status
on_recv_bye i = elim (get_invite i) [
  | none ↦ (i, replied 481 none ∷ [])
  | some j ↦ then_do (set_status bye they_bye j) (λ k. (k, replied 200 none ∷ []))
]

unfoldable pub on_recv_cancel : InviteRequest → Effect
unfolding get_invite set_status
on_recv_cancel i = elim (get_invite i) [
  | none ↦ (i, replied 481 none ∷ [])
  | some j ↦ then_do (set_status cancel they_cancel j) (λ k. (k, replied 200 none ∷ []))
]

unfoldable pub on_recv_ack : Bool → InviteRequest → Effect
unfolding get_invite set_status
on_recv_ack dialog i =
    if not dialog
    then (i, [])
    else elim (get_invite i) [ none ↦ (i, []) | some j ↦ set_status ack no_reason j ]

unfoldable pub on_recv_message : InviteRequest → Effect
unfolding get_invite
on_recv_message i = elim (get_invite i) [
  | none ↦ (i, replied 481 none ∷ [])
  | some j ↦ (j, replied 404 none ∷ [])
]

-- What on_recv_info reads of an INFO request: no payload, a first line that names no method, or a
-- method with the sequence number, the fields after it being readable or not.
pub data Info : Type 0 where
  no_info no_method : Info
  unreadable_after play pause teardown_info : ℕ → Info

-- What on_recv_info does for a session of the map. No code sets play_control_callback_, so that it is not there.
abbrev pub answer_info : Info → InviteRequest → Effect
answer_info no_info i = (i, replied 400 none ∷ [])
answer_info no_method i = (i, replied 400 none ∷ [])
answer_info (unreadable_after seq) i =
    if seq == 0 then (i, replied 400 none ∷ []) else (i, info_replied 400 ∷ [])
answer_info (play seq) i = (i, info_replied 406 ∷ [])
answer_info (pause seq) i = (i, info_replied 406 ∷ [])
answer_info (teardown_info seq) i = then_do (i, info_replied 200 ∷ []) (to_bye recv_teardown)

unfoldable pub on_recv_info : Info → InviteRequest → Effect
unfolding get_invite to_bye
on_recv_info info i = elim (get_invite i) [
  | none ↦ (i, replied 481 none ∷ [])
  | some j ↦ answer_info info j
]
