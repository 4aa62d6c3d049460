-- ===== src/Invite.antt =====
-- src/request/invite_request_impl.h and .cpp: the state of an invite session, its status and its
-- end. The entry of invite_request_map_ under a session's address is always that session, so that
-- the session being in the map is kept as a field. A weak pointer is whether its target is there.
pub mod Steps
pub mod Incoming
pub mod Run
pub mod Open
pub mod Life
pub mod Results
pub mod Reports
pub mod Closing
pub mod Outcome
mod Examples
use libgb.Base.{
  ℕ, Bool, true, false, not, ◌&&◌, Option, none, some, List, [], ◌∷◌, ◌++◌, if◌then◌else◌, ltb,
  ◌==◌,
}
use libgb.Message.{Text}
use libgb.Sdp.{SdpDescription}

pub data InviteStatus : Type 0 where
  invite trying ack bye cancel failed : InviteStatus

abbrev pub status_code : InviteStatus → ℕ
status_code invite = 0
status_code trying = 1
status_code ack = 2
status_code bye = 3
status_code cancel = 4
status_code failed = 5

-- What error_ holds; texts from outside are kept.
pub data Reason : Type 0 where
  no_reason no_local_sdp they_bye they_cancel no_remote_sdp ack_not_sent sdp_not_parsed
        local_sdp_error rejected wait_ack_timeout teardown recv_teardown :
      Reason
  remote_code : ℕ → Reason
  given : Text → Reason

-- What a session does to its surroundings, in order.
pub data Action : Type 0 where
  status_called : InviteStatus → Reason → Action
  result_called : Bool → Reason → Option SdpDescription → Action
  replied : ℕ → Option Text → Action
  sent_invite : Text → Action
  sent_ack sent_cancel sent_bye sent_teardown : Action
  info_replied : ℕ → Action
  offered set_ack_timer : Action

pub record InviteRequest : Type 0 where
  pub local_sdp : Option SdpDescription
  pub remote_sdp : Option SdpDescription
  pub has_platform : Bool
  pub has_dialog : Bool
  pub has_transaction : Bool
  pub error : Reason
  pub status : InviteStatus
  pub has_rcb : Bool
  pub has_status_cb : Bool
  -- membership of invite_request_map_
  pub registered : Bool

-- The two constructors: an outgoing session has a platform and a description to offer.
unfoldable pub new_invite_request : Option SdpDescription → Bool → Bool → InviteRequest
new_invite_request sdp platform status_cb = record {
  local_sdp = sdp;
  remote_sdp = none;
  has_platform = platform;
  has_dialog = false;
  has_transaction = false;
  error = no_reason;
  status = invite;
  has_rcb = false;
  has_status_cb = status_cb;
  registered = false;
}

unfoldable pub get_invite : InviteRequest → Option InviteRequest
get_invite i = if i.registered then some i else none

unfoldable pub add_invite : InviteRequest → InviteRequest
add_invite i = record i { registered = true }

unfoldable pub remove_invite : InviteRequest → InviteRequest
remove_invite i = record i { registered = false }

abbrev pub is_closed : InviteStatus → Bool
is_closed s = ltb 2 (status_code s)

-- The status callback, if the status has changed.
abbrev pub status_report : InviteStatus → Reason → InviteRequest → List Action
status_report s e i =
    if not (status_code i.status == status_code s) && i.has_status_cb
    then status_called s e ∷ []
    else []

unfoldable pub set_status : InviteStatus → Reason → InviteRequest → InviteRequest × List Action
unfolding remove_invite
set_status s e i =
    let j : InviteRequest = record i { error = e; status = s } in
    (if is_closed s then remove_invite j else j, status_report s e i)

-- One operation and then another, with the actions of both.
abbrev pub then_do :
    InviteRequest × List Action
    → (InviteRequest → InviteRequest × List Action)
    → InviteRequest × List Action
then_do (i, xs) f = let (j, bs) = f i in (j, xs ++ bs)

unfoldable pub to_bye : Reason → InviteRequest → InviteRequest × List Action
unfolding set_status
to_bye e i =
    if ltb (status_code ack) (status_code i.status)
    then (i, [])
    else if not i.has_platform
    then set_status bye e i
    else if i.has_transaction
    then then_do (i, sent_cancel ∷ []) (set_status cancel e)
    else if i.has_dialog
    then then_do (i, sent_bye ∷ []) (set_status bye e)
    else set_status cancel e i

unfoldable pub to_teardown : Reason → InviteRequest → InviteRequest × List Action
unfolding to_bye
to_teardown e i =
    if not i.has_platform
    then (i, [])
    else if i.has_dialog
    then to_bye teardown i
    else then_do (i, sent_teardown ∷ []) (to_bye e)
