-- ===== src/Invite/Closing.antt =====
-- The end of a session, and what reaches it afterwards.
use libgb.Base.{
  ◌≡◌, refl, Bool, true, false, not, ◌&&◌, none, List, [], ◌∷◌, ◌++◌, arith, ◌==◌, if◌then◌else◌,
  &&-true,
}
use libgb.Sip.{SipCodes}
use libgb.Sdp.{SdpFormat}
use libgb.Invite.{
  Reason, Action, status_called, replied, sent_cancel, sent_bye, InviteRequest, to_bye, is_closed,
  set_status, get_invite, remove_invite,
}
use libgb.Invite.Steps.{
  on_invite_reply, on_recv_bye, on_recv_cancel, on_recv_ack, on_recv_message, on_recv_info,
}
use libgb.Invite.Incoming.{on_ack_timer}
use libgb.Invite.Run.{
  Event, step, run, answer, close, teardown_call, sent, reply, bye_request, cancel_request,
  message_request, ack_timer, platform_gone, ack_request, info_request,
}

-- What to_bye tells the peer: a session whose request is not answered is cancelled, and one that
-- has a dialog is ended by BYE; nothing is sent without a platform.
abbrev pub farewell : InviteRequest → List Action
farewell i =
    if not i.has_platform
    then []
    else if i.has_transaction
    then sent_cancel ∷ []
    else if i.has_dialog
    then sent_bye ∷ []
    else []

-- Ending an open session tells the peer by CANCEL or BYE, as the state of the request has it, calls
-- the status callback if there is one, takes the session out of the map and keeps the reason;
-- ending it once more does nothing.
pub to_bye-to_bye :
    (e d : Reason) (i : InviteRequest)
    → is_closed i.status ≡ false
    → let (j, acts) = to_bye e i in
      (is_closed j.status ≡ true)
      × (j.registered ≡ false)
      × (j.error ≡ e)
      × (acts ≡ farewell i ++ (if i.has_status_cb then status_called j.status e ∷ [] else []))
      × (to_bye d j ≡ (j, []))
unfolding to_bye set_status remove_invite
to_bye-to_bye e d i open_yet = ground arith

-- What comes from the peer or from the timer.
abbrev pub from_peer : Event → Bool
from_peer (sent ok err) = false
from_peer platform_gone = false
from_peer (answer code sdp) = false
from_peer (close e) = false
from_peer (teardown_call e) = false
from_peer _ = true

unfoldable pub all_from_peer : List Event → Bool
all_from_peer [] = true
all_from_peer (e ∷ es) = from_peer e && all_from_peer es

abbrev pub is_refusal : Action → Bool
is_refusal (replied code none) = code == 481
is_refusal _ = false

pub all_refusals : List Action → Bool
all_refusals [] = true
all_refusals (a ∷ xs) = is_refusal a && all_refusals xs

abbrev pub Ended : InviteRequest → Type 0
Ended i = (i.registered ≡ false) × (is_closed i.status ≡ true)

step-Ended :
    (codes : SipCodes) (f : SdpFormat) (e : Event) (i : InviteRequest)
    → Ended i
    → from_peer e ≡ true
    → ((step codes f e i).0 ≡ i) × (all_refusals (step codes f e i).1 ≡ true)
unfolding step get_invite on_invite_reply on_recv_bye on_recv_cancel on_recv_ack on_recv_message
    on_recv_info on_ack_timer to_bye all_refusals
step-Ended codes f (sent ok err) i h p = absurd (cc)
step-Ended codes f platform_gone i h p = absurd (cc)
step-Ended codes f (answer code sdp) i h p = absurd (cc)
step-Ended codes f (close e) i h p = absurd (cc)
step-Ended codes f (teardown_call e) i h p = absurd (cc)
step-Ended codes f (reply code dialog payload acked) i h p = ground arith
step-Ended codes f bye_request i h p = ground arith
step-Ended codes f cancel_request i h p = ground arith
step-Ended codes f message_request i h p = ground arith
step-Ended codes f ack_timer i h p = ground arith
step-Ended codes f (ack_request dialog) i h p = ground arith
step-Ended codes f (info_request info) i h p = ground arith

refusals-append :
    (xs bs : List Action)
    → all_refusals xs ≡ true
    → all_refusals bs ≡ true
    → all_refusals (xs ++ bs) ≡ true
unfolding all_refusals
refusals-append [] bs h k = k
refusals-append (a ∷ xs) bs h k =
    let (first, rest) = &&-true (is_refusal a) (all_refusals xs) h in
    let later = refusals-append xs bs rest k in ground arith

-- A closed session out of the map is left as it is by everything that the peer sends and by its
-- timer, and the peer is answered 481 or nothing.
pub run-Ended :
    (codes : SipCodes) (f : SdpFormat) (es : List Event) (i : InviteRequest)
    → i.registered ≡ false
    → is_closed i.status ≡ true
    → all_from_peer es ≡ true
    → ((run codes f es i).0 ≡ i) × (all_refusals (run codes f es i).1 ≡ true)
unfolding run all_from_peer all_refusals
run-Ended codes f [] i gone closed p = (refl, refl)
run-Ended codes f (e ∷ es) i gone closed p =
    let (peer, peers) = &&-true _ _ p in
    let (same, refused) = step-Ended codes f e i (gone, closed) peer in
    let rest : ((run codes f es (step codes f e i).0).0 ≡ i)
        × (all_refusals (run codes f es (step codes f e i).0).1 ≡ true) =
      rw same (run-Ended codes f es i gone closed peers) in
    (
      rest.0,
      refusals-append (step codes f e i).1 (run codes f es (step codes f e i).0).1 refused rest.1,
    )
