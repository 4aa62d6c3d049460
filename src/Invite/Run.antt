-- ===== src/Invite/Run.antt =====
-- The life of an invite session as a sequence of events.
use libgb.Base.{ℕ, Bool, false, Option, none, some, List, [], ◌∷◌}
use libgb.Message.{Text}
use libgb.Sip.{SipCodes}
use libgb.Sdp.{SdpDescription, SdpFormat}
use libgb.Invite.{Reason, InviteRequest, then_do, to_bye, to_teardown}
use libgb.Invite.Steps.{
  to_invite_request, Effect, on_sent, on_invite_reply, on_recv_bye, on_recv_cancel, on_recv_ack,
  on_recv_message, Info, on_recv_info,
}
use libgb.Invite.Incoming.{handle_reply, on_ack_timer}

-- What can happen to a session after it was made or started.
pub data Event : Type 0 where
  sent : Bool → Text → Event
  reply : ℕ → Bool → Option Text → Bool → Event
  bye_request cancel_request message_request ack_timer platform_gone : Event
  ack_request : Bool → Event
  info_request : Info → Event
  answer : ℕ → Option SdpDescription → Event
  close teardown_call : Reason → Event

module _ (codes : SipCodes) (f : SdpFormat) where
  unfoldable pub step : Event → InviteRequest → Effect
  unfolding on_sent on_invite_reply on_recv_bye on_recv_cancel on_recv_ack on_recv_message
      on_recv_info handle_reply on_ack_timer to_bye to_teardown
  step (sent ok err) i = on_sent ok err i
  step (reply code dialog payload acked) i = on_invite_reply codes f code dialog payload acked i
  step bye_request i = on_recv_bye i
  step cancel_request i = on_recv_cancel i
  step message_request i = on_recv_message i
  step ack_timer i = on_ack_timer i
  step platform_gone i = (record i { has_platform = false }, [])
  step (ack_request dialog) i = on_recv_ack dialog i
  step (info_request info) i = on_recv_info info i
  step (answer code sdp) i = handle_reply codes f code sdp i
  step (close e) i = to_bye e i
  step (teardown_call e) i = to_teardown e i

  unfoldable pub run : List Event → InviteRequest → Effect
  unfolding step
  run [] i = (i, [])
  run (e ∷ es) i = then_do (step e i) (run es)

-- The calls that can reach a session: an event, or to_invite_request, with the number that make_ssrc would
-- give.
pub data Call : Type 0 where
  happened : Event → Call
  invited : ℕ → Call

module _ (codes : SipCodes) (f : SdpFormat) where
  abbrev pub state_of : Option Effect → Option InviteRequest
  state_of none = none
  state_of (some (i, acts)) = some i

  unfoldable pub call : Call → InviteRequest → Option InviteRequest
  unfolding step to_invite_request
  call (happened e) i = some (step codes f e i).0
  call (invited drawn) i = state_of (to_invite_request f drawn i)

  -- A session after calls; none, after a fault.
  unfoldable pub run_calls : List Call → InviteRequest → Option InviteRequest
  unfolding call
  run_calls [] i = some i
  run_calls (c ∷ cs) i = elim (call c i) [ none ↦ none | some j ↦ run_calls cs j ]
