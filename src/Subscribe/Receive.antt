-- ===== src/Subscribe/Receive.antt =====
-- src/request/subscribe_request_impl.cpp: what a peer sends to a subscription, and the life of a
-- subscription as a sequence of events.
use libgb.Base.{
  ℕ, ◌+◌, ◌-◌, ◌/◌, Bool, true, false, not, ◌&&◌, Option, none, some, List, [], ◌∷◌, ◌++◌,
  if◌then◌else◌, ltb, ◌==◌,
}
use libgb.Message.{Text}
use libgb.Sip.{SipCodes}
use libgb.Subscribe.{
  active, pending, terminated, TerminatedType, invalid, deactivated, expired, no_reason,
  was_deactivated, received, resubscribe, NotifyState, says_active, says_pending, says_terminated,
  says_nothing, replied, SubscribeRequest, with_task, new_incoming, Effect, then_do, set_status,
  delay_ms, Attempt, to_subscribe,
}
use libgb.Subscribe.Steps.{
  on_dropped_task, shutdown, start, on_platform_status, on_sent, on_subscribe_reply, on_task,
}

-- Whether the announced time is so much longer than what is left that the peer has extended the
-- subscription; what is left may be negative.
abbrev pub is_extended : ℕ → ℕ → SubscribeRequest → Bool
is_extended now announced s = ltb 30 announced && elim s.subscription [
  | none ↦ ltb 5 announced
  | some expires ↦
      if expires == 0
      then ltb 5 announced
      else ltb (expires + 5) (announced + (now - s.subscribe_time) / 1000000)
]

-- The extension writes through sip_subscribe_ptr_ without a test: there is no result if it is not
-- set.
abbrev pub extend : ℕ → ℕ → SubscribeRequest → Option SubscribeRequest
extend now announced s = elim s.subscription [
  | none ↦ none
  | some expires ↦ some (record (with_task (some (resubscribe (delay_ms announced 30))) s) {
    subscribe_time = now;
    subscription = some announced;
    info_expires = announced;
  })
]

abbrev pub then_active : ℕ → Option SubscribeRequest → Option Effect
then_active now none = none
then_active now (some s) = some (set_status now active invalid no_reason s)

-- The reasons that on_recv_notify knows; with any other the status stays.
abbrev pub ended_by : ℕ → TerminatedType → SubscribeRequest → Effect
ended_by now invalid s = (s, [])
ended_by now expired s = (s, [])
ended_by now type s = set_status now terminated type (received type) s

-- The state that a NOTIFY request says.
unfoldable pub take_state : ℕ → NotifyState → SubscribeRequest → Option Effect
unfolding set_status
take_state now says_nothing s = some (s, [])
take_state now (says_active announced) s =
    then_active now (if is_extended now announced s then extend now announced s else some s)
take_state now says_pending s = some (set_status now pending invalid no_reason s)
take_state now (says_terminated type) s =
    some (
      then_do (ended_by now type (with_task none s))
        (λ t. (record t { queued = t.queued + 1 }, [])))

-- The message of a NOTIFY request: none, one that is no XML, or one that the application gives a code.
pub data Payload : Type 0 where
  without_message bad_xml : Payload
  accepted : ℕ → Payload

abbrev pub payload_code : Payload → ℕ
payload_code without_message = 200
payload_code bad_xml = 400
payload_code (accepted code) = code

abbrev pub reply_with : ℕ → Option Effect → Option Effect
reply_with code none = none
reply_with code (some r) = some (then_do r (λ t. (t, replied code ∷ [])))

-- on_recv_notify, for a subscription that is in the map.
unfoldable pub on_recv_notify : ℕ → NotifyState → Payload → SubscribeRequest → Option Effect
unfolding take_state
on_recv_notify now state payload s = reply_with (payload_code payload) (take_state now state s)

-- on_subscribe, after the SIP library has written the expires of the request into the subscription.
unfoldable pub on_subscribe : ℕ → ℕ → SubscribeRequest → Effect
unfolding set_status
on_subscribe now expires s =
    let t : SubscribeRequest = record s { subscription = some expires } in
    then_do
      (if expires == 0
        then set_status now terminated deactivated was_deactivated t
        else set_status now active invalid no_reason t)
      (λ u. (u, replied 200 ∷ []))

-- recv_subscribe_request for a subscription that is not known: whether the request names a platform,
-- whether the server knows it, the expires, and whether its message is XML or missing.
unfoldable pub recv_subscribe_request : ℕ → Bool → Bool → ℕ → Bool → Option SubscribeRequest × ℕ
unfolding new_incoming
recv_subscribe_request now named known expires readable =
    if not named
    then (none, 400)
    else if not known
    then (none, 403)
    else if expires == 0
    then (none, 200)
    else if ltb expires 5
    then (none, 400)
    else if not readable
    then (none, 400)
    else (some (new_incoming now expires), 200)

-- The poller runs a queued call of to_subscribe.
unfoldable pub run_queued : ℕ → Attempt → SubscribeRequest → Effect
unfolding to_subscribe
run_queued now attempt s =
    if s.queued == 0
    then (s, [])
    else to_subscribe now attempt s.info_expires (record s { queued = s.queued - 1 })

pub data Event : Type 0 where
  started platform_status_on platform_status_off task_due queue_runs : Attempt → Event
  platform_gone closed : Event
  sent : Bool → Text → Event
  reply : Attempt → ℕ → Event
  notify : NotifyState → Payload → Event
  refreshed : ℕ → Event
  dropped_task_due : Attempt → ℕ → Event

module _ (codes : SipCodes) where
  -- One event at a time; there is no result if the code dereferences a pointer that is not set.
  unfoldable pub step : ℕ → Event → SubscribeRequest → Option Effect
  unfolding start on_platform_status on_task run_queued shutdown on_sent on_subscribe_reply
      on_recv_notify on_subscribe on_dropped_task
  step now (started attempt) s = start now attempt s
  step now (platform_status_on attempt) s = some (on_platform_status now attempt true s)
  step now (platform_status_off attempt) s = some (on_platform_status now attempt false s)
  step now (task_due attempt) s = some (on_task now attempt s)
  step now (queue_runs attempt) s = some (run_queued now attempt s)
  step now platform_gone s = some (record s { platform = none }, [])
  step now (dropped_task_due attempt n) s = some (on_dropped_task now attempt n s)
  step now closed s = some (shutdown s, [])
  step now (sent ok err) s = some (on_sent now ok err s)
  step now (reply attempt code) s = some (on_subscribe_reply codes now attempt code s)
  step now (notify state payload) s =
      if s.registered then on_recv_notify now state payload s else some (s, [])
  step now (refreshed expires) s =
      if s.registered then some (on_subscribe now expires s) else some (s, [])

  abbrev pub continue_with : Option Effect → (SubscribeRequest → Option Effect) → Option Effect
  continue_with none g = none
  continue_with (some (s, xs)) g = elim (g s) [ none ↦ none | some (t, bs) ↦ some (t, xs ++ bs) ]

  unfoldable pub run : List (ℕ × Event) → SubscribeRequest → Option Effect
  unfolding step
  run [] s = some (s, [])
  run ((now, e) ∷ es) s = continue_with (step now e s) (run es)
