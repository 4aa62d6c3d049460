-- ===== src/Subscribe/Steps.antt =====
-- src/request/subscribe_request_impl.cpp: starting and ending a subscription, the replies to it, its
-- delayed tasks, and the changes of its platform.
use libgb.Base.{
  ℕ, zero, suc, Bool, true, false, not, Option, none, some, List, [], ◌∷◌, if◌then◌else◌, leb, ◌==◌,
}
use libgb.Message.{Text}
use libgb.Sip.{SipCodes}
use libgb.Subscribe.{
  active, terminated, invalid, deactivated, rejected, no_reason, platform_offline, peer_returned,
  send_failed, Task, resubscribe, check_expiry, NotifyState, says_active, sent_notify, with_task,
  SubscribeRequest, Effect, then_do, del_subscribe, set_status, time_remain, delay_ms, Attempt,
  made, to_subscribe,
}

-- remove_platform_status_cb of the platform erases the key that is the address of its own parameter;
-- the callbacks stand under the addresses of subscriptions, so that the callback stays.
abbrev pub remove_platform_status_cb : SubscribeRequest → SubscribeRequest
remove_platform_status_cb s = s

unfoldable pub shutdown : SubscribeRequest → SubscribeRequest
unfolding del_subscribe
shutdown s =
    if s.running
    then del_subscribe (remove_platform_status_cb (record s { running = false }))
    else s

-- subscribe_send_notify without a message; the reply to it changes nothing.
abbrev pub notify_by : Attempt → NotifyState → SubscribeRequest → Effect
notify_by made state s = (s, sent_notify state ∷ [])
notify_by _ state s = (s, [])

abbrev pub subscribe_send_notify : Attempt → NotifyState → SubscribeRequest → Effect
subscribe_send_notify attempt state s = elim s.platform [
  | none ↦ (del_subscribe s, [])
  | some online ↦ notify_by attempt state s
]

-- The start of a subscription that a peer has asked for; the expires of the subscription is given.
abbrev pub start_incoming : Attempt → ℕ → SubscribeRequest → Effect
start_incoming attempt expires s =
    then_do (subscribe_send_notify attempt (says_active expires) s)
      (λ t. (with_task (some (check_expiry expires)) t, []))

abbrev pub start_outgoing : ℕ → Attempt → SubscribeRequest → Effect
start_outgoing now attempt s = elim s.platform [
  | none ↦ (del_subscribe s, [])
  | some online ↦
      then_do (if online then to_subscribe now attempt s.info_expires s else (s, []))
        (λ t. (record t { watching = true }, []))
]

-- start. For an incoming subscription whose sip_subscribe_ptr_ is not set there is no result.
unfoldable pub start : ℕ → Attempt → SubscribeRequest → Option Effect
unfolding del_subscribe to_subscribe
start now attempt s =
    if s.running
    then some (s, [])
    else (let t : SubscribeRequest = record s { running = true; registered = true } in
        if s.incoming
        then elim s.subscription [
          | none ↦ none
          | some expires ↦ some (start_incoming attempt expires t)
        ]
        else some (start_outgoing now attempt t))

-- The platform calls back on a change of its status, if the subscription has asked for it.
unfoldable pub on_platform_status : ℕ → Attempt → Bool → SubscribeRequest → Effect
unfolding to_subscribe set_status
on_platform_status now attempt online s =
    let t : SubscribeRequest = record s { platform = some online } in
    if s.watching
    then (if online
        then to_subscribe now attempt s.info_expires t
        else set_status now terminated rejected platform_offline (with_task none t))
    else (t, [])

-- The callback of uac_send: a failure is tried again after three seconds.
unfoldable pub on_sent : ℕ → Bool → Text → SubscribeRequest → Effect
unfolding set_status
on_sent now ok err s =
    if ok
    then (s, [])
    else set_status now terminated invalid (send_failed err) (with_task (some (resubscribe 3000)) s)

-- A reply that accepts.
abbrev pub on_accepted : ℕ → SubscribeRequest → Effect
on_accepted now s =
    if s.expires == 0
    then set_status now terminated deactivated no_reason
        (record (with_task none s) { subscription = some s.expires; terminated_time = now })
    else set_status now active invalid no_reason
        (record (with_task (some (resubscribe (delay_ms s.expires 5))) s) {
          subscription = some s.expires;
          subscribe_time = now;
        })

abbrev pub on_refused : SipCodes → ℕ → Attempt → ℕ → SubscribeRequest → Effect
on_refused codes now attempt code s =
    let t : SubscribeRequest = record (with_task none s) {
      terminated_time = if s.subscribe_time == 0 then s.terminated_time else now;
      subscription = none;
    } in
    then_do (set_status now terminated rejected (peer_returned code) t) (λ u.
      if codes.is_server_error code then to_subscribe now attempt u.info_expires u else (u, []))

-- on_subscribe_reply.
unfoldable pub on_subscribe_reply : SipCodes → ℕ → Attempt → ℕ → SubscribeRequest → Effect
unfolding set_status to_subscribe
on_subscribe_reply codes now attempt code s =
    if not s.registered
    then (s, [])
    else if codes.is_info code
    then (s, [])
    else if codes.is_success code
    then on_accepted now s
    else on_refused codes now attempt code s

-- The delayed task runs, if there is one.
abbrev pub run_task : ℕ → Attempt → Task → SubscribeRequest → Effect
run_task now attempt (resubscribe ms) s = to_subscribe now attempt s.info_expires s
run_task now attempt (check_expiry ms) s =
    if leb (time_remain now s) 1 then (shutdown s, []) else (s, [])

unfoldable pub on_task : ℕ → Attempt → SubscribeRequest → Effect
unfolding to_subscribe time_remain shutdown
on_task now attempt s = elim s.delay_task [
  | none ↦ (s, [])
  | some task ↦ run_task now attempt task (record s { delay_task = none })
]

-- One of the tasks, by its place, and the others.
abbrev pub task_at : ℕ → List Task → Option (Task × List Task)
task_at n [] = none
task_at zero (task ∷ more) = some (task, more)
task_at (suc n) (task ∷ more) =
    let later = task_at n more in
    elim later [ none ↦ none | some (found, others) ↦ some (found, task ∷ others) ]

-- A task runs whose handle was dropped.
unfoldable pub on_dropped_task : ℕ → Attempt → ℕ → SubscribeRequest → Effect
unfolding to_subscribe time_remain shutdown
on_dropped_task now attempt n s = elim (task_at n s.dropped_tasks) [
  | none ↦ (s, [])
  | some (task, others) ↦ run_task now attempt task (record s { dropped_tasks = others })
]
