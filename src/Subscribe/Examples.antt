-- ===== src/Subscribe/Examples.antt =====
-- Subscriptions at work, and the theorems at concrete subscriptions.
use libgb.Base.{ℕ, ◌+◌, ◌*◌, ◌<◌, ◌≡◌, ◌↔◌, refl, arith, true, false, none, some, List, [], ◌∷◌}
use libgb.Sip.{rfc_codes}
use libgb.Subscribe.{
  active, terminated, rejected, resubscribe, check_expiry, sent_subscribe, status_queued,
  says_active, SubscribeRequest, new_subscribe, new_incoming, made, time_remain,
}
use libgb.Subscribe.Steps.{on_subscribe_reply}
use libgb.Subscribe.Receive.{
  Event, run, started, closed, task_due, platform_status_on, reply, accepted, on_recv_notify,
}
use libgb.Subscribe.Renewal.{time_remain-on_subscribe_reply}
use libgb.Subscribe.Never.{all_lasting, run-all_lasting, shutdown_resubscribes}
use libgb.Subscribe.Notify.{
  get_notify_state, status_after, on_recv_notify_fault, on_recv_notify-get_notify_state,
}

-- A subscription that waits for its first reply.
abbrev asked : ℕ → SubscribeRequest
asked expires = record (new_subscribe (some true) expires) {
  running = true;
  registered = true;
  watching = true;
  expires = expires;
}

abbrev held : SubscribeRequest
held = record (asked 3600) {
  status = active;
  subscription = some 3600;
  delay_task = some (resubscribe 3595000);
}

time_remain-on_subscribe_reply_example :
    (t : SubscribeRequest) × (ms : ℕ) × ((on_subscribe_reply rfc_codes 1000 made 200 (asked 3600)).0
      ≡ t)
    × (t.status ≡ active)
    × (t.delay_task ≡ some (resubscribe ms))
    × (time_remain (1000 + ms * 1000) t ≡ 5)
unfolding new_subscribe
time_remain-on_subscribe_reply_example =
    time_remain-on_subscribe_reply rfc_codes 1000 made 200 (asked 3600) refl refl refl (omega arith)
      (omega arith)

abbrev received : SubscribeRequest
received = new_incoming 0 60

abbrev begun : SubscribeRequest
begun = record received { running = true; registered = true; delay_task = some (check_expiry 60) }

abbrev life : List (ℕ × Event)
life = (0, started made) ∷ (5, reply made 200) ∷ (9, closed) ∷ []

run-all_lasting_example :
    all_lasting (status_queued ∷ sent_subscribe 60 true ∷ status_queued ∷ []) ≡ true
unfolding run new_subscribe
run-all_lasting_example =
    run-all_lasting rfc_codes life (new_subscribe (some true) 60)
      (record (new_subscribe (some true) 60) {
        watching = true;
        status = active;
        subscription = some 60;
        expires = 60;
        subscribe_time = 5;
        delay_task = some (resubscribe 55000);
      })
      (status_queued ∷ sent_subscribe 60 true ∷ status_queued ∷ []) (omega arith) refl

shutdown_resubscribes_example :
    (t : SubscribeRequest) × (run rfc_codes
        ((9, closed)
          ∷ (99, task_due made)
          ∷ (99, platform_status_on made)
          ∷ (99, reply made 200)
          ∷ [])
        held
      ≡ some (t, sent_subscribe 3600 false ∷ sent_subscribe 3600 false ∷ []))
    × (t.registered ≡ false)
unfolding new_subscribe
shutdown_resubscribes_example =
    shutdown_resubscribes rfc_codes 9 99 200 3595000 3600 held true refl refl refl refl refl

on_recv_notify_fault_example :
    (on_recv_notify 7 (says_active 3600) (accepted 200) (asked 60) ≡ none) ↔ (
      ((asked 60).subscription ≡ none)
      × ((announced : ℕ) × (says_active 3600 ≡ says_active announced) × (30 < announced)))
on_recv_notify_fault_example = on_recv_notify_fault 7 (says_active 3600) (accepted 200) (asked 60)

on_recv_notify-get_notify_state_example :
    status_after (
      on_recv_notify 7
        (get_notify_state 7 (record held { status = terminated; terminated_type = rejected }))
        (accepted 200)
        held)
    ≡ some terminated
unfolding new_subscribe
on_recv_notify-get_notify_state_example =
    on_recv_notify-get_notify_state 7 (accepted 200)
      (record held { status = terminated; terminated_type = rejected }) held 3600 refl refl
