-- ===== src/Subscribe/Renewal.antt =====
-- When the delayed tasks of a subscription fall due.
use libgb.Base.{ℕ, ◌+◌, ◌-◌, ◌*◌, ◌^◌, ◌≤◌, ◌<◌, ◌≡◌, true, false, none, some, List, arith}
use libgb.Sip.{SipCodes}
use libgb.Subscribe.{
  active, resubscribe, check_expiry, Action, SubscribeRequest, new_incoming, new_subscribe, Attempt,
  made, time_remain, set_status,
}
use libgb.Subscribe.Steps.{on_subscribe_reply, on_task, start, shutdown, on_accepted}
use libgb.Subscribe.Receive.{recv_subscribe_request}

-- A final reply with a success code to a subscription that is in the map and has asked for five to
-- 2147488 seconds makes it active, and sets a task that falls due when five seconds of it are left.
-- From 2147489 seconds on the delay does not fit the int that it is computed in.
pub time_remain-on_subscribe_reply :
    (codes : SipCodes) (now : ℕ) (attempt : Attempt) (code : ℕ) (s : SubscribeRequest)
    → s.registered ≡ true
    → codes.is_info code ≡ false
    → codes.is_success code ≡ true
    → 5 ≤ s.expires
    → s.expires ≤ 2147488
    → (t : SubscribeRequest) × (ms : ℕ) × ((on_subscribe_reply codes now attempt code s).0 ≡ t)
      × (t.status ≡ active)
      × (t.delay_task ≡ some (resubscribe ms))
      × (time_remain (now + ms * 1000) t ≡ 5)
unfolding on_subscribe_reply set_status time_remain
time_remain-on_subscribe_reply codes now attempt code s here final ok long fits = (
  (on_accepted now s).0,
  (s.expires - 5) * 1000,
  ground arith,
  ground arith,
  ground arith,
  ground arith,
)

-- A final reply with a success code to a subscription that is in the map and has asked for one to
-- four seconds sets a task with a delay of at least 2 ^ 63 milliseconds.
delay-on_subscribe_reply :
    (codes : SipCodes) (now : ℕ) (attempt : Attempt) (code : ℕ) (s : SubscribeRequest)
    → s.registered ≡ true
    → codes.is_info code ≡ false
    → codes.is_success code ≡ true
    → 0 < s.expires
    → s.expires < 5
    → (ms : ℕ) × ((on_subscribe_reply codes now attempt code s).0.delay_task
        ≡ some (resubscribe ms))
      × (2 ^ 63 ≤ ms)
unfolding on_subscribe_reply set_status
delay-on_subscribe_reply codes now attempt code s here final ok some_time short =
    (2 ^ 64 - (5 - s.expires) * 1000, ground arith, omega arith)

-- A subscription that a peer's request has made and that is started within a second of it: when
-- its task falls due, after as many milliseconds as the subscription has seconds, it stays in the
-- map, and no task that would end it is left.
on_task-start :
    (t0 t1 expires : ℕ) (s t : SubscribeRequest) (acts : List Action) (attempt : Attempt)
    → recv_subscribe_request t0 true true expires true ≡ (some s, 200)
    → t0 ≤ t1
    → t1 ≤ t0 + 1000000
    → start t1 made s ≡ some (t, acts)
    → (t.delay_task ≡ some (check_expiry expires))
      × ((on_task (t1 + expires * 1000) attempt t).0.registered ≡ true)
      × ((on_task (t1 + expires * 1000) attempt t).0.delay_task ≡ none)
unfolding recv_subscribe_request start on_task shutdown new_incoming new_subscribe time_remain
on_task-start t0 t1 expires s t acts attempt asked later soon begun =
    (ground arith, ground arith, ground arith)
