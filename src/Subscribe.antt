-- ===== src/Subscribe.antt =====
-- src/request/subscribe_request_impl.h and .cpp: the state of a subscription, its status, and the
-- sending of SUBSCRIBE. The entry of subscribe_request_map_ under a subscription's address always is
-- that subscription, so that its being in the map is kept as a field. Times are microseconds, delays
-- are milliseconds.
pub mod Steps
pub mod Receive
pub mod Renewal
pub mod Never
pub mod Notify
mod Examples
use libgb.Base.{
  ℕ, ◌+◌, ◌-◌, ◌*◌, ◌/◌, ◌^◌, Bool, true, false, not, Option, none, some, List, [], ◌∷◌, ◌++◌,
  if◌then◌else◌, leb, ◌==◌, as_delay,
}
use libgb.Message.{Text}

pub data SubscriberStatus : Type 0 where
  unknown active pending terminated : SubscriberStatus

pub data TerminatedType : Type 0 where
  invalid deactivated timeout rejected noresource probation giveup expired invariant :
      TerminatedType

-- What error_ holds; texts from outside are kept.
pub data Reason : Type 0 where
  no_reason was_deactivated platform_offline : Reason
  received : TerminatedType → Reason
  peer_returned : ℕ → Reason
  send_failed : Text → Reason

-- What a delayed task does: subscribe again, or look whether the subscription has expired.
pub data Task : Type 0 where
  resubscribe check_expiry : ℕ → Task

-- The state of a subscription as a NOTIFY request says it.
pub data NotifyState : Type 0 where
  says_active : ℕ → NotifyState
  says_pending : NotifyState
  says_terminated : TerminatedType → NotifyState
  says_nothing : NotifyState

pub data Action : Type 0 where
  status_queued : Action
  sent_subscribe : ℕ → Bool → Action
  sent_notify : NotifyState → Action
  replied : ℕ → Action

pub record SubscribeRequest : Type 0 where
  pub incoming : Bool
  -- whether the platform exists, and whether it is online
  pub platform : Option Bool
  pub running : Bool
  pub registered : Bool
  -- whether the platform calls on a change of its status
  pub watching : Bool
  pub status : SubscriberStatus
  pub terminated_type : TerminatedType
  pub error : Reason
  -- the expires of sip_subscribe_ptr_, if it is set
  pub subscription : Option ℕ
  pub expires : ℕ
  pub info_expires : ℕ
  pub subscribe_time : ℕ
  pub terminated_time : ℕ
  pub delay_task : Option Task
  -- the tasks whose handle was dropped and that were not cancelled
  pub dropped_tasks : List Task
  -- calls of to_subscribe that wait in the poller
  pub queued : ℕ

-- The two constructors.
unfoldable pub new_subscribe : Option Bool → ℕ → SubscribeRequest
new_subscribe platform info_expires = record {
  incoming = false;
  platform = platform;
  running = false;
  registered = false;
  watching = false;
  status = terminated;
  terminated_type = invalid;
  error = no_reason;
  subscription = none;
  expires = 0;
  info_expires = info_expires;
  subscribe_time = 0;
  terminated_time = 0;
  delay_task = none;
  dropped_tasks = [];
  queued = 0;
}

unfoldable pub new_incoming : ℕ → ℕ → SubscribeRequest
unfolding new_subscribe
new_incoming now expires = record (new_subscribe (some true) 3600) {
  incoming = true;
  subscribe_time = now;
  status = pending;
  expires = expires;
  subscription = some expires;
}

-- An operation's result, with its actions.
abbrev pub Effect : Type 0
Effect = SubscribeRequest × List Action

abbrev pub then_do : Effect → (SubscribeRequest → Effect) → Effect
then_do (s, xs) f = let (t, bs) = f s in (t, xs ++ bs)

-- The handle of a task is replaced or dropped, without a call of cancel: whether the task then still runs is
-- left open.
abbrev pub with_task : Option Task → SubscribeRequest → SubscribeRequest
with_task next s = record s {
  delay_task = next;
  dropped_tasks = elim s.delay_task [ none ↦ s.dropped_tasks | some task ↦ task ∷ s.dropped_tasks ];
}

unfoldable pub del_subscribe : SubscribeRequest → SubscribeRequest
del_subscribe s = record s { registered = false }

abbrev pub is_terminated : SubscriberStatus → Bool
is_terminated terminated = true
is_terminated _ = false

unfoldable pub set_status :
    ℕ → SubscriberStatus → TerminatedType → Reason → SubscribeRequest → Effect
set_status now status type reason s = (
  record s {
    status = status;
    terminated_type = type;
    error = reason;
    terminated_time = if is_terminated status then now else s.terminated_time;
  },
  status_queued ∷ [],
)

-- The whole seconds that are left, as time_remain has them, where they are not negative.
unfoldable pub time_remain : ℕ → SubscribeRequest → ℕ
time_remain now s = elim s.subscription [
  | none ↦ 0
  | some expires ↦ if expires == 0 then 0 else expires - (now - s.subscribe_time) / 1000000
]

-- (expires - margin) * 1000 in an int, as the unsigned delay of 64 bits that it becomes.
abbrev pub delay_ms : ℕ → ℕ → ℕ
delay_ms expires margin =
    as_delay
      (if leb margin expires then (expires - margin) * 1000 else 2 ^ 32 - (margin - expires) * 1000)

-- What the SIP library gives to_subscribe: no agent, no transaction, or a transaction.
pub data Attempt : Type 0 where
  no_agent no_transaction made : Attempt

abbrev pub is_new : Option ℕ → Bool
is_new none = true
is_new (some e) = false

-- to_subscribe with a transaction: a new subscription is pending.
abbrev pub send_subscribe : ℕ → ℕ → SubscribeRequest → Effect
send_subscribe now expires s =
    if is_new s.subscription
    then then_do (set_status now pending s.terminated_type no_reason s)
        (λ t. (t, sent_subscribe s.info_expires true ∷ []))
    else (s, sent_subscribe expires false ∷ [])

abbrev pub attempt_subscribe : ℕ → Attempt → ℕ → SubscribeRequest → Effect
attempt_subscribe now no_agent expires s = (s, [])
attempt_subscribe now no_transaction expires s = (record s { expires = expires }, [])
attempt_subscribe now made expires s = send_subscribe now expires (record s { expires = expires })

unfoldable pub to_subscribe : ℕ → Attempt → ℕ → SubscribeRequest → Effect
unfolding set_status del_subscribe
to_subscribe now attempt expires s = elim s.platform [
  | none ↦ (del_subscribe s, [])
  | some online ↦ attempt_subscribe now attempt expires s
]
