-- ===== src/Subscribe/Notify.antt =====
-- The state of a subscription at its two ends, and the message that the code does not guard against.
use libgb.Base.{ℕ, ◌<◌, ◌≡◌, ◌↔◌, ◌⊎◌, refl, Bool, true, false, Option, none, some, arith}
use libgb.Subscribe.{
  SubscriberStatus, unknown, active, pending, terminated, TerminatedType, invalid, expired,
  NotifyState, says_active, says_pending, says_terminated, says_nothing, SubscribeRequest,
  set_status, time_remain, Effect,
}
use libgb.Subscribe.Receive.{on_recv_notify, take_state, Payload, reply_with, payload_code}

abbrev pub says_of : SubscriberStatus → ℕ → TerminatedType → NotifyState
says_of active left type = says_active left
says_of pending left type = says_pending
says_of _ left type = says_terminated type

-- get_notify_state_str: the state that the notifying end says.
unfoldable pub get_notify_state : ℕ → SubscribeRequest → NotifyState
unfolding time_remain
get_notify_state now s = says_of s.status (time_remain now s) s.terminated_type

-- A status that is told as it is, with a reason that is understood if it is terminated.
abbrev pub is_told : SubscriberStatus → TerminatedType → Bool
is_told unknown type = false
is_told active type = true
is_told pending type = true
is_told terminated invalid = false
is_told terminated expired = false
is_told terminated _ = true

-- The status after a message, if the code did not fault.
abbrev pub status_after : Option Effect → Option SubscriberStatus
status_after none = none
status_after (some (t, acts)) = some t.status

fault_cases :
    (now announced code : ℕ) (s : SubscribeRequest)
    → (reply_with code (take_state now (says_active announced) s) ≡ none)
      ↔ ((s.subscription ≡ none) × (30 < announced))
unfolding take_state
fault_cases now announced code s = (λ h. ground arith, λ h. ground arith)

-- A NOTIFY request faults exactly if the subscription's pointer is not set and the request says that
-- the subscription is active for more than thirty seconds.
pub on_recv_notify_fault :
    (now : ℕ) (state : NotifyState) (payload : Payload) (s : SubscribeRequest)
    → (on_recv_notify now state payload s ≡ none) ↔ (
        (s.subscription ≡ none)
        × ((announced : ℕ) × (state ≡ says_active announced) × (30 < announced)))
unfolding on_recv_notify take_state
on_recv_notify_fault now (says_active announced) payload s =
    let (to, from) = fault_cases now announced (payload_code payload) s in
    (
      λ h. ((to h).0, (announced, refl, (to h).1)),
      λ (unset, (other, same, long)). from (unset, ground arith),
    )
on_recv_notify_fault now says_pending payload s =
    (λ h. absurd (cc), λ (unset, (other, same, long)). absurd (cc))
on_recv_notify_fault now (says_terminated type) payload s =
    (λ h. absurd (cc), λ (unset, (other, same, long)). absurd (cc))
on_recv_notify_fault now says_nothing payload s =
    (λ h. absurd (cc), λ (unset, (other, same, long)). absurd (cc))

told_status :
    (now code left held : ℕ) (status : SubscriberStatus) (type : TerminatedType)
    (s : SubscribeRequest)
    → is_told status type ≡ true
    → s.subscription ≡ some held
    → status_after (reply_with code (take_state now (says_of status left type) s)) ≡ some status
unfolding take_state set_status
told_status now code left held unknown type s told set = absurd (cc)
told_status now code left held active type s told set = ground arith
told_status now code left held pending type s told set = refl
told_status now code left held terminated type s told set = ground arith

-- A subscription whose pointer is set takes over the status that the other end tells of itself: one
-- that is active or pending, or one that is terminated for a reason other than invalid or expired.
pub on_recv_notify-get_notify_state :
    (now : ℕ) (payload : Payload) (teller s : SubscribeRequest) (held : ℕ)
    → is_told teller.status teller.terminated_type ≡ true
    → s.subscription ≡ some held
    → status_after (on_recv_notify now (get_notify_state now teller) payload s) ≡ some teller.status
unfolding on_recv_notify get_notify_state
on_recv_notify-get_notify_state now payload teller s held told set =
    told_status now (payload_code payload) (time_remain now teller) held teller.status
      teller.terminated_type s told set

-- The state told by an end that is terminated as expired, or for no valid reason, leaves the
-- status of the other end as it is.
on_recv_notify-expired :
    (now : ℕ) (payload : Payload) (teller s : SubscribeRequest)
    → teller.status ≡ terminated
    → (teller.terminated_type ≡ expired) ⊎ (teller.terminated_type ≡ invalid)
    → status_after (on_recv_notify now (get_notify_state now teller) payload s) ≡ some s.status
unfolding on_recv_notify take_state get_notify_state
on_recv_notify-expired now payload teller s over why = ground arith
