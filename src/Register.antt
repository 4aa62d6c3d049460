-- ===== src/Register.antt =====
-- src/subordinate_platform_impl.cpp: a subordinate platform, its status and its keepalive messages.
-- Times are microseconds; `up` is the clock that does not follow the system's time. Socket addresses,
-- the broadcasts and the status callbacks are not modelled.
pub mod Steps
pub mod Keepalive
pub mod Guard
mod Examples
use libgb.Base.{
  ℕ, ◌+◌, ◌*◌, Bool, true, false, Option, none, some, List, [], ◌∷◌, if◌then◌else◌, leb, max,
}
use libgb.Message.{Text}

pub data PlatformStatus : Type 0 where
  offline registering online network_error auth_failure : PlatformStatus

pub data Reason : Type 0 where
  no_reason logout keepalive_timeout : Reason

-- The fields of an account that registration reads or writes.
pub record Account : Type 0 where
  pub platform_id : Text
  pub domain : Text
  pub host : Text
  pub port : ℕ
  pub password : Text
  pub needs_auth : Bool
  pub is_tcp : Bool
  pub local_host : Text
  pub local_port : ℕ
  pub status : PlatformStatus
  pub error : Reason
  pub register_time : ℕ
  pub keepalive_time : ℕ
  pub offline_time : ℕ

pub record Platform : Type 0 where
  pub account : Account
  pub tcp_session : Option ℕ
  pub keepalive_timer : Bool
  pub camouflage_online : Bool

abbrev pub is_online : PlatformStatus → Bool
is_online online = true
is_online _ = false

unfoldable pub set_status : ℕ → ℕ → PlatformStatus → Reason → Platform → Platform
set_status now up status e p =
    let a : Account = record p.account { status = status; error = e } in
    if is_online status
    then record p {
      account = record a { register_time = now };
      keepalive_timer = true;
      camouflage_online = false;
    }
    else record p {
      account = record a { offline_time = up };
      keepalive_timer = false;
      camouflage_online = false;
    }

-- The timer of five seconds that set_status starts.
unfoldable pub on_keepalive_timer : ℕ → ℕ → Platform → Platform
unfolding set_status
on_keepalive_timer now up p =
    if p.keepalive_timer
    then (if leb (max p.account.register_time p.account.keepalive_time + 3 * 30 * 1000000) now
        then set_status now up offline keepalive_timeout p
        else p)
    else p

-- on_keep_alive, with the code that it returns.
unfoldable pub on_keep_alive : ℕ → Platform → Platform × ℕ
on_keep_alive now p =
    if is_online p.account.status
    then (record p { account = record p.account { keepalive_time = now } }, 200)
    else (p, 0)
