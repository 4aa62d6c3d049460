-- ===== src/SuperPlatform.antt =====
-- src/super_platform_impl.cpp: the registration at a superior platform. Times are milliseconds; the
-- texts and times beside the status, socket addresses, broadcasts and status callbacks are not
-- modelled.
pub mod Steps
pub mod Live
pub mod Stopped
mod Examples
use libgb.Base.{
  ℕ, ◌+◌, Bool, true, false, not, ◌&&◌, Option, none, some, List, [], ◌∷◌, ◌++◌, if◌then◌else◌,
  ◌==◌,
}
use libgb.Message.{Text}
use libgb.Register.{
  PlatformStatus, offline, registering, online, network_error, auth_failure, is_online,
}

-- A registration that waits: its delay, the expires and the authorization.
pub record Registration : Type 0 where
  pub delay : ℕ
  pub expires : ℕ
  pub authorization : Text

-- What the lookup of a host gives: it is an address, or it is found, or it is not.
pub data Lookup : Type 0 where
  is_address is_found is_missing : Lookup

pub data Action : Type 0 where
  sent_register : ℕ → Text → Action
  keepalive_queued : Action

pub record SuperPlatform : Type 0 where
  pub running : Bool
  pub status : PlatformStatus
  pub auth_failed_count : ℕ
  -- whether moved_uri_ is set, and where it leads
  pub moved : Bool
  pub temp_host : Text
  pub temp_port : ℕ
  pub register_expired : ℕ
  pub keepalive_interval : ℕ
  pub keepalive_times : ℕ
  pub keepalive_timer : Bool
  pub ticker_start : ℕ
  -- the expires of the requests without a final reply, the registrations that wait, the task that
  -- renews the registration, and the calls of start_l that wait
  pub in_flight : List ℕ
  pub waiting : List Registration
  pub refresh_register_timer : Option Registration
  pub starts : ℕ

abbrev pub Effect : Type 0
Effect = SuperPlatform × List Action

-- The constructor, with the three numbers of the account.
unfoldable pub new_super_platform : ℕ → ℕ → ℕ → SuperPlatform
new_super_platform expired interval times = record {
  running = false;
  status = offline;
  auth_failed_count = 0;
  moved = false;
  temp_host = [];
  temp_port = 0;
  register_expired = expired;
  keepalive_interval = interval;
  keepalive_times = times;
  keepalive_timer = false;
  ticker_start = 0;
  in_flight = [];
  waiting = [];
  refresh_register_timer = none;
  starts = 0;
}

abbrev pub wait : ℕ → ℕ → Text → SuperPlatform → SuperPlatform
wait delay expires authorization p = record p {
  waiting = record { delay = delay; expires = expires; authorization = authorization } ∷ p.waiting;
}

-- A request is sent; the status is registering, unless the platform is online.
abbrev pub send_register : ℕ → Text → SuperPlatform → Effect
send_register expires authorization p = (
  record p {
    status = if is_online p.status then online else registering;
    in_flight = expires ∷ p.in_flight;
  },
  sent_register expires authorization ∷ [],
)

unfoldable pub to_register : ℕ → Text → SuperPlatform → Effect
to_register expires authorization p =
    let q : SuperPlatform = record p { refresh_register_timer = none } in
    if not (expires == 0) && not p.running then (q, []) else send_register expires authorization q

-- start_l, with what the lookup of the host gives.
unfoldable pub start_l : Lookup → SuperPlatform → Effect
unfolding to_register
start_l is_address p = to_register 0 [] p
start_l is_found p = (wait 0 0 [] p, [])
start_l is_missing p = (record p { starts = p.starts + 1 }, [])

unfoldable pub start : Lookup → SuperPlatform → Effect
unfolding start_l
start lookup p = if p.running then (p, []) else start_l lookup (record p { running = true })

unfoldable pub shutdown : SuperPlatform → Effect
unfolding to_register
shutdown p =
    if p.running
    then (if is_online p.status
        then to_register 0 [] (record p { running = false })
        else (record p { running = false }, []))
    else (p, [])
