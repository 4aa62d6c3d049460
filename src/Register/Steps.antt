-- ===== src/Register/Steps.antt =====
-- src/subordinate_platform_impl.cpp, on_recv_register, and src/inner/sip_server.cpp: the platforms that
-- a server knows, and their registration.
use libgb.Base.{
  text_eq, ℕ, zero, suc, Bool, false, ◌||◌, not, Option, none, some, List, [], ◌∷◌, if◌then◌else◌,
  ◌==◌,
}
use libgb.Message.{Text}
use libgb.Register.{offline, registering, online, no_reason, logout, Account, Platform, set_status}

-- What the application does with an account that is not known: nothing, since it has set no callback; it
-- decides before its callback returns, or later.
pub data Application : Type 0 where
  no_callback answers_later : Application
  answers_now : (Account → Bool) → Application

-- sub_platforms_, the account of the server, and new_subordinate_account_callback_.
pub record Server : Type 0 where
  pub sub_platforms : List (Text × Platform)
  pub allow_auto_register : Bool
  pub needs_auth : Bool
  pub password : Text
  pub local_host : Text
  pub local_port : ℕ
  pub application : Application

pub record Session : Type 0 where
  pub number : ℕ
  pub is_udp : Bool
  pub peer_ip : Text
  pub peer_port : ℕ
  pub local_ip : Text
  pub local_port : ℕ

-- A REGISTER request: whether its authorization holds for the user and a password.
pub record RegisterRequest : Type 0 where
  pub user : Text
  pub expires : ℕ
  pub verifies : Text → Bool

-- The answer: 200, 200 with the date and the expires, 401 with a challenge, 403, or none yet, while the
-- application has still to decide on an account.
pub data Answer : Type 0 where
  ok challenge forbidden : Answer
  ok_for : ℕ → Answer
  asked : Account → Answer

unfoldable pub find_platform : Text → List (Text × Platform) → Option Platform
find_platform id [] = none
find_platform id ((key, p) ∷ ps) = if text_eq id key then some p else find_platform id ps

unfoldable pub put_platform : Text → Platform → List (Text × Platform) → List (Text × Platform)
put_platform id p [] = (id, p) ∷ []
put_platform id p ((key, q) ∷ ps) =
    if text_eq id key then (key, p) ∷ ps else (key, q) ∷ put_platform id p ps

abbrev pub get_subordinate_platform : Text → Server → Option Platform
get_subordinate_platform id s = find_platform id s.sub_platforms

abbrev pub store : Text → Platform → Server → Server
store id p s = record s { sub_platforms = put_platform id p s.sub_platforms }

abbrev pub set_tcp_session : Session → Platform → Platform
set_tcp_session session p =
    if session.is_udp then p else record p { tcp_session = some session.number }

-- The registration of a platform that the server knows.
abbrev pub register_known : ℕ → ℕ → Session → RegisterRequest → Platform → Platform × Answer
register_known now up session req platform =
    let p = set_tcp_session session platform in
    if req.expires == 0
    then (set_status now up offline logout p, ok)
    else if not p.account.needs_auth || req.verifies p.account.password
    then (
      set_status now up online no_reason (record p {
        account = record p.account { host = session.peer_ip; port = session.peer_port };
      }),
      ok_for req.expires,
    )
    else (p, challenge)

abbrev pub first : ℕ → Text → Text
first zero t = []
first (suc n) [] = []
first (suc n) (x ∷ xs) = x ∷ first n xs

abbrev pub or_text : Text → Text → Text
or_text [] other = other
or_text (x ∷ xs) other = x ∷ xs

-- The account of a platform that is not known yet.
abbrev pub new_account : ℕ → Server → Session → Text → Account
new_account now s session user = record {
  platform_id = user;
  domain = first 10 user;
  host = session.peer_ip;
  port = session.peer_port;
  password = s.password;
  needs_auth = s.needs_auth;
  is_tcp = not session.is_udp;
  local_host = or_text session.local_ip s.local_host;
  local_port = if session.local_port == 0 then s.local_port else session.local_port;
  status = registering;
  error = no_reason;
  register_time = now;
  keepalive_time = 0;
  offline_time = 0;
}

-- The constructor of a platform, from an account.
abbrev pub new_platform : Server → Account → Platform
new_platform s a = record {
  account = record a {
    local_host = or_text a.local_host s.local_host;
    local_port = if a.local_port == 0 then s.local_port else a.local_port;
  };
  tcp_session = none;
  keepalive_timer = false;
  camouflage_online = false;
}

abbrev pub known_or_new : Server → Account → Option Platform → Platform
known_or_new s a none = new_platform s a
known_or_new s a (some p) = p

-- The platform of an account that the application accepts.
unfoldable pub accepted_platform : ℕ → ℕ → Session → Account → Server → Platform
unfolding set_status find_platform
accepted_platform now up session a s =
    set_status now up online no_reason
      (set_tcp_session session (known_or_new s a (get_subordinate_platform a.platform_id s)))

-- The decision of the application on an account, in new_subordinate_account and its caller.
unfoldable pub on_allow : ℕ → ℕ → Session → ℕ → Account → Bool → Server → Server × Answer
unfolding accepted_platform put_platform
on_allow now up session expires a allow s =
    if allow
    then (store a.platform_id (accepted_platform now up session a s) s, ok_for expires)
    else (s, forbidden)

-- new_subordinate_account, with what the caller does once the application has decided.
abbrev pub new_subordinate_account :
    ℕ → ℕ → Session → ℕ → Account → Application → Server → Server × Answer
new_subordinate_account now up session expires a no_callback s = (s, forbidden)
new_subordinate_account now up session expires a answers_later s = (s, asked a)
new_subordinate_account now up session expires a (answers_now allows) s =
    on_allow now up session expires a (allows a) s

-- The registration of a platform that the server does not know.
abbrev pub register_unknown : ℕ → ℕ → Session → RegisterRequest → Server → Server × Answer
register_unknown now up session req s =
    if s.allow_auto_register
    then (if req.expires == 0
        then (s, ok)
        else if not s.needs_auth || req.verifies s.password
        then new_subordinate_account now up session req.expires (new_account now s session req.user)
            s.application s
        else (s, challenge))
    else (s, forbidden)

abbrev pub register_found :
    ℕ → ℕ → Session → RegisterRequest → Server → Option Platform → Server × Answer
register_found now up session req s none = register_unknown now up session req s
register_found now up session req s (some platform) =
    let (p, answer) = register_known now up session req platform in (store req.user p s, answer)

unfoldable pub on_recv_register : ℕ → ℕ → Session → RegisterRequest → Server → Server × Answer
unfolding set_status find_platform put_platform on_allow
on_recv_register now up session req s =
    register_found now up session req s (get_subordinate_platform req.user s)
