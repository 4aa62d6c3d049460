-- ===== src/Register/Examples.antt =====
-- Registration at work, and the theorems at concrete platforms.
use libgb.Base.{ℕ, ◌≡◌, ◌⊎◌, refl, arith, Bool, true, false, if◌then◌else◌, some, [], ◌∷◌}
use libgb.Message.{Text}
use libgb.Register.{offline, online, no_reason, Platform, on_keep_alive, set_status}
use libgb.Register.Steps.{
  Server, Session, RegisterRequest, new_platform, new_account, get_subordinate_platform,
  on_recv_register, find_platform, put_platform, answers_now, ok,
}
use libgb.Register.Keepalive.{ticks, any_late, ticks-on_keep_alive}
use libgb.Register.Guard.{Kept, Admitted, on_recv_register-is_online, on_recv_register-unverified}

abbrev empty_server : Server
empty_server = record {
  sub_platforms = [];
  allow_auto_register = true;
  needs_auth = true;
  password = 5 ∷ [];
  local_host = 1 ∷ [];
  local_port = 5060;
  application = answers_now (λ account. true);
}

abbrev member_id : Text
member_id = 3 ∷ 4 ∷ []

abbrev by_tcp : Session
by_tcp = record {
  number = 8;
  is_udp = false;
  peer_ip = 2 ∷ [];
  peer_port = 6000;
  local_ip = [];
  local_port = 0;
}

abbrev member : Platform
member =
    set_status 10 10 online no_reason
      (new_platform empty_server (new_account 0 empty_server by_tcp member_id))

abbrev server : Server
server = record empty_server { sub_platforms = (member_id, member) ∷ [] }

abbrev request : ℕ → Bool → RegisterRequest
request expires right = record { user = member_id; expires = expires; verifies = λ password. right }

ticks-on_keep_alive_example :
    ((on_keep_alive 20 member).1 ≡ 200)
    × ((ticks 0 (5000000 ∷ 90000020 ∷ []) (on_keep_alive 20 member).0).account.status
        ≡ (if any_late 20 (5000000 ∷ 90000020 ∷ []) then offline else online))
unfolding set_status
ticks-on_keep_alive_example =
    ticks-on_keep_alive 20 0 (5000000 ∷ 90000020 ∷ []) member refl refl (omega arith)

on_recv_register-is_online_example :
    Kept (request 60 true) empty_server member_id
    ⊎ Admitted
        (request 60 true)
        empty_server
        (new_account 30 empty_server by_tcp member_id)
        member_id
unfolding on_recv_register find_platform put_platform set_status
on_recv_register-is_online_example =
    on_recv_register-is_online 30 30 by_tcp (request 60 true) empty_server member_id
      (set_status 30 30 online no_reason
        (record (new_platform empty_server (new_account 30 empty_server by_tcp member_id)) {
          tcp_session = some 8;
        }))
      refl refl

-- A request to log out whose password is wrong.
on_recv_register-unverified_example :
    let (t, answer) = on_recv_register 30 30 by_tcp (request 0 false) server in
    (q : Platform) × (get_subordinate_platform member_id t ≡ some q)
    × (q.account.status ≡ offline)
    × (q.tcp_session ≡ some 8)
    × (answer ≡ ok)
unfolding find_platform set_status
on_recv_register-unverified_example =
    on_recv_register-unverified 30 30 by_tcp (request 0 false) server member refl refl refl
