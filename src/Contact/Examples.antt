-- ===== src/Contact/Examples.antt =====
-- src/platform_helper.cpp: tests of the addresses of a platform.
use libgb.Base.{arith, true, false, none, some, List, [], ◌∷◌, ◌≡◌, refl, codes}
use libgb.Contact.{
  af_inet, af_inet6, Address, no_address, inet, inet6, map_bytes, make_peer_addr, Socket, Session,
  Platform, update_remote_via, Event, session_asked, request_came, reply_told, run,
}
use libgb.Contact.Peers.{run-Settled, Settled}
use libgb.Contact.Own.{update_remote_via_told}

abbrev fresh : Platform
fresh = record {
  keep_local_host = false;
  local_host = codes "a";
  local_port = 5060;
  contact = none;
  tcp_local = some (codes "a", 5060);
  remote_addr = no_address;
  udp_sessions = [];
}

abbrev socket4 : Socket
socket4 = record { family = some af_inet; has_peer = false }

abbrev socket6 : Socket
socket6 = record { family = some af_inet6; has_peer = false }

abbrev address : Address
address = inet (192 ∷ 168 ∷ 0 ∷ 1 ∷ []) 5060

abbrev moved : Address
moved = inet (192 ∷ 168 ∷ 0 ∷ 2 ∷ []) 5062

mapped_back :
    (make_peer_addr (some af_inet) (inet6 (map_bytes (192 ∷ 168 ∷ 0 ∷ 1 ∷ [])) 5060 7))
    ≡ (true, address)
unfolding make_peer_addr
mapped_back = refl

unmapped : (make_peer_addr (some af_inet) (inet6 (1 ∷ 2 ∷ 3 ∷ []) 5060 7)).0 ≡ false
unfolding make_peer_addr
unmapped = refl

abbrev events : List Event
events =
    request_came address
    ∷ session_asked 1 socket6 none
    ∷ session_asked 2 socket4 none
    ∷ request_came moved
    ∷ reply_told [] 5070
    ∷ []

abbrev session_of : Socket → Address → Session
session_of socket peer = record {
  socket = socket;
  peer = peer;
  local_ip = codes "a";
  local_port = 5060;
}

both_moved :
    (run events fresh).udp_sessions
    ≡ (2, session_of socket4 moved)
      ∷ (1, session_of socket6 (inet6 (map_bytes (192 ∷ 168 ∷ 0 ∷ 2 ∷ [])) 5062 0))
      ∷ []
unfolding run
both_moved = refl

run-Settled_example : Settled (run events fresh)
run-Settled_example = run-Settled events fresh tt

port_changed : (update_remote_via [] 5070 fresh).0 ≡ true
unfolding update_remote_via
port_changed = refl

update_remote_via_told_example :
    ((update_remote_via [] 5070 fresh).1.contact ≡ some (codes "a", 5070))
    × ((update_remote_via [] 5070 fresh).1.tcp_local ≡ some ([], 5070))
update_remote_via_told_example =
    update_remote_via_told [] 5070 fresh (codes "a", 5060) (omega arith) refl port_changed
