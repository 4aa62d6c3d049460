-- ===== src/Contact.antt =====
-- src/platform_helper.cpp, with set_peer and make_peer_addr of src/inner/sip_session.cpp: the addresses
-- of a platform. The peer's address and the sessions kept for sending over UDP, one for each poller
-- (get_session, on_platform_addr_changed), and the own address that the peer reports
-- (update_remote_via). What a socket says of itself is given with it.
pub mod Peers
pub mod Own
mod Examples
use libgb.Base.{
  ℕ, ◌%◌, ◌^◌, Bool, true, false, not, ◌&&◌, ◌||◌, ◌==◌, Option, none, some, List, [], ◌∷◌,
  if◌then◌else◌, text_eq, take, drop,
}
use libgb.Message.{Text}

-- The two families of addresses, of a socket that has one.
pub data Family : Type 0 where
  af_inet af_inet6 : Family

-- A socket address: the bytes, the port and, for IPv6, the scope.
pub data Address : Type 0 where
  no_address : Address
  inet : List ℕ → ℕ → Address
  inet6 : List ℕ → ℕ → ℕ → Address

-- areAddressesEqual.
abbrev pub are_addresses_equal : Address → Address → Bool
are_addresses_equal (inet a p) (inet b q) = (p == q) && text_eq a b
are_addresses_equal (inet6 a p s) (inet6 b q t) = (p == q) && (text_eq a b && (s == t))
are_addresses_equal _ _ = false

abbrev pub is_set : Address → Bool
is_set no_address = false
is_set _ = true

-- The first twelve bytes of an IPv4 address that is mapped to IPv6, in front of others.
abbrev pub map_bytes : List ℕ → List ℕ
map_bytes bytes = 0 ∷ 0 ∷ 0 ∷ 0 ∷ 0 ∷ 0 ∷ 0 ∷ 0 ∷ 0 ∷ 0 ∷ 255 ∷ 255 ∷ bytes

-- IN6_IS_ADDR_V4MAPPED.
abbrev pub is_mapped : List ℕ → Bool
is_mapped bytes = text_eq (take 12 bytes) (map_bytes [])

-- make_peer_addr, by the family of the socket's own address, if that can be read: whether the address
-- fits the socket, and the address, which may have changed.
unfoldable pub make_peer_addr : Option Family → Address → Bool × Address
make_peer_addr none a = (false, a)
make_peer_addr (some family) no_address = (false, no_address)
make_peer_addr (some af_inet) (inet bytes port) = (true, inet bytes port)
make_peer_addr (some af_inet6) (inet6 bytes port scope) = (true, inet6 bytes port scope)
make_peer_addr (some af_inet) (inet6 bytes port scope) =
    if is_mapped bytes then (true, inet (drop 12 bytes) port) else (false, inet6 bytes port scope)
make_peer_addr (some af_inet6) (inet bytes port) = (true, inet6 (map_bytes bytes) port 0)

-- What the network library says of a socket: the family of its own address, and whether it has a peer.
pub record Socket : Type 0 where
  pub family : Option Family
  pub has_peer : Bool

-- A session over UDP: its socket, the peer, and what it says in a Via header.
pub record Session : Type 0 where
  pub socket : Socket
  pub peer : Address
  pub local_ip : Text
  pub local_port : ℕ

-- set_peer, with the address, which the caller finds changed.
unfoldable pub set_peer : Session → Address → Session × Address
unfolding make_peer_addr
set_peer s addr =
    if s.socket.has_peer || not (is_set addr)
    then (s, addr)
    else let made = make_peer_addr s.socket.family addr in
      if made.0 then (record s { peer = made.1 }, made.1) else (s, made.1)

-- A platform: its account's addresses, the contact, the peer's address, and the sessions of the pollers.
pub record Platform : Type 0 where
  pub keep_local_host : Bool
  pub local_host : Text
  pub local_port : ℕ
  pub contact : Option (Text × ℕ)
  pub tcp_local : Option (Text × ℕ)
  pub remote_addr : Address
  pub udp_sessions : List (ℕ × Session)

-- The loop over the sessions, with the address as the ones before left it.
unfoldable pub set_peers : List (ℕ × Session) → Address → List (ℕ × Session)
unfolding set_peer
set_peers [] addr = []
set_peers ((k, s) ∷ more) addr =
    let rest = set_peers more (set_peer s addr).1 in (k, (set_peer s addr).0) ∷ rest

-- on_platform_addr_changed.
unfoldable pub on_platform_addr_changed : Address → Platform → Platform
unfolding set_peers
on_platform_addr_changed addr p =
    if is_set addr && not (are_addresses_equal p.remote_addr addr)
    then record p { remote_addr = addr; udp_sessions = set_peers p.udp_sessions addr }
    else p

abbrev pub has_session : ℕ → List (ℕ × Session) → Bool
has_session poller [] = false
has_session poller ((k, s) ∷ more) =
    let rest = has_session poller more in if k == poller then true else rest

abbrev pub new_session : Platform → Socket → Session
new_session p socket = record {
  socket = socket;
  peer = no_address;
  local_ip = p.local_host;
  local_port = p.local_port;
}

-- set_peer with a host, which is an address, or has an exception thrown that is caught.
abbrev pub set_host : Session → Option Address → Session
set_host s none = s
set_host s (some addr) = (set_peer s addr).0

-- The part of get_session for a poller without a session, with the server's socket and what the
-- account's host is. The peer's own address is given to set_peer, which may change it.
unfoldable pub open_session : ℕ → Socket → Option Address → Platform → Platform
unfolding set_peer
open_session poller socket host p =
    if is_set p.remote_addr
    then record p {
      remote_addr = (set_peer (new_session p socket) p.remote_addr).1;
      udp_sessions = (poller, (set_peer (new_session p socket) p.remote_addr).0) ∷ p.udp_sessions;
    }
    else record p { udp_sessions = (poller, set_host (new_session p socket) host) ∷ p.udp_sessions }

-- get_session for UDP, of a server that is there.
unfoldable pub get_session : ℕ → Socket → Option Address → Platform → Platform
unfolding open_session
get_session poller socket host p =
    if has_session poller p.udp_sessions then p else open_session poller socket host p

abbrev pub is_empty : Text → Bool
is_empty [] = true
is_empty (x ∷ xs) = false

abbrev pub told_session : Option (Text × ℕ) → Text → ℕ → Option (Text × ℕ)
told_session none host port = none
told_session (some old) host port = some (host, port)

-- What is done once an address has changed.
abbrev pub with_local : Text → ℕ → Text → ℕ → Platform → Platform
with_local local_host local_port host port p = record p {
  local_host = local_host;
  local_port = local_port;
  contact = some (local_host, local_port);
  tcp_local = told_session p.tcp_local host port;
}

-- update_remote_via: whether something has changed, and the platform. A port that is told has 32 bits,
-- the account's and the session's have 16.
unfoldable pub update_remote_via : Text → ℕ → Platform → Bool × Platform
update_remote_via host port p =
    let new_host = not (is_empty host) && not (text_eq p.local_host host) in
    let new_port = not (port == 0) && not (p.local_port == port) in
    if (is_empty host && (port == 0)) || (p.keep_local_host || not (new_host || new_port))
    then (false, p)
    else (
      true,
      with_local (if new_host then host else p.local_host)
          (if new_port then port % 2 ^ 16 else p.local_port) host (port % 2 ^ 16) p,
    )

-- What happens to a platform: a session is asked for over UDP, a request comes from an address, and a
-- reply tells the own address.
pub data Event : Type 0 where
  session_asked : ℕ → Socket → Option Address → Event
  request_came : Address → Event
  reply_told : Text → ℕ → Event

unfoldable pub step : Event → Platform → Platform
unfolding get_session on_platform_addr_changed update_remote_via
step (session_asked poller socket host) p = get_session poller socket host p
step (request_came addr) p = on_platform_addr_changed addr p
step (reply_told host port) p = (update_remote_via host port p).1

unfoldable pub run : List Event → Platform → Platform
unfolding step
run [] p = p
run (e ∷ es) p = run es (step e p)
