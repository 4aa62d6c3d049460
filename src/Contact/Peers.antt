-- ===== src/Contact/Peers.antt =====
-- src/platform_helper.cpp, src/inner/sip_session.cpp: whom the sessions kept for UDP send to.
use libgb.Base.{
  if_cases, ℕ, Bool, true, false, not, ◌&&◌, ◌||◌, Option, none, some, List, [], ◌∷◌, if◌then◌else◌,
  ◌≡◌, refl, ◌⊎◌, inl, inr, drop, Bool-cases, sym, subst, if_elim, arith,
}
use libgb.Message.{Text}
use libgb.Contact.{
  Family, af_inet, af_inet6, Address, no_address, inet, inet6, is_mapped, make_peer_addr, Socket,
  Session, set_peer, Platform, set_peers, on_platform_addr_changed, get_session, open_session,
  set_host, Event, session_asked, request_came, reply_told, step, run, is_set, has_session,
  new_session, update_remote_via, are_addresses_equal,
}

-- The end that an address names: a mapped address is the IPv4 address.
abbrev pub endpoint : Address → Address
endpoint no_address = no_address
endpoint (inet bytes port) = inet bytes port
endpoint (inet6 bytes port scope) =
    if is_mapped bytes then inet (drop 12 bytes) port else inet6 bytes port scope

-- Whether a socket without a peer of its own can send to an address.
abbrev pub is_reached : Socket → Address → Bool
is_reached socket addr = not socket.has_peer && (make_peer_addr socket.family addr).0

endpoint-make_peer_addr :
    (family : Option Family) (a : Address) → endpoint (make_peer_addr family a).1 ≡ endpoint a
unfolding make_peer_addr
endpoint-make_peer_addr none a = refl
endpoint-make_peer_addr (some af_inet) no_address = refl
endpoint-make_peer_addr (some af_inet6) no_address = refl
endpoint-make_peer_addr (some af_inet) (inet b p) = refl
endpoint-make_peer_addr (some af_inet6) (inet b p) = refl
endpoint-make_peer_addr (some af_inet) (inet6 b p s) = ground arith
endpoint-make_peer_addr (some af_inet6) (inet6 b p s) = refl

make_peer_addr-endpoint :
    (family : Option Family) (a : Address)
    → (make_peer_addr family (endpoint a)).0 ≡ (make_peer_addr family a).0
unfolding make_peer_addr
make_peer_addr-endpoint none a = refl
make_peer_addr-endpoint (some af_inet) no_address = refl
make_peer_addr-endpoint (some af_inet6) no_address = refl
make_peer_addr-endpoint (some af_inet) (inet b p) = refl
make_peer_addr-endpoint (some af_inet6) (inet b p) = refl
make_peer_addr-endpoint (some af_inet) (inet6 b p s) = elim (Bool-cases (is_mapped b)) [
  | inl t ↦ ground arith
  | inr f ↦ ground arith
]
make_peer_addr-endpoint (some af_inet6) (inet6 b p s) = elim (Bool-cases (is_mapped b)) [
  | inl t ↦ ground arith
  | inr f ↦ ground arith
]

-- A session sends to an end, or cannot.
abbrev pub Told : Session → Address → Type 0
Told s end = (is_reached s.socket end ≡ false) ⊎ (endpoint s.peer ≡ end)

abbrev pub AllTold : List (ℕ × Session) → Address → Type 0
AllTold [] end = Unit
AllTold ((k, s) ∷ more) end = let rest = AllTold more end in Told s end × rest

out_of_reach :
    (socket : Socket) (a : Address)
    → (make_peer_addr socket.family a).0 ≡ false
    → is_reached socket (endpoint a) ≡ false
out_of_reach socket a h = let fits = make_peer_addr-endpoint socket.family a in ground arith

unset :
    (family : Option Family) (a : Address) → is_set a ≡ false → (make_peer_addr family a).0 ≡ false
unfolding make_peer_addr
unset none a h = refl
unset (some family) no_address h = refl
unset (some family) (inet b p) h = cc
unset (some family) (inet6 b p s) h = cc

unset-Told : (s : Session) (a : Address) → is_set a ≡ false → Told s (endpoint a)
unset-Told s a h = inl (out_of_reach s.socket a (unset s.socket.family a h))

-- A socket that has a peer, or an address that is none.
refused_peer :
    (s : Session) (a : Address) → (s.socket.has_peer || not (is_set a)) ≡ true → Told s (endpoint a)
refused_peer s a h = elim (Bool-cases s.socket.has_peer) [
  | inl has ↦ inl (ground arith)
  | inr lone ↦ unset-Told s a (ground arith)
]

set_peer-Told : (s : Session) (a : Address) → Told (set_peer s a).0 (endpoint a)
unfolding set_peer
set_peer-Told s a =
    let told = λ (made : Session × Address). Told made.0 (endpoint a) in
    let m = make_peer_addr s.socket.family a in
    if_cases told (s.socket.has_peer || not (is_set a)) (s, a) _ (refused_peer s a)
      (λ _.
        if_cases told m.0 (record s { peer = m.1 }, m.1) (s, m.1)
          (λ _. inr (endpoint-make_peer_addr s.socket.family a))
          (λ no_way. inl (out_of_reach s.socket a no_way)))

endpoint-set_peer : (s : Session) (a : Address) → endpoint (set_peer s a).1 ≡ endpoint a
unfolding set_peer
endpoint-set_peer s a = let same = endpoint-make_peer_addr s.socket.family a in ground arith

set_peers-AllTold : (ss : List (ℕ × Session)) (a : Address) → AllTold (set_peers ss a) (endpoint a)
unfolding set_peers
set_peers-AllTold [] a = tt
set_peers-AllTold ((k, s) ∷ more) a =
    let rest = set_peers-AllTold more (set_peer s a).1 in
    (
      set_peer-Told s a,
      subst (λ e. AllTold (set_peers more (set_peer s a).1) e) (endpoint-set_peer s a) rest,
    )

abbrev pub Settled : Platform → Type 0
Settled p = AllTold p.udp_sessions (endpoint p.remote_addr)

open_session-AllTold :
    (poller : ℕ) (socket : Socket) (host : Option Address) (p : Platform)
    → Settled p
    → Settled (open_session poller socket host p)
unfolding open_session
open_session-AllTold poller socket host p all =
    let made = set_peer (new_session p socket) p.remote_addr in
    let same = sym (endpoint-set_peer (new_session p socket) p.remote_addr) in
    if_cases Settled (is_set p.remote_addr) _ _
      (λ _.
        subst (λ e. Told made.0 e × AllTold p.udp_sessions e) same
          (set_peer-Told (new_session p socket) p.remote_addr, all))
      (λ unknown. (unset-Told (set_host (new_session p socket) host) p.remote_addr unknown, all))

on_platform_addr_changed-AllTold :
    (addr : Address) (p : Platform) → Settled p → Settled (on_platform_addr_changed addr p)
unfolding on_platform_addr_changed
on_platform_addr_changed-AllTold addr p all =
    if_elim Settled (is_set addr && not (are_addresses_equal p.remote_addr addr))
      (record p { remote_addr = addr; udp_sessions = set_peers p.udp_sessions addr }) p
      (set_peers-AllTold p.udp_sessions addr) all

get_session-Settled :
    (poller : ℕ) (socket : Socket) (host : Option Address) (p : Platform)
    → Settled p
    → Settled (get_session poller socket host p)
unfolding get_session
get_session-Settled poller socket host p all =
    if_elim Settled (has_session poller p.udp_sessions) p (open_session poller socket host p) all
      (open_session-AllTold poller socket host p all)

update_remote_via-Settled :
    (host : Text) (port : ℕ) (p : Platform) → Settled p → Settled (update_remote_via host port p).1
unfolding update_remote_via
update_remote_via-Settled host port p all =
    if_elim (λ (made : Bool × Platform). Settled made.1) _ (false, p) (true, _) all all

step-Settled : (e : Event) (p : Platform) → Settled p → Settled (step e p)
unfolding step
step-Settled (session_asked poller socket host) p all = get_session-Settled poller socket host p all
step-Settled (request_came addr) p all = on_platform_addr_changed-AllTold addr p all
step-Settled (reply_told host port) p all = update_remote_via-Settled host port p all

-- Whatever happens to a platform, of which sessions are asked for over UDP, requests come from addresses and
-- replies tell the own address: if it holds at the start, it holds after it that every session kept for UDP
-- sends to the platform's address (the same end, up to the IPv6 form of an IPv4 address), or has a socket
-- that cannot send to that address, because it has a peer of its own, does not know its own address, or
-- cannot take that address into its family.
pub run-Settled : (es : List Event) (p : Platform) → Settled p → Settled (run es p)
unfolding run
run-Settled [] p all = all
run-Settled (e ∷ es) p all = run-Settled es (step e p) (step-Settled e p all)
