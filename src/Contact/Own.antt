-- ===== src/Contact/Own.antt =====
-- src/platform_helper.cpp: the own address that a reply tells.
use libgb.Base.{
  ℕ, ◌%◌, ◌^◌, ◌<◌, Bool, true, false, not, ◌&&◌, ◌==◌, Option, some, if◌then◌else◌, ◌≡◌, refl,
  arith, text_eq, text_eq-true, Bool-cases, inl, inr, ap, ap₂, ◌∙◌,
}
use libgb.Message.{Text}
use libgb.Contact.{Platform, update_remote_via, is_empty, told_session}

-- What is kept of an old value that may be replaced by what is given.
kept_host :
    (old host : Text)
    → (if not (is_empty host) && not (text_eq old host) then host else old)
      ≡ (if is_empty host then old else host)
kept_host old host =
    let same = text_eq-true old host in
    elim (Bool-cases (text_eq old host)) [
      | inl eq ↦ let e = same eq in ground arith
      | inr ne ↦ ground arith
    ]

kept_port :
    (old port : ℕ)
    → old < 2 ^ 16
    → (if not (port == 0) && not (old == port) then port % 2 ^ 16 else old)
      ≡ (if port == 0 then old else port % 2 ^ 16)
kept_port old port small = ground arith

abbrev either : Bool → Platform → Platform → Bool × Platform
either b p q = if b then (false, p) else (true, q)

was_changed : (b : Bool) (p q : Platform) → (either b p q).0 ≡ true → either b p q ≡ (true, q)
was_changed true p q h = cc
was_changed false p q h = refl

-- When a reply tells an address that changes something of a platform with a TCP session: the contact is the
-- account's host and port, of which each is kept if the reply has none, but the session takes the host and
-- the port as they came, so an empty host or the port 0 of a reply that has only the other. Ports are cut to
-- sixteen bits, as the account's is before.
pub update_remote_via_told :
    (host : Text) (port : ℕ) (p : Platform) (old : Text × ℕ)
    → p.local_port < 2 ^ 16
    → p.tcp_local ≡ some old
    → (update_remote_via host port p).0 ≡ true
    → ((update_remote_via host port p).1.contact
        ≡ some (
          if is_empty host then p.local_host else host,
          if port == 0 then p.local_port else port % 2 ^ 16,
        ))
      × ((update_remote_via host port p).1.tcp_local ≡ some (host, port % 2 ^ 16))
unfolding update_remote_via
update_remote_via_told host port p old small session changed =
    let made = ap (λ (r : Bool × Platform). r.1) (was_changed _ p _ changed) in
    let h = kept_host p.local_host host in
    let q = kept_port p.local_port port small in
    (
      ap (λ (r : Platform). r.contact) made ∙ ap₂ (λ (a : Text) (b : ℕ). some (a, b)) h q,
      ap (λ (r : Platform). r.tcp_local) made
          ∙ ap (λ (t : Option (Text × ℕ)). told_session t host (port % 2 ^ 16)) session,
    )
