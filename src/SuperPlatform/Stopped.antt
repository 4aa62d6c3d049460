-- ===== src/SuperPlatform/Stopped.antt =====
-- What a registration sends after it was shut down.
use libgb.Base.{
  ℕ, zero, suc, ◌≡◌, refl, Bool, true, false, not, ◌&&◌, Option, none, some, List, [], ◌∷◌, ◌++◌,
  ◌==◌, arith, &&-true,
}
use libgb.Message.{Text}
use libgb.Sip.{SipCodes}
use libgb.Register.{offline, auth_failure}
use libgb.SuperPlatform.{
  Registration, Lookup, is_address, is_found, is_missing, Action, sent_register, keepalive_queued,
  SuperPlatform, Effect, to_register, start_l, shutdown,
}
use libgb.SuperPlatform.Steps.{
  Contact, no_contact, bad_contact, contact, Reply, on_success, on_redirect, on_challenge,
  on_refused, on_register_reply, on_send_failed, on_keepalive, pick, Event, started, stopped, reply,
  send_failed, due, refresh_due, start_due, keepalive, with_request, with_waiting, with_refresh,
  with_start, step, run, set_status, clear_moved,
}

abbrev is_logout : Action → Bool
is_logout (sent_register expires authorization) = expires == 0
is_logout keepalive_queued = true

-- Every REGISTER among the actions has the expires 0.
unfoldable pub all_logouts : List Action → Bool
all_logouts [] = true
all_logouts (a ∷ xs) = is_logout a && all_logouts xs

abbrev Quiet : Effect → Type 0
Quiet (p, acts) = (p.running ≡ false) × (all_logouts acts ≡ true)

logouts-append :
    (xs bs : List Action)
    → all_logouts xs ≡ true
    → all_logouts bs ≡ true
    → all_logouts (xs ++ bs) ≡ true
unfolding all_logouts
logouts-append [] bs h k = k
logouts-append (a ∷ xs) bs h k =
    let rest : all_logouts xs ≡ true → all_logouts (xs ++ bs) ≡ true =
      λ r. logouts-append xs bs r k in
    ground arith

to_register-Quiet :
    (expires : ℕ) (authorization : Text) (p : SuperPlatform)
    → p.running ≡ false
    → Quiet (to_register expires authorization p)
unfolding to_register all_logouts
to_register-Quiet expires authorization p h = ground arith

start_l-Quiet : (lookup : Lookup) (p : SuperPlatform) → p.running ≡ false → Quiet (start_l lookup p)
unfolding start_l all_logouts
start_l-Quiet is_address p h = to_register-Quiet 0 [] p h
start_l-Quiet is_found p h = (h, refl)
start_l-Quiet is_missing p h = (h, refl)

on_redirect-running :
    (expires : ℕ) (c : Contact) (p : SuperPlatform) → (on_redirect expires c p).running ≡ p.running
on_redirect-running expires no_contact p = refl
on_redirect-running expires bad_contact p = refl
on_redirect-running expires (contact host port) p = refl

on_challenge-Quiet :
    (lookup : Lookup) (expires : ℕ) (authorization : Text) (p : SuperPlatform)
    → p.running ≡ false
    → Quiet (on_challenge lookup expires authorization p)
unfolding all_logouts
on_challenge-Quiet lookup expires [] p h =
    let q : SuperPlatform = record p { auth_failed_count = 0 } in
    let moved = start_l-Quiet lookup (clear_moved q) h in
    let again = start_l-Quiet lookup q h in ground arith
on_challenge-Quiet lookup expires (x ∷ xs) p h =
    let q : SuperPlatform = record p { auth_failed_count = 0 } in
    let moved = start_l-Quiet lookup (clear_moved q) h in
    let again = start_l-Quiet lookup q h in ground arith

on_refused-Quiet :
    (lookup : Lookup) (expires : ℕ) (p : SuperPlatform)
    → p.running ≡ false
    → Quiet (on_refused lookup expires p)
unfolding all_logouts
on_refused-Quiet lookup expires p h =
    let again = start_l-Quiet lookup (clear_moved (set_status auth_failure p)) h in ground arith

on_success-Quiet :
    (now expires announced : ℕ) (p : SuperPlatform)
    → p.running ≡ false
    → Quiet (on_success now expires announced p)
unfolding all_logouts
on_success-Quiet now expires announced p h = ground arith

on_register_reply-Quiet :
    (codes : SipCodes) (now : ℕ) (lookup : Lookup) (r : Reply) (expires : ℕ) (p : SuperPlatform)
    → p.running ≡ false
    → Quiet (on_register_reply codes now lookup r expires p)
unfolding on_register_reply all_logouts
on_register_reply-Quiet codes now lookup r expires p h =
    let succeeded = on_success-Quiet now expires r.expires p h in
    let redirected = on_redirect-running expires r.contact p in
    let challenged = on_challenge-Quiet lookup expires r.authorization p h in
    let refused = on_refused-Quiet lookup expires p h in ground arith

on_keepalive-Quiet :
    (now : ℕ) (lookup : Lookup) (succeeded : Bool) (p : SuperPlatform)
    → p.running ≡ false
    → Quiet (on_keepalive now lookup succeeded p)
unfolding on_keepalive all_logouts
on_keepalive-Quiet now lookup succeeded p h =
    let again =
      start_l-Quiet lookup (set_status offline (record p { keepalive_timer = false })) h in
    ground arith

abbrev pub is_start : Event → Bool
is_start (started lookup) = true
is_start _ = false

with_request-Quiet :
    (codes : SipCodes) (found : Option (ℕ × List ℕ)) (g : ℕ → SuperPlatform → Effect)
    (p : SuperPlatform)
    → ((expires : ℕ) (q : SuperPlatform) → q.running ≡ false → Quiet (g expires q))
    → p.running ≡ false
    → Quiet (with_request codes found g p)
unfolding all_logouts
with_request-Quiet codes none g p h off = (off, refl)
with_request-Quiet codes (some (expires, others)) g p h off =
    h expires (record p { in_flight = others }) off

with_waiting-Quiet :
    (codes : SipCodes) (found : Option (Registration × List Registration)) (p : SuperPlatform)
    → p.running ≡ false
    → Quiet (with_waiting codes found p)
unfolding all_logouts
with_waiting-Quiet codes none p off = (off, refl)
with_waiting-Quiet codes (some (r, others)) p off =
    to_register-Quiet r.expires r.authorization (record p { waiting = others }) off

with_refresh-Quiet :
    (codes : SipCodes) (found : Option Registration) (p : SuperPlatform)
    → p.running ≡ false
    → Quiet (with_refresh codes found p)
unfolding all_logouts
with_refresh-Quiet codes none p off = (off, refl)
with_refresh-Quiet codes (some r) p off = to_register-Quiet r.expires r.authorization p off

with_start-Quiet :
    (codes : SipCodes) (lookup : Lookup) (n : ℕ) (p : SuperPlatform)
    → p.running ≡ false
    → Quiet (with_start codes lookup n p)
unfolding all_logouts
with_start-Quiet codes lookup zero p off = (off, refl)
with_start-Quiet codes lookup (suc n) p off = start_l-Quiet lookup (record p { starts = n }) off

step-Quiet :
    (codes : SipCodes) (now : ℕ) (e : Event) (p : SuperPlatform)
    → is_start e ≡ false
    → p.running ≡ false
    → Quiet (step codes now e p)
unfolding step shutdown all_logouts
step-Quiet codes now (started lookup) p ns off = absurd (cc)
step-Quiet codes now stopped p ns off = ground arith
step-Quiet codes now (reply lookup n answer) p ns off =
    with_request-Quiet codes (pick n p.in_flight) (on_register_reply codes now lookup answer) p
      (on_register_reply-Quiet codes now lookup answer) off
step-Quiet codes now (send_failed n) p ns off =
    with_request-Quiet codes (pick n p.in_flight) on_send_failed p (λ expires q h. (h, refl)) off
step-Quiet codes now (due n) p ns off = with_waiting-Quiet codes (pick n p.waiting) p off
step-Quiet codes now refresh_due p ns off = with_refresh-Quiet codes p.refresh_register_timer p off
step-Quiet codes now (start_due lookup) p ns off = with_start-Quiet codes lookup p.starts p off
step-Quiet codes now (keepalive lookup succeeded) p ns off =
    on_keepalive-Quiet now lookup succeeded p off

unfoldable pub no_start : List (ℕ × Event) → Bool
no_start [] = true
no_start ((now, e) ∷ es) = not (is_start e) && no_start es

run-Quiet :
    (codes : SipCodes) (es : List (ℕ × Event)) (p : SuperPlatform)
    → no_start es ≡ true
    → p.running ≡ false
    → Quiet (run codes es p)
unfolding run no_start all_logouts
run-Quiet codes [] p ns off = (off, refl)
run-Quiet codes ((now, e) ∷ es) p ns off =
    let (now_none, later_none) = &&-true (not (is_start e)) (no_start es) ns in
    let no : is_start e ≡ false = ground arith in
    let (off_then, quiet) = step-Quiet codes now e p no off in
    let (off_last, quiet_last) = run-Quiet codes es (step codes now e p).0 later_none off_then in
    (
      off_last,
      logouts-append (step codes now e p).1 (run codes es (step codes now e p).0).1 quiet
          quiet_last,
    )

-- Whatever happens to a registration that does not run, as long as it is not started: every REGISTER
-- that it still sends has the expires 0, so that it never registers again.
pub run-all_logouts :
    (codes : SipCodes) (es : List (ℕ × Event)) (p : SuperPlatform)
    → no_start es ≡ true
    → p.running ≡ false
    → all_logouts (run codes es p).1 ≡ true
run-all_logouts codes es p ns off = (run-Quiet codes es p ns off).1
