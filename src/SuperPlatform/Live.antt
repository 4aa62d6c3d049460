-- ===== src/SuperPlatform/Live.antt =====
-- A registration that runs always has a next attempt.
use libgb.Base.{
  ℕ, zero, suc, ◌+◌, ◌≤◌, ◌≡◌, Bool, true, false, Option, none, some, List, [], ◌∷◌, length, arith,
}
use libgb.Message.{Text}
use libgb.Sip.{SipCodes}
use libgb.Register.{offline, network_error, auth_failure}
use libgb.SuperPlatform.{
  Registration, Lookup, is_address, is_found, is_missing, SuperPlatform, Effect, wait, to_register,
  start_l, start, shutdown,
}
use libgb.SuperPlatform.Steps.{
  Contact, no_contact, bad_contact, contact, Reply, on_success, on_redirect, on_challenge,
  on_refused, on_register_reply, on_send_failed, on_keepalive, pick, Event, started, stopped, reply,
  send_failed, due, refresh_due, start_due, keepalive, with_request, with_waiting, with_refresh,
  with_start, step, run, set_status, clear_moved,
}

abbrev is_set : Option Registration → ℕ
is_set none = 0
is_set (some r) = 1

-- The attempts of a registration that are to come: requests without a final reply, registrations that
-- wait, the renewal, and the calls of start_l that wait.
unfoldable pub attempts : SuperPlatform → ℕ
attempts p = length p.in_flight + length p.waiting + is_set p.refresh_register_timer + p.starts

-- If the registration runs, there is an attempt to come.
abbrev pub Live : Effect → Type 0
Live (p, acts) = p.running ≡ true → 1 ≤ attempts p

to_register-Live :
    (expires : ℕ) (authorization : Text) (p : SuperPlatform)
    → Live (to_register expires authorization p)
unfolding to_register attempts
to_register-Live expires authorization p = ground arith

start_l-Live : (lookup : Lookup) (p : SuperPlatform) → Live (start_l lookup p)
unfolding start_l attempts
start_l-Live is_address p = to_register-Live 0 [] p
start_l-Live is_found p = λ h. omega arith
start_l-Live is_missing p = λ h. omega arith

on_success-Live :
    (now expires announced : ℕ) (p : SuperPlatform) → Live (on_success now expires announced p)
unfolding attempts
on_success-Live now expires announced p = ground arith

on_redirect-Live :
    (expires : ℕ) (c : Contact) (p : SuperPlatform) → 1 ≤ attempts (on_redirect expires c p)
unfolding attempts
on_redirect-Live expires no_contact p = omega arith
on_redirect-Live expires bad_contact p = omega arith
on_redirect-Live expires (contact host port) p = omega arith

on_challenge-Live :
    (lookup : Lookup) (expires : ℕ) (authorization : Text) (p : SuperPlatform)
    → Live (on_challenge lookup expires authorization p)
unfolding attempts
on_challenge-Live lookup expires [] p =
    let q : SuperPlatform = record p { auth_failed_count = 0 } in
    let moved = start_l-Live lookup (clear_moved q) in
    let again = start_l-Live lookup q in ground arith
on_challenge-Live lookup expires (x ∷ xs) p =
    let q : SuperPlatform = record p { auth_failed_count = 0 } in
    let moved = start_l-Live lookup (clear_moved q) in
    let again = start_l-Live lookup q in ground arith

on_refused-Live :
    (lookup : Lookup) (expires : ℕ) (p : SuperPlatform) → Live (on_refused lookup expires p)
unfolding attempts
on_refused-Live lookup expires p =
    let again = start_l-Live lookup (clear_moved (set_status auth_failure p)) in ground arith

waits-Live : (expires : ℕ) (p : SuperPlatform) → 1 ≤ attempts (wait 3000 expires [] p)
unfolding attempts
waits-Live expires p = omega arith

on_register_reply-Live :
    (codes : SipCodes) (now : ℕ) (lookup : Lookup) (r : Reply) (expires : ℕ) (p : SuperPlatform)
    → Live (on_register_reply codes now lookup r expires p)
unfolding on_register_reply
on_register_reply-Live codes now lookup r expires p =
    let lost = waits-Live expires (set_status network_error p) in
    let succeeded = on_success-Live now expires r.expires p in
    let redirected = on_redirect-Live expires r.contact p in
    let challenged = on_challenge-Live lookup expires r.authorization p in
    let refused = on_refused-Live lookup expires p in ground arith

on_keepalive-Live :
    (now : ℕ) (lookup : Lookup) (succeeded : Bool) (p : SuperPlatform)
    → Live (p, [])
    → Live (on_keepalive now lookup succeeded p)
unfolding on_keepalive attempts
on_keepalive-Live now lookup succeeded p live =
    let again = start_l-Live lookup (set_status offline (record p { keepalive_timer = false })) in
    ground arith

with_request-Live :
    (codes : SipCodes) (found : Option (ℕ × List ℕ)) (g : ℕ → SuperPlatform → Effect)
    (p : SuperPlatform)
    → ((expires : ℕ) (q : SuperPlatform) → Live (g expires q))
    → Live (p, [])
    → Live (with_request codes found g p)
with_request-Live codes none g p h live = live
with_request-Live codes (some (expires, others)) g p h live =
    h expires (record p { in_flight = others })

with_waiting-Live :
    (codes : SipCodes) (found : Option (Registration × List Registration)) (p : SuperPlatform)
    → Live (p, [])
    → Live (with_waiting codes found p)
with_waiting-Live codes none p live = live
with_waiting-Live codes (some (r, others)) p live =
    to_register-Live r.expires r.authorization (record p { waiting = others })

with_refresh-Live :
    (codes : SipCodes) (found : Option Registration) (p : SuperPlatform)
    → Live (p, [])
    → Live (with_refresh codes found p)
with_refresh-Live codes none p live = live
with_refresh-Live codes (some r) p live = to_register-Live r.expires r.authorization p

with_start-Live :
    (codes : SipCodes) (lookup : Lookup) (n : ℕ) (p : SuperPlatform)
    → Live (p, [])
    → Live (with_start codes lookup n p)
with_start-Live codes lookup zero p live = live
with_start-Live codes lookup (suc n) p live = start_l-Live lookup (record p { starts = n })

shutdown-Live : (p : SuperPlatform) → Live (shutdown p)
unfolding shutdown to_register
shutdown-Live p = ground arith

start-Live : (lookup : Lookup) (p : SuperPlatform) → Live (p, []) → Live (start lookup p)
unfolding start
start-Live lookup p live =
    let begun = start_l-Live lookup (record p { running = true }) in ground arith

step-Live :
    (codes : SipCodes) (now : ℕ) (e : Event) (p : SuperPlatform)
    → Live (p, [])
    → Live (step codes now e p)
unfolding step
step-Live codes now (started lookup) p live = start-Live lookup p live
step-Live codes now stopped p live = shutdown-Live p
step-Live codes now (reply lookup n answer) p live =
    with_request-Live codes (pick n p.in_flight) (on_register_reply codes now lookup answer) p
      (on_register_reply-Live codes now lookup answer) live
step-Live codes now (send_failed n) p live =
    with_request-Live codes (pick n p.in_flight) on_send_failed p
      (λ expires q h. waits-Live expires (set_status network_error q)) live
step-Live codes now (due n) p live = with_waiting-Live codes (pick n p.waiting) p live
step-Live codes now refresh_due p live = with_refresh-Live codes p.refresh_register_timer p live
step-Live codes now (start_due lookup) p live = with_start-Live codes lookup p.starts p live
step-Live codes now (keepalive lookup succeeded) p live =
    on_keepalive-Live now lookup succeeded p live

run-Live :
    (codes : SipCodes) (es : List (ℕ × Event)) (p : SuperPlatform)
    → Live (p, [])
    → Live (run codes es p)
unfolding run
run-Live codes [] p live = live
run-Live codes ((now, e) ∷ es) p live =
    run-Live codes es (step codes now e p).0 (step-Live codes now e p live)

-- Whatever happens to a registration that does not run at first: if it runs in the end, it has an
-- attempt to come, be it a request without a final reply, a registration or a call of start_l that
-- waits, or the task that renews it.
pub attempts-run :
    (codes : SipCodes) (es : List (ℕ × Event)) (p : SuperPlatform)
    → p.running ≡ false
    → (run codes es p).0.running ≡ true
    → 1 ≤ attempts (run codes es p).0
attempts-run codes es p fresh runs = run-Live codes es p (λ h. absurd (cc)) runs
