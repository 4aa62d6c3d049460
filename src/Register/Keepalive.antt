-- ===== src/Register/Keepalive.antt =====
-- The timer that takes a platform offline when its keepalive messages stay away.
use libgb.Base.{
  ℕ, ◌+◌, ◌≤◌, ◌≡◌, refl, sym, ◌∙◌, ap, Bool-cases, inl, inr, Bool, true, false, ◌||◌,
  if◌then◌else◌, leb, max, List, [], ◌∷◌, arith,
}
use libgb.Register.{
  offline, online, keepalive_timeout, Platform, set_status, on_keepalive_timer, on_keep_alive,
}

-- The timer runs at the times of a list.
unfoldable pub ticks : ℕ → List ℕ → Platform → Platform
unfolding on_keepalive_timer
ticks up [] p = p
ticks up (now ∷ times) p = ticks up times (on_keepalive_timer now up p)

-- One of the times is ninety seconds after a time, or later.
unfoldable pub any_late : ℕ → List ℕ → Bool
any_late last [] = false
any_late last (now ∷ times) = leb (last + 90000000) now || any_late last times

ticks-stopped :
    (up : ℕ) (times : List ℕ) (p : Platform) → p.keepalive_timer ≡ false → ticks up times p ≡ p
unfolding ticks on_keepalive_timer
ticks-stopped up [] p off = refl
ticks-stopped up (now ∷ times) p off =
    let same : on_keepalive_timer now up p ≡ p = ground arith in
    ap (ticks up times) same ∙ ticks-stopped up times p off

timer_fires :
    (up now : ℕ) (p : Platform)
    → p.keepalive_timer ≡ true
    → leb (max p.account.register_time p.account.keepalive_time + 90000000) now ≡ true
    → on_keepalive_timer now up p ≡ set_status now up offline keepalive_timeout p
unfolding on_keepalive_timer
timer_fires up now p runs late = ground arith

timer_waits :
    (up now : ℕ) (p : Platform)
    → leb (max p.account.register_time p.account.keepalive_time + 90000000) now ≡ false
    → on_keepalive_timer now up p ≡ p
unfolding on_keepalive_timer
timer_waits up now p early = ground arith

offline_stays :
    (up now : ℕ) (times : List ℕ) (p : Platform)
    → (ticks up times (set_status now up offline keepalive_timeout p)).account.status ≡ offline
unfolding set_status
offline_stays up now times p =
    ap (λ q. q.account.status)
      (ticks-stopped up times (set_status now up offline keepalive_timeout p) refl)

ticks_since :
    (up : ℕ) (times : List ℕ) (p : Platform)
    → p.account.status ≡ online
    → p.keepalive_timer ≡ true
    → (ticks up times p).account.status ≡ (
        if any_late (max p.account.register_time p.account.keepalive_time) times
        then offline
        else online)
unfolding ticks any_late
ticks_since up [] p on runs = on
ticks_since up (now ∷ times) p on runs =
    elim (Bool-cases (leb (max p.account.register_time p.account.keepalive_time + 90000000) now)) [
      | inl late ↦
          ap (λ q. (ticks up times q).account.status) (timer_fires up now p runs late)
          ∙ offline_stays up now times p
          ∙ ap
              (λ b.
                if b || any_late (max p.account.register_time p.account.keepalive_time) times
                then offline
                else online)
              (sym late)
      | inr early ↦
          ap (λ q. (ticks up times q).account.status) (timer_waits up now p early)
          ∙ ticks_since up times p on runs
          ∙ ap
              (λ b.
                if b || any_late (max p.account.register_time p.account.keepalive_time) times
                then offline
                else online)
              (sym early)
    ]

-- After a keepalive message that comes to an online platform whose timer runs, and not before its
-- registration: the message is answered 200, and at whatever times the timer runs, the platform is
-- offline after them if one of them is ninety seconds after the message or later, and else online.
pub ticks-on_keep_alive :
    (t up : ℕ) (times : List ℕ) (p : Platform)
    → p.account.status ≡ online
    → p.keepalive_timer ≡ true
    → p.account.register_time ≤ t
    → let (q, code) = on_keep_alive t p in
      (code ≡ 200)
      × ((ticks up times q).account.status ≡ (if any_late t times then offline else online))
unfolding on_keep_alive
ticks-on_keep_alive t up times p on runs before =
    let q : Platform = record p { account = record p.account { keepalive_time = t } } in
    let same : max p.account.register_time t ≡ t = omega (arith, before) in
    let told : on_keep_alive t p ≡ (q, 200) = ground arith in
    (
      ap (λ r. r.1) told,
      ap (λ r. (ticks up times r.0).account.status) told
          ∙ ticks_since up times q on runs
          ∙ ap (λ last. if any_late last times then offline else online) same,
    )
