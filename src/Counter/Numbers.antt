-- ===== src/Counter/Numbers.antt =====
-- The values of the two counters, and the numbers that make_ssrc makes of them.
use libgb.Base.{
  ℕ, zero, suc, ◌+◌, ◌-◌, ◌/◌, ◌%◌, ◌^◌, ◌<◌, ◌≤◌, ◌≡◌, ◌≢◌, sym, ◌∙◌, ap, Bool, true, false,
  if◌then◌else◌, arith,
}
use libgb.Counter.{next_sn, next_ssrc, ssrc, after_draws}

after_draws-next_sn_from :
    (start n : ℕ)
    → 1 ≤ start
    → start ≤ 2147483647
    → after_draws next_sn start n ≡ (start - 1 + n) % 2147483647 + 1
unfolding after_draws
after_draws-next_sn_from start zero low high = omega arith
after_draws-next_sn_from start (suc n) low high =
    let rest : 1 ≤ next_sn start
        → next_sn start ≤ 2147483647
        → after_draws next_sn (next_sn start) n ≡ (next_sn start - 1 + n) % 2147483647 + 1 =
      after_draws-next_sn_from (next_sn start) n in
    ground arith

after_draws-next_ssrc_from :
    (start n : ℕ)
    → 1 ≤ start
    → start ≤ 9999
    → after_draws next_ssrc start n ≡ (start - 1 + n) % 9999 + 1
unfolding after_draws
after_draws-next_ssrc_from start zero low high = omega arith
after_draws-next_ssrc_from start (suc n) low high =
    let rest : 1 ≤ next_ssrc start
        → next_ssrc start ≤ 9999
        → after_draws next_ssrc (next_ssrc start) n ≡ (next_ssrc start - 1 + n) % 9999 + 1 =
      after_draws-next_ssrc_from (next_ssrc start) n in
    ground arith

-- The number of request n of a platform, from 0, is n modulo 2147483647, plus one: it is positive and
-- an int32_t, and no two of 2147483647 consecutive requests share it.
after_draws-next_sn :
    (n m : ℕ)
    → n < m
    → m < n + 2147483647
    → (after_draws next_sn 1 n ≡ n % 2147483647 + 1)
      × (after_draws next_sn 1 n < 2 ^ 31)
      × (after_draws next_sn 1 n ≢ after_draws next_sn 1 m)
after_draws-next_sn n m below near =
    let first = after_draws-next_sn_from 1 n (omega arith) (omega arith) in
    let second = after_draws-next_sn_from 1 m (omega arith) (omega arith) in
    (omega (arith, first), omega (arith, first), λ e. omega (arith, first, second, e))

-- For a domain of five digits and a drawn value of four, the number of a stream fits 32 bits, its
-- last four digits are the drawn value, the five before are the domain, and the one before these
-- says whether the stream is recorded.
ssrc_digits :
    (is_playback : Bool) (domain old : ℕ)
    → domain < 100000
    → old < 10000
    → (ssrc is_playback domain old < 2000000000)
      × (ssrc is_playback domain old % 10000 ≡ old)
      × (ssrc is_playback domain old / 10000 % 100000 ≡ domain)
      × (ssrc is_playback domain old / 1000000000 ≡ (if is_playback then 1 else 0))
unfolding ssrc
ssrc_digits true domain old five four = (omega arith, omega arith, omega arith, omega arith)
ssrc_digits false domain old five four = (omega arith, omega arith, omega arith, omega arith)

-- For a domain of five digits: streams of that domain, live or recorded, have different numbers if
-- fewer than 9998 others were numbered between them.
pub ssrc-after_draws :
    (p q : Bool) (domain n m : ℕ)
    → domain < 100000
    → n < m
    → m < n + 9999
    → ssrc p domain (after_draws next_ssrc 1 n) ≢ ssrc q domain (after_draws next_ssrc 1 m)
ssrc-after_draws p q domain n m five below near same =
    let first = after_draws-next_ssrc_from 1 n (omega arith) (omega arith) in
    let second = after_draws-next_ssrc_from 1 m (omega arith) (omega arith) in
    let a = (ssrc_digits p domain (after_draws next_ssrc 1 n) five (omega (arith, first))).1 in
    let b = (ssrc_digits q domain (after_draws next_ssrc 1 m) five (omega (arith, second))).1 in
    omega (arith, first, second, sym a ∙ ap (λ x. x % 10000) same ∙ b)
