-- ===== src/Counter.antt =====
-- src/platform_helper.cpp, get_new_sn, and src/inner/sip_server.cpp, make_ssrc: the counters that
-- several threads draw from by compare and exchange.
pub mod Threads
pub mod Numbers
mod Examples
use libgb.Base.{
  ℕ, zero, suc, ◌+◌, ◌-◌, ◌*◌, ◌%◌, ◌^◌, Bool, true, false, if◌then◌else◌, leb, ◌==◌, List, [], ◌∷◌,
}

-- The next value of platform_sn_, an int32_t.
abbrev pub next_sn : ℕ → ℕ
next_sn old = if old == 2147483647 then 1 else old + 1

-- The next value of the counter of a domain.
abbrev pub next_ssrc : ℕ → ℕ
next_ssrc old = if leb 9999 old then 1 else old + 1

-- The number that make_ssrc gives for a drawn value, an uint32_t.
unfoldable pub ssrc : Bool → ℕ → ℕ → ℕ
ssrc is_playback domain old =
    ((if is_playback then 1000000000 else 0) + domain * 10000 % 2 ^ 32 + old) % 2 ^ 32

-- A counter after n draws, and the value of draw n.
unfoldable pub after_draws : (ℕ → ℕ) → ℕ → ℕ → ℕ
after_draws next start zero = start
after_draws next start (suc n) = after_draws next (next start) n

-- The values of n draws in order.
unfoldable pub draws : (ℕ → ℕ) → ℕ → ℕ → List ℕ
draws next start zero = []
draws next start (suc n) = start ∷ draws next (next start) n
