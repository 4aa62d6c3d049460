-- ===== src/Counter/Examples.antt =====
-- The theorems on counters at concrete draws.
use libgb.Base.{◌≡◌, ◌≢◌, refl, arith, true, false, List, [], ◌∷◌, length}
use libgb.Counter.{next_sn, next_ssrc, ssrc, after_draws, draws}
use libgb.Counter.Threads.{Step, load, exchange, run, run-draws}
use libgb.Counter.Numbers.{ssrc-after_draws}

-- Two threads load the same value; one exchange fails for that, and one without a reason.
abbrev race : List Step
race =
    load 0 ∷ load 1 ∷ exchange 1 false ∷ exchange 0 false ∷ exchange 0 true ∷ exchange 0 false ∷ []

run-draws_example :
    let s = run next_sn race (record { counter = 1; loaded = λ t. 0; given = [] }) in
    s.given ≡ draws next_sn 1 (length s.given)
run-draws_example = run-draws next_sn 1 (λ t. 0) race

race_gives :
    (run next_sn race (record { counter = 1; loaded = λ t. 0; given = [] })).given ≡ 1 ∷ 2 ∷ []
unfolding run
race_gives = refl

ssrc-after_draws_example :
    ssrc true 20000 (after_draws next_ssrc 1 3) ≢ ssrc false 20000 (after_draws next_ssrc 1 4)
ssrc-after_draws_example =
    ssrc-after_draws true false 20000 3 4 (omega arith) (omega arith) (omega arith)
