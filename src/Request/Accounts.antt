-- ===== src/Request/Accounts.antt =====
-- What a step of a request reports and removes.
use libgb.Base.{ℕ, ◌+◌, ◌≤◌, ◌≡◌, ap, Bool, true, false, ◌&&◌, not, List, [], ◌∷◌, ◌++◌, arith}
use libgb.Request.{Proxy, Action, removed, result_called, on_completed, after}

abbrev pub bit : Bool → ℕ
bit true = 1
bit false = 0

abbrev pub is_result : Action → ℕ
is_result (result_called s e) = 1
is_result _ = 0

abbrev pub is_removal : Action → ℕ
is_removal (removed sn) = 1
is_removal _ = 0

-- How often the result callback is called, and how often the request leaves the map.
unfoldable pub results : List Action → ℕ
results [] = 0
results (a ∷ xs) = is_result a + results xs

unfoldable pub removals : List Action → ℕ
removals [] = 0
removals (a ∷ xs) = is_removal a + removals xs

pub results-append : (xs bs : List Action) → results (xs ++ bs) ≡ results xs + results bs
unfolding results
results-append [] bs = omega arith
results-append (a ∷ xs) bs = omega (arith, results-append xs bs)

pub removals-append : (xs bs : List Action) → removals (xs ++ bs) ≡ removals xs + removals bs
unfolding removals
removals-append [] bs = omega arith
removals-append (a ∷ xs) bs = omega (arith, removals-append xs bs)

-- The result callback that is still to come: one, if it is there and nothing has completed.
abbrev pub due : Proxy → ℕ
due p = bit (not p.result_flag && p.has_rcb)

-- A step that keeps the account: a removal for each completion, and a call of the result callback
-- for each that is no longer due.
pub record Accounts (p : Proxy) (r : Proxy × List Action) : Type 0 where
  pub removes : removals r.1 + bit p.result_flag ≡ bit r.0.result_flag
  pub reports : results r.1 + due r.0 ≡ due p
  pub with_removal : results r.1 ≤ removals r.1

pub Accounts-on_completed : (p : Proxy) → Accounts p (on_completed p)
unfolding on_completed removals results
Accounts-on_completed p = ground arith

-- A step that only sets fields that have to do with neither.
pub Accounts-keep :
    (p q : Proxy) (acts : List Action)
    → q.result_flag ≡ p.result_flag
    → q.has_rcb ≡ p.has_rcb
    → results acts ≡ 0
    → removals acts ≡ 0
    → Accounts p (q, acts)
Accounts-keep p q acts f c r m = record {
  removes = rw (m, f) (omega arith);
  reports = rw (r, f, c) (omega arith);
  with_removal = omega arith;
}

-- Such a step and then one that keeps the account.
pub Accounts-after :
    (p q : Proxy) (acts : List Action) (r : Proxy × List Action)
    → q.result_flag ≡ p.result_flag
    → q.has_rcb ≡ p.has_rcb
    → results acts ≡ 0
    → removals acts ≡ 0
    → Accounts q r
    → Accounts p (after acts r)
Accounts-after p q acts r f c s m v =
    let same : due q ≡ due p = rw (f, c) in
    record {
      removes = omega (arith, removals-append acts r.1, v.removes, ap bit f);
      reports = omega (arith, results-append acts r.1, v.reports, same);
      with_removal =
          omega (arith, results-append acts r.1, removals-append acts r.1, v.with_removal);
    }
