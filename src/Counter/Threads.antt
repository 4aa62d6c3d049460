-- ===== src/Counter/Threads.antt =====
-- The loop of compare_exchange_weak that both counters use, run by several threads: any order of
-- their steps gives out the values of the counter one after the other.
use libgb.Base.{
  ℕ, zero, suc, ◌≡◌, refl, sym, ◌∙◌, ap, Bool, true, false, ◌&&◌, if◌then◌else◌, ◌==◌, List, [],
  ◌∷◌, ◌++◌, arith, length, length-append, &&-true, ==_iff,
}
use libgb.Counter.{draws, after_draws}

-- The counter, what each thread has loaded, and the values given out, in their order.
pub record Shared : Type 0 where
  pub counter : ℕ
  pub loaded : ℕ → ℕ
  pub given : List ℕ

-- A thread loads the counter, or tries to exchange it, which may fail without a reason.
pub data Step : Type 0 where
  load : ℕ → Step
  exchange : ℕ → Bool → Step

abbrev pub set_loaded : ℕ → ℕ → (ℕ → ℕ) → ℕ → ℕ
set_loaded thread value loaded other = if other == thread then value else loaded other

module _ (next : ℕ → ℕ) where
  -- compare_exchange_weak: on success the thread returns what it has loaded, on failure it loads again.
  unfoldable pub step : Step → Shared → Shared
  step (load thread) s = record s { loaded = set_loaded thread s.counter s.loaded }
  step (exchange thread spurious) s =
      if s.loaded thread == s.counter && (if spurious then false else true)
      then record s { counter = next (s.loaded thread); given = s.given ++ s.loaded thread ∷ [] }
      else record s { loaded = set_loaded thread s.counter s.loaded }

  unfoldable pub run : List Step → Shared → Shared
  unfolding step
  run [] s = s
  run (e ∷ es) s = run es (step e s)

  after_draws-suc : (start n : ℕ) → after_draws next start (suc n) ≡ next (after_draws next start n)
  unfolding after_draws
  after_draws-suc start zero = refl
  after_draws-suc start (suc n) = after_draws-suc (next start) n

  draws-suc :
      (start n : ℕ) → draws next start (suc n) ≡ draws next start n ++ after_draws next start n ∷ []
  unfolding draws after_draws
  draws-suc start zero = refl
  draws-suc start (suc n) = ap (λ xs. start ∷ xs) (draws-suc (next start) n)

  -- The values given out were drawn one after the other, and the counter follows them.
  abbrev Drawn : ℕ → Shared → Type 0
  Drawn start s =
      (s.given ≡ draws next start (length s.given))
      × (s.counter ≡ after_draws next start (length s.given))

  give-Drawn :
      (start value : ℕ) (s : Shared)
      → value ≡ s.counter
      → Drawn start s
      → Drawn start (record s { counter = next value; given = s.given ++ value ∷ [] })
  give-Drawn start value s same (order, follows) =
      let n = length s.given in
      let longer : length (s.given ++ value ∷ []) ≡ suc n =
        omega (arith, length-append s.given (value ∷ [])) in
      let value_is : value ≡ after_draws next start n = same ∙ follows in
      (
        ap (λ x. s.given ++ x ∷ []) value_is
            ∙ ap (λ xs. xs ++ after_draws next start n ∷ []) order
            ∙ sym (draws-suc start n)
            ∙ sym (ap (draws next start) longer),
        ap next value_is ∙ sym (after_draws-suc start n) ∙ sym (ap (after_draws next start) longer),
      )

  step-Drawn : (start : ℕ) (e : Step) (s : Shared) → Drawn start s → Drawn start (step e s)
  unfolding step
  step-Drawn start (load thread) s d = d
  step-Drawn start (exchange thread spurious) s d =
      exchanged start thread (s.loaded thread == s.counter && (if spurious then false else true)) s
        (λ h. give-Drawn start (s.loaded thread) s ((==_iff _ _).0 (&&-true _ _ h).0) d) d
    where
      exchanged :
          (start thread : ℕ) (taken : Bool) (s : Shared)
          → (taken ≡ true
              → Drawn start (record s {
                counter = next (s.loaded thread);
                given = s.given ++ s.loaded thread ∷ [];
              }))
          → Drawn start s
          → Drawn start (
              if taken
              then record s {
                counter = next (s.loaded thread);
                given = s.given ++ s.loaded thread ∷ [];
              }
              else record s { loaded = set_loaded thread s.counter s.loaded })
      exchanged start thread true s h d = h refl
      exchanged start thread false s h d = d

  run-Drawn : (start : ℕ) (es : List Step) (s : Shared) → Drawn start s → Drawn start (run es s)
  unfolding run
  run-Drawn start [] s d = d
  run-Drawn start (e ∷ es) s d = run-Drawn start es (step e s) (step-Drawn start e s d)

  -- However the threads' steps are ordered, and whichever exchanges fail without a reason: the
  -- values given out are those of a counter that is drawn from one draw after the other.
  pub run-draws :
      (start : ℕ) (loaded : ℕ → ℕ) (es : List Step)
      → let s = run es (record { counter = start; loaded = loaded; given = [] }) in
        s.given ≡ draws next start (length s.given)
  unfolding draws after_draws
  run-draws start loaded es =
      (run-Drawn start es (record { counter = start; loaded = loaded; given = [] }) (refl, refl)).0
