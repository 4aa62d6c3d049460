-- ===== src/Base/Lists.antt =====
-- Lists over the native numbers: lengths, texts, and checks of every value below a bound.
use Prim.Native.Nat.{ℕ, zero, suc, ◌+◌, ◌<◌, ◌≤◌}
use mathlib.Core.Path.{◌≡◌, refl, ap₂}
use mathlib.Core.Bool.{Bool, true, false, ◌&&◌}
use mathlib.Core.List.{List, [], ◌∷◌, ◌++◌}
use native.Mathlib.Omega.{arith}
use native.Mathlib.Decide.{dec_lt}
use libgb.Base.Tests.{&&-true, ◌==◌, ==_refl, ==_iff}

module _ {ℓ} {A : Type ℓ} where
  abbrev pub length : List A → ℕ
  length [] = 0
  length (x ∷ xs) = suc (length xs)

  pub length-append : (xs ys : List A) → length (xs ++ ys) ≡ length xs + length ys
  length-append [] ys = omega arith
  length-append (x ∷ xs) ys = omega (arith, length-append xs ys)

-- A test tried at every byte value: on `n` values from the one given up.
unfoldable pub tried : (ℕ → Bool) → ℕ → ℕ → Bool
tried test first zero = true
tried test first (suc n) = tried test (first + 1) n && test first

pub tried-at :
    (test : ℕ → Bool) (first n value : ℕ)
    → tried test first n ≡ true
    → first ≤ value
    → value < first + n
    → test value ≡ true
unfolding tried
tried-at test first zero value all low high = absurd (omega arith)
tried-at test first (suc n) value all low high = elim (dec_lt first value) [
  | yes above ↦
      tried-at test (first + 1) n value (&&-true _ _ all).0 (omega (arith, above)) (omega arith)
  | no below ↦ let here : value ≡ first = omega arith in rw here (&&-true _ _ all).1
]

-- Equality of texts, which are lists of numbers.
abbrev pub text_eq : List ℕ → List ℕ → Bool
text_eq [] [] = true
text_eq [] (y ∷ ys) = false
text_eq (x ∷ xs) [] = false
text_eq (x ∷ xs) (y ∷ ys) = x == y && text_eq xs ys

pub text_eq_refl : (a : List ℕ) → text_eq a a ≡ true
text_eq_refl [] = refl
text_eq_refl (x ∷ xs) = let rest = text_eq_refl xs in let here = ==_refl x in ground arith

pub text_eq-true : (a b : List ℕ) → text_eq a b ≡ true → a ≡ b
text_eq-true [] [] h = refl
text_eq-true [] (y ∷ ys) h = absurd (cc)
text_eq-true (x ∷ xs) [] h = absurd (cc)
text_eq-true (x ∷ xs) (y ∷ ys) h =
    let (here, rest) = &&-true _ _ h in
    ap₂ (λ u us. u ∷ us) ((==_iff x y).0 here) (text_eq-true xs ys rest)
