-- ===== src/Sdp/Digits.antt =====
-- src/request/sdp.cpp: what is written for a number is read back as the number.
use libgb.Base.{
  ℕ, zero, suc, ◌+◌, ◌-◌, ◌*◌, ◌/◌, ◌%◌, ◌<◌, ◌≤◌, ◌≡◌, refl, sym, ap, ◌∙◌, ◌⊎◌, inl, inr, true, [],
  ◌∷◌, ◌++◌, ltb, length, arith, Bool-cases, &&-true,
}
use mathlib.Core.Path.{subst}
use mathlib.Core.List.{append-nil}
use libgb.Message.{Text}
use libgb.Sdp.Numbers.{
  decimal_within, decimal, zeros, padded, value_from, digit, all_digits, Writes,
}

value_from-append :
    (n : ℕ) (xs : Text) (c : ℕ) → value_from n (xs ++ (c ∷ [])) ≡ value_from n xs * 10 + (c - b'0')
value_from-append n [] c = refl
value_from-append n (x ∷ xs) c = value_from-append (n * 10 + (x - b'0')) xs c

all_digits-append :
    (xs ys : Text) → all_digits xs ≡ true → all_digits ys ≡ true → all_digits (xs ++ ys) ≡ true
all_digits-append [] ys h g = g
all_digits-append (x ∷ xs) ys h g =
    let (here, more) = &&-true (digit x) (all_digits xs) h in
    let rest = all_digits-append xs ys more g in rw (here, rest) refl

-- The value, the digits and the first of them.
abbrev pub IsNumber : Text → ℕ → Type 0
IsNumber text n =
    (value_from 0 text ≡ n)
    × (all_digits text ≡ true)
    × ((first : ℕ) × (digits : Text) × (text ≡ first ∷ digits))

last_digit : (n : ℕ) → n < 10 → IsNumber ((b'0' + n) ∷ []) n
last_digit n small = (omega (arith, small), ground arith, (b'0' + n, [], refl))

first-append :
    (text : Text) (c : ℕ)
    → ((first : ℕ) × (digits : Text) × (text ≡ first ∷ digits))
    → ((first : ℕ) × (digits : Text) × (text ++ (c ∷ []) ≡ first ∷ digits))
first-append text c (first, digits, same) =
    (first, digits ++ (c ∷ []), ap (λ t. t ++ (c ∷ [])) same)

one_more_digit :
    (text : Text) (n : ℕ) → IsNumber text (n / 10) → IsNumber (text ++ ((b'0' + n % 10) ∷ [])) n
one_more_digit text n (value, all, first) = (
  value_from-append 0 text (b'0' + n % 10) ∙ omega (arith, value),
  all_digits-append text ((b'0' + n % 10) ∷ []) all (ground arith),
  first-append text (b'0' + n % 10) first,
)

decimal_within-IsNumber : (fuel n : ℕ) → n ≤ fuel → IsNumber (decimal_within fuel n) n
unfolding decimal_within
decimal_within-IsNumber zero n enough =
    (omega (arith, enough), ground arith, (b'0' + n % 10, [], refl))
decimal_within-IsNumber (suc fuel) n enough = elim (Bool-cases (ltb n 10)) [
  | inl small ↦ rw small (last_digit n (ground arith))
  | inr large ↦ rw large (
      one_more_digit (decimal_within fuel (n / 10)) n
        (decimal_within-IsNumber fuel (n / 10) (omega (arith, enough))))
]

-- The text of a number: its value, its digits, at least one.
pub decimal-IsNumber : (n : ℕ) → IsNumber (decimal n) n
unfolding decimal
decimal-IsNumber n = decimal_within-IsNumber n n (omega arith)

-- A number at the start of a text.
pub number-Writes :
    (text rest : Text) (n : ℕ)
    → IsNumber text n
    → (rest ≡ []) ⊎ ((more : Text) × (rest ≡ b' ' ∷ more))
    → Writes (text ++ rest) n
number-Writes text rest n (value, all, (first, digits, same)) ends = record {
  first = first;
  digits = digits;
  rest = rest;
  all = ap all_digits (sym same) ∙ all;
  value = ap (value_from 0) (sym same) ∙ value;
  is_text = ap (λ t. t ++ rest) same;
  ends = ends;
}

pub decimal-Writes : (n : ℕ) → Writes (decimal n) n
decimal-Writes n =
    subst (λ t. Writes t n) (append-nil (decimal n))
      (number-Writes (decimal n) [] n (decimal-IsNumber n) (inl refl))

zeros-IsNumber : (k : ℕ) (text : Text) (n : ℕ) → IsNumber text n → IsNumber (zeros k ++ text) n
zeros-IsNumber zero text n number = number
zeros-IsNumber (suc k) text n number =
    let (value, all, first) = zeros-IsNumber k text n number in
    (value, all, (b'0', zeros k ++ text, refl))

-- Zeros before a number leave it as it is.
pub padded-Writes : (width n : ℕ) → Writes (padded width (decimal n)) n
padded-Writes width n =
    let number = zeros-IsNumber (width - length (decimal n)) (decimal n) n (decimal-IsNumber n) in
    subst (λ t. Writes t n) (append-nil (padded width (decimal n)))
      (number-Writes (padded width (decimal n)) [] n number (inl refl))
