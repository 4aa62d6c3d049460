-- ===== src/Sdp/Scanned.antt =====
-- src/request/sdp.cpp: numbers that the stream reads, and texts that are split at a character.
use libgb.Base.{
  ℕ, ◌<◌, ◌≡◌, ◌⊎◌, inl, inr, refl, ap, ◌∙◌, true, false, not, none, some, [], ◌∷◌, ◌++◌, ◌==◌, ltb,
  arith, &&-true, ==_refl,
}
use libgb.Message.{Text}
use libgb.Sdp.Numbers.{
  decimal, digit, all_digits, span_digits, is_space, skip_spaces, take_sign, scanned, signed,
  scan_unsigned,
}
use libgb.Sdp.Fields.{split_last, or_here}
use libgb.Sdp.Digits.{IsNumber, decimal-IsNumber}
use libgb.Sdp.Lines.{lacks}

-- What follows a number: nothing, or a blank.
abbrev pub Ends : Text → Type 0
Ends rest = (rest ≡ []) ⊎ ((more : Text) × (rest ≡ b' ' ∷ more))

span_end : (rest : Text) → Ends rest → span_digits rest ≡ ([], rest)
span_end rest (inl over) = rw over refl
span_end rest (inr (more, blank)) = rw blank refl

span_digits-append :
    (text rest : Text)
    → all_digits text ≡ true
    → Ends rest
    → span_digits (text ++ rest) ≡ (text, rest)
span_digits-append [] rest all ends = span_end rest ends
span_digits-append (c ∷ s) rest all ends =
    let (here, more) = &&-true (digit c) (all_digits s) all in
    rw (here, span_digits-append s rest more ends) refl

-- A text that starts with a digit is not skipped and has no sign.
skip_digit : (c : ℕ) (s : Text) → digit c ≡ true → take_sign (skip_spaces (c ∷ s)) ≡ (false, c ∷ s)
skip_digit c s h =
    let no_space : is_space c ≡ false = ground arith in
    let no_minus : (c == b'-') ≡ false = ground arith in
    let no_plus : (c == b'+') ≡ false = ground arith in rw (no_space, no_minus, no_plus) refl

scanned_number :
    (bound : ℕ) (text rest : Text) (n : ℕ)
    → IsNumber text n
    → n < bound
    → scanned bound false (text, rest) ≡ some (n, true, rest)
scanned_number bound [] rest n (value, all, (first, digits, same)) small = absurd (cc)
scanned_number bound (c ∷ s) rest n (value, all, first) small =
    let fits : ltb n bound ≡ true = ground arith in rw (value, fits) refl

pub number_scanned :
    (bound : ℕ) (text rest : Text) (n : ℕ)
    → IsNumber text n
    → Ends rest
    → n < bound
    → scan_unsigned bound (text ++ rest) ≡ some (n, true, rest)
number_scanned bound [] rest n (value, all, (first, digits, same)) ends small = absurd (cc)
number_scanned bound (c ∷ s) rest n (value, all, first) ends small =
    let (here, more) = &&-true (digit c) (all_digits s) all in
    ap (signed bound) (skip_digit c (s ++ rest) here)
    ∙ (ap (scanned bound false) (span_digits-append (c ∷ s) rest all ends)
        ∙ scanned_number bound (c ∷ s) rest n (value, all, first) small)

-- A number in range is read, up to what follows it.
pub scan_unsigned-decimal :
    (bound n : ℕ) (rest : Text)
    → Ends rest
    → n < bound
    → scan_unsigned bound (decimal n ++ rest) ≡ some (n, true, rest)
scan_unsigned-decimal bound n rest ends small =
    number_scanned bound (decimal n) rest n (decimal-IsNumber n) ends small

split_last-none : (c : ℕ) (ys : Text) → lacks c ys ≡ true → split_last c ys ≡ none
split_last-none c [] h = refl
split_last-none c (y ∷ ys) h =
    let (here, more) = &&-true (not (y == c)) (lacks c ys) h in
    let other : (y == c) ≡ false = ground arith in rw (split_last-none c ys more, other) refl

-- The last place of a character is the one before a text that lacks it.
pub split_last-append :
    (c : ℕ) (xs ys : Text) → lacks c ys ≡ true → split_last c (xs ++ (c ∷ ys)) ≡ some (xs, ys)
split_last-append c [] ys h = rw (split_last-none c ys h, ==_refl c) refl
split_last-append c (x ∷ xs) ys h = ap (or_here c x (xs ++ (c ∷ ys))) (split_last-append c xs ys h)
