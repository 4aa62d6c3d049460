-- ===== src/Sdp/Numbers.antt =====
-- src/request/sdp.cpp: numbers in the text of a description. What reads them is the XML library's, an
-- interface with its documented behaviour; the streams' and std::stoul's reading is the language's.
use libgb.Base.{
  ℕ, zero, suc, ◌+◌, ◌-◌, ◌*◌, ◌/◌, ◌%◌, ◌≡◌, Bool, true, false, ◌||◌, ◌&&◌, Option, none, some,
  List, [], ◌∷◌, ◌++◌, ◌⊎◌, if◌then◌else◌, ltb, leb, ◌==◌, length,
}
use libgb.Message.{Text}
use libgb.Sdp.Types.{ℤ, pos, negsuc}

-- Digits as operator<< writes them, on fuel: a number has at most as many digits as it is large.
unfoldable pub decimal_within : ℕ → ℕ → Text
decimal_within zero n = (b'0' + n % 10) ∷ []
decimal_within (suc fuel) n =
    let tens = decimal_within fuel (n / 10) in
    if ltb n 10 then (b'0' + n) ∷ [] else tens ++ ((b'0' + n % 10) ∷ [])

unfoldable pub decimal : ℕ → Text
unfolding decimal_within
decimal n = decimal_within n n

unfoldable pub decimal_int : ℤ → Text
unfolding decimal
decimal_int (pos n) = decimal n
decimal_int (negsuc n) = b'-' ∷ decimal (n + 1)

-- std::setw and std::setfill('0').
abbrev pub zeros : ℕ → Text
zeros zero = []
zeros (suc n) = b'0' ∷ zeros n

abbrev pub padded : ℕ → Text → Text
padded width text = zeros (width - length text) ++ text

-- The value of digits.
abbrev pub value_from : ℕ → Text → ℕ
value_from n [] = n
value_from n (c ∷ s) = value_from (n * 10 + (c - b'0')) s

abbrev pub digit : ℕ → Bool
digit c = leb b'0' c && leb c b'9'

abbrev pub all_digits : Text → Bool
all_digits [] = true
all_digits (c ∷ s) = digit c && all_digits s

-- A number is written at the start of a text: digits, and nothing or a blank behind them.
pub record Writes (text : Text) (n : ℕ) : Type 0 where
  pub first : ℕ
  pub digits : Text
  pub rest : Text
  pub all : all_digits (first ∷ digits) ≡ true
  pub value : value_from 0 (first ∷ digits) ≡ n
  pub is_text : text ≡ (first ∷ digits) ++ rest
  pub ends : (rest ≡ []) ⊎ ((more : Text) × (rest ≡ b' ' ∷ more))

-- ToInt, ToUnsigned and ToUnsigned64 of the XML library, and split of the network library.
pub record Library : Type 0 where
  pub to_int : Text → Option ℤ
  pub to_unsigned : Text → Option ℕ
  pub to_unsigned64 : Text → Option ℕ
  pub split : Text → ℕ → List Text

abbrev pub is_space : ℕ → Bool
is_space c = c == b' ' || leb 9 c && leb c 13

abbrev pub skip_spaces : Text → Text
skip_spaces [] = []
skip_spaces (c ∷ s) = let later = skip_spaces s in if is_space c then later else c ∷ s

-- The digits at the start of a text, and what follows.
abbrev pub span_digits : Text → Text × Text
span_digits [] = ([], [])
span_digits (c ∷ s) =
    let (head, rest) = span_digits s in if digit c then (c ∷ head, rest) else ([], c ∷ s)

-- The word at the start of a text.
abbrev pub span_word : Text → Text × Text
span_word [] = ([], [])
span_word (c ∷ s) =
    let (head, rest) = span_word s in if is_space c then ([], c ∷ s) else (c ∷ head, rest)

abbrev pub take_sign : Text → Bool × Text
take_sign [] = (false, [])
take_sign (c ∷ s) =
    if c == b'-' then (true, s) else if c == b'+' then (false, s) else (false, c ∷ s)

-- The negative of a number among those below a bound.
abbrev pub negated : Bool → ℕ → ℕ → ℕ
negated false bound n = n
negated true bound n = (bound - n) % bound

-- An unsigned number below a bound at the start of a text, after spaces and a sign: none without digits,
-- else its value, whether it is in range, and what follows.
abbrev pub scanned : ℕ → Bool → Text × Text → Option (ℕ × Bool × Text)
scanned bound negative ([], rest) = none
scanned bound negative (c ∷ s, rest) =
    let n = value_from 0 (c ∷ s) in
    if ltb n bound
    then some (negated negative bound n, true, rest)
    else some (bound - 1, false, rest)

abbrev pub signed : ℕ → Bool × Text → Option (ℕ × Bool × Text)
signed bound (negative, text) = scanned bound negative (span_digits text)

abbrev pub scan_unsigned : ℕ → Text → Option (ℕ × Bool × Text)
scan_unsigned bound text = signed bound (take_sign (skip_spaces text))
