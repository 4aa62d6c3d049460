-- ===== src/Base/Texts.antt =====
-- Texts as lists of character codes: literals, parts, and the searches of std::string_view.
use Prim.Native.Nat.{ℕ, zero, suc}
use Prim.Native.Char.{code}
use Prim.Native.String.{String}
use mathlib.Core.Bool.{Bool, true, false, ◌&&◌, ◌||◌}
use mathlib.Core.Option.{Option, none, some}
use mathlib.Core.List.{List, [], ◌∷◌}
use libgb.Base.Tests.{◌==◌, leb, if◌then◌else◌}

-- The codes of a literal.
abbrev pub codes : String → List ℕ
codes String.[] = []
codes (String.◌∷◌ c s) = code c ∷ codes s

module _ {ℓ} {A : Type ℓ} where
  abbrev pub take : ℕ → List A → List A
  take zero xs = []
  take (suc n) [] = []
  take (suc n) (x ∷ xs) = x ∷ take n xs

  abbrev pub drop : ℕ → List A → List A
  drop zero xs = xs
  drop (suc n) [] = []
  drop (suc n) (x ∷ xs) = drop n xs

  abbrev pub get_elem? : List A → ℕ → Option A
  get_elem? [] n = none
  get_elem? (x ∷ xs) zero = some x
  get_elem? (x ∷ xs) (suc n) = get_elem? xs n

abbrev pub starts_with : List ℕ → List ℕ → Bool
starts_with [] text = true
starts_with (p ∷ ps) [] = false
starts_with (p ∷ ps) (x ∷ xs) = p == x && starts_with ps xs

abbrev pub one_more : Option ℕ → Option ℕ
one_more none = none
one_more (some n) = some (suc n)

-- find of a text that is not empty, and of a character.
abbrev pub find : List ℕ → List ℕ → Option ℕ
find pattern [] = none
find pattern (x ∷ xs) =
    let later = find pattern xs in if starts_with pattern (x ∷ xs) then some 0 else one_more later

abbrev pub find_char : ℕ → List ℕ → Option ℕ
find_char c [] = none
find_char c (x ∷ xs) = let later = find_char c xs in if c == x then some 0 else one_more later

-- std::isblank and std::isdigit of a character that may be past the end.
abbrev pub is_blank : Option ℕ → Bool
is_blank none = false
is_blank (some c) = c == b' ' || c == 9

abbrev pub is_digit : Option ℕ → Bool
is_digit none = false
is_digit (some c) = leb b'0' c && leb c b'9'
