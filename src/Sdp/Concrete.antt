-- ===== src/Sdp/Concrete.antt =====
-- Functions that read numbers and split texts as the descriptions' code relies on it.
use libgb.Base.{
  ℕ, ◌^◌, ◌<◌, ◌≡◌, refl, ap, Bool, true, false, not, Option, none, some, List, [], ◌∷◌, ◌++◌, ◌==◌,
  if◌then◌else◌, arith, &&-true, ==_refl,
}
use libgb.Message.{Text}
use libgb.Sdp.Types.{ℤ, pos}
use libgb.Sdp.Numbers.{Library, Writes, scan_unsigned}
use libgb.Sdp.Parse.{before_line}
use libgb.Sdp.Generate.{is_empty, joined}
use libgb.Sdp.Lines.{lacks}
use libgb.Sdp.Plain.{all_words, IsFaithful}
use libgb.Sdp.Scanned.{number_scanned}

abbrev in_range : Option (ℕ × Bool × Text) → Option ℕ
in_range none = none
in_range (some (n, fits, rest)) = if fits then some n else none

abbrev as_int : Option ℕ → Option ℤ
as_int none = none
as_int (some n) = some (pos n)

abbrev pieces : ℕ → Text → List Text
pieces sep [] = []
pieces sep (c ∷ s) =
    let later = pieces sep s in if c == sep then [] ∷ later else before_line c later

-- The pieces that are not empty.
abbrev filled_pieces : List Text → List Text
filled_pieces [] = []
filled_pieces (w ∷ ws) = let rest = filled_pieces ws in if is_empty w then rest else w ∷ rest

abbrev pub concrete : Library
concrete = record {
  to_int = λ text. as_int (in_range (scan_unsigned (2 ^ 31) text));
  to_unsigned = λ text. in_range (scan_unsigned (2 ^ 32) text);
  to_unsigned64 = λ text. in_range (scan_unsigned (2 ^ 64) text);
  split = λ text sep. if is_empty text then [] ∷ [] else filled_pieces (pieces sep text);
}

written :
    (bound : ℕ) (text : Text) (n : ℕ)
    → Writes text n
    → n < bound
    → in_range (scan_unsigned bound text) ≡ some n
written bound text n w small =
    let number =
      number_scanned bound (w.first ∷ w.digits) w.rest n (w.value, w.all, (w.first, w.digits, refl))
        w.ends small in
    rw w.is_text (rw number refl)

pieces-word :
    (sep : ℕ) (w rest : Text)
    → lacks sep w ≡ true
    → pieces sep (w ++ (sep ∷ rest)) ≡ w ∷ pieces sep rest
pieces-word sep [] rest h = rw (==_refl sep) refl
pieces-word sep (c ∷ s) rest h =
    let (here, more) = &&-true (not (c == sep)) (lacks sep s) h in
    let other : (c == sep) ≡ false = ground arith in rw (other, pieces-word sep s rest more) refl

pieces-last : (sep c : ℕ) (s : Text) → lacks sep (c ∷ s) ≡ true → pieces sep (c ∷ s) ≡ (c ∷ s) ∷ []
pieces-last sep c [] h =
    let (here, more) = &&-true (not (c == sep)) true h in
    let other : (c == sep) ≡ false = ground arith in rw other refl
pieces-last sep c (d ∷ s) h =
    let (here, more) = &&-true (not (c == sep)) (lacks sep (d ∷ s)) h in
    let other : (c == sep) ≡ false = ground arith in rw (other, pieces-last sep d s more) refl

pieces-joined :
    (sep : ℕ) (w : Text) (ws : List Text)
    → all_words sep (w ∷ ws) ≡ true
    → filled_pieces (pieces sep (joined sep (w ∷ ws))) ≡ w ∷ ws
pieces-joined sep [] [] h = absurd (cc)
pieces-joined sep (c ∷ s) [] h =
    let (word, more) = &&-true (lacks sep (c ∷ s)) true h in rw (pieces-last sep c s word) refl
pieces-joined sep [] (v ∷ ws) h = absurd (cc)
pieces-joined sep (c ∷ s) (v ∷ ws) h =
    let (word, more) = &&-true (lacks sep (c ∷ s)) (all_words sep (v ∷ ws)) h in
    rw (pieces-word sep (c ∷ s) (joined sep (v ∷ ws)) word)
      (ap (λ l. (c ∷ s) ∷ l) (pieces-joined sep v ws more))

joined-filled :
    (sep : ℕ) (w : Text) (ws : List Text)
    → all_words sep (w ∷ ws) ≡ true
    → is_empty (joined sep (w ∷ ws)) ≡ false
joined-filled sep [] [] h = absurd (cc)
joined-filled sep [] (v ∷ ws) h = absurd (cc)
joined-filled sep (c ∷ s) [] h = refl
joined-filled sep (c ∷ s) (v ∷ ws) h = refl

pub concrete-IsFaithful : IsFaithful concrete
concrete-IsFaithful = record {
  ints = λ text n w small. ap as_int (written (2 ^ 31) text n w small);
  unsigneds = λ text n w small. written (2 ^ 32) text n w small;
  unsigneds64 = λ text n w small. written (2 ^ 64) text n w small;
  splits = λ sep w ws h. rw (joined-filled sep w ws h) (pieces-joined sep w ws h);
}
