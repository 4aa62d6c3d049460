-- ===== src/Sdp/Lines.antt =====
-- src/request/sdp.cpp: the lines of a generated text are read as they were written.
use libgb.Base.{
  ℕ, ◌≡◌, refl, sym, ap, Bool, true, false, ◌&&◌, not, List, [], ◌∷◌, ◌++◌, map, ◌==◌, arith,
  &&-true,
}
use mathlib.Core.List.{append_assoc}
use libgb.Message.{Text}
use libgb.Sdp.Parse.{get_lines, pop_return}
use libgb.Sdp.Generate.{unlines}

abbrev pub lacks : ℕ → Text → Bool
lacks c [] = true
lacks c (x ∷ xs) = not (x == c) && lacks c xs

abbrev pub all_lack : ℕ → List Text → Bool
all_lack c [] = true
all_lack c (line ∷ more) = lacks c line && all_lack c more

lacks-append : (line : Text) → lacks 10 line ≡ true → lacks 10 (line ++ (13 ∷ [])) ≡ true
lacks-append [] h = refl
lacks-append (x ∷ xs) h =
    let (here, more) = &&-true (not (x == 10)) (lacks 10 xs) h in
    rw (here, lacks-append xs more) refl

get_lines-line :
    (line rest : Text)
    → lacks 10 line ≡ true
    → get_lines (line ++ (10 ∷ rest)) ≡ line ∷ get_lines rest
unfolding get_lines
get_lines-line [] rest h = refl
get_lines-line (x ∷ xs) rest h =
    let (here, more) = &&-true (not (x == 10)) (lacks 10 xs) h in
    let other : (x == 10) ≡ false = ground arith in rw (other, get_lines-line xs rest more) refl

pop_return-last : (line : Text) → pop_return (line ++ (13 ∷ [])) ≡ line
pop_return-last [] = refl
pop_return-last (x ∷ []) = refl
pop_return-last (x ∷ y ∷ ys) = ap (λ t. x ∷ t) (pop_return-last (y ∷ ys))

-- Lines without a line feed in them are read back.
pub get_lines-unlines :
    (lines : List Text)
    → all_lack 10 lines ≡ true
    → map pop_return (get_lines (unlines lines)) ≡ lines
unfolding get_lines
get_lines-unlines [] h = refl
get_lines-unlines (line ∷ more) h =
    let (here, later) = &&-true (lacks 10 line) (all_lack 10 more) h in
    let ended : line ++ (13 ∷ (10 ∷ unlines more)) ≡ (line ++ (13 ∷ [])) ++ (10 ∷ unlines more) =
      sym (append_assoc line (13 ∷ []) (10 ∷ unlines more)) in
    rw
      (
        ended,
        get_lines-line (line ++ (13 ∷ [])) (unlines more) (lacks-append line here),
        pop_return-last line,
        get_lines-unlines more later,
      )
      refl
