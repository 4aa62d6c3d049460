-- ===== src/Framing/Fuel.antt =====
-- src/inner/sip_session.cpp: the rounds of the loop over the lines in get_sip_message_type.
use libgb.Base.{
  ℕ, zero, suc, ◌+◌, ◌≤◌, ◌≡◌, refl, ap, Option, none, some, [], ◌∷◌, leb, true, if◌then◌else◌,
  length, take, drop, arith, find_char,
}
use libgb.Message.{Text}
use libgb.Framing.Search.{check_line, check_lines, find_line_end}

drop_all : (n : ℕ) (text : Text) → length text ≤ n → drop n text ≡ []
drop_all zero [] h = refl
drop_all zero (x ∷ xs) h = absurd (omega arith)
drop_all (suc n) [] h = refl
drop_all (suc n) (x ∷ xs) h = drop_all n xs (omega arith)

take_nil : (n : ℕ) → take {A = ℕ} n [] ≡ []
take_nil zero = refl
take_nil (suc n) = refl

-- The end of a line is not before its start.
abbrev IsAfter : ℕ → Option ℕ → Type 0
IsAfter pos none = Unit
IsAfter pos (some crlf_pos) = pos ≤ crlf_pos

found-IsAfter :
    (pos : ℕ) (found : Option ℕ)
    → IsAfter pos (elim found [ none ↦ none | some n ↦ some (pos + n) ])
found-IsAfter pos none = tt
found-IsAfter pos (some n) = omega arith

-- As many rounds as there are characters after the position are enough: one more changes nothing.
check_lines_enough :
    (fuel : ℕ) (text : Text) (pos : ℕ) (line_end : Option ℕ)
    → IsAfter pos line_end
    → length text ≤ fuel + pos
    → check_lines fuel text pos line_end ≡ check_lines (suc fuel) text pos line_end
unfolding check_lines check_line
check_lines_enough zero text pos none after enough = refl
check_lines_enough zero text pos (some crlf_pos) after enough =
    let past : leb (length text) (crlf_pos + 1) ≡ true = ground arith in
    rw (check_lines, drop_all pos text (omega (arith, enough)), take_nil crlf_pos, past) refl
check_lines_enough (suc fuel) text pos none after enough = refl
check_lines_enough (suc fuel) text pos (some crlf_pos) after enough =
    ap
      (λ later. elim (check_line (take crlf_pos (drop pos text))) [
        | some (kind, start) ↦ some (kind, pos, start)
        | none ↦ if leb (length text) (crlf_pos + 1) then none else later
      ])
      (check_lines_enough fuel text (crlf_pos + 1) (find_line_end text (crlf_pos + 1))
        (found-IsAfter (crlf_pos + 1) (find_char 10 (drop (crlf_pos + 1) text)))
        (omega (arith, after, enough)))
