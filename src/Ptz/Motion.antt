-- ===== src/Ptz/Motion.antt =====
-- The directions that a movement command may combine.
use libgb.Base.{
  ℕ, ◌<◌, ◌≤◌, ◌≡◌, ◌≢◌, refl, arith, List, [], ◌∷◌, bit_or, bit_and, true, false, Bool, tried,
  tried-at,
}
use libgb.Ptz.{
  PtzCommand, ptz_command, PtzMoveType, move, move_code, move_refused, ptz_stop, ptz_up, ptz_down,
  ptz_left, ptz_right, ptz_zoom_in, ptz_zoom_out,
}

pub moves : List (PtzMoveType × ℕ) → PtzCommand → PtzCommand
moves [] c = c
moves ((t, n) ∷ ms) c = moves ms (move t n c)

-- No axis is driven both ways.
abbrev pub NoConflict : ℕ → Type 0
NoConflict cmd =
    (bit_and cmd 0x03 ≢ 0x03) × (bit_and cmd 0x0C ≢ 0x0C) × (bit_and cmd 0x30 ≢ 0x30) × (cmd ≤ 0x2A)

move-NoConflict :
    (t : PtzMoveType) (n : ℕ) (c : PtzCommand) → NoConflict c.b3 → NoConflict (move t n c).b3
unfolding move
move-NoConflict t n c h = ground arith

moves-run :
    (ms : List (PtzMoveType × ℕ)) (c : PtzCommand) → NoConflict c.b3 → NoConflict (moves ms c).b3
unfolding moves
moves-run [] c h = h
moves-run ((t, n) ∷ ms) c h = moves-run ms (move t n c) (move-NoConflict t n c h)

ptz_command-NoConflict : (address : ℕ) → NoConflict (ptz_command address).b3
unfolding ptz_command
ptz_command-NoConflict address = (λ e. cc, λ e. cc, λ e. cc, omega arith)

-- A command built by any calls of Move never drives an axis both ways.
pub moves-NoConflict :
    (address : ℕ) (ms : List (PtzMoveType × ℕ)) → NoConflict (moves ms (ptz_command address)).b3
moves-NoConflict address ms = moves-run ms (ptz_command address) (ptz_command-NoConflict address)

abbrev pub opposite : PtzMoveType → PtzMoveType
opposite ptz_stop = ptz_stop
opposite ptz_up = ptz_down
opposite ptz_down = ptz_up
opposite ptz_left = ptz_right
opposite ptz_right = ptz_left
opposite ptz_zoom_in = ptz_zoom_out
opposite ptz_zoom_out = ptz_zoom_in

-- At every byte, a direction and then its opposite make a command that the guards refuse.
abbrev opposite_refused : PtzMoveType → ℕ → Bool
opposite_refused t x = move_refused (bit_or (bit_or x (move_code t)) (move_code (opposite t)))

opposite_table : (t : PtzMoveType) → t ≢ ptz_stop → tried (opposite_refused t) 0 256 ≡ true
unfolding tried
opposite_table ptz_stop h = absurd (h refl)
opposite_table ptz_up h = refl
opposite_table ptz_down h = refl
opposite_table ptz_left h = refl
opposite_table ptz_right h = refl
opposite_table ptz_zoom_in h = refl
opposite_table ptz_zoom_out h = refl

move_taken :
    (t : PtzMoveType) (n : ℕ) (c : PtzCommand)
    → move_refused (bit_or c.b3 (move_code t)) ≡ false
    → (move t n c).b3 ≡ bit_or c.b3 (move_code t)
unfolding move
move_taken ptz_stop n c h = rw h
move_taken t n c h = rw h

move_ignored :
    (t : PtzMoveType) (n : ℕ) (c : PtzCommand)
    → move_refused (bit_or c.b3 (move_code t)) ≡ true
    → move t n c ≡ c
unfolding move
move_ignored t n c h = rw h

-- Once a direction is taken into a command, its opposite is ignored.
move-opposite :
    (t : PtzMoveType) (n m : ℕ) (c : PtzCommand)
    → t ≢ ptz_stop
    → c.b3 < 256
    → move_refused (bit_or c.b3 (move_code t)) ≡ false
    → move (opposite t) m (move t n c) ≡ move t n c
move-opposite t n m c moving byte taken = move_ignored (opposite t) m (move t n c) (
    rw (move_taken t n c taken)
      (tried-at (opposite_refused t) 0 256 c.b3 (opposite_table t moving) (omega arith) byte))
