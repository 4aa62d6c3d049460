-- ===== src/Ptz/Examples.antt =====
-- Concrete commands.
use libgb.Base.{ℕ, ◌≡◌, refl, arith, some, List, [], ◌∷◌, map}
use libgb.Ptz.{
  PtzCommand, ptz_command, move, cruise, aux_on, begin_scan, ptz_left, ptz_right, set_speed,
}
use libgb.Ptz.Wire.{to_hex, from_hex, frame_to_hex, calculate_checksum, calculate_bytes2}
use libgb.Ptz.RoundTrip.{IsFrame, sealed_frame, from_hex-to_hex, to_hex-from_hex, upper_digit}
use libgb.Ptz.Motion.{moves, moves-NoConflict, NoConflict}
use libgb.Ptz.Address.{build_all, device_address-build_all, move_by, cruise_by}
use libgb.Ptz.Getters.{device_address, get_cruise_id}
use libgb.Ptz.Kinds.{get_command_type-build}

-- Pan left at speed 0x7D: A50F01027D0000 and its sum.
abbrev pan_left : PtzCommand
pan_left = record { b0 = 0xA5; b1 = 0; b2 = 1; b3 = 2; b4 = 0x7D; b5 = 0; b6 = 0; b7 = 0 }

abbrev pan_left_text : List ℕ
pan_left_text =
    b'A' ∷ b'5' ∷ b'0' ∷ b'F' ∷ b'0' ∷ b'1' ∷ b'0' ∷ b'2' ∷ b'7' ∷ b'd' ∷ b'0' ∷ b'0' ∷ b'0' ∷ b'0'
    ∷ b'3' ∷ b'4' ∷ []

move_left : move ptz_left 0x7D (ptz_command 1) ≡ pan_left
unfolding move ptz_command
move_left = refl

to_hex_left : to_hex pan_left ≡ map upper_digit pan_left_text
unfolding to_hex
to_hex_left = refl

pan_left-IsFrame : IsFrame pan_left
pan_left-IsFrame = omega arith

from_hex-to_hex_example : from_hex (to_hex pan_left) ≡ some (sealed_frame pan_left)
from_hex-to_hex_example = from_hex-to_hex pan_left pan_left-IsFrame

from_hex_left : from_hex pan_left_text ≡ some (sealed_frame pan_left)
unfolding from_hex calculate_checksum calculate_bytes2
from_hex_left = refl

to_hex-from_hex_example : frame_to_hex (sealed_frame pan_left) ≡ map upper_digit pan_left_text
to_hex-from_hex_example = (to_hex-from_hex pan_left_text (sealed_frame pan_left) from_hex_left).0

device_address-build_all_example :
    device_address
      (build_all (move_by ptz_left 9 ∷ cruise_by set_speed 1 0x345 ∷ []) (ptz_command 0x1234))
    ≡ 0x234
device_address-build_all_example =
    device_address-build_all 0x1234 (move_by ptz_left 9 ∷ cruise_by set_speed 1 0x345 ∷ [])

moves-NoConflict_example :
    NoConflict (moves ((ptz_left, 5) ∷ (ptz_right, 6) ∷ []) (ptz_command 1)).b3
moves-NoConflict_example = moves-NoConflict 1 ((ptz_left, 5) ∷ (ptz_right, 6) ∷ [])

get_command_type-build_example : get_cruise_id (cruise set_speed 9 4 (ptz_command 1)) ≡ 0
get_command_type-build_example =
    (get_command_type-build set_speed begin_scan aux_on 9 4 (ptz_command 1)).1
