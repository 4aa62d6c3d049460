-- ===== src/Ptz/Kinds.antt =====
-- What the accessors answer for the commands that the builders make.
use libgb.Base.{ℕ, ◌%◌, ◌≡◌, refl, arith, if◌then◌else◌, true, false, Bool}
use libgb.Ptz.{
  fi, fi_iris_in, fi_iris_out, fi_focus_in, fi_focus_out, PtzCommand, ptz_command, move, ptz_up,
  ptz_down, ptz_left, ptz_right, ptz_zoom_in, ptz_zoom_out, preset, set_preset, call_preset,
  del_preset, PtzCruiseType, cruise, aux, PtzAuxType, scan, ScanSubType, scan_speed,
}
use libgb.Ptz.Getters.{
  CommandType, invalid, get_command_type, get_move_type, pan_speed, iris_speed, focus_speed,
  tilt_speed, zoom_speed, get_preset_id, get_cruise_id, get_aux_id,
}

-- A command that moves along all three axes: the speeds are read back, the zoom's with its low
-- four bits, and get_move_type answers the horizontal speed in place of the directions.
speeds-move :
    (left up zoom_in : Bool) (address pan tilt zoom : ℕ)
    → let c = move (if zoom_in then ptz_zoom_in else ptz_zoom_out) zoom (
        move
          (if up then ptz_up else ptz_down)
          tilt
          (move (if left then ptz_left else ptz_right) pan (ptz_command address))) in
      (pan_speed c ≡ pan)
      × (tilt_speed c ≡ tilt)
      × (zoom_speed c ≡ zoom % 16)
      × (get_move_type c ≡ pan)
unfolding move ptz_command pan_speed tilt_speed zoom_speed get_move_type
speeds-move true true true address pan tilt zoom = (refl, refl, omega arith, refl)
speeds-move true true false address pan tilt zoom = (refl, refl, omega arith, refl)
speeds-move true false true address pan tilt zoom = (refl, refl, omega arith, refl)
speeds-move true false false address pan tilt zoom = (refl, refl, omega arith, refl)
speeds-move false true true address pan tilt zoom = (refl, refl, omega arith, refl)
speeds-move false true false address pan tilt zoom = (refl, refl, omega arith, refl)
speeds-move false false true address pan tilt zoom = (refl, refl, omega arith, refl)
speeds-move false false false address pan tilt zoom = (refl, refl, omega arith, refl)

-- The type that a command reports: every cruise, scan and auxiliary command says that it is a
-- preset command, so no cruise path and no auxiliary switch is ever read back; the commands that
-- set or call a preset say that they are invalid, and their preset is not read back either.
pub get_command_type-build :
    (cruise_type : PtzCruiseType) (sub : ScanSubType) (aux_type : PtzAuxType) (id value : ℕ)
    (c : PtzCommand)
    → (get_command_type (cruise cruise_type id value c) ≡ CommandType.preset)
      × (get_cruise_id (cruise cruise_type id value c) ≡ 0)
      × (get_command_type (scan id sub c) ≡ CommandType.preset)
      × (get_command_type (scan_speed id value c) ≡ CommandType.preset)
      × (get_command_type (aux aux_type id c) ≡ CommandType.preset)
      × (get_aux_id (aux aux_type id c) ≡ 0)
      × (get_command_type (preset set_preset id c) ≡ invalid)
      × (get_preset_id (preset set_preset id c) ≡ 0)
      × (get_command_type (preset call_preset id c) ≡ invalid)
      × (get_preset_id (preset call_preset id c) ≡ 0)
      × (get_preset_id (preset del_preset id c) ≡ id)
unfolding get_command_type get_cruise_id get_aux_id get_preset_id cruise scan scan_speed aux preset
get_command_type-build cruise_type sub aux_type id value c = ground arith

-- A lens command that works both the focus and the iris: the two speeds are read back.
speeds-fi :
    (focus_in iris_in : Bool) (address focus iris : ℕ)
    → let c =
        fi
          (if iris_in then fi_iris_in else fi_iris_out)
          iris
          (fi (if focus_in then fi_focus_in else fi_focus_out) focus (ptz_command address)) in
      (focus_speed c ≡ focus) × (iris_speed c ≡ iris) × (get_command_type c ≡ CommandType.fi)
unfolding fi ptz_command focus_speed iris_speed
speeds-fi true true address focus iris = (refl, refl, refl)
speeds-fi true false address focus iris = (refl, refl, refl)
speeds-fi false true address focus iris = (refl, refl, refl)
speeds-fi false false address focus iris = (refl, refl, refl)
