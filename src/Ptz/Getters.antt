-- ===== src/Ptz/Getters.antt =====
-- include/gb28181/type_define.h, class PTZCommand: the accessors of a command's fields.
use libgb.Base.{ℕ, ◌+◌, ◌*◌, Bool, true, false, ◌&&◌, ◌||◌, if◌then◌else◌, leb, ◌==◌}
use libgb.Ptz.{PtzCommand, low_nibble, high_nibble}

pub data CommandType : Type 0 where
  invalid ptz fi preset cruise scan aux : CommandType

-- ((bytes[6] & 0x0F) << 8) | bytes[2]
unfoldable pub device_address : PtzCommand → ℕ
device_address c = low_nibble c.b6 * 256 + c.b2

-- ((bytes[6] & 0xF0) << 4) | bytes[5]
abbrev pub wide_param : PtzCommand → ℕ
wide_param c = high_nibble c.b6 * 256 + c.b5

unfoldable pub param2 : PtzCommand → ℕ
param2 c = if c.b3 == 0x86 || c.b3 == 0x87 || c.b3 == 0x8A then wide_param c else c.b5

-- The test for PRESET reads >= 0x81 && >= 0x83.
unfoldable pub get_command_type : PtzCommand → CommandType
get_command_type c =
    if c.b3 == 0
    then ptz
    else if leb c.b3 0x2A
    then ptz
    else if leb c.b3 0x4A
    then fi
    else if leb 0x81 c.b3 && leb 0x83 c.b3
    then preset
    else if leb 0x84 c.b3 && leb c.b3 0x88
    then cruise
    else if leb 0x89 c.b3 && leb c.b3 0x8A
    then scan
    else if leb 0x8C c.b3 && leb c.b3 0x8D
    then aux
    else invalid

abbrev pub is_ptz : CommandType → Bool
is_ptz ptz = true
is_ptz _ = false

abbrev pub is_fi : CommandType → Bool
is_fi fi = true
is_fi _ = false

abbrev pub is_preset : CommandType → Bool
is_preset preset = true
is_preset _ = false

abbrev pub is_cruise : CommandType → Bool
is_cruise cruise = true
is_cruise _ = false

abbrev pub is_aux : CommandType → Bool
is_aux aux = true
is_aux _ = false

unfoldable pub param3 : PtzCommand → ℕ
unfolding get_command_type
param3 c = if is_ptz (get_command_type c) then high_nibble c.b6 else 0

-- The move that the getter answers with is the horizontal speed's byte.
unfoldable pub get_move_type : PtzCommand → ℕ
unfolding get_command_type
get_move_type c = if is_ptz (get_command_type c) then c.b4 else 0

unfoldable pub pan_speed : PtzCommand → ℕ
unfolding get_command_type
pan_speed c = if is_ptz (get_command_type c) then c.b4 else 0

unfoldable pub tilt_speed : PtzCommand → ℕ
unfolding get_command_type
tilt_speed c = if is_ptz (get_command_type c) then c.b5 else 0

unfoldable pub zoom_speed : PtzCommand → ℕ
unfolding get_command_type
zoom_speed c = if is_ptz (get_command_type c) then high_nibble c.b6 else 0

unfoldable pub iris_speed : PtzCommand → ℕ
unfolding get_command_type
iris_speed c = if is_fi (get_command_type c) then c.b5 else 0

unfoldable pub focus_speed : PtzCommand → ℕ
unfolding get_command_type
focus_speed c = if is_fi (get_command_type c) then c.b4 else 0

unfoldable pub get_preset_id : PtzCommand → ℕ
unfolding get_command_type
get_preset_id c =
    if is_preset (get_command_type c)
    then c.b5
    else if is_cruise (get_command_type c)
    then (if c.b3 == 0x84 || c.b3 == 0x85 then c.b5 else 0)
    else 0

unfoldable pub get_cruise_id : PtzCommand → ℕ
unfolding get_command_type
get_cruise_id c = if is_cruise (get_command_type c) then c.b4 else 0

unfoldable pub get_cruise_speed : PtzCommand → ℕ
get_cruise_speed c = if c.b3 == 0x86 then wide_param c else 0

unfoldable pub get_cruise_stay_time : PtzCommand → ℕ
get_cruise_stay_time c = if c.b3 == 0x87 then wide_param c else 0

unfoldable pub get_aux_id : PtzCommand → ℕ
unfolding get_command_type
get_aux_id c = if is_aux (get_command_type c) then c.b4 else 0
