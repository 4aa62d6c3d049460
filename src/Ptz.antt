-- ===== src/Ptz.antt =====
-- include/gb28181/type_define.h, class PTZCommand: the eight bytes of a camera control command,
-- the builders that write them, and the frame's text form. A field is a byte, a number below 256.
pub mod Wire
pub mod Getters
pub mod Address
pub mod Motion
pub mod RoundTrip
pub mod Kinds
mod Examples
use libgb.Base.{
  ℕ, zero, suc, ◌+◌, ◌-◌, ◌*◌, ◌/◌, ◌%◌, ◌<◌, bit_and, bit_or, ◌≡◌, Bool, true, false, ◌&&◌, ◌||◌,
  Option, none, some, List, [], ◌∷◌, if◌then◌else◌, ltb, leb, ◌==◌, length,
}

-- uint8_t bytes[8]
pub record PtzCommand : Type 0 where
  pub b0 : ℕ
  pub b1 : ℕ
  pub b2 : ℕ
  pub b3 : ℕ
  pub b4 : ℕ
  pub b5 : ℕ
  pub b6 : ℕ
  pub b7 : ℕ

-- A value of type uint8_t.
abbrev pub u8 : ℕ → ℕ
u8 n = n % 256

-- x & 0x0F, x >> 4, and (hi << 4) | lo for a lo below 16, whose bits are apart.
abbrev pub low_nibble : ℕ → ℕ
low_nibble x = x % 16

abbrev pub high_nibble : ℕ → ℕ
high_nibble x = x / 16

abbrev pub join_nibbles : ℕ → ℕ → ℕ
join_nibbles hi lo = hi * 16 + lo

pub ptz_command : ℕ → PtzCommand
ptz_command device_address = record {
  b0 = 0xA5;
  b1 = 0;
  b2 = u8 device_address;
  b3 = 0;
  b4 = 0;
  b5 = 0;
  b6 = low_nibble (device_address / 256);
  b7 = 0;
}

pub data PtzMoveType : Type 0 where
  ptz_stop ptz_up ptz_down ptz_left ptz_right ptz_zoom_in ptz_zoom_out : PtzMoveType

abbrev pub move_code : PtzMoveType → ℕ
move_code ptz_stop = 0x00
move_code ptz_up = 0x08
move_code ptz_down = 0x04
move_code ptz_left = 0x02
move_code ptz_right = 0x01
move_code ptz_zoom_in = 0x10
move_code ptz_zoom_out = 0x20

-- Whether both bits of a mask are set.
abbrev pub both_set : ℕ → ℕ → Bool
both_set mask cmd = bit_and cmd mask == mask

-- The guards of Move: the command is above 0b00101010, or has two opposite directions.
abbrev pub move_refused : ℕ → Bool
move_refused cmd = ltb 0x2A cmd || both_set 0x03 cmd || both_set 0x0C cmd || both_set 0x30 cmd

abbrev set_move_speed : PtzMoveType → ℕ → PtzCommand → PtzCommand
set_move_speed ptz_left speed c = record c { b4 = speed }
set_move_speed ptz_right speed c = record c { b4 = speed }
set_move_speed ptz_up speed c = record c { b5 = speed }
set_move_speed ptz_down speed c = record c { b5 = speed }
set_move_speed _ speed c = record c { b6 = join_nibbles (low_nibble speed) (low_nibble c.b6) }

pub move : PtzMoveType → ℕ → PtzCommand → PtzCommand
move type speed c =
    let cmd = bit_or c.b3 (move_code type) in
    if move_refused cmd then c else set_move_speed type speed (record c { b3 = cmd })

pub data PtzFiType : Type 0 where
  fi_iris_out fi_iris_in fi_focus_out fi_focus_in fi_close : PtzFiType

abbrev pub fi_code : PtzFiType → ℕ
fi_code fi_iris_out = 0x48
fi_code fi_iris_in = 0x44
fi_code fi_focus_out = 0x42
fi_code fi_focus_in = 0x41
fi_code fi_close = 0x40

abbrev set_fi_speed : PtzFiType → ℕ → PtzCommand → PtzCommand
set_fi_speed fi_focus_in speed c = record c { b4 = speed }
set_fi_speed fi_focus_out speed c = record c { b4 = speed }
set_fi_speed fi_iris_in speed c = record c { b5 = speed }
set_fi_speed fi_iris_out speed c = record c { b5 = speed }
set_fi_speed fi_close speed c = c

pub fi : PtzFiType → ℕ → PtzCommand → PtzCommand
fi type speed c =
    let cmd = bit_or c.b3 (fi_code type) in
    if ltb 0x4A c.b3 || (ltb 0 c.b3 && ltb c.b3 0x40)
    then c
    else if both_set 0x03 cmd || both_set 0x0C cmd
    then c
    else set_fi_speed type speed (record c { b3 = cmd })

pub data PtzPresetType : Type 0 where
  set_preset call_preset del_preset : PtzPresetType

abbrev pub preset_code : PtzPresetType → ℕ
preset_code set_preset = 0x81
preset_code call_preset = 0x82
preset_code del_preset = 0x83

pub preset : PtzPresetType → ℕ → PtzCommand → PtzCommand
preset type preset_id c = record c { b3 = preset_code type; b5 = preset_id }

pub data PtzCruiseType : Type 0 where
  add_point del_point set_speed set_stay_time start_cruise : PtzCruiseType

abbrev pub cruise_code : PtzCruiseType → ℕ
cruise_code add_point = 0x84
cruise_code del_point = 0x85
cruise_code set_speed = 0x86
cruise_code set_stay_time = 0x87
cruise_code start_cruise = 0x88

-- ((value >> 8) << 4) | (bytes[6] & 0x0F), stored in a byte.
abbrev set_high_bits : ℕ → PtzCommand → PtzCommand
set_high_bits value c = record c { b6 = u8 (join_nibbles (value / 256) (low_nibble c.b6)) }

abbrev set_cruise_high : PtzCruiseType → ℕ → PtzCommand → PtzCommand
set_cruise_high set_speed value c = set_high_bits value c
set_cruise_high set_stay_time value c = set_high_bits value c
set_cruise_high _ value c = c

-- preset_id is a uint16_t.
pub cruise : PtzCruiseType → ℕ → ℕ → PtzCommand → PtzCommand
cruise type cruise_id preset_id c =
    set_cruise_high type preset_id
      (record c { b3 = cruise_code type; b4 = cruise_id; b5 = u8 preset_id })

pub data ScanSubType : Type 0 where
  begin_scan scan_left scan_right : ScanSubType

abbrev pub scan_sub_code : ScanSubType → ℕ
scan_sub_code begin_scan = 0
scan_sub_code scan_left = 1
scan_sub_code scan_right = 2

pub scan : ℕ → ScanSubType → PtzCommand → PtzCommand
scan group_id sub_type c = record c { b3 = 0x89; b4 = group_id; b5 = scan_sub_code sub_type }

-- The type argument of ScanSpeed is not read.
pub scan_speed : ℕ → ℕ → PtzCommand → PtzCommand
scan_speed group_id speed c =
    set_high_bits speed (record c { b3 = 0x8A; b4 = group_id; b5 = u8 speed })

pub data PtzAuxType : Type 0 where
  aux_on aux_off : PtzAuxType

abbrev pub aux_code : PtzAuxType → ℕ
aux_code aux_on = 0x8C
aux_code aux_off = 0x8D

pub aux : PtzAuxType → ℕ → PtzCommand → PtzCommand
aux type aux_id c = record c { b3 = aux_code type; b4 = aux_id }
