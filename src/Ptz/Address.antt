-- ===== src/Ptz/Address.antt =====
-- The twelve bits of the device address and the twelve bits of a wide parameter share byte 6.
use libgb.Base.{ℕ, ◌%◌, ◌≡◌, refl, ◌∙◌, arith, List, [], ◌∷◌}
use libgb.Ptz.{
  PtzCommand, ptz_command, PtzMoveType, move, PtzFiType, fi, PtzPresetType, preset, PtzCruiseType,
  set_speed, set_stay_time, cruise, scan, ScanSubType, scan_speed, PtzAuxType, aux,
}
use libgb.Ptz.Getters.{device_address, param2, get_cruise_speed, get_cruise_stay_time}

-- A call of one of the builders.
pub data Build : Type 0 where
  move_by : PtzMoveType → ℕ → Build
  fi_by : PtzFiType → ℕ → Build
  preset_by : PtzPresetType → ℕ → Build
  cruise_by : PtzCruiseType → ℕ → ℕ → Build
  scan_by : ℕ → ScanSubType → Build
  scan_speed_by : ℕ → ℕ → Build
  aux_by : PtzAuxType → ℕ → Build

pub build : Build → PtzCommand → PtzCommand
build (move_by t n) c = move t n c
build (fi_by t n) c = fi t n c
build (preset_by t n) c = preset t n c
build (cruise_by t n m) c = cruise t n m c
build (scan_by n t) c = scan n t c
build (scan_speed_by n m) c = scan_speed n m c
build (aux_by t n) c = aux t n c

pub build_all : List Build → PtzCommand → PtzCommand
build_all [] c = c
build_all (b ∷ bs) c = build_all bs (build b c)

device_address-build : (b : Build) (c : PtzCommand) → device_address (build b c) ≡ device_address c
unfolding build device_address move fi preset cruise scan scan_speed aux
device_address-build (move_by t n) c = ground arith
device_address-build (fi_by t n) c = ground arith
device_address-build (preset_by t n) c = ground arith
device_address-build (cruise_by t n m) c = ground arith
device_address-build (scan_by n t) c = ground arith
device_address-build (scan_speed_by n m) c = ground arith
device_address-build (aux_by t n) c = ground arith

device_address-run :
    (bs : List Build) (c : PtzCommand) → device_address (build_all bs c) ≡ device_address c
unfolding build_all
device_address-run [] c = refl
device_address-run (b ∷ bs) c = device_address-run bs (build b c) ∙ device_address-build b c

device_address-new : (address : ℕ) → device_address (ptz_command address) ≡ address % 4096
unfolding device_address ptz_command
device_address-new address = omega arith

-- The address that a command is made for, cut to its twelve bits, is what the command answers
-- after any calls of the builders.
pub device_address-build_all :
    (address : ℕ) (bs : List Build)
    → device_address (build_all bs (ptz_command address)) ≡ address % 4096
device_address-build_all address bs =
    device_address-run bs (ptz_command address) ∙ device_address-new address

-- A cruise speed, a stay time and a scan speed are read back with their low twelve bits, by the
-- common accessor, and the first two by their own.
wide_param-build :
    (id value : ℕ) (c : PtzCommand)
    → (get_cruise_speed (cruise set_speed id value c) ≡ value % 4096)
      × (param2 (cruise set_speed id value c) ≡ value % 4096)
      × (get_cruise_stay_time (cruise set_stay_time id value c) ≡ value % 4096)
      × (param2 (cruise set_stay_time id value c) ≡ value % 4096)
      × (param2 (scan_speed id value c) ≡ value % 4096)
unfolding cruise scan_speed param2 get_cruise_speed get_cruise_stay_time
wide_param-build id value c = ground arith
