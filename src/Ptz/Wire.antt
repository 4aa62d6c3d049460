-- ===== src/Ptz/Wire.antt =====
-- include/gb28181/type_define.h, class PTZCommand: ToHex, FromHex, FrameToHex, HexToByte, the two
-- check fields and ValidateFrame. Text is a list of character codes.
use libgb.Base.{
  ℕ, zero, suc, ◌+◌, ◌-◌, ◌*◌, ◌/◌, ◌%◌, Bool, false, ◌&&◌, ◌||◌, Option, none, some, List, [], ◌∷◌,
  if◌then◌else◌, leb, ltb, ◌==◌, length,
}
use libgb.Ptz.{PtzCommand, high_nibble, low_nibble, join_nibbles}

unfoldable pub calculate_checksum : PtzCommand → PtzCommand
calculate_checksum c = record c { b7 = (c.b6 + c.b5 + c.b4 + c.b3 + c.b2 + c.b1 + c.b0) % 256 }

-- The version stays in the high half of byte 2; the low half is its check.
unfoldable pub calculate_bytes2 : PtzCommand → PtzCommand
calculate_bytes2 c = record c {
  b1 =
      join_nibbles (high_nibble c.b1)
        ((high_nibble c.b0 + low_nibble c.b0 + high_nibble c.b1) % 16);
}

unfoldable pub validate_frame : PtzCommand → Bool
unfolding calculate_checksum
validate_frame c = if c.b0 == 0xA5 then (calculate_checksum c).b7 == c.b7 else false

-- One digit of std::hex with std::uppercase.
unfoldable pub hex_digit : ℕ → ℕ
hex_digit n = if ltb n 10 then b'0' + n else b'A' + (n - 10)

-- std::setw(2) << static_cast<int>(byte) of a byte.
unfoldable pub hex_byte : ℕ → List ℕ
unfolding hex_digit
hex_byte b = hex_digit (b / 16) ∷ hex_digit (b % 16) ∷ []

abbrev pub to_bytes : PtzCommand → List ℕ
to_bytes c = c.b0 ∷ c.b1 ∷ c.b2 ∷ c.b3 ∷ c.b4 ∷ c.b5 ∷ c.b6 ∷ c.b7 ∷ []

unfoldable pub bytes_to_hex : List ℕ → List ℕ
unfolding hex_byte
bytes_to_hex [] = []
bytes_to_hex (b ∷ bs) = hex_digit (b / 16) ∷ hex_digit (b % 16) ∷ bytes_to_hex bs

unfoldable pub frame_to_hex : PtzCommand → List ℕ
unfolding bytes_to_hex
frame_to_hex c = bytes_to_hex (to_bytes c)

unfoldable pub to_hex : PtzCommand → List ℕ
unfolding frame_to_hex calculate_bytes2 calculate_checksum
to_hex c = frame_to_hex (calculate_checksum (calculate_bytes2 c))

-- std::isxdigit
unfoldable pub is_xdigit : ℕ → Bool
is_xdigit c = (leb b'0' c && leb c b'9') || (leb b'A' c && leb c b'F') || (leb b'a' c && leb c b'f')

-- The value that std::stoi in base 16 gives a digit.
unfoldable pub digit_value : ℕ → ℕ
digit_value c = if leb c b'9' then c - b'0' else if leb c b'F' then c - 55 else c - 87

unfoldable pub hex_to_byte : ℕ → ℕ → Option ℕ
unfolding is_xdigit digit_value
hex_to_byte a b =
    if is_xdigit a && is_xdigit b then some (digit_value a * 16 + digit_value b) else none

abbrev pub cons_byte : Option ℕ → Option (List ℕ) → Option (List ℕ)
cons_byte none r = none
cons_byte (some b) none = none
cons_byte (some b) (some bs) = some (b ∷ bs)

-- The loop of FromHex over the pairs of digits, for the bytes that are left.
unfoldable pub read_bytes : ℕ → List ℕ → Option (List ℕ)
unfolding hex_to_byte
read_bytes zero s = some []
read_bytes (suc n) [] = none
read_bytes (suc n) (a ∷ []) = none
read_bytes (suc n) (a ∷ b ∷ s) = cons_byte (hex_to_byte a b) (read_bytes n s)

abbrev pub frame_of_bytes : List ℕ → Option PtzCommand
frame_of_bytes (b0 ∷ b1 ∷ b2 ∷ b3 ∷ b4 ∷ b5 ∷ b6 ∷ b7 ∷ []) =
    some (record { b0 = b0; b1 = b1; b2 = b2; b3 = b3; b4 = b4; b5 = b5; b6 = b6; b7 = b7 })
frame_of_bytes _ = none

abbrev pub validated : Option PtzCommand → Option PtzCommand
validated none = none
validated (some c) = if validate_frame c then some c else none

abbrev pub frame_of_read : Option (List ℕ) → Option PtzCommand
frame_of_read none = none
frame_of_read (some bs) = frame_of_bytes bs

unfoldable pub from_hex : List ℕ → Option PtzCommand
unfolding read_bytes validate_frame
from_hex hex = if length hex == 16 then validated (frame_of_read (read_bytes 8 hex)) else none
