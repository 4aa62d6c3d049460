-- ===== src/Ptz/RoundTrip.antt =====
-- The text form of a command: what ToHex writes FromHex reads, and it reads nothing else.
use libgb.Base.{
  ℕ, zero, suc, ◌+◌, ◌-◌, ◌*◌, ◌/◌, ◌%◌, ◌<◌, ◌≡◌, refl, ap, ap₂, ◌∙◌, true, ◌&&◌, Option, none,
  some, List, [], ◌∷◌, map, if◌then◌else◌, leb, ◌==◌, length, arith, guard_inv, ==_iff, subst,
}
use libgb.Ptz.{PtzCommand}
use libgb.Ptz.Wire.{
  calculate_checksum, calculate_bytes2, validate_frame, hex_digit, hex_to_byte, bytes_to_hex,
  frame_to_hex, to_hex, is_xdigit, digit_value, read_bytes, frame_of_bytes, validated,
  frame_of_read, from_hex, to_bytes, cons_byte,
}

-- Every field is a byte, and the first is the frame's mark.
pub record IsFrame (c : PtzCommand) : Type 0 where
  pub mark : c.b0 ≡ 0xA5
  pub small1 : c.b1 < 256
  pub small2 : c.b2 < 256
  pub small3 : c.b3 < 256
  pub small4 : c.b4 < 256
  pub small5 : c.b5 < 256
  pub small6 : c.b6 < 256

-- What is sent for a command: the command with both check fields filled in.
abbrev pub sealed_frame : PtzCommand → PtzCommand
sealed_frame c = calculate_checksum (calculate_bytes2 c)

hex_digit-is_xdigit : (x : ℕ) → x < 16 → is_xdigit (hex_digit x) ≡ true
unfolding is_xdigit hex_digit
hex_digit-is_xdigit x h = ground arith

digit_value-hex_digit : (x : ℕ) → x < 16 → digit_value (hex_digit x) ≡ x
unfolding digit_value hex_digit
digit_value-hex_digit x h = ground arith

hex_to_byte-hex_digit :
    (b : ℕ) → b < 256 → hex_to_byte (hex_digit (b / 16)) (hex_digit (b % 16)) ≡ some b
unfolding hex_to_byte
hex_to_byte-hex_digit b h =
    rw
      (
        hex_digit-is_xdigit (b / 16) (omega arith),
        hex_digit-is_xdigit (b % 16) (omega arith),
        digit_value-hex_digit (b / 16) (omega arith),
        digit_value-hex_digit (b % 16) (omega arith),
      )
      (ap some (omega arith))

abbrev AllBytes : List ℕ → Type 0
AllBytes [] = Unit {0}
AllBytes (b ∷ bs) = (b < 256) × AllBytes bs

read_bytes-bytes_to_hex :
    (bs : List ℕ) → AllBytes bs → read_bytes (length bs) (bytes_to_hex bs) ≡ some bs
unfolding read_bytes bytes_to_hex
read_bytes-bytes_to_hex [] h = refl
read_bytes-bytes_to_hex (b ∷ bs) h =
    rw (hex_to_byte-hex_digit b h.0, read_bytes-bytes_to_hex bs h.1)

sealed_frame-bytes : (c : PtzCommand) → IsFrame c → AllBytes (to_bytes (sealed_frame c))
unfolding calculate_checksum calculate_bytes2
sealed_frame-bytes c v = omega arith

validate_frame-sealed : (c : PtzCommand) → IsFrame c → validate_frame (sealed_frame c) ≡ true
unfolding validate_frame calculate_bytes2
validate_frame-sealed c v = ground arith

-- Reading back the text that is sent for a frame gives the frame with its check fields filled in,
-- whatever its check fields were before.
pub from_hex-to_hex : (c : PtzCommand) → IsFrame c → from_hex (to_hex c) ≡ some (sealed_frame c)
unfolding from_hex to_hex frame_to_hex
from_hex-to_hex c v =
    rw (read_bytes-bytes_to_hex (to_bytes (sealed_frame c)) (sealed_frame-bytes c v))
      (rw (validate_frame-sealed c v))

-- std::toupper on a hexadecimal digit.
abbrev pub upper_digit : ℕ → ℕ
upper_digit c = if leb b'a' c && leb c b'f' then c - 32 else c

hex_digit-digit_value :
    (a : ℕ)
    → is_xdigit a ≡ true
    → (digit_value a < 16) × (hex_digit (digit_value a) ≡ upper_digit a)
unfolding is_xdigit digit_value hex_digit
hex_digit-digit_value a h = ground arith

hex_to_byte_inv :
    (a b v : ℕ)
    → hex_to_byte a b ≡ some v
    → (is_xdigit a ≡ true) × (is_xdigit b ≡ true) × (v ≡ digit_value a * 16 + digit_value b)
unfolding hex_to_byte
hex_to_byte_inv a b v h = ground arith

hex_to_byte_digits :
    (a b v : ℕ)
    → hex_to_byte a b ≡ some v
    → (hex_digit (v / 16) ≡ upper_digit a) × (hex_digit (v % 16) ≡ upper_digit b)
hex_to_byte_digits a b v h =
    let (xa, xb, e) = hex_to_byte_inv a b v h in
    let (sa, ea) = hex_digit-digit_value a xa in
    let (sb, eb) = hex_digit-digit_value b xb in
    let hi : v / 16 ≡ digit_value a = omega arith in
    let lo : v % 16 ≡ digit_value b = omega arith in (rw hi ea, rw lo eb)

cons_byte_inv :
    (o : Option ℕ) (r : Option (List ℕ)) (bs : List ℕ)
    → cons_byte o r ≡ some bs
    → (v : ℕ) × (vs : List ℕ) × (o ≡ some v) × (r ≡ some vs) × (bs ≡ v ∷ vs)
cons_byte_inv none r bs h = cc
cons_byte_inv (some v) none bs h = cc
cons_byte_inv (some v) (some vs) bs h = (v, vs, refl, refl, ground arith)

bytes_to_hex-read_bytes :
    (n : ℕ) (s bs : List ℕ)
    → length s ≡ n + n
    → read_bytes n s ≡ some bs
    → bytes_to_hex bs ≡ map upper_digit s
unfolding read_bytes bytes_to_hex
bytes_to_hex-read_bytes zero [] [] e h = refl
bytes_to_hex-read_bytes zero [] (b ∷ bs) e h = cc
bytes_to_hex-read_bytes zero (x ∷ s) bs e h = absurd (omega arith)
bytes_to_hex-read_bytes (suc n) [] bs e h = cc
bytes_to_hex-read_bytes (suc n) (a ∷ []) bs e h = cc
bytes_to_hex-read_bytes (suc n) (a ∷ b ∷ s) bs e h =
    let (v, vs, p, q, split) = cons_byte_inv (hex_to_byte a b) (read_bytes n s) bs h in
    let (ea, eb) = hex_to_byte_digits a b v p in
    let ih = bytes_to_hex-read_bytes n s vs (omega arith) q in rw split (ap₂ ◌∷◌ ea (ap₂ ◌∷◌ eb ih))

frame_of_bytes_inv : (bs : List ℕ) (c : PtzCommand) → frame_of_bytes bs ≡ some c → to_bytes c ≡ bs
frame_of_bytes_inv bs c h = ground arith

validate_frame_inv :
    (c : PtzCommand)
    → validate_frame c ≡ true
    → (c.b0 ≡ 0xA5) × (c.b7 ≡ (c.b6 + c.b5 + c.b4 + c.b3 + c.b2 + c.b1 + c.b0) % 256)
unfolding validate_frame calculate_checksum
validate_frame_inv c h = ground arith

validated_inv :
    (o : Option PtzCommand) (c : PtzCommand)
    → validated o ≡ some c
    → (o ≡ some c) × (validate_frame c ≡ true)
validated_inv none c h = cc
validated_inv (some d) c h =
    let (w, e) = guard_inv (validate_frame d) (some d) c h in
    let same : d ≡ c = cc in (e, subst (λ x. validate_frame x ≡ true) same w)

frame_of_read_inv :
    (o : Option (List ℕ)) (c : PtzCommand)
    → frame_of_read o ≡ some c
    → (bs : List ℕ) × (o ≡ some bs) × (frame_of_bytes bs ≡ some c)
frame_of_read_inv none c h = cc
frame_of_read_inv (some bs) c h = (bs, refl, h)

-- The stages of a successful read.
from_hex_inv :
    (hex : List ℕ) (c : PtzCommand)
    → from_hex hex ≡ some c
    → (bs : List ℕ) × (length hex ≡ 16)
      × (read_bytes 8 hex ≡ some bs)
      × (frame_of_bytes bs ≡ some c)
      × (validate_frame c ≡ true)
unfolding from_hex
from_hex_inv hex c h =
    let (e, valid) =
      guard_inv (length hex == 16) (validated (frame_of_read (read_bytes 8 hex))) c h in
    let (framed, w) = validated_inv (frame_of_read (read_bytes 8 hex)) c valid in
    let (bs, p, q) = frame_of_read_inv (read_bytes 8 hex) c framed in
    (bs, (==_iff (length hex) 16).0 e, p, q, w)

-- What is read is a frame with the right mark and checksum, and its text is the text that was
-- read, up to the case of its digits.
pub to_hex-from_hex :
    (hex : List ℕ) (c : PtzCommand)
    → from_hex hex ≡ some c
    → (frame_to_hex c ≡ map upper_digit hex)
      × (c.b0 ≡ 0xA5)
      × (c.b7 ≡ (c.b6 + c.b5 + c.b4 + c.b3 + c.b2 + c.b1 + c.b0) % 256)
unfolding frame_to_hex
to_hex-from_hex hex c h =
    let (bs, e, p, q, w) = from_hex_inv hex c h in
    let (m, s) = validate_frame_inv c w in
    (ap bytes_to_hex (frame_of_bytes_inv bs c q) ∙ bytes_to_hex-read_bytes 8 hex bs e p, m, s)
