-- ===== src/Sdp/Errors.antt =====
-- src/request/sdp.cpp: when parse has no result.
use libgb.Base.{
  ℕ, ◌≡◌, refl, ◌∙◌, Bool, true, false, not, ◌&&◌, ◌||◌, Bool-cases, inl, inr, Option, none, some,
  List, [], ◌∷◌, ◌==◌, text_eq, map, codes, arith, if◌then◌else◌,
}
use libgb.Message.{Text}
use libgb.Sdp.Types.{SdpAddressType, Connection, MediaDescription, Description, new_connection_info}
use libgb.Sdp.Numbers.{Library}
use libgb.Sdp.Generate.{is_empty}
use libgb.Sdp.Fields.{
  parse_address_type, parse_origin_parts, parse_connection_parts, origin_of, connection_of,
}
use libgb.Sdp.Parse.{
  Parsing, parse_field, parse_line, parse_lines, get_lines, pop_return, parse, with_origin,
  with_connection,
}

abbrev pub is_address_type : Text → Bool
is_address_type type = text_eq type (codes "IP4") || text_eq type (codes "IP6")

-- The type of an address is wrong in an origin of six parts.
abbrev pub wrong_origin : List Text → Bool
wrong_origin (a ∷ b ∷ c ∷ d ∷ type ∷ f ∷ more) = not (is_address_type type)
wrong_origin parts = false

abbrev pub is_some {ℓ} : {A : Type ℓ} → Option A → Bool
is_some none = false
is_some (some a) = true

address_some : (type : Text) → is_some (parse_address_type type) ≡ is_address_type type
unfolding parse_address_type
address_some type = ground arith

some_or :
    (b : Bool) (x : Parsing) (y : Option Parsing)
    → is_some y ≡ true
    → is_some (if b then some x else y) ≡ true
some_or true x y h = refl
some_or false x y h = h

module _ (lib : Library) where
  -- The type of an address is wrong in a connection of three parts, or its address has no part.
  abbrev pub wrong_connection : List Text → Bool
  wrong_connection (a ∷ type ∷ c ∷ more) = not (is_address_type type) || is_empty (lib.split c b'/')
  wrong_connection parts = false

  abbrev pub wrong_line : Text → Bool
  wrong_line (field ∷ sign ∷ value) =
      sign == b'='
      && (field == b'o' && wrong_origin (lib.split value b' ')
          || field == b'c' && wrong_connection (lib.split value b' '))
  wrong_line line = false

  abbrev pub any_wrong : List Text → Bool
  any_wrong [] = false
  any_wrong (line ∷ more) = wrong_line line || any_wrong more

  twice : (type : Text) → is_some (parse_address_type type) ≡ not (not (is_address_type type))
  twice type = let same = address_some type in ground arith

  origin_made :
      (a b c d f : Text) (type : Option SdpAddressType) (p : Parsing)
      → is_some (with_origin lib (origin_of a b c d type f) p) ≡ is_some type
  origin_made a b c d f none p = refl
  origin_made a b c d f (some type) p = refl

  connection_made :
      (a : Text) (type : Option SdpAddressType) (parts : List Text)
      (current : Option MediaDescription) (p : Parsing)
      → is_some (with_connection lib (connection_of lib a type parts) current p)
        ≡ is_some type && not (is_empty parts)
  connection_made a none parts current p = refl
  connection_made a (some type) [] current p = refl
  connection_made a (some type) (x ∷ xs) none p = refl
  connection_made a (some type) (x ∷ xs) (some m) p = refl

  origin_some :
      (parts : List Text) (p : Parsing)
      → is_some (with_origin lib (parse_origin_parts parts) p) ≡ not (wrong_origin parts)
  unfolding parse_origin_parts
  origin_some [] p = refl
  origin_some (a ∷ []) p = refl
  origin_some (a ∷ b ∷ []) p = refl
  origin_some (a ∷ b ∷ c ∷ []) p = refl
  origin_some (a ∷ b ∷ c ∷ d ∷ []) p = refl
  origin_some (a ∷ b ∷ c ∷ d ∷ type ∷ []) p = refl
  origin_some (a ∷ b ∷ c ∷ d ∷ type ∷ f ∷ more) p =
      origin_made a b c d f (parse_address_type type) p ∙ twice type

  connection_kept :
      (c : Connection) (current : Option MediaDescription) (p : Parsing)
      → is_some (with_connection lib (some c) current p) ≡ true
  connection_kept c none p = refl
  connection_kept c (some m) p = refl

  connection_some :
      (parts : List Text) (p : Parsing)
      → is_some (with_connection lib (parse_connection_parts lib parts) p.current p)
        ≡ not (wrong_connection parts)
  unfolding parse_connection_parts
  connection_some [] p = connection_kept new_connection_info p.current p
  connection_some (a ∷ []) p = connection_kept new_connection_info p.current p
  connection_some (a ∷ type ∷ []) p = connection_kept new_connection_info p.current p
  connection_some (a ∷ type ∷ c ∷ more) p =
      connection_made a (parse_address_type type) (lib.split c b'/') p.current p
      ∙ (let same = address_some type in ground arith)

  other_some :
      (field : ℕ) (value : Text) (p : Parsing)
      → (field == b'o') ≡ false
      → (field == b'c') ≡ false
      → is_some (parse_field lib field value p) ≡ true
  unfolding parse_field
  other_some field value p no_origin no_connection =
      rw (no_origin, no_connection)
        (some_or (field == b'v') _ _ (
          some_or (field == b's') _ _ (
            some_or (field == b'u') _ _ (
              some_or (field == b't') _ _ (
                some_or (field == b'm') _ _ (
                  some_or (field == b'a') _ _
                    (some_or (field == b'y') _ _ (some_or (field == b'f') _ _ refl))))))))

  origin_field :
      (value : Text) (p : Parsing)
      → is_some (parse_field lib b'o' value p) ≡ not (wrong_origin (lib.split value b' '))
  unfolding parse_field
  origin_field value p = origin_some (lib.split value b' ') p

  connection_field :
      (value : Text) (p : Parsing)
      → is_some (parse_field lib b'c' value p) ≡ not (wrong_connection (lib.split value b' '))
  unfolding parse_field
  connection_field value p = connection_some (lib.split value b' ') p

  field_some :
      (field : ℕ) (value : Text) (p : Parsing)
      → is_some (parse_field lib field value p)
        ≡ not (
            field == b'o' && wrong_origin (lib.split value b' ')
            || field == b'c' && wrong_connection (lib.split value b' '))
  field_some field value p = elim (Bool-cases (field == b'o')) [
    | inl origin ↦
        let here : field ≡ b'o' = ground arith in
        let read = origin_field value p in rw here (ground arith)
    | inr no_origin ↦ elim (Bool-cases (field == b'c')) [
      | inl connection ↦
          let here : field ≡ b'c' = ground arith in rw here (connection_field value p)
      | inr no_connection ↦
          other_some field value p no_origin no_connection ∙ rw (no_origin, no_connection) refl
    ]
  ]

  line_some : (line : Text) (p : Parsing) → is_some (parse_line lib line p) ≡ not (wrong_line line)
  unfolding parse_line
  line_some [] p = refl
  line_some (field ∷ []) p = refl
  line_some (field ∷ sign ∷ value) p = elim (Bool-cases (sign == b'=')) [
    | inl equals ↦ rw equals (field_some field value p)
    | inr other ↦ rw other refl
  ]

  after :
      (read : Option Parsing) (wrong : Bool) (more : List Text) (p : Parsing)
      → is_some read ≡ not wrong
      → ((q : Parsing) → (parse_lines lib more q).0 ≡ not (any_wrong more))
      → (elim read as (λ o. Bool × Parsing) [
        | none ↦ (false, p)
        | some q ↦ parse_lines lib more q
      ]).0
        ≡ not (wrong || any_wrong more)
  after none true more p same later = refl
  after none false more p same later = absurd (cc)
  after (some q) true more p same later = absurd (cc)
  after (some q) false more p same later = later q

  lines_some :
      (lines : List Text) (p : Parsing) → (parse_lines lib lines p).0 ≡ not (any_wrong lines)
  unfolding parse_lines
  lines_some [] p = refl
  lines_some (line ∷ more) p =
      after (parse_line lib line p) (wrong_line line) more p (line_some line p) (lines_some more)

  -- parse is broken off exactly if it throws, since the type of an address is neither IP4 nor IP6 in a
  -- line o= of six parts or more or a line c= of three parts or more, or reads outside the parts of an
  -- address, since the third part of such a line c= splits at slashes into no part.
  pub parse_fails :
      (text : Text) (d : Description)
      → (parse lib text d).0 ≡ not (any_wrong (map pop_return (get_lines text)))
  unfolding parse
  parse_fails text d =
      lines_some (map pop_return (get_lines text))
        (record { session = d.session; finished = d.media; current = none })
