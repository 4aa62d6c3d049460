-- ===== src/Sdp/Attributes.antt =====
-- src/request/sdp.cpp: what becomes of a session's own attributes between generate and parse.
use libgb.Base.{
  ℕ, ◌≡◌, refl, ap, ◌∙◌, Bool, true, false, not, ◌&&◌, none, List, [], ◌∷◌, ◌++◌, ◌==◌, text_eq,
  arith, &&-true, codes,
}
use mathlib.Core.List.{append_assoc}
use libgb.Message.{Text}
use libgb.Sdp.Types.{SessionInfo, Attributes, Description, new_description, new_session, emplace}
use libgb.Sdp.Numbers.{Library, decimal, decimal_int}
use libgb.Sdp.Fields.{split_first}
use libgb.Sdp.Parse.{
  Parsing, parse, parse_line, parse_lines, parse_attribute, session_attribute, parsed_description,
}
use libgb.Sdp.Generate.{
  is_empty, line_if, words, origin_text, session_type_name, option_lines, attribute_lines,
  description_lines, session_lines, all_media_lines, generate, uri_lines, connection_lines,
}
use libgb.Sdp.Plain.{IsFaithful, PlainDescription}
use libgb.Sdp.SessionRead.{session_read}
use libgb.Sdp.RoundTrip.{media_parts_read}
use libgb.Sdp.Lines.{lacks, all_lack, get_lines-unlines}
use libgb.Sdp.SessionTrip.{with_session}
use libgb.Sdp.AddressTrip.{lacks-append}

split_first-none : (c : ℕ) (xs : Text) → lacks c xs ≡ true → split_first c xs ≡ none
split_first-none c [] h = refl
split_first-none c (x ∷ xs) h =
    let (here, more) = &&-true (not (x == c)) (lacks c xs) h in
    let other : (x == c) ≡ false = ground arith in rw (other, split_first-none c xs more) refl

-- A text with a character in it is none that lacks it.
text_eq-lacks :
    (c : ℕ) (xs ys key : Text) → lacks c key ≡ true → text_eq (xs ++ (c ∷ ys)) key ≡ false
text_eq-lacks c [] ys [] h = refl
text_eq-lacks c [] ys (k ∷ key) h = ground arith
text_eq-lacks c (x ∷ xs) ys [] h = refl
text_eq-lacks c (x ∷ xs) ys (k ∷ key) h =
    let (here, more) = &&-true (not (k == c)) (lacks c key) h in
    rw (text_eq-lacks c xs ys key more) (ground arith)

-- What is read in place of an attribute: name and value together are the name.
abbrev pub merged : Attributes → Attributes → Attributes
merged [] before = before
merged ((k, v) ∷ more) before = merged more (emplace (k ++ (b'=' ∷ v)) [] before)

abbrev pub no_colons : Attributes → Bool
no_colons [] = true
no_colons ((k, v) ∷ more) = lacks b':' k && (lacks b':' v && no_colons more)

module _ (lib : Library) where
  attribute_read :
      (k v : Text) (s : SessionInfo)
      → session_attribute lib (k ++ (b'=' ∷ v)) [] s
        ≡ record s { attributes = emplace (k ++ (b'=' ∷ v)) [] s.attributes }
  attribute_read k v s =
      rw
        (
          text_eq-lacks b'=' k v (codes "ice-ufrag") refl,
          text_eq-lacks b'=' k v (codes "ice-pwd") refl,
          text_eq-lacks b'=' k v (codes "ice-options") refl,
          text_eq-lacks b'=' k v (codes "ice-lite") refl,
        )
        refl

  attribute_line :
      (k v : Text) (p : Parsing)
      → lacks b':' k ≡ true
      → lacks b':' v ≡ true
      → p.current ≡ none
      → parse_attribute lib (k ++ (b'=' ∷ v)) p
        ≡ with_session
            (record p.session { attributes = emplace (k ++ (b'=' ∷ v)) [] p.session.attributes })
            p
  unfolding parse_attribute
  attribute_line k v p here later before =
      rw
        (
          split_first-none b':' (k ++ (b'=' ∷ v)) (lacks-append b':' k (b'=' ∷ v) here later),
          before,
          attribute_read k v p.session,
        )
        refl

  attributes_read :
      (given : Attributes) (more : List Text) (p : Parsing)
      → no_colons given ≡ true
      → p.current ≡ none
      → parse_lines lib (attribute_lines given ++ more) p
        ≡ parse_lines lib more
            (with_session (record p.session { attributes = merged given p.session.attributes }) p)
  unfolding parse_lines parse_line
  attributes_read [] more p h before = refl
  attributes_read ((k, v) ∷ others) more p h before =
      let (here, later) = &&-true (lacks b':' k) (lacks b':' v && no_colons others) h in
      let (here2, last) = &&-true (lacks b':' v) (no_colons others) later in
      let next : Parsing =
        with_session
          (record p.session { attributes = emplace (k ++ (b'=' ∷ v)) [] p.session.attributes }) p in
      ap (parse_lines lib (attribute_lines others ++ more)) (attribute_line k v p here here2 before)
      ∙ attributes_read others more next last before

-- The description with these attributes of its session.
abbrev pub with_attributes : Attributes → Description → Description
with_attributes given d = record d { session = record d.session { attributes = given } }

module _ {ℓ} {A : Type ℓ} where
  attributes_assoc :
      (a b : List A) (t : A) (d e f g h more : List A)
      → (a ++ (b ++ (t ∷ (d ++ (e ++ (f ++ (g ++ h))))))) ++ more
        ≡ (a ++ (b ++ (t ∷ (d ++ (e ++ (f ++ (g ++ []))))))) ++ (h ++ more)
  attributes_assoc a b t d e f g h more = simp (append_assoc) refl

lines_with_attributes :
    (given : Attributes) (d : Description)
    → d.session.attributes ≡ []
    → description_lines (with_attributes given d)
      ≡ session_lines d.session ++ (attribute_lines given ++ all_media_lines d.media)
lines_with_attributes given d no_others =
    let s = d.session in
    let shown = not (is_empty s.ice_ufrag) && not (is_empty s.ice_pwd) in
    let start = λ (l : List Text).
      (codes "v=" ++ decimal_int s.version)
      ∷ (codes "o=" ++ origin_text s.origin)
      ∷ (codes "s=" ++ session_type_name s.session_type)
      ∷ l in
    rw no_others (
      ap start (
        attributes_assoc (uri_lines s.uri) (connection_lines s.connection)
          (codes "t=" ++ words (decimal s.start_time ∷ decimal s.end_time ∷ []))
          (line_if shown (codes "a=ice-ufrag:" ++ s.ice_ufrag))
          (line_if shown (codes "a=ice-pwd:" ++ s.ice_pwd))
          (line_if s.ice_lite (codes "a=ice-lite")) (option_lines s.ice_options)
          (attribute_lines given) (all_media_lines d.media)))

module _ (lib : Library) (faithful : IsFaithful lib) where
  -- A description that a text can hold is given attributes of its session whose names and values have no
  -- colon, and no line of it has a line feed. It is generated, with its attributes, and parsed again as it
  -- was but for these: each comes back as one whose name is the name, an equals sign and the value, and
  -- whose value is empty.
  pub parse-generate_attributes :
      (d : Description) (given : Attributes)
      → PlainDescription d
      → no_colons given ≡ true
      → all_lack 10 (description_lines (with_attributes given d)) ≡ true
      → parse lib (generate (with_attributes given d)) new_description
        ≡ (true, with_attributes (merged given []) d)
  unfolding parse generate
  parse-generate_attributes d given plain colons lacking =
      let start : Parsing = record { session = new_session; finished = []; current = none } in
      let read : Parsing = record { session = d.session; finished = []; current = none } in
      let media = all_media_lines d.media in
      ap (λ l. parsed_description (parse_lines lib l start))
        (get_lines-unlines (description_lines (with_attributes given d)) lacking
          ∙ lines_with_attributes given d plain.session.attributes)
      ∙ (ap parsed_description (
            session_read lib faithful d.session (attribute_lines given ++ media) [] plain.session
            ∙ attributes_read lib given media read colons refl)
          ∙ (rw plain.session.attributes (
              media_parts_read lib faithful d.media
                (with_session (record d.session { attributes = merged given [] }) read)
                plain.media)))
