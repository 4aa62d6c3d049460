-- ===== src/Sdp/SessionBlocks.antt =====
-- src/request/sdp.cpp: the lines of a whole session, with those that are left out.
use libgb.Base.{
  ℕ, ◌≡◌, inl, inr, refl, ap, ap₂, ◌∙◌, Bool, true, false, not, ◌&&◌, Option, none, some, List, [],
  ◌∷◌, ◌++◌, codes, ◌==◌, &&-true, arith,
}
use libgb.Message.{Text}
use libgb.Sdp.Types.{
  Connection, UriInfo, UriType, FileType, simple, http, new_connection_info, new_uri,
}
use libgb.Sdp.Numbers.{Library}
use libgb.Sdp.Parse.{Parsing, parse_line, parse_lines, c_string}
use libgb.Sdp.Generate.{
  is_empty, line_if, words, address_type_to_string, connection_suffix, uri_lines, uri_suffix,
  connection_lines, option_lines,
}
use libgb.Sdp.Plain.{
  is_word, all_words-cons, IsFaithful, PlainConnection, PlainUriType, PlainUri, PlainOptions,
}
use libgb.Sdp.Lines.{lacks}
use libgb.Sdp.SessionTrip.{with_session}
use libgb.Sdp.AddressTrip.{connection_shown}
use libgb.Sdp.UriTrip.{uri_shown}

-- A text that is not empty.
abbrev Filled : Text → Type 0
Filled text = is_empty text ≡ false

word-Filled : (c : ℕ) (w : Text) → is_word c w ≡ true → Filled w
word-Filled c [] h = absurd (cc)
word-Filled c (x ∷ xs) h = refl

uri-Filled :
    (type : Option UriType) (file_type : FileType) (content : Text)
    → PlainUriType type file_type content
    → Filled content
uri-Filled none file_type content plain = absurd plain
uri-Filled (some simple) file_type content plain = word-Filled b':' content plain
uri-Filled (some http) file_type [] (whole, start) = absurd (cc)
uri-Filled (some http) file_type (x ∷ xs) (whole, start) = refl

c_string-lacks : (text : Text) → lacks 0 text ≡ true → c_string text ≡ text
c_string-lacks [] h = refl
c_string-lacks (x ∷ xs) h =
    let (here, more) = &&-true (not (x == 0)) (lacks 0 xs) h in
    let other : (x == 0) ≡ false = ground arith in rw (other, c_string-lacks xs more) refl

module _ (lib : Library) (faithful : IsFaithful lib) where
  -- A line that is read, with those behind it.
  pub line_read :
      (line : Text) (more : List Text) (p q : Parsing)
      → parse_line lib line p ≡ some q
      → parse_lines lib (line ∷ more) p ≡ parse_lines lib more q
  unfolding parse_lines
  line_read line more p q read =
      ap (λ o. elim o [ none ↦ (false, p) | some r ↦ parse_lines lib more r ]) read

  pub uri_block :
      (u : UriInfo) (more : List Text) (p : Parsing)
      → PlainUri u
      → p.session.uri ≡ new_uri
      → parse_lines lib (uri_lines u ++ more) p
        ≡ parse_lines lib more (with_session (record p.session { uri = u }) p)
  uri_block u more p (inl empty) before =
      rw empty
        (ap (λ v. parse_lines lib more (with_session (record p.session { uri = v }) p)) before)
  uri_block u more p (inr plain) before =
      let filled : is_empty u.content ≡ false = uri-Filled u.type u.file_type u.content plain in
      rw filled (
        line_read (codes "u=" ++ (u.content ++ uri_suffix u.type u.file_type)) more p
          (with_session (record p.session { uri = u }) p)
          (uri_shown lib u.type u.file_type u.content p plain))

  pub connection_block :
      (c : Connection) (more : List Text) (p : Parsing)
      → PlainConnection c
      → p.session.connection ≡ new_connection_info
      → p.current ≡ none
      → parse_lines lib (connection_lines c ++ more) p
        ≡ parse_lines lib more (with_session (record p.session { connection = c }) p)
  connection_block c more p (inl empty) before none_yet =
      rw empty (
        ap (λ v. parse_lines lib more (with_session (record p.session { connection = v }) p))
          before)
  connection_block c more p (inr shown) before none_yet =
      let filled : is_empty c.address ≡ false = word-Filled b' ' c.address shown.word in
      let line : Text =
        codes "c="
        ++ words (
            c.net_type
            ∷ (address_type_to_string c.addr_type
                ∷ ((c.address ++ connection_suffix c.ttl c.num_addr) ∷ []))) in
      rw filled (
        line_read line more p (with_session (record p.session { connection = c }) p) (
          connection_shown lib faithful c.net_type c.address c.addr_type c.ttl c.num_addr p
            shown.net_type shown.word shown.part shown.ttl shown.num_addr none_yet))

  ufrag_line :
      (v : Text) (p : Parsing)
      → p.current ≡ none
      → parse_line lib (codes "a=ice-ufrag:" ++ v) p
        ≡ some (with_session (record p.session { ice_ufrag = v }) p)
  unfolding parse_line
  ufrag_line v p none_yet = rw none_yet refl

  pwd_line :
      (v : Text) (p : Parsing)
      → p.current ≡ none
      → parse_line lib (codes "a=ice-pwd:" ++ v) p
        ≡ some (with_session (record p.session { ice_pwd = v }) p)
  unfolding parse_line
  pwd_line v p none_yet = rw none_yet refl

  lite_line :
      (p : Parsing)
      → p.current ≡ none
      → parse_line lib (codes "a=ice-lite") p
        ≡ some (with_session (record p.session { ice_lite = true }) p)
  unfolding parse_line
  lite_line p none_yet = rw none_yet refl

  option_line :
      (o : Text) (p : Parsing)
      → is_word b' ' o ≡ true
      → lacks 0 o ≡ true
      → p.current ≡ none
      → parse_line lib (codes "a=ice-options:" ++ o) p
        ≡ some (with_session (record p.session { ice_options = o ∷ [] }) p)
  unfolding parse_line
  option_line o p word whole none_yet =
      let parts = faithful.splits b' ' o [] (all_words-cons b' ' o [] word refl) in
      rw (none_yet, c_string-lacks o whole, parts) refl

  pub ice_block :
      (ufrag pwd : Text) (more : List Text) (p : Parsing)
      → is_empty ufrag ≡ is_empty pwd
      → p.session.ice_ufrag ≡ []
      → p.session.ice_pwd ≡ []
      → p.current ≡ none
      → parse_lines lib
          (line_if (not (is_empty ufrag) && not (is_empty pwd)) (codes "a=ice-ufrag:" ++ ufrag)
            ++ (line_if (not (is_empty ufrag) && not (is_empty pwd)) (codes "a=ice-pwd:" ++ pwd)
                ++ more))
          p
        ≡ parse_lines lib more
            (with_session (record p.session { ice_ufrag = ufrag; ice_pwd = pwd }) p)
  ice_block [] [] more p same before before2 none_yet =
      ap₂
        (λ v w.
          parse_lines lib more (with_session (record p.session { ice_ufrag = v; ice_pwd = w }) p))
        before before2
  ice_block [] (y ∷ ys) more p same before before2 none_yet = absurd (cc)
  ice_block (x ∷ xs) [] more p same before before2 none_yet = absurd (cc)
  ice_block (x ∷ xs) (y ∷ ys) more p same before before2 none_yet =
      let q : Parsing = with_session (record p.session { ice_ufrag = x ∷ xs }) p in
      line_read (codes "a=ice-ufrag:" ++ (x ∷ xs)) ((codes "a=ice-pwd:" ++ (y ∷ ys)) ∷ more) p q
        (ufrag_line (x ∷ xs) p none_yet)
      ∙ line_read (codes "a=ice-pwd:" ++ (y ∷ ys)) more q
          (with_session (record q.session { ice_pwd = y ∷ ys }) q) (pwd_line (y ∷ ys) q none_yet)

  pub lite_block :
      (lite : Bool) (more : List Text) (p : Parsing)
      → p.session.ice_lite ≡ false
      → p.current ≡ none
      → parse_lines lib (line_if lite (codes "a=ice-lite") ++ more) p
        ≡ parse_lines lib more (with_session (record p.session { ice_lite = lite }) p)
  lite_block true more p before none_yet =
      line_read (codes "a=ice-lite") more p (with_session (record p.session { ice_lite = true }) p)
        (lite_line p none_yet)
  lite_block false more p before none_yet =
      ap (λ v. parse_lines lib more (with_session (record p.session { ice_lite = v }) p)) before

  pub options_block :
      (options : List Text) (more : List Text) (p : Parsing)
      → PlainOptions options
      → p.session.ice_options ≡ []
      → p.current ≡ none
      → parse_lines lib (option_lines options ++ more) p
        ≡ parse_lines lib more (with_session (record p.session { ice_options = options }) p)
  options_block [] more p plain before none_yet =
      ap (λ v. parse_lines lib more (with_session (record p.session { ice_options = v }) p)) before
  options_block (o ∷ []) more p (word, whole) before none_yet =
      line_read (codes "a=ice-options:" ++ o) more p
        (with_session (record p.session { ice_options = o ∷ [] }) p)
        (option_line o p word whole none_yet)
  options_block (o ∷ x ∷ others) more p plain before none_yet = absurd plain
