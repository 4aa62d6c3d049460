-- ===== src/Sdp/UriTrip.antt =====
-- src/request/sdp.cpp: the line of a URI, read as it was written.
use libgb.Base.{
  ℕ, ◌≡◌, refl, true, false, not, Option, none, some, [], ◌∷◌, ◌++◌, ◌==◌, codes, starts_with,
  arith, &&-true, ==_refl,
}
use mathlib.Core.List.{append-nil}
use libgb.Message.{Text}
use libgb.Sdp.Types.{UriType, simple, http, FileType, all_files, manual, alarm, time}
use libgb.Sdp.Numbers.{Library, decimal}
use libgb.Sdp.Fields.{parse_uri, split_first, file_type_of}
use libgb.Sdp.Parse.{Parsing, parse_line}
use libgb.Sdp.Generate.{is_empty, uri_suffix, file_type_code}
use libgb.Sdp.Lines.{lacks}
use libgb.Sdp.Plain.{PlainUriType}
use libgb.Sdp.SessionTrip.{with_session}

pub split_first-append :
    (c : ℕ) (xs ys : Text) → lacks c xs ≡ true → split_first c (xs ++ (c ∷ ys)) ≡ some (xs, ys)
split_first-append c [] ys h = rw (==_refl c) refl
split_first-append c (x ∷ xs) ys h =
    let (here, more) = &&-true (not (x == c)) (lacks c xs) h in
    let other : (x == c) ≡ false = ground arith in rw (other, split_first-append c xs ys more) refl

-- A text without a colon, a colon and a character are no start of a web address.
not_start :
    (p q content : Text) (d : ℕ)
    → lacks b':' p ≡ true
    → lacks b':' content ≡ true
    → (b'/' == d) ≡ false
    → starts_with (p ++ (b':' ∷ (b'/' ∷ q))) (content ++ (b':' ∷ (d ∷ []))) ≡ false
not_start [] q [] d h g e = rw e refl
not_start [] q (c ∷ content) d h g e = ground arith
not_start (a ∷ p) q [] d h g e = ground arith
not_start (a ∷ p) q (c ∷ content) d h g e =
    let (here, more) = &&-true (not (a == b':')) (lacks b':' p) h in
    let (here2, more2) = &&-true (not (c == b':')) (lacks b':' content) g in
    let rest = not_start p q content d more more2 e in rw rest (ground arith)

digit_read :
    (content : Text) (d : ℕ)
    → lacks b':' content ≡ true
    → (b'/' == d) ≡ false
    → parse_uri (content ++ (b':' ∷ (d ∷ [])))
      ≡ record { type = some simple; file_type = file_type_of (d ∷ []); content = content }
unfolding parse_uri
digit_read content d h e =
    rw
      (
        not_start (codes "http") (codes "/") content d refl h e,
        split_first-append b':' content (d ∷ []) h,
      )
      refl

simple_read :
    (content : Text) (type : FileType)
    → lacks b':' content ≡ true
    → parse_uri (content ++ (b':' ∷ decimal (file_type_code type)))
      ≡ record { type = some simple; file_type = type; content = content }
unfolding parse_uri decimal
simple_read content all_files h = digit_read content 48 h refl
simple_read content manual h = digit_read content 49 h refl
simple_read content alarm h = digit_read content 50 h refl
simple_read content time h = digit_read content 51 h refl

module _ (lib : Library) where
  pub uri_shown :
      (type : Option UriType) (file_type : FileType) (content : Text) (p : Parsing)
      → PlainUriType type file_type content
      → parse_line lib (codes "u=" ++ (content ++ uri_suffix type file_type)) p
        ≡ some (
            with_session
              (record p.session {
                uri = record { type = type; file_type = file_type; content = content };
              })
              p)
  unfolding parse_line parse_uri
  uri_shown none file_type content p plain = absurd plain
  uri_shown (some simple) file_type content p plain =
      let lacking = (&&-true (not (is_empty content)) (lacks b':' content) plain).1 in
      rw (simple_read content file_type lacking) refl
  uri_shown (some http) file_type content p (whole, start) =
      rw (append-nil content, start, whole) refl
