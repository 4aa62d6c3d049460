-- ===== src/Sdp/SessionTrip.antt =====
-- src/request/sdp.cpp: the lines of a session, read one by one.
use libgb.Base.{ℕ, ◌^◌, ◌<◌, ◌≡◌, refl, true, some, List, [], ◌∷◌, ◌++◌, codes}
use libgb.Message.{Text}
use libgb.Sdp.{SessionType, unknown, play, playback, download, talk}
use libgb.Sdp.Types.{ℤ, pos, negsuc, SdpAddressType, ip4, ip6, Origin, SessionInfo}
use libgb.Sdp.Numbers.{Library, decimal, decimal_int}
use libgb.Sdp.Fields.{parse_session_type, parse_origin_parts, parse_address_type}
use libgb.Sdp.Parse.{Parsing, parse_line}
use libgb.Sdp.Generate.{words, address_type_to_string, session_type_name, origin_text}
use libgb.Sdp.Digits.{decimal-Writes}
use libgb.Sdp.Plain.{is_word, all_words-cons, IsFaithful, decimal_word, IsInt, PlainOrigin}

-- The session of a description that is read.
abbrev pub with_session : SessionInfo → Parsing → Parsing
with_session s p = record p { session = s }

session_type_read : (type : SessionType) → parse_session_type (session_type_name type) ≡ type
unfolding parse_session_type
session_type_read unknown = refl
session_type_read play = refl
session_type_read playback = refl
session_type_read download = refl
session_type_read talk = refl

pub address_type_read :
    (type : SdpAddressType) → parse_address_type (address_type_to_string type) ≡ some type
unfolding parse_address_type
address_type_read ip4 = refl
address_type_read ip6 = refl

pub address_type_word : (type : SdpAddressType) → is_word b' ' (address_type_to_string type) ≡ true
address_type_word ip4 = refl
address_type_word ip6 = refl

module _ (lib : Library) (faithful : IsFaithful lib) where
  -- One line is read as what it was written for.
  pub version_line :
      (z : ℤ) (p : Parsing)
      → IsInt 0 z
      → parse_line lib (codes "v=" ++ decimal_int z) p
        ≡ some (with_session (record p.session { version = z }) p)
  unfolding parse_line decimal_int
  version_line (negsuc n) p bound = absurd bound
  version_line (pos n) p (low, high) =
      let read = faithful.ints (decimal n) n (decimal-Writes n) high in rw read refl

  pub origin_line :
      (o : Origin) (p : Parsing)
      → PlainOrigin o
      → parse_line lib (codes "o=" ++ origin_text o) p
        ≡ some (with_session (record p.session { origin = o }) p)
  unfolding parse_line parse_origin_parts
  origin_line o p plain =
      let address = all_words-cons b' ' o.address [] plain.address refl in
      let type =
        all_words-cons b' ' (address_type_to_string o.addr_type) (o.address ∷ [])
          (address_type_word o.addr_type) address in
      let net_type =
        all_words-cons b' ' o.net_type (address_type_to_string o.addr_type ∷ o.address ∷ [])
          plain.net_type type in
      let version =
        all_words-cons b' ' o.session_version
          (o.net_type ∷ address_type_to_string o.addr_type ∷ o.address ∷ []) plain.session_version
          net_type in
      let id =
        all_words-cons b' ' o.session_id
          (o.session_version ∷ o.net_type ∷ address_type_to_string o.addr_type ∷ o.address ∷ [])
          plain.session_id version in
      let others : List Text =
        o.session_id
        ∷ (o.session_version
            ∷ (o.net_type ∷ (address_type_to_string o.addr_type ∷ (o.address ∷ [])))) in
      let parts =
        faithful.splits b' ' o.username others
          (all_words-cons b' ' o.username others plain.username id) in
      rw (parts, address_type_read o.addr_type) refl

  pub type_line :
      (type : SessionType) (p : Parsing)
      → parse_line lib (codes "s=" ++ session_type_name type) p
        ≡ some (with_session (record p.session { session_type = type }) p)
  unfolding parse_line
  type_line type p = rw (session_type_read type) refl

  pub times_line :
      (start end : ℕ) (p : Parsing)
      → start < 2 ^ 64
      → end < 2 ^ 64
      → parse_line lib (codes "t=" ++ words (decimal start ∷ decimal end ∷ [])) p
        ≡ some (with_session (record p.session { start_time = start; end_time = end }) p)
  unfolding parse_line
  times_line start end p low high =
      let parts = faithful.splits b' ' (decimal start) (decimal end ∷ []) (
        all_words-cons b' ' (decimal start) (decimal end ∷ []) (decimal_word b' ' start refl)
          (all_words-cons b' ' (decimal end) [] (decimal_word b' ' end refl) refl)) in
      let first = faithful.unsigneds64 (decimal start) start (decimal-Writes start) low in
      let second = faithful.unsigneds64 (decimal end) end (decimal-Writes end) high in
      rw (parts, first, second) refl
