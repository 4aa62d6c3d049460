-- ===== src/Sdp/Parse.antt =====
-- src/request/sdp.cpp: parseAttribute and SdpDescription::parse.
use libgb.Base.{
  ℕ, ◌%◌, ◌^◌, Bool, true, false, ◌||◌, Option, none, some, List, [], ◌∷◌, ◌++◌, map, if◌then◌else◌,
  ◌==◌, text_eq, codes,
}
use libgb.Message.{Text}
use libgb.Sdp.Types.{
  Origin, Connection, SetupType, active, passive, actpass, sendrecv, sendonly, recvonly, inactive,
  SessionInfo, MediaDescription, Description, emplace,
}
use libgb.Sdp.Numbers.{Library}
use libgb.Sdp.Fields.{
  split_first, split_last, or_kept, parse_session_type, parse_uri, parse_origin, parse_connection,
  parse_candidate_parts, media_parser, parse_origin_parts, parse_connection_parts,
}

-- A description while it is read: the media before the current one, and the current one.
pub record Parsing : Type 0 where
  pub session : SessionInfo
  pub finished : List MediaDescription
  pub current : Option MediaDescription

abbrev pub setup_of : Text → SetupType
setup_of v =
    if text_eq v (codes "active")
    then active
    else if text_eq v (codes "passive")
    then passive
    else actpass

-- The key of an attribute and its value.
abbrev pub key_and_value : Text → Option (Text × Text) → Text × Text
key_and_value attr none = (attr, [])
key_and_value attr (some pair) = pair

abbrev pub is_stream_key : Text → Bool
is_stream_key k =
    text_eq k (codes "streamnumber")
    || text_eq k (codes "streamprofile")
    || text_eq k (codes "stream")

abbrev pub current_media : Option MediaDescription → List MediaDescription
current_media none = []
current_media (some m) = m ∷ []

abbrev pub map_current :
    (MediaDescription → MediaDescription) → Option MediaDescription → Option MediaDescription
map_current f none = none
map_current f (some m) = some (f m)

-- A number that is stored in sixteen bits.
abbrev pub modulo : Option ℕ → Option ℕ
modulo none = none
modulo (some n) = some (n % 2 ^ 16)

-- A text as a string that ends at the first 0.
abbrev pub c_string : Text → Text
c_string [] = []
c_string (x ∷ xs) = let rest = c_string xs in if x == 0 then [] else x ∷ rest

module _ (lib : Library) where
  abbrev pub session_attribute : Text → Text → SessionInfo → SessionInfo
  session_attribute k v s =
      if text_eq k (codes "ice-ufrag")
      then record s { ice_ufrag = v }
      else if text_eq k (codes "ice-pwd")
      then record s { ice_pwd = v }
      else if text_eq k (codes "ice-options")
      then record s { ice_options = lib.split (c_string v) b' ' }
      else if text_eq k (codes "ice-lite")
      then record s { ice_lite = true }
      else record s { attributes = emplace k v s.attributes }

  -- A payload's name and sample rate, which are left out of the description without a slash.
  abbrev pub named_payload : ℕ → Option (Text × Text) → MediaDescription → MediaDescription
  named_payload payload none m = m
  named_payload payload (some (name, rate)) m = record m {
    payloads =
        m.payloads
        ++ (record {
          payload = payload;
          sample_rate = or_kept 0 (lib.to_unsigned rate);
          name = name;
        }
            ∷ []);
  }

  -- The number is read from the start of the whole text, since the part has no end of its own.
  abbrev pub payload_map : Text → Option (Text × Text) → MediaDescription → MediaDescription
  payload_map attr none m = m
  payload_map attr (some (number, next)) m =
      named_payload (or_kept 0 (lib.to_unsigned attr) % 2 ^ 8) (split_last b'/' next) m

  abbrev pub handle_payload_map : Text → MediaDescription → MediaDescription
  handle_payload_map attr m = payload_map attr (split_first b' ' attr) m

  abbrev pub or_attribute {ℓ} :
      {A : Type ℓ}
      → Text
      → Text
      → (A → MediaDescription)
      → Option A
      → MediaDescription
      → MediaDescription
  or_attribute k v set none m = record m { attributes = emplace k v m.attributes }
  or_attribute k v set (some a) m = set a

  abbrev pub stream_mode : Text → Text → MediaDescription → MediaDescription
  stream_mode k v m =
      if text_eq v (codes "sub") || text_eq v (codes "Sub")
      then record m { stream_number = 1 }
      else if text_eq v (codes "main") || text_eq v (codes "Main")
      then record m { stream_number = 0 }
      else record m { attributes = emplace k v m.attributes }

  -- The attributes of the connection and of the streams.
  abbrev pub stream_attribute : Text → Text → MediaDescription → MediaDescription
  stream_attribute k v m =
      if text_eq k (codes "setup")
      then record m { setup = some (setup_of v) }
      else if text_eq k (codes "connection")
      then record m { new_connection = text_eq v (codes "new") }
      else if text_eq k (codes "rtpmap")
      then handle_payload_map v m
      else if is_stream_key k
      then record m { stream_number = or_kept m.stream_number (modulo (lib.to_unsigned v)) }
      else if text_eq k (codes "streamMode")
      then stream_mode k v m
      else if text_eq k (codes "filesize")
      then or_attribute k v (λ n. record m { file_size = n }) (lib.to_unsigned64 v) m
      else if text_eq k (codes "downloadspeed")
      then or_attribute k v (λ n. record m { download_speed = n }) (lib.to_int v) m
      else record m { attributes = emplace k v m.attributes }

  unfoldable pub media_attribute : Text → Text → MediaDescription → MediaDescription
  unfolding parse_candidate_parts
  media_attribute k v m =
      if text_eq k (codes "ice-ufrag")
      then record m { ice_ufrag = v }
      else if text_eq k (codes "ice-pwd")
      then record m { ice_pwd = v }
      else if text_eq k (codes "candidate")
      then record m {
        candidates = m.candidates ++ (parse_candidate_parts lib (lib.split v b' ') ∷ []);
      }
      else if text_eq k (codes "sendonly")
      then record m { direction = sendonly }
      else if text_eq k (codes "recvonly")
      then record m { direction = recvonly }
      else if text_eq k (codes "sendrecv")
      then record m { direction = sendrecv }
      else if text_eq k (codes "inactive")
      then record m { direction = inactive }
      else stream_attribute k v m

  abbrev pub attribute_to : Text × Text → Option MediaDescription → Parsing → Parsing
  attribute_to (k, v) none p = record p { session = session_attribute k v p.session }
  attribute_to (k, v) (some m) p = record p { current = some (media_attribute k v m) }

  -- parseAttribute, of the current medium or the session.
  unfoldable pub parse_attribute : Text → Parsing → Parsing
  unfolding media_attribute
  parse_attribute attr p = attribute_to (key_and_value attr (split_first b':' attr)) p.current p

  abbrev pub with_origin : Option Origin → Parsing → Option Parsing
  with_origin none p = none
  with_origin (some origin) p = some (record p { session = record p.session { origin = origin } })

  abbrev pub with_connection :
      Option Connection → Option MediaDescription → Parsing → Option Parsing
  with_connection none current p = none
  with_connection (some c) none p =
      some (record p { session = record p.session { connection = c } })
  with_connection (some c) (some m) p =
      some (record p { current = some (record m { connection = c }) })

  -- Two parts exactly: the times of the session.
  abbrev pub with_times : List Text → SessionInfo → SessionInfo
  with_times (start ∷ end ∷ []) s = record s {
    start_time = or_kept s.start_time (lib.to_unsigned64 start);
    end_time = or_kept s.end_time (lib.to_unsigned64 end);
  }
  with_times parts s = s

  -- One field of the description, by the letter of its line. No value: the code throws, or reads a part that
  -- is not there.
  unfoldable pub parse_field : ℕ → Text → Parsing → Option Parsing
  unfolding parse_attribute parse_session_type parse_uri parse_origin_parts parse_connection_parts
      media_parser
  parse_field field value p =
      if field == b'v'
      then some (record p {
        session = record p.session { version = or_kept p.session.version (lib.to_int value) };
      })
      else if field == b'o'
      then with_origin (parse_origin lib value) p
      else if field == b's'
      then some
          (record p { session = record p.session { session_type = parse_session_type value } })
      else if field == b'u'
      then some (record p { session = record p.session { uri = parse_uri value } })
      else if field == b'c'
      then with_connection (parse_connection lib value) p.current p
      else if field == b't'
      then some (record p { session = with_times (lib.split value b' ') p.session })
      else if field == b'm'
      then some (record p {
        finished = p.finished ++ current_media p.current;
        current = some (media_parser value);
      })
      else if field == b'a'
      then some (parse_attribute value p)
      else if field == b'y'
      then some (record p {
        current =
            map_current (λ m. record m { ssrc = or_kept m.ssrc (lib.to_unsigned value) }) p.current;
      })
      else if field == b'f'
      then some (record p { current = map_current (λ m. record m { f_param = value }) p.current })
      else some p

  -- A line: a letter, an equals sign and a value; any other is skipped.
  unfoldable pub parse_line : Text → Parsing → Option Parsing
  unfolding parse_field
  parse_line (field ∷ sign ∷ value) p = if sign == b'=' then parse_field field value p else some p
  parse_line line p = some p

  -- The lines, and whether all of them have a value; if one has none the description stays as it was
  -- before it.
  unfoldable pub parse_lines : List Text → Parsing → Bool × Parsing
  unfolding parse_line
  parse_lines [] p = (true, p)
  parse_lines (line ∷ more) p = elim (parse_line line p) [
    | none ↦ (false, p)
    | some q ↦ parse_lines more q
  ]

-- pop_back of a carriage return.
abbrev pub pop_return : Text → Text
pop_return [] = []
pop_return (c ∷ []) = if c == 13 then [] else c ∷ []
pop_return (c ∷ d ∷ s) = c ∷ pop_return (d ∷ s)

-- What std::getline reads, one line after the other: the last may have no end of its own.
abbrev pub before_line : ℕ → List Text → List Text
before_line c [] = (c ∷ []) ∷ []
before_line c (line ∷ more) = (c ∷ line) ∷ more

unfoldable pub get_lines : Text → List Text
get_lines [] = []
get_lines (c ∷ s) = let later = get_lines s in if c == 10 then [] ∷ later else before_line c later

abbrev pub parsed_description : Bool × Parsing → Bool × Description
parsed_description (ok, p) =
    (ok, record { session = p.session; media = p.finished ++ current_media p.current })

-- SdpDescription::parse, into a description that may hold media before.
unfoldable pub parse : Library → Text → Description → Bool × Description
unfolding parse_lines get_lines
parse lib text d = parsed_description (
    parse_lines lib (map pop_return (get_lines text))
      (record { session = d.session; finished = d.media; current = none }))
