-- ===== src/Sdp/Fields.antt =====
-- src/request/sdp.cpp: the values of the lines of a description.
use libgb.Base.{
  ℕ, ◌%◌, ◌^◌, Bool, Option, none, some, List, [], ◌∷◌, if◌then◌else◌, ◌==◌, text_eq, codes,
  starts_with,
}
use libgb.Message.{Text}
use libgb.Sdp.{SessionType, unknown, play, playback, download, talk}
use libgb.Sdp.Types.{
  ℤ, udp, tcp, SdpAddressType, ip4, ip6, IceCandidateType, host, srflx, prflx, relay,
  unknown_candidate, rtp, rtcp, IceCandidate, Origin, Connection, UriInfo, simple, http, FileType,
  all_files, manual, alarm, time, video, audio, MediaDescription, new_origin, new_connection_info,
  new_candidate, new_media,
}
use libgb.Sdp.Numbers.{Library, scan_unsigned, skip_spaces, span_word}

-- A text before and after the first and the last place of a character, if there is one.
abbrev pub before_one : ℕ → Option (Text × Text) → Option (Text × Text)
before_one c none = none
before_one c (some (head, rest)) = some (c ∷ head, rest)

abbrev pub split_first : ℕ → Text → Option (Text × Text)
split_first c [] = none
split_first c (x ∷ xs) =
    let later = split_first c xs in if x == c then some ([], xs) else before_one x later

abbrev pub or_here : ℕ → ℕ → Text → Option (Text × Text) → Option (Text × Text)
or_here c x xs none = if x == c then some ([], xs) else none
or_here c x xs (some (head, rest)) = some (x ∷ head, rest)

abbrev pub split_last : ℕ → Text → Option (Text × Text)
split_last c [] = none
split_last c (x ∷ xs) = or_here c x xs (split_last c xs)

-- parse_address_type, which throws for another text.
unfoldable pub parse_address_type : Text → Option SdpAddressType
parse_address_type type =
    if text_eq type (codes "IP4")
    then some ip4
    else if text_eq type (codes "IP6")
    then some ip6
    else none

unfoldable pub parse_session_type : Text → SessionType
parse_session_type s =
    if text_eq s (codes "Play")
    then play
    else if text_eq s (codes "Playback")
    then playback
    else if text_eq s (codes "Download")
    then download
    else if text_eq s (codes "Talk")
    then talk
    else unknown

unfoldable pub string_to_ice_candidate_type : Text → IceCandidateType
string_to_ice_candidate_type type =
    if text_eq type (codes "host")
    then host
    else if text_eq type (codes "srflx")
    then srflx
    else if text_eq type (codes "prflx")
    then prflx
    else if text_eq type (codes "relay")
    then relay
    else unknown_candidate

abbrev pub file_type_of : Text → FileType
file_type_of param =
    if text_eq param (codes "1")
    then manual
    else if text_eq param (codes "2")
    then alarm
    else if text_eq param (codes "3")
    then time
    else all_files

abbrev pub simple_uri : Text → Option (Text × Text) → UriInfo
simple_uri value none = record { type = some simple; file_type = all_files; content = value }
simple_uri value (some (content, param)) = record {
  type = some simple;
  file_type = file_type_of param;
  content = content;
}

unfoldable pub parse_uri : Text → UriInfo
parse_uri value =
    if starts_with (codes "http://") value
    then record { type = some http; file_type = all_files; content = value }
    else simple_uri value (split_first b':' value)

-- The origin of a typed address, if the type is one.
abbrev pub origin_of : Text → Text → Text → Text → Option SdpAddressType → Text → Option Origin
origin_of username session_id session_version net_type none address = none
origin_of username session_id session_version net_type (some addr_type) address = some (record {
  username = username;
  session_id = session_id;
  session_version = session_version;
  net_type = net_type;
  addr_type = addr_type;
  address = address;
})

-- No value if the type of an address is neither IP4 nor IP6: the code throws.
unfoldable pub parse_origin_parts : List Text → Option Origin
unfolding parse_address_type
parse_origin_parts (username ∷ id ∷ version ∷ net_type ∷ type ∷ address ∷ more) =
    origin_of username id version net_type (parse_address_type type) address
parse_origin_parts parts = some new_origin

-- ToInt leaves its target as it is if it fails.
abbrev pub or_kept {ℓ} : {A : Type ℓ} → A → Option A → A
or_kept old none = old
or_kept old (some n) = n

-- Without a number of its own the part of an address for it is not there.
abbrev pub int_part : (Text → Option ℤ) → ℤ → List Text → ℤ
int_part to_int old [] = old
int_part to_int old (part ∷ more) = or_kept old (to_int part)

abbrev pub rest_of {ℓ} : {A : Type ℓ} → List A → List A
rest_of [] = []
rest_of (x ∷ xs) = xs

module _ (lib : Library) where
  -- Of an address with nothing but separators split gives no part, and the code reads the first part of
  -- none: there is no value.
  abbrev pub connection_of : Text → Option SdpAddressType → List Text → Option Connection
  connection_of net_type none parts = none
  connection_of net_type (some addr_type) [] = none
  connection_of net_type (some addr_type) (address ∷ more) = some (record {
    net_type = net_type;
    addr_type = addr_type;
    address = address;
    ttl = int_part lib.to_int new_connection_info.ttl more;
    num_addr = int_part lib.to_int new_connection_info.num_addr (rest_of more);
  })

  unfoldable pub parse_connection_parts : List Text → Option Connection
  unfolding parse_address_type
  parse_connection_parts (net_type ∷ type ∷ address ∷ more) =
      connection_of net_type (parse_address_type type) (lib.split address b'/')
  parse_connection_parts parts = some new_connection_info

  abbrev pub parse_origin : Text → Option Origin
  parse_origin value = parse_origin_parts (lib.split value b' ')

  abbrev pub parse_connection : Text → Option Connection
  parse_connection value = parse_connection_parts (lib.split value b' ')

  -- The parts after the type: the related address and port.
  abbrev pub related_address : List Text → Text
  related_address (a ∷ b ∷ c ∷ d ∷ e ∷ f ∷ g ∷ h ∷ i ∷ raddr ∷ more) = raddr
  related_address parts = []

  abbrev pub related_port : List Text → ℕ
  related_port (a ∷ b ∷ c ∷ d ∷ e ∷ f ∷ g ∷ h ∷ i ∷ j ∷ k ∷ port ∷ more) =
      or_kept 0 (lib.to_unsigned port) % 2 ^ 16
  related_port parts = 0

  -- std::stoul of an unsigned long of 64 bits: an exception if there is no number or it is out of range.
  abbrev pub stoul : Option (ℕ × Bool × Text) → Option ℕ
  stoul none = none
  stoul (some (n, in_range, rest)) = if in_range then some n else none

  -- What follows the address, unless reading the port throws, which is caught.
  abbrev pub with_port : Option ℕ → Text → List Text → IceCandidate → IceCandidate
  with_port none type parts candidate = candidate
  with_port (some port) type parts candidate = record candidate {
    port = port % 2 ^ 16;
    type = string_to_ice_candidate_type type;
    raddr = related_address parts;
    rport = related_port parts;
  }

  unfoldable pub parse_candidate_parts : List Text → IceCandidate
  unfolding string_to_ice_candidate_type
  parse_candidate_parts
        (foundation ∷ component ∷ transport ∷ priority ∷ address ∷ port ∷ typ ∷ type ∷ more) =
      with_port (stoul (scan_unsigned (2 ^ 64) port)) type
        (foundation ∷ component ∷ transport ∷ priority ∷ address ∷ port ∷ typ ∷ type ∷ more)
        (record new_candidate {
          foundation = foundation;
          component_id = if text_eq component (codes "2") then rtcp else rtp;
          transport = if text_eq transport (codes "TCP") then tcp else udp;
          address = address;
        })
  parse_candidate_parts parts = new_candidate

-- What the stream reads after the kind of medium: the port, and the protocol unless the port fails.
abbrev pub port_and_proto : Option (ℕ × Bool × Text) → ℕ × Text
port_and_proto none = (0, [])
port_and_proto (some (port, in_range, rest)) =
    if in_range then (port, (span_word (skip_spaces rest)).0) else (port, [])

abbrev pub medium_of : Text → ℕ × Text → MediaDescription
medium_of kind (port, proto) = record new_media {
  media_type = if text_eq kind (codes "video") then video else audio;
  port = port;
  proto = if text_eq proto (codes "TCP/RTP/AVP") then tcp else udp;
}

abbrev pub medium_from : Text × Text → MediaDescription
medium_from (kind, rest) = medium_of kind (port_and_proto (scan_unsigned (2 ^ 16) rest))

unfoldable pub media_parser : Text → MediaDescription
media_parser value = medium_from (span_word (skip_spaces value))
