-- ===== src/Sdp/Generate.antt =====
-- src/request/sdp.cpp: SdpDescription::generate, the operators that write its parts, and the priority
-- of a candidate.
use libgb.Base.{
  ℕ, ◌-◌, ◌*◌, ◌^◌, bit_or, Bool, true, false, not, ◌||◌, ◌&&◌, Option, none, some, List, [], ◌∷◌,
  ◌++◌, if◌then◌else◌, ltb, ◌==◌, codes,
}
use libgb.Message.{Text}
use libgb.Sdp.{SessionType, unknown, play, playback, download, talk}
use libgb.Sdp.Types.{
  ℤ, pos, negsuc, TransportProtocol, udp, tcp, SetupType, active, passive, actpass, Direction,
  sendrecv, sendonly, recvonly, inactive, SdpAddressType, ip4, ip6, IceCandidateType, host, srflx,
  prflx, relay, unknown_candidate, IceComponentType, no_component, rtp, rtcp, PayloadInfo,
  IceCandidate, Origin, Connection, UriType, http, FileType, all_files, manual, alarm, time,
  UriInfo, Attributes, SessionInfo, video, audio, MediaDescription, Description,
}
use libgb.Sdp.Numbers.{decimal, decimal_int, padded}

abbrev pub component_code : IceComponentType → ℕ
component_code no_component = 0
component_code rtp = 1
component_code rtcp = 2

-- typePref. There is no entry for a type that is not known, and the code reads past the end.
abbrev pub type_pref : IceCandidateType → Option ℕ
type_pref host = some 126
type_pref srflx = some 100
type_pref prflx = some 110
type_pref relay = some 0
type_pref unknown_candidate = none

-- calculatePriority, an or of shifted numbers of 32 bits.
abbrev pub priority_of : ℕ → Option ℕ → Option ℕ
priority_of component none = none
priority_of component (some pref) =
    some (bit_or (bit_or (pref * 2 ^ 24) (65535 * 2 ^ 8)) (256 - component))

unfoldable pub calculate_priority : IceCandidate → Option ℕ
calculate_priority c = priority_of (component_code c.component_id) (type_pref c.type)

abbrev pub ice_candidate_type_to_string : IceCandidateType → Text
ice_candidate_type_to_string host = codes "host"
ice_candidate_type_to_string srflx = codes "srflx"
ice_candidate_type_to_string prflx = codes "prflx"
ice_candidate_type_to_string relay = codes "relay"
ice_candidate_type_to_string unknown_candidate = codes "unknown"

abbrev pub address_type_to_string : SdpAddressType → Text
address_type_to_string ip4 = codes "IP4"
address_type_to_string ip6 = codes "IP6"

abbrev pub session_type_name : SessionType → Text
session_type_name unknown = []
session_type_name play = codes "Play"
session_type_name playback = codes "Playback"
session_type_name download = codes "Download"
session_type_name talk = codes "Talk"

abbrev pub transport_proto_to_string : TransportProtocol → Text
transport_proto_to_string tcp = codes "TCP/RTP/AVP"
transport_proto_to_string proto = codes "RTP/AVP"

abbrev pub setup_type_to_string : SetupType → Text
setup_type_to_string active = codes "active"
setup_type_to_string passive = codes "passive"
setup_type_to_string actpass = codes "actpass"

abbrev pub file_type_code : FileType → ℕ
file_type_code all_files = 0
file_type_code manual = 1
file_type_code alarm = 2
file_type_code time = 3

abbrev pub is_empty {ℓ} : {A : Type ℓ} → List A → Bool
is_empty [] = true
is_empty (x ∷ xs) = false

abbrev pub is_positive : ℕ → ℤ → Bool
is_positive above (pos n) = ltb above n
is_positive above (negsuc n) = false

-- Texts with a separator between them.
abbrev pub joined : ℕ → List Text → Text
joined c [] = []
joined c (w ∷ []) = w
joined c (w ∷ v ∷ ws) = w ++ (c ∷ joined c (v ∷ ws))

abbrev pub words : List Text → Text
words ws = joined b' ' ws

-- A line, without its end, if a condition holds.
abbrev pub line_if : Bool → Text → List Text
line_if shown line = if shown then line ∷ [] else []

abbrev pub origin_text : Origin → Text
origin_text o = words (
    o.username
    ∷ o.session_id
    ∷ o.session_version
    ∷ o.net_type
    ∷ address_type_to_string o.addr_type
    ∷ o.address
    ∷ [])

-- What follows the address: the time to live and the number of addresses.
abbrev pub connection_suffix : ℤ → ℤ → Text
connection_suffix ttl num =
    if is_positive 0 ttl || is_positive 1 num
    then b'/' ∷ (decimal_int ttl ++ (if is_positive 1 num then b'/' ∷ decimal_int num else []))
    else []

abbrev pub connection_lines : Connection → List Text
connection_lines c = line_if (not (is_empty c.address)) (
    codes "c="
    ++ words (
        c.net_type
        ∷ address_type_to_string c.addr_type
        ∷ (c.address ++ connection_suffix c.ttl c.num_addr)
        ∷ []))

abbrev pub uri_suffix : Option UriType → FileType → Text
uri_suffix (some http) file_type = []
uri_suffix type file_type = b':' ∷ decimal (file_type_code file_type)

abbrev pub uri_lines : UriInfo → List Text
uri_lines u =
    line_if (not (is_empty u.content)) (codes "u=" ++ (u.content ++ uri_suffix u.type u.file_type))

-- The session's attributes and the media's are written with an equals sign for the colon.
abbrev pub attribute_lines : Attributes → List Text
attribute_lines [] = []
attribute_lines ((k, v) ∷ more) = (codes "a=" ++ (k ++ (b'=' ∷ v))) ∷ attribute_lines more

abbrev pub option_lines : List Text → List Text
option_lines [] = []
option_lines (o ∷ more) = (codes "a=ice-options:" ++ o) ∷ option_lines more

abbrev pub session_lines : SessionInfo → List Text
session_lines s =
    (codes "v=" ++ decimal_int s.version)
    ∷ (codes "o=" ++ origin_text s.origin)
    ∷ (codes "s=" ++ session_type_name s.session_type)
    ∷ (uri_lines s.uri
        ++ (connection_lines s.connection
            ++ ((codes "t=" ++ words (decimal s.start_time ∷ decimal s.end_time ∷ []))
                ∷ (line_if (not (is_empty s.ice_ufrag) && not (is_empty s.ice_pwd))
                      (codes "a=ice-ufrag:" ++ s.ice_ufrag)
                    ++ (line_if (not (is_empty s.ice_ufrag) && not (is_empty s.ice_pwd))
                          (codes "a=ice-pwd:" ++ s.ice_pwd)
                        ++ (line_if s.ice_lite (codes "a=ice-lite")
                            ++ (option_lines s.ice_options ++ attribute_lines s.attributes)))))))

abbrev pub payload_words : List PayloadInfo → List Text
payload_words [] = []
payload_words (p ∷ ps) = decimal p.payload ∷ payload_words ps

abbrev pub medium_line : MediaDescription → Text
medium_line m =
    codes "m="
    ++ words (
        (elim m.media_type [ video ↦ codes "video" | audio ↦ codes "audio" ])
        ∷ decimal m.port
        ∷ transport_proto_to_string m.proto
        ∷ payload_words m.payloads)

abbrev pub direction_line : Direction → Text
direction_line sendrecv = codes "a=sendrecv"
direction_line sendonly = codes "a=sendonly"
direction_line recvonly = codes "a=recvonly"
direction_line inactive = codes "a=inactive"

-- The setup of a TCP medium. One that was never set has no text that is known.
abbrev pub setup_text : Option SetupType → Text
setup_text none = []
setup_text (some setup) = setup_type_to_string setup

abbrev pub tcp_lines : TransportProtocol → Option SetupType → Bool → List Text
tcp_lines tcp setup fresh =
    (codes "a=setup:" ++ setup_text setup)
    ∷ (codes "a=connection:" ++ (if fresh then codes "new" else codes "existing"))
    ∷ []
tcp_lines proto setup fresh = []

abbrev pub payload_lines : List PayloadInfo → List Text
payload_lines [] = []
payload_lines (p ∷ ps) =
    line_if (not (is_empty p.name)) (
      codes "a=rtpmap:"
      ++ (decimal p.payload ++ (b' ' ∷ (p.name ++ (b'/' ∷ decimal p.sample_rate)))))
    ++ payload_lines ps

abbrev pub shown_priority : Option ℕ → Text
shown_priority none = []
shown_priority (some n) = decimal n

abbrev pub is_udp_name : TransportProtocol → Text
is_udp_name udp = codes "UDP"
is_udp_name proto = codes "TCP"

abbrev pub candidate_line : IceCandidate → Text
candidate_line c =
    codes "a=candidate:"
    ++ words (
        c.foundation
        ∷ decimal (component_code c.component_id)
        ∷ is_udp_name c.transport
        ∷ shown_priority (calculate_priority c)
        ∷ c.address
        ∷ decimal c.port
        ∷ codes "typ"
        ∷ ice_candidate_type_to_string c.type
        ∷ ((if is_empty c.raddr then [] else codes "raddr" ∷ c.raddr ∷ [])
            ++ (if c.rport == 0 then [] else codes "rport" ∷ decimal c.rport ∷ [])))

abbrev pub candidate_lines : List IceCandidate → List Text
candidate_lines [] = []
candidate_lines (c ∷ cs) = candidate_line c ∷ candidate_lines cs

abbrev pub is_zero : ℤ → Bool
is_zero (pos n) = n == 0
is_zero (negsuc n) = false

abbrev pub stream_lines : ℕ → List Text
stream_lines n =
    (codes "a=streamnumber:" ++ decimal n)
    ∷ (codes "a=streamprofile:" ++ decimal n)
    ∷ (codes "a=stream:" ++ decimal n)
    ∷ (if n == 0
        then codes "a=streamMode:Main" ∷ []
        else if n == 1
        then codes "a=streamMode:Sub" ∷ []
        else [])

abbrev pub media_lines : MediaDescription → List Text
media_lines m =
    medium_line m
    ∷ (tcp_lines m.proto m.setup m.new_connection
        ++ (direction_line m.direction
            ∷ (payload_lines m.payloads
                ++ (line_if (not (is_empty m.ice_ufrag)) (codes "a=ice-ufrag:" ++ m.ice_ufrag)
                    ++ (line_if (not (is_empty m.ice_pwd)) (codes "a=ice-pwd:" ++ m.ice_pwd)
                        ++ (candidate_lines m.candidates
                            ++ (stream_lines m.stream_number
                                ++ (line_if (not (m.file_size == 0))
                                      (codes "a=filesize:" ++ decimal m.file_size)
                                    ++ (line_if (not (is_zero m.download_speed))
                                          (codes "a=downloadspeed:" ++ decimal_int m.download_speed)
                                        ++ (attribute_lines m.attributes
                                            ++ (line_if (not (m.ssrc == 0))
                                                  (codes "y=" ++ padded 10 (decimal m.ssrc))
                                                ++ line_if (not (is_empty m.f_param))
                                                    (codes "f=" ++ m.f_param))))))))))))

abbrev pub all_media_lines : List MediaDescription → List Text
all_media_lines [] = []
all_media_lines (m ∷ ms) = media_lines m ++ all_media_lines ms

-- Lines with their ends.
abbrev pub unlines : List Text → Text
unlines [] = []
unlines (line ∷ more) = line ++ (13 ∷ 10 ∷ unlines more)

abbrev pub description_lines : Description → List Text
description_lines d = session_lines d.session ++ all_media_lines d.media

-- SdpDescription::generate.
unfoldable pub generate : Description → Text
unfolding calculate_priority
generate d = unlines (description_lines d)
