-- ===== src/Sdp/MediaTrip.antt =====
-- src/request/sdp.cpp: the lines of a medium, read one by one.
use libgb.Base.{
  ℕ, ◌%◌, ◌^◌, ◌<◌, ◌≡◌, ◌≢◌, inr, refl, ap, ◌∙◌, Bool, true, false, not, ◌&&◌, some, List, [], ◌∷◌,
  ◌++◌, leb, codes, arith, &&-true, if◌then◌else◌,
}
use libgb.Message.{Text}
use libgb.Sdp.Types.{
  ℤ, pos, negsuc, TransportProtocol, unknown_protocol, udp, tcp, SetupType, active, passive,
  actpass, Direction, sendrecv, sendonly, recvonly, inactive, PayloadInfo, SessionInfo, MediaType,
  video, audio, MediaDescription, new_media,
}
use libgb.Sdp.Numbers.{Library, decimal, decimal_int, padded}
use libgb.Sdp.Fields.{media_parser, port_and_proto, medium_of}
use libgb.Sdp.Parse.{Parsing, parse_line, current_media}
use libgb.Sdp.Generate.{
  is_empty, words, transport_proto_to_string, setup_type_to_string, payload_words, medium_line,
  direction_line,
}
use libgb.Sdp.Digits.{decimal-IsNumber, number-Writes, decimal-Writes, padded-Writes}
use libgb.Sdp.Lines.{lacks}
use libgb.Sdp.Plain.{IsFaithful, decimal_word, IsInt, PlainPayload}
use libgb.Sdp.Scanned.{scan_unsigned-decimal, split_last-append}
use libgb.Sdp.UriTrip.{split_first-append}

-- A description of which a medium is read.
abbrev pub reading : SessionInfo → List MediaDescription → MediaDescription → Parsing
reading s finished m = record { session = s; finished = finished; current = some m }

decimal-lacks : (c n : ℕ) → (leb b'0' c && leb c b'9') ≡ false → lacks c (decimal n) ≡ true
decimal-lacks c n other =
    (&&-true (not (is_empty (decimal n))) (lacks c (decimal n)) (decimal_word c n other)).1

-- The protocol, with the payloads behind it.
proto_read :
    (kind : Text) (port : ℕ) (proto : TransportProtocol) (ps : List PayloadInfo)
    → proto ≢ unknown_protocol
    → medium_of kind (
        port_and_proto
          (some (port, true, b' ' ∷ words (transport_proto_to_string proto ∷ payload_words ps))))
      ≡ record (medium_of kind (port, [])) { proto = proto }
proto_read kind port unknown_protocol ps known = absurd (known refl)
proto_read kind port udp [] known = refl
proto_read kind port udp (p ∷ ps) known = refl
proto_read kind port tcp [] known = refl
proto_read kind port tcp (p ∷ ps) known = refl

media_read :
    (type : MediaType) (port : ℕ) (proto : TransportProtocol) (ps : List PayloadInfo)
    → port < 2 ^ 16
    → proto ≢ unknown_protocol
    → media_parser (
        words (
          (elim type [ video ↦ codes "video" | audio ↦ codes "audio" ])
          ∷ (decimal port ∷ (transport_proto_to_string proto ∷ payload_words ps))))
      ≡ record new_media { media_type = type; port = port; proto = proto }
unfolding media_parser
media_read video port proto ps small known =
    let rest = words (transport_proto_to_string proto ∷ payload_words ps) in
    ap (λ o. medium_of (codes "video") (port_and_proto o))
      (scan_unsigned-decimal (2 ^ 16) port (b' ' ∷ rest) (inr (rest, refl)) small)
    ∙ proto_read (codes "video") port proto ps known
media_read audio port proto ps small known =
    let rest = words (transport_proto_to_string proto ∷ payload_words ps) in
    ap (λ o. medium_of (codes "audio") (port_and_proto o))
      (scan_unsigned-decimal (2 ^ 16) port (b' ' ∷ rest) (inr (rest, refl)) small)
    ∙ proto_read (codes "audio") port proto ps known

module _ (lib : Library) (faithful : IsFaithful lib) where
  pub medium_read :
      (m : MediaDescription) (p : Parsing)
      → m.port < 2 ^ 16
      → m.proto ≢ unknown_protocol
      → parse_line lib (medium_line m) p
        ≡ some (
            reading p.session
              (p.finished ++ current_media p.current)
              (record new_media { media_type = m.media_type; port = m.port; proto = m.proto }))
  unfolding parse_line
  medium_read m p small known =
      rw (media_read m.media_type m.port m.proto m.payloads small known) refl

  -- One line is read as what it was written for.
  module _ (s : SessionInfo) (finished : List MediaDescription) (m : MediaDescription) where
    pub setup_read :
        (setup : SetupType)
        → parse_line lib (codes "a=setup:" ++ setup_type_to_string setup) (reading s finished m)
          ≡ some (reading s finished (record m { setup = some setup }))
    unfolding parse_line
    setup_read active = refl
    setup_read passive = refl
    setup_read actpass = refl

    pub connection_read :
        (fresh : Bool)
        → parse_line lib
            (codes "a=connection:" ++ (if fresh then codes "new" else codes "existing"))
            (reading s finished m)
          ≡ some (reading s finished (record m { new_connection = fresh }))
    unfolding parse_line
    connection_read true = refl
    connection_read false = refl

    pub direction_read :
        (direction : Direction)
        → parse_line lib (direction_line direction) (reading s finished m)
          ≡ some (reading s finished (record m { direction = direction }))
    unfolding parse_line
    direction_read sendrecv = refl
    direction_read sendonly = refl
    direction_read recvonly = refl
    direction_read inactive = refl

    pub ufrag_read :
        (v : Text)
        → parse_line lib (codes "a=ice-ufrag:" ++ v) (reading s finished m)
          ≡ some (reading s finished (record m { ice_ufrag = v }))
    unfolding parse_line
    ufrag_read v = refl

    pub pwd_read :
        (v : Text)
        → parse_line lib (codes "a=ice-pwd:" ++ v) (reading s finished m)
          ≡ some (reading s finished (record m { ice_pwd = v }))
    unfolding parse_line
    pwd_read v = refl

    pub f_param_read :
        (v : Text)
        → parse_line lib (codes "f=" ++ v) (reading s finished m)
          ≡ some (reading s finished (record m { f_param = v }))
    unfolding parse_line
    f_param_read v = refl

    pub ssrc_read :
        (n : ℕ)
        → n < 2 ^ 32
        → parse_line lib (codes "y=" ++ padded 10 (decimal n)) (reading s finished m)
          ≡ some (reading s finished (record m { ssrc = n }))
    unfolding parse_line
    ssrc_read n small =
        let read = faithful.unsigneds (padded 10 (decimal n)) n (padded-Writes 10 n) small in
        rw read refl

    pub file_size_read :
        (n : ℕ)
        → n < 2 ^ 64
        → parse_line lib (codes "a=filesize:" ++ decimal n) (reading s finished m)
          ≡ some (reading s finished (record m { file_size = n }))
    unfolding parse_line
    file_size_read n small =
        let read = faithful.unsigneds64 (decimal n) n (decimal-Writes n) small in rw read refl

    pub speed_read :
        (z : ℤ)
        → IsInt 0 z
        → parse_line lib (codes "a=downloadspeed:" ++ decimal_int z) (reading s finished m)
          ≡ some (reading s finished (record m { download_speed = z }))
    unfolding parse_line decimal_int
    speed_read (negsuc n) bound = absurd bound
    speed_read (pos n) (low, small) =
        let read = faithful.ints (decimal n) n (decimal-Writes n) small in rw read refl

    pub streamnumber_read :
        (n : ℕ)
        → n < 2 ^ 16
        → parse_line lib (codes "a=streamnumber:" ++ decimal n) (reading s finished m)
          ≡ some (reading s finished (record m { stream_number = n }))
    unfolding parse_line
    streamnumber_read n small =
        let read = faithful.unsigneds (decimal n) n (decimal-Writes n) (omega (arith, small)) in
        let kept : n % 2 ^ 16 ≡ n = omega (arith, small) in rw (read, kept) refl

    pub streamprofile_read :
        (n : ℕ)
        → n < 2 ^ 16
        → parse_line lib (codes "a=streamprofile:" ++ decimal n) (reading s finished m)
          ≡ some (reading s finished (record m { stream_number = n }))
    unfolding parse_line
    streamprofile_read n small =
        let read = faithful.unsigneds (decimal n) n (decimal-Writes n) (omega (arith, small)) in
        let kept : n % 2 ^ 16 ≡ n = omega (arith, small) in rw (read, kept) refl

    pub stream_read :
        (n : ℕ)
        → n < 2 ^ 16
        → parse_line lib (codes "a=stream:" ++ decimal n) (reading s finished m)
          ≡ some (reading s finished (record m { stream_number = n }))
    unfolding parse_line
    stream_read n small =
        let read = faithful.unsigneds (decimal n) n (decimal-Writes n) (omega (arith, small)) in
        let kept : n % 2 ^ 16 ≡ n = omega (arith, small) in rw (read, kept) refl

    pub main_read :
        parse_line lib (codes "a=streamMode:Main") (reading s finished m)
        ≡ some (reading s finished (record m { stream_number = 0 }))
    unfolding parse_line
    main_read = refl

    pub sub_read :
        parse_line lib (codes "a=streamMode:Sub") (reading s finished m)
        ≡ some (reading s finished (record m { stream_number = 1 }))
    unfolding parse_line
    sub_read = refl

    pub payload_read :
        (p : PayloadInfo)
        → PlainPayload p
        → parse_line lib
            (codes "a=rtpmap:"
              ++ (decimal p.payload ++ (b' ' ∷ (p.name ++ (b'/' ∷ decimal p.sample_rate)))))
            (reading s finished m)
          ≡ some (reading s finished (record m { payloads = m.payloads ++ (p ∷ []) }))
    unfolding parse_line
    payload_read p plain =
        let rate = decimal p.sample_rate in
        let next : Text = p.name ++ (b'/' ∷ rate) in
        let number =
          faithful.unsigneds (decimal p.payload ++ (b' ' ∷ next)) p.payload
            (number-Writes (decimal p.payload) (b' ' ∷ next) p.payload (decimal-IsNumber p.payload)
              (inr (next, refl)))
            (omega (arith, plain.payload)) in
        let kept : p.payload % 2 ^ 8 ≡ p.payload = omega (arith, plain.payload) in
        let named = split_last-append b'/' p.name rate (decimal-lacks b'/' p.sample_rate refl) in
        let first =
          split_first-append b' ' (decimal p.payload) next (decimal-lacks b' ' p.payload refl) in
        let read =
          faithful.unsigneds rate p.sample_rate (decimal-Writes p.sample_rate) plain.sample_rate in
        rw (first, number, kept, named, read) refl
