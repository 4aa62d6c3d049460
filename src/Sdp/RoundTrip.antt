-- ===== src/Sdp/RoundTrip.antt =====
-- src/request/sdp.cpp: a description that is generated and parsed is the description.
use libgb.Base.{
  ◌≡◌, ◌≢◌, refl, sym, ap, ◌∙◌, Bool, true, not, Option, none, List, [], ◌∷◌, ◌++◌, ◌==◌, codes,
}
use mathlib.Core.List.{append_assoc, append-nil}
use libgb.Message.{Text}
use libgb.Sdp.Types.{
  TransportProtocol, unknown_protocol, udp, tcp, SetupType, SessionInfo, MediaDescription,
  Description, new_session, new_media, new_description,
}
use libgb.Sdp.Numbers.{Library, decimal, decimal_int, padded}
use libgb.Sdp.Parse.{Parsing, parse_lines, current_media, parsed_description, parse}
use libgb.Sdp.Generate.{
  is_empty, is_zero, line_if, medium_line, tcp_lines, direction_line, payload_lines,
  candidate_lines, stream_lines, media_lines, all_media_lines, description_lines, generate,
}
use libgb.Sdp.Lines.{all_lack, get_lines-unlines}
use libgb.Sdp.Plain.{IsFaithful, PlainSetup, PlainMedia, AllMedia, PlainDescription}
use libgb.Sdp.SessionBlocks.{line_read}
use libgb.Sdp.SessionRead.{session_read}
use libgb.Sdp.MediaTrip.{reading, medium_read, direction_read}
use libgb.Sdp.MediaBlocks.{
  media_line_read, tcp_block, payload_block, candidate_block, ufrag_block, pwd_block, f_param_block,
}
use libgb.Sdp.NumberBlocks.{stream_block, file_size_block, speed_block, ssrc_block}

module _ {ℓ} {A : Type ℓ} where
  media_assoc :
      (a : List A) (t : A) (b c d e f g h i j more : List A)
      → (a ++ (t ∷ (b ++ (c ++ (d ++ (e ++ (f ++ (g ++ (h ++ ([] ++ (i ++ j))))))))))) ++ more
        ≡ a ++ (t ∷ (b ++ (c ++ (d ++ (e ++ (f ++ (g ++ (h ++ (i ++ (j ++ more))))))))))
  media_assoc a t b c d e f g h i j more = simp (append_assoc) refl

setup_known :
    (proto : TransportProtocol) (setup : Option SetupType) (fresh : Bool)
    → PlainSetup proto setup fresh
    → proto ≢ unknown_protocol
setup_known unknown_protocol setup fresh plain same = plain
setup_known udp setup fresh plain same = cc
setup_known tcp setup fresh plain same = cc

module _ (lib : Library) (faithful : IsFaithful lib) where
  module _ (s : SessionInfo) (finished : List MediaDescription) (m : MediaDescription)
      (plain : PlainMedia m) where
    -- The lines of a medium from its stream on, and those before.
    abbrev ending : List Text → List Text
    ending more =
        stream_lines m.stream_number
        ++ (line_if (not (m.file_size == 0)) (codes "a=filesize:" ++ decimal m.file_size)
            ++ (line_if (not (is_zero m.download_speed))
                  (codes "a=downloadspeed:" ++ decimal_int m.download_speed)
                ++ (line_if (not (m.ssrc == 0)) (codes "y=" ++ padded 10 (decimal m.ssrc))
                    ++ (line_if (not (is_empty m.f_param)) (codes "f=" ++ m.f_param) ++ more))))

    abbrev beginning : List Text → List Text
    beginning more =
        tcp_lines m.proto m.setup m.new_connection
        ++ (direction_line m.direction
            ∷ (payload_lines m.payloads
                ++ (line_if (not (is_empty m.ice_ufrag)) (codes "a=ice-ufrag:" ++ m.ice_ufrag)
                    ++ (line_if (not (is_empty m.ice_pwd)) (codes "a=ice-pwd:" ++ m.ice_pwd)
                        ++ (candidate_lines m.candidates ++ more)))))

    -- The medium by its first line, and by those up to its stream.
    abbrev begun : MediaDescription
    begun = record new_media { media_type = m.media_type; port = m.port; proto = m.proto }

    abbrev half : MediaDescription
    half = record begun {
      setup = m.setup;
      new_connection = m.new_connection;
      direction = m.direction;
      payloads = m.payloads;
      ice_ufrag = m.ice_ufrag;
      ice_pwd = m.ice_pwd;
      candidates = m.candidates;
    }

    abbrev ended : MediaDescription
    ended = record half {
      stream_number = m.stream_number;
      file_size = m.file_size;
      download_speed = m.download_speed;
      ssrc = m.ssrc;
      f_param = m.f_param;
    }

    ending_read :
        (more : List Text)
        → parse_lines lib (ending more) (reading s finished half)
          ≡ parse_lines lib more (reading s finished ended)
    ending_read more =
        let r9 = line_if (not (is_empty m.f_param)) (codes "f=" ++ m.f_param) ++ more in
        let r8 = line_if (not (m.ssrc == 0)) (codes "y=" ++ padded 10 (decimal m.ssrc)) ++ r9 in
        let r7 =
          line_if (not (is_zero m.download_speed))
            (codes "a=downloadspeed:" ++ decimal_int m.download_speed)
          ++ r8 in
        let r6 =
          line_if (not (m.file_size == 0)) (codes "a=filesize:" ++ decimal m.file_size) ++ r7 in
        let m7 : MediaDescription = record half { stream_number = m.stream_number } in
        let m8 : MediaDescription = record m7 { file_size = m.file_size } in
        let m9 : MediaDescription = record m8 { download_speed = m.download_speed } in
        let m10 : MediaDescription = record m9 { ssrc = m.ssrc } in
        stream_block lib faithful s finished m.stream_number r6 half plain.stream_number
        ∙ (file_size_block lib faithful s finished m.file_size r7 m7 plain.file_size refl
            ∙ (speed_block lib faithful s finished m.download_speed r8 m8 plain.download_speed refl
                ∙ (ssrc_block lib faithful s finished m.ssrc r9 m9 plain.ssrc refl
                    ∙ f_param_block lib faithful s finished m.f_param more m10 refl)))

    beginning_read :
        (more : List Text)
        → parse_lines lib (beginning more) (reading s finished begun)
          ≡ parse_lines lib more (reading s finished half)
    beginning_read more =
        let r4 = candidate_lines m.candidates ++ more in
        let r3 = line_if (not (is_empty m.ice_pwd)) (codes "a=ice-pwd:" ++ m.ice_pwd) ++ r4 in
        let r2 = line_if (not (is_empty m.ice_ufrag)) (codes "a=ice-ufrag:" ++ m.ice_ufrag) ++ r3 in
        let r1 = payload_lines m.payloads ++ r2 in
        let m1 : MediaDescription = record begun {
          setup = m.setup;
          new_connection = m.new_connection;
        } in
        let m2 : MediaDescription = record m1 { direction = m.direction } in
        let m3 : MediaDescription = record m2 { payloads = m.payloads } in
        let m4 : MediaDescription = record m3 { ice_ufrag = m.ice_ufrag } in
        let m5 : MediaDescription = record m4 { ice_pwd = m.ice_pwd } in
        tcp_block lib faithful s finished m.proto m.setup m.new_connection
          (direction_line m.direction ∷ r1) begun plain.setup refl refl
        ∙ (media_line_read lib faithful s finished (direction_line m.direction) r1 m1 m2
              (direction_read lib faithful s finished m1 m.direction)
            ∙ (payload_block lib faithful s finished m.payloads r2 m2 plain.payloads
                ∙ (ufrag_block lib faithful s finished m.ice_ufrag r3 m3 refl
                    ∙ (pwd_block lib faithful s finished m.ice_pwd r4 m4 refl
                        ∙ candidate_block lib faithful s finished m.candidates more m5
                            plain.candidates))))

  -- The lines of a medium are read as the medium, behind those before it.
  medium_lines_read :
      (m : MediaDescription) (more : List Text) (p : Parsing)
      → PlainMedia m
      → parse_lines lib (media_lines m ++ more) p
        ≡ parse_lines lib more (reading p.session (p.finished ++ current_media p.current) m)
  medium_lines_read m more p plain =
      let s = p.session in
      let finished = p.finished ++ current_media p.current in
      let known = setup_known m.proto m.setup m.new_connection plain.setup in
      let rest = ending s finished m plain more in
      rw
        (
          plain.attributes,
          plain.connection,
          media_assoc (tcp_lines m.proto m.setup m.new_connection) (direction_line m.direction)
              (payload_lines m.payloads)
              (line_if (not (is_empty m.ice_ufrag)) (codes "a=ice-ufrag:" ++ m.ice_ufrag))
              (line_if (not (is_empty m.ice_pwd)) (codes "a=ice-pwd:" ++ m.ice_pwd))
              (candidate_lines m.candidates) (stream_lines m.stream_number)
              (line_if (not (m.file_size == 0)) (codes "a=filesize:" ++ decimal m.file_size))
              (line_if (not (is_zero m.download_speed))
                (codes "a=downloadspeed:" ++ decimal_int m.download_speed))
              (line_if (not (m.ssrc == 0)) (codes "y=" ++ padded 10 (decimal m.ssrc)))
              (line_if (not (is_empty m.f_param)) (codes "f=" ++ m.f_param)) more,
        )
        (line_read lib faithful (medium_line m) (beginning s finished m plain rest) p
            (reading s finished (begun s finished m plain))
            (medium_read lib faithful m p plain.port known)
          ∙ (beginning_read s finished m plain rest ∙ ending_read s finished m plain more))

  pub media_parts_read :
      (ms : List MediaDescription) (p : Parsing)
      → AllMedia ms
      → parsed_description (parse_lines lib (all_media_lines ms) p) ≡ (
        true,
        record { session = p.session; media = p.finished ++ (current_media p.current ++ ms) },
      )
  unfolding parse_lines
  media_parts_read [] p plain =
      ap (λ l. (true, record { session = p.session; media = p.finished ++ l }))
        (sym (append-nil (current_media p.current)))
  media_parts_read (m ∷ ms) p (first, others) =
      let finished = p.finished ++ current_media p.current in
      let next : Parsing = reading p.session finished m in
      ap parsed_description (medium_lines_read m (all_media_lines ms) p first)
      ∙ (media_parts_read ms next others
          ∙ ap (λ l. (true, record { session = p.session; media = l }))
              (append_assoc p.finished (current_media p.current) (m ∷ ms)))

  -- A description that a text can hold, and that has no line feed in its lines, is generated and
  -- parsed again as it was, if the libraries read numbers in range and split words.
  pub parse-generate :
      (d : Description)
      → PlainDescription d
      → all_lack 10 (description_lines d) ≡ true
      → parse lib (generate d) new_description ≡ (true, d)
  unfolding parse generate
  parse-generate d plain lacking =
      let start : Parsing = record { session = new_session; finished = []; current = none } in
      let read : Parsing = record { session = d.session; finished = []; current = none } in
      ap (λ l. parsed_description (parse_lines lib l start))
        (get_lines-unlines (description_lines d) lacking)
      ∙ (ap parsed_description
            (session_read lib faithful d.session (all_media_lines d.media) [] plain.session)
          ∙ media_parts_read d.media read plain.media)
