-- ===== src/Sdp/SessionRead.antt =====
-- src/request/sdp.cpp: the lines of a whole session, read as the session.
use libgb.Base.{◌≡◌, refl, ◌∙◌, none, List, [], ◌∷◌, ◌++◌, not, ◌&&◌, codes}
use mathlib.Core.List.{append_assoc}
use libgb.Message.{Text}
use libgb.Sdp.Types.{SessionInfo, MediaDescription, new_session}
use libgb.Sdp.Numbers.{Library, decimal, decimal_int}
use libgb.Sdp.Parse.{Parsing, parse_lines}
use libgb.Sdp.Generate.{
  is_empty, line_if, words, origin_text, session_type_name, uri_lines, connection_lines,
  option_lines, session_lines,
}
use libgb.Sdp.Plain.{IsFaithful, PlainSession}
use libgb.Sdp.SessionTrip.{with_session, version_line, origin_line, type_line, times_line}
use libgb.Sdp.SessionBlocks.{
  line_read, uri_block, connection_block, ice_block, lite_block, options_block,
}

module _ {ℓ} {A : Type ℓ} where
  seven_assoc :
      (a b : List A) (t : A) (d e f g more : List A)
      → (a ++ (b ++ (t ∷ (d ++ (e ++ (f ++ (g ++ []))))))) ++ more
        ≡ a ++ (b ++ (t ∷ (d ++ (e ++ (f ++ (g ++ more))))))
  seven_assoc a b t d e f g more = simp (append_assoc) refl

module _ (lib : Library) (faithful : IsFaithful lib) where
  -- The lines of a session are read as the session, into a description that has not read any.
  pub session_read :
      (s : SessionInfo) (more : List Text) (finished : List MediaDescription)
      → PlainSession s
      → parse_lines lib
          (session_lines s ++ more)
          (record { session = new_session; finished = finished; current = none })
        ≡ parse_lines lib more (record { session = s; finished = finished; current = none })
  session_read s more finished plain =
      let shown = not (is_empty s.ice_ufrag) && not (is_empty s.ice_pwd) in
      let version : Text = codes "v=" ++ decimal_int s.version in
      let origin : Text = codes "o=" ++ origin_text s.origin in
      let type : Text = codes "s=" ++ session_type_name s.session_type in
      let times : Text = codes "t=" ++ words (decimal s.start_time ∷ (decimal s.end_time ∷ [])) in
      let ufrag = line_if shown (codes "a=ice-ufrag:" ++ s.ice_ufrag) in
      let pwd = line_if shown (codes "a=ice-pwd:" ++ s.ice_pwd) in
      let lite = line_if s.ice_lite (codes "a=ice-lite") in
      let options = option_lines s.ice_options in
      let after_times = ufrag ++ (pwd ++ (lite ++ (options ++ more))) in
      let after_type =
        uri_lines s.uri ++ (connection_lines s.connection ++ (times ∷ after_times)) in
      let p0 : Parsing = record { session = new_session; finished = finished; current = none } in
      let p1 = with_session (record p0.session { version = s.version }) p0 in
      let p2 = with_session (record p1.session { origin = s.origin }) p1 in
      let p3 = with_session (record p2.session { session_type = s.session_type }) p2 in
      let p4 = with_session (record p3.session { uri = s.uri }) p3 in
      let p5 = with_session (record p4.session { connection = s.connection }) p4 in
      let p6 =
        with_session (record p5.session { start_time = s.start_time; end_time = s.end_time }) p5 in
      let p7 =
        with_session (record p6.session { ice_ufrag = s.ice_ufrag; ice_pwd = s.ice_pwd }) p6 in
      let p8 = with_session (record p7.session { ice_lite = s.ice_lite }) p7 in
      let p9 = with_session (record p8.session { ice_options = s.ice_options }) p8 in
      rw
        (
          plain.attributes,
          seven_assoc (uri_lines s.uri) (connection_lines s.connection) times ufrag pwd lite options
              more,
        )
        (line_read lib faithful version (origin ∷ (type ∷ after_type)) p0 p1
            (version_line lib faithful s.version p0 plain.version)
          ∙ (line_read lib faithful origin (type ∷ after_type) p1 p2
                (origin_line lib faithful s.origin p1 plain.origin)
              ∙ (line_read lib faithful type after_type p2 p3
                    (type_line lib faithful s.session_type p2)
                  ∙ (uri_block lib faithful s.uri
                        (connection_lines s.connection ++ (times ∷ after_times)) p3 plain.uri refl
                      ∙ (connection_block lib faithful s.connection (times ∷ after_times) p4
                            plain.connection refl refl
                          ∙ (line_read lib faithful times after_times p5 p6 (
                                times_line lib faithful s.start_time s.end_time p5 plain.start_time
                                  plain.end_time)
                              ∙ (ice_block lib faithful s.ice_ufrag s.ice_pwd
                                    (lite ++ (options ++ more)) p6 plain.ice refl refl refl
                                  ∙ (lite_block lib faithful s.ice_lite (options ++ more) p7 refl
                                        refl
                                      ∙ options_block lib faithful s.ice_options more p8
                                          plain.ice_options refl refl))))))))
