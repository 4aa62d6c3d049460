-- ===== src/Sdp/MediaBlocks.antt =====
-- src/request/sdp.cpp: the lines of a whole medium, with those that are left out.
use libgb.Base.{
  ◌≡◌, sym, ap, ap₂, ◌∙◌, Bool, false, not, Option, none, some, List, [], ◌∷◌, ◌++◌, codes,
  if◌then◌else◌,
}
use mathlib.Core.List.{append_assoc, append-nil}
use libgb.Message.{Text}
use libgb.Sdp.Types.{
  TransportProtocol, unknown_protocol, udp, tcp, SetupType, PayloadInfo, IceCandidate, SessionInfo,
  MediaDescription,
}
use libgb.Sdp.Numbers.{Library, decimal}
use libgb.Sdp.Parse.{parse_line, parse_lines}
use libgb.Sdp.Generate.{
  is_empty, line_if, tcp_lines, setup_type_to_string, payload_lines, candidate_line,
  candidate_lines,
}
use libgb.Sdp.Plain.{IsFaithful, AllPayloads, AllCandidates, PlainSetup}
use libgb.Sdp.SessionBlocks.{line_read}
use libgb.Sdp.MediaTrip
use libgb.Sdp.MediaTrip.{reading}
use libgb.Sdp.CandidateTrip.{candidate_read}

module _ (lib : Library) (faithful : IsFaithful lib) (s : SessionInfo)
    (finished : List MediaDescription) where
  -- A line that changes the medium, with those behind it.
  pub media_line_read :
      (line : Text) (more : List Text) (m n : MediaDescription)
      → parse_line lib line (reading s finished m) ≡ some (reading s finished n)
      → parse_lines lib (line ∷ more) (reading s finished m)
        ≡ parse_lines lib more (reading s finished n)
  media_line_read line more m n read =
      line_read lib faithful line more (reading s finished m) (reading s finished n) read

  pub tcp_block :
      (proto : TransportProtocol) (setup : Option SetupType) (fresh : Bool) (more : List Text)
      (m : MediaDescription)
      → PlainSetup proto setup fresh
      → m.setup ≡ none
      → m.new_connection ≡ false
      → parse_lines lib (tcp_lines proto setup fresh ++ more) (reading s finished m)
        ≡ parse_lines lib more
            (reading s finished (record m { setup = setup; new_connection = fresh }))
  tcp_block unknown_protocol setup fresh more m plain unset old = absurd plain
  tcp_block udp setup fresh more m (no_setup, not_fresh) unset old =
      rw (no_setup, not_fresh)
        (ap₂
          (λ a b.
            parse_lines lib more (reading s finished (record m { setup = a; new_connection = b })))
          unset old)
  tcp_block tcp none fresh more m plain unset old = absurd plain
  tcp_block tcp (some setup) fresh more m plain unset old =
      let line = codes "a=connection:" ++ (if fresh then codes "new" else codes "existing") in
      let next : MediaDescription = record m { setup = some setup } in
      media_line_read (codes "a=setup:" ++ setup_type_to_string setup) (line ∷ more) m next
        (MediaTrip.setup_read lib faithful s finished m setup)
      ∙ media_line_read line more next (record next { new_connection = fresh })
          (MediaTrip.connection_read lib faithful s finished next fresh)

  pub payload_block :
      (ps : List PayloadInfo) (more : List Text) (m : MediaDescription)
      → AllPayloads ps
      → parse_lines lib (payload_lines ps ++ more) (reading s finished m)
        ≡ parse_lines lib more (reading s finished (record m { payloads = m.payloads ++ ps }))
  payload_block [] more m plain =
      ap (λ a. parse_lines lib more (reading s finished (record m { payloads = a })))
        (sym (append-nil m.payloads))
  payload_block (p ∷ ps) more m (first, others) =
      let next : MediaDescription = record m { payloads = m.payloads ++ (p ∷ []) } in
      rw first.name (
        media_line_read
          (codes "a=rtpmap:"
            ++ (decimal p.payload ++ (b' ' ∷ (p.name ++ (b'/' ∷ decimal p.sample_rate)))))
          (payload_lines ps ++ more) m next
          (MediaTrip.payload_read lib faithful s finished m p first)
        ∙ (payload_block ps more next others
            ∙ ap (λ a. parse_lines lib more (reading s finished (record m { payloads = a })))
                (append_assoc m.payloads (p ∷ []) ps)))

  pub candidate_block :
      (cs : List IceCandidate) (more : List Text) (m : MediaDescription)
      → AllCandidates cs
      → parse_lines lib (candidate_lines cs ++ more) (reading s finished m)
        ≡ parse_lines lib more (reading s finished (record m { candidates = m.candidates ++ cs }))
  candidate_block [] more m plain =
      ap (λ a. parse_lines lib more (reading s finished (record m { candidates = a })))
        (sym (append-nil m.candidates))
  candidate_block (c ∷ cs) more m (first, others) =
      let next : MediaDescription = record m { candidates = m.candidates ++ (c ∷ []) } in
      media_line_read (candidate_line c) (candidate_lines cs ++ more) m next
        (candidate_read lib faithful s finished m c first)
      ∙ (candidate_block cs more next others
          ∙ ap (λ a. parse_lines lib more (reading s finished (record m { candidates = a })))
              (append_assoc m.candidates (c ∷ []) cs))

  -- A line that is left out where the medium has the value that it starts with.
  pub ufrag_block :
      (v : Text) (more : List Text) (m : MediaDescription)
      → m.ice_ufrag ≡ []
      → parse_lines lib
          (line_if (not (is_empty v)) (codes "a=ice-ufrag:" ++ v) ++ more)
          (reading s finished m)
        ≡ parse_lines lib more (reading s finished (record m { ice_ufrag = v }))
  ufrag_block [] more m before =
      ap (λ a. parse_lines lib more (reading s finished (record m { ice_ufrag = a }))) before
  ufrag_block (x ∷ xs) more m before =
      media_line_read (codes "a=ice-ufrag:" ++ (x ∷ xs)) more m (record m { ice_ufrag = x ∷ xs })
        (MediaTrip.ufrag_read lib faithful s finished m (x ∷ xs))

  pub pwd_block :
      (v : Text) (more : List Text) (m : MediaDescription)
      → m.ice_pwd ≡ []
      → parse_lines lib
          (line_if (not (is_empty v)) (codes "a=ice-pwd:" ++ v) ++ more)
          (reading s finished m)
        ≡ parse_lines lib more (reading s finished (record m { ice_pwd = v }))
  pwd_block [] more m before =
      ap (λ a. parse_lines lib more (reading s finished (record m { ice_pwd = a }))) before
  pwd_block (x ∷ xs) more m before =
      media_line_read (codes "a=ice-pwd:" ++ (x ∷ xs)) more m (record m { ice_pwd = x ∷ xs })
        (MediaTrip.pwd_read lib faithful s finished m (x ∷ xs))

  pub f_param_block :
      (v : Text) (more : List Text) (m : MediaDescription)
      → m.f_param ≡ []
      → parse_lines lib
          (line_if (not (is_empty v)) (codes "f=" ++ v) ++ more)
          (reading s finished m)
        ≡ parse_lines lib more (reading s finished (record m { f_param = v }))
  f_param_block [] more m before =
      ap (λ a. parse_lines lib more (reading s finished (record m { f_param = a }))) before
  f_param_block (x ∷ xs) more m before =
      media_line_read (codes "f=" ++ (x ∷ xs)) more m (record m { f_param = x ∷ xs })
        (MediaTrip.f_param_read lib faithful s finished m (x ∷ xs))
