-- ===== src/Sdp/CandidateTrip.antt =====
-- src/request/sdp.cpp: the line of a candidate, read as it was written.
use libgb.Base.{
  ℕ, ◌%◌, ◌^◌, ◌<◌, ◌≡◌, ◌≢◌, ◌⊎◌, inl, inr, refl, sym, ap, ◌∙◌, true, false, Bool-cases, Option,
  none, some, List, [], ◌∷◌, ◌++◌, ◌==◌, codes, text_eq, arith, if◌then◌else◌,
}
use mathlib.Core.List.{append-nil}
use libgb.Message.{Text}
use libgb.Sdp.Types.{
  TransportProtocol, unknown_protocol, udp, tcp, IceComponentType, no_component, rtp, rtcp,
  IceCandidateType, host, srflx, prflx, relay, unknown_candidate, IceCandidate, SessionInfo,
  MediaDescription,
}
use libgb.Sdp.Numbers.{Library, decimal, scan_unsigned}
use libgb.Sdp.Fields.{
  parse_candidate_parts, string_to_ice_candidate_type, related_address, related_port,
}
use libgb.Sdp.Parse.{parse_line}
use libgb.Sdp.Generate.{
  is_empty, component_code, is_udp_name, shown_priority, calculate_priority, priority_of, type_pref,
  ice_candidate_type_to_string, candidate_line,
}
use libgb.Sdp.Digits.{decimal-Writes}
use libgb.Sdp.Plain.{is_word, all_words, all_words-cons, IsFaithful, decimal_word, PlainCandidate}
use libgb.Sdp.Scanned.{scan_unsigned-decimal}
use libgb.Sdp.MediaTrip.{reading}

type_read :
    (type : IceCandidateType)
    → string_to_ice_candidate_type (ice_candidate_type_to_string type) ≡ type
unfolding string_to_ice_candidate_type
type_read host = refl
type_read srflx = refl
type_read prflx = refl
type_read relay = refl
type_read unknown_candidate = refl

type_word : (type : IceCandidateType) → is_word b' ' (ice_candidate_type_to_string type) ≡ true
type_word host = refl
type_word srflx = refl
type_word prflx = refl
type_word relay = refl
type_word unknown_candidate = refl

component_read :
    (component : IceComponentType)
    → component ≢ no_component
    → (if text_eq (decimal (component_code component)) (codes "2") then rtcp else rtp) ≡ component
unfolding decimal
component_read no_component known = absurd (known refl)
component_read rtp known = refl
component_read rtcp known = refl

transport_read :
    (transport : TransportProtocol)
    → transport ≢ unknown_protocol
    → (if text_eq (is_udp_name transport) (codes "TCP") then tcp else udp) ≡ transport
transport_read unknown_protocol known = absurd (known refl)
transport_read udp known = refl
transport_read tcp known = refl

transport_word : (transport : TransportProtocol) → is_word b' ' (is_udp_name transport) ≡ true
transport_word unknown_protocol = refl
transport_word udp = refl
transport_word tcp = refl

-- A candidate of a known type has a priority.
priority_word :
    (priority : Option ℕ) → priority ≢ none → is_word b' ' (shown_priority priority) ≡ true
priority_word none known = absurd (known refl)
priority_word (some n) known = decimal_word b' ' n refl

pref_known :
    (component : ℕ) (type : IceCandidateType)
    → type ≢ unknown_candidate
    → priority_of component (type_pref type) ≢ none
pref_known component host known nothing = cc
pref_known component srflx known nothing = cc
pref_known component prflx known nothing = cc
pref_known component relay known nothing = cc
pref_known component unknown_candidate known nothing = absurd (known refl)

priority_known : (c : IceCandidate) → c.type ≢ unknown_candidate → calculate_priority c ≢ none
unfolding calculate_priority
priority_known c known = pref_known (component_code c.component_id) c.type known

-- The related address and port, as they are written.
abbrev related : Text → ℕ → List Text
related raddr rport =
    (if is_empty raddr then [] else codes "raddr" ∷ raddr ∷ [])
    ++ (if rport == 0 then [] else codes "rport" ∷ decimal rport ∷ [])

abbrev Related : Text → ℕ → Type 0
Related raddr rport = (is_word b' ' raddr ≡ true) ⊎ ((raddr ≡ []) × (rport ≡ 0))

word_filled : (w : Text) → is_word b' ' w ≡ true → is_empty w ≡ false
word_filled [] h = absurd (cc)
word_filled (x ∷ xs) h = refl

related_words :
    (raddr : Text) (rport : ℕ) → Related raddr rport → all_words b' ' (related raddr rport) ≡ true
related_words raddr rport (inl word) =
    let number = decimal_word b' ' rport refl in
    elim (Bool-cases (rport == 0)) [
      | inl nothing ↦ rw (word_filled raddr word, nothing) (all_words-cons b' ' raddr [] word refl)
      | inr some_port ↦
          rw (word_filled raddr word, some_port)
            (all_words-cons b' ' raddr (codes "rport" ∷ (decimal rport ∷ [])) word (rw number refl))
    ]
related_words raddr rport (inr (empty, nothing)) = rw (empty, nothing) refl

abbrev candidate_words : IceCandidate → List Text
candidate_words c =
    decimal (component_code c.component_id)
    ∷ is_udp_name c.transport
    ∷ shown_priority (calculate_priority c)
    ∷ c.address
    ∷ decimal c.port
    ∷ codes "typ"
    ∷ ice_candidate_type_to_string c.type
    ∷ related c.raddr c.rport

candidate_words_all :
    (c : IceCandidate) → PlainCandidate c → all_words b' ' (c.foundation ∷ candidate_words c) ≡ true
candidate_words_all c plain =
    let component = decimal (component_code c.component_id) in
    let transport = is_udp_name c.transport in
    let priority = shown_priority (calculate_priority c) in
    let type = ice_candidate_type_to_string c.type in
    let others = related c.raddr c.rport in
    let w7 =
      all_words-cons b' ' type others (type_word c.type)
        (related_words c.raddr c.rport plain.related) in
    let w5 =
      all_words-cons b' ' (decimal c.port) (codes "typ" ∷ (type ∷ others))
        (decimal_word b' ' c.port refl) w7 in
    let w4 =
      all_words-cons b' ' c.address (decimal c.port ∷ (codes "typ" ∷ (type ∷ others))) plain.address
        w5 in
    let from_address : List Text = c.address ∷ (decimal c.port ∷ (codes "typ" ∷ (type ∷ others))) in
    let w3 =
      all_words-cons b' ' priority from_address
        (priority_word (calculate_priority c) (priority_known c plain.type)) w4 in
    let w2 =
      all_words-cons b' ' transport (priority ∷ from_address) (transport_word c.transport) w3 in
    let w1 =
      all_words-cons b' ' component (transport ∷ (priority ∷ from_address))
        (decimal_word b' ' (component_code c.component_id) refl) w2 in
    all_words-cons b' ' c.foundation (component ∷ (transport ∷ (priority ∷ from_address)))
      plain.foundation w1

module _ (lib : Library) (faithful : IsFaithful lib) where
  related_address_read :
      (a b c d e f g h raddr : Text) (rport : ℕ)
      → Related raddr rport
      → related_address lib (a ∷ (b ∷ (c ∷ (d ∷ (e ∷ (f ∷ (g ∷ (h ∷ related raddr rport))))))))
        ≡ raddr
  related_address_read a b c d e f g h raddr rport (inl word) = rw (word_filled raddr word) refl
  related_address_read a b c d e f g h raddr rport (inr (empty, nothing)) = rw (empty, nothing) refl

  related_port_read :
      (a b c d e f g h raddr : Text) (rport : ℕ)
      → Related raddr rport
      → rport < 2 ^ 16
      → related_port lib (a ∷ (b ∷ (c ∷ (d ∷ (e ∷ (f ∷ (g ∷ (h ∷ related raddr rport)))))))) ≡ rport
  related_port_read a b c d e f g h raddr rport (inl word) small = elim (Bool-cases (rport == 0)) [
    | inl nothing ↦
        let zero_port : rport ≡ 0 = ground arith in
        rw (word_filled raddr word, nothing) (sym zero_port)
    | inr some_port ↦
        let read =
          faithful.unsigneds (decimal rport) rport (decimal-Writes rport) (omega (arith, small)) in
        let kept : rport % 2 ^ 16 ≡ rport = omega (arith, small) in
        rw (word_filled raddr word, some_port, read, kept) refl
  ]
  related_port_read a b c d e f g h raddr rport (inr (empty, nothing)) small =
      rw (empty, nothing) refl

  candidate_parts_read :
      (c : IceCandidate)
      → PlainCandidate c
      → parse_candidate_parts lib (c.foundation ∷ candidate_words c) ≡ c
  unfolding parse_candidate_parts
  candidate_parts_read c plain =
      let component = decimal (component_code c.component_id) in
      let transport = is_udp_name c.transport in
      let priority = shown_priority (calculate_priority c) in
      let type = ice_candidate_type_to_string c.type in
      let whole : decimal c.port ++ [] ≡ decimal c.port = append-nil (decimal c.port) in
      let scanned : scan_unsigned (2 ^ 64) (decimal c.port) ≡ some (c.port, true, []) =
        ap (scan_unsigned (2 ^ 64)) (sym whole)
        ∙ scan_unsigned-decimal (2 ^ 64) c.port [] (inl refl) (omega (arith, plain.port)) in
      let kept : c.port % 2 ^ 16 ≡ c.port = omega (arith, plain.port) in
      let raddr =
        related_address_read c.foundation component transport priority c.address (decimal c.port)
          (codes "typ") type c.raddr c.rport plain.related in
      let rport =
        related_port_read c.foundation component transport priority c.address (decimal c.port)
          (codes "typ") type c.raddr c.rport plain.related plain.rport in
      rw
        (
          component_read c.component_id plain.component_id,
          transport_read c.transport plain.transport,
          scanned,
          kept,
          type_read c.type,
          raddr,
          rport,
        )
        refl

  pub candidate_read :
      (s : SessionInfo) (finished : List MediaDescription) (m : MediaDescription) (c : IceCandidate)
      → PlainCandidate c
      → parse_line lib (candidate_line c) (reading s finished m)
        ≡ some (reading s finished (record m { candidates = m.candidates ++ (c ∷ []) }))
  unfolding parse_line
  candidate_read s finished m c plain =
      let parts =
        faithful.splits b' ' c.foundation (candidate_words c) (candidate_words_all c plain) in
      rw (parts, candidate_parts_read c plain) refl
