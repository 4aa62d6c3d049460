-- ===== src/Sdp/NumberBlocks.antt =====
-- src/request/sdp.cpp: the lines of a medium that hold numbers.
use libgb.Base.{
  ℕ, ◌^◌, ◌<◌, ◌≡◌, refl, sym, ap, ◌∙◌, not, Bool-cases, inl, inr, List, [], ◌∷◌, ◌++◌, ◌==◌, codes,
  arith, if◌then◌else◌,
}
use libgb.Message.{Text}
use libgb.Sdp.Types.{ℤ, pos, negsuc, SessionInfo, MediaDescription}
use libgb.Sdp.Numbers.{Library, decimal, decimal_int, padded}
use libgb.Sdp.Parse.{parse_lines}
use libgb.Sdp.Generate.{line_if, is_zero, stream_lines}
use libgb.Sdp.Plain.{IsFaithful, IsInt}
use libgb.Sdp.MediaTrip
use libgb.Sdp.MediaTrip.{reading}
use libgb.Sdp.MediaBlocks.{media_line_read}

module _ (lib : Library) (faithful : IsFaithful lib) (s : SessionInfo)
    (finished : List MediaDescription) where
  pub ssrc_block :
      (n : ℕ) (more : List Text) (m : MediaDescription)
      → n < 2 ^ 32
      → m.ssrc ≡ 0
      → parse_lines lib
          (line_if (not (n == 0)) (codes "y=" ++ padded 10 (decimal n)) ++ more)
          (reading s finished m)
        ≡ parse_lines lib more (reading s finished (record m { ssrc = n }))
  ssrc_block n more m small before = elim (Bool-cases (n == 0)) [
    | inl nothing ↦
        let zero_now : m.ssrc ≡ n = ground arith in
        rw nothing
          (ap (λ a. parse_lines lib more (reading s finished (record m { ssrc = a }))) zero_now)
    | inr number ↦ rw number (
        media_line_read lib faithful s finished (codes "y=" ++ padded 10 (decimal n)) more m
          (record m { ssrc = n }) (MediaTrip.ssrc_read lib faithful s finished m n small))
  ]

  pub file_size_block :
      (n : ℕ) (more : List Text) (m : MediaDescription)
      → n < 2 ^ 64
      → m.file_size ≡ 0
      → parse_lines lib
          (line_if (not (n == 0)) (codes "a=filesize:" ++ decimal n) ++ more)
          (reading s finished m)
        ≡ parse_lines lib more (reading s finished (record m { file_size = n }))
  file_size_block n more m small before = elim (Bool-cases (n == 0)) [
    | inl nothing ↦
        let zero_now : m.file_size ≡ n = ground arith in
        rw nothing (
          ap (λ a. parse_lines lib more (reading s finished (record m { file_size = a }))) zero_now)
    | inr number ↦ rw number (
        media_line_read lib faithful s finished (codes "a=filesize:" ++ decimal n) more m
          (record m { file_size = n }) (MediaTrip.file_size_read lib faithful s finished m n small))
  ]

  pub speed_block :
      (z : ℤ) (more : List Text) (m : MediaDescription)
      → IsInt 0 z
      → m.download_speed ≡ pos 0
      → parse_lines lib
          (line_if (not (is_zero z)) (codes "a=downloadspeed:" ++ decimal_int z) ++ more)
          (reading s finished m)
        ≡ parse_lines lib more (reading s finished (record m { download_speed = z }))
  speed_block (negsuc n) more m bound before = absurd bound
  speed_block (pos n) more m bound before = elim (Bool-cases (n == 0)) [
    | inl nothing ↦
        let zero_now : n ≡ 0 = ground arith in
        rw nothing (
          ap (λ a. parse_lines lib more (reading s finished (record m { download_speed = a })))
            (before ∙ ap pos (sym zero_now)))
    | inr number ↦ rw number (
        media_line_read lib faithful s finished (codes "a=downloadspeed:" ++ decimal_int (pos n))
          more m (record m { download_speed = pos n })
          (MediaTrip.speed_read lib faithful s finished m (pos n) bound))
  ]

  -- The mode of a stream, for its first two numbers.
  mode_block :
      (n : ℕ) (more : List Text) (m : MediaDescription)
      → m.stream_number ≡ n
      → parse_lines lib
          ((if n == 0
              then codes "a=streamMode:Main" ∷ []
              else if n == 1
              then codes "a=streamMode:Sub" ∷ []
              else [])
            ++ more)
          (reading s finished m)
        ≡ parse_lines lib more (reading s finished m)
  mode_block n more m same = elim (Bool-cases (n == 0)) [
    | inl main ↦
        let number : m.stream_number ≡ 0 = ground arith in
        rw main (
          media_line_read lib faithful s finished (codes "a=streamMode:Main") more m
            (record m { stream_number = 0 }) (MediaTrip.main_read lib faithful s finished m)
          ∙ ap (λ a. parse_lines lib more (reading s finished (record m { stream_number = a })))
              (sym number))
    | inr other ↦ elim (Bool-cases (n == 1)) [
      | inl sub ↦
          let number : m.stream_number ≡ 1 = ground arith in
          rw (other, sub)
            (media_line_read lib faithful s finished (codes "a=streamMode:Sub") more m
                (record m { stream_number = 1 }) (MediaTrip.sub_read lib faithful s finished m)
              ∙ ap (λ a. parse_lines lib more (reading s finished (record m { stream_number = a })))
                  (sym number))
      | inr neither ↦ rw (other, neither) refl
    ]
  ]

  pub stream_block :
      (n : ℕ) (more : List Text) (m : MediaDescription)
      → n < 2 ^ 16
      → parse_lines lib (stream_lines n ++ more) (reading s finished m)
        ≡ parse_lines lib more (reading s finished (record m { stream_number = n }))
  stream_block n more m small =
      let next : MediaDescription = record m { stream_number = n } in
      let mode : List Text =
        (if n == 0
          then codes "a=streamMode:Main" ∷ []
          else if n == 1
          then codes "a=streamMode:Sub" ∷ []
          else []) in
      let third : Text = codes "a=stream:" ++ decimal n in
      let second : Text = codes "a=streamprofile:" ++ decimal n in
      media_line_read lib faithful s finished (codes "a=streamnumber:" ++ decimal n)
        (second ∷ (third ∷ (mode ++ more))) m next
        (MediaTrip.streamnumber_read lib faithful s finished m n small)
      ∙ (media_line_read lib faithful s finished second (third ∷ (mode ++ more)) next next
            (MediaTrip.streamprofile_read lib faithful s finished next n small)
          ∙ (media_line_read lib faithful s finished third (mode ++ more) next next
                (MediaTrip.stream_read lib faithful s finished next n small)
              ∙ mode_block n more next refl))
