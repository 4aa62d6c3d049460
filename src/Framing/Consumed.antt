-- ===== src/Framing/Consumed.antt =====
-- The loop over what was received: the pointer to the parser, and the end of the loop.
use libgb.Base.{
  ℕ, zero, suc, ◌+◌, ◌-◌, ◌<◌, ◌≤◌, ◌≡◌, ap, Bool-cases, List-cases, inl, inr, refl, Bool, true,
  false, not, ◌&&◌, ◌||◌, Option, none, some, [], ◌∷◌, length, drop, arith, find_char,
}
use libgb.Message.{Text}
use libgb.Framing.{WaitType, ParserResult, complete, want_more, failed, unexpected, Parser}
use libgb.Framing.Search.{
  check_lines, get_buffer, Found, taken, searched, search, get_sip_message_type,
}
use libgb.Framing.Loop.{
  is_known, SipSession, parsed, feed, then_feed, released, handle_buffer, drain, total_size, rounds,
  handle_recv,
}

length-drop : (n : ℕ) (xs : Text) → length (drop n xs) ≡ length xs - n
length-drop zero xs = omega arith
length-drop (suc n) [] = omega arith
length-drop (suc n) (x ∷ xs) = omega (arith, length-drop n xs)

abbrev pub is_some {ℓ} : {A : Type ℓ} → Option A → Bool
is_some none = false
is_some (some a) = true

module _ (parser : Parser) where
  -- A session that waits for the rest of a message has a parser, and no session holds data back.
  abbrev pub is_sound : SipSession parser → Bool
  is_sound s = not (is_some s.message_buffer) && (not (is_known s.wait_type) || is_some s.sip_parse)

  -- What a round may end in: a fault, or a sound session with fewer rounds to come.
  abbrev pub Within : ℕ → Option (SipSession parser) → Type 0
  Within bound none = Unit
  Within bound (some s) = (is_sound s ≡ true) × (rounds parser s < bound)

  parsed-Within :
      (buffer : Text) (p : parser.State) (result : ParserResult) (left bound : ℕ)
      (s : SipSession parser)
      → s.message_buffer ≡ none
      → length buffer + total_size parser s.recv_buffers < bound
      → Within bound (some (parsed parser buffer (p, result, left) s))
  parsed-Within buffer p complete left bound s free small =
      let cut = length-drop (length buffer - left) buffer in ground arith
  parsed-Within buffer p want_more left bound s free small = ground arith
  parsed-Within buffer p failed left bound s free small =
      let cut = length-drop (length buffer - left) buffer in ground arith
  parsed-Within buffer p unexpected left bound s free small =
      let cut = length-drop (length buffer - left) buffer in ground arith

  feed-Within :
      (buffer : Text) (p : Option parser.State) (bound : ℕ) (s : SipSession parser)
      → s.message_buffer ≡ none
      → length buffer + total_size parser s.recv_buffers < bound
      → Within bound (feed parser buffer p s)
  feed-Within buffer none bound s free small = tt
  feed-Within buffer (some p) bound s free small =
      let (q, result, left) = parser.input p buffer in
      parsed-Within buffer q result left bound s free small

  -- A session that found the start of a message in a buffer, or did not.
  abbrev Searched : ℕ → Found parser → Type 0
  Searched bound none = Unit
  Searched bound (some (s, none)) = Within bound (some s)
  Searched bound (some (s, some buffer)) =
      (s.message_buffer ≡ none)
      × (is_some s.sip_parse ≡ true)
      × (length buffer + total_size parser s.recv_buffers < bound)

  then_feed-Within :
      (bound : ℕ) (f : Found parser) → Searched bound f → Within bound (then_feed parser f)
  then_feed-Within bound none h = tt
  then_feed-Within bound (some (s, none)) h = h
  then_feed-Within bound (some (s, some [])) (free, set, small) = ground arith
  then_feed-Within bound (some (s, some (x ∷ xs))) (free, set, small) =
      elim (Bool-cases (is_known s.wait_type)) [
        | inl known ↦ rw known (feed-Within (x ∷ xs) s.sip_parse bound s free small)
        | inr waits ↦ rw waits (ground arith, ground arith)
      ]

  taken-Searched :
      (buffer : Text) (kind : WaitType) (n bound : ℕ) (s : SipSession parser)
      → length buffer + total_size parser s.recv_buffers < bound
      → Searched bound (taken parser kind (get_buffer none buffer n) s)
  taken-Searched buffer kind zero bound s small = (refl, refl, small)
  taken-Searched buffer kind (suc n) bound s small = tt

  searched-Searched :
      (buffer : Text) (found : Option (WaitType × ℕ × ℕ)) (bound : ℕ) (s : SipSession parser)
      → s.message_buffer ≡ none
      → is_known s.wait_type ≡ false
      → length buffer + total_size parser s.recv_buffers < bound
      → Searched bound (searched parser buffer found s)
  searched-Searched buffer none bound s free waits small = ground arith
  searched-Searched buffer (some (kind, pos, start)) bound s free waits small =
      rw free
        (taken-Searched buffer kind (pos + start) bound (record s { message_buffer = none }) small)

  search-Searched :
      (buffer text : Text) (line_end : Option ℕ) (bound : ℕ) (s : SipSession parser)
      → s.message_buffer ≡ none
      → is_known s.wait_type ≡ false
      → length buffer + total_size parser s.recv_buffers < bound
      → Searched bound (search parser buffer text line_end s)
  search-Searched buffer text none bound s free waits small = rw free (ground arith, ground arith)
  search-Searched buffer text (some crlf_pos) bound s free waits small =
      searched-Searched buffer (check_lines (length text) text 0 (some crlf_pos)) bound s free waits
        small

  get-Searched :
      (buffer : Text) (bound : ℕ) (s : SipSession parser)
      → s.message_buffer ≡ none
      → is_known s.wait_type ≡ false
      → length buffer + total_size parser s.recv_buffers < bound
      → Searched bound (get_sip_message_type parser buffer s)
  unfolding get_sip_message_type
  get-Searched [] bound s free waits small = ground arith
  get-Searched (x ∷ xs) bound s free waits small = rw free (
      search-Searched (x ∷ xs) (x ∷ xs) (find_char 10 (x ∷ xs)) bound
        (record s { message_buffer = none }) refl waits small)

  pub handle_buffer-Within :
      (buffer : Text) (bound : ℕ) (s : SipSession parser)
      → is_sound s ≡ true
      → length buffer + total_size parser s.recv_buffers < bound
      → Within bound (handle_buffer parser buffer s)
  unfolding handle_buffer
  handle_buffer-Within buffer bound s sound small =
      let free : s.message_buffer ≡ none = ground arith in
      elim (Bool-cases (is_known s.wait_type)) [
        | inl known ↦
            let set : is_some s.sip_parse ≡ true = ground arith in
            rw known (then_feed-Within bound (some (s, some buffer)) (free, set, small))
        | inr waits ↦ rw waits (
            then_feed-Within bound (get_sip_message_type parser buffer s)
              (get-Searched buffer bound s free waits small))
      ]

  -- What the loop ends in: a fault, or a sound session that has nothing left to handle.
  abbrev Drained : Option (SipSession parser) → Type 0
  Drained none = Unit
  Drained (some s) = (is_sound s ≡ true) × (s.recv_buffers ≡ [])

  abbrev Drains : ℕ → Type 0
  Drains fuel =
      (s : SipSession parser)
      → is_sound s ≡ true
      → rounds parser s ≤ fuel
      → Drained (drain parser fuel s)

  after-Drained :
      (fuel : ℕ) (o : Option (SipSession parser))
      → Within (suc fuel) o
      → Drains fuel
      → Drained (elim o [ none ↦ none | some t ↦ drain parser fuel t ])
  after-Drained fuel none h rest = tt
  after-Drained fuel (some t) (sound, small) rest = rest t sound (omega (arith, small))

  drain-Drained : (fuel : ℕ) → Drains fuel
  unfolding drain
  drain-Drained zero s sound enough = elim (List-cases s.recv_buffers) [
    | inl over ↦ (sound, over)
    | inr (buffer, more, at_hand) ↦ absurd (omega (arith, ap (total_size parser) at_hand, enough))
  ]
  drain-Drained (suc fuel) s sound enough = elim (List-cases s.recv_buffers) [
    | inl over ↦ rw over (sound, refl)
    | inr (buffer, more, at_hand) ↦
        let small : length buffer + total_size parser more < suc fuel =
          omega (arith, ap (total_size parser) at_hand, enough) in
        rw at_hand (
          after-Drained fuel (handle_buffer parser buffer (record s { recv_buffers = more }))
            (handle_buffer-Within buffer (suc fuel) (record s { recv_buffers = more }) sound small)
            (drain-Drained fuel))
  ]

  -- What handle_recv ends in: a fault, or a sound session with nothing left to handle that can be entered
  -- again.
  abbrev pub Handled : Option (SipSession parser) → Type 0
  Handled none = Unit
  Handled (some s) = (is_sound s ≡ true) × (s.recv_buffers ≡ []) × (s.handing_recv ≡ false)

  released-Handled : (o : Option (SipSession parser)) → Drained o → Handled (released parser o)
  released-Handled none h = tt
  released-Handled (some s) (sound, over) = (sound, over, refl)

  -- Whatever a session has received and whatever its parser does, handle_recv comes to an end within a
  -- round for each byte and each buffer: it reads outside a buffer, or it has handled everything, can be
  -- entered again, holds nothing back, and has a parser if it waits for the rest of a message. This
  -- takes a session that is not handling already, holds nothing back, and has a parser if it waits for the
  -- rest of a message.
  pub handle_recv-Handled :
      (s : SipSession parser)
      → is_sound s ≡ true
      → s.handing_recv ≡ false
      → Handled (handle_recv parser s)
  unfolding handle_recv
  handle_recv-Handled s sound apart = rw apart (
      released-Handled (drain parser (rounds parser s) (record s { handing_recv = true }))
        (drain-Drained (rounds parser s) (record s { handing_recv = true }) sound (omega arith)))
