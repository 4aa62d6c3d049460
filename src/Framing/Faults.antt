-- ===== src/Framing/Faults.antt =====
-- src/inner/sip_session.cpp: what is lost or read outside a buffer when a message does not start with
-- the buffer that it comes in.
use libgb.Base.{
  ℕ, zero, suc, ◌+◌, ◌≤◌, ◌≡◌, ◌↔◌, ap, ◌∙◌, sym, refl, Bool, true, false, ◌||◌, Bool-cases,
  List-cases, inl, inr, Option, none, some, List, [], ◌∷◌, ltb, if_elim, not, length, arith,
  find_char,
}
use libgb.Message.{Text}
use libgb.Framing.{WaitType, need_more, Parser}
use libgb.Framing.Search.{check_lines, get_buffer, taken, searched, search, get_sip_message_type}
use libgb.Framing.Loop.{
  is_known, SipSession, feed, feed_found, then_feed, handle_buffer, drain, total_size, rounds,
  released, handle_recv,
}
use libgb.Framing.Consumed.{is_some, is_sound, Within, handle_buffer-Within}
use libgb.Framing.InOrder.{received, received_lem, one_round}

module _ (parser : Parser) where
  drain_over :
      (fuel : ℕ) (s : SipSession parser) → s.recv_buffers ≡ [] → drain parser fuel s ≡ some s
  unfolding drain
  drain_over zero s over = refl
  drain_over (suc fuel) s over = rw over refl

  abbrev Same : ℕ → ℕ → Type 0
  Same fuel more =
      (s : SipSession parser)
      → is_sound parser s ≡ true
      → rounds parser s ≤ fuel
      → rounds parser s ≤ more
      → drain parser fuel s ≡ drain parser more s

  after-Same :
      (fuel more : ℕ) (o : Option (SipSession parser))
      → Within parser (suc fuel) o
      → Within parser (suc more) o
      → Same fuel more
      → ◌≡◌ {A = Option (SipSession parser)}
          (elim o [ none ↦ none | some t ↦ drain parser fuel t ])
          (elim o [ none ↦ none | some t ↦ drain parser more t ])
  after-Same fuel more none h g rest = refl
  after-Same fuel more (some t) (sound, small) (sound2, small2) rest =
      rest t sound (omega (arith, small)) (omega (arith, small2))

  -- More rounds than it takes change nothing.
  drain-Same : (fuel more : ℕ) → Same fuel more
  unfolding drain
  drain-Same zero more s sound enough enough2 = elim (List-cases s.recv_buffers) [
    | inl over ↦ sym (drain_over more s over)
    | inr (buffer, others, at_hand) ↦ absurd (omega (arith, ap (total_size parser) at_hand, enough))
  ]
  drain-Same (suc fuel) zero s sound enough enough2 = elim (List-cases s.recv_buffers) [
    | inl over ↦ drain_over (suc fuel) s over
    | inr (buffer, others, at_hand) ↦
        absurd (omega (arith, ap (total_size parser) at_hand, enough2))
  ]
  drain-Same (suc fuel) (suc more) s sound enough enough2 = elim (List-cases s.recv_buffers) [
    | inl over ↦ drain_over (suc fuel) s over ∙ sym (drain_over (suc more) s over)
    | inr (buffer, others, at_hand) ↦
        let size = ap (total_size parser) at_hand in
        let next : SipSession parser = record s { recv_buffers = others } in
        rw at_hand (
          after-Same fuel more (handle_buffer parser buffer next)
            (handle_buffer-Within parser buffer (suc fuel) next sound (omega (arith, size, enough)))
            (handle_buffer-Within parser buffer (suc more) next sound
              (omega (arith, size, enough2)))
            (drain-Same fuel more))
  ]

  -- A buffer without a line end that comes between messages is taken, and nothing of it is kept.
  handle_buffer_lost :
      (buffer : Text) (s : SipSession parser)
      → find_char 10 buffer ≡ none
      → s.message_buffer ≡ none
      → s.wait_type ≡ need_more
      → handle_buffer parser buffer s ≡ some s
  unfolding handle_buffer get_sip_message_type
  handle_buffer_lost [] s unended free waits = rw waits refl
  handle_buffer_lost (x ∷ xs) s unended free waits = rw (free, waits, unended) refl

  -- Between messages, with nothing held back or left to handle: a piece of a message that has no line
  -- end is lost, and what comes after it is handled as if the piece had not come.
  pub handle_recv_lost :
      (piece : Text) (more : List Text) (s : SipSession parser)
      → find_char 10 piece ≡ none
      → s.message_buffer ≡ none
      → s.wait_type ≡ need_more
      → s.recv_buffers ≡ []
      → s.handing_recv ≡ false
      → handle_recv parser (received parser (piece ∷ more) s)
        ≡ handle_recv parser (received parser more s)
  unfolding handle_recv
  handle_recv_lost piece more s unended free waits over apart =
      let next : SipSession parser = record s {
        message_buffer = none;
        wait_type = need_more;
        recv_buffers = more;
        handing_recv = true;
      } in
      let size = total_size parser more + 0 in
      let full : SipSession parser = record next { recv_buffers = piece ∷ more } in
      let lost = handle_buffer_lost piece next unended refl refl in
      rw
        (received_lem parser (piece ∷ more) s, received_lem parser more s, over, apart, free, waits)
        (ap (released parser) (
          drain-Same (total_size parser (piece ∷ more) + 0) (suc (length piece + size)) full refl
            (omega arith) (omega arith)
          ∙ (one_round parser (length piece + size) piece more next next lost
              ∙ drain-Same (length piece + size) size next refl (omega arith) (omega arith))))

  -- The first message that starts in what was received does not start with it.
  abbrev pub starts_after : Option (WaitType × ℕ × ℕ) → Bool
  starts_after none = false
  starts_after (some (kind, pos, start)) = ltb 0 (pos + start)

  abbrev pub starts_late : Text → Option ℕ → Bool
  starts_late text none = false
  starts_late text (some crlf_pos) = starts_after (check_lines (length text) text 0 (some crlf_pos))

  feed_some :
      (buffer : Text) (p : Option parser.State) (s : SipSession parser)
      → is_some p ≡ true
      → is_some (feed parser buffer p s) ≡ true
  feed_some buffer none s set = set
  feed_some buffer (some p) s set = refl

  feed_found-some :
      (buffer : Text) (s : SipSession parser)
      → is_some s.sip_parse ≡ true
      → is_some (feed_found parser (s, some buffer)) ≡ true
  feed_found-some [] s set = refl
  feed_found-some (x ∷ xs) s set =
      if_elim (λ o. is_some o ≡ true) (is_known s.wait_type) (feed parser (x ∷ xs) s.sip_parse s)
        (some s) (feed_some (x ∷ xs) s.sip_parse s set) refl

  taken-some :
      (buffer : Text) (kind : WaitType) (n : ℕ) (s : SipSession parser)
      → is_some (then_feed parser (taken parser kind (get_buffer none buffer n) s)) ≡ not (ltb 0 n)
  taken-some buffer kind zero s =
      feed_found-some buffer
        (record s {
          wait_type = kind;
          sip_parse = some (parser.create kind);
          message_buffer = none;
        })
        refl
  taken-some buffer kind (suc n) s = ground arith

  searched-some :
      (buffer : Text) (found : Option (WaitType × ℕ × ℕ)) (s : SipSession parser)
      → is_some
          (then_feed parser (searched parser buffer found (record s { message_buffer = none })))
        ≡ not (starts_after found)
  searched-some buffer none s = refl
  searched-some buffer (some (kind, pos, start)) s =
      taken-some buffer kind (pos + start) (record s { message_buffer = none })

  search-some :
      (buffer : Text) (line_end : Option ℕ) (s : SipSession parser)
      → is_some (
          then_feed parser
            (search parser buffer buffer line_end (record s { message_buffer = none })))
        ≡ not (starts_late buffer line_end)
  search-some buffer none s = refl
  search-some buffer (some crlf_pos) s =
      searched-some buffer (check_lines (length buffer) buffer 0 (some crlf_pos)) s

  get-some :
      (buffer : Text) (s : SipSession parser)
      → s.message_buffer ≡ none
      → is_some (then_feed parser (get_sip_message_type parser buffer s))
        ≡ not (starts_late buffer (find_char 10 buffer))
  unfolding get_sip_message_type
  get-some [] s free = refl
  get-some (x ∷ xs) s free = rw free (search-some (x ∷ xs) (find_char 10 (x ∷ xs)) s)

  handle_buffer-some :
      (buffer : Text) (s : SipSession parser)
      → is_sound parser s ≡ true
      → is_some (handle_buffer parser buffer s)
        ≡ (is_known s.wait_type || not (starts_late buffer (find_char 10 buffer)))
  unfolding handle_buffer
  handle_buffer-some buffer s sound =
      let free : s.message_buffer ≡ none = ground arith in
      elim (Bool-cases (is_known s.wait_type)) [
        | inl known ↦
            let set : is_some s.sip_parse ≡ true = ground arith in
            rw known (feed_found-some buffer s set)
        | inr waits ↦ rw waits (get-some buffer s free)
      ]

  none_iff :
      (o : Option (SipSession parser)) (known late : Bool)
      → is_some o ≡ (known || not late)
      → (o ≡ none) ↔ ((known ≡ false) × (late ≡ true))
  none_iff none known late h = (λ e. (ground arith, ground arith), λ e. refl)
  none_iff (some s) known late h = (λ e. absurd (cc), λ e. absurd (ground arith))

  -- A session that holds nothing back, and has a parser if it waits for the rest of a message: a round
  -- reads outside a buffer exactly if the session waits for a message, and the first one that starts in
  -- the lines of the buffer does not start with it.
  pub handle_buffer_fault :
      (buffer : Text) (s : SipSession parser)
      → is_sound parser s ≡ true
      → (handle_buffer parser buffer s ≡ none)
        ↔ ((is_known s.wait_type ≡ false) × (starts_late buffer (find_char 10 buffer) ≡ true))
  handle_buffer_fault buffer s sound =
      none_iff (handle_buffer parser buffer s) (is_known s.wait_type)
        (starts_late buffer (find_char 10 buffer)) (handle_buffer-some buffer s sound)
