-- ===== src/Framing/Pipelined.antt =====
-- src/inner/sip_session.cpp: messages that come one behind the other, several in a buffer.
use libgb.Base.{
  ℕ, zero, suc, ◌-◌, ◌<◌, ◌≤◌, ◌≡◌, Option-cases, inl, inr, find, refl, ap, ◌∙◌, Bool, true, false,
  Option, none, some, List, [], ◌∷◌, ◌++◌, if◌then◌else◌, ltb, length, take, drop, arith, find_char,
  length-append,
}
use libgb.Message.{Text}
use libgb.Framing.{WaitType, response, need_more, complete, Parser}
use libgb.Framing.Search.{
  check_line, check_lines, check_flag, as_request, sip_flag, first_method, patterns, is_status_line,
  get_sip_message_type,
}
use libgb.Framing.Loop.{
  is_known, SipSession, with_remaining, message_done, feed_found, parsed, handle_buffer,
}

pub find_char_bound : (c : ℕ) (xs : Text) (n : ℕ) → find_char c xs ≡ some n → n < length xs
find_char_bound c [] n h = absurd (cc)
find_char_bound c (x ∷ xs) n h = elim (Option-cases (find_char c xs)) [
  | inl absent ↦ ground arith
  | inr (m, found) ↦ let below = find_char_bound c xs m found in ground arith
]

find_char-append :
    (c : ℕ) (xs ys : Text) (n : ℕ) → find_char c xs ≡ some n → find_char c (xs ++ ys) ≡ some n
find_char-append c [] ys n h = absurd (cc)
find_char-append c (x ∷ xs) ys n h = elim (Option-cases (find_char c xs)) [
  | inl absent ↦ ground arith
  | inr (m, found) ↦ let later = find_char-append c xs ys m found in ground arith
]

take-append : (n : ℕ) (xs ys : Text) → n ≤ length xs → take n (xs ++ ys) ≡ take n xs
take-append zero xs ys h = refl
take-append (suc n) [] ys h = absurd (omega arith)
take-append (suc n) (x ∷ xs) ys h = ap (λ t. x ∷ t) (take-append n xs ys (omega arith))

drop-append : (xs ys : Text) → drop (length xs) (xs ++ ys) ≡ ys
drop-append [] ys = refl
drop-append (x ∷ xs) ys = drop-append xs ys

kind_known :
    (status : Bool) (sip_pos : ℕ) (method : Option ℕ) (kind : WaitType) (start : ℕ)
    → (if status then some (response, sip_pos) else as_request method) ≡ some (kind, start)
    → is_known kind ≡ true
kind_known true sip_pos method kind start h = ground arith
kind_known false sip_pos none kind start h = absurd (cc)
kind_known false sip_pos (some at) kind start h = ground arith

flag_known :
    (line : Text) (sip_pos : Option ℕ) (kind : WaitType) (start : ℕ)
    → check_flag line sip_pos ≡ some (kind, start)
    → is_known kind ≡ true
flag_known line none kind start h = absurd (cc)
flag_known line (some sip_pos) kind start h =
    kind_known (is_status_line line sip_pos) sip_pos (first_method line sip_pos patterns) kind start
      h

-- The rest of a buffer, by its length.
drop-rest : (xs ys : Text) → drop (length (xs ++ ys) - length ys) (xs ++ ys) ≡ ys
drop-rest xs ys =
    let count : length (xs ++ ys) - length ys ≡ length xs = omega (arith, length-append xs ys) in
    rw count (drop-append xs ys)

first_line :
    (fuel : ℕ) (text : Text) (n : ℕ) (kind : WaitType)
    → check_line (take n text) ≡ some (kind, 0)
    → check_lines (suc fuel) text 0 (some n) ≡ some (kind, 0, 0)
unfolding check_lines
first_line fuel text n kind starts = rw (check_lines, starts) refl

check_line-known :
    (line : Text) (kind : WaitType) (start : ℕ)
    → check_line line ≡ some (kind, start)
    → is_known kind ≡ true
unfolding check_line
check_line-known line kind start h = flag_known line (find sip_flag line) kind start h

module _ (parser : Parser) where
  -- A message as it is sent, and what its parser holds in the end.
  pub record Sent : Type 0 where
    pub kind : WaitType
    pub text : Text
    pub line_end : ℕ
    pub content : parser.State

  -- The first line says what the message is, and the parser finds the message's end, whatever follows.
  pub record IsSent (m : Sent) : Type 0 where
    pub ends : find_char 10 m.text ≡ some m.line_end
    pub starts : check_line (take m.line_end m.text) ≡ some (m.kind, 0)
    pub parses :
        (rest : Text)
        → parser.input (parser.create m.kind) (m.text ++ rest) ≡ (m.content, complete, length rest)
    pub loads : parser.loads m.kind m.content ≡ true

  -- What is left of a buffer goes to the front.
  abbrev pub put_back : Text → List Text → List Text
  put_back [] more = more
  put_back (x ∷ xs) more = (x ∷ xs) ∷ more

  -- A session that has handed over a message.
  abbrev pub given : Sent → Text → SipSession parser → SipSession parser
  given m rest s = record s {
    wait_type = need_more;
    sip_parse = none;
    message_buffer = none;
    recv_buffers = put_back rest s.recv_buffers;
    agent_input = (m.kind, m.content) ∷ s.agent_input;
  }

  -- Between messages: nothing held back, nothing waited for but a message.
  abbrev pub IsIdle : SipSession parser → Type 0
  IsIdle s = (s.message_buffer ≡ none) × (s.wait_type ≡ need_more)

  abbrev awaiting : WaitType → SipSession parser → SipSession parser
  awaiting kind s = record s {
    wait_type = kind;
    sip_parse = some (parser.create kind);
    message_buffer = none;
  }

  start_found :
      (text : Text) (n : ℕ) (kind : WaitType) (s : SipSession parser)
      → find_char 10 text ≡ some n
      → check_line (take n text) ≡ some (kind, 0)
      → s.message_buffer ≡ none
      → get_sip_message_type parser text s ≡ some (awaiting kind s, some text)
  unfolding get_sip_message_type check_lines
  start_found [] n kind s ends starts free = absurd (cc)
  start_found (x ∷ xs) n kind s ends starts free =
      rw (free, ends) (rw (first_line (length xs) (x ∷ xs) n kind starts) refl)

  message_found :
      (m : Sent) (rest : Text) (s : SipSession parser)
      → IsSent m
      → IsIdle s
      → get_sip_message_type parser (m.text ++ rest) s
        ≡ some (awaiting m.kind s, some (m.text ++ rest))
  message_found m rest s sent (free, waits) =
      let inside = find_char_bound 10 m.text m.line_end sent.ends in
      let line = take-append m.line_end m.text rest (omega (arith, inside)) in
      start_found (m.text ++ rest) m.line_end m.kind s
        (find_char-append 10 m.text rest m.line_end sent.ends) (ap check_line line ∙ sent.starts)
        free

  with_remaining-rest :
      (text rest : Text) (s : SipSession parser)
      → 0 < length text
      → with_remaining parser complete (text ++ rest) (length rest) s
        ≡ record s { recv_buffers = put_back rest s.recv_buffers }
  with_remaining-rest text [] s some_text = refl
  with_remaining-rest text (x ∷ xs) s some_text =
      let more = length-append text (x ∷ xs) in
      let fewer : ltb (suc (length xs)) (length (text ++ (x ∷ xs))) ≡ true = ground arith in
      let some_rest : ltb 0 (suc (length xs)) ≡ true = ground arith in
      rw (fewer, some_rest, drop-rest text (x ∷ xs)) refl

  -- What the parser leaves of a message and the rest is the rest.
  parsed-given :
      (m : Sent) (rest : Text) (s : SipSession parser)
      → IsSent m
      → parsed parser (m.text ++ rest) (m.content, complete, length rest) (awaiting m.kind s)
        ≡ given m rest s
  parsed-given m rest s sent =
      let inside = find_char_bound 10 m.text m.line_end sent.ends in
      let waiting : SipSession parser = record (awaiting m.kind s) { sip_parse = some m.content } in
      let pushed : SipSession parser = record waiting {
        recv_buffers = put_back rest s.recv_buffers;
      } in
      let done : message_done parser m.content pushed ≡ given m rest s = rw sent.loads refl in
      ap (message_done parser m.content)
        (with_remaining-rest m.text rest waiting (omega (arith, inside)))
      ∙ done

  feed_found-given :
      (text : Text) (m : Sent) (rest : Text) (s : SipSession parser)
      → IsSent m
      → text ≡ m.text ++ rest
      → feed_found parser (awaiting m.kind s, some text) ≡ some (given m rest s)
  feed_found-given [] m rest s sent same =
      let inside = find_char_bound 10 m.text m.line_end sent.ends in
      let more = length-append m.text rest in let none_left = ap length same in absurd (omega arith)
  feed_found-given (x ∷ xs) m rest s sent same =
      let line = check_line-known (take m.line_end m.text) m.kind 0 sent.starts in
      rw (line, same, sent.parses rest) (ap (λ t. some t) (parsed-given m rest s sent))

  pub handle_buffer-given :
      (m : Sent) (rest : Text) (s : SipSession parser)
      → IsSent m
      → IsIdle s
      → handle_buffer parser (m.text ++ rest) s ≡ some (given m rest s)
  unfolding handle_buffer
  handle_buffer-given m rest s sent (free, waits) = rw waits (
      rw (message_found m rest (record s { wait_type = need_more }) sent (free, refl))
        (feed_found-given (m.text ++ rest) m rest s sent refl))
