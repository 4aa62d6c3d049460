-- ===== src/Framing/Search.antt =====
-- src/inner/sip_session.cpp: get_sip_message_type, which looks for the first line of a message.
use libgb.Base.{
  ℕ, zero, suc, ◌+◌, ◌-◌, Bool, ◌&&◌, Option, none, some, List, [], ◌∷◌, ◌++◌, if◌then◌else◌, ltb,
  leb, length, codes, take, drop, get_elem?, find, find_char, is_blank, is_digit,
}
use libgb.Message.{Text}
use libgb.Framing.{WaitType, response, request, Parser, Session}

abbrev pub patterns : List Text
patterns =
    codes "INVITE"
    ∷ codes "CANCEL"
    ∷ codes "BYE"
    ∷ codes "ACK"
    ∷ codes "OPTIONS"
    ∷ codes "REGISTER"
    ∷ codes "PRACK"
    ∷ codes "INFO"
    ∷ codes "REFER"
    ∷ codes "MESSAGE"
    ∷ codes "SUBSCRIBE"
    ∷ codes "NOTIFY"
    ∷ codes "PUBLISH"
    ∷ codes "UPDATE"
    ∷ []

abbrev pub sip_flag : Text
sip_flag = codes "SIP/2.0"

-- "SIP/2.0" at a position is followed by a blank and three digits.
abbrev pub is_status_line : Text → ℕ → Bool
is_status_line line sip_pos =
    let after = sip_pos + length sip_flag in
    leb (after + 4) (length line)
    && is_blank (get_elem? line after)
    && is_digit (get_elem? line (after + 1))
    && is_digit (get_elem? line (after + 2))
    && is_digit (get_elem? line (after + 3))

-- Where a method stands before a position, if a blank follows it.
abbrev pub method_at : Text → ℕ → Text → Option ℕ → Option ℕ
method_at line sip_pos pattern none = none
method_at line sip_pos pattern (some start) =
    if ltb start sip_pos && is_blank (get_elem? line (start + length pattern))
    then some start
    else none

abbrev pub first_method : Text → ℕ → List Text → Option ℕ
first_method line sip_pos [] = none
first_method line sip_pos (pattern ∷ more) =
    elim (method_at line sip_pos pattern (find pattern line)) [
      | none ↦ first_method line sip_pos more
      | some start ↦ some start
    ]

abbrev pub as_request : Option ℕ → Option (WaitType × ℕ)
as_request none = none
as_request (some start) = some (request, start)

abbrev pub check_flag : Text → Option ℕ → Option (WaitType × ℕ)
check_flag line none = none
check_flag line (some sip_pos) =
    if is_status_line line sip_pos
    then some (response, sip_pos)
    else as_request (first_method line sip_pos patterns)

-- check_line: the kind of message that the line starts, and where.
unfoldable pub check_line : Text → Option (WaitType × ℕ)
check_line line = check_flag line (find sip_flag line)

-- data.find('\n', pos).
abbrev pub find_line_end : Text → ℕ → Option ℕ
find_line_end text pos = elim (find_char 10 (drop pos text)) [
  | none ↦ none
  | some n ↦ some (pos + n)
]

-- The loop over the lines that end in the data, from the position `pos` with the line's end at
-- `crlf_pos`: the kind of message, the position of the line, and the start in it. The line reaches
-- `crlf_pos` characters from its start. Each round moves `pos` on.
unfoldable pub check_lines : ℕ → Text → ℕ → Option ℕ → Option (WaitType × ℕ × ℕ)
unfolding check_line
check_lines zero text pos line_end = none
check_lines (suc fuel) text pos none = none
check_lines (suc fuel) text pos (some crlf_pos) =
    let later = check_lines fuel text (crlf_pos + 1) (find_line_end text (crlf_pos + 1)) in
    elim (check_line (take crlf_pos (drop pos text))) [
      | some (kind, start) ↦ some (kind, pos, start)
      | none ↦ if leb (length text) (crlf_pos + 1) then none else later
    ]

-- The rest of the message buffer, or of what was received. From a position after the start, the
-- latter reads past the end of what was received.
abbrev pub get_buffer : Option Text → Text → ℕ → Option Text
get_buffer none buffer zero = some buffer
get_buffer none buffer (suc n) = none
get_buffer (some held) buffer n = some (drop n held)

-- What becomes of data without a line: nothing the first time, and the last 1024 bytes of what was
-- received once there are more than 8192, which reads before its start if there are fewer.
abbrev pub keep_data : Text → Option Text → Option (Option Text)
keep_data buffer none = some none
keep_data buffer (some held) =
    if ltb 8192 (length held)
    then (if leb 1024 (length buffer)
        then some (some (drop (length buffer - 1024) buffer))
        else none)
    else some (some held)

-- The message buffer with what was received after it.
abbrev pub joined : Option Text → Text → Option Text
joined none buffer = none
joined (some held) buffer = some (held ++ buffer)

abbrev pub data_of : Option Text → Text → Text
data_of none buffer = buffer
data_of (some held) buffer = held

module _ (parser : Parser) where
  -- A result: no value if the code reads outside a buffer, else the session and what is to be parsed,
  -- if a message starts there.
  abbrev pub Found : Type 0
  Found = Option (Session parser.State × Option Text)

  abbrev pub kept : Option (Option Text) → Session parser.State → Found
  kept none s = none
  kept (some message_buffer) s = some (record s { message_buffer = message_buffer }, none)

  abbrev pub taken : WaitType → Option Text → Session parser.State → Found
  taken kind none s = none
  taken kind (some buffer) s = some (
    record s { wait_type = kind; sip_parse = some (parser.create kind); message_buffer = none },
    some buffer,
  )

  abbrev pub searched : Text → Option (WaitType × ℕ × ℕ) → Session parser.State → Found
  searched buffer none s = some (s, none)
  searched buffer (some (kind, pos, start)) s =
      taken kind (get_buffer s.message_buffer buffer (pos + start)) s

  abbrev pub search : Text → Text → Option ℕ → Session parser.State → Found
  search buffer text none s = kept (keep_data buffer s.message_buffer) s
  search buffer text (some crlf_pos) s =
      searched buffer (check_lines (length text) text 0 (some crlf_pos)) s

  unfoldable pub get_sip_message_type : Text → Session parser.State → Found
  unfolding check_lines
  get_sip_message_type [] s = some (s, none)
  get_sip_message_type (x ∷ xs) s =
      let message_buffer = joined s.message_buffer (x ∷ xs) in
      let text = data_of message_buffer (x ∷ xs) in
      search (x ∷ xs) text (find_char 10 text) (record s { message_buffer = message_buffer })
