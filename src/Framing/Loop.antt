-- ===== src/Framing/Loop.antt =====
-- src/inner/sip_session.cpp: onRecv and handle_recv, the loop over what was received.
use libgb.Base.{
  ℕ, zero, suc, ◌+◌, ◌-◌, Bool, true, false, ◌&&◌, Option, none, some, List, [], ◌∷◌, ◌++◌,
  if◌then◌else◌, ltb, length, drop,
}
use libgb.Message.{Text}
use libgb.Framing.{
  WaitType, response, request, need_more, ParserResult, complete, want_more, failed, unexpected,
  Parser, Session,
}
use libgb.Framing.Search.{get_sip_message_type}

-- What is waited for is known.
abbrev pub is_known : WaitType → Bool
is_known response = true
is_known request = true
is_known need_more = false

module _ (parser : Parser) where
  abbrev pub SipSession : Type 0
  SipSession = Session parser.State

  -- The session waits for the start of a message again.
  abbrev pub wait_again : SipSession → SipSession
  wait_again s = record s { wait_type = need_more }

  -- A message that is complete: it goes to the agent with its parser if it can be loaded.
  abbrev pub message_done : parser.State → SipSession → SipSession
  message_done p s =
      if parser.loads s.wait_type p
      then record s {
        wait_type = need_more;
        sip_parse = none;
        agent_input = (s.wait_type, p) ∷ s.agent_input;
      }
      else wait_again s

  abbrev pub by_result : ParserResult → parser.State → SipSession → SipSession
  by_result want_more p s = s
  by_result failed p s = wait_again s
  by_result complete p s = message_done p s
  by_result unexpected p s = wait_again s

  -- What the parser leaves goes back to the front, unless it wants more.
  abbrev pub with_remaining : ParserResult → Text → ℕ → SipSession → SipSession
  with_remaining want_more buffer left s = s
  with_remaining result buffer left s =
      if ltb 0 left && ltb left (length buffer)
      then record s { recv_buffers = drop (length buffer - left) buffer ∷ s.recv_buffers }
      else s

  abbrev pub parsed : Text → parser.State × ParserResult × ℕ → SipSession → SipSession
  parsed buffer (p, result, left) s =
      by_result result p (with_remaining result buffer left (record s { sip_parse = some p }))

  -- The parser's pointer is used as it is.
  abbrev pub feed : Text → Option parser.State → SipSession → Option SipSession
  feed buffer none s = none
  feed buffer (some p) s = some (parsed buffer (parser.input p buffer) s)

  abbrev pub feed_found : SipSession × Option Text → Option SipSession
  feed_found (s, none) = some s
  feed_found (s, some []) = some s
  feed_found (s, some (x ∷ xs)) =
      if is_known s.wait_type then feed (x ∷ xs) s.sip_parse s else some s

  abbrev pub then_feed : Option (SipSession × Option Text) → Option SipSession
  then_feed none = none
  then_feed (some found) = feed_found found

  -- One round of the loop, on the buffer that was taken from the front.
  unfoldable pub handle_buffer : Text → SipSession → Option SipSession
  unfolding get_sip_message_type
  handle_buffer buffer s =
      then_feed (
        if is_known s.wait_type
        then some (s, some buffer)
        else get_sip_message_type parser buffer s)

  -- The rounds, as many as the fuel allows.
  unfoldable pub drain : ℕ → SipSession → Option SipSession
  unfolding handle_buffer
  drain zero s = some s
  drain (suc fuel) s = elim s.recv_buffers [
    | [] ↦ some s
    | buffer ∷ more ↦ elim (handle_buffer buffer (record s { recv_buffers = more })) [
      | none ↦ none
      | some t ↦ drain fuel t
    ]
  ]

  abbrev pub held_size : Option Text → ℕ
  held_size none = 0
  held_size (some held) = length held

  abbrev pub total_size : List Text → ℕ
  total_size [] = 0
  total_size (buffer ∷ more) = suc (length buffer) + total_size more

  -- The rounds that suffice: one for each byte and one for each buffer.
  abbrev pub rounds : SipSession → ℕ
  rounds s = total_size s.recv_buffers + held_size s.message_buffer

  abbrev pub released : Option SipSession → Option SipSession
  released none = none
  released (some s) = some (record s { handing_recv = false })

  unfoldable pub handle_recv : SipSession → Option SipSession
  unfolding drain
  handle_recv s =
      if s.handing_recv
      then some s
      else released (drain (rounds s) (record s { handing_recv = true }))

  -- onRecv, which puts the buffer behind the others.
  unfoldable pub on_recv : Text → SipSession → SipSession
  on_recv buffer s = record s { recv_buffers = s.recv_buffers ++ (buffer ∷ []) }
