-- ===== src/Framing/InOrder.antt =====
-- src/inner/sip_session.cpp: messages in several buffers, each of which holds one message or more.
use libgb.Base.{
  ℕ, zero, suc, ◌+◌, ◌<◌, ◌≤◌, ◌≡◌, refl, sym, ap, ◌∙◌, true, false, Option, none, some, List, [],
  ◌∷◌, ◌++◌, length, arith, length-append,
}
use mathlib.Core.List.{append_assoc, append-nil}
use libgb.Message.{Text}
use libgb.Framing.{WaitType, need_more, Parser}
use libgb.Framing.Loop.{SipSession, handle_buffer, drain, total_size, handle_recv, on_recv}
use libgb.Framing.Pipelined.{
  Sent, IsSent, put_back, given, IsIdle, find_char_bound, handle_buffer-given,
}

module _ (parser : Parser) where
  abbrev pub AllSent : List (Sent parser) → Type 0
  AllSent [] = Unit
  AllSent (m ∷ ms) = IsSent parser m × AllSent ms

  -- A buffer with a message and others behind it.
  abbrev pub Group : Type 0
  Group = Sent parser × List (Sent parser)

  abbrev pub text_of : Sent parser → List (Sent parser) → Text
  text_of m [] = m.text ++ []
  text_of m (n ∷ ms) = m.text ++ text_of n ms

  abbrev pub group_texts : List Group → List Text
  group_texts [] = []
  group_texts ((m, ms) ∷ gs) = text_of m ms ∷ group_texts gs

  abbrev pub AllGroups : List Group → Type 0
  AllGroups [] = Unit
  AllGroups ((m, ms) ∷ gs) = AllSent (m ∷ ms) × AllGroups gs

  abbrev pub messages : List Group → List (Sent parser)
  messages [] = []
  messages ((m, ms) ∷ gs) = m ∷ (ms ++ messages gs)

  -- A session after it has handed messages to the agent.
  abbrev pub handed : List (Sent parser) → SipSession parser → SipSession parser
  handed [] s = s
  handed (m ∷ ms) s = handed ms (record (given parser m [] s) { recv_buffers = [] })

  -- With what it has received.
  abbrev pub with_groups : List Group → SipSession parser → SipSession parser
  with_groups gs s = record s { recv_buffers = group_texts gs }

  text-nonempty :
      (m : Sent parser) (ms : List (Sent parser)) → IsSent parser m → 0 < length (text_of m ms)
  text-nonempty m [] sent =
      let inside = find_char_bound 10 m.text m.line_end sent.ends in
      omega (arith, inside, length-append m.text [])
  text-nonempty m (n ∷ ms) sent =
      let inside = find_char_bound 10 m.text m.line_end sent.ends in
      omega (arith, inside, length-append m.text (text_of n ms))

  put_back-nonempty :
      (text : Text) (more : List Text) → 0 < length text → put_back parser text more ≡ text ∷ more
  put_back-nonempty [] more h = absurd (omega arith)
  put_back-nonempty (x ∷ xs) more h = refl

  pub one_round :
      (fuel : ℕ) (buffer : Text) (more : List Text) (s t : SipSession parser)
      → handle_buffer parser buffer (record s { recv_buffers = more }) ≡ some t
      → drain parser (suc fuel) (record s { recv_buffers = buffer ∷ more }) ≡ drain parser fuel t
  unfolding drain
  one_round fuel buffer more s t e =
      ap (λ o. elim o [ none ↦ none | some u ↦ drain parser fuel u ]) e

  drain-groups :
      (fuel : ℕ) (gs : List Group) (s : SipSession parser)
      → IsIdle parser s
      → AllGroups gs
      → length (messages gs) ≤ fuel
      → drain parser fuel (with_groups gs s)
        ≡ some (handed (messages gs) (record s { recv_buffers = [] }))
  unfolding drain
  drain-groups zero [] s idle sent enough = refl
  drain-groups zero ((m, ms) ∷ gs) s idle sent enough = absurd (omega arith)
  drain-groups (suc fuel) [] s idle sent enough = refl
  drain-groups (suc fuel) ((m, []) ∷ gs) s idle ((first, last), later) enough =
      let over =
        handle_buffer-given parser m [] (record s { recv_buffers = group_texts gs }) first idle in
      one_round fuel (m.text ++ []) (group_texts gs) s
        (given parser m [] (record s { recv_buffers = group_texts gs })) over
      ∙ drain-groups fuel gs (given parser m [] s) (refl, refl) later (omega (arith, enough))
  drain-groups (suc fuel) ((m, n ∷ ms) ∷ gs) s idle ((first, (second, others)), later) enough =
      let over =
        handle_buffer-given parser m (text_of n ms) (record s { recv_buffers = group_texts gs })
          first idle in
      let back = put_back-nonempty (text_of n ms) (group_texts gs) (text-nonempty n ms second) in
      one_round fuel (m.text ++ text_of n ms) (group_texts gs) s
        (given parser m (text_of n ms) (record s { recv_buffers = group_texts gs })) over
      ∙ (rw back (
          drain-groups fuel ((n, ms) ∷ gs) (given parser m [] s) (refl, refl)
            ((second, others), later) (omega (arith, enough))))

  text_of-length :
      (m : Sent parser) (ms : List (Sent parser))
      → AllSent (m ∷ ms)
      → length ms < length (text_of m ms)
  text_of-length m [] (first, others) = text-nonempty m [] first
  text_of-length m (n ∷ ms) (first, others) =
      let rest = text_of-length n ms others in
      let inside = find_char_bound 10 m.text m.line_end first.ends in
      omega (arith, rest, inside, length-append m.text (text_of n ms))

  messages-rounds :
      (gs : List Group) → AllGroups gs → length (messages gs) ≤ total_size parser (group_texts gs)
  messages-rounds [] sent = omega arith
  messages-rounds ((m, ms) ∷ gs) (first, later) =
      omega
        (arith, messages-rounds gs later, text_of-length m ms first, length-append ms (messages gs))

  -- A session after onRecv for one buffer after the other.
  unfoldable pub received : List Text → SipSession parser → SipSession parser
  unfolding on_recv
  received [] s = s
  received (buffer ∷ more) s = received more (on_recv parser buffer s)

  pub received_lem :
      (buffers : List Text) (s : SipSession parser)
      → received buffers s ≡ record s { recv_buffers = s.recv_buffers ++ buffers }
  unfolding received on_recv
  received_lem [] s = ap (λ b. record s { recv_buffers = b }) (sym (append-nil s.recv_buffers))
  received_lem (buffer ∷ more) s =
      received_lem more (on_recv parser buffer s)
      ∙ ap (λ b. record s { recv_buffers = b }) (append_assoc s.recv_buffers (buffer ∷ []) more)

  -- The messages handed over, the last first.
  abbrev pub inputs :
      List (Sent parser) → List (WaitType × parser.State) → List (WaitType × parser.State)
  inputs [] before = before
  inputs (m ∷ ms) before = inputs ms ((m.kind, m.content) ∷ before)

  -- What the agent has been given, if the code did not fault.
  abbrev pub agent_inputs : Option (SipSession parser) → Option (List (WaitType × parser.State))
  agent_inputs none = none
  agent_inputs (some s) = some s.agent_input

  handed-inputs :
      (ms : List (Sent parser)) (s : SipSession parser)
      → (handed ms s).agent_input ≡ inputs ms s.agent_input
  handed-inputs [] s = refl
  handed-inputs (m ∷ ms) s = handed-inputs ms (record (given parser m [] s) { recv_buffers = [] })

  -- Buffers that come to a session between messages, each with one message or more behind one another,
  -- of a parser that finds the end of each whatever follows: the agent is given exactly these messages,
  -- in their order.
  pub handle_recv-received :
      (gs : List Group) (s : SipSession parser)
      → AllGroups gs
      → s.message_buffer ≡ none
      → s.wait_type ≡ need_more
      → s.recv_buffers ≡ []
      → s.handing_recv ≡ false
      → agent_inputs (handle_recv parser (received (group_texts gs) s))
        ≡ some (inputs (messages gs) s.agent_input)
  unfolding handle_recv
  handle_recv-received gs s sent free waits over apart =
      let start : SipSession parser = record s {
        message_buffer = none;
        wait_type = need_more;
        recv_buffers = [];
        handing_recv = true;
      } in
      rw (received_lem (group_texts gs) s, over, apart, free, waits)
        (rw
          (drain-groups (total_size parser (group_texts gs) + 0) gs start (refl, refl) sent
            (omega (arith, messages-rounds gs sent)))
          (ap (λ l. some l) (handed-inputs (messages gs) start)))
