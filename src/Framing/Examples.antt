-- ===== src/Framing/Examples.antt =====
-- A parser of messages that end with an empty line, runs of a session, and the theorems at it.
use libgb.Base.{
  ℕ, ◌≡◌, ◌↔◌, refl, true, false, ◌&&◌, Option, none, some, List, [], ◌∷◌, ◌++◌, if◌then◌else◌,
  ◌==◌, length, codes,
}
use libgb.Message.{Text}
use libgb.Framing.{response, request, need_more, ParserResult, complete, want_more, Parser}
use libgb.Framing.Search.{check_line}
use libgb.Framing.Loop.{SipSession, handle_buffer, handle_recv}
use libgb.Framing.Consumed.{Handled, handle_recv-Handled}
use libgb.Framing.Pipelined.{Sent, IsSent}
use libgb.Framing.InOrder.{Group, group_texts, agent_inputs, received, handle_recv-received}
use libgb.Framing.Faults.{starts_late, handle_recv_lost, handle_buffer_fault}

-- What stands before the end of a message, the end included, and what follows.
abbrev cut : ℕ → Text → Option (Text × Text)
cut before [] = none
cut before (x ∷ xs) =
    let later = cut x xs in
    if x == 10 && before == 10
    then some (x ∷ [], xs)
    else elim later [ none ↦ none | some (head, rest) ↦ some (x ∷ head, rest) ]

abbrev result_of : Text → Option (Text × Text) → Text × ParserResult × ℕ
result_of text none = (text, want_more, 0)
result_of text (some (head, rest)) = (head, complete, length rest)

abbrev line_parser : Parser
line_parser = record {
  State = Text;
  create = λ kind. [];
  input = λ held buffer. result_of (held ++ buffer) (cut 0 (held ++ buffer));
  loads = λ kind held. true;
}

abbrev fresh : SipSession line_parser
fresh = record {
  handing_recv = false;
  wait_type = need_more;
  sip_parse = none;
  recv_buffers = [];
  message_buffer = none;
  agent_input = [];
}

abbrev end_of_message : Text
end_of_message = 10 ∷ 10 ∷ []

abbrev bye : Sent line_parser
bye = record {
  kind = request;
  text = codes "BYE sip:1 SIP/2.0" ++ end_of_message;
  line_end = 17;
  content = codes "BYE sip:1 SIP/2.0" ++ end_of_message;
}

abbrev ok : Sent line_parser
ok = record {
  kind = response;
  text = codes "SIP/2.0 200 OK" ++ end_of_message;
  line_end = 14;
  content = codes "SIP/2.0 200 OK" ++ end_of_message;
}

bye-IsSent : IsSent line_parser bye
unfolding check_line
bye-IsSent = record { ends = refl; starts = refl; parses = λ rest. refl; loads = refl }

ok-IsSent : IsSent line_parser ok
unfolding check_line
ok-IsSent = record { ends = refl; starts = refl; parses = λ rest. refl; loads = refl }

-- Two buffers: a request with a response behind it, and another request.
abbrev groups : List (Group line_parser)
groups = (bye, ok ∷ []) ∷ (bye, []) ∷ []

handle_recv-received_example :
    agent_inputs line_parser
      (handle_recv line_parser (received line_parser (group_texts line_parser groups) fresh))
    ≡ some ((request, bye.content) ∷ (response, ok.content) ∷ (request, bye.content) ∷ [])
handle_recv-received_example =
    handle_recv-received line_parser groups fresh
      ((bye-IsSent, (ok-IsSent, tt)), ((bye-IsSent, tt), tt)) refl refl refl refl

handle_recv-Handled_example : Handled line_parser (
    handle_recv line_parser
      (record fresh { recv_buffers = bye.text ∷ (ok.text ++ (b'B' ∷ [])) ∷ [] }))
handle_recv-Handled_example =
    handle_recv-Handled line_parser
      (record fresh { recv_buffers = bye.text ∷ (ok.text ++ (b'B' ∷ [])) ∷ [] }) refl refl

-- The first line of a request in two pieces: the request is lost, and the response after it is handled.
handle_recv_lost_example :
    handle_recv line_parser (
      received line_parser
        (codes "BYE sip:1" ∷ (codes " SIP/2.0" ++ end_of_message) ∷ ok.text ∷ [])
        fresh)
    ≡ handle_recv line_parser
        (received line_parser ((codes " SIP/2.0" ++ end_of_message) ∷ ok.text ∷ []) fresh)
handle_recv_lost_example =
    handle_recv_lost line_parser (codes "BYE sip:1")
      ((codes " SIP/2.0" ++ end_of_message) ∷ ok.text ∷ []) fresh refl refl refl refl refl

-- A line end before a request, as it is sent to keep a connection open.
handle_buffer_fault_example :
    (handle_buffer line_parser (13 ∷ 10 ∷ bye.text) fresh ≡ none)
    ↔ ((false ≡ false) × (starts_late line_parser (13 ∷ 10 ∷ bye.text) (some 1) ≡ true))
handle_buffer_fault_example = handle_buffer_fault line_parser (13 ∷ 10 ∷ bye.text) fresh refl

pings_fault : handle_buffer line_parser (13 ∷ 10 ∷ bye.text) fresh ≡ none
unfolding handle_buffer
pings_fault = refl
