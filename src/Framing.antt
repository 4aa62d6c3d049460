-- ===== src/Framing.antt =====
-- src/inner/sip_session.cpp and src/inner/sip_session.h: how a session cuts what it receives into SIP
-- messages. The parser of a message is the HTTP parser of the SIP library, and a parameter.
pub mod Search
pub mod Fuel
pub mod Loop
pub mod Consumed
pub mod Pipelined
pub mod InOrder
pub mod Faults
mod Examples
use libgb.Base.{ℕ, Bool, Option, List}
use libgb.Message.{Text}

-- What the session waits for: SIP_MESSAGE_TYPE, of which the first two are the parser's modes.
pub data WaitType : Type 0 where
  response request need_more : WaitType

-- The result of http_parser_input as the session tells it apart: 0, 1, a negative number or another.
pub data ParserResult : Type 0 where
  complete want_more failed unexpected : ParserResult

-- The third party's parser: http_parser_create, http_parser_input with the number of bytes that it
-- leaves, and whether sip_message_create and sip_message_load succeed on its content.
pub record Parser : Type 1 where
  pub State : Type 0
  pub create : WaitType → State
  pub input : State → Text → State × ParserResult × ℕ
  pub loads : WaitType → State → Bool

-- A session: the fields that its receiving side uses, and the messages that it has handed to
-- sip_agent_input, the last first.
pub record Session (State : Type 0) : Type 0 where
  pub handing_recv : Bool
  pub wait_type : WaitType
  pub sip_parse : Option State
  pub recv_buffers : List Text
  pub message_buffer : Option Text
  pub agent_input : List (WaitType × State)
