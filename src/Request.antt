-- ===== src/Request.antt =====
-- src/request/RequestProxyImpl.h, RequestListImpl.h and RequestConfigDownloadImpl.h: the state of a
-- request that waits for its reply and its responses, and its completion. The three classes are
-- one record with a kind. Times are microseconds; an int32_t is its pattern of 32 bits.
pub mod Steps
pub mod Accounts
pub mod Responses
pub mod Once
pub mod Progress
pub mod Completion
pub mod Totals
pub mod Faults
pub mod Select
mod Examples
use libgb.Base.{
  ℕ, zero, suc, ◌+◌, ◌-◌, ◌*◌, ◌/◌, ◌%◌, bit_or, Bool, true, false, ◌&&◌, ◌||◌, not, List, [], ◌∷◌,
  ◌++◌, if◌then◌else◌, leb, ltb, ◌==◌,
}
use libgb.Message.{MessageCmdType, Text}

pub data RequestType : Type 0 where
  invalid no_response one_response multiple_responses : RequestType

pub data Status : Type 0 where
  init sending replied succeeded timeout failed : Status

-- The class of the request object.
pub data Kind : Type 0 where
  plain list config : Kind

-- What error_ holds; texts from outside are kept.
pub data Error : Type 0 where
  no_error no_reply wait_timed_out empty_request : Error
  status_code : ℕ → Error
  payload_failed send_failed : Text → Error
  load_failed response_failed callback_threw : Error

-- A response message: its command, whether load_from_xml succeeds, and the fields that the
-- requests read.
pub record Response : Type 0 where
  pub command : MessageCmdType
  pub loads : Bool
  pub num : ℕ
  pub sum_num : ℕ
  pub config_type : ℕ
  pub result_ok : Bool

-- What a request does to its surroundings, in order.
pub data Action : Type 0 where
  added removed : ℕ → Action
  reply_called : ℕ → Action
  response_called : Response → Bool → Action
  result_called : Status → Error → Action

pub record Proxy : Type 0 where
  pub kind : Kind
  pub request_type : RequestType
  pub request_sn : ℕ
  pub status : Status
  pub error : Error
  pub reply_code : ℕ
  pub send_time : ℕ
  pub reply_time : ℕ
  pub response_begin_time : ℕ
  pub response_end_time : ℕ
  pub responses : List Response
  pub result_flag : Bool
  pub has_rcb : Bool
  pub has_reply_callback : Bool
  pub has_response_callback : Bool
  -- timer_ of RequestProxyImpl, and timer_ of the derived class, with its ticker_
  pub timer : Bool
  pub own_timer : Bool
  pub ticker_start : ℕ
  pub recv_num : ℕ
  pub sum_num : ℕ
  pub recv_config_type : ℕ
  pub request_config_type : ℕ
  -- calls of on_completed that wait in the poller
  pub queued : ℕ

abbrev pub is_replied : Status → Bool
is_replied replied = true
is_replied _ = false

abbrev pub is_no_response : RequestType → Bool
is_no_response no_response = true
is_no_response _ = false

abbrev pub is_one_response : RequestType → Bool
is_one_response one_response = true
is_one_response _ = false

abbrev pub is_plain : Kind → Bool
is_plain plain = true
is_plain _ = false

-- A new request of a kind, with the callbacks that its owner has set.
unfoldable pub new_proxy : Kind → RequestType → ℕ → ℕ → Bool → Bool → Proxy
new_proxy kind type sn config_type reply_callback response_callback = record {
  kind = kind;
  request_type = type;
  request_sn = sn;
  status = init;
  error = no_error;
  reply_code = 0;
  send_time = 0;
  reply_time = 0;
  response_begin_time = 0;
  response_end_time = 0;
  responses = [];
  result_flag = false;
  has_rcb = false;
  has_reply_callback = reply_callback;
  has_response_callback = response_callback;
  timer = false;
  own_timer = false;
  ticker_start = 0;
  recv_num = 0;
  sum_num = 0;
  recv_config_type = 0;
  request_config_type = config_type;
  queued = 0;
}

-- on_completed_l of the three classes.
unfoldable pub on_completed_l : Proxy → Proxy
on_completed_l p = record p { own_timer = is_plain p.kind && p.own_timer }

abbrev pub report : Proxy → List Action
report p = if p.has_rcb then result_called p.status p.error ∷ [] else []

unfoldable pub on_completed : Proxy → Proxy × List Action
unfolding on_completed_l
on_completed p = if p.result_flag then (p, []) else (
  on_completed_l (record p {
    result_flag = true;
    has_reply_callback = false;
    has_response_callback = false;
    has_rcb = false;
  }),
  report p ++ removed p.request_sn ∷ [],
)

-- Actions done before those of a later call.
abbrev pub after : List Action → Proxy × List Action → Proxy × List Action
after acts (p, more) = (p, acts ++ more)
