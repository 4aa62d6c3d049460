-- ===== src/Request/Steps.antt =====
-- src/request/RequestProxyImpl.cpp, RequestListImpl.cpp and RequestConfigDownloadImpl.cpp: sending,
-- the reply, the responses and the timers of a request. The user's callbacks do not call back into
-- the request.
use libgb.Base.{
  ℕ, ◌+◌, ◌-◌, ◌/◌, ◌%◌, bit_or, Bool, true, false, ◌&&◌, ◌||◌, not, Option, none, some, List, [],
  ◌∷◌, ◌++◌, if◌then◌else◌, leb, ltb, ◌==◌,
}
use libgb.Message.{
  MessageCmdType, Text, device_control, device_config, device_status, catalog, device_info,
  record_info, config_download, preset_query, home_position_query, cruise_track_list_query,
  cruise_track_query, ptz_position, sd_card_status, broadcast,
}
use libgb.Sip.{SipCodes}
use libgb.Request.{
  Kind, plain, list, config, replied, succeeded, timeout, failed, no_reply, wait_timed_out,
  empty_request, status_code, payload_failed, send_failed, load_failed, response_failed,
  callback_threw, Response, Action, added, reply_called, response_called, Proxy, is_replied,
  is_no_response, is_one_response, on_completed, after,
}

-- Signed comparison and addition of 32-bit patterns.
abbrev pub i32_le : ℕ → ℕ → Bool
i32_le a b = leb ((a + 2147483648) % 4294967296) ((b + 2147483648) % 4294967296)

abbrev pub i32_add : ℕ → ℕ → ℕ
i32_add a b = (a + b) % 4294967296

-- What the sending of a request meets: no request message, a message that makes no payload, a
-- failure of the session or of the SIP library, or nothing.
pub data Sending : Type 0 where
  no_request sent : Sending
  no_payload not_sent : Text → Sending

unfoldable pub send : ℕ → Sending → Proxy → Proxy × List Action
unfolding on_completed
send now no_request p = on_completed (record p { error = empty_request; status = failed })
send now (no_payload err) p =
    on_completed (record p { has_rcb = true; error = payload_failed err; status = failed })
send now (not_sent err) p = after (added p.request_sn ∷ []) (
    on_completed
      (record p { has_rcb = true; send_time = now; status = failed; error = send_failed err }))
send now sent p = (record p { has_rcb = true; send_time = now }, added p.request_sn ∷ [])

-- on_reply_l of the three classes.
unfoldable pub on_reply_l : ℕ → Proxy → Proxy
on_reply_l now p = elim p.kind [
  | plain ↦ p
  | list ↦ record p { ticker_start = now; own_timer = is_replied p.status || p.own_timer }
  | config ↦ record p { own_timer = true }
]

-- Status and error by the code of the reply; there is no message if the library gave up.
unfoldable pub reply_status : SipCodes → Bool → ℕ → Proxy → Proxy
reply_status sip has_message code p =
    if sip.is_success code
    then record p { status = if is_no_response p.request_type then succeeded else replied }
    else if code == 408 || not has_message
    then record p { status = timeout; error = no_reply }
    else record p { status = failed; error = status_code code }

abbrev pub call_reply : ℕ → Proxy → List Action
call_reply code p = if p.has_reply_callback then reply_called code ∷ [] else []

-- The end of on_reply: wait for the response, or complete.
unfoldable pub after_reply : Proxy → Proxy × List Action
unfolding on_completed
after_reply p = if is_replied p.status then (record p { timer = true }, []) else on_completed p

unfoldable pub on_reply : SipCodes → ℕ → Bool → ℕ → Proxy → Proxy × List Action
unfolding on_reply_l reply_status after_reply
on_reply sip now has_message code p =
    let q =
      on_reply_l now
        (reply_status sip has_message code (record p { reply_time = now; reply_code = code })) in
    after (call_reply code q) (after_reply (record q { has_reply_callback = false }))

-- What the response callback does: return a status code, or throw.
pub data Answer : Type 0 where
  returned : ℕ → Answer
  threw : Answer

-- How a response is taken: the code for the peer, an exception that leaves the handler, or a null
-- pointer dereferenced.
pub data Outcome : Type 0 where
  answered : ℕ → Proxy × List Action → Outcome
  thrown : Proxy × List Action → Outcome
  fault : Outcome

abbrev pub call_response : Response → Bool → Proxy → List Action
call_response resp completed p =
    if p.has_response_callback then response_called resp completed ∷ [] else []

abbrev pub response_answer : Answer → Proxy → Answer
response_answer ans p = if p.has_response_callback then ans else returned 200

-- RequestProxyImpl::on_response of a loaded response.
unfoldable pub plain_response : ℕ → Response → Answer → Proxy → Outcome
plain_response now resp ans p =
    let completed = is_one_response p.request_type in
    let q = if completed then record p { response_end_time = now; status = succeeded } else p in
    let acts = call_response resp completed q in
    elim (response_answer ans q) [
      | threw ↦ thrown (q, acts)
      | returned n ↦
          answered (if n == 0 then 400 else n)
            (if completed then record q { queued = q.queued + 1 } else q, acts)
    ]

-- The classes that derive from ListMessageBase.
abbrev pub is_list_message : MessageCmdType → Bool
is_list_message catalog = true
is_list_message record_info = true
is_list_message cruise_track_list_query = true
is_list_message cruise_track_query = true
is_list_message preset_query = true
is_list_message _ = false

abbrev pub is_config_message : MessageCmdType → Bool
is_config_message config_download = true
is_config_message _ = false

unfoldable pub complete_if : Bool → Proxy → Proxy × List Action
unfolding on_completed
complete_if completed p = if completed then on_completed p else (p, [])

-- The last response has come: the own timer stops and the request has succeeded.
abbrev pub finish_if : Bool → ℕ → Proxy → Proxy
finish_if completed now p =
    if completed
    then record p { own_timer = false; response_end_time = now; status = succeeded }
    else p

unfoldable pub list_answered : Bool → List Action → Answer → Proxy → Outcome
unfolding complete_if
list_answered completed acts threw p = thrown (p, acts)
list_answered completed acts (returned n) p = answered n (after acts (complete_if completed p))

-- RequestListImpl::on_response; the cast of another class gives a null pointer.
unfoldable pub list_response : ℕ → Response → Answer → Proxy → Outcome
unfolding list_answered
list_response now resp ans p =
    let total = i32_add p.recv_num resp.num in
    let completed = i32_le resp.sum_num total in
    let q =
      finish_if completed now
        (record p { ticker_start = now; recv_num = total; sum_num = resp.sum_num }) in
    if is_list_message resp.command
    then list_answered completed (call_response resp completed q) (response_answer ans q) q
    else fault

unfoldable pub config_answered : Bool → List Action → Answer → Proxy → Outcome
unfolding complete_if
config_answered is_end acts threw p = answered 500 (record p { error = callback_threw }, acts)
config_answered is_end acts (returned n) p = answered n (after acts (complete_if is_end p))

abbrev pub config_refused : ℕ → Proxy → Proxy
config_refused now p = record p {
  own_timer = false;
  response_end_time = now;
  status = failed;
  error = response_failed;
}

-- RequestConfigDownloadImpl::on_response.
unfoldable pub config_response : ℕ → Response → Answer → Proxy → Outcome
unfolding on_completed config_answered
config_response now resp ans p =
    let received = bit_or p.recv_config_type resp.config_type in
    let is_end = received == p.request_config_type in
    let q = finish_if is_end now (record p { recv_config_type = received }) in
    if not (is_config_message resp.command)
    then fault
    else if resp.config_type == 0 && not resp.result_ok
    then answered 200 (on_completed (config_refused now q))
    else config_answered is_end (call_response resp is_end q) (response_answer ans q) q

-- The commands for which a response object is made.
abbrev pub is_response_command : MessageCmdType → Bool
is_response_command device_control = true
is_response_command device_config = true
is_response_command device_status = true
is_response_command catalog = true
is_response_command device_info = true
is_response_command record_info = true
is_response_command config_download = true
is_response_command preset_query = true
is_response_command home_position_query = true
is_response_command cruise_track_list_query = true
is_response_command cruise_track_query = true
is_response_command ptz_position = true
is_response_command sd_card_status = true
is_response_command broadcast = true
is_response_command _ = false

-- The virtual on_response.
unfoldable pub loaded_by : Kind → ℕ → Response → Answer → Proxy → Outcome
unfolding plain_response list_response config_response
loaded_by plain now resp ans p = plain_response now resp ans p
loaded_by list now resp ans p = list_response now resp ans p
loaded_by config now resp ans p = config_response now resp ans p

unfoldable pub on_loaded : ℕ → Response → Answer → Proxy → Outcome
unfolding loaded_by
on_loaded now resp ans p = loaded_by p.kind now resp ans p

abbrev pub stored : ℕ → Response → Proxy → Proxy
stored now resp p = record p {
  timer = false;
  responses = p.responses ++ resp ∷ [];
  response_begin_time = if p.response_begin_time == 0 then now else p.response_begin_time;
}

-- RequestProxyImpl::on_response of a message that carries the request's number.
unfoldable pub on_response : ℕ → Response → Answer → Proxy → Outcome
unfolding on_loaded
on_response now resp ans p =
    let q = stored now resp p in
    if not (is_response_command resp.command)
    then answered 400 (p, [])
    else if resp.loads
    then on_loaded now resp ans q
    else answered 400 (record q { status = failed; error = load_failed; queued = q.queued + 1 }, [])

-- The timer that on_reply sets, once.
unfoldable pub timer_expired : Proxy → Proxy × List Action
unfolding on_completed
timer_expired p =
    let q = record p { timer = false } in
    if not p.timer
    then (p, [])
    else if is_replied p.status
    then on_completed (record q { status = timeout; error = wait_timed_out })
    else (q, [])

-- The timers that on_reply_l sets: the list's looks at its ticker each time, the other runs once.
unfoldable pub own_timer_expired : ℕ → Proxy → Proxy × List Action
unfolding on_completed
own_timer_expired now p =
    let late = record p { own_timer = false; status = timeout; error = wait_timed_out } in
    if not p.own_timer then (p, []) else elim p.kind [
      | plain ↦ (p, [])
      | list ↦ if ltb 5000 ((now - p.ticker_start) / 1000) then on_completed late else (p, [])
      | config ↦ on_completed (if is_replied p.status then late else record p { own_timer = false })
    ]

-- A call of on_completed that the poller runs.
unfoldable pub run_queued : Proxy → Proxy × List Action
unfolding on_completed
run_queued p = if p.queued == 0 then (p, []) else on_completed (record p { queued = p.queued - 1 })

pub data Event : Type 0 where
  reply : ℕ → Bool → ℕ → Event
  message : ℕ → Response → Answer → Event
  timer_fires queue_runs : Event
  own_timer_fires : ℕ → Event

-- The state that a response leaves; there is none after a fault.
abbrev pub settled : Outcome → Option (Proxy × List Action)
settled (answered n r) = some r
settled (thrown r) = some r
settled fault = none

unfoldable pub step : SipCodes → Event → Proxy → Option (Proxy × List Action)
unfolding on_reply on_response timer_expired own_timer_expired run_queued
step sip (reply now has_message code) p = some (on_reply sip now has_message code p)
step sip (message now resp ans) p = settled (on_response now resp ans p)
step sip timer_fires p = some (timer_expired p)
step sip queue_runs p = some (run_queued p)
step sip (own_timer_fires now) p = some (own_timer_expired now p)

abbrev pub then_run :
    (Proxy → Option (Proxy × List Action))
    → Option (Proxy × List Action)
    → Option (Proxy × List Action)
then_run k none = none
then_run k (some (p, acts)) = elim (k p) [ none ↦ none | some r ↦ some (after acts r) ]

-- The events of a request's life, in the order in which they come.
unfoldable pub run : SipCodes → List Event → Proxy → Option (Proxy × List Action)
run sip [] p = some (p, [])
run sip (e ∷ es) p = then_run (run sip es) (step sip e p)
