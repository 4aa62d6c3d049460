-- ===== src/Request/Examples.antt =====
-- Requests at work.
use libgb.Base.{ℕ, ◌≤◌, ◌<◌, ◌≡◌, ◌++◌, refl, inl, arith, true, false, some, List, [], ◌∷◌}
use libgb.Message.{catalog, device_info, config_download}
use libgb.Sip.{rfc_codes}
use libgb.Request.{
  Status, plain, list, config, one_response, multiple_responses, Proxy, Response, Action, new_proxy,
  result_called, succeeded, no_error, replied,
}
use libgb.Request.Steps.{sent, send, Event, reply, message, queue_runs, returned, step, run}
use libgb.Request.Accounts.{results}
use libgb.Request.Once.{run-send_once}
use libgb.Request.Completion.{Local, Completes, run-Completes}
use libgb.Request.Totals.{run-deliver, deliver}

abbrev catalog_part : ℕ → Response
catalog_part n = record {
  command = catalog;
  loads = true;
  num = n;
  sum_num = 5;
  config_type = 0;
  result_ok = true;
}

abbrev info : Response
info = record (catalog_part 0) { command = device_info }

abbrev info_request : Proxy
info_request = (send 1 sent (new_proxy plain one_response 7 0 false false)).0

-- A reply, the response, and the queued completion.
abbrev answered_run : List Event
answered_run = reply 2 true 200 ∷ message 3 info (returned 200) ∷ queue_runs ∷ []

abbrev answered_end : Proxy
answered_end = record {
  kind = plain;
  request_type = one_response;
  request_sn = 7;
  status = succeeded;
  error = no_error;
  reply_code = 200;
  send_time = 1;
  reply_time = 2;
  response_begin_time = 3;
  response_end_time = 3;
  responses = info ∷ [];
  result_flag = true;
  has_rcb = false;
  has_reply_callback = false;
  has_response_callback = false;
  timer = false;
  own_timer = false;
  ticker_start = 0;
  recv_num = 0;
  sum_num = 0;
  recv_config_type = 0;
  request_config_type = 0;
  queued = 0;
}

answered_run_lem :
    run rfc_codes answered_run info_request
    ≡ some (answered_end, result_called succeeded no_error ∷ Action.removed 7 ∷ [])
unfolding run step send new_proxy
answered_run_lem = refl

run-send_once_example :
    results (
      (send 1 sent (new_proxy plain one_response 7 0 false false)).1
      ++ result_called succeeded no_error ∷ Action.removed 7 ∷ [])
    ≡ 1
unfolding new_proxy
run-send_once_example =
    (run-send_once rfc_codes 1 sent answered_run (new_proxy plain one_response 7 0 false false)
      answered_end (result_called succeeded no_error ∷ Action.removed 7 ∷ []) (λ e. cc) refl
      answered_run_lem).0

-- Replied to, with no response yet.
abbrev waiting_end : Proxy
waiting_end = record answered_end {
  status = replied;
  response_begin_time = 0;
  response_end_time = 0;
  responses = [];
  result_flag = false;
  has_rcb = true;
  timer = true;
}

waiting_run_lem : run rfc_codes (reply 2 true 200 ∷ []) info_request ≡ some (waiting_end, [])
unfolding run step send new_proxy
waiting_run_lem = refl

run-Completes_example : (e : Event) × Local e × Completes rfc_codes waiting_end e
run-Completes_example =
    run-Completes plain one_response rfc_codes 7 0 1 false false sent (reply 2 true 200 ∷ [])
      waiting_end [] (inl refl) (omega arith) waiting_run_lem (omega arith) refl

abbrev catalog_request : Proxy
catalog_request = new_proxy list multiple_responses 8 0 false false

run-deliver_example :
    (q : Proxy) × (acts : List Action) × (run rfc_codes
        (deliver 4 200 (catalog_part 2 ∷ catalog_part 3 ∷ []))
        catalog_request
      ≡ some (q, acts))
    × (q.recv_num ≡ 5)
    × (5 ≤ 5 → (q.result_flag ≡ true) × (q.status ≡ succeeded))
    × (5 < 5 → (q.result_flag ≡ false) × (q.status ≡ Status.init))
unfolding new_proxy
run-deliver_example =
    run-deliver rfc_codes 5 4 200 (catalog_part 2 ∷ catalog_part 3 ∷ []) catalog_request (λ e. cc)
      ((refl, refl, refl), ((refl, refl, refl), tt)) refl (omega arith) (omega arith)

abbrev config_request : Proxy
config_request = new_proxy config multiple_responses 9 3 false true

abbrev config_part : Response
config_part = record (catalog_part 0) { command = config_download; config_type = 3 }
