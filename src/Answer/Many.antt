-- ===== src/Answer/Many.antt =====
-- src/super_platform_impl.cpp: MultiResponseQueryHandler, which sends its responses in chains: a
-- chain sends the next response when the one before has been replied to.
use libgb.Base.{
  ℕ, zero, suc, ◌+◌, Bool, true, false, Option, none, some, List, [], ◌∷◌, ◌++◌, if◌then◌else◌, not,
  ◌&&◌, ◌||◌, ◌==◌,
}
use libgb.Sip.{SipCodes}
use libgb.Sdp.Types.{ℤ, pos, negsuc}

-- The context of a query: with the responses that wait, the chains that are to be started and those
-- that have a response on its way, and the responses that were sent, in their order. Once stopped,
-- nothing more is sent.
pub record Sending (Response : Type 0) : Type 0 where
  pub flag : Bool
  pub timeout : Bool
  pub stopped : Bool
  pub ignore_4xx : Bool
  pub responses : List Response
  pub starts : ℕ
  pub in_flight : ℕ
  pub sent : List Response

-- A call of the response callback with all responses, the timer, the start of a chain, and the result
-- of a response that was sent: whether it has succeeded, and the code of its reply. The first of each
-- is whether the platform still is there.
pub data Event (Response : Type 0) : Type 0 where
  answered : List Response → ℤ → Bool → Event Response
  timed_out : Event Response
  started : Bool → Event Response
  completed : Bool → Bool → ℕ → Event Response

-- The chains that a call starts: one for 0, and none for a negative number.
abbrev pub chains : ℤ → ℕ
chains (pos zero) = 1
chains (pos (suc n)) = suc n
chains (negsuc n) = 0

module _ {Response : Type 0} where
  -- The first of the responses is taken and sent; without any, or without the platform, all stops.
  abbrev pub sent_next : Bool → List Response → Sending Response → Sending Response
  sent_next alive [] s = record s { stopped = true }
  sent_next true (r ∷ rs) s = record s {
    responses = rs;
    in_flight = s.in_flight + 1;
    sent = s.sent ++ (r ∷ []);
  }
  sent_next false (r ∷ rs) s = record s { responses = rs; stopped = true }

  -- do_send_response.
  unfoldable pub do_send_response : Bool → Sending Response → Sending Response
  do_send_response alive s = if s.stopped then s else sent_next alive s.responses s

  -- The response callback: the chains start one after the other.
  unfoldable pub respond : List Response → ℤ → Bool → Sending Response → Sending Response
  respond rs concurrency ignore s = if s.flag then s else record s {
    flag = true;
    timeout = false;
    responses = rs;
    ignore_4xx = ignore;
    starts = chains concurrency;
  }

  abbrev pub on_start : Bool → ℕ → Sending Response → Sending Response
  on_start alive zero s = s
  on_start alive (suc n) s = do_send_response alive (record s { starts = n })

module _ {Response : Type 0} (codes : SipCodes) (timeout_response : Response) where
  -- A response that fails stops all, unless it is refused with a code that is to be ignored.
  abbrev pub goes_on : Bool → ℕ → Sending Response → Bool
  goes_on succeeded code s =
      succeeded || (s.ignore_4xx && codes.is_client_error code && not (code == 408))

  abbrev pub on_result : Bool → Bool → ℕ → ℕ → Sending Response → Sending Response
  on_result alive succeeded code zero s = s
  on_result alive succeeded code (suc n) s =
      if goes_on succeeded code s
      then do_send_response alive (record s { in_flight = n })
      else record s { in_flight = n; stopped = true }

  unfoldable pub step : Event Response → Sending Response → Sending Response
  unfolding do_send_response respond
  step (answered rs concurrency ignore) s = respond rs concurrency ignore s
  step timed_out s =
      if s.timeout
      then respond (timeout_response ∷ []) (pos 1) true (record s { timeout = false })
      else s
  step (started alive) s = on_start alive s.starts s
  step (completed alive succeeded code) s = on_result alive succeeded code s.in_flight s

  unfoldable pub run : List (Event Response) → Sending Response → Sending Response
  unfolding step
  run [] s = s
  run (e ∷ es) s = run es (step e s)

-- process: the code of the reply. Without a listener the timer is cancelled; an exception is logged.
abbrev pub process_code : Bool → Option ℕ → ℕ
process_code false listeners = 400
process_code true none = 200
process_code true (some zero) = 404
process_code true (some (suc n)) = 200
