-- ===== src/Answer/Sent.antt =====
-- The responses of a query that has several: which are sent, and how many are on their way at once.
use libgb.Base.{
  ℕ, zero, suc, ◌+◌, Bool-cases, inl, inr, ◌≡◌, refl, sym, ap, ◌∙◌, Bool, true, false, ◌&&◌, ◌||◌,
  List, [], ◌∷◌, ◌++◌, if◌then◌else◌, ◌==◌, leb, arith, &&-true,
}
use mathlib.Core.Path.{subst}
use mathlib.Core.List.{append_assoc}
use libgb.Sip.{SipCodes}
use libgb.Sdp.Types.{pos}
use libgb.Answer.Many.{
  Sending, Event, answered, timed_out, started, completed, chains, sent_next, do_send_response,
  respond, on_start, on_result, step, run,
}

module _ {Response : Type 0} where
  abbrev pub new_sending : Sending Response
  new_sending = record {
    flag = false;
    timeout = true;
    stopped = false;
    ignore_4xx = false;
    responses = [];
    starts = 0;
    in_flight = 0;
    sent = [];
  }

  -- What was sent, and what waits.
  abbrev pub whole : Sending Response → List Response
  whole s = s.sent ++ s.responses

  -- A chain that is neither to be started nor on its way has stopped, and nothing waits then.
  abbrev pub is_busy : Sending Response → Bool
  is_busy s = s.flag && (leb 1 (s.starts + s.in_flight) || s.stopped)

chains_busy : (n : ℕ) → (leb 1 (chains (pos n) + 0) || false) ≡ true
chains_busy zero = refl
chains_busy (suc n) = ground arith

module _ {Response : Type 0} (codes : SipCodes) (timeout_response : Response) where
  -- A later event that finds the platform there and whose response has not failed.
  abbrev pub is_good : Event Response → Bool
  is_good (answered rs concurrency ignore) = true
  is_good timed_out = true
  is_good (started alive) = alive
  is_good (completed alive succeeded code) = alive && succeeded

  abbrev pub all_good : List (Event Response) → Bool
  all_good [] = true
  all_good (e ∷ es) = is_good e && all_good es

  -- What is kept by good events, from an answer on.
  pub record Kept (given : List Response) (s : Sending Response) : Type 0 where
    pub flag : s.flag ≡ true
    pub timeout : s.timeout ≡ false
    pub all : whole s ≡ given
    pub busy : is_busy s ≡ true
    pub over : s.stopped ≡ true → s.responses ≡ []

  next_Kept :
      (given rs : List Response) (s : Sending Response)
      → s.flag ≡ true
      → s.timeout ≡ false
      → s.stopped ≡ false
      → s.sent ++ rs ≡ given
      → s.responses ≡ rs
      → Kept given (sent_next true rs s)
  next_Kept given [] s flag timeout going all same = record {
    flag = flag;
    timeout = timeout;
    all = ap (λ l. s.sent ++ l) same ∙ all;
    busy = ground arith;
    over = λ h. same;
  }
  next_Kept given (r ∷ rs) s flag timeout going all same = record {
    flag = flag;
    timeout = timeout;
    all = append_assoc s.sent (r ∷ []) rs ∙ all;
    busy = ground arith;
    over = λ h. absurd (ground arith);
  }

  send_Kept :
      (given : List Response) (s : Sending Response)
      → s.flag ≡ true
      → s.timeout ≡ false
      → whole s ≡ given
      → (s.stopped ≡ true → s.responses ≡ [])
      → Kept given (do_send_response true s)
  unfolding do_send_response
  send_Kept given s flag timeout all over = elim (Bool-cases s.stopped) [
    | inl ended ↦ rw ended (record {
      flag = flag;
      timeout = timeout;
      all = all;
      busy = ground arith;
      over = λ h. over ended;
    })
    | inr going ↦
        rw going
          (next_Kept given s.responses (record s { stopped = false }) flag timeout refl all refl)
  ]

  start_Kept :
      (given : List Response) (n : ℕ) (s : Sending Response)
      → s.starts ≡ n
      → Kept given s
      → Kept given (on_start true n s)
  start_Kept given zero s same kept = kept
  start_Kept given (suc n) s same kept =
      send_Kept given (record s { starts = n }) kept.flag kept.timeout kept.all kept.over

  result_Kept :
      (given : List Response) (code n : ℕ) (s : Sending Response)
      → s.in_flight ≡ n
      → Kept given s
      → Kept given (on_result codes timeout_response true true code n s)
  result_Kept given code zero s same kept = kept
  result_Kept given code (suc n) s same kept =
      send_Kept given (record s { in_flight = n }) kept.flag kept.timeout kept.all kept.over

  run-Kept :
      (given : List Response) (es : List (Event Response)) (s : Sending Response)
      → all_good es ≡ true
      → Kept given s
      → Kept given (run codes timeout_response es s)
  unfolding run step respond
  run-Kept given [] s good kept = kept
  run-Kept given (answered rs concurrency ignore ∷ es) s good kept =
      let others : Sending Response = record s {
        flag = true;
        timeout = false;
        responses = rs;
        ignore_4xx = ignore;
        starts = chains concurrency;
      } in
      run-Kept given es (respond rs concurrency ignore s) good
        (subst (Kept given) (sym (ap (λ b. if b then s else others) kept.flag)) kept)
  run-Kept given (timed_out ∷ es) s good kept =
      let others : Sending Response =
        respond (timeout_response ∷ []) (pos 1) true (record s { timeout = false }) in
      run-Kept given es (if s.timeout then others else s) good
        (subst (Kept given) (sym (ap (λ b. if b then others else s) kept.timeout)) kept)
  run-Kept given (started alive ∷ es) s good kept =
      let (here, later) = &&-true alive (all_good es) good in
      rw here
        (run-Kept given es (on_start true s.starts s) later (start_Kept given s.starts s refl kept))
  run-Kept given (completed alive succeeded code ∷ es) s good kept =
      let (both, later) = &&-true (alive && succeeded) (all_good es) good in
      let (here, done) = &&-true alive succeeded both in
      rw (here, done)
        (run-Kept given es (on_result codes timeout_response true true code s.in_flight s) later
          (result_Kept given code s.in_flight s refl kept))

  -- What waits to be sent by a chain: nothing if none is to be started or has a response on its way.
  abbrev pub waiting : Sending Response → List Response
  waiting s = if s.starts + s.in_flight == 0 then [] else s.responses

  Kept-waiting :
      (given : List Response) (s : Sending Response) → Kept given s → s.sent ++ waiting s ≡ given
  Kept-waiting given s kept = elim (Bool-cases (s.starts + s.in_flight == 0)) [
    | inl idle ↦
        let busy = kept.busy in
        let ended : s.stopped ≡ true = ground arith in
        rw idle (ap (λ l. s.sent ++ l) (sym (kept.over ended)) ∙ kept.all)
    | inr busy ↦ rw busy kept.all
  ]

  -- Responses are given to a query that waits for them, with a number of chains that is not negative.
  -- As long as the platform is there and no response fails, what was sent and what still waits for a
  -- chain are the responses, in their order; nothing waits once no chain is to be started and no
  -- response is on its way.
  pub run-respond :
      (rs : List Response) (concurrency : ℕ) (ignore : Bool) (es : List (Event Response))
      → all_good es ≡ true
      → (run codes timeout_response es (respond rs (pos concurrency) ignore new_sending)).sent
          ++ waiting
              (run codes timeout_response es (respond rs (pos concurrency) ignore new_sending))
        ≡ rs
  unfolding respond
  run-respond rs concurrency ignore es good =
      let start : Sending Response = respond rs (pos concurrency) ignore new_sending in
      let begun : is_busy start ≡ true = chains_busy concurrency in
      Kept-waiting rs (run codes timeout_response es start) (
        run-Kept rs es start good (record {
          flag = refl;
          timeout = refl;
          all = refl;
          busy = begun;
          over = λ h. absurd (cc);
        }))
