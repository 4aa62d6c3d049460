-- ===== src/Answer/One.antt =====
-- src/super_platform_impl.cpp: OneResponseQueryHandler and NoResponseQueryHandler.
use libgb.Base.{
  ℕ, zero, suc, Bool, true, false, Option, none, some, List, [], ◌∷◌, ◌++◌, if◌then◌else◌,
}
use libgb.Answer.{Listener, listens, throws}

-- The context of a query: whether it is answered, whether its timer runs, and the responses that are
-- sent to the superior platform.
pub record Context (Response : Type 0) : Type 0 where
  pub flag : Bool
  pub timeout : Bool
  pub sent : List Response

-- A call of the response callback, with whether the platform still is there, and the timer.
pub data Event (Response : Type 0) : Type 0 where
  answered : Bool → Response → Event Response
  timed_out : Bool → Event Response

module _ {Response : Type 0} (timeout_response : Response) where
  -- The response callback.
  unfoldable pub respond : Bool → Response → Context Response → Context Response
  respond alive r c = if c.flag then c else record c {
    flag = true;
    timeout = false;
    sent = if alive then c.sent ++ (r ∷ []) else c.sent;
  }

  -- The timer, which answers in the application's place, once.
  unfoldable pub on_timeout : Bool → Context Response → Context Response
  unfolding respond
  on_timeout alive c =
      if c.timeout then respond alive timeout_response (record c { timeout = false }) else c

  unfoldable pub step : Event Response → Context Response → Context Response
  unfolding respond on_timeout
  step (answered alive r) c = respond alive r c
  step (timed_out alive) c = on_timeout alive c

  unfoldable pub run : List (Event Response) → Context Response → Context Response
  unfolding step
  run [] c = c
  run (e ∷ es) c = run es (step e c)

  -- The calls of a listener.
  unfoldable pub calls : List (Bool × Response) → Context Response → Context Response
  unfolding respond
  calls [] c = c
  calls ((alive, r) ∷ more) c = calls more (respond alive r c)

  -- The event goes to one listener after the other; an exception ends it. The number of listeners that
  -- were called, if none has thrown.
  unfoldable pub emit :
      List (Listener (Bool × Response)) → ℕ → Context Response → Option ℕ × Context Response
  unfolding calls
  emit [] n c = (some n, c)
  emit (listens made ∷ more) n c = emit more (suc n) (calls made c)
  emit (throws made ∷ more) n c = (none, calls made c)

  abbrev pub new_context : Context Response
  new_context = record { flag = false; timeout = true; sent = [] }

  -- Without a listener the timer is cancelled; an exception goes on to the caller.
  abbrev pub emitted : Option ℕ × Context Response → Option ℕ × Context Response
  emitted (none, c) = (none, c)
  emitted (some zero, c) = (some 404, record c { timeout = false })
  emitted (some (suc n), c) = (some 200, c)

  -- process of OneResponseQueryHandler: the code of the reply, or none if a listener throws, and the
  -- context that is left.
  unfoldable pub process : Bool → List (Listener (Bool × Response)) → Option ℕ × Context Response
  unfolding emit
  process loads listeners =
      if loads
      then emitted (emit listeners 0 new_context)
      else (some 400, record new_context { timeout = false })

-- process of NoResponseQueryHandler: the code of the reply to a control that wants no response, from
-- whether it loads and the number of listeners.
unfoldable pub process_no_response : Bool → ℕ → ℕ
process_no_response loads zero = if loads then 404 else 400
process_no_response loads (suc n) = if loads then 200 else 400
