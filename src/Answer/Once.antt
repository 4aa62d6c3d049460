-- ===== src/Answer/Once.antt =====
-- A query is answered once.
use libgb.Base.{
  ℕ, zero, suc, ◌≡◌, refl, Bool, true, false, not, ◌&&◌, Option, none, some, List, [], ◌∷◌,
  if◌then◌else◌, ◌==◌, length, length-append, arith, &&-true,
}
use libgb.Answer.{Listener, listens, throws}
use libgb.Answer.One.{
  Context, Event, answered, timed_out, respond, on_timeout, step, run, calls, emit, emitted,
  process, new_context,
}

module _ {Response : Type 0} (timeout_response : Response) where
  -- Every call finds the platform there.
  abbrev pub is_alive : Event Response → Bool
  is_alive (answered alive r) = alive
  is_alive (timed_out alive) = alive

  abbrev pub all_alive : List (Event Response) → Bool
  all_alive [] = true
  all_alive (e ∷ es) = is_alive e && all_alive es

  abbrev pub calls_alive : List (Bool × Response) → Bool
  calls_alive [] = true
  calls_alive ((alive, r) ∷ more) = alive && calls_alive more

  abbrev pub listeners_alive : List (Listener (Bool × Response)) → Bool
  listeners_alive [] = true
  listeners_alive (listens made ∷ more) = calls_alive made && listeners_alive more
  listeners_alive (throws made ∷ more) = calls_alive made && listeners_alive more

  -- One response is sent if the query is answered, and it is answered exactly if its timer does not run.
  abbrev pub is_once : Context Response → Bool
  is_once c =
      if c.flag then length c.sent == 1 && not c.timeout else length c.sent == 0 && c.timeout

  respond_once :
      (alive : Bool) (r : Response) (c : Context Response)
      → alive ≡ true
      → is_once c ≡ true
      → is_once (respond timeout_response alive r c) ≡ true
  unfolding respond
  respond_once alive r c there once = let more = length-append c.sent (r ∷ []) in ground arith

  timeout_once :
      (alive : Bool) (c : Context Response)
      → alive ≡ true
      → is_once c ≡ true
      → is_once (on_timeout timeout_response alive c) ≡ true
  unfolding on_timeout respond
  timeout_once alive c there once =
      let more = length-append c.sent (timeout_response ∷ []) in ground arith

  run_once :
      (es : List (Event Response)) (c : Context Response)
      → all_alive es ≡ true
      → is_once c ≡ true
      → is_once (run timeout_response es c) ≡ true
  unfolding run step
  run_once [] c there once = once
  run_once (answered alive r ∷ es) c there once =
      let (here, later) = &&-true alive (all_alive es) there in
      run_once es (respond timeout_response alive r c) later (respond_once alive r c here once)
  run_once (timed_out alive ∷ es) c there once =
      let (here, later) = &&-true alive (all_alive es) there in
      run_once es (on_timeout timeout_response alive c) later (timeout_once alive c here once)

  calls_once :
      (made : List (Bool × Response)) (c : Context Response)
      → calls_alive made ≡ true
      → is_once c ≡ true
      → is_once (calls timeout_response made c) ≡ true
  unfolding calls
  calls_once [] c there once = once
  calls_once ((alive, r) ∷ more) c there once =
      let (here, later) = &&-true alive (calls_alive more) there in
      calls_once more (respond timeout_response alive r c) later (respond_once alive r c here once)

  emit_once :
      (ls : List (Listener (Bool × Response))) (n : ℕ) (c : Context Response)
      → listeners_alive ls ≡ true
      → is_once c ≡ true
      → is_once (emit timeout_response ls n c).1 ≡ true
  unfolding emit
  emit_once [] n c there once = once
  emit_once (listens made ∷ more) n c there once =
      let (here, later) = &&-true (calls_alive made) (listeners_alive more) there in
      emit_once more (suc n) (calls timeout_response made c) later (calls_once made c here once)
  emit_once (throws made ∷ more) n c there once =
      let (here, later) = &&-true (calls_alive made) (listeners_alive more) there in
      calls_once made c here once

  emitted_once :
      (o : Option ℕ) (c : Context Response)
      → is_once c ≡ true
      → (emitted timeout_response (o, c)).0 ≡ some 200
      → is_once (emitted timeout_response (o, c)).1 ≡ true
  emitted_once none c once code = once
  emitted_once (some zero) c once code = absurd (ground arith)
  emitted_once (some (suc n)) c once code = once

  -- A query that is replied to with 200, of a platform that is there whenever it is answered: whatever
  -- its listeners do while the event is emitted and whatever follows, one response has been sent if
  -- the query's timer does not run any more, and none while it runs.
  pub run-process :
      (loads : Bool) (ls : List (Listener (Bool × Response))) (es : List (Event Response))
      → (process timeout_response loads ls).0 ≡ some 200
      → listeners_alive ls ≡ true
      → all_alive es ≡ true
      → length (run timeout_response es (process timeout_response loads ls).1).sent
        ≡ (if (run timeout_response es (process timeout_response loads ls).1).timeout then 0 else 1)
  unfolding process
  run-process false ls es code there alive = absurd (ground arith)
  run-process true ls es code there alive =
      let (o, c) = emit timeout_response ls 0 (new_context timeout_response) in
      let start = emit_once ls 0 (new_context timeout_response) there refl in
      let once =
        run_once es (emitted timeout_response (o, c)).1 alive (emitted_once o c start code) in
      ground arith
