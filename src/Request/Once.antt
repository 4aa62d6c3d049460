-- ===== src/Request/Once.antt =====
-- The result callback and the removal from the platform's map happen at most once.
use libgb.Base.{
  ℕ, ◌+◌, ◌≤◌, ◌≡◌, ◌≢◌, refl, true, false, Option, none, some, List, [], ◌∷◌, subst, of_some, ◌++◌,
  arith, Option-cases, inl, inr,
}
use libgb.Sip.{SipCodes}
use libgb.Request.{Proxy, Action, after}
use libgb.Request.Steps.{
  Sending, no_request, sent, no_payload, not_sent, send, Outcome, answered, thrown, fault, Event,
  reply, message, timer_fires, queue_runs, own_timer_fires, settled, step, then_run, run,
}
use libgb.Request.Accounts.{
  Accounts, Accounts-keep, bit, due, removals, removals-append, results, results-append,
}
use libgb.Request.Responses.{
  Accounts-on_reply, Accounts-own_timer_expired, Accounts-run_queued, Accounts-timer_expired,
  OutcomeAccounts, on_response-Accounts,
}

settled-Accounts :
    (p : Proxy) (o : Outcome) (r : Proxy × List Action)
    → OutcomeAccounts p o
    → settled o ≡ some r
    → Accounts p r
settled-Accounts p (answered n s) r v e = subst (Accounts p) (of_some e) v
settled-Accounts p (thrown s) r v e = subst (Accounts p) (of_some e) v
settled-Accounts p fault r v e = cc

-- One step and then another.
Accounts-join :
    (p q : Proxy) (acts : List Action) (r : Proxy × List Action)
    → Accounts p (q, acts)
    → Accounts q r
    → Accounts p (after acts r)
Accounts-join p q acts r v w = record {
  removes = omega (arith, removals-append acts r.1, v.removes, w.removes);
  reports = omega (arith, results-append acts r.1, v.reports, w.reports);
  with_removal =
      omega
        (arith, results-append acts r.1, removals-append acts r.1, v.with_removal, w.with_removal);
}

pub then_run_inv :
    (k : Proxy → Option (Proxy × List Action)) (o : Option (Proxy × List Action))
    (r : Proxy × List Action)
    → then_run k o ≡ some r
    → (q : Proxy) × (first : List Action) × (end : Proxy) × (acts : List Action) × (o
        ≡ some (q, first))
      × (k q ≡ some (end, acts))
      × ((end, first ++ acts) ≡ r)
then_run_inv k none r h = cc
then_run_inv k (some (q, first)) r h = elim (Option-cases (k q)) [
  | inl e ↦ absurd (ground arith)
  | inr ((end, acts), e) ↦ (q, first, end, acts, refl, e, ground arith)
]

step-Accounts :
    (sip : SipCodes) (e : Event) (p : Proxy) (r : Proxy × List Action)
    → step sip e p ≡ some r
    → Accounts p r
unfolding step
step-Accounts sip (reply now m c) p r h =
    subst (Accounts p) (of_some h) (Accounts-on_reply sip now m c p)
step-Accounts sip (message now resp ans) p r h =
    settled-Accounts p _ r (on_response-Accounts now resp ans p) h
step-Accounts sip timer_fires p r h = subst (Accounts p) (of_some h) (Accounts-timer_expired p)
step-Accounts sip queue_runs p r h = subst (Accounts p) (of_some h) (Accounts-run_queued p)
step-Accounts sip (own_timer_fires now) p r h =
    subst (Accounts p) (of_some h) (Accounts-own_timer_expired now p)

run-Accounts :
    (sip : SipCodes) (es : List Event) (p : Proxy) (r : Proxy × List Action)
    → run sip es p ≡ some r
    → Accounts p r
unfolding run results removals
run-Accounts sip [] p r h =
    subst (Accounts p) (of_some h) (Accounts-keep p p [] refl refl refl refl)
run-Accounts sip (e ∷ es) p r h =
    let (q, first, rest, acts, here, there, whole) = then_run_inv (run sip es) (step sip e p) r h in
    subst (Accounts p) whole (
      Accounts-join p q first (rest, acts) (step-Accounts sip e p (q, first) here)
        (run-Accounts sip es q (rest, acts) there))

due_bound : (p : Proxy) → due p + bit p.result_flag ≤ 1
due_bound p = ground arith

send-Accounts :
    (now : ℕ) (s : Sending) (p : Proxy)
    → s ≢ no_request
    → p.result_flag ≡ false
    → (results (send now s p).1 + due (send now s p).0 ≡ 1)
      × (removals (send now s p).1 ≡ bit (send now s p).0.result_flag)
      × (results (send now s p).1 ≡ bit (send now s p).0.result_flag)
unfolding send results removals
send-Accounts now no_request p sends fresh = absurd (sends refl)
send-Accounts now (no_payload e) p sends fresh = ground arith
send-Accounts now (not_sent e) p sends fresh = ground arith
send-Accounts now sent p sends fresh = ground arith

-- However the sending of a request ends, if there is a message to send, and whatever comes after it
-- that meets no fault: the result callback has been called exactly once if the request has
-- completed and not at all if it has not, and the same holds of the removal from the map.
pub run-send_once :
    (sip : SipCodes) (now : ℕ) (s : Sending) (es : List Event) (p q : Proxy) (acts : List Action)
    → s ≢ no_request
    → p.result_flag ≡ false
    → run sip es (send now s p).0 ≡ some (q, acts)
    → (results ((send now s p).1 ++ acts) ≡ bit q.result_flag)
      × (removals ((send now s p).1 ++ acts) ≡ bit q.result_flag)
run-send_once sip now s es p q acts sends fresh h =
    let v = run-Accounts sip es (send now s p).0 (q, acts) h in
    let w = send-Accounts now s p sends fresh in
    let joined = results-append (send now s p).1 acts in
    let joined' = removals-append (send now s p).1 acts in
    (
      omega (arith, joined, w.0, w.2, v.reports, v.removes, v.with_removal, due_bound q),
      omega (arith, joined', w.1, v.removes),
    )

-- A request without a message completes at once, and its result callback is never called.
send-no_request :
    (now : ℕ) (p : Proxy)
    → p.result_flag ≡ false
    → p.has_rcb ≡ false
    → ((send now no_request p).0.result_flag ≡ true)
      × (results (send now no_request p).1 ≡ 0)
      × (removals (send now no_request p).1 ≡ 1)
unfolding send results removals
send-no_request now p fresh none_set = ground arith
