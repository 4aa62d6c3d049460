-- ===== src/Subscribe/Never.antt =====
-- What a subscription never sends, and what it sends after its end.
use libgb.Base.{
  ℕ, ◌+◌, ◌<◌, ◌-◌, ◌≡◌, refl, subst, Bool, true, false, ◌&&◌, Option, none, some, List, [], ◌∷◌,
  ◌++◌, arith, ltb, ◌==◌, if◌then◌else◌, of_some,
}
use libgb.Sip.{SipCodes}
use libgb.Subscribe.{
  SubscriberStatus, terminated, TerminatedType, rejected, Reason, Task, resubscribe, check_expiry,
  with_task, Action, sent_subscribe, replied, SubscribeRequest, Attempt, made, no_agent,
  no_transaction, set_status, Effect, to_subscribe, then_do, del_subscribe, NotifyState,
  says_active, says_pending, says_terminated, says_nothing,
}
use libgb.Subscribe.Steps.{
  on_subscribe_reply, on_task, on_dropped_task, task_at, run_task, start, shutdown,
  on_platform_status, on_sent, on_refused,
}
use libgb.Subscribe.Receive.{
  Event, step, run, continue_with, on_recv_notify, take_state, on_subscribe, run_queued, Payload,
  started, platform_status_on, platform_status_off, task_due, queue_runs, dropped_task_due,
  platform_gone, closed, sent, reply, notify, refreshed, ended_by, payload_code,
}

abbrev pub is_lasting : Action → Bool
is_lasting (sent_subscribe expires fresh) = ltb 0 expires
is_lasting _ = true

-- Every SUBSCRIBE among the actions asks for a time that is not 0.
unfoldable pub all_lasting : List Action → Bool
all_lasting [] = true
all_lasting (a ∷ xs) = is_lasting a && all_lasting xs

-- The subscription asks for a time, and so do its requests.
abbrev Lasting : Effect → Type 0
Lasting (s, acts) = (0 < s.info_expires) × (all_lasting acts ≡ true)

lasting-append :
    (xs bs : List Action)
    → all_lasting xs ≡ true
    → all_lasting bs ≡ true
    → all_lasting (xs ++ bs) ≡ true
unfolding all_lasting
lasting-append [] bs h k = k
lasting-append (a ∷ xs) bs h k =
    let rest : all_lasting xs ≡ true → all_lasting (xs ++ bs) ≡ true =
      λ r. lasting-append xs bs r k in
    ground arith

then_do-Lasting :
    (r : Effect) (g : SubscribeRequest → Effect)
    → Lasting r
    → Lasting (g r.0)
    → Lasting (then_do r g)
then_do-Lasting (s, acts) g (a, b) (c, d) = (c, lasting-append acts (g s).1 b d)

set_status-Lasting :
    (now : ℕ) (status : SubscriberStatus) (type : TerminatedType) (e : Reason)
    (s : SubscribeRequest)
    → 0 < s.info_expires
    → Lasting (set_status now status type e s)
unfolding set_status all_lasting
set_status-Lasting now status type e s h = (h, refl)

to_subscribe-Lasting :
    (now : ℕ) (attempt : Attempt) (s : SubscribeRequest)
    → 0 < s.info_expires
    → Lasting (to_subscribe now attempt s.info_expires s)
unfolding to_subscribe set_status del_subscribe all_lasting
to_subscribe-Lasting now no_agent s h = ground arith
to_subscribe-Lasting now no_transaction s h = ground arith
to_subscribe-Lasting now made s h = ground arith

on_subscribe_reply-Lasting :
    (codes : SipCodes) (now : ℕ) (attempt : Attempt) (code : ℕ) (s : SubscribeRequest)
    → 0 < s.info_expires
    → Lasting (on_subscribe_reply codes now attempt code s)
unfolding on_subscribe_reply set_status all_lasting
on_subscribe_reply-Lasting codes now attempt code s h =
    let t = (on_refused codes now attempt code s) in
    let u : SubscribeRequest = record (with_task none s) {
      terminated_time = if s.subscribe_time == 0 then s.terminated_time else now;
      subscription = none;
    } in
    let again =
      to_subscribe-Lasting now attempt
        (set_status now terminated rejected (Reason.peer_returned code) u).0 h in
    ground arith

on_task-Lasting :
    (now : ℕ) (attempt : Attempt) (s : SubscribeRequest)
    → 0 < s.info_expires
    → Lasting (on_task now attempt s)
unfolding on_task shutdown del_subscribe all_lasting
on_task-Lasting now attempt s h =
    let again = to_subscribe-Lasting now attempt (record s { delay_task = none }) h in ground arith

run_task-Lasting :
    (now : ℕ) (attempt : Attempt) (task : Task) (s : SubscribeRequest)
    → 0 < s.info_expires
    → Lasting (run_task now attempt task s)
unfolding shutdown del_subscribe all_lasting
run_task-Lasting now attempt (resubscribe ms) s h = to_subscribe-Lasting now attempt s h
run_task-Lasting now attempt (check_expiry ms) s h = ground arith

taken-Lasting :
    (now : ℕ) (attempt : Attempt) (taken : Option (Task × List Task)) (s : SubscribeRequest)
    → 0 < s.info_expires
    → Lasting (elim taken [
      | none ↦ (s, [])
      | some (task, others) ↦ run_task now attempt task (record s { dropped_tasks = others })
    ])
unfolding all_lasting
taken-Lasting now attempt none s h = (h, refl)
taken-Lasting now attempt (some (task, others)) s h =
    run_task-Lasting now attempt task (record s { dropped_tasks = others }) h

on_dropped_task-Lasting :
    (now : ℕ) (attempt : Attempt) (n : ℕ) (s : SubscribeRequest)
    → 0 < s.info_expires
    → Lasting (on_dropped_task now attempt n s)
unfolding on_dropped_task shutdown del_subscribe all_lasting
on_dropped_task-Lasting now attempt n s h =
    taken-Lasting now attempt (task_at n s.dropped_tasks) s h

on_platform_status-Lasting :
    (now : ℕ) (attempt : Attempt) (online : Bool) (s : SubscribeRequest)
    → 0 < s.info_expires
    → Lasting (on_platform_status now attempt online s)
unfolding on_platform_status set_status all_lasting
on_platform_status-Lasting now attempt online s h =
    let again = to_subscribe-Lasting now attempt (record s { platform = some online }) h in
    ground arith

start-Lasting :
    (now : ℕ) (attempt : Attempt) (s : SubscribeRequest) (r : Effect)
    → 0 < s.info_expires
    → start now attempt s ≡ some r
    → Lasting r
unfolding start del_subscribe all_lasting
start-Lasting now attempt s r h e =
    let again =
      to_subscribe-Lasting now attempt (record s { running = true; registered = true }) h in
    ground arith

run_queued-Lasting :
    (now : ℕ) (attempt : Attempt) (s : SubscribeRequest)
    → 0 < s.info_expires
    → Lasting (run_queued now attempt s)
unfolding run_queued all_lasting
run_queued-Lasting now attempt s h =
    let again = to_subscribe-Lasting now attempt (record s { queued = s.queued - 1 }) h in
    ground arith

ended_by-Lasting :
    (now : ℕ) (type : TerminatedType) (s : SubscribeRequest)
    → 0 < s.info_expires
    → Lasting (ended_by now type s)
unfolding set_status all_lasting
ended_by-Lasting now type s h = ground arith

on_recv_notify-Lasting :
    (now : ℕ) (state : NotifyState) (payload : Payload) (s : SubscribeRequest) (r : Effect)
    → 0 < s.info_expires
    → on_recv_notify now state payload s ≡ some r
    → Lasting r
unfolding on_recv_notify take_state set_status all_lasting
on_recv_notify-Lasting now says_nothing payload s r h e = ground arith
on_recv_notify-Lasting now (says_active announced) payload s r h e = ground arith
on_recv_notify-Lasting now says_pending payload s r h e = ground arith
on_recv_notify-Lasting now (says_terminated type) payload s r h e =
    let t : SubscribeRequest = with_task none s in
    let ended = ended_by-Lasting now type t h in
    let queued =
      then_do-Lasting (ended_by now type t) (λ u. (record u { queued = u.queued + 1 }, [])) ended
        (ended.0, refl) in
    subst Lasting (of_some e) (
      then_do-Lasting
        (then_do (ended_by now type t) (λ u. (record u { queued = u.queued + 1 }, [])))
        (λ u. (u, replied (payload_code payload) ∷ [])) queued (ended.0, refl))

step-Lasting :
    (codes : SipCodes) (now : ℕ) (e : Event) (s : SubscribeRequest) (r : Effect)
    → 0 < s.info_expires
    → step codes now e s ≡ some r
    → Lasting r
unfolding step shutdown del_subscribe on_sent on_subscribe set_status all_lasting
step-Lasting codes now (started attempt) s r h e = start-Lasting now attempt s r h e
step-Lasting codes now (platform_status_on attempt) s r h e =
    subst Lasting (of_some e) (on_platform_status-Lasting now attempt true s h)
step-Lasting codes now (platform_status_off attempt) s r h e =
    subst Lasting (of_some e) (on_platform_status-Lasting now attempt false s h)
step-Lasting codes now (task_due attempt) s r h e =
    subst Lasting (of_some e) (on_task-Lasting now attempt s h)
step-Lasting codes now (queue_runs attempt) s r h e =
    subst Lasting (of_some e) (run_queued-Lasting now attempt s h)
step-Lasting codes now platform_gone s r h e = ground arith
step-Lasting codes now (dropped_task_due attempt n) s r h e =
    subst Lasting (of_some e) (on_dropped_task-Lasting now attempt n s h)
step-Lasting codes now closed s r h e = ground arith
step-Lasting codes now (sent ok err) s r h e = ground arith
step-Lasting codes now (reply attempt code) s r h e =
    subst Lasting (of_some e) (on_subscribe_reply-Lasting codes now attempt code s h)
step-Lasting codes now (notify state payload) s r h e =
    let told = on_recv_notify-Lasting now state payload s r h in ground arith
step-Lasting codes now (refreshed expires) s r h e = ground arith

appended :
    (s : SubscribeRequest) (xs : List Action) (next : Option Effect) (r : Effect)
    → Lasting (s, xs)
    → ((q : Effect) → next ≡ some q → Lasting q)
    → elim next [ none ↦ none | some (t, bs) ↦ some (t, xs ++ bs) ] ≡ some r
    → Lasting r
appended s xs none r h k e = absurd (cc)
appended s xs (some (t, bs)) r (a, b) k e =
    let (c, d) = k (t, bs) refl in subst Lasting (of_some e) (c, lasting-append xs bs b d)

continue_with-Lasting :
    (codes : SipCodes) (first : Option Effect) (g : SubscribeRequest → Option Effect) (r : Effect)
    → ((q : Effect) → first ≡ some q → Lasting q)
    → ((s : SubscribeRequest) (q : Effect) → 0 < s.info_expires → g s ≡ some q → Lasting q)
    → continue_with codes first g ≡ some r
    → Lasting r
continue_with-Lasting codes none g r h k e = absurd (cc)
continue_with-Lasting codes (some (s, xs)) g r h k e =
    appended s xs (g s) r (h (s, xs) refl) (λ q p. k s q (h (s, xs) refl).0 p) e

run-Lasting :
    (codes : SipCodes) (es : List (ℕ × Event)) (s : SubscribeRequest) (r : Effect)
    → 0 < s.info_expires
    → run codes es s ≡ some r
    → Lasting r
unfolding run all_lasting
run-Lasting codes [] s r h e = subst Lasting (of_some e) (h, refl)
run-Lasting codes ((now, ev) ∷ es) s r h e =
    continue_with-Lasting codes (step codes now ev s) (run codes es) r
      (λ q p. step-Lasting codes now ev s q h p) (λ u q k p. run-Lasting codes es u q k p) e

-- Whatever happens to a subscription that asks for a time that is not 0, shutdown included: it never
-- sends a SUBSCRIBE for the time 0, which would end the subscription at the peer.
pub run-all_lasting :
    (codes : SipCodes) (es : List (ℕ × Event)) (s t : SubscribeRequest) (acts : List Action)
    → 0 < s.info_expires
    → run codes es s ≡ some (t, acts)
    → all_lasting acts ≡ true
run-all_lasting codes es s t acts h e = (run-Lasting codes es s (t, acts) h e).1

-- After the shutdown of a subscription that runs, has asked for its platform's status, and has a
-- subscription at the peer and a renewal set: the renewal falls due and sends SUBSCRIBE for the
-- full time, the platform comes online and makes it send another, and a reply is ignored.
pub shutdown_resubscribes :
    (codes : SipCodes) (now later code ms held : ℕ) (s : SubscribeRequest) (online : Bool)
    → s.running ≡ true
    → s.watching ≡ true
    → s.platform ≡ some online
    → s.subscription ≡ some held
    → s.delay_task ≡ some (resubscribe ms)
    → (t : SubscribeRequest) × (run codes
          ((now, closed)
            ∷ (later, task_due made)
            ∷ (later, platform_status_on made)
            ∷ (later, reply made code)
            ∷ [])
          s
        ≡ some (t, sent_subscribe s.info_expires false ∷ sent_subscribe s.info_expires false ∷ []))
      × (t.registered ≡ false)
unfolding run step shutdown del_subscribe on_task on_platform_status to_subscribe on_subscribe_reply
shutdown_resubscribes codes now later code ms held s online runs watches lives holds task = (
  record s {
    running = false;
    registered = false;
    platform = some true;
    delay_task = none;
    expires = s.info_expires;
  },
  ground arith,
  refl,
)
