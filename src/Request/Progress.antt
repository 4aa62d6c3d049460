-- ===== src/Request/Progress.antt =====
-- A request never waits for nothing: once it has its reply, a timer or a queued call completes it.
use libgb.Base.{
  ℕ, ◌+◌, ◌<◌, ◌≡◌, ◌≢◌, ◌⊎◌, refl, sym, subst, bit_or, Bool, true, ◌&&◌, not, some, List, [], ◌∷◌,
  arith, of_some, if_elim, ◌==◌,
}
use libgb.Sip.{SipCodes}
use libgb.Request.{
  Kind, plain, list, config, RequestType, one_response, no_response, multiple_responses, Proxy,
  Action, replied, on_completed, on_completed_l, Status, Error, Response,
}
use libgb.Request.Steps.{
  on_reply, Answer, Outcome, answered, thrown, fault, plain_response, list_response,
  config_response, loaded_by, on_loaded, on_response, timer_expired, own_timer_expired, run_queued,
  Event, reply, message, timer_fires, queue_runs, own_timer_fires, settled, step, run, returned,
  threw, stored, call_response, response_answer, complete_if, finish_if, list_answered,
  config_answered, config_refused, is_list_message, is_config_message, is_response_command, i32_add,
  i32_le,
}
use libgb.Request.Once.{then_run_inv}

-- The types of request for which each class is made.
abbrev pub Fits : Kind → RequestType → Type 0
Fits plain t = (t ≡ one_response) ⊎ (t ≡ no_response)
Fits list t = t ≡ multiple_responses
Fits config t = t ≡ multiple_responses

-- What completes a request that has its reply and waits.
abbrev pub Held : Kind → Proxy → Type 0
Held plain p =
    (0 < p.queued) ⊎ ((p.timer ≡ true) × (p.status ≡ replied) × (p.request_type ≡ one_response))
Held list p = p.own_timer ≡ true
Held config p = p.own_timer ≡ true

pub record Attended (k : Kind) (p : Proxy) : Type 0 where
  pub class : p.kind ≡ k
  pub fits : Fits k p.request_type
  pub held : (p.result_flag ≡ true) ⊎ (p.reply_code ≡ 0) ⊎ Held k p

-- The response callback returns.
abbrev pub Calm : Event → Type 0
Calm (message now resp ans) = ans ≢ threw
Calm _ = Unit {0}

abbrev pub AllCalm : List Event → Type 0
AllCalm [] = Unit {0}
AllCalm (e ∷ es) = Calm e × AllCalm es

on_completed-Attended :
    (k : Kind) (p : Proxy) → p.kind ≡ k → Fits k p.request_type → Attended k (on_completed p).0
unfolding on_completed on_completed_l
on_completed-Attended k p e f = record {
  class = ground arith;
  fits = ground arith;
  held = ground arith;
}

on_reply-Attended :
    (k : Kind) (sip : SipCodes) (now : ℕ) (m : Bool) (code : ℕ) (p : Proxy)
    → Attended k p
    → Attended k (on_reply sip now m code p).0
unfolding on_reply
on_reply-Attended plain sip now m code p v = ground arith
on_reply-Attended list sip now m code p v = ground arith
on_reply-Attended config sip now m code p v = ground arith

timer_expired-Attended : (k : Kind) (p : Proxy) → Attended k p → Attended k (timer_expired p).0
unfolding timer_expired
timer_expired-Attended plain p v = ground arith
timer_expired-Attended list p v = ground arith
timer_expired-Attended config p v = ground arith

own_timer_expired-Attended :
    (k : Kind) (now : ℕ) (p : Proxy) → Attended k p → Attended k (own_timer_expired now p).0
unfolding own_timer_expired
own_timer_expired-Attended plain now p v = ground arith
own_timer_expired-Attended list now p v = ground arith
own_timer_expired-Attended config now p v = ground arith

run_queued-Attended : (k : Kind) (p : Proxy) → Attended k p → Attended k (run_queued p).0
unfolding run_queued
run_queued-Attended plain p v = ground arith
run_queued-Attended list p v = ground arith
run_queued-Attended config p v = ground arith

abbrev OutcomeAttended : Kind → Outcome → Type 0
OutcomeAttended k (answered n r) = Attended k r.0
OutcomeAttended k (thrown r) = Attended k r.0
OutcomeAttended k fault = Unit {0}

-- A loaded response has put the base timer out, so only the class's own means are left.
abbrev HeldAfter : Kind → Proxy → Type 0
HeldAfter plain p = (0 < p.queued) ⊎ (p.request_type ≡ one_response)
HeldAfter list p = p.own_timer ≡ true
HeldAfter config p = p.own_timer ≡ true

record Stored (k : Kind) (p : Proxy) : Type 0 where
  class : p.kind ≡ k
  fits : Fits k p.request_type
  held : (p.result_flag ≡ true) ⊎ (p.reply_code ≡ 0) ⊎ HeldAfter k p

stored-Stored :
    (k : Kind) (now : ℕ) (resp : Response) (p : Proxy) → Attended k p → Stored k (stored now resp p)
stored-Stored plain now resp p v = ground arith
stored-Stored list now resp p v = record { class = v.class; fits = v.fits; held = v.held }
stored-Stored config now resp p v = record { class = v.class; fits = v.fits; held = v.held }

plain_response-Attended :
    (now : ℕ) (resp : Response) (n : ℕ) (p : Proxy)
    → Stored plain p
    → OutcomeAttended plain (plain_response now resp (returned n) p)
unfolding plain_response
plain_response-Attended now resp n p v = ground arith

complete_if-Attended :
    (k : Kind) (completed : Bool) (now : ℕ) (p : Proxy)
    → Stored k p
    → k ≢ plain
    → Attended k (complete_if completed (finish_if completed now p)).0
unfolding complete_if
complete_if-Attended plain completed now p v e = absurd (e refl)
complete_if-Attended list completed now p v e = ground arith
complete_if-Attended config completed now p v e = ground arith

list_answered-Attended :
    (completed : Bool) (acts : List Action) (ans : Answer) (now : ℕ) (p : Proxy)
    → ans ≢ threw
    → Stored list p
    → OutcomeAttended list (list_answered completed acts ans (finish_if completed now p))
unfolding list_answered
list_answered-Attended completed acts threw now p e v = absurd (e refl)
list_answered-Attended completed acts (returned n) now p e v =
    complete_if-Attended list completed now p v (λ c. cc)

config_answered-Attended :
    (is_end : Bool) (acts : List Action) (ans : Answer) (now : ℕ) (p : Proxy)
    → ans ≢ threw
    → Stored config p
    → OutcomeAttended config (config_answered is_end acts ans (finish_if is_end now p))
unfolding config_answered
config_answered-Attended is_end acts threw now p e v = absurd (e refl)
config_answered-Attended is_end acts (returned n) now p e v =
    complete_if-Attended config is_end now p v (λ c. cc)

response_answer-calm : (ans : Answer) (p : Proxy) → ans ≢ threw → response_answer ans p ≢ threw
response_answer-calm ans p e h = ground arith

list_response-Attended :
    (now : ℕ) (resp : Response) (ans : Answer) (p : Proxy)
    → ans ≢ threw
    → Stored list p
    → OutcomeAttended list (list_response now resp ans p)
unfolding list_response
list_response-Attended now resp ans p e v =
    let total = i32_add p.recv_num resp.num in
    let completed = i32_le resp.sum_num total in
    let start = record p { ticker_start = now; recv_num = total; sum_num = resp.sum_num } in
    let q = finish_if completed now start in
    if_elim (OutcomeAttended list) (is_list_message resp.command) _ fault
      (list_answered-Attended completed (call_response resp completed q) (response_answer ans q) now
        start (response_answer-calm ans q e)
        (record { class = v.class; fits = v.fits; held = v.held }))
      tt

config_response-Attended :
    (now : ℕ) (resp : Response) (ans : Answer) (p : Proxy)
    → ans ≢ threw
    → Stored config p
    → OutcomeAttended config (config_response now resp ans p)
unfolding config_response
config_response-Attended now resp ans p e v =
    let received = bit_or p.recv_config_type resp.config_type in
    let is_end = received == p.request_config_type in
    let start = record p { recv_config_type = received } in
    let q = finish_if is_end now start in
    let class : (config_refused now q).kind ≡ config = ground arith in
    let fits : (config_refused now q).request_type ≡ multiple_responses = ground arith in
    if_elim (OutcomeAttended config) (not (is_config_message resp.command)) fault _ tt (
      if_elim (OutcomeAttended config) (resp.config_type == 0 && not resp.result_ok) _ _
        (on_completed-Attended config (config_refused now q) class fits)
        (config_answered-Attended is_end (call_response resp is_end q) (response_answer ans q) now
          start (response_answer-calm ans q e)
          (record { class = v.class; fits = v.fits; held = v.held })))

loaded_by-Attended :
    (k : Kind) (now : ℕ) (resp : Response) (ans : Answer) (p : Proxy)
    → ans ≢ threw
    → Stored k p
    → OutcomeAttended k (loaded_by k now resp ans p)
unfolding loaded_by
loaded_by-Attended plain now resp threw p e v = absurd (e refl)
loaded_by-Attended plain now resp (returned n) p e v = plain_response-Attended now resp n p v
loaded_by-Attended list now resp ans p e v = list_response-Attended now resp ans p e v
loaded_by-Attended config now resp ans p e v = config_response-Attended now resp ans p e v

unloaded-Attended :
    (k : Kind) (now : ℕ) (resp : Response) (p : Proxy)
    → Attended k p
    → Attended k (record (stored now resp p) {
      status = Status.failed;
      error = Error.load_failed;
      queued = (stored now resp p).queued + 1;
    })
unloaded-Attended plain now resp p v = ground arith
unloaded-Attended list now resp p v = record { class = v.class; fits = v.fits; held = v.held }
unloaded-Attended config now resp p v = record { class = v.class; fits = v.fits; held = v.held }

on_response-Attended :
    (k : Kind) (now : ℕ) (resp : Response) (ans : Answer) (p : Proxy)
    → ans ≢ threw
    → Attended k p
    → OutcomeAttended k (on_response now resp ans p)
unfolding on_response on_loaded
on_response-Attended k now resp ans p e v =
    if_elim (OutcomeAttended k) (not (is_response_command resp.command)) _ _ v (
      if_elim (OutcomeAttended k) resp.loads _ _
        (subst (λ c. OutcomeAttended k (loaded_by c now resp ans (stored now resp p))) (sym v.class)
          (loaded_by-Attended k now resp ans (stored now resp p) e (stored-Stored k now resp p v)))
        (unloaded-Attended k now resp p v))

settled-Attended :
    (k : Kind) (o : Outcome) (r : Proxy × List Action)
    → OutcomeAttended k o
    → settled o ≡ some r
    → Attended k r.0
settled-Attended k (answered n s) r v e = subst (λ x. Attended k x.0) (of_some e) v
settled-Attended k (thrown s) r v e = subst (λ x. Attended k x.0) (of_some e) v
settled-Attended k fault r v e = cc

step-Attended :
    (k : Kind) (sip : SipCodes) (e : Event) (p : Proxy) (r : Proxy × List Action)
    → Calm e
    → Attended k p
    → step sip e p ≡ some r
    → Attended k r.0
unfolding step
step-Attended k sip (reply now m c) p r calm v h =
    subst (λ x. Attended k x.0) (of_some h) (on_reply-Attended k sip now m c p v)
step-Attended k sip (message now resp ans) p r calm v h =
    settled-Attended k _ r (on_response-Attended k now resp ans p calm v) h
step-Attended k sip timer_fires p r calm v h =
    subst (λ x. Attended k x.0) (of_some h) (timer_expired-Attended k p v)
step-Attended k sip queue_runs p r calm v h =
    subst (λ x. Attended k x.0) (of_some h) (run_queued-Attended k p v)
step-Attended k sip (own_timer_fires now) p r calm v h =
    subst (λ x. Attended k x.0) (of_some h) (own_timer_expired-Attended k now p v)

pub run-Attended :
    (k : Kind) (sip : SipCodes) (es : List Event) (p : Proxy) (r : Proxy × List Action)
    → AllCalm es
    → Attended k p
    → run sip es p ≡ some r
    → Attended k r.0
unfolding run
run-Attended k sip [] p r calm v h = subst (λ x. Attended k x.0) (of_some h) v
run-Attended k sip (e ∷ es) p r calm v h =
    let (q, first, last, acts, here, there, whole) = then_run_inv (run sip es) (step sip e p) r h in
    subst (λ x. Attended k x.0) whole
      (run-Attended k sip es q (last, acts) calm.1
        (step-Attended k sip e p (q, first) calm.0 v here) there)
