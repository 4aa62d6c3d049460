-- ===== src/Request/Responses.antt =====
-- The replies, the responses and the timers of a request keep its account.
use libgb.Base.{
  ℕ, ◌≡◌, refl, ◌∙◌, ap, Bool, false, ◌&&◌, not, List, [], bit_or, ◌==◌, arith, if_elim,
}
use libgb.Sip.{SipCodes}
use libgb.Request.{Kind, plain, list, config, Proxy, Action, Response}
use libgb.Request.Steps.{
  on_reply_l, reply_status, on_reply, Answer, Outcome, answered, thrown, fault, plain_response,
  list_response, config_response, loaded_by, on_loaded, loaded_by, on_response, timer_expired,
  own_timer_expired, run_queued, is_response_command, call_response, response_answer, after_reply,
  complete_if, finish_if, list_answered, config_answered, config_refused, is_list_message,
  is_config_message, i32_add, i32_le, returned, threw, stored, call_reply,
}
use libgb.Request.Accounts.{
  Accounts, Accounts-after, Accounts-keep, Accounts-on_completed, bit, removals, results,
}

-- The same for the outcome of a response.
abbrev pub OutcomeAccounts : Proxy → Outcome → Type 0
OutcomeAccounts p (answered n r) = Accounts p r
OutcomeAccounts p (thrown r) = Accounts p r
OutcomeAccounts p fault = Unit {0}

call_reply-silent :
    (code : ℕ) (p : Proxy) → (results (call_reply code p) ≡ 0) × (removals (call_reply code p) ≡ 0)
unfolding results removals
call_reply-silent code p = ground arith

call_response-silent :
    (resp : Response) (completed : Bool) (p : Proxy)
    → (results (call_response resp completed p) ≡ 0)
      × (removals (call_response resp completed p) ≡ 0)
unfolding results removals
call_response-silent resp completed p = ground arith

Accounts-after_reply : (p : Proxy) → Accounts p (after_reply p)
unfolding after_reply results removals
Accounts-after_reply p = ground arith

Accounts-complete_if : (completed : Bool) (p : Proxy) → Accounts p (complete_if completed p)
unfolding complete_if results removals
Accounts-complete_if completed p = ground arith

replied-keeps :
    (sip : SipCodes) (now : ℕ) (has_message : Bool) (code : ℕ) (p : Proxy)
    → ((on_reply_l now (reply_status sip has_message code p)).result_flag ≡ p.result_flag)
      × ((on_reply_l now (reply_status sip has_message code p)).has_rcb ≡ p.has_rcb)
unfolding on_reply_l reply_status
replied-keeps sip now has_message code p = ground arith

pub Accounts-on_reply :
    (sip : SipCodes) (now : ℕ) (has_message : Bool) (code : ℕ) (p : Proxy)
    → Accounts p (on_reply sip now has_message code p)
unfolding on_reply
Accounts-on_reply sip now has_message code p =
    let start = record p { reply_time = now; reply_code = code } in
    let q = on_reply_l now (reply_status sip has_message code start) in
    let (flag, rcb) = replied-keeps sip now has_message code start in
    let (silent, stays) = call_reply-silent code q in
    Accounts-after p (record q { has_reply_callback = false }) (call_reply code q) _ flag rcb silent
      stays (Accounts-after_reply _)

pub Accounts-timer_expired : (p : Proxy) → Accounts p (timer_expired p)
unfolding timer_expired results removals
Accounts-timer_expired p = ground arith

pub Accounts-own_timer_expired : (now : ℕ) (p : Proxy) → Accounts p (own_timer_expired now p)
unfolding own_timer_expired results removals
Accounts-own_timer_expired now p = ground arith

pub Accounts-run_queued : (p : Proxy) → Accounts p (run_queued p)
unfolding run_queued results removals
Accounts-run_queued p = ground arith

plain_response-Accounts :
    (now : ℕ) (resp : Response) (ans : Answer) (p : Proxy)
    → OutcomeAccounts p (plain_response now resp ans p)
unfolding plain_response results removals
plain_response-Accounts now resp ans p = ground arith

finish_if-keeps :
    (completed : Bool) (now : ℕ) (p : Proxy)
    → ((finish_if completed now p).result_flag ≡ p.result_flag)
      × ((finish_if completed now p).has_rcb ≡ p.has_rcb)
finish_if-keeps completed now p = ground arith

list_answered-Accounts :
    (completed : Bool) (acts : List Action) (ans : Answer) (p q : Proxy)
    → q.result_flag ≡ p.result_flag
    → q.has_rcb ≡ p.has_rcb
    → results acts ≡ 0
    → removals acts ≡ 0
    → OutcomeAccounts p (list_answered completed acts ans q)
unfolding list_answered
list_answered-Accounts completed acts threw p q f c s m = Accounts-keep p q acts f c s m
list_answered-Accounts completed acts (returned n) p q f c s m =
    Accounts-after p q acts _ f c s m (Accounts-complete_if completed q)

config_answered-Accounts :
    (completed : Bool) (acts : List Action) (ans : Answer) (p q : Proxy)
    → q.result_flag ≡ p.result_flag
    → q.has_rcb ≡ p.has_rcb
    → results acts ≡ 0
    → removals acts ≡ 0
    → OutcomeAccounts p (config_answered completed acts ans q)
unfolding config_answered
config_answered-Accounts completed acts threw p q f c s m = Accounts-keep p _ acts f c s m
config_answered-Accounts completed acts (returned n) p q f c s m =
    Accounts-after p q acts _ f c s m (Accounts-complete_if completed q)

list_response-Accounts :
    (now : ℕ) (resp : Response) (ans : Answer) (p : Proxy)
    → OutcomeAccounts p (list_response now resp ans p)
unfolding list_response
list_response-Accounts now resp ans p =
    let total = i32_add p.recv_num resp.num in
    let completed = i32_le resp.sum_num total in
    let start = record p { ticker_start = now; recv_num = total; sum_num = resp.sum_num } in
    let q = finish_if completed now start in
    let acts = call_response resp completed q in
    let (flag, rcb) = finish_if-keeps completed now start in
    let (silent, stays) = call_response-silent resp completed q in
    if_elim (OutcomeAccounts p) (is_list_message resp.command) _ fault
      (list_answered-Accounts completed acts (response_answer ans q) p q flag rcb silent stays) tt

config_response-Accounts :
    (now : ℕ) (resp : Response) (ans : Answer) (p : Proxy)
    → OutcomeAccounts p (config_response now resp ans p)
unfolding config_response results removals
config_response-Accounts now resp ans p =
    let received = bit_or p.recv_config_type resp.config_type in
    let is_end = received == p.request_config_type in
    let start = record p { recv_config_type = received } in
    let q = finish_if is_end now start in
    let acts = call_response resp is_end q in
    let (flag, rcb) = finish_if-keeps is_end now start in
    let (silent, stays) = call_response-silent resp is_end q in
    if_elim (OutcomeAccounts p) (not (is_config_message resp.command)) fault _ tt (
      if_elim (OutcomeAccounts p) (resp.config_type == 0 && not resp.result_ok) _ _
        (Accounts-after p (config_refused now q) [] _ flag rcb refl refl
          (Accounts-on_completed (config_refused now q)))
        (config_answered-Accounts is_end acts (response_answer ans q) p q flag rcb silent stays))

loaded_by-Accounts :
    (k : Kind) (now : ℕ) (resp : Response) (ans : Answer) (p : Proxy)
    → OutcomeAccounts p (loaded_by k now resp ans p)
unfolding loaded_by
loaded_by-Accounts plain now resp ans p = plain_response-Accounts now resp ans p
loaded_by-Accounts list now resp ans p = list_response-Accounts now resp ans p
loaded_by-Accounts config now resp ans p = config_response-Accounts now resp ans p

-- An account from one state holds from another with the same completion and result callback.
Accounts-from :
    (p q : Proxy) (r : Proxy × List Action)
    → q.result_flag ≡ p.result_flag
    → q.has_rcb ≡ p.has_rcb
    → Accounts q r
    → Accounts p r
Accounts-from p q r f c v = record {
  removes = omega (arith, v.removes, ap bit f);
  reports = v.reports ∙ rw (f, c);
  with_removal = v.with_removal;
}

OutcomeAccounts-from :
    (p q : Proxy) (o : Outcome)
    → q.result_flag ≡ p.result_flag
    → q.has_rcb ≡ p.has_rcb
    → OutcomeAccounts q o
    → OutcomeAccounts p o
OutcomeAccounts-from p q (answered n r) f c v = Accounts-from p q r f c v
OutcomeAccounts-from p q (thrown r) f c v = Accounts-from p q r f c v
OutcomeAccounts-from p q fault f c v = tt

pub on_response-Accounts :
    (now : ℕ) (resp : Response) (ans : Answer) (p : Proxy)
    → OutcomeAccounts p (on_response now resp ans p)
unfolding on_response on_loaded results removals
on_response-Accounts now resp ans p =
    if_elim (OutcomeAccounts p) (not (is_response_command resp.command)) _ _
      (Accounts-keep p p [] refl refl refl refl)
      (if_elim (OutcomeAccounts p) resp.loads _ _
        (OutcomeAccounts-from p (stored now resp p) _ refl refl
          (loaded_by-Accounts p.kind now resp ans (stored now resp p)))
        (Accounts-keep p _ [] refl refl refl refl))
