-- ===== src/Request/Completion.antt =====
-- From the sending of a request on: while it is not complete, its own timers or queue complete it.
use libgb.Base.{ℕ, ◌+◌, ◌<◌, ◌≡◌, ◌≢◌, ◌⊎◌, inl, inr, refl, Bool, true, false, some, List, arith}
use libgb.Sip.{SipCodes}
use libgb.Request.{
  Kind, plain, list, config, RequestType, Proxy, Action, replied, on_completed, on_completed_l,
  new_proxy,
}
use libgb.Request.Steps.{
  Sending, no_request, no_payload, not_sent, sent, send, timer_expired, own_timer_expired,
  run_queued, Event, timer_fires, queue_runs, own_timer_fires, step, run,
}
use libgb.Request.Progress.{Fits, Held, Attended, AllCalm, run-Attended}

-- The events that no peer and no user has a part in.
abbrev pub Local : Event → Type 0
Local timer_fires = Unit {0}
Local queue_runs = Unit {0}
Local (own_timer_fires now) = Unit {0}
Local _ = ⊥

-- An event that completes the request.
abbrev pub Completes : SipCodes → Proxy → Event → Type 0
Completes sip p e = (r : Proxy × List Action) × (step sip e p ≡ some r) × (r.0.result_flag ≡ true)

queue_runs-completes : (p : Proxy) → 0 < p.queued → (run_queued p).0.result_flag ≡ true
unfolding run_queued on_completed on_completed_l
queue_runs-completes p h = ground arith

timer_fires-completes :
    (p : Proxy) → p.timer ≡ true → p.status ≡ replied → (timer_expired p).0.result_flag ≡ true
unfolding timer_expired on_completed on_completed_l
timer_fires-completes p t s = ground arith

list_timer-completes :
    (p : Proxy)
    → p.kind ≡ list
    → p.own_timer ≡ true
    → (own_timer_expired (p.ticker_start + 5001000) p).0.result_flag ≡ true
unfolding own_timer_expired on_completed on_completed_l
list_timer-completes p k t = ground arith

config_timer-completes :
    (p : Proxy)
    → p.kind ≡ config
    → p.own_timer ≡ true
    → (own_timer_expired 0 p).0.result_flag ≡ true
unfolding own_timer_expired on_completed on_completed_l
config_timer-completes p k t = ground arith

Held-Completes :
    (k : Kind) (sip : SipCodes) (p : Proxy)
    → p.kind ≡ k
    → Held k p
    → (e : Event) × Local e × Completes sip p e
unfolding step
Held-Completes plain sip p k (inl h) =
    (queue_runs, tt, (run_queued p, refl, queue_runs-completes p h))
Held-Completes plain sip p k (inr h) =
    (timer_fires, tt, (timer_expired p, refl, timer_fires-completes p h.0 h.1))
Held-Completes list sip p k h =
    let late = p.ticker_start + 5001000 in
    (own_timer_fires late, tt, (own_timer_expired late p, refl, list_timer-completes p k h))
Held-Completes config sip p k h =
    (own_timer_fires 0, tt, (own_timer_expired 0 p, refl, config_timer-completes p k h))

new_proxy-Attended :
    (k : Kind) (t : RequestType) (sn config_type now : ℕ) (rep resp : Bool) (s : Sending)
    → Fits k t
    → Attended k (send now s (new_proxy k t sn config_type rep resp)).0
unfolding send new_proxy on_completed on_completed_l
new_proxy-Attended k t sn config_type now rep resp no_request f = record {
  class = refl;
  fits = f;
  held = inl refl;
}
new_proxy-Attended k t sn config_type now rep resp (no_payload e) f = record {
  class = refl;
  fits = f;
  held = inl refl;
}
new_proxy-Attended k t sn config_type now rep resp (not_sent e) f = record {
  class = refl;
  fits = f;
  held = inl refl;
}
new_proxy-Attended k t sn config_type now rep resp sent f = record {
  class = refl;
  fits = f;
  held = inr (inl refl);
}

-- A request of a class that fits its type is sent and goes through any events in which no response
-- callback throws and no fault is met. Once it has a reply (with a code that is not 0) and is not
-- complete, a timer or a queued call that is at hand completes it, with no part of the peer.
pub run-Completes :
    (k : Kind) (t : RequestType) (sip : SipCodes) (sn config_type now : ℕ) (rep resp : Bool)
    (s : Sending) (es : List Event) (q : Proxy) (acts : List Action)
    → Fits k t
    → AllCalm es
    → run sip es (send now s (new_proxy k t sn config_type rep resp)).0 ≡ some (q, acts)
    → q.reply_code ≢ 0
    → q.result_flag ≡ false
    → (e : Event) × Local e × Completes sip q e
run-Completes k t sip sn config_type now rep resp s es q acts f calm h code open_ =
    let v =
      run-Attended k sip es _ (q, acts) calm
        (new_proxy-Attended k t sn config_type now rep resp s f) h in
    by_held v.held
  where
    class : q.kind ≡ k
    class =
        (run-Attended k sip es _ (q, acts) calm
          (new_proxy-Attended k t sn config_type now rep resp s f) h).class

    by_held :
        (q.result_flag ≡ true) ⊎ (q.reply_code ≡ 0) ⊎ Held k q
        → (e : Event) × Local e × Completes sip q e
    by_held (inl e) = absurd (ground arith)
    by_held (inr (inl e)) = absurd (code e)
    by_held (inr (inr e)) = Held-Completes k sip q class e
