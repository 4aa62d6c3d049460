-- ===== src/Request/Totals.antt =====
-- When a list is complete: RequestListImpl counts the items against the announced total.
use libgb.Base.{
  ℕ, ◌+◌, ◌≤◌, ◌<◌, ◌≡◌, ◌≢◌, refl, ◌∙◌, ap, true, Option, some, List, [], ◌∷◌, map, arith, ◌++◌,
}
use libgb.Sip.{SipCodes}
use libgb.Message.{MessageCmdType}
use libgb.Request.{list, Proxy, Action, Response, succeeded, on_completed, on_completed_l}
use libgb.Request.Steps.{
  Event, message, returned, Answer, thrown, fault, step, then_run, run, on_response, on_loaded,
  loaded_by, list_response, list_answered, complete_if, is_list_message, is_response_command,
  settled, stored, Outcome, answered,
}

abbrev limit : ℕ
limit = 2147483648

-- A part of the list: a response of a list class that loads, and announces the total.
abbrev pub IsPart : ℕ → Response → Type 0
IsPart total r = (is_list_message r.command ≡ true) × (r.loads ≡ true) × (r.sum_num ≡ total)

abbrev pub AllParts : ℕ → List Response → Type 0
AllParts total [] = Unit {0}
AllParts total (r ∷ rs) = IsPart total r × AllParts total rs

abbrev pub items : List Response → ℕ
items [] = 0
items (r ∷ rs) = r.num + items rs

-- What a part does to a request that has counted `c` items.
record Counted (total c n : ℕ) (p q : Proxy) : Type 0 where
  class : q.kind ≡ list
  count : q.recv_num ≡ c + n
  full : total ≤ c + n → (q.result_flag ≡ true) × (q.status ≡ succeeded)
  short : c + n < total → (q.result_flag ≡ p.result_flag) × (q.status ≡ p.status)

abbrev OutcomeCounted : ℕ → ℕ → ℕ → Proxy → Outcome → Type 0
OutcomeCounted total c n p (answered m r) = Counted total c n p r.0
OutcomeCounted total c n p _ = ⊥

list_response-Counted :
    (total now code : ℕ) (r : Response) (p : Proxy)
    → IsPart total r
    → p.kind ≡ list
    → p.recv_num + r.num < limit
    → total < limit
    → OutcomeCounted total p.recv_num r.num p (list_response now r (returned code) p)
unfolding list_response list_answered complete_if on_completed on_completed_l
list_response-Counted total now code r p part class small fits = ground arith

-- A list class is among those for which a response object is made.
list-response_command :
    (c : MessageCmdType) → is_list_message c ≡ true → is_response_command c ≡ true
list-response_command c h = ground arith

on_response-list :
    (now : ℕ) (ans : Answer) (r : Response) (p : Proxy)
    → is_response_command r.command ≡ true
    → r.loads ≡ true
    → p.kind ≡ list
    → on_response now r ans p ≡ list_response now r ans (stored now r p)
unfolding on_response on_loaded loaded_by
on_response-list now ans r p known loads class = ground arith

Counted-settled :
    (total c n : ℕ) (p : Proxy) (o : Outcome)
    → OutcomeCounted total c n p o
    → (q : Proxy) × (acts : List Action) × (settled o ≡ some (q, acts)) × Counted total c n p q
Counted-settled total c n p (answered m (q, acts)) v = (q, acts, refl, v)
Counted-settled total c n p (thrown r) v = absurd v
Counted-settled total c n p fault v = absurd v

-- The delivery of one part.
part-step :
    (sip : SipCodes) (total now code : ℕ) (r : Response) (p : Proxy)
    → IsPart total r
    → p.kind ≡ list
    → p.recv_num + r.num < limit
    → total < limit
    → (q : Proxy) × (acts : List Action) × (step sip (message now r (returned code)) p
        ≡ some (q, acts))
      × Counted total p.recv_num r.num p q
unfolding step
part-step sip total now code r p part class small fits =
    let s = stored now r p in
    let (q, acts, e, v) =
      Counted-settled total p.recv_num r.num s _
        (list_response-Counted total now code r s part class small fits) in
    let known = list-response_command r.command part.0 in
    (
      q,
      acts,
      ap settled (on_response-list now (returned code) r p known part.1 class) ∙ e,
      record { class = v.class; count = v.count; full = v.full; short = v.short },
    )

abbrev pub deliver : ℕ → ℕ → List Response → List Event
deliver now code = map (λ r. message now r (returned code))

then_run-some :
    (k : Proxy → Option (Proxy × List Action)) (q r : Proxy) (first acts : List Action)
    → k q ≡ some (r, acts)
    → then_run k (some (q, first)) ≡ some (r, first ++ acts)
then_run-some k q r first acts h = ground arith

run-cons :
    (sip : SipCodes) (e : Event) (es : List Event) (p q r : Proxy) (first acts : List Action)
    → step sip e p ≡ some (q, first)
    → run sip es q ≡ some (r, acts)
    → run sip (e ∷ es) p ≡ some (r, first ++ acts)
unfolding run
run-cons sip e es p q r first acts h k =
    ap (then_run (run sip es)) h ∙ then_run-some (run sip es) q r first acts k

-- The parts of a list that are delivered, at least one, announce the same total, and their items
-- are below 2 ^ 31. If the items come to the total the request is complete and has succeeded; if
-- they fall short of it, it is no more complete than before, and its status is what it was.
pub run-deliver :
    (sip : SipCodes) (total now code : ℕ) (rs : List Response) (p : Proxy)
    → rs ≢ []
    → AllParts total rs
    → p.kind ≡ list
    → p.recv_num + items rs < limit
    → total < limit
    → (q : Proxy) × (acts : List Action) × (run sip (deliver now code rs) p ≡ some (q, acts))
      × (q.recv_num ≡ p.recv_num + items rs)
      × (total ≤ p.recv_num + items rs → (q.result_flag ≡ true) × (q.status ≡ succeeded))
      × (p.recv_num + items rs < total → (q.result_flag ≡ p.result_flag) × (q.status ≡ p.status))
unfolding run
run-deliver sip total now code [] p some_parts parts class small fits = absurd (some_parts refl)
run-deliver sip total now code (r ∷ []) p some_parts parts class small fits =
    let (q, acts, e, v) = part-step sip total now code r p parts.0 class (omega arith) fits in
    (
      q,
      acts ++ [],
      run-cons sip _ [] p q q acts [] e refl,
      omega (arith, v.count),
      λ h. v.full (omega arith),
      λ h. v.short (omega arith),
    )
run-deliver sip total now code (r ∷ r' ∷ rs) p some_parts parts class small fits =
    let (q, acts, e, v) = part-step sip total now code r p parts.0 class (omega arith) fits in
    let sum : q.recv_num + items (r' ∷ rs) ≡ p.recv_num + items (r ∷ r' ∷ rs) =
      omega (arith, v.count) in
    let (last, more, d, count, full, short) =
      run-deliver sip total now code (r' ∷ rs) q (λ c. cc) parts.1 v.class (omega (arith, sum))
        fits in
    (
      last,
      acts ++ more,
      run-cons sip _ (deliver now code (r' ∷ rs)) p q last acts more e d,
      omega (arith, sum, count),
      λ h. full (omega (arith, sum)),
      λ h.
          let (flag, status) = short (omega (arith, sum)) in
          let (flag', status') = v.short (omega arith) in (flag ∙ flag', status ∙ status'),
    )
