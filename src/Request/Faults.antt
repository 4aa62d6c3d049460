-- ===== src/Request/Faults.antt =====
-- What a peer or a callback can do to a request that the code does not guard against.
use libgb.Base.{
  ℕ, ◌≡◌, ◌≢◌, ◌↔◌, refl, if◌then◌else◌, sym, ◌∙◌, Bool, true, false, List, [], ◌∷◌, bit_or, arith,
}
use libgb.Message.{config_download}
use libgb.Request.{
  list, config, Proxy, Action, Response, succeeded, callback_threw, response_called,
}
use libgb.Request.Steps.{
  returned, threw, Answer, on_response, on_loaded, loaded_by, list_response, config_response,
  config_answered, list_answered, is_list_message, is_response_command, stored, finish_if, Outcome,
  answered, fault,
}

answered-ne-fault :
    (completed : Bool) (acts : List Action) (ans : Answer) (p : Proxy)
    → list_answered completed acts ans p ≢ fault
unfolding list_answered
answered-ne-fault completed acts threw p h = cc
answered-ne-fault completed acts (returned n) p h = cc

if_fault : (b : Bool) (o : Outcome) → o ≢ fault → ((if b then o else fault) ≡ fault) ↔ (b ≡ false)
if_fault true o h = (λ e. absurd (h e), λ e. cc)
if_fault false o h = (λ e. refl, λ e. refl)

list_response_fault :
    (now : ℕ) (resp : Response) (ans : Answer) (p : Proxy)
    → (list_response now resp ans p ≡ fault) ↔ (is_list_message resp.command ≡ false)
unfolding list_response
list_response_fault now resp ans p =
    if_fault (is_list_message resp.command) _ (answered-ne-fault _ _ _ _)

on_response_fault :
    (now : ℕ) (resp : Response) (ans : Answer) (p : Proxy)
    → (on_response now resp ans p ≡ fault) ↔ (
        (is_response_command resp.command ≡ true)
        × (resp.loads ≡ true)
        × (on_loaded now resp ans (stored now resp p) ≡ fault))
unfolding on_response
on_response_fault now resp ans p = (λ h. ground arith, λ h. ground arith)

on_loaded-list :
    (now : ℕ) (resp : Response) (ans : Answer) (p : Proxy)
    → p.kind ≡ list
    → on_loaded now resp ans p ≡ list_response now resp ans p
unfolding on_loaded loaded_by
on_loaded-list now resp ans p class = ground arith

-- A list request faults on exactly the responses that a response object is made of, that load, and
-- that are of no list class: the cast's null pointer is not tested.
list_fault :
    (now : ℕ) (resp : Response) (ans : Answer) (p : Proxy)
    → p.kind ≡ list
    → (on_response now resp ans p ≡ fault) ↔ (
        (is_response_command resp.command ≡ true)
        × (resp.loads ≡ true)
        × (is_list_message resp.command ≡ false))
list_fault now resp ans p class =
    let (to, from) = on_response_fault now resp ans p in
    let (cast, null) = list_response_fault now resp ans (stored now resp p) in
    let same = on_loaded-list now resp ans (stored now resp p) class in
    (
      λ h. let (known, loads, e) = to h in (known, loads, cast (sym same ∙ e)),
      λ (known, loads, other). from (known, loads, same ∙ null other),
    )

-- The last piece of a configuration whose response callback throws leaves its request waiting for
-- nothing: the status says that it has succeeded, no timer runs, no completion is queued, and the
-- result callback is not called; the peer gets the code 500.
config_response_throws :
    (now : ℕ) (resp : Response) (p : Proxy)
    → p.kind ≡ config
    → resp.command ≡ config_download
    → resp.loads ≡ true
    → resp.config_type ≢ 0
    → p.has_response_callback ≡ true
    → bit_or p.recv_config_type resp.config_type ≡ p.request_config_type
    → (q : Proxy) × (on_response now resp threw p
        ≡ answered 500 (q, response_called resp true ∷ []))
      × (q.status ≡ succeeded)
      × (q.result_flag ≡ p.result_flag)
      × (q.timer ≡ false)
      × (q.own_timer ≡ false)
      × (q.queued ≡ p.queued)
unfolding on_response on_loaded loaded_by config_response config_answered
config_response_throws now resp p class command loads some_type callback all = (
  record (finish_if true now (record (stored now resp p) {
    recv_config_type = bit_or p.recv_config_type resp.config_type;
  })) { error = callback_threw },
  ground arith,
  refl,
  refl,
  refl,
  refl,
  refl,
)
