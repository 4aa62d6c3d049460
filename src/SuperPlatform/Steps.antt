-- ===== src/SuperPlatform/Steps.antt =====
-- src/super_platform_impl.cpp: the replies to a registration, the keepalive messages, and the life of
-- a registration as a sequence of events.
use libgb.Base.{
  ℕ, zero, suc, ◌+◌, ◌-◌, ◌*◌, Bool, true, false, not, ◌||◌, Option, none, some, List, [], ◌∷◌,
  ◌++◌, if◌then◌else◌, leb, ltb, max, ◌==◌, as_delay,
}
use libgb.Message.{Text}
use libgb.Sip.{SipCodes}
use libgb.Register.{PlatformStatus, offline, online, network_error, auth_failure}
use libgb.SuperPlatform.{
  Registration, Lookup, keepalive_queued, SuperPlatform, Effect, wait, to_register, start_l, start,
  shutdown,
}

-- The contact of a redirection: none, one that cannot be read, or a host and a port.
pub data Contact : Type 0 where
  no_contact bad_contact : Contact
  contact : Text → ℕ → Contact

-- A final reply: whether there is one at all, its code, its expires, its contact, and the authorization
-- that is made for its challenge, which may be empty.
pub record Reply : Type 0 where
  pub is_there : Bool
  pub code : ℕ
  pub expires : ℕ
  pub contact : Contact
  pub authorization : Text

abbrev pub set_status : PlatformStatus → SuperPlatform → SuperPlatform
set_status status p = record p { status = status }

abbrev pub clear_moved : SuperPlatform → SuperPlatform
clear_moved p = record p { moved = false; temp_host = []; temp_port = 0 }

-- The registration has come through: it is renewed, and keepalive messages are sent.
abbrev pub registered : ℕ → ℕ → SuperPlatform → Effect
registered now expires p = (
  record (set_status online p) {
    refresh_register_timer = some (record {
      delay = as_delay (max (expires - 5) 5 * 1000);
      expires = expires;
      authorization = [];
    });
    keepalive_timer = true;
    ticker_start = now;
  },
  keepalive_queued ∷ [],
)

abbrev pub on_success : ℕ → ℕ → ℕ → SuperPlatform → Effect
on_success now expires announced p =
    let q : SuperPlatform = record p { auth_failed_count = 0 } in
    if expires == 0
    then (let r = set_status offline q in
        (if q.running then wait 0 q.register_expired [] r else r, []))
    else registered now (if announced == 0 then expires else announced) q

abbrev pub on_redirect : ℕ → Contact → SuperPlatform → SuperPlatform
on_redirect expires no_contact p = wait 3000 expires [] (record p { moved = false })
on_redirect expires bad_contact p =
    wait 3000 expires [] (record p { moved = false; temp_host = [] })
on_redirect expires (contact host port) p = record p {
  moved = true;
  temp_host = host;
  temp_port = port;
  starts = p.starts + 1;
}

-- The answer to a challenge, by the authorization that was made.
abbrev pub on_authorization : ℕ → Text → SuperPlatform → SuperPlatform
on_authorization expires [] p = set_status auth_failure (wait 3000 expires [] p)
on_authorization expires (x ∷ xs) p = wait 1 expires (x ∷ xs) p

abbrev pub on_challenge : Lookup → ℕ → Text → SuperPlatform → Effect
on_challenge lookup expires authorization p =
    if ltb 5 (p.auth_failed_count + 1)
    then (let q : SuperPlatform = record p { auth_failed_count = 0 } in
        start_l lookup (if q.moved then clear_moved q else q))
    else (
      on_authorization expires authorization
          (record p { auth_failed_count = p.auth_failed_count + 1 }),
      [],
    )

abbrev pub on_refused : Lookup → ℕ → SuperPlatform → Effect
on_refused lookup expires p =
    let q = set_status auth_failure p in
    if q.moved then start_l lookup (clear_moved q) else (wait 3000 expires [] q, [])

-- on_register_reply for a final reply to a request with the expires. The authorization of the request's
-- context is never set, so that a registration that is tried again has none.
unfoldable pub on_register_reply : SipCodes → ℕ → Lookup → Reply → ℕ → SuperPlatform → Effect
unfolding start_l
on_register_reply codes now lookup reply expires p =
    if not reply.is_there || reply.code == 408
    then (wait 3000 expires [] (set_status network_error p), [])
    else if codes.is_success reply.code
    then on_success now expires reply.expires p
    else if codes.is_redirect reply.code
    then (on_redirect expires reply.contact p, [])
    else if reply.code == 401
    then on_challenge lookup expires reply.authorization p
    else on_refused lookup expires p

-- The request could not be sent.
abbrev pub on_send_failed : ℕ → SuperPlatform → Effect
on_send_failed expires p = (wait 3000 expires [] (set_status network_error p), [])

-- The result of to_keepalive.
unfoldable pub on_keepalive : ℕ → Lookup → Bool → SuperPlatform → Effect
unfolding start_l
on_keepalive now lookup succeeded p =
    if succeeded
    then (record p { ticker_start = now }, [])
    else if leb (p.keepalive_interval * p.keepalive_times * 1000) (now - p.ticker_start)
    then start_l lookup (set_status offline (record p { keepalive_timer = false }))
    else (p, [])

-- An element of a list, and the others.
unfoldable pub pick {ℓ} : {A : Type ℓ} → ℕ → List A → Option (A × List A)
pick n [] = none
pick zero (x ∷ xs) = some (x, xs)
pick (suc n) (x ∷ xs) = elim (pick n xs) [ none ↦ none | some (y, ys) ↦ some (y, x ∷ ys) ]

-- A final reply and a failed sending are those of request n, and what falls due is registration n.
pub data Event : Type 0 where
  started : Lookup → Event
  stopped : Event
  reply : Lookup → ℕ → Reply → Event
  send_failed : ℕ → Event
  due : ℕ → Event
  refresh_due : Event
  start_due : Lookup → Event
  keepalive : Lookup → Bool → Event

module _ (codes : SipCodes) where
  abbrev pub with_request :
      Option (ℕ × List ℕ) → (ℕ → SuperPlatform → Effect) → SuperPlatform → Effect
  with_request none g p = (p, [])
  with_request (some (expires, others)) g p = g expires (record p { in_flight = others })

  abbrev pub with_waiting : Option (Registration × List Registration) → SuperPlatform → Effect
  with_waiting none p = (p, [])
  with_waiting (some (r, others)) p =
      to_register r.expires r.authorization (record p { waiting = others })

  abbrev pub with_refresh : Option Registration → SuperPlatform → Effect
  with_refresh none p = (p, [])
  with_refresh (some r) p = to_register r.expires r.authorization p

  abbrev pub with_start : Lookup → ℕ → SuperPlatform → Effect
  with_start lookup zero p = (p, [])
  with_start lookup (suc n) p = start_l lookup (record p { starts = n })

  unfoldable pub step : ℕ → Event → SuperPlatform → Effect
  unfolding start shutdown to_register start_l on_register_reply on_keepalive pick
  step now (started lookup) p = start lookup p
  step now stopped p = shutdown p
  step now (reply lookup n answer) p =
      with_request (pick n p.in_flight) (on_register_reply codes now lookup answer) p
  step now (send_failed n) p = with_request (pick n p.in_flight) on_send_failed p
  step now (due n) p = with_waiting (pick n p.waiting) p
  step now refresh_due p = with_refresh p.refresh_register_timer p
  step now (start_due lookup) p = with_start lookup p.starts p
  step now (keepalive lookup succeeded) p = on_keepalive now lookup succeeded p

  abbrev pub then_run : Effect → (SuperPlatform → Effect) → Effect
  then_run (p, xs) g = let (q, bs) = g p in (q, xs ++ bs)

  unfoldable pub run : List (ℕ × Event) → SuperPlatform → Effect
  unfolding step
  run [] p = (p, [])
  run ((now, e) ∷ es) p = then_run (step now e p) (run es)
