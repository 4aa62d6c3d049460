-- ===== src/Register/Guard.antt =====
-- What a REGISTER request needs to change a platform.
use libgb.Base.{
  text_eq, text_eq_refl, text_eq-true, ℕ, ◌≡◌, ◌⊎◌, inl, inr, refl, sym, ◌∙◌, ap, Bool, true, false,
  not, ◌||◌, Option, none, some, List, [], ◌∷◌, if◌then◌else◌, ◌==◌, Bool-cases, of_some, arith,
  if_cases,
}
use libgb.Message.{Text}
use libgb.Register.{offline, Account, Platform, is_online, set_status}
use libgb.Register.Steps.{
  Server, Session, RegisterRequest, Answer, ok, challenge, find_platform, put_platform,
  get_subordinate_platform, register_known, register_found, on_recv_register, Application,
  answers_now, no_callback, answers_later, new_account, new_subordinate_account, register_unknown,
  store, on_allow, accepted_platform, forbidden,
}

find-put :
    (id : Text) (p : Platform) (ps : List (Text × Platform))
    → find_platform id (put_platform id p ps) ≡ some p
unfolding find_platform put_platform
find-put id p [] = let same = text_eq_refl id in ground arith
find-put id p ((key, q) ∷ ps) = let rest = find-put id p ps in ground arith

find-put_other :
    (other id : Text) (p : Platform) (ps : List (Text × Platform))
    → text_eq other id ≡ false
    → find_platform other (put_platform id p ps) ≡ find_platform other ps
unfolding find_platform put_platform
find-put_other other id p [] h = ground arith
find-put_other other id p ((key, q) ∷ ps) h =
    let rest = find-put_other other id p ps h in
    let apart : text_eq id key ≡ true → text_eq other key ≡ false =
      λ e. ap (text_eq other) (sym (text_eq-true id key e)) ∙ h in
    ground arith

-- The password of the account holds for the request, or none is needed.
abbrev pub is_authorized : RegisterRequest → Platform → Bool
is_authorized req p = not p.account.needs_auth || req.verifies p.account.password

known_online :
    (now up : ℕ) (session : Session) (req : RegisterRequest) (p : Platform)
    → is_online (register_known now up session req p).0.account.status ≡ true
    → (is_online p.account.status ≡ true) ⊎ (is_authorized req p ≡ true)
unfolding set_status
known_online now up session req p h = ground arith

-- The request's authorization holds for the server's password, or the server needs none.
abbrev pub is_admitted : RegisterRequest → Server → Bool
is_admitted req s = not s.needs_auth || req.verifies s.password

-- The application accepts the account before its callback returns.
abbrev pub allows_now : Application → Account → Bool
allows_now (answers_now allows) a = allows a
allows_now _ a = false

-- How a platform may be online after a request: it was known and online, or was known and the request
-- is its own and authorized, or it is a new one that the server and the application admit.
abbrev pub Kept : RegisterRequest → Server → Text → Type 0
Kept req s id =
    (p : Platform) × (get_subordinate_platform id s ≡ some p)
    × ((is_online p.account.status ≡ true) ⊎ ((id ≡ req.user) × (is_authorized req p ≡ true)))

abbrev pub Admitted : RegisterRequest → Server → Account → Text → Type 0
Admitted req s a id =
    (id ≡ req.user)
    × (get_subordinate_platform req.user s ≡ none)
    × (s.allow_auto_register ≡ true)
    × (is_admitted req s ≡ true)
    × (allows_now s.application a ≡ true)

-- One platform is stored: it is found under its id, and what is found under another was there.
stored :
    (s : Server) (user id : Text) (r q : Platform)
    → get_subordinate_platform id (store user r s) ≡ some q
    → ((id ≡ user) × (r ≡ q)) ⊎ (get_subordinate_platform id s ≡ some q)
stored s user id r q e = elim (Bool-cases (text_eq id user)) [
  | inl same ↦
      let eq : id ≡ user = text_eq-true id user same in
      inl (
        eq,
        of_some (
            sym (find-put user r s.sub_platforms)
            ∙ ap (λ x. find_platform x (put_platform user r s.sub_platforms)) (sym eq)
            ∙ e),
      )
  | inr other ↦ inr (sym (find-put_other id user r s.sub_platforms other) ∙ e)
]

-- What the decision of the application makes of an account of the request's user.
decided :
    (now up : ℕ) (session : Session) (req : RegisterRequest) (s : Server) (a : Account)
    (app : Application) (id : Text) (q : Platform)
    → a.platform_id ≡ req.user
    → get_subordinate_platform id (new_subordinate_account now up session req.expires a app s).0
      ≡ some q
    → is_online q.account.status ≡ true
    → Kept req s id ⊎ ((id ≡ req.user) × (allows_now app a ≡ true))
unfolding on_allow
decided now up session req s a no_callback id q of_user e on = inl (q, e, inl on)
decided now up session req s a answers_later id q of_user e on = inl (q, e, inl on)
decided now up session req s a (answers_now allows) id q of_user e on =
    if_cases
      (λ (r : Server × Answer).
        get_subordinate_platform id r.0 ≡ some q
        → is_online q.account.status ≡ true
        → Kept req s id ⊎ ((id ≡ req.user) × (allows a ≡ true)))
      (allows a) _ (s, forbidden)
      (λ accepted e on.
        elim (stored s a.platform_id id (accepted_platform now up session a s) q e) [
          | inl (eq, there) ↦ inr (eq ∙ of_user, accepted)
          | inr before ↦ inl (q, before, inl on)
        ])
      (λ refused e on. inl (q, e, inl on)) e on

unknown_online :
    (now up : ℕ) (session : Session) (req : RegisterRequest) (s : Server) (id : Text) (q : Platform)
    → get_subordinate_platform req.user s ≡ none
    → get_subordinate_platform id (register_unknown now up session req s).0 ≡ some q
    → is_online q.account.status ≡ true
    → Kept req s id ⊎ Admitted req s (new_account now s session req.user) id
unknown_online now up session req s id q unknown =
    let a = new_account now s session req.user in
    let goal = λ (r : Server × Answer).
      get_subordinate_platform id r.0 ≡ some q
      → is_online q.account.status ≡ true
      → Kept req s id ⊎ Admitted req s a id in
    if_cases goal s.allow_auto_register _ (s, forbidden)
      (λ auto.
        if_cases goal (req.expires == 0) (s, ok) _ (λ zero_time e on. inl (q, e, inl on))
          (λ some_time.
            if_cases goal (is_admitted req s) _ (s, challenge)
              (λ admitted e on. elim (decided now up session req s a s.application id q refl e on) [
                | inl kept ↦ inl kept
                | inr (eq, accepted) ↦ inr (eq, unknown, auto, admitted, accepted)
              ])
              (λ bad e on. inl (q, e, inl on))))
      (λ manual e on. inl (q, e, inl on))

found_online :
    (now up : ℕ) (session : Session) (req : RegisterRequest) (s : Server) (id : Text) (q : Platform)
    (found : Option Platform)
    → get_subordinate_platform req.user s ≡ found
    → get_subordinate_platform id (register_found now up session req s found).0 ≡ some q
    → is_online q.account.status ≡ true
    → Kept req s id ⊎ Admitted req s (new_account now s session req.user) id
found_online now up session req s id q none known e on =
    unknown_online now up session req s id q known e on
found_online now up session req s id q (some p) known e on =
    elim (stored s req.user id (register_known now up session req p).0 q e) [
      | inl (eq, there) ↦ inl (
        p,
        ap (λ x. find_platform x s.sub_platforms) eq ∙ known,
        elim (known_online now up session req p (ap (λ x. is_online x.account.status) there ∙ on)) [
          | inl before ↦ inl before
          | inr authorized ↦ inr (eq, authorized)
        ],
      )
      | inr before ↦ inl (q, before, inl on)
    ]

-- A platform that is online when on_recv_register returns, whichever it is and whatever the request:
-- it was known to the server, and was online before or is the one that the request is for, and the
-- request's authorization holds for its account's password or the account needs none; or it is the
-- one that the request is for, was not known, the server registers new platforms, the request's
-- authorization holds for the server's password or the server needs none, and the application
-- accepts the account before its callback returns.
pub on_recv_register-is_online :
    (now up : ℕ) (session : Session) (req : RegisterRequest) (s : Server) (id : Text) (q : Platform)
    → get_subordinate_platform id (on_recv_register now up session req s).0 ≡ some q
    → is_online q.account.status ≡ true
    → Kept req s id ⊎ Admitted req s (new_account now s session req.user) id
unfolding on_recv_register
on_recv_register-is_online now up session req s id q e on =
    found_online now up session req s id q (get_subordinate_platform req.user s) refl e on

known_unverified :
    (now up : ℕ) (session : Session) (req : RegisterRequest) (p : Platform)
    → p.account.needs_auth ≡ true
    → req.verifies p.account.password ≡ false
    → let (q, answer) = register_known now up session req p in
      (q.account.status ≡ (if req.expires == 0 then offline else p.account.status))
      × (q.tcp_session ≡ (if session.is_udp then p.tcp_session else some session.number))
      × (answer ≡ (if req.expires == 0 then ok else challenge))
unfolding set_status
known_unverified now up session req p needs bad = (ground arith, ground arith, ground arith)

-- A request whose authorization does not hold, for a platform that needs it: with the expires 0 it
-- takes the platform offline all the same and is answered 200; with another it leaves the status and
-- is challenged. Either way, if it came by TCP, the platform's session is the one that it came by.
pub on_recv_register-unverified :
    (now up : ℕ) (session : Session) (req : RegisterRequest) (s : Server) (p : Platform)
    → get_subordinate_platform req.user s ≡ some p
    → p.account.needs_auth ≡ true
    → req.verifies p.account.password ≡ false
    → let (t, answer) = on_recv_register now up session req s in
      (q : Platform) × (get_subordinate_platform req.user t ≡ some q)
      × (q.account.status ≡ (if req.expires == 0 then offline else p.account.status))
      × (q.tcp_session ≡ (if session.is_udp then p.tcp_session else some session.number))
      × (answer ≡ (if req.expires == 0 then ok else challenge))
unfolding on_recv_register
on_recv_register-unverified now up session req s p known needs bad =
    let r = register_known now up session req p in
    let found = ap (register_found now up session req s) known in
    let (status, tcp, reply) = known_unverified now up session req p needs bad in
    (
      r.0,
      ap (λ x. get_subordinate_platform req.user x.0) found ∙ find-put req.user r.0 s.sub_platforms,
      status,
      tcp,
      ap (λ x. x.1) found ∙ reply,
    )
