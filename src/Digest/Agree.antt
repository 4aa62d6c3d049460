-- ===== src/Digest/Agree.antt =====
-- An authorization that is generated is the one that is verified.
use libgb.Base.{
  ◌≡◌, refl, ◌↔◌, subst, sym, true, Option, [], ◌∷◌, ◌++◌, if◌then◌else◌, text_eq, text_eq_refl,
  text_eq-true, append_cancel_left, append_cancel_right,
}
use libgb.Message.{Text}
use libgb.Digest.{
  Challenge, register_method, is_empty, hash_of, a1, a2, tail_of, register_a2, response_text,
  verify_authorization, generate_authorization, colon,
}

a1-password : (user realm p q : Text) → a1 user realm p ≡ a1 user realm q → p ≡ q
a1-password user realm p q e =
    let after_user =
      append_cancel_left user (colon ∷ (realm ++ (colon ∷ p))) (colon ∷ (realm ++ (colon ∷ q))) e in
    let after_realm = append_cancel_left (colon ∷ realm) (colon ∷ p) (colon ∷ q) after_user in
    append_cancel_left (colon ∷ []) p q after_realm

module _ (md5 sha256 : Text → Text) where
  -- Two responses of one challenge, from the texts under the hash.
  responses :
      (algorithm : Option Text) (user realm p q rest : Text)
      → (hash_of md5 sha256 algorithm (a1 user realm p)
            ≡ hash_of md5 sha256 algorithm (a1 user realm q)
          → a1 user realm p ≡ a1 user realm q)
      → (hash_of md5 sha256 algorithm (hash_of md5 sha256 algorithm (a1 user realm p) ++ rest)
            ≡ hash_of md5 sha256 algorithm (hash_of md5 sha256 algorithm (a1 user realm q) ++ rest)
          → hash_of md5 sha256 algorithm (a1 user realm p) ++ rest
            ≡ hash_of md5 sha256 algorithm (a1 user realm q) ++ rest)
      → (text_eq
            (hash_of md5 sha256 algorithm (hash_of md5 sha256 algorithm (a1 user realm p) ++ rest))
            (hash_of md5 sha256 algorithm (hash_of md5 sha256 algorithm (a1 user realm q) ++ rest))
          ≡ true)
        ↔ (p ≡ q)
  responses algorithm user realm p q rest h k = (
    λ e. a1-password user realm p q (h (append_cancel_right _ _ rest (k (text_eq-true _ _ e)))),
    λ e.
        subst
          (λ x.
            text_eq
              (hash_of md5 sha256 algorithm
                (hash_of md5 sha256 algorithm (a1 user realm p) ++ rest))
              (hash_of md5 sha256 algorithm
                (hash_of md5 sha256 algorithm (a1 user realm x) ++ rest))
            ≡ true)
          e
          (text_eq_refl (
            hash_of md5 sha256 algorithm (hash_of md5 sha256 algorithm (a1 user realm p) ++ rest))),
  )

  a2-register :
      (algorithm : Option Text) (qop uri payload : Text)
      → a2 md5 sha256 algorithm qop register_method uri payload
        ≡ register_a2 md5 sha256 algorithm qop uri payload
  a2-register algorithm qop uri [] = refl
  a2-register algorithm qop uri (x ∷ xs) = refl

  -- The counter and the client's text count only under a quality of protection.
  tail-response_text :
      (qop ha1 nonce nc cnonce ha2 : Text)
      → ha1
          ++ tail_of md5 sha256 qop nonce
              (if is_empty qop then [] else nc)
              (if is_empty qop then [] else cnonce)
              ha2
        ≡ response_text md5 sha256 qop ha1 nonce nc cnonce ha2
  tail-response_text [] ha1 nonce nc cnonce ha2 = refl
  tail-response_text (x ∷ xs) ha1 nonce nc cnonce ha2 = refl

  -- What is generated for a challenge, whichever it is, is verified exactly if the two ends have the same
  -- password, provided that the request's payload is that of the challenge, and that the hash which the
  -- challenge names has no collision between the two ends' A1, nor between the two texts that the response
  -- is the hash of.
  pub verify-generate :
      (payload user password other uri nc cnonce : Text) (c : Challenge)
      → (hash_of md5 sha256 c.algorithm (a1 user c.realm password)
            ≡ hash_of md5 sha256 c.algorithm (a1 user c.realm other)
          → a1 user c.realm password ≡ a1 user c.realm other)
      → (let H = hash_of md5 sha256 c.algorithm in
          let rest =
            tail_of md5 sha256 c.qop c.nonce
              (if is_empty c.qop then [] else nc)
              (if is_empty c.qop then [] else cnonce)
              (H (a2 md5 sha256 c.algorithm c.qop register_method uri payload)) in
          H (H (a1 user c.realm password) ++ rest) ≡ H (H (a1 user c.realm other) ++ rest)
          → H (a1 user c.realm password) ++ rest ≡ H (a1 user c.realm other) ++ rest)
      → (verify_authorization md5 sha256 register_method payload user password
            (generate_authorization md5 sha256 payload user other uri nc cnonce c)
          ≡ true)
        ↔ (password ≡ other)
  unfolding verify_authorization generate_authorization
  verify-generate payload user password other uri nc cnonce c h k =
      rw
        (
          sym (
              tail-response_text c.qop (hash_of md5 sha256 c.algorithm (a1 user c.realm other))
                c.nonce nc cnonce
                (hash_of md5 sha256 c.algorithm
                  (register_a2 md5 sha256 c.algorithm c.qop uri payload))),
          sym (a2-register c.algorithm c.qop uri payload),
        )
        (responses c.algorithm user c.realm password other _ h k)
