-- ===== src/Digest/Examples.antt =====
-- An authorization at a concrete challenge.
use libgb.Base.{ℕ, ◌+◌, ◌%◌, ◌≡◌, ◌↔◌, true, none, [], ◌∷◌}
use libgb.Message.{Text}
use libgb.Digest.{
  Challenge, Authorization, auth_int, register_method, verify_authorization, generate_authorization,
}
use libgb.Digest.Agree.{verify-generate}

abbrev challenge : Challenge
challenge = record { realm = 3 ∷ []; nonce = 4 ∷ 4 ∷ []; qop = auth_int; algorithm = none }

abbrev secret : Text
secret = 2 ∷ []

-- A hash of three bits stands for both.
abbrev sum : Text → ℕ
sum [] = 0
sum (x ∷ xs) = x + sum xs

abbrev small_hash : Text → Text
small_hash t = sum t % 8 ∷ []

abbrev authorization : Authorization
authorization =
    generate_authorization small_hash small_hash [] (1 ∷ []) (9 ∷ []) (5 ∷ []) (6 ∷ []) (7 ∷ [])
      challenge

-- Two passwords whose bytes have no collision.
verify-generate_example :
    (verify_authorization small_hash small_hash register_method [] (1 ∷ []) secret authorization
      ≡ true)
    ↔ (secret ≡ 9 ∷ [])
verify-generate_example =
    verify-generate small_hash small_hash [] (1 ∷ []) secret (9 ∷ []) (5 ∷ []) (6 ∷ []) (7 ∷ [])
      challenge (λ e. absurd (cc)) (λ e. absurd (cc))
