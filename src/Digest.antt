-- ===== src/Digest.antt =====
-- src/inner/sip_common.cpp: the digest authorization of a REGISTER request, from the fields of its
-- headers. The two hash functions are OpenSSL's and are parameters.
mod Agree
mod Examples
use libgb.Base.{
  ℕ, Bool, true, false, Option, none, some, List, [], ◌∷◌, ◌++◌, if◌then◌else◌, text_eq, codes,
}
use libgb.Message.{Text}

-- The fields of a challenge, and of an authorization; a field that is missing reads as empty.
pub record Challenge : Type 0 where
  pub realm : Text
  pub nonce : Text
  pub qop : Text
  pub algorithm : Option Text

pub record Authorization : Type 0 where
  pub realm : Text
  pub nonce : Text
  pub uri : Text
  pub response : Text
  pub algorithm : Option Text
  pub qop : Text
  pub nc : Text
  pub cnonce : Text

abbrev pub colon : ℕ
colon = b':'

-- The texts "MD5", "auth-int" and "REGISTER".
abbrev pub md5_name : Text
md5_name = b'M' ∷ b'D' ∷ b'5' ∷ []

abbrev pub auth_int : Text
auth_int = b'a' ∷ b'u' ∷ b't' ∷ b'h' ∷ b'-' ∷ b'i' ∷ b'n' ∷ b't' ∷ []

abbrev pub register_method : Text
register_method = b'R' ∷ b'E' ∷ b'G' ∷ b'I' ∷ b'S' ∷ b'T' ∷ b'E' ∷ b'R' ∷ []

abbrev pub is_empty : Text → Bool
is_empty [] = true
is_empty (x ∷ xs) = false

abbrev pub or_md5 : Option Text → Text
or_md5 none = md5_name
or_md5 (some name) = name

-- A1 in verify_authorization.
abbrev pub a1 : Text → Text → Text → Text
a1 user realm password = user ++ (colon ∷ (realm ++ (colon ∷ password)))

-- A1 in generate_authorization.
abbrev pub register_a1 : Text → Text → Text → Text
register_a1 username realm password = username ++ (codes ":" ++ (realm ++ (codes ":" ++ password)))

module _ (md5 sha256 : Text → Text) where
  -- H, by the algorithm's name.
  abbrev pub hash_of : Option Text → Text → Text
  hash_of algorithm t = if text_eq (or_md5 algorithm) md5_name then md5 t else sha256 t

  -- verify_authorization: what "auth-int" adds for the request's payload, and A2 and the response that are
  -- made of the fields that the request names.
  abbrev pub payload_part : Option Text → Text → Text
  payload_part algorithm [] = colon ∷ []
  payload_part algorithm (x ∷ xs) = colon ∷ hash_of algorithm (x ∷ xs)

  abbrev pub a2 : Option Text → Text → Text → Text → Text → Text
  a2 algorithm qop method uri payload =
      (method ++ (colon ∷ uri))
      ++ (if text_eq qop auth_int then payload_part algorithm payload else [])

  -- What follows the hash of A1 under the hash of the response.
  abbrev pub tail_of : Text → Text → Text → Text → Text → Text
  tail_of qop nonce nc cnonce ha2 =
      if is_empty qop
      then colon ∷ (nonce ++ (colon ∷ ha2))
      else colon
        ∷ (nonce ++ (colon ∷ (nc ++ (colon ∷ (cnonce ++ (colon ∷ (qop ++ (colon ∷ ha2))))))))

  abbrev pub expected_response : Text → Text → Text → Text → Authorization → Text
  expected_response method payload user password f = hash_of f.algorithm (
      hash_of f.algorithm (a1 user f.realm password)
      ++ tail_of f.qop f.nonce f.nc f.cnonce
          (hash_of f.algorithm (a2 f.algorithm f.qop method f.uri payload)))

  -- verify_authorization, of a request's method and payload.
  unfoldable pub verify_authorization : Text → Text → Text → Text → Authorization → Bool
  verify_authorization method payload user password f =
      text_eq (expected_response method payload user password f) f.response

  -- generate_authorization: A2 of a REGISTER request, with the payload that came with the challenge, and
  -- the response.
  abbrev pub register_payload : Option Text → Text → Text
  register_payload algorithm [] = codes ":"
  register_payload algorithm (x ∷ xs) = codes ":" ++ hash_of algorithm (x ∷ xs)

  abbrev pub register_a2 : Option Text → Text → Text → Text → Text
  register_a2 algorithm qop uri payload =
      codes "REGISTER:"
      ++ (uri ++ (if text_eq qop auth_int then register_payload algorithm payload else []))

  abbrev pub response_text : Text → Text → Text → Text → Text → Text → Text
  response_text qop ha1 nonce nc cnonce ha2 =
      if is_empty qop
      then ha1 ++ (codes ":" ++ (nonce ++ (codes ":" ++ ha2)))
      else ha1
        ++ (codes ":"
            ++ (nonce
                ++ (codes ":"
                    ++ (nc
                        ++ (codes ":" ++ (cnonce ++ (codes ":" ++ (qop ++ (codes ":" ++ ha2)))))))))

  -- generate_authorization, from the fields of a challenge, the payload, the counter in its printed form
  -- and the random text of the client.
  unfoldable pub generate_authorization :
      Text → Text → Text → Text → Text → Text → Challenge → Authorization
  generate_authorization payload username password uri nc cnonce c = record {
    realm = c.realm;
    nonce = c.nonce;
    uri = uri;
    response = hash_of c.algorithm (
        response_text c.qop (hash_of c.algorithm (register_a1 username c.realm password)) c.nonce nc
          cnonce (hash_of c.algorithm (register_a2 c.algorithm c.qop uri payload)));
    algorithm = some (or_md5 c.algorithm);
    qop = c.qop;
    nc = if is_empty c.qop then [] else nc;
    cnonce = if is_empty c.qop then [] else cnonce;
  }
