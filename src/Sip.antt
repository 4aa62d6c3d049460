-- ===== src/Sip.antt =====
-- The classes of SIP status codes. The tests SIP_IS_SIP_INFO, SIP_IS_SIP_SUCCESS,
-- SIP_IS_SIP_REDIRECT, SIP_IS_SIP_CLIENT_ERROR and SIP_IS_SIP_SERVER_ERROR are macros of the SIP
-- library, which is not part of this repository: the components take them as this interface.
use libgb.Base.{ℕ, Bool, ◌&&◌, leb, ltb}

pub record SipCodes : Type 0 where
  pub is_info : ℕ → Bool
  pub is_success : ℕ → Bool
  pub is_redirect : ℕ → Bool
  pub is_client_error : ℕ → Bool
  pub is_server_error : ℕ → Bool

-- The classes by the hundreds, as RFC 3261 has them.
abbrev pub rfc_codes : SipCodes
rfc_codes = record {
  is_info = λ c. leb 100 c && ltb c 200;
  is_success = λ c. leb 200 c && ltb c 300;
  is_redirect = λ c. leb 300 c && ltb c 400;
  is_client_error = λ c. leb 400 c && ltb c 500;
  is_server_error = λ c. leb 500 c && ltb c 600;
}
