-- ===== src/Sdp/Plain.antt =====
-- src/request/sdp.cpp: what the code relies on in the libraries that read numbers and split texts, and
-- the descriptions whose fields a generated text can hold.
use libgb.Base.{
  ℕ, ◌^◌, ◌<◌, ◌≤◌, ◌≡◌, ◌≢◌, ◌⊎◌, refl, Bool, true, false, not, ◌&&◌, Option, none, some, List, [],
  ◌∷◌, ◌==◌, codes, starts_with, arith, &&-true,
}
use libgb.Message.{Text}
use libgb.Sdp.Types.{
  ℤ, pos, negsuc, unknown_protocol, udp, tcp, TransportProtocol, SetupType, no_component,
  unknown_candidate, PayloadInfo, IceCandidate, Origin, Connection, UriInfo, UriType, simple, http,
  FileType, all_files, SessionInfo, MediaDescription, Description, new_connection_info, new_uri,
}
use libgb.Sdp.Numbers.{Library, Writes, decimal, all_digits, digit}
use libgb.Sdp.Generate.{is_empty, joined}
use libgb.Sdp.Digits.{decimal-IsNumber}
use libgb.Sdp.Lines.{lacks}

-- A word has no separator in it.
abbrev pub is_word : ℕ → Text → Bool
is_word sep w = not (is_empty w) && lacks sep w

abbrev pub all_words : ℕ → List Text → Bool
all_words sep [] = true
all_words sep (w ∷ ws) = is_word sep w && all_words sep ws

pub all_words-cons :
    (sep : ℕ) (w : Text) (ws : List Text)
    → is_word sep w ≡ true
    → all_words sep ws ≡ true
    → all_words sep (w ∷ ws) ≡ true
all_words-cons sep w ws h g = rw (h, g) refl

-- A number in range at the start of a text is read, and words that a separator joins are split.
pub record IsFaithful (lib : Library) : Type 0 where
  pub ints : (text : Text) (n : ℕ) → Writes text n → n < 2 ^ 31 → lib.to_int text ≡ some (pos n)
  pub unsigneds : (text : Text) (n : ℕ) → Writes text n → n < 2 ^ 32 → lib.to_unsigned text ≡ some n
  pub unsigneds64 :
      (text : Text) (n : ℕ) → Writes text n → n < 2 ^ 64 → lib.to_unsigned64 text ≡ some n
  pub splits :
      (sep : ℕ) (w : Text) (ws : List Text)
      → all_words sep (w ∷ ws) ≡ true
      → lib.split (joined sep (w ∷ ws)) sep ≡ w ∷ ws

lacks-digits :
    (c : ℕ) (text : Text) → digit c ≡ false → all_digits text ≡ true → lacks c text ≡ true
lacks-digits c [] other all = refl
lacks-digits c (x ∷ xs) other all =
    let (here, more) = &&-true (digit x) (all_digits xs) all in
    let rest = lacks-digits c xs other more in
    let differs : (x == c) ≡ false = ground arith in ground arith

-- A number is a word for any separator that is no digit.
pub decimal_word : (c n : ℕ) → digit c ≡ false → is_word c (decimal n) ≡ true
decimal_word c n other =
    let (value, all, (first, digits, same)) = decimal-IsNumber n in
    let rest = lacks-digits c (decimal n) other all in
    let filled : is_empty (decimal n) ≡ false = rw same refl in rw (rest, filled) refl

abbrev pub IsInt : ℕ → ℤ → Type 0
IsInt low (pos n) = (low ≤ n) × (n < 2 ^ 31)
IsInt low (negsuc n) = ⊥

pub record PlainOrigin (o : Origin) : Type 0 where
  pub username : is_word b' ' o.username ≡ true
  pub session_id : is_word b' ' o.session_id ≡ true
  pub session_version : is_word b' ' o.session_version ≡ true
  pub net_type : is_word b' ' o.net_type ≡ true
  pub address : is_word b' ' o.address ≡ true

-- A connection with an address: the number of addresses is not 0.
pub record ShownConnection (c : Connection) : Type 0 where
  pub net_type : is_word b' ' c.net_type ≡ true
  pub word : is_word b' ' c.address ≡ true
  pub part : is_word b'/' c.address ≡ true
  pub ttl : IsInt 0 c.ttl
  pub num_addr : IsInt 1 c.num_addr

abbrev pub PlainConnection : Connection → Type 0
PlainConnection c = (c ≡ new_connection_info) ⊎ ShownConnection c

-- A name without a colon, or a whole address that starts with http:// and says nothing of files.
abbrev pub PlainUriType : Option UriType → FileType → Text → Type 0
PlainUriType none file_type content = ⊥
PlainUriType (some simple) file_type content = is_word b':' content ≡ true
PlainUriType (some http) file_type content =
    (file_type ≡ all_files) × (starts_with (codes "http://") content ≡ true)

abbrev pub PlainUri : UriInfo → Type 0
PlainUri u = (u ≡ new_uri) ⊎ PlainUriType u.type u.file_type u.content

abbrev pub PlainOptions : List Text → Type 0
PlainOptions [] = Unit
PlainOptions (o ∷ []) = (is_word b' ' o ≡ true) × (lacks 0 o ≡ true)
PlainOptions (o ∷ p ∷ more) = ⊥

-- A session that a text can hold: both or none of the two names of ICE, one ICE option at most, which no
-- 0 cuts, and no attributes of its own.
pub record PlainSession (s : SessionInfo) : Type 0 where
  pub version : IsInt 0 s.version
  pub origin : PlainOrigin s.origin
  pub connection : PlainConnection s.connection
  pub uri : PlainUri s.uri
  pub start_time : s.start_time < 2 ^ 64
  pub end_time : s.end_time < 2 ^ 64
  pub ice : is_empty s.ice_ufrag ≡ is_empty s.ice_pwd
  pub ice_options : PlainOptions s.ice_options
  pub attributes : s.attributes ≡ []

-- A candidate: a related port comes with a related address, since the code reads them by their places.
pub record PlainCandidate (c : IceCandidate) : Type 0 where
  pub foundation : is_word b' ' c.foundation ≡ true
  pub component_id : c.component_id ≢ no_component
  pub transport : c.transport ≢ unknown_protocol
  pub type : c.type ≢ unknown_candidate
  pub port : c.port < 2 ^ 16
  pub rport : c.rport < 2 ^ 16
  pub address : is_word b' ' c.address ≡ true
  pub related : (is_word b' ' c.raddr ≡ true) ⊎ ((c.raddr ≡ []) × (c.rport ≡ 0))

abbrev pub AllCandidates : List IceCandidate → Type 0
AllCandidates [] = Unit
AllCandidates (c ∷ cs) = PlainCandidate c × AllCandidates cs

-- A payload has a name, without which it has no line of its own.
pub record PlainPayload (p : PayloadInfo) : Type 0 where
  pub payload : p.payload < 2 ^ 8
  pub sample_rate : p.sample_rate < 2 ^ 32
  pub name : is_empty p.name ≡ false

abbrev pub AllPayloads : List PayloadInfo → Type 0
AllPayloads [] = Unit
AllPayloads (p ∷ ps) = PlainPayload p × AllPayloads ps

-- The setup is written for TCP and not for UDP.
abbrev pub PlainSetup : TransportProtocol → Option SetupType → Bool → Type 0
PlainSetup unknown_protocol setup new_connection = ⊥
PlainSetup udp setup new_connection = (setup ≡ none) × (new_connection ≡ false)
PlainSetup tcp none new_connection = ⊥
PlainSetup tcp (some setup) new_connection = Unit

-- A medium that a text can hold: no address and no attributes of its own.
pub record PlainMedia (m : MediaDescription) : Type 0 where
  pub port : m.port < 2 ^ 16
  pub stream_number : m.stream_number < 2 ^ 16
  pub download_speed : IsInt 0 m.download_speed
  pub file_size : m.file_size < 2 ^ 64
  pub setup : PlainSetup m.proto m.setup m.new_connection
  pub payloads : AllPayloads m.payloads
  pub connection : m.connection ≡ new_connection_info
  pub candidates : AllCandidates m.candidates
  pub ssrc : m.ssrc < 2 ^ 32
  pub attributes : m.attributes ≡ []

abbrev pub AllMedia : List MediaDescription → Type 0
AllMedia [] = Unit
AllMedia (m ∷ ms) = PlainMedia m × AllMedia ms

-- A description that a text can hold.
pub record PlainDescription (d : Description) : Type 0 where
  pub session : PlainSession d.session
  pub media : AllMedia d.media
