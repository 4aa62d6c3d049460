-- ===== src/Sdp/AddressTrip.antt =====
-- src/request/sdp.cpp: the line of a connection and the line of a URI, read as they were written.
use libgb.Base.{
  ℕ, ◌^◌, ◌<◌, ◌≤◌, ◌≡◌, inl, inr, refl, sym, ap, ◌∙◌, true, false, not, ◌&&◌, Bool-cases, none,
  some, List, [], ◌∷◌, ◌++◌, ◌==◌, ltb, leb, codes, arith, &&-true, if◌then◌else◌,
}
use mathlib.Core.List.{append-nil}
use libgb.Message.{Text}
use libgb.Sdp.Types.{ℤ, pos, negsuc, SdpAddressType}
use libgb.Sdp.Numbers.{Library, decimal, decimal_int}
use libgb.Sdp.Fields.{parse_connection_parts, connection_of, int_part, rest_of}
use libgb.Sdp.Parse.{Parsing, parse_line}
use libgb.Sdp.Generate.{is_empty, joined, words, address_type_to_string, connection_suffix}
use libgb.Sdp.Digits.{decimal-Writes}
use libgb.Sdp.Lines.{lacks}
use libgb.Sdp.Plain.{is_word, all_words, all_words-cons, IsFaithful, decimal_word, IsInt}
use libgb.Sdp.SessionTrip.{with_session, address_type_read, address_type_word}

-- The parts behind the address.
abbrev suffix_parts : ℕ → ℕ → List Text
suffix_parts t k =
    if ltb 1 k then decimal t ∷ decimal k ∷ [] else if ltb 0 t then decimal t ∷ [] else []

suffix_joined :
    (address : Text) (t k : ℕ)
    → address ++ connection_suffix (pos t) (pos k) ≡ joined b'/' (address ∷ suffix_parts t k)
unfolding decimal_int
suffix_joined address t k = elim (Bool-cases (ltb 1 k)) [
  | inl several ↦ elim (Bool-cases (ltb 0 t)) [
    | inl some_time ↦ rw (several, some_time) refl
    | inr no_time ↦ rw (several, no_time) refl
  ]
  | inr one ↦ elim (Bool-cases (ltb 0 t)) [
    | inl some_time ↦ rw (one, some_time, append-nil (decimal t)) refl
    | inr no_time ↦ rw (one, no_time) (append-nil address)
  ]
]

suffix_words :
    (c t k : ℕ) → (leb b'0' c && leb c b'9') ≡ false → all_words c (suffix_parts t k) ≡ true
suffix_words c t k other =
    let time_word = decimal_word c t other in
    let num_word = decimal_word c k other in
    elim (Bool-cases (ltb 1 k)) [
      | inl several ↦ rw (several, time_word, num_word) refl
      | inr one ↦ elim (Bool-cases (ltb 0 t)) [
        | inl some_time ↦ rw (one, some_time, time_word) refl
        | inr no_time ↦ rw (one, no_time) refl
      ]
    ]

pub lacks-append :
    (c : ℕ) (xs ys : Text) → lacks c xs ≡ true → lacks c ys ≡ true → lacks c (xs ++ ys) ≡ true
lacks-append c [] ys h g = g
lacks-append c (x ∷ xs) ys h g =
    let (here, more) = &&-true (not (x == c)) (lacks c xs) h in
    rw (here, lacks-append c xs ys more g) refl

filled_append : (w v : Text) → is_empty w ≡ false → is_empty (w ++ v) ≡ false
filled_append [] v h = absurd (cc)
filled_append (x ∷ xs) v h = refl

-- A word before something that lacks the separator.
word_append :
    (c : ℕ) (w v : Text) → is_word c w ≡ true → lacks c v ≡ true → is_word c (w ++ v) ≡ true
word_append c w v h g =
    let (filled, lacking) = &&-true (not (is_empty w)) (lacks c w) h in
    let still : is_empty (w ++ v) ≡ false = filled_append w v (ground arith) in
    rw (still, lacks-append c w v lacking g) refl

joined-lacks :
    (c sep : ℕ) (w : Text) (ws : List Text)
    → (sep == c) ≡ false
    → all_words c (w ∷ ws) ≡ true
    → lacks c (joined sep (w ∷ ws)) ≡ true
joined-lacks c sep w [] other h =
    let (word, more) = &&-true (is_word c w) true h in
    (&&-true (not (is_empty w)) (lacks c w) word).1
joined-lacks c sep w (v ∷ ws) other h =
    let (word, more) = &&-true (is_word c w) (all_words c (v ∷ ws)) h in
    let here = (&&-true (not (is_empty w)) (lacks c w) word).1 in
    let later = joined-lacks c sep v ws other more in
    lacks-append c w (sep ∷ joined sep (v ∷ ws)) here (rw (other, later) refl)

decimal-lacks : (n : ℕ) → lacks b' ' (decimal n) ≡ true
decimal-lacks n =
    (&&-true (not (is_empty (decimal n))) (lacks b' ' (decimal n)) (decimal_word b' ' n refl)).1

suffix-lacks : (t k : ℕ) → lacks b' ' (connection_suffix (pos t) (pos k)) ≡ true
unfolding decimal_int
suffix-lacks t k =
    let seconds = decimal-lacks t in
    let num = decimal-lacks k in
    elim (Bool-cases (ltb 1 k)) [
      | inl several ↦
          let both = lacks-append b' ' (decimal t) (b'/' ∷ decimal k) seconds num in
          elim (Bool-cases (ltb 0 t)) [
            | inl some_time ↦ rw (several, some_time) both
            | inr no_time ↦ rw (several, no_time) both
          ]
      | inr one ↦ elim (Bool-cases (ltb 0 t)) [
        | inl some_time ↦ rw (one, some_time, append-nil (decimal t)) seconds
        | inr no_time ↦ rw (one, no_time) refl
      ]
    ]

module _ (lib : Library) (faithful : IsFaithful lib) where
  ttl_read :
      (t k : ℕ)
      → lib.to_int (decimal t) ≡ some (pos t)
      → int_part lib.to_int (pos 0) (suffix_parts t k) ≡ pos t
  ttl_read t k read = elim (Bool-cases (ltb 1 k)) [
    | inl several ↦ rw (several, read) refl
    | inr one ↦ elim (Bool-cases (ltb 0 t)) [
      | inl some_time ↦ rw (one, some_time, read) refl
      | inr no_time ↦ let nothing : t ≡ 0 = ground arith in rw (one, no_time) (ap pos (sym nothing))
    ]
  ]

  num_read :
      (t k : ℕ)
      → lib.to_int (decimal k) ≡ some (pos k)
      → 1 ≤ k
      → int_part lib.to_int (pos 1) (rest_of (suffix_parts t k)) ≡ pos k
  num_read t k num positive = elim (Bool-cases (ltb 1 k)) [
    | inl several ↦ rw (several, num) refl
    | inr one ↦
        let single : k ≡ 1 = ground arith in
        elim (Bool-cases (ltb 0 t)) [
          | inl some_time ↦ rw (one, some_time) (ap pos (sym single))
          | inr no_time ↦ rw (one, no_time) (ap pos (sym single))
        ]
  ]

  address_read :
      (net_type address : Text) (type : SdpAddressType) (t k : ℕ)
      → is_word b'/' address ≡ true
      → t < 2 ^ 31
      → 1 ≤ k
      → k < 2 ^ 31
      → connection_of lib net_type
          (some type)
          (lib.split (address ++ connection_suffix (pos t) (pos k)) b'/')
        ≡ some (record {
          net_type = net_type;
          addr_type = type;
          address = address;
          ttl = pos t;
          num_addr = pos k;
        })
  address_read net_type address type t k word short several few =
      let parts =
        faithful.splits b'/' address (suffix_parts t k)
          (all_words-cons b'/' address (suffix_parts t k) word (suffix_words b'/' t k refl)) in
      let time_read = faithful.ints (decimal t) t (decimal-Writes t) short in
      let num = faithful.ints (decimal k) k (decimal-Writes k) few in
      rw (suffix_joined address t k, parts, ttl_read t k time_read, num_read t k num several) refl

  pub connection_shown :
      (net_type address : Text) (type : SdpAddressType) (ttl num_addr : ℤ) (p : Parsing)
      → is_word b' ' net_type ≡ true
      → is_word b' ' address ≡ true
      → is_word b'/' address ≡ true
      → IsInt 0 ttl
      → IsInt 1 num_addr
      → p.current ≡ none
      → parse_line lib
          (codes "c="
            ++ words (
                net_type
                ∷ address_type_to_string type
                ∷ (address ++ connection_suffix ttl num_addr)
                ∷ []))
          p
        ≡ some (
            with_session
              (record p.session {
                connection = record {
                  net_type = net_type;
                  addr_type = type;
                  address = address;
                  ttl = ttl;
                  num_addr = num_addr;
                };
              })
              p)
  unfolding parse_line parse_connection_parts
  connection_shown net_type address type (negsuc t) num_addr p net word part short few before =
      absurd short
  connection_shown net_type address type (pos t) (negsuc k) p net word part short few before =
      absurd few
  connection_shown net_type address type (pos t) (pos k) p net word part (low, short) (several, few)
        before =
      let third = address ++ connection_suffix (pos t) (pos k) in
      let last =
        word_append b' ' address (connection_suffix (pos t) (pos k)) word (suffix-lacks t k) in
      let more =
        all_words-cons b' ' (address_type_to_string type) (third ∷ []) (address_type_word type)
          (all_words-cons b' ' third [] last refl) in
      let parts =
        faithful.splits b' ' net_type (address_type_to_string type ∷ (third ∷ []))
          (all_words-cons b' ' net_type (address_type_to_string type ∷ (third ∷ [])) net more) in
      let read =
        ap (λ a. connection_of lib net_type a (lib.split third b'/')) (address_type_read type)
        ∙ address_read net_type address type t k part short several few in
      rw (parts, read, before) refl
