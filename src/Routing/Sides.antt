-- ===== src/Routing/Sides.antt =====
-- src/platform_helper.cpp: whose handler on_recv_message calls.
use libgb.Base.{
  ℕ, Bool, true, false, not, ◌||◌, Option, none, some, if◌then◌else◌, ◌≡◌, refl, sym, ap, ◌∙◌,
  subst, if_elim, if_cases, ◌⊎◌, inl, inr, arith,
}
use libgb.Message.{MessageRootType, MessageCmdType, query, control, notify, response}
use libgb.Routing.{
  Incoming, Document, Side, superior, subordinate, Platforms, Handlers, Outcome, CharEncodingType,
  on_recv_message, with_platform, side_of, lookup, platforms_of, read_again, hand_over, root_called,
  refused, call, replied, gbk, gb2312, utf8, is_empty, is_refused, converted_of, encoding_of,
}

abbrev pub is_known : Option CharEncodingType → Bool
is_known none = false
is_known (some e) = true

abbrev pub is_superior : Side → Bool
is_superior superior = true
is_superior subordinate = false

-- The requests that a superior platform sends: queries, controls and broadcasts.
abbrev pub from_superior : MessageRootType → MessageCmdType → Bool
from_superior query command = true
from_superior control command = true
from_superior notify MessageCmdType.broadcast = true
from_superior root command = false

-- A document of a request: that of its payload, or of its text converted from another encoding.
abbrev pub IsOf : Document → Incoming → Type 0
IsOf d r = (d ≡ r.document) ⊎ ((r.from_gbk ≡ some d) ⊎ (r.from_gb2312 ≡ some d))

-- The handler of a document's root was called, of this side, and what it returned is replied.
abbrev pub Handled : Handlers → Incoming → Side → MessageRootType → Outcome → Type 0
Handled h r side root o =
    (d : Document) × IsOf d r
    × (d.root ≡ root)
    × (d.parses ≡ true)
    × (d.loads ≡ true)
    × (o.reply ≡ replied (call h side root d))

-- What was called, seen from a platform of this side that may be known.
abbrev Fits : Handlers → Incoming → Side → Bool → Outcome → Type 0
Fits h r side known o =
    (t : Side) (root : MessageRootType)
    → o.called ≡ some (t, root)
    → (t ≡ side) × (known ≡ true) × Handled h r side root o

refused-Fits :
    (h : Handlers) (r : Incoming) (side : Side) (b : Bool) (code : ℕ) (taken : Bool)
    (ps : Platforms)
    → Fits h r side b (refused code taken ps)
refused-Fits h r side b code taken ps t root called = cc

root_called-inv :
    (side t : Side) (of root : MessageRootType)
    → root_called side of ≡ some (t, root)
    → (t ≡ side) × (of ≡ root)
root_called-inv side t MessageRootType.invalid root called = cc
root_called-inv side t query root called = (cc, cc)
root_called-inv side t control root called = (cc, cc)
root_called-inv side t notify root called = (cc, cc)
root_called-inv side t response root called = (cc, cc)

hand_over-Fits :
    (h : Handlers) (r : Incoming) (side : Side) (taken : Bool) (ps : Platforms) (d : Document)
    → IsOf d r
    → d.parses ≡ true
    → d.loads ≡ true
    → Fits h r side true (hand_over h side taken ps d)
hand_over-Fits h r side taken ps d of parses loads t root called =
    let (same, given) = root_called-inv side t d.root root called in
    (same, refl, (d, of, given, parses, loads, ap (λ x. replied (call h side x d)) given))

converted-IsOf :
    (e : CharEncodingType) (r : Incoming) (d : Document) → converted_of e r ≡ some d → IsOf d r
converted-IsOf CharEncodingType.invalid r d h = absurd (cc)
converted-IsOf utf8 r d h = absurd (cc)
converted-IsOf gb2312 r d h = inr (inr h)
converted-IsOf gbk r d h = inr (inl h)

read_again-Fits :
    (h : Handlers) (r : Incoming) (side : Side) (taken : Bool) (ps : Platforms)
    (again : Option Document)
    → r.document.parses ≡ true
    → r.document.loads ≡ true
    → ((d : Document) → again ≡ some d → IsOf d r)
    → Fits h r side true (read_again h side taken ps r.document again)
read_again-Fits h r side taken ps none parses loads of =
    hand_over-Fits h r side taken ps r.document (inl refl) parses loads
read_again-Fits h r side taken ps (some c) parses loads of =
    if_cases (Fits h r side true) c.parses _ _
      (λ read.
        if_cases (Fits h r side true) c.loads _ _
          (λ loaded. hand_over-Fits h r side taken ps c (of c refl) read loaded)
          (λ no. refused-Fits h r side true 400 taken ps))
      (λ no. refused-Fits h r side true 400 taken ps)

with_platform-Fits :
    (h : Handlers) (side : Side) (e : Option CharEncodingType) (r : Incoming) (ps : Platforms)
    → r.document.parses ≡ true
    → r.document.loads ≡ true
    → Fits h r side (is_known e) (with_platform h side e r ps)
unfolding with_platform
with_platform-Fits h side none r ps parses loads =
    if_elim (Fits h r side false) _ _ _
      (λ t root (called : ◌≡◌ {A = Option (Side × MessageRootType)} none (some (t, root))). cc)
      (refused-Fits h r side false 401 false ps)
with_platform-Fits h side (some e) r ps parses loads =
    read_again-Fits h r side _ _ _ parses loads
      (converted-IsOf (encoding_of r.document.encoding e) r)

-- A request that a guard lets through.
guard-Fits :
    (h : Handlers) (r : Incoming) (side : Side) (known guard : Bool) (code : ℕ) (ps : Platforms)
    (o : Outcome)
    → (guard ≡ false → Fits h r side known o)
    → Fits h r side known (if guard then refused code false ps else o)
guard-Fits h r side known guard code ps o fits =
    if_cases (Fits h r side known) guard (refused code false ps) o
      (λ held. refused-Fits h r side known code false ps) fits

side_of-from_superior :
    (root : MessageRootType) (command : MessageCmdType)
    → is_superior (side_of root command) ≡ from_superior root command
unfolding side_of
side_of-from_superior root command = ground arith

-- When on_recv_message calls a handler, the handler is a superior platform's exactly if the document
-- read first is a query, a control or a broadcast, and a subordinate's otherwise, and the server knows
-- a platform of that kind under the request's id. The handler is that of the root of a document that
-- could be read and loaded, which is the first or the one of the text converted from another encoding,
-- and what it returns for that document is replied if it is above 0.
pub on_recv_message-called :
    (h : Handlers) (r : Incoming) (ps : Platforms) (t : Side) (root : MessageRootType)
    → (on_recv_message h r ps).called ≡ some (t, root)
    → (is_superior t ≡ from_superior r.document.root r.document.command)
      × (is_known (lookup r.platform_id (platforms_of t ps)) ≡ true)
      × Handled h r t root (on_recv_message h r ps)
unfolding on_recv_message
on_recv_message-called h r ps t root called =
    let s = side_of r.document.root r.document.command in
    let e = lookup r.platform_id (platforms_of s ps) in
    let fits : Fits h r s (is_known e) (on_recv_message h r ps) =
      guard-Fits h r s (is_known e) (not r.has_payload || is_empty r.platform_id) 400 ps _ (λ given.
        guard-Fits h r s (is_known e) (not r.has_server) 503 ps _ (λ there.
          guard-Fits h r s (is_known e) (is_refused r.document) 400 ps _
            (λ sound. with_platform-Fits h s e r ps (ground arith) (ground arith)))) in
    let (same, known, handled) = fits t root called in
    (
      ap is_superior same ∙ side_of-from_superior r.document.root r.document.command,
      ap (λ x. is_known (lookup r.platform_id (platforms_of x ps))) same ∙ known,
      subst (λ x. Handled h r x root (on_recv_message h r ps)) (sym same) handled,
    )
