-- ===== src/Routing.antt =====
-- src/platform_helper.cpp: on_recv_message, which checks a MESSAGE request, finds the platform that it
-- comes from, and gives it to that platform's handler for its root. What the XML library makes of the
-- payload, and of the payload converted from another encoding, is given with the request.
pub mod Sides
mod Examples
use libgb.Base.{
  ℕ, zero, suc, Bool, true, false, not, ◌||◌, Option, none, some, List, [], ◌∷◌, if◌then◌else◌,
  text_eq,
}
use libgb.Message
use libgb.Message.{
  Text, MessageRootType, query, control, notify, response, MessageCmdType, broadcast, keepalive,
}

pub data CharEncodingType : Type 0 where
  invalid utf8 gb2312 gbk : CharEncodingType

-- What is read of a document: whether it is one, whether the message loads, and the message's fields.
pub record Document : Type 0 where
  pub parses : Bool
  pub loads : Bool
  pub root : MessageRootType
  pub command : MessageCmdType
  pub encoding : CharEncodingType

-- A request, with the document of its payload, and those of its text converted from the two other
-- encodings, if that text is not empty.
pub record Incoming : Type 0 where
  pub has_payload : Bool
  pub platform_id : Text
  pub has_server : Bool
  pub has_address : Bool
  pub document : Document
  pub from_gbk : Option Document
  pub from_gb2312 : Option Document

pub data Side : Type 0 where
  superior subordinate : Side

-- The platforms of a server, each with the encoding of its account.
pub record Platforms : Type 0 where
  pub superiors : List (Text × CharEncodingType)
  pub subordinates : List (Text × CharEncodingType)

-- The codes of the handlers that the two kinds of platforms have of their own, and of on_response.
-- None is 0, with which the handler has nothing replied.
pub record Handlers : Type 0 where
  pub super_query : Document → ℕ
  pub super_control : Document → ℕ
  pub super_notify : Document → ℕ
  pub subordinate_notify : Document → ℕ
  pub on_response : Side → Document → ℕ

-- What is done: the code of the reply, if there is one, the platform's side and the root of the handler
-- that was called, if one was, and whether the platform's address was taken from the request.
pub record Outcome : Type 0 where
  pub reply : Option ℕ
  pub called : Option (Side × MessageRootType)
  pub address_taken : Bool
  pub platforms : Platforms

abbrev pub refused : ℕ → Bool → Platforms → Outcome
refused code taken ps = record {
  reply = some code;
  called = none;
  address_taken = taken;
  platforms = ps;
}

-- The handlers, virtual or not: a kind of platform that has none of its own refuses with 400.
unfoldable pub call : Handlers → Side → MessageRootType → Document → ℕ
call h superior query d = h.super_query d
call h subordinate query d = 400
call h superior control d = h.super_control d
call h subordinate control d = 400
call h superior notify d = h.super_notify d
call h subordinate notify d = h.subordinate_notify d
call h side response d = h.on_response side d
call h side MessageRootType.invalid d = 0

abbrev pub is_broadcast : MessageCmdType → Bool
is_broadcast broadcast = true
is_broadcast _ = false

-- Queries and controls come from a superior platform, and so do broadcasts.
unfoldable pub side_of : MessageRootType → MessageCmdType → Side
side_of query command = superior
side_of control command = superior
side_of notify command = if is_broadcast command then superior else subordinate
side_of _ command = subordinate

abbrev pub lookup : Text → List (Text × CharEncodingType) → Option CharEncodingType
lookup id [] = none
lookup id ((k, e) ∷ more) = let later = lookup id more in if text_eq k id then some e else later

abbrev pub platforms_of : Side → Platforms → List (Text × CharEncodingType)
platforms_of superior ps = ps.superiors
platforms_of subordinate ps = ps.subordinates

abbrev pub learn_in :
    Text → CharEncodingType → List (Text × CharEncodingType) → List (Text × CharEncodingType)
learn_in id e [] = []
learn_in id e ((k, old) ∷ more) =
    let rest = learn_in id e more in if text_eq k id then (k, e) ∷ more else (k, old) ∷ rest

abbrev pub learn : Side → Text → CharEncodingType → Platforms → Platforms
learn superior id e ps = record ps { superiors = learn_in id e ps.superiors }
learn subordinate id e ps = record ps { subordinates = learn_in id e ps.subordinates }

-- A message without an encoding has its platform's, and a platform without one takes the message's.
abbrev pub encoding_of : CharEncodingType → CharEncodingType → CharEncodingType
encoding_of invalid known = known
encoding_of given known = given

abbrev pub learned : Side → Text → CharEncodingType → CharEncodingType → Platforms → Platforms
learned side id invalid known ps = ps
learned side id given invalid ps = learn side id given ps
learned side id given known ps = ps

abbrev pub is_keepalive : MessageCmdType → Bool
is_keepalive keepalive = true
is_keepalive _ = false

-- A code above 0 is replied.
abbrev pub replied : ℕ → Option ℕ
replied zero = none
replied (suc n) = some (suc n)

abbrev pub root_called : Side → MessageRootType → Option (Side × MessageRootType)
root_called side MessageRootType.invalid = none
root_called side root = some (side, root)

abbrev pub hand_over : Handlers → Side → Bool → Platforms → Document → Outcome
hand_over h side taken ps d = record {
  reply = replied (call h side d.root d);
  called = root_called side d.root;
  address_taken = taken;
  platforms = ps;
}

-- The converted text is read again, if there is any.
abbrev pub read_again : Handlers → Side → Bool → Platforms → Document → Option Document → Outcome
read_again h side taken ps d none = hand_over h side taken ps d
read_again h side taken ps d (some converted) =
    if converted.parses
    then (if converted.loads then hand_over h side taken ps converted else refused 400 taken ps)
    else refused 400 taken ps

abbrev pub converted_of : CharEncodingType → Incoming → Option Document
converted_of gbk r = r.from_gbk
converted_of gb2312 r = r.from_gb2312
converted_of _ r = none

-- Only a subordinate platform's address is taken from the request.
abbrev pub takes_address : Side → Incoming → Bool
takes_address superior r = false
takes_address subordinate r = r.has_address

-- The platform, by its side and its id.
unfoldable pub with_platform :
    Handlers → Side → Option CharEncodingType → Incoming → Platforms → Outcome
unfolding call
with_platform h side none r ps =
    if is_keepalive r.document.command
    then record { reply = none; called = none; address_taken = false; platforms = ps }
    else refused 401 false ps
with_platform h side (some known) r ps =
    read_again h side (takes_address side r)
      (learned side r.platform_id r.document.encoding known ps) r.document
      (converted_of (encoding_of r.document.encoding known) r)

abbrev pub is_invalid_root : MessageRootType → Bool
is_invalid_root MessageRootType.invalid = true
is_invalid_root _ = false

abbrev pub is_invalid_command : MessageCmdType → Bool
is_invalid_command MessageCmdType.invalid = true
is_invalid_command _ = false

-- What of a document is refused: it is none, does not load, or has no known root or command.
abbrev pub is_refused : Document → Bool
is_refused d = not d.parses || not d.loads || is_invalid_root d.root || is_invalid_command d.command

abbrev pub is_empty : Text → Bool
is_empty [] = true
is_empty (x ∷ xs) = false

-- on_recv_message.
unfoldable pub on_recv_message : Handlers → Incoming → Platforms → Outcome
unfolding with_platform side_of
on_recv_message h r ps =
    if not r.has_payload || is_empty r.platform_id
    then refused 400 false ps
    else if not r.has_server
    then refused 503 false ps
    else if is_refused r.document
    then refused 400 false ps
    else with_platform h (side_of r.document.root r.document.command)
        (lookup r.platform_id (platforms_of (side_of r.document.root r.document.command) ps)) r ps
