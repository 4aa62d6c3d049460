-- ===== src/Routing/Examples.antt =====
-- src/platform_helper.cpp: tests of the routing of messages.
use libgb.Base.{true, false, Option, none, some, [], ◌∷◌, ◌≡◌, refl, codes}
use libgb.Message.{MessageRootType, query, notify, catalog, keepalive, MessageCmdType}
use libgb.Routing.{
  Incoming, Document, Platforms, Handlers, superior, subordinate, CharEncodingType, gb2312, utf8,
  on_recv_message, lookup,
}
use libgb.Routing.Sides.{on_recv_message-called, is_known, is_superior, from_superior, Handled}

abbrev handlers : Handlers
handlers = record {
  super_query = λ d. 200;
  super_control = λ d. 200;
  super_notify = λ d. 404;
  subordinate_notify = λ d. 200;
  on_response = λ side d. 404;
}

abbrev document_of : MessageRootType → MessageCmdType → CharEncodingType → Document
document_of root command encoding = record {
  parses = true;
  loads = true;
  root = root;
  command = command;
  encoding = encoding;
}

abbrev request_of : Document → Option Document → Incoming
request_of d converted = record {
  has_payload = true;
  platform_id = codes "34";
  has_server = true;
  has_address = true;
  document = d;
  from_gbk = none;
  from_gb2312 = converted;
}

abbrev known_platforms : Platforms
known_platforms = record {
  superiors = (codes "34", gb2312) ∷ [];
  subordinates = (codes "35", utf8) ∷ (codes "34", CharEncodingType.invalid) ∷ [];
}

-- A query in the encoding of the superior platform's account, read again.
abbrev catalog_query : Incoming
catalog_query =
    request_of (document_of query catalog CharEncodingType.invalid)
      (some (document_of query catalog gb2312))

query_outcome : on_recv_message handlers catalog_query known_platforms ≡ record {
  reply = some 200;
  called = some (superior, query);
  address_taken = false;
  platforms = known_platforms;
}
unfolding on_recv_message
query_outcome = refl

-- A keepalive teaches the encoding of a subordinate platform.
keepalive_outcome :
    on_recv_message handlers (request_of (document_of notify keepalive gb2312) none) known_platforms
    ≡ record {
      reply = some 200;
      called = some (subordinate, notify);
      address_taken = true;
      platforms = record {
        superiors = (codes "34", gb2312) ∷ [];
        subordinates = (codes "35", utf8) ∷ (codes "34", gb2312) ∷ [];
      };
    }
unfolding on_recv_message
keepalive_outcome = refl

-- A keepalive of a platform that is not known has no reply.
unknown_keepalive :
    (on_recv_message handlers
      (request_of (document_of notify keepalive gb2312) none)
      (record { superiors = []; subordinates = [] })).reply
    ≡ none
unfolding on_recv_message
unknown_keepalive = refl

-- A converted text whose root is not known has no reply.
converted_root :
    (on_recv_message handlers
      (request_of
        (document_of query catalog gb2312)
        (some (document_of MessageRootType.invalid catalog gb2312)))
      known_platforms).reply
    ≡ none
unfolding on_recv_message
converted_root = refl

query_called :
    (on_recv_message handlers catalog_query known_platforms).called ≡ some (superior, query)
unfolding on_recv_message
query_called = refl

on_recv_message-called_example :
    (is_superior superior ≡ from_superior query catalog)
    × (is_known (lookup (codes "34") known_platforms.superiors) ≡ true)
    × Handled handlers catalog_query superior query
        (on_recv_message handlers catalog_query known_platforms)
on_recv_message-called_example =
    on_recv_message-called handlers catalog_query known_platforms superior query query_called
