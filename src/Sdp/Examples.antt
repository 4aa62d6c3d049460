-- ===== src/Sdp/Examples.antt =====
-- A description of a stream, and the theorems at it.
use libgb.Base.{◌≡◌, refl, true, false, some, [], ◌∷◌, ◌++◌, codes, inl, inr, arith}
use libgb.Message.{Text}
use libgb.Sdp.Types.{
  pos, udp, tcp, active, recvonly, ip4, relay, rtp, IceCandidate, simple, manual, SessionInfo,
  MediaDescription, Description, new_session, new_media, new_description,
}
use libgb.Sdp.Numbers.{decimal, decimal_int}
use libgb.Sdp.Parse.{parse, get_lines}
use libgb.Sdp.Attributes.{with_attributes, parse-generate_attributes}
use libgb.Sdp.Errors.{parse_fails}
use libgb.Sdp.Generate.{generate, calculate_priority}
use libgb.Sdp.Plain.{PlainSession, PlainMedia, PlainDescription}
use libgb.Sdp.RoundTrip.{parse-generate}
use libgb.Sdp.Concrete.{concrete, concrete-IsFaithful}

abbrev device : Text
device = codes "34020000001320000001"

abbrev here : Text
here = codes "192.168.1.2"

abbrev session : SessionInfo
session = record new_session {
  origin = record {
    username = device;
    session_id = codes "0";
    session_version = codes "0";
    net_type = codes "IN";
    addr_type = ip4;
    address = here;
  };
  connection = record {
    net_type = codes "IN";
    addr_type = ip4;
    address = here;
    ttl = pos 0;
    num_addr = pos 1;
  };
  uri = record { type = some simple; file_type = manual; content = device };
}

abbrev relayed : IceCandidate
relayed = record {
  foundation = codes "1";
  component_id = rtp;
  transport = udp;
  type = relay;
  port = 30000;
  rport = 30002;
  address = here;
  raddr = codes "10.0.0.7";
}

abbrev medium : MediaDescription
medium = record new_media {
  port = 30000;
  stream_number = 1;
  proto = tcp;
  payloads = record { payload = 96; sample_rate = 90000; name = codes "PS" } ∷ [];
  direction = recvonly;
  setup = some active;
  new_connection = true;
  candidates = relayed ∷ [];
  ssrc = 100000001;
}

abbrev described : Description
described = record { session = session; media = medium ∷ medium ∷ [] }

session_plain : PlainSession session
session_plain = record {
  version = (omega arith, omega arith);
  origin = record {
    username = refl;
    session_id = refl;
    session_version = refl;
    net_type = refl;
    address = refl;
  };
  connection = inr (record {
    net_type = refl;
    word = refl;
    part = refl;
    ttl = (omega arith, omega arith);
    num_addr = (omega arith, omega arith);
  });
  uri = inr refl;
  start_time = omega arith;
  end_time = omega arith;
  ice = refl;
  ice_options = tt;
  attributes = refl;
}

medium_plain : PlainMedia medium
medium_plain = record {
  port = omega arith;
  stream_number = omega arith;
  download_speed = (omega arith, omega arith);
  file_size = omega arith;
  setup = tt;
  payloads = (record { payload = omega arith; sample_rate = omega arith; name = refl }, tt);
  connection = refl;
  candidates = (
    record {
      foundation = refl;
      component_id = λ h. cc;
      transport = λ h. cc;
      type = λ h. cc;
      port = omega arith;
      rport = omega arith;
      address = refl;
      related = inl refl;
    },
    tt,
  );
  ssrc = omega arith;
  attributes = refl;
}

parse-generate_example : parse concrete (generate described) new_description ≡ (true, described)
unfolding decimal decimal_int calculate_priority
parse-generate_example =
    parse-generate concrete concrete-IsFaithful described
      (record { session = session_plain; media = (medium_plain, (medium_plain, tt)) }) refl

abbrev plain_session : PlainDescription (record { session = session; media = [] })
plain_session = record { session = session_plain; media = tt }

-- An attribute "level" with the value "3" comes back as one that is named "level=3".
parse-generate_attributes_example :
    parse concrete
      (generate (
        with_attributes
          ((codes "level", codes "3") ∷ [])
          (record { session = session; media = [] })))
      new_description
    ≡ (
      true,
      with_attributes ((codes "level=3", []) ∷ []) (record { session = session; media = [] }),
    )
unfolding decimal decimal_int
parse-generate_attributes_example =
    parse-generate_attributes concrete concrete-IsFaithful
      (record { session = session; media = [] }) ((codes "level", codes "3") ∷ []) plain_session
      refl refl

-- A connection whose address type is written in small letters.
parse_fails_example :
    (parse concrete (codes "v=0" ++ (10 ∷ codes "c=IN ip4 10.0.0.7")) new_description).0 ≡ false
unfolding get_lines
parse_fails_example =
    parse_fails concrete (codes "v=0" ++ (10 ∷ codes "c=IN ip4 10.0.0.7")) new_description

-- An address of a slash only.
slash_fails : (parse concrete (codes "c=IN IP4 /") new_description).0 ≡ false
unfolding parse
slash_fails = refl
