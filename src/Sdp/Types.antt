-- ===== src/Sdp/Types.antt =====
-- include/gb28181/request/sdp.h: the data of a session description. An unordered map is a list of keys
-- and values, without a key twice; a member that the source leaves uninitialized has no value at first.
use libgb.Base.{ℕ, Bool, false, Option, none, List, [], ◌∷◌, if◌then◌else◌, text_eq, codes}
use libgb.Message.{Text}
use libgb.Sdp.{SessionType, play}

-- An int: a number that is not negative, or -1 less the number.
pub data ℤ : Type 0 where
  pos negsuc : ℕ → ℤ

pub data TransportProtocol : Type 0 where
  unknown_protocol udp tcp : TransportProtocol

pub data SetupType : Type 0 where
  active passive actpass : SetupType

pub data Direction : Type 0 where
  sendrecv sendonly recvonly inactive : Direction

pub data SdpAddressType : Type 0 where
  ip4 ip6 : SdpAddressType

pub data IceCandidateType : Type 0 where
  host srflx prflx relay unknown_candidate : IceCandidateType

pub data IceComponentType : Type 0 where
  no_component rtp rtcp : IceComponentType

pub record PayloadInfo : Type 0 where
  pub payload : ℕ
  pub sample_rate : ℕ
  pub name : Text

pub record IceCandidate : Type 0 where
  pub foundation : Text
  pub component_id : IceComponentType
  pub transport : TransportProtocol
  pub type : IceCandidateType
  pub port : ℕ
  pub rport : ℕ
  pub address : Text
  pub raddr : Text

pub record Origin : Type 0 where
  pub username : Text
  pub session_id : Text
  pub session_version : Text
  pub net_type : Text
  pub addr_type : SdpAddressType
  pub address : Text

pub record Connection : Type 0 where
  pub net_type : Text
  pub addr_type : SdpAddressType
  pub address : Text
  pub ttl : ℤ
  pub num_addr : ℤ

pub data UriType : Type 0 where
  simple http : UriType

pub data FileType : Type 0 where
  all_files manual alarm time : FileType

pub record UriInfo : Type 0 where
  pub type : Option UriType
  pub file_type : FileType
  pub content : Text

abbrev pub Attributes : Type 0
Attributes = List (Text × Text)

pub record SessionInfo : Type 0 where
  pub version : ℤ
  pub origin : Origin
  pub session_type : SessionType
  pub connection : Connection
  pub uri : UriInfo
  pub start_time : ℕ
  pub end_time : ℕ
  pub ice_lite : Bool
  pub ice_ufrag : Text
  pub ice_pwd : Text
  pub ice_options : List Text
  pub attributes : Attributes

pub data MediaType : Type 0 where
  video audio : MediaType

pub record MediaDescription : Type 0 where
  pub media_type : MediaType
  pub port : ℕ
  pub stream_number : ℕ
  pub download_speed : ℤ
  pub file_size : ℕ
  pub proto : TransportProtocol
  pub payloads : List PayloadInfo
  pub direction : Direction
  pub connection : Connection
  pub setup : Option SetupType
  pub new_connection : Bool
  pub ice_ufrag : Text
  pub ice_pwd : Text
  pub candidates : List IceCandidate
  pub ssrc : ℕ
  pub f_param : Text
  pub attributes : Attributes

-- SdpDescription, with its session and its media.
pub record Description : Type 0 where
  pub session : SessionInfo
  pub media : List MediaDescription

abbrev pub new_origin : Origin
new_origin = record {
  username = [];
  session_id = codes "0";
  session_version = codes "0";
  net_type = codes "IN";
  addr_type = ip4;
  address = [];
}

abbrev pub new_connection_info : Connection
new_connection_info = record {
  net_type = codes "IN";
  addr_type = ip4;
  address = [];
  ttl = pos 0;
  num_addr = pos 1;
}

abbrev pub new_candidate : IceCandidate
new_candidate = record {
  foundation = [];
  component_id = no_component;
  transport = unknown_protocol;
  type = unknown_candidate;
  port = 0;
  rport = 0;
  address = [];
  raddr = [];
}

abbrev pub new_uri : UriInfo
new_uri = record { type = none; file_type = all_files; content = [] }

abbrev pub new_session : SessionInfo
new_session = record {
  version = pos 0;
  origin = new_origin;
  session_type = play;
  connection = new_connection_info;
  uri = new_uri;
  start_time = 0;
  end_time = 0;
  ice_lite = false;
  ice_ufrag = [];
  ice_pwd = [];
  ice_options = [];
  attributes = [];
}

abbrev pub new_media : MediaDescription
new_media = record {
  media_type = video;
  port = 0;
  stream_number = 0;
  download_speed = pos 0;
  file_size = 0;
  proto = udp;
  payloads = [];
  direction = sendrecv;
  connection = new_connection_info;
  setup = none;
  new_connection = false;
  ice_ufrag = [];
  ice_pwd = [];
  candidates = [];
  ssrc = 0;
  f_param = [];
  attributes = [];
}

-- SdpDescription as it is made: no media.
abbrev pub new_description : Description
new_description = record { session = new_session; media = [] }

-- emplace: a key that is there keeps its value.
abbrev pub emplace : Text → Text → Attributes → Attributes
emplace k v [] = (k, v) ∷ []
emplace k v ((j, w) ∷ more) =
    let rest = emplace k v more in if text_eq k j then (j, w) ∷ more else (j, w) ∷ rest
