-- ===== src/Sdp.antt =====
-- src/request/sdp.cpp and include/gb28181/request/sdp.h, as far as invite sessions use them: what
-- they read of a description, and the interface of its text form.
pub mod Types
pub mod Numbers
pub mod Fields
pub mod Parse
pub mod Generate
pub mod Digits
pub mod Lines
pub mod Plain
pub mod SessionTrip
pub mod AddressTrip
pub mod UriTrip
pub mod SessionBlocks
pub mod SessionRead
pub mod Scanned
pub mod MediaTrip
pub mod CandidateTrip
pub mod MediaBlocks
pub mod NumberBlocks
pub mod RoundTrip
pub mod Attributes
pub mod Errors
mod Concrete
mod Examples
use libgb.Base.{ℕ, Option}
use libgb.Message.{Text}

pub data SessionType : Type 0 where
  unknown play playback download talk : SessionType

-- A description: its session's type, the stream number of its first medium, and the rest.
pub record SdpDescription : Type 0 where
  pub session_type : SessionType
  pub ssrc : ℕ
  pub rest : Text

-- parse and generate of SdpDescription.
pub record SdpFormat : Type 0 where
  pub parse : Text → Option SdpDescription
  pub generate : SdpDescription → Text
