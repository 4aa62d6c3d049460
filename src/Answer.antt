-- ===== src/Answer.antt =====
-- src/super_platform_impl.cpp: how a platform answers the queries and controls of its superior. The
-- application's listeners are given as the calls that they make while the event is emitted.
pub mod One
pub mod Many
pub mod Dispatch
pub mod Once
pub mod Sent
mod Examples
use libgb.Base.{ℕ, Bool, List, Option}

-- What a listener does while it is called: it answers any number of times, or it throws.
pub data Listener (Call : Type 0) : Type 0 where
  listens throws : List Call → Listener Call
