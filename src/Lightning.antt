-- ===== src/Lightning.antt =====
-- The protocol `lightning` (components/protocol/lightning).
pub mod Params
pub mod Window
pub mod Windows
pub mod Channels
pub mod Message
pub mod States
pub mod Context
pub mod StateMachine
pub mod Node
pub mod Beacons
pub mod Reservation
pub mod Upcoming
pub mod Uplink
pub mod Listening
pub mod Faults
pub mod Invariant
pub mod Unchanged
pub mod Heard
