-- ===== src/Broker.antt =====
-- src/daemon/broker.rs: the daemon's connection state machine. Messages and observations go in,
-- effects come out.
pub mod State
pub mod Leases
pub mod Control
pub mod Screens
pub mod Events
pub mod Requests
pub mod Federated
pub mod Handle
pub mod Invariant
pub mod Links
pub mod Routes
pub mod Release
pub mod Departure
pub mod Takers
pub mod Arrival
pub mod Retirement
pub mod Preservation
pub mod Reach
pub mod Authority
pub mod Grants
pub mod Permission
pub mod Tenure
pub mod Takeover
pub mod Flow
pub mod Pacing
pub mod Updates
pub mod Paced
pub mod Vanished
pub mod Delivery
pub mod Handshake
