-- ===== src/Socket.antt =====
-- packages/web3-utils/src/socket_provider.ts, part by part.
pub mod State
pub mod Settle
pub mod Connection
pub mod Request
pub mod Message
pub mod Deadline
pub mod Effects
pub mod Consistent
pub mod Teardown
pub mod Admission
pub mod Registration
pub mod Moves
pub mod Advance
pub mod Closing
pub mod Rejecting
pub mod Reconnecting
pub mod Backoff
pub mod Requesting
pub mod Sending
pub mod Expiring
pub mod Handling
pub mod Responding
pub mod Run
mod Tests
