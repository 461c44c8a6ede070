-- ===== src/Peers.antt =====
-- internal/peers: the master that hotspots log in to. Attempts and Throttle are throttle.go, Peer is
-- peer.go, Continuation continuation.go, Subscribers subscribers.go, Attachments attachments.go, and
-- Master master.go.
pub mod Attempts
pub mod Throttle
pub mod Peer
pub mod Continuation
pub mod Subscribers
pub mod Attachments
pub mod Master
pub mod Tests
mod SessionTests
