-- ===== src/Crypto.antt =====
-- core/src/crypto: the hybrid handshake, the trust in a peer, the encrypted session and the QR codes.
pub mod Primitives
pub mod Wire
pub mod Kex
pub mod Ratchet
pub mod Sas
pub mod Identity
pub mod Peer
pub mod Secrets
pub mod Agreement
pub mod Trust
pub mod History
pub mod Transcript
pub mod Rollback
pub mod Toy
mod Tests
