-- ===== src/Serial.antt =====
-- core/src/serial/: COBS frames with a checksum, the reliability layer, and the link that carries
-- whole messages over them.
pub mod Codec
mod Toy
pub mod Frame
pub mod Reliability
pub mod Transport
pub mod Link
