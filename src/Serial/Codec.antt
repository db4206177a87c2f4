-- ===== src/Serial/Codec.antt =====
-- The crates `crc32fast` and `cobs`, as parameters: the functions that frame.rs calls, and what
-- their documentation promises of them on byte strings.
use srltcpv.Base.{ℕ, ◌+◌, ◌/◌, ◌^◌, ◌≤◌, ◌<◌, ◌≡◌, ◌≢◌, Option, some, Bytes, IsBytes, All, length}

pub record FrameCodec : Type 0 where
  pub crc32 : Bytes → ℕ
  pub cobs_encode : Bytes → Bytes
  pub cobs_decode : Bytes → Option Bytes

pub record CodecLaws (c : FrameCodec) : Type 0 where
  pub crc32-lt : (d : Bytes) → c.crc32 d < 2 ^ 32
  pub decode-encode : (d : Bytes) → IsBytes d → c.cobs_decode (c.cobs_encode d) ≡ some d
  pub encode_nonzero : (d : Bytes) → IsBytes d → All (λ b. b ≢ 0) (c.cobs_encode d)
  pub encode_nonempty : (d : Bytes) → IsBytes d → 0 < length (c.cobs_encode d)
  pub length-encode :
      (d : Bytes) → IsBytes d → length (c.cobs_encode d) ≤ length d + length d / 254 + 1
