-- ===== src/Serial/Frame.antt =====
-- core/src/serial/frame.rs: the frame, its flags, and its wire form
-- `[magic:2][flags:1][seq:2][ack:2][len:2][payload][crc32:4]` under COBS with a 0x00 delimiter.
pub mod RoundTrip
pub mod Sound
pub mod Size
mod Tests
use srltcpv.Base.{
  ℕ, ◌+◌, ◌≤◌, ◌<◌, ◌^◌, Bool, true, false, Option, none, some, List, [], ◌∷◌, ◌++◌, ◌&&◌, Bytes,
  IsBytes, length, get_or, take, drop, ◌==◌, leb, if◌then◌else◌, u16_be_bytes, u32_be_bytes,
  u16_from_be, u32_from_be, Result, ok, err, ◌>>=◌, ◌>>◌, require, ok_or,
}
use srltcpv.Serial.Codec.{FrameCodec}

abbrev pub header_size : ℕ
header_size = 9

abbrev pub crc_size : ℕ
crc_size = 4

abbrev pub max_payload_size : ℕ
max_payload_size = 4096

abbrev pub max_frame_size : ℕ
max_frame_size = header_size + max_payload_size + crc_size

pub data FrameFlags : Type 0 where
  data_flag ack_flag nack_flag control_flag fin_flag chunk_flag : FrameFlags

unfoldable pub from_byte : ℕ → FrameFlags
from_byte b =
    if b == 0x02
    then ack_flag
    else if b == 0x04
    then nack_flag
    else if b == 0x08
    then control_flag
    else if b == 0x10
    then fin_flag
    else if b == 0x20
    then chunk_flag
    else data_flag

unfoldable pub to_byte : FrameFlags → ℕ
to_byte data_flag = 0x01
to_byte ack_flag = 0x02
to_byte nack_flag = 0x04
to_byte control_flag = 0x08
to_byte fin_flag = 0x10
to_byte chunk_flag = 0x20

abbrev pub is_ack_only : FrameFlags → Bool
is_ack_only ack_flag = true
is_ack_only nack_flag = true
is_ack_only _ = false

pub record Frame : Type 0 where
  pub flags : FrameFlags
  pub seq : ℕ
  pub ack : ℕ
  pub payload : Bytes

-- The range that the field types `u16` and `Bytes` give, and what `serialize_raw` asserts.
pub record IsValidFrame (f : Frame) : Type 0 where
  pub seq_u16 : f.seq < 2 ^ 16
  pub ack_u16 : f.ack < 2 ^ 16
  pub payload_bytes : IsBytes f.payload
  pub payload_fits : length f.payload ≤ max_payload_size

abbrev pub data_frame : ℕ → ℕ → Bytes → Frame
data_frame seq ack payload = record { flags = data_flag; seq = seq; ack = ack; payload = payload }

abbrev pub ack_frame : ℕ → ℕ → Frame
ack_frame seq ack = record { flags = ack_flag; seq = seq; ack = ack; payload = [] }

abbrev pub nack_frame : ℕ → ℕ → ℕ → Frame
nack_frame seq ack missing_seq = record {
  flags = nack_flag;
  seq = seq;
  ack = ack;
  payload = u16_be_bytes missing_seq;
}

abbrev pub chunk_frame : ℕ → ℕ → ℕ → Bytes → Frame
chunk_frame seq ack chunk_id bytes = record {
  flags = chunk_flag;
  seq = seq;
  ack = ack;
  payload = u32_be_bytes chunk_id ++ bytes;
}

abbrev pub control_frame : ℕ → ℕ → Bytes → Frame
control_frame seq ack payload = record {
  flags = control_flag;
  seq = seq;
  ack = ack;
  payload = payload;
}

abbrev pub fin_frame : ℕ → ℕ → Frame
fin_frame seq ack = record { flags = fin_flag; seq = seq; ack = ack; payload = [] }

pub data FrameError : Type 0 where
  cobs_decode_failed too_short bad_magic length_mismatch crc_mismatch : FrameError

-- The bytes that the checksum covers.
unfoldable pub header_and_payload : Frame → Bytes
header_and_payload f =
    0x53
    ∷ 0x52
    ∷ to_byte f.flags
    ∷ (u16_be_bytes f.seq ++ (u16_be_bytes f.ack ++ (u16_be_bytes (length f.payload) ++ f.payload)))

module _ (c : FrameCodec) where
  -- `none` is the panic of the `assert!`.
  unfoldable pub serialize_raw : Frame → Option Bytes
  serialize_raw f =
      let buf = header_and_payload f in
      if leb (length f.payload) max_payload_size
      then some (buf ++ u32_be_bytes (c.crc32 buf))
      else none

  unfoldable pub encode : Frame → Option Bytes
  encode f = elim (serialize_raw f) [
    | none ↦ none
    | some raw ↦ some (c.cobs_encode raw ++ 0x00 ∷ [])
  ]

  unfoldable pub parse_raw : Bytes → Result FrameError Frame
  parse_raw raw = do
    require (leb (header_size + crc_size) (length raw)) too_short
    require (get_or raw 0 0 == 0x53 && get_or raw 1 0 == 0x52) bad_magic
    let payload_len = u16_from_be (get_or raw 7 0) (get_or raw 8 0)
    require (length raw == header_size + payload_len + crc_size) length_mismatch
    let crc_offset = header_size + payload_len
    let stored = drop crc_offset raw
    let stored_crc =
        u32_from_be (get_or stored 0 0) (get_or stored 1 0) (get_or stored 2 0) (get_or stored 3 0)
    require (stored_crc == c.crc32 (take crc_offset raw)) crc_mismatch
    ok (record {
      flags = from_byte (get_or raw 2 0);
      seq = u16_from_be (get_or raw 3 0) (get_or raw 4 0);
      ack = u16_from_be (get_or raw 5 0) (get_or raw 6 0);
      payload = take payload_len (drop header_size raw);
    })

  -- The delimiter is taken off before.
  unfoldable pub decode : Bytes → Result FrameError Frame
  decode cobs_data = do raw ← ok_or (c.cobs_decode cobs_data) cobs_decode_failed; parse_raw raw
