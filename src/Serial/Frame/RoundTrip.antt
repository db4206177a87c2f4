-- ===== src/Serial/Frame/RoundTrip.antt =====
-- Encoding and decoding a frame are inverse.
use srltcpv.Base.{
  ◌+◌, ◌<◌, ◌≡◌, ◌≢◌, refl, some, [], ◌∷◌, ◌++◌, Bytes, IsBytes, All, All-append, length,
  length-append, take-append, drop-append, take, drop, get_or, u32_be_bytes, u16_from_be,
  u16_from_be-bytes, u32_from_be-bytes, ok, arith,
}
use srltcpv.Serial.Codec.{FrameCodec, CodecLaws}
use srltcpv.Serial.Frame.{
  Frame, FrameFlags, data_flag, ack_flag, nack_flag, control_flag, fin_flag, chunk_flag,
  IsValidFrame, from_byte, to_byte, header_and_payload, serialize_raw, encode, parse_raw, decode,
  header_size,
}

pub from_byte-to_byte : (f : FrameFlags) → from_byte (to_byte f) ≡ f
unfolding from_byte to_byte
from_byte-to_byte data_flag = refl
from_byte-to_byte ack_flag = refl
from_byte-to_byte nack_flag = refl
from_byte-to_byte control_flag = refl
from_byte-to_byte fin_flag = refl
from_byte-to_byte chunk_flag = refl

to_byte-lt : (f : FrameFlags) → to_byte f < 256
unfolding to_byte
to_byte-lt data_flag = omega arith
to_byte-lt ack_flag = omega arith
to_byte-lt nack_flag = omega arith
to_byte-lt control_flag = omega arith
to_byte-lt fin_flag = omega arith
to_byte-lt chunk_flag = omega arith

pub length-header_and_payload :
    (f : Frame) → length (header_and_payload f) ≡ header_size + length f.payload
unfolding header_and_payload
length-header_and_payload f = omega arith

header_and_payload-IsBytes : (f : Frame) → IsValidFrame f → IsBytes (header_and_payload f)
unfolding header_and_payload
header_and_payload-IsBytes f v = (
  omega arith,
  (
    omega arith,
    (
      to_byte-lt f.flags,
      (
        omega arith,
        (omega arith, (omega arith, (omega arith, (omega arith, (omega arith, v.payload_bytes))))),
      ),
    ),
  ),
)

-- What `parse_raw` reads at each offset of a serialized frame.
record Fields (f : Frame) (crc raw : Bytes) : Type 0 where
  magic : (get_or raw 0 0 ≡ 0x53) × (get_or raw 1 0 ≡ 0x52)
  flags_byte : get_or raw 2 0 ≡ to_byte f.flags
  seq_field : u16_from_be (get_or raw 3 0) (get_or raw 4 0) ≡ f.seq
  ack_field : u16_from_be (get_or raw 5 0) (get_or raw 6 0) ≡ f.ack
  len_field : u16_from_be (get_or raw 7 0) (get_or raw 8 0) ≡ length f.payload
  total : length raw ≡ header_size + length f.payload + length crc
  covered : take (header_size + length f.payload) raw ≡ header_and_payload f
  trailer : drop (header_size + length f.payload) raw ≡ crc
  payload_field : take (length f.payload) (drop header_size raw) ≡ f.payload

serialized-Fields :
    (f : Frame) (crc : Bytes) → IsValidFrame f → Fields f crc (header_and_payload f ++ crc)
serialized-Fields f crc v = record {
  magic = unfold header_and_payload in (refl, refl);
  flags_byte = unfold header_and_payload in refl;
  seq_field = unfold header_and_payload in u16_from_be-bytes f.seq v.seq_u16;
  ack_field = unfold header_and_payload in u16_from_be-bytes f.ack v.ack_u16;
  len_field = unfold header_and_payload in omega arith;
  total = omega (arith, length-append (header_and_payload f) crc, length-header_and_payload f);
  covered = rw (← length-header_and_payload f) (take-append (header_and_payload f) crc);
  trailer = rw (← length-header_and_payload f) (drop-append (header_and_payload f) crc);
  payload_field = unfold header_and_payload in take-append f.payload crc;
}

module _ (c : FrameCodec) (laws : CodecLaws c) where
  parse_raw-serialized :
      (f : Frame) (raw : Bytes)
      → Fields f (u32_be_bytes (c.crc32 (header_and_payload f))) raw
      → parse_raw c raw ≡ ok f
  unfolding parse_raw
  parse_raw-serialized f raw v = ground (
    arith,
    u32_from_be-bytes (c.crc32 (header_and_payload f)) (laws.crc32-lt (header_and_payload f)),
    from_byte-to_byte f.flags,
  )

  pub serialized-IsBytes :
      (f : Frame)
      → IsValidFrame f
      → IsBytes (header_and_payload f ++ u32_be_bytes (c.crc32 (header_and_payload f)))
  serialized-IsBytes f v =
      All-append (λ b. b < 256) (header_and_payload f) _ (header_and_payload-IsBytes f v)
        (omega arith, (omega arith, (omega arith, (omega arith, tt))))

  pub serialize_raw-some :
      (f : Frame)
      → IsValidFrame f
      → serialize_raw c f
        ≡ some (header_and_payload f ++ u32_be_bytes (c.crc32 (header_and_payload f)))
  unfolding serialize_raw
  serialize_raw-some f v = ground (arith, v.payload_fits)

  -- A frame within the field widths and of at most 4096 payload bytes encodes to COBS bytes, at
  -- least one and none of them zero, followed by the delimiter, and those bytes decode to the
  -- same frame.
  pub decode-encode_lem :
      (f : Frame)
      → IsValidFrame f
      → (e : Bytes) × (encode c f ≡ some (e ++ 0x00 ∷ []))
        × All (λ b. b ≢ 0) e
        × (0 < length e)
        × (decode c e ≡ ok f)
  unfolding encode decode
  decode-encode_lem f v =
      let raw = header_and_payload f ++ u32_be_bytes (c.crc32 (header_and_payload f)) in
      let bytes : IsBytes raw = serialized-IsBytes f v in
      (
        c.cobs_encode raw,
        rw (serialize_raw-some f v, encode),
        laws.encode_nonzero raw bytes,
        laws.encode_nonempty raw bytes,
        rw (laws.decode-encode raw bytes, decode)
            (parse_raw-serialized f raw (serialized-Fields f _ v)),
      )
