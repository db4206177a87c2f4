-- ===== src/Serial/Frame/Size.antt =====
-- How many bytes a frame takes on the wire.
use srltcpv.Base.{
  ℕ, ◌+◌, ◌/◌, ◌≤◌, ◌≡◌, some, [], ◌∷◌, ◌++◌, Bytes, length, length-append, arith, u32_be_bytes,
}
use srltcpv.Serial.Codec.{FrameCodec, CodecLaws}
use srltcpv.Serial.Frame.{Frame, IsValidFrame, ack_frame, encode, header_and_payload}
use srltcpv.Serial.Frame.RoundTrip.{
  length-header_and_payload, serialize_raw-some, serialized-IsBytes,
}

module _ (c : FrameCodec) (laws : CodecLaws c) where
  encoded-length :
      (f : Frame) (e : Bytes)
      → IsValidFrame f
      → encode c f ≡ some e
      → length e ≤ length f.payload + 13 + (length f.payload + 13) / 254 + 2
  unfolding encode
  encoded-length f e v h = ground (
    arith,
    serialize_raw-some c laws f v,
    laws.length-encode (header_and_payload f ++ u32_be_bytes (c.crc32 (header_and_payload f)))
        (serialized-IsBytes c laws f v),
    length-append
        (c.cobs_encode (header_and_payload f ++ u32_be_bytes (c.crc32 (header_and_payload f))))
        (0 ∷ []),
    length-append (header_and_payload f) (u32_be_bytes (c.crc32 (header_and_payload f))),
    length-header_and_payload f,
  )

  -- An encoded frame is longer than its payload by the 13 bytes of header and checksum, one
  -- byte for each 254 that COBS codes and one more, and the delimiter; an ACK frame takes at
  -- most the 16 bytes that the protocol aims at.
  pub length-encode_le :
      (f : Frame) (e : Bytes)
      → IsValidFrame f
      → encode c f ≡ some e
      → (length e ≤ length f.payload + 13 + (length f.payload + 13) / 254 + 2)
        × ((seq ack : ℕ) → f ≡ ack_frame seq ack → length e ≤ 16)
  length-encode_le f e v h = (encoded-length f e v h, small)
    where
      small : (seq ack : ℕ) → f ≡ ack_frame seq ack → length e ≤ 16
      small seq ack q = omega (arith, encoded-length f e v h, empty_payload seq ack q)
        where
          empty_payload : (seq ack : ℕ) → f ≡ ack_frame seq ack → length f.payload ≡ 0
          empty_payload seq ack q = ground arith
