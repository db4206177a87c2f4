-- ===== src/Serial/Frame/Sound.antt =====
-- What `parse_raw` accepts is what `serialize_raw` writes.
use srltcpv.Base.{
  ℕ, suc, ◌+◌, ◌≤◌, ◌<◌, ◌≡◌, ap, some, [], ◌∷◌, ◌++◌, Bytes, IsBytes, All-append_right, length,
  length-take, length-drop, take, drop, take-append-drop, get_or, u16_be_bytes, u32_be_bytes,
  u16_from_be, u32_from_be, ok, arith,
}
use srltcpv.Serial.Codec.{FrameCodec}
use srltcpv.Serial.Frame.{
  Frame, to_byte, header_and_payload, serialize_raw, parse_raw, header_size, crc_size,
  max_payload_size,
}

four_bytes :
    (xs : Bytes)
    → length xs ≡ 4
    → IsBytes xs
    → u32_be_bytes (u32_from_be (get_or xs 0 0) (get_or xs 1 0) (get_or xs 2 0) (get_or xs 3 0))
      ≡ xs
four_bytes (a ∷ b ∷ c ∷ d ∷ []) h v = ground arith
four_bytes _ h v = ground arith

u16_be_bytes-from_be : (a b : ℕ) → a < 256 → b < 256 → u16_be_bytes (u16_from_be a b) ≡ a ∷ b ∷ []
u16_be_bytes-from_be a b ha hb = ground arith

take-header :
    (n b0 b1 b2 b3 b4 b5 b6 b7 b8 : ℕ) (rest : Bytes)
    → take (header_size + n) (b0 ∷ b1 ∷ b2 ∷ b3 ∷ b4 ∷ b5 ∷ b6 ∷ b7 ∷ b8 ∷ rest)
      ≡ b0 ∷ b1 ∷ b2 ∷ b3 ∷ b4 ∷ b5 ∷ b6 ∷ b7 ∷ b8 ∷ take n rest
take-header n b0 b1 b2 b3 b4 b5 b6 b7 b8 rest =
    ap (λ k. take k (b0 ∷ b1 ∷ b2 ∷ b3 ∷ b4 ∷ b5 ∷ b6 ∷ b7 ∷ b8 ∷ rest))
      (let e : header_size + n ≡ suc (suc (suc (suc (suc (suc (suc (suc (suc n)))))))) =
          omega arith in
        e)

drop-header :
    (n b0 b1 b2 b3 b4 b5 b6 b7 b8 : ℕ) (rest : Bytes)
    → drop (header_size + n) (b0 ∷ b1 ∷ b2 ∷ b3 ∷ b4 ∷ b5 ∷ b6 ∷ b7 ∷ b8 ∷ rest) ≡ drop n rest
drop-header n b0 b1 b2 b3 b4 b5 b6 b7 b8 rest =
    ap (λ k. drop k (b0 ∷ b1 ∷ b2 ∷ b3 ∷ b4 ∷ b5 ∷ b6 ∷ b7 ∷ b8 ∷ rest))
      (let e : header_size + n ≡ suc (suc (suc (suc (suc (suc (suc (suc (suc n)))))))) =
          omega arith in
        e)

module _ (c : FrameCodec) where
  record Parsed (raw : Bytes) (f : Frame) : Type 0 where
    magic0 : get_or raw 0 0 ≡ 0x53
    magic1 : get_or raw 1 0 ≡ 0x52
    total : length raw ≡ header_size + u16_from_be (get_or raw 7 0) (get_or raw 8 0) + crc_size
    stored :
        let rest = drop (header_size + u16_from_be (get_or raw 7 0) (get_or raw 8 0)) raw in
        u32_from_be (get_or rest 0 0) (get_or rest 1 0) (get_or rest 2 0) (get_or rest 3 0)
        ≡ c.crc32 (take (header_size + u16_from_be (get_or raw 7 0) (get_or raw 8 0)) raw)
    seq_read : f.seq ≡ u16_from_be (get_or raw 3 0) (get_or raw 4 0)
    ack_read : f.ack ≡ u16_from_be (get_or raw 5 0) (get_or raw 6 0)
    payload_read :
        f.payload ≡ take (u16_from_be (get_or raw 7 0) (get_or raw 8 0)) (drop header_size raw)

  parse_raw-Parsed : (raw : Bytes) (f : Frame) → parse_raw c raw ≡ ok f → Parsed raw f
  unfolding parse_raw
  parse_raw-Parsed raw f h = record {
    magic0 = ground arith;
    magic1 = ground arith;
    total = ground arith;
    stored = ground arith;
    seq_read = ground arith;
    ack_read = ground arith;
    payload_read = ground arith;
  }

  module _ (b0 b1 b2 b3 b4 b5 b6 b7 b8 : ℕ) (rest : Bytes) (f : Frame)
      (v : IsBytes (b0 ∷ b1 ∷ b2 ∷ b3 ∷ b4 ∷ b5 ∷ b6 ∷ b7 ∷ b8 ∷ rest))
      (flag : b2 ≡ to_byte f.flags)
      (p : Parsed (b0 ∷ b1 ∷ b2 ∷ b3 ∷ b4 ∷ b5 ∷ b6 ∷ b7 ∷ b8 ∷ rest) f) where
    length_read : length f.payload ≡ u16_from_be b7 b8
    length_read =
        omega (arith, p.total, ap length p.payload_read, length-take (u16_from_be b7 b8) rest)

    header_read :
        header_and_payload f
        ≡ b0 ∷ b1 ∷ b2 ∷ b3 ∷ b4 ∷ b5 ∷ b6 ∷ b7 ∷ b8 ∷ take (u16_from_be b7 b8) rest
    unfolding header_and_payload
    header_read =
        ground (arith, length_read, p.payload_read, p.magic0, p.magic1, p.seq_read, p.ack_read)

    trailer_read : u32_be_bytes (c.crc32 (header_and_payload f)) ≡ drop (u16_from_be b7 b8) rest
    trailer_read =
        rw
          (
            header_read,
            ← take-header (u16_from_be b7 b8) b0 b1 b2 b3 b4 b5 b6 b7 b8 rest,
            ← p.stored,
            drop-header (u16_from_be b7 b8) b0 b1 b2 b3 b4 b5 b6 b7 b8 rest,
          )
          (four_bytes (drop (u16_from_be b7 b8) rest)
            (omega (arith, p.total, length-drop (u16_from_be b7 b8) rest))
            (All-append_right (λ b. b < 256) (take (u16_from_be b7 b8) rest) _
              (rw take-append-drop v.1.1.1.1.1.1.1.1.1)))

    rebuilt :
        header_and_payload f ++ u32_be_bytes (c.crc32 (header_and_payload f))
        ≡ b0 ∷ b1 ∷ b2 ∷ b3 ∷ b4 ∷ b5 ∷ b6 ∷ b7 ∷ b8 ∷ rest
    rebuilt =
        rw (trailer_read, header_read)
          (ap (λ r. b0 ∷ b1 ∷ b2 ∷ b3 ∷ b4 ∷ b5 ∷ b6 ∷ b7 ∷ b8 ∷ r)
            (take-append-drop (u16_from_be b7 b8) rest))

  serialized_of_Parsed :
      (raw : Bytes) (f : Frame)
      → IsBytes raw
      → get_or raw 2 0 ≡ to_byte f.flags
      → Parsed raw f
      → header_and_payload f ++ u32_be_bytes (c.crc32 (header_and_payload f)) ≡ raw
  serialized_of_Parsed (b0 ∷ b1 ∷ b2 ∷ b3 ∷ b4 ∷ b5 ∷ b6 ∷ b7 ∷ b8 ∷ rest) f v flag p =
      rebuilt b0 b1 b2 b3 b4 b5 b6 b7 b8 rest f v flag p
  serialized_of_Parsed _ f v flag p = absurd (omega (arith, p.total))

  -- A byte string that parses to a frame is the serialization of that frame, if its flags byte is
  -- the one of the frame's flags (an unknown byte is read as DATA) and the payload is within the
  -- limit that `serialize_raw` asserts.
  pub serialize_raw-parse_raw :
      (raw : Bytes) (f : Frame)
      → IsBytes raw
      → parse_raw c raw ≡ ok f
      → get_or raw 2 0 ≡ to_byte f.flags
      → length f.payload ≤ max_payload_size
      → serialize_raw c f ≡ some raw
  unfolding serialize_raw
  serialize_raw-parse_raw raw f v h flag fits =
      ground (arith, serialized_of_Parsed raw f v flag (parse_raw-Parsed raw f h))
