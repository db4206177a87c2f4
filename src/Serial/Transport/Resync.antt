-- ===== src/Serial/Transport/Resync.antt =====
-- The reader finds every frame that was encoded, after any noise.
use srltcpv.Base.{
  ℕ, suc, ◌+◌, ◌*◌, ◌≤◌, ◌<◌, ◌≡◌, refl, sym, ap, ◌∙◌, true, some, List, [], ◌∷◌, ◌++◌,
  append_assoc, Bytes, All, length, length-append, ltb, arith, Bool-cases, inl, inr, ◌≢◌, ok,
  le→ltb_false,
}
use srltcpv.Base.NumSet.{contains}
use srltcpv.Serial.Codec.{FrameCodec, CodecLaws}
use srltcpv.Serial.Frame.{Frame, IsValidFrame, encode, decode, max_frame_size}
use srltcpv.Serial.Frame.RoundTrip.{decode-encode_lem}
use srltcpv.Serial.Reliability.{ReliabilityLayer, poll_retransmits}
use srltcpv.Serial.Transport.{SerialReader, ReaderOutput, feed, extend_buffer}
use srltcpv.Serial.Transport.Scan.{scan, scan-append, scan-nonzero, scan_frame, scan-ended}
use srltcpv.Serial.Transport.Feed.{
  accept_all, receive_all, feed_loop-taken, accept_all-append, accept_all_cons,
}

contains-append : (xs ys : Bytes) → contains 0 (xs ++ 0 ∷ ys) ≡ true
unfolding contains
contains-append [] ys = refl
contains-append (x ∷ xs) ys = ground (arith, contains-append xs ys)

module _ (c : FrameCodec) where
  -- The encodings of the frames, one after the other.
  abbrev pub IsWire : List Frame → Bytes → Type 0
  IsWire [] ws = ws ≡ []
  IsWire (f ∷ fs) ws = (w rest : Bytes) × (encode c f ≡ some w) × (ws ≡ w ++ rest) × IsWire fs rest

-- What `feed` does to the layer and the buffer when it does not clear the buffer.
pub record Fed (now : ℕ) (reader : SerialReader) (out : ReaderOutput × SerialReader)
    (result : List Bytes × List Frame × ReliabilityLayer) (tail : Bytes) : Type 0 where
  pub delivered : out.0.delivered ≡ result.0
  pub answered : out.0.responses ≡ result.1
  pub resent : out.0.retransmits ≡ (poll_retransmits now result.2).0
  pub layer : out.1.reliability ≡ (poll_retransmits now result.2).1
  pub kept : out.1.rx_buffer ≡ tail

module _ (c : FrameCodec) (laws : CodecLaws c) where
  -- A wire scans into frames that are accepted as the frames that were encoded.
  record Scanned (now : ℕ) (fs : List Frame) (ws tail : Bytes) : Type 0 where
    bodies : List Bytes
    scanned : scan [] (ws ++ tail) ≡ (bodies, tail)
    accepted : (l : ReliabilityLayer) → accept_all c now bodies l ≡ receive_all c now fs l

  wire-Scanned :
      (now : ℕ) (fs : List Frame) (ws tail : Bytes)
      → All IsValidFrame fs
      → IsWire c fs ws
      → All (λ b. b ≢ 0) tail
      → Scanned now fs ws tail
  wire-Scanned now [] ws tail v w h = record {
    bodies = [];
    scanned = rw w (scan-nonzero tail [] h);
    accepted = λ l. unfold accept_all receive_all in refl;
  }
  wire-Scanned now (f ∷ fs) ws tail v (w, rest, enc, split, more) h =
      more_frames (decode-encode_lem c laws f v.0) (wire-Scanned now fs rest tail v.1 more h)
    where
      more_frames :
          ((e : Bytes) × (encode c f ≡ some (e ++ 0x00 ∷ []))
            × All (λ b. b ≢ 0) e
            × (0 < length e)
            × (decode c e ≡ ok f))
          → Scanned now fs rest tail
          → Scanned now (f ∷ fs) ws tail
      more_frames (e, enc', nz, pos, dec) s = record {
        bodies = e ∷ s.bodies;
        scanned =
            rw (split, append_assoc w rest tail, same_wire e enc')
              (scan_frame e (rest ++ tail) nz pos
                ∙ ap (λ (o : List Bytes × Bytes). (e ∷ o.0, o.1)) s.scanned);
        accepted = λ l. accept_all_cons c now f fs e s.bodies l dec s.accepted;
      }
        where
          same_wire : (e : Bytes) → encode c f ≡ some (e ++ 0x00 ∷ []) → w ≡ e ++ 0x00 ∷ []
          same_wire e enc' = ground arith

  feed-Fed :
      (now : ℕ) (reader : SerialReader) (bytes : Bytes) (frames : List Bytes) (tail : Bytes)
      → extend_buffer reader.rx_buffer bytes ≡ reader.rx_buffer ++ bytes
      → scan [] (reader.rx_buffer ++ bytes) ≡ (frames, tail)
      → Fed now reader (feed c now bytes reader) (accept_all c now frames reader.reliability) tail
  unfolding feed
  feed-Fed now reader bytes frames tail ext s =
      let loop =
        feed_loop-taken c (suc (length (reader.rx_buffer ++ bytes))) now (reader.rx_buffer ++ bytes)
          reader.reliability (omega arith) in
      record {
        delivered = rw (ext, loop, s);
        answered = rw (ext, loop, s);
        resent = rw (ext, loop, s);
        layer = rw (ext, loop, s);
        kept = rw (ext, loop, s);
      }

  extend_with_delimiter :
      (buf bytes pre post : Bytes)
      → buf ++ bytes ≡ pre ++ 0 ∷ post
      → extend_buffer buf bytes ≡ buf ++ bytes
  unfolding extend_buffer
  extend_with_delimiter buf bytes pre post e =
      let k : contains 0 (buf ++ bytes) ≡ true = rw e (contains-append pre post) in
      elim (Bool-cases (ltb (4 * max_frame_size) (length (buf ++ bytes)))) [
        | inl q ↦ rw (k, q)
        | inr q ↦ rw (k, q)
      ]

  extend_short :
      (buf bytes : Bytes)
      → length buf + length bytes ≤ 4 * max_frame_size
      → extend_buffer buf bytes ≡ buf ++ bytes
  unfolding extend_buffer
  extend_short buf bytes h = rw (
      le→ltb_false (4 * max_frame_size) (length (buf ++ bytes))
        (omega (arith, length-append buf bytes)))

  -- Fed with the rest of the encodings of some frames, whatever part of them it already held, a
  -- reader hands exactly those frames to the reliability layer, in order, and keeps the bytes
  -- after the last delimiter; buffer and input together stay within the garbage limit.
  pub feed-frames :
      (now : ℕ) (reader : SerialReader) (bytes ws tail : Bytes) (fs : List Frame)
      → All IsValidFrame fs
      → IsWire c fs ws
      → All (λ b. b ≢ 0) tail
      → reader.rx_buffer ++ bytes ≡ ws ++ tail
      → length reader.rx_buffer + length bytes ≤ 4 * max_frame_size
      → Fed now reader (feed c now bytes reader) (receive_all c now fs reader.reliability) tail
  feed-frames now reader bytes ws tail fs v w h e short =
      let s = wire-Scanned now fs ws tail v w h in
      rw (← s.accepted reader.reliability) (
        feed-Fed now reader bytes s.bodies tail (extend_short reader.rx_buffer bytes short)
          (ap (scan []) e ∙ s.scanned))

  -- After any noise that a delimiter ends, the reader is in step again: it does with the noise
  -- what its decodable parts say, and then hands over every frame encoded after it, in order.
  pub feed-resync :
      (now : ℕ) (reader : SerialReader) (bytes noise ws tail : Bytes) (fs : List Frame)
      → All IsValidFrame fs
      → IsWire c fs ws
      → All (λ b. b ≢ 0) tail
      → reader.rx_buffer ++ bytes ≡ noise ++ 0 ∷ (ws ++ tail)
      → let (heard, said, l) = accept_all c now (scan [] (noise ++ 0 ∷ [])).0 reader.reliability in
        let (delivered, answers, l') = receive_all c now fs l in
        Fed now reader (feed c now bytes reader) (heard ++ delivered, said ++ answers, l') tail
  feed-resync now reader bytes noise ws tail fs v w h e =
      let s = wire-Scanned now fs ws tail v w h in
      rw
        (
          ← s.accepted (accept_all c now (scan [] (noise ++ 0 ∷ [])).0 reader.reliability).2,
          ← accept_all-append c now (scan [] (noise ++ 0 ∷ [])).0 s.bodies reader.reliability,
        )
        (feed-Fed now reader bytes ((scan [] (noise ++ 0 ∷ [])).0 ++ s.bodies) tail
          (extend_with_delimiter reader.rx_buffer bytes noise (ws ++ tail) e) (scanned_after s))
    where
      scanned_after :
          (s : Scanned now fs ws tail)
          → scan [] (reader.rx_buffer ++ bytes) ≡ ((scan [] (noise ++ 0 ∷ [])).0 ++ s.bodies, tail)
      scanned_after s =
          ap (scan []) (e ∙ sym (append_assoc noise (0 ∷ []) (ws ++ tail)))
          ∙ scan-append (noise ++ 0 ∷ []) (ws ++ tail) []
          ∙ rw (scan-ended noise [], s.scanned)
