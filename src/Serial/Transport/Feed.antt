-- ===== src/Serial/Transport/Feed.antt =====
-- What the reader makes of the bytes that it is fed.
use srltcpv.Base.{
  ℕ, zero, suc, ◌<◌, ◌≡◌, refl, ap, Option, List, [], ◌∷◌, ◌++◌, append_assoc, Bytes, length, arith,
  inl, inr, ok,
}
use srltcpv.Serial.Codec.{FrameCodec}
use srltcpv.Serial.Frame.{Frame, decode}
use srltcpv.Serial.Reliability.{ReliabilityLayer, on_receive}
use srltcpv.Serial.Transport.{accept_frame, feed_loop}
use srltcpv.Serial.Transport.Scan.{scan, extract_frame-Extracts}

module _ (c : FrameCodec) where
  -- The extracted frames one after the other: deliveries, answers, and the layer.
  unfoldable pub accept_all :
      ℕ → List Bytes → ReliabilityLayer → List Bytes × List Frame × ReliabilityLayer
  accept_all now [] l = ([], [], l)
  accept_all now (d ∷ ds) l =
      let (delivered, responses, l') = accept_frame c now d l in
      let (more, answers, l'') = accept_all now ds l' in
      (delivered ++ more, responses ++ answers, l'')

  -- The frames themselves one after the other.
  unfoldable pub receive_all :
      ℕ → List Frame → ReliabilityLayer → List Bytes × List Frame × ReliabilityLayer
  receive_all now [] l = ([], [], l)
  receive_all now (f ∷ fs) l =
      let (result, l') = on_receive now f l in
      let (more, answers, l'') = receive_all now fs l' in
      (result.delivered ++ more, result.ack_responses ++ answers, l'')

  -- One pass over the parts of a scan.
  abbrev pub taken :
      ℕ → List Bytes × Bytes → ReliabilityLayer → List Bytes × List Frame × Bytes × ReliabilityLayer
  taken now s l =
      let (delivered, responses, l') = accept_all now s.0 l in (delivered, responses, s.1, l')

  pub feed_loop-taken :
      (fuel now : ℕ) (buf : Bytes) (l : ReliabilityLayer)
      → length buf < fuel
      → feed_loop c fuel now buf l ≡ taken now (scan [] buf) l
  unfolding feed_loop accept_all
  feed_loop-taken zero now buf l h = absurd (omega arith)
  feed_loop-taken (suc fuel) now buf l h = elim (extract_frame-Extracts buf) [
    | inl (e, o) ↦ rw (o, feed_loop, e) (ap (λ (q : Option Bytes × Bytes). ([], [], q.1, l)) o)
    | inr (frame, rest, o, s, lt) ↦ rw (
      o,
      feed_loop,
      ap (λ (q : Option Bytes × Bytes). q.1) o,
      s,
      feed_loop-taken fuel now rest (accept_frame c now frame l).2 (omega arith),
    )
  ]

  pub accept_all-append :
      (now : ℕ) (ds es : List Bytes) (l : ReliabilityLayer)
      → accept_all now (ds ++ es) l ≡ (
          let (d, r, l') = accept_all now ds l in
          let (d', r', l'') = accept_all now es l' in (d ++ d', r ++ r', l''))
  unfolding accept_all
  accept_all-append now [] es l = refl
  accept_all-append now (x ∷ ds) es l =
      rw (accept_all-append now ds es (accept_frame c now x l).2) (simp append_assoc)

  accept_frame-ok :
      (now : ℕ) (f : Frame) (e : Bytes) (l : ReliabilityLayer)
      → decode c e ≡ ok f
      → accept_frame c now e l ≡ (
        (on_receive now f l).0.delivered,
        (on_receive now f l).0.ack_responses,
        (on_receive now f l).1,
      )
  unfolding accept_frame
  accept_frame-ok now f e l d = rw (d, accept_frame)

  -- A body that decodes to `f` is accepted as `f`.
  pub accept_all_cons :
      (now : ℕ) (f : Frame) (fs : List Frame) (e : Bytes) (es : List Bytes) (l : ReliabilityLayer)
      → decode c e ≡ ok f
      → ((l' : ReliabilityLayer) → accept_all now es l' ≡ receive_all now fs l')
      → accept_all now (e ∷ es) l ≡ receive_all now (f ∷ fs) l
  unfolding accept_all receive_all
  accept_all_cons now f fs e es l d h = rw (accept_frame-ok now f e l d, h (on_receive now f l).1)
