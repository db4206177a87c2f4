-- ===== src/Serial/Reliability/Sessions.antt =====
-- Whole runs of a layer: any interleaving of received frames, sends and polls.
use srltcpv.Base.{
  ℕ, ◌+◌, ◌≡◌, refl, ap, ap₂, ◌∙◌, some, List, [], ◌++◌, Bytes, length, length-append, suc, zero,
  ◌∷◌, arith,
}
use srltcpv.Serial.Frame.{Frame}
use srltcpv.Serial.Reliability.{
  ReliabilityLayer, new, with_rto, with_window, launch, prepare_send, prepare_chunk_send,
  on_receive, poll_retransmits, ReceiveResult,
}
use srltcpv.Serial.Reliability.Drain.{segment}
use srltcpv.Serial.Reliability.Order.{Waiting, Genuine, Received, on_receive-Received, SameReceiver}

module _ (stream : ℕ → Bytes) where
  -- A layer's state with the payloads that it has delivered so far, under a peer that sends the
  -- frames of `stream` and a line that loses, repeats and reorders them within half the ring.
  pub data Session : ReliabilityLayer → List Bytes → Type 0 where
    fresh : (rto window : ℕ) → Session (with_window (with_rto new rto) window) []
    receives :
        {l : ReliabilityLayer} {ds : List Bytes} (now : ℕ) (f : Frame)
        → Session l ds
        → Genuine stream (length ds) f
        → Session (on_receive now f l).1 (ds ++ (on_receive now f l).0.delivered)
    sends :
        {l l' : ReliabilityLayer} {ds : List Bytes} (now : ℕ) (payload : Bytes) {f : Frame}
        → Session l ds
        → prepare_send now payload l ≡ some (f, l')
        → Session l' ds
    sends_chunk :
        {l l' : ReliabilityLayer} {ds : List Bytes} (now chunk_id : ℕ) (bytes : Bytes) {f : Frame}
        → Session l ds
        → prepare_chunk_send now chunk_id bytes l ≡ some (f, l')
        → Session l' ds
    polls :
        {l : ReliabilityLayer} {ds : List Bytes} (now : ℕ)
        → Session l ds
        → Session (poll_retransmits now l).1 ds

  pub segment-append :
      (r n k : ℕ) → segment stream r n ++ segment stream (r + n) k ≡ segment stream r (n + k)
  segment-append r zero k =
      let e : r + zero ≡ r = omega arith in let e' : zero + k ≡ k = omega arith in rw (e, e')
  segment-append r (suc n) k =
      let e : r + suc n ≡ suc r + n = omega arith in
      let e' : suc n + k ≡ suc (n + k) = omega arith in
      rw (e, e') (ap (◌∷◌ (stream r)) (segment-append (suc r) n k))

  pub segment-glue :
      (r n k mid total : ℕ)
      → mid ≡ r + n
      → total ≡ n + k
      → segment stream r n ++ segment stream mid k ≡ segment stream r total
  segment-glue r n k mid total e e' = rw (e, e') (segment-append r n k)

  length-segment : (r n : ℕ) → length (segment stream r n) ≡ n
  length-segment r zero = refl
  length-segment r (suc n) = ap suc (length-segment (suc r) n)

  Waiting-same :
      {r : ℕ} {l l' : ReliabilityLayer}
      → SameReceiver l l'
      → Waiting stream r l
      → Waiting stream r l'
  Waiting-same s w = record {
    next = s.next ∙ w.next;
    idle = s.queue ∙ w.idle;
    ahead = rw s.buffer w.ahead;
  }

  prepare_send-SameReceiver :
      (now : ℕ) (payload : Bytes) (l l' : ReliabilityLayer) (f : Frame)
      → prepare_send now payload l ≡ some (f, l')
      → SameReceiver l l'
  unfolding prepare_send launch
  prepare_send-SameReceiver now payload l l' f h = ground arith

  prepare_chunk_send-SameReceiver :
      (now id : ℕ) (bytes : Bytes) (l l' : ReliabilityLayer) (f : Frame)
      → prepare_chunk_send now id bytes l ≡ some (f, l')
      → SameReceiver l l'
  unfolding prepare_chunk_send launch
  prepare_chunk_send-SameReceiver now id bytes l l' f h = ground arith

  poll_retransmits-SameReceiver :
      (now : ℕ) (l : ReliabilityLayer) → SameReceiver l (poll_retransmits now l).1
  unfolding poll_retransmits
  poll_retransmits-SameReceiver now l = record { next = refl; queue = refl; buffer = refl }

  pub record Delivered (l : ReliabilityLayer) (ds : List Bytes) : Type 0 where
    pub prefix : ds ≡ segment stream 0 (length ds)
    pub waiting : Waiting stream (length ds) l

  extend :
      {l : ReliabilityLayer} {ds : List Bytes} {out : ReceiveResult × ReliabilityLayer}
      → Delivered l ds
      → Received stream (length ds) out
      → Delivered out.1 (ds ++ out.0.delivered)
  extend {ds = ds} {out = out} d g = record {
    prefix =
        rw total
          (whole ∙ segment-glue 0 (length ds) g.count (length ds) g.end (omega arith) g.end_eq);
    waiting = rw total g.waiting;
  }
    where
      total : length (ds ++ out.0.delivered) ≡ g.end
      total = omega (
        arith,
        length-append ds out.0.delivered,
        ap length g.delivered,
        length-segment (length ds) g.count,
        g.end_eq,
      )

      whole :
          ds ++ out.0.delivered ≡ segment stream 0 (length ds) ++ segment stream (length ds) g.count
      whole = ap₂ ◌++◌ d.prefix g.delivered

  -- Whatever the line loses, repeats or reorders within half the ring, and whatever is sent,
  -- acknowledged and resent meanwhile, the payloads delivered so far are the first payloads of
  -- the peer's stream, in order and without gaps or repetitions, and the layer waits for the
  -- next.
  pub Session-Delivered : {l : ReliabilityLayer} {ds : List Bytes} → Session l ds → Delivered l ds
  Session-Delivered (fresh rto window) = record {
    prefix = refl;
    waiting = record { next = refl; idle = refl; ahead = tt };
  }
  Session-Delivered (receives {ds = ds} now f s g) =
      extend (Session-Delivered s)
        (on_receive-Received stream now (length ds) f _ (Session-Delivered s).waiting g)
  Session-Delivered (sends {l = l} {l' = l'} now payload {f = f} s e) = record {
    prefix = (Session-Delivered s).prefix;
    waiting =
        Waiting-same (prepare_send-SameReceiver now payload l l' f e) (Session-Delivered s).waiting;
  }
  Session-Delivered (sends_chunk {l = l} {l' = l'} now id bytes {f = f} s e) = record {
    prefix = (Session-Delivered s).prefix;
    waiting =
        Waiting-same (prepare_chunk_send-SameReceiver now id bytes l l' f e)
          (Session-Delivered s).waiting;
  }
  Session-Delivered (polls {l = l} now s) = record {
    prefix = (Session-Delivered s).prefix;
    waiting = Waiting-same (poll_retransmits-SameReceiver now l) (Session-Delivered s).waiting;
  }
