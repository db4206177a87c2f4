-- ===== src/Serial/Reliability/Order.antt =====
-- Ordered delivery: what a call of `on_receive` does to a layer that has delivered `r` payloads of
-- the stream and waits for the next.
use srltcpv.Base.{
  ℕ, suc, ◌+◌, ◌-◌, ◌≤◌, ◌<◌, ◌%◌, ◌^◌, ◌≡◌, ◌≢◌, refl, ap, ◌∙◌, ◌⊎◌, inl, inr, true, none, List,
  [], ◌∷◌, ◌++◌, Bytes, length, ◌==◌, ==_iff, leb, ltb, arith, All, All-imp, Bool-cases,
  Option-cases,
}
use srltcpv.Base.Assoc.{get, contains_key, All-insert, All-ne_of_get-none}
use srltcpv.Serial.Frame.{
  Frame, FrameFlags, data_flag, ack_flag, nack_flag, control_flag, fin_flag, chunk_flag,
  is_ack_only,
}
use srltcpv.Serial.Reliability.{
  ReliabilityLayer, next_seq, seq_lt, seq_gt, deliver_in_order, buffer_out_of_order,
  receive_sequenced, dispatch, ReceiveResult, piggyback, on_receive, handle_ack, handle_nack,
  count_ack, fast_retransmit, min_key,
}
use srltcpv.Serial.Reliability.Drain.{
  segment, Holds, Holds-after, Drained, drain-Drained, drain_complete,
}

-- Acknowledging frames leaves the receiving half alone.
pub record SameReceiver (l l' : ReliabilityLayer) : Type 0 where
  pub next : l'.recv_next ≡ l.recv_next
  pub queue : l'.deliver_queue ≡ l.deliver_queue
  pub buffer : l'.recv_buffer ≡ l.recv_buffer

pub handle_ack-SameReceiver :
    (now ack : ℕ) (l : ReliabilityLayer) → SameReceiver l (handle_ack now ack l)
unfolding handle_ack count_ack fast_retransmit
handle_ack-SameReceiver now ack l = elim (Option-cases (min_key l.inflight)) [
  | inl e ↦ ground arith
  | inr (k, e) ↦ ground arith
]

pub seq_lt-true : (a b : ℕ) → seq_lt a b ≡ true → (a ≢ b) × ((b + 2 ^ 16 - a) % 2 ^ 16 < 0x8000)
unfolding seq_lt
seq_lt-true a b h = ground arith

module _ (stream : ℕ → Bytes) where
  -- Between calls: `r` payloads are delivered, and the buffer holds later ones within half the
  -- ring.
  pub record Waiting (r : ℕ) (l : ReliabilityLayer) : Type 0 where
    pub next : l.recv_next ≡ r % 2 ^ 16
    pub idle : l.deliver_queue ≡ []
    pub ahead : All (Holds stream (suc r) (r + 2 ^ 15)) l.recv_buffer

  -- A frame of the stream at most half the ring away from frame `r`, or one without a payload.
  abbrev pub Genuine : ℕ → Frame → Type 0
  Genuine r f =
      ((f.flags ≡ ack_flag) ⊎ (f.flags ≡ nack_flag) ⊎ (f.flags ≡ fin_flag))
      ⊎ ((i : ℕ) × (f.seq ≡ i % 2 ^ 16)
          × (f.payload ≡ stream i)
          × (i < r + 2 ^ 15)
          × (r ≤ i + 2 ^ 15))

  -- What has come in since `r` payloads were delivered.
  pub record Progress (r : ℕ) (l : ReliabilityLayer) : Type 0 where
    pub count : ℕ
    pub end : ℕ
    pub end_eq : end ≡ r + count
    pub next : l.recv_next ≡ end % 2 ^ 16
    pub queued : l.deliver_queue ≡ segment stream r count
    pub ahead : All (Holds stream (suc end) (end + 2 ^ 15)) l.recv_buffer

  Progress-of_Waiting : {r : ℕ} {l : ReliabilityLayer} → Waiting r l → Progress r l
  Progress-of_Waiting {r} w = record {
    count = 0;
    end = r;
    end_eq = omega arith;
    next = w.next;
    queued = w.idle;
    ahead = w.ahead;
  }

  Progress-same :
      {r : ℕ} {l l' : ReliabilityLayer} → SameReceiver l l' → Progress r l → Progress r l'
  Progress-same s p = record {
    count = p.count;
    end = p.end;
    end_eq = p.end_eq;
    next = s.next ∙ p.next;
    queued = s.queue ∙ p.queued;
    ahead = rw s.buffer p.ahead;
  }

  widen :
      (r lo hi : ℕ) (m : List (ℕ × Bytes))
      → r ≤ lo
      → All (Holds stream lo hi) m
      → (hi' : ℕ) → hi ≤ hi'
      → All (Holds stream r hi') m
  widen r lo hi m le h hi' le' =
      All-imp (Holds stream lo hi) (Holds stream r hi')
        (λ e (i, a, b, k, v). (i, omega arith, omega arith, k, v)) m h

  -- A drained buffer without the next frame holds only later ones.
  strictly_later :
      (r hi next : ℕ) (m : List (ℕ × Bytes))
      → next ≡ r % 2 ^ 16
      → All (Holds stream r hi) m
      → get next m ≡ none
      → All (Holds stream (suc r) hi) m
  strictly_later r hi next m q h e =
      All-imp (λ e. Holds stream r hi e × (e.0 ≢ next)) (Holds stream (suc r) hi)
        (λ x. Holds-after stream r hi next x q) m
        (All-ne_of_get-none (Holds stream r hi) next m h e)

  deliver-Progress :
      (r : ℕ) (f : Frame) (l : ReliabilityLayer)
      → Waiting r l
      → f.payload ≡ stream r
      → Progress r (deliver_in_order f l)
  unfolding deliver_in_order
  deliver-Progress r f l w v =
      finish
        (drain-Drained stream (length l.recv_buffer) (suc r) (r + 2 ^ 15) (next_seq l.recv_next)
          l.recv_buffer (l.deliver_queue ++ f.payload ∷ []) (omega (arith, w.next)) (omega arith)
          w.ahead)
        (drain_complete (length l.recv_buffer) (next_seq l.recv_next) l.recv_buffer
          (l.deliver_queue ++ f.payload ∷ []) (omega arith))
    where
      finish :
          {out : ℕ × List (ℕ × Bytes) × List Bytes}
          → Drained stream (suc r) (r + 2 ^ 15) (l.deliver_queue ++ f.payload ∷ []) out
          → get out.0 out.1 ≡ none
          → Progress r (record l { recv_next = out.0; recv_buffer = out.1; deliver_queue = out.2 })
      finish {out} d e = record {
        count = suc d.count;
        end = d.end;
        end_eq = omega (arith, d.end_eq);
        next = d.next;
        queued = d.queued ∙ rw (w.idle, v);
        ahead =
            widen (suc d.end) (suc d.end) (r + 2 ^ 15) out.1 (omega arith)
              (strictly_later d.end (r + 2 ^ 15) out.0 out.1 d.next d.later e) (d.end + 2 ^ 15)
              (omega (arith, d.end_eq));
      }

  buffer-Holds :
      (r i : ℕ) (f : Frame) (l : ReliabilityLayer)
      → Waiting r l
      → f.seq ≡ i % 2 ^ 16
      → f.payload ≡ stream i
      → r < i
      → i < r + 2 ^ 15
      → All (Holds stream (suc r) (r + 2 ^ 15)) (buffer_out_of_order f l.recv_buffer)
  unfolding buffer_out_of_order
  buffer-Holds r i f l w k v lo hi = elim (Bool-cases (contains_key f.seq l.recv_buffer)) [
    | inl e ↦ rw e (elim (Bool-cases (ltb (length l.recv_buffer) 64)) [
      | inl q ↦ rw q w.ahead
      | inr q ↦ rw q w.ahead
    ])
    | inr e ↦ rw e (elim (Bool-cases (ltb (length l.recv_buffer) 64)) [
      | inl q ↦ rw q (All-insert _ f.seq f.payload l.recv_buffer (i, lo, hi, k, v) w.ahead)
      | inr q ↦ rw q w.ahead
    ])
  ]

  same_place :
      (r i : ℕ) (f : Frame) (l : ReliabilityLayer)
      → Waiting r l
      → f.seq ≡ i % 2 ^ 16
      → i < r + 2 ^ 15
      → r ≤ i + 2 ^ 15
      → (f.seq == l.recv_next) ≡ true
      → i ≡ r
  same_place r i f l w k hi lo e = omega (arith, w.next, (==_iff f.seq l.recv_next).0 e)

  later_place :
      (r i : ℕ) (f : Frame) (l : ReliabilityLayer)
      → Waiting r l
      → f.seq ≡ i % 2 ^ 16
      → i < r + 2 ^ 15
      → r ≤ i + 2 ^ 15
      → seq_gt f.seq l.recv_next ≡ true
      → r < i
  later_place r i f l w k hi lo g = omega (arith, w.next, seq_lt-true l.recv_next f.seq g)

  receive_sequenced-Progress :
      (r i : ℕ) (f : Frame) (l : ReliabilityLayer)
      → Waiting r l
      → f.seq ≡ i % 2 ^ 16
      → f.payload ≡ stream i
      → i < r + 2 ^ 15
      → r ≤ i + 2 ^ 15
      → Progress r (receive_sequenced f l).1
  unfolding receive_sequenced
  receive_sequenced-Progress r i f l w k v hi lo = elim (Bool-cases (f.seq == l.recv_next)) [
    | inl e ↦ rw e (deliver-Progress r f l w (v ∙ ap stream (same_place r i f l w k hi lo e)))
    | inr e ↦ rw e (elim (Bool-cases (seq_gt f.seq l.recv_next)) [
      | inl g ↦ rw g (record {
        count = 0;
        end = r;
        end_eq = omega arith;
        next = w.next;
        queued = w.idle;
        ahead = buffer-Holds r i f l w k v (later_place r i f l w k hi lo g) hi;
      })
      | inr g ↦ rw g (Progress-of_Waiting w)
    ])
  ]

  dispatch-Progress :
      (flags : FrameFlags) (now r : ℕ) (f : Frame) (l : ReliabilityLayer)
      → f.flags ≡ flags
      → Waiting r l
      → Genuine r f
      → Progress r (dispatch flags now f l).1
  unfolding dispatch handle_nack
  dispatch-Progress ack_flag now r f l q w g =
      Progress-same (handle_ack-SameReceiver now f.ack l) (Progress-of_Waiting w)
  dispatch-Progress nack_flag now r f l q w g = elim (Bool-cases (leb 2 (length f.payload))) [
    | inl e ↦ rw e (
        Progress-same (record { next = refl; queue = refl; buffer = refl }) (Progress-of_Waiting w))
    | inr e ↦ rw e (Progress-of_Waiting w)
  ]
  dispatch-Progress fin_flag now r f l q w g = Progress-of_Waiting w
  dispatch-Progress data_flag now r f l q w (inl h) = absurd (ground arith)
  dispatch-Progress chunk_flag now r f l q w (inl h) = absurd (ground arith)
  dispatch-Progress control_flag now r f l q w (inl h) = absurd (ground arith)
  dispatch-Progress data_flag now r f l q w (inr (i, k, v, hi, lo)) =
      receive_sequenced-Progress r i f l w k v hi lo
  dispatch-Progress chunk_flag now r f l q w (inr (i, k, v, hi, lo)) =
      receive_sequenced-Progress r i f l w k v hi lo
  dispatch-Progress control_flag now r f l q w (inr (i, k, v, hi, lo)) =
      receive_sequenced-Progress r i f l w k v hi lo

  piggyback-Progress :
      (now r : ℕ) (f : Frame) (fs : List Frame) (l : ReliabilityLayer)
      → Progress r l
      → Progress r (piggyback now f (fs, l)).1
  unfolding piggyback
  piggyback-Progress now r f fs l p = elim (Bool-cases (is_ack_only f.flags)) [
    | inl e ↦ rw e p
    | inr e ↦ rw e (elim (Bool-cases (f.ack == 0)) [
      | inl z ↦ rw z (Progress-same (record { next = refl; queue = refl; buffer = refl }) p)
      | inr z ↦ rw z (
          Progress-same (handle_ack-SameReceiver now f.ack _)
            (Progress-same (record { next = refl; queue = refl; buffer = refl }) p))
    ])
  ]

  -- What a call of `on_receive` returns, and the state after it.
  pub record Received (r : ℕ) (out : ReceiveResult × ReliabilityLayer) : Type 0 where
    pub count : ℕ
    pub end : ℕ
    pub end_eq : end ≡ r + count
    pub delivered : out.0.delivered ≡ segment stream r count
    pub waiting : Waiting end out.1

  -- A layer that has delivered the first `r` payloads answers a frame of the stream within half
  -- the ring by delivering the payloads that come next, none skipped, repeated or swapped, and is
  -- again a layer that has delivered all up to the last of them.
  pub on_receive-Received :
      (now r : ℕ) (f : Frame) (l : ReliabilityLayer)
      → Waiting r l
      → Genuine r f
      → Received r (on_receive now f l)
  unfolding on_receive
  on_receive-Received now r f l w g = finish (
      piggyback-Progress now r f (dispatch f.flags now f l).0 (dispatch f.flags now f l).1
        (dispatch-Progress f.flags now r f l refl w g))
    where
      finish :
          {out : List Frame × ReliabilityLayer}
          → Progress r out.1
          → Received r (
            record { ack_responses = out.0; delivered = out.1.deliver_queue },
            record out.1 { deliver_queue = [] },
          )
      finish p = record {
        count = p.count;
        end = p.end;
        end_eq = p.end_eq;
        delivered = p.queued;
        waiting = record { next = p.next; idle = refl; ahead = p.ahead };
      }
