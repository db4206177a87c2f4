-- ===== src/Serial/Reliability/Window.antt =====
-- The bounds on the window, the reorder buffer and the sequence numbers, and how the sending half
-- keeps them.
use srltcpv.Base.{
  ℕ, ◌≤◌, ◌<◌, ◌^◌, ◌≡◌, refl, inl, inr, Option, none, some, List, [], ◌∷◌, Bytes, length, arith,
  All, Bool-cases, Option-cases, leb, ltb,
}
use srltcpv.Base.Assoc.{length-insert_le, length-modify, All-insert, All-modify}
use srltcpv.Serial.Frame.{Frame}
use srltcpv.Serial.Reliability.{
  ReliabilityLayer, InflightEntry, max_recv_buffer, launch, prepare_send, prepare_chunk_send,
  make_due, min_key, fast_retransmit, count_ack, release_acked, handle_ack, handle_nack,
}

-- What a send leaves: the layer as it was, if there was no room.
abbrev pub after_send : ReliabilityLayer → Option (Frame × ReliabilityLayer) → ReliabilityLayer
after_send l none = l
after_send l (some (f, l')) = l'

pub record IsBounded (l : ReliabilityLayer) : Type 0 where
  pub window : length l.inflight ≤ l.window_size
  pub buffered : length l.recv_buffer ≤ max_recv_buffer
  pub send_u16 : l.send_seq < 2 ^ 16
  pub recv_u16 : l.recv_next < 2 ^ 16
  pub keyed : All (λ (e : ℕ × InflightEntry). e.1.frame.seq ≡ e.0) l.inflight

abbrev pub Keyed : List (ℕ × InflightEntry) → Type 0
Keyed = All (λ (e : ℕ × InflightEntry). e.1.frame.seq ≡ e.0)

launch-IsBounded :
    (now : ℕ) (f : Frame) (l : ReliabilityLayer)
    → IsBounded l
    → f.seq ≡ l.send_seq
    → length l.inflight < l.window_size
    → IsBounded (launch now f l).1
unfolding launch
launch-IsBounded now f l v e h = record {
  window = omega (
    arith,
    length-insert_le l.send_seq (record { frame = f; sent_at = now; retries = 0 }) l.inflight,
  );
  buffered = v.buffered;
  send_u16 = omega arith;
  recv_u16 = v.recv_u16;
  keyed = All-insert _ l.send_seq _ l.inflight e v.keyed;
}

pub prepare_send-IsBounded :
    (now : ℕ) (payload : Bytes) (l : ReliabilityLayer)
    → IsBounded l
    → IsBounded (after_send l (prepare_send now payload l))
unfolding prepare_send
prepare_send-IsBounded now payload l v = elim (Bool-cases (leb l.window_size (length l.inflight))) [
  | inl e ↦ rw e v
  | inr e ↦ rw e (elim (Bool-cases (ltb 4096 (length payload))) [
    | inl q ↦ rw q v
    | inr q ↦ rw q (launch-IsBounded now _ l v refl (ground arith))
  ])
]

pub prepare_chunk_send-IsBounded :
    (now id : ℕ) (bytes : Bytes) (l : ReliabilityLayer)
    → IsBounded l
    → IsBounded (after_send l (prepare_chunk_send now id bytes l))
unfolding prepare_chunk_send
prepare_chunk_send-IsBounded now id bytes l v =
    elim (Bool-cases (leb l.window_size (length l.inflight))) [
      | inl e ↦ rw e v
      | inr e ↦ rw e (launch-IsBounded now _ l v refl (ground arith))
    ]

length-release_acked :
    (ack : ℕ) (m : List (ℕ × InflightEntry)) → length (release_acked ack m) ≤ length m
unfolding release_acked
length-release_acked ack [] = omega arith
length-release_acked ack ((k, e) ∷ m) = ground (arith, length-release_acked ack m)

release_acked-Keyed :
    (ack : ℕ) (m : List (ℕ × InflightEntry)) → Keyed m → Keyed (release_acked ack m)
unfolding release_acked
release_acked-Keyed ack [] h = tt
release_acked-Keyed ack ((k, e) ∷ m) h = ground (arith, release_acked-Keyed ack m)

fast_retransmit-IsBounded :
    (now : ℕ) (l : ReliabilityLayer) → IsBounded l → IsBounded (fast_retransmit now l)
unfolding fast_retransmit
fast_retransmit-IsBounded now l v = elim (Option-cases (min_key l.inflight)) [
  | inl e ↦ rw (e, fast_retransmit) v
  | inr (k, e) ↦
      rw (e, fast_retransmit)
        (record {
          window = omega (arith, length-modify k (make_due now l.rto) l.inflight);
          buffered = v.buffered;
          send_u16 = v.send_u16;
          recv_u16 = v.recv_u16;
          keyed = All-modify _ k (make_due now l.rto) l.inflight (λ j e h. h) v.keyed;
        })
]

count_ack-IsBounded :
    (now ack : ℕ) (l : ReliabilityLayer) → IsBounded l → IsBounded (count_ack now ack l)
unfolding count_ack
count_ack-IsBounded now ack l v = ground (arith, fast_retransmit-IsBounded now l v)

pub handle_ack-IsBounded :
    (now ack : ℕ) (l : ReliabilityLayer) → IsBounded l → IsBounded (handle_ack now ack l)
unfolding handle_ack
handle_ack-IsBounded now ack l v =
    let w : IsBounded (count_ack now ack l) = count_ack-IsBounded now ack l v in
    record {
      window = omega (arith, w.window, length-release_acked ack (count_ack now ack l).inflight);
      buffered = w.buffered;
      send_u16 = w.send_u16;
      recv_u16 = w.recv_u16;
      keyed = release_acked-Keyed ack (count_ack now ack l).inflight w.keyed;
    }

pub handle_nack-IsBounded :
    (now seq : ℕ) (l : ReliabilityLayer) → IsBounded l → IsBounded (handle_nack now seq l)
unfolding handle_nack
handle_nack-IsBounded now seq l v = record {
  window = omega (arith, length-modify seq (make_due now l.rto) l.inflight);
  buffered = v.buffered;
  send_u16 = v.send_u16;
  recv_u16 = v.recv_u16;
  keyed = All-modify _ seq (make_due now l.rto) l.inflight (λ j e h. h) v.keyed;
}
