-- ===== src/Serial/Reliability/Acks.antt =====
-- Cumulative acknowledgement and the comparison of sequence numbers on the ring.
use srltcpv.Base.{
  ℕ, ◌+◌, ◌<◌, ◌%◌, ◌^◌, ◌≡◌, refl, inl, inr, Option, none, some, List, [], ◌∷◌, arith, Bool-cases,
  Option-cases, ltb, if◌then◌else◌,
}
use srltcpv.Base.Assoc.{get, modify, get-modify}
use srltcpv.Serial.Frame.{Frame}
use srltcpv.Serial.Reliability.{
  ReliabilityLayer, InflightEntry, seq_lt, make_due, min_key, fast_retransmit, count_ack,
  release_acked, handle_ack, handle_nack,
}

-- For frame numbers less than half the ring apart, `seq_lt` on their sequence numbers is the
-- order of the numbers, across every wrap-around.
pub seq_lt-ltb :
    (i j : ℕ) → i < j + 2 ^ 15 → j < i + 2 ^ 15 → seq_lt (i % 2 ^ 16) (j % 2 ^ 16) ≡ ltb i j
unfolding seq_lt
seq_lt-ltb i j h k = ground arith

-- The frame that is in flight under a sequence number.
abbrev pub frame_of : Option InflightEntry → Option Frame
frame_of none = none
frame_of (some e) = some e.frame

get-release_acked :
    (ack k : ℕ) (m : List (ℕ × InflightEntry))
    → get k (release_acked ack m) ≡ (if seq_lt k ack then none else get k m)
unfolding get release_acked
get-release_acked ack k [] = ground arith
get-release_acked ack k ((j, e) ∷ m) = ground (arith, get-release_acked ack k m)

frame_of-modify :
    (k j : ℕ) (now rto : ℕ) (m : List (ℕ × InflightEntry))
    → frame_of (get j (modify k (make_due now rto) m)) ≡ frame_of (get j m)
frame_of-modify k j now rto m = elim (Option-cases (get j m)) [
  | inl e ↦ rw (get-modify k j (make_due now rto) m) (ground arith)
  | inr (v, e) ↦ rw (get-modify k j (make_due now rto) m) (ground arith)
]

frame_of-count_ack :
    (now ack k : ℕ) (l : ReliabilityLayer)
    → frame_of (get k (count_ack now ack l).inflight) ≡ frame_of (get k l.inflight)
unfolding count_ack fast_retransmit
frame_of-count_ack now ack k l = elim (Option-cases (min_key l.inflight)) [
  | inl e ↦ ground arith
  | inr (s, e) ↦ ground (arith, frame_of-modify s k now l.rto l.inflight)
]

-- An ACK, duplicate or not, takes exactly the frames before it on the ring out of the window,
-- and keeps all others to be resent; a NACK takes none out.
pub frame_of-handle_ack :
    (now ack missing k : ℕ) (l : ReliabilityLayer)
    → (frame_of (get k (handle_ack now ack l).inflight)
        ≡ (if seq_lt k ack then none else frame_of (get k l.inflight)))
      × (frame_of (get k (handle_nack now missing l).inflight) ≡ frame_of (get k l.inflight))
unfolding handle_ack handle_nack
frame_of-handle_ack now ack missing k l = (
  elim (Bool-cases (seq_lt k ack)) [
    | inl s ↦ rw (get-release_acked ack k (count_ack now ack l).inflight, s) refl
    | inr s ↦
        rw (get-release_acked ack k (count_ack now ack l).inflight, s)
          (frame_of-count_ack now ack k l)
  ],
  frame_of-modify missing k now l.rto l.inflight,
)
