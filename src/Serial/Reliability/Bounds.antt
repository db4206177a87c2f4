-- ===== src/Serial/Reliability/Bounds.antt =====
-- The bounds over any run of sends, receipts and polls.
use srltcpv.Base.{
  ℕ, zero, suc, ◌≤◌, ◌<◌, ◌^◌, inl, inr, List, [], ◌∷◌, ◌++◌, Bytes, length, arith, Bool-cases,
  Option-cases, ◌==◌, leb,
}
use srltcpv.Base.Assoc.{get, remove, length-insert_le, length-remove_le}
use srltcpv.Serial.Frame.{
  Frame, FrameFlags, data_flag, ack_flag, nack_flag, control_flag, fin_flag, chunk_flag,
  is_ack_only,
}
use srltcpv.Serial.Reliability.{
  ReliabilityLayer, InflightEntry, new, with_rto, with_window, max_recv_buffer, prepare_send,
  prepare_chunk_send, drain, deliver_in_order, buffer_out_of_order, receive_sequenced, dispatch,
  piggyback, on_receive, poll_entry, poll_entries, retain_live, poll_retransmits, next_seq, seq_gt,
}
use srltcpv.Serial.Reliability.Window.{
  IsBounded, Keyed, after_send, prepare_send-IsBounded, prepare_chunk_send-IsBounded,
  handle_ack-IsBounded, handle_nack-IsBounded,
}

-- The operations of a layer, each at its time.
pub data Op : Type 0 where
  send : ℕ → Bytes → Op
  send_chunk : ℕ → ℕ → Bytes → Op
  receive : ℕ → Frame → Op
  poll : ℕ → Op

pub apply : Op → ReliabilityLayer → ReliabilityLayer
apply (send now payload) l = after_send l (prepare_send now payload l)
apply (send_chunk now id bytes) l = after_send l (prepare_chunk_send now id bytes l)
apply (receive now f) l = (on_receive now f l).1
apply (poll now) l = (poll_retransmits now l).1

pub run : List Op → ReliabilityLayer → ReliabilityLayer
run [] l = l
run (op ∷ ops) l = run ops (apply op l)

drain_bounds :
    (fuel next : ℕ) (buffer : List (ℕ × Bytes)) (queue : List Bytes)
    → next < 2 ^ 16
    → (length (drain fuel next buffer queue).1 ≤ length buffer)
      × ((drain fuel next buffer queue).0 < 2 ^ 16)
unfolding drain
drain_bounds zero next buffer queue h = (omega arith, h)
drain_bounds (suc fuel) next buffer queue h = elim (Option-cases (get next buffer)) [
  | inl e ↦ rw (e, drain) (omega arith, h)
  | inr (buf, e) ↦
      rw (e, drain)
        (let ih =
            drain_bounds fuel (next_seq next) (remove next buffer) (queue ++ buf ∷ [])
              (omega arith) in
          (omega (arith, ih.0, length-remove_le next buffer), ih.1))
]

deliver_in_order-IsBounded :
    (f : Frame) (l : ReliabilityLayer) → IsBounded l → IsBounded (deliver_in_order f l)
unfolding deliver_in_order
deliver_in_order-IsBounded f l v =
    let b =
      drain_bounds (length l.recv_buffer) (next_seq l.recv_next) l.recv_buffer
        (l.deliver_queue ++ f.payload ∷ []) (omega arith) in
    record {
      window = v.window;
      buffered = omega (arith, b.0, v.buffered);
      send_u16 = v.send_u16;
      recv_u16 = b.1;
      keyed = v.keyed;
    }

length-buffer_out_of_order :
    (f : Frame) (m : List (ℕ × Bytes))
    → length m ≤ max_recv_buffer
    → length (buffer_out_of_order f m) ≤ max_recv_buffer
unfolding buffer_out_of_order
length-buffer_out_of_order f m h = ground (arith, length-insert_le f.seq f.payload m)

receive_sequenced-IsBounded :
    (f : Frame) (l : ReliabilityLayer) → IsBounded l → IsBounded (receive_sequenced f l).1
unfolding receive_sequenced
receive_sequenced-IsBounded f l v = elim (Bool-cases (f.seq == l.recv_next)) [
  | inl e ↦ rw e (deliver_in_order-IsBounded f l v)
  | inr e ↦ rw e (elim (Bool-cases (seq_gt f.seq l.recv_next)) [
    | inl g ↦ rw g (record {
      window = v.window;
      buffered = length-buffer_out_of_order f l.recv_buffer v.buffered;
      send_u16 = v.send_u16;
      recv_u16 = v.recv_u16;
      keyed = v.keyed;
    })
    | inr g ↦ rw g v
  ])
]

dispatch-IsBounded :
    (flags : FrameFlags) (now : ℕ) (f : Frame) (l : ReliabilityLayer)
    → IsBounded l
    → IsBounded (dispatch flags now f l).1
unfolding dispatch
dispatch-IsBounded ack_flag now f l v = handle_ack-IsBounded now f.ack l v
dispatch-IsBounded nack_flag now f l v = elim (Bool-cases (leb 2 (length f.payload))) [
  | inl e ↦ rw e (handle_nack-IsBounded now _ l v)
  | inr e ↦ rw e v
]
dispatch-IsBounded data_flag now f l v = receive_sequenced-IsBounded f l v
dispatch-IsBounded chunk_flag now f l v = receive_sequenced-IsBounded f l v
dispatch-IsBounded control_flag now f l v = receive_sequenced-IsBounded f l v
dispatch-IsBounded fin_flag now f l v = v

acked-IsBounded :
    (l : ReliabilityLayer) → IsBounded l → IsBounded (record l { send_ack = l.recv_next })
acked-IsBounded l v = record {
  window = v.window;
  buffered = v.buffered;
  send_u16 = v.send_u16;
  recv_u16 = v.recv_u16;
  keyed = v.keyed;
}

piggyback-IsBounded :
    (now : ℕ) (f : Frame) (fs : List Frame) (l : ReliabilityLayer)
    → IsBounded l
    → IsBounded (piggyback now f (fs, l)).1
unfolding piggyback
piggyback-IsBounded now f fs l v = elim (Bool-cases (is_ack_only f.flags)) [
  | inl e ↦ rw e v
  | inr e ↦ rw e (elim (Bool-cases (f.ack == 0)) [
    | inl z ↦ rw z (acked-IsBounded l v)
    | inr z ↦ rw z (handle_ack-IsBounded now f.ack _ (acked-IsBounded l v))
  ])
]

on_receive-IsBounded :
    (now : ℕ) (f : Frame) (l : ReliabilityLayer) → IsBounded l → IsBounded (on_receive now f l).1
unfolding on_receive
on_receive-IsBounded now f l v = flushed (piggyback now f (dispatch f.flags now f l)).1 (
    piggyback-IsBounded now f (dispatch f.flags now f l).0 (dispatch f.flags now f l).1
      (dispatch-IsBounded f.flags now f l v))
  where
    flushed : (l : ReliabilityLayer) → IsBounded l → IsBounded (record l { deliver_queue = [] })
    flushed l v = record {
      window = v.window;
      buffered = v.buffered;
      send_u16 = v.send_u16;
      recv_u16 = v.recv_u16;
      keyed = v.keyed;
    }

poll_entries_bounds :
    (now rto : ℕ) (m : List (ℕ × InflightEntry))
    → Keyed m
    → (length (retain_live (poll_entries now rto m).1) ≤ length m)
      × Keyed (retain_live (poll_entries now rto m).1)
unfolding poll_entries poll_entry retain_live
poll_entries_bounds now rto [] h = (omega arith, tt)
poll_entries_bounds now rto ((k, e) ∷ m) h = ground (arith, poll_entries_bounds now rto m h.1)

poll_retransmits-IsBounded :
    (now : ℕ) (l : ReliabilityLayer) → IsBounded l → IsBounded (poll_retransmits now l).1
unfolding poll_retransmits
poll_retransmits-IsBounded now l v =
    let b = poll_entries_bounds now l.rto l.inflight v.keyed in
    record {
      window = omega (arith, b.0, v.window);
      buffered = v.buffered;
      send_u16 = v.send_u16;
      recv_u16 = v.recv_u16;
      keyed = b.1;
    }

apply-IsBounded : (op : Op) (l : ReliabilityLayer) → IsBounded l → IsBounded (apply op l)
unfolding apply
apply-IsBounded (send now payload) l v = prepare_send-IsBounded now payload l v
apply-IsBounded (send_chunk now id bytes) l v = prepare_chunk_send-IsBounded now id bytes l v
apply-IsBounded (receive now f) l v = on_receive-IsBounded now f l v
apply-IsBounded (poll now) l v = poll_retransmits-IsBounded now l v

run_keeps : (ops : List Op) (l : ReliabilityLayer) → IsBounded l → IsBounded (run ops l)
unfolding run
run_keeps [] l v = v
run_keeps (op ∷ ops) l v = run_keeps ops (apply op l) (apply-IsBounded op l v)

-- After any operations on a new layer, whatever frames come in, at most `window_size` frames are
-- in flight, each under its own sequence number, at most 64 are buffered, and both counters are
-- below 2 ^ 16.
pub run-new-IsBounded :
    (rto window : ℕ) (ops : List Op) → IsBounded (run ops (with_window (with_rto new rto) window))
run-new-IsBounded rto window ops = run_keeps ops _ (record {
  window = omega arith;
  buffered = omega arith;
  send_u16 = omega arith;
  recv_u16 = omega arith;
  keyed = tt;
})
