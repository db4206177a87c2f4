-- ===== src/Serial/Reliability.antt =====
-- core/src/serial/reliability.rs: the sliding window, acknowledgements, retransmission and the
-- ordered delivery of `ReliabilityLayer`. `Instant::now()` is the argument `now`, in milliseconds
-- from an origin that lies at least `rto` back (`Instant::now() - rto` stops at 0 here).
pub mod Drain
pub mod Order
pub mod Sessions
pub mod Window
pub mod Bounds
pub mod Acks
pub mod Retries
mod Tests
use srltcpv.Base.{
  ℕ, zero, suc, ◌+◌, ◌-◌, ◌≤◌, ◌<◌, ◌%◌, ◌^◌, Bool, true, false, not, ◌&&◌, ◌||◌, Option, none,
  some, List, [], ◌∷◌, ◌++◌, Bytes, length, get_or, ◌==◌, leb, ltb, if◌then◌else◌, u16_from_be, min,
  map,
}
use srltcpv.Base.Assoc.{get, remove, insert, contains_key, modify}
use srltcpv.Serial.Frame.{
  Frame, FrameFlags, data_flag, ack_flag, nack_flag, control_flag, fin_flag, chunk_flag,
  is_ack_only, data_frame, ack_frame, nack_frame, chunk_frame, fin_frame, max_payload_size,
}

abbrev pub default_rto_ms : ℕ
default_rto_ms = 200

abbrev pub default_window_size : ℕ
default_window_size = 8

abbrev pub max_retries : ℕ
max_retries = 12

abbrev pub max_recv_buffer : ℕ
max_recv_buffer = 64

pub record InflightEntry : Type 0 where
  pub frame : Frame
  pub sent_at : ℕ
  pub retries : ℕ

pub record ReliabilityLayer : Type 0 where
  pub send_seq : ℕ
  pub recv_next : ℕ
  pub send_ack : ℕ
  pub inflight : List (ℕ × InflightEntry)
  pub recv_buffer : List (ℕ × Bytes)
  pub deliver_queue : List Bytes
  pub rto : ℕ
  pub window_size : ℕ
  pub dup_ack_count : ℕ
  pub last_ack : ℕ
  pub failed : Bool

pub record ReceiveResult : Type 0 where
  pub ack_responses : List Frame
  pub delivered : List Bytes

abbrev pub new : ReliabilityLayer
new = record {
  send_seq = 0;
  recv_next = 0;
  send_ack = 0;
  inflight = [];
  recv_buffer = [];
  deliver_queue = [];
  rto = default_rto_ms;
  window_size = default_window_size;
  dup_ack_count = 0;
  last_ack = 0;
  failed = false;
}

abbrev pub with_rto : ReliabilityLayer → ℕ → ReliabilityLayer
with_rto r rto = record r { rto = rto }

abbrev pub with_window : ReliabilityLayer → ℕ → ReliabilityLayer
with_window r size = record r { window_size = size }

-- `seq.wrapping_add(1)` of a `u16`, and `+= 1` of a `u32` counter.
abbrev pub next_seq : ℕ → ℕ
next_seq s = (s + 1) % 2 ^ 16

abbrev pub incr_u32 : ℕ → ℕ
incr_u32 n = (n + 1) % 2 ^ 32

-- `b.wrapping_sub(a) < 0x8000` on `u16`.
unfoldable pub seq_lt : ℕ → ℕ → Bool
seq_lt a b = not (a == b) && ltb ((b + 2 ^ 16 - a) % 2 ^ 16) 0x8000

abbrev pub seq_gt : ℕ → ℕ → Bool
seq_gt a b = seq_lt b a

-- The two `prepare_…` functions end alike: the frame takes `send_seq` and is kept for resending.
unfoldable pub launch : ℕ → Frame → ReliabilityLayer → Frame × ReliabilityLayer
launch now frame r = (
  frame,
  record r {
    send_seq = next_seq r.send_seq;
    inflight = insert r.send_seq (record { frame = frame; sent_at = now; retries = 0 }) r.inflight;
  },
)

-- `none` leaves the layer as it was.
unfoldable pub prepare_send : ℕ → Bytes → ReliabilityLayer → Option (Frame × ReliabilityLayer)
prepare_send now payload r =
    if leb r.window_size (length r.inflight)
    then none
    else if ltb max_payload_size (length payload)
    then none
    else some (launch now (data_frame r.send_seq r.send_ack payload) r)

unfoldable pub prepare_chunk_send :
    ℕ → ℕ → Bytes → ReliabilityLayer → Option (Frame × ReliabilityLayer)
prepare_chunk_send now chunk_id bytes r =
    if leb r.window_size (length r.inflight)
    then none
    else some (launch now (chunk_frame r.send_seq r.send_ack chunk_id bytes) r)

-- An entry that the next poll finds overdue.
abbrev pub make_due : ℕ → ℕ → InflightEntry → InflightEntry
make_due now rto e = record e { sent_at = now - rto; retries = incr_u32 e.retries }

unfoldable pub min_key {ℓ} : {V : Type ℓ} → List (ℕ × V) → Option ℕ
min_key [] = none
min_key ((k, v) ∷ m) = elim (min_key m) [ none ↦ some k | some j ↦ some (min k j) ]

unfoldable pub fast_retransmit : ℕ → ReliabilityLayer → ReliabilityLayer
fast_retransmit now r = elim (min_key r.inflight) [
  | none ↦ r
  | some seq ↦ record r { inflight = modify seq (make_due now r.rto) r.inflight }
]

unfoldable pub count_ack : ℕ → ℕ → ReliabilityLayer → ReliabilityLayer
count_ack now ack r =
    if ack == r.last_ack
    then (if leb 3 (incr_u32 r.dup_ack_count)
        then record (fast_retransmit now r) { dup_ack_count = 0 }
        else record r { dup_ack_count = incr_u32 r.dup_ack_count })
    else record r { dup_ack_count = 0; last_ack = ack }

-- Removes the keys before `ack` on the ring.
unfoldable pub release_acked : ℕ → List (ℕ × InflightEntry) → List (ℕ × InflightEntry)
release_acked ack [] = []
release_acked ack ((k, e) ∷ m) =
    if seq_lt k ack then release_acked ack m else (k, e) ∷ release_acked ack m

unfoldable pub handle_ack : ℕ → ℕ → ReliabilityLayer → ReliabilityLayer
handle_ack now ack r =
    let r' = count_ack now ack r in record r' { inflight = release_acked ack r'.inflight }

unfoldable pub handle_nack : ℕ → ℕ → ReliabilityLayer → ReliabilityLayer
handle_nack now missing_seq r = record r {
  inflight = modify missing_seq (make_due now r.rto) r.inflight;
}

-- The `while let Some(buf) = recv_buffer.remove(&recv_next)` loop over the next sequence number,
-- the buffer and the queue. Each round takes an entry out, so the buffer's length is enough fuel.
unfoldable pub drain : ℕ → ℕ → List (ℕ × Bytes) → List Bytes → ℕ × List (ℕ × Bytes) × List Bytes
drain zero next buffer queue = (next, buffer, queue)
drain (suc fuel) next buffer queue = elim (get next buffer) [
  | none ↦ (next, buffer, queue)
  | some buf ↦ drain fuel (next_seq next) (remove next buffer) (queue ++ buf ∷ [])
]

unfoldable pub deliver_in_order : Frame → ReliabilityLayer → ReliabilityLayer
deliver_in_order f r =
    let out =
      drain (length r.recv_buffer) (next_seq r.recv_next) r.recv_buffer
        (r.deliver_queue ++ f.payload ∷ []) in
    record r { recv_next = out.0; recv_buffer = out.1; deliver_queue = out.2 }

-- `entry(seq).or_insert_with(…)` under the cap.
unfoldable pub buffer_out_of_order : Frame → List (ℕ × Bytes) → List (ℕ × Bytes)
buffer_out_of_order f buffer =
    if ltb (length buffer) max_recv_buffer || contains_key f.seq buffer
    then (if contains_key f.seq buffer then buffer else insert f.seq f.payload buffer)
    else buffer

unfoldable pub receive_sequenced : Frame → ReliabilityLayer → List Frame × ReliabilityLayer
receive_sequenced f r =
    if f.seq == r.recv_next
    then ([], deliver_in_order f r)
    else if seq_gt f.seq r.recv_next
    then (
      nack_frame 0 r.recv_next r.recv_next ∷ [],
      record r { recv_buffer = buffer_out_of_order f r.recv_buffer },
    )
    else ([], r)

-- The `match frame.flags`.
unfoldable pub dispatch : FrameFlags → ℕ → Frame → ReliabilityLayer → List Frame × ReliabilityLayer
dispatch ack_flag now f r = ([], handle_ack now f.ack r)
dispatch nack_flag now f r = (
  [],
  if leb 2 (length f.payload)
      then handle_nack now (u16_from_be (get_or f.payload 0 0) (get_or f.payload 1 0)) r
      else r,
)
dispatch data_flag now f r = receive_sequenced f r
dispatch chunk_flag now f r = receive_sequenced f r
dispatch control_flag now f r = receive_sequenced f r
dispatch fin_flag now f r = ([], r)

-- The acknowledgement that goes out, and the one that came in on the frame.
unfoldable pub piggyback : ℕ → Frame → List Frame × ReliabilityLayer → List Frame × ReliabilityLayer
piggyback now f (responses, r) = if is_ack_only f.flags then (responses, r) else (
  responses ++ ack_frame 0 r.recv_next ∷ [],
  (if f.ack == 0
      then record r { send_ack = r.recv_next }
      else handle_ack now f.ack (record r { send_ack = r.recv_next })),
)

unfoldable pub on_receive : ℕ → Frame → ReliabilityLayer → ReceiveResult × ReliabilityLayer
on_receive now f r =
    let (responses, r') = piggyback now f (dispatch f.flags now f r) in
    (
      record { ack_responses = responses; delivered = r'.deliver_queue },
      record r' { deliver_queue = [] },
    )

-- One round of the loop of `poll_retransmits`: the entry, the frame to resend, and whether the
-- entry has used up its retries.
unfoldable pub poll_entry : ℕ → ℕ → InflightEntry → InflightEntry × Option Frame × Bool
poll_entry now rto e =
    if leb rto (now - e.sent_at)
    then (if leb max_retries e.retries
        then (e, none, true)
        else (record e { sent_at = now; retries = incr_u32 e.retries }, some e.frame, false))
    else (e, none, false)

abbrev push_frame : Option Frame → List Frame → List Frame
push_frame none fs = fs
push_frame (some f) fs = f ∷ fs

-- The loop, in the order of the list: the frames to resend, the entries, and whether one failed.
unfoldable pub poll_entries :
    ℕ → ℕ → List (ℕ × InflightEntry) → List Frame × List (ℕ × InflightEntry) × Bool
poll_entries now rto [] = ([], [], false)
poll_entries now rto ((k, e) ∷ m) =
    let (e', resend, dead) = poll_entry now rto e in
    let (frames, m', failed) = poll_entries now rto m in
    (push_frame resend frames, (k, e') ∷ m', dead || failed)

-- `retain(|_, e| e.retries < MAX_RETRIES)`.
unfoldable pub retain_live : List (ℕ × InflightEntry) → List (ℕ × InflightEntry)
retain_live [] = []
retain_live ((k, e) ∷ m) =
    if ltb e.retries max_retries then (k, e) ∷ retain_live m else retain_live m

unfoldable pub poll_retransmits : ℕ → ReliabilityLayer → List Frame × ReliabilityLayer
poll_retransmits now r =
    let (frames, entries, dead) = poll_entries now r.rto r.inflight in
    (frames, record r { inflight = retain_live entries; failed = dead || r.failed })

abbrev pub has_failed : ReliabilityLayer → Bool
has_failed r = r.failed

abbrev pub pending_count : ReliabilityLayer → ℕ
pending_count r = length r.inflight

abbrev pub create_fin : ReliabilityLayer → Frame
create_fin r = fin_frame r.send_seq r.send_ack
