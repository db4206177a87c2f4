-- ===== src/Transfer/Tests.antt =====
-- core/src/transfer/chunked.rs: the theorems of the transfer at concrete inputs.
use srltcpv.Base.{
  ℕ, zero, suc, ◌<◌, ◌≡◌, ◌%◌, ◌+◌, refl, true, none, some, [], ◌∷◌, Bytes, length, ok, err, arith,
}
use srltcpv.Base.NumSet.{contains}
use srltcpv.Base.NumSet
use srltcpv.Base.Assoc
use srltcpv.Transfer.{
  memory_source, on_ack, insert_sorted, is_sent, ack_chunk, TransferManifest, ChunkedSender,
  ChunkedReceiver, make_manifest, from_bytes, create, validate, with_source, receive_chunk,
  finalize, next_chunks, read_chunk, incomplete, div_ceil, all_hexdigits, chunk_len, same_bytes,
  send_ids, take_unsent, overdue, sort_unstable, read_source,
}
use srltcpv.Transfer.Chunks.{chunk_of}
use srltcpv.Transfer.Receiver.{IsOffer, validate-IsOffer, Receiving, created, stores}
use srltcpv.Transfer.Delivery.{finalize-Receiving, finalize-deliver, deliver}
use srltcpv.Transfer.Filename.Component.{IsComponent, sanitize_filename-IsComponent}
use srltcpv.Transfer.Filename.{
  sanitize_filename, last_part, filter_chars, trim_start, trim_end, byte_length,
}
use srltcpv.Transfer.Tracking.{IsSending}
use srltcpv.Transfer.Progress.{
  Sending, opened, sends_chunks, acknowledged, Sending-IsSending, next_chunks-progress,
}

abbrev repeat : ℕ → ℕ → Bytes
repeat zero b = []
repeat (suc n) b = b ∷ repeat n b

-- A digest for the tests: 64 times one digit.
abbrev toy_hex : Bytes → Bytes
toy_hex bs = repeat 64 (b'0' + length bs % 10)

abbrev five_bytes : Bytes
five_bytes = 10 ∷ 20 ∷ 30 ∷ 40 ∷ 50 ∷ []

abbrev sender : ChunkedSender
sender = from_bytes 0 five_bytes (toy_hex five_bytes) 2

abbrev offer : TransferManifest
offer = record { total_size = 5; chunk_size = 2; total_chunks = 3; sha256 = toy_hex five_bytes }

abbrev empty_receiver : ChunkedReceiver
empty_receiver = record { manifest = offer; file = 0 ∷ 0 ∷ 0 ∷ 0 ∷ 0 ∷ []; received = [] }

make_manifest_test : sender.manifest ≡ offer
unfolding make_manifest div_ceil
make_manifest_test = refl

next_chunks_test : (next_chunks 0 2 100 sender).0 ≡ ok ((0, 10 ∷ 20 ∷ []) ∷ (1, 30 ∷ 40 ∷ []) ∷ [])
unfolding next_chunks send_ids take_unsent overdue sort_unstable read_chunk read_source chunk_len
    make_manifest div_ceil contains
next_chunks_test = refl

offer-IsOffer : IsOffer offer
unfolding validate div_ceil all_hexdigits
offer-IsOffer = validate-IsOffer offer refl

created_offer : Receiving five_bytes offer empty_receiver
unfolding create validate div_ceil all_hexdigits
created_offer = created refl

-- The last chunk arrives, and the write of the first fails after one byte.
torn :
    Receiving five_bytes offer
      (receive_chunk
        (some 1)
        0
        (chunk_of offer five_bytes 0)
        (receive_chunk none 2 (chunk_of offer five_bytes 2) empty_receiver).1).1
torn =
    stores (some 1) 0 (chunk_of offer five_bytes 0)
      (stores none 2 (chunk_of offer five_bytes 2) created_offer (λ lt e. refl)) (λ lt e. refl)

finalize-Receiving_example : finalize toy_hex true true empty_receiver ≡ err incomplete
finalize-Receiving_example = finalize-Receiving five_bytes offer refl toy_hex refl created_offer

all_three : (k : ℕ) → k < 3 → contains k (2 ∷ 0 ∷ 1 ∷ []) ≡ true
unfolding contains
all_three k lt = ground arith

finalize-deliver_example :
    finalize toy_hex true true (
      deliver five_bytes offer
        (2 ∷ 0 ∷ 1 ∷ [])
        (receive_chunk
          (some 1)
          0
          (chunk_of offer five_bytes 0)
          (receive_chunk none 2 (chunk_of offer five_bytes 2) empty_receiver).1).1)
    ≡ ok five_bytes
finalize-deliver_example =
    finalize-deliver five_bytes offer refl toy_hex (2 ∷ 0 ∷ 1 ∷ []) refl torn all_three

abbrev full_receiver : ChunkedReceiver
full_receiver = record { manifest = offer; file = five_bytes; received = 0 ∷ 1 ∷ 2 ∷ [] }

full_run : finalize toy_hex true true full_receiver ≡ ok five_bytes
unfolding finalize same_bytes
full_run = refl

-- All three chunks are sent, the last two are acknowledged, and then the first.
abbrev three_sent : ChunkedSender
three_sent = (next_chunks 5 4 100 (with_source 0 offer (memory_source five_bytes))).1

three-Sending : Sending offer (memory_source five_bytes) three_sent
unfolding next_chunks send_ids take_unsent overdue sort_unstable read_chunk read_source chunk_len
    contains
three-Sending =
    sends_chunks 5 4 100 {out = (0, 10 ∷ 20 ∷ []) ∷ (1, 30 ∷ 40 ∷ []) ∷ (2, 50 ∷ []) ∷ []}
      (opened 0) refl

Sending-IsSending_example : IsSending (on_ack 9 (2 ∷ 1 ∷ []) three_sent)
Sending-IsSending_example = Sending-IsSending (acknowledged 9 (2 ∷ 1 ∷ []) three-Sending)

abbrev all_acked : ChunkedSender
all_acked = on_ack 9 (0 ∷ []) (on_ack 9 (2 ∷ 1 ∷ []) three_sent)

idle_run : (all_acked.inflight ≡ []) × ((next_chunks 500 4 100 all_acked).0 ≡ ok [])
unfolding next_chunks send_ids take_unsent overdue sort_unstable insert_sorted read_chunk
    read_source chunk_len contains on_ack ack_chunk NumSet.insert Assoc.insert Assoc.remove
idle_run = (refl, refl)

next_chunks-progress_example : is_sent (next_chunks 500 4 100 all_acked).1 ≡ true
next_chunks-progress_example =
    next_chunks-progress 500 4 100
      (acknowledged 9 (0 ∷ []) (acknowledged 9 (2 ∷ 1 ∷ []) three-Sending)) (omega arith)
      (rw idle_run.0 tt) idle_run.1

-- "../../.x: y " becomes "x y".
sanitize_filename_test :
    sanitize_filename
      (0x2E ∷ 0x2E ∷ b'/' ∷ 0x2E ∷ 0x2E ∷ b'/' ∷ 0x2E ∷ b'x' ∷ 0x3A ∷ 0x20 ∷ b'y' ∷ 0x20 ∷ [])
    ≡ b'x' ∷ 0x20 ∷ b'y' ∷ []
unfolding sanitize_filename last_part filter_chars trim_start trim_end byte_length
sanitize_filename_test = refl

sanitize_filename-IsComponent_example :
    IsComponent (sanitize_filename (0x2E ∷ 0x2E ∷ b'/' ∷ 0x2E ∷ 0x2E ∷ []))
sanitize_filename-IsComponent_example =
    sanitize_filename-IsComponent (0x2E ∷ 0x2E ∷ b'/' ∷ 0x2E ∷ 0x2E ∷ [])
