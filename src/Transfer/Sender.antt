-- ===== src/Transfer/Sender.antt =====
-- core/src/transfer/chunked.rs: what a sender reads, how much it keeps in flight, and that no
-- chunk is forgotten.
use srltcpv.Base.{
  ℕ, zero, suc, ◌+◌, ◌-◌, ◌^◌, ◌<◌, ◌≤◌, min, max, ◌≡◌, refl, inl, inr, true, List, [], ◌∷◌, ◌++◌,
  Bytes, length, leb, Bool-cases, ok, err, arith, All, All-imp, Result-cases,
}
use srltcpv.Base.Assoc.{
  insert as put, contains_key, length-insert_le, contains_key-insert, length-insert_held,
}
use srltcpv.Base.NumSet.{contains}
use srltcpv.Transfer.{
  TransferError, ChunkedSender, memory_source, validate, make_manifest, read_source, read_chunk,
  overdue, insert_sorted, sort_unstable, take_unsent, send_ids, next_chunks, div_ceil,
  max_chunk_size, max_transfer_bytes, all_hexdigits,
}
use srltcpv.Transfer.Chunks.{chunk_of}
use srltcpv.Transfer.Receiver.{IsOffer, chunk_start-eq, chunk_len-eq}

-- With data of the size that a valid offer names, every chunk below the number of chunks is
-- read from memory without leaving it, and is the piece of the data at its offset; no 64-bit
-- operation wraps around.
pub read_chunk-memory :
    (whole : Bytes) (s : ChunkedSender) (id : ℕ)
    → s.source ≡ memory_source whole
    → length whole ≡ s.manifest.total_size
    → IsOffer s.manifest
    → id < s.manifest.total_chunks
    → read_chunk s id ≡ ok (chunk_of s.manifest whole id)
unfolding read_chunk read_source
read_chunk-memory whole s id e total offer lt =
    let (start, start_lt) = chunk_start-eq s.manifest offer id lt in
    rw (e, start, chunk_len-eq s.manifest offer id lt) (ground arith)

-- The manifest of a sender passes the validation of the receiver, for a digest of 64
-- hexadecimal digits and a file within the size limit whose number of chunks fits 32 bits.
pub validate-make_manifest :
    (total chunk_size : ℕ) (sha : Bytes)
    → total ≤ max_transfer_bytes
    → div_ceil total (max 1 (min chunk_size max_chunk_size)) < 2 ^ 32
    → length sha ≡ 64
    → all_hexdigits sha ≡ true
    → validate (make_manifest total chunk_size sha) ≡ ok tt
unfolding validate make_manifest
validate-make_manifest total chunk_size sha le fits len hex = rw (len, hex) (ground arith)

length-take_unsent :
    (fuel room next : ℕ) (acked : List ℕ) → length (take_unsent fuel room acked next).0 ≤ room
unfolding take_unsent
length-take_unsent zero room next acked = omega arith
length-take_unsent (suc fuel) room next acked = elim (Bool-cases (contains next acked)) [
  | inl e ↦ rw e (ground (arith, length-take_unsent fuel room (next + 1) acked))
  | inr e ↦ rw e (ground (arith, length-take_unsent fuel (room - 1) (next + 1) acked))
]

pub contains_key-put :
    (k j t : ℕ) (m : List (ℕ × ℕ)) → contains_key k m ≡ true → contains_key k (put j t m) ≡ true
contains_key-put k j t m h = rw (contains_key-insert j k t m, h) (ground arith)

insert_sorted-All :
    (P : ℕ → Type 0) (x : ℕ) (xs : List ℕ) → P x → All P xs → All P (insert_sorted x xs)
unfolding insert_sorted
insert_sorted-All P x [] p h = (p, tt)
insert_sorted-All P x (y ∷ ys) p h = elim (Bool-cases (leb x y)) [
  | inl e ↦ rw e (p, h)
  | inr e ↦ rw e (h.0, insert_sorted-All P x ys p h.1)
]

sort_unstable-All : (P : ℕ → Type 0) (xs : List ℕ) → All P xs → All P (sort_unstable xs)
unfolding sort_unstable
sort_unstable-All P [] h = tt
sort_unstable-All P (x ∷ xs) h =
    insert_sorted-All P x (sort_unstable xs) h.0 (sort_unstable-All P xs h.1)

overdue-held :
    (now resend_after : ℕ) (m : List (ℕ × ℕ))
    → All (λ id. contains_key id m ≡ true) (overdue now resend_after m)
unfolding overdue contains_key
overdue-held now resend_after [] = tt
overdue-held now resend_after ((id, sent) ∷ m) =
    let rest =
      All-imp (λ k. contains_key k m ≡ true) (λ k. contains_key k ((id, sent) ∷ m) ≡ true)
        (λ k h. ground arith) (overdue now resend_after m) (overdue-held now resend_after m) in
    elim (Bool-cases (leb resend_after (now - sent))) [
      | inl e ↦ rw e (ground arith, rest)
      | inr e ↦ rw e rest
    ]

pub sent_err :
    (now id : ℕ) (ids : List ℕ) (s : ChunkedSender) (e : TransferError)
    → read_chunk s id ≡ err e
    → send_ids now (id ∷ ids) s ≡ (err e, s)
unfolding send_ids
sent_err now id ids s e h = rw (h, send_ids) refl

abbrev pub launched : ℕ → ℕ → ChunkedSender → ChunkedSender
launched now id s = record s { inflight = put id now s.inflight }

pub sent_ok :
    (now id : ℕ) (ids : List ℕ) (s : ChunkedSender) (bytes : Bytes)
    → read_chunk s id ≡ ok bytes
    → (send_ids now (id ∷ ids) s).1 ≡ (send_ids now ids (launched now id s)).1
unfolding send_ids
sent_ok now id ids s bytes h = rw (h, send_ids) refl

-- Resends do not lengthen the list of chunks in flight.
length-send_ids :
    (now : ℕ) (ids : List ℕ) (s : ChunkedSender)
    → length (send_ids now ids s).1.inflight ≤ length s.inflight + length ids
length-send_ids now [] s = unfold send_ids in omega arith
length-send_ids now (id ∷ ids) s = elim (Result-cases (read_chunk s id)) [
  | inl (e, f) ↦ rw (sent_err now id ids s e f) (omega arith)
  | inr (bytes, f) ↦ rw (sent_ok now id ids s bytes f) (
      omega
        (arith, length-send_ids now ids (launched now id s), length-insert_le id now s.inflight))
]

length-send_ids_due :
    (now : ℕ) (due fresh : List ℕ) (s : ChunkedSender)
    → All (λ id. contains_key id s.inflight ≡ true) due
    → length (send_ids now (due ++ fresh) s).1.inflight ≤ length s.inflight + length fresh
length-send_ids_due now [] fresh s h = length-send_ids now fresh s
length-send_ids_due now (id ∷ due) fresh s h = elim (Result-cases (read_chunk s id)) [
  | inl (e, f) ↦ rw (sent_err now id (due ++ fresh) s e f) (omega arith)
  | inr (bytes, f) ↦ rw (sent_ok now id (due ++ fresh) s bytes f) (
      omega (
        arith,
        length-send_ids_due now due fresh (launched now id s) (
            All-imp (λ k. contains_key k s.inflight ≡ true)
              (λ k. contains_key k (put id now s.inflight) ≡ true)
              (λ k. contains_key-put k id now s.inflight) due h.1),
        length-insert_held id now s.inflight h.0,
      ))
]

-- A call of next_chunks never has more than `window` chunks in flight, unless as many were
-- before, whether or not the reads succeed.
pub length-next_chunks :
    (now window resend_after : ℕ) (s : ChunkedSender)
    → length (next_chunks now window resend_after s).1.inflight ≤ max window (length s.inflight)
unfolding next_chunks
length-next_chunks now window resend_after s =
    let due = sort_unstable (overdue now resend_after s.inflight) in
    let fresh =
      take_unsent (s.manifest.total_chunks - s.next_unsent) (window - length s.inflight) s.acked
        s.next_unsent in
    omega (
      arith,
      length-send_ids_due now due fresh.0 (record s { next_unsent = fresh.1 })
          (sort_unstable-All (λ id. contains_key id s.inflight ≡ true)
            (overdue now resend_after s.inflight) (overdue-held now resend_after s.inflight)),
      length-take_unsent (s.manifest.total_chunks - s.next_unsent) (window - length s.inflight)
          s.next_unsent s.acked,
    )
