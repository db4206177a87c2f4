-- ===== src/Transfer/Receiver.antt =====
-- core/src/transfer/chunked.rs: what a receiver has stored, and what it finishes with.
use srltcpv.Base.{
  ℕ, zero, suc, ◌+◌, ◌-◌, ◌*◌, ◌/◌, ◌%◌, ◌≤◌, ◌<◌, min, ◌≡◌, ◌∙◌, subst, refl, sym, inl, inr, Bool,
  true, false, not, Option, [], Bytes, length, take, drop, All, arith, ==_iff, ◌==◌, leb,
  Bool-cases, Option-cases, ◌||◌, ok, Result-cases, eq_of_get_elem?, length-take, length-drop,
}
use srltcpv.Base.NumSet.{
  contains, insert, IsSetList, contains-insert, insert-IsSetList, insert-All, contains_of_full,
}
use srltcpv.Transfer.{
  TransferManifest, ChunkedReceiver, validate, create, chunk_len, chunk_start, receive_chunk,
  is_complete, write_at, zeros, div_ceil, max_chunk_size, max_transfer_bytes, all_hexdigits,
}
use srltcpv.Transfer.Chunks.{
  Agrees, Agrees-write_at_other, Agrees-write_at_same, chunk_of, div_ceil-lt, div_ceil-covers,
  length-write_at,
}
use native.Mathlib.Nat as Nat

-- The limits that a valid offer keeps.
pub record IsOffer (m : TransferManifest) : Type 0 where
  pub chunk_size_pos : 0 < m.chunk_size
  pub chunk_size_le : m.chunk_size ≤ max_chunk_size
  pub total_size_le : m.total_size ≤ max_transfer_bytes
  pub chunks_eq : div_ceil m.total_size m.chunk_size ≡ m.total_chunks
  pub sha_length : length m.sha256 ≡ 64
  pub sha_hex : all_hexdigits m.sha256 ≡ true

pub validate-IsOffer : (m : TransferManifest) → validate m ≡ ok tt → IsOffer m
unfolding validate
validate-IsOffer m h = record {
  chunk_size_pos = ground arith;
  chunk_size_le = ground arith;
  total_size_le = ground arith;
  chunks_eq = ground arith;
  sha_length = ground arith;
  sha_hex = ground arith;
}

-- In a valid offer nothing wraps around.
pub chunk_start-eq :
    (m : TransferManifest)
    → IsOffer m
    → (id : ℕ) → id < m.total_chunks
    → (chunk_start m id ≡ id * m.chunk_size) × (id * m.chunk_size < m.total_size)
chunk_start-eq m h id lt =
    let start_lt : id * m.chunk_size < m.total_size =
      div_ceil-lt m.total_size m.chunk_size id h.chunk_size_pos (rw h.chunks_eq lt) in
    (omega (arith, h.total_size_le), start_lt)

pub chunk_len-eq :
    (m : TransferManifest)
    → IsOffer m
    → (id : ℕ) → id < m.total_chunks
    → chunk_len m id ≡ min (m.total_size - id * m.chunk_size) m.chunk_size
unfolding chunk_len
chunk_len-eq m h id lt = omega (arith, chunk_start-eq m h id lt, h.total_size_le)

-- A chunk that the receiver would store is the one cut from the file.
abbrev pub Genuine : TransferManifest → Bytes → ℕ → Bytes → Type 0
Genuine m whole id bytes =
    id < m.total_chunks → length bytes ≡ chunk_len m id → bytes ≡ chunk_of m whole id

-- Any sequence of chunks that arrive after an offer, with repetitions, in any order, and with
-- writes that fail part of the way.
pub data Receiving (whole : Bytes) (m : TransferManifest) : ChunkedReceiver → Type 0 where
  created : {r : ChunkedReceiver} → create true m ≡ ok r → Receiving whole m r
  stores :
      (fault : Option ℕ) (id : ℕ) (bytes : Bytes) {r : ChunkedReceiver}
      → Receiving whole m r
      → Genuine m whole id bytes
      → Receiving whole m (receive_chunk fault id bytes r).1

pub record IsReceiving (whole : Bytes) (m : TransferManifest) (r : ChunkedReceiver) : Type 0 where
  pub manifest : r.manifest ≡ m
  pub size : length r.file ≡ m.total_size
  pub set : IsSetList r.received
  pub below : All (λ id. id < m.total_chunks) r.received
  pub stored :
      (id : ℕ)
      → contains id r.received ≡ true
      → Agrees m.chunk_size (min (m.total_size - id * m.chunk_size) m.chunk_size) whole r.file id

length-zeros : (n : ℕ) → length (zeros n) ≡ n
length-zeros zero = omega arith
length-zeros (suc n) = omega (arith, length-zeros n)

fresh : TransferManifest → ChunkedReceiver
fresh m = record { manifest = m; file = zeros m.total_size; received = [] }

create-ok :
    (opened : Bool) (m : TransferManifest) (r : ChunkedReceiver)
    → create opened m ≡ ok r
    → (validate m ≡ ok tt) × (fresh m ≡ r)
unfolding create fresh
create-ok opened m r h = elim (Result-cases (validate m)) [
  | inr (tt, e) ↦ (e, (let h' = rw e at h in ground arith))
  | inl (x, e) ↦ (let h' = rw e at h in absurd (ground arith))
]

fresh-IsReceiving : (whole : Bytes) (m : TransferManifest) → IsReceiving whole m (fresh m)
unfolding fresh contains
fresh-IsReceiving whole m = record {
  manifest = refl;
  size = length-zeros m.total_size;
  set = tt;
  below = tt;
  stored = λ id h. absurd (ground arith);
}

pub create-IsReceiving :
    (opened : Bool) (whole : Bytes) (m : TransferManifest) (r : ChunkedReceiver)
    → create opened m ≡ ok r
    → IsOffer m × IsReceiving whole m r
create-IsReceiving opened whole m r h =
    let (valid, e) = create-ok opened m r h in
    (validate-IsOffer m valid, subst (IsReceiving whole m) e (fresh-IsReceiving whole m))

module _ (whole : Bytes) (m : TransferManifest) (offer : IsOffer m) where
  -- A write of the beginning of a chunk not stored before keeps what is stored.
  keeps_stored :
      (id : ℕ) (bs : Bytes) (r : ChunkedReceiver)
      → IsReceiving whole m r
      → id < m.total_chunks
      → contains id r.received ≡ false
      → length bs ≤ m.chunk_size
      → id * m.chunk_size + length bs ≤ m.total_size
      → (k : ℕ) → contains k r.received ≡ true
      → Agrees m.chunk_size
          (min (m.total_size - k * m.chunk_size) m.chunk_size)
          whole
          (write_at (id * m.chunk_size) bs r.file)
          k
  keeps_stored id bs r i lt new short fits k has =
      Agrees-write_at_other m.chunk_size (min (m.total_size - k * m.chunk_size) m.chunk_size) k id
        bs r.file whole (λ e. cc) (omega arith) short (omega (arith, i.size)) (i.stored k has)

  -- Storing the whole of a chunk that was not stored before.
  stored-IsReceiving :
      (id : ℕ) (r : ChunkedReceiver)
      → length whole ≡ m.total_size
      → IsReceiving whole m r
      → id < m.total_chunks
      → contains id r.received ≡ false
      → IsReceiving whole m (record r {
        file = write_at (id * m.chunk_size) (chunk_of m whole id) r.file;
        received = insert id r.received;
      })
  stored-IsReceiving id r total i lt new = record {
    manifest = i.manifest;
    size = length-write_at (id * m.chunk_size) (chunk_of m whole id) r.file fits ∙ i.size;
    set = insert-IsSetList id r.received i.set;
    below = insert-All (λ id. id < m.total_chunks) id r.received lt i.below;
    stored = λ k has. elim (Bool-cases (id == k)) [
      | inl e ↦
          (let same : id ≡ k = (==_iff id k).0 e in
            rw (← same) (
              Agrees-write_at_same m.chunk_size
                (min (m.total_size - id * m.chunk_size) m.chunk_size) id r.file whole
                (omega (arith, start_lt))))
      | inr e ↦
          (let old : contains k r.received ≡ true =
              rw (contains-insert id k r.received, e) at has in
            keeps_stored id (chunk_of m whole id) r i lt new (omega (arith, len))
              (omega (arith, start_lt, len)) k old)
    ];
  }
    where
      start_lt : id * m.chunk_size < m.total_size
      start_lt = (chunk_start-eq m offer id lt).1

      len : length (chunk_of m whole id) ≡ min (m.total_size - id * m.chunk_size) m.chunk_size
      len = omega (
        arith,
        length-take (min (m.total_size - id * m.chunk_size) m.chunk_size)
            (drop (id * m.chunk_size) whole),
        length-drop (id * m.chunk_size) whole,
      )

      fits : id * m.chunk_size + length (chunk_of m whole id) ≤ length r.file
      fits = omega (arith, start_lt, len, i.size)

  -- A write of the beginning of a chunk that fails.
  torn-IsReceiving :
      (id n : ℕ) (r : ChunkedReceiver)
      → length whole ≡ m.total_size
      → IsReceiving whole m r
      → id < m.total_chunks
      → contains id r.received ≡ false
      → IsReceiving whole m
          (record r { file = write_at (id * m.chunk_size) (take n (chunk_of m whole id)) r.file })
  torn-IsReceiving id n r total i lt new = record {
    manifest = i.manifest;
    size =
        length-write_at (id * m.chunk_size) (take n (chunk_of m whole id)) r.file
          (omega (arith, start_lt, len, i.size))
        ∙ i.size;
    set = i.set;
    below = i.below;
    stored = λ k old.
        keeps_stored id (take n (chunk_of m whole id)) r i lt new (omega (arith, len))
          (omega (arith, start_lt, len)) k old;
  }
    where
      start_lt : id * m.chunk_size < m.total_size
      start_lt = (chunk_start-eq m offer id lt).1

      len :
          length (take n (chunk_of m whole id))
          ≤ min (m.total_size - id * m.chunk_size) m.chunk_size
      len = omega (
        arith,
        length-take n (chunk_of m whole id),
        length-take (min (m.total_size - id * m.chunk_size) m.chunk_size)
            (drop (id * m.chunk_size) whole),
      )

  retag :
      {r : ChunkedReceiver}
      → IsReceiving whole m r
      → IsReceiving whole m (record r { manifest = m })
  retag i = record {
    manifest = refl;
    size = i.size;
    set = i.set;
    below = i.below;
    stored = i.stored;
  }

  pub receive_chunk-IsReceiving :
      (fault : Option ℕ) (id : ℕ) (bytes : Bytes) (r : ChunkedReceiver)
      → length whole ≡ m.total_size
      → IsReceiving whole m r
      → Genuine m whole id bytes
      → IsReceiving whole m (receive_chunk fault id bytes r).1
  unfolding receive_chunk
  receive_chunk-IsReceiving fault id bytes r total i g =
      rw i.manifest
        (elim (Bool-cases (leb m.total_chunks id || not (length bytes == chunk_len m id))) [
          | inl e ↦ rw e (retag i)
          | inr e ↦
              (let lt : id < m.total_chunks = ground arith in
                let same : length bytes ≡ chunk_len m id = ground arith in
                let cut : bytes ≡ chunk_of m whole id = g lt same in
                rw e (elim (Bool-cases (contains id r.received)) [
                  | inl c ↦ rw c (retag i)
                  | inr c ↦
                      (let start = (chunk_start-eq m offer id lt).0 in
                        elim (Option-cases fault) [
                          | inl f ↦
                              rw (c, f)
                                (rw (i.manifest, start, cut)
                                  (retag (stored-IsReceiving id r total i lt c)))
                          | inr (n, f) ↦
                              rw (c, f)
                                (rw (i.manifest, start, cut)
                                  (retag (torn-IsReceiving id n r total i lt c)))
                        ])
                ]))
        ])

  -- Once every chunk is stored, the file is the sender's.
  pub complete-file :
      (r : ChunkedReceiver)
      → length whole ≡ m.total_size
      → IsReceiving whole m r
      → is_complete r ≡ true
      → r.file ≡ whole
  complete-file r total i done = eq_of_get_elem? r.file whole (i.size ∙ sym total) (λ j lt.
      let id = j / m.chunk_size in
      let split : j ≡ id * m.chunk_size + j % m.chunk_size =
        omega (arith, Nat.mod-add-div' j m.chunk_size) in
      let inside : j % m.chunk_size < m.chunk_size = Nat.mod-lt j offer.chunk_size_pos in
      let small : id < m.total_chunks =
        (Nat.div-lt_iff_lt-mul offer.chunk_size_pos).1
          (omega (arith, i.size, offer.chunks_eq, covers)) in
      i.stored id (contains_of_full m.total_chunks r.received i.set i.below count id small)
        (j % m.chunk_size) j (omega (arith, i.size)) split)
    where
      count : length r.received ≡ m.total_chunks
      count = (==_iff (length r.received) m.total_chunks).0 (rw i.manifest at done)

      covers : m.total_size ≤ m.total_chunks * m.chunk_size
      covers =
          rw (← offer.chunks_eq) (div_ceil-covers m.total_size m.chunk_size offer.chunk_size_pos)
