-- ===== src/Transfer/Delivery.antt =====
-- core/src/transfer/chunked.rs: the file that a receiver ends with is the file that was sent.
use srltcpv.Base.{
  ℕ, ◌-◌, ◌*◌, ◌<◌, min, ◌≡◌, ◌⊎◌, ◌∙◌, sym, ap, refl, inl, inr, true, Option, none, some, List, [],
  ◌∷◌, Bytes, map, length, drop, ◌==◌, ==_iff, ==_refl, if◌then◌else◌, Bool-cases, ok, err, arith,
  length-take, length-drop,
}
use srltcpv.Base.NumSet.{contains, contains-insert, length-le_of_IsSetList, length-ge_of_all}
use srltcpv.Transfer.{
  TransferManifest, ChunkedReceiver, chunk_len, receive_chunk, is_complete, finalize, same_bytes,
  to_lowercase, incomplete,
}
use srltcpv.Transfer.Chunks.{chunk_of}
use srltcpv.Transfer.Receiver.{
  IsOffer, IsReceiving, Receiving, created, stores, create-IsReceiving, receive_chunk-IsReceiving,
  complete-file, chunk_len-eq,
}

pub same_bytes_refl : (xs : Bytes) → same_bytes xs xs ≡ true
unfolding same_bytes
same_bytes_refl [] = refl
same_bytes_refl (x ∷ xs) = rw (==_refl x) (same_bytes_refl xs)

module _ (whole : Bytes) (m : TransferManifest) (total : length whole ≡ m.total_size) where
  pub Receiving-IsReceiving :
      {r : ChunkedReceiver} → Receiving whole m r → IsOffer m × IsReceiving whole m r
  Receiving-IsReceiving (created {r = r} h) = create-IsReceiving true whole m r h
  Receiving-IsReceiving (stores fault id bytes {r = r} s g) =
      let (offer, i) = Receiving-IsReceiving s in
      (offer, receive_chunk-IsReceiving whole m offer fault id bytes r total i g)

  -- However the chunks of a file of the size that the offer names come in (out of order,
  -- repeated, with failed writes), finalize ends with the file itself when every chunk is
  -- stored, and with the error `incomplete` before, if the digest in the offer is that of the
  -- file and the operating system reports no error.
  pub finalize-Receiving :
      (sha256_hex : Bytes → Bytes) {r : ChunkedReceiver}
      → map to_lowercase m.sha256 ≡ sha256_hex whole
      → Receiving whole m r
      → finalize sha256_hex true true r ≡ (if is_complete r then ok whole else err incomplete)
  unfolding finalize
  finalize-Receiving sha256_hex {r = r} digest s =
      let (offer, i) = Receiving-IsReceiving s in
      elim (Bool-cases (is_complete r)) [
        | inr e ↦ rw e
        | inl e ↦
            (let file : r.file ≡ whole = complete-file whole m offer r total i e in
              rw e (rw (file, i.manifest, digest, same_bytes_refl (sha256_hex whole))))
      ]

-- A chunk stored stays stored, and one that arrives whole is stored.
receive_chunk-keeps :
    (fault : Option ℕ) (id k : ℕ) (bytes : Bytes) (r : ChunkedReceiver)
    → contains k r.received ≡ true
    → contains k (receive_chunk fault id bytes r).1.received ≡ true
unfolding receive_chunk
receive_chunk-keeps none id k bytes r h = ground (arith, contains-insert id k r.received)
receive_chunk-keeps (some n) id k bytes r h = ground arith

receive_chunk-stores :
    (id : ℕ) (bytes : Bytes) (r : ChunkedReceiver)
    → id < r.manifest.total_chunks
    → length bytes ≡ chunk_len r.manifest id
    → contains id (receive_chunk none id bytes r).1.received ≡ true
unfolding receive_chunk
receive_chunk-stores id bytes r lt e = ground (arith, contains-insert id id r.received, ==_refl id)

module _ (whole : Bytes) (m : TransferManifest) where
  -- The chunks of a list of identifiers arrive one after the other, and no write fails.
  unfoldable pub deliver : List ℕ → ChunkedReceiver → ChunkedReceiver
  deliver [] r = r
  deliver (id ∷ ids) r = deliver ids (receive_chunk none id (chunk_of m whole id) r).1

module _ (whole : Bytes) (m : TransferManifest) (total : length whole ≡ m.total_size) where
  length-chunk_of :
      (id : ℕ) → IsOffer m → id < m.total_chunks → length (chunk_of m whole id) ≡ chunk_len m id
  length-chunk_of id offer lt = omega (
    arith,
    chunk_len-eq m offer id lt,
    length-take (min (m.total_size - id * m.chunk_size) m.chunk_size)
        (drop (id * m.chunk_size) whole),
    length-drop (id * m.chunk_size) whole,
  )

  deliver-Receiving :
      (ids : List ℕ) {r : ChunkedReceiver}
      → Receiving whole m r
      → Receiving whole m (deliver whole m ids r)
  unfolding deliver
  deliver-Receiving [] s = s
  deliver-Receiving (id ∷ ids) s =
      deliver-Receiving ids (stores none id (chunk_of m whole id) s (λ lt e. refl))

  deliver-contains :
      (ids : List ℕ) (k : ℕ) {r : ChunkedReceiver}
      → Receiving whole m r
      → k < m.total_chunks
      → (contains k ids ≡ true) ⊎ (contains k r.received ≡ true)
      → contains k (deliver whole m ids r).received ≡ true
  unfolding deliver contains
  deliver-contains [] k s lt (inl h) = absurd (ground arith)
  deliver-contains [] k s lt (inr h) = h
  deliver-contains (id ∷ ids) k {r = r} s lt h =
      let (offer, i) = Receiving-IsReceiving whole m total s in
      deliver-contains ids k (stores none id (chunk_of m whole id) s (λ lt e. refl)) lt (elim h [
        | inr old ↦ inr (receive_chunk-keeps none id k (chunk_of m whole id) r old)
        | inl new ↦ elim (Bool-cases (id == k)) [
          | inr e ↦ inl (ground arith)
          | inl e ↦
              (let same : k ≡ id = sym ((==_iff id k).0 e) in
                inr (
                  rw same (
                    receive_chunk-stores id (chunk_of m whole id) r (rw (i.manifest, ← same) lt)
                      (rw i.manifest (length-chunk_of id offer (rw (← same) lt))))))
        ]
      ])

  -- From any state of a transfer of a file of the size that the offer names, reached with
  -- chunks repeated, out of order and with failed writes, when every chunk of the file then
  -- arrives and no write fails, finalize ends with exactly the file, if the digest in the offer
  -- is that of the file and the operating system reports no error at the end.
  pub finalize-deliver :
      (sha256_hex : Bytes → Bytes) (ids : List ℕ) {r : ChunkedReceiver}
      → map to_lowercase m.sha256 ≡ sha256_hex whole
      → Receiving whole m r
      → ((k : ℕ) → k < m.total_chunks → contains k ids ≡ true)
      → finalize sha256_hex true true (deliver whole m ids r) ≡ ok whole
  finalize-deliver sha256_hex ids {r = r} digest s every =
      finalize-Receiving whole m total sha256_hex digest (deliver-Receiving ids s)
      ∙ ap (λ b. if b then ok whole else err incomplete) full
    where
      end : IsReceiving whole m (deliver whole m ids r)
      end = (Receiving-IsReceiving whole m total (deliver-Receiving ids s)).1

      count : length (deliver whole m ids r).received ≡ m.total_chunks
      count = omega (
        arith,
        length-le_of_IsSetList m.total_chunks (deliver whole m ids r).received end.set end.below,
        length-ge_of_all m.total_chunks (deliver whole m ids r).received
            (λ k lt. deliver-contains ids k s lt (inl (every k lt))),
      )

      full : is_complete (deliver whole m ids r) ≡ true
      full = rw (end.manifest, count) (==_refl m.total_chunks)
