-- ===== src/Transfer/Tracking.antt =====
-- core/src/transfer/chunked.rs: every chunk that a sender has taken up is acknowledged or in
-- flight.
use srltcpv.Base.{
  ℕ, zero, suc, ◌+◌, ◌-◌, ◌<◌, ◌≤◌, ◌≡◌, ◌⊎◌, sym, refl, inl, inr, true, false, not, ◌&&◌, List, [],
  ◌∷◌, ◌++◌, Bytes, length, ◌==◌, ltb, ==_iff, ==_refl, Bool-cases, ok, ◌>>=◌, Result-cases, arith,
  All, subst,
}
use srltcpv.Base.Assoc.{remove, contains_key, contains_key-insert, contains_key-remove}
use srltcpv.Base.NumSet.{
  contains, insert, IsSetList, contains-insert, insert-IsSetList, insert-All,
  length-le_of_IsSetList, length-ge_of_all,
}
use srltcpv.Transfer.{
  ChunkedSender, read_chunk, overdue, sort_unstable, take_unsent, send_ids, next_chunks, ack_chunk,
  on_ack, is_sent,
}
use srltcpv.Transfer.Sender.{launched, sent_err, sent_ok, contains_key-put}

pub record IsSending (s : ChunkedSender) : Type 0 where
  pub next_le : s.next_unsent ≤ s.manifest.total_chunks
  pub set : IsSetList s.acked
  pub below : All (λ id. id < s.manifest.total_chunks) s.acked
  pub tracked :
      (k : ℕ) → k < s.next_unsent → (contains k s.acked ≡ true) ⊎ (contains_key k s.inflight ≡ true)

take_unsent-next :
    (fuel room next : ℕ) (acked : List ℕ)
    → (next ≤ (take_unsent fuel room acked next).1)
      × ((take_unsent fuel room acked next).1 ≤ next + fuel)
unfolding take_unsent
take_unsent-next zero room next acked = (omega arith, omega arith)
take_unsent-next (suc fuel) room next acked = elim (Bool-cases (contains next acked)) [
  | inl e ↦ rw e (
      let h = take_unsent-next fuel room (next + 1) acked in
      (ground (arith, h.0), ground (arith, h.1)))
  | inr e ↦ rw e (
      let h = take_unsent-next fuel (room - 1) (next + 1) acked in
      (ground (arith, h.0), ground (arith, h.1)))
]

-- Each number passed over is acknowledged or among the new ones.
take_unsent-covers :
    (fuel room next k : ℕ) (acked : List ℕ)
    → next ≤ k
    → k < (take_unsent fuel room acked next).1
    → (contains k acked ≡ true) ⊎ (contains k (take_unsent fuel room acked next).0 ≡ true)
unfolding take_unsent contains
take_unsent-covers zero room next k acked le lt = absurd (omega arith)
take_unsent-covers (suc fuel) room next k acked le lt = elim (Bool-cases (room == 0)) [
  | inl z ↦ absurd (let lt' = rw z at lt in omega arith)
  | inr z ↦
      (let lt1 = rw z at lt in
        rw z (elim (Bool-cases (contains next acked)) [
          | inl e ↦
              (let lt2 = rw e at lt1 in
                rw e (elim (Bool-cases (next == k)) [
                  | inl q ↦ inl (let same : next ≡ k = (==_iff next k).0 q in rw (← same) e)
                  | inr q ↦ take_unsent-covers fuel room (next + 1) k acked (ground arith) lt2
                ]))
          | inr e ↦
              (let lt2 = rw e at lt1 in
                rw e (elim (Bool-cases (next == k)) [
                  | inl q ↦ inr (ground arith)
                  | inr q ↦
                      elim (take_unsent-covers fuel (room - 1) (next + 1) k acked (ground arith)
                        lt2) [ inl a ↦ inl a | inr a ↦ inr (ground arith) ]
                ]))
        ]))
]

contains-append_right :
    (k : ℕ) (xs ys : List ℕ) → contains k ys ≡ true → contains k (xs ++ ys) ≡ true
unfolding contains
contains-append_right k [] ys h = h
contains-append_right k (x ∷ xs) ys h = ground (arith, contains-append_right k xs ys)

-- Only the chunks in flight change.
send_ids-same :
    (now : ℕ) (ids : List ℕ) (s : ChunkedSender)
    → (send_ids now ids s).1 ≡ record s { inflight = (send_ids now ids s).1.inflight }
send_ids-same now [] s = unfold send_ids in refl
send_ids-same now (id ∷ ids) s = elim (Result-cases (read_chunk s id)) [
  | inl (e, f) ↦ rw (sent_err now id ids s e f) refl
  | inr (bytes, f) ↦ rw (sent_ok now id ids s bytes f) (send_ids-same now ids (launched now id s))
]

pub sent_ok_result :
    (now id : ℕ) (ids : List ℕ) (s : ChunkedSender) (bytes : Bytes)
    → read_chunk s id ≡ ok bytes
    → (send_ids now (id ∷ ids) s).0
      ≡ ((send_ids now ids (launched now id s)).0 >>= λ out. ok ((id, bytes) ∷ out))
unfolding send_ids
sent_ok_result now id ids s bytes h = rw (h, send_ids) refl

compare_with : (a b : ℕ) → (a < b) ⊎ (b ≤ a)
compare_with a b = ground arith

moved :
    (now k id : ℕ) (ids : List ℕ) (s : ChunkedSender)
    → (contains k (id ∷ ids) ≡ true) ⊎ (contains_key k s.inflight ≡ true)
    → (contains k ids ≡ true) ⊎ (contains_key k (launched now id s).inflight ≡ true)
unfolding contains
moved now k id ids s (inr c) = inr (contains_key-put k id now s.inflight c)
moved now k id ids s (inl c) = elim (Bool-cases (id == k)) [
  | inl e ↦ inr (rw (contains_key-insert id k now s.inflight, e) refl)
  | inr e ↦ inl (ground arith)
]

send_ids-tracks :
    (now k : ℕ) (ids : List ℕ) (s : ChunkedSender) {out : List (ℕ × Bytes)}
    → (send_ids now ids s).0 ≡ ok out
    → (contains k ids ≡ true) ⊎ (contains_key k s.inflight ≡ true)
    → contains_key k (send_ids now ids s).1.inflight ≡ true
send_ids-tracks now k [] s h (inl c) = unfold contains in absurd (ground arith)
send_ids-tracks now k [] s h (inr c) = unfold send_ids in c
send_ids-tracks now k (id ∷ ids) s h c = elim (Result-cases (read_chunk s id)) [
  | inl (e, f) ↦ (let h' = rw (sent_err now id ids s e f) at h in absurd (ground arith))
  | inr (bytes, f) ↦
      (let h' = rw (sent_ok_result now id ids s bytes f) at h in
        rw (sent_ok now id ids s bytes f)
          (elim (Result-cases (send_ids now ids (launched now id s)).0) [
            | inl (e, g) ↦ (let h'' = rw g at h' in absurd (ground arith))
            | inr (rest, g) ↦
                send_ids-tracks now k ids (launched now id s) g (moved now k id ids s c)
          ]))
]

keep_held :
    (id k : ℕ) (m : List (ℕ × ℕ))
    → (id == k) ≡ false
    → contains_key k m ≡ true
    → contains_key k (remove id m) ≡ true
keep_held id k m e h = rw (contains_key-remove id k m, e) h

newly_acked :
    (now id : ℕ) (s : ChunkedSender)
    → IsSending s
    → id < s.manifest.total_chunks
    → IsSending (record s {
      acked = insert id s.acked;
      last_progress = now;
      inflight = remove id s.inflight;
    })
newly_acked now id s i lt = record {
  next_le = i.next_le;
  set = insert-IsSetList id s.acked i.set;
  below = insert-All (λ k. k < s.manifest.total_chunks) id s.acked lt i.below;
  tracked = λ k h. elim (Bool-cases (id == k)) [
    | inl e ↦ inl (rw (contains-insert id k s.acked, e) refl)
    | inr e ↦ elim (i.tracked k h) [
      | inl a ↦ inl (rw (contains-insert id k s.acked, e) a)
      | inr c ↦ inr (keep_held id k s.inflight e c)
    ]
  ];
}

settled :
    (id : ℕ) (s : ChunkedSender)
    → IsSending s
    → (id < s.manifest.total_chunks → contains id s.acked ≡ true)
    → IsSending (record s { inflight = remove id s.inflight })
settled id s i old = record {
  next_le = i.next_le;
  set = i.set;
  below = i.below;
  tracked = λ k h. elim (Bool-cases (id == k)) [
    | inl e ↦
        inl (let same : id ≡ k = (==_iff id k).0 e in rw (← same) (old (omega (arith, i.next_le))))
    | inr e ↦ elim (i.tracked k h) [ inl a ↦ inl a | inr c ↦ inr (keep_held id k s.inflight e c) ]
  ];
}

ack_chunk-IsSending :
    (now id : ℕ) (s : ChunkedSender) → IsSending s → IsSending (ack_chunk now id s)
unfolding ack_chunk
ack_chunk-IsSending now id s i =
    elim (Bool-cases (ltb id s.manifest.total_chunks && not (contains id s.acked))) [
      | inl e ↦ rw e (newly_acked now id s i (ground arith))
      | inr e ↦ rw e (settled id s i (λ lt. ground arith))
    ]

-- Every acknowledgement, whatever it lists, keeps every chunk that the sender has taken up
-- acknowledged or in flight.
pub on_ack-IsSending :
    (now : ℕ) (ids : List ℕ) (s : ChunkedSender) → IsSending s → IsSending (on_ack now ids s)
unfolding on_ack
on_ack-IsSending now [] s i = i
on_ack-IsSending now (id ∷ ids) s i =
    on_ack-IsSending now ids (ack_chunk now id s) (ack_chunk-IsSending now id s i)

-- When its reads succeed, next_chunks keeps every chunk that the sender has taken up
-- acknowledged or in flight.
pub next_chunks-IsSending :
    (now window resend_after : ℕ) (s : ChunkedSender) {out : List (ℕ × Bytes)}
    → IsSending s
    → (next_chunks now window resend_after s).0 ≡ ok out
    → IsSending (next_chunks now window resend_after s).1
unfolding next_chunks
next_chunks-IsSending now window resend_after s i h =
    subst IsSending (sym (send_ids-same now (due ++ fresh.0) s')) (record {
      next_le = omega (arith, bounds.0, bounds.1, i.next_le);
      set = i.set;
      below = i.below;
      tracked = λ k lt. elim (compare_with k s.next_unsent) [
        | inl old ↦ elim (i.tracked k old) [
          | inl a ↦ inl a
          | inr c ↦ inr (send_ids-tracks now k (due ++ fresh.0) s' h (inr c))
        ]
        | inr new ↦ elim (take_unsent-covers fuel room s.next_unsent k s.acked new lt) [
          | inl a ↦ inl a
          | inr c ↦ inr (
              send_ids-tracks now k (due ++ fresh.0) s' h
                (inl (contains-append_right k due fresh.0 c)))
        ]
      ];
    })
  where
    fuel : ℕ
    fuel = s.manifest.total_chunks - s.next_unsent

    room : ℕ
    room = window - length s.inflight

    due : List ℕ
    due = sort_unstable (overdue now resend_after s.inflight)

    fresh : List ℕ × ℕ
    fresh = take_unsent fuel room s.acked s.next_unsent

    s' : ChunkedSender
    s' = record s { next_unsent = fresh.1 }

    bounds : (s.next_unsent ≤ fresh.1) × (fresh.1 ≤ s.next_unsent + fuel)
    bounds = take_unsent-next fuel room s.next_unsent s.acked

-- A sender with nothing in flight and nothing left to take up has every chunk acknowledged.
pub is_sent-of_idle :
    (s : ChunkedSender)
    → IsSending s
    → s.inflight ≡ []
    → s.next_unsent ≡ s.manifest.total_chunks
    → is_sent s ≡ true
is_sent-of_idle s i idle all_out = rw count (==_refl s.manifest.total_chunks)
  where
    acked_all : (k : ℕ) → k < s.manifest.total_chunks → contains k s.acked ≡ true
    acked_all k lt = elim (i.tracked k (omega arith)) [
      | inl a ↦ a
      | inr c ↦ (let c' = rw idle at c in unfold contains_key in absurd (ground arith))
    ]

    count : length s.acked ≡ s.manifest.total_chunks
    count = omega (
      arith,
      length-le_of_IsSetList s.manifest.total_chunks s.acked i.set i.below,
      length-ge_of_all s.manifest.total_chunks s.acked acked_all,
    )
