-- ===== src/Transfer/Progress.antt =====
-- core/src/transfer/chunked.rs: a sender that has nothing to send is done.
use srltcpv.Base.{
  ℕ, zero, suc, ◌+◌, ◌-◌, ◌<◌, ◌≤◌, ◌≡◌, sym, ap, refl, inl, inr, true, List, [], ◌∷◌, ◌++◌, Bytes,
  length, Bool-cases, ok, Result-cases, arith, All, subst,
}
use srltcpv.Base.NumSet.{contains}
use srltcpv.Transfer.{
  TransferManifest, Source, ChunkedSender, read_chunk, overdue, insert_sorted, sort_unstable,
  take_unsent, send_ids, next_chunks, on_ack, is_sent, with_source,
}
use srltcpv.Transfer.Sender.{launched, sent_err}
use srltcpv.Transfer.Tracking.{
  IsSending, next_chunks-IsSending, on_ack-IsSending, is_sent-of_idle, sent_ok_result,
}

-- What can happen to a sender: calls of next_chunks whose reads succeed, and acknowledgements.
pub data Sending (m : TransferManifest) (source : Source) : ChunkedSender → Type 0 where
  opened : (now : ℕ) → Sending m source (with_source now m source)
  sends_chunks :
      (now window resend_after : ℕ) {s : ChunkedSender} {out : List (ℕ × Bytes)}
      → Sending m source s
      → (next_chunks now window resend_after s).0 ≡ ok out
      → Sending m source (next_chunks now window resend_after s).1
  acknowledged :
      (now : ℕ) (ids : List ℕ) {s : ChunkedSender}
      → Sending m source s
      → Sending m source (on_ack now ids s)

-- At any time of a transfer every chunk that the sender has taken up is acknowledged or in
-- flight, and only chunks of the file count as acknowledged.
pub Sending-IsSending :
    {m : TransferManifest} {source : Source} {s : ChunkedSender} → Sending m source s → IsSending s
Sending-IsSending (opened now) = record {
  next_le = omega arith;
  set = tt;
  below = tt;
  tracked = λ k lt. absurd (omega arith);
}
Sending-IsSending (sends_chunks now window resend_after {s = s} h e) =
    next_chunks-IsSending now window resend_after s (Sending-IsSending h) e
Sending-IsSending (acknowledged now ids {s = s} h) =
    on_ack-IsSending now ids s (Sending-IsSending h)

send_ids-empty :
    (now : ℕ) (ids : List ℕ) (s : ChunkedSender) → (send_ids now ids s).0 ≡ ok [] → ids ≡ []
send_ids-empty now [] s h = refl
send_ids-empty now (id ∷ ids) s h = elim (Result-cases (read_chunk s id)) [
  | inl (e, f) ↦ (let h' = rw (sent_err now id ids s e f) at h in absurd (ground arith))
  | inr (bytes, f) ↦
      (let h' = rw (sent_ok_result now id ids s bytes f) at h in
        elim (Result-cases (send_ids now ids (launched now id s)).0) [
          | inl (e, g) ↦ (let h'' = rw g at h' in absurd (ground arith))
          | inr (rest, g) ↦ (let h'' = rw g at h' in absurd (ground arith))
        ])
]

insert_sorted_nonempty : (x : ℕ) (ys : List ℕ) → 0 < length (insert_sorted x ys)
unfolding insert_sorted
insert_sorted_nonempty x [] = omega arith
insert_sorted_nonempty x (y ∷ ys) = ground arith

sort_unstable-empty : (xs : List ℕ) → sort_unstable xs ≡ [] → xs ≡ []
unfolding sort_unstable
sort_unstable-empty [] h = refl
sort_unstable-empty (x ∷ xs) h =
    absurd (omega (arith, ap length h, insert_sorted_nonempty x (sort_unstable xs)))

append-empty : (xs ys : List ℕ) → xs ++ ys ≡ [] → (xs ≡ []) × (ys ≡ [])
append-empty [] ys h = (refl, h)
append-empty (x ∷ xs) ys h = absurd (ground arith)

overdue-empty :
    (now resend_after : ℕ) (m : List (ℕ × ℕ))
    → All (λ e. resend_after ≤ now - e.1) m
    → overdue now resend_after m ≡ []
    → m ≡ []
unfolding overdue
overdue-empty now resend_after [] due h = refl
overdue-empty now resend_after ((id, sent) ∷ m) due h = absurd (ground arith)

take_unsent-all :
    (fuel room next : ℕ) (acked : List ℕ)
    → 0 < room
    → (take_unsent fuel room acked next).0 ≡ []
    → (take_unsent fuel room acked next).1 ≡ next + fuel
unfolding take_unsent
take_unsent-all zero room next acked pos h = omega arith
take_unsent-all (suc fuel) room next acked pos h = elim (Bool-cases (contains next acked)) [
  | inl e ↦
      rw e (let h' = rw e at h in ground (arith, take_unsent-all fuel room (next + 1) acked pos))
  | inr e ↦ (let h' = rw e at h in absurd (ground arith))
]

-- When every chunk in flight is due and the window is not empty, a call of next_chunks that has
-- nothing to send shows that every chunk is acknowledged: a transfer never stalls with chunks
-- left.
pub next_chunks-progress :
    (now window resend_after : ℕ) {m : TransferManifest} {source : Source} {s : ChunkedSender}
    → Sending m source s
    → 0 < window
    → All (λ e. resend_after ≤ now - e.1) s.inflight
    → (next_chunks now window resend_after s).0 ≡ ok []
    → is_sent (next_chunks now window resend_after s).1 ≡ true
unfolding next_chunks
next_chunks-progress now window resend_after {s = s} sending pos due h =
    subst (λ x. is_sent x ≡ true) (sym same)
      (is_sent-of_idle s'
        (subst IsSending same (next_chunks-IsSending now window resend_after s tracked h)) idle
        (omega (arith, all_out, tracked.next_le)))
  where
    tracked : IsSending s
    tracked = Sending-IsSending sending

    fuel : ℕ
    fuel = s.manifest.total_chunks - s.next_unsent

    resends : List ℕ
    resends = sort_unstable (overdue now resend_after s.inflight)

    fresh : List ℕ × ℕ
    fresh = take_unsent fuel (window - length s.inflight) s.acked s.next_unsent

    s' : ChunkedSender
    s' = record s { next_unsent = fresh.1 }

    empty : resends ++ fresh.0 ≡ []
    empty = send_ids-empty now (resends ++ fresh.0) s' h

    idle : s.inflight ≡ []
    idle = overdue-empty now resend_after s.inflight due (
        sort_unstable-empty (overdue now resend_after s.inflight)
          (append-empty resends fresh.0 empty).0)

    all_out : fresh.1 ≡ s.next_unsent + fuel
    all_out =
        take_unsent-all fuel (window - length s.inflight) s.next_unsent s.acked
          (omega (arith, ap length idle)) (append-empty resends fresh.0 empty).1

    none_sent : (ids : List ℕ) → ids ≡ [] → (send_ids now ids s').1 ≡ s'
    none_sent [] e = unfold send_ids in refl
    none_sent (id ∷ ids) e = absurd (ground arith)

    same : (next_chunks now window resend_after s).1 ≡ s'
    same = none_sent (resends ++ fresh.0) empty
