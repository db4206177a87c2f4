-- ===== src/Serial/Reliability/Drain.antt =====
-- The loop that drains the reorder buffer. The sender numbers its frames 0, 1, 2, …; frame `i`
-- carries `stream i` under the sequence number `i % 2 ^ 16`. A layer that has delivered `r`
-- payloads waits for frame `r`.
use srltcpv.Base.{
  ℕ, zero, suc, ◌+◌, ◌≤◌, ◌<◌, ◌%◌, ◌^◌, ◌≡◌, ◌≢◌, refl, sym, ap, ◌∙◌, inl, inr, none, List, [],
  ◌∷◌, ◌++◌, append_assoc, append-nil, Bytes, length, arith, All, All-imp, Option-cases,
}
use srltcpv.Base.Assoc.{get, remove, All-remove_ne, get-All, length-remove-lt}
use srltcpv.Serial.Reliability.{next_seq, drain}

-- With the buffer's length as fuel the loop runs until the next payload is missing.
pub drain_complete :
    (fuel next : ℕ) (buffer : List (ℕ × Bytes)) (queue : List Bytes)
    → length buffer ≤ fuel
    → let out = drain fuel next buffer queue in get out.0 out.1 ≡ none
unfolding drain
drain_complete zero next [] queue h = unfold get in refl
drain_complete zero next (e ∷ m) queue h = absurd (omega arith)
drain_complete (suc fuel) next buffer queue h = elim (Option-cases (get next buffer)) [
  | inl e ↦ rw (e, drain) e
  | inr (buf, e) ↦
      rw (e, drain)
        (drain_complete fuel (next_seq next) (remove next buffer) (queue ++ buf ∷ [])
          (omega (arith, length-remove-lt next buf buffer e)))
]

module _ (stream : ℕ → Bytes) where
  -- `n` payloads from the `r`th on.
  abbrev pub segment : ℕ → ℕ → List Bytes
  segment r zero = []
  segment r (suc n) = stream r ∷ segment (suc r) n

  -- An entry for one of the frames `lo … hi - 1`.
  abbrev pub Holds : ℕ → ℕ → ℕ × Bytes → Type 0
  Holds lo hi e = (i : ℕ) × (lo ≤ i) × (i < hi) × (e.0 ≡ i % 2 ^ 16) × (e.1 ≡ stream i)

  -- The loop appends the payloads that come next, and keeps entries for later frames.
  pub record Drained (r hi : ℕ) (queue : List Bytes) (out : ℕ × List (ℕ × Bytes) × List Bytes)
      : Type 0 where
    pub count : ℕ
    pub end : ℕ
    pub end_eq : end ≡ r + count
    pub next : out.0 ≡ end % 2 ^ 16
    pub queued : out.2 ≡ queue ++ segment r count
    pub later : All (Holds end hi) out.1

  -- On the ring a number of the window is where its remainder says.
  Holds-at :
      (r hi next : ℕ) (e : ℕ × Bytes)
      → next ≡ r % 2 ^ 16
      → hi ≤ r + 2 ^ 15
      → Holds r hi e
      → e.0 ≡ next
      → e.1 ≡ stream r
  Holds-at r hi next e q w (i, lo, lt, key, value) k =
      value ∙ ap stream (let same : i ≡ r = omega arith in same)

  pub Holds-after :
      (r hi next : ℕ) (e : ℕ × Bytes)
      → next ≡ r % 2 ^ 16
      → Holds r hi e × (e.0 ≢ next)
      → Holds (suc r) hi e
  Holds-after r hi next e q ((i, lo, lt, key, value), k) = (i, below, lt, key, value)
    where
      apart : i ≢ r
      apart same = k (key ∙ ap (λ (n : ℕ). n % 2 ^ 16) same ∙ sym q)

      below : suc r ≤ i
      below = omega (arith, apart)

  pub drain-Drained :
      (fuel r hi next : ℕ) (buffer : List (ℕ × Bytes)) (queue : List Bytes)
      → next ≡ r % 2 ^ 16
      → hi ≤ r + 2 ^ 15
      → All (Holds r hi) buffer
      → Drained r hi queue (drain fuel next buffer queue)
  unfolding drain
  drain-Drained zero r hi next buffer queue e w h = record {
    count = 0;
    end = r;
    end_eq = omega arith;
    next = e;
    queued = sym (append-nil queue);
    later = h;
  }
  drain-Drained (suc fuel) r hi next buffer queue e w h = elim (Option-cases (get next buffer)) [
    | inl q ↦
        rw (q, drain)
          (record {
            count = 0;
            end = r;
            end_eq = omega arith;
            next = e;
            queued = sym (append-nil queue);
            later = h;
          })
    | inr (buf, q) ↦
        rw (q, drain)
          (one_more buf (get-All (Holds r hi) next buf buffer h q) (
            drain-Drained fuel (suc r) hi (next_seq next) (remove next buffer) (queue ++ buf ∷ [])
              (omega arith) (omega arith)
              (All-imp (λ e. Holds r hi e × (e.0 ≢ next)) (Holds (suc r) hi)
                (λ x. Holds-after r hi next x e) _ (All-remove_ne (Holds r hi) next buffer h))))
  ]
    where
      one_more :
          (buf : Bytes)
          → Holds r hi (next, buf)
          → {out : ℕ × List (ℕ × Bytes) × List Bytes} → Drained (suc r) hi (queue ++ buf ∷ []) out
          → Drained r hi queue out
      one_more buf held d = record {
        count = suc d.count;
        end = d.end;
        end_eq = omega (arith, d.end_eq);
        next = d.next;
        queued =
            d.queued
            ∙ append_assoc queue (buf ∷ []) (segment (suc r) d.count)
            ∙ ap (λ b. queue ++ b ∷ segment (suc r) d.count)
                (Holds-at r hi next (next, buf) e w held refl);
        later = d.later;
      }
