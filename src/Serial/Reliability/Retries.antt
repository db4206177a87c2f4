-- ===== src/Serial/Reliability/Retries.antt =====
-- What becomes of a frame that is never acknowledged.
use srltcpv.Base.{
  ℕ, ◌+◌, ◌-◌, ◌≤◌, ◌<◌, ◌≡◌, refl, inl, inr, false, List, [], ◌∷◌, arith, All, Bytes, Bool-cases,
  leb, ltb, if◌then◌else◌, length,
}
use srltcpv.Base.Assoc.{All-insert}
use srltcpv.Serial.Reliability.{
  ReliabilityLayer, InflightEntry, new, with_rto, with_window, max_retries, launch, prepare_send,
  poll_entry, poll_entries, retain_live, poll_retransmits, has_failed,
}
use srltcpv.Serial.Reliability.Window.{after_send}

-- What a layer does while nothing comes in.
pub data Silent : Type 0 where
  send : ℕ → Bytes → Silent
  poll : ℕ → Silent

pub unanswered : List Silent → ReliabilityLayer → ReliabilityLayer
unanswered [] l = l
unanswered (send now payload ∷ ops) l = unanswered ops (after_send l (prepare_send now payload l))
unanswered (poll now ∷ ops) l = unanswered ops (poll_retransmits now l).1

record IsHopeful (l : ReliabilityLayer) : Type 0 where
  up : l.failed ≡ false
  young : All (λ (e : ℕ × InflightEntry). e.1.retries < max_retries) l.inflight

poll_entries-young :
    (now rto : ℕ) (m : List (ℕ × InflightEntry))
    → All (λ (e : ℕ × InflightEntry). e.1.retries < max_retries) m
    → ((poll_entries now rto m).2 ≡ false)
      × All
          (λ (e : ℕ × InflightEntry). e.1.retries < max_retries)
          (retain_live (poll_entries now rto m).1)
unfolding poll_entries poll_entry retain_live
poll_entries-young now rto [] h = (refl, tt)
poll_entries-young now rto ((k, e) ∷ m) h = ground (arith, poll_entries-young now rto m h.1)

poll-IsHopeful :
    (now : ℕ) (l : ReliabilityLayer) → IsHopeful l → IsHopeful (poll_retransmits now l).1
unfolding poll_retransmits
poll-IsHopeful now l h =
    let p = poll_entries-young now l.rto l.inflight h.young in
    record { up = rw (p.0, h.up); young = p.1 }

send-IsHopeful :
    (now : ℕ) (payload : Bytes) (l : ReliabilityLayer)
    → IsHopeful l
    → IsHopeful (after_send l (prepare_send now payload l))
unfolding prepare_send launch
send-IsHopeful now payload l h = elim (Bool-cases (leb l.window_size (length l.inflight))) [
  | inl e ↦ rw e h
  | inr e ↦ rw e (elim (Bool-cases (ltb 4096 (length payload))) [
    | inl q ↦ rw q h
    | inr q ↦
        rw q
          (record { up = h.up; young = All-insert _ l.send_seq _ l.inflight (omega arith) h.young })
  ])
]

unanswered-IsHopeful :
    (ops : List Silent) (l : ReliabilityLayer) → IsHopeful l → IsHopeful (unanswered ops l)
unfolding unanswered
unanswered-IsHopeful [] l h = h
unanswered-IsHopeful (send now payload ∷ ops) l h =
    unanswered-IsHopeful ops _ (send-IsHopeful now payload l h)
unanswered-IsHopeful (poll now ∷ ops) l h = unanswered-IsHopeful ops _ (poll-IsHopeful now l h)

-- A peer that never answers is never found out: however long a new layer sends and polls, the
-- link does not count as failed, since the poll that makes the twelfth retry takes the frame
-- out of the window before a later poll could see that its retries are used up.
pub has_failed-unanswered :
    (rto window : ℕ) (ops : List Silent)
    → has_failed (unanswered ops (with_window (with_rto new rto) window)) ≡ false
has_failed-unanswered rto window ops =
    (unanswered-IsHopeful ops (with_window (with_rto new rto) window)
      (record { up = refl; young = tt })).up

-- A poll resends a frame that is alone in flight and overdue. It stays in flight, one retry
-- older, until the twelfth retry; that retry gives it up without counting the link as failed.
pub poll_retransmits-overdue :
    (now seq : ℕ) (e : InflightEntry) (l : ReliabilityLayer)
    → l.inflight ≡ (seq, e) ∷ []
    → l.rto ≤ now - e.sent_at
    → e.retries < max_retries
    → ((poll_retransmits now l).0 ≡ e.frame ∷ [])
      × ((poll_retransmits now l).1.inflight ≡ (
          if ltb (e.retries + 1) max_retries
          then (seq, record e { sent_at = now; retries = e.retries + 1 }) ∷ []
          else []))
      × ((poll_retransmits now l).1.failed ≡ l.failed)
unfolding poll_retransmits poll_entries poll_entry retain_live
poll_retransmits-overdue now seq e l h due young = rw h (ground arith)
