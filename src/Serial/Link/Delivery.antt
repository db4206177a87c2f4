-- ===== src/Serial/Link/Delivery.antt =====
-- From the frames of a session to the messages of the peer.
use srltcpv.Base.{
  ℕ, ◌+◌, ◌≤◌, ◌≡◌, refl, sym, ap, ◌∙◌, true, List, [], ◌∷◌, ◌++◌, append-nil, Bytes, All, length,
  flatten, map, ◌==◌, ltb, arith, Bool-cases, inl, inr,
}
use srltcpv.Serial.Reliability.{ReliabilityLayer}
use srltcpv.Serial.Reliability.Drain.{segment}
use srltcpv.Serial.Reliability.Sessions.{Session, Session-Delivered, segment-glue}
use srltcpv.Serial.Transport.{fragment, frag_last, max_message_bytes}
use srltcpv.Serial.Link.{reassemble}
use srltcpv.Serial.Link.Messages.{reassemble-messages}

-- Reassembling in two goes gives the same messages.
pub reassemble-append :
    (ps qs : List Bytes) (acc : Bytes)
    → (reassemble true (ps ++ qs) acc).0
      ≡ (reassemble true ps acc).0 ++ (reassemble true qs (reassemble true ps acc).1).0
unfolding reassemble
reassemble-append [] qs acc = refl
reassemble-append ([] ∷ ps) qs acc = reassemble-append ps qs acc
reassemble-append ((flag ∷ bytes) ∷ ps) qs acc =
    elim (Bool-cases (ltb max_message_bytes (length acc + length bytes))) [
      | inl e ↦ rw e (reassemble-append ps qs [])
      | inr e ↦ rw e (elim (Bool-cases (flag == frag_last)) [
        | inl f ↦ rw f (ap (◌∷◌ (acc ++ bytes)) (reassemble-append ps qs []))
        | inr f ↦ rw f (reassemble-append ps qs (acc ++ bytes))
      ])
    ]

-- When the peer's stream begins with the fragments of `msgs`, none of which is longer than
-- `max_message_bytes`, and the engine takes messages all the time, then whatever the line loses,
-- repeats or reorders within half the ring, what the link has reassembled from the payloads
-- delivered so far is the beginning of `msgs`; and it is all of `msgs` once all their fragments are
-- delivered.
pub reassemble-Session :
    (stream : ℕ → Bytes) (msgs : List Bytes) (later : ℕ) (l : ReliabilityLayer) (ds : List Bytes)
    → All (λ m. length m ≤ max_message_bytes) msgs
    → segment stream 0 (length ds + later) ≡ flatten (map fragment msgs)
    → Session stream l ds
    → ((rest : List Bytes) × ((reassemble true ds []).0 ++ rest ≡ msgs))
      × (later ≡ 0 → (reassemble true ds []).0 ≡ msgs)
reassemble-Session stream msgs later l ds fits e s = (
  (
    (reassemble true (segment stream (length ds) later) (reassemble true ds []).1).0,
    sym (reassemble-append ds (segment stream (length ds) later) []) ∙ whole,
  ),
  λ z.
      ap (λ ps. (reassemble true ps []).0) (all_delivered z)
      ∙ ap (λ o. o.0) (reassemble-messages msgs fits),
)
  where
    split : ds ++ segment stream (length ds) later ≡ flatten (map fragment msgs)
    split =
        ap (λ p. p ++ segment stream (length ds) later) (Session-Delivered stream s).prefix
        ∙ segment-glue stream 0 (length ds) later (length ds) (length ds + later) (omega arith) refl
        ∙ e

    whole : (reassemble true (ds ++ segment stream (length ds) later) []).0 ≡ msgs
    whole =
        ap (λ ps. (reassemble true ps []).0) split ∙ ap (λ o. o.0) (reassemble-messages msgs fits)

    all_delivered : later ≡ 0 → ds ≡ flatten (map fragment msgs)
    all_delivered z =
        sym (append-nil ds) ∙ ap (λ n. ds ++ segment stream (length ds) n) (sym z) ∙ split
