-- ===== src/Engine/Messages/Accepted.antt =====
-- core/src/p2p/engine.rs: a text of the user is sent, queued or refused.
use srltcpv.Base.{
  ℕ, ◌+◌, ◌≤◌, ◌≡◌, refl, ap, inl, inr, Bool, true, not, Option, List, [], ◌∷◌, ◌++◌, Bytes, length,
  leb, Bool-cases, ◌==◌, ==_iff, ==_refl, Result, ok, err, arith,
}
use srltcpv.Base.Assoc.{insert, get-insert}
use srltcpv.Crypto.Primitives.{Primitives}
use srltcpv.Crypto.Wire.{WireFormats}
use srltcpv.Engine.Queue.{
  PendingOutbound, text, Queues, max_pending_per_peer, queue_of, enqueue_pending,
}
use srltcpv.Engine.Peers.{PeerNames, Shared, or_itself, resolve_peer_id}
use srltcpv.Engine.Sending.{SendFailure, Handed, link_up, send_wire_message}
use srltcpv.Engine.Peers.Sends.{Delivers, send_wire_message-Delivers}
use srltcpv.Engine.Contacts.{Contacts, can_queue_for_peer}
use srltcpv.Engine.Messages.{
  SendReport, handed_over, message_queued, MessageError, is_link_error, queued, settle_message,
  send_message,
}

-- A text that was queued stands at the end of the queue, which has at most 500 items.
pub record IsQueued (peer : ℕ) (content : Bytes) (size : ℕ) (q q' : Queues) : Type 0 where
  pub last : queue_of peer q' ≡ queue_of peer q ++ (text content ∷ [])
  pub counted : size ≡ length (queue_of peer q) + 1
  pub fits : size ≤ max_pending_per_peer

-- `IsSent` says what it means that the text was handed to a transport.
abbrev pub Accepted :
    {Inner : Type 0}
    → (Handed → Type 0)
    → Bool
    → ℕ
    → Bytes
    → Queues
    → Result MessageError SendReport × (Shared Inner × Queues)
    → Type 0
Accepted IsSent may_queue resolved content q (ok (handed_over handed), (t', q')) =
    IsSent handed × (q' ≡ q)
Accepted IsSent may_queue resolved content q (ok (message_queued peer size reconnects), (t', q')) =
    (peer ≡ resolved)
    × (may_queue ≡ true)
    × (reconnects ≡ not (link_up resolved t'))
    × IsQueued resolved content size q q'
Accepted IsSent may_queue resolved content q (err e, (t', q')) =
    (k : ℕ) → queue_of k q' ≡ queue_of k q

enqueued :
    {Inner : Type 0} (IsSent : Handed → Type 0) (resolved : ℕ) (content : Bytes) (q : Queues)
    (t : Shared Inner)
    → Accepted IsSent true resolved content q (
      queued resolved (link_up resolved t) (enqueue_pending resolved (text content) q).0,
      (t, (enqueue_pending resolved (text content) q).1),
    )
unfolding enqueue_pending
enqueued IsSent resolved content q t =
    elim (Bool-cases (leb max_pending_per_peer (length (queue_of resolved q)))) [
      | inl e ↦ rw e (λ k. unchanged k)
      | inr e ↦ rw e (
        refl,
        refl,
        refl,
        record {
          last = placed (queue_of resolved q ++ (text content ∷ []));
          counted = refl;
          fits = ground (arith, e);
        },
      )
    ]
  where
    placed : (items : List PendingOutbound) → queue_of resolved (insert resolved items q) ≡ items
    placed items = rw (get-insert resolved resolved items q, ==_refl resolved) refl

    unchanged : (k : ℕ) → queue_of k (insert resolved (queue_of resolved q) q) ≡ queue_of k q
    unchanged k = elim (Bool-cases (resolved == k)) [
      | inl e ↦
          (let same : resolved ≡ k = (==_iff resolved k).0 e in
            rw (get-insert resolved k (queue_of resolved q) q, e)
              (ap (λ (j : ℕ). queue_of j q) same))
      | inr e ↦ rw (get-insert resolved k (queue_of resolved q) q, e) refl
    ]

module _ {Inner : Type 0} (n : PeerNames) (named : Bool) (contacts : Contacts) where
  settle_message-Accepted :
      (IsSent : Handed → Type 0) (resolved : ℕ) (content : Bytes)
      (r : Result SendFailure Handed × Shared Inner) (q : Queues)
      → ((handed : Handed) → r.0 ≡ ok handed → IsSent handed)
      → Accepted IsSent
          (can_queue_for_peer n resolved contacts)
          resolved
          content
          q
          (settle_message n named contacts resolved content r q)
  unfolding settle_message
  settle_message-Accepted IsSent resolved content (ok handed, t) q h = (h handed refl, refl)
  settle_message-Accepted IsSent resolved content (err e, t) q h =
      elim (Bool-cases (is_link_error named e)) [
        | inr x ↦ rw x (λ k. refl)
        | inl x ↦ (elim (Bool-cases (can_queue_for_peer n resolved contacts)) [
          | inr y ↦ rw (x, y) (λ k. refl)
          | inl y ↦ rw (x, y) (enqueued IsSent resolved content q t)
        ])
      ]

  module _ (w : WireFormats) (p : Primitives Inner) where
    -- A text of the user is handed to the transport of a trusted session whose link is up, and no
    -- queue changes; or it is queued, for an identity that the user has verified, as the last of at
    -- most 500 items, and a reconnection is asked for exactly if the link is down; or an error is
    -- returned, and the items in all queues are as before.
    pub send_message-Accepted :
        (opened written : Bool) (random : Bytes) (json : Option Bytes) (peer : ℕ) (content : Bytes)
        (t : Shared Inner) (q : Queues)
        → Accepted
            (Delivers n w p random json (or_itself peer (resolve_peer_id n peer t)) t)
            (can_queue_for_peer n (or_itself peer (resolve_peer_id n peer t)) contacts)
            (or_itself peer (resolve_peer_id n peer t))
            content
            q
            (send_message n named contacts w p opened written random json peer content t q)
    unfolding send_message
    send_message-Accepted opened written random json peer content t q =
        let resolved = or_itself peer (resolve_peer_id n peer t) in
        settle_message-Accepted (Delivers n w p random json resolved t) resolved content
          (send_wire_message n w opened written p random json resolved t) q
          (λ handed e.
            send_wire_message-Delivers n w opened written p random json resolved t handed e)
