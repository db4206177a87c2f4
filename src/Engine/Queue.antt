-- ===== src/Engine/Queue.antt =====
-- core/src/p2p/engine.rs: the queue of messages and files that wait for a peer. A peer id is a
-- number that stands for the string; a text and a path are byte strings. What an attempt to send
-- ends with is an argument.
use srltcpv.Base.{
  ℕ, suc, ◌+◌, ◌≤◌, ◌≡◌, ◌≢◌, refl, sym, ◌∙◌, ap, inl, inr, Bool, true, false, Option, none, some,
  List, [], ◌∷◌, ◌++◌, Bytes, length, leb, ==_refl, ==_false, if◌then◌else◌, Bool-cases, Result, ok,
  err, append-nil, append_assoc, length-append, arith,
}
use srltcpv.Base.Assoc.{get, insert, remove, get-insert, get-remove}

abbrev pub max_pending_per_peer : ℕ
max_pending_per_peer = 500

pub data PendingOutbound : Type 0 where
  text : Bytes → PendingOutbound
  file : Bytes → PendingOutbound

-- The errors of an attempt that the engine tells apart by their words.
pub data SendError : Type 0 where
  not_connected chain_not_ready not_trusted not_found other : SendError

pub data QueueError : Type 0 where
  queue_full : QueueError

abbrev pub Queues : Type 0
Queues = List (ℕ × List PendingOutbound)

abbrev pub or_default : Option (List PendingOutbound) → List PendingOutbound
or_default none = []
or_default (some items) = items

abbrev pub queue_of : ℕ → Queues → List PendingOutbound
queue_of peer q = or_default (get peer q)

-- `entry(…).or_default()` makes an empty queue also where the item is refused.
unfoldable pub enqueue_pending : ℕ → PendingOutbound → Queues → Result QueueError ℕ × Queues
enqueue_pending peer item q =
    let items = queue_of peer q in
    if leb max_pending_per_peer (length items)
    then (err queue_full, insert peer items q)
    else (ok (length items + 1), insert peer (items ++ (item ∷ [])) q)

-- Whether an item stays queued after this outcome of its attempt.
abbrev pub stays : Option SendError → Bool
stays none = false
stays (some not_connected) = true
stays (some chain_not_ready) = true
stays (some not_trusted) = true
stays (some not_found) = false
stays (some other) = false

-- The attempts in order; `outcome i` is that of the item at place `i`.
unfoldable pub retry_from : ℕ → (ℕ → Option SendError) → List PendingOutbound → List PendingOutbound
retry_from i outcome [] = []
retry_from i outcome (item ∷ items) =
    let rest = retry_from (i + 1) outcome items in if stays (outcome i) then item ∷ rest else rest

-- The items that are kept go before those that were queued meanwhile.
unfoldable pub put_back : ℕ → List PendingOutbound → Queues → Queues
put_back peer [] q = q
put_back peer (item ∷ items) q = insert peer ((item ∷ items) ++ queue_of peer q) q

unfoldable pub enqueue_all : ℕ → List PendingOutbound → Queues → Queues
enqueue_all peer [] q = q
enqueue_all peer (item ∷ items) q = enqueue_all peer items (enqueue_pending peer item q).1

-- `arrived` are the items that other tasks try to queue for the peer while the flush sends.
unfoldable pub flush_pending_for_peer :
    ℕ → (ℕ → Option SendError) → List PendingOutbound → Queues → Queues
flush_pending_for_peer peer outcome arrived q =
    put_back peer (retry_from 0 outcome (queue_of peer q))
      (enqueue_all peer arrived (remove peer q))

queue_of-insert :
    (peer : ℕ) (items : List PendingOutbound) (q : Queues)
    → queue_of peer (insert peer items q) ≡ items
queue_of-insert peer items q = rw (get-insert peer peer items q, ==_refl peer) refl

queue_of-remove : (peer : ℕ) (q : Queues) → queue_of peer (remove peer q) ≡ []
queue_of-remove peer q = rw (get-remove peer peer q, ==_refl peer) refl

queue_of-enqueue_pending :
    (peer : ℕ) (item : PendingOutbound) (q : Queues)
    → suc (length (queue_of peer q)) ≤ max_pending_per_peer
    → queue_of peer (enqueue_pending peer item q).1 ≡ queue_of peer q ++ (item ∷ [])
unfolding enqueue_pending
queue_of-enqueue_pending peer item q h =
    let room : leb max_pending_per_peer (length (queue_of peer q)) ≡ false = ground arith in
    rw room (queue_of-insert peer (queue_of peer q ++ (item ∷ [])) q)

queue_of-enqueue_all :
    (peer : ℕ) (items : List PendingOutbound) (q : Queues)
    → length (queue_of peer q) + length items ≤ max_pending_per_peer
    → queue_of peer (enqueue_all peer items q) ≡ queue_of peer q ++ items
unfolding enqueue_all
queue_of-enqueue_all peer [] q h = sym (append-nil (queue_of peer q))
queue_of-enqueue_all peer (item ∷ items) q h =
    let first = queue_of-enqueue_pending peer item q (omega arith) in
    queue_of-enqueue_all peer items (enqueue_pending peer item q).1
      (rw first (omega (arith, length-append (queue_of peer q) (item ∷ []))))
    ∙ (rw first (append_assoc (queue_of peer q) (item ∷ []) items))

queue_of-put_back :
    (peer : ℕ) (items : List PendingOutbound) (q : Queues)
    → queue_of peer (put_back peer items q) ≡ items ++ queue_of peer q
unfolding put_back
queue_of-put_back peer [] q = refl
queue_of-put_back peer (item ∷ items) q = queue_of-insert peer ((item ∷ items) ++ queue_of peer q) q

retry_from-all :
    (i : ℕ) (outcome : ℕ → Option SendError) (items : List PendingOutbound)
    → ((k : ℕ) → stays (outcome k) ≡ true)
    → retry_from i outcome items ≡ items
unfolding retry_from
retry_from-all i outcome [] h = refl
retry_from-all i outcome (item ∷ items) h = rw (h i, retry_from-all (i + 1) outcome items h) refl

-- The other peers' queues.
enqueue_all-other :
    (peer k : ℕ) (items : List PendingOutbound) (q : Queues)
    → peer ≢ k
    → queue_of k (enqueue_all peer items q) ≡ queue_of k q
unfolding enqueue_all enqueue_pending
enqueue_all-other peer k [] q ne = refl
enqueue_all-other peer k (item ∷ items) q ne =
    enqueue_all-other peer k items (enqueue_pending peer item q).1 ne
    ∙ (elim (Bool-cases (leb max_pending_per_peer (length (queue_of peer q)))) [
      | inl e ↦ rw (e, get-insert peer k (queue_of peer q) q, ==_false peer k ne) refl
      | inr e ↦
          rw (e, get-insert peer k (queue_of peer q ++ (item ∷ [])) q, ==_false peer k ne) refl
    ])

put_back-other :
    (peer k : ℕ) (items : List PendingOutbound) (q : Queues)
    → peer ≢ k
    → queue_of k (put_back peer items q) ≡ queue_of k q
unfolding put_back
put_back-other peer k [] q ne = refl
put_back-other peer k (item ∷ items) q ne =
    rw (get-insert peer k ((item ∷ items) ++ queue_of peer q) q, ==_false peer k ne) refl

-- What a flush leaves behind.
pub record Flushed (peer : ℕ) (outcome : ℕ → Option SendError) (arrived : List PendingOutbound)
    (q q' : Queues) : Type 0 where
  pub kept_first : queue_of peer q' ≡ retry_from 0 outcome (queue_of peer q) ++ arrived
  pub none_lost :
      ((k : ℕ) → stays (outcome k) ≡ true) → queue_of peer q' ≡ queue_of peer q ++ arrived
  pub others : (k : ℕ) → peer ≢ k → queue_of k q' ≡ queue_of k q

-- After a flush during which at most 500 items arrive for the peer, its queue holds the items whose
-- attempt left them queued, in their order and all of them if every attempt did, and then the
-- arrived ones; the queues of other peers are as before.
pub flush_pending_for_peer-Flushed :
    (peer : ℕ) (outcome : ℕ → Option SendError) (arrived : List PendingOutbound) (q : Queues)
    → length arrived ≤ max_pending_per_peer
    → Flushed peer outcome arrived q (flush_pending_for_peer peer outcome arrived q)
unfolding flush_pending_for_peer
flush_pending_for_peer-Flushed peer outcome arrived q h =
    let taken = remove peer q in
    let empty : queue_of peer taken ≡ [] = queue_of-remove peer q in
    let after = enqueue_all peer arrived taken in
    let queued : queue_of peer after ≡ arrived =
      queue_of-enqueue_all peer arrived taken (rw empty (omega arith)) ∙ rw empty refl in
    let kept = retry_from 0 outcome (queue_of peer q) in
    let result : queue_of peer (put_back peer kept after) ≡ kept ++ arrived =
      queue_of-put_back peer kept after ∙ ap (λ (x : List PendingOutbound). kept ++ x) queued in
    record {
      kept_first = result;
      none_lost = λ all.
          result
          ∙ ap (λ (x : List PendingOutbound). x ++ arrived)
              (retry_from-all 0 outcome (queue_of peer q) all);
      others = λ k ne.
          put_back-other peer k kept after ne
          ∙ (enqueue_all-other peer k arrived taken ne
              ∙ rw (get-remove peer k q, ==_false peer k ne) refl);
    }
