-- ===== src/Engine/Transfers/Once.antt =====
-- core/src/p2p/engine.rs: a received file is finished once.
use srltcpv.Base.{
  ℕ, ◌+◌, ◌≤◌, ◌^◌, ◌≡◌, refl, sym, ◌∙◌, inl, inr, Bool, true, false, not, ◌||◌, Option, none, some,
  List, [], ◌∷◌, Bytes, ltb, ◌==◌, ==_iff, if◌then◌else◌, Bool-cases, Result, ok, err, arith,
}
use mathlib.Core.Option.{some_inj, none-ne-some}
use srltcpv.Base.Assoc.{get, insert, remove, contains_key, contains_key-get, get-insert, get-remove}
use srltcpv.Base.NumSet.{contains, contains-insert, insert as add}
use srltcpv.Transfer.{TransferError, ChunkedReceiver, is_complete, receive_chunk, finalize}
use srltcpv.Engine.Transfers.{
  ActiveTransfer, IncomingTransfer, Transfers, TransferFormats, Action, send_cancel, send_ack,
  send_chunk, transfer_complete, transfer_sent, send_offer, transfer_failed, transfer_cancelled,
  FileMeta, FileAction, offer, chunk, ack, cancel, unknown, Disk, unwrap_or, finished,
  finish_incoming, accept_offer, on_file_offer, settle_chunk, chunk_of_none, chunk_of,
  on_file_chunk, entry_of, sent_to, on_transfer_ack, cancel_found, on_remote_cancel,
  handle_file_message,
}

-- An awaited transfer is neither finished nor has all its chunks.
pub record IsWaiting (t : Transfers) : Type 0 where
  pub waits :
      (tid : ℕ) (x : IncomingTransfer)
      → get tid t.incoming ≡ some x
      → (contains tid t.completed ≡ false) × (is_complete x.receiver ≡ false)

-- How often the user is told that the file of a transfer is there.
abbrev pub completion : ℕ → Action → ℕ
completion k (transfer_complete peer tid) = if tid == k then 1 else 0
completion k (transfer_sent peer tid) = 0
completion k (send_offer peer tid m) = 0
completion k (transfer_failed peer tid) = 0
completion k (transfer_cancelled peer tid) = 0
completion k (send_cancel peer tid) = 0
completion k (send_ack peer tid ids) = 0
completion k (send_chunk peer tid id bytes) = 0

abbrev pub completions : ℕ → List Action → ℕ
completions k [] = 0
completions k (a ∷ acts) = completion k a + completions k acts

abbrev pub is_done : ℕ → Transfers → ℕ
is_done k t = if contains k t.completed then 1 else 0

-- A step that keeps the invariant and finishes only what was not finished.
pub record Advances (t : Transfers) (r : List Action × Transfers) : Type 0 where
  pub waiting : IsWaiting r.1
  pub once : (k : ℕ) → completions k r.0 + is_done k t ≤ is_done k r.1

module _ (t : Transfers) (w : IsWaiting t) where
  insert-IsWaiting :
      (tid : ℕ) (x : IncomingTransfer)
      → contains tid t.completed ≡ false
      → is_complete x.receiver ≡ false
      → IsWaiting (record t { incoming = insert tid x t.incoming })
  insert-IsWaiting tid x absent more = record {
    waits = λ k y e. elim (Bool-cases (tid == k)) [
      | inl q ↦
          (let key : tid ≡ k = (==_iff tid k).0 q in
            let same : some x ≡ some y = sym (rw (get-insert tid k x t.incoming, q) refl) ∙ e in
            (rw (← key) absent, rw (← some_inj.0 same) more))
      | inr q ↦ w.waits k y (sym (rw (get-insert tid k x t.incoming, q) refl) ∙ e)
    ];
  }

  pub remove-IsWaiting : (tid : ℕ) → IsWaiting (record t { incoming = remove tid t.incoming })
  remove-IsWaiting tid = record {
    waits = λ k y e. elim (Bool-cases (tid == k)) [
      | inl q ↦ absurd (none-ne-some y (sym (rw (get-remove tid k t.incoming, q) refl) ∙ e))
      | inr q ↦ w.waits k y (sym (rw (get-remove tid k t.incoming, q) refl) ∙ e)
    ];
  }

  pub finish-IsWaiting :
      (tid : ℕ)
      → get tid t.incoming ≡ none
      → IsWaiting (record t { completed = add tid t.completed })
  finish-IsWaiting tid absent = record {
    waits = λ k y e. elim (Bool-cases (tid == k)) [
      | inl q ↦
          (let key : tid ≡ k = (==_iff tid k).0 q in
            absurd (none-ne-some y (sym absent ∙ rw key e)))
      | inr q ↦
          (let old = w.waits k y e in (rw (contains-insert tid k t.completed, q) old.0, old.1))
    ];
  }

  done-IsWaiting :
      (tid : ℕ)
      → IsWaiting (record t { incoming = remove tid t.incoming; completed = add tid t.completed })
  done-IsWaiting tid = record {
    waits = λ k y e. elim (Bool-cases (tid == k)) [
      | inl q ↦ absurd (none-ne-some y (sym (rw (get-remove tid k t.incoming, q) refl) ∙ e))
      | inr q ↦
          (let old = w.waits k y (sym (rw (get-remove tid k t.incoming, q) refl) ∙ e) in
            (rw (contains-insert tid k t.completed, q) old.0, old.1))
    ];
  }

  nothing-Advances : Advances t ([], t)
  nothing-Advances = record { waiting = w; once = λ k. omega arith }

  if-Advances :
      (b : Bool) (x y : List Action × Transfers)
      → (b ≡ true → Advances t x)
      → (b ≡ false → Advances t y)
      → Advances t (if b then x else y)
  if-Advances true x y h k = h refl
  if-Advances false x y h k = k refl

  option-Advances :
      {A : Type 0} (o : Option A) (g : A → List Action × Transfers)
      → ((a : A) → o ≡ some a → Advances t (g a))
      → Advances t (elim o [ none ↦ ([], t) | some a ↦ g a ])
  option-Advances none g h = nothing-Advances
  option-Advances (some a) g h = h a refl

  -- The end of a transfer that was not finished.
  pub is_done-finish :
      (peer tid : ℕ) (r : Result TransferError Bytes) (incoming : List (ℕ × IncomingTransfer))
      (k : ℕ)
      → contains tid t.completed ≡ false
      → completion k (finished peer tid r) + is_done k t
        ≤ is_done k (record t { incoming = incoming; completed = add tid t.completed })
  is_done-finish peer tid (err e) incoming k h =
      rw (contains-insert tid k t.completed) (ground arith)
  is_done-finish peer tid (ok bytes) incoming k h = elim (Bool-cases (tid == k)) [
    | inl q ↦
        (let key : tid ≡ k = (==_iff tid k).0 q in
          let fresh : contains k t.completed ≡ false = rw (← key) h in
          rw (contains-insert tid k t.completed, q, fresh) (omega arith))
    | inr q ↦ rw (contains-insert tid k t.completed, q) (omega arith)
  ]

  pub accept_offer-Advances :
      (sha : Bytes → Bytes) (f : TransferFormats) (disk : Disk) (peer tid : ℕ) (filename : List ℕ)
      (r : Result TransferError ChunkedReceiver)
      → get tid t.incoming ≡ none
      → contains tid t.completed ≡ false
      → Advances t (accept_offer sha f disk peer tid filename r t)
  unfolding accept_offer finish_incoming
  accept_offer-Advances sha f disk peer tid filename (err e) absent fresh = record {
    waiting = w;
    once = λ k. omega arith;
  }
  accept_offer-Advances sha f disk peer tid filename (ok r) absent fresh =
      if-Advances (is_complete r) _ _
        (λ q. record {
          waiting = finish-IsWaiting tid absent;
          once = λ k.
              (let one =
                  is_done-finish peer tid (finalize sha disk.synced disk.renamed r) t.incoming k
                    fresh in
                omega arith);
        })
        (λ q. record { waiting = insert-IsWaiting tid _ fresh q; once = λ k. omega arith })

  fresh_of :
      (tid : ℕ)
      → (contains_key tid t.incoming || contains tid t.completed) ≡ false
      → (get tid t.incoming ≡ none) × (contains tid t.completed ≡ false)
  fresh_of tid h = elim (contains_key-get tid t.incoming) [
    | inl (k, e) ↦ (e, ground (arith, k, h))
    | inr (k, v) ↦ absurd (ground (arith, k, h))
  ]

  on_file_offer-Advances :
      (sha : Bytes → Bytes) (f : TransferFormats) (disk : Disk) (peer : ℕ) (content : List ℕ)
      (meta : FileMeta)
      → Advances t (on_file_offer sha f disk peer content meta t)
  unfolding on_file_offer
  on_file_offer-Advances sha f disk peer content meta =
      option-Advances (f.parse_str (unwrap_or meta.transfer_id 0)) _ (λ tid e.
        if-Advances (contains_key tid t.incoming || contains tid t.completed) _ _
          (λ q. nothing-Advances)
          (λ q.
            let fresh = fresh_of tid q in
            accept_offer-Advances sha f disk peer tid _ _ fresh.0 fresh.1))

  -- A chunk that is not accepted leaves the receiver as it is.
  receive_chunk-refused :
      (fault : Option ℕ) (id : ℕ) (bytes : Bytes) (r : ChunkedReceiver)
      → (receive_chunk fault id bytes r).0 ≡ ok false
      → (receive_chunk fault id bytes r).1 ≡ r
  unfolding receive_chunk
  receive_chunk-refused none id bytes r h = ground arith
  receive_chunk-refused (some n) id bytes r h = ground arith

  settle_chunk-Advances :
      (sha : Bytes → Bytes) (f : TransferFormats) (disk : Disk) (peer tid chunk_id : ℕ)
      (x : IncomingTransfer) (r : Result TransferError Bool × ChunkedReceiver)
      → get tid t.incoming ≡ some x
      → (r.0 ≡ ok false → r.1 ≡ x.receiver)
      → Advances t (settle_chunk sha f disk peer tid chunk_id x r t)
  unfolding settle_chunk finish_incoming
  settle_chunk-Advances sha f disk peer tid chunk_id x (err e, r) held same = record {
    waiting = remove-IsWaiting tid;
    once = λ k. omega arith;
  }
  settle_chunk-Advances sha f disk peer tid chunk_id x (ok false, r) held same =
      let old = w.waits tid x held in
      record {
        waiting = insert-IsWaiting tid (record x { receiver = r }) old.0 (rw (same refl) old.1);
        once = λ k. omega arith;
      }
  settle_chunk-Advances sha f disk peer tid chunk_id x (ok true, r) held same =
      let old = w.waits tid x held in
      if-Advances (is_complete r) _ _
        (λ q. record {
          waiting = done-IsWaiting tid;
          once = λ k.
              (let one =
                  is_done-finish peer tid (finalize sha disk.synced disk.renamed r)
                    (remove tid t.incoming) k old.0 in
                omega arith);
        })
        (λ q. record {
          waiting = insert-IsWaiting tid (record x { receiver = r }) old.0 q;
          once = λ k. omega arith;
        })

  chunk_of_none-Advances :
      (sha : Bytes → Bytes) (f : TransferFormats) (peer tid chunk_id : ℕ)
      → Advances t (chunk_of_none sha f peer tid chunk_id t)
  unfolding chunk_of_none
  chunk_of_none-Advances sha f peer tid chunk_id = option-Advances (f.parse_str tid) _ (λ id e.
      if-Advances (contains tid t.completed) _ _
        (λ q. record { waiting = w; once = λ k. omega arith }) (λ q. nothing-Advances))

  chunk_of-Advances :
      (sha : Bytes → Bytes) (f : TransferFormats) (disk : Disk) (peer tid chunk_id : ℕ)
      (bytes : Bytes)
      → Advances t (chunk_of sha f disk peer tid chunk_id bytes t)
  unfolding chunk_of
  chunk_of-Advances sha f disk peer tid chunk_id bytes = found (get tid t.incoming) refl
    where
      found :
          (o : Option IncomingTransfer)
          → get tid t.incoming ≡ o
          → Advances t (elim o [
            | none ↦ chunk_of_none sha f peer tid chunk_id t
            | some x ↦
                if not (x.peer_id == peer)
                then ([], t)
                else settle_chunk sha f disk peer tid chunk_id x
                    (receive_chunk disk.fault chunk_id bytes x.receiver)
                    t
          ])
      found none e = chunk_of_none-Advances sha f peer tid chunk_id
      found (some x) e =
          if-Advances (not (x.peer_id == peer)) _ _ (λ q. nothing-Advances)
            (λ q.
              settle_chunk-Advances sha f disk peer tid chunk_id x _ e
                (receive_chunk-refused disk.fault chunk_id bytes x.receiver))

  on_file_chunk-Advances :
      (sha : Bytes → Bytes) (f : TransferFormats) (disk : Disk) (peer : ℕ) (meta : FileMeta)
      → Advances t (on_file_chunk sha f disk peer meta t)
  unfolding on_file_chunk
  on_file_chunk-Advances sha f disk peer meta = option-Advances meta.chunk_id _ (λ chunk_id e.
      if-Advances (not (ltb chunk_id (2 ^ 32))) _ _ (λ q. nothing-Advances)
        (λ q. option-Advances (f.decode_standard (unwrap_or meta.chunk_b64 [])) _ (λ bytes e.
          chunk_of-Advances sha f disk peer (unwrap_or meta.transfer_id 0) chunk_id bytes)))

  pub with_waits :
      (t' : Transfers) → t'.incoming ≡ t.incoming → t'.completed ≡ t.completed → IsWaiting t'
  with_waits t' e c = record {
    waits = λ k y held. (let old = w.waits k y (rw (← e) held) in (rw c old.0, old.1));
  }

  on_transfer_ack-Advances :
      (now peer : ℕ) (meta : FileMeta) → Advances t (on_transfer_ack now peer meta t)
  unfolding on_transfer_ack
  on_transfer_ack-Advances now peer meta = option-Advances meta.received_chunks _ (λ ids e.
      option-Advances (entry_of sent_to peer (get (unwrap_or meta.transfer_id 0) t.outgoing)) _
        (λ x e. record { waiting = with_waits _ refl refl; once = λ k. omega arith }))

  cancel_found-Advances :
      (peer tid : ℕ) (i : Option IncomingTransfer) (o : Option ActiveTransfer)
      → Advances t (cancel_found peer tid i o t)
  cancel_found-Advances peer tid none none = nothing-Advances
  cancel_found-Advances peer tid none (some y) = record {
    waiting = with_waits _ refl refl;
    once = λ k. omega arith;
  }
  cancel_found-Advances peer tid (some x) none = record {
    waiting = remove-IsWaiting tid;
    once = λ k. omega arith;
  }
  cancel_found-Advances peer tid (some x) (some y) = record {
    waiting = removed tid;
    once = λ k. omega arith;
  }
    where
      removed :
          (tid : ℕ)
          → IsWaiting
              (record t { incoming = remove tid t.incoming; outgoing = remove tid t.outgoing })
      removed tid = record { waits = λ k y e. (remove-IsWaiting tid).waits k y e }

  pub handle_file_message-Advances :
      (sha : Bytes → Bytes) (f : TransferFormats) (now : ℕ) (disk : Disk) (peer : ℕ)
      (action : FileAction) (content : List ℕ) (meta : FileMeta)
      → Advances t (handle_file_message sha f now disk peer action content meta t)
  unfolding handle_file_message on_remote_cancel
  handle_file_message-Advances sha f now disk peer offer content meta =
      on_file_offer-Advances sha f disk peer content meta
  handle_file_message-Advances sha f now disk peer chunk content meta =
      on_file_chunk-Advances sha f disk peer meta
  handle_file_message-Advances sha f now disk peer ack content meta =
      on_transfer_ack-Advances now peer meta
  handle_file_message-Advances sha f now disk peer cancel content meta =
      cancel_found-Advances peer (unwrap_or meta.transfer_id 0) _ _
  handle_file_message-Advances sha f now disk peer unknown content meta = nothing-Advances
