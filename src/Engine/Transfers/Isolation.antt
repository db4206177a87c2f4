-- ===== src/Engine/Transfers/Isolation.antt =====
-- core/src/p2p/engine.rs: a peer's file messages and the transfers of other peers.
use srltcpv.Base.{
  ℕ, ◌≡◌, refl, sym, ap, ◌∙◌, inl, inr, Bool, true, false, not, ◌||◌, Option, none, some, List, [],
  Bytes, ◌==◌, ==_iff, ==_refl, ltb, ◌^◌, if◌then◌else◌, Bool-cases, All, Result, ok, err, arith,
}
use mathlib.Core.Option.{some_inj, none-ne-some}
use srltcpv.Base.Assoc.{get, insert, remove, contains_key, contains_key-get, get-insert, get-remove}
use srltcpv.Base.NumSet.{contains, insert as add}
use srltcpv.Transfer.{TransferError, ChunkedReceiver, is_complete, receive_chunk}
use srltcpv.Engine.Transfers.{
  ActiveTransfer, IncomingTransfer, Transfers, TransferFormats, Action, send_cancel, send_ack,
  send_chunk, transfer_complete, transfer_sent, send_offer, transfer_failed, transfer_cancelled,
  FileMeta, FileAction, offer, chunk, ack, cancel, unknown, Disk, unwrap_or, finished,
  finish_incoming, accept_offer, on_file_offer, settle_chunk, chunk_of_none, chunk_of,
  on_file_chunk, entry_of, sent_to, sent_by, on_transfer_ack, cancel_found, on_remote_cancel,
  handle_file_message,
}

-- The peer that an action is about.
abbrev pub about : Action → ℕ
about (send_cancel peer tid) = peer
about (send_ack peer tid ids) = peer
about (send_chunk peer tid id bytes) = peer
about (transfer_complete peer tid) = peer
about (transfer_sent peer tid) = peer
about (send_offer peer tid m) = peer
about (transfer_failed peer tid) = peer
about (transfer_cancelled peer tid) = peer

module _ {V : Type 0} (owner : V → ℕ) (peer : ℕ) where
  -- An entry, unless it is the peer's own.
  abbrev pub foreign : Option V → Option V
  foreign none = none
  foreign (some x) = if owner x == peer then none else some x

  foreign_own : (x : V) → owner x ≡ peer → foreign (some x) ≡ none
  foreign_own x e = rw (e, ==_refl peer) refl

  foreign-insert :
      (tid k : ℕ) (x : V) (m : List (ℕ × V))
      → foreign (get tid m) ≡ none
      → owner x ≡ peer
      → foreign (get k (insert tid x m)) ≡ foreign (get k m)
  foreign-insert tid k x m h e = elim (Bool-cases (tid == k)) [
    | inl q ↦
        (let key : tid ≡ k = (==_iff tid k).0 q in
          rw (get-insert tid k x m, q) (foreign_own x e ∙ sym (rw (← key) h)))
    | inr q ↦ rw (get-insert tid k x m, q) refl
  ]

  foreign-remove :
      (tid k : ℕ) (m : List (ℕ × V))
      → foreign (get tid m) ≡ none
      → foreign (get k (remove tid m)) ≡ foreign (get k m)
  foreign-remove tid k m h = elim (Bool-cases (tid == k)) [
    | inl q ↦
        (let key : tid ≡ k = (==_iff tid k).0 q in rw (get-remove tid k m, q) (sym (rw (← key) h)))
    | inr q ↦ rw (get-remove tid k m, q) refl
  ]

  entry_of-own :
      (o : Option V) (x : V)
      → entry_of owner peer o ≡ some x
      → (foreign o ≡ none) × (owner x ≡ peer)
  entry_of-own none x e = absurd (none-ne-some x e)
  entry_of-own (some y) x e = elim (Bool-cases (owner y == peer)) [
    | inl q ↦
        (let same : some y ≡ some x = (sym (rw q refl)) ∙ e in
          (rw q refl, (==_iff (owner x) peer).0 (rw (← some_inj.0 same) q)))
    | inr q ↦ absurd (none-ne-some x (sym (rw q refl) ∙ e))
  ]

-- What an operation of a peer leaves alone, and whom it tells.
pub record Isolated (peer : ℕ) (t : Transfers) (r : List Action × Transfers) : Type 0 where
  pub outgoing :
      (tid : ℕ)
      → foreign sent_to peer (get tid (r.1).outgoing) ≡ foreign sent_to peer (get tid t.outgoing)
  pub incoming :
      (tid : ℕ)
      → foreign sent_by peer (get tid (r.1).incoming) ≡ foreign sent_by peer (get tid t.incoming)
  pub actions : All (λ a. about a ≡ peer) (r.0)

module _ (peer : ℕ) (t : Transfers) where
  nothing-Isolated : Isolated peer t ([], t)
  nothing-Isolated = record { outgoing = λ tid. refl; incoming = λ tid. refl; actions = tt }

  if-Isolated :
      (b : Bool) (x y : List Action × Transfers)
      → (b ≡ true → Isolated peer t x)
      → (b ≡ false → Isolated peer t y)
      → Isolated peer t (if b then x else y)
  if-Isolated true x y h k = h refl
  if-Isolated false x y h k = k refl

  option-Isolated :
      {A : Type 0} (o : Option A) (g : A → List Action × Transfers)
      → ((a : A) → o ≡ some a → Isolated peer t (g a))
      → Isolated peer t (elim o [ none ↦ ([], t) | some a ↦ g a ])
  option-Isolated none g h = nothing-Isolated
  option-Isolated (some a) g h = h a refl

  about-finished : (tid : ℕ) (r : Result TransferError Bytes) → about (finished peer tid r) ≡ peer
  about-finished tid (ok bytes) = refl
  about-finished tid (err e) = refl

  accept_offer-Isolated :
      (sha : Bytes → Bytes) (f : TransferFormats) (disk : Disk) (tid : ℕ) (filename : List ℕ)
      (r : Result TransferError ChunkedReceiver)
      → get tid t.incoming ≡ none
      → Isolated peer t (accept_offer sha f disk peer tid filename r t)
  unfolding accept_offer finish_incoming
  accept_offer-Isolated sha f disk tid filename (err e) absent = record {
    outgoing = λ k. refl;
    incoming = λ k. refl;
    actions = (refl, (refl, tt));
  }
  accept_offer-Isolated sha f disk tid filename (ok r) absent =
      if-Isolated (is_complete r) _ _
        (λ q. record {
          outgoing = λ k. refl;
          incoming = λ k. refl;
          actions = (about-finished tid _, tt);
        })
        (λ q. record {
          outgoing = λ k. refl;
          incoming = λ k.
              foreign-insert sent_by peer tid k _ t.incoming (ap (foreign sent_by peer) absent)
                refl;
          actions = tt;
        })

  absent_of :
      (tid : ℕ)
      → (contains_key tid t.incoming || contains tid t.completed) ≡ false
      → get tid t.incoming ≡ none
  absent_of tid h = elim (contains_key-get tid t.incoming) [
    | inl (k, e) ↦ e
    | inr (k, w) ↦ absurd (ground (arith, k, h))
  ]

  on_file_offer-Isolated :
      (sha : Bytes → Bytes) (f : TransferFormats) (disk : Disk) (content : List ℕ) (meta : FileMeta)
      → Isolated peer t (on_file_offer sha f disk peer content meta t)
  unfolding on_file_offer
  on_file_offer-Isolated sha f disk content meta =
      option-Isolated (f.parse_str (unwrap_or meta.transfer_id 0)) _ (λ tid e.
        if-Isolated (contains_key tid t.incoming || contains tid t.completed) _ _
          (λ q. nothing-Isolated) (λ q. accept_offer-Isolated sha f disk tid _ _ (absent_of tid q)))

  -- An operation on an incoming transfer of the peer itself.
  module _ (tid : ℕ) (x : IncomingTransfer) (held : get tid t.incoming ≡ some x)
      (own : x.peer_id ≡ peer) where
    own_entry : foreign sent_by peer (get tid t.incoming) ≡ none
    own_entry = rw held (foreign_own sent_by peer x own)

    updated-Isolated :
        (r : ChunkedReceiver) (acts : List Action)
        → All (λ a. about a ≡ peer) acts
        → Isolated peer t
            (acts, record t { incoming = insert tid (record x { receiver = r }) t.incoming })
    updated-Isolated r acts h = record {
      outgoing = λ k. refl;
      incoming = λ k. foreign-insert sent_by peer tid k _ t.incoming own_entry own;
      actions = h;
    }

    removed-Isolated :
        (completed : List ℕ) (acts : List Action)
        → All (λ a. about a ≡ peer) acts
        → Isolated peer t
            (acts, record t { incoming = remove tid t.incoming; completed = completed })
    removed-Isolated completed acts h = record {
      outgoing = λ k. refl;
      incoming = λ k. foreign-remove sent_by peer tid k t.incoming own_entry;
      actions = h;
    }

    settle_chunk-Isolated :
        (sha : Bytes → Bytes) (f : TransferFormats) (disk : Disk) (chunk_id : ℕ)
        (r : Result TransferError Bool × ChunkedReceiver)
        → Isolated peer t (settle_chunk sha f disk peer tid chunk_id x r t)
    unfolding settle_chunk finish_incoming
    settle_chunk-Isolated sha f disk chunk_id (err e, r) =
        removed-Isolated t.completed _ (refl, (refl, tt))
    settle_chunk-Isolated sha f disk chunk_id (ok false, r) = updated-Isolated r [] tt
    settle_chunk-Isolated sha f disk chunk_id (ok true, r) =
        if-Isolated (is_complete r) _ _
          (λ q. removed-Isolated (add tid t.completed) _ (refl, (about-finished tid _, tt)))
          (λ q. updated-Isolated r _ (refl, tt))

  chunk_of_none-Isolated :
      (sha : Bytes → Bytes) (f : TransferFormats) (tid chunk_id : ℕ)
      → Isolated peer t (chunk_of_none sha f peer tid chunk_id t)
  unfolding chunk_of_none
  chunk_of_none-Isolated sha f tid chunk_id = option-Isolated (f.parse_str tid) _ (λ id e.
      if-Isolated (contains tid t.completed) _ _
        (λ q. record { outgoing = λ k. refl; incoming = λ k. refl; actions = (refl, tt) })
        (λ q. nothing-Isolated))

  chunk_of-Isolated :
      (sha : Bytes → Bytes) (f : TransferFormats) (disk : Disk) (tid chunk_id : ℕ) (bytes : Bytes)
      → Isolated peer t (chunk_of sha f disk peer tid chunk_id bytes t)
  unfolding chunk_of
  chunk_of-Isolated sha f disk tid chunk_id bytes = found (get tid t.incoming) refl
    where
      found :
          (o : Option IncomingTransfer)
          → get tid t.incoming ≡ o
          → Isolated peer t (elim o [
            | none ↦ chunk_of_none sha f peer tid chunk_id t
            | some x ↦
                if not (x.peer_id == peer)
                then ([], t)
                else settle_chunk sha f disk peer tid chunk_id x
                    (receive_chunk disk.fault chunk_id bytes x.receiver)
                    t
          ])
      found none e = chunk_of_none-Isolated sha f tid chunk_id
      found (some x) e =
          if-Isolated (not (x.peer_id == peer)) _ _ (λ q. nothing-Isolated)
            (λ q.
              settle_chunk-Isolated tid x e ((==_iff x.peer_id peer).0 (ground arith)) sha f disk
                chunk_id _)

  on_file_chunk-Isolated :
      (sha : Bytes → Bytes) (f : TransferFormats) (disk : Disk) (meta : FileMeta)
      → Isolated peer t (on_file_chunk sha f disk peer meta t)
  unfolding on_file_chunk
  on_file_chunk-Isolated sha f disk meta = option-Isolated meta.chunk_id _ (λ chunk_id e.
      if-Isolated (not (ltb chunk_id (2 ^ 32))) _ _ (λ q. nothing-Isolated)
        (λ q.
          option-Isolated (f.decode_standard (unwrap_or meta.chunk_b64 [])) _ (λ bytes e.
            chunk_of-Isolated sha f disk (unwrap_or meta.transfer_id 0) chunk_id bytes)))

  on_transfer_ack-Isolated :
      (now : ℕ) (meta : FileMeta) → Isolated peer t (on_transfer_ack now peer meta t)
  unfolding on_transfer_ack
  on_transfer_ack-Isolated now meta = option-Isolated meta.received_chunks _ (λ ids e.
      option-Isolated (entry_of sent_to peer (get (unwrap_or meta.transfer_id 0) t.outgoing)) _
        (λ x e.
          let own = entry_of-own sent_to peer (get (unwrap_or meta.transfer_id 0) t.outgoing) x e in
          record {
            outgoing = λ k.
                foreign-insert sent_to peer (unwrap_or meta.transfer_id 0) k _ t.outgoing own.0
                  own.1;
            incoming = λ k. refl;
            actions = tt;
          }))

  cancel_found-Isolated :
      (tid : ℕ) (i : Option IncomingTransfer) (o : Option ActiveTransfer)
      → entry_of sent_by peer (get tid t.incoming) ≡ i
      → entry_of sent_to peer (get tid t.outgoing) ≡ o
      → Isolated peer t (cancel_found peer tid i o t)
  cancel_found-Isolated tid none none e h = nothing-Isolated
  cancel_found-Isolated tid none (some y) e h =
      let own = entry_of-own sent_to peer (get tid t.outgoing) y h in
      record {
        outgoing = λ k. foreign-remove sent_to peer tid k t.outgoing own.0;
        incoming = λ k. refl;
        actions = (refl, tt);
      }
  cancel_found-Isolated tid (some x) none e h =
      let own = entry_of-own sent_by peer (get tid t.incoming) x e in
      record {
        outgoing = λ k. refl;
        incoming = λ k. foreign-remove sent_by peer tid k t.incoming own.0;
        actions = (refl, tt);
      }
  cancel_found-Isolated tid (some x) (some y) e h =
      let own_x = entry_of-own sent_by peer (get tid t.incoming) x e in
      let own_y = entry_of-own sent_to peer (get tid t.outgoing) y h in
      record {
        outgoing = λ k. foreign-remove sent_to peer tid k t.outgoing own_y.0;
        incoming = λ k. foreign-remove sent_by peer tid k t.incoming own_x.0;
        actions = (refl, tt);
      }

  on_remote_cancel-Isolated : (tid : ℕ) → Isolated peer t (on_remote_cancel peer tid t)
  unfolding on_remote_cancel
  on_remote_cancel-Isolated tid = cancel_found-Isolated tid _ _ refl refl

-- Whatever file message a peer sends, with whatever answers of the file system, the outgoing and
-- incoming transfers of all other peers stay as they are, none is made in another peer's name, and
-- every message sent and event emitted is about that peer.
pub handle_file_message-Isolated :
    (sha : Bytes → Bytes) (f : TransferFormats) (now : ℕ) (disk : Disk) (peer : ℕ)
    (action : FileAction) (content : List ℕ) (meta : FileMeta) (t : Transfers)
    → Isolated peer t (handle_file_message sha f now disk peer action content meta t)
unfolding handle_file_message
handle_file_message-Isolated sha f now disk peer offer content meta t =
    on_file_offer-Isolated peer t sha f disk content meta
handle_file_message-Isolated sha f now disk peer chunk content meta t =
    on_file_chunk-Isolated peer t sha f disk meta
handle_file_message-Isolated sha f now disk peer ack content meta t =
    on_transfer_ack-Isolated peer t now meta
handle_file_message-Isolated sha f now disk peer cancel content meta t =
    on_remote_cancel-Isolated peer t (unwrap_or meta.transfer_id 0)
handle_file_message-Isolated sha f now disk peer unknown content meta t = nothing-Isolated peer t
