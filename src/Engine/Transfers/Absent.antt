-- ===== src/Engine/Transfers/Absent.antt =====
-- core/src/p2p/engine.rs: a transfer id that is neither awaited nor completed stays so, unless it is
-- offered.
use srltcpv.Base.{
  ℕ, ◌^◌, ◌≡◌, refl, sym, ◌∙◌, inl, inr, Bool, true, false, not, ◌||◌, Option, none, some, List, [],
  Bytes, ltb, ◌==◌, ==_iff, if◌then◌else◌, Bool-cases, Result, ok, err,
}
use mathlib.Core.Option.{none-ne-some}
use srltcpv.Base.Assoc.{get, remove, contains_key, get-insert, get-remove}
use srltcpv.Base.NumSet.{contains, contains-insert}
use srltcpv.Transfer.{TransferError, ChunkedReceiver, is_complete, receive_chunk}
use srltcpv.Engine.Transfers.{
  ActiveTransfer, IncomingTransfer, Transfers, TransferFormats, Action, FileMeta, FileAction, offer,
  chunk, ack, cancel, unknown, Disk, unwrap_or, parse_name, finish_incoming, accept_offer,
  on_file_offer, settle_chunk, chunk_of_none, chunk_of, on_file_chunk, entry_of, sent_to,
  on_transfer_ack, cancel_found, on_remote_cancel, handle_file_message,
}

-- The id is free.
abbrev pub IsAbsent : ℕ → Transfers → Type 0
IsAbsent k t = (get k t.incoming ≡ none) × (contains k t.completed ≡ false)

-- An operation leaves it free.
abbrev pub LeavesFree : ℕ → List Action × Transfers → Type 0
LeavesFree k r = IsAbsent k r.1

module _ (k : ℕ) (t : Transfers) (free : IsAbsent k t) where
  if-IsAbsent :
      (b : Bool) (x y : List Action × Transfers)
      → LeavesFree k x
      → (b ≡ false → LeavesFree k y)
      → LeavesFree k (if b then x else y)
  if-IsAbsent true x y h g = h
  if-IsAbsent false x y h g = g refl

  option-IsAbsent :
      {A : Type 0} (o : Option A) (g : A → List Action × Transfers)
      → ((a : A) → o ≡ some a → LeavesFree k (g a))
      → LeavesFree k (elim o [ none ↦ ([], t) | some a ↦ g a ])
  option-IsAbsent none g h = free
  option-IsAbsent (some a) g h = h a refl

  pub get-remove_absent : (tid : ℕ) → get k (remove tid t.incoming) ≡ none
  get-remove_absent tid = elim (Bool-cases (tid == k)) [
    | inl q ↦ rw (get-remove tid k t.incoming, q) refl
    | inr q ↦ rw (get-remove tid k t.incoming, q) free.0
  ]

  held_other : (tid : ℕ) (x : IncomingTransfer) → get tid t.incoming ≡ some x → (tid == k) ≡ false
  held_other tid x held = elim (Bool-cases (tid == k)) [
    | inr q ↦ q
    | inl q ↦
        (let key : tid ≡ k = (==_iff tid k).0 q in
          absurd (none-ne-some x (sym free.0 ∙ rw (← key) held)))
  ]

  pub accept_offer-IsAbsent :
      (sha : Bytes → Bytes) (f : TransferFormats) (disk : Disk) (peer tid : ℕ) (filename : List ℕ)
      (r : Result TransferError ChunkedReceiver)
      → (tid == k) ≡ false
      → LeavesFree k (accept_offer sha f disk peer tid filename r t)
  unfolding accept_offer finish_incoming
  accept_offer-IsAbsent sha f disk peer tid filename (err e) q = free
  accept_offer-IsAbsent sha f disk peer tid filename (ok r) q =
      if-IsAbsent (is_complete r) _ _ (free.0, rw (contains-insert tid k t.completed, q) free.1)
        (λ more. (rw (get-insert tid k _ t.incoming, q) free.0, free.1))

  on_file_offer-IsAbsent :
      (sha : Bytes → Bytes) (f : TransferFormats) (disk : Disk) (peer : ℕ) (content : List ℕ)
      (meta : FileMeta)
      → ((tid : ℕ) → parse_name sha f meta.transfer_id ≡ some tid → (tid == k) ≡ false)
      → LeavesFree k (on_file_offer sha f disk peer content meta t)
  unfolding on_file_offer
  on_file_offer-IsAbsent sha f disk peer content meta other =
      option-IsAbsent (f.parse_str (unwrap_or meta.transfer_id 0)) _ (λ tid e.
        if-IsAbsent (contains_key tid t.incoming || contains tid t.completed) _ _ free
          (λ q. accept_offer-IsAbsent sha f disk peer tid _ _ (other tid e)))

  settle_chunk-IsAbsent :
      (sha : Bytes → Bytes) (f : TransferFormats) (disk : Disk) (peer tid chunk_id : ℕ)
      (x : IncomingTransfer) (r : Result TransferError Bool × ChunkedReceiver)
      → (tid == k) ≡ false
      → LeavesFree k (settle_chunk sha f disk peer tid chunk_id x r t)
  unfolding settle_chunk finish_incoming
  settle_chunk-IsAbsent sha f disk peer tid chunk_id x (err e, r) q =
      (get-remove_absent tid, free.1)
  settle_chunk-IsAbsent sha f disk peer tid chunk_id x (ok false, r) q =
      (rw (get-insert tid k _ t.incoming, q) free.0, free.1)
  settle_chunk-IsAbsent sha f disk peer tid chunk_id x (ok true, r) q =
      if-IsAbsent (is_complete r) _ _
        (get-remove_absent tid, rw (contains-insert tid k t.completed, q) free.1)
        (λ more. (rw (get-insert tid k _ t.incoming, q) free.0, free.1))

  chunk_of_none-IsAbsent :
      (sha : Bytes → Bytes) (f : TransferFormats) (peer tid chunk_id : ℕ)
      → LeavesFree k (chunk_of_none sha f peer tid chunk_id t)
  unfolding chunk_of_none
  chunk_of_none-IsAbsent sha f peer tid chunk_id =
      option-IsAbsent (f.parse_str tid) _
        (λ id e. if-IsAbsent (contains tid t.completed) _ _ free (λ q. free))

  chunk_of-IsAbsent :
      (sha : Bytes → Bytes) (f : TransferFormats) (disk : Disk) (peer tid chunk_id : ℕ)
      (bytes : Bytes)
      → LeavesFree k (chunk_of sha f disk peer tid chunk_id bytes t)
  unfolding chunk_of
  chunk_of-IsAbsent sha f disk peer tid chunk_id bytes = found (get tid t.incoming) refl
    where
      found :
          (o : Option IncomingTransfer)
          → get tid t.incoming ≡ o
          → LeavesFree k (elim o [
            | none ↦ chunk_of_none sha f peer tid chunk_id t
            | some x ↦
                if not (x.peer_id == peer)
                then ([], t)
                else settle_chunk sha f disk peer tid chunk_id x
                    (receive_chunk disk.fault chunk_id bytes x.receiver)
                    t
          ])
      found none e = chunk_of_none-IsAbsent sha f peer tid chunk_id
      found (some x) e =
          if-IsAbsent (not (x.peer_id == peer)) _ _ free
            (λ q. settle_chunk-IsAbsent sha f disk peer tid chunk_id x _ (held_other tid x e))

  on_file_chunk-IsAbsent :
      (sha : Bytes → Bytes) (f : TransferFormats) (disk : Disk) (peer : ℕ) (meta : FileMeta)
      → LeavesFree k (on_file_chunk sha f disk peer meta t)
  unfolding on_file_chunk
  on_file_chunk-IsAbsent sha f disk peer meta = option-IsAbsent meta.chunk_id _ (λ chunk_id e.
      if-IsAbsent (not (ltb chunk_id (2 ^ 32))) _ _ free (λ q.
        option-IsAbsent (f.decode_standard (unwrap_or meta.chunk_b64 [])) _ (λ bytes e.
          chunk_of-IsAbsent sha f disk peer (unwrap_or meta.transfer_id 0) chunk_id bytes)))

  on_transfer_ack-IsAbsent :
      (now peer : ℕ) (meta : FileMeta) → LeavesFree k (on_transfer_ack now peer meta t)
  unfolding on_transfer_ack
  on_transfer_ack-IsAbsent now peer meta = option-IsAbsent meta.received_chunks _ (λ ids e.
      option-IsAbsent (entry_of sent_to peer (get (unwrap_or meta.transfer_id 0) t.outgoing)) _
        (λ x e. free))

  cancel_found-IsAbsent :
      (peer tid : ℕ) (i : Option IncomingTransfer) (o : Option ActiveTransfer)
      → LeavesFree k (cancel_found peer tid i o t)
  cancel_found-IsAbsent peer tid none none = free
  cancel_found-IsAbsent peer tid none (some y) = free
  cancel_found-IsAbsent peer tid (some x) none = (get-remove_absent tid, free.1)
  cancel_found-IsAbsent peer tid (some x) (some y) = (get-remove_absent tid, free.1)

  -- A file message leaves an id free that it does not offer.
  pub handle_file_message-IsAbsent :
      (sha : Bytes → Bytes) (f : TransferFormats) (now : ℕ) (disk : Disk) (peer : ℕ)
      (action : FileAction) (content : List ℕ) (meta : FileMeta)
      → (action ≡ offer
          → (tid : ℕ) → parse_name sha f meta.transfer_id ≡ some tid
          → (tid == k) ≡ false)
      → LeavesFree k (handle_file_message sha f now disk peer action content meta t)
  unfolding handle_file_message on_remote_cancel
  handle_file_message-IsAbsent sha f now disk peer offer content meta other =
      on_file_offer-IsAbsent sha f disk peer content meta (other refl)
  handle_file_message-IsAbsent sha f now disk peer chunk content meta other =
      on_file_chunk-IsAbsent sha f disk peer meta
  handle_file_message-IsAbsent sha f now disk peer ack content meta other =
      on_transfer_ack-IsAbsent now peer meta
  handle_file_message-IsAbsent sha f now disk peer cancel content meta other =
      cancel_found-IsAbsent peer (unwrap_or meta.transfer_id 0) _ _
  handle_file_message-IsAbsent sha f now disk peer unknown content meta other = free
