-- ===== src/Engine/Transfers.antt =====
-- core/src/p2p/engine.rs: the file transfers of the engine. A name (a peer id, a transfer id) is a
-- number that stands for the string, 0 for the empty one. What is sent and what is emitted are the
-- actions of an operation, in order; the answers of the file system are arguments. An operation is
-- one step, although the source lets go of the locks within `on_file_offer` and before
-- `finish_incoming`; Outgoing/Runs takes these operations apart where steps of other tasks come in
-- between.
pub mod Absent
pub mod Isolation
pub mod Once
use srltcpv.Base.{
  ℕ, ◌+◌, ◌-◌, ◌*◌, ◌^◌, ◌≡◌, min, Bool, true, false, not, ◌&&◌, ◌||◌, Option, none, some, List, [],
  ◌∷◌, ◌++◌, Bytes, ltb, ◌==◌, if◌then◌else◌, Result, ok, err,
}
use srltcpv.Base.Assoc.{get, insert, remove, contains_key}
use srltcpv.Base.NumSet.{contains, insert as add}
use srltcpv.Transfer.{
  TransferManifest, TransferError, ChunkedSender, ChunkedReceiver, create, receive_chunk,
  is_complete, finalize, on_ack, is_sent, idle_for, next_chunks,
}
use srltcpv.Transfer.Filename.{sanitize_filename}

-- The crates uuid and base64: the canonical name of an identifier, and the decoder of the chunks.
pub record TransferFormats : Type 0 where
  pub parse_str : ℕ → Option ℕ
  pub decode_standard : List ℕ → Option Bytes

pub record ActiveTransfer : Type 0 where
  pub sender : ChunkedSender
  pub peer_id : ℕ
  pub filename : List ℕ

pub record IncomingTransfer : Type 0 where
  pub receiver : ChunkedReceiver
  pub peer_id : ℕ
  pub filename : List ℕ

pub record Transfers : Type 0 where
  pub outgoing : List (ℕ × ActiveTransfer)
  pub incoming : List (ℕ × IncomingTransfer)
  pub completed : List ℕ
  pub cancelled : List ℕ

-- The messages about a transfer and the events for the user interface; progress is left out.
-- `transfer_sent` is the event `TransferComplete` of a sender, which has no path.
pub data Action : Type 0 where
  send_cancel : (peer tid : ℕ) → Action
  send_ack : (peer tid : ℕ) → List ℕ → Action
  send_chunk : (peer tid chunk_id : ℕ) → Bytes → Action
  transfer_complete : (peer tid : ℕ) → Action
  transfer_sent : (peer tid : ℕ) → Action
  send_offer : (peer tid : ℕ) → TransferManifest → Action
  transfer_failed : (peer tid : ℕ) → Action
  transfer_cancelled : (peer tid : ℕ) → Action

-- The fields of a message's metadata that are there and of the right kind.
pub record FileMeta : Type 0 where
  pub transfer_id : Option ℕ
  pub filename : Option (List ℕ)
  pub total_size : Option ℕ
  pub chunk_size : Option ℕ
  pub total_chunks : Option ℕ
  pub sha256 : Option Bytes
  pub chunk_id : Option ℕ
  pub chunk_b64 : Option (List ℕ)
  pub received_chunks : Option (List ℕ)

abbrev pub unwrap_or {ℓ} : {A : Type ℓ} → Option A → A → A
unwrap_or none d = d
unwrap_or (some a) d = a

abbrev pub default_chunk_size : ℕ
default_chunk_size = 4000

-- How the file system answers: whether the file could be made, after how many bytes a write fails,
-- whether the file could be flushed and moved at the end.
pub record Disk : Type 0 where
  pub opened : Bool
  pub fault : Option ℕ
  pub synced : Bool
  pub renamed : Bool

abbrev pub offered_manifest : FileMeta → TransferManifest
offered_manifest meta = record {
  total_size = unwrap_or meta.total_size 0;
  chunk_size = unwrap_or meta.chunk_size default_chunk_size;
  total_chunks = min (unwrap_or meta.total_chunks 0) (2 ^ 32 - 1);
  sha256 = unwrap_or meta.sha256 [];
}

-- The end of a step: what the verification of the file came to.
abbrev pub finished : ℕ → ℕ → Result TransferError Bytes → Action
finished peer tid (ok bytes) = transfer_complete peer tid
finished peer tid (err e) = transfer_failed peer tid

module _ (sha256_hex : Bytes → Bytes) where
  unfoldable pub finish_incoming :
      Disk → ℕ → ℕ → ChunkedReceiver → Transfers → List Action × Transfers
  finish_incoming disk peer tid r t = (
    finished peer tid (finalize sha256_hex disk.synced disk.renamed r) ∷ [],
    record t { completed = add tid t.completed },
  )

  module _ (f : TransferFormats) where
    abbrev pub parse_name : Option ℕ → Option ℕ
    parse_name raw = f.parse_str (unwrap_or raw 0)

    -- A receiver that could be made waits for its chunks; an empty file is finished at once.
    unfoldable pub accept_offer :
        Disk
        → ℕ
        → ℕ
        → List ℕ
        → Result TransferError ChunkedReceiver
        → Transfers
        → List Action × Transfers
    accept_offer disk peer tid filename (err e) t =
        (send_cancel peer tid ∷ transfer_failed peer tid ∷ [], t)
    accept_offer disk peer tid filename (ok r) t =
        if is_complete r then finish_incoming disk peer tid r t else (
          [],
          record t {
            incoming =
                insert tid (record { receiver = r; peer_id = peer; filename = filename })
                  t.incoming;
          },
        )

    unfoldable pub on_file_offer :
        Disk → ℕ → List ℕ → FileMeta → Transfers → List Action × Transfers
    on_file_offer disk peer content meta t = elim (parse_name meta.transfer_id) [
      | none ↦ ([], t)
      | some tid ↦
          if contains_key tid t.incoming || contains tid t.completed
          then ([], t)
          else accept_offer disk peer tid (sanitize_filename (unwrap_or meta.filename content))
              (create disk.opened (offered_manifest meta)) t
    ]

    -- The first stage of a chunk that completes its transfer: the transfer is taken out and the chunk
    -- acknowledged. `finish_incoming` is the second one.
    abbrev pub take_complete : ℕ → ℕ → ℕ → Transfers → List Action × Transfers
    take_complete peer tid chunk_id t =
        (send_ack peer tid (chunk_id ∷ []) ∷ [], record t { incoming = remove tid t.incoming })

    -- What `receive_chunk` comes to for the transfer of a chunk.
    unfoldable pub settle_chunk :
        Disk
        → ℕ
        → ℕ
        → ℕ
        → IncomingTransfer
        → Result TransferError Bool × ChunkedReceiver
        → Transfers
        → List Action × Transfers
    settle_chunk disk peer tid chunk_id x (err e, r) t = (
      send_cancel peer tid ∷ transfer_failed peer tid ∷ [],
      record t { incoming = remove tid t.incoming },
    )
    settle_chunk disk peer tid chunk_id x (ok false, r) t =
        ([], record t { incoming = insert tid (record x { receiver = r }) t.incoming })
    settle_chunk disk peer tid chunk_id x (ok true, r) t =
        if is_complete r
        then (let finish =
              finish_incoming disk peer tid r (record t { incoming = remove tid t.incoming }) in
            (send_ack peer tid (chunk_id ∷ []) ∷ finish.0, finish.1))
        else (
          send_ack peer tid (chunk_id ∷ []) ∷ [],
          record t { incoming = insert tid (record x { receiver = r }) t.incoming },
        )

    -- A chunk of a transfer that is not awaited: its acknowledgement may have been lost.
    unfoldable pub chunk_of_none : ℕ → ℕ → ℕ → Transfers → List Action × Transfers
    chunk_of_none peer tid chunk_id t = elim (f.parse_str tid) [
      | none ↦ ([], t)
      | some id ↦
          if contains tid t.completed then (send_ack peer tid (chunk_id ∷ []) ∷ [], t) else ([], t)
    ]

    unfoldable pub chunk_of : Disk → ℕ → ℕ → ℕ → Bytes → Transfers → List Action × Transfers
    chunk_of disk peer tid chunk_id bytes t = elim (get tid t.incoming) [
      | none ↦ chunk_of_none peer tid chunk_id t
      | some x ↦
          if not (x.peer_id == peer)
          then ([], t)
          else settle_chunk disk peer tid chunk_id x
              (receive_chunk disk.fault chunk_id bytes x.receiver) t
    ]

    -- The chunk's number has to fit a `u32`.
    unfoldable pub on_file_chunk : Disk → ℕ → FileMeta → Transfers → List Action × Transfers
    on_file_chunk disk peer meta t = elim meta.chunk_id [
      | none ↦ ([], t)
      | some chunk_id ↦
          if not (ltb chunk_id (2 ^ 32))
          then ([], t)
          else (elim (f.decode_standard (unwrap_or meta.chunk_b64 [])) [
            | none ↦ ([], t)
            | some bytes ↦ chunk_of disk peer (unwrap_or meta.transfer_id 0) chunk_id bytes t
          ])
    ]

-- The entry found in a map, if it is the peer's: `map.get(tid).is_some_and(…)`.
abbrev pub entry_of : {V : Type 0} → (V → ℕ) → ℕ → Option V → Option V
entry_of owner peer none = none
entry_of owner peer (some x) = if owner x == peer then some x else none

abbrev pub sent_to : ActiveTransfer → ℕ
sent_to x = x.peer_id

abbrev pub sent_by : IncomingTransfer → ℕ
sent_by x = x.peer_id

unfoldable pub on_transfer_ack : ℕ → ℕ → FileMeta → Transfers → List Action × Transfers
on_transfer_ack now peer meta t = elim meta.received_chunks [
  | none ↦ ([], t)
  | some ids ↦
      (let tid = unwrap_or meta.transfer_id 0 in
        elim (entry_of sent_to peer (get tid t.outgoing)) [
          | none ↦ ([], t)
          | some x ↦ (
            [],
            record t {
              outgoing = insert tid (record x { sender = on_ack now ids x.sender }) t.outgoing;
            },
          )
        ])
]

-- The two maps are searched one after the other; the name is noted as cancelled only where there is
-- no incoming transfer of this name.
abbrev pub cancel_found :
    ℕ → ℕ → Option IncomingTransfer → Option ActiveTransfer → Transfers → List Action × Transfers
cancel_found peer tid none none t = ([], t)
cancel_found peer tid none (some y) t = (
  transfer_cancelled peer tid ∷ [],
  record t { outgoing = remove tid t.outgoing; cancelled = add tid t.cancelled },
)
cancel_found peer tid (some x) none t =
    (transfer_cancelled peer tid ∷ [], record t { incoming = remove tid t.incoming })
cancel_found peer tid (some x) (some y) t = (
  transfer_cancelled peer tid ∷ [],
  record t { incoming = remove tid t.incoming; outgoing = remove tid t.outgoing },
)

unfoldable pub on_remote_cancel : ℕ → ℕ → Transfers → List Action × Transfers
on_remote_cancel peer tid t =
    cancel_found peer tid (entry_of sent_by peer (get tid t.incoming))
      (entry_of sent_to peer (get tid t.outgoing)) t

pub data FileAction : Type 0 where
  offer chunk ack cancel unknown : FileAction

-- The messages of type `File` in `handle_app_message`.
unfoldable pub handle_file_message :
    (Bytes → Bytes)
    → TransferFormats
    → ℕ
    → Disk
    → ℕ
    → FileAction
    → List ℕ
    → FileMeta
    → Transfers
    → List Action × Transfers
handle_file_message sha f now disk peer offer content meta t =
    on_file_offer sha f disk peer content meta t
handle_file_message sha f now disk peer chunk content meta t = on_file_chunk sha f disk peer meta t
handle_file_message sha f now disk peer ack content meta t = on_transfer_ack now peer meta t
handle_file_message sha f now disk peer cancel content meta t =
    on_remote_cancel peer (unwrap_or meta.transfer_id 0) t
handle_file_message sha f now disk peer unknown content meta t = ([], t)
