-- ===== src/Engine/Outgoing.antt =====
-- core/src/p2p/engine.rs: sending a file, and the ends of transfers that the user or the connection
-- brings about. The task `run_transfer_send` is one function for what it does under the lock of the
-- transfers and one for the sending of a chunk; other tasks may run in between.
pub mod Ends
pub mod Quiet
pub mod Runs
use srltcpv.Base.{
  ℕ, ◌*◌, ◌≡◌, Bool, true, false, not, Option, none, some, List, [], ◌∷◌, ◌++◌, Bytes, ltb, ◌==◌,
  if◌then◌else◌, Result, ok, err,
}
use srltcpv.Base.Assoc.{get, insert, remove, contains_key}
use srltcpv.Base.NumSet.{contains, insert as add}
use srltcpv.Transfer.{TransferError, ChunkedSender, on_ack, is_sent, idle_for, next_chunks}
use srltcpv.Engine.Transfers.{
  ActiveTransfer, IncomingTransfer, Transfers, Action, send_cancel, send_chunk, send_offer,
  transfer_sent, transfer_failed, transfer_cancelled, sent_to, sent_by,
}

-- In milliseconds.
abbrev pub transfer_stall : ℕ
transfer_stall = 90 * 1000

abbrev pub window_of : Bool → ℕ
window_of true = 4
window_of false = 16

abbrev pub resend_after_of : Bool → ℕ
resend_after_of true = 30 * 1000
resend_after_of false = 10 * 1000

-- The end of `try_send_file_now`: `sent` says whether the offer could be sent.
unfoldable pub start_transfer :
    Bool → ℕ → ℕ → List ℕ → ChunkedSender → Transfers → List Action × Transfers
start_transfer sent peer tid filename sender t =
    let listed : Transfers = record t {
      outgoing =
          insert tid (record { sender = sender; peer_id = peer; filename = filename }) t.outgoing;
    } in
    if sent
    then (send_offer peer tid sender.manifest ∷ [], listed)
    else ([], record listed { outgoing = remove tid listed.outgoing })

-- Whether the task goes on, and with which chunks.
pub data TaskStep : Type 0 where
  stop : TaskStep
  send_all : List (ℕ × Bytes) → TaskStep

abbrev pub drop_outgoing : ℕ → Transfers → Transfers
drop_outgoing tid t = record t { outgoing = remove tid t.outgoing }

unfoldable pub settle_chunks :
    ℕ
    → ℕ
    → ActiveTransfer
    → Result TransferError (List (ℕ × Bytes)) × ChunkedSender
    → Transfers
    → (List Action × TaskStep) × Transfers
settle_chunks peer tid x (err e, s) t =
    ((send_cancel peer tid ∷ transfer_failed peer tid ∷ [], stop), drop_outgoing tid t)
settle_chunks peer tid x (ok chunks, s) t =
    (([], send_all chunks), record t { outgoing = insert tid (record x { sender = s }) t.outgoing })

unfoldable pub sender_step :
    ℕ → Bool → ℕ → ℕ → ActiveTransfer → Transfers → (List Action × TaskStep) × Transfers
sender_step now serial peer tid x t =
    if is_sent x.sender
    then ((transfer_sent peer tid ∷ [], stop), drop_outgoing tid t)
    else if ltb transfer_stall (idle_for now x.sender)
    then ((send_cancel peer tid ∷ transfer_failed peer tid ∷ [], stop), drop_outgoing tid t)
    else settle_chunks peer tid x
        (next_chunks now (window_of serial) (resend_after_of serial) x.sender) t

-- One round of the loop, up to the sending of the chunks.
unfoldable pub transfer_step : ℕ → Bool → ℕ → ℕ → Transfers → (List Action × TaskStep) × Transfers
transfer_step now serial peer tid t =
    if contains tid t.cancelled
    then (([], stop), drop_outgoing tid t)
    else (elim (get tid t.outgoing) [
      | none ↦ (([], stop), t)
      | some x ↦ sender_step now serial peer tid x t
    ])

-- What became of a chunk's message: sent, or not, with the link still up or lost.
pub data Sent : Type 0 where
  delivered link_up link_down : Sent

-- One chunk: whether the task goes on with the next one.
unfoldable pub send_one : Sent → ℕ → ℕ → ℕ × Bytes → Transfers → (List Action × Bool) × Transfers
send_one outcome peer tid chunk t =
    if contains tid t.cancelled then (([], false), t) else (elim outcome [
      | delivered ↦ ((send_chunk peer tid chunk.0 chunk.1 ∷ [], true), t)
      | link_up ↦ (([], true), t)
      | link_down ↦ (
        (if contains_key tid t.outgoing then transfer_failed peer tid ∷ [] else [], false),
        drop_outgoing tid t,
      )
    ])

abbrev pub cancel_ends : ℕ → Option ActiveTransfer → Option IncomingTransfer → List Action
cancel_ends tid none none = []
cancel_ends tid none (some y) = send_cancel y.peer_id tid ∷ transfer_cancelled y.peer_id tid ∷ []
cancel_ends tid (some x) y = send_cancel x.peer_id tid ∷ transfer_cancelled x.peer_id tid ∷ []

-- The user cancels a transfer; the messages may not reach the peer.
unfoldable pub cancel_transfer : ℕ → Transfers → List Action × Transfers
cancel_transfer tid t = (
  cancel_ends tid (get tid t.outgoing) (get tid t.incoming),
  record t {
    cancelled = add tid t.cancelled;
    outgoing = remove tid t.outgoing;
    incoming = remove tid t.incoming;
  },
)

module _ {V : Type 0} (owner : V → ℕ) (peer : ℕ) where
  -- The names of the peer's transfers.
  unfoldable pub names_of : List (ℕ × V) → List ℕ
  names_of [] = []
  names_of ((tid, x) ∷ m) = let rest = names_of m in if owner x == peer then tid ∷ rest else rest

unfoldable pub remove_all : {V : Type 0} → List ℕ → List (ℕ × V) → List (ℕ × V)
remove_all [] m = m
remove_all (tid ∷ tids) m = remove_all tids (remove tid m)

unfoldable pub add_all : List ℕ → List ℕ → List ℕ
add_all [] set = set
add_all (tid ∷ tids) set = add_all tids (add tid set)

unfoldable pub all_cancelled : ℕ → List ℕ → List Action
all_cancelled peer [] = []
all_cancelled peer (tid ∷ tids) = transfer_cancelled peer tid ∷ all_cancelled peer tids

-- The connection of a peer is lost or given up.
unfoldable pub cancel_peer_transfers : ℕ → Transfers → List Action × Transfers
cancel_peer_transfers peer t =
    let outgoing = names_of sent_to peer t.outgoing in
    let incoming = names_of sent_by peer t.incoming in
    (
      all_cancelled peer outgoing ++ all_cancelled peer incoming,
      record t {
        outgoing = remove_all outgoing t.outgoing;
        incoming = remove_all incoming t.incoming;
        cancelled = add_all outgoing t.cancelled;
      },
    )
