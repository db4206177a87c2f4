-- ===== src/Engine/Peers.antt =====
-- core/src/p2p/engine.rs: the sessions of all peers and the ids that lead to one. An id is a number
-- that stands for a string. One operation takes all its locks at once.
pub mod Losses
pub mod Moves
pub mod Sends
mod Tests
use srltcpv.Base.{
  ℕ, Bool, true, false, not, ◌&&◌, ◌||◌, Option, none, some, List, [], ◌∷◌, ◌++◌, Bytes, ◌==◌,
  if◌then◌else◌, Result, ok, err,
}
use srltcpv.Base.Assoc.{get, insert, remove, contains_key}
use srltcpv.Base.NumSet.{contains, insert as add}
use srltcpv.Transfer.{same_bytes}
use srltcpv.Network.{
  IrohTransport, IrohError, Connection, rekey, unregister, unregister_if_current, has_connection,
  send as iroh_send,
}
use srltcpv.Serial.Link.{SendError, send as serial_send}
use srltcpv.Crypto.Primitives.{Primitives}
use srltcpv.Crypto.Wire.{CryptoError, WireError, WireFrame, encrypted, WireFormats, serialize}
use srltcpv.Crypto.Peer.{same_key, zero_key, is_trusted, encrypt, on_peer}
use srltcpv.Engine.Session.{PeerSession, TransportKind, lan, wan, relay, serial}
use srltcpv.Engine.Transfers.{Action, Transfers}
use srltcpv.Engine.Outgoing.{cancel_peer_transfers}
use srltcpv.Engine.Inbox.{ChatMessage}

-- The strings that the numbers stand for, and the crate hex.
pub record PeerNames : Type 0 where
  pub id_of : List ℕ → ℕ
  pub text_of : ℕ → List ℕ
  pub hex_encode : Bytes → List ℕ
  pub to_lowercase : List ℕ → List ℕ

-- The state of the link task, as `SerialTransport::send` looks at it.
pub record SerialState : Type 0 where
  pub running : Bool
  pub ready : Bool
  pub link_open : Bool

-- The fields that sessions, their links and their transfers need. `waits` are the initiators that wait for a step 2, by the id of their session.
pub record Shared (Inner : Type 0) : Type 0 where
  pub iroh : IrohTransport
  pub serial_link : Option SerialState
  pub peers : List (ℕ × PeerSession Inner)
  pub transfers : Transfers
  pub waits : List (ℕ × ℕ)
  pub peer_aliases : List (ℕ × ℕ)
  pub held_inbound : List (ℕ × List ChatMessage)
  pub user_paused : List ℕ

pub data PeerAction : Type 0 where
  peer_id_updated : (old_id new_id : ℕ) → PeerAction
  of_transfer : Action → PeerAction
  user_disconnected : (peer : ℕ) → PeerAction
  connection_lost : (peer : ℕ) → PeerAction
  schedule_auto_reconnect : (peer : ℕ) → PeerAction
  serial_shutdown : PeerAction

abbrev pub of_transfers : List Action → List PeerAction
of_transfers [] = []
of_transfers (a ∷ acts) = of_transfer a ∷ of_transfers acts

-- "peer:".
abbrev pub peer_prefix : List ℕ
peer_prefix = 0x70 ∷ 0x65 ∷ 0x65 ∷ 0x72 ∷ 0x3A ∷ []

unfoldable pub strip_prefix : List ℕ → List ℕ → Option (List ℕ)
strip_prefix [] text = some text
strip_prefix (c ∷ prefix) [] = none
strip_prefix (c ∷ prefix) (d ∷ text) =
    let rest = strip_prefix prefix text in if c == d then rest else none

abbrev pub or_itself : ℕ → Option ℕ → ℕ
or_itself peer none = peer
or_itself peer (some resolved) = resolved

-- A waiter that is there goes along.
abbrev pub move_waiter : ℕ → ℕ → Option ℕ → List (ℕ × ℕ) → List (ℕ × ℕ)
move_waiter old_id new_id none waits = remove old_id waits
move_waiter old_id new_id (some tx) waits = insert new_id tx (remove old_id waits)

abbrev pub is_serial : TransportKind → Bool
is_serial lan = false
is_serial wan = false
is_serial relay = false
is_serial serial = true

module _ {Inner : Type 0} where
  abbrev pub has_identity : PeerSession Inner → Bool
  has_identity s = not (same_key s.crypto.remote_identity (zero_key 32))

  unfoldable pub move_peer :
      ℕ → ℕ → PeerSession Inner → Shared Inner → (List PeerAction × Option ℕ) × Shared Inner
  move_peer old_id new_id s t = (
    (peer_id_updated old_id new_id ∷ [], some new_id),
    record t {
      peers = insert new_id s (remove old_id t.peers);
      iroh = rekey old_id new_id t.iroh;
      peer_aliases = insert old_id new_id t.peer_aliases;
      waits = move_waiter old_id new_id (get old_id t.waits) t.waits;
    },
  )

module _ (n : PeerNames) where
  unfoldable pub peer_id_from_pubkey : Bytes → ℕ
  peer_id_from_pubkey pk = n.id_of (peer_prefix ++ n.hex_encode pk)

  module _ {Inner : Type 0} where
    -- The first session whose identity has these hex digits.
    unfoldable pub by_identity : List ℕ → List (ℕ × PeerSession Inner) → Option ℕ
    by_identity hex_id [] = none
    by_identity hex_id ((id, s) ∷ m) =
        let rest = by_identity hex_id m in
        if same_bytes (n.hex_encode s.crypto.remote_identity) hex_id then some id else rest

    unfoldable pub by_prefix : ℕ → Shared Inner → Option ℕ
    by_prefix peer t = elim (strip_prefix peer_prefix (n.text_of peer)) [
      | none ↦ none
      | some hex_id ↦ by_identity (n.to_lowercase hex_id) t.peers
    ]

    unfoldable pub by_key : ℕ → Shared Inner → Option ℕ
    by_key peer t = if contains_key peer t.peers then some peer else by_prefix peer t

    -- `none` is the error "peer not connected".
    unfoldable pub resolve_peer_id : ℕ → Shared Inner → Option ℕ
    resolve_peer_id peer t = elim (get peer t.peer_aliases) [
      | none ↦ by_key peer t
      | some canonical ↦ if contains_key canonical t.peers then some canonical else by_key peer t
    ]

    -- `none` is the error "peer not found".
    unfoldable pub canonicalize_peer :
        ℕ → Shared Inner → (List PeerAction × Option ℕ) × Shared Inner
    canonicalize_peer conn_peer_id t = elim (get conn_peer_id t.peers) [
      | none ↦ (([], none), t)
      | some s ↦
          if not (has_identity s)
          then (([], some conn_peer_id), t)
          else if peer_id_from_pubkey s.crypto.remote_identity == conn_peer_id
          then (([], some conn_peer_id), t)
          else move_peer conn_peer_id (peer_id_from_pubkey s.crypto.remote_identity) s t
    ]
