-- ===== src/Engine/Messages.antt =====
-- core/src/p2p/engine.rs: the sending of a text by the user, which waits in the peer's queue where the
-- link is down.
pub mod Accepted
use srltcpv.Base.{
  ℕ, Bool, true, false, not, ◌&&◌, Option, none, some, List, [], ◌∷◌, Bytes, if◌then◌else◌, Result,
  ok, err,
}
use srltcpv.Network.{IrohError, peer_not_found, connection_error}
use srltcpv.Crypto.Primitives.{Primitives}
use srltcpv.Crypto.Wire.{CryptoError, chain_not_ready, WireFormats}
use srltcpv.Engine.Queue.{PendingOutbound, text, QueueError, Queues, enqueue_pending}
use srltcpv.Engine.Peers.{PeerNames, Shared, or_itself, resolve_peer_id}
use srltcpv.Engine.Sending.{
  SendFailure, not_connected, no_json, no_session, no_serial, crypto_failure, wire_failure,
  serial_failure, iroh_failure, Handed, link_up, send_wire_message,
}
use srltcpv.Engine.Contacts.{Contacts, can_queue_for_peer}

abbrev pub is_chain_error : CryptoError → Bool
is_chain_error e = elim e [ chain_not_ready ↦ true | _ ↦ false ]

-- Whether the text of an error has one of the words that are looked for. `named` says it of the text
-- that the iroh crate adds to a connection error.
abbrev pub is_link_error : Bool → SendFailure → Bool
is_link_error named not_connected = true
is_link_error named no_json = false
is_link_error named no_session = true
is_link_error named no_serial = true
is_link_error named (crypto_failure e) = is_chain_error e
is_link_error named (wire_failure e) = false
is_link_error named (serial_failure e) = false
is_link_error named (iroh_failure peer_not_found) = true
is_link_error named (iroh_failure connection_error) = named

pub data SendReport : Type 0 where
  handed_over : Handed → SendReport
  message_queued : (peer size : ℕ) → (reconnects : Bool) → SendReport

pub data MessageError : Type 0 where
  not_sent : SendFailure → MessageError
  not_queued : QueueError → MessageError

abbrev pub queued : ℕ → Bool → Result QueueError ℕ → Result MessageError SendReport
queued peer up (err e) = err (not_queued e)
queued peer up (ok size) = ok (message_queued peer size (not up))

module _ {Inner : Type 0} (n : PeerNames) (named : Bool) (contacts : Contacts) where
  unfoldable pub settle_message :
      ℕ
      → Bytes
      → Result SendFailure Handed × Shared Inner
      → Queues
      → Result MessageError SendReport × (Shared Inner × Queues)
  settle_message resolved content (ok handed, t) q = (ok (handed_over handed), (t, q))
  settle_message resolved content (err e, t) q =
      if is_link_error named e && can_queue_for_peer n resolved contacts
      then (let entered = enqueue_pending resolved (text content) q in
          (queued resolved (link_up resolved t) entered.0, (t, entered.1)))
      else (err (not_sent e), (t, q))

  module _ (w : WireFormats) (p : Primitives Inner) where
    -- `json` is the message with this content, as JSON.
    unfoldable pub send_message :
        (opened written : Bool) (random : Bytes) (json : Option Bytes)
        → ℕ
        → Bytes
        → Shared Inner
        → Queues
        → Result MessageError SendReport × (Shared Inner × Queues)
    send_message opened written random json peer content t q =
        let resolved = or_itself peer (resolve_peer_id n peer t) in
        settle_message resolved content
          (send_wire_message n w opened written p random json resolved t) q
