-- ===== src/Engine/Sending.antt =====
-- core/src/p2p/engine.rs: the sending of a message to a peer, over the link of its session. The
-- network answers through arguments.
use srltcpv.Base.{ℕ, Bool, false, not, Option, none, some, Bytes, if◌then◌else◌, Result, ok, err}
use srltcpv.Base.Assoc.{get, insert}
use srltcpv.Network.{IrohError, Connection, has_connection, send as iroh_send}
use srltcpv.Serial.Link.{SendError, send as serial_send}
use srltcpv.Crypto.Primitives.{Primitives}
use srltcpv.Crypto.Wire.{CryptoError, WireError, WireFrame, encrypted, WireFormats, serialize}
use srltcpv.Crypto.Peer.{encrypt}
use srltcpv.Engine.Session.{PeerSession}
use srltcpv.Engine.Peers.{PeerNames, Shared, is_serial, resolve_peer_id}

module _ {Inner : Type 0} where
  unfoldable pub link_up : ℕ → Shared Inner → Bool
  link_up resolved t = elim (get resolved t.peers) [
    | none ↦ false
    | some s ↦
        if is_serial s.transport
        then (elim t.serial_link [ none ↦ false | some link ↦ link.running ])
        else has_connection resolved t.iroh
  ]

pub data SendFailure : Type 0 where
  not_connected no_json no_session no_serial : SendFailure
  crypto_failure : CryptoError → SendFailure
  wire_failure : WireError → SendFailure
  serial_failure : SendError → SendFailure
  iroh_failure : IrohError → SendFailure

-- What a transport is handed.
pub data Handed : Type 0 where
  over_serial : Bytes → Handed
  over_iroh : Connection → Bytes → Handed

abbrev pub from_serial : Result SendError Bytes → Result SendFailure Handed
from_serial (err e) = err (serial_failure e)
from_serial (ok bytes) = ok (over_serial bytes)

abbrev pub from_iroh : Result IrohError (Connection × Bytes) → Result SendFailure Handed
from_iroh (err e) = err (iroh_failure e)
from_iroh (ok (conn, bytes)) = ok (over_iroh conn bytes)

module _ (n : PeerNames) {Inner : Type 0} (w : WireFormats) (opened written : Bool) where
  -- A session that is not under this id is looked for once more.
  abbrev pub session_of : ℕ → Shared Inner → Option (ℕ × PeerSession Inner)
  session_of peer t = elim (get peer t.peers) [
    | some s ↦ some (peer, s)
    | none ↦ (elim (resolve_peer_id n peer t) [
      | none ↦ none
      | some resolved ↦ (elim (get resolved t.peers) [ none ↦ none | some s ↦ some (resolved, s) ])
    ])
  ]

  abbrev pub hand_over :
      Bytes → Option (ℕ × PeerSession Inner) → Shared Inner → Result SendFailure Handed
  hand_over wire none t = err no_session
  hand_over wire (some (key, s)) t =
      if is_serial s.transport
      then (elim t.serial_link [
        | none ↦ err no_serial
        | some link ↦ from_serial (serial_send link.running link.ready link.link_open wire)
      ])
      else from_iroh (iroh_send opened written key wire t.iroh)

  unfoldable pub send_raw_frame : ℕ → WireFrame → Shared Inner → Result SendFailure Handed
  send_raw_frame peer frame t = elim (serialize w frame) [
    | err e ↦ err (wire_failure e)
    | ok wire ↦ hand_over wire (session_of peer t) t
  ]

  module _ (p : Primitives Inner) (random : Bytes) where
    unfoldable pub send_encrypted :
        ℕ
        → Result CryptoError Bytes × PeerSession Inner
        → Shared Inner
        → Result SendFailure Handed × Shared Inner
    send_encrypted resolved (err e, s) t =
        (err (crypto_failure e), record t { peers = insert resolved s t.peers })
    send_encrypted resolved (ok ciphertext, s) t =
        let u : Shared Inner = record t { peers = insert resolved s t.peers } in
        (send_raw_frame resolved (encrypted (record { version = 3; ciphertext = ciphertext })) u, u)

    -- `json` is the message in JSON, if it could be written.
    unfoldable pub send_resolved :
        Option Bytes → ℕ → Shared Inner → Result SendFailure Handed × Shared Inner
    send_resolved none resolved t = (err no_json, t)
    send_resolved (some plaintext) resolved t = elim (get resolved t.peers) [
      | none ↦ (err no_session, t)
      | some s ↦
          (let encrypted_one = encrypt p random plaintext s.crypto in
            send_encrypted resolved (encrypted_one.0, record s { crypto = encrypted_one.1 }) t)
    ]

    unfoldable pub send_wire_message :
        Option Bytes → ℕ → Shared Inner → Result SendFailure Handed × Shared Inner
    send_wire_message json peer t = elim (resolve_peer_id n peer t) [
      | none ↦ (err not_connected, t)
      | some resolved ↦
          if not (link_up resolved t) then (err not_connected, t) else send_resolved json resolved t
    ]
