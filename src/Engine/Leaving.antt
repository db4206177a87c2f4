-- ===== src/Engine/Leaving.antt =====
-- core/src/p2p/engine.rs: the tear-down of a session and the loss of its connection.
use srltcpv.Base.{
  ℕ, Bool, true, false, not, ◌&&◌, ◌||◌, Option, none, some, List, [], ◌∷◌, ◌++◌, Bytes, ◌==◌,
  if◌then◌else◌,
}
use srltcpv.Base.Assoc.{get, remove}
use srltcpv.Base.NumSet.{contains, insert as add}
use srltcpv.Network.{unregister, unregister_if_current}
use srltcpv.Crypto.Peer.{same_key, is_trusted}
use srltcpv.Engine.Session.{PeerSession}
use srltcpv.Engine.Outgoing.{cancel_peer_transfers}
use srltcpv.Engine.Peers.{
  PeerNames, Shared, PeerAction, of_transfers, user_disconnected, connection_lost,
  schedule_auto_reconnect, serial_shutdown, or_itself, is_serial, peer_id_from_pubkey,
  resolve_peer_id,
}

module _ {Inner : Type 0} where
  -- The link of a session that is given up.
  abbrev pub drop_link :
      ℕ → ℕ → Option (PeerSession Inner) → Shared Inner → List PeerAction × Shared Inner
  drop_link peer resolved found t =
      if (elim found [ none ↦ false | some s ↦ is_serial s.transport ])
      then (elim t.serial_link [
        | none ↦ ([], t)
        | some link ↦ (serial_shutdown ∷ [], record t { serial_link = none })
      ])
      else (
        [],
        record t {
          iroh =
              if not (peer == resolved)
              then unregister peer (unregister resolved t.iroh)
              else unregister resolved t.iroh;
        },
      )

module _ (n : PeerNames) where
  module _ {Inner : Type 0} where
    unfoldable pub teardown_peer_session : ℕ → Bool → Shared Inner → List PeerAction × Shared Inner
    teardown_peer_session peer user_initiated t =
        let resolved = or_itself peer (resolve_peer_id n peer t) in
        let cancelled = cancel_peer_transfers resolved t.transfers in
        let dropped =
          drop_link peer resolved (get resolved t.peers) (record t { transfers = cancelled.1 }) in
        let u = dropped.1 in
        (
          of_transfers cancelled.0
              ++ (dropped.0 ++ (if user_initiated then user_disconnected resolved ∷ [] else [])),
          record u {
            peers = remove peer (remove resolved u.peers);
            waits = remove peer (remove resolved u.waits);
            held_inbound = remove resolved u.held_inbound;
            user_paused = if user_initiated then add resolved u.user_paused else u.user_paused;
          },
        )

    abbrev pub disconnect_peer : ℕ → Shared Inner → List PeerAction × Shared Inner
    disconnect_peer peer t = teardown_peer_session peer true t

  module _ {Inner : Type 0} where
    -- Whether a session belongs to the identity and is not in a handshake.
    abbrev pub is_stale : Bytes → ℕ → PeerSession Inner → Bool
    is_stale pk id s =
        (id == peer_id_from_pubkey n pk || same_key s.crypto.remote_identity pk)
        && (elim s.role [ none ↦ true | some role ↦ false ])

    unfoldable pub stale_ids : Bytes → List (ℕ × PeerSession Inner) → List ℕ
    stale_ids pk [] = []
    stale_ids pk ((id, s) ∷ m) =
        let rest = stale_ids pk m in if is_stale pk id s then id ∷ rest else rest

    unfoldable pub teardown_all : List ℕ → Shared Inner → List PeerAction × Shared Inner
    teardown_all [] t = ([], t)
    teardown_all (id ∷ ids) t =
        let first = teardown_peer_session id false t in
        let rest = teardown_all ids first.1 in (first.0 ++ rest.0, rest.1)

    unfoldable pub cleanup_sessions_for_pubkey :
        Bytes → Shared Inner → List PeerAction × Shared Inner
    cleanup_sessions_for_pubkey pk t = teardown_all (stale_ids pk t.peers) t

module _ {Inner : Type 0} where
  abbrev pub was_trusted : Option (PeerSession Inner) → Bool
  was_trusted none = false
  was_trusted (some s) = is_trusted s.crypto

  unfoldable pub lose_peer : ℕ → ℕ → Shared Inner → List PeerAction × Shared Inner
  lose_peer peer conn_peer_id t =
      let cancelled = cancel_peer_transfers peer t.transfers in
      (
        of_transfers cancelled.0
            ++ (connection_lost peer
                ∷ (if was_trusted (get peer t.peers)
                    then schedule_auto_reconnect peer ∷ []
                    else [])),
        record t {
          peers = remove conn_peer_id (remove peer t.peers);
          waits = remove conn_peer_id (remove peer t.waits);
          held_inbound = remove peer t.held_inbound;
          transfers = cancelled.1;
        },
      )

  unfoldable pub on_connection_lost : ℕ → ℕ → ℕ → Shared Inner → List PeerAction × Shared Inner
  on_connection_lost peer conn_peer_id stable_id t =
      let iroh =
        (unregister_if_current conn_peer_id stable_id
          (unregister_if_current peer stable_id t.iroh).1).1 in
      if contains peer t.user_paused
      then ([], record t { iroh = iroh })
      else lose_peer peer conn_peer_id (record t { iroh = iroh })
