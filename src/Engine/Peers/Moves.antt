-- ===== src/Engine/Peers/Moves.antt =====
-- core/src/p2p/engine.rs: what becomes of a session that gets the id of its identity.
use srltcpv.Base.{
  ℕ, ◌≡◌, ◌≢◌, refl, sym, ap, ◌∙◌, inl, inr, true, false, Option, none, some, List, [], ◌==◌,
  ==_iff, ==_refl, ==_false, Bool-cases, Option-cases, arith,
}
use srltcpv.Base.Assoc.{get, insert, remove, contains_key, contains_key-get, get-insert, get-remove}
use srltcpv.Network.{IrohTransport, ConnEntry, move_entry, rekey}
use srltcpv.Engine.Session.{PeerSession}
use srltcpv.Engine.Peers.{
  PeerNames, Shared, PeerAction, peer_id_from_pubkey, by_key, resolve_peer_id, has_identity,
  move_waiter, move_peer, canonicalize_peer,
}

contains_key_of :
    {V : Type 0} (k : ℕ) (v : V) (m : List (ℕ × V)) → get k m ≡ some v → contains_key k m ≡ true
contains_key_of k v m h = elim (contains_key-get k m) [
  | inl (e, missing) ↦ absurd (ground (arith, h, missing))
  | inr (e, found) ↦ e
]

move_entry-get :
    (new_id : ℕ) (entry : ConnEntry) (t : IrohTransport)
    → get new_id (move_entry new_id entry t).connections ≡ some entry
unfolding move_entry
move_entry-get new_id entry t = elim (Option-cases (get new_id t.connections)) [
  | inl e ↦ rw (e, move_entry) stored
  | inr (prev, e) ↦ (elim (Bool-cases (prev.conn.stable_id == entry.conn.stable_id)) [
    | inl q ↦ rw (e, move_entry) (rw q stored)
    | inr q ↦ rw (e, move_entry) (rw q stored)
  ])
]
  where
    stored : get new_id (insert new_id entry t.connections) ≡ some entry
    stored = rw (get-insert new_id new_id entry t.connections, ==_refl new_id) refl

moved_entry :
    (old_id new_id : ℕ) (entry : ConnEntry) (t : IrohTransport)
    → get old_id t.connections ≡ some entry
    → get new_id (rekey old_id new_id t).connections ≡ some entry
unfolding rekey move_entry
moved_entry old_id new_id entry t h =
    rw (h, rekey)
      (move_entry-get new_id entry (record t { connections = remove old_id t.connections }))

move_waiter-get :
    (old_id new_id tx : ℕ) (waits : List (ℕ × ℕ))
    → get old_id waits ≡ some tx
    → get new_id (move_waiter old_id new_id (get old_id waits) waits) ≡ some tx
move_waiter-get old_id new_id tx waits h =
    rw h (rw (get-insert new_id new_id tx (remove old_id waits), ==_refl new_id) refl)

-- The session of `conn_peer_id` under its canonical id, with all that belongs to it.
pub record Canonical {Inner : Type 0} (n : PeerNames) (conn_peer_id canonical : ℕ)
    (s : PeerSession Inner) (t : Shared Inner) (r : (List PeerAction × Option ℕ) × Shared Inner)
    : Type 0 where
  pub answer : r.0.1 ≡ some canonical
  pub session : get canonical (r.1).peers ≡ some s
  pub resolves : resolve_peer_id n canonical r.1 ≡ some canonical
  pub resolves_old : resolve_peer_id n conn_peer_id r.1 ≡ some canonical
  pub gone : canonical ≢ conn_peer_id → get conn_peer_id (r.1).peers ≡ none
  pub others : (k : ℕ) → k ≢ canonical → k ≢ conn_peer_id → get k (r.1).peers ≡ get k t.peers
  pub connection :
      (entry : ConnEntry)
      → get conn_peer_id t.iroh.connections ≡ some entry
      → get canonical (r.1).iroh.connections ≡ some entry
  pub waiter : (tx : ℕ) → get conn_peer_id t.waits ≡ some tx → get canonical (r.1).waits ≡ some tx

module _ {Inner : Type 0} (n : PeerNames) where
  resolve_own :
      (peer : ℕ) (s : PeerSession Inner) (t : Shared Inner)
      → get peer t.peer_aliases ≡ none
      → get peer t.peers ≡ some s
      → resolve_peer_id n peer t ≡ some peer
  unfolding resolve_peer_id by_key
  resolve_own peer s t unnamed h =
      rw (unnamed, resolve_peer_id) (rw (contains_key_of peer s t.peers h) refl)

  resolve_alias :
      (peer canonical : ℕ) (s : PeerSession Inner) (t : Shared Inner)
      → get peer t.peer_aliases ≡ some canonical
      → get canonical t.peers ≡ some s
      → resolve_peer_id n peer t ≡ some canonical
  unfolding resolve_peer_id
  resolve_alias peer canonical s t named h =
      rw (named, resolve_peer_id) (rw (contains_key_of canonical s t.peers h) refl)

  stays :
      (conn canonical : ℕ) (s : PeerSession Inner) (t : Shared Inner)
      → get conn t.peers ≡ some s
      → get canonical t.peer_aliases ≡ none
      → canonical ≡ conn
      → Canonical n conn canonical s t (([], some conn), t)
  stays conn canonical s t h unnamed e =
      let named : get conn t.peer_aliases ≡ none = rw (← e) unnamed in
      let own : resolve_peer_id n conn t ≡ some conn = resolve_own conn s t named h in
      record {
        answer = ap some (sym e);
        session = rw e h;
        resolves = rw e own;
        resolves_old = own ∙ ap some (sym e);
        gone = λ ne. absurd (ne e);
        others = λ k a b. refl;
        connection = λ entry c. rw e c;
        waiter = λ tx c. rw e c;
      }

  moves :
      (conn canonical : ℕ) (s : PeerSession Inner) (t : Shared Inner)
      → get canonical t.peer_aliases ≡ none
      → canonical ≢ conn
      → Canonical n conn canonical s t (move_peer conn canonical s t)
  unfolding move_peer
  moves conn canonical s t unnamed ne =
      let u : Shared Inner = (move_peer conn canonical s t).1 in
      let placed : get canonical u.peers ≡ some s =
        rw (get-insert canonical canonical s (remove conn t.peers), ==_refl canonical) refl in
      let other : (conn == canonical) ≡ false = ==_false conn canonical (λ e. ne (sym e)) in
      let still_unnamed : get canonical u.peer_aliases ≡ none =
        rw (get-insert conn canonical canonical t.peer_aliases, other) unnamed in
      let alias : get conn u.peer_aliases ≡ some canonical =
        rw (get-insert conn conn canonical t.peer_aliases, ==_refl conn) refl in
      record {
        answer = refl;
        session = placed;
        resolves = resolve_own canonical s u still_unnamed placed;
        resolves_old = resolve_alias conn canonical s u alias placed;
        gone = λ apart.
            rw (get-insert canonical conn s (remove conn t.peers), ==_false canonical conn apart)
              (rw (get-remove conn conn t.peers, ==_refl conn) refl);
        others = λ k a b.
            rw
              (
                get-insert canonical k s (remove conn t.peers),
                ==_false canonical k (λ e. a (sym e)),
              )
              (rw (get-remove conn k t.peers, ==_false conn k (λ e. b (sym e))) refl);
        connection = λ entry c. moved_entry conn canonical entry t.iroh c;
        waiter = λ tx c. move_waiter-get conn canonical tx t.waits c;
      }

  -- When a session knows the identity of its peer, and no alias is noted for the canonical id of
  -- this identity, then after `canonicalize_peer` the session stands under the canonical id, to
  -- which both ids resolve, and no longer under the old one, if they differ; the connection and the
  -- waiter of the old id are those of the canonical one, and the sessions under all other ids are as
  -- before.
  pub canonicalize_peer-Canonical :
      (conn : ℕ) (s : PeerSession Inner) (t : Shared Inner)
      → get conn t.peers ≡ some s
      → has_identity s ≡ true
      → get (peer_id_from_pubkey n s.crypto.remote_identity) t.peer_aliases ≡ none
      → Canonical n conn
          (peer_id_from_pubkey n s.crypto.remote_identity)
          s
          t
          (canonicalize_peer n conn t)
  unfolding canonicalize_peer
  canonicalize_peer-Canonical conn s t h known unnamed =
      let canonical : ℕ = peer_id_from_pubkey n s.crypto.remote_identity in
      elim (Bool-cases (canonical == conn)) [
        | inl q ↦
            rw (h, canonicalize_peer)
              (rw known (rw q (stays conn canonical s t h unnamed ((==_iff canonical conn).0 q))))
        | inr q ↦
            rw (h, canonicalize_peer)
              (rw known (rw q (moves conn canonical s t unnamed (λ e. apart canonical conn q e))))
      ]
    where
      apart : (a b : ℕ) → (a == b) ≡ false → a ≢ b
      apart a b q e = ground (arith, q, e)
