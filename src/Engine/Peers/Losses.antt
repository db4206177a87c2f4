-- ===== src/Engine/Peers/Losses.antt =====
-- core/src/p2p/engine.rs: what is left of a peer whose connection was lost or given up.
use srltcpv.Base.{
  ℕ, ◌≡◌, ◌≢◌, refl, sym, ap, ◌∙◌, inl, inr, Bool, true, false, Option, none, some, List, [], ◌∷◌,
  ◌==◌, ==_iff, ==_refl, ==_false, Bool-cases, Option-cases, arith,
}
use mathlib.Core.Option.{none-ne-some}
use srltcpv.Base.Assoc.{get, remove, get-remove}
use srltcpv.Base.NumSet.{contains}
use srltcpv.Engine.Transfers.{Transfers, sent_to, sent_by}
use srltcpv.Network.{IrohTransport}
use srltcpv.Engine.Session.{PeerSession}
use srltcpv.Engine.Peers.{PeerNames, Shared, resolve_peer_id, or_itself, is_serial}
use srltcpv.Engine.Leaving.{drop_link, teardown_peer_session, lose_peer, on_connection_lost}
use srltcpv.Engine.Outgoing.{names_of, remove_all, cancel_peer_transfers}

-- No key stands twice.
abbrev pub IsMap : {V : Type 0} → List (ℕ × V) → Type 0
IsMap [] = Unit
IsMap ((k, v) ∷ m) = (get k m ≡ none) × IsMap m

module _ {V : Type 0} (owner : V → ℕ) (peer : ℕ) where
  names_of-own :
      (m : List (ℕ × V)) (k : ℕ) (x : V)
      → get k m ≡ some x
      → owner x ≡ peer
      → contains k (names_of owner peer m) ≡ true
  unfolding get names_of contains
  names_of-own [] k x h own = absurd (none-ne-some x h)
  names_of-own ((j, y) ∷ m) k x h own = ground (arith, h, own, names_of-own m k x)

  names_of-absent :
      (m : List (ℕ × V)) (k : ℕ) → get k m ≡ none → contains k (names_of owner peer m) ≡ false
  unfolding get names_of contains
  names_of-absent [] k h = refl
  names_of-absent ((j, y) ∷ m) k h = ground (arith, h, names_of-absent m k)

  names_of_sound :
      (m : List (ℕ × V)) (k : ℕ) (x : V)
      → IsMap m
      → get k m ≡ some x
      → contains k (names_of owner peer m) ≡ true
      → owner x ≡ peer
  unfolding get names_of contains
  names_of_sound [] k x i h c = absurd (none-ne-some x h)
  names_of_sound ((j, y) ∷ m) k x (fresh, i) h c = elim (Bool-cases (j == k)) [
    | inl q ↦
        (let key : j ≡ k = (==_iff j k).0 q in
          let absent : contains k (names_of owner peer m) ≡ false =
            names_of-absent m k (rw (← key) fresh) in
          ground (arith, h, c, q, absent))
    | inr q ↦ names_of_sound m k x i (ground (arith, h, q)) (ground (arith, c, q))
  ]

module _ {V : Type 0} where
  remove_all-none :
      (tids : List ℕ) (k : ℕ) (m : List (ℕ × V)) → get k m ≡ none → get k (remove_all tids m) ≡ none
  unfolding remove_all
  remove_all-none [] k m h = h
  remove_all-none (tid ∷ tids) k m h =
      remove_all-none tids k (remove tid m) (ground (arith, h, get-remove tid k m))

  remove_all-named :
      (tids : List ℕ) (k : ℕ) (m : List (ℕ × V))
      → contains k tids ≡ true
      → get k (remove_all tids m) ≡ none
  unfolding remove_all contains
  remove_all-named [] k m h = absurd (ground (arith, h))
  remove_all-named (tid ∷ tids) k m h = elim (Bool-cases (tid == k)) [
    | inl q ↦ remove_all-none tids k (remove tid m) (rw (get-remove tid k m, q) refl)
    | inr q ↦ remove_all-named tids k (remove tid m) (ground (arith, h, q))
  ]

  remove_all-other :
      (tids : List ℕ) (k : ℕ) (m : List (ℕ × V))
      → contains k tids ≡ false
      → get k (remove_all tids m) ≡ get k m
  unfolding remove_all contains
  remove_all-other [] k m h = refl
  remove_all-other (tid ∷ tids) k m h = elim (Bool-cases (tid == k)) [
    | inl q ↦ absurd (ground (arith, h, q))
    | inr q ↦
        remove_all-other tids k (remove tid m) (ground (arith, h, q))
        ∙ rw (get-remove tid k m, q) refl
  ]

-- What is left of the transfers of one map: none of the peer's, and all of the others'.
pub record Without {V : Type 0} (owner : V → ℕ) (peer : ℕ) (m m' : List (ℕ × V)) : Type 0 where
  pub gone : (tid : ℕ) (x : V) → get tid m' ≡ some x → owner x ≢ peer
  pub kept : (tid : ℕ) (x : V) → get tid m ≡ some x → owner x ≢ peer → get tid m' ≡ some x

remove_all-Without :
    {V : Type 0} (owner : V → ℕ) (peer : ℕ) (m : List (ℕ × V))
    → IsMap m
    → Without owner peer m (remove_all (names_of owner peer m) m)
remove_all-Without owner peer m i = record {
  gone = λ tid x h own. elim (Bool-cases (contains tid (names_of owner peer m))) [
    | inl q ↦ none-ne-some x (sym (remove_all-named (names_of owner peer m) tid m q) ∙ h)
    | inr q ↦
        (let held = sym (remove_all-other (names_of owner peer m) tid m q) ∙ h in
          ground (arith, q, names_of-own owner peer m tid x held own))
  ];
  kept = λ tid x h ne. elim (Bool-cases (contains tid (names_of owner peer m))) [
    | inl q ↦ absurd (ne (names_of_sound owner peer m tid x i h q))
    | inr q ↦ remove_all-other (names_of owner peer m) tid m q ∙ h
  ];
}

abbrev pub IsCancelled : ℕ → Transfers → Transfers → Type 0
IsCancelled peer t t' =
    Without sent_to peer t.outgoing t'.outgoing × Without sent_by peer t.incoming t'.incoming

cancel_peer_transfers-IsCancelled :
    (peer : ℕ) (t : Transfers)
    → IsMap t.outgoing
    → IsMap t.incoming
    → IsCancelled peer t (cancel_peer_transfers peer t).1
unfolding cancel_peer_transfers
cancel_peer_transfers-IsCancelled peer t i j =
    (remove_all-Without sent_to peer t.outgoing i, remove_all-Without sent_by peer t.incoming j)

-- No session and no waiter is left under two ids of a peer. Held messages and transfers go with the
-- first id only: those under the second one stay, as all others do.
pub record Forgotten {Inner : Type 0} (peer other : ℕ) (t t' : Shared Inner) : Type 0 where
  pub no_session : (get peer t'.peers ≡ none) × (get other t'.peers ≡ none)
  pub no_waiter : (get peer t'.waits ≡ none) × (get other t'.waits ≡ none)
  pub none_held : get peer t'.held_inbound ≡ none
  pub transfers : IsCancelled peer t.transfers t'.transfers
  pub sessions :
      (k : ℕ)
      → k ≢ peer
      → k ≢ other
      → (get k t'.peers ≡ get k t.peers) × (get k t'.waits ≡ get k t.waits)
  pub held : (k : ℕ) → k ≢ peer → get k t'.held_inbound ≡ get k t.held_inbound

module _ {V : Type 0} (a b : ℕ) (m : List (ℕ × V)) where
  get-remove_both : (get a (remove b (remove a m)) ≡ none) × (get b (remove b (remove a m)) ≡ none)
  get-remove_both = (
    rw (get-remove b a (remove a m), get-remove a a m, ==_refl a) (ground arith),
    rw (get-remove b b (remove a m), ==_refl b) refl,
  )

  get-remove_other : (k : ℕ) → k ≢ a → k ≢ b → get k (remove b (remove a m)) ≡ get k m
  get-remove_other k x y =
      rw
        (
          get-remove b k (remove a m),
          get-remove a k m,
          ==_false a k (λ e. x (sym e)),
          ==_false b k (λ e. y (sym e)),
        )
        refl

get-remove_one : {V : Type 0} (a k : ℕ) (m : List (ℕ × V)) → k ≢ a → get k (remove a m) ≡ get k m
get-remove_one a k m x = rw (get-remove a k m, ==_false a k (λ e. x (sym e))) refl

-- What the dropping of a link leaves alone.
record Keeps {Inner : Type 0} (t u : Shared Inner) : Type 0 where
  peers : u.peers ≡ t.peers
  waits : u.waits ≡ t.waits
  held_inbound : u.held_inbound ≡ t.held_inbound
  transfers : u.transfers ≡ t.transfers

drop_link-Keeps :
    {Inner : Type 0} (peer resolved : ℕ) (found : Option (PeerSession Inner)) (t : Shared Inner)
    → Keeps t (drop_link peer resolved found t).1
drop_link-Keeps peer resolved none t = record {
  peers = refl;
  waits = refl;
  held_inbound = refl;
  transfers = refl;
}
drop_link-Keeps peer resolved (some s) t = elim (Bool-cases (is_serial s.transport)) [
  | inl q ↦ (elim (Option-cases t.serial_link) [
    | inl e ↦
        rw (q, drop_link)
          (rw (e, drop_link)
            (record { peers = refl; waits = refl; held_inbound = refl; transfers = refl }))
    | inr (link, e) ↦
        rw (q, drop_link)
          (rw (e, drop_link)
            (record { peers = refl; waits = refl; held_inbound = refl; transfers = refl }))
  ])
  | inr q ↦
      rw (q, drop_link)
        (record { peers = refl; waits = refl; held_inbound = refl; transfers = refl })
]

module _ {Inner : Type 0} (t : Shared Inner) (i : IsMap t.transfers.outgoing)
    (j : IsMap t.transfers.incoming) where
  lose_peer-Forgotten :
      (peer conn : ℕ) (registry : IrohTransport)
      → Forgotten peer conn t (lose_peer peer conn (record t { iroh = registry })).1
  unfolding lose_peer
  lose_peer-Forgotten peer conn registry = record {
    no_session = get-remove_both peer conn t.peers;
    no_waiter = get-remove_both peer conn t.waits;
    none_held = rw (get-remove peer peer t.held_inbound, ==_refl peer) refl;
    transfers = cancel_peer_transfers-IsCancelled peer t.transfers i j;
    sessions = λ k x y.
        (get-remove_other peer conn t.peers k x y, get-remove_other peer conn t.waits k x y);
    held = λ k x. get-remove_one peer k t.held_inbound x;
  }

  on_connection_lost-Forgotten :
      (peer conn stable_id : ℕ)
      → contains peer t.user_paused ≡ false
      → Forgotten peer conn t (on_connection_lost peer conn stable_id t).1
  unfolding on_connection_lost
  on_connection_lost-Forgotten peer conn stable_id h = rw h (lose_peer-Forgotten peer conn _)

  torn_down :
      (peer resolved : ℕ) (paused : List ℕ) (u : Shared Inner)
      → u.peers ≡ t.peers
      → u.waits ≡ t.waits
      → u.held_inbound ≡ t.held_inbound
      → u.transfers ≡ (cancel_peer_transfers resolved t.transfers).1
      → Forgotten resolved peer t (record u {
        peers = remove peer (remove resolved u.peers);
        waits = remove peer (remove resolved u.waits);
        held_inbound = remove resolved u.held_inbound;
        user_paused = paused;
      })
  torn_down peer resolved paused u a b c d = record {
    no_session = get-remove_both resolved peer u.peers;
    no_waiter = get-remove_both resolved peer u.waits;
    none_held = rw (get-remove resolved resolved u.held_inbound, ==_refl resolved) refl;
    transfers = rw d (cancel_peer_transfers-IsCancelled resolved t.transfers i j);
    sessions = λ k x y. (
      get-remove_other resolved peer u.peers k x y ∙ ap (get k) a,
      get-remove_other resolved peer u.waits k x y ∙ ap (get k) b,
    );
    held = λ k x. get-remove_one resolved k u.held_inbound x ∙ ap (get k) c;
  }

  teardown_peer_session-Forgotten :
      (n : PeerNames) (peer : ℕ) (user : Bool)
      → Forgotten
          (or_itself peer (resolve_peer_id n peer t))
          peer
          t
          (teardown_peer_session n peer user t).1
  unfolding teardown_peer_session
  teardown_peer_session-Forgotten n peer user =
      let resolved = or_itself peer (resolve_peer_id n peer t) in
      let cancelled : Shared Inner = record t {
        transfers = (cancel_peer_transfers resolved t.transfers).1;
      } in
      let k = drop_link-Keeps peer resolved (get resolved t.peers) cancelled in
      torn_down peer resolved _ (drop_link peer resolved (get resolved t.peers) cancelled).1 k.peers
        k.waits k.held_inbound k.transfers

  -- When the maps of the transfers hold no key twice, then after the connection of a peer is lost,
  -- unless the user has paused the peer, no session and no waiter stands under the peer's id and
  -- the connection's id, no message is held and no transfer is listed under the peer's id; what is
  -- held or listed under any other id, the connection's included, is as before, and so are the
  -- sessions and waiters under all ids but these two. The same holds after a session is torn down,
  -- of the id to which the given one resolves, as the peer's, and the given one, as the
  -- connection's.
  pub peer-Forgotten :
      (n : PeerNames) (peer conn stable_id : ℕ) (user : Bool)
      → contains peer t.user_paused ≡ false
      → Forgotten peer conn t (on_connection_lost peer conn stable_id t).1
        × Forgotten
            (or_itself peer (resolve_peer_id n peer t))
            peer
            t
            (teardown_peer_session n peer user t).1
  peer-Forgotten n peer conn stable_id user h = (
    on_connection_lost-Forgotten peer conn stable_id h,
    teardown_peer_session-Forgotten n peer user,
  )
