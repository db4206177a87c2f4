-- ===== src/Network/Glare.antt =====
-- core/src/network/iroh_transport.rs: two peers that dial each other at the same time keep the same
-- connection.
use srltcpv.Base.{
  ℕ, ◌≡◌, ◌≢◌, ◌⊎◌, refl, ap, ◌∙◌, sym, inl, inr, Bool, true, false, not, none, some, Bytes,
  ==_false, ==_refl, if◌then◌else◌, Bool-cases,
}
use srltcpv.Base.Assoc.{get, get-insert}
use srltcpv.Base.NumSet.{contains}
use srltcpv.Crypto.Sas.{lex_lt}
use srltcpv.Crypto.Secrets.{lex_lt_asym, lex_lt_total}
use srltcpv.Network.{
  Connection, ConnEntry, IrohTransport, RegisterOutcome, registered, register, register_over, store,
  close, differs, existing_wins,
}

-- One side before the two connections are registered: its endpoint is bound, no connection to the peer is
-- registered, the two connections are to the endpoint `remote`, and the first one is not closed.
pub record Dialing (local remote : Bytes) (peer : ℕ) (first second : Connection) (t : IrohTransport)
    : Type 0 where
  pub bound : t.endpoint ≡ some local
  pub absent : get peer t.connections ≡ none
  pub first_remote : first.remote_id ≡ remote
  pub second_remote : second.remote_id ≡ remote
  pub distinct : first.stable_id ≢ second.stable_id
  pub first_live : contains first.stable_id t.closed ≡ false
  pub others : local ≢ remote

get-store :
    (peer : ℕ) (e : ConnEntry) (t : IrohTransport) → get peer (store peer e t).connections ≡ some e
get-store peer e t = rw (get-insert peer peer e t.connections, ==_refl peer) refl

-- A live connection of the other direction gives way unless it wins the tie-break.
get-register_over :
    (peer : ℕ) (existing entry : ConnEntry) (t : IrohTransport) (w : Bool)
    → get peer t.connections ≡ some existing
    → existing.conn.stable_id ≢ entry.conn.stable_id
    → contains existing.conn.stable_id t.closed ≡ false
    → differs existing.outbound entry.outbound ≡ true
    → existing_wins t.endpoint entry.conn.remote_id existing.outbound entry.outbound ≡ w
    → get peer (register_over peer existing entry t).1.connections
      ≡ some (if w then existing else entry)
unfolding register_over
get-register_over peer existing entry t true held ne live opposite wins =
    rw (==_false existing.conn.stable_id entry.conn.stable_id ne, live, opposite, wins) held
get-register_over peer existing entry t false held ne live opposite wins =
    rw (==_false existing.conn.stable_id entry.conn.stable_id ne, live, opposite, wins)
      (get-store peer entry (close existing.conn t))

module _ (local remote : Bytes) (peer : ℕ) (first second : Connection) (t : IrohTransport) where
  -- The connection of this side that was dialed (`true`) or accepted (`false`).
  abbrev pub after_both : Bool → IrohTransport
  after_both outbound = (register peer second (not outbound) (register peer first outbound t).1).1

  lex_lt_of_not : local ≢ remote → lex_lt remote local ≡ false → lex_lt local remote ≡ true
  lex_lt_of_not ne h = elim (Bool-cases (lex_lt local remote)) [
    | inl e ↦ e
    | inr e ↦ absurd (ne (lex_lt_total local remote e h))
  ]

  abbrev entry_of : Connection → Bool → ConnEntry
  entry_of conn outbound = record { conn = conn; outbound = outbound }

  first_registered :
      (outbound : Bool)
      → get peer t.connections ≡ none
      → register peer first outbound t ≡ (registered, store peer (entry_of first outbound) t)
  unfolding register
  first_registered outbound e = rw (e, register) refl

  second_registered :
      (outbound : Bool)
      → register peer second (not outbound) (store peer (entry_of first outbound) t)
        ≡ register_over peer
            (entry_of first outbound)
            (entry_of second (not outbound))
            (store peer (entry_of first outbound) t)
  unfolding register
  second_registered outbound = rw (get-store peer (entry_of first outbound) t, register) refl

  kept : Bool → ConnEntry
  kept true = if lex_lt local remote then entry_of first true else entry_of second false
  kept false = if lex_lt remote local then entry_of first false else entry_of second true

  after_both-eq :
      (outbound : Bool)
      → get peer t.connections ≡ none
      → after_both outbound
        ≡ (register_over peer
            (entry_of first outbound)
            (entry_of second (not outbound))
            (store peer (entry_of first outbound) t)).1
  after_both-eq outbound absent =
      ap (λ (x : RegisterOutcome × IrohTransport). (register peer second (not outbound) (x.1)).1)
        (first_registered outbound absent)
      ∙ ap (λ (x : RegisterOutcome × IrohTransport). x.1) (second_registered outbound)

  get-after_both :
      (outbound : Bool)
      → Dialing local remote peer first second t
      → get peer (after_both outbound).connections ≡ some (kept outbound)
  unfolding kept
  get-after_both true d =
      ap (λ (x : IrohTransport). get peer x.connections) (after_both-eq true d.absent)
      ∙ get-register_over peer (entry_of first true) (entry_of second false)
          (store peer (entry_of first true) t) (lex_lt local remote)
          (get-store peer (entry_of first true) t) d.distinct d.first_live refl
          (rw (d.bound, d.second_remote) refl)
  get-after_both false d =
      ap (λ (x : IrohTransport). get peer x.connections) (after_both-eq false d.absent)
      ∙ get-register_over peer (entry_of first false) (entry_of second true)
          (store peer (entry_of first false) t) (lex_lt remote local)
          (get-store peer (entry_of first false) t) d.distinct d.first_live refl
          (rw (d.bound, d.second_remote) refl)

  -- Whichever is registered first, the connection kept is one dialed here exactly if the own id is
  -- the smaller.
  kept_outbound :
      (outbound : Bool) → local ≢ remote → (kept outbound).outbound ≡ lex_lt local remote
  unfolding kept
  kept_outbound true ne = elim (Bool-cases (lex_lt local remote)) [
    | inl e ↦ rw (e, kept) refl
    | inr e ↦ rw (e, kept) refl
  ]
  kept_outbound false ne = elim (Bool-cases (lex_lt remote local)) [
    | inl e ↦ rw (e, kept) (sym (lex_lt_asym remote local e))
    | inr e ↦ rw (e, kept) (sym (lex_lt_of_not ne e))
  ]

-- What one side keeps.
pub record KeepsDialed (peer : ℕ) (dialed : Bool) (t : IrohTransport) : Type 0 where
  pub entry : ConnEntry
  pub held : get peer t.connections ≡ some entry
  pub direction : entry.outbound ≡ dialed

-- Two endpoints with different ids dial each other, so each side has a connection that it dialed
-- and one that it accepted. Whichever of the two each side registers first, if the first is still
-- open when the second is registered, both sides keep the connection that the endpoint with the
-- smaller id dialed: one side keeps its dialed one exactly if the other keeps its accepted one.
pub glare-converges :
    (a b : Bytes) (peer_a peer_b : ℕ) (first_a second_a first_b second_b : Connection)
    (t_a t_b : IrohTransport) (outbound_a outbound_b : Bool)
    → Dialing a b peer_a first_a second_a t_a
    → Dialing b a peer_b first_b second_b t_b
    → KeepsDialed peer_a (lex_lt a b) (after_both a b peer_a first_a second_a t_a outbound_a)
      × KeepsDialed peer_b
          (not (lex_lt a b))
          (after_both b a peer_b first_b second_b t_b outbound_b)
glare-converges a b peer_a peer_b first_a second_a first_b second_b t_a t_b outbound_a outbound_b d
      e =
    (
      record {
        entry = kept a b peer_a first_a second_a t_a outbound_a;
        held = get-after_both a b peer_a first_a second_a t_a outbound_a d;
        direction = kept_outbound a b peer_a first_a second_a t_a outbound_a d.others;
      },
      record {
        entry = kept b a peer_b first_b second_b t_b outbound_b;
        held = get-after_both b a peer_b first_b second_b t_b outbound_b e;
        direction =
            kept_outbound b a peer_b first_b second_b t_b outbound_b e.others
            ∙ opposite (Bool-cases (lex_lt a b));
      },
    )
  where
    opposite : (lex_lt a b ≡ true) ⊎ (lex_lt a b ≡ false) → lex_lt b a ≡ not (lex_lt a b)
    opposite (inl h) = rw (h, lex_lt_asym a b h) refl
    opposite (inr h) = rw h (lex_lt_of_not b a peer_b first_b second_b t_b e.others h)
