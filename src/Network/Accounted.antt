-- ===== src/Network/Accounted.antt =====
-- core/src/network/iroh_transport.rs: what becomes of a connection that was registered.
use srltcpv.Base.{
  ℕ, ◌≡◌, ◌∙◌, ◌&&◌, ◌⊎◌, refl, sym, inl, inr, Bool, true, false, none, some, List, ◌==◌, ==_iff,
  ==_refl, if◌then◌else◌, Bool-cases, Option-cases, arith,
}
use srltcpv.Base.Assoc.{get, get-insert}
use srltcpv.Base.NumSet.{contains, contains-insert, insert as add}
use mathlib.Core.Option.{some_inj, none-ne-some}
use srltcpv.Network.{
  Connection, ConnEntry, IrohTransport, RegisterOutcome, register, register_over, is_live, differs,
  existing_wins, store, close,
}

-- A connection is closed, or the current one of some peer.
pub data Accounted (id : ℕ) (t : IrohTransport) : Type 0 where
  is_closed : contains id t.closed ≡ true → Accounted id t
  is_current :
      (peer : ℕ) (entry : ConnEntry)
      → get peer t.connections ≡ some entry
      → entry.conn.stable_id ≡ id
      → Accounted id t

pub closed_stays :
    (id : ℕ) (c : Connection) (closed : List ℕ)
    → contains id closed ≡ true
    → contains id (add c.stable_id closed) ≡ true
closed_stays id c closed h = rw (contains-insert c.stable_id id closed, h) (ground arith)

pub close-Accounted :
    (id : ℕ) (c : Connection) (t : IrohTransport) → Accounted id t → Accounted id (close c t)
close-Accounted id c t (is_closed h) = is_closed (closed_stays id c t.closed h)
close-Accounted id c t (is_current peer entry held e) = is_current peer entry held e

pub closed_itself_lem :
    (c : Connection) (t : IrohTransport) → contains c.stable_id (close c t).closed ≡ true
closed_itself_lem c t =
    rw (contains-insert c.stable_id c.stable_id t.closed, ==_refl c.stable_id) refl

pub closed_itself : (c : Connection) (t : IrohTransport) → Accounted c.stable_id (close c t)
closed_itself c t = is_closed (closed_itself_lem c t)

-- The peer's entry may change if its connection is closed or stays.
pub store-Accounted :
    (id peer : ℕ) (entry : ConnEntry) (t : IrohTransport)
    → ((old : ConnEntry)
        → get peer t.connections ≡ some old
        → Accounted old.conn.stable_id (store peer entry t))
    → Accounted id t
    → Accounted id (store peer entry t)
store-Accounted id peer entry t old (is_closed h) = is_closed h
store-Accounted id peer entry t old (is_current k e held same) = elim (Bool-cases (peer == k)) [
  | inl q ↦ (let key : peer ≡ k = (==_iff peer k).0 q in rw (← same) (old e (rw key held)))
  | inr q ↦ is_current k e (rw (get-insert peer k entry t.connections, q) held) same
]

pub stored_itself :
    (peer : ℕ) (entry : ConnEntry) (t : IrohTransport)
    → Accounted entry.conn.stable_id (store peer entry t)
stored_itself peer entry t =
    is_current peer entry (rw (get-insert peer peer entry t.connections, ==_refl peer) refl) refl

-- The new connection takes the place of one that is closed.
pub replace-Accounted :
    (id peer : ℕ) (existing entry : ConnEntry) (t : IrohTransport)
    → get peer t.connections ≡ some existing
    → (Accounted id t) ⊎ (entry.conn.stable_id ≡ id)
    → Accounted id (store peer entry (close existing.conn t))
replace-Accounted id peer existing entry t held (inl h) =
    store-Accounted id peer entry (close existing.conn t)
      (λ old e.
        rw (← some_inj.0 (sym held ∙ e))
          (is_closed (closed_fact (closed_itself_lem existing.conn t))))
      (close-Accounted id existing.conn t h)
  where
    closed_fact :
        contains existing.conn.stable_id (close existing.conn t).closed ≡ true
        → contains existing.conn.stable_id (store peer entry (close existing.conn t)).closed ≡ true
    closed_fact h = h
replace-Accounted id peer existing entry t held (inr e) =
    rw (← e) (stored_itself peer entry (close existing.conn t))

if-Accounted :
    (id : ℕ) (b : Bool) (x y : RegisterOutcome × IrohTransport)
    → Accounted id x.1
    → Accounted id y.1
    → Accounted id (if b then x else y).1
if-Accounted id true x y p q = p
if-Accounted id false x y p q = q

register_over-Accounted :
    (id peer : ℕ) (existing entry : ConnEntry) (t : IrohTransport)
    → get peer t.connections ≡ some existing
    → (Accounted id t) ⊎ (entry.conn.stable_id ≡ id)
    → Accounted id (register_over peer existing entry t).1
unfolding register_over
register_over-Accounted id peer existing entry t held h =
    elim (Bool-cases (existing.conn.stable_id == entry.conn.stable_id)) [
      | inl q ↦ rw q (same h ((==_iff existing.conn.stable_id entry.conn.stable_id).0 q))
      | inr q ↦ rw q (
          if-Accounted id (is_live t existing.conn && differs existing.outbound entry.outbound) _ _
            (if-Accounted id
              (existing_wins t.endpoint entry.conn.remote_id existing.outbound entry.outbound) _ _
              (reject h) replaced)
            replaced)
    ]
  where
    same :
        (Accounted id t) ⊎ (entry.conn.stable_id ≡ id)
        → existing.conn.stable_id ≡ entry.conn.stable_id
        → Accounted id t
    same (inl a) e = a
    same (inr f) e = is_current peer existing held (e ∙ f)

    reject : (Accounted id t) ⊎ (entry.conn.stable_id ≡ id) → Accounted id (close entry.conn t)
    reject (inl a) = close-Accounted id entry.conn t a
    reject (inr f) = rw (← f) (closed_itself entry.conn t)

    replaced : Accounted id (store peer entry (close existing.conn t))
    replaced = replace-Accounted id peer existing entry t held h

pub register-Accounted :
    (id peer : ℕ) (conn : Connection) (outbound : Bool) (t : IrohTransport)
    → (Accounted id t) ⊎ (conn.stable_id ≡ id)
    → Accounted id (register peer conn outbound t).1
unfolding register
register-Accounted id peer conn outbound t h = elim (Option-cases (get peer t.connections)) [
  | inl absent ↦ rw (absent, register) (stored absent h)
  | inr (existing, held) ↦
      rw (held, register)
        (register_over-Accounted id peer existing (record { conn = conn; outbound = outbound }) t
          held h)
]
  where
    stored :
        get peer t.connections ≡ none
        → (Accounted id t) ⊎ (conn.stable_id ≡ id)
        → Accounted id (store peer (record { conn = conn; outbound = outbound }) t)
    stored absent (inl a) =
        store-Accounted id peer (record { conn = conn; outbound = outbound }) t
          (λ old e. absurd (none-ne-some old (sym absent ∙ e))) a
    stored absent (inr e) =
        rw (← e) (stored_itself peer (record { conn = conn; outbound = outbound }) t)
