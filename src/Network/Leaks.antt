-- ===== src/Network/Leaks.antt =====
-- core/src/network/iroh_transport.rs: no connection is forgotten while it is open.
use srltcpv.Base.{
  ℕ, ◌≡◌, ◌∙◌, ◌⊎◌, refl, sym, inl, inr, Bool, true, false, none, some, List, [], ◌∷◌, Bytes, ◌==◌,
  ==_iff, if◌then◌else◌, Bool-cases, Option-cases, arith,
}
use srltcpv.Base.Assoc.{get, remove, get-remove}
use srltcpv.Base.NumSet.{contains, insert as add}
use mathlib.Core.Option.{some_inj, none-ne-some}
use srltcpv.Network.{
  Connection, ConnEntry, IrohTransport, new_transport, bind, mark_online, register, unregister,
  unregister_if_current, rekey, move_entry, store, close, close_all, shutdown,
}
use srltcpv.Network.Accounted.{
  Accounted, is_closed, is_current, closed_stays, closed_itself_lem, close-Accounted, closed_itself,
  store-Accounted, stored_itself, replace-Accounted, register-Accounted,
}

abbrev without : ℕ → IrohTransport → IrohTransport
without peer t = record t { connections = remove peer t.connections }

without-Accounted :
    (id peer : ℕ) (entry : ConnEntry) (t : IrohTransport)
    → get peer t.connections ≡ some entry
    → Accounted id t
    → (Accounted id (without peer t)) ⊎ (entry.conn.stable_id ≡ id)
without-Accounted id peer entry t held (is_closed h) = inl (is_closed h)
without-Accounted id peer entry t held (is_current k e h same) = elim (Bool-cases (peer == k)) [
  | inl q ↦
      (let key : peer ≡ k = (==_iff peer k).0 q in
        let eq : some entry ≡ some e = sym held ∙ rw key h in inr (rw (some_inj.0 eq) same))
  | inr q ↦ inl (is_current k e (rw (get-remove peer k t.connections, q) h) same)
]

unregister-Accounted :
    (id peer : ℕ) (t : IrohTransport) → Accounted id t → Accounted id (unregister peer t)
unfolding unregister
unregister-Accounted id peer t h = elim (Option-cases (get peer t.connections)) [
  | inl absent ↦ rw (absent, unregister) h
  | inr (entry, held) ↦
      rw (held, unregister) (closed entry (without-Accounted id peer entry t held h))
]
  where
    closed :
        (entry : ConnEntry)
        → (Accounted id (without peer t)) ⊎ (entry.conn.stable_id ≡ id)
        → Accounted id (close entry.conn (without peer t))
    closed entry (inl a) = close-Accounted id entry.conn (without peer t) a
    closed entry (inr e) = rw (← e) (closed_itself entry.conn (without peer t))

unregister_if_current-Accounted :
    (id peer stable_id : ℕ) (t : IrohTransport)
    → Accounted id t
    → Accounted id (unregister_if_current peer stable_id t).1
unfolding unregister_if_current
unregister_if_current-Accounted id peer stable_id t h =
    elim (Option-cases (get peer t.connections)) [
      | inl absent ↦ rw (absent, unregister_if_current) h
      | inr (entry, held) ↦
          rw (held, unregister_if_current)
            (if-Accounted-any (entry.conn.stable_id == stable_id)
              (unregister-Accounted id peer t h))
    ]
  where
    if-Accounted-any :
        (b : Bool)
        → Accounted id (unregister peer t)
        → Accounted id
            (if◌then◌else◌ {A = Bool × IrohTransport} b (true, unregister peer t) (false, t)).1
    if-Accounted-any true a = a
    if-Accounted-any false a = h

move_entry-Accounted :
    (id new_id : ℕ) (entry : ConnEntry) (t : IrohTransport)
    → (Accounted id t) ⊎ (entry.conn.stable_id ≡ id)
    → Accounted id (move_entry new_id entry t)
unfolding move_entry
move_entry-Accounted id new_id entry t h = elim (Option-cases (get new_id t.connections)) [
  | inl absent ↦ rw (absent, move_entry) (vacant absent h)
  | inr (prev, held) ↦
      rw (held, move_entry)
        (moved prev (Bool-cases (prev.conn.stable_id == entry.conn.stable_id)) held)
]
  where
    vacant :
        get new_id t.connections ≡ none
        → (Accounted id t) ⊎ (entry.conn.stable_id ≡ id)
        → Accounted id (store new_id entry t)
    vacant absent (inl a) =
        store-Accounted id new_id entry t (λ old e. absurd (none-ne-some old (sym absent ∙ e))) a
    vacant absent (inr e) = rw (← e) (stored_itself new_id entry t)

    stored :
        (prev : ConnEntry)
        → prev.conn.stable_id ≡ entry.conn.stable_id
        → get new_id t.connections ≡ some prev
        → (Accounted id t) ⊎ (entry.conn.stable_id ≡ id)
        → Accounted id (store new_id entry t)
    stored prev same held (inl a) =
        store-Accounted id new_id entry t
          (λ old e.
            let eq : some prev ≡ some old = sym held ∙ e in
            rw (← some_inj.0 eq, same) (stored_itself new_id entry t))
          a
    stored prev same held (inr e) = rw (← e) (stored_itself new_id entry t)

    moved :
        (prev : ConnEntry)
        → ((prev.conn.stable_id == entry.conn.stable_id) ≡ true)
          ⊎ ((prev.conn.stable_id == entry.conn.stable_id) ≡ false)
        → get new_id t.connections ≡ some prev
        → Accounted id (
            if prev.conn.stable_id == entry.conn.stable_id
            then store new_id entry t
            else close prev.conn (store new_id entry t))
    moved prev (inl q) held =
        rw q (stored prev ((==_iff prev.conn.stable_id entry.conn.stable_id).0 q) held h)
    moved prev (inr q) held = rw q (replace-Accounted id new_id prev entry t held h)

rekey-Accounted :
    (id old_id new_id : ℕ) (t : IrohTransport)
    → Accounted id t
    → Accounted id (rekey old_id new_id t)
unfolding rekey
rekey-Accounted id old_id new_id t h = elim (Option-cases (get old_id t.connections)) [
  | inl absent ↦ rw (absent, rekey) h
  | inr (entry, held) ↦
      rw (held, rekey)
        (move_entry-Accounted id new_id entry (without old_id t)
          (without-Accounted id old_id entry t held h))
]

-- Shutting down keeps what is closed and closes what is registered.
contains-close_all :
    (id : ℕ) (m : List (ℕ × ConnEntry)) (closed : List ℕ)
    → contains id closed ≡ true
    → contains id (close_all m closed) ≡ true
unfolding close_all
contains-close_all id [] closed h = h
contains-close_all id ((peer, entry) ∷ m) closed h =
    contains-close_all id m (add entry.conn.stable_id closed) (closed_stays id entry.conn closed h)

close_all-registered :
    (peer : ℕ) (entry : ConnEntry) (m : List (ℕ × ConnEntry)) (closed : List ℕ)
    → get peer m ≡ some entry
    → contains entry.conn.stable_id (close_all m closed) ≡ true
unfolding close_all get
close_all-registered peer entry [] closed h = absurd (none-ne-some entry h)
close_all-registered peer entry ((k, e) ∷ m) closed h = elim (Bool-cases (k == peer)) [
  | inl q ↦
      (let held : some e ≡ some entry = ground (arith) in
        rw (← some_inj.0 held) (
          contains-close_all e.conn.stable_id m (add e.conn.stable_id closed)
            (closed_itself_lem e.conn (record new_transport { closed = closed }))))
  | inr q ↦ close_all-registered peer entry m (add e.conn.stable_id closed) (ground (arith))
]

shutdown-Accounted : (id : ℕ) (t : IrohTransport) → Accounted id t → Accounted id (shutdown t)
unfolding shutdown
shutdown-Accounted id t (is_closed h) = is_closed (contains-close_all id t.connections t.closed h)
shutdown-Accounted id t (is_current peer entry held same) =
    is_closed (rw (← same) (close_all-registered peer entry t.connections t.closed held))

renamed-Accounted :
    (id : ℕ) (t t' : IrohTransport)
    → t'.closed ≡ t.closed
    → t'.connections ≡ t.connections
    → Accounted id t
    → Accounted id t'
renamed-Accounted id t t' c m (is_closed h) = is_closed (rw c h)
renamed-Accounted id t t' c m (is_current peer entry held same) =
    is_current peer entry (rw m held) same

-- A run of the registry from its start, with the stable ids of the connections handed to it.
pub data Run : List ℕ → IrohTransport → Type 0 where
  started : Run [] new_transport
  binds : {ids : List ℕ} {t : IrohTransport} (id : Bytes) → Run ids t → Run ids (bind id t)
  goes_online : {ids : List ℕ} {t : IrohTransport} → Run ids t → Run ids (mark_online t)
  registers :
      {ids : List ℕ} {t : IrohTransport} (peer : ℕ) (conn : Connection) (outbound : Bool)
      → Run ids t
      → Run (conn.stable_id ∷ ids) (register peer conn outbound t).1
  unregisters :
      {ids : List ℕ} {t : IrohTransport} (peer : ℕ) → Run ids t → Run ids (unregister peer t)
  unregisters_current :
      {ids : List ℕ} {t : IrohTransport} (peer stable_id : ℕ)
      → Run ids t
      → Run ids (unregister_if_current peer stable_id t).1
  rekeys :
      {ids : List ℕ} {t : IrohTransport} (old_id new_id : ℕ)
      → Run ids t
      → Run ids (rekey old_id new_id t)
  remote_closes :
      {ids : List ℕ} {t : IrohTransport} (conn : Connection) → Run ids t → Run ids (close conn t)
  shuts_down : {ids : List ℕ} {t : IrohTransport} → Run ids t → Run ids (shutdown t)

-- After any calls on a new registry, closing by the remote side included, every connection that was
-- ever registered is closed or is the current connection of some peer.
pub Run-Accounted :
    (ids : List ℕ) (t : IrohTransport)
    → Run ids t
    → (id : ℕ) → contains id ids ≡ true
    → Accounted id t
unfolding contains
Run-Accounted ids t started id h = ground arith
Run-Accounted ids t' (binds {t = t} b r) id h =
    renamed-Accounted id t (record t { endpoint = some b }) refl refl (Run-Accounted ids t r id h)
Run-Accounted ids t' (goes_online {t = t} r) id h =
    renamed-Accounted id t (record t { online = true }) refl refl (Run-Accounted ids t r id h)
Run-Accounted ids t' (registers {ids = ids_before} {t = t} peer conn outbound r) id h =
    register-Accounted id peer conn outbound t
      (earlier (Bool-cases (conn.stable_id == id)) (λ k. Run-Accounted ids_before t r id k))
  where
    earlier :
        ((conn.stable_id == id) ≡ true) ⊎ ((conn.stable_id == id) ≡ false)
        → (contains id ids_before ≡ true → Accounted id t)
        → (Accounted id t) ⊎ (conn.stable_id ≡ id)
    earlier (inl q) before = inr ((==_iff conn.stable_id id).0 q)
    earlier (inr q) before = inl (before (ground arith))
Run-Accounted ids t' (unregisters {t = t} peer r) id h =
    unregister-Accounted id peer t (Run-Accounted ids t r id h)
Run-Accounted ids t' (unregisters_current {t = t} peer stable_id r) id h =
    unregister_if_current-Accounted id peer stable_id t (Run-Accounted ids t r id h)
Run-Accounted ids t' (rekeys {t = t} old_id new_id r) id h =
    rekey-Accounted id old_id new_id t (Run-Accounted ids t r id h)
Run-Accounted ids t' (remote_closes {t = t} conn r) id h =
    close-Accounted id conn t (Run-Accounted ids t r id h)
Run-Accounted ids t' (shuts_down {t = t} r) id h =
    shutdown-Accounted id t (Run-Accounted ids t r id h)
