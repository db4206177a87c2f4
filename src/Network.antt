-- ===== src/Network.antt =====
-- core/src/network/iroh_transport.rs: the registry of connections. A peer id is a number that
-- stands for the string; a connection is its stable id and the endpoint id of the remote side. The
-- endpoint, the streams and the DNS set-up are calls of the iroh crate.
mod Accounted
pub mod Glare
pub mod Leaks
mod Tests
use srltcpv.Base.{
  ℕ, ◌*◌, Bool, true, false, not, ◌&&◌, Option, none, some, List, [], ◌∷◌, ◌++◌, Bytes, length, ltb,
  ◌==◌, if◌then◌else◌, Result, ok, err,
}
use srltcpv.Base.Assoc.{get, insert, remove}
use srltcpv.Base.NumSet.{contains, insert as add}
use srltcpv.Crypto.Sas.{lex_lt}

abbrev pub max_frame_bytes : ℕ
max_frame_bytes = 16 * 1024 * 1024

pub data IrohError : Type 0 where
  peer_not_found connection_error : IrohError

pub record Connection : Type 0 where
  pub stable_id : ℕ
  pub remote_id : Bytes

pub record ConnEntry : Type 0 where
  pub conn : Connection
  pub outbound : Bool

pub data RegisterOutcome : Type 0 where
  registered replaced_live rejected : RegisterOutcome

-- `endpoint` is the id of the bound endpoint. `closed` are the stable ids of the connections that
-- either side has closed: those with a `close_reason`.
pub record IrohTransport : Type 0 where
  pub endpoint : Option Bytes
  pub connections : List (ℕ × ConnEntry)
  pub online : Bool
  pub closed : List ℕ

abbrev pub new_transport : IrohTransport
new_transport = record { endpoint = none; connections = []; online = false; closed = [] }

-- `bind` of an endpoint with this id.
abbrev pub bind : Bytes → IrohTransport → IrohTransport
bind id t = record t { endpoint = some id }

abbrev pub mark_online : IrohTransport → IrohTransport
mark_online t = record t { online = true }

abbrev pub is_bound : IrohTransport → Bool
is_bound t = elim t.endpoint [ none ↦ false | some id ↦ true ]

abbrev pub is_online : IrohTransport → Bool
is_online t = is_bound t && t.online

abbrev pub is_live : IrohTransport → Connection → Bool
is_live t c = not (contains c.stable_id t.closed)

abbrev pub close : Connection → IrohTransport → IrohTransport
close c t = record t { closed = add c.stable_id t.closed }

-- The endpoint that dialed a connection.
abbrev pub dialer : Bytes → Bytes → Bool → Bytes
dialer local remote outbound = if outbound then local else remote

-- Whether the existing connection wins the tie-break.
abbrev pub existing_wins : Option Bytes → Bytes → Bool → Bool → Bool
existing_wins none remote existing outbound = false
existing_wins (some local) remote existing outbound =
    lex_lt (dialer local remote existing) (dialer local remote outbound)

abbrev pub differs : Bool → Bool → Bool
differs true b = not b
differs false b = b

abbrev pub store : ℕ → ConnEntry → IrohTransport → IrohTransport
store peer entry t = record t { connections = insert peer entry t.connections }

-- The case of a connection that is registered already.
unfoldable pub register_over :
    ℕ → ConnEntry → ConnEntry → IrohTransport → RegisterOutcome × IrohTransport
register_over peer existing entry t =
    if existing.conn.stable_id == entry.conn.stable_id
    then (registered, t)
    else if is_live t existing.conn && differs existing.outbound entry.outbound
    then (if existing_wins t.endpoint entry.conn.remote_id existing.outbound entry.outbound
        then (rejected, close entry.conn t)
        else (replaced_live, store peer entry (close existing.conn t)))
    else (registered, store peer entry (close existing.conn t))

unfoldable pub register : ℕ → Connection → Bool → IrohTransport → RegisterOutcome × IrohTransport
register peer conn outbound t =
    let entry : ConnEntry = record { conn = conn; outbound = outbound } in
    elim (get peer t.connections) [
      | none ↦ (registered, store peer entry t)
      | some existing ↦ register_over peer existing entry t
    ]

unfoldable pub unregister : ℕ → IrohTransport → IrohTransport
unregister peer t = elim (get peer t.connections) [
  | none ↦ t
  | some entry ↦ close entry.conn (record t { connections = remove peer t.connections })
]

unfoldable pub unregister_if_current : ℕ → ℕ → IrohTransport → Bool × IrohTransport
unregister_if_current peer stable_id t = elim (get peer t.connections) [
  | none ↦ (false, t)
  | some entry ↦ if entry.conn.stable_id == stable_id then (true, unregister peer t) else (false, t)
]

abbrev pub connection_id : ℕ → IrohTransport → Option ℕ
connection_id peer t = elim (get peer t.connections) [
  | none ↦ none
  | some entry ↦ some entry.conn.stable_id
]

-- The entry moves; another connection under the new id is closed.
unfoldable pub move_entry : ℕ → ConnEntry → IrohTransport → IrohTransport
move_entry new_id entry t = elim (get new_id t.connections) [
  | none ↦ store new_id entry t
  | some prev ↦
      if prev.conn.stable_id == entry.conn.stable_id
      then store new_id entry t
      else close prev.conn (store new_id entry t)
]

unfoldable pub rekey : ℕ → ℕ → IrohTransport → IrohTransport
rekey old_id new_id t = elim (get old_id t.connections) [
  | none ↦ t
  | some entry ↦ move_entry new_id entry (record t { connections = remove old_id t.connections })
]

abbrev pub has_connection : ℕ → IrohTransport → Bool
has_connection peer t = elim (get peer t.connections) [
  | none ↦ false
  | some entry ↦ is_live t entry.conn
]

-- `opened` says whether the stream could be opened, `written` whether the bytes could be written
-- and the stream finished. The result is what goes out and on which connection.
unfoldable pub send :
    Bool → Bool → ℕ → Bytes → IrohTransport → Result IrohError (Connection × Bytes)
send opened written peer bytes t = elim (get peer t.connections) [
  | none ↦ err peer_not_found
  | some entry ↦
      if not opened
      then err connection_error
      else if ltb max_frame_bytes (length bytes)
      then err connection_error
      else if not written
      then err connection_error
      else ok (entry.conn, bytes)
]

unfoldable pub close_all : List (ℕ × ConnEntry) → List ℕ → List ℕ
close_all [] closed = closed
close_all ((peer, entry) ∷ m) closed = close_all m (add entry.conn.stable_id closed)

unfoldable pub shutdown : IrohTransport → IrohTransport
shutdown t = record {
  endpoint = none;
  connections = [];
  online = false;
  closed = close_all t.connections t.closed;
}
