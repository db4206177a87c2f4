-- ===== src/Engine/Peers/Tests.antt =====
-- core/src/p2p/engine.rs: the theorems on sessions and contacts at concrete inputs.
use srltcpv.Base.{ℕ, ◌+◌, ◌++◌, refl, true, false, none, some, [], ◌∷◌, length}
use srltcpv.Base.Assoc.{get, insert, contains_key}
use srltcpv.Base.NumSet.{contains}
use srltcpv.Network.{IrohTransport, ConnEntry, Connection}
use srltcpv.Network
use srltcpv.Crypto.Wire.{WireFormats, empty_transcript, wire_magic}
use srltcpv.Crypto.Wire
use srltcpv.Crypto.Ratchet
use srltcpv.Crypto.Peer.{PeerCrypto, trusted}
use srltcpv.Crypto.Peer
use srltcpv.Crypto.Toy.{toy}
use srltcpv.Crypto.Identity.{TextFormats}
use srltcpv.Engine.Session.{PeerSession, lan}
use srltcpv.Engine.Transfers.{Transfers}
use srltcpv.Engine.Peers.{
  PeerNames, Shared, peer_id_from_pubkey, canonicalize_peer, resolve_peer_id, or_itself,
}
use srltcpv.Engine.Leaving.{on_connection_lost, teardown_peer_session}
use srltcpv.Engine.Sending.{over_iroh, send_wire_message}
use srltcpv.Engine.Peers
use srltcpv.Engine.Sending
use srltcpv.Engine.Peers.Moves.{Canonical, canonicalize_peer-Canonical}
use srltcpv.Engine.Peers.Sends.{Delivers, send_wire_message-Delivers}
use srltcpv.Engine.Peers.Losses.{Forgotten, peer-Forgotten}
use srltcpv.Engine.Contacts.{Contacts, qr_refresh, handle_system_message, can_queue_for_peer}
use srltcpv.Engine.Messages.{send_message}
use srltcpv.Engine.Messages.Accepted.{Accepted, send_message-Accepted}
use srltcpv.Engine.Contacts.Saved.{OwnOnly, handle_system_message-OwnOnly}

abbrev names : PeerNames
names = record {
  id_of = λ text. length text + 100;
  text_of = λ id. [];
  hex_encode = λ bs. bs;
  to_lowercase = λ text. text;
}

abbrev confirmed : PeerCrypto ℕ
confirmed = record {
  remote_identity = 2 ∷ [];
  trust = trusted;
  ratchet =
      some (record { inner = 0; is_initiator = true; send_ready = true; bob_ratchet_pk = none });
  transcript = empty_transcript;
  shared_secret = none;
}

abbrev session : PeerSession ℕ
session = record {
  transport = lan;
  crypto = confirmed;
  pending_kex = none;
  role = none;
  step1 = none;
  answered_step1 = none;
  step2 = none;
}

abbrev conn : Connection
conn = record { stable_id = 3; remote_id = 9 ∷ [] }

abbrev no_transfers : Transfers
no_transfers = record { outgoing = []; incoming = []; completed = []; cancelled = [] }

-- A session under the id 7 of its connection.
abbrev one_session : Shared ℕ
one_session = record {
  iroh = record {
    endpoint = none;
    connections = (7, record { conn = conn; outbound = true }) ∷ [];
    online = true;
    closed = [];
  };
  serial_link = none;
  peers = (7, session) ∷ [];
  transfers = no_transfers;
  waits = [];
  peer_aliases = [];
  held_inbound = [];
  user_paused = [];
}

canonicalize_peer-Canonical_example :
    Canonical names 7
      (peer_id_from_pubkey names (2 ∷ []))
      session
      one_session
      (canonicalize_peer names 7 one_session)
unfolding get Peer.same_key
canonicalize_peer-Canonical_example =
    canonicalize_peer-Canonical names 7 session one_session refl refl refl

abbrev wire_formats : WireFormats
wire_formats = record {
  postcard_encode = λ frame. some (8 ∷ []);
  postcard_decode = λ bs. none;
  json_decode = λ bs. none;
}

send_wire_message-Delivers_example :
    Delivers names wire_formats toy []
      (some (5 ∷ []))
      7
      one_session
      (over_iroh conn (wire_magic ++ (8 ∷ [])))
unfolding send_wire_message get resolve_peer_id Peers.by_key contains_key Sending.link_up contains
    Sending.send_resolved Sending.send_encrypted Peer.encrypt Ratchet.encrypt_to_bytes
    Ratchet.encrypt_message Sending.send_raw_frame Wire.serialize insert Network.send
send_wire_message-Delivers_example =
    send_wire_message-Delivers names wire_formats true true toy [] (some (5 ∷ [])) 7 one_session
      (over_iroh conn (wire_magic ++ (8 ∷ []))) refl

peer-Forgotten_example :
    Forgotten 7 8 one_session (on_connection_lost 7 8 3 one_session).1
    × Forgotten
        (or_itself 7 (resolve_peer_id names 7 one_session))
        7
        one_session
        (teardown_peer_session names 7 true one_session).1
unfolding contains
peer-Forgotten_example = peer-Forgotten one_session tt tt names 7 8 3 true refl

abbrev text_formats : TextFormats
text_formats = record {
  encode_url_no_pad = λ bs. bs;
  decode_url_no_pad = λ text. some text;
  decode_url = λ text. none;
  decode_standard = λ text. none;
  hex_encode = λ bs. bs;
  hex_decode = λ text. some text;
}

abbrev no_contacts : Contacts
no_contacts = record { remote_display_names = []; saved_peer_qr = []; trusted_pubkeys = [] }

handle_system_message-OwnOnly_example :
    OwnOnly names text_formats 137 no_contacts
      (handle_system_message names text_formats 137 qr_refresh (4 ∷ 1 ∷ []) no_contacts).1
handle_system_message-OwnOnly_example =
    handle_system_message-OwnOnly names text_formats 137 no_contacts qr_refresh (4 ∷ 1 ∷ [])

send_message-Accepted_example :
    Accepted
      (Delivers names wire_formats toy []
        (some (5 ∷ []))
        (or_itself 7 (resolve_peer_id names 7 one_session))
        one_session)
      (can_queue_for_peer names (or_itself 7 (resolve_peer_id names 7 one_session)) no_contacts)
      (or_itself 7 (resolve_peer_id names 7 one_session))
      (5 ∷ [])
      []
      (send_message names false no_contacts wire_formats toy true true []
        (some (5 ∷ []))
        7
        (5 ∷ [])
        one_session
        [])
send_message-Accepted_example =
    send_message-Accepted names false no_contacts wire_formats toy true true [] (some (5 ∷ [])) 7
      (5 ∷ []) one_session []
