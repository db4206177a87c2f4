-- ===== src/Engine/Peers/Sends.antt =====
-- core/src/p2p/engine.rs: what a message that is handed to a transport has passed.
use srltcpv.Base.{
  ℕ, ◌≡◌, ◌≤◌, refl, sym, ◌∙◌, inl, inr, Bool, true, false, not, Option, none, some, ==_refl, Bytes,
  length, ltb, if◌then◌else◌, Bool-cases, Option-cases, Result-cases, Result, ok, err, arith,
}
use srltcpv.Base.Assoc.{get, insert, get-insert}
use srltcpv.Network.{
  IrohTransport, IrohError, connection_error, ConnEntry, Connection, max_frame_bytes,
  send as iroh_send,
}
use srltcpv.Serial.Transport.{max_message_bytes}
use srltcpv.Serial.Link.{SendError, send as serial_send}
use srltcpv.Crypto.Primitives.{Primitives}
use srltcpv.Crypto.Wire.{CryptoError, not_trusted, WireFormats, WireFrame, encrypted, serialize}
use srltcpv.Crypto.Peer.{PeerCrypto, is_trusted, encrypt}
use srltcpv.Engine.Session.{PeerSession}
use srltcpv.Engine.Peers.{PeerNames, Shared, SerialState, is_serial, resolve_peer_id}
use srltcpv.Engine.Sending.{
  SendFailure, not_connected, no_session, wire_failure, Handed, over_serial, over_iroh, from_serial,
  from_iroh, hand_over, session_of, link_up, send_raw_frame, send_encrypted, send_resolved,
  send_wire_message,
}

-- The transport that got the bytes is that of the session.
abbrev pub IsLinkOf :
    {Inner : Type 0} → ℕ → PeerSession Inner → Shared Inner → Bytes → Handed → Type 0
IsLinkOf key s t wire (over_serial bytes) =
    (is_serial s.transport ≡ true)
    × (bytes ≡ wire)
    × (length wire ≤ max_message_bytes)
    × ((link : SerialState) × (t.serial_link ≡ some link) × (link.ready ≡ true))
IsLinkOf key s t wire (over_iroh conn bytes) =
    (is_serial s.transport ≡ false)
    × (bytes ≡ wire)
    × (length wire ≤ max_frame_bytes)
    × ((entry : ConnEntry) × (get key t.iroh.connections ≡ some entry) × (entry.conn ≡ conn))

serial_send-ok :
    (running ready link_open : Bool) (wire bytes : Bytes)
    → serial_send running ready link_open wire ≡ ok bytes
    → (bytes ≡ wire) × (length wire ≤ max_message_bytes) × (ready ≡ true)
unfolding serial_send
serial_send-ok running ready link_open wire bytes h = ground (arith, h)

opened_send :
    (opened written : Bool) (wire bytes : Bytes) (own conn : Connection)
    → ◌≡◌ {A = Result IrohError (Connection × Bytes)}
        (if not opened
          then err connection_error
          else if ltb max_frame_bytes (length wire)
          then err connection_error
          else if not written
          then err connection_error
          else ok (own, wire))
        (ok (conn, bytes))
    → (bytes ≡ wire) × (length wire ≤ max_frame_bytes) × (own ≡ conn)
opened_send opened written wire bytes own conn h = ground (arith, h)

iroh_send-ok :
    (opened written : Bool) (key : ℕ) (wire bytes : Bytes) (conn : Connection) (t : IrohTransport)
    → iroh_send opened written key wire t ≡ ok (conn, bytes)
    → (bytes ≡ wire)
      × (length wire ≤ max_frame_bytes)
      × ((entry : ConnEntry) × (get key t.connections ≡ some entry) × (entry.conn ≡ conn))
unfolding iroh_send
iroh_send-ok opened written key wire bytes conn t h = elim (Option-cases (get key t.connections)) [
  | inl e ↦ absurd (ground (arith, e, h))
  | inr (entry, e) ↦
      (let (same, fits, own) =
          opened_send opened written wire bytes entry.conn conn
            (sym (rw (e, iroh_send) refl) ∙ h) in
        (same, fits, (entry, e, own)))
]

module _ {Inner : Type 0} (n : PeerNames) (w : WireFormats) (opened written : Bool) where
  hand_over-IsLinkOf :
      (wire : Bytes) (key : ℕ) (s : PeerSession Inner) (t : Shared Inner) (handed : Handed)
      → hand_over n w opened written wire (some (key, s)) t ≡ ok handed
      → IsLinkOf key s t wire handed
  hand_over-IsLinkOf wire key s t handed h = elim (Bool-cases (is_serial s.transport)) [
    | inl q ↦ (elim (Option-cases t.serial_link) [
      | inl e ↦ absurd (ground (arith, q, e, h))
      | inr (link, e) ↦
          on_serial q link e handed (serial_send link.running link.ready link.link_open wire) refl
            (sym (rw (q, hand_over) (rw (e, hand_over) refl)) ∙ h)
    ])
    | inr q ↦
        on_iroh q handed (iroh_send opened written key wire t.iroh) refl
          (sym (rw (q, hand_over) refl) ∙ h)
  ]
    where
      on_serial :
          is_serial s.transport ≡ true
          → (link : SerialState) → t.serial_link ≡ some link
          → (handed : Handed) (r : Result SendError Bytes)
          → serial_send link.running link.ready link.link_open wire ≡ r
          → from_serial r ≡ ok handed
          → IsLinkOf key s t wire handed
      on_serial q link e (over_serial bytes) (ok sent) eq h =
          let (same, fits, ready) =
            serial_send-ok link.running link.ready link.link_open wire sent eq in
          (q, ground (arith, same, h), fits, (link, e, ready))
      on_serial q link e (over_iroh conn bytes) (ok sent) eq h = absurd (ground (arith, h))
      on_serial q link e handed (err x) eq h = absurd (ground (arith, h))

      on_iroh :
          is_serial s.transport ≡ false
          → (handed : Handed) (r : Result IrohError (Connection × Bytes))
          → iroh_send opened written key wire t.iroh ≡ r
          → from_iroh r ≡ ok handed
          → IsLinkOf key s t wire handed
      on_iroh q (over_iroh conn bytes) (ok (c, sent)) eq h =
          let (same, fits, (entry, found, own)) =
            iroh_send-ok opened written key wire sent c t.iroh eq in
          (q, ground (arith, same, h), fits, (entry, found, ground (arith, own, h)))
      on_iroh q (over_serial bytes) (ok (c, sent)) eq h = absurd (ground (arith, h))
      on_iroh q handed (err x) eq h = absurd (ground (arith, h))

-- A message that was handed over: its session, what was encrypted, and where it went.
pub record Delivers {Inner : Type 0} (n : PeerNames) (w : WireFormats) (p : Primitives Inner)
    (random : Bytes) (json : Option Bytes) (peer : ℕ) (t : Shared Inner) (handed : Handed)
    : Type 0 where
  pub key : ℕ
  pub session : PeerSession Inner
  pub plaintext : Bytes
  pub ciphertext : Bytes
  pub wire : Bytes
  pub resolves : resolve_peer_id n peer t ≡ some key
  pub found : get key t.peers ≡ some session
  pub up : link_up key t ≡ true
  pub confirmed : is_trusted session.crypto ≡ true
  pub message : json ≡ some plaintext
  pub encrypts : (encrypt p random plaintext session.crypto).0 ≡ ok ciphertext
  pub serializes :
      serialize w (encrypted (record { version = 3; ciphertext = ciphertext })) ≡ ok wire
  pub link : IsLinkOf key session t wire handed

same_link :
    {Inner : Type 0} (key : ℕ) (s : PeerSession Inner) (c : PeerCrypto Inner) (t : Shared Inner)
    (wire : Bytes) (handed : Handed)
    → IsLinkOf key (record s { crypto = c }) t wire handed
    → IsLinkOf key s t wire handed
same_link key s c t wire (over_serial bytes) h = h
same_link key s c t wire (over_iroh conn bytes) h = h

module _ {Inner : Type 0} (n : PeerNames) (w : WireFormats) (opened written : Bool)
    (p : Primitives Inner) (random : Bytes) where
  encrypt-trusted :
      (plaintext ciphertext : Bytes) (c : PeerCrypto Inner)
      → (encrypt p random plaintext c).0 ≡ ok ciphertext
      → is_trusted c ≡ true
  unfolding encrypt
  encrypt-trusted plaintext ciphertext c h = elim (Bool-cases (is_trusted c)) [
    | inl e ↦ e
    | inr e ↦
        (let wrong : ◌≡◌ {A = Result CryptoError Bytes} (err not_trusted) (ok ciphertext) =
            sym (rw e refl) ∙ h in
          absurd (ground (arith, wrong)))
  ]

  send_raw_frame-wire :
      (key : ℕ) (frame : WireFrame) (s : PeerSession Inner) (t : Shared Inner) (handed : Handed)
      → get key t.peers ≡ some s
      → send_raw_frame n w opened written key frame t ≡ ok handed
      → (wire : Bytes) × (serialize w frame ≡ ok wire) × IsLinkOf key s t wire handed
  unfolding send_raw_frame
  send_raw_frame-wire key frame s t handed placed h = elim (Result-cases (serialize w frame)) [
    | inl (x, e) ↦
        (let wrong : ◌≡◌ {A = Result SendFailure Handed} (err (wire_failure x)) (ok handed) =
            sym (rw (e, send_raw_frame) refl) ∙ h in
          absurd (ground (arith, wrong)))
    | inr (wire, e) ↦ (
      wire,
      e,
      hand_over-IsLinkOf n w opened written wire key s t handed
          (sym (rw (e, send_raw_frame) (rw (placed, session_of) refl)) ∙ h),
    )
  ]

  send_encrypted-wire :
      (key : ℕ) (ciphertext : Bytes) (s : PeerSession Inner) (t : Shared Inner) (handed : Handed)
      → (send_encrypted n w opened written p random key (ok ciphertext, s) t).0 ≡ ok handed
      → (wire : Bytes) × (serialize w (encrypted (record { version = 3; ciphertext = ciphertext }))
          ≡ ok wire)
        × IsLinkOf key s t wire handed
  unfolding send_encrypted
  send_encrypted-wire key ciphertext s t handed h =
      send_raw_frame-wire key (encrypted (record { version = 3; ciphertext = ciphertext })) s
        (record t { peers = insert key s t.peers }) handed
        (rw (get-insert key key s t.peers, ==_refl key) refl) h

  send_resolved-Delivers :
      (json : Option Bytes) (peer key : ℕ) (t : Shared Inner) (handed : Handed)
      → resolve_peer_id n peer t ≡ some key
      → link_up key t ≡ true
      → (send_resolved n w opened written p random json key t).0 ≡ ok handed
      → Delivers n w p random json peer t handed
  unfolding send_resolved send_encrypted
  send_resolved-Delivers none peer key t handed r up h = absurd (ground (arith, h))
  send_resolved-Delivers (some plaintext) peer key t handed r up h =
      elim (Option-cases (get key t.peers)) [
        | inl e ↦
            (let wrong : ◌≡◌ {A = Result SendFailure Handed} (err no_session) (ok handed) =
                sym (rw (e, send_resolved) refl) ∙ h in
              absurd (ground (arith, wrong)))
        | inr (s, e) ↦
            sent s e (encrypt p random plaintext s.crypto) refl
              (sym (rw (e, send_resolved) refl) ∙ h)
      ]
    where
      sent :
          (s : PeerSession Inner)
          → get key t.peers ≡ some s
          → (r' : Result CryptoError Bytes × PeerCrypto Inner)
          → encrypt p random plaintext s.crypto ≡ r'
          → (send_encrypted n w opened written p random key (r'.0, record s { crypto = r'.1 }) t).0
            ≡ ok handed
          → Delivers n w p random (some plaintext) peer t handed
      sent s e (err x, c) eq h' = absurd (ground (arith, h'))
      sent s e (ok ciphertext, c) eq h' =
          let (wire, ser, linked) =
            send_encrypted-wire key ciphertext (record s { crypto = c }) t handed h' in
          let enc : (encrypt p random plaintext s.crypto).0 ≡ ok ciphertext = rw eq refl in
          record {
            key = key;
            session = s;
            plaintext = plaintext;
            ciphertext = ciphertext;
            wire = wire;
            resolves = r;
            found = e;
            up = up;
            confirmed = encrypt-trusted plaintext ciphertext s.crypto enc;
            message = refl;
            encrypts = enc;
            serializes = ser;
            link = same_link key s c t wire handed linked;
          }

  -- A message that is handed to a transport was encrypted with the ratchet of the session to which
  -- the id resolves; that session is trusted and its link is up; the bytes are the serialized frame
  -- of this ciphertext, within the size limit, and go over the link of the session: the serial port
  -- where it is a serial session, and otherwise the registered connection under its id.
  pub send_wire_message-Delivers :
      (json : Option Bytes) (peer : ℕ) (t : Shared Inner) (handed : Handed)
      → (send_wire_message n w opened written p random json peer t).0 ≡ ok handed
      → Delivers n w p random json peer t handed
  unfolding send_wire_message
  send_wire_message-Delivers json peer t handed h = elim (Option-cases (resolve_peer_id n peer t)) [
    | inl e ↦
        (let wrong : ◌≡◌ {A = Result SendFailure Handed} (err not_connected) (ok handed) =
            sym (rw (e, send_wire_message) refl) ∙ h in
          absurd (ground (arith, wrong)))
    | inr (key, e) ↦ (elim (Bool-cases (link_up key t)) [
      | inr q ↦
          (let wrong : ◌≡◌ {A = Result SendFailure Handed} (err not_connected) (ok handed) =
              sym (rw (e, send_wire_message) (rw q refl)) ∙ h in
            absurd (ground (arith, wrong)))
      | inl q ↦
          send_resolved-Delivers json peer key t handed e q
            (sym (rw (e, send_wire_message) (rw q refl)) ∙ h)
    ])
  ]
