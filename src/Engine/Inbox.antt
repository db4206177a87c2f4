-- ===== src/Engine/Inbox.antt =====
-- core/src/p2p/engine.rs: what becomes of an encrypted frame of a peer, and the messages that are
-- held until the user has confirmed the safety number. serde_json and hex are parameters.
pub mod Frames
pub mod Held
use srltcpv.Base.{
  ℕ, Bool, true, false, not, ◌&&◌, Option, none, some, List, [], ◌∷◌, ◌++◌, Bytes, length, ltb,
  if◌then◌else◌, Result, ok, err,
}
use srltcpv.Transfer.{same_bytes}
use srltcpv.Crypto.Primitives.{Primitives}
use srltcpv.Crypto.Wire.{CryptoError}
use srltcpv.Crypto.Peer.{PeerCrypto, is_trusted, can_send_encrypted, decrypt, confirm_trusted}

abbrev pub max_held_inbound : ℕ
max_held_inbound = 256

-- A message, as far as it is looked at here: `action` is the string in its metadata.
pub record ChatMessage : Type 0 where
  pub sender_id : List ℕ
  pub action : Option (List ℕ)
  pub content : Bytes

pub record MessageFormats : Type 0 where
  pub from_json : Bytes → Option ChatMessage
  pub hex_encode : Bytes → List ℕ

-- "ratchet_open".
abbrev pub ratchet_open : List ℕ
ratchet_open =
    0x72 ∷ 0x61 ∷ 0x74 ∷ 0x63 ∷ 0x68 ∷ 0x65 ∷ 0x74 ∷ 0x5F ∷ 0x6F ∷ 0x70 ∷ 0x65 ∷ 0x6E ∷ []

abbrev pub is_ratchet_open : Option (List ℕ) → Bool
is_ratchet_open none = false
is_ratchet_open (some action) = same_bytes action ratchet_open

-- A peer's session and the messages of it that are held.
pub record Inbox (Inner : Type 0) : Type 0 where
  pub crypto : PeerCrypto Inner
  pub held : List ChatMessage

-- What a frame leads to: the messages for `handle_app_message`, and whether the peer's queue is
-- flushed.
pub record Handled : Type 0 where
  pub messages : List ChatMessage
  pub flushes : Bool

abbrev pub unhandled : Handled
unhandled = record { messages = []; flushes = false }

module _ {Inner : Type 0} where
  unfoldable pub hold : ChatMessage → Inbox Inner → Handled × Inbox Inner
  hold msg s =
      if ltb (length s.held) max_held_inbound
      then (unhandled, record s { held = s.held ++ (msg ∷ []) })
      else (unhandled, s)

  unfoldable pub handle_message : ChatMessage → Inbox Inner → Handled × Inbox Inner
  handle_message msg s =
      if is_ratchet_open msg.action
      then (
        record { messages = []; flushes = is_trusted s.crypto && can_send_encrypted s.crypto },
        s,
      )
      else if not (is_trusted s.crypto)
      then hold msg s
      else (record { messages = msg ∷ []; flushes = false }, s)

  unfoldable pub release_held_inbound : Inbox Inner → List ChatMessage × Inbox Inner
  release_held_inbound s = (s.held, record s { held = [] })

  unfoldable pub after_confirm :
      Result CryptoError (Unit {0}) × PeerCrypto Inner
      → Inbox Inner
      → Result CryptoError (List ChatMessage) × Inbox Inner
  after_confirm (err e, c) s = (err e, record s { crypto = c })
  after_confirm (ok u, c) s =
      let released = release_held_inbound (record s { crypto = c }) in (ok released.0, released.1)

  -- The messages released; what is sent to the peer on this occasion is encrypted one by one.
  unfoldable pub confirm_peer_trusted :
      Inbox Inner → Result CryptoError (List ChatMessage) × Inbox Inner
  confirm_peer_trusted s = after_confirm (confirm_trusted s.crypto) s

  abbrev pub confirmed_only :
      Result CryptoError (Unit {0}) × PeerCrypto Inner → Inbox Inner → Bool × Inbox Inner
  confirmed_only (err e, c) s = (false, record s { crypto = c })
  confirmed_only (ok u, c) s = (true, record s { crypto = c })

  -- The end of `handle_handshake_finish`: whether the peer is trusted automatically. `known` says that
  -- its identity is among the trusted ones. What is held stays held.
  unfoldable pub auto_trust : Bool → Inbox Inner → Bool × Inbox Inner
  auto_trust known s = if known then confirmed_only (confirm_trusted s.crypto) s else (false, s)

  module _ (f : MessageFormats) where
    -- The sender is the session's identity, whatever the message says.
    abbrev pub from_session : PeerCrypto Inner → ChatMessage → ChatMessage
    from_session c msg = record msg { sender_id = f.hex_encode c.remote_identity }

    unfoldable pub decode_message : Result CryptoError Bytes → PeerCrypto Inner → Option ChatMessage
    decode_message (err e) c = none
    decode_message (ok plaintext) c = elim (f.from_json plaintext) [
      | none ↦ none
      | some msg ↦ some (from_session c msg)
    ]

  unfoldable pub handle_decoded : Option ChatMessage → Inbox Inner → Handled × Inbox Inner
  handle_decoded none s = (unhandled, s)
  handle_decoded (some msg) s = handle_message msg s

  unfoldable pub handle_encrypted_frame :
      Primitives Inner → MessageFormats → Bytes → Inbox Inner → Handled × Inbox Inner
  handle_encrypted_frame p f ciphertext s =
      let decrypted = decrypt p ciphertext s.crypto in
      handle_decoded (decode_message f decrypted.0 decrypted.1) (record s { crypto = decrypted.1 })
