-- ===== src/Engine/Inbox/Held.antt =====
-- core/src/p2p/engine.rs: no message of a peer is handled before the peer is trusted, none is lost,
-- and none is overtaken unless the peer is trusted automatically.
use srltcpv.Base.{◌≡◌, Bool, true, false, ◌||◌, List, [], ◌++◌, Bytes, take}
use srltcpv.Crypto.Primitives.{Primitives}
use srltcpv.Crypto.Peer.{PeerCrypto, is_trusted, encrypt}
use srltcpv.Engine.Inbox.{
  max_held_inbound, ChatMessage, MessageFormats, Inbox, handle_encrypted_frame,
  confirm_peer_trusted, auto_trust,
}
use srltcpv.Engine.Inbox.Frames.{released, message_in}

-- Where the messages of a trusted peer are. Those that were held are either still held, or were
-- handled after `early` and before `late`.
pub data Placed (before after handled held : List ChatMessage) : Type 0 where
  kept : held ≡ take max_held_inbound before → handled ≡ after → Placed before after handled held
  passed :
      (early late : List ChatMessage)
      → after ≡ early ++ late
      → held ≡ []
      → handled ≡ early ++ (take max_held_inbound before ++ late)
      → Placed before after handled held

module _ {Inner : Type 0} (p : Primitives Inner) (f : MessageFormats) where
  -- A run of one session under one id: the messages that came while the peer was not trusted, with those held at
  -- the beginning, the ones that came afterwards, those handed to `handle_app_message`, all in order,
  -- and whether the peer was trusted automatically. Where a new handshake ends the trust the lists
  -- begin anew. The steps of a handshake give some state that is not trusted.
  pub data Listening : (before after handled : List ChatMessage) → Bool → Inbox Inner → Type 0 where
    listens :
        (c : PeerCrypto Inner)
        → is_trusted c ≡ false
        → Listening [] [] [] false (record { crypto = c; held = [] })
    receives_before :
        {before after handled : List ChatMessage} {auto : Bool} {s : Inbox Inner}
        (ciphertext : Bytes)
        → is_trusted s.crypto ≡ false
        → Listening before after handled auto s
        → Listening
            (before ++ message_in p f ciphertext s)
            after
            (handled ++ (handle_encrypted_frame p f ciphertext s).0.messages)
            auto
            (handle_encrypted_frame p f ciphertext s).1
    receives_after :
        {before after handled : List ChatMessage} {auto : Bool} {s : Inbox Inner}
        (ciphertext : Bytes)
        → is_trusted s.crypto ≡ true
        → Listening before after handled auto s
        → Listening before
            (after ++ message_in p f ciphertext s)
            (handled ++ (handle_encrypted_frame p f ciphertext s).0.messages)
            auto
            (handle_encrypted_frame p f ciphertext s).1
    confirms :
        {before after handled : List ChatMessage} {auto : Bool} {s : Inbox Inner}
        → Listening before after handled auto s
        → Listening before after
            (handled ++ released (confirm_peer_trusted s).0)
            auto
            (confirm_peer_trusted s).1
    auto_trusts :
        {before after handled : List ChatMessage} {auto : Bool} {s : Inbox Inner} (known : Bool)
        → Listening before after handled auto s
        → Listening before after handled ((auto_trust known s).0 || auto) (auto_trust known s).1
    sends :
        {before after handled : List ChatMessage} {auto : Bool} {s : Inbox Inner}
        (random plaintext : Bytes)
        → Listening before after handled auto s
        → Listening before after handled auto
            (record s { crypto = (encrypt p random plaintext s.crypto).1 })
    shakes :
        {before after handled : List ChatMessage} {auto : Bool} {s : Inbox Inner}
        (c : PeerCrypto Inner)
        → is_trusted s.crypto ≡ false
        → is_trusted c ≡ false
        → Listening before after handled auto s
        → Listening before after handled auto (record s { crypto = c })
    restarts :
        {before after handled : List ChatMessage} {auto : Bool} {s : Inbox Inner}
        (c : PeerCrypto Inner)
        → is_trusted s.crypto ≡ true
        → is_trusted c ≡ false
        → Listening before after handled auto s
        → Listening s.held [] [] false (record s { crypto = c })

  -- Where the messages are.
  pub record Filed (before after handled : List ChatMessage) (auto : Bool) (s : Inbox Inner)
      : Type 0 where
    pub waiting :
        is_trusted s.crypto ≡ false
        → (handled ≡ []) × (after ≡ []) × (s.held ≡ take max_held_inbound before)
    pub confirmed :
        is_trusted s.crypto ≡ true
        → auto ≡ false
        → (s.held ≡ []) × (handled ≡ take max_held_inbound before ++ after)
    pub placed : is_trusted s.crypto ≡ true → Placed before after handled s.held
