-- ===== src/Engine/Inbox/Frames.antt =====
-- core/src/p2p/engine.rs: what one frame or one confirmation does with the held messages.
use srltcpv.Base.{
  ℕ, suc, ◌≤◌, ◌≡◌, ◌⊎◌, refl, sym, ap, ◌∙◌, inl, inr, true, false, Option, none, some, List, [],
  ◌∷◌, ◌++◌, Bytes, length, take, ltb, if◌then◌else◌, Bool-cases, Option-cases, append-nil, ltb→lt,
  Result, ok, err, arith,
}
use srltcpv.Crypto.Primitives.{Primitives}
use srltcpv.Crypto.Wire.{CryptoError, not_awaiting_sas}
use srltcpv.Crypto.Ratchet.{SessionRatchet, encrypt_to_bytes, decrypt_from_bytes}
use srltcpv.Crypto.Peer.{
  PeerCrypto, TrustState, connected, handshaking, sas_pending, trusted, is_trusted, may_decrypt,
  on_ratchet, encrypt, decrypt, confirm_trusted,
}
use srltcpv.Engine.Inbox.{
  max_held_inbound, ChatMessage, MessageFormats, is_ratchet_open, Inbox, decode_message, hold,
  handle_message, handle_decoded,
}

module _ {Inner : Type 0} (p : Primitives Inner) where
  on_ratchet-trust :
      {A : Type 0} (m : SessionRatchet Inner → Result CryptoError A × SessionRatchet Inner)
      (c : PeerCrypto Inner)
      → (on_ratchet p m c).1.trust ≡ c.trust
  on_ratchet-trust m c = elim (Option-cases c.ratchet) [
    | inl e ↦ rw e refl
    | inr (r, e) ↦ rw e refl
  ]

  pub decrypt-trust :
      (ciphertext : Bytes) (c : PeerCrypto Inner) → (decrypt p ciphertext c).1.trust ≡ c.trust
  unfolding decrypt
  decrypt-trust ciphertext c = elim (Bool-cases (may_decrypt c.trust)) [
    | inl e ↦ rw e (on_ratchet-trust (decrypt_from_bytes p ciphertext) c)
    | inr e ↦ rw e refl
  ]

  pub encrypt-trust :
      (random plaintext : Bytes) (c : PeerCrypto Inner)
      → (encrypt p random plaintext c).1.trust ≡ c.trust
  unfolding encrypt
  encrypt-trust random plaintext c = elim (Bool-cases (is_trusted c)) [
    | inr e ↦ rw e refl
    | inl e ↦ elim (Option-cases c.ratchet) [
      | inl n ↦ rw (e, n) refl
      | inr (r, h) ↦ elim (Bool-cases r.send_ready) [
        | inl q ↦ rw (e, h, q) (on_ratchet-trust (encrypt_to_bytes p random plaintext) c)
        | inr q ↦ rw (e, h, q) refl
      ]
    ]
  ]

take-nil : (n : ℕ) → take {A = ChatMessage} n [] ≡ []
take-nil ℕ.zero = refl
take-nil (suc n) = refl

-- One more element, with room for it and without.
take-snoc :
    (n : ℕ) (xs : List ChatMessage) (x : ChatMessage)
    → suc (length (take n xs)) ≤ n
    → take n (xs ++ (x ∷ [])) ≡ take n xs ++ (x ∷ [])
take-snoc ℕ.zero xs x h = absurd (omega arith)
take-snoc (suc n) [] x h = ap (λ (t : List ChatMessage). x ∷ t) (take-nil n)
take-snoc (suc n) (y ∷ xs) x h = ap (◌∷◌ y) (take-snoc n xs x (omega arith))

take-full :
    (n : ℕ) (xs : List ChatMessage) (x : ChatMessage)
    → n ≤ length (take n xs)
    → take n (xs ++ (x ∷ [])) ≡ take n xs
take-full ℕ.zero xs x h = refl
take-full (suc n) [] x h = absurd (omega arith)
take-full (suc n) (y ∷ xs) x h = ap (◌∷◌ y) (take-full n xs x (omega arith))

pub confirm_trusted-cases :
    {Inner : Type 0} (c : PeerCrypto Inner)
    → ((e : CryptoError) × (confirm_trusted c ≡ (err e, c)) × (is_trusted c ≡ false))
      ⊎ ((confirm_trusted c).0 ≡ ok tt) × (is_trusted (confirm_trusted c).1 ≡ true)
unfolding confirm_trusted
confirm_trusted-cases {Inner = Inner} c = go c.trust refl
  where
    go :
        (t : TrustState)
        → c.trust ≡ t
        → ((e : CryptoError) × (confirm_trusted c ≡ (err e, c)) × (is_trusted c ≡ false))
          ⊎ ((confirm_trusted c).0 ≡ ok tt) × (is_trusted (confirm_trusted c).1 ≡ true)
    go connected e = inl (not_awaiting_sas, rw e refl, rw e refl)
    go handshaking e = inl (not_awaiting_sas, rw e refl, rw e refl)
    go (sas_pending sas) e = inr (rw e refl, rw e refl)
    go trusted e = inr (rw e refl, rw e refl)

abbrev pub released : Result CryptoError (List ChatMessage) → List ChatMessage
released (err e) = []
released (ok msgs) = msgs

module _ {Inner : Type 0} (p : Primitives Inner) (f : MessageFormats) where
  -- The message in a frame that is meant for the user: one that can be decrypted and read, and does
  -- not only open the ratchet.
  abbrev pub readable : Option ChatMessage → List ChatMessage
  readable none = []
  readable (some msg) = if is_ratchet_open msg.action then [] else msg ∷ []

  abbrev pub message_in : Bytes → Inbox Inner → List ChatMessage
  message_in ciphertext s =
      readable
        (decode_message f (decrypt p ciphertext s.crypto).0 (decrypt p ciphertext s.crypto).1)

  pub same_trust : (c c' : PeerCrypto Inner) → c'.trust ≡ c.trust → is_trusted c' ≡ is_trusted c
  same_trust c c' e = rw e refl

  -- A message while the peer is not trusted.
  handle_message-held :
      (before : List ChatMessage) (msg : ChatMessage) (s : Inbox Inner)
      → is_trusted s.crypto ≡ false
      → s.held ≡ take max_held_inbound before
      → ((handle_message msg s).0.messages ≡ [])
        × ((handle_message msg s).1.crypto ≡ s.crypto)
        × ((handle_message msg s).1.held ≡ take max_held_inbound (before ++ readable (some msg)))
  unfolding handle_message hold
  handle_message-held before msg s u h = elim (Bool-cases (is_ratchet_open msg.action)) [
    | inl e ↦ rw e (refl, refl, h ∙ ap (take max_held_inbound) (sym (append-nil before)))
    | inr e ↦ elim (Bool-cases (ltb (length s.held) max_held_inbound)) [
      | inl q ↦
          rw (e, u, q)
            (
              refl,
              refl,
              ap (λ (t : List ChatMessage). t ++ (msg ∷ [])) h
                  ∙ sym (
                      take-snoc max_held_inbound before msg
                        (omega (arith, ltb→lt (length s.held) max_held_inbound q, ap length h))),
            )
      | inr q ↦
          rw (e, u, q)
            (
              refl,
              refl,
              h
                  ∙ sym (
                      take-full max_held_inbound before msg
                        (ground (arith, q, ap (length {A = ChatMessage}) h))),
            )
    ]
  ]

  handle_message-passed :
      (msg : ChatMessage) (s : Inbox Inner)
      → is_trusted s.crypto ≡ true
      → ((handle_message msg s).0.messages ≡ readable (some msg)) × ((handle_message msg s).1 ≡ s)
  unfolding handle_message
  handle_message-passed msg s u = elim (Bool-cases (is_ratchet_open msg.action)) [
    | inl e ↦ rw e (refl, refl)
    | inr e ↦ rw (e, u) (refl, refl)
  ]

  pub handle_decoded-held :
      (before : List ChatMessage) (o : Option ChatMessage) (s : Inbox Inner)
      → is_trusted s.crypto ≡ false
      → s.held ≡ take max_held_inbound before
      → ((handle_decoded o s).0.messages ≡ [])
        × ((handle_decoded o s).1.crypto ≡ s.crypto)
        × ((handle_decoded o s).1.held ≡ take max_held_inbound (before ++ readable o))
  unfolding handle_decoded
  handle_decoded-held before none s u h =
      (refl, refl, h ∙ ap (take max_held_inbound) (sym (append-nil before)))
  handle_decoded-held before (some msg) s u h = handle_message-held before msg s u h

  pub handle_decoded-passed :
      (o : Option ChatMessage) (s : Inbox Inner)
      → is_trusted s.crypto ≡ true
      → ((handle_decoded o s).0.messages ≡ readable o) × ((handle_decoded o s).1 ≡ s)
  unfolding handle_decoded
  handle_decoded-passed none s u = (refl, refl)
  handle_decoded-passed (some msg) s u = handle_message-passed msg s u
