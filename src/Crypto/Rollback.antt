-- ===== src/Crypto/Rollback.antt =====
-- core/src/crypto/ratchet.rs and peer_crypto.rs: a message that cannot be decrypted changes nothing.
use srltcpv.Base.{
  ◌≡◌, refl, inl, inr, Option, none, some, Bytes, Result, err, arith, Bool-cases, Option-cases,
}
use srltcpv.Crypto.Primitives.{Primitives, PrimitivesLaws, RatchetEnvelope}
use srltcpv.Crypto.Wire.{CryptoError}
use srltcpv.Crypto.Ratchet.{SessionRatchet, ratchet_ad, settle, decrypt_message, decrypt_from_bytes}
use srltcpv.Crypto.Peer.{PeerCrypto, decrypt, on_ratchet, may_decrypt}

module _ {Inner : Type 0} (p : Primitives Inner) (laws : PrimitivesLaws p) where
  settle_unchanged :
      (snapshot : Bytes) (s : SessionRatchet Inner) (out : Option Bytes × Inner) (e : CryptoError)
      → p.bincode_serialize s.inner ≡ some snapshot
      → (settle p snapshot s out).0 ≡ err e
      → (settle p snapshot s out).1 ≡ s
  unfolding settle
  settle_unchanged snapshot s (some plaintext, inner) e saved h = absurd (ground arith)
  settle_unchanged snapshot s (none, inner) e saved h =
      rw (laws.bincode-restore s.inner snapshot saved, settle) refl

  pub decrypt_message_unchanged :
      (envelope : RatchetEnvelope) (s : SessionRatchet Inner) (e : CryptoError)
      → (decrypt_message p envelope s).0 ≡ err e
      → (decrypt_message p envelope s).1 ≡ s
  unfolding decrypt_message
  decrypt_message_unchanged envelope s e h = elim (Option-cases (p.bincode_serialize s.inner)) [
    | inl q ↦ rw (q, decrypt_message) refl
    | inr (snapshot, q) ↦
        (let h' = rw (q, decrypt_message) at h in
          rw (q, decrypt_message)
            (settle_unchanged snapshot s (p.ratchet_decrypt envelope ratchet_ad s.inner) e q h'))
  ]

  decrypt_from_bytes_unchanged :
      (bytes : Bytes) (s : SessionRatchet Inner) (e : CryptoError)
      → (decrypt_from_bytes p bytes s).0 ≡ err e
      → (decrypt_from_bytes p bytes s).1 ≡ s
  unfolding decrypt_from_bytes
  decrypt_from_bytes_unchanged bytes s e h = elim (Option-cases (p.envelope_decode bytes)) [
    | inl q ↦ rw (q, decrypt_from_bytes) refl
    | inr (envelope, q) ↦
        (let h' = rw (q, decrypt_from_bytes) at h in
          rw (q, decrypt_from_bytes) (decrypt_message_unchanged envelope s e h'))
  ]

  on_ratchet_unchanged :
      (c : PeerCrypto Inner) (ratchet : Option (SessionRatchet Inner))
      (m : SessionRatchet Inner → Result CryptoError Bytes × SessionRatchet Inner) (e : CryptoError)
      → ((s : SessionRatchet Inner) → (m s).0 ≡ err e → (m s).1 ≡ s)
      → c.ratchet ≡ ratchet
      → (on_ratchet p m c).0 ≡ err e
      → (on_ratchet p m c).1 ≡ c
  on_ratchet_unchanged c none m e f q h = ground arith
  on_ratchet_unchanged c (some r) m e f q h = ground (arith, f r)

  -- If restoring a saved ratchet gives it back, a ciphertext that is not decrypted (forged,
  -- replayed, malformed, or too early) leaves the whole state of the peer as it was.
  pub decrypt_unchanged :
      (ciphertext : Bytes) (c : PeerCrypto Inner) (e : CryptoError)
      → (decrypt p ciphertext c).0 ≡ err e
      → (decrypt p ciphertext c).1 ≡ c
  unfolding decrypt
  decrypt_unchanged ciphertext c e h = elim (Bool-cases (may_decrypt c.trust)) [
    | inr q ↦ rw q refl
    | inl q ↦
        (let h' = rw q at h in
          rw q (
            on_ratchet_unchanged c c.ratchet (decrypt_from_bytes p ciphertext) e
              (λ s. decrypt_from_bytes_unchanged ciphertext s e) refl h'))
  ]
