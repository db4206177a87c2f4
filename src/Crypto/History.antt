-- ===== src/Crypto/History.antt =====
-- core/src/crypto/peer_crypto.rs: all that can happen to the state of a peer, with arguments chosen
-- by anyone, and what it cannot lead to.
use srltcpv.Base.{
  ◌≡◌, ◌⊎◌, inl, inr, subst, sym, refl, Bool, true, false, Bytes, ok, arith, Bool-cases,
}
use srltcpv.Crypto.Primitives.{Primitives}
use srltcpv.Crypto.Wire.{SignedHandshake, is_finished}
use srltcpv.Crypto.Kex.{HybridKeyExchange}
use srltcpv.Crypto.Ratchet.{encrypt_to_bytes, decrypt_from_bytes}
use srltcpv.Crypto.Peer.{
  PeerCrypto, TrustState, connected, handshaking, sas_pending, trusted, new_connected, is_trusted,
  record_initiator_step1, begin_initiator, may_decrypt, initiator_process_step2,
  initiator_finalize_step3, responder_process_step1, responder_process_step3, confirm_trusted,
  encrypt, decrypt, on_ratchet,
}
use srltcpv.Crypto.Trust.{
  is_some, IsConsistent, Keeps, begin_initiator-Keeps, record_step-Keeps,
  initiator_process_step2-Safe, initiator_finalize_step3-Safe, responder_process_step1-Safe,
  responder_process_step3-Safe, confirm_trusted-IsConsistent, on_ratchet-Keeps, Keeps-refl,
}

module _ {Inner : Type 0} where
  -- What holds of a peer for which a payload was encrypted.
  pub record MayTalk (b : Bool) (c : PeerCrypto Inner) : Type 0 where
    pub confirmed : b ≡ true
    pub is_trusted_peer : c.trust ≡ trusted
    pub finished : is_finished c.transcript ≡ true
    pub has_secret : is_some c.shared_secret ≡ true
    pub has_ratchet : is_some c.ratchet ≡ true

-- Whether a safety number waits for the user.
abbrev pub is_pending : TrustState → Bool
is_pending connected = false
is_pending handshaking = false
is_pending (sas_pending sas) = true
is_pending trusted = false

-- A confirmation with nothing to confirm makes nobody trusted.
confirm_trusted_idle :
    {Inner : Type 0} (c : PeerCrypto Inner)
    → is_pending c.trust ≡ false
    → is_trusted c ≡ false
    → is_trusted (confirm_trusted c).1 ≡ false
unfolding confirm_trusted
confirm_trusted_idle c idle u = ground (arith, idle, u)

module _ {Inner : Type 0} (p : Primitives Inner) where
  -- The first index says whether `confirm_trusted` was called at some time while a safety number
  -- waited for it; a call in any other state leaves the index as it is.
  pub data History : Bool → PeerCrypto Inner → Type 0 where
    connects : History false new_connected
    begins :
        (secret dk : Bytes) {b : Bool} {c : PeerCrypto Inner}
        → History b c
        → History b (begin_initiator p secret dk c).1
    records :
        (body : Bytes) {b : Bool} {c : PeerCrypto Inner}
        → History b c
        → History b (record_initiator_step1 body c).1
    receives_second :
        (kex : HybridKeyExchange) (frame : SignedHandshake) (expected : Bytes) {b : Bool}
        {c : PeerCrypto Inner}
        → History b c
        → History b (initiator_process_step2 p frame expected (c, kex)).1.0
    finishes :
        (seed body : Bytes) {b : Bool} {c : PeerCrypto Inner}
        → History b c
        → History b (initiator_finalize_step3 p seed body c).1
    receives_first :
        (secret random ratchet_random seed : Bytes) (frame : SignedHandshake) {b : Bool}
        {c : PeerCrypto Inner}
        → History b c
        → History b (responder_process_step1 p secret random ratchet_random seed frame c).1
    receives_third :
        (seed : Bytes) (frame : SignedHandshake) {b : Bool} {c : PeerCrypto Inner}
        → History b c
        → History b (responder_process_step3 p seed frame c).1
    encrypts :
        (random plaintext : Bytes) {b : Bool} {c : PeerCrypto Inner}
        → History b c
        → History b (encrypt p random plaintext c).1
    decrypts :
        (ciphertext : Bytes) {b : Bool} {c : PeerCrypto Inner}
        → History b c
        → History b (decrypt p ciphertext c).1
    confirms :
        (sas : Bytes) {b : Bool} {c : PeerCrypto Inner}
        → History b c
        → c.trust ≡ sas_pending sas
        → History true (confirm_trusted c).1
    confirms_nothing :
        {b : Bool} {c : PeerCrypto Inner}
        → History b c
        → is_pending c.trust ≡ false
        → History b (confirm_trusted c).1

  encrypt_cases :
      (random plaintext : Bytes) (c : PeerCrypto Inner)
      → ((encrypt p random plaintext c).1 ≡ c)
        ⊎ ((encrypt p random plaintext c).1
            ≡ (on_ratchet p (encrypt_to_bytes p random plaintext) c).1)
  unfolding encrypt
  encrypt_cases random plaintext c = ground arith

  encrypt-Keeps :
      (random plaintext : Bytes) (c : PeerCrypto Inner) → Keeps c (encrypt p random plaintext c).1
  encrypt-Keeps random plaintext c = elim (encrypt_cases random plaintext c) [
    | inl e ↦ subst (Keeps c) (sym e) (Keeps-refl c)
    | inr e ↦ subst (Keeps c) (sym e) (on_ratchet-Keeps p (encrypt_to_bytes p random plaintext) c)
  ]

  decrypt-Keeps : (ciphertext : Bytes) (c : PeerCrypto Inner) → Keeps c (decrypt p ciphertext c).1
  unfolding decrypt
  decrypt-Keeps ciphertext c = elim (Bool-cases (may_decrypt c.trust)) [
    | inl e ↦ rw e (on_ratchet-Keeps p (decrypt_from_bytes p ciphertext) c)
    | inr e ↦ rw e (Keeps-refl c)
  ]

  -- In any history a peer that may decrypt has a finished transcript, a secret and a ratchet.
  pub History-IsConsistent : {b : Bool} {c : PeerCrypto Inner} → History b c → IsConsistent c
  History-IsConsistent connects = record {
    paired = λ x. absurd (ground arith);
    finished = λ x. absurd (ground arith);
    secret = λ x. absurd (ground arith);
  }
  History-IsConsistent (begins secret dk {c = c} h) =
      (begin_initiator-Keeps p secret dk c).consistent (History-IsConsistent h)
  History-IsConsistent (records body {c = c} h) =
      (record_step-Keeps 1 body c (omega arith)).consistent (History-IsConsistent h)
  History-IsConsistent (receives_second kex frame expected {c = c} h) =
      ((initiator_process_step2-Safe p frame expected).keeps (c, kex)).consistent
        (History-IsConsistent h)
  History-IsConsistent (finishes seed body {c = c} h) =
      ((initiator_finalize_step3-Safe p seed body).keeps c).consistent (History-IsConsistent h)
  History-IsConsistent (receives_first secret random ratchet_random seed frame {c = c} h) =
      ((responder_process_step1-Safe p secret random ratchet_random seed frame).keeps c).consistent
        (History-IsConsistent h)
  History-IsConsistent (receives_third seed frame {c = c} h) =
      ((responder_process_step3-Safe p seed frame).keeps c).consistent (History-IsConsistent h)
  History-IsConsistent (encrypts random plaintext {c = c} h) =
      (encrypt-Keeps random plaintext c).consistent (History-IsConsistent h)
  History-IsConsistent (decrypts ciphertext {c = c} h) =
      (decrypt-Keeps ciphertext c).consistent (History-IsConsistent h)
  History-IsConsistent (confirms sas {c = c} h pending) =
      confirm_trusted-IsConsistent c (History-IsConsistent h)
  History-IsConsistent (confirms_nothing {c = c} h idle) =
      confirm_trusted-IsConsistent c (History-IsConsistent h)

  -- Without a confirmation a peer is never trusted.
  History-unconfirmed :
      {b : Bool} {c : PeerCrypto Inner} → History b c → b ≡ false → is_trusted c ≡ false
  History-unconfirmed connects e = refl
  History-unconfirmed (begins secret dk {c = c} h) e =
      (begin_initiator-Keeps p secret dk c).untrusted (History-unconfirmed h e)
  History-unconfirmed (records body {c = c} h) e =
      (record_step-Keeps 1 body c (omega arith)).untrusted (History-unconfirmed h e)
  History-unconfirmed (receives_second kex frame expected {c = c} h) e =
      ((initiator_process_step2-Safe p frame expected).keeps (c, kex)).untrusted
        (History-unconfirmed h e)
  History-unconfirmed (finishes seed body {c = c} h) e =
      ((initiator_finalize_step3-Safe p seed body).keeps c).untrusted (History-unconfirmed h e)
  History-unconfirmed (receives_first secret random ratchet_random seed frame {c = c} h) e =
      ((responder_process_step1-Safe p secret random ratchet_random seed frame).keeps c).untrusted
        (History-unconfirmed h e)
  History-unconfirmed (receives_third seed frame {c = c} h) e =
      ((responder_process_step3-Safe p seed frame).keeps c).untrusted (History-unconfirmed h e)
  History-unconfirmed (encrypts random plaintext {c = c} h) e =
      (encrypt-Keeps random plaintext c).untrusted (History-unconfirmed h e)
  History-unconfirmed (decrypts ciphertext {c = c} h) e =
      (decrypt-Keeps ciphertext c).untrusted (History-unconfirmed h e)
  History-unconfirmed (confirms sas h pending) e = absurd (ground arith)
  History-unconfirmed (confirms_nothing {c = c} h idle) e =
      confirm_trusted_idle c idle (History-unconfirmed h e)

  encrypt_trusted :
      (random plaintext ciphertext : Bytes) (c : PeerCrypto Inner)
      → (encrypt p random plaintext c).0 ≡ ok ciphertext
      → c.trust ≡ trusted
  unfolding encrypt
  encrypt_trusted random plaintext ciphertext c e = ground arith

  -- Whatever frames, keys and payloads were processed before, a payload is encrypted for a peer
  -- only if at some time `confirm_trusted` was called while a safety number waited for it, the peer
  -- is trusted, and its handshake is finished with a secret and a ratchet.
  pub encrypt-MayTalk :
      {b : Bool} {c : PeerCrypto Inner} (random plaintext ciphertext : Bytes)
      → History b c
      → (encrypt p random plaintext c).0 ≡ ok ciphertext
      → MayTalk b c
  encrypt-MayTalk {b} {c} random plaintext ciphertext h e =
      let i = History-IsConsistent h in
      let t = encrypt_trusted random plaintext ciphertext c e in
      let may : may_decrypt c.trust ≡ true = ground arith in
      record {
        confirmed = elim (Bool-cases b) [
          | inl yes_confirmed ↦ yes_confirmed
          | inr never ↦ (let u = History-unconfirmed h never in absurd (ground arith))
        ];
        is_trusted_peer = t;
        finished = i.finished may;
        has_secret = i.secret may;
        has_ratchet = i.paired (i.secret may);
      }
