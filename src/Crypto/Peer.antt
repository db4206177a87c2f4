-- ===== src/Crypto/Peer.antt =====
-- core/src/crypto/peer_crypto.rs: the trust in one peer, and the steps of the signed handshake.
use srltcpv.Base.{
  ℕ, ◌+◌, ◌-◌, Bool, true, false, not, Option, none, some, [], ◌∷◌, ◌++◌, Bytes, length, take, drop,
  ltb, ◌==◌, if◌then◌else◌, Result, ok, err, ok_or, require,
}
use srltcpv.Base.Stateful.{Stateful, lift, reads, updates, ◌>>=◌, ◌>>◌}
use srltcpv.Crypto.Primitives.{Primitives}
use srltcpv.Crypto.Wire.{
  CryptoError, invalid_key, wrong_step, wrong_identity, missing_ratchet_key, handshake_incomplete,
  no_ratchet, no_secret, not_awaiting_sas, not_trusted, chain_not_ready, not_decryptable, too_short,
  SignedHandshake, HandshakeTranscript, empty_transcript, append_body, is_finished,
}
use srltcpv.Crypto.Kex.{
  HybridKeyExchange, initiator, responder, initiator_message, initiator_finish, responder_accept,
  take_shared_secret,
}
use srltcpv.Crypto.Ratchet.{
  SessionRatchet, init_responder, init_initiator, encrypt_to_bytes, decrypt_from_bytes,
}
use srltcpv.Crypto.Sas.{public_key_bytes, verify, compute_sas_with_transcript}

pub data TrustState : Type 0 where
  connected handshaking : TrustState
  sas_pending : Bytes → TrustState
  trusted : TrustState

abbrev pub may_decrypt : TrustState → Bool
may_decrypt t = elim t [ sas_pending sas ↦ true | trusted ↦ true | _ ↦ false ]

pub record PeerCrypto (Inner : Type 0) : Type 0 where
  pub remote_identity : Bytes
  pub trust : TrustState
  pub ratchet : Option (SessionRatchet Inner)
  pub transcript : HandshakeTranscript
  pub shared_secret : Option Bytes

-- Whether two keys of the same length are the same bytes.
unfoldable pub same_key : Bytes → Bytes → Bool
same_key [] [] = true
same_key [] (y ∷ ys) = false
same_key (x ∷ xs) [] = false
same_key (x ∷ xs) (y ∷ ys) = let rest = same_key xs ys in if x == y then rest else false

abbrev pub zero_key : ℕ → Bytes
zero_key ℕ.zero = []
zero_key (ℕ.suc n) = 0 ∷ zero_key n

abbrev pub ratchet_pk_len : ℕ
ratchet_pk_len = 32

abbrev pub kex_len : ℕ
kex_len = 32 + 1088

-- The body of step 3.
abbrev pub completion_marker : Bytes
completion_marker = 0x01 ∷ []

-- The last 32 bytes of a step 2 body.
unfoldable pub extract_bob_ratchet_pk : Bytes → Result CryptoError Bytes
extract_bob_ratchet_pk resp_body =
    if ltb (length resp_body) ratchet_pk_len
    then err missing_ratchet_key
    else ok (drop (length resp_body - ratchet_pk_len) resp_body)

-- The first 1120 bytes of it.
unfoldable pub strip_ratchet_pk_for_kex : Bytes → Result CryptoError Bytes
strip_ratchet_pk_for_kex resp_body =
    if ltb (length resp_body) (kex_len + ratchet_pk_len)
    then err too_short
    else ok (take kex_len resp_body)

module _ {Inner : Type 0} where
  abbrev pub new_connected : PeerCrypto Inner
  new_connected = record {
    remote_identity = zero_key 32;
    trust = connected;
    ratchet = none;
    transcript = empty_transcript;
    shared_secret = none;
  }

  abbrev pub is_trusted : PeerCrypto Inner → Bool
  is_trusted c = elim c.trust [ trusted ↦ true | _ ↦ false ]

  abbrev pub ratchet_is_initiator : PeerCrypto Inner → Bool
  ratchet_is_initiator c = elim c.ratchet [ none ↦ false | some r ↦ r.is_initiator ]

  abbrev pub can_send_encrypted : PeerCrypto Inner → Bool
  can_send_encrypted c = elim c.ratchet [ none ↦ false | some r ↦ r.send_ready ]

  abbrev pub sas_of : PeerCrypto Inner → Option Bytes
  sas_of c = elim c.trust [ sas_pending sas ↦ some sas | _ ↦ none ]

  unfoldable pub confirm_trusted : Stateful (PeerCrypto Inner) CryptoError (Unit {0})
  confirm_trusted c = elim c.trust [
    | sas_pending sas ↦ (ok tt, record c { trust = trusted })
    | trusted ↦ (ok tt, c)
    | _ ↦ (err not_awaiting_sas, c)
  ]

  -- `self.transcript.append_body(…)?`.
  unfoldable pub record_step : ℕ → Bytes → Stateful (PeerCrypto Inner) CryptoError (Unit {0})
  record_step step body c =
      let (result, t) = append_body step body c.transcript in (result, record c { transcript = t })

  abbrev pub record_initiator_step1 : Bytes → Stateful (PeerCrypto Inner) CryptoError (Unit {0})
  record_initiator_step1 body = record_step 1 body

abbrev pub sign_input : ℕ → Bytes → Bytes → Bytes
sign_input step identity body = step ∷ (identity ++ body)

module _ {Inner : Type 0} (p : Primitives Inner) where
  -- The identity of the caller is its seed.
  unfoldable pub sign_handshake : Bytes → ℕ → Bytes → SignedHandshake
  sign_handshake seed step body =
      let id_pk = public_key_bytes p seed in
      record {
        step = step;
        identity = id_pk;
        body = body;
        signature = p.ed25519_sign seed (sign_input step id_pk body);
      }

  unfoldable pub verify_handshake_frame : SignedHandshake → Result CryptoError (Unit {0})
  verify_handshake_frame frame =
      if not (length frame.signature == 64)
      then err invalid_key
      else verify p frame.identity (sign_input frame.step frame.identity frame.body) frame.signature

  -- Random keys are drawn before: the two secrets of the exchange.
  unfoldable pub begin_initiator :
      Bytes → Bytes → PeerCrypto Inner → (Bytes × HybridKeyExchange) × PeerCrypto Inner
  begin_initiator secret dk c =
      let kex = initiator p secret dk in
      ((initiator_message kex, kex), record c { trust = handshaking })

  unfoldable pub finalize_sas : Bytes → Stateful (PeerCrypto Inner) CryptoError Bytes
  finalize_sas seed c =
      if not (is_finished c.transcript)
      then (err handshake_incomplete, c)
      else (elim c.shared_secret [
        | none ↦ (err no_secret, c)
        | some secret ↦
            (let sas =
                compute_sas_with_transcript p secret (public_key_bytes p seed) c.remote_identity
                  c.transcript.bytes in
              (ok sas, record c { trust = sas_pending sas }))
      ])

  -- The initiator's step works on the peer and on the exchange that it began.
  unfoldable pub on_peer :
      {A : Type 0}
      → Stateful (PeerCrypto Inner) CryptoError A
      → Stateful (PeerCrypto Inner × HybridKeyExchange) CryptoError A
  on_peer m (c, k) = let (result, c') = m c in (result, (c', k))

  unfoldable pub on_exchange :
      {A : Type 0}
      → Stateful HybridKeyExchange CryptoError A
      → Stateful (PeerCrypto Inner × HybridKeyExchange) CryptoError A
  on_exchange m (c, k) = let (result, k') = m k in (result, (c, k'))

  abbrev pub take_secret : Stateful HybridKeyExchange CryptoError Bytes
  take_secret k = let (secret, k') = take_shared_secret k in (ok_or secret handshake_incomplete, k')

  unfoldable pub initiator_process_step2 :
      SignedHandshake → Bytes → Stateful (PeerCrypto Inner × HybridKeyExchange) CryptoError Bytes
  initiator_process_step2 frame expected_remote = do
    lift (verify_handshake_frame frame)
    lift (require (frame.step == 2) wrong_step)
    lift (require (same_key frame.identity expected_remote) wrong_identity)
    on_peer (updates (λ (c : PeerCrypto Inner). record c { remote_identity = frame.identity }))
    on_peer (record_step 2 frame.body)
    kex_body ← lift (strip_ratchet_pk_for_kex frame.body)
    on_exchange (initiator_finish p kex_body)
    secret ← on_exchange take_secret
    on_peer (updates (λ (c : PeerCrypto Inner). record c { shared_secret = some secret }))
    bob_ratchet_pk ← lift (extract_bob_ratchet_pk frame.body)
    on_peer (
        updates (λ (c : PeerCrypto Inner). record c {
          ratchet = some (init_initiator p secret bob_ratchet_pk);
        }))
    lift (ok completion_marker)

  unfoldable pub initiator_finalize_step3 :
      Bytes → Bytes → Stateful (PeerCrypto Inner) CryptoError Bytes
  initiator_finalize_step3 seed step3_body = do record_step 3 step3_body; finalize_sas seed

  -- The random values: the exchange's secret, what the encapsulation draws, the ratchet's key.
  unfoldable pub responder_process_step1 :
      Bytes
      → Bytes
      → Bytes
      → Bytes
      → SignedHandshake
      → Stateful (PeerCrypto Inner) CryptoError (SignedHandshake × HybridKeyExchange)
  responder_process_step1 secret random ratchet_random seed frame = do
    lift (verify_handshake_frame frame)
    lift (require (frame.step == 1) wrong_step)
    updates (λ (c : PeerCrypto Inner). record c {
      trust = handshaking;
      remote_identity = frame.identity;
    })
    record_step 1 frame.body
    let accepted = responder_accept p random frame.body (responder p secret)
    resp_body ← lift (accepted.0)
    shared ← lift (ok_or (accepted.1).shared_secret handshake_incomplete)
    let ratchet = init_responder p ratchet_random shared
    let full_body = resp_body ++ ratchet.1
    updates (λ (c : PeerCrypto Inner). record c {
      shared_secret = some shared;
      ratchet = some (ratchet.0);
    })
    record_step 2 full_body
    lift (ok (sign_handshake seed 2 full_body, accepted.1))

  unfoldable pub responder_process_step3 :
      Bytes → SignedHandshake → Stateful (PeerCrypto Inner) CryptoError Bytes
  responder_process_step3 seed frame = do
    lift (verify_handshake_frame frame)
    lift (require (frame.step == 3) wrong_step)
    reads (λ (c : PeerCrypto Inner).
        require (same_key frame.identity c.remote_identity) wrong_identity)
    record_step 3 frame.body
    reads (λ (c : PeerCrypto Inner). ok_or c.ratchet no_ratchet)
    finalize_sas seed

  -- The ratchet works on the session inside.
  abbrev pub on_ratchet :
      {A : Type 0}
      → (SessionRatchet Inner → Result CryptoError A × SessionRatchet Inner)
      → Stateful (PeerCrypto Inner) CryptoError A
  on_ratchet m c = elim c.ratchet [
    | none ↦ (err no_ratchet, c)
    | some r ↦ (let (result, r') = m r in (result, record c { ratchet = some r' }))
  ]

  unfoldable pub encrypt : Bytes → Bytes → Stateful (PeerCrypto Inner) CryptoError Bytes
  encrypt random plaintext c =
      if not (is_trusted c) then (err not_trusted, c) else (elim c.ratchet [
        | none ↦ (err no_ratchet, c)
        | some r ↦
            if not r.send_ready
            then (err chain_not_ready, c)
            else on_ratchet (encrypt_to_bytes p random plaintext) c
      ])

  unfoldable pub decrypt : Bytes → Stateful (PeerCrypto Inner) CryptoError Bytes
  decrypt ciphertext c =
      if not (may_decrypt c.trust)
      then (err not_decryptable, c)
      else on_ratchet (decrypt_from_bytes p ciphertext) c
