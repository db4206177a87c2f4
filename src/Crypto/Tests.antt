-- ===== src/Crypto/Tests.antt =====
-- core/src/crypto: the theorems at concrete inputs.
use srltcpv.Base.{
  ℕ, ◌≡◌, ◌∙◌, ap, sym, subst, refl, true, false, none, some, [], ◌∷◌, Bytes, Result, ok, err,
  arith,
}
use srltcpv.Crypto.Wire.{CryptoError, decrypt_failed}
use srltcpv.Crypto.Kex.{HybridKeyExchange}
use srltcpv.Crypto.Ratchet.{
  init_initiator, encrypt_to_bytes, encrypt_message, decrypt_message, decrypt_from_bytes, settle,
}
use srltcpv.Crypto.Sas.{public_key_bytes}
use srltcpv.Crypto.Peer.{
  PeerCrypto, trusted, new_connected, encrypt, decrypt, confirm_trusted, sign_handshake,
  initiator_process_step2, initiator_finalize_step3, completion_marker,
}
use srltcpv.Crypto.Toy.{toy, toy-PrimitivesLaws, toy_envelope, toy_decrypt, toy_restore}
use srltcpv.Crypto.Agreement.{
  honest_handshake, honest_handshake-Agree, Agree, second_body, alice_started, alice_exchange,
  alice_done, alice_after_step2, alice_after_step3,
}
use srltcpv.Crypto.Transcript.{record_bodies-inj}
use srltcpv.Crypto.Rollback.{decrypt_unchanged}
use srltcpv.Crypto.History.{
  History, connects, begins, records, receives_second, finishes, confirms, MayTalk, encrypt-MayTalk,
}

honest_handshake-Agree_example :
    (a : PeerCrypto ℕ) × (b : PeerCrypto ℕ) × (sas_a : Bytes) × (sas_b : Bytes) × (honest_handshake
        toy
        (1 ∷ [])
        (2 ∷ [])
        (3 ∷ [])
        (4 ∷ [])
        (5 ∷ [])
        (6 ∷ [])
        (7 ∷ [])
      ≡ some ((a, sas_a), (b, sas_b)))
    × Agree a b sas_a sas_b
    × (a.remote_identity ≡ public_key_bytes toy (2 ∷ []))
    × (b.remote_identity ≡ public_key_bytes toy (1 ∷ []))
honest_handshake-Agree_example =
    honest_handshake-Agree toy toy-PrimitivesLaws (1 ∷ []) (2 ∷ []) (3 ∷ []) (4 ∷ []) (5 ∷ [])
      (6 ∷ []) (7 ∷ [])

record_bodies-inj_example :
    (◌≡◌ {A = Bytes} (1 ∷ []) (1 ∷ []))
    × (◌≡◌ {A = Bytes} (2 ∷ []) (2 ∷ []))
    × (◌≡◌ {A = Bytes} [] [])
record_bodies-inj_example =
    record_bodies-inj (1 ∷ []) (2 ∷ []) [] (1 ∷ []) (2 ∷ []) [] (omega arith) (omega arith)
      (omega arith) (omega arith) (omega arith) (omega arith) refl

-- A session in the middle of a conversation.
abbrev talking : PeerCrypto ℕ
talking = record (new_connected {Inner = ℕ}) {
  trust = trusted;
  ratchet =
      some (record { inner = 3; is_initiator = false; send_ready = true; bob_ratchet_pk = none });
}

-- A replayed message.
replayed : (decrypt toy (2 ∷ 9 ∷ []) talking).0 ≡ err decrypt_failed
unfolding decrypt decrypt_from_bytes decrypt_message settle toy_envelope toy_decrypt toy_restore
replayed = refl

decrypt_unchanged_example : (decrypt toy (2 ∷ 9 ∷ []) talking).1 ≡ talking
decrypt_unchanged_example =
    decrypt_unchanged toy toy-PrimitivesLaws (2 ∷ 9 ∷ []) talking decrypt_failed replayed

-- The initiator of the handshake of the first example, after the confirmation.
abbrev second_step : Result CryptoError Bytes × (PeerCrypto ℕ × HybridKeyExchange)
second_step =
    initiator_process_step2 toy
      (sign_handshake toy (2 ∷ []) 2 (
        second_body toy toy-PrimitivesLaws (1 ∷ []) (2 ∷ []) (3 ∷ []) (4 ∷ []) (5 ∷ []) (6 ∷ [])
          (7 ∷ [])))
      (public_key_bytes toy (2 ∷ []))
      (
        alice_started toy toy-PrimitivesLaws (1 ∷ []) (2 ∷ []) (3 ∷ []) (4 ∷ []) (5 ∷ []) (6 ∷ [])
            (7 ∷ []),
        alice_exchange toy toy-PrimitivesLaws (1 ∷ []) (2 ∷ []) (3 ∷ []) (4 ∷ []) (5 ∷ []) (6 ∷ [])
            (7 ∷ []),
      )

abbrev unconfirmed_alice : PeerCrypto ℕ
unconfirmed_alice = (initiator_finalize_step3 toy (1 ∷ []) completion_marker second_step.1.0).1

abbrev confirmed_alice : PeerCrypto ℕ
confirmed_alice = (confirm_trusted unconfirmed_alice).1

unconfirmed_alice-eq :
    unconfirmed_alice
    ≡ alice_done toy toy-PrimitivesLaws
        (1 ∷ [])
        (2 ∷ [])
        (3 ∷ [])
        (4 ∷ [])
        (5 ∷ [])
        (6 ∷ [])
        (7 ∷ [])
unconfirmed_alice-eq =
    ap
      (λ (x : Result CryptoError Bytes × (PeerCrypto ℕ × HybridKeyExchange)).
        (initiator_finalize_step3 toy (1 ∷ []) completion_marker x.1.0).1)
      (alice_after_step2 toy toy-PrimitivesLaws (1 ∷ []) (2 ∷ []) (3 ∷ []) (4 ∷ []) (5 ∷ [])
        (6 ∷ []) (7 ∷ []))
    ∙ ap (λ (x : Result CryptoError Bytes × PeerCrypto ℕ). x.1)
        (alice_after_step3 toy toy-PrimitivesLaws (1 ∷ []) (2 ∷ []) (3 ∷ []) (4 ∷ []) (5 ∷ [])
          (6 ∷ []) (7 ∷ []))

alice-History : History toy true confirmed_alice
alice-History =
    confirms _
      (finishes (1 ∷ []) completion_marker
        (receives_second _ _ _ (records _ (begins (3 ∷ []) (4 ∷ []) connects))))
      (ap (λ (c : PeerCrypto ℕ). c.trust) unconfirmed_alice-eq)

confirmed_alice-eq :
    confirmed_alice
    ≡ (confirm_trusted (
        alice_done toy toy-PrimitivesLaws
          (1 ∷ [])
          (2 ∷ [])
          (3 ∷ [])
          (4 ∷ [])
          (5 ∷ [])
          (6 ∷ [])
          (7 ∷ []))).1
confirmed_alice-eq = ap (λ (c : PeerCrypto ℕ). (confirm_trusted c).1) unconfirmed_alice-eq

trusted_payload :
    (encrypt toy []
      (42 ∷ [])
      (confirm_trusted (
        alice_done toy toy-PrimitivesLaws
          (1 ∷ [])
          (2 ∷ [])
          (3 ∷ [])
          (4 ∷ [])
          (5 ∷ [])
          (6 ∷ [])
          (7 ∷ []))).1).0
    ≡ ok (0 ∷ 42 ∷ [])
unfolding encrypt confirm_trusted encrypt_to_bytes encrypt_message init_initiator
trusted_payload = refl

first_payload : (encrypt toy [] (42 ∷ []) confirmed_alice).0 ≡ ok (0 ∷ 42 ∷ [])
first_payload =
    subst (λ (c : PeerCrypto ℕ). (encrypt toy [] (42 ∷ []) c).0 ≡ ok (0 ∷ 42 ∷ []))
      (sym confirmed_alice-eq) trusted_payload

encrypt-MayTalk_example : MayTalk true confirmed_alice
encrypt-MayTalk_example = encrypt-MayTalk toy [] (42 ∷ []) (0 ∷ 42 ∷ []) alice-History first_payload
