-- ===== src/Crypto/Agreement.antt =====
-- core/src/crypto/peer_crypto.rs: an honest handshake ends with the same safety number on both
-- sides.
use srltcpv.Base.{
  ◌+◌, ◌-◌, ◌%◌, ◌^◌, ◌≡◌, refl, true, Option, none, some, [], ◌∷◌, ◌++◌, Bytes, length, ok, err,
  arith, length-append, take_prefix, drop_prefix, u32_be_bytes,
}
use srltcpv.Base.Stateful
use srltcpv.Crypto.Primitives.{Primitives, PrimitivesLaws}
use srltcpv.Crypto.Wire.{append_body, is_finished}
use srltcpv.Crypto.Kex.{
  HybridKeyExchange, initiator, responder, initiator_message, take_shared_secret,
}
use srltcpv.Crypto.Ratchet.{SessionRatchet, init_initiator, init_responder, derive_ratchet_sk}
use srltcpv.Crypto.Sas.{public_key_bytes, compute_sas_with_transcript}
use srltcpv.Crypto.Peer.{
  PeerCrypto, handshaking, sas_pending, new_connected, record_step, begin_initiator,
  record_initiator_step1, sign_handshake, on_peer, on_exchange, initiator_process_step2,
  initiator_finalize_step3, responder_process_step1, responder_process_step3, finalize_sas,
  extract_bob_ratchet_pk, strip_ratchet_pk_for_kex,
}
use srltcpv.Crypto.Secrets.{
  verify_handshake_frame-sign, responder_accept_lem, initiator_finish_lem, response_body,
  session_secret, same_key_refl, compute_sas_comm, length-response_body,
}

-- What a step adds to the transcript.
abbrev pub entry : Bytes → Bytes
entry body = u32_be_bytes (length body % 2 ^ 32) ++ body

module _ {Inner : Type 0} (p : Primitives Inner) (laws : PrimitivesLaws p) where
  extract_bob_ratchet_pk_lem :
      (xs key : Bytes) → length key ≡ 32 → extract_bob_ratchet_pk (xs ++ key) ≡ ok key
  unfolding extract_bob_ratchet_pk
  extract_bob_ratchet_pk_lem xs key e =
      let total : length (xs ++ key) ≡ length xs + 32 = omega (arith, length-append xs key) in
      let start : length xs + 32 - 32 ≡ length xs = omega arith in
      rw total (rw start (rw (drop_prefix (length xs) xs key refl) (ground arith)))

  strip_ratchet_pk_for_kex_lem :
      (xs key : Bytes)
      → length xs ≡ 32 + 1088
      → length key ≡ 32
      → strip_ratchet_pk_for_kex (xs ++ key) ≡ ok xs
  unfolding strip_ratchet_pk_for_kex
  strip_ratchet_pk_for_kex_lem xs key e f =
      let total : length (xs ++ key) ≡ 1152 = omega (arith, length-append xs key) in
      rw (total, take_prefix (32 + 1088) xs key e) refl

  module _ (alice_seed bob_seed alice dk bob random ratchet_random : Bytes) where
    abbrev pub first_body : Bytes
    first_body = initiator_message (initiator p alice dk)

    abbrev pub secret : Bytes
    secret = session_secret p laws alice dk bob random

    abbrev pub bob_ratchet : SessionRatchet Inner × Bytes
    bob_ratchet = init_responder p ratchet_random secret

    abbrev pub second_body : Bytes
    second_body = response_body p laws dk bob random ++ bob_ratchet.1

    length-bob_ratchet_pk : length bob_ratchet.1 ≡ 32
    unfolding init_responder
    length-bob_ratchet_pk = laws.length-init_bob (derive_ratchet_sk p secret) ratchet_random

    abbrev pub two_steps : Bytes
    two_steps = (([] ++ entry first_body) ++ entry second_body)

    pub bob_after_step1 :
        responder_process_step1 p bob random ratchet_random bob_seed
          (sign_handshake p alice_seed 1 first_body)
          new_connected
        ≡ (
          ok (
            sign_handshake p bob_seed 2 second_body,
            record (responder p bob) { x25519_secret = none; shared_secret = some secret },
          ),
          record {
            remote_identity = public_key_bytes p alice_seed;
            trust = handshaking;
            ratchet = some (bob_ratchet.0);
            transcript = record { bytes = two_steps; next_step = 3 };
            shared_secret = some secret;
          },
        )
    unfolding responder_process_step1 Stateful.◌>>=◌ Stateful.◌>>◌ Stateful.lift Stateful.updates
        Stateful.reads record_step append_body sign_handshake
    bob_after_step1 =
        rw (verify_handshake_frame-sign p laws alice_seed 1 first_body)
          (rw (responder_accept_lem p laws alice dk bob random) refl)

    abbrev pub alice_started : PeerCrypto Inner
    alice_started =
        (record_initiator_step1 first_body (begin_initiator p alice dk new_connected).1).1

    abbrev pub alice_exchange : HybridKeyExchange
    alice_exchange = (begin_initiator p alice dk new_connected).0.1

    pub alice_after_step2 :
        initiator_process_step2 p
          (sign_handshake p bob_seed 2 second_body)
          (public_key_bytes p bob_seed)
          (alice_started, alice_exchange)
        ≡ (
          ok (0x01 ∷ []),
          (
            record {
              remote_identity = public_key_bytes p bob_seed;
              trust = handshaking;
              ratchet = some (init_initiator p secret bob_ratchet.1);
              transcript = record { bytes = two_steps; next_step = 3 };
              shared_secret = some secret;
            },
            record (initiator p alice dk) {
              x25519_secret = none;
              mlkem_dk = none;
              shared_secret = none;
            },
          ),
        )
    unfolding initiator_process_step2 Stateful.◌>>=◌ Stateful.◌>>◌ Stateful.lift Stateful.updates
        Stateful.reads on_peer on_exchange record_step append_body sign_handshake begin_initiator
        take_shared_secret
    alice_after_step2 = rw (verify_handshake_frame-sign p laws bob_seed 2 second_body) (
        rw (same_key_refl (public_key_bytes p bob_seed)) (
          rw
            (
              strip_ratchet_pk_for_kex_lem (response_body p laws dk bob random) bob_ratchet.1
                  (length-response_body p laws dk bob random) length-bob_ratchet_pk,
              extract_bob_ratchet_pk_lem (response_body p laws dk bob random) bob_ratchet.1
                  length-bob_ratchet_pk,
            )
            (rw (initiator_finish_lem p laws alice dk bob random) refl)))

    abbrev pub transcript_bytes : Bytes
    transcript_bytes = two_steps ++ entry (0x01 ∷ [])

    abbrev pub sas : Bytes
    sas =
        compute_sas_with_transcript p secret (public_key_bytes p alice_seed)
          (public_key_bytes p bob_seed) transcript_bytes

    abbrev pub finished : Bytes → SessionRatchet Inner → PeerCrypto Inner
    finished remote ratchet = record {
      remote_identity = remote;
      trust = sas_pending sas;
      ratchet = some ratchet;
      transcript = record { bytes = transcript_bytes; next_step = 4 };
      shared_secret = some secret;
    }

    abbrev pub alice_done : PeerCrypto Inner
    alice_done = finished (public_key_bytes p bob_seed) (init_initiator p secret bob_ratchet.1)

    abbrev pub bob_done : PeerCrypto Inner
    bob_done = finished (public_key_bytes p alice_seed) (bob_ratchet.0)

    pub alice_after_step3 :
        initiator_finalize_step3 p alice_seed (0x01 ∷ []) (record alice_done {
          trust = handshaking;
          transcript = record { bytes = two_steps; next_step = 3 };
        })
        ≡ (ok sas, alice_done)
    unfolding initiator_finalize_step3 Stateful.◌>>=◌ Stateful.◌>>◌ Stateful.lift Stateful.updates
        Stateful.reads record_step append_body finalize_sas
    alice_after_step3 = refl

    bob_after_step3 :
        responder_process_step3 p bob_seed
          (sign_handshake p alice_seed 3 (0x01 ∷ []))
          (record bob_done {
            trust = handshaking;
            transcript = record { bytes = two_steps; next_step = 3 };
          })
        ≡ (ok sas, bob_done)
    unfolding responder_process_step3 Stateful.◌>>=◌ Stateful.◌>>◌ Stateful.lift Stateful.updates
        Stateful.reads record_step append_body finalize_sas sign_handshake
    bob_after_step3 = rw (verify_handshake_frame-sign p laws alice_seed 3 (0x01 ∷ [])) (
        rw (same_key_refl (public_key_bytes p alice_seed)) (
          rw
            (compute_sas_comm p secret (public_key_bytes p bob_seed) (public_key_bytes p alice_seed)
              transcript_bytes)
            refl))

-- The steps of both sides in their order: what each ends with, if every step succeeds.
unfoldable pub honest_handshake :
    {Inner : Type 0}
    → Primitives Inner
    → Bytes
    → Bytes
    → Bytes
    → Bytes
    → Bytes
    → Bytes
    → Bytes
    → Option ((PeerCrypto Inner × Bytes) × (PeerCrypto Inner × Bytes))
honest_handshake p alice_seed bob_seed alice dk bob random ratchet_random =
    let ((body1, exchange), a0) = begin_initiator p alice dk new_connected in
    let (recorded, a1) = record_initiator_step1 body1 a0 in
    let (answer, b1) =
      responder_process_step1 p bob random ratchet_random bob_seed
        (sign_handshake p alice_seed 1 body1) new_connected in
    elim answer [
      | err e ↦ none
      | ok (frame2, exchange_b) ↦
          (let (third, (a2, exchange_a)) =
              initiator_process_step2 p frame2 (public_key_bytes p bob_seed) (a1, exchange) in
            elim third [
              | err e ↦ none
              | ok body3 ↦
                  (let (sas_a, a3) = initiator_finalize_step3 p alice_seed body3 a2 in
                    let (sas_b, b2) =
                      responder_process_step3 p bob_seed (sign_handshake p alice_seed 3 body3) b1 in
                    elim sas_a [
                      | err e ↦ none
                      | ok x ↦ (elim sas_b [ err e ↦ none | ok y ↦ some ((a3, x), (b2, y)) ])
                    ])
            ])
    ]

-- What two sides have in common after a handshake.
pub record Agree {Inner : Type 0} (a b : PeerCrypto Inner) (sas_a sas_b : Bytes) : Type 0 where
  pub same_sas : sas_a ≡ sas_b
  pub pending_a : a.trust ≡ sas_pending sas_a
  pub pending_b : b.trust ≡ sas_pending sas_b
  pub same_secret : a.shared_secret ≡ b.shared_secret
  pub same_transcript : a.transcript ≡ b.transcript
  pub finished_both : is_finished a.transcript ≡ true

-- If the primitives keep their laws, the steps of an honest handshake all succeed, and both sides
-- end waiting for the comparison of the same safety number, with the same secret, the same
-- finished transcript, and each other's identity.
pub honest_handshake-Agree :
    {Inner : Type 0} (p : Primitives Inner) (laws : PrimitivesLaws p)
    (alice_seed bob_seed alice dk bob random ratchet_random : Bytes)
    → (a : PeerCrypto Inner) × (b : PeerCrypto Inner) × (sas_a : Bytes) × (sas_b : Bytes)
      × (honest_handshake p alice_seed bob_seed alice dk bob random ratchet_random
          ≡ some ((a, sas_a), (b, sas_b)))
      × Agree a b sas_a sas_b
      × (a.remote_identity ≡ public_key_bytes p bob_seed)
      × (b.remote_identity ≡ public_key_bytes p alice_seed)
unfolding honest_handshake begin_initiator record_step append_body
honest_handshake-Agree p laws alice_seed bob_seed alice dk bob random ratchet_random = (
  alice_done p laws alice_seed bob_seed alice dk bob random ratchet_random,
  bob_done p laws alice_seed bob_seed alice dk bob random ratchet_random,
  sas p laws alice_seed bob_seed alice dk bob random ratchet_random,
  sas p laws alice_seed bob_seed alice dk bob random ratchet_random,
  rw
      (
        bob_after_step1 p laws alice_seed bob_seed alice dk bob random ratchet_random,
        honest_handshake,
      )
      (rw (alice_after_step2 p laws alice_seed bob_seed alice dk bob random ratchet_random) (
        rw (alice_after_step2 p laws alice_seed bob_seed alice dk bob random ratchet_random) (
          rw (alice_after_step3 p laws alice_seed bob_seed alice dk bob random ratchet_random) (
            rw (bob_after_step1 p laws alice_seed bob_seed alice dk bob random ratchet_random) (
              rw (bob_after_step3 p laws alice_seed bob_seed alice dk bob random ratchet_random) (
                rw (alice_after_step2 p laws alice_seed bob_seed alice dk bob random ratchet_random)
                  (rw
                    (
                      alice_after_step3 p laws alice_seed bob_seed alice dk bob random
                          ratchet_random,
                      bob_after_step1 p laws alice_seed bob_seed alice dk bob random ratchet_random,
                    )
                    (rw
                      (bob_after_step3 p laws alice_seed bob_seed alice dk bob random
                        ratchet_random)
                      refl)))))))),
  record {
    same_sas = refl;
    pending_a = refl;
    pending_b = refl;
    same_secret = refl;
    same_transcript = refl;
    finished_both = refl;
  },
  refl,
  refl,
)
