-- ===== src/Crypto/Secrets.antt =====
-- core/src/crypto: what the primitives give in an honest run: the same secret on both sides, a
-- signature that verifies, and a safety number that does not depend on the side.
use srltcpv.Base.{
  ℕ, ◌+◌, ◌≡◌, refl, inl, inr, true, false, none, some, [], ◌∷◌, ◌++◌, Bytes, length, ==_refl,
  Bool-cases, ok, arith, length-append, take_prefix, drop_prefix, take_whole,
}
use srltcpv.Base.Stateful
use srltcpv.Crypto.Primitives.{Primitives, PrimitivesLaws}
use srltcpv.Crypto.Kex.{
  initiator, responder, initiator_message, initiator_finish, responder_accept, combine_secrets,
}
use srltcpv.Crypto.Sas.{
  lex_lt, verify, public_key_bytes, compute_sas_with_transcript, canonical_keys,
}
use srltcpv.Crypto.Peer.{sign_handshake, verify_handshake_frame, sign_input, same_key}

pub same_key_refl : (k : Bytes) → same_key k k ≡ true
unfolding same_key
same_key_refl [] = refl
same_key_refl (x ∷ xs) = rw (==_refl x) (same_key_refl xs)

pub lex_lt_asym : (a b : Bytes) → lex_lt a b ≡ true → lex_lt b a ≡ false
unfolding lex_lt
lex_lt_asym [] [] h = refl
lex_lt_asym [] (y ∷ ys) h = refl
lex_lt_asym (x ∷ xs) [] h = absurd (ground arith)
lex_lt_asym (x ∷ xs) (y ∷ ys) h = ground (arith, lex_lt_asym xs ys)

pub lex_lt_total : (a b : Bytes) → lex_lt a b ≡ false → lex_lt b a ≡ false → a ≡ b
unfolding lex_lt
lex_lt_total [] [] h k = refl
lex_lt_total [] (y ∷ ys) h k = absurd (ground arith)
lex_lt_total (x ∷ xs) [] h k = absurd (ground arith)
lex_lt_total (x ∷ xs) (y ∷ ys) h k = ground (arith, lex_lt_total xs ys)

module _ {Inner : Type 0} (p : Primitives Inner) where
  canonical_keys_comm : (a b : Bytes) → canonical_keys p a b ≡ canonical_keys p b a
  canonical_keys_comm a b = elim (Bool-cases (lex_lt a b)) [
    | inl e ↦ rw (e, lex_lt_asym a b e)
    | inr e ↦ elim (Bool-cases (lex_lt b a)) [
      | inl f ↦ rw (e, f)
      | inr f ↦ (let same : a ≡ b = lex_lt_total a b e f in rw (e, f) (rw same))
    ]
  ]

  -- The safety number is the same seen from either side.
  pub compute_sas_comm :
      (secret a b t : Bytes)
      → compute_sas_with_transcript p secret a b t ≡ compute_sas_with_transcript p secret b a t
  unfolding compute_sas_with_transcript
  compute_sas_comm secret a b t = rw (canonical_keys_comm a b)

module _ {Inner : Type 0} (p : Primitives Inner) (laws : PrimitivesLaws p) where
  pub verify_handshake_frame-sign :
      (seed : Bytes) (step : ℕ) (body : Bytes)
      → verify_handshake_frame p (sign_handshake p seed step body) ≡ ok tt
  unfolding verify_handshake_frame sign_handshake verify public_key_bytes
  verify_handshake_frame-sign seed step body =
      rw
        (
          laws.length-ed25519_sign seed (sign_input step (p.ed25519_public seed) body),
          laws.length-ed25519_public seed,
          laws.ed25519_public_is_key seed,
          laws.ed25519_verify-sign seed (sign_input step (p.ed25519_public seed) body),
        )
        refl

  -- What both sides derive.
  abbrev pub session_secret : Bytes → Bytes → Bytes → Bytes → Bytes
  session_secret alice dk bob random =
      combine_secrets p (p.diffie_hellman bob (p.x25519_public alice))
        (p.mlkem_encapsulate (p.mlkem_ek dk) random).1

  abbrev pub response_body : Bytes → Bytes → Bytes → Bytes
  response_body dk bob random =
      p.x25519_public bob ++ (p.mlkem_encapsulate (p.mlkem_ek dk) random).0

  length-initiator_body :
      (alice dk : Bytes) → length (p.x25519_public alice ++ p.mlkem_ek dk) ≡ 32 + 1184
  length-initiator_body alice dk = omega (
    arith,
    length-append (p.x25519_public alice) (p.mlkem_ek dk),
    laws.length-x25519_public alice,
    laws.length-mlkem_ek dk,
  )

  pub responder_accept_lem :
      (alice dk bob random : Bytes)
      → responder_accept p random (initiator_message (initiator p alice dk)) (responder p bob) ≡ (
        ok (response_body dk bob random),
        record (responder p bob) {
          x25519_secret = none;
          shared_secret = some (session_secret alice dk bob random);
        },
      )
  unfolding responder_accept Stateful.◌>>=◌ Stateful.◌>>◌ Stateful.lift Stateful.updates
      initiator_message initiator responder
  responder_accept_lem alice dk bob random = rw (length-initiator_body alice dk) (
      rw
        (
          drop_prefix 32 (p.x25519_public alice) (p.mlkem_ek dk) (laws.length-x25519_public alice),
          take_prefix 32 (p.x25519_public alice) (p.mlkem_ek dk) (laws.length-x25519_public alice),
          take_whole 1184 (p.mlkem_ek dk) (laws.length-mlkem_ek dk),
          laws.mlkem_ek_is_key dk,
        )
        refl)

  pub length-response_body :
      (dk bob random : Bytes) → length (response_body dk bob random) ≡ 32 + 1088
  length-response_body dk bob random = omega (
    arith,
    length-append (p.x25519_public bob) (p.mlkem_encapsulate (p.mlkem_ek dk) random).0,
    laws.length-x25519_public bob,
    laws.length-mlkem_encapsulate (p.mlkem_ek dk) random,
  )

  pub initiator_finish_lem :
      (alice dk bob random : Bytes)
      → initiator_finish p (response_body dk bob random) (initiator p alice dk) ≡ (
        ok tt,
        record (initiator p alice dk) {
          x25519_secret = none;
          mlkem_dk = none;
          shared_secret = some (session_secret alice dk bob random);
        },
      )
  unfolding initiator_finish Stateful.◌>>=◌ Stateful.◌>>◌ Stateful.lift Stateful.updates initiator
  initiator_finish_lem alice dk bob random =
      let ct = (p.mlkem_encapsulate (p.mlkem_ek dk) random).0 in
      rw (length-response_body dk bob random) (
        rw
          (
            drop_prefix 32 (p.x25519_public bob) ct (laws.length-x25519_public bob),
            take_prefix 32 (p.x25519_public bob) ct (laws.length-x25519_public bob),
            take_whole 1088 ct (laws.length-mlkem_encapsulate (p.mlkem_ek dk) random),
            laws.mlkem_decapsulate-encapsulate dk random,
            laws.diffie_hellman_comm alice bob,
          )
          refl)
