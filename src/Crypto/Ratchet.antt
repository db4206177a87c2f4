-- ===== src/Crypto/Ratchet.antt =====
-- core/src/crypto/ratchet.rs: the double ratchet session around the crate's ratchet.
use srltcpv.Base.{
  Bool, true, false, not, Option, none, some, [], ◌∷◌, Bytes, if◌then◌else◌, Result, ok, err, ok_or,
  ◌||◌,
}
use srltcpv.Crypto.Primitives.{Primitives, RatchetEnvelope}
use srltcpv.Crypto.Wire.{CryptoError, decrypt_failed, invalid_state, encode_failed}

pub record SessionRatchet (Inner : Type 0) : Type 0 where
  pub inner : Inner
  pub is_initiator : Bool
  pub send_ready : Bool
  pub bob_ratchet_pk : Option Bytes

-- The bytes of "srltcp-v3" and of "srltcp-v3-ratchet-root".
abbrev pub ratchet_ad : Bytes
ratchet_ad = b's' ∷ b'r' ∷ b'l' ∷ b't' ∷ b'c' ∷ b'p' ∷ 0x2D ∷ b'v' ∷ b'3' ∷ []

abbrev pub root_info : Bytes
root_info =
    b's' ∷ b'r' ∷ b'l' ∷ b't' ∷ b'c' ∷ b'p' ∷ 0x2D ∷ b'v' ∷ b'3' ∷ 0x2D ∷ b'r' ∷ b'a' ∷ b't' ∷ b'c'
    ∷ b'h' ∷ b'e' ∷ b't' ∷ 0x2D ∷ b'r' ∷ b'o' ∷ b'o' ∷ b't' ∷ []

module _ {Inner : Type 0} (p : Primitives Inner) where
  unfoldable pub derive_ratchet_sk : Bytes → Bytes
  derive_ratchet_sk shared_secret = p.hkdf shared_secret root_info

  -- `random` is what the ratchet key pair is drawn from.
  unfoldable pub init_responder : Bytes → Bytes → SessionRatchet Inner × Bytes
  init_responder random shared_secret =
      let (inner, bob_pk) = p.init_bob (derive_ratchet_sk shared_secret) random in
      (
        record {
          inner = inner;
          is_initiator = false;
          send_ready = false;
          bob_ratchet_pk = some bob_pk;
        },
        bob_pk,
      )

  unfoldable pub init_initiator : Bytes → Bytes → SessionRatchet Inner
  init_initiator shared_secret bob_ratchet_pk = record {
    inner = p.init_alice (derive_ratchet_sk shared_secret) bob_ratchet_pk;
    is_initiator = true;
    send_ready = true;
    bob_ratchet_pk = none;
  }

  unfoldable pub encrypt_message :
      Bytes
      → Bytes
      → SessionRatchet Inner
      → Result CryptoError RatchetEnvelope × SessionRatchet Inner
  encrypt_message random plaintext s =
      if not s.send_ready
      then (err invalid_state, s)
      else (let (envelope, inner) = p.ratchet_encrypt random plaintext ratchet_ad s.inner in
          (ok envelope, record s { inner = inner }))

  -- After `catch_unwind`: a panic puts the snapshot back.
  unfoldable pub settle :
      Bytes
      → SessionRatchet Inner
      → Option Bytes × Inner
      → Result CryptoError Bytes × SessionRatchet Inner
  settle snapshot s (some plaintext, inner) =
      (ok plaintext, record s { inner = inner; send_ready = not s.is_initiator || s.send_ready })
  settle snapshot s (none, inner) = elim (p.bincode_deserialize snapshot) [
    | none ↦ (err invalid_state, record s { inner = inner })
    | some restored ↦ (err decrypt_failed, record s { inner = restored })
  ]

  unfoldable pub decrypt_message :
      RatchetEnvelope → SessionRatchet Inner → Result CryptoError Bytes × SessionRatchet Inner
  decrypt_message envelope s = elim (p.bincode_serialize s.inner) [
    | none ↦ (err encode_failed, s)
    | some snapshot ↦ settle snapshot s (p.ratchet_decrypt envelope ratchet_ad s.inner)
  ]

  unfoldable pub encrypt_to_bytes :
      Bytes → Bytes → SessionRatchet Inner → Result CryptoError Bytes × SessionRatchet Inner
  encrypt_to_bytes random plaintext s =
      let (envelope, s') = encrypt_message random plaintext s in
      (elim envelope [ err e ↦ err e | ok env ↦ ok_or (p.envelope_encode env) encode_failed ], s')

  unfoldable pub decrypt_from_bytes :
      Bytes → SessionRatchet Inner → Result CryptoError Bytes × SessionRatchet Inner
  decrypt_from_bytes bytes s = elim (p.envelope_decode bytes) [
    | none ↦ (err decrypt_failed, s)
    | some envelope ↦ decrypt_message envelope s
  ]
