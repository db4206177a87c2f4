-- ===== src/Crypto/Primitives.antt =====
-- The crates behind core/src/crypto, as parameters: x25519-dalek, ml-kem, hkdf, sha2,
-- ed25519-dalek, double-ratchet-2, bincode and postcard. Random bytes are arguments. A key, a
-- signature and a ciphertext are byte strings.
use srltcpv.Base.{◌≡◌, Bool, true, Option, some, Bytes, length}

-- The header bytes, the ciphertext and the nonce of a ratchet message.
pub record RatchetEnvelope : Type 0 where
  pub header_bytes : Bytes
  pub ciphertext : Bytes
  pub nonce : Bytes

-- `Inner` is the state of a double ratchet.
pub record Primitives (Inner : Type 0) : Type 0 where
  pub x25519_public : Bytes → Bytes
  pub diffie_hellman : Bytes → Bytes → Bytes
  pub mlkem_ek : Bytes → Bytes
  pub mlkem_is_key : Bytes → Bool
  pub mlkem_encapsulate : Bytes → Bytes → Bytes × Bytes
  pub mlkem_decapsulate : Bytes → Bytes → Bytes
  pub hkdf : Bytes → Bytes → Bytes
  pub sha256 : Bytes → Bytes
  pub ed25519_public : Bytes → Bytes
  pub ed25519_is_key : Bytes → Bool
  pub ed25519_sign : Bytes → Bytes → Bytes
  pub ed25519_verify : Bytes → Bytes → Bytes → Bool
  pub init_alice : Bytes → Bytes → Inner
  pub init_bob : Bytes → Bytes → Inner × Bytes
  pub ratchet_encrypt : Bytes → Bytes → Bytes → Inner → RatchetEnvelope × Inner
  -- `none` is a panic, which may leave a changed state behind.
  pub ratchet_decrypt : RatchetEnvelope → Bytes → Inner → Option Bytes × Inner
  pub bincode_serialize : Inner → Option Bytes
  pub bincode_deserialize : Bytes → Option Inner
  pub envelope_encode : RatchetEnvelope → Option Bytes
  pub envelope_decode : Bytes → Option RatchetEnvelope

-- What the documentation of the crates promises.
pub record PrimitivesLaws {Inner : Type 0} (p : Primitives Inner) : Type 0 where
  pub diffie_hellman_comm :
      (a b : Bytes)
      → p.diffie_hellman a (p.x25519_public b) ≡ p.diffie_hellman b (p.x25519_public a)
  pub length-x25519_public : (s : Bytes) → length (p.x25519_public s) ≡ 32
  pub length-mlkem_ek : (dk : Bytes) → length (p.mlkem_ek dk) ≡ 1184
  pub mlkem_ek_is_key : (dk : Bytes) → p.mlkem_is_key (p.mlkem_ek dk) ≡ true
  pub length-mlkem_encapsulate : (ek r : Bytes) → length (p.mlkem_encapsulate ek r).0 ≡ 1088
  pub mlkem_decapsulate-encapsulate :
      (dk r : Bytes)
      → p.mlkem_decapsulate dk (p.mlkem_encapsulate (p.mlkem_ek dk) r).0
        ≡ (p.mlkem_encapsulate (p.mlkem_ek dk) r).1
  pub length-ed25519_public : (s : Bytes) → length (p.ed25519_public s) ≡ 32
  pub ed25519_public_is_key : (s : Bytes) → p.ed25519_is_key (p.ed25519_public s) ≡ true
  pub length-ed25519_sign : (s m : Bytes) → length (p.ed25519_sign s m) ≡ 64
  pub ed25519_verify-sign :
      (s m : Bytes) → p.ed25519_verify (p.ed25519_public s) m (p.ed25519_sign s m) ≡ true
  pub length-init_bob : (sk r : Bytes) → length (p.init_bob sk r).1 ≡ 32
  pub bincode-restore :
      (i : Inner) (b : Bytes) → p.bincode_serialize i ≡ some b → p.bincode_deserialize b ≡ some i
