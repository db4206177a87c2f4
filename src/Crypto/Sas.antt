-- ===== src/Crypto/Sas.antt =====
-- core/src/crypto/identity.rs: signatures, and the short authentication string.
use srltcpv.Base.{
  ℕ, ◌+◌, ◌/◌, ◌%◌, Bool, true, false, [], ◌∷◌, ◌++◌, Bytes, length, get_or, ◌==◌, ltb,
  if◌then◌else◌, Result, ◌>>◌, require, u32_from_be,
}
use srltcpv.Crypto.Primitives.{Primitives}
use srltcpv.Crypto.Wire.{CryptoError, invalid_key, bad_signature}

-- The order of byte slices.
unfoldable pub lex_lt : Bytes → Bytes → Bool
lex_lt [] [] = false
lex_lt [] (y ∷ ys) = true
lex_lt (x ∷ xs) [] = false
lex_lt (x ∷ xs) (y ∷ ys) = let rest = lex_lt xs ys in if x == y then rest else ltb x y

-- `{val:06}` of a number below 1,000,000, in ASCII.
abbrev pub six_digits : ℕ → Bytes
six_digits v =
    (b'0' + v / 100000 % 10)
    ∷ (b'0' + v / 10000 % 10)
    ∷ (b'0' + v / 1000 % 10)
    ∷ (b'0' + v / 100 % 10)
    ∷ (b'0' + v / 10 % 10)
    ∷ (b'0' + v % 10)
    ∷ []

module _ {Inner : Type 0} (p : Primitives Inner) where
  -- An identity is its 32-byte seed.
  unfoldable pub public_key_bytes : Bytes → Bytes
  public_key_bytes seed = p.ed25519_public seed

  unfoldable pub verify : Bytes → Bytes → Bytes → Result CryptoError (Unit {0})
  verify public_key message signature = do
    require (length public_key == 32) invalid_key
    require (length signature == 64) invalid_key
    require (p.ed25519_is_key public_key) invalid_key
    require (p.ed25519_verify public_key message signature) bad_signature

  -- The smaller key first.
  abbrev pub canonical_keys : Bytes → Bytes → Bytes
  canonical_keys local_pk remote_pk =
      if lex_lt local_pk remote_pk then local_pk ++ remote_pk else remote_pk ++ local_pk

  unfoldable pub compute_sas_with_transcript : Bytes → Bytes → Bytes → Bytes → Bytes
  compute_sas_with_transcript shared_secret local_pk remote_pk transcript =
      let hash = p.sha256 (canonical_keys local_pk remote_pk ++ (shared_secret ++ transcript)) in
      six_digits (u32_from_be 0 (get_or hash 0 0) (get_or hash 1 0) (get_or hash 2 0) % 1000000)
