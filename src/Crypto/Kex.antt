-- ===== src/Crypto/Kex.antt =====
-- core/src/crypto/handshake.rs: the hybrid key exchange of X25519 and ML-KEM-768.
use srltcpv.Base.{
  ◌+◌, Option, none, some, [], ◌∷◌, ◌++◌, Bytes, length, take, drop, leb, ok, err, require,
}
use srltcpv.Base.Stateful.{Stateful, lift, updates, ◌>>=◌, ◌>>◌}
use srltcpv.Crypto.Primitives.{Primitives}
use srltcpv.Crypto.Wire.{CryptoError, too_short, secret_used, no_mlkem_secret, invalid_mlkem_key}

pub record HybridKeyExchange : Type 0 where
  pub x25519_secret : Option Bytes
  pub x25519_public : Bytes
  pub mlkem_dk : Option Bytes
  pub mlkem_ek_bytes : Bytes
  pub shared_secret : Option Bytes

abbrev pub Exchange : Type 0 → Type 0
Exchange A = Stateful HybridKeyExchange CryptoError A

-- `Option::take`, with the error for a secret that was used before.
abbrev pub take_x25519_secret : Exchange Bytes
take_x25519_secret k = elim k.x25519_secret [
  | none ↦ (err secret_used, k)
  | some s ↦ (ok s, record k { x25519_secret = none })
]

abbrev pub take_mlkem_dk : Exchange Bytes
take_mlkem_dk k = elim k.mlkem_dk [
  | none ↦ (err no_mlkem_secret, k)
  | some s ↦ (ok s, record k { mlkem_dk = none })
]

-- The bytes of "srltcp-v2-hybrid-kex".
abbrev pub kex_info : Bytes
kex_info =
    b's' ∷ b'r' ∷ b'l' ∷ b't' ∷ b'c' ∷ b'p' ∷ 0x2D ∷ b'v' ∷ b'2' ∷ 0x2D ∷ b'h' ∷ b'y' ∷ b'b' ∷ b'r'
    ∷ b'i' ∷ b'd' ∷ 0x2D ∷ b'k' ∷ b'e' ∷ b'x' ∷ []

module _ {Inner : Type 0} (p : Primitives Inner) where
  -- The random X25519 secret and ML-KEM decapsulation key are arguments.
  unfoldable pub initiator : Bytes → Bytes → HybridKeyExchange
  initiator secret dk = record {
    x25519_secret = some secret;
    x25519_public = p.x25519_public secret;
    mlkem_dk = some dk;
    mlkem_ek_bytes = p.mlkem_ek dk;
    shared_secret = none;
  }

  unfoldable pub responder : Bytes → HybridKeyExchange
  responder secret = record {
    x25519_secret = some secret;
    x25519_public = p.x25519_public secret;
    mlkem_dk = none;
    mlkem_ek_bytes = [];
    shared_secret = none;
  }

  unfoldable pub combine_secrets : Bytes → Bytes → Bytes
  combine_secrets x25519 mlkem = p.hkdf (x25519 ++ mlkem) kex_info

  -- `random` is what the encapsulation draws.
  unfoldable pub responder_accept : Bytes → Bytes → Exchange Bytes
  responder_accept random initiator_msg = do
    lift (require (leb (32 + 1184) (length initiator_msg)) too_short)
    secret ← take_x25519_secret
    lift (require (p.mlkem_is_key (take 1184 (drop 32 initiator_msg))) invalid_mlkem_key)
    let x25519_shared = p.diffie_hellman secret (take 32 initiator_msg)
    let encapsulated = p.mlkem_encapsulate (take 1184 (drop 32 initiator_msg)) random
    let shared = combine_secrets x25519_shared encapsulated.1
    λ k. (ok (k.x25519_public ++ encapsulated.0), record k { shared_secret = some shared })

  unfoldable pub initiator_finish : Bytes → Exchange (Unit {0})
  initiator_finish responder_msg = do
    lift (require (leb (32 + 1088) (length responder_msg)) too_short)
    secret ← take_x25519_secret
    dk ← take_mlkem_dk
    let x25519_shared = p.diffie_hellman secret (take 32 responder_msg)
    let mlkem_shared = p.mlkem_decapsulate dk (take 1088 (drop 32 responder_msg))
    updates (λ (k : HybridKeyExchange). record k {
      shared_secret = some (combine_secrets x25519_shared mlkem_shared);
    })

unfoldable pub initiator_message : HybridKeyExchange → Bytes
initiator_message k = k.x25519_public ++ k.mlkem_ek_bytes

unfoldable pub take_shared_secret : HybridKeyExchange → Option Bytes × HybridKeyExchange
take_shared_secret k = (k.shared_secret, record k { shared_secret = none })
