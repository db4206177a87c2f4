-- ===== src/Crypto/Toy.antt =====
-- Primitives with the laws, for the examples: no cryptography, only its equations.
use srltcpv.Base.{
  ℕ, zero, suc, ◌+◌, ◌*◌, ◌≡◌, refl, true, Option, none, some, [], ◌∷◌, ◌++◌, Bytes, length, get_or,
  ◌==◌, if◌then◌else◌, arith,
}
use srltcpv.Crypto.Primitives.{Primitives, PrimitivesLaws, RatchetEnvelope}
use native.Mathlib.Nat as Nat

abbrev pub first : Bytes → ℕ
first bs = get_or bs 0 0

-- A number in a byte string of length `suc n`.
unfoldable pub pad : ℕ → ℕ → Bytes
pad zero x = x ∷ []
pad (suc n) x = x ∷ pad n 0

length-pad : (n x : ℕ) → length (pad n x) ≡ suc n
unfolding pad
length-pad zero x = refl
length-pad (suc n) x = omega (arith, length-pad n 0)

first-pad : (n x : ℕ) → first (pad n x) ≡ x
unfolding pad
first-pad zero x = refl
first-pad (suc n) x = refl

unfoldable pub toy_decrypt : RatchetEnvelope → Bytes → ℕ → Option Bytes × ℕ
toy_decrypt env ad i =
    if first env.header_bytes == i then (some env.ciphertext, i + 1) else (none, i + 7)

unfoldable pub toy_restore : Bytes → Option ℕ
toy_restore [] = none
toy_restore (i ∷ is) = some i

unfoldable pub toy_envelope : Bytes → Option RatchetEnvelope
toy_envelope [] = none
toy_envelope (h ∷ ct) = some (record { header_bytes = h ∷ []; ciphertext = ct; nonce = [] })

abbrev pub toy : Primitives ℕ
toy = record {
  x25519_public = λ s. pad 31 (first s);
  diffie_hellman = λ s pk. (first s * first pk) ∷ [];
  mlkem_ek = λ dk. pad 1183 (first dk);
  mlkem_is_key = λ ek. true;
  mlkem_encapsulate = λ ek r. (pad 1087 (first r), (first ek + first r) ∷ []);
  mlkem_decapsulate = λ dk ct. (first dk + first ct) ∷ [];
  hkdf = λ ikm info. ikm;
  sha256 = λ bs. bs;
  ed25519_public = λ s. pad 31 (first s);
  ed25519_is_key = λ pk. true;
  ed25519_sign = λ s m. pad 63 (first s);
  ed25519_verify = λ pk m sig. first pk == first sig;
  init_alice = λ sk pk. 0;
  init_bob = λ sk r. (0, pad 31 (first r));
  ratchet_encrypt =
      λ r pt ad i. (record { header_bytes = i ∷ []; ciphertext = pt; nonce = r }, i + 1);
  ratchet_decrypt = toy_decrypt;
  bincode_serialize = λ i. some (i ∷ []);
  bincode_deserialize = toy_restore;
  envelope_encode = λ env. some (env.header_bytes ++ env.ciphertext);
  envelope_decode = toy_envelope;
}

toy_restored :
    (i : ℕ) (b : Bytes) → ◌≡◌ {A = Option Bytes} (some (i ∷ [])) (some b) → toy_restore b ≡ some i
unfolding toy_restore
toy_restored i [] h = absurd (ground arith)
toy_restored i (j ∷ b) h = ground arith

pub toy-PrimitivesLaws : PrimitivesLaws toy
toy-PrimitivesLaws = record {
  diffie_hellman_comm = λ a b.
      rw (first-pad 31 (first a), first-pad 31 (first b)) (rw (Nat.mul_comm (first a) (first b)));
  length-x25519_public = λ s. length-pad 31 (first s);
  length-mlkem_ek = λ dk. length-pad 1183 (first dk);
  mlkem_ek_is_key = λ dk. refl;
  length-mlkem_encapsulate = λ ek r. length-pad 1087 (first r);
  mlkem_decapsulate-encapsulate =
      λ dk r. rw (first-pad 1087 (first r), first-pad 1183 (first dk)) refl;
  length-ed25519_public = λ s. length-pad 31 (first s);
  ed25519_public_is_key = λ s. refl;
  length-ed25519_sign = λ s m. length-pad 63 (first s);
  ed25519_verify-sign = λ s m. rw (first-pad 31 (first s), first-pad 63 (first s)) (ground arith);
  length-init_bob = λ sk r. length-pad 31 (first r);
  bincode-restore = toy_restored;
}
