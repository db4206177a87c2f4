-- ===== src/Crypto/Transcript.antt =====
-- core/src/crypto/wire.rs: the bytes of a transcript tell its bodies apart.
use srltcpv.Base.{
  ℕ, ◌%◌, ◌/◌, ◌^◌, ◌<◌, ◌≡◌, ◌∙◌, sym, ap, [], ◌∷◌, ◌++◌, Bytes, length, take, drop, append_assoc,
  append-nil, take-append, drop-append, take_prefix, drop_prefix, arith,
}
use srltcpv.Base.Stateful.{Stateful, ◌>>◌}
use srltcpv.Crypto.Wire.{CryptoError, HandshakeTranscript, append_body, empty_transcript}
use srltcpv.Crypto.Agreement.{entry}

-- The three steps in their order.
unfoldable pub record_bodies :
    Bytes → Bytes → Bytes → Stateful HandshakeTranscript CryptoError (Unit {0})
record_bodies first second third = do append_body 1 first; append_body 2 second; append_body 3 third

cons-inj : (x y : ℕ) (xs ys : Bytes) → x ∷ xs ≡ y ∷ ys → (x ≡ y) × (xs ≡ ys)
cons-inj x y xs ys e = (ground arith, ground arith)

entry-length :
    (a b x y : Bytes)
    → length a < 2 ^ 32
    → length b < 2 ^ 32
    → entry a ++ x ≡ entry b ++ y
    → (length a ≡ length b) × (a ++ x ≡ b ++ y)
entry-length a b x y la lb e =
    let n = length a % 2 ^ 32 in
    let k = length b % 2 ^ 32 in
    let (e1, r1) = cons-inj (n / 2 ^ 24 % 256) (k / 2 ^ 24 % 256) _ _ e in
    let (e2, r2) = cons-inj (n / 2 ^ 16 % 256) (k / 2 ^ 16 % 256) _ _ r1 in
    let (e3, r3) = cons-inj (n / 256 % 256) (k / 256 % 256) _ _ r2 in
    let (e4, r4) = cons-inj (n % 256) (k % 256) _ _ r3 in (omega arith, r4)

entry-inj :
    (a b x y : Bytes)
    → length a < 2 ^ 32
    → length b < 2 ^ 32
    → entry a ++ x ≡ entry b ++ y
    → (a ≡ b) × (x ≡ y)
entry-inj a b x y la lb e =
    let (same, rest) = entry-length a b x y la lb e in
    (
      sym (take-append a x) ∙ (ap (take (length a)) rest ∙ take_prefix (length a) b y (sym same)),
      sym (drop-append a x) ∙ (ap (drop (length a)) rest ∙ drop_prefix (length a) b y (sym same)),
    )

record_bodies-bytes :
    (a b c : Bytes)
    → (record_bodies a b c empty_transcript).1.bytes ≡ entry a ++ (entry b ++ (entry c ++ []))
unfolding record_bodies append_body ◌>>◌
record_bodies-bytes a b c =
    append_assoc (entry a) (entry b) (entry c)
    ∙ ap (λ (t : Bytes). entry a ++ (entry b ++ t)) (sym (append-nil (entry c)))

-- Two recorded handshakes with the same transcript bytes have the same three bodies, if the bodies
-- are shorter than 2^32 bytes; the steps are always recorded.
pub record_bodies-inj :
    (a b c a' b' c' : Bytes)
    → length a < 2 ^ 32
    → length a' < 2 ^ 32
    → length b < 2 ^ 32
    → length b' < 2 ^ 32
    → length c < 2 ^ 32
    → length c' < 2 ^ 32
    → (record_bodies a b c empty_transcript).1.bytes
      ≡ (record_bodies a' b' c' empty_transcript).1.bytes
    → (a ≡ a') × (b ≡ b') × (c ≡ c')
record_bodies-inj a b c a' b' c' la la' lb lb' lc lc' e =
    let flat = sym (record_bodies-bytes a b c) ∙ (e ∙ record_bodies-bytes a' b' c') in
    let (ea, rest) = entry-inj a a' _ _ la la' flat in
    let (eb, rest') = entry-inj b b' _ _ lb lb' rest in
    (ea, eb, (entry-inj c c' _ _ lc lc' rest').0)
