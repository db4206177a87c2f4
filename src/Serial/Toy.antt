-- ===== src/Serial/Toy.antt =====
-- A codec that meets the laws of `Codec`, for the tests: every byte is shifted by one behind a
-- marker, and the checksum is the length.
use srltcpv.Base.{
  suc, ◌-◌, ◌%◌, ◌^◌, ◌≡◌, ◌≢◌, refl, ap, Option, none, some, [], ◌∷◌, Bytes, All, length, arith,
}
use srltcpv.Serial.Codec.{FrameCodec, CodecLaws}

abbrev shift : Bytes → Bytes
shift [] = []
shift (b ∷ bs) = suc b ∷ shift bs

abbrev unshift : Bytes → Bytes
unshift [] = []
unshift (b ∷ bs) = (b - 1) ∷ unshift bs

abbrev unmark : Bytes → Option Bytes
unmark [] = none
unmark (b ∷ bs) = some (unshift bs)

abbrev pub toy : FrameCodec
toy = record {
  crc32 = λ d. length d % 2 ^ 32;
  cobs_encode = λ d. 1 ∷ shift d;
  cobs_decode = unmark;
}

unshift-shift : (d : Bytes) → unshift (shift d) ≡ d
unshift-shift [] = refl
unshift-shift (b ∷ bs) = ground (arith, unshift-shift bs)

shift_nonzero : (d : Bytes) → All (λ b. b ≢ 0) (shift d)
shift_nonzero [] = tt
shift_nonzero (b ∷ bs) = (omega arith, shift_nonzero bs)

length-shift : (d : Bytes) → length (shift d) ≡ length d
length-shift [] = refl
length-shift (b ∷ bs) = ap suc (length-shift bs)

pub toy-CodecLaws : CodecLaws toy
toy-CodecLaws = record {
  crc32-lt = λ d. omega arith;
  decode-encode = λ d h. ap some (unshift-shift d);
  encode_nonzero = λ d h. (omega arith, shift_nonzero d);
  encode_nonempty = λ d h. omega arith;
  length-encode = λ d h. omega (arith, length-shift d);
}
