-- ===== src/Crypto/Identity/Tests.antt =====
-- core/src/crypto/identity.rs: the theorems at concrete inputs, with text formats that have the
-- laws.
use srltcpv.Base.{◌+◌, ◌-◌, ◌≡◌, refl, true, none, some, [], ◌∷◌, ◌++◌, Bytes, length, ok, arith}
use srltcpv.Transfer.{same_bytes}
use srltcpv.Crypto.Sas.{public_key_bytes}
use srltcpv.Crypto.Toy.{toy, toy-PrimitivesLaws}
use srltcpv.Crypto.Identity.{
  Text, TextFormats, TextFormatsLaws, HasNoSpace, key_only, is_utf8_after, utf8_step,
  parse_qr_payload, qr_payload_v4, qr_payload_with_endpoint, format_qr_endpoint, contains_colon,
  split_colon, print_on, normalize_qr_input, parse_digits,
}
use srltcpv.Crypto.Identity.RoundTrip.{parse_qr_payload-v4, parse_qr_payload-endpoint, endpoint_of}
use srltcpv.Crypto.Identity.Seeds.{
  Writes, load_or_create_seed_file, write_seed_file, load_or_create-again, to_hex,
}

-- Each byte is a letter far from the white space.
unfoldable letters : Bytes → Text
letters [] = []
letters (b ∷ bs) = (0x4000 + b) ∷ letters bs

unfoldable bytes_of : Text → Bytes
bytes_of [] = []
bytes_of (c ∷ cs) = (c - 0x4000) ∷ bytes_of cs

bytes_of-letters : (b : Bytes) → bytes_of (letters b) ≡ b
unfolding letters bytes_of
bytes_of-letters [] = refl
bytes_of-letters (x ∷ xs) =
    let head : 0x4000 + x - 0x4000 ≡ x = omega arith in cc (head, bytes_of-letters xs)

letters-HasNoSpace : (b : Bytes) → HasNoSpace (letters b)
unfolding letters
letters-HasNoSpace [] = tt
letters-HasNoSpace (x ∷ xs) = (ground arith, letters-HasNoSpace xs)

length-letters : (b : Bytes) → length (letters b) ≡ length b
unfolding letters
length-letters [] = refl
length-letters (x ∷ xs) = omega (arith, length-letters xs)

abbrev formats : TextFormats
formats = record {
  encode_url_no_pad = letters;
  decode_url_no_pad = λ s. some (bytes_of s);
  decode_url = λ s. none;
  decode_standard = λ s. none;
  hex_encode = letters;
  hex_decode = λ s. some (bytes_of s);
}

formats-TextFormatsLaws : TextFormatsLaws formats
formats-TextFormatsLaws = record {
  decode-encode = λ b. cc (bytes_of-letters b);
  encode-HasNoSpace = letters-HasNoSpace;
  encode_nonempty = λ b h. omega (arith, h, length-letters b);
  hex_decode-encode = λ b. cc (bytes_of-letters b);
  hex_encode-HasNoSpace = letters-HasNoSpace;
}

-- "node" and "10.0.0.1".
abbrev ticket : Bytes
ticket = 0x6E ∷ 0x6F ∷ 0x64 ∷ 0x65 ∷ []

abbrev host : Bytes
host = 0x31 ∷ 0x30 ∷ 0x2E ∷ 0x30 ∷ 0x2E ∷ 0x30 ∷ 0x2E ∷ 0x31 ∷ []

abbrev seed : Bytes
seed = 7 ∷ []

-- The printed text with a line break before it.
parse_qr_payload-v4_example :
    parse_qr_payload formats (0x0A ∷ qr_payload_v4 toy formats seed ticket)
    ≡ ok (record (key_only (public_key_bytes toy seed)) { iroh_ticket = some ticket })
unfolding is_utf8_after utf8_step normalize_qr_input
parse_qr_payload-v4_example =
    parse_qr_payload-v4 formats formats-TextFormatsLaws toy toy-PrimitivesLaws seed ticket
      (0x0A ∷ qr_payload_v4 toy formats seed ticket) (omega arith) refl refl

parse_qr_payload-endpoint_example :
    parse_qr_payload formats (qr_payload_with_endpoint toy formats seed (some host) 9473)
    ≡ ok (record (key_only (public_key_bytes toy seed)) { endpoint = endpoint_of host 9473 })
unfolding is_utf8_after utf8_step
parse_qr_payload-endpoint_example =
    parse_qr_payload-endpoint formats formats-TextFormatsLaws toy toy-PrimitivesLaws seed host 9473
      (qr_payload_with_endpoint toy formats seed (some host) 9473) (omega arith) refl (omega arith)
      refl

abbrev seed_bytes : Bytes
seed_bytes =
    1 ∷ 2 ∷ 3 ∷ 4 ∷ 5 ∷ 6 ∷ 7 ∷ 8 ∷ 1 ∷ 2 ∷ 3 ∷ 4 ∷ 5 ∷ 6 ∷ 7 ∷ 8 ∷ 1 ∷ 2 ∷ 3 ∷ 4 ∷ 5 ∷ 6 ∷ 7 ∷ 8
    ∷ 1 ∷ 2 ∷ 3 ∷ 4 ∷ 5 ∷ 6 ∷ 7 ∷ 8 ∷ []

abbrev writes : Writes
writes = record { opened = true; cut = none; newline = true }

-- The first start creates the file, the second one draws another seed and does not use it.
load_or_create-again_example :
    load_or_create_seed_file formats true true writes
      (9 ∷ [])
      (some (to_hex formats seed_bytes ++ (0x0A ∷ [])))
    ≡ (ok seed_bytes, some (to_hex formats seed_bytes ++ (0x0A ∷ [])))
unfolding load_or_create_seed_file write_seed_file
load_or_create-again_example =
    load_or_create-again formats formats-TextFormatsLaws true true true writes writes seed_bytes
      (9 ∷ []) seed_bytes none (some (to_hex formats seed_bytes ++ (0x0A ∷ []))) refl refl

-- "10.0.0.1" and port 9473, alone, and doubled by an old version.
abbrev with_port : Bytes
with_port = host ++ (0x3A ∷ 0x39 ∷ 0x34 ∷ 0x37 ∷ 0x33 ∷ [])

plain : format_qr_endpoint host 9473 ≡ with_port
unfolding format_qr_endpoint contains_colon print_on
plain = refl

doubled : format_qr_endpoint (with_port ++ (0x3A ∷ 0x39 ∷ 0x34 ∷ 0x37 ∷ 0x33 ∷ [])) 9473 ≡ with_port
unfolding format_qr_endpoint contains_colon split_colon parse_digits same_bytes
doubled = refl

-- The address "fd00::1:1" loses its last group, since that looks like a port written twice.
v6_cut :
    format_qr_endpoint (0x66 ∷ 0x64 ∷ 0x30 ∷ 0x30 ∷ 0x3A ∷ 0x3A ∷ 0x31 ∷ 0x3A ∷ 0x31 ∷ []) 9473
    ≡ 0x66 ∷ 0x64 ∷ 0x30 ∷ 0x30 ∷ 0x3A ∷ 0x3A ∷ 0x31 ∷ []
unfolding format_qr_endpoint contains_colon split_colon parse_digits same_bytes
v6_cut = refl
