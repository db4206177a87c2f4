-- ===== src/Crypto/Identity.antt =====
-- core/src/crypto/identity.rs: identity seeds, their file, and QR codes. A ticket and a host are
-- `str`s, lists of UTF-8 bytes; the text of a QR code and a seed in hexadecimal are lists of code
-- points. The crates base64 and hex are parameters, and so are the answers of the file system.
mod Utf8
mod Tests
pub mod RoundTrip
pub mod Seeds
unfoldable pub use Utf8.{is_utf8, from_utf8, utf8_step, is_utf8_after}
use srltcpv.Base.{
  ℕ, zero, suc, ◌+◌, ◌-◌, ◌*◌, ◌/◌, ◌%◌, ◌^◌, ◌≤◌, ◌≡◌, min, Bool, true, false, not, ◌&&◌, ◌||◌,
  Option, none, some, List, [], ◌∷◌, ◌++◌, Bytes, length, get_or, take, drop, ltb, leb, ◌==◌,
  if◌then◌else◌, All, Result, ok, err, require, ok_or, ◌>>=◌, ◌>>◌, u16_be_bytes, u16_from_be,
}
use srltcpv.Transfer.Filename.{is_whitespace, trim_both}
use srltcpv.Transfer.{same_bytes}
use srltcpv.Crypto.Primitives.{Primitives}
use srltcpv.Crypto.Sas.{public_key_bytes}

abbrev pub Text : Type 0
Text = List ℕ

-- The engines URL_SAFE_NO_PAD, URL_SAFE and STANDARD of base64, and the crate hex.
pub record TextFormats : Type 0 where
  pub encode_url_no_pad : Bytes → Text
  pub decode_url_no_pad : Text → Option Bytes
  pub decode_url : Text → Option Bytes
  pub decode_standard : Text → Option Bytes
  pub hex_encode : Bytes → Text
  pub hex_decode : Text → Option Bytes

abbrev pub HasNoSpace : Text → Type 0
HasNoSpace s = All (λ c. is_whitespace c ≡ false) s

-- What is relied on: decoding undoes encoding, and an encoding has no white space.
pub record TextFormatsLaws (f : TextFormats) : Type 0 where
  pub decode-encode : (b : Bytes) → f.decode_url_no_pad (f.encode_url_no_pad b) ≡ some b
  pub encode-HasNoSpace : (b : Bytes) → HasNoSpace (f.encode_url_no_pad b)
  pub encode_nonempty : (b : Bytes) → 1 ≤ length b → 1 ≤ length (f.encode_url_no_pad b)
  pub hex_decode-encode : (b : Bytes) → f.hex_decode (f.hex_encode b) ≡ some b
  pub hex_encode-HasNoSpace : (b : Bytes) → HasNoSpace (f.hex_encode b)

-- The messages of `InvalidKey`.
pub data IdentityError : Type 0 where
  empty_payload invalid_base64 invalid_v2_length invalid_v3_length invalid_v3_host : IdentityError
  invalid_v4_length invalid_v4_ticket not_utf8 unsupported_version : IdentityError
  seed_length seed_hex seed_read seed_dir seed_write : IdentityError

pub record ParsedQr : Type 0 where
  pub public_key : Bytes
  pub endpoint : Option Bytes
  pub iroh_ticket : Option Bytes

unfoldable pub normalize_qr_input : Text → Text
normalize_qr_input [] = []
normalize_qr_input (c ∷ cs) =
    let rest = normalize_qr_input cs in if is_whitespace c then rest else c ∷ rest

abbrev pub or_else : Option Bytes → Option Bytes → Option Bytes
or_else (some b) other = some b
or_else none other = other

-- The decimal digits of a port.
abbrev pub digit : ℕ → ℕ
digit n = b'0' + n % 10

unfoldable pub print_on : ℕ → ℕ → Bytes
print_on zero n = []
print_on (suc fuel) n =
    let rest = print_on fuel (n / 10) in if ltb n 10 then digit n ∷ [] else rest ++ (digit n ∷ [])

abbrev pub print_port : ℕ → Bytes
print_port port = print_on 5 port

-- `str::split(':')`: the parts between the colons, the first one apart.
unfoldable pub split_colon : Bytes → Bytes × List Bytes
split_colon [] = ([], [])
split_colon (b ∷ bs) =
    let rest = split_colon bs in if b == b':' then ([], rest.0 ∷ rest.1) else (b ∷ rest.0, rest.1)

unfoldable pub contains_colon : Bytes → Bool
contains_colon [] = false
contains_colon (b ∷ bs) = let rest = contains_colon bs in if b == b':' then true else rest

abbrev pub is_digit : ℕ → Bool
is_digit b = leb b'0' b && leb b b'9'

-- `u16::from_str` of digits, with what stands before them.
unfoldable pub parse_digits : ℕ → Bytes → Option ℕ
parse_digits n [] = some n
parse_digits n (b ∷ bs) =
    let m = n * 10 + (b - b'0') in
    let rest = parse_digits m bs in if is_digit b && ltb m (2 ^ 16) then rest else none

-- A single sign is not a number.
abbrev pub parse_u16 : Bytes → Option ℕ
parse_u16 [] = none
parse_u16 (b ∷ []) = if b == b'+' then none else parse_digits 0 (b ∷ [])
parse_u16 (b ∷ c ∷ bs) = if b == b'+' then parse_digits 0 (c ∷ bs) else parse_digits 0 (b ∷ c ∷ bs)

abbrev pub last : List Bytes → Bytes
last [] = []
last (p ∷ []) = p
last (p ∷ q ∷ ps) = last (q ∷ ps)

abbrev pub without_last : List Bytes → List Bytes
without_last [] = []
without_last (p ∷ []) = []
without_last (p ∷ q ∷ ps) = p ∷ without_last (q ∷ ps)

-- `join(":")`.
abbrev pub join_colon : List Bytes → Bytes
join_colon [] = []
join_colon (p ∷ []) = p
join_colon (p ∷ q ∷ ps) = p ++ (b':' ∷ join_colon (q ∷ ps))

abbrev pub is_port : Bytes → Bool
is_port bs = elim (parse_u16 bs) [ none ↦ false | some n ↦ true ]

unfoldable pub format_qr_endpoint : Bytes → ℕ → Bytes
format_qr_endpoint host port =
    if not (contains_colon host)
    then host ++ (b':' ∷ print_port port)
    else (let parts = (split_colon host).0 ∷ (split_colon host).1 in
        if leb 3 (length parts)
          && (same_bytes (last parts) (last (without_last parts)) && is_port (last parts))
        then join_colon (without_last parts)
        else host)

abbrev pub key_only : Bytes → ParsedQr
key_only key = record { public_key = key; endpoint = none; iroh_ticket = none }

unfoldable pub parse_v2 : Bytes → Result IdentityError ParsedQr
parse_v2 decoded = do
  require (length decoded == 33) invalid_v2_length
  ok (key_only (drop 1 decoded))

unfoldable pub parse_v3 : Bytes → Result IdentityError ParsedQr
parse_v3 decoded = do
  require (not (ltb (length decoded) 36)) invalid_v3_length
  let host_len = get_or decoded 33 0
  require (not (ltb (length decoded) (34 + host_len + 2))) invalid_v3_host
  host ← ok_or (from_utf8 (take host_len (drop 34 decoded))) not_utf8
  let port = u16_from_be (get_or decoded (34 + host_len) 0) (get_or decoded (34 + host_len + 1) 0)
  ok (record (key_only (take 32 (drop 1 decoded))) {
    endpoint = some (format_qr_endpoint host port);
  })

unfoldable pub parse_v4 : Bytes → Result IdentityError ParsedQr
parse_v4 decoded = do
  require (not (ltb (length decoded) 35)) invalid_v4_length
  let ticket_len = u16_from_be (get_or decoded 33 0) (get_or decoded 34 0)
  require (not (ltb (length decoded) (35 + ticket_len))) invalid_v4_ticket
  ticket ← ok_or (from_utf8 (take ticket_len (drop 35 decoded))) not_utf8
  ok (record (key_only (take 32 (drop 1 decoded))) { iroh_ticket = some ticket })

-- The match on the version byte.
unfoldable pub parse_decoded : Bytes → Result IdentityError ParsedQr
parse_decoded [] = err empty_payload
parse_decoded (version ∷ rest) =
    if version == 2
    then parse_v2 (version ∷ rest)
    else if version == 3
    then parse_v3 (version ∷ rest)
    else if version == 4
    then parse_v4 (version ∷ rest)
    else err unsupported_version

module _ (f : TextFormats) where
  unfoldable pub decode_qr_base64 : Text → Result IdentityError Bytes
  decode_qr_base64 payload = do
    let clean = normalize_qr_input payload
    require (not (length clean == 0)) empty_payload
    ok_or
        (or_else (f.decode_url_no_pad clean)
          (or_else (f.decode_url clean) (f.decode_standard clean)))
        invalid_base64

  unfoldable pub parse_qr_payload : Text → Result IdentityError ParsedQr
  parse_qr_payload payload = do decoded ← decode_qr_base64 payload; parse_decoded decoded

  unfoldable pub from_qr_payload : Text → Result IdentityError Bytes
  from_qr_payload payload = do parsed ← parse_qr_payload payload; ok parsed.public_key

module _ {Inner : Type 0} (p : Primitives Inner) (f : TextFormats) where
  unfoldable pub qr_payload_v4 : Bytes → Bytes → Text
  qr_payload_v4 seed iroh_ticket =
      let ticket_len = min (length iroh_ticket) 4096 in
      f.encode_url_no_pad
        (4 ∷ (public_key_bytes p seed ++ (u16_be_bytes ticket_len ++ take ticket_len iroh_ticket)))

  unfoldable pub qr_payload_v3 : Bytes → Bytes → ℕ → Text
  qr_payload_v3 seed host port =
      let host_len = min (length host) 253 in
      f.encode_url_no_pad
        (3 ∷ (public_key_bytes p seed ++ (host_len ∷ (take host_len host ++ u16_be_bytes port))))

  unfoldable pub qr_payload_v2 : Bytes → Text
  qr_payload_v2 seed = f.encode_url_no_pad (2 ∷ public_key_bytes p seed)

  -- An empty host counts as none.
  unfoldable pub qr_payload_with_endpoint : Bytes → Option Bytes → ℕ → Text
  qr_payload_with_endpoint seed none port = qr_payload_v2 seed
  qr_payload_with_endpoint seed (some []) port = qr_payload_v2 seed
  qr_payload_with_endpoint seed (some (b ∷ bs)) port = qr_payload_v3 seed (b ∷ bs) port

  abbrev pub default_quic_port : ℕ
  default_quic_port = 9473

  unfoldable pub qr_payload : Bytes → Text
  qr_payload seed = qr_payload_with_endpoint seed none default_quic_port

  unfoldable pub public_key_hex : Bytes → Text
  public_key_hex seed = f.hex_encode (public_key_bytes p seed)
