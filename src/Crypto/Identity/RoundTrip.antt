-- ===== src/Crypto/Identity/RoundTrip.antt =====
-- core/src/crypto/identity.rs: parsing a printed QR code.
use srltcpv.Base.{
  ℕ, zero, suc, ◌+◌, ◌*◌, ◌/◌, ◌%◌, ◌^◌, ◌≤◌, ◌<◌, ◌≡◌, refl, ◌∙◌, ap, min, true, false, Option,
  none, some, [], ◌∷◌, ◌++◌, Bytes, length, get_or, take, drop, ltb, ◌==◌, ok, u16_be_bytes,
  length-append, take_prefix, take_whole, arith,
}
use srltcpv.Crypto.Primitives.{Primitives, PrimitivesLaws}
use srltcpv.Crypto.Sas.{public_key_bytes}
use srltcpv.Crypto.Identity.{
  Text, TextFormats, TextFormatsLaws, HasNoSpace, is_utf8, normalize_qr_input, decode_qr_base64,
  parse_qr_payload, parse_decoded, parse_v2, parse_v3, parse_v4, format_qr_endpoint, key_only,
  qr_payload_v2, qr_payload_v3, qr_payload_v4, qr_payload_with_endpoint,
}

normalize_whole : (s : Text) → HasNoSpace s → normalize_qr_input s ≡ s
unfolding normalize_qr_input
normalize_whole [] h = refl
normalize_whole (c ∷ cs) h = ground (arith, h.0, normalize_whole cs h.1)

get_or_past : (xs ys : Bytes) (i k : ℕ) → i ≡ length xs + k → get_or (xs ++ ys) i 0 ≡ get_or ys k 0
get_or_past [] ys i k e = let same : i ≡ k = omega arith in cc same
get_or_past (x ∷ xs) ys zero k e = absurd (omega arith)
get_or_past (x ∷ xs) ys (suc i) k e = get_or_past xs ys i k (omega arith)

drop_past : (xs ys : Bytes) (i k : ℕ) → i ≡ length xs + k → drop i (xs ++ ys) ≡ drop k ys
drop_past [] ys i k e = let same : i ≡ k = omega arith in cc same
drop_past (x ∷ xs) ys zero k e = absurd (omega arith)
drop_past (x ∷ xs) ys (suc i) k e = drop_past xs ys i k (omega arith)

parse_v4-fields :
    (key ticket : Bytes) (n : ℕ)
    → length key ≡ 32
    → length ticket ≡ n
    → n < 2 ^ 16
    → is_utf8 ticket ≡ true
    → parse_decoded (4 ∷ (key ++ (u16_be_bytes n ++ ticket)))
      ≡ ok (record (key_only key) { iroh_ticket = some ticket })
unfolding parse_decoded parse_v4
parse_v4-fields key ticket n k t lt u =
    let rest = u16_be_bytes n ++ ticket in
    let size : length (key ++ rest) ≡ 34 + n = length-append key rest ∙ omega arith in
    let high : get_or (key ++ rest) 32 0 ≡ n / 256 % 256 =
      get_or_past key rest 32 0 (omega arith) in
    let low : get_or (key ++ rest) 33 0 ≡ n % 256 = get_or_past key rest 33 1 (omega arith) in
    let width : n / 256 % 256 * 256 + n % 256 ≡ n = omega arith in
    let enough : ltb (suc (34 + n)) (35 + n) ≡ false = ground arith in
    let long : ltb (suc (34 + n)) 35 ≡ false = ground arith in
    let front : take 32 (key ++ rest) ≡ key = take_prefix 32 key rest k in
    let back : drop 34 (key ++ rest) ≡ ticket = drop_past key rest 34 2 (omega arith) in
    let whole : take n ticket ≡ ticket = take_whole n ticket t in
    rw (size, high, low, width, long, enough, front, back, whole, u) refl

parse_v3-fields :
    (key host : Bytes) (n port : ℕ)
    → length key ≡ 32
    → length host ≡ n
    → 1 ≤ n
    → port < 2 ^ 16
    → is_utf8 host ≡ true
    → parse_decoded (3 ∷ (key ++ (n ∷ (host ++ u16_be_bytes port))))
      ≡ ok (record (key_only key) { endpoint = some (format_qr_endpoint host port) })
unfolding parse_decoded parse_v3
parse_v3-fields key host n port k t ge lt u =
    let ports = u16_be_bytes port in
    let rest = n ∷ (host ++ ports) in
    let size : length (key ++ rest) ≡ 35 + n =
      length-append key rest ∙ omega (arith, length-append host ports) in
    let len : get_or (key ++ rest) 32 0 ≡ n = get_or_past key rest 32 0 (omega arith) in
    let high : get_or (3 ∷ (key ++ rest)) (34 + n) 0 ≡ port / 256 % 256 =
      get_or_past (3 ∷ key) rest (34 + n) (1 + n) (omega arith)
      ∙ get_or_past (n ∷ host) ports (1 + n) 0 (omega arith) in
    let low : get_or (3 ∷ (key ++ rest)) (34 + n + 1) 0 ≡ port % 256 =
      get_or_past (3 ∷ key) rest (34 + n + 1) (2 + n) (omega arith)
      ∙ get_or_past (n ∷ host) ports (2 + n) 1 (omega arith) in
    let width : port / 256 % 256 * 256 + port % 256 ≡ port = omega arith in
    let enough : ltb (suc (35 + n)) (34 + n + 2) ≡ false = ground arith in
    let long : ltb (suc (35 + n)) 36 ≡ false = ground arith in
    let front : take 32 (key ++ rest) ≡ key = take_prefix 32 key rest k in
    let back : drop 33 (key ++ rest) ≡ host ++ ports = drop_past key rest 33 1 (omega arith) in
    let whole : take n (host ++ ports) ≡ host = take_prefix n host ports t in
    rw (size, len, high, low, width, long, enough, front, back, whole, u) refl

parse_v2-fields : (key : Bytes) → length key ≡ 32 → parse_decoded (2 ∷ key) ≡ ok (key_only key)
unfolding parse_decoded parse_v2
parse_v2-fields key k = rw k refl

-- The endpoint that is meant: none without a host.
abbrev pub endpoint_of : Bytes → ℕ → Option Bytes
endpoint_of [] port = none
endpoint_of (b ∷ bs) port = some (format_qr_endpoint (b ∷ bs) port)

module _ (f : TextFormats) (laws : TextFormatsLaws f) where
  -- Pasting may add or remove white space.
  decode_qr_base64-encode :
      (s : Text) (b : Bytes)
      → 1 ≤ length b
      → normalize_qr_input s ≡ normalize_qr_input (f.encode_url_no_pad b)
      → decode_qr_base64 f s ≡ ok b
  unfolding decode_qr_base64
  decode_qr_base64-encode s b h e =
      let clean : normalize_qr_input s ≡ f.encode_url_no_pad b =
        e ∙ normalize_whole (f.encode_url_no_pad b) (laws.encode-HasNoSpace b) in
      let size : (length (f.encode_url_no_pad b) == 0) ≡ false =
        ground (arith, laws.encode_nonempty b h) in
      rw (clean, size, laws.decode-encode b) refl

  parse_qr_payload-encode :
      (s : Text) (b : Bytes)
      → 1 ≤ length b
      → normalize_qr_input s ≡ normalize_qr_input (f.encode_url_no_pad b)
      → parse_qr_payload f s ≡ parse_decoded b
  unfolding parse_qr_payload
  parse_qr_payload-encode s b h e = rw (decode_qr_base64-encode s b h e) refl

  module _ {Inner : Type 0} (p : Primitives Inner) (keys : PrimitivesLaws p) where
    qr_payload_v4-short :
        (seed ticket : Bytes)
        → length ticket ≤ 4096
        → qr_payload_v4 p f seed ticket
          ≡ f.encode_url_no_pad
              (4 ∷ (public_key_bytes p seed ++ (u16_be_bytes (length ticket) ++ ticket)))
    unfolding qr_payload_v4
    qr_payload_v4-short seed ticket le =
        let size : min (length ticket) 4096 ≡ length ticket = omega arith in
        let whole : take (length ticket) ticket ≡ ticket = take_whole (length ticket) ticket refl in
        rw (qr_payload_v4, size, whole) refl

    qr_payload_v3-short :
        (seed host : Bytes) (port : ℕ)
        → length host ≤ 253
        → qr_payload_v3 p f seed host port
          ≡ f.encode_url_no_pad
              (3 ∷ (public_key_bytes p seed ++ (length host ∷ (host ++ u16_be_bytes port))))
    unfolding qr_payload_v3
    qr_payload_v3-short seed host port le =
        let size : min (length host) 253 ≡ length host = omega arith in
        let whole : take (length host) host ≡ host = take_whole (length host) host refl in
        rw (qr_payload_v3, size, whole) refl

    length-public_key_bytes : (seed : Bytes) → length (public_key_bytes p seed) ≡ 32
    unfolding public_key_bytes
    length-public_key_bytes seed = keys.length-ed25519_public seed

    -- A text that differs at most in white space from the QR code that an identity prints with a
    -- ticket is parsed to the identity's public key and that ticket, if the ticket is valid UTF-8
    -- of at most 4096 bytes.
    pub parse_qr_payload-v4 :
        (seed ticket : Bytes) (s : Text)
        → length ticket ≤ 4096
        → is_utf8 ticket ≡ true
        → normalize_qr_input s ≡ normalize_qr_input (qr_payload_v4 p f seed ticket)
        → parse_qr_payload f s
          ≡ ok (record (key_only (public_key_bytes p seed)) { iroh_ticket = some ticket })
    parse_qr_payload-v4 seed ticket s le u e =
        parse_qr_payload-encode s _ (omega arith)
          (e ∙ ap normalize_qr_input (qr_payload_v4-short seed ticket le))
        ∙ parse_v4-fields (public_key_bytes p seed) ticket (length ticket)
            (length-public_key_bytes seed) refl (omega arith) u

    -- A text that differs at most in white space from the QR code that an identity prints with an
    -- endpoint is parsed to the identity's public key and the formatted endpoint, if the host is
    -- valid UTF-8 of 1 to 253 bytes and the port is a u16; without a host it is parsed to the
    -- public key alone.
    pub parse_qr_payload-endpoint :
        (seed host : Bytes) (port : ℕ) (s : Text)
        → length host ≤ 253
        → is_utf8 host ≡ true
        → port < 2 ^ 16
        → normalize_qr_input s
          ≡ normalize_qr_input (qr_payload_with_endpoint p f seed (some host) port)
        → parse_qr_payload f s
          ≡ ok (record (key_only (public_key_bytes p seed)) { endpoint = endpoint_of host port })
    unfolding qr_payload_with_endpoint qr_payload_v2
    parse_qr_payload-endpoint seed [] port s le u lt e =
        parse_qr_payload-encode s _ (omega arith) e
        ∙ parse_v2-fields (public_key_bytes p seed) (length-public_key_bytes seed)
    parse_qr_payload-endpoint seed (b ∷ bs) port s le u lt e =
        parse_qr_payload-encode s _ (omega arith)
          (e ∙ ap normalize_qr_input (qr_payload_v3-short seed (b ∷ bs) port le))
        ∙ parse_v3-fields (public_key_bytes p seed) (b ∷ bs) (length (b ∷ bs)) port
            (length-public_key_bytes seed) refl (omega arith) lt u
