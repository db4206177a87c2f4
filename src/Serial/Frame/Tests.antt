-- ===== src/Serial/Frame/Tests.antt =====
-- The theorems on frames at concrete inputs.
use srltcpv.Base.{◌<◌, ◌≡◌, ◌≢◌, refl, some, [], ◌∷◌, ◌++◌, Bytes, All, length, ok, arith}
use srltcpv.Serial.Toy.{toy, toy-CodecLaws}
use srltcpv.Serial.Frame.{
  Frame, IsValidFrame, data_frame, ack_frame, serialize_raw, encode, parse_raw, decode,
  header_and_payload, to_byte, from_byte,
}
use srltcpv.Serial.Frame.RoundTrip.{decode-encode_lem}
use srltcpv.Serial.Frame.Sound.{serialize_raw-parse_raw}

abbrev greeting : Frame
greeting = data_frame 42 17 (104 ∷ 105 ∷ [])

greeting-IsValidFrame : IsValidFrame greeting
greeting-IsValidFrame = record {
  seq_u16 = omega arith;
  ack_u16 = omega arith;
  payload_bytes = (omega arith, (omega arith, tt));
  payload_fits = omega arith;
}

decode-encode_lem_example :
    (e : Bytes) × (encode toy greeting ≡ some (e ++ 0x00 ∷ []))
    × All (λ b. b ≢ 0) e
    × (0 < length e)
    × (decode toy e ≡ ok greeting)
decode-encode_lem_example = decode-encode_lem toy toy-CodecLaws greeting greeting-IsValidFrame

-- `greeting` on the wire before COBS, with the toy checksum.
abbrev raw_greeting : Bytes
raw_greeting = 0x53 ∷ 0x52 ∷ 0x01 ∷ 0 ∷ 42 ∷ 0 ∷ 17 ∷ 0 ∷ 2 ∷ 104 ∷ 105 ∷ 0 ∷ 0 ∷ 0 ∷ 11 ∷ []

parse_raw-greeting : parse_raw toy raw_greeting ≡ ok greeting
unfolding parse_raw from_byte
parse_raw-greeting = refl

serialize_raw-parse_raw_example : serialize_raw toy greeting ≡ some raw_greeting
serialize_raw-parse_raw_example =
    serialize_raw-parse_raw toy raw_greeting greeting (omega arith) parse_raw-greeting
      (unfold to_byte in refl) (omega arith)

encode-ack :
    encode toy (ack_frame 0 99)
    ≡ some (1 ∷ 0x54 ∷ 0x53 ∷ 3 ∷ 1 ∷ 1 ∷ 1 ∷ 100 ∷ 1 ∷ 1 ∷ 1 ∷ 1 ∷ 1 ∷ 10 ∷ 0 ∷ [])
unfolding encode serialize_raw header_and_payload to_byte
encode-ack = refl
