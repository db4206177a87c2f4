-- ===== src/Crypto/Wire.antt =====
-- core/src/crypto/wire.rs: the frames of the handshake and of encrypted payloads, their
-- serialization (postcard and serde_json are parameters), and the handshake's transcript.
use srltcpv.Base.{
  ℕ, ◌+◌, ◌%◌, ◌^◌, Bool, ◌&&◌, Option, none, some, [], ◌∷◌, ◌++◌, Bytes, length, get_or, drop, leb,
  ltb, ◌==◌, if◌then◌else◌, Result, ok, err, ok_or, u32_be_bytes,
}
use srltcpv.Base.Stateful.{Stateful}

pub record SignedHandshake : Type 0 where
  pub step : ℕ
  pub identity : Bytes
  pub body : Bytes
  pub signature : Bytes

pub record EncryptedPayload : Type 0 where
  pub version : ℕ
  pub ciphertext : Bytes

pub data WireFrame : Type 0 where
  handshake : SignedHandshake → WireFrame
  encrypted : EncryptedPayload → WireFrame

pub data WireError : Type 0 where
  encode_error decode_error json_error : WireError

abbrev pub wire_magic : Bytes
wire_magic = 0x53 ∷ 0x52 ∷ []

-- The serializers: `none` is their error.
pub record WireFormats : Type 0 where
  pub postcard_encode : WireFrame → Option Bytes
  pub postcard_decode : Bytes → Option WireFrame
  pub json_decode : Bytes → Option WireFrame

abbrev pub starts_with_magic : Bytes → Bool
starts_with_magic bs = leb 2 (length bs) && (get_or bs 0 0 == 0x53 && get_or bs 1 0 == 0x52)

module _ (w : WireFormats) where
  unfoldable pub serialize : WireFrame → Result WireError Bytes
  serialize f = elim (w.postcard_encode f) [
    | none ↦ err encode_error
    | some payload ↦ ok (wire_magic ++ payload)
  ]

  unfoldable pub deserialize : Bytes → Result WireError WireFrame
  deserialize bs =
      if starts_with_magic bs
      then ok_or (w.postcard_decode (drop 2 bs)) decode_error
      else ok_or (w.json_decode bs) json_error

pub record HandshakeTranscript : Type 0 where
  pub bytes : Bytes
  pub next_step : ℕ

abbrev pub empty_transcript : HandshakeTranscript
empty_transcript = record { bytes = []; next_step = 1 }

-- The errors of the handshake and of the session; the messages are left out.
pub data CryptoError : Type 0 where
  invalid_key bad_signature : CryptoError
  too_short secret_used no_mlkem_secret invalid_mlkem_key handshake_incomplete : CryptoError
  out_of_order wrong_step wrong_identity missing_ratchet_key : CryptoError
  no_ratchet no_secret not_awaiting_sas not_trusted chain_not_ready not_decryptable : CryptoError
  decrypt_failed invalid_state encode_failed : CryptoError

-- `next_step` is a `u8`; it never passes 4.
unfoldable pub append_body : ℕ → Bytes → Stateful HandshakeTranscript CryptoError (Unit {0})
append_body step body t =
    if step == t.next_step
    then (
      ok tt,
      record t {
        next_step = (t.next_step + 1) % 2 ^ 8;
        bytes = t.bytes ++ (u32_be_bytes (length body % 2 ^ 32) ++ body);
      },
    )
    else (err out_of_order, t)

abbrev pub is_finished : HandshakeTranscript → Bool
is_finished t = ltb 3 t.next_step
