-- ===== src/Serial/Transport.antt =====
-- core/src/serial/transport.rs: the retransmission timeout, message fragments, the byte reader and
-- the link task. The port, the threads and the channels are the environment: their events are
-- arguments of `step`, and what they are told is its result.
pub mod Fragments
pub mod Scan
pub mod Feed
pub mod Buffer
pub mod Resync
pub mod Rto
mod Tests
use srltcpv.Base.{
  ℕ, zero, suc, ◌+◌, ◌-◌, ◌*◌, ◌/◌, ◌%◌, ◌^◌, max, Bool, true, false, not, ◌&&◌, Option, none, some,
  List, [], ◌∷◌, ◌++◌, map, Bytes, length, take, drop, ◌==◌, leb, ltb, if◌then◌else◌, Result, ok,
  err, ◌>>=◌, ◌>>◌, require, ok_or,
}
use srltcpv.Base.NumSet.{contains}
use srltcpv.Serial.Codec.{FrameCodec}
use srltcpv.Serial.Frame.{Frame, FrameError, encode, decode, max_payload_size, max_frame_size}
use srltcpv.Serial.Reliability.{
  ReliabilityLayer, new, with_rto, with_window, on_receive, prepare_send, poll_retransmits,
  has_failed,
}

abbrev pub max_message_bytes : ℕ
max_message_bytes = 32 * 1024 * 1024

abbrev pub frag_more : ℕ
frag_more = 0x01

abbrev pub frag_last : ℕ
frag_last = 0x00

abbrev pub fragment_data : ℕ
fragment_data = max_payload_size - 1

-- The port's name is left out: it is only shown.
pub record SerialConfig : Type 0 where
  pub baud_rate : ℕ
  pub rto_ms : ℕ
  pub window_size : ℕ

abbrev pub default_config : SerialConfig
default_config = record { baud_rate = 115200; rto_ms = 400; window_size = 8 }

-- In milliseconds; the products are of `u64`.
unfoldable pub effective_rto : SerialConfig → ℕ
effective_rto cfg =
    let bytes_per_sec = max cfg.baud_rate 1200 / 10 in
    let window_ms = (cfg.window_size * (max_payload_size + 32) * 1000) % 2 ^ 64 / bytes_per_sec in
    max cfg.rto_ms (window_ms + 200)

-- `msg.chunks(size)`; the length of the message is enough fuel.
unfoldable pub chunks : ℕ → ℕ → Bytes → List Bytes
chunks zero size msg = []
chunks (suc fuel) size [] = []
chunks (suc fuel) size (b ∷ bs) = take size (b ∷ bs) ∷ chunks fuel size (drop size (b ∷ bs))

-- The chunk of index `last` gets the flag of the last fragment.
unfoldable pub flag_chunks : ℕ → ℕ → List Bytes → List Bytes
flag_chunks last i [] = []
flag_chunks last i (c ∷ cs) =
    ((if i == last then frag_last else frag_more) ∷ c) ∷ flag_chunks last (i + 1) cs

unfoldable pub fragment : Bytes → List Bytes
fragment [] = (frag_last ∷ []) ∷ []
fragment (b ∷ bs) =
    let cs = chunks (length (b ∷ bs)) fragment_data (b ∷ bs) in flag_chunks (length cs - 1) 0 cs

-- `buf.iter().position(|&b| b == 0x00)`.
unfoldable pub delimiter_position : Bytes → Option ℕ
delimiter_position [] = none
delimiter_position (b ∷ bs) =
    if b == 0x00
    then some 0
    else (elim (delimiter_position bs) [ none ↦ none | some pos ↦ some (pos + 1) ])

-- One more round of the `loop` of `extract_frame` for each unit of fuel: the frame, if a delimiter
-- ends one, and what is left in the buffer.
unfoldable pub extract_frame_loop : ℕ → Bytes → Option Bytes × Bytes
extract_frame_loop zero buf = (none, buf)
extract_frame_loop (suc fuel) buf = elim (delimiter_position buf) [
  | none ↦ (none, buf)
  | some pos ↦
      (let rest = extract_frame_loop fuel (drop (pos + 1) buf) in
        if length (take pos buf) == 0 then rest else (some (take pos buf), drop (pos + 1) buf))
]

unfoldable pub extract_frame : Bytes → Option Bytes × Bytes
extract_frame buf = extract_frame_loop (suc (length buf)) buf

pub record SerialReader : Type 0 where
  pub reliability : ReliabilityLayer
  pub rx_buffer : Bytes

pub record ReaderOutput : Type 0 where
  pub delivered : List Bytes
  pub responses : List Frame
  pub retransmits : List Frame

abbrev pub new_reader : ℕ → ℕ → SerialReader
new_reader rto_ms window_size = record {
  reliability = with_window (with_rto new rto_ms) window_size;
  rx_buffer = [];
}

-- Garbage without delimiters must not grow the buffer forever.
unfoldable pub extend_buffer : Bytes → Bytes → Bytes
extend_buffer buf bytes =
    let rx = buf ++ bytes in
    if ltb (4 * max_frame_size) (length rx) && not (contains 0 rx) then [] else rx

module _ (c : FrameCodec) where
  -- What one extracted frame does: a frame that does not decode is dropped.
  unfoldable pub accept_frame :
      ℕ → Bytes → ReliabilityLayer → List Bytes × List Frame × ReliabilityLayer
  accept_frame now frame_data l = elim (decode c frame_data) [
    | ok frame ↦
        (let (result, l') = on_receive now frame l in (result.delivered, result.ack_responses, l'))
    | err e ↦ ([], [], l)
  ]

  -- The `while let Some(frame_data) = extract_frame(…)` loop.
  unfoldable pub feed_loop :
      ℕ → ℕ → Bytes → ReliabilityLayer → List Bytes × List Frame × Bytes × ReliabilityLayer
  feed_loop zero now buf l = ([], [], buf, l)
  feed_loop (suc fuel) now buf l =
      let (frame, rest) = extract_frame buf in
      elim frame [
        | none ↦ ([], [], rest, l)
        | some frame_data ↦
            (let (delivered, responses, l') = accept_frame now frame_data l in
              let (more, answers, rest', l'') = feed_loop fuel now rest l' in
              (delivered ++ more, responses ++ answers, rest', l''))
      ]

  unfoldable pub feed : ℕ → Bytes → SerialReader → ReaderOutput × SerialReader
  feed now bytes reader =
      let buf = extend_buffer reader.rx_buffer bytes in
      let (delivered, responses, rest, l) =
        feed_loop (suc (length buf)) now buf reader.reliability in
      let (resent, l') = poll_retransmits now l in
      (
        record { delivered = delivered; responses = responses; retransmits = resent },
        record { reliability = l'; rx_buffer = rest },
      )
