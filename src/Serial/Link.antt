-- ===== src/Serial/Link.antt =====
-- core/src/serial/transport.rs: the link task `run_link`, one `step` for each turn of its loop, and
-- what the transport lets a caller queue. A step reads the clock once.
pub mod Messages
pub mod Delivery
mod Tests
use srltcpv.Base.{
  ℕ, ◌+◌, ◌*◌, Bool, true, false, not, Option, none, some, List, [], ◌∷◌, ◌++◌, Bytes, length, ◌==◌,
  ltb, if◌then◌else◌, Result, ok, err, ◌>>=◌, ◌>>◌, require,
}
use srltcpv.Serial.Codec.{FrameCodec}
use srltcpv.Serial.Frame.{Frame, encode}
use srltcpv.Serial.Reliability.{prepare_send, poll_retransmits, has_failed}
use srltcpv.Serial.Transport.{
  max_message_bytes, frag_last, fragment, SerialReader, ReaderOutput, new_reader, feed,
}

-- The reasons that `run_link` returns, and the panic of an `assert!` in `encode`.
pub data Stop : Type 0 where
  writer_stopped port_closed engine_stopped graceful_shutdown link_lost panicked : Stop

-- What the other tasks answer during a step: the clock, whether the writer and the engine still
-- receive, and the `running` flag.
pub record Surroundings : Type 0 where
  pub now : ℕ
  pub writer_open : Bool
  pub engine_open : Bool
  pub running : Bool

-- The branches of the `select!`; `none` is a closed channel.
pub data LinkEvent : Type 0 where
  raw : Option Bytes → LinkEvent
  outbound : Option Bytes → LinkEvent
  tick : LinkEvent

pub record LinkState : Type 0 where
  pub reader : SerialReader
  pub pending : List Bytes
  pub reassembly : Bytes

abbrev pub new_link : ℕ → ℕ → LinkState
new_link rto_ms window = record { reader = new_reader rto_ms window; pending = []; reassembly = [] }

-- What a step writes to the port and tells the engine (`DataReceived`), and how it leaves the task.
pub record LinkOutput : Type 0 where
  pub wire : List Bytes
  pub received : List Bytes
  pub after : Result Stop LinkState

-- The loop over `out.delivered`: the messages for the engine, the bytes of the unfinished one, and
-- whether the engine was gone.
unfoldable pub reassemble : Bool → List Bytes → Bytes → List Bytes × Bytes × Bool
reassemble engine_open [] acc = ([], acc, false)
reassemble engine_open ([] ∷ ps) acc = reassemble engine_open ps acc
reassemble engine_open ((flag ∷ bytes) ∷ ps) acc =
    let dropped = reassemble engine_open ps [] in
    let finished = reassemble engine_open ps [] in
    let continued = reassemble engine_open ps (acc ++ bytes) in
    if ltb max_message_bytes (length acc + length bytes)
    then dropped
    else if flag == frag_last
    then (if engine_open
        then ((acc ++ bytes) ∷ finished.0, finished.1, finished.2)
        else ([], [], true))
    else continued

module _ (c : FrameCodec) where
  -- `none` is the panic of a frame that `encode` refuses.
  unfoldable pub encode_all : List Frame → Option (List Bytes)
  encode_all [] = some []
  encode_all (f ∷ fs) = elim (encode c f) [
    | none ↦ none
    | some w ↦ (elim (encode_all fs) [ none ↦ none | some ws ↦ some (w ∷ ws) ])
  ]

  abbrev pub stopped : List Bytes → List Bytes → Stop → LinkOutput
  stopped wire received reason = record { wire = wire; received = received; after = err reason }

  -- The `while let Some(frag) = pending.front()` loop: the frames written, and the state or the
  -- reason to stop.
  unfoldable pub pump :
      Surroundings
      → List Bytes
      → SerialReader
      → List Bytes × Result Stop (SerialReader × List Bytes)
  pump env [] reader = ([], ok (reader, []))
  pump env (frag ∷ rest) reader = elim (prepare_send env.now frag reader.reliability) [
    | none ↦ ([], ok (reader, frag ∷ rest))
    | some (frame, l) ↦ (elim (encode c frame) [
      | none ↦ ([], err panicked)
      | some w ↦
          (let (ws, out) = pump env rest (record reader { reliability = l }) in
            if env.writer_open then (w ∷ ws, out) else ([], err writer_stopped))
    ])
  ]

  -- Sends of responses and retransmits ignore a writer that is gone.
  abbrev pub written : Surroundings → List Bytes → List Bytes
  written env ws = if env.writer_open then ws else []

  unfoldable pub on_raw : Surroundings → Option Bytes → LinkState → LinkOutput
  on_raw env none s = stopped [] [] port_closed
  on_raw env (some bytes) s =
      let (out, reader) = feed c env.now bytes s.reader in
      let (received, acc, gone) = reassemble env.engine_open out.delivered s.reassembly in
      elim (encode_all (out.responses ++ out.retransmits)) [
        | none ↦ stopped [] [] panicked
        | some ws ↦ record {
          wire = written env ws;
          received = received;
          after =
              if gone
              then err engine_stopped
              else ok (record s { reader = reader; reassembly = acc });
        }
      ]

  -- `outbound_rx` is polled only while the queue of fragments is short.
  unfoldable pub takes_outbound : ℕ → LinkState → Bool
  takes_outbound window s = ltb (length s.pending) (window * 4)

  unfoldable pub on_outbound : Option Bytes → LinkState → LinkOutput
  on_outbound none s = stopped [] [] graceful_shutdown
  on_outbound (some msg) s = record {
    wire = [];
    received = [];
    after = ok (record s { pending = s.pending ++ fragment msg });
  }

  unfoldable pub on_tick : Surroundings → LinkState → LinkOutput
  on_tick env s =
      let (frames, l) = poll_retransmits env.now s.reader.reliability in
      let reader = record (s.reader) { reliability = l } in
      elim (encode_all frames) [
        | none ↦ stopped [] [] panicked
        | some ws ↦ record {
          wire = written env ws;
          received = [];
          after =
              if has_failed l
              then err link_lost
              else if not env.running
              then err graceful_shutdown
              else ok (record s { reader = reader });
        }
      ]

  -- The `select!` after the pump. A branch that is not enabled does not fire.
  unfoldable pub on_event : ℕ → Surroundings → LinkEvent → LinkState → LinkOutput
  on_event window env (raw bytes) s = on_raw env bytes s
  on_event window env (outbound msg) s =
      if takes_outbound window s
      then on_outbound msg s
      else record { wire = []; received = []; after = ok s }
  on_event window env tick s = on_tick env s

  unfoldable pub step : ℕ → Surroundings → LinkEvent → LinkState → LinkOutput
  step window env event s =
      let (ws, pumped) = pump env s.pending s.reader in
      elim pumped [
        | err reason ↦ stopped ws [] reason
        | ok (reader, pending) ↦
            (let out =
                on_event window env event (record s { reader = reader; pending = pending }) in
              record out { wire = ws ++ out.wire })
      ]

-- `SerialTransport::send`: the checks before a message goes to the link task.
pub data SendError : Type 0 where
  not_running too_large not_ready link_closed : SendError

unfoldable pub send : (running ready link_open : Bool) → Bytes → Result SendError Bytes
send running ready link_open msg = do
  require running not_running
  require (not (ltb max_message_bytes (length msg))) too_large
  require ready not_ready
  require link_open link_closed
  ok msg
