-- ===== src/Serial/Transport/Tests.antt =====
-- The theorems on the byte reader and the timeout at concrete inputs.
use srltcpv.Base.{◌*◌, ◌≤◌, ◌≡◌, ◌≢◌, refl, some, [], ◌∷◌, ◌++◌, Bytes, All, max, length, arith}
use srltcpv.Serial.Toy.{toy, toy-CodecLaws}
use srltcpv.Serial.Frame.{
  Frame, IsValidFrame, data_frame, encode, serialize_raw, header_and_payload, to_byte,
  max_frame_size,
}
use srltcpv.Serial.Transport.{new_reader, feed, effective_rto, default_config}
use srltcpv.Serial.Transport.Scan.{scan}
use srltcpv.Serial.Transport.Feed.{accept_all, receive_all}
use srltcpv.Serial.Transport.Resync.{IsWire, Fed, feed-resync}
use srltcpv.Serial.Transport.Buffer.{feed_buffer-bounded}

abbrev hello : Frame
hello = data_frame 0 0 (7 ∷ [])

abbrev hello_wire : Bytes
hello_wire = 1 ∷ 84 ∷ 83 ∷ 2 ∷ 1 ∷ 1 ∷ 1 ∷ 1 ∷ 1 ∷ 2 ∷ 8 ∷ 1 ∷ 1 ∷ 1 ∷ 11 ∷ 0 ∷ []

encode-hello : encode toy hello ≡ some hello_wire
unfolding encode serialize_raw header_and_payload to_byte
encode-hello = refl

hello-IsValidFrame : IsValidFrame hello
hello-IsValidFrame = record {
  seq_u16 = omega arith;
  ack_u16 = omega arith;
  payload_bytes = (omega arith, tt);
  payload_fits = omega arith;
}

hello-IsWire : IsWire toy (hello ∷ []) hello_wire
hello-IsWire = (hello_wire, [], encode-hello, refl, refl)

feed-resync_example :
    let (heard, said, l) =
      accept_all toy 5 (scan [] (3 ∷ 4 ∷ 0 ∷ [])).0 (new_reader 200 8).reliability in
    let (delivered, answers, l') = receive_all toy 5 (hello ∷ []) l in
    Fed 5
      (new_reader 200 8)
      (feed toy 5 (3 ∷ 4 ∷ 0 ∷ hello_wire) (new_reader 200 8))
      (heard ++ delivered, said ++ answers, l')
      []
feed-resync_example =
    feed-resync toy toy-CodecLaws 5 (new_reader 200 8) (3 ∷ 4 ∷ 0 ∷ hello_wire) (3 ∷ 4 ∷ [])
      hello_wire [] (hello ∷ []) (hello-IsValidFrame, tt) hello-IsWire tt refl

feed_buffer-bounded_example :
    let kept = (feed toy 5 (1 ∷ 0 ∷ 2 ∷ []) (new_reader 200 8)).1.rx_buffer in
    All (λ b. b ≢ 0) kept × (length kept ≤ max (4 * max_frame_size) 3)
feed_buffer-bounded_example = feed_buffer-bounded toy 5 (1 ∷ 0 ∷ 2 ∷ []) (new_reader 200 8) tt

default_rto : effective_rto default_config ≡ 3066
unfolding effective_rto
default_rto = refl
