-- ===== src/Serial/Reliability/Tests.antt =====
-- The theorems on the reliability layer at concrete inputs.
use srltcpv.Base.{
  ℕ, ◌+◌, ◌≡◌, refl, inr, false, none, [], ◌∷◌, ◌++◌, Bytes, ltb, if◌then◌else◌, arith,
}
use srltcpv.Base.Assoc.{get}
use srltcpv.Serial.Frame.{data_frame}
use srltcpv.Serial.Reliability.{
  ReliabilityLayer, InflightEntry, new, with_rto, with_window, launch, on_receive, handle_ack,
  handle_nack, poll_retransmits, has_failed, max_retries, seq_lt,
}
use srltcpv.Serial.Reliability.Order.{Waiting, Genuine, Received, on_receive-Received}
use srltcpv.Serial.Reliability.Sessions.{Session, fresh, receives, Delivered, Session-Delivered}
use srltcpv.Serial.Reliability.Bounds.{Op, run, run-new-IsBounded}
use srltcpv.Serial.Reliability.Window.{IsBounded}
use srltcpv.Serial.Reliability.Acks.{frame_of, frame_of-handle_ack}
use srltcpv.Serial.Reliability.Retries.{
  Silent, unanswered, has_failed-unanswered, poll_retransmits-overdue,
}

-- A peer whose frame `i` carries the one byte `i`.
abbrev counter : ℕ → Bytes
counter i = i ∷ []

abbrev start : ReliabilityLayer
start = with_window (with_rto new 200) 8

start-Waiting : Waiting counter 0 start
start-Waiting = record { next = refl; idle = refl; ahead = tt }

-- Frame 1 overtakes frame 0.
second_first : Genuine counter 0 (data_frame 1 0 (1 ∷ []))
second_first = inr (1, refl, refl, omega arith, omega arith)

on_receive-Received_example : Received counter 0 (on_receive 5 (data_frame 1 0 (1 ∷ [])) start)
on_receive-Received_example =
    on_receive-Received counter 5 0 (data_frame 1 0 (1 ∷ [])) start start-Waiting second_first

abbrev after_first : ReliabilityLayer
after_first = (on_receive 5 (data_frame 0 0 (0 ∷ [])) start).1

one_received :
    Session counter after_first ([] ++ (on_receive 5 (data_frame 0 0 (0 ∷ [])) start).0.delivered)
one_received =
    receives 5 (data_frame 0 0 (0 ∷ [])) (fresh 200 8)
      (inr (0, refl, refl, omega arith, omega arith))

Session-Delivered_example :
    Delivered counter after_first ([] ++ (on_receive 5 (data_frame 0 0 (0 ∷ [])) start).0.delivered)
Session-Delivered_example = Session-Delivered counter one_received

run-new-IsBounded_example :
    IsBounded (run (Op.receive 5 (data_frame 1 0 (1 ∷ [])) ∷ Op.poll 9 ∷ []) start)
run-new-IsBounded_example =
    run-new-IsBounded 200 8 (Op.receive 5 (data_frame 1 0 (1 ∷ [])) ∷ Op.poll 9 ∷ [])

abbrev two_sent : ReliabilityLayer
two_sent = (launch 7 (data_frame 1 0 (4 ∷ [])) (launch 6 (data_frame 0 0 (3 ∷ [])) start).1).1

frame_of-handle_ack_example :
    (frame_of (get 1 (handle_ack 9 1 two_sent).inflight)
      ≡ (if seq_lt 1 1 then none else frame_of (get 1 two_sent.inflight)))
    × (frame_of (get 1 (handle_nack 9 0 two_sent).inflight) ≡ frame_of (get 1 two_sent.inflight))
frame_of-handle_ack_example = frame_of-handle_ack 9 1 0 1 two_sent

has_failed-unanswered_example :
    has_failed (unanswered (Silent.send 0 (1 ∷ []) ∷ Silent.poll 500 ∷ []) start) ≡ false
has_failed-unanswered_example =
    has_failed-unanswered 200 8 (Silent.send 0 (1 ∷ []) ∷ Silent.poll 500 ∷ [])

abbrev tired : InflightEntry
tired = record { frame = data_frame 0 0 (1 ∷ []); sent_at = 100; retries = 11 }

abbrev waiting_long : ReliabilityLayer
waiting_long = record start { inflight = (0, tired) ∷ [] }

poll_retransmits-overdue_example :
    ((poll_retransmits 300 waiting_long).0 ≡ data_frame 0 0 (1 ∷ []) ∷ [])
    × ((poll_retransmits 300 waiting_long).1.inflight ≡ (
        if ltb (11 + 1) max_retries
        then (0, record tired { sent_at = 300; retries = 11 + 1 }) ∷ []
        else []))
    × ((poll_retransmits 300 waiting_long).1.failed ≡ false)
poll_retransmits-overdue_example =
    poll_retransmits-overdue 300 0 tired waiting_long refl (omega arith) (omega arith)
