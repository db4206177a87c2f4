-- ===== src/Serial/Link/Tests.antt =====
-- The theorems on messages at concrete inputs.
use srltcpv.Base.{ℕ, ◌≡◌, refl, subst, true, List, [], ◌∷◌, ◌++◌, Bytes, inr, arith}
use srltcpv.Serial.Frame.{data_frame}
use srltcpv.Serial.Reliability
use srltcpv.Serial.Reliability.{ReliabilityLayer, new, with_rto, with_window, on_receive}
use srltcpv.Serial.Reliability.Sessions.{Session, fresh, receives}
use srltcpv.Serial.Transport.{fragment, chunks, flag_chunks}
use srltcpv.Serial.Link.{reassemble}
use srltcpv.Serial.Link.Delivery.{reassemble-Session}

-- A peer that sends the message `5` in one fragment again and again.
abbrev one_message : ℕ → Bytes
one_message i = 0 ∷ 5 ∷ []

abbrev start : ReliabilityLayer
start = with_window (with_rto new 200) 8

abbrev after_first : ReliabilityLayer
after_first = (on_receive 5 (data_frame 0 0 (0 ∷ 5 ∷ [])) start).1

one_delivered :
    [] ++ (on_receive 5 (data_frame 0 0 (0 ∷ 5 ∷ [])) start).0.delivered ≡ (0 ∷ 5 ∷ []) ∷ []
unfolding on_receive Reliability.piggyback Reliability.dispatch Reliability.receive_sequenced
    Reliability.deliver_in_order Reliability.drain
one_delivered = refl

one_received : Session one_message after_first ((0 ∷ 5 ∷ []) ∷ [])
one_received = subst (Session one_message after_first) one_delivered (
    receives 5 (data_frame 0 0 (0 ∷ 5 ∷ [])) (fresh 200 8)
      (inr (0, refl, refl, omega arith, omega arith)))

reassemble-Session_example :
    ((rest : List Bytes) × ((reassemble true ((0 ∷ 5 ∷ []) ∷ []) []).0 ++ rest ≡ (5 ∷ []) ∷ []))
    × (◌≡◌ {A = ℕ} 0 0 → (reassemble true ((0 ∷ 5 ∷ []) ∷ []) []).0 ≡ (5 ∷ []) ∷ [])
reassemble-Session_example =
    reassemble-Session one_message ((5 ∷ []) ∷ []) 0 after_first ((0 ∷ 5 ∷ []) ∷ []) (omega arith)
      (unfold fragment chunks flag_chunks in refl) one_received
