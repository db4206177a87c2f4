-- ===== src/Engine/Tests.antt =====
-- core/src/p2p/engine.rs: the theorems at concrete inputs.
use srltcpv.Base.{
  none, Option, ◌==◌, if◌then◌else◌, ℕ, ◌≡◌, ◌≢◌, refl, ap, false, not, some, [], ◌∷◌, Bytes,
  get_or, arith,
}
use srltcpv.Crypto.Wire.{SignedHandshake, append_body}
use srltcpv.Crypto.Kex.{initiator, initiator_message}
use srltcpv.Crypto.Sas.{lex_lt, public_key_bytes}
use srltcpv.Crypto.Peer.{begin_initiator, record_step, sign_handshake}
use srltcpv.Crypto.Toy.{toy, toy-PrimitivesLaws, pad}
use srltcpv.Crypto.Agreement.{second_body, bob_after_step1}
use srltcpv.Engine.Session.{
  PeerSession, new_session, lan, start_handshake, settle_start, settle_init, become_responder,
  decide_init, is_initiating, resend, Decision,
}
use srltcpv.Engine.Steps.{opens, starts, receives_step1, InRole, Reaches-InRole}
use srltcpv.Base.Assoc.{get, insert, remove}
use srltcpv.Engine.Queue.{
  text, file, SendError, chain_not_ready, other, Queues, Flushed, flush_pending_for_peer, put_back,
  enqueue_all, enqueue_pending, retry_from, flush_pending_for_peer-Flushed,
}
use srltcpv.Engine.Answers.{Racing, response, decide_init-again, decide_init-one_initiator}

-- Two peers that start a handshake at once.
abbrev alice : Bytes
alice = 1 ∷ []

abbrev bob : Bytes
bob = 2 ∷ []

abbrev alice_session : PeerSession ℕ
alice_session = (start_handshake toy (3 ∷ []) (4 ∷ []) alice (new_session lan)).1

abbrev bob_session : PeerSession ℕ
bob_session = (start_handshake toy (5 ∷ []) (6 ∷ []) bob (new_session lan)).1

abbrev alice_init : SignedHandshake
alice_init = sign_handshake toy alice 1 (initiator_message (initiator toy (3 ∷ []) (4 ∷ [])))

abbrev bob_init : SignedHandshake
bob_init = sign_handshake toy bob 1 (initiator_message (initiator toy (5 ∷ []) (6 ∷ [])))

alice-Racing : Racing toy false bob_init alice_session
unfolding start_handshake settle_start record_step append_body begin_initiator
alice-Racing = record { started = refl; unanswered = refl; expected = refl }

bob-Racing : Racing toy false alice_init bob_session
unfolding start_handshake settle_start record_step append_body begin_initiator
bob-Racing = record { started = refl; unanswered = refl; expected = refl }

differ : public_key_bytes toy alice ≢ public_key_bytes toy bob
unfolding public_key_bytes pad
differ e = let heads : ◌≡◌ {A = ℕ} 1 2 = ap (λ (b : Bytes). get_or b 0 0) e in omega (arith, heads)

decide_init-one_initiator_example :
    (is_initiating (decide_init toy false [] [] [] alice bob_init alice_session).1.role
      ≡ lex_lt (public_key_bytes toy alice) (public_key_bytes toy bob))
    × (is_initiating (decide_init toy false [] [] [] bob alice_init bob_session).1.role
        ≡ not (lex_lt (public_key_bytes toy alice) (public_key_bytes toy bob)))
unfolding sign_handshake
decide_init-one_initiator_example =
    decide_init-one_initiator toy alice bob alice_init bob_init alice_session bob_session false
      false [] [] [] [] [] [] differ refl refl alice-Racing bob-Racing

Reaches-InRole_example :
    InRole (decide_init toy false (7 ∷ []) (8 ∷ []) (9 ∷ []) bob alice_init bob_session).1
Reaches-InRole_example =
    Reaches-InRole toy
      (decide_init toy false (7 ∷ []) (8 ∷ []) (9 ∷ []) bob alice_init bob_session).1
      (receives_step1 false (7 ∷ []) (8 ∷ []) (9 ∷ []) bob alice_init
        (starts (5 ∷ []) (6 ∷ []) bob (opens lan)))

-- Bob's answer to Alice, and his session after it.
abbrev answered : Decision × PeerSession ℕ
answered = decide_init toy false (7 ∷ []) (8 ∷ []) (9 ∷ []) bob alice_init (new_session lan)

abbrev answer : SignedHandshake
answer =
    sign_handshake toy bob 2
      (second_body toy toy-PrimitivesLaws alice bob (3 ∷ []) (4 ∷ []) (7 ∷ []) (8 ∷ []) (9 ∷ []))

is_answered : response answered.0 ≡ some answer
unfolding decide_init become_responder settle_init sign_handshake
is_answered =
    rw
      (bob_after_step1 toy toy-PrimitivesLaws alice bob (3 ∷ []) (4 ∷ []) (7 ∷ []) (8 ∷ [])
        (9 ∷ []))
      refl

-- The same step 1 arrives again.
decide_init-again_example :
    decide_init toy false (1 ∷ []) (1 ∷ []) (1 ∷ []) bob alice_init answered.1
    ≡ (resend answer, answered.1)
decide_init-again_example =
    decide_init-again toy false (1 ∷ []) (1 ∷ []) (1 ∷ []) bob alice_init false (7 ∷ []) (8 ∷ [])
      (9 ∷ []) bob (new_session lan) answer is_answered

-- Three queued items, of which the first is sent, the second waits for the ratchet and the third
-- fails for good, while a fourth one arrives.
abbrev waiting : Queues
waiting = (7, text (1 ∷ []) ∷ text (2 ∷ []) ∷ file (3 ∷ []) ∷ []) ∷ []

abbrev outcomes : ℕ → Option SendError
outcomes i = if i == 0 then none else if i == 1 then some chain_not_ready else some other

flush_pending_for_peer-Flushed_example :
    Flushed 7 outcomes
      (text (4 ∷ []) ∷ [])
      waiting
      (flush_pending_for_peer 7 outcomes (text (4 ∷ []) ∷ []) waiting)
flush_pending_for_peer-Flushed_example =
    flush_pending_for_peer-Flushed 7 outcomes (text (4 ∷ []) ∷ []) waiting (omega arith)

flushed :
    flush_pending_for_peer 7 outcomes (text (4 ∷ []) ∷ []) waiting
    ≡ (7, text (2 ∷ []) ∷ text (4 ∷ []) ∷ []) ∷ []
unfolding flush_pending_for_peer put_back enqueue_all enqueue_pending retry_from get insert remove
flushed = refl
