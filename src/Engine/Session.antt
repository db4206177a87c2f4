-- ===== src/Engine/Session.antt =====
-- core/src/p2p/engine.rs: the handshake of one session. The channels, the locks and the sending of
-- the frames are the runtime's; what is decided under the lock of `peers` is here.
use srltcpv.Base.{
  Bool, true, false, not, ◌&&◌, Option, none, some, Bytes, if◌then◌else◌, Result, ok, err,
}
use srltcpv.Base.Stateful.{Stateful, ◌>>=◌, lift}
use srltcpv.Transfer.{same_bytes}
use srltcpv.Crypto.Primitives.{Primitives}
use srltcpv.Crypto.Wire.{SignedHandshake, CryptoError}
use srltcpv.Crypto.Kex.{HybridKeyExchange}
use srltcpv.Crypto.Sas.{lex_lt, public_key_bytes}
use srltcpv.Crypto.Peer.{
  PeerCrypto, new_connected, same_key, zero_key, begin_initiator, record_initiator_step1,
  sign_handshake, verify_handshake_frame, initiator_process_step2, initiator_finalize_step3,
  responder_process_step1, responder_process_step3, on_peer,
}

pub data TransportKind : Type 0 where
  lan wan relay serial : TransportKind

pub data HandshakeRole : Type 0 where
  as_initiator as_responder : HandshakeRole

pub record PeerSession (Inner : Type 0) : Type 0 where
  pub transport : TransportKind
  pub crypto : PeerCrypto Inner
  pub pending_kex : Option HybridKeyExchange
  pub role : Option HandshakeRole
  pub step1 : Option SignedHandshake
  pub answered_step1 : Option Bytes
  pub step2 : Option SignedHandshake

pub data SessionError : Type 0 where
  superseded state_lost unexpected_finish identity_mismatch : SessionError
  crypto_error : CryptoError → SessionError

pub data Decision : Type 0 where
  ignore : Decision
  resend : SignedHandshake → Decision
  respond : SignedHandshake → Bool → Decision
  fail : SessionError → Decision

abbrev pub is_initiating : Option HandshakeRole → Bool
is_initiating none = false
is_initiating (some as_initiator) = true
is_initiating (some as_responder) = false

abbrev pub is_responding : Option HandshakeRole → Bool
is_responding none = false
is_responding (some as_initiator) = false
is_responding (some as_responder) = true

-- The answer to a step 1 that was answered already.
abbrev pub answer_duplicate : Option HandshakeRole → Option SignedHandshake → Decision
answer_duplicate (some as_responder) (some step2) = resend step2
answer_duplicate (some as_responder) none = ignore
answer_duplicate (some as_initiator) step2 = ignore
answer_duplicate none step2 = ignore

module _ {Inner : Type 0} where
  abbrev pub new_session : TransportKind → PeerSession Inner
  new_session transport = record {
    transport = transport;
    crypto = new_connected;
    pending_kex = none;
    role = none;
    step1 = none;
    answered_step1 = none;
    step2 = none;
  }

  abbrev pub is_duplicate : SignedHandshake → PeerSession Inner → Bool
  is_duplicate init s = elim s.answered_step1 [
    | none ↦ false
    | some sig ↦ same_bytes sig init.signature
  ]

  -- A session under a canonical id knows the identity of its peer.
  abbrev pub is_foreign : Bool → SignedHandshake → PeerSession Inner → Bool
  is_foreign canonical init s =
      canonical
      && (not (same_key s.crypto.remote_identity (zero_key 32))
          && not (same_key s.crypto.remote_identity init.identity))

  unfoldable pub settle_init :
      Bool
      → SignedHandshake
      → PeerSession Inner
      → Result CryptoError (SignedHandshake × HybridKeyExchange) × PeerCrypto Inner
      → Decision × PeerSession Inner
  settle_init yielded init s (ok (resp, kex), c) = (
    respond resp yielded,
    record s {
      crypto = c;
      pending_kex = some kex;
      role = some as_responder;
      answered_step1 = some init.signature;
      step2 = some resp;
    },
  )
  settle_init yielded init s (err e, c) =
      (fail (crypto_error e), record s { crypto = c; role = none })

  -- Only an initiator is reset.
  unfoldable pub abort_initiator : PeerSession Inner → PeerSession Inner
  abort_initiator s =
      if is_initiating s.role
      then record s { crypto = new_connected; pending_kex = none; role = none; step1 = none }
      else s

module _ {Inner : Type 0} (p : Primitives Inner) where
  -- The random values are those of `responder_process_step1`.
  unfoldable pub become_responder :
      Bytes
      → Bytes
      → Bytes
      → Bytes
      → SignedHandshake
      → PeerSession Inner
      → Decision × PeerSession Inner
  become_responder secret random ratchet_random seed init s =
      settle_init (is_initiating s.role) init
        (record s { crypto = new_connected; pending_kex = none; step1 = none })
        (responder_process_step1 p secret random ratchet_random seed init new_connected)

  unfoldable pub decide_init :
      Bool
      → Bytes
      → Bytes
      → Bytes
      → Bytes
      → SignedHandshake
      → PeerSession Inner
      → Decision × PeerSession Inner
  decide_init canonical secret random ratchet_random seed init s =
      if is_duplicate init s
      then (answer_duplicate s.role s.step2, s)
      else if is_foreign canonical init s
      then (fail identity_mismatch, s)
      else if is_initiating s.role && lex_lt (public_key_bytes p seed) init.identity
      then (ignore, s)
      else become_responder secret random ratchet_random seed init s

  abbrev pub or_new : Option (PeerSession Inner) → PeerSession Inner
  or_new none = new_session lan
  or_new (some s) = s

  -- `canonical` says whether the peer id begins with `peer:`. A frame with a bad signature makes no
  -- session.
  unfoldable pub handle_handshake_init :
      Bool
      → Bytes
      → Bytes
      → Bytes
      → Bytes
      → SignedHandshake
      → Option (PeerSession Inner)
      → Decision × Option (PeerSession Inner)
  handle_handshake_init canonical secret random ratchet_random seed init found =
      elim (verify_handshake_frame p init) [
        | err e ↦ (ignore, found)
        | ok u ↦
            (let decided =
                decide_init canonical secret random ratchet_random seed init (or_new found) in
              (decided.0, some decided.1))
      ]

  unfoldable pub settle_start :
      Bytes
      → Bytes
      → HybridKeyExchange
      → PeerSession Inner
      → Result CryptoError (Unit {0}) × PeerCrypto Inner
      → Result SessionError SignedHandshake × PeerSession Inner
  settle_start seed body kex s (err e, c) = (err (crypto_error e), record s { crypto = c })
  settle_start seed body kex s (ok u, c) =
      let frame = sign_handshake p seed 1 body in
      (
        ok frame,
        record s {
          crypto = c;
          pending_kex = some kex;
          role = some as_initiator;
          step1 = some frame;
        },
      )

  -- The first part of `handshake_with_qr_bytes`, up to the sending of step 1.
  unfoldable pub start_handshake :
      Bytes → Bytes → Bytes → Stateful (PeerSession Inner) SessionError SignedHandshake
  start_handshake secret dk seed s =
      if is_responding s.role
      then (err superseded, s)
      else (let begun = begin_initiator p secret dk new_connected in
          let body = begun.0.0 in
          settle_start seed body begun.0.1 (record s { answered_step1 = none; step2 = none })
            (record_initiator_step1 body begun.1))

  abbrev pub answer_step2 :
      Bytes
      → Bytes
      → SignedHandshake
      → Stateful (PeerCrypto Inner × HybridKeyExchange) CryptoError (SignedHandshake × Bytes)
  answer_step2 seed expected resp = do
    step3_body ← initiator_process_step2 p resp expected
    sas ← on_peer p (initiator_finalize_step3 p seed step3_body)
    lift (ok (sign_handshake p seed 3 step3_body, sas))

  unfoldable pub settle_step2 :
      PeerSession Inner
      → Result CryptoError (SignedHandshake × Bytes) × (PeerCrypto Inner × HybridKeyExchange)
      → Result SessionError (SignedHandshake × Bytes) × PeerSession Inner
  settle_step2 s (ok r, (c, k)) = (ok r, record s { crypto = c })
  settle_step2 s (err e, (c, k)) = (err (crypto_error e), record s { crypto = new_connected })

  -- Its second part, from the arrival of step 2.
  unfoldable pub process_step2 :
      Bytes
      → Bytes
      → SignedHandshake
      → Stateful (PeerSession Inner) SessionError (SignedHandshake × Bytes)
  process_step2 seed expected resp s =
      let over = record s { pending_kex = none; role = none; step1 = none } in
      if not (is_initiating s.role) then (err state_lost, s) else (elim s.pending_kex [
        | none ↦ (err state_lost, record over { crypto = new_connected })
        | some kex ↦ settle_step2 over (answer_step2 seed expected resp (s.crypto, kex))
      ])

  unfoldable pub settle_finish :
      PeerSession Inner
      → Result CryptoError Bytes × PeerCrypto Inner
      → Result SessionError Bytes × PeerSession Inner
  settle_finish s (ok sas, c) = (ok sas, record s { crypto = c })
  settle_finish s (err e, c) = (err (crypto_error e), record s { crypto = new_connected })

  -- What `handle_handshake_finish` does under the lock.
  unfoldable pub process_finish :
      Bytes → SignedHandshake → Stateful (PeerSession Inner) SessionError Bytes
  process_finish seed finish s =
      if not (is_responding s.role)
      then (err unexpected_finish, s)
      else settle_finish (record s { pending_kex = none; role = none; step2 = none })
          (responder_process_step3 p seed finish s.crypto)
