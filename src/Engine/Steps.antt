-- ===== src/Engine/Steps.antt =====
-- core/src/p2p/engine.rs: what holds of a session whatever happens to it.
use srltcpv.Base.{
  ◌≡◌, ◌≢◌, refl, inl, inr, Bool, true, false, not, ◌&&◌, none, some, [], ◌∷◌, Bytes, ==_refl,
  if◌then◌else◌, Bool-cases, Result, ok, err, arith,
}
use srltcpv.Transfer.{same_bytes}
use srltcpv.Crypto.Primitives.{Primitives}
use srltcpv.Crypto.Wire.{SignedHandshake, CryptoError, append_body}
use srltcpv.Crypto.Kex.{HybridKeyExchange}
use srltcpv.Crypto.Sas.{lex_lt, public_key_bytes}
use srltcpv.Crypto.Peer.{
  PeerCrypto, new_connected, responder_process_step1, begin_initiator, record_step,
  responder_process_step3,
}
use srltcpv.Engine.Session.{
  TransportKind, as_initiator, as_responder, PeerSession, new_session, is_initiating, is_responding,
  is_duplicate, is_foreign, settle_init, abort_initiator, become_responder, decide_init,
  settle_start, start_handshake, answer_step2, settle_step2, process_step2, settle_finish,
  process_finish,
}

pub same_bytes_refl : (b : Bytes) → same_bytes b b ≡ true
unfolding same_bytes
same_bytes_refl [] = refl
same_bytes_refl (x ∷ xs) = rw (==_refl x) (same_bytes_refl xs)

-- What a session holds in each role.
pub data InRole {Inner : Type 0} (s : PeerSession Inner) : Type 0 where
  idle : s.role ≡ none → s.pending_kex ≡ none → s.step1 ≡ none → InRole s
  initiating :
      (kex : HybridKeyExchange) (frame : SignedHandshake)
      → s.role ≡ some as_initiator
      → s.pending_kex ≡ some kex
      → s.step1 ≡ some frame
      → s.answered_step1 ≡ none
      → s.step2 ≡ none
      → InRole s
  responding :
      (kex : HybridKeyExchange) (frame : SignedHandshake) (sig : Bytes)
      → s.role ≡ some as_responder
      → s.pending_kex ≡ some kex
      → s.step1 ≡ none
      → s.answered_step1 ≡ some sig
      → s.step2 ≡ some frame
      → InRole s

module _ {Inner : Type 0} (p : Primitives Inner) where
  settle_init-InRole :
      (yielded : Bool) (init : SignedHandshake) (s : PeerSession Inner)
      (r : Result CryptoError (SignedHandshake × HybridKeyExchange) × PeerCrypto Inner)
      → s.pending_kex ≡ none
      → s.step1 ≡ none
      → InRole (settle_init yielded init s r).1
  unfolding settle_init
  settle_init-InRole yielded init s (ok (resp, kex), c) k f =
      responding kex resp init.signature refl refl f refl refl
  settle_init-InRole yielded init s (err e, c) k f = idle refl k f

  if-InRole :
      {A : Type 0} (b : Bool) (x y : A × PeerSession Inner)
      → InRole x.1
      → InRole y.1
      → InRole (if b then x else y).1
  if-InRole true x y h k = h
  if-InRole false x y h k = k

  decide_init-InRole :
      (canonical : Bool) (secret random ratchet_random seed : Bytes) (init : SignedHandshake)
      (s : PeerSession Inner)
      → InRole s
      → InRole (decide_init p canonical secret random ratchet_random seed init s).1
  unfolding decide_init become_responder
  decide_init-InRole canonical secret random ratchet_random seed init s h =
      if-InRole (is_duplicate init s) _ _ h (
        if-InRole (is_foreign canonical init s) _ _ h (
          if-InRole (is_initiating s.role && lex_lt (public_key_bytes p seed) init.identity) _ _ h (
            settle_init-InRole (is_initiating s.role) init
              (record s { crypto = new_connected; pending_kex = none; step1 = none })
              (responder_process_step1 p secret random ratchet_random seed init new_connected) refl
              refl)))

  abort_initiator-InRole : (s : PeerSession Inner) → InRole s → InRole (abort_initiator s)
  unfolding abort_initiator
  abort_initiator-InRole s h = elim (Bool-cases (is_initiating s.role)) [
    | inl e ↦ rw e (idle refl refl refl)
    | inr e ↦ rw e h
  ]

  settle_start-InRole :
      (seed body : Bytes) (kex : HybridKeyExchange) (s : PeerSession Inner)
      (r : Result CryptoError (Unit {0}) × PeerCrypto Inner)
      → s.answered_step1 ≡ none
      → s.step2 ≡ none
      → ((e : CryptoError) → r.0 ≢ err e)
      → InRole (settle_start p seed body kex s r).1
  unfolding settle_start
  settle_start-InRole seed body kex s (ok u, c) a t h = initiating kex _ refl refl refl a t
  settle_start-InRole seed body kex s (err e, c) a t h = absurd (h e refl)

  settle_finish-InRole :
      (s : PeerSession Inner) (r : Result CryptoError Bytes × PeerCrypto Inner)
      → s.role ≡ none
      → s.pending_kex ≡ none
      → s.step1 ≡ none
      → InRole (settle_finish p s r).1
  unfolding settle_finish
  settle_finish-InRole s (ok sas, c) a b d = idle a b d
  settle_finish-InRole s (err x, c) a b d = idle a b d

  process_finish-InRole :
      (seed : Bytes) (finish : SignedHandshake) (s : PeerSession Inner)
      → InRole s
      → InRole (process_finish p seed finish s).1
  unfolding process_finish
  process_finish-InRole seed finish s (responding kex frame sig a b d f g) =
      if-InRole (not (is_responding s.role)) _ _ (responding kex frame sig a b d f g) (
        settle_finish-InRole (record s { pending_kex = none; role = none; step2 = none })
          (responder_process_step3 p seed finish s.crypto) refl refl d)
  process_finish-InRole seed finish s (idle a b d) = rw a (idle refl b d)
  process_finish-InRole seed finish s (initiating kex frame a b d f g) =
      rw a (initiating kex frame refl b d f g)

  settle_step2-InRole :
      (s : PeerSession Inner)
      (r : Result CryptoError (SignedHandshake × Bytes) × (PeerCrypto Inner × HybridKeyExchange))
      → s.role ≡ none
      → s.pending_kex ≡ none
      → s.step1 ≡ none
      → InRole (settle_step2 p s r).1
  unfolding settle_step2
  settle_step2-InRole s (ok x, (c, k)) a b d = idle a b d
  settle_step2-InRole s (err e, (c, k)) a b d = idle a b d

  process_step2-InRole :
      (seed expected : Bytes) (resp : SignedHandshake) (s : PeerSession Inner)
      → InRole s
      → InRole (process_step2 p seed expected resp s).1
  unfolding process_step2
  process_step2-InRole seed expected resp s (responding kex frame sig a b d f g) =
      rw a (responding kex frame sig refl b d f g)
  process_step2-InRole seed expected resp s (idle a b d) = rw a (idle refl b d)
  process_step2-InRole seed expected resp s (initiating kex frame a b d f g) =
      rw (a, b, process_step2)
        (settle_step2-InRole (record s { pending_kex = none; role = none; step1 = none })
          (answer_step2 p seed expected resp (s.crypto, kex)) refl refl refl)

  start_handshake-InRole :
      (secret dk seed : Bytes) (s : PeerSession Inner)
      → InRole s
      → InRole (start_handshake p secret dk seed s).1
  unfolding start_handshake record_step append_body begin_initiator
  start_handshake-InRole secret dk seed s h = if-InRole (is_responding s.role) _ _ h (
      settle_start-InRole seed _ _ (record s { answered_step1 = none; step2 = none }) _ refl refl
        (λ e q. ground (arith, q)))

-- What happens to a session: each constructor is one operation of the engine.
pub data Reaches {Inner : Type 0} (p : Primitives Inner) : PeerSession Inner → Type 0 where
  opens : (transport : TransportKind) → Reaches p (new_session transport)
  starts :
      {s : PeerSession Inner} (secret dk seed : Bytes)
      → Reaches p s
      → Reaches p (start_handshake p secret dk seed s).1
  receives_step1 :
      {s : PeerSession Inner} (canonical : Bool) (secret random ratchet_random seed : Bytes)
      (init : SignedHandshake)
      → Reaches p s
      → Reaches p (decide_init p canonical secret random ratchet_random seed init s).1
  receives_step2 :
      {s : PeerSession Inner} (seed expected : Bytes) (resp : SignedHandshake)
      → Reaches p s
      → Reaches p (process_step2 p seed expected resp s).1
  receives_step3 :
      {s : PeerSession Inner} (seed : Bytes) (finish : SignedHandshake)
      → Reaches p s
      → Reaches p (process_finish p seed finish s).1
  aborts : {s : PeerSession Inner} → Reaches p s → Reaches p (abort_initiator s)
  -- Encryption, decryption and the confirmation of the safety number change only `crypto`.
  talks :
      {s : PeerSession Inner} (c : PeerCrypto Inner)
      → Reaches p s
      → Reaches p (record s { crypto = c })

-- Whatever frames arrive and however a handshake is started, aborted and superseded, a session
-- without a role holds no key exchange and no step 1; an initiator holds its key exchange and its
-- step 1 and has answered nothing; a responder holds its key exchange, its answer, and the
-- signature of the step 1 that it answered.
pub Reaches-InRole :
    {Inner : Type 0} (p : Primitives Inner) (s : PeerSession Inner) → Reaches p s → InRole s
Reaches-InRole p s' (opens transport) = idle refl refl refl
Reaches-InRole p s' (starts {s = s} secret dk seed r) =
    start_handshake-InRole p secret dk seed s (Reaches-InRole p s r)
Reaches-InRole p s' (receives_step1 {s = s} canonical secret random ratchet_random seed init r) =
    decide_init-InRole p canonical secret random ratchet_random seed init s (Reaches-InRole p s r)
Reaches-InRole p s' (receives_step2 {s = s} seed expected resp r) =
    process_step2-InRole p seed expected resp s (Reaches-InRole p s r)
Reaches-InRole p s' (receives_step3 {s = s} seed finish r) =
    process_finish-InRole p seed finish s (Reaches-InRole p s r)
Reaches-InRole p s' (aborts {s = s} r) = abort_initiator-InRole p s (Reaches-InRole p s r)
Reaches-InRole {Inner = Inner} p s' (talks {s = s} c r) = with_crypto s c (Reaches-InRole p s r)
  where
    with_crypto :
        (s : PeerSession Inner) (c : PeerCrypto Inner) → InRole s → InRole (record s { crypto = c })
    with_crypto s c (idle a b d) = idle a b d
    with_crypto s c (initiating kex frame a b d f g) = initiating kex frame a b d f g
    with_crypto s c (responding kex frame sig a b d f g) = responding kex frame sig a b d f g
