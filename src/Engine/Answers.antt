-- ===== src/Engine/Answers.antt =====
-- core/src/p2p/engine.rs: what a session answers to a step 1.
use srltcpv.Base.{
  ◌≡◌, ◌≢◌, refl, sym, ap, ◌∙◌, inl, inr, Bool, true, false, not, ◌&&◌, Option, none, some, Bytes,
  if◌then◌else◌, Bool-cases, Result, ok, err,
}
use mathlib.Core.Option.{some_inj, none-ne-some}
use srltcpv.Crypto.Primitives.{Primitives}
use srltcpv.Crypto.Wire.{SignedHandshake, CryptoError}
use srltcpv.Crypto.Kex.{HybridKeyExchange}
use srltcpv.Crypto.Sas.{lex_lt, public_key_bytes}
use srltcpv.Crypto.Secrets.{lex_lt_asym, lex_lt_total}
use srltcpv.Crypto.Peer.{PeerCrypto, new_connected, responder_process_step1}
use srltcpv.Engine.Session.{
  HandshakeRole, as_initiator, as_responder, PeerSession, Decision, ignore, resend, respond, fail,
  is_initiating, answer_duplicate, is_duplicate, is_foreign, settle_init, become_responder,
  decide_init,
}
use srltcpv.Engine.Steps.{same_bytes_refl}

-- The frame of a response.
abbrev pub response : Decision → Option SignedHandshake
response ignore = none
response (resend f) = none
response (respond f y) = some f
response (fail e) = none

module _ {Inner : Type 0} (p : Primitives Inner) where
  response-duplicate :
      (role : Option HandshakeRole) (step2 : Option SignedHandshake)
      → response (answer_duplicate role step2) ≡ none
  response-duplicate none step2 = refl
  response-duplicate (some as_initiator) step2 = refl
  response-duplicate (some as_responder) none = refl
  response-duplicate (some as_responder) (some f) = refl

  module _ (canonical : Bool) (secret random ratchet_random seed : Bytes)
      (init : SignedHandshake) where
    -- The step 1 that led to a decision leads to the same frame again, and to no change.
    abbrev Repeats : SignedHandshake → Decision × PeerSession Inner → Type 0
    Repeats resp x =
        response x.0 ≡ some resp
        → decide_init p canonical secret random ratchet_random seed init x.1 ≡ (resend resp, x.1)

    if-Repeats :
        (resp : SignedHandshake) (b : Bool) (x y : Decision × PeerSession Inner)
        → Repeats resp x
        → Repeats resp y
        → Repeats resp (if b then x else y)
    if-Repeats resp true x y h k = h
    if-Repeats resp false x y h k = k

    settle_init-Repeats :
        (resp : SignedHandshake) (yielded : Bool) (s : PeerSession Inner)
        (r : Result CryptoError (SignedHandshake × HybridKeyExchange) × PeerCrypto Inner)
        → Repeats resp (settle_init yielded init s r)
    unfolding settle_init decide_init
    settle_init-Repeats resp yielded s (ok (f, kex), c) e = rw (same_bytes_refl init.signature) (
        ap (λ (x : SignedHandshake). (resend x, (settle_init yielded init s (ok (f, kex), c)).1))
          (some_inj.0 e))
    settle_init-Repeats resp yielded s (err x, c) e = absurd (none-ne-some resp e)

    decide_init-Repeats :
        (canonical' : Bool) (secret' random' ratchet_random' seed' : Bytes) (s : PeerSession Inner)
        (resp : SignedHandshake)
        → Repeats resp (decide_init p canonical' secret' random' ratchet_random' seed' init s)
    unfolding decide_init become_responder
    decide_init-Repeats canonical' secret' random' ratchet_random' seed' s resp =
        if-Repeats resp (is_duplicate init s) _ _
          (λ q. absurd (none-ne-some resp (sym (response-duplicate s.role s.step2) ∙ q)))
          (if-Repeats resp (is_foreign canonical' init s) _ _ (λ q. absurd (none-ne-some resp q))
            (if-Repeats resp
              (is_initiating s.role && lex_lt (public_key_bytes p seed') init.identity) _ _
              (λ q. absurd (none-ne-some resp q))
              (settle_init-Repeats resp (is_initiating s.role)
                (record s { crypto = new_connected; pending_kex = none; step1 = none })
                (responder_process_step1 p secret' random' ratchet_random' seed' init
                  new_connected))))

    -- A step 1 that is answered with a response is answered with the same frame when it arrives
    -- again, and the session stays as it is: no new keys are made.
    pub decide_init-again :
        (canonical' : Bool) (secret' random' ratchet_random' seed' : Bytes) (s : PeerSession Inner)
        (resp : SignedHandshake)
        → response (decide_init p canonical' secret' random' ratchet_random' seed' init s).0
          ≡ some resp
        → decide_init p canonical secret random ratchet_random seed init
            (decide_init p canonical' secret' random' ratchet_random' seed' init s).1
          ≡ (resend resp, (decide_init p canonical' secret' random' ratchet_random' seed' init s).1)
    decide_init-again canonical' secret' random' ratchet_random' seed' s resp e =
        decide_init-Repeats canonical' secret' random' ratchet_random' seed' s resp e

  -- A session that started a handshake and receives a step 1 of the peer: it has answered none
  -- before, and the frame is not from another peer than the one the session belongs to.
  pub record Racing (canonical : Bool) (init : SignedHandshake) (s : PeerSession Inner)
      : Type 0 where
    pub started : s.role ≡ some as_initiator
    pub unanswered : s.answered_step1 ≡ none
    pub expected : is_foreign canonical init s ≡ false

  settle_init-yields :
      (yielded : Bool) (init : SignedHandshake) (s : PeerSession Inner)
      (r : Result CryptoError (SignedHandshake × HybridKeyExchange) × PeerCrypto Inner)
      → is_initiating (settle_init yielded init s r).1.role ≡ false
  unfolding settle_init
  settle_init-yields yielded init s (ok (f, kex), c) = refl
  settle_init-yields yielded init s (err x, c) = refl

  decide_init-race :
      (canonical : Bool) (secret random ratchet_random seed : Bytes) (init : SignedHandshake)
      (s : PeerSession Inner)
      → Racing canonical init s
      → is_initiating (decide_init p canonical secret random ratchet_random seed init s).1.role
        ≡ lex_lt (public_key_bytes p seed) init.identity
  unfolding decide_init become_responder
  decide_init-race canonical secret random ratchet_random seed init s h =
      elim (Bool-cases (lex_lt (public_key_bytes p seed) init.identity)) [
        | inl e ↦ rw (h.unanswered, h.expected, h.started, e, decide_init) refl
        | inr e ↦
            rw (h.unanswered, h.expected, h.started, e, decide_init)
              (settle_init-yields true init _ _)
      ]

  -- When two sides with different identities start a handshake at once and each receives the
  -- other's step 1, not having answered one before and not taking it for another peer's, exactly
  -- one stays initiator: the one with the smaller identity.
  pub decide_init-one_initiator :
      (seed_a seed_b : Bytes) (init_a init_b : SignedHandshake) (s_a s_b : PeerSession Inner)
      (canonical_a canonical_b : Bool)
      (secret_a secret_b random_a random_b ratchet_a ratchet_b : Bytes)
      → public_key_bytes p seed_a ≢ public_key_bytes p seed_b
      → init_a.identity ≡ public_key_bytes p seed_a
      → init_b.identity ≡ public_key_bytes p seed_b
      → Racing canonical_a init_b s_a
      → Racing canonical_b init_a s_b
      → (is_initiating
            (decide_init p canonical_a secret_a random_a ratchet_a seed_a init_b s_a).1.role
          ≡ lex_lt (public_key_bytes p seed_a) (public_key_bytes p seed_b))
        × (is_initiating
              (decide_init p canonical_b secret_b random_b ratchet_b seed_b init_a s_b).1.role
            ≡ not (lex_lt (public_key_bytes p seed_a) (public_key_bytes p seed_b)))
  decide_init-one_initiator seed_a seed_b init_a init_b s_a s_b canonical_a canonical_b secret_a
        secret_b random_a random_b ratchet_a ratchet_b ne i_a i_b h_a h_b =
      (
        decide_init-race canonical_a secret_a random_a ratchet_a seed_a init_b s_a h_a
            ∙ ap (lex_lt (public_key_bytes p seed_a)) i_b,
        decide_init-race canonical_b secret_b random_b ratchet_b seed_b init_a s_b h_b
            ∙ ap (lex_lt (public_key_bytes p seed_b)) i_a
            ∙ opposite (public_key_bytes p seed_a) (public_key_bytes p seed_b) ne,
      )
    where
      opposite : (a b : Bytes) → a ≢ b → lex_lt b a ≡ not (lex_lt a b)
      opposite a b ne = elim (Bool-cases (lex_lt a b)) [
        | inl e ↦ rw (e, lex_lt_asym a b e) refl
        | inr e ↦ elim (Bool-cases (lex_lt b a)) [
          | inl q ↦ rw (e, q) refl
          | inr q ↦ absurd (ne (lex_lt_total a b e q))
        ]
      ]
