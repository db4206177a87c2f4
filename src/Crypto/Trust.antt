-- ===== src/Crypto/Trust.antt =====
-- core/src/crypto/peer_crypto.rs: when a peer is trusted, and what a trusted peer has.
use srltcpv.Base.{
  ℕ, ◌≤◌, ◌≡◌, refl, Bool, true, false, Option, none, some, Bytes, length, drop, ◌-◌, Result, ok,
  err, arith,
}
use srltcpv.Base.Stateful.{Stateful, continue_with, ◌>>=◌, ◌>>◌, lift, reads, updates}
use srltcpv.Crypto.Primitives.{Primitives}
use srltcpv.Crypto.Wire.{CryptoError, SignedHandshake, append_body, is_finished}
use srltcpv.Crypto.Kex.{HybridKeyExchange, initiator_finish}
use srltcpv.Crypto.Ratchet.{SessionRatchet, init_initiator}
use srltcpv.Crypto.Peer.{
  PeerCrypto, handshaking, is_trusted, may_decrypt, record_step, begin_initiator, finalize_sas,
  initiator_process_step2, initiator_finalize_step3, responder_process_step1,
  responder_process_step3, confirm_trusted, on_ratchet, completion_marker, on_peer, on_exchange,
  strip_ratchet_pk_for_kex, extract_bob_ratchet_pk,
}

abbrev pub is_some : {A : Type 0} → Option A → Bool
is_some none = false
is_some (some a) = true

module _ {Inner : Type 0} where
  -- A session that may decrypt has a finished transcript, a secret and a ratchet.
  pub record IsConsistent (c : PeerCrypto Inner) : Type 0 where
    pub paired : is_some c.shared_secret ≡ true → is_some c.ratchet ≡ true
    pub finished : may_decrypt c.trust ≡ true → is_finished c.transcript ≡ true
    pub secret : may_decrypt c.trust ≡ true → is_some c.shared_secret ≡ true

  -- What every step but the confirmation keeps.
  pub record Keeps (c c' : PeerCrypto Inner) : Type 0 where
    pub consistent : IsConsistent c → IsConsistent c'
    pub untrusted : is_trusted c ≡ false → is_trusted c' ≡ false

  pub Keeps-refl : (c : PeerCrypto Inner) → Keeps c c
  Keeps-refl c = record { consistent = λ h. h; untrusted = λ h. h }

  pub record_step-Keeps :
      (step : ℕ) (body : Bytes) (c : PeerCrypto Inner)
      → step ≤ 3
      → Keeps c (record_step step body c).1
  unfolding record_step append_body
  record_step-Keeps step body c h = record {
    consistent = λ i. record {
      paired = λ x. ground arith;
      finished = λ x. ground arith;
      secret = λ x. ground arith;
    };
    untrusted = λ t. ground arith;
  }

  Keeps-trans : {a b c : PeerCrypto Inner} → Keeps a b → Keeps b c → Keeps a c
  Keeps-trans k l = record {
    consistent = λ h. l.consistent (k.consistent h);
    untrusted = λ h. l.untrusted (k.untrusted h);
  }

  pub confirm_trusted-IsConsistent :
      (c : PeerCrypto Inner) → IsConsistent c → IsConsistent (confirm_trusted c).1
  unfolding confirm_trusted
  confirm_trusted-IsConsistent c i = record {
    paired = λ x. ground arith;
    finished = λ x. ground arith;
    secret = λ x. ground arith;
  }

  -- A method of a state that holds the peer keeps it, whatever it returns.
  pub record Safe {S A : Type 0} (view : S → PeerCrypto Inner) (m : Stateful S CryptoError A)
      : Type 0 where
    pub keeps : (s : S) → Keeps (view s) (view (m s).1)

module _ {Inner S A B : Type 0} (view : S → PeerCrypto Inner) where
  -- The rules for a `do` block.
  bind-Safe :
      {m : Stateful S CryptoError A} {next : A → Stateful S CryptoError B}
      → Safe view m
      → ((a : A) → Safe view (next a))
      → Safe view (m >>= next)
  unfolding ◌>>=◌
  bind-Safe {m} {next} h k = record { keeps = λ s. go (m s).0 (m s).1 (h.keeps s) }
    where
      go :
          (r : Result CryptoError A) (s' : S) {c : PeerCrypto Inner}
          → Keeps c (view s')
          → Keeps c (view (continue_with r s' next).1)
      go (err e) s' before = before
      go (ok a) s' before = Keeps-trans before ((k a).keeps s')

  then-Safe :
      {m : Stateful S CryptoError A} {next : Stateful S CryptoError B}
      → Safe view m
      → Safe view next
      → Safe view (m >> next)
  unfolding ◌>>◌
  then-Safe {m} {next} h k = record { keeps = λ s. go (m s).0 (m s).1 (h.keeps s) }
    where
      go :
          (r : Result CryptoError A) (s' : S) {c : PeerCrypto Inner}
          → Keeps c (view s')
          → Keeps c (view (continue_with r s' (λ a. next)).1)
      go (err e) s' before = before
      go (ok a) s' before = Keeps-trans before (k.keeps s')

module _ {Inner S A : Type 0} (view : S → PeerCrypto Inner) where
  lift-Safe : (r : Result CryptoError A) → Safe view (lift r)
  unfolding lift
  lift-Safe r = record { keeps = λ s. Keeps-refl (view s) }

  reads-Safe : (f : S → Result CryptoError A) → Safe view (reads f)
  unfolding reads
  reads-Safe f = record { keeps = λ s. Keeps-refl (view s) }

module _ {Inner : Type 0} where
  updates-Safe :
      (f : PeerCrypto Inner → PeerCrypto Inner)
      → ((c : PeerCrypto Inner) → Keeps c (f c))
      → Safe (λ c. c) (updates f)
  unfolding updates
  updates-Safe f h = record { keeps = h }

  reset-Keeps :
      (identity : Bytes) (c : PeerCrypto Inner)
      → Keeps c (record c { trust = handshaking; remote_identity = identity })
  reset-Keeps identity c = record {
    consistent =
        λ i. record { paired = i.paired; finished = λ x. ground arith; secret = λ x. ground arith };
    untrusted = λ t. refl;
  }

  keyed-Keeps :
      (shared : Bytes) (ratchet : SessionRatchet Inner) (c : PeerCrypto Inner)
      → Keeps c (record c { shared_secret = some shared; ratchet = some ratchet })
  keyed-Keeps shared ratchet c = record {
    consistent = λ i. record { paired = λ x. refl; finished = i.finished; secret = λ x. refl };
    untrusted = λ t. t;
  }

  named-Keeps :
      (identity : Bytes) (c : PeerCrypto Inner) → Keeps c (record c { remote_identity = identity })
  named-Keeps identity c = record {
    consistent = λ i. record { paired = i.paired; finished = i.finished; secret = i.secret };
    untrusted = λ t. t;
  }

  lift_bind-Safe :
      {S A B : Type 0} (view : S → PeerCrypto Inner) (r : Result CryptoError A)
      (next : A → Stateful S CryptoError B)
      → ((a : A) → r ≡ ok a → Safe view (next a))
      → Safe view (lift r >>= next)
  unfolding ◌>>=◌ lift
  lift_bind-Safe view (err e) next h = record { keeps = λ s. Keeps-refl (view s) }
  lift_bind-Safe view (ok a) next h = record { keeps = λ s. (h a refl).keeps s }

module _ {Inner : Type 0} (p : Primitives Inner) where
  record_step-Safe :
      (step : ℕ) (body : Bytes) → step ≤ 3 → Safe (λ c. c) (record_step {Inner = Inner} step body)
  record_step-Safe step body h = record { keeps = λ c. record_step-Keeps step body c h }

  finalize_sas-Safe : (seed : Bytes) → Safe (λ c. c) (finalize_sas p seed)
  unfolding finalize_sas
  finalize_sas-Safe seed = record {
    keeps = λ c. record {
      consistent = λ i. record {
        paired = λ x. ground arith;
        finished = λ x. ground arith;
        secret = λ x. ground arith;
      };
      untrusted = λ t. ground arith;
    };
  }

  pub initiator_finalize_step3-Safe :
      (seed body : Bytes) → Safe (λ c. c) (initiator_finalize_step3 p seed body)
  unfolding initiator_finalize_step3
  initiator_finalize_step3-Safe seed body =
      then-Safe (λ c. c) (record_step-Safe 3 body (omega arith)) (finalize_sas-Safe seed)

  pub responder_process_step3-Safe :
      (seed : Bytes) (frame : SignedHandshake)
      → Safe (λ c. c) (responder_process_step3 p seed frame)
  unfolding responder_process_step3
  responder_process_step3-Safe seed frame =
      then-Safe (λ c. c) (lift-Safe (λ c. c) _)
        (then-Safe (λ c. c) (lift-Safe (λ c. c) _)
          (then-Safe (λ c. c) (reads-Safe (λ c. c) _)
            (then-Safe (λ c. c) (record_step-Safe 3 frame.body (omega arith))
              (then-Safe (λ c. c) (reads-Safe (λ c. c) _) (finalize_sas-Safe seed)))))

  pub begin_initiator-Keeps :
      (secret dk : Bytes) (c : PeerCrypto Inner) → Keeps c (begin_initiator p secret dk c).1
  unfolding begin_initiator
  begin_initiator-Keeps secret dk c = record {
    consistent =
        λ i. record { paired = i.paired; finished = λ x. ground arith; secret = λ x. ground arith };
    untrusted = λ t. refl;
  }

  pub responder_process_step1-Safe :
      (secret random ratchet_random seed : Bytes) (frame : SignedHandshake)
      → Safe (λ c. c) (responder_process_step1 p secret random ratchet_random seed frame)
  unfolding responder_process_step1
  responder_process_step1-Safe secret random ratchet_random seed frame =
      then-Safe (λ c. c) (lift-Safe (λ c. c) _)
        (then-Safe (λ c. c) (lift-Safe (λ c. c) _)
          (then-Safe (λ c. c) (updates-Safe _ (reset-Keeps frame.identity))
            (then-Safe (λ c. c) (record_step-Safe 1 frame.body (omega arith))
              (bind-Safe (λ c. c) (lift-Safe (λ c. c) _)
                (λ resp_body.
                  bind-Safe (λ c. c) (lift-Safe (λ c. c) _)
                    (λ shared.
                      then-Safe (λ c. c) (updates-Safe _ (keyed-Keeps shared _))
                        (then-Safe (λ c. c) (record_step-Safe 2 _ (omega arith))
                          (lift-Safe (λ c. c) _))))))))

  on_peer-Safe :
      {A : Type 0} {m : Stateful (PeerCrypto Inner) CryptoError A}
      → Safe (λ c. c) m
      → Safe {S = PeerCrypto Inner × HybridKeyExchange} (λ s. s.0) (on_peer p m)
  unfolding on_peer
  on_peer-Safe h = record { keeps = λ s. h.keeps (s.0) }

  on_exchange-Safe :
      {A : Type 0} (m : Stateful HybridKeyExchange CryptoError A)
      → Safe {S = PeerCrypto Inner × HybridKeyExchange} (λ s. s.0) (on_exchange p m)
  unfolding on_exchange
  on_exchange-Safe m = record { keeps = λ s. Keeps-refl (s.0) }

  -- A body with room for the exchange has room for the ratchet's key.
  extract-of_strip :
      (body kex_body : Bytes)
      → strip_ratchet_pk_for_kex body ≡ ok kex_body
      → (key : Bytes) × (extract_bob_ratchet_pk body ≡ ok key)
  unfolding strip_ratchet_pk_for_kex extract_bob_ratchet_pk
  extract-of_strip body kex_body h = (drop (length body - 32) body, ground arith)

  -- The secret and the ratchet are set together.
  keying_Safe :
      (body secret : Bytes)
      → (key : Bytes) × (extract_bob_ratchet_pk body ≡ ok key)
      → Safe {S = PeerCrypto Inner × HybridKeyExchange}
          (λ s. s.0)
          (on_peer p (updates (λ (c : PeerCrypto Inner). record c { shared_secret = some secret }))
            >> (lift (extract_bob_ratchet_pk body) >>= λ bob_ratchet_pk.
                on_peer p (
                  updates (λ (c : PeerCrypto Inner). record c {
                    ratchet = some (init_initiator p secret bob_ratchet_pk);
                  }))
                >> lift (ok completion_marker)))
  unfolding ◌>>=◌ ◌>>◌ lift updates on_peer
  keying_Safe body secret (key, e) =
      rw e (record { keeps = λ s. keyed-Keeps secret (init_initiator p secret key) (s.0) })

  pub initiator_process_step2-Safe :
      (frame : SignedHandshake) (expected : Bytes)
      → Safe (λ s. s.0) (initiator_process_step2 p frame expected)
  unfolding initiator_process_step2
  initiator_process_step2-Safe frame expected =
      then-Safe (λ s. s.0) (lift-Safe (λ s. s.0) _)
        (then-Safe (λ s. s.0) (lift-Safe (λ s. s.0) _)
          (then-Safe (λ s. s.0) (lift-Safe (λ s. s.0) _)
            (then-Safe (λ s. s.0) (on_peer-Safe (updates-Safe _ (named-Keeps frame.identity)))
              (then-Safe (λ s. s.0) (on_peer-Safe (record_step-Safe 2 frame.body (omega arith)))
                (lift_bind-Safe (λ s. s.0) (strip_ratchet_pk_for_kex frame.body) _
                  (λ kex_body e.
                    then-Safe (λ s. s.0) (on_exchange-Safe (initiator_finish p kex_body))
                      (bind-Safe (λ s. s.0) (on_exchange-Safe _)
                        (λ secret.
                          keying_Safe frame.body secret
                            (extract-of_strip frame.body kex_body e)))))))))

  pub on_ratchet-Keeps :
      {A : Type 0} (m : SessionRatchet Inner → Result CryptoError A × SessionRatchet Inner)
      (c : PeerCrypto Inner)
      → Keeps c (on_ratchet p m c).1
  on_ratchet-Keeps m c = record {
    consistent = λ i. record {
      paired = λ x. ground (arith, i.paired);
      finished = λ x. ground (arith, i.finished);
      secret = λ x. ground (arith, i.secret);
    };
    untrusted = λ t. ground arith;
  }
