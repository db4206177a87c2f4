-- ===== src/Engine/Calls/Busy.antt =====
-- core/src/p2p/engine.rs: a call that is active.
use srltcpv.Base.{
  ℕ, ◌+◌, ◌≡◌, ◌≢◌, refl, inl, inr, Bool, true, false, some, List, [], ◌∷◌, ◌==◌, ==_false,
  if◌then◌else◌, Bool-cases,
}
use srltcpv.Base.Assoc.{get}
use srltcpv.Engine.Calls.{
  Signal, offer, answer, ice, end, other, Calls, CallAction, send_signal, call_signaling,
  call_ended, is_busy, is_offer, clear_call_for_peer, send_noted, send_call_signal, on_offer,
  on_signal, on_call_signal,
}

-- How many offers are sent to a peer or shown to the user.
abbrev pub offer_count : CallAction → ℕ
offer_count (send_signal peer call signal) = if is_offer signal then 1 else 0
offer_count (call_signaling peer call signal) = if is_offer signal then 1 else 0
offer_count (call_ended peer call) = 0

abbrev pub offers : List CallAction → ℕ
offers [] = 0
offers (a ∷ acts) = offer_count a + offers acts

-- The call goes on, and no offer is made.
pub record Undisturbed (peer call : ℕ) (r : List CallAction × Calls) : Type 0 where
  pub active : get peer (r.1).active_peer_calls ≡ some call
  pub silent : offers r.0 ≡ 0

module _ (peer call new : ℕ) (t : Calls) (held : get peer t.active_peer_calls ≡ some call)
    (ne : call ≢ new) where
  busy : is_busy new (get peer t.active_peer_calls) ≡ true
  busy = rw (held, ==_false call new ne) refl

  clear-Undisturbed : Undisturbed peer call (clear_call_for_peer peer new t)
  unfolding clear_call_for_peer
  clear-Undisturbed = record { active = rw (held, ==_false call new ne) held; silent = refl }

  on_signal-Undisturbed : (signal : Signal) → Undisturbed peer call (on_signal peer new signal t)
  unfolding on_signal on_offer
  on_signal-Undisturbed offer = rw busy (record { active = held; silent = refl })
  on_signal-Undisturbed answer = record { active = held; silent = refl }
  on_signal-Undisturbed ice = record { active = held; silent = refl }
  on_signal-Undisturbed end = clear-Undisturbed
  on_signal-Undisturbed other = record { active = held; silent = refl }

  on_call_signal-Undisturbed :
      (signal : Signal) → Undisturbed peer call (on_call_signal peer new signal t)
  unfolding on_call_signal
  on_call_signal-Undisturbed signal = elim (Bool-cases (new == 0)) [
    | inl e ↦ rw e (record { active = held; silent = refl })
    | inr e ↦ rw e (on_signal-Undisturbed signal)
  ]

  send_call_signal-Undisturbed :
      (sent : Bool) (signal : Signal)
      → Undisturbed peer call (send_call_signal sent (some peer) new signal t).1
  unfolding send_call_signal send_noted clear_call_for_peer
  send_call_signal-Undisturbed sent offer = rw busy (record { active = held; silent = refl })
  send_call_signal-Undisturbed true answer = record { active = held; silent = refl }
  send_call_signal-Undisturbed false answer = record { active = held; silent = refl }
  send_call_signal-Undisturbed true ice = record { active = held; silent = refl }
  send_call_signal-Undisturbed false ice = record { active = held; silent = refl }
  send_call_signal-Undisturbed true end = record {
    active = rw (held, ==_false call new ne) held;
    silent = refl;
  }
  send_call_signal-Undisturbed false end = record {
    active = rw (held, ==_false call new ne) held;
    silent = refl;
  }
  send_call_signal-Undisturbed sent other = record { active = held; silent = refl }

  -- While a call with a peer is active, every signal that the peer sends about another call, and
  -- every signal about another call that the user sends to the peer, whether or not it could be
  -- sent, leaves the call active, and no offer is shown to the user or sent to the peer.
  pub active_call-Undisturbed :
      (sent : Bool) (signal : Signal)
      → Undisturbed peer call (on_call_signal peer new signal t)
        × Undisturbed peer call (send_call_signal sent (some peer) new signal t).1
  active_call-Undisturbed sent signal =
      (on_call_signal-Undisturbed signal, send_call_signal-Undisturbed sent signal)
