-- ===== src/Engine/Calls.antt =====
-- core/src/p2p/engine.rs: the signalling of calls. A peer id and a call id are numbers that stand
-- for the strings, 0 for the empty one; the contents of a signal are left out.
pub mod Busy
use srltcpv.Base.{
  ℕ, Bool, true, false, not, ◌&&◌, ◌||◌, Option, none, some, List, [], ◌∷◌, ◌++◌, ◌==◌,
  if◌then◌else◌, Result, ok, err,
}
use srltcpv.Base.Assoc.{get, insert, remove}
use srltcpv.Base.NumSet.{insert as add}

pub data Signal : Type 0 where
  offer answer ice end other : Signal

-- `calls` are the ids of the sessions that this side began.
pub record Calls : Type 0 where
  pub active_peer_calls : List (ℕ × ℕ)
  pub calls : List ℕ

pub data CallAction : Type 0 where
  send_signal : (peer call : ℕ) → Signal → CallAction
  call_signaling : (peer call : ℕ) → Signal → CallAction
  call_ended : (peer call : ℕ) → CallAction

pub data CallError : Type 0 where
  peer_not_connected unknown_signal already_in_call send_failed : CallError

abbrev pub is_offer : Signal → Bool
is_offer offer = true
is_offer answer = false
is_offer ice = false
is_offer end = false
is_offer other = false

abbrev pub is_end : Signal → Bool
is_end offer = false
is_end answer = false
is_end ice = false
is_end end = true
is_end other = false

abbrev pub is_known : Signal → Bool
is_known offer = true
is_known answer = true
is_known ice = true
is_known end = true
is_known other = false

unfoldable pub without : ℕ → List ℕ → List ℕ
without x [] = []
without x (y ∷ ys) = let rest = without x ys in if y == x then rest else y ∷ rest

-- Whether the call is the one that is noted.
abbrev pub is_call : ℕ → Option ℕ → Bool
is_call call none = false
is_call call (some existing) = existing == call

-- Whether another one is noted.
abbrev pub is_busy : ℕ → Option ℕ → Bool
is_busy call none = false
is_busy call (some existing) = not (existing == call)

unfoldable pub clear_call_for_peer : ℕ → ℕ → Calls → List CallAction × Calls
clear_call_for_peer peer call t = (
  call_ended peer call ∷ [],
  record t {
    active_peer_calls =
        if is_call call (get peer t.active_peer_calls)
        then remove peer t.active_peer_calls
        else t.active_peer_calls;
    calls = without call t.calls;
  },
)

abbrev pub note_offer : ℕ → ℕ → Option ℕ → Calls → Calls
note_offer peer call none t = record t {
  active_peer_calls = insert peer call t.active_peer_calls;
  calls = add call t.calls;
}
note_offer peer call (some existing) t = t

abbrev pub sent_result : Bool → Result CallError (Unit {0})
sent_result true = ok tt
sent_result false = err send_failed

-- The sending, and the end of the call after it.
unfoldable pub send_noted :
    Bool → ℕ → ℕ → Signal → Calls → Result CallError (Unit {0}) × (List CallAction × Calls)
send_noted sent peer call signal t =
    let message = if sent then send_signal peer call signal ∷ [] else [] in
    if is_end signal || is_offer signal && not sent
    then (let cleared = clear_call_for_peer peer call t in
        (sent_result sent, (message ++ cleared.0, cleared.1)))
    else (sent_result sent, (message, t))

-- `found` is the session of the peer, `sent` whether the message could be sent.
unfoldable pub send_call_signal :
    Bool → Option ℕ → ℕ → Signal → Calls → Result CallError (Unit {0}) × (List CallAction × Calls)
send_call_signal sent none call signal t = (err peer_not_connected, ([], t))
send_call_signal sent (some peer) call signal t =
    if not (is_known signal)
    then (err unknown_signal, ([], t))
    else if is_offer signal && is_busy call (get peer t.active_peer_calls)
    then (err already_in_call, ([], t))
    else send_noted sent peer call signal
        (if is_offer signal then note_offer peer call (get peer t.active_peer_calls) t else t)

unfoldable pub on_offer : ℕ → ℕ → Calls → List CallAction × Calls
on_offer peer call t =
    if is_busy call (get peer t.active_peer_calls) then (send_signal peer call end ∷ [], t) else (
      call_signaling peer call offer ∷ [],
      record t { active_peer_calls = insert peer call t.active_peer_calls },
    )

unfoldable pub on_signal : ℕ → ℕ → Signal → Calls → List CallAction × Calls
on_signal peer call end t = clear_call_for_peer peer call t
on_signal peer call offer t = on_offer peer call t
on_signal peer call answer t = (call_signaling peer call answer ∷ [], t)
on_signal peer call ice t = (call_signaling peer call ice ∷ [], t)
on_signal peer call other t = ([], t)

-- A signal without a call id is dropped. The signal is that of the metadata, or that of the
-- message's type.
unfoldable pub on_call_signal : ℕ → ℕ → Signal → Calls → List CallAction × Calls
on_call_signal peer call signal t = if call == 0 then ([], t) else on_signal peer call signal t
