-- ===== src/Engine/Outgoing/Quiet.antt =====
-- core/src/p2p/engine.rs: the steps of the sending tasks, the cancellations and the lost connections
-- finish no incoming transfer.
use srltcpv.Base.{
  ℕ, ◌+◌, ◌≡◌, refl, sym, ap, Option-cases, ◌∙◌, inl, inr, Bool, true, false, Option, none, some,
  List, [], ◌∷◌, ◌++◌, Bytes, ◌==◌, if◌then◌else◌, Bool-cases, Result, ok, err, ltb, arith,
}
use mathlib.Core.Option.{none-ne-some}
use srltcpv.Base.Assoc.{get, get-remove, remove, contains_key}
use srltcpv.Base.NumSet.{contains}
use srltcpv.Transfer.{TransferError, ChunkedSender, is_sent, idle_for}
use srltcpv.Engine.Transfers.Absent.{IsAbsent}
use srltcpv.Engine.Transfers.{
  ActiveTransfer, IncomingTransfer, Transfers, Action, transfer_failed, sent_to, sent_by,
}
use srltcpv.Engine.Transfers.Once.{IsWaiting, Advances, completions, with_waits, remove-IsWaiting}
use srltcpv.Engine.Outgoing.{
  TaskStep, stop, Sent, delivered, link_up, link_down, transfer_stall, start_transfer,
  settle_chunks, sender_step, transfer_step, send_one, cancel_ends, cancel_transfer, names_of,
  remove_all, all_cancelled, cancel_peer_transfers,
}

pub completions-append :
    (k : ℕ) (a b : List Action) → completions k (a ++ b) ≡ completions k a + completions k b
completions-append k [] b = omega arith
completions-append k (x ∷ a) b = omega (arith, completions-append k a b)

-- A step that finishes nothing and changes only what is outgoing.
abbrev pub Quiet : Transfers → List Action → Transfers → Type 0
Quiet t acts t' =
    ((k : ℕ) → completions k acts ≡ 0) × (t'.incoming ≡ t.incoming) × (t'.completed ≡ t.completed)

abbrev pub QuietTask : {A : Type 0} → Transfers → (List Action × A) × Transfers → Type 0
QuietTask t r = Quiet t (r.0).0 (r.1)

pub Quiet-Advances :
    (t : Transfers) (acts : List Action) (t' : Transfers)
    → IsWaiting t
    → Quiet t acts t'
    → Advances t (acts, t')
Quiet-Advances t acts t' w (silent, i, c) = record {
  waiting = with_waits t w t' i c;
  once = λ k. rw (silent k, c) (omega arith);
}

pub start_transfer-Quiet :
    (sent : Bool) (peer tid : ℕ) (filename : List ℕ) (sender : ChunkedSender) (t : Transfers)
    → Quiet t
        (start_transfer sent peer tid filename sender t).0
        (start_transfer sent peer tid filename sender t).1
unfolding start_transfer
start_transfer-Quiet true peer tid filename sender t = (λ k. refl, refl, refl)
start_transfer-Quiet false peer tid filename sender t = (λ k. refl, refl, refl)

settle_chunks-Quiet :
    (peer tid : ℕ) (x : ActiveTransfer)
    (r : Result TransferError (List (ℕ × Bytes)) × ChunkedSender) (t : Transfers)
    → Quiet t (settle_chunks peer tid x r t).0.0 (settle_chunks peer tid x r t).1
unfolding settle_chunks
settle_chunks-Quiet peer tid x (err e, s) t = (λ k. refl, refl, refl)
settle_chunks-Quiet peer tid x (ok chunks, s) t = (λ k. refl, refl, refl)

if-Quiet :
    (t : Transfers) {A : Type 0} (b : Bool) (x y : (List Action × A) × Transfers)
    → Quiet t x.0.0 x.1
    → Quiet t y.0.0 y.1
    → Quiet t (if b then x else y).0.0 (if b then x else y).1
if-Quiet t true x y h k = h
if-Quiet t false x y h k = k

pub transfer_step-Quiet :
    (now : ℕ) (serial : Bool) (peer tid : ℕ) (t : Transfers)
    → Quiet t (transfer_step now serial peer tid t).0.0 (transfer_step now serial peer tid t).1
unfolding transfer_step sender_step
transfer_step-Quiet now serial peer tid t =
    if-Quiet t (contains tid t.cancelled) _ _ (λ k. refl, refl, refl) (listed (get tid t.outgoing))
  where
    listed :
        (o : Option ActiveTransfer)
        → QuietTask {A = TaskStep} t
            (elim o [ none ↦ (([], stop), t) | some x ↦ sender_step now serial peer tid x t ])
    listed none = (λ k. refl, refl, refl)
    listed (some x) =
        if-Quiet t (is_sent x.sender) _ _ (λ k. refl, refl, refl)
          (if-Quiet t (ltb transfer_stall (idle_for now x.sender)) _ _ (λ k. refl, refl, refl)
            (settle_chunks-Quiet peer tid x _ t))

pub send_one-Quiet :
    (outcome : Sent) (peer tid : ℕ) (chunk : ℕ × Bytes) (t : Transfers)
    → Quiet t (send_one outcome peer tid chunk t).0.0 (send_one outcome peer tid chunk t).1
unfolding send_one
send_one-Quiet delivered peer tid chunk t =
    if-Quiet t (contains tid t.cancelled) _ _ (λ k. refl, refl, refl) (λ k. refl, refl, refl)
send_one-Quiet link_up peer tid chunk t =
    if-Quiet t (contains tid t.cancelled) _ _ (λ k. refl, refl, refl) (λ k. refl, refl, refl)
send_one-Quiet link_down peer tid chunk t =
    if-Quiet t (contains tid t.cancelled) _ _ (λ k. refl, refl, refl)
      (λ k. lost k (contains_key tid t.outgoing), refl, refl)
  where
    lost : (k : ℕ) (b : Bool) → completions k (if b then transfer_failed peer tid ∷ [] else []) ≡ 0
    lost k true = refl
    lost k false = refl

-- What ends a transfer from this side: the awaited ones that are left were awaited before.
remove_all-get :
    {V : Type 0} (tids : List ℕ) (k : ℕ) (x : V) (m : List (ℕ × V))
    → get k (remove_all tids m) ≡ some x
    → get k m ≡ some x
unfolding remove_all
remove_all-get [] k x m h = h
remove_all-get (tid ∷ tids) k x m h =
    let one : get k (remove tid m) ≡ some x = remove_all-get tids k x (remove tid m) h in
    elim (Bool-cases (tid == k)) [
      | inl q ↦ absurd (none-ne-some x (sym (rw (get-remove tid k m, q) refl) ∙ one))
      | inr q ↦ sym (rw (get-remove tid k m, q) refl) ∙ one
    ]

completions-all_cancelled :
    (k peer : ℕ) (tids : List ℕ) → completions k (all_cancelled peer tids) ≡ 0
unfolding all_cancelled
completions-all_cancelled k peer [] = refl
completions-all_cancelled k peer (tid ∷ tids) = omega (arith, completions-all_cancelled k peer tids)

completions-cancel_ends :
    (k tid : ℕ) (x : Option ActiveTransfer) (y : Option IncomingTransfer)
    → completions k (cancel_ends tid x y) ≡ 0
completions-cancel_ends k tid none none = refl
completions-cancel_ends k tid none (some y) = omega arith
completions-cancel_ends k tid (some x) y = omega arith

pub cancel_transfer-Advances :
    (tid : ℕ) (t : Transfers) → IsWaiting t → Advances t (cancel_transfer tid t)
unfolding cancel_transfer
cancel_transfer-Advances tid t w = record {
  waiting = record { waits = λ k y e. (remove-IsWaiting t w tid).waits k y e };
  once = λ k.
      rw (completions-cancel_ends k tid (get tid t.outgoing) (get tid t.incoming)) (omega arith);
}

pub cancel_peer_transfers-Advances :
    (peer : ℕ) (t : Transfers) → IsWaiting t → Advances t (cancel_peer_transfers peer t)
unfolding cancel_peer_transfers
cancel_peer_transfers-Advances peer t w = record {
  waiting = record {
    waits =
        λ k y e. w.waits k y (remove_all-get (names_of sent_by peer t.incoming) k y t.incoming e);
  };
  once = λ k.
      (let outgoing = names_of sent_to peer t.outgoing in
        let incoming = names_of sent_by peer t.incoming in
        let silent : completions k (all_cancelled peer outgoing ++ all_cancelled peer incoming)
            ≡ 0 =
          completions-append k (all_cancelled peer outgoing) (all_cancelled peer incoming)
          ∙ omega (
            arith,
            completions-all_cancelled k peer outgoing,
            completions-all_cancelled k peer incoming,
          ) in
        rw silent (omega arith));
}

-- A transfer id that is free stays free.
pub Quiet-IsAbsent :
    (k : ℕ) (t : Transfers) (acts : List Action) (t' : Transfers)
    → IsAbsent k t
    → Quiet t acts t'
    → IsAbsent k t'
Quiet-IsAbsent k t acts t' (absent, fresh) (silent, i, c) =
    (ap (get k) i ∙ absent, ap (contains k) c ∙ fresh)

pub remove_all-absent :
    {V : Type 0} (tids : List ℕ) (k : ℕ) (m : List (ℕ × V))
    → get k m ≡ none
    → get k (remove_all tids m) ≡ none
remove_all-absent tids k m h = elim (Option-cases (get k (remove_all tids m))) [
  | inl e ↦ e
  | inr (x, e) ↦ absurd (none-ne-some x (sym h ∙ remove_all-get tids k x m e))
]
