-- ===== src/Engine/Outgoing/Ends.antt =====
-- core/src/p2p/engine.rs: how the sending of a file ends.
use srltcpv.Base.{
  ℕ, ◌+◌, ◌≡◌, refl, sym, ◌∙◌, inl, inr, Bool, true, false, Option, none, some, List, [], ◌∷◌,
  Bytes, ltb, ◌==◌, ==_refl, if◌then◌else◌, Result, ok, err, arith,
}
use mathlib.Core.Option.{none-ne-some}
use srltcpv.Base.Assoc.{get, contains_key-get, get-insert, get-remove}
use srltcpv.Base.NumSet.{contains}
use srltcpv.Transfer.{TransferError, ChunkedSender, is_sent, idle_for, next_chunks}
use srltcpv.Engine.Transfers.{
  ActiveTransfer, Transfers, Action, send_cancel, send_ack, send_chunk, send_offer,
  transfer_complete, transfer_sent, transfer_failed, transfer_cancelled,
}
use srltcpv.Engine.Outgoing.{
  TaskStep, stop, send_all, link_down, transfer_stall, window_of, resend_after_of, drop_outgoing,
  settle_chunks, sender_step, transfer_step, send_one,
}

-- How often the user is told that the sending of a transfer has ended.
abbrev pub report : ℕ → Action → ℕ
report k (transfer_sent peer tid) = if tid == k then 1 else 0
report k (transfer_failed peer tid) = if tid == k then 1 else 0
report k (transfer_complete peer tid) = 0
report k (transfer_cancelled peer tid) = 0
report k (send_offer peer tid m) = 0
report k (send_cancel peer tid) = 0
report k (send_ack peer tid ids) = 0
report k (send_chunk peer tid id bytes) = 0

abbrev pub reports : ℕ → List Action → ℕ
reports k [] = 0
reports k (a ∷ acts) = report k a + reports k acts

-- The end of a task: the transfer is gone, and was reported once if it was there.
pub record Ended (tid : ℕ) (t : Transfers) (acts : List Action) (t' : Transfers) : Type 0 where
  pub gone : get tid t'.outgoing ≡ none
  pub told : (x : ActiveTransfer) → get tid t.outgoing ≡ some x → reports tid acts ≡ 1

-- The task goes on: the transfer is still there, and nothing was reported.
pub record GoesOn (tid : ℕ) (acts : List Action) (t' : Transfers) : Type 0 where
  pub entry : ActiveTransfer
  pub listed : get tid t'.outgoing ≡ some entry
  pub silent : reports tid acts ≡ 0

abbrev pub Outcome : ℕ → Transfers → (List Action × TaskStep) × Transfers → Type 0
Outcome tid t ((acts, stop), t') = Ended tid t acts t'
Outcome tid t ((acts, send_all chunks), t') = GoesOn tid acts t'

get-dropped : (tid : ℕ) (t : Transfers) → get tid (drop_outgoing tid t).outgoing ≡ none
get-dropped tid t = rw (get-remove tid tid t.outgoing, ==_refl tid) refl

module _ (tid : ℕ) (t : Transfers) where
  if-Outcome :
      (b : Bool) (x y : (List Action × TaskStep) × Transfers)
      → Outcome tid t x
      → Outcome tid t y
      → Outcome tid t (if b then x else y)
  if-Outcome true x y h k = h
  if-Outcome false x y h k = k

  settle_chunks-Outcome :
      (peer : ℕ) (x : ActiveTransfer) (r : Result TransferError (List (ℕ × Bytes)) × ChunkedSender)
      → Outcome tid t (settle_chunks peer tid x r t)
  unfolding settle_chunks
  settle_chunks-Outcome peer x (err e, s) = record {
    gone = get-dropped tid t;
    told = λ y h. rw (==_refl tid) (omega arith);
  }
  settle_chunks-Outcome peer x (ok chunks, s) = record {
    entry = record x { sender = s };
    listed = rw (get-insert tid tid (record x { sender = s }) t.outgoing, ==_refl tid) refl;
    silent = refl;
  }

  sender_step-Outcome :
      (now : ℕ) (serial : Bool) (peer : ℕ) (x : ActiveTransfer)
      → Outcome tid t (sender_step now serial peer tid x t)
  unfolding sender_step
  sender_step-Outcome now serial peer x =
      if-Outcome (is_sent x.sender) _ _
        (record { gone = get-dropped tid t; told = λ y h. rw (==_refl tid) (omega arith) })
        (if-Outcome (ltb transfer_stall (idle_for now x.sender)) _ _
          (record { gone = get-dropped tid t; told = λ y h. rw (==_refl tid) (omega arith) })
          (settle_chunks-Outcome peer x
            (next_chunks now (window_of serial) (resend_after_of serial) x.sender)))

  listed_step :
      (now : ℕ) (serial : Bool) (peer : ℕ) (o : Option ActiveTransfer)
      → get tid t.outgoing ≡ o
      → Outcome tid t
          (elim o [ none ↦ (([], stop), t) | some x ↦ sender_step now serial peer tid x t ])
  listed_step now serial peer none e = record {
    gone = e;
    told = λ x h. absurd (none-ne-some x (sym e ∙ h));
  }
  listed_step now serial peer (some x) e = sender_step-Outcome now serial peer x

  send_one-Ended :
      (peer : ℕ) (chunk : ℕ × Bytes)
      → contains tid t.cancelled ≡ false
      → Ended tid t
          (send_one link_down peer tid chunk t).0.0
          (send_one link_down peer tid chunk t).1
  unfolding send_one
  send_one-Ended peer chunk h = elim (contains_key-get tid t.outgoing) [
    | inl (k, e) ↦
        rw (h, k)
          (record {
            gone = get-dropped tid t;
            told = λ x held. absurd (none-ne-some x (sym e ∙ held));
          })
    | inr (k, v) ↦
        rw (h, k)
          (record { gone = get-dropped tid t; told = λ x held. rw (==_refl tid) (omega arith) })
  ]

  -- A round of the sending task of a transfer that is not cancelled either goes on, with the
  -- transfer still listed and nothing reported, or ends with the transfer gone, and reports a
  -- transfer that was listed as sent or as failed exactly once; a chunk whose message finds the
  -- link lost ends it in the same way.
  pub transfer_step-Outcome :
      (now : ℕ) (serial : Bool) (peer : ℕ) (chunk : ℕ × Bytes)
      → contains tid t.cancelled ≡ false
      → Outcome tid t (transfer_step now serial peer tid t)
        × Ended tid t
            (send_one link_down peer tid chunk t).0.0
            (send_one link_down peer tid chunk t).1
  unfolding transfer_step
  transfer_step-Outcome now serial peer chunk h =
      (rw h (listed_step now serial peer (get tid t.outgoing) refl), send_one-Ended peer chunk h)
