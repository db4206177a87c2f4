-- ===== src/Engine/Outgoing/Runs.antt =====
-- core/src/p2p/engine.rs: all that happens to the transfers of an engine.
use srltcpv.Base.{
  ℕ, ◌≤◌, ◌≡◌, refl, sym, ==_iff, ◌∙◌, inl, inr, Bool, true, false, none, some, List, [], ◌++◌,
  Bytes, ◌==◌, Bool-cases, ok, arith,
}
use mathlib.Core.Option.{none-ne-some}
use srltcpv.Base.Assoc.{get, insert, get-insert, get-remove, remove}
use srltcpv.Base.NumSet.{contains-insert}
use srltcpv.Transfer.{
  TransferManifest, ChunkedReceiver, create, receive_chunk, is_complete, finalize, ChunkedSender,
}
use srltcpv.Engine.Transfers.Absent.{
  IsAbsent, get-remove_absent, accept_offer-IsAbsent, handle_file_message-IsAbsent,
}
use srltcpv.Engine.Transfers.{
  IncomingTransfer, Transfers, TransferFormats, Action, FileMeta, FileAction, offer, Disk,
  parse_name, settle_chunk, finish_incoming, accept_offer, take_complete, handle_file_message,
  sent_by,
}
use srltcpv.Engine.Transfers.Once.{
  IsWaiting, Advances, completions, is_done, remove-IsWaiting, handle_file_message-Advances,
  finish-IsWaiting, is_done-finish, accept_offer-Advances,
}
use srltcpv.Engine.Outgoing.{
  Sent, start_transfer, transfer_step, send_one, cancel_transfer, names_of, cancel_peer_transfers,
}
use srltcpv.Engine.Outgoing.Quiet.{
  completions-append, Quiet, Quiet-Advances, start_transfer-Quiet, transfer_step-Quiet,
  send_one-Quiet, cancel_transfer-Advances, cancel_peer_transfers-Advances, Quiet-IsAbsent,
  remove_all-absent,
}

abbrev pub no_transfers : Transfers
no_transfers = record { outgoing = []; incoming = []; completed = []; cancelled = [] }

-- A run of the engine's transfers, with all actions so far in order. The steps are the stretches
-- between two waits: a message is one step where nothing comes in between, and an offer (`accepts`,
-- its check before it) and a chunk that completes a transfer (`completes`, `finishes`) can also take
-- two, with any steps of other tasks between them.
-- `finishing` are the transfers between the two stages of a chunk. The assumption is that messages
-- about one transfer id do not race: an offer finds the id free when it is accepted, and no offer
-- names an id that is being finished.
pub data Run (sha : Bytes → Bytes) (f : TransferFormats)
    : List Action → Transfers → List (ℕ × ChunkedReceiver) → Type 0 where
  begins : Run sha f [] no_transfers []
  receives :
      {acts : List Action} {t : Transfers} {finishing : List (ℕ × ChunkedReceiver)} (now : ℕ)
      (disk : Disk) (peer : ℕ) (action : FileAction) (content : List ℕ) (meta : FileMeta)
      → (action ≡ offer
          → (tid : ℕ) → parse_name sha f meta.transfer_id ≡ some tid
          → get tid finishing ≡ none)
      → Run sha f acts t finishing
      → Run sha f
          (acts ++ (handle_file_message sha f now disk peer action content meta t).0)
          (handle_file_message sha f now disk peer action content meta t).1
          finishing
  accepts :
      {acts : List Action} {t : Transfers} {finishing : List (ℕ × ChunkedReceiver)} (disk : Disk)
      (peer tid : ℕ) (filename : List ℕ) (m : TransferManifest)
      → IsAbsent tid t
      → get tid finishing ≡ none
      → Run sha f acts t finishing
      → Run sha f
          (acts ++ (accept_offer sha f disk peer tid filename (create disk.opened m) t).0)
          (accept_offer sha f disk peer tid filename (create disk.opened m) t).1
          finishing
  completes :
      {acts : List Action} {t : Transfers} {finishing : List (ℕ × ChunkedReceiver)} (disk : Disk)
      (peer tid chunk_id : ℕ) (bytes : Bytes) (x : IncomingTransfer)
      → get tid t.incoming ≡ some x
      → x.peer_id ≡ peer
      → (receive_chunk disk.fault chunk_id bytes x.receiver).0 ≡ ok true
      → is_complete (receive_chunk disk.fault chunk_id bytes x.receiver).1 ≡ true
      → Run sha f acts t finishing
      → Run sha f
          (acts ++ (take_complete sha f peer tid chunk_id t).0)
          (take_complete sha f peer tid chunk_id t).1
          (insert tid (receive_chunk disk.fault chunk_id bytes x.receiver).1 finishing)
  finishes :
      {acts : List Action} {t : Transfers} {finishing : List (ℕ × ChunkedReceiver)} (disk : Disk)
      (peer tid : ℕ) (r : ChunkedReceiver)
      → get tid finishing ≡ some r
      → Run sha f acts t finishing
      → Run sha f
          (acts ++ (finish_incoming sha disk peer tid r t).0)
          (finish_incoming sha disk peer tid r t).1
          (remove tid finishing)
  starts :
      {acts : List Action} {t : Transfers} {finishing : List (ℕ × ChunkedReceiver)} (sent : Bool)
      (peer tid : ℕ) (filename : List ℕ) (sender : ChunkedSender)
      → Run sha f acts t finishing
      → Run sha f
          (acts ++ (start_transfer sent peer tid filename sender t).0)
          (start_transfer sent peer tid filename sender t).1
          finishing
  works :
      {acts : List Action} {t : Transfers} {finishing : List (ℕ × ChunkedReceiver)} (now : ℕ)
      (serial : Bool) (peer tid : ℕ)
      → Run sha f acts t finishing
      → Run sha f
          (acts ++ (transfer_step now serial peer tid t).0.0)
          (transfer_step now serial peer tid t).1
          finishing
  sends :
      {acts : List Action} {t : Transfers} {finishing : List (ℕ × ChunkedReceiver)} (outcome : Sent)
      (peer tid : ℕ) (chunk : ℕ × Bytes)
      → Run sha f acts t finishing
      → Run sha f
          (acts ++ (send_one outcome peer tid chunk t).0.0)
          (send_one outcome peer tid chunk t).1
          finishing
  user_cancels :
      {acts : List Action} {t : Transfers} {finishing : List (ℕ × ChunkedReceiver)} (tid : ℕ)
      → Run sha f acts t finishing
      → Run sha f (acts ++ (cancel_transfer tid t).0) (cancel_transfer tid t).1 finishing
  disconnects :
      {acts : List Action} {t : Transfers} {finishing : List (ℕ × ChunkedReceiver)} (peer : ℕ)
      → Run sha f acts t finishing
      → Run sha f
          (acts ++ (cancel_peer_transfers peer t).0)
          (cancel_peer_transfers peer t).1
          finishing

-- A chunk that completes its transfer and is handled without a wait is the two stages in a row.
settle_chunk-stages :
    (sha : Bytes → Bytes) (f : TransferFormats) (disk : Disk) (peer tid chunk_id : ℕ)
    (x : IncomingTransfer) (r : ChunkedReceiver) (t : Transfers)
    → is_complete r ≡ true
    → let first = take_complete sha f peer tid chunk_id t in
      let second = finish_incoming sha disk peer tid r first.1 in
      settle_chunk sha f disk peer tid chunk_id x (ok true, r) t ≡ (first.0 ++ second.0, second.1)
unfolding settle_chunk
settle_chunk-stages sha f disk peer tid chunk_id x r t full = rw full refl

-- What a run keeps.
record Sound (acts : List Action) (t : Transfers) (finishing : List (ℕ × ChunkedReceiver))
    : Type 0 where
  waiting : IsWaiting t
  counted : (k : ℕ) → completions k acts ≤ is_done k t
  apart : (k : ℕ) (r : ChunkedReceiver) → get k finishing ≡ some r → IsAbsent k t

Sound-Advances :
    (acts : List Action) (t : Transfers) (r : List Action × Transfers)
    (finishing later : List (ℕ × ChunkedReceiver))
    → Sound acts t finishing
    → Advances t r
    → ((k : ℕ) (x : ChunkedReceiver) → get k later ≡ some x → IsAbsent k r.1)
    → Sound (acts ++ r.0) (r.1) later
Sound-Advances acts t r finishing later s a apart = record {
  waiting = a.waiting;
  counted = λ k. omega (arith, s.counted k, a.once k, completions-append k acts (r.0));
  apart = apart;
}

Sound-Quiet :
    (acts : List Action) (t : Transfers) (new : List Action) (t' : Transfers)
    (finishing : List (ℕ × ChunkedReceiver))
    → Sound acts t finishing
    → Quiet t new t'
    → Sound (acts ++ new) t' finishing
Sound-Quiet acts t new t' finishing s q =
    Sound-Advances acts t (new, t') finishing finishing s (Quiet-Advances t new t' s.waiting q)
      (λ k x h. Quiet-IsAbsent k t new t' (s.apart k x h) q)

-- Two ids of which one is free in a map and the other is not.
ne_of_get :
    {V : Type 0} (j k : ℕ) (x : V) (m : List (ℕ × V))
    → get j m ≡ none
    → get k m ≡ some x
    → (j == k) ≡ false
ne_of_get j k x m h g = elim (Bool-cases (j == k)) [
  | inr q ↦ q
  | inl q ↦ (let key : j ≡ k = (==_iff j k).0 q in absurd (none-ne-some x (sym h ∙ rw key g)))
]

-- The two stages of a chunk that completes its transfer.
completes-Sound :
    (sha : Bytes → Bytes) (f : TransferFormats) (acts : List Action) (t : Transfers)
    (finishing : List (ℕ × ChunkedReceiver)) (peer tid chunk_id : ℕ) (x : IncomingTransfer)
    (r : ChunkedReceiver)
    → get tid t.incoming ≡ some x
    → Sound acts t finishing
    → Sound
        (acts ++ (take_complete sha f peer tid chunk_id t).0)
        (take_complete sha f peer tid chunk_id t).1
        (insert tid r finishing)
completes-Sound sha f acts t finishing peer tid chunk_id x r held s =
    Sound-Advances acts t (take_complete sha f peer tid chunk_id t) finishing
      (insert tid r finishing) s
      (record { waiting = remove-IsWaiting t s.waiting tid; once = λ k. omega arith })
      (λ k y h. elim (Bool-cases (tid == k)) [
        | inl q ↦
            (let key : tid ≡ k = (==_iff tid k).0 q in
              (rw (get-remove tid k t.incoming, q) refl, rw (← key) (s.waiting.waits tid x held).0))
        | inr q ↦
            (let old = s.apart k y (sym (rw (get-insert tid k r finishing, q) refl) ∙ h) in
              (get-remove_absent k t old tid, old.1))
      ])

finishes-Sound :
    (sha : Bytes → Bytes) (acts : List Action) (t : Transfers)
    (finishing : List (ℕ × ChunkedReceiver)) (disk : Disk) (peer tid : ℕ) (r : ChunkedReceiver)
    → get tid finishing ≡ some r
    → Sound acts t finishing
    → Sound
        (acts ++ (finish_incoming sha disk peer tid r t).0)
        (finish_incoming sha disk peer tid r t).1
        (remove tid finishing)
unfolding finish_incoming
finishes-Sound sha acts t finishing disk peer tid r h s =
    let free = s.apart tid r h in
    Sound-Advances acts t (finish_incoming sha disk peer tid r t) finishing (remove tid finishing) s
      (record {
        waiting = finish-IsWaiting t s.waiting tid free.0;
        once = λ k.
            (let one =
                is_done-finish t s.waiting peer tid (finalize sha disk.synced disk.renamed r)
                  t.incoming k free.1 in
              omega arith);
      })
      (λ k y g. elim (Bool-cases (tid == k)) [
        | inl q ↦ absurd (none-ne-some y (sym (rw (get-remove tid k finishing, q) refl) ∙ g))
        | inr q ↦
            (let old = s.apart k y (sym (rw (get-remove tid k finishing, q) refl) ∙ g) in
              (old.0, rw (contains-insert tid k t.completed, q) old.1))
      ])

Run-Sound :
    (sha : Bytes → Bytes) (f : TransferFormats) (acts : List Action) (t : Transfers)
    (finishing : List (ℕ × ChunkedReceiver))
    → Run sha f acts t finishing
    → Sound acts t finishing
unfolding get cancel_transfer cancel_peer_transfers
Run-Sound sha f acts' t' e' begins = record {
  waiting = record { waits = λ tid x e. absurd (none-ne-some x e) };
  counted = λ k. omega arith;
  apart = λ k x e. absurd (none-ne-some x e);
}
Run-Sound sha f acts' t' e'
      (receives {acts = acts} {t = t} {finishing = e} now disk peer action content meta clear r) =
    let s = Run-Sound sha f acts t e r in
    Sound-Advances acts t _ e e s
      (handle_file_message-Advances t s.waiting sha f now disk peer action content meta)
      (λ k x h.
        handle_file_message-IsAbsent k t (s.apart k x h) sha f now disk peer action content meta
          (λ is_offer tid named. ne_of_get tid k x e (clear is_offer tid named) h))
Run-Sound sha f acts' t' e'
      (accepts {acts = acts} {t = t} {finishing = e} disk peer tid filename m free clear r) =
    let s = Run-Sound sha f acts t e r in
    Sound-Advances acts t _ e e s
      (accept_offer-Advances t s.waiting sha f disk peer tid filename (create disk.opened m) free.0
        free.1)
      (λ k x h.
        accept_offer-IsAbsent k t (s.apart k x h) sha f disk peer tid filename
          (create disk.opened m) (ne_of_get tid k x e clear h))
Run-Sound sha f acts' t' e'
      (completes {acts = acts} {t = t} {finishing = e} disk peer tid chunk_id bytes x held own taken
        full r) =
    completes-Sound sha f acts t e peer tid chunk_id x _ held (Run-Sound sha f acts t e r)
Run-Sound sha f acts' t' e'
      (finishes {acts = acts} {t = t} {finishing = e} disk peer tid x held r) =
    finishes-Sound sha acts t e disk peer tid x held (Run-Sound sha f acts t e r)
Run-Sound sha f acts' t' e'
      (starts {acts = acts} {t = t} {finishing = e} sent peer tid filename sender r) =
    Sound-Quiet acts t _ _ e (Run-Sound sha f acts t e r)
      (start_transfer-Quiet sent peer tid filename sender t)
Run-Sound sha f acts' t' e' (works {acts = acts} {t = t} {finishing = e} now serial peer tid r) =
    Sound-Quiet acts t _ _ e (Run-Sound sha f acts t e r)
      (transfer_step-Quiet now serial peer tid t)
Run-Sound sha f acts' t' e' (sends {acts = acts} {t = t} {finishing = e} outcome peer tid chunk r) =
    Sound-Quiet acts t _ _ e (Run-Sound sha f acts t e r) (send_one-Quiet outcome peer tid chunk t)
Run-Sound sha f acts' t' e' (user_cancels {acts = acts} {t = t} {finishing = e} tid r) =
    let s = Run-Sound sha f acts t e r in
    Sound-Advances acts t _ e e s (cancel_transfer-Advances tid t s.waiting)
      (λ k x h. (get-remove_absent k t (s.apart k x h) tid, (s.apart k x h).1))
Run-Sound sha f acts' t' e' (disconnects {acts = acts} {t = t} {finishing = e} peer r) =
    let s = Run-Sound sha f acts t e r in
    Sound-Advances acts t _ e e s (cancel_peer_transfers-Advances peer t s.waiting) (λ k x h. (
      remove_all-absent (names_of sent_by peer t.incoming) k t.incoming (s.apart k x h).0,
      (s.apart k x h).1,
    ))

-- However messages, the two stages of accepting an offer and of a chunk that completes its transfer,
-- steps of the sending tasks, cancellations and lost connections interleave, and whatever is offered
-- and resent, as long as the messages about one transfer id do not race (that is, an offer that is
-- accepted in a stage of its own finds the id neither awaited, completed nor being finished, and an
-- offer that is handled without a wait does not name an id that is being finished), the file of a
-- transfer id is announced as received at most once, and once it is, the engine remembers the transfer
-- as completed; a transfer that is still awaited is not completed and lacks a chunk.
pub Run-once :
    (sha : Bytes → Bytes) (f : TransferFormats) (k : ℕ) (acts : List Action) (t : Transfers)
    (finishing : List (ℕ × ChunkedReceiver))
    → Run sha f acts t finishing
    → (completions k acts ≤ is_done k t) × (completions k acts ≤ 1) × IsWaiting t
Run-once sha f k acts t finishing r =
    let s = Run-Sound sha f acts t finishing r in
    (s.counted k, ground (arith, s.counted k), s.waiting)
