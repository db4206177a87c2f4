-- ===== src/Engine/Examples.antt =====
-- core/src/p2p/engine.rs: the theorems on transfers, messages and calls at concrete inputs.
use srltcpv.Base.{
  ℕ, zero, suc, ◌+◌, ◌≤◌, ◌≢◌, ◌≡◌, ◌%◌, ◌==◌, if◌then◌else◌, refl, true, false, none, some, List,
  [], ◌∷◌, ◌++◌, Bytes, length, arith,
}
use srltcpv.Transfer.{TransferManifest, ChunkedSender, ChunkedReceiver, from_bytes, receive_chunk}
use srltcpv.Engine.Transfers
use srltcpv.Engine.Transfers.{
  TransferFormats, Transfers, Action, FileMeta, Disk, offer, chunk, handle_file_message,
  on_file_chunk, chunk_of, take_complete, finish_incoming,
}
use srltcpv.Engine.Transfers.Isolation.{Isolated, handle_file_message-Isolated}
use srltcpv.Engine.Transfers.Once.{IsWaiting, completions, is_done}
use srltcpv.Engine.Outgoing.{link_down, cancel_transfer, transfer_step, send_one}
use srltcpv.Engine.Outgoing.Ends.{Outcome, Ended, transfer_step-Outcome}
use srltcpv.Engine.Outgoing.Runs.{
  Run, begins, receives, completes, finishes, user_cancels, no_transfers, Run-once,
}
use srltcpv.Base.Assoc.{get, insert, remove, contains_key}
use srltcpv.Base.NumSet.{contains}
use srltcpv.Base.NumSet
use srltcpv.Transfer
use srltcpv.Transfer.Filename.{sanitize_filename}
use srltcpv.Crypto.Wire.{empty_transcript}
use srltcpv.Crypto.Peer.{PeerCrypto, sas_pending, confirm_trusted, decrypt}
use srltcpv.Crypto.Ratchet
use srltcpv.Crypto.Toy
use srltcpv.Crypto.Toy.{toy}
use srltcpv.Engine.Inbox.{
  MessageFormats, Inbox, handle_encrypted_frame, auto_trust, handle_decoded, handle_message, hold,
  decode_message,
}
use srltcpv.Engine.Calls.{Calls}
use srltcpv.Engine.Calls as Signals
use srltcpv.Engine.Calls.Busy.{Undisturbed, active_call-Undisturbed}

abbrev repeat : ℕ → ℕ → Bytes
repeat zero b = []
repeat (suc n) b = b ∷ repeat n b

-- A digest for the tests: 64 times one digit.
abbrev toy_hex : Bytes → Bytes
toy_hex bs = repeat 64 (b'0' + length bs % 10)

abbrev formats : TransferFormats
formats = record {
  parse_str = λ n. if n == 0 then none else some n;
  decode_standard = λ bs. some bs;
}

abbrev disk : Disk
disk = record { opened = true; fault = none; synced = true; renamed = true }

abbrev manifest : TransferManifest
manifest = record { total_size = 5; chunk_size = 2; total_chunks = 3; sha256 = toy_hex (1 ∷ []) }

abbrev receiver : ChunkedReceiver
receiver = record { manifest = manifest; file = 0 ∷ 0 ∷ 0 ∷ 0 ∷ 0 ∷ []; received = [] }

-- Peer 1 is sent transfer 4 and sends transfer 5.
abbrev two_transfers : Transfers
two_transfers = record {
  outgoing =
      (
        4,
        record {
          sender = from_bytes 0 (1 ∷ 2 ∷ 3 ∷ []) (toy_hex []) 2;
          peer_id = 1;
          filename = [];
        },
      )
      ∷ [];
  incoming = (5, record { receiver = receiver; peer_id = 1; filename = [] }) ∷ [];
  completed = [];
  cancelled = [];
}

abbrev first_chunk : FileMeta
first_chunk = record {
  transfer_id = some 5;
  filename = none;
  total_size = none;
  chunk_size = none;
  total_chunks = none;
  sha256 = none;
  chunk_id = some 0;
  chunk_b64 = some (7 ∷ 8 ∷ []);
  received_chunks = none;
}

-- Peer 2 sends a chunk of the file of peer 1.
handle_file_message-Isolated_example :
    Isolated 2 two_transfers
      (handle_file_message toy_hex formats 0 disk 2 chunk [] first_chunk two_transfers)
handle_file_message-Isolated_example =
    handle_file_message-Isolated toy_hex formats 0 disk 2 chunk [] first_chunk two_transfers

foreign_chunk :
    handle_file_message toy_hex formats 0 disk 2 chunk [] first_chunk two_transfers
    ≡ ([], two_transfers)
unfolding handle_file_message on_file_chunk chunk_of get
foreign_chunk = refl

transfer_step-Outcome_example :
    Outcome 4 two_transfers (transfer_step 0 false 1 4 two_transfers)
    × Ended 4 two_transfers
        (send_one link_down 1 4 (0, 1 ∷ 2 ∷ []) two_transfers).0.0
        (send_one link_down 1 4 (0, 1 ∷ 2 ∷ []) two_transfers).1
unfolding contains
transfer_step-Outcome_example = transfer_step-Outcome 4 two_transfers 0 false 1 (0, 1 ∷ 2 ∷ []) refl

abbrev empty_offer : FileMeta
empty_offer = record first_chunk {
  total_size = some 0;
  total_chunks = some 0;
  sha256 = some (toy_hex []);
}

-- An empty file is offered twice.
abbrev offered : List Action × Transfers
offered = handle_file_message toy_hex formats 0 disk 1 offer [] empty_offer no_transfers

abbrev offered_again : List Action × Transfers
offered_again = handle_file_message toy_hex formats 1 disk 1 offer [] empty_offer offered.1

-- A file of one chunk is offered; the user cancels it while it is being finished, and it is announced.
abbrev small_offer : FileMeta
small_offer = record empty_offer {
  total_size = some 2;
  chunk_size = some 2;
  total_chunks = some 1;
  sha256 = some (toy_hex (7 ∷ 8 ∷ []));
}

abbrev small_manifest : TransferManifest
small_manifest = record {
  total_size = 2;
  chunk_size = 2;
  total_chunks = 1;
  sha256 = toy_hex (7 ∷ 8 ∷ []);
}

abbrev awaited : List Action × Transfers
awaited = handle_file_message toy_hex formats 0 disk 1 offer [] small_offer no_transfers

abbrev awaiting : ChunkedReceiver
awaiting = record { manifest = small_manifest; file = 0 ∷ 0 ∷ []; received = [] }

abbrev taken : List Action × Transfers
taken = take_complete toy_hex formats 1 5 0 awaited.1

abbrev full : ChunkedReceiver
full = (receive_chunk none 0 (7 ∷ 8 ∷ []) awaiting).1

abbrev called_off : List Action × Transfers
called_off = cancel_transfer 5 taken.1

abbrev ended : List Action × Transfers
ended = finish_incoming toy_hex disk 1 5 full called_off.1

abbrev all_actions : List Action
all_actions = ((awaited.0 ++ taken.0) ++ called_off.0) ++ ended.0

abbrev interleaved : Run toy_hex formats all_actions ended.1 []
unfolding get insert remove handle_file_message Transfers.on_file_offer Transfers.accept_offer
    Transfers.finish_incoming Transfer.create Transfer.validate contains_key contains
    Transfer.div_ceil Transfer.all_hexdigits Transfer.receive_chunk Transfer.chunk_len NumSet.insert
    Transfer.write_at
interleaved = finishes {finishing = (5, full) ∷ []} disk 1 5 full refl (
    user_cancels {finishing = (5, full) ∷ []} 5 (
      completes disk 1 5 0 (7 ∷ 8 ∷ [])
        (record { receiver = awaiting; peer_id = 1; filename = sanitize_filename [] }) refl refl
        refl refl (receives 0 disk 1 offer [] small_offer (λ is_offer tid named. refl) begins)))

Run-once_example :
    (completions 5 all_actions ≤ is_done 5 ended.1)
    × (completions 5 all_actions ≤ 1)
    × IsWaiting ended.1
Run-once_example = Run-once toy_hex formats 5 all_actions ended.1 [] interleaved

announced_at_the_end : completions 5 all_actions ≡ 1
unfolding handle_file_message Transfers.on_file_offer Transfers.accept_offer finish_incoming
    cancel_transfer get insert remove Transfer.create Transfer.validate Transfer.finalize
    contains_key contains NumSet.insert Transfer.div_ceil Transfer.all_hexdigits Transfer.same_bytes
    receive_chunk Transfer.chunk_len Transfer.write_at
announced_at_the_end = refl

announced_once : completions 5 (offered.0 ++ offered_again.0) ≡ 1
unfolding handle_file_message Transfers.on_file_offer Transfers.accept_offer
    Transfers.finish_incoming Transfer.create Transfer.validate Transfer.finalize contains_key
    contains NumSet.insert Transfer.div_ceil Transfer.all_hexdigits Transfer.same_bytes
announced_once = refl

abbrev message_formats : MessageFormats
message_formats = record {
  from_json = λ bs. some (record { sender_id = 9 ∷ []; action = none; content = bs });
  hex_encode = λ bs. bs;
}

-- A session whose safety number waits for the user.
abbrev unconfirmed : PeerCrypto ℕ
unconfirmed = record {
  remote_identity = 2 ∷ [];
  trust = sas_pending [];
  ratchet =
      some (record { inner = 0; is_initiator = true; send_ready = true; bob_ratchet_pk = none });
  transcript = empty_transcript;
  shared_secret = none;
}

abbrev start : Inbox ℕ
start = record { crypto = unconfirmed; held = [] }

-- The first frame comes before the confirmation.
abbrev early : Inbox ℕ
early = (handle_encrypted_frame toy message_formats (0 ∷ 5 ∷ []) start).1

-- What is held stays held when the trust is automatic.
still_held : length (auto_trust true early).1.held ≡ 1
unfolding auto_trust confirm_trusted handle_encrypted_frame handle_decoded handle_message hold
    decode_message decrypt Ratchet.decrypt_from_bytes Toy.toy_envelope Ratchet.decrypt_message
    Ratchet.settle Toy.toy_decrypt
still_held = refl

-- Peer 1 is in call 5.
abbrev in_call : Calls
in_call = record { active_peer_calls = (1, 5) ∷ []; calls = 5 ∷ [] }

five_ne_six : ◌≢◌ {A = ℕ} 5 6
five_ne_six e = omega (arith, e)

active_call-Undisturbed_example :
    Undisturbed 1 5 (Signals.on_call_signal 1 6 Signals.offer in_call)
    × Undisturbed 1 5 (Signals.send_call_signal true (some 1) 6 Signals.offer in_call).1
unfolding get
active_call-Undisturbed_example =
    active_call-Undisturbed 1 5 6 in_call refl five_ne_six true Signals.offer
