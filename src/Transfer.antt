-- ===== src/Transfer.antt =====
-- core/src/transfer/chunked.rs: a chunked file transfer with a window and selective
-- acknowledgements. `Instant::now()` is the argument `now` in milliseconds, SHA-256 a parameter;
-- a file is its bytes, and what the operating system does to a read or a write is an argument.
pub mod Chunks
pub mod Receiver
pub mod Delivery
pub mod Sender
pub mod Tracking
pub mod Progress
pub mod Filename
mod Tests
use srltcpv.Base.{
  ℕ, zero, suc, ◌+◌, ◌-◌, ◌*◌, ◌/◌, ◌%◌, ◌^◌, min, max, Bool, true, false, not, ◌&&◌, ◌||◌, Option,
  none, some, List, [], ◌∷◌, ◌++◌, Bytes, length, take, drop, map, ◌==◌, leb, ltb, if◌then◌else◌,
  Result, ok, err, ◌>>=◌, ◌>>◌, require,
}
use srltcpv.Base.Assoc.{insert as put, remove}
use srltcpv.Base.NumSet.{contains, insert}

abbrev pub max_chunk_size : ℕ
max_chunk_size = 1024 * 1024

abbrev pub max_transfer_bytes : ℕ
max_transfer_bytes = 64 * 1024 * 1024 * 1024

-- The messages are left out. `panicked` is no value of the source: a slice out of range.
pub data TransferError : Type 0 where
  io_error checksum_mismatch invalid_offer incomplete panicked : TransferError

-- The identifier and the name of the file are left out: nothing here reads them.
pub record TransferManifest : Type 0 where
  pub total_size : ℕ
  pub chunk_size : ℕ
  pub total_chunks : ℕ
  pub sha256 : Bytes

unfoldable pub div_ceil : ℕ → ℕ → ℕ
div_ceil n d = if n % d == 0 then n / d else n / d + 1

abbrev pub is_ascii_hexdigit : ℕ → Bool
is_ascii_hexdigit b =
    leb b'0' b && leb b b'9' || leb b'a' b && leb b b'f' || leb b'A' b && leb b b'F'

unfoldable pub all_hexdigits : Bytes → Bool
all_hexdigits [] = true
all_hexdigits (b ∷ bs) = is_ascii_hexdigit b && all_hexdigits bs

unfoldable pub validate : TransferManifest → Result TransferError (Unit {0})
validate m = do
  require (not (m.chunk_size == 0 || ltb max_chunk_size m.chunk_size)) invalid_offer
  require (not (ltb max_transfer_bytes m.total_size)) invalid_offer
  require (div_ceil m.total_size m.chunk_size == m.total_chunks) invalid_offer
  require (length m.sha256 == 64 && all_hexdigits m.sha256) invalid_offer

abbrev pub chunk_start : TransferManifest → ℕ → ℕ
chunk_start m id = (id * m.chunk_size) % 2 ^ 64

-- The subtraction of `u64` wraps around.
unfoldable pub chunk_len : TransferManifest → ℕ → ℕ
chunk_len m id = min ((m.total_size + 2 ^ 64 - chunk_start m id) % 2 ^ 64) m.chunk_size

-- `clamp(1, MAX_CHUNK_SIZE)`, and the cast to `u32`.
unfoldable pub make_manifest : ℕ → ℕ → Bytes → TransferManifest
make_manifest total chunk_size sha256 =
    let size = max 1 (min chunk_size max_chunk_size) in
    record {
      total_size = total;
      chunk_size = size;
      total_chunks = div_ceil total size % 2 ^ 32;
      sha256 = sha256;
    }

-- A file answers `seek` and `read_exact` at an offset and a length.
pub data Source : Type 0 where
  file_source : (ℕ → ℕ → Option Bytes) → Source
  memory_source : Bytes → Source

pub record ChunkedSender : Type 0 where
  pub manifest : TransferManifest
  pub source : Source
  pub next_unsent : ℕ
  pub inflight : List (ℕ × ℕ)
  pub acked : List ℕ
  pub last_progress : ℕ

abbrev pub with_source : ℕ → TransferManifest → Source → ChunkedSender
with_source now m source = record {
  manifest = m;
  source = source;
  next_unsent = 0;
  inflight = [];
  acked = [];
  last_progress = now;
}

-- The digest of the data is the third argument.
abbrev pub from_bytes : ℕ → Bytes → Bytes → ℕ → ChunkedSender
from_bytes now data_bytes sha chunk_size =
    with_source now (make_manifest (length data_bytes) chunk_size sha) (memory_source data_bytes)

unfoldable pub read_source : ℕ → ℕ → Source → Result TransferError Bytes
read_source start len (memory_source bytes) = do
  require (leb (start + len) (length bytes)) panicked
  ok (take len (drop start bytes))
read_source start len (file_source read) = elim (read start len) [
  | none ↦ err io_error
  | some bytes ↦ ok bytes
]

unfoldable pub read_chunk : ChunkedSender → ℕ → Result TransferError Bytes
read_chunk s id = read_source (chunk_start s.manifest id) (chunk_len s.manifest id) s.source

-- The keys of `inflight` that are due, and their sorting.
unfoldable pub overdue : ℕ → ℕ → List (ℕ × ℕ) → List ℕ
overdue now resend_after [] = []
overdue now resend_after ((id, sent) ∷ m) =
    if leb resend_after (now - sent)
    then id ∷ overdue now resend_after m
    else overdue now resend_after m

unfoldable pub insert_sorted : ℕ → List ℕ → List ℕ
insert_sorted x [] = x ∷ []
insert_sorted x (y ∷ ys) = if leb x y then x ∷ y ∷ ys else y ∷ insert_sorted x ys

unfoldable pub sort_unstable : List ℕ → List ℕ
sort_unstable [] = []
sort_unstable (x ∷ xs) = insert_sorted x (sort_unstable xs)

-- The `while` loop over new chunks: `room` is `window - inflight.len() - added`, and the chunks
-- not sent so far are enough fuel.
unfoldable pub take_unsent : ℕ → ℕ → List ℕ → ℕ → List ℕ × ℕ
take_unsent zero room acked next = ([], next)
take_unsent (suc fuel) room acked next =
    if room == 0
    then ([], next)
    else (let is_new = not (contains next acked) in
        let rest = take_unsent fuel (if is_new then room - 1 else room) acked (next + 1) in
        ((if is_new then next ∷ rest.0 else rest.0), rest.1))

-- The last loop: each chunk that is read is noted as in flight; the first error ends it.
unfoldable pub send_ids :
    ℕ → List ℕ → ChunkedSender → Result TransferError (List (ℕ × Bytes)) × ChunkedSender
send_ids now [] s = (ok [], s)
send_ids now (id ∷ ids) s = elim (read_chunk s id) [
  | err e ↦ (err e, s)
  | ok bytes ↦
      (let rest = send_ids now ids (record s { inflight = put id now s.inflight }) in
        (do out ← rest.0; ok ((id, bytes) ∷ out), rest.1))
]

unfoldable pub next_chunks :
    ℕ → ℕ → ℕ → ChunkedSender → Result TransferError (List (ℕ × Bytes)) × ChunkedSender
next_chunks now window resend_after s =
    let due = sort_unstable (overdue now resend_after s.inflight) in
    let (fresh, next) =
      take_unsent (s.manifest.total_chunks - s.next_unsent) (window - length s.inflight) s.acked
        s.next_unsent in
    send_ids now (due ++ fresh) (record s { next_unsent = next })

-- One identifier of an acknowledgement, and all of them.
unfoldable pub ack_chunk : ℕ → ℕ → ChunkedSender → ChunkedSender
ack_chunk now id s =
    let s' =
      if ltb id s.manifest.total_chunks && not (contains id s.acked)
      then record s { acked = insert id s.acked; last_progress = now }
      else s in
    record s' { inflight = remove id s'.inflight }

unfoldable pub on_ack : ℕ → List ℕ → ChunkedSender → ChunkedSender
on_ack now [] s = s
on_ack now (id ∷ ids) s = on_ack now ids (ack_chunk now id s)

abbrev pub idle_for : ℕ → ChunkedSender → ℕ
idle_for now s = now - s.last_progress

-- The identifiers from `id` on, `count` of them, that are not acknowledged.
unfoldable pub missing_from : ℕ → ℕ → List ℕ → List ℕ
missing_from zero id acked = []
missing_from (suc count) id acked =
    let rest = missing_from count (id + 1) acked in if contains id acked then rest else id ∷ rest

abbrev pub missing_chunks : ChunkedSender → List ℕ
missing_chunks s = missing_from s.manifest.total_chunks 0 s.acked

abbrev pub is_sent : ChunkedSender → Bool
is_sent s = length s.acked == s.manifest.total_chunks

pub record ChunkedReceiver : Type 0 where
  pub manifest : TransferManifest
  pub file : Bytes
  pub received : List ℕ

abbrev pub zeros : ℕ → Bytes
zeros zero = []
zeros (suc n) = 0 ∷ zeros n

-- `opened` says whether the directory and the file could be made; `set_len` fills with zeros.
unfoldable pub create : Bool → TransferManifest → Result TransferError ChunkedReceiver
create opened m = do
  validate m
  require opened io_error
  ok (record { manifest = m; file = zeros m.total_size; received = [] })

-- Writing at an offset; a write past the end leaves zeros before it.
unfoldable pub write_at : ℕ → Bytes → Bytes → Bytes
write_at start [] file = file
write_at zero (b ∷ bs) [] = b ∷ write_at zero bs []
write_at zero (b ∷ bs) (f ∷ fs) = b ∷ write_at zero bs fs
write_at (suc start) (b ∷ bs) [] = 0 ∷ write_at start (b ∷ bs) []
write_at (suc start) (b ∷ bs) (f ∷ fs) = f ∷ write_at start (b ∷ bs) fs

-- `fault` is the number of bytes written before the operating system reports an error, if it does.
unfoldable pub receive_chunk :
    Option ℕ → ℕ → Bytes → ChunkedReceiver → Result TransferError Bool × ChunkedReceiver
receive_chunk fault id bytes r =
    if leb r.manifest.total_chunks id || not (length bytes == chunk_len r.manifest id)
    then (ok false, r)
    else if contains id r.received
    then (ok true, r)
    else (elim fault [
      | some n ↦ (
        err io_error,
        record r { file = write_at (chunk_start r.manifest id) (take n bytes) r.file },
      )
      | none ↦ (
        ok true,
        record r {
          file = write_at (chunk_start r.manifest id) bytes r.file;
          received = insert id r.received;
        },
      )
    ])

abbrev pub is_complete : ChunkedReceiver → Bool
is_complete r = length r.received == r.manifest.total_chunks

abbrev pub to_lowercase : ℕ → ℕ
to_lowercase b = if leb b'A' b && leb b b'Z' then b + 32 else b

-- Whether two byte strings are equal.
unfoldable pub same_bytes : Bytes → Bytes → Bool
same_bytes [] [] = true
same_bytes [] (y ∷ ys) = false
same_bytes (x ∷ xs) [] = false
same_bytes (x ∷ xs) (y ∷ ys) = x == y && same_bytes xs ys

module _ (sha256_hex : Bytes → Bytes) where
  -- `synced` says whether the file could be flushed and read back, `renamed` whether it could be
  -- moved; the result is the contents of the finished file.
  unfoldable pub finalize : Bool → Bool → ChunkedReceiver → Result TransferError Bytes
  finalize synced renamed r = do
    require (is_complete r) incomplete
    require synced io_error
    require (same_bytes (sha256_hex r.file) (map to_lowercase r.manifest.sha256)) checksum_mismatch
    require renamed io_error
    ok r.file
