-- ===== src/Crypto/Identity/Seeds.antt =====
-- core/src/crypto/identity.rs: seeds in hexadecimal and the file of the seed. The file is its
-- contents, if it exists.
use srltcpv.Base.{
  ℕ, ◌≡◌, refl, sym, ap, subst, ◌∙◌, Bool, true, false, not, Option, none, some, [], ◌∷◌, ◌++◌,
  Bytes, length, take, ◌==◌, if◌then◌else◌, Result, ok, err, require, ok_or, ◌>>=◌, ◌>>◌, arith,
}
use srltcpv.Base.Stateful.{Stateful, continue_with}
use srltcpv.Transfer.Filename.{is_whitespace, trim_both, trim_start, trim_end}
use srltcpv.Crypto.Identity.{
  Text, TextFormats, TextFormatsLaws, HasNoSpace, IdentityError, seed_length, seed_hex, seed_read,
  seed_dir, seed_write,
}

abbrev pub SeedFile : Type 0
SeedFile = Option Text

-- What the operating system answers: whether the file could be opened, after how many characters
-- the first write failed, and whether the second one succeeded.
pub record Writes : Type 0 where
  pub opened : Bool
  pub cut : Option ℕ
  pub newline : Bool

-- `str::trim`.
abbrev pub trim : Text → Text
trim s = trim_both is_whitespace s

unfoldable pub from_slice : Bytes → Result IdentityError Bytes
from_slice bytes = do require (length bytes == 32) seed_length; ok bytes

module _ (f : TextFormats) where
  unfoldable pub from_hex : Text → Result IdentityError Bytes
  from_hex hex_str = do bytes ← ok_or (f.hex_decode (trim hex_str)) seed_hex; from_slice bytes

  abbrev pub to_hex : Bytes → Text
  to_hex seed = f.hex_encode seed

  -- On Unix: opened, which empties the file, and written in two steps.
  unfoldable pub write_seed_file : Writes → Bytes → Stateful SeedFile IdentityError (Unit {0})
  write_seed_file w seed file = if not w.opened then (err seed_write, file) else (elim w.cut [
    | some n ↦ (err seed_write, some (take n (to_hex seed)))
    | none ↦
        if w.newline
        then (ok tt, some (to_hex seed ++ (0x0A ∷ [])))
        else (err seed_write, some (to_hex seed))
  ])

  -- `generated` is the random seed; `readable` and `dir_made` are answers of the system.
  unfoldable pub load_or_create_seed_file :
      Bool → Bool → Writes → Bytes → Stateful SeedFile IdentityError Bytes
  load_or_create_seed_file readable dir_made w generated none =
      if not dir_made
      then (err seed_dir, none)
      else (let written = write_seed_file w generated none in
          continue_with written.0 written.1 (λ u file. (ok generated, file)))
  load_or_create_seed_file readable dir_made w generated (some text) =
      if readable then (from_hex (trim text), some text) else (err seed_read, some text)

trim_end_whole : (s : Text) → HasNoSpace s → trim_end is_whitespace s ≡ s
unfolding trim_end
trim_end_whole [] h = refl
trim_end_whole (c ∷ []) h = rw h.0 refl
trim_end_whole (c ∷ d ∷ ds) h = rw (trim_end_whole (d ∷ ds) h.1) refl

trim_end_newline : (s : Text) → HasNoSpace s → trim_end is_whitespace (s ++ (0x0A ∷ [])) ≡ s
unfolding trim_end
trim_end_newline [] h = refl
trim_end_newline (c ∷ []) h = rw h.0 refl
trim_end_newline (c ∷ d ∷ ds) h = rw (trim_end_newline (d ∷ ds) h.1) refl

trim_start_whole :
    (c : ℕ) (s : Text) → is_whitespace c ≡ false → trim_start is_whitespace (c ∷ s) ≡ c ∷ s
unfolding trim_start
trim_start_whole c s h = rw h refl

trim_whole : (s : Text) → HasNoSpace s → trim s ≡ s
unfolding trim_start trim_end
trim_whole [] h = refl
trim_whole (c ∷ cs) h = rw (trim_start_whole c cs h.0) (trim_end_whole (c ∷ cs) h)

trim_newline : (s : Text) → HasNoSpace s → trim (s ++ (0x0A ∷ [])) ≡ s
unfolding trim_start trim_end
trim_newline [] h = refl
trim_newline (c ∷ cs) h =
    rw (trim_start_whole c (cs ++ (0x0A ∷ [])) h.0) (trim_end_newline (c ∷ cs) h)

ok-inj : {a b : Bytes} → ◌≡◌ {A = Result IdentityError Bytes} (ok a) (ok b) → a ≡ b
ok-inj e = cc e

module _ (f : TextFormats) (laws : TextFormatsLaws f) where
  from_hex-file :
      (seed : Bytes) → length seed ≡ 32 → from_hex f (trim (to_hex f seed ++ (0x0A ∷ []))) ≡ ok seed
  unfolding from_hex from_slice
  from_hex-file seed h =
      let space = laws.hex_encode-HasNoSpace seed in
      rw
        (
          trim_newline (f.hex_encode seed) space,
          trim_whole (f.hex_encode seed) space,
          laws.hex_decode-encode seed,
          h,
        )
        refl

  written_reads :
      (w : Writes) (seed : Bytes) (file : SeedFile)
      → ((write_seed_file f w seed file).0 ≡ ok tt)
      → (write_seed_file f w seed file).1 ≡ some (to_hex f seed ++ (0x0A ∷ []))
  unfolding write_seed_file
  written_reads w seed file e = ground arith

  created :
      (written : Result IdentityError (Unit {0}) × SeedFile) (generated seed : Bytes) (text : Text)
      (file' : SeedFile)
      → (written.0 ≡ ok tt → written.1 ≡ some text)
      → continue_with {S = SeedFile} {E = IdentityError} written.0 written.1
          (λ u file. (ok generated, file))
        ≡ (ok seed, file')
      → (generated ≡ seed) × (file' ≡ some text)
  created (err x, file) generated seed text file' k e = ground (arith, e)
  created (ok u, file) generated seed text file' k e = (
    ok-inj (ap (λ (r : Result IdentityError Bytes × SeedFile). r.0) e),
    sym (ap (λ (r : Result IdentityError Bytes × SeedFile). r.1) e) ∙ k refl,
  )

  -- Once a seed was loaded from a file, or created and written to it, every later start that can
  -- read the file loads the same seed and leaves the file as it is, if the seed that is generated
  -- has 32 bytes.
  pub load_or_create-again :
      (readable dir_made dir_made' : Bool) (w w' : Writes) (generated generated' seed : Bytes)
      (file file' : SeedFile)
      → length generated ≡ 32
      → load_or_create_seed_file f readable dir_made w generated file ≡ (ok seed, file')
      → load_or_create_seed_file f true dir_made' w' generated' file' ≡ (ok seed, file')
  unfolding load_or_create_seed_file
  load_or_create-again true dir_made dir_made' w w' generated generated' seed (some text) file' h
        e =
      let loaded : from_hex f (trim text) ≡ ok seed =
        ap (λ (r : Result IdentityError Bytes × SeedFile). r.0) e in
      subst
        (λ (x : SeedFile). load_or_create_seed_file f true dir_made' w' generated' x ≡ (ok seed, x))
        (ap (λ (r : Result IdentityError Bytes × SeedFile). r.1) e) (rw loaded refl)
  load_or_create-again false dir_made dir_made' w w' generated generated' seed (some text) file' h
        e =
      ground (arith, e)
  load_or_create-again readable false dir_made' w w' generated generated' seed none file' h e =
      ground (arith, e)
  load_or_create-again readable true dir_made' w w' generated generated' seed none file' h e =
      let made =
        created (write_seed_file f w generated none) generated seed
          (to_hex f generated ++ (0x0A ∷ [])) file' (written_reads w generated none) e in
      let loaded : from_hex f (trim (to_hex f generated ++ (0x0A ∷ []))) ≡ ok seed =
        from_hex-file generated h ∙ ap ok made.0 in
      subst
        (λ (x : SeedFile). load_or_create_seed_file f true dir_made' w' generated' x ≡ (ok seed, x))
        (sym made.1) (rw loaded refl)
