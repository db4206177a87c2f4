-- ===== src/Transfer/Filename/Component.antt =====
-- core/src/transfer/chunked.rs: what sanitize_filename makes of a name that a peer sends.
use srltcpv.Base.{
  ℕ, ◌-◌, ◌≤◌, ◌≡◌, inl, inr, refl, Bool, false, not, ◌&&◌, List, [], ◌∷◌, leb, ltb, if◌then◌else◌,
  Bool-cases, All, arith,
}
use srltcpv.Transfer.Filename.{
  is_separator, is_control, is_forbidden, is_whitespace, is_dot, last_part, filter_chars,
  trim_start, keep_nonempty, trim_end, trim_both, len_utf8, byte_length, truncate, or_file,
  sanitize_filename,
}

-- A character that may stand in a name.
abbrev pub IsSafe : ℕ → Type 0
IsSafe c = (is_separator c ≡ false) × (is_control c ≡ false) × (is_forbidden c ≡ false)

abbrev IsPart : ℕ → Type 0
IsPart c = is_separator c ≡ false

last_part-whole : (cs : List ℕ) → (last_part cs).0 ≡ false → (last_part cs).1 ≡ cs
unfolding last_part
last_part-whole [] h = refl
last_part-whole (c ∷ cs) h = ground arith

last_part-IsPart : (cs : List ℕ) → All IsPart (last_part cs).1
unfolding last_part
last_part-IsPart [] = tt
last_part-IsPart (c ∷ cs) = elim (Bool-cases (last_part cs).0) [
  | inl e ↦ rw e (last_part-IsPart cs)
  | inr e ↦
      (let h : All IsPart cs = rw (last_part-whole cs e) at (last_part-IsPart cs) in
        rw e (elim (Bool-cases (is_separator c)) [ inl s ↦ rw s h | inr s ↦ rw s (s, h) ]))
]

filter_chars-IsSafe : (cs : List ℕ) → All IsPart cs → All IsSafe (filter_chars cs)
unfolding filter_chars
filter_chars-IsSafe [] h = tt
filter_chars-IsSafe (c ∷ cs) h = elim (Bool-cases (not (is_control c) && not (is_forbidden c))) [
  | inl e ↦ rw e ((h.0, ground arith, ground arith), filter_chars-IsSafe cs h.1)
  | inr e ↦ rw e (filter_chars-IsSafe cs h.1)
]

module _ (p : ℕ → Bool) (P : ℕ → Type 0) where
  trim_start-All : (cs : List ℕ) → All P cs → All P (trim_start p cs)
  unfolding trim_start
  trim_start-All [] h = tt
  trim_start-All (c ∷ cs) h = elim (Bool-cases (p c)) [
    | inl e ↦ rw e (trim_start-All cs h.1)
    | inr e ↦ rw e h
  ]

  keep_nonempty-All : (c : ℕ) (cs : List ℕ) → P c → All P cs → All P (keep_nonempty p c cs)
  keep_nonempty-All c [] h hs = elim (Bool-cases (p c)) [ inl e ↦ rw e tt | inr e ↦ rw e (h, tt) ]
  keep_nonempty-All c (d ∷ ds) h hs = (h, hs)

  trim_end-All : (cs : List ℕ) → All P cs → All P (trim_end p cs)
  unfolding trim_end
  trim_end-All [] h = tt
  trim_end-All (c ∷ cs) h = keep_nonempty-All c (trim_end p cs) h.0 (trim_end-All cs h.1)

  trim_both-All : (cs : List ℕ) → All P cs → All P (trim_both p cs)
  trim_both-All cs h = trim_end-All (trim_start p cs) (trim_start-All cs h)

truncate-All : (P : ℕ → Type 0) (cut : ℕ) (cs : List ℕ) → All P cs → All P (truncate cut cs)
unfolding truncate
truncate-All P cut [] h = tt
truncate-All P cut (c ∷ cs) h = elim (Bool-cases (leb (len_utf8 c) cut)) [
  | inl e ↦ rw e (h.0, truncate-All P (cut - len_utf8 c) cs h.1)
  | inr e ↦ rw e tt
]

byte_length-truncate : (cut : ℕ) (cs : List ℕ) → byte_length (truncate cut cs) ≤ cut
unfolding truncate byte_length
byte_length-truncate cut [] = omega arith
byte_length-truncate cut (c ∷ cs) = elim (Bool-cases (leb (len_utf8 c) cut)) [
  | inl e ↦ rw e (ground (arith, byte_length-truncate (cut - len_utf8 c) cs))
  | inr e ↦ rw e (omega arith)
]

-- What the first character is, if there is one.
abbrev HasHead : (ℕ → Type 0) → List ℕ → Type 0
HasHead P [] = Unit
HasHead P (c ∷ cs) = P c

module _ (p : ℕ → Bool) where
  trim_start-HasHead : (cs : List ℕ) → HasHead (λ c. p c ≡ false) (trim_start p cs)
  unfolding trim_start
  trim_start-HasHead [] = tt
  trim_start-HasHead (c ∷ cs) = elim (Bool-cases (p c)) [
    | inl e ↦ rw e (trim_start-HasHead cs)
    | inr e ↦ rw e e
  ]

  keep_nonempty-HasHead :
      (P : ℕ → Type 0) (c : ℕ) (cs : List ℕ) → P c → HasHead P (keep_nonempty p c cs)
  keep_nonempty-HasHead P c [] h = elim (Bool-cases (p c)) [ inl e ↦ rw e tt | inr e ↦ rw e h ]
  keep_nonempty-HasHead P c (d ∷ ds) h = h

  trim_end-HasHead : (P : ℕ → Type 0) (cs : List ℕ) → HasHead P cs → HasHead P (trim_end p cs)
  unfolding trim_end
  trim_end-HasHead P [] h = tt
  trim_end-HasHead P (c ∷ cs) h = keep_nonempty-HasHead P c (trim_end p cs) h

-- A single component of a path: safe characters, at most 200 bytes, and a first character that is
-- no dot, so it is neither empty nor `.` nor `..`.
pub record IsComponent (name : List ℕ) : Type 0 where
  pub safe : All IsSafe name
  pub short : byte_length name ≤ 200
  pub first : (c : ℕ) × (cs : List ℕ) × (name ≡ c ∷ cs) × (is_dot c ≡ false)

or_file-IsSafe : (cs : List ℕ) → All IsSafe cs → All IsSafe (or_file cs)
or_file-IsSafe [] h =
    ((refl, refl, refl), ((refl, refl, refl), ((refl, refl, refl), ((refl, refl, refl), tt))))
or_file-IsSafe (c ∷ cs) h = h

or_file_first :
    (cs : List ℕ)
    → HasHead (λ c. is_dot c ≡ false) cs
    → (c : ℕ) × (ds : List ℕ) × (or_file cs ≡ c ∷ ds) × (is_dot c ≡ false)
or_file_first [] h = (b'f', b'i' ∷ b'l' ∷ b'e' ∷ [], refl, refl)
or_file_first (c ∷ cs) h = (c, cs, refl, h)

truncate_first : (c : ℕ) (cs : List ℕ) → (ds : List ℕ) × (truncate 200 (c ∷ cs) ≡ c ∷ ds)
unfolding truncate
truncate_first c cs = (truncate (200 - len_utf8 c) cs, ground arith)

limited-IsComponent :
    (out : List ℕ)
    → All IsSafe out
    → (c : ℕ) × (cs : List ℕ) × (out ≡ c ∷ cs) × (is_dot c ≡ false)
    → IsComponent (if ltb 200 (byte_length out) then truncate 200 out else out)
limited-IsComponent out safe (c, cs, e, dot) = elim (Bool-cases (ltb 200 (byte_length out))) [
  | inl long ↦ rw long (record {
    safe = truncate-All IsSafe 200 out safe;
    short = byte_length-truncate 200 out;
    first = let (ds, f) = truncate_first c cs in (c, ds, rw e f, dot);
  })
  | inr fits ↦ rw fits (record { safe = safe; short = ground arith; first = (c, cs, e, dot) })
]

-- Whatever a peer sends as a name, the sanitized name is a single component of a path: it has no
-- separator, no control character and no character that Windows rejects, is at most 200 bytes
-- long, is not empty and does not begin with a dot.
pub sanitize_filename-IsComponent : (name : List ℕ) → IsComponent (sanitize_filename name)
unfolding sanitize_filename
sanitize_filename-IsComponent name =
    limited-IsComponent (or_file (trim_both is_dot trimmed))
      (or_file-IsSafe (trim_both is_dot trimmed) (trim_both-All is_dot IsSafe trimmed clean))
      (or_file_first (trim_both is_dot trimmed) (
        trim_end-HasHead is_dot (λ c. is_dot c ≡ false) (trim_start is_dot trimmed)
          (trim_start-HasHead is_dot trimmed)))
  where
    cleaned : List ℕ
    cleaned = filter_chars (last_part name).1

    trimmed : List ℕ
    trimmed = trim_both is_whitespace cleaned

    clean : All IsSafe trimmed
    clean =
        trim_both-All is_whitespace IsSafe cleaned
          (filter_chars-IsSafe (last_part name).1 (last_part-IsPart name))
