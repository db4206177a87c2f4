-- ===== src/Transfer/Filename.antt =====
-- core/src/transfer/chunked.rs: sanitize_filename. A string is the list of its code points.
pub mod Component
use srltcpv.Base.{
  ℕ, ◌+◌, ◌-◌, ◌≤◌, ◌≡◌, inl, inr, refl, Bool, true, false, not, ◌&&◌, ◌||◌, List, [], ◌∷◌, ◌==◌,
  leb, ltb, if◌then◌else◌, Bool-cases, All, arith,
}

abbrev pub is_separator : ℕ → Bool
is_separator c = c == b'/' || c == 0x5C

abbrev pub is_control : ℕ → Bool
is_control c = ltb c 0x20 || leb 0x7F c && leb c 0x9F

-- The characters that Windows rejects: < > : " | ? *
abbrev pub is_forbidden : ℕ → Bool
is_forbidden c =
    c == 0x3C || c == 0x3E || c == 0x3A || c == 0x22 || c == 0x7C || c == 0x3F || c == 0x2A

-- `char::is_whitespace`, the Unicode property White_Space.
abbrev pub is_whitespace : ℕ → Bool
is_whitespace c =
    leb 0x09 c && leb c 0x0D
    || c == 0x20
    || c == 0x85
    || c == 0xA0
    || c == 0x1680
    || leb 0x2000 c && leb c 0x200A
    || c == 0x2028
    || c == 0x2029
    || c == 0x202F
    || c == 0x205F
    || c == 0x3000

abbrev pub is_dot : ℕ → Bool
is_dot c = c == 0x2E

-- The part after the last separator, and whether there is one.
unfoldable pub last_part : List ℕ → Bool × List ℕ
last_part [] = (false, [])
last_part (c ∷ cs) =
    let rest = last_part cs in
    if rest.0 then rest else if is_separator c then (true, cs) else (false, c ∷ cs)

unfoldable pub filter_chars : List ℕ → List ℕ
filter_chars [] = []
filter_chars (c ∷ cs) =
    let rest = filter_chars cs in
    if not (is_control c) && not (is_forbidden c) then c ∷ rest else rest

module _ (p : ℕ → Bool) where
  unfoldable pub trim_start : List ℕ → List ℕ
  trim_start [] = []
  trim_start (c ∷ cs) = let rest = trim_start cs in if p c then rest else c ∷ cs

  abbrev pub keep_nonempty : ℕ → List ℕ → List ℕ
  keep_nonempty c [] = if p c then [] else c ∷ []
  keep_nonempty c (d ∷ ds) = c ∷ d ∷ ds

  unfoldable pub trim_end : List ℕ → List ℕ
  trim_end [] = []
  trim_end (c ∷ cs) = keep_nonempty c (trim_end cs)

  abbrev pub trim_both : List ℕ → List ℕ
  trim_both cs = trim_end (trim_start cs)

-- The length of a character in UTF-8.
abbrev pub len_utf8 : ℕ → ℕ
len_utf8 c = if ltb c 0x80 then 1 else if ltb c 0x800 then 2 else if ltb c 0x10000 then 3 else 4

unfoldable pub byte_length : List ℕ → ℕ
byte_length [] = 0
byte_length (c ∷ cs) = len_utf8 c + byte_length cs

-- Cutting at the last character boundary at or before `cut` bytes.
unfoldable pub truncate : ℕ → List ℕ → List ℕ
truncate cut [] = []
truncate cut (c ∷ cs) =
    let rest = truncate (cut - len_utf8 c) cs in if leb (len_utf8 c) cut then c ∷ rest else []

abbrev pub or_file : List ℕ → List ℕ
or_file [] = b'f' ∷ b'i' ∷ b'l' ∷ b'e' ∷ []
or_file (c ∷ cs) = c ∷ cs

unfoldable pub sanitize_filename : List ℕ → List ℕ
sanitize_filename name =
    let cleaned = filter_chars (last_part name).1 in
    let out = or_file (trim_both is_dot (trim_both is_whitespace cleaned)) in
    if ltb 200 (byte_length out) then truncate 200 out else out
