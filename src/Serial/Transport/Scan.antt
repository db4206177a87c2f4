-- ===== src/Serial/Transport/Scan.antt =====
-- What `extract_frame` finds, against a scan of the bytes from left to right.
use srltcpv.Base.{
  ℕ, zero, suc, ◌+◌, ◌≤◌, ◌<◌, ◌≡◌, refl, sym, ap, ◌∙◌, true, Option, none, some, List, [], ◌∷◌,
  ◌++◌, append_assoc, append-nil, Bytes, All, All-append, length, length-append, length-drop, take,
  drop, ◌==◌, if◌then◌else◌, arith, Bool-cases, Option-cases, inl, inr, ◌⊎◌, ◌≢◌, ==_false,
}
use srltcpv.Base.NumSet.{contains}
use srltcpv.Serial.Transport.{delimiter_position, extract_frame_loop, extract_frame}

-- A delimiter ends the current frame; an empty one is skipped.
abbrev pub close : Bytes → List Bytes × Bytes → List Bytes × Bytes
close cur out = if length cur == 0 then out else (cur ∷ out.0, out.1)

-- The frames that delimiters end, and the bytes after the last delimiter.
pub scan : Bytes → Bytes → List Bytes × Bytes
scan cur [] = ([], cur)
scan cur (b ∷ bs) =
    let ended = close cur (scan [] bs) in
    let longer = scan (cur ++ b ∷ []) bs in if b == 0 then ended else longer

scan-none : (buf cur : Bytes) → delimiter_position buf ≡ none → scan cur buf ≡ ([], cur ++ buf)
unfolding scan delimiter_position
scan-none [] cur h = ap (λ c. ([], c)) (sym (append-nil cur))
scan-none (b ∷ bs) cur h = elim (Bool-cases (b == 0)) [
  | inl e ↦ absurd (ground arith)
  | inr e ↦ rw e (
      scan-none bs (cur ++ b ∷ []) (ground arith)
      ∙ ap (λ c. ([], c)) (append_assoc cur (b ∷ []) bs))
]

scan-some :
    (buf cur : Bytes) (pos : ℕ)
    → delimiter_position buf ≡ some pos
    → (scan cur buf ≡ close (cur ++ take pos buf) (scan [] (drop (suc pos) buf)))
      × (pos < length buf)
unfolding scan delimiter_position
scan-some [] cur pos h = absurd (ground arith)
scan-some (b ∷ bs) cur pos h = elim (Bool-cases (b == 0)) [
  | inl e ↦
      let p : pos ≡ 0 = ground arith in
      rw (p, e) (ap (λ c. close c (scan [] bs)) (sym (append-nil cur)), omega arith)
  | inr e ↦ elim (Option-cases (delimiter_position bs)) [
    | inl q ↦ absurd (ground arith)
    | inr (k, q) ↦
        (let p : pos ≡ suc k = ground arith in
          rw (p, e)
            (
              (scan-some bs (cur ++ b ∷ []) k q).0
                  ∙ ap (λ c. close c (scan [] (drop (suc k) bs)))
                      (append_assoc cur (b ∷ []) (take k bs)),
              omega (arith, (scan-some bs (cur ++ b ∷ []) k q).1),
            ))
  ]
]

-- What `extract_frame` has to return: nothing where the scan finds no frame, and otherwise the
-- first frame, with a buffer of fewer than `n` bytes that holds the others.
abbrev pub Extracts : ℕ → Bytes → Option Bytes × Bytes → Type 0
Extracts n buf out =
    (((scan [] buf).0 ≡ []) × (out ≡ (none, (scan [] buf).1)))
    ⊎ ((frame rest : Bytes) × (out ≡ (some frame, rest))
        × (scan [] buf ≡ (frame ∷ (scan [] rest).0, (scan [] rest).1))
        × (length rest < n))

drop_one : (pos : ℕ) (buf : Bytes) → drop (pos + 1) buf ≡ drop (suc pos) buf
drop_one pos buf = let e : pos + 1 ≡ suc pos = omega arith in rw e

Extracts-mono :
    (m n : ℕ) (buf : Bytes) (out : Option Bytes × Bytes)
    → m ≤ n
    → Extracts m buf out
    → Extracts n buf out
Extracts-mono m n buf out le (inl h) = inl h
Extracts-mono m n buf out le (inr (frame, rest, e, s, lt)) = inr (frame, rest, e, s, omega arith)

extract_frame_loop-Extracts :
    (fuel : ℕ) (buf : Bytes)
    → length buf < fuel
    → Extracts (length buf) buf (extract_frame_loop fuel buf)
unfolding extract_frame_loop
extract_frame_loop-Extracts zero buf h = absurd (omega arith)
extract_frame_loop-Extracts (suc fuel) buf h = elim (Option-cases (delimiter_position buf)) [
  | inl e ↦ rw (e, extract_frame_loop, scan-none buf [] e) (inl (refl, refl))
  | inr (pos, e) ↦
      rw (e, extract_frame_loop, (scan-some buf [] pos e).0, drop_one pos buf)
        (elim (Bool-cases (length (take pos buf) == 0)) [
          | inl q ↦ rw q (
              Extracts-mono (length (drop (suc pos) buf)) (length buf) (drop (suc pos) buf) _
                (omega (arith, length-drop (suc pos) buf))
                (extract_frame_loop-Extracts fuel (drop (suc pos) buf)
                  (omega (arith, length-drop (suc pos) buf, (scan-some buf [] pos e).1))))
          | inr q ↦ rw q (
              inr (
                take pos buf,
                drop (suc pos) buf,
                refl,
                refl,
                omega (arith, length-drop (suc pos) buf, (scan-some buf [] pos e).1),
              ))
        ])
]

pub extract_frame-Extracts : (buf : Bytes) → Extracts (length buf) buf (extract_frame buf)
unfolding extract_frame
extract_frame-Extracts buf = extract_frame_loop-Extracts (suc (length buf)) buf (omega arith)

-- A scan can stop anywhere and go on with the bytes that it has not closed.
pub scan-append :
    (xs ys cur : Bytes)
    → scan cur (xs ++ ys)
      ≡ ((scan cur xs).0 ++ (scan (scan cur xs).1 ys).0, (scan (scan cur xs).1 ys).1)
unfolding scan
scan-append [] ys cur = refl
scan-append (b ∷ xs) ys cur = elim (Bool-cases (b == 0)) [
  | inl e ↦ rw e (elim (Bool-cases (length cur == 0)) [
    | inl q ↦ rw q (scan-append xs ys [])
    | inr q ↦ rw q (ap (λ (o : List Bytes × Bytes). (cur ∷ o.0, o.1)) (scan-append xs ys []))
  ])
  | inr e ↦ rw e (scan-append xs ys (cur ++ b ∷ []))
]

-- Bytes without a delimiter are kept, and a delimiter after them makes a frame of them.
pub scan-nonzero : (bs cur : Bytes) → All (λ b. b ≢ 0) bs → scan cur bs ≡ ([], cur ++ bs)
unfolding scan
scan-nonzero [] cur h = ap (λ c. ([], c)) (sym (append-nil cur))
scan-nonzero (b ∷ bs) cur h =
    rw (==_false b 0 h.0)
      (scan-nonzero bs (cur ++ b ∷ []) h.1 ∙ ap (λ c. ([], c)) (append_assoc cur (b ∷ []) bs))

pub scan_frame :
    (e rest : Bytes)
    → All (λ b. b ≢ 0) e
    → 0 < length e
    → scan [] ((e ++ 0 ∷ []) ++ rest) ≡ (e ∷ (scan [] rest).0, (scan [] rest).1)
unfolding scan
scan_frame e rest h p =
    ap (scan []) (append_assoc e (0 ∷ []) rest)
    ∙ scan-append e (0 ∷ rest) []
    ∙ rw (scan-nonzero e [] h, ==_false (length e) 0 (omega arith))

-- Nothing is left over after a delimiter.
pub scan-ended : (xs cur : Bytes) → (scan cur (xs ++ 0 ∷ [])).1 ≡ []
unfolding scan
scan-ended [] cur = ground arith
scan-ended (b ∷ xs) cur = ground (arith, scan-ended xs [], scan-ended xs (cur ++ b ∷ []))

-- What is left over holds no delimiter, and is part of what came in.
pub scan_tail-nonzero : (bs cur : Bytes) → All (λ b. b ≢ 0) cur → All (λ b. b ≢ 0) (scan cur bs).1
unfolding scan
scan_tail-nonzero [] cur h = h
scan_tail-nonzero (b ∷ bs) cur h = elim (Bool-cases (b == 0)) [
  | inl e ↦ rw e (elim (Bool-cases (length cur == 0)) [
    | inl q ↦ rw q (scan_tail-nonzero bs [] tt)
    | inr q ↦ rw q (scan_tail-nonzero bs [] tt)
  ])
  | inr e ↦ rw e (
      scan_tail-nonzero bs (cur ++ b ∷ [])
        (All-append (λ b. b ≢ 0) cur (b ∷ []) h (ground arith, tt)))
]

pub scan_tail-le : (bs cur : Bytes) → length (scan cur bs).1 ≤ length cur + length bs
unfolding scan
scan_tail-le [] cur = omega arith
scan_tail-le (b ∷ bs) cur =
    ground (arith, scan_tail-le bs [], scan_tail-le bs (cur ++ b ∷ []), length-append cur (b ∷ []))

pub scan_tail-le_of_contains :
    (bs cur : Bytes) → contains 0 bs ≡ true → length (scan cur bs).1 ≤ length bs
unfolding scan contains
scan_tail-le_of_contains [] cur h = absurd (ground arith)
scan_tail-le_of_contains (b ∷ bs) cur h =
    ground (arith, scan_tail-le bs [], scan_tail-le_of_contains bs (cur ++ b ∷ []))
