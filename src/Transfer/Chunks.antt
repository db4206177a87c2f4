-- ===== src/Transfer/Chunks.antt =====
-- core/src/transfer/chunked.rs: where the chunks of a file lie, and what a write changes.
use srltcpv.Base.{
  ℕ, zero, suc, ◌+◌, ◌-◌, ◌*◌, ◌/◌, ◌%◌, ◌≤◌, ◌<◌, min, ◌≡◌, refl, ◌⊎◌, inl, inr, [], ◌∷◌, Bytes,
  length, take, drop, get_elem?, get_elem?-take, get_elem?-drop, length-take, length-drop, arith,
  ==_iff, Bool-cases, ◌==◌, ◌≢◌, ◌∙◌,
}
use srltcpv.Transfer.{TransferManifest, write_at, div_ceil}
use native.Mathlib.Nat as Nat

pub write_at-inside :
    (start i j : ℕ) (bs file : Bytes)
    → j ≡ start + i
    → i < length bs
    → get_elem? (write_at start bs file) j ≡ get_elem? bs i
unfolding write_at
write_at-inside start i j [] file e h = absurd (omega arith)
write_at-inside zero zero zero (b ∷ bs) [] e h = refl
write_at-inside zero zero (suc j) (b ∷ bs) file e h = absurd (omega arith)
write_at-inside zero (suc i) zero (b ∷ bs) file e h = absurd (omega arith)
write_at-inside zero (suc i) (suc j) (b ∷ bs) [] e h =
    write_at-inside zero i j bs [] (omega arith) (omega arith)
write_at-inside zero zero zero (b ∷ bs) (f ∷ fs) e h = refl
write_at-inside zero (suc i) (suc j) (b ∷ bs) (f ∷ fs) e h =
    write_at-inside zero i j bs fs (omega arith) (omega arith)
write_at-inside (suc start) i zero (b ∷ bs) file e h = absurd (omega arith)
write_at-inside (suc start) i (suc j) (b ∷ bs) [] e h =
    write_at-inside start i j (b ∷ bs) [] (omega arith) h
write_at-inside (suc start) i (suc j) (b ∷ bs) (f ∷ fs) e h =
    write_at-inside start i j (b ∷ bs) fs (omega arith) h

pub write_at-outside :
    (start j : ℕ) (bs file : Bytes)
    → start + length bs ≤ length file
    → (j < start) ⊎ (start + length bs ≤ j)
    → get_elem? (write_at start bs file) j ≡ get_elem? file j
unfolding write_at
write_at-outside start j [] file fits h = refl
write_at-outside zero j (b ∷ bs) [] fits h = absurd (omega arith)
write_at-outside zero zero (b ∷ bs) (f ∷ fs) fits h = absurd (omega arith)
write_at-outside zero (suc j) (b ∷ bs) (f ∷ fs) fits h =
    write_at-outside zero j bs fs (omega arith) (ground arith)
write_at-outside (suc start) j (b ∷ bs) [] fits h = absurd (omega arith)
write_at-outside (suc start) zero (b ∷ bs) (f ∷ fs) fits h = refl
write_at-outside (suc start) (suc j) (b ∷ bs) (f ∷ fs) fits h =
    write_at-outside start j (b ∷ bs) fs (omega arith) (ground arith)

pub length-write_at :
    (start : ℕ) (bs file : Bytes)
    → start + length bs ≤ length file
    → length (write_at start bs file) ≡ length file
unfolding write_at
length-write_at start [] file h = refl
length-write_at zero (b ∷ bs) [] h = absurd (omega arith)
length-write_at zero (b ∷ bs) (f ∷ fs) h = omega (arith, length-write_at zero bs fs (omega arith))
length-write_at (suc start) (b ∷ bs) [] h = absurd (omega arith)
length-write_at (suc start) (b ∷ bs) (f ∷ fs) h =
    omega (arith, length-write_at start (b ∷ bs) fs (omega arith))

next-mul_le : (a b size : ℕ) → a < b → a * size + size ≤ b * size
next-mul_le a b size h =
    let next : suc a ≤ b = omega arith in
    omega (arith, Nat.suc-mul a size, Nat.mul-le-mul_right size next)

order_of_ne : (a b : ℕ) → a ≢ b → (a < b) ⊎ (b < a)
order_of_ne a b ne = ground arith

-- `n` is covered by `div_ceil n d` chunks of size `d`.
pub div_ceil-covers : (n d : ℕ) → 0 < d → n ≤ div_ceil n d * d
unfolding div_ceil
div_ceil-covers n d h = elim (Bool-cases (n % d == 0)) [
  | inl e ↦ rw e (grind (arith, Nat.mod-add-div' n d, ==_iff (n % d) 0))
  | inr e ↦ rw e (
      rw (Nat.add-mul (n / d) 1 d, Nat.one-mul d)
        (omega (arith, Nat.mod-add-div' n d, Nat.mod-lt n h)))
]

pub div_ceil-lt : (n d k : ℕ) → 0 < d → k < div_ceil n d → k * d < n
unfolding div_ceil
div_ceil-lt n d k h lt = elim (Bool-cases (n % d == 0)) [
  | inl e ↦
      (let lt' : k < n / d = rw e at lt in
        omega (arith, Nat.mod-add-div' n d, Nat.mul-lt-mul_of_pos_right lt' h))
  | inr e ↦
      (let lt' : k < n / d + 1 = rw e at lt in
        let le : k ≤ n / d = omega arith in
        ground (arith, Nat.mod-add-div' n d, Nat.mul-le-mul_right d le))
]

-- `file` agrees with `whole` on the first `len` bytes of chunk `id`, of size `size`.
abbrev pub Agrees : ℕ → ℕ → Bytes → Bytes → ℕ → Type 0
Agrees size len whole file id =
    (i j : ℕ) → i < len → j ≡ id * size + i → get_elem? file j ≡ get_elem? whole j

-- Chunk `id` of the file `whole`, as it is cut from it.
abbrev pub chunk_of : TransferManifest → Bytes → ℕ → Bytes
chunk_of m whole id =
    take (min (m.total_size - id * m.chunk_size) m.chunk_size) (drop (id * m.chunk_size) whole)

-- Writing the beginning of one chunk leaves the cells of another.
pub Agrees-write_at_other :
    (size len whole_id id : ℕ) (bs file whole : Bytes)
    → id ≢ whole_id
    → len ≤ size
    → length bs ≤ size
    → id * size + length bs ≤ length file
    → Agrees size len whole file whole_id
    → Agrees size len whole (write_at (id * size) bs file) whole_id
Agrees-write_at_other size len k id bs file whole ne le le' fits h i j lt e =
    write_at-outside (id * size) j bs file fits (elim (order_of_ne id k ne) [
      | inl before ↦
          (let m : id * size + size ≤ k * size = next-mul_le id k size before in inr (omega arith))
      | inr after ↦
          (let m : k * size + size ≤ id * size = next-mul_le k id size after in inl (omega arith))
    ])
    ∙ h i j lt e

-- Writing a whole chunk makes it agree.
pub Agrees-write_at_same :
    (size len id : ℕ) (file whole : Bytes)
    → id * size + len ≤ length whole
    → Agrees size len whole (write_at (id * size) (take len (drop (id * size) whole)) file) id
Agrees-write_at_same size len id file whole fits i j lt e =
    let bs = take len (drop (id * size) whole) in
    write_at-inside (id * size) i j bs file e
      (omega (arith, length-take len (drop (id * size) whole), length-drop (id * size) whole))
    ∙ (get_elem?-take len i (drop (id * size) whole) lt ∙ get_elem?-drop (id * size) i j whole e)
