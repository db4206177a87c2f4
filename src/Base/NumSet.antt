-- ===== src/Base/NumSet.antt =====
-- A `HashSet` of numbers, as a list without repetitions, and the pigeonhole principle.
use Prim.Native.Nat.{ℕ, zero, suc, ◌≤◌, ◌<◌}
use mathlib.Core.Path.{◌≡◌, refl}
use mathlib.Core.Logic.{◌≢◌, inl, inr}
use mathlib.Core.Bool.{Bool, true, false}
use mathlib.Core.List.{List, [], ◌∷◌}
use native.Mathlib.Omega.{arith}
use srltcpv.Base.Tests.{◌==◌, if◌then◌else◌, Bool-cases, ==_iff}
use srltcpv.Base.Lists.{length, All}

unfoldable pub contains : ℕ → List ℕ → Bool
contains k [] = false
contains k (x ∷ xs) = if x == k then true else contains k xs

-- `HashSet::insert` also says whether the element is new.
unfoldable pub insert : ℕ → List ℕ → List ℕ
insert k xs = if contains k xs then xs else k ∷ xs

abbrev pub IsSetList : List ℕ → Type 0
IsSetList [] = Unit
IsSetList (x ∷ xs) = (contains x xs ≡ false) × IsSetList xs

pub contains-insert :
    (k j : ℕ) (xs : List ℕ) → contains j (insert k xs) ≡ (if k == j then true else contains j xs)
unfolding insert contains
contains-insert k j xs = elim (Bool-cases (k == j)) [
  | inl e ↦ elim (Bool-cases (contains k xs)) [
    | inl h ↦ rw (h, e) (let q : k ≡ j = (==_iff k j).0 e in rw (← q) h)
    | inr h ↦ rw (h, e)
  ]
  | inr e ↦ elim (Bool-cases (contains k xs)) [ inl h ↦ rw (h, e) | inr h ↦ rw (h, e) ]
]

pub insert-IsSetList : (k : ℕ) (xs : List ℕ) → IsSetList xs → IsSetList (insert k xs)
unfolding insert
insert-IsSetList k xs h = elim (Bool-cases (contains k xs)) [ inl e ↦ rw e h | inr e ↦ rw e (e, h) ]

pub insert-All {κ} : (P : ℕ → Type κ) (k : ℕ) (xs : List ℕ) → P k → All P xs → All P (insert k xs)
unfolding insert
insert-All P k xs p h = elim (Bool-cases (contains k xs)) [ inl e ↦ rw e h | inr e ↦ rw e (p, h) ]

erase : ℕ → List ℕ → List ℕ
erase k [] = []
erase k (x ∷ xs) = if x == k then xs else x ∷ erase k xs

contains-erase : (k j : ℕ) (xs : List ℕ) → contains j xs ≡ false → contains j (erase k xs) ≡ false
unfolding contains erase
contains-erase k j [] h = refl
contains-erase k j (x ∷ xs) h = ground (arith, contains-erase k j xs)

erase-IsSetList : (k : ℕ) (xs : List ℕ) → IsSetList xs → IsSetList (erase k xs)
unfolding erase
erase-IsSetList k [] h = tt
erase-IsSetList k (x ∷ xs) h = elim (Bool-cases (x == k)) [
  | inl e ↦ rw e h.1
  | inr e ↦ rw e (contains-erase k x xs h.0, erase-IsSetList k xs h.1)
]

length-erase : (k : ℕ) (xs : List ℕ) → length xs ≤ suc (length (erase k xs))
unfolding erase
length-erase k [] = omega arith
length-erase k (x ∷ xs) = ground (arith, length-erase k xs)

All-lt-of_not_contains :
    (n : ℕ) (xs : List ℕ) → contains n xs ≡ false → All (λ x. x < suc n) xs → All (λ x. x < n) xs
unfolding contains
All-lt-of_not_contains n [] c h = tt
All-lt-of_not_contains n (x ∷ xs) c h =
    (ground arith, All-lt-of_not_contains n xs (ground arith) h.1)

All-lt-erase :
    (n : ℕ) (xs : List ℕ) → IsSetList xs → All (λ x. x < suc n) xs → All (λ x. x < n) (erase n xs)
unfolding erase
All-lt-erase n [] s h = tt
All-lt-erase n (x ∷ xs) s h = elim (Bool-cases (x == n)) [
  | inl e ↦
      rw e (All-lt-of_not_contains n xs (let q : x ≡ n = (==_iff x n).0 e in rw (← q) s.0) h.1)
  | inr e ↦ rw e (ground arith, All-lt-erase n xs s.1 h.1)
]

-- A set of numbers below `n` has at most `n` elements.
pub length-le_of_IsSetList :
    (n : ℕ) (xs : List ℕ) → IsSetList xs → All (λ x. x < n) xs → length xs ≤ n
length-le_of_IsSetList zero [] s h = omega arith
length-le_of_IsSetList zero (x ∷ xs) s h = absurd (omega arith)
length-le_of_IsSetList (suc n) xs s h = omega (
  arith,
  length-erase n xs,
  length-le_of_IsSetList n (erase n xs) (erase-IsSetList n xs s) (All-lt-erase n xs s h),
)

-- A set of `n` numbers below `n` holds every number below `n`.
pub contains_of_full :
    (n : ℕ) (xs : List ℕ)
    → IsSetList xs
    → All (λ x. x < n) xs
    → length xs ≡ n
    → (k : ℕ) → k < n
    → contains k xs ≡ true
contains_of_full n xs s h e k lt = elim (Bool-cases (contains k xs)) [
  | inl c ↦ c
  | inr c ↦ absurd (omega (arith, length-le_of_IsSetList n (k ∷ xs) (c, s) (lt, h)))
]

contains-erase_other :
    (k j : ℕ) (xs : List ℕ) → k ≢ j → contains j xs ≡ true → contains j (erase k xs) ≡ true
unfolding contains erase
contains-erase_other k j [] ne h = h
contains-erase_other k j (x ∷ xs) ne h = ground (arith, contains-erase_other k j xs)

length-erase-lt :
    (k : ℕ) (xs : List ℕ) → contains k xs ≡ true → suc (length (erase k xs)) ≡ length xs
unfolding contains erase
length-erase-lt k [] h = absurd (ground arith)
length-erase-lt k (x ∷ xs) h = ground (arith, length-erase-lt k xs)

-- A list that holds every number below `n` has at least `n` elements.
pub length-ge_of_all :
    (n : ℕ) (xs : List ℕ) → ((k : ℕ) → k < n → contains k xs ≡ true) → n ≤ length xs
length-ge_of_all zero xs h = omega arith
length-ge_of_all (suc n) xs h =
    let rest =
      length-ge_of_all n (erase n xs)
        (λ k lt. contains-erase_other n k xs (omega arith) (h k (omega arith))) in
    omega (arith, rest, length-erase-lt n xs (h n (omega arith)))
