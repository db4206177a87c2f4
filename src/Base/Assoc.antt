-- ===== src/Base/Assoc.antt =====
-- A `HashMap` keyed by numbers, as an association list with at most one entry for a key. The
-- order of the list is that of insertion; the source's iteration order is unspecified.
use Prim.Native.Nat.{ℕ, suc, ◌≤◌}
use mathlib.Core.Path.{◌≡◌, refl, subst}
use mathlib.Core.Logic.{◌≢◌, ◌⊎◌, inl, inr}
use mathlib.Core.Bool.{Bool, true, false}
use mathlib.Core.Option.{Option, none, some}
use mathlib.Core.List.{List, [], ◌∷◌}
use native.Mathlib.Omega.{arith}
use srltcpv.Base.Tests.{◌==◌, if◌then◌else◌, Bool-cases}
use srltcpv.Base.Lists.{length, All}

module _ {ℓ} {V : Type ℓ} where
  unfoldable pub get : ℕ → List (ℕ × V) → Option V
  get k [] = none
  get k ((j, v) ∷ m) = if j == k then some v else get k m

  unfoldable pub remove : ℕ → List (ℕ × V) → List (ℕ × V)
  remove k [] = []
  remove k ((j, v) ∷ m) = if j == k then remove k m else (j, v) ∷ remove k m

  unfoldable pub contains_key : ℕ → List (ℕ × V) → Bool
  contains_key k [] = false
  contains_key k ((j, v) ∷ m) = if j == k then true else contains_key k m

  -- A new key goes to the end; an old one gets the new value in its place.
  unfoldable pub insert : ℕ → V → List (ℕ × V) → List (ℕ × V)
  insert k v [] = (k, v) ∷ []
  insert k v ((j, w) ∷ m) = if j == k then (k, v) ∷ m else (j, w) ∷ insert k v m

  -- `get_mut` followed by a write through the reference.
  unfoldable pub modify : ℕ → (V → V) → List (ℕ × V) → List (ℕ × V)
  modify k f [] = []
  modify k f ((j, v) ∷ m) = if j == k then (j, f v) ∷ m else (j, v) ∷ modify k f m

  pub length-modify : (k : ℕ) (f : V → V) (m : List (ℕ × V)) → length (modify k f m) ≡ length m
  unfolding modify
  length-modify k f [] = refl
  length-modify k f ((j, v) ∷ m) = ground (arith, length-modify k f m)

  pub get-insert :
      (k j : ℕ) (v : V) (m : List (ℕ × V))
      → get j (insert k v m) ≡ (if k == j then some v else get j m)
  unfolding get insert
  get-insert k j v [] = refl
  get-insert k j v ((i, w) ∷ m) = ground (arith, get-insert k j v m)

  pub get-remove :
      (k j : ℕ) (m : List (ℕ × V)) → get j (remove k m) ≡ (if k == j then none else get j m)
  unfolding get remove
  get-remove k j [] = ground arith
  get-remove k j ((i, w) ∷ m) = ground (arith, get-remove k j m)

  pub get-modify :
      (k j : ℕ) (f : V → V) (m : List (ℕ × V))
      → get j (modify k f m)
        ≡ (if k == j then elim (get j m) [ none ↦ none | some v ↦ some (f v) ] else get j m)
  unfolding get modify
  get-modify k j f [] = ground arith
  get-modify k j f ((i, w) ∷ m) = ground (arith, get-modify k j f m)

  pub contains_key-get :
      (k : ℕ) (m : List (ℕ × V))
      → ((contains_key k m ≡ false) × (get k m ≡ none))
        ⊎ ((contains_key k m ≡ true) × ((v : V) × (get k m ≡ some v)))
  unfolding get contains_key
  contains_key-get k [] = inl (refl, refl)
  contains_key-get k ((j, v) ∷ m) = elim (Bool-cases (j == k)) [
    | inl e ↦ inr (ground arith, (v, ground arith))
    | inr e ↦ ground (arith, contains_key-get k m)
  ]

  pub length-insert_le : (k : ℕ) (v : V) (m : List (ℕ × V)) → length (insert k v m) ≤ suc (length m)
  unfolding insert
  length-insert_le k v [] = omega arith
  length-insert_le k v ((j, w) ∷ m) = ground (arith, length-insert_le k v m)

  pub length-insert_old :
      (k : ℕ) (v w : V) (m : List (ℕ × V)) → get k m ≡ some w → length (insert k v m) ≡ length m
  unfolding insert get
  length-insert_old k v w [] h = cc
  length-insert_old k v w ((j, u) ∷ m) h = ground (arith, length-insert_old k v w m)

  pub length-remove_le : (k : ℕ) (m : List (ℕ × V)) → length (remove k m) ≤ length m
  unfolding remove
  length-remove_le k [] = omega arith
  length-remove_le k ((j, v) ∷ m) = ground (arith, length-remove_le k m)

  pub length-remove-lt :
      (k : ℕ) (v : V) (m : List (ℕ × V)) → get k m ≡ some v → suc (length (remove k m)) ≤ length m
  unfolding remove get
  length-remove-lt k v [] h = cc
  length-remove-lt k v ((j, w) ∷ m) h = ground (arith, length-remove-lt k v m, length-remove_le k m)

module _ {ℓ} {V : Type ℓ} where
  pub contains_key-insert :
      (k j : ℕ) (v : V) (m : List (ℕ × V))
      → contains_key j (insert k v m) ≡ (if k == j then true else contains_key j m)
  unfolding contains_key insert
  contains_key-insert k j v [] = refl
  contains_key-insert k j v ((i, w) ∷ m) = ground (arith, contains_key-insert k j v m)

  pub contains_key-remove :
      (k j : ℕ) (m : List (ℕ × V))
      → contains_key j (remove k m) ≡ (if k == j then false else contains_key j m)
  unfolding contains_key remove
  contains_key-remove k j [] = ground arith
  contains_key-remove k j ((i, w) ∷ m) = ground (arith, contains_key-remove k j m)

  pub length-insert_held :
      (k : ℕ) (v : V) (m : List (ℕ × V))
      → contains_key k m ≡ true
      → length (insert k v m) ≡ length m
  unfolding contains_key insert
  length-insert_held k v [] h = absurd (ground arith)
  length-insert_held k v ((j, w) ∷ m) h = ground (arith, length-insert_held k v m)

module _ {ℓ κ} {V : Type ℓ} (P : ℕ × V → Type κ) where
  pub All-insert : (k : ℕ) (v : V) (m : List (ℕ × V)) → P (k, v) → All P m → All P (insert k v m)
  unfolding insert
  All-insert k v [] p h = (p, tt)
  All-insert k v ((j, w) ∷ m) p h = elim (Bool-cases (j == k)) [
    | inl e ↦ rw e (p, h.1)
    | inr e ↦ rw e (h.0, All-insert k v m p h.1)
  ]

  pub All-remove : (k : ℕ) (m : List (ℕ × V)) → All P m → All P (remove k m)
  unfolding remove
  All-remove k [] h = tt
  All-remove k ((j, v) ∷ m) h = elim (Bool-cases (j == k)) [
    | inl e ↦ rw e (All-remove k m h.1)
    | inr e ↦ rw e (h.0, All-remove k m h.1)
  ]

  pub All-modify :
      (k : ℕ) (f : V → V) (m : List (ℕ × V))
      → ((j : ℕ) (v : V) → P (j, v) → P (j, f v))
      → All P m
      → All P (modify k f m)
  unfolding modify
  All-modify k f [] keep h = tt
  All-modify k f ((j, v) ∷ m) keep h = elim (Bool-cases (j == k)) [
    | inl e ↦ rw e (keep j v h.0, h.1)
    | inr e ↦ rw e (h.0, All-modify k f m keep h.1)
  ]

  pub get-All : (k : ℕ) (v : V) (m : List (ℕ × V)) → All P m → get k m ≡ some v → P (k, v)
  unfolding get
  get-All k v [] h e = cc
  get-All k v ((j, w) ∷ m) h e = elim (Bool-cases (j == k)) [
    | inl q ↦ subst P (ground arith) h.0
    | inr q ↦ get-All k v m h.1 (ground arith)
  ]

  -- What is left after a removal has another key, and so has all if the key is absent.
  pub All-remove_ne : (k : ℕ) (m : List (ℕ × V)) → All P m → All (λ e. P e × (e.0 ≢ k)) (remove k m)
  unfolding remove
  All-remove_ne k [] h = tt
  All-remove_ne k ((j, v) ∷ m) h = elim (Bool-cases (j == k)) [
    | inl e ↦ rw e (All-remove_ne k m h.1)
    | inr e ↦ rw e ((h.0, ground arith), All-remove_ne k m h.1)
  ]

  pub All-ne_of_get-none :
      (k : ℕ) (m : List (ℕ × V)) → All P m → get k m ≡ none → All (λ e. P e × (e.0 ≢ k)) m
  unfolding get
  All-ne_of_get-none k [] h e = tt
  All-ne_of_get-none k ((j, v) ∷ m) h e =
      ((h.0, ground arith), All-ne_of_get-none k m h.1 (ground arith))
