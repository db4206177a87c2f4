-- ===== src/Base/Cells.antt =====
-- Lists seen cell by cell: what stands at a position of a part of a list, and equality from it.
use Prim.Native.Nat.{ℕ, zero, suc, ◌+◌, ◌<◌}
use mathlib.Core.Path.{◌≡◌, refl}
use mathlib.Core.List.{List, [], ◌∷◌}
use native.Mathlib.Omega.{arith}
use srltcpv.Base.Lists.{length, get_elem?, take, drop}

module _ {ℓ} {A : Type ℓ} where
  pub get_elem?-take : (n i : ℕ) (xs : List A) → i < n → get_elem? (take n xs) i ≡ get_elem? xs i
  get_elem?-take zero i xs h = absurd (omega arith)
  get_elem?-take (suc n) i [] h = refl
  get_elem?-take (suc n) zero (x ∷ xs) h = refl
  get_elem?-take (suc n) (suc i) (x ∷ xs) h = get_elem?-take n i xs (omega arith)

  pub get_elem?-drop :
      (n i j : ℕ) (xs : List A) → j ≡ n + i → get_elem? (drop n xs) i ≡ get_elem? xs j
  get_elem?-drop zero i j xs e = let same : i ≡ j = omega arith in cc same
  get_elem?-drop (suc n) i j [] e = refl
  get_elem?-drop (suc n) i zero (x ∷ xs) e = absurd (omega arith)
  get_elem?-drop (suc n) i (suc j) (x ∷ xs) e = get_elem?-drop n i j xs (omega arith)

  -- Lists of one length that agree in every cell are equal.
  pub eq_of_get_elem? :
      (xs ys : List A)
      → length xs ≡ length ys
      → ((i : ℕ) → i < length xs → get_elem? xs i ≡ get_elem? ys i)
      → xs ≡ ys
  eq_of_get_elem? [] [] e h = refl
  eq_of_get_elem? [] (y ∷ ys) e h = absurd (omega arith)
  eq_of_get_elem? (x ∷ xs) [] e h = absurd (omega arith)
  eq_of_get_elem? (x ∷ xs) (y ∷ ys) e h =
      cc (h 0 (omega arith), eq_of_get_elem? xs ys (omega arith) (λ i lt. h (suc i) (omega arith)))
