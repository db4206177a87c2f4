-- ===== src/Base/Results.antt =====
-- Rust's `Result` and its `?` operator.
use mathlib.Core.Bool.{Bool}
use mathlib.Core.Path.{◌≡◌, refl}
use mathlib.Core.Logic.{◌⊎◌, inl, inr}
use mathlib.Core.Option.{Option, none, some}

pub data Result {ℓ κ} (E : Type ℓ) (A : Type κ) : Type (ℓ ⊔ κ) where
  err : E → Result E A
  ok : A → Result E A

-- An early return of `e` unless the test holds.
abbrev pub require {ℓ} : {E : Type ℓ} → Bool → E → Result E (Unit {0})
require b e = elim b [ Bool.true ↦ ok tt | Bool.false ↦ err e ]

abbrev pub ok_or {ℓ κ} : {E : Type ℓ} {A : Type κ} → Option A → E → Result E A
ok_or o e = elim o [ some a ↦ ok a | none ↦ err e ]

module _ {ℓ κ μ} {E : Type ℓ} {A : Type κ} {B : Type μ} where
  infixl 5 ◌>>=◌ ◌>>◌
  abbrev pub ◌>>=◌ : Result E A → (A → Result E B) → Result E B
  m >>= next = elim m [ err e ↦ err e | ok a ↦ next a ]

  abbrev pub ◌>>◌ : Result E A → Result E B → Result E B
  m >> next = elim m [ err e ↦ err e | ok a ↦ next ]

pub Result-cases {ℓ κ} :
    {E : Type ℓ} {A : Type κ} (m : Result E A) → ((e : E) × (m ≡ err e)) ⊎ ((a : A) × (m ≡ ok a))
Result-cases (err e) = inl (e, refl)
Result-cases (ok a) = inr (a, refl)
