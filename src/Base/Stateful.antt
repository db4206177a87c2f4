-- ===== src/Base/Stateful.antt =====
-- A fallible `&mut self` method: a function of the state that returns a result and the state it
-- leaves behind, also where it fails.
use srltcpv.Base.Results.{Result, ok, err}

abbrev pub Stateful : Type 0 → Type 0 → Type 0 → Type 0
Stateful S E A = S → Result E A × S

module _ {S E A B : Type 0} where
  abbrev pub continue_with : Result E A → S → (A → Stateful S E B) → Result E B × S
  continue_with (err e) s next = (err e, s)
  continue_with (ok a) s next = next a s

  infixl 5 ◌>>=◌ ◌>>◌
  unfoldable pub ◌>>=◌ : Stateful S E A → (A → Stateful S E B) → Stateful S E B
  ◌>>=◌ m next s = continue_with (m s).0 (m s).1 next

  unfoldable pub ◌>>◌ : Stateful S E A → Stateful S E B → Stateful S E B
  ◌>>◌ m next s = continue_with (m s).0 (m s).1 (λ a. next)

module _ {S E A : Type 0} where
  -- A computation that does not touch the state.
  unfoldable pub lift : Result E A → Stateful S E A
  lift r s = (r, s)

  unfoldable pub reads : (S → Result E A) → Stateful S E A
  reads f s = (f s, s)

unfoldable pub updates : {S E : Type 0} → (S → S) → Stateful S E (Unit {0})
updates f s = (ok tt, f s)
