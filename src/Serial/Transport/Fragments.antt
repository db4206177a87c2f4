-- ===== src/Serial/Transport/Fragments.antt =====
-- The fragments of a message: how long they are, and what they hold.
use srltcpv.Base.{
  ℕ, zero, suc, ◌+◌, ◌≤◌, ◌<◌, ◌≡◌, refl, ap, ◌∙◌, List, [], ◌∷◌, ◌++◌, Bytes, All, length,
  length-take, length-drop, take, drop, take-append-drop, flatten, arith,
}
use srltcpv.Serial.Frame.{max_payload_size}
use srltcpv.Serial.Transport.{chunks, flag_chunks, fragment, fragment_data}

module _ (size : ℕ) (positive : 0 < size) where
  pub flatten-chunks :
      (fuel : ℕ) (msg : Bytes) → length msg ≤ fuel → flatten (chunks fuel size msg) ≡ msg
  unfolding chunks
  flatten-chunks zero [] h = refl
  flatten-chunks zero (b ∷ bs) h = absurd (omega arith)
  flatten-chunks (suc fuel) [] h = refl
  flatten-chunks (suc fuel) (b ∷ bs) h =
      ap (◌++◌ (take size (b ∷ bs)))
        (flatten-chunks fuel (drop size (b ∷ bs)) (omega (arith, length-drop size (b ∷ bs))))
      ∙ take-append-drop size (b ∷ bs)

  pub chunks-le : (fuel : ℕ) (msg : Bytes) → All (λ c. length c ≤ size) (chunks fuel size msg)
  unfolding chunks
  chunks-le zero msg = tt
  chunks-le (suc fuel) [] = tt
  chunks-le (suc fuel) (b ∷ bs) =
      (omega (arith, length-take size (b ∷ bs)), chunks-le fuel (drop size (b ∷ bs)))

flag_chunks-le :
    (last i n : ℕ) (cs : List Bytes)
    → All (λ c. length c ≤ n) cs
    → All (λ c. length c ≤ suc n) (flag_chunks last i cs)
unfolding flag_chunks
flag_chunks-le last i n [] h = tt
flag_chunks-le last i n (c ∷ cs) h = (omega (arith, h.0), flag_chunks-le last (i + 1) n cs h.1)

-- Every fragment fits one frame, so `prepare_send` never turns one away for its length.
pub fragment-fits : (msg : Bytes) → All (λ f. length f ≤ max_payload_size) (fragment msg)
unfolding fragment
fragment-fits [] = (omega arith, tt)
fragment-fits (b ∷ bs) =
    flag_chunks-le _ 0 fragment_data _
      (chunks-le fragment_data (omega arith) (length (b ∷ bs)) (b ∷ bs))
