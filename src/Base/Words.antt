-- ===== src/Base/Words.antt =====
-- Byte strings, and the big-endian integers that `bytes` and `from_be_bytes` write and read.
use Prim.Native.Nat.{ℕ, ◌+◌, ◌*◌, ◌/◌, ◌%◌, ◌^◌, ◌<◌}
use mathlib.Core.Path.{◌≡◌}
use mathlib.Core.List.{List, [], ◌∷◌}
use native.Mathlib.Omega.{arith}
use srltcpv.Base.Lists.{All}

abbrev pub Bytes : Type 0
Bytes = List ℕ

abbrev pub IsBytes : Bytes → Type 0
IsBytes bs = All (λ b. b < 256) bs

-- `put_u16` and `put_u32`, of a number that fits the width.
abbrev pub u16_be_bytes : ℕ → Bytes
u16_be_bytes n = n / 256 % 256 ∷ n % 256 ∷ []

abbrev pub u32_be_bytes : ℕ → Bytes
u32_be_bytes n = n / 2 ^ 24 % 256 ∷ n / 2 ^ 16 % 256 ∷ n / 256 % 256 ∷ n % 256 ∷ []

abbrev pub u16_from_be : ℕ → ℕ → ℕ
u16_from_be a b = a * 256 + b

abbrev pub u32_from_be : ℕ → ℕ → ℕ → ℕ → ℕ
u32_from_be a b c d = a * 2 ^ 24 + b * 2 ^ 16 + c * 256 + d

pub u16_from_be-bytes : (n : ℕ) → n < 2 ^ 16 → u16_from_be (n / 256 % 256) (n % 256) ≡ n
u16_from_be-bytes n h = omega arith

pub u32_from_be-bytes :
    (n : ℕ)
    → n < 2 ^ 32
    → u32_from_be (n / 2 ^ 24 % 256) (n / 2 ^ 16 % 256) (n / 256 % 256) (n % 256) ≡ n
u32_from_be-bytes n h = omega arith
