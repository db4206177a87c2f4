-- ===== src/Crypto/Identity/Utf8.antt =====
-- core/src/crypto/identity.rs: std::str::from_utf8, of which the parser of QR codes makes use. A
-- `str` is the list of its UTF-8 bytes.
use srltcpv.Base.{
  ℕ, ◌-◌, Bool, false, ◌&&◌, Option, none, some, [], ◌∷◌, Bytes, ltb, leb, ◌==◌, if◌then◌else◌,
}

-- How many continuation bytes are missing, and the bounds of the next one.
pub record Utf8State : Type 0 where
  pub missing : ℕ
  pub lowest : ℕ
  pub highest : ℕ

abbrev pub expects : ℕ → ℕ → ℕ → Option Utf8State
expects n lo hi = some (record { missing = n; lowest = lo; highest = hi })

-- The first byte of a character.
abbrev pub utf8_lead : ℕ → Option Utf8State
utf8_lead b =
    if ltb b 0x80
    then expects 0 0 0
    else if ltb b 0xC2
    then none
    else if ltb b 0xE0
    then expects 1 0x80 0xBF
    else if b == 0xE0
    then expects 2 0xA0 0xBF
    else if b == 0xED
    then expects 2 0x80 0x9F
    else if ltb b 0xF0
    then expects 2 0x80 0xBF
    else if b == 0xF0
    then expects 3 0x90 0xBF
    else if ltb b 0xF4
    then expects 3 0x80 0xBF
    else if b == 0xF4
    then expects 3 0x80 0x8F
    else none

unfoldable pub utf8_step : Utf8State → ℕ → Option Utf8State
utf8_step s b =
    if s.missing == 0
    then utf8_lead b
    else if leb s.lowest b && leb b s.highest
    then expects (s.missing - 1) 0x80 0xBF
    else none

unfoldable pub is_utf8_after : Utf8State → Bytes → Bool
is_utf8_after s [] = s.missing == 0
is_utf8_after s (b ∷ bs) = elim (utf8_step s b) [ none ↦ false | some s' ↦ is_utf8_after s' bs ]

abbrev pub is_utf8 : Bytes → Bool
is_utf8 bs = is_utf8_after (record { missing = 0; lowest = 0; highest = 0 }) bs

abbrev pub from_utf8 : Bytes → Option Bytes
from_utf8 bs = if is_utf8 bs then some bs else none
