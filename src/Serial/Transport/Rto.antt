-- ===== src/Serial/Transport/Rto.antt =====
-- The retransmission timeout leaves time for a full window.
use native.Mathlib.Nat.{div-add-mod, mod-lt, mod-eq_of_lt, mul-le-mul_right, le-max_right}
use srltcpv.Base.{ℕ, ◌+◌, ◌*◌, ◌/◌, ◌^◌, ◌≤◌, ◌<◌, max, arith}
use srltcpv.Serial.Frame.{max_payload_size}
use srltcpv.Serial.Transport.{SerialConfig, effective_rto}

quotient_covers : (a b : ℕ) → 0 < b → a < (a / b + 1) * b
quotient_covers a b h = grind (arith, div-add-mod, mod-lt)

covers_with_spare :
    (total rate rto : ℕ) → 0 < rate → total / rate + 200 ≤ rto → total + 199 * rate < rto * rate
covers_with_spare total rate rto p h =
    grind (arith, quotient_covers total rate p, mul-le-mul_right rate h)

-- The timeout is at least the configured one and, as long as the product fits a u64, longer
-- than a window of frames of the largest size takes at the line's rate (a tenth of the baud
-- rate in bytes a second, taken as at least 1200 baud), with 200 ms to spare.
pub effective_rto-covers :
    (cfg : SerialConfig)
    → cfg.window_size * (max_payload_size + 32) * 1000 < 2 ^ 64
    → (cfg.rto_ms ≤ effective_rto cfg)
      × (cfg.window_size * (max_payload_size + 32) * 1000 + 199 * (max cfg.baud_rate 1200 / 10)
          < effective_rto cfg * (max cfg.baud_rate 1200 / 10))
unfolding effective_rto
effective_rto-covers cfg h = (
  omega arith,
  covers_with_spare (cfg.window_size * (max_payload_size + 32) * 1000) (max cfg.baud_rate 1200 / 10)
      _ (omega arith)
      (rw (mod-eq_of_lt h) (
        le-max_right cfg.rto_ms (
          cfg.window_size * (max_payload_size + 32) * 1000 / (max cfg.baud_rate 1200 / 10) + 200))),
)
