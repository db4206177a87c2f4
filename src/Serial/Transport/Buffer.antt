-- ===== src/Serial/Transport/Buffer.antt =====
-- The receive buffer does not grow without bound.
use srltcpv.Base.{
  ℕ, suc, ◌*◌, ◌≤◌, ◌≡◌, refl, sym, ◌∙◌, max, true, [], ◌∷◌, ◌++◌, Bytes, All, length, ltb, arith,
  Bool-cases, inl, inr, ◌≢◌,
}
use srltcpv.Base.NumSet.{contains}
use srltcpv.Serial.Codec.{FrameCodec}
use srltcpv.Serial.Frame.{max_frame_size}
use srltcpv.Serial.Transport.{SerialReader, feed, extend_buffer}
use srltcpv.Serial.Transport.Scan.{
  scan, scan-append, scan-nonzero, scan_tail-nonzero, scan_tail-le, scan_tail-le_of_contains,
}
use srltcpv.Serial.Transport.Feed.{feed_loop-taken}

contains-append_nonzero :
    (xs ys : Bytes) → All (λ b. b ≢ 0) xs → contains 0 (xs ++ ys) ≡ contains 0 ys
unfolding contains
contains-append_nonzero [] ys h = refl
contains-append_nonzero (x ∷ xs) ys h = ground (arith, contains-append_nonzero xs ys h.1)

tail_bound :
    (buf bytes : Bytes)
    → All (λ b. b ≢ 0) buf
    → length (scan [] (extend_buffer buf bytes)).1 ≤ max (4 * max_frame_size) (length bytes)
unfolding extend_buffer
tail_bound buf bytes h = elim (Bool-cases (contains 0 (buf ++ bytes))) [
  | inl k ↦ elim (Bool-cases (ltb (4 * max_frame_size) (length (buf ++ bytes)))) [
    | inl q ↦ rw (k, q) (with_delimiter k)
    | inr q ↦ rw (k, q) (with_delimiter k)
  ]
  | inr k ↦ elim (Bool-cases (ltb (4 * max_frame_size) (length (buf ++ bytes)))) [
    | inl q ↦ rw (k, q) (omega (arith, scan_tail-le [] []))
    | inr q ↦ rw (k, q) (ground (arith, scan_tail-le (buf ++ bytes) []))
  ]
]
  where
    with_delimiter :
        contains 0 (buf ++ bytes) ≡ true
        → length (scan [] (buf ++ bytes)).1 ≤ max (4 * max_frame_size) (length bytes)
    with_delimiter k =
        rw (scan-append buf bytes [], scan-nonzero buf [] h)
          (omega (
            arith,
            scan_tail-le_of_contains bytes buf (sym (contains-append_nonzero buf bytes h) ∙ k),
          ))

module _ (c : FrameCodec) where
  -- However a reader is fed, what it keeps holds no delimiter, and is no longer than four
  -- frames of the largest size or the last input, whichever is more.
  pub feed_buffer-bounded :
      (now : ℕ) (bytes : Bytes) (reader : SerialReader)
      → All (λ b. b ≢ 0) reader.rx_buffer
      → let kept = (feed c now bytes reader).1.rx_buffer in
        All (λ b. b ≢ 0) kept × (length kept ≤ max (4 * max_frame_size) (length bytes))
  unfolding feed
  feed_buffer-bounded now bytes reader h =
      rw
        (feed_loop-taken c (suc (length (extend_buffer reader.rx_buffer bytes))) now
          (extend_buffer reader.rx_buffer bytes) reader.reliability (omega arith))
        (
          scan_tail-nonzero (extend_buffer reader.rx_buffer bytes) [] tt,
          tail_bound reader.rx_buffer bytes h,
        )
