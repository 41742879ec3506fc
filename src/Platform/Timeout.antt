-- ===== src/Platform/Timeout.antt =====
-- `hs_millis` of src/platform_posix.c and `hs_adjust_timeout` of src/platform.c. The kernel's clock
-- is an argument: seconds and nanoseconds for the first, the result of `hs_millis` for the second.
use libhs.Base.{
  ℕ, ◌+◌, ◌-◌, ◌*◌, ◌/◌, ◌%◌, ◌^◌, ◌≤◌, ◌<◌, ◌≡◌, ℤ, pos, negsuc, to_int, if◌then◌else◌, ltb, arith,
}

unfoldable pub millis : (tv_sec tv_nsec : ℕ) → ℕ
millis tv_sec tv_nsec = (tv_sec * 1000 + tv_nsec / 10000000) % 2 ^ 64

-- The sum and the difference are of `uint64_t`, the result is converted to `int`.
unfoldable pub adjust_timeout : ℤ → (start now : ℕ) → ℤ
adjust_timeout (negsuc n) start now = negsuc 0
adjust_timeout (pos timeout) start now =
    let end = (start + timeout) % 2 ^ 64 in
    if ltb end now then pos 0 else to_int ((end + 2 ^ 64 - now) % 2 ^ 64 % 2 ^ 32)

-- While the clock and the end of the period fit in 64 bits and the clock has not gone back, the
-- timeout is decreased by the time elapsed, down to 0.
pub adjust_timeout-sub :
    (timeout start now : ℕ)
    → timeout < 2 ^ 31
    → start + timeout < 2 ^ 64
    → start ≤ now
    → now < 2 ^ 64
    → adjust_timeout (pos timeout) start now ≡ pos (timeout - (now - start))
unfolding adjust_timeout
adjust_timeout-sub timeout start now small fits later bounded = ground arith

-- The clock never goes back from one second to the same or a later one, nor within a second.
pub millis_mono :
    (s t a b : ℕ)
    → t < 2 ^ 50
    → a < 1000000000
    → b < 1000000000
    → s * 1000000000 + a ≤ t * 1000000000 + b
    → millis s a ≤ millis t b
unfolding millis
millis_mono s t a b fits ha hb h = omega arith

-- In this range the clock does not wrap.
millis_fits :
    (s a : ℕ)
    → s < 2 ^ 50
    → a < 1000000000
    → (millis s a ≡ s * 1000 + a / 10000000) × (millis s a < 2 ^ 63)
unfolding millis
millis_fits s a fits ha = omega arith

-- Within one second, a period of which `hs_millis` marks both ends passes ten times too slowly: a
-- timeout that began at `a` nanoseconds into the second has at `b` nanoseconds lost at least a tenth
-- of the milliseconds elapsed, or all of itself, and at most that tenth and one more.
pub adjust_timeout-millis-late :
    (timeout s a b : ℕ)
    → timeout < 2 ^ 31
    → s < 2 ^ 50
    → a ≤ b
    → b < 1000000000
    → (r : ℕ) × (adjust_timeout (pos timeout) (millis s a) (millis s b) ≡ pos r)
      × (r ≤ timeout - (b - a) / 1000000 / 10)
      × (timeout ≤ r + (b - a) / 1000000 / 10 + 1)
adjust_timeout-millis-late timeout s a b small fits order within =
    let start = millis_fits s a fits (omega arith) in
    let now = millis_fits s b fits within in
    (
      timeout - (millis s b - millis s a),
      adjust_timeout-sub timeout (millis s a) (millis s b) small (omega (arith, start))
          (millis_mono s s a b fits (omega arith) within (omega arith)) (omega (arith, now)),
      omega (arith, start, now),
      omega (arith, start, now),
    )
