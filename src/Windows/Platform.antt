-- ===== src/Windows/Platform.antt =====
-- src/platform_win32.c. What the counters, `WaitForMultipleObjects`, `FormatMessage` and
-- `RtlGetVersion` answer is an argument; `WaitForMultipleObjects` does not abandon an event.
use libhs.Base.{
  ℕ, zero, suc, ◌+◌, ◌-◌, ◌*◌, ◌/◌, ◌%◌, ◌^◌, ◌||◌, Option, none, some, List, ℤ, pos, negsuc,
  if◌then◌else◌, ltb, leb, ◌==◌, ◌>>=◌, ◌>>◌, assert, get_elem?, get_or, take, length,
}
use libhs.ErrorCode
use libhs.Common.{Text, codes}
use libhs.Platform.DescriptorSet.{DescriptorSet}

-- `GetTickCount64_fallback`, with the static variable `freq`: the two calls' results, 0 for a
-- failure, the counter, and the new value of the variable.
unfoldable pub tick_count64_fallback :
    (freq : ℕ) → (frequency : Option ℕ) → (counter : Option ℕ) → Option (ℕ × ℕ)
tick_count64_fallback freq frequency counter =
    (if freq == 0 then frequency else some freq) >>= λ freq'.
    counter >>= λ now. some (now * 1000 % 2 ^ 64 / freq', freq')

-- What `WaitForMultipleObjects` returns.
pub data WaitReply : Type 0 where
  wait_failed wait_timeout : WaitReply
  wait_object : ℕ → WaitReply

-- The milliseconds that it is given; the largest `DWORD` is `INFINITE`.
unfoldable pub milliseconds : (timeout : ℤ) → ℕ
milliseconds (pos n) = n
milliseconds (negsuc n) = 2 ^ 32 - 1

-- `hs_poll`; the answer depends on the descriptors and the milliseconds.
unfoldable pub poll : DescriptorSet → (timeout : ℤ) → (wait : List ℤ → ℕ → WaitReply) → Option ℤ
unfolding milliseconds
poll set timeout wait =
    assert (ltb 0 set.count)
    >> assert (leb set.count 64)
    >> elim (wait (take set.count set.desc) (milliseconds timeout)) [
      | wait_failed ↦ some ErrorCode.system
      | wait_timeout ↦ some (pos 0)
      | wait_object i ↦ get_elem? set.id i
    ]

-- The loop of `hs_win32_strerror`: how much of the text stays.
unfoldable pub trim : (n : ℕ) → Text → ℕ
trim zero s = 0
trim (suc n) s =
    let c = get_or s n 0 in let rest = trim n s in if (c == 10) || (c == 13) then rest else suc n

-- `message` is what `FormatMessage` writes, if it does.
unfoldable pub win32_strerror : (message : Option Text) → Text
unfolding trim
win32_strerror message = elim message [
  | none ↦ codes "(unknown)"
  | some s ↦ take (trim (length s) s) s
]

-- The numbers are `DWORD`s.
unfoldable pub win32_version : (major minor : ℕ) → ℕ
win32_version major minor = (major * 100 + minor) % 2 ^ 32
