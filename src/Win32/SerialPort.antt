-- ===== src/Win32/SerialPort.antt =====
-- `hs_serial_read` and `hs_serial_write` of src/serial_win32.c.
pub mod Stream
use libhs.Base.{
  ℕ, zero, suc, ◌+◌, ◌-◌, Bool, true, false, not, Option, none, some, List, [], ◌∷◌, ℤ, pos, negsuc,
  is_neg, is_pos, if◌then◌else◌, ltb, ◌==◌, ◌>>=◌, ◌>>◌, assert, length, take, drop,
}
use libhs.ErrorCode
use libhs.Win32.{Handle, Completion, start_async_read, finalize_async_read}

-- What the system answers during one call of a read function: when a failed read is started again,
-- when the pending one is asked for, and when the next one is started.
pub record Turn : Type 0 where
  pub restarted : Bool
  pub completion : Completion
  pub started : Bool

-- A call returns its result, the bytes that it puts into the caller's buffer, and the handle.
abbrev pub Outcome : Type 0
Outcome = ℤ × List ℕ × Handle

-- `if (!h->len) { mask; h->len = start; unmask; }`, by `h->len`.
pub start_next : (len : ℤ) → (started : Bool) → Handle → Handle
start_next (pos zero) started h = let (r, h') = start_async_read started h in record h' { len = r }
start_next (pos (suc n)) started h = h
start_next (negsuc n) started h = h

-- The copy, of `size` bytes or what there is; `have` is `h->len`, which is positive here.
pub give : (started : Bool) → (size have : ℕ) → Handle → Outcome
unfolding start_next
give started size have h =
    let n = if ltb size have then size else have in
    (
      pos n,
      take n (drop h.ptr h.buf),
      start_next (pos (have - n)) started (record h { ptr = h.ptr + n; len = pos (have - n) }),
    )

-- `if (!h->len) { ... }`, where the read is asked for, and what follows.
pub ask : Turn → (size : ℕ) → Handle → ℤ → Handle → Outcome
unfolding give
ask turn size h (negsuc n) h' = (negsuc n, [], record h' { len = negsuc n })
ask turn size h (pos zero) h' = (pos 0, [], record h' { len = pos 0 })
ask turn size h (pos (suc n)) h' =
    give turn.started size (suc n) (record h' { ptr = 0; len = pos (suc n) })

-- Behind the restart, by `h->len`.
pub read_from : Turn → (size : ℕ) → ℤ → Handle → Outcome
unfolding give ask
read_from turn size (negsuc n) h = (negsuc n, [], h)
read_from turn size (pos zero) h =
    let (r, h') = finalize_async_read turn.completion h in ask turn size h r h'
read_from turn size (pos (suc n)) h = give turn.started size (suc n) h

-- `if (h->len < 0) { ... }`
pub restart : (restarted : Bool) → ℤ → Handle → Handle
restart restarted (pos n) h = h
restart restarted (negsuc n) h = let (r, h') = start_async_read restarted h in record h' { len = r }

-- `hs_serial_read`, for a buffer of `size` bytes.
unfoldable pub read : Turn → (size : ℕ) → Handle → Option Outcome
unfolding read_from restart
read turn size h = do
  assert (not (size == 0))
  let h' = restart turn.restarted h.len h
  some (read_from turn size h'.len h')

-- `hs_serial_write`: `accepted` says that `WriteFile` succeeds or is pending, `written` is the answer
-- of `GetOverlappedResult`.
unfoldable pub write : (accepted : Bool) → (written : Option ℕ) → (size : ℕ) → ℤ
write accepted written zero = pos 0
write false written (suc size) = ErrorCode.io
write true none (suc size) = ErrorCode.io
write true (some n) (suc size) = pos n
