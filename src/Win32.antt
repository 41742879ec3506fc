-- ===== src/Win32.antt =====
-- src/device_win32.c and src/device_win32_priv.h: what the handles of the Windows backend share,
-- the asynchronous read and the thread that it is pending for. The answers of the system are
-- arguments; the wait of a timeout shows only in them. The descriptor, the path and the event only
-- reach the system and the messages. An error is the code that `hs_error` returns.
pub mod SerialPort
pub mod Attributes
pub mod HidReports
pub mod Open
mod Tests
use libhs.Base.{ℕ, Bool, true, false, List, [], ◌∷◌, ℤ, pos, length}
use libhs.ErrorCode

-- `struct hs_handle`: what the last read left in `buf`, the offset of `ptr` in it, `len`, and
-- whether `pending_thread` is set.
pub record Handle : Type 0 where
  pub buf : List ℕ
  pub ptr : ℕ
  pub len : ℤ
  pub pending : Bool

-- What `GetOverlappedResult` says of the pending read.
pub data Completion : Type 0 where
  incomplete : Completion
  broken : Completion
  completed : List ℕ → Completion

-- The bytes that it brings.
abbrev pub brought : Completion → List ℕ
brought incomplete = []
brought broken = []
brought (completed bytes) = bytes

-- `_hs_win32_start_async_read`; `started` says that `ReadFile` succeeds or is pending.
unfoldable pub start_async_read : (started : Bool) → Handle → ℤ × Handle
start_async_read true h = (pos 0, record h { pending = true })
start_async_read false h = (ErrorCode.io, h)

-- `_hs_win32_finalize_async_read`
unfoldable pub finalize_async_read : Completion → Handle → ℤ × Handle
finalize_async_read incomplete h = (pos 0, h)
finalize_async_read broken h = (ErrorCode.io, record h { pending = false })
finalize_async_read (completed bytes) h =
    (pos (length bytes), record h { buf = bytes; pending = false })
