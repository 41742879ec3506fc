-- ===== src/Serial.antt =====
-- src/serial_posix.c: serial ports. The handle's descriptor and path only reach the kernel and the
-- messages, so a function of the model takes the kernel's answers in the handle's place. That the
-- pointers are not null and the device is a serial one are conditions of the callers. An error is
-- the code that `hs_error` returns.
pub mod Attributes
pub mod Settings
pub mod Transfer
mod Tests
use libhs.Base.{
  ℕ, Option, none, some, List, ℤ, pos, if◌then◌else◌, ◌==◌, ◌>>=◌, ◌>>◌, assert, not, length,
}
use libhs.Posix.{Turn}
use libhs.Posix.Io.{
  Reply, failure, success, Io, blocked, returned, restart, read_error, write_error, wait, still,
  proceed, finish, fill, Wait,
}

-- The end of `hs_serial_read`, at the answer of `read`.
conclude : (buf : List ℕ) → Reply (List ℕ) → Io (List ℕ)
conclude buf (failure e) = returned (read_error e) buf
conclude buf (success bytes) = returned (pos (length bytes)) (fill bytes buf)

-- Behind the wait; `kernel` answers `read` for a size.
read_after : Wait → (kernel : ℕ → Reply (List ℕ)) → (buf : List ℕ) → Io (List ℕ)
unfolding conclude
read_after still kernel buf = blocked
read_after (finish r) kernel buf = returned r buf
read_after proceed kernel buf = conclude buf (kernel (length buf))

-- `hs_serial_read`
unfoldable pub read :
    (kernel : ℕ → Reply (List ℕ))
    → (timeout : ℤ) → (start : ℕ) → List (Turn (Unit {0}))
    → (buf : List ℕ) → Option (Io (List ℕ))
unfolding read_after
read kernel timeout start turns buf = do
  assert (not (length buf == 0))
  some (read_after (wait timeout start turns) kernel buf)

-- `hs_serial_write`: `polls` are the answers to `poll`, `kernel` answers `write`; a success of `poll`
-- holds its result, that of `write` the number of bytes written.
write_after : Option (Reply ℕ) → (kernel : List ℕ → Reply ℕ) → List ℕ → Option (Io (Unit {0}))
write_after none kernel buf = some blocked
write_after (some (failure e)) kernel buf = some (returned (write_error e) tt)
write_after (some (success r)) kernel buf =
    assert (r == 1)
    >> some (elim (kernel buf) [
      | failure e ↦ returned (write_error e) tt
      | success n ↦ returned (pos n) tt
    ])

unfoldable pub write :
    (polls : List (Reply ℕ)) → (kernel : List ℕ → Reply ℕ) → (buf : List ℕ) → Option (Io (Unit {0}))
unfolding write_after
write polls kernel buf =
    if length buf == 0 then some (returned (pos 0) tt) else write_after (restart polls) kernel buf
