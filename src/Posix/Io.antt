-- ===== src/Posix/Io.antt =====
-- What src/serial_posix.c and src/hid_linux.c share: a call that is repeated while signals interrupt
-- it, the wait of the two read functions, and the results that they make of `errno`.
use libhs.Base.{
  ℕ, suc, ◌≤◌, ◌≡◌, refl, Bool, true, false, Option, none, some, List, [], ◌∷◌, ◌++◌, ℤ, pos,
  int_eq, if◌then◌else◌, All, length, drop, ap, arith,
}
use libhs.ErrorCode
use libhs.Posix.{
  Errno, eagain, eio, enxio, is_eintr, failed, timed_out, ready, Turn, PollEnd, waiting, ended,
  restart_poll,
}

-- The kernel's answer to a system call.
pub data Reply (A : Type 0) : Type 0 where
  failure : Errno → Reply A
  success : A → Reply A

-- A function of the library still waits, or has returned its result; `A` is what it leaves.
pub data Io (A : Type 0) : Type 0 where
  blocked : Io A
  returned : ℤ → A → Io A

module _ {A : Type 0} where
  abbrev pub is_interrupted : Reply A → Bool
  is_interrupted (failure e) = is_eintr e
  is_interrupted (success a) = false

  -- `restart: r = call(...); if (r < 0 && errno == EINTR) goto restart;`
  unfoldable pub restart : List (Reply A) → Option (Reply A)
  restart [] = none
  restart (r ∷ rs) = let rest = restart rs in if is_interrupted r then rest else some r

  -- Interruptions do not change how the call ends.
  pub restart-append :
      (before : List (Reply A)) (r : Reply A) (after : List (Reply A))
      → All (λ x. is_interrupted x ≡ true) before
      → is_interrupted r ≡ false
      → restart (before ++ r ∷ after) ≡ some r
  unfolding restart
  restart-append [] r after all last = rw last
  restart-append (x ∷ before) r after all last =
      rw (all.0, restart) (restart-append before r after all.1 last)

-- `case EIO: case ENXIO:`
abbrev pub is_gone : Errno → Bool
is_gone eio = true
is_gone enxio = true
is_gone _ = false

abbrev pub is_again : Errno → Bool
is_again eagain = true
is_again _ = false

-- The result of a failed write or `ioctl` that is not repeated.
unfoldable pub write_error : Errno → ℤ
write_error e = if is_gone e then ErrorCode.io else ErrorCode.system

-- The result of a failed read.
unfoldable pub read_error : Errno → ℤ
read_error e = if is_again e then pos 0 else if is_gone e then ErrorCode.io else ErrorCode.system

-- `if (timeout) { ... }` of the read functions: the wait goes on, the read may start, or the function
-- returns.
pub data Wait : Type 0 where
  still : Wait
  proceed : Wait
  finish : ℤ → Wait

unfoldable pub waited : PollEnd (Unit {0}) → Wait
waited waiting = still
waited (ended (failed e)) = finish ErrorCode.system
waited (ended timed_out) = finish (pos 0)
waited (ended (ready u)) = proceed

unfoldable pub wait : (timeout : ℤ) → (start : ℕ) → List (Turn (Unit {0})) → Wait
unfolding waited
wait timeout start turns =
    if int_eq timeout (pos 0) then proceed else waited (restart_poll timeout start turns).1

-- `read(fd, buf, size)` has put `bytes` at the start of the buffer.
abbrev pub fill : (bytes buf : List ℕ) → List ℕ
fill bytes buf = bytes ++ drop (length bytes) buf

pub length-fill :
    (bytes buf : List ℕ) → length bytes ≤ length buf → length (fill bytes buf) ≡ length buf
length-fill [] buf h = refl
length-fill (b ∷ bytes) [] h = elim h [ ]
length-fill (b ∷ bytes) (x ∷ buf) h = ap suc (length-fill bytes buf (omega arith))
