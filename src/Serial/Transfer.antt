-- ===== src/Serial/Transfer.antt =====
-- What the callers of `hs_serial_read` and `hs_serial_write` get.
use libhs.Base.{
  ℕ, ◌≤◌, ◌≡◌, ◌≢◌, refl, true, some, List, [], ℤ, pos, is_neg, int_eq, ==-of_ne, length, arith,
  Bool-cases, ◌⊎◌, inl, inr,
}
use libhs.Posix.{Turn, Errno, failed, timed_out, ready, PollEnd, waiting, ended, restart_poll}
use libhs.Posix.Io.{
  Reply, failure, success, Io, blocked, returned, is_gone, is_again, read_error, waited, wait,
  proceed, fill,
}
use libhs.Serial.{conclude, read_after, read}

-- The result counts the bytes that were put at the start of the buffer, or is an error that leaves
-- the buffer as it was.
abbrev pub Counts : List ℕ → Io (List ℕ) → Type 0
Counts buf blocked = Unit
Counts buf (returned r buf') =
    ((bytes : List ℕ) × (r ≡ pos (length bytes))
      × (length bytes ≤ length buf)
      × (buf' ≡ fill bytes buf))
    ⊎ ((is_neg r ≡ true) × (buf' ≡ buf))

nothing : (buf : List ℕ) → Counts buf (returned (pos 0) buf)
nothing buf = inl ([], refl, omega arith, refl)

read_error-Counts : (e : Errno) (buf : List ℕ) → Counts buf (returned (read_error e) buf)
unfolding read_error
read_error-Counts e buf = elim (Bool-cases (is_again e)) [
  | inl a ↦ rw a (nothing buf)
  | inr a ↦ elim (Bool-cases (is_gone e)) [
    | inl g ↦ rw (a, g) (inr (refl, refl))
    | inr g ↦ rw (a, g) (inr (refl, refl))
  ]
]

conclude-Counts :
    (buf : List ℕ) (r : Reply (List ℕ))
    → ((bytes : List ℕ) → r ≡ success bytes → length bytes ≤ length buf)
    → Counts buf (conclude buf r)
unfolding conclude
conclude-Counts buf (failure e) fits = read_error-Counts e buf
conclude-Counts buf (success bytes) fits = inl (bytes, refl, fits bytes refl, refl)

module _ (kernel : ℕ → Reply (List ℕ)) (buf : List ℕ)
    (fits : (n : ℕ) (bytes : List ℕ) → kernel n ≡ success bytes → length bytes ≤ n) where
  proceed-Counts : Counts buf (read_after proceed kernel buf)
  unfolding read_after
  proceed-Counts = conclude-Counts buf (kernel (length buf)) (fits (length buf))

  waited-Counts : (p : PollEnd (Unit {0})) → Counts buf (read_after (waited p) kernel buf)
  unfolding read_after waited
  waited-Counts waiting = tt
  waited-Counts (ended (failed e)) = inr (refl, refl)
  waited-Counts (ended timed_out) = nothing buf
  waited-Counts (ended (ready u)) = proceed-Counts

-- While `read` gives no more bytes than it is asked for, and the buffer is not empty,
-- `hs_serial_read` does not fail an assertion, and if it returns, its result counts the bytes that
-- it put at the start of the buffer, 0 at a timeout included, or is an error that leaves the buffer
-- as it was.
pub read-Counts :
    (kernel : ℕ → Reply (List ℕ)) (timeout : ℤ) (start : ℕ) (turns : List (Turn (Unit {0})))
    (buf : List ℕ)
    → length buf ≢ 0
    → ((n : ℕ) (bytes : List ℕ) → kernel n ≡ success bytes → length bytes ≤ n)
    → (io : Io (List ℕ)) × (read kernel timeout start turns buf ≡ some io) × Counts buf io
unfolding read wait
read-Counts kernel timeout start turns buf some_room fits = (
  read_after (wait timeout start turns) kernel buf,
  rw (==-of_ne (length buf) 0 some_room) refl,
  elim (Bool-cases (int_eq timeout (pos 0))) [
    | inl e ↦ rw e (proceed-Counts kernel buf fits)
    | inr e ↦ rw e (waited-Counts kernel buf fits (restart_poll timeout start turns).1)
  ],
)
