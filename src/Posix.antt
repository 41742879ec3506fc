-- ===== src/Posix.antt =====
-- What the kernel answers to the system calls of the POSIX files. The kernel is not modelled: an
-- answer is an argument, and a call that the code repeats takes a list of them, oldest first. A list
-- that ends before the call is done stands for a program that still waits.
pub mod Io
use libhs.Base.{
  ℕ, ◌+◌, ◌-◌, ◌≤◌, ◌<◌, ◌^◌, ◌≡◌, refl, Bool, true, false, List, [], ◌∷◌, ◌++◌, map, ap, ℤ, pos,
  if◌then◌else◌, All, take, length, Bool-cases, inl, inr,
}
use libhs.Platform.Timeout.{adjust_timeout, adjust_timeout-sub}

-- The values of `errno` that the code tells apart.
pub data Errno : Type 0 where
  eintr eagain eacces eio enxio enodev enoent enotdir ebusy enomem : Errno
  other : ℕ → Errno

abbrev pub is_eintr : Errno → Bool
is_eintr eintr = true
is_eintr _ = false

-- A `poll` that fails, that times out, or that finds something.
pub data PollReply (A : Type 0) : Type 0 where
  failed : Errno → PollReply A
  timed_out : PollReply A
  ready : A → PollReply A

-- One round: the clock that `hs_adjust_timeout` reads, and the kernel's answer.
pub record Turn (A : Type 0) : Type 0 where
  pub now : ℕ
  pub reply : PollReply A

-- How a repeated `poll` ends.
pub data PollEnd (A : Type 0) : Type 0 where
  waiting : PollEnd A
  ended : PollReply A → PollEnd A

module _ {A : Type 0} where
  abbrev pub interrupted : Turn A → Bool
  interrupted turn = elim turn.reply [ failed e ↦ is_eintr e | timed_out ↦ false | ready a ↦ false ]

  -- `restart: r = poll(..., hs_adjust_timeout(timeout, start)); if (r < 0 && errno == EINTR) goto
  -- restart;`, with the timeouts that `poll` is given.
  unfoldable pub restart_poll : ℤ → (start : ℕ) → List (Turn A) → List ℤ × PollEnd A
  restart_poll timeout start [] = ([], waiting)
  restart_poll timeout start (turn ∷ turns) =
      let rest = restart_poll timeout start turns in
      let given = adjust_timeout timeout start turn.now in
      if interrupted turn then (given ∷ rest.0, rest.1) else (given ∷ [], ended turn.reply)

  -- Interruptions do not change how the wait ends.
  pub restart_poll-end :
      (timeout : ℤ) (start : ℕ) (before : List (Turn A)) (turn : Turn A) (after : List (Turn A))
      → All (λ t. interrupted t ≡ true) before
      → interrupted turn ≡ false
      → (restart_poll timeout start (before ++ turn ∷ after)).1 ≡ ended turn.reply
  unfolding restart_poll
  restart_poll-end timeout start [] turn after all last = rw last
  restart_poll-end timeout start (t ∷ before) turn after all last =
      rw (all.0, restart_poll) (restart_poll-end timeout start before turn after all.1 last)

  -- While the clock has not gone back and nothing wraps, each round waits for what is left of the
  -- timeout at that moment, however many rounds there are.
  pub restart_poll-given :
      (timeout start : ℕ) (turns : List (Turn A))
      → timeout < 2 ^ 31
      → start + timeout < 2 ^ 64
      → All (λ t. (start ≤ t.now) × (t.now < 2 ^ 64)) turns
      → let given = (restart_poll (pos timeout) start turns).0 in
        given ≡ map (λ t. pos (timeout - (t.now - start))) (take (length given) turns)
  unfolding restart_poll
  restart_poll-given timeout start [] small fits clock = refl
  restart_poll-given timeout start (turn ∷ turns) small fits clock =
      let this = adjust_timeout-sub timeout start turn.now small fits clock.0.0 clock.0.1 in
      elim (Bool-cases (interrupted turn)) [
        | inl again ↦
            rw (again, this)
              (ap (λ l. pos (timeout - (turn.now - start)) ∷ l)
                (restart_poll-given timeout start turns small fits clock.1))
        | inr done ↦ rw (done, this)
      ]
