-- ===== src/Darwin/Platform.antt =====
-- src/platform_darwin.c. The clock, the answers of `select` and the numbers that `sscanf` reads from
-- the release of the system are arguments; `adjust_timeout` has the loop of `restart_poll`.
pub mod Select
use libhs.Base.{
  ℕ, zero, suc, ◌+◌, ◌*◌, ◌/◌, ◌%◌, ◌^◌, Bool, true, false, not, ◌||◌, Option, none, some, List, [],
  ◌∷◌, ℤ, pos, negsuc, is_neg, int_eq, if◌then◌else◌, ltb, leb, ◌==◌, ◌>>=◌, ◌>>◌, assert, get_or,
}
use libhs.ErrorCode
use libhs.Posix.{Turn, PollEnd, waiting, ended, failed, timed_out, ready, restart_poll}
use libhs.Platform.DescriptorSet.{DescriptorSet, capacity}
use libhs.Platform.Poll.{Wait, blocked, returned}

-- `hs_millis`, by the absolute time and the fraction of the timebase.
unfoldable pub millis : (time numer denom : ℕ) → ℕ
millis time numer denom = time * numer % 2 ^ 64 / denom / 1000000

-- `FD_ISSET`
abbrev pub contains : List ℤ → ℤ → Bool
contains [] d = false
contains (x ∷ xs) d = int_eq x d || contains xs d

-- `set->desc[i] >= FD_SETSIZE`
abbrev pub is_large : ℤ → Bool
is_large (pos n) = leb 1024 n
is_large (negsuc n) = false

-- The loop that fills `fds`, with the rounds left: the descriptors for `select`, or none where one is
-- too large.
unfoldable pub fill : (rounds i : ℕ) → List ℤ → Option (List ℤ)
fill zero i desc = some []
fill (suc rounds) i desc =
    let d = get_or desc i (pos 0) in
    let rest = fill rounds (i + 1) desc in if is_large d then none else rest >>= λ ds. some (d ∷ ds)

-- The loop over the set behind `select`; `none` is its `assert(false)`.
unfoldable pub find_set : (rounds i : ℕ) → (fds desc id : List ℤ) → Option ℤ
find_set zero i fds desc id = none
find_set (suc rounds) i fds desc id =
    let rest = find_set rounds (i + 1) fds desc id in
    if contains fds (get_or desc i (pos 0)) then some (get_or id i (pos 0)) else rest

-- What `hs_poll` makes of the end of the wait; `fds` are the descriptors that `select` leaves.
unfoldable pub conclude : DescriptorSet → PollEnd (List ℤ) → Option Wait
unfolding find_set
conclude set waiting = some blocked
conclude set (ended (failed e)) = some (returned ErrorCode.system)
conclude set (ended timed_out) = some (returned (pos 0))
conclude set (ended (ready fds)) =
    find_set set.count 0 fds set.desc set.id >>= λ id. some (returned id)

unfoldable pub poll :
    DescriptorSet
    → (timeout : ℤ) → (start : ℕ) → (kernel : List ℤ → List (Turn (List ℤ))) → Option Wait
unfolding fill conclude
poll set timeout start kernel =
    assert (ltb 0 set.count)
    >> assert (leb set.count capacity)
    >> elim (fill set.count 0 set.desc) [
      | none ↦ some (returned ErrorCode.system)
      | some fds ↦ conclude set (restart_poll timeout start (kernel fds)).1
    ]

-- `hs_darwin_version`, with the static variable `version`: the result and its new value.
unfoldable pub darwin_version : (version : ℕ) → (major minor release : ℕ) → ℕ × ℕ
darwin_version version major minor release =
    if not (version == 0)
    then (version, version)
    else let fresh = (major * 10000 + minor * 100 + release) % 2 ^ 32 in (fresh, fresh)
