-- ===== src/Platform/Poll.antt =====
-- `hs_poll` of src/platform_posix.c. The value of `hs_millis` at its start and the kernel's answers
-- are arguments. An error is the code that `hs_error` returns; its message is not modelled.
pub mod FirstReady
use libhs.Base.{
  ℕ, zero, suc, ◌+◌, Bool, ◌||◌, Option, none, some, List, [], ◌∷◌, ℤ, pos, negsuc, is_neg,
  if◌then◌else◌, ltb, leb, ◌>>=◌, ◌>>◌, assert, get_or,
}
use libhs.ErrorCode
use libhs.Posix.{Turn, PollEnd, waiting, ended, failed, timed_out, ready, restart_poll}
use libhs.Platform.DescriptorSet.{DescriptorSet, capacity}

-- `revents`, by the four flags that the code tests; which descriptors are asked about, and that it
-- is for POLLIN, does not show in the answer.
pub record Revents : Type 0 where
  pub pollin : Bool
  pub pollerr : Bool
  pub pollhup : Bool
  pub pollnval : Bool

abbrev pub is_ready : Revents → Bool
is_ready r = r.pollin || r.pollerr || r.pollhup || r.pollnval

-- The call still waits, or has returned.
pub data Wait : Type 0 where
  blocked : Wait
  returned : ℤ → Wait

abbrev pub quiet : Revents
quiet = record {
  pollin = Bool.false;
  pollerr = Bool.false;
  pollhup = Bool.false;
  pollnval = Bool.false;
}

-- The loop over `pfd` at index `i`, with the rounds left; `none` is its `assert(false)`.
find_ready : (rounds i : ℕ) → List Revents → List ℤ → Option ℤ
find_ready zero i pfd id = none
find_ready (suc rounds) i pfd id =
    if is_ready (get_or pfd i quiet)
    then some (get_or id i (pos 0))
    else find_ready rounds (i + 1) pfd id

-- The descriptors that `poll` watches, in the order of `pfd`.
watched : (rounds i : ℕ) → List ℤ → List ℤ
watched zero i desc = []
watched (suc rounds) i desc = get_or desc i (pos 0) ∷ watched rounds (i + 1) desc

-- What `hs_poll` makes of the end of the wait.
conclude : DescriptorSet → PollEnd (List Revents) → Option Wait
unfolding find_ready
conclude set waiting = some blocked
conclude set (ended (failed e)) = some (returned ErrorCode.system)
conclude set (ended timed_out) = some (returned (pos 0))
conclude set (ended (ready pfd)) = do id ← find_ready set.count 0 pfd set.id; some (returned id)

-- The kernel's answers may depend on the descriptors watched, and on nothing else of the set.
pub poll :
    DescriptorSet
    → (timeout : ℤ) → (start : ℕ) → (List ℤ → List (Turn (List Revents)))
    → Option Wait
unfolding conclude watched
poll set timeout start kernel = do
  assert (ltb 0 set.count)
  assert (leb set.count capacity)
  let timeout' = if is_neg timeout then negsuc 0 else timeout
  conclude set (restart_poll timeout' start (kernel (watched set.count 0 set.desc))).1
