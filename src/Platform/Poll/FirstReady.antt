-- ===== src/Platform/Poll/FirstReady.antt =====
-- `hs_poll` answers for the first ready entry.
use libhs.Base.{
  ℕ, zero, suc, ◌+◌, ◌<◌, ◌≡◌, refl, true, Option, some, none, List, [], ◌∷◌, ◌++◌, map, ℤ, is_neg,
  negsuc, if◌then◌else◌, lt→ltb, le→leb, All, length, arith, drop, drop-cons, add-one,
}
use libhs.Posix.{Turn, interrupted, ready, restart_poll-end}
use libhs.Platform.DescriptorSet.{DescriptorSet, capacity}
use libhs.Platform.DescriptorSet.Entries.{IsValid, entries, slots}
use libhs.Platform.Poll.{Revents, is_ready, quiet, returned, find_ready, watched, conclude, poll}

-- The value of the first entry whose answer is ready.
abbrev pub first_ready : List (ℤ × ℤ) → List Revents → Option ℤ
first_ready [] pfd = none
first_ready (e ∷ es) [] = none
first_ready ((d, v) ∷ es) (r ∷ rs) = if is_ready r then some v else first_ready es rs

find_ready-first :
    (rounds i : ℕ) (pfd : List Revents) (desc id : List ℤ)
    → i + rounds ≡ length pfd
    → find_ready rounds i pfd id ≡ first_ready (slots rounds i desc id) (drop i pfd)
unfolding find_ready
find_ready-first zero i pfd desc id h = refl
find_ready-first (suc rounds) i pfd desc id h = rw (
  drop-cons i pfd quiet (omega arith),
  find_ready-first rounds (i + 1) pfd desc id (omega arith),
  add-one,
)

watched-entries :
    (rounds i : ℕ) (desc id : List ℤ)
    → watched rounds i desc ≡ map (λ e. e.0) (slots rounds i desc id)
unfolding watched
watched-entries zero i desc id = refl
watched-entries (suc rounds) i desc id = rw (watched-entries rounds (i + 1) desc id)

-- After any number of interruptions, `poll` returns with one answer for each descriptor of a valid
-- set that is not empty, at least one of them ready: `hs_poll` then returns the value of the first
-- entry that is ready.
pub poll-first_ready :
    (set : DescriptorSet) (timeout : ℤ) (start : ℕ) (kernel : List ℤ → List (Turn (List Revents)))
    (before after : List (Turn (List Revents))) (now : ℕ) (pfd : List Revents) (v : ℤ)
    → IsValid set
    → 0 < set.count
    → kernel (map (λ e. e.0) (entries set))
      ≡ before ++ record { now = now; reply = ready pfd } ∷ after
    → All (λ t. interrupted t ≡ true) before
    → length pfd ≡ set.count
    → first_ready (entries set) pfd ≡ some v
    → poll set timeout start kernel ≡ some (returned v)
unfolding poll
poll-first_ready set timeout start kernel before after now pfd v valid some_entry answers all len
      found =
    rw (
      lt→ltb 0 set.count some_entry,
      le→leb set.count capacity valid.count,
      watched-entries set.count 0 set.desc set.id,
      answers,
      restart_poll-end (if is_neg timeout then negsuc 0 else timeout) start before
          (record { now = now; reply = ready pfd }) after all refl,
      conclude,
      find_ready-first set.count 0 pfd set.desc set.id (omega (arith, len)),
      found,
    )
