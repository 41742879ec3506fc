-- ===== src/Darwin/Platform/Select.antt =====
-- `hs_poll` answers for the first entry whose descriptor is ready.
use libhs.Base.{
  ℕ, zero, suc, ◌+◌, ◌<◌, ◌≡◌, refl, true, false, Option, some, none, List, [], ◌∷◌, ◌++◌, map, ℤ,
  lt→ltb, le→leb, All, if◌then◌else◌,
}
use libhs.Posix.{Turn, interrupted, ready, restart_poll-end}
use libhs.Platform.DescriptorSet.{DescriptorSet, capacity}
use libhs.Platform.DescriptorSet.Entries.{IsValid, entries, slots}
use libhs.Platform.Poll.{returned}
use libhs.Darwin.Platform.{contains, is_large, fill, find_set, conclude, poll}

-- The value of the first entry whose descriptor is among those.
abbrev pub first_set : List (ℤ × ℤ) → List ℤ → Option ℤ
first_set [] fds = none
first_set ((d, v) ∷ es) fds = if contains fds d then some v else first_set es fds

find_set-first :
    (rounds i : ℕ) (fds desc id : List ℤ)
    → find_set rounds i fds desc id ≡ first_set (slots rounds i desc id) fds
unfolding find_set
find_set-first zero i fds desc id = refl
find_set-first (suc rounds) i fds desc id = rw (find_set-first rounds (i + 1) fds desc id) refl

fill-slots :
    (rounds i : ℕ) (desc id : List ℤ)
    → All (λ e. is_large e.0 ≡ false) (slots rounds i desc id)
    → fill rounds i desc ≡ some (map (λ e. e.0) (slots rounds i desc id))
unfolding fill
fill-slots zero i desc id small = refl
fill-slots (suc rounds) i desc id small =
    rw (small.0, fill-slots rounds (i + 1) desc id small.1) refl

-- After any number of interruptions, `select` returns for a valid set that is not empty, and whose
-- descriptors are below 1024: `hs_poll` then returns the value of the first entry of which the
-- descriptor is among those that `select` leaves, if there is one.
pub poll-first_set :
    (set : DescriptorSet) (timeout : ℤ) (start : ℕ) (kernel : List ℤ → List (Turn (List ℤ)))
    (before after : List (Turn (List ℤ))) (now : ℕ) (fds : List ℤ) (v : ℤ)
    → IsValid set
    → 0 < set.count
    → All (λ e. is_large e.0 ≡ false) (entries set)
    → kernel (map (λ e. e.0) (entries set))
      ≡ before ++ record { now = now; reply = ready fds } ∷ after
    → All (λ t. interrupted t ≡ true) before
    → first_set (entries set) fds ≡ some v
    → poll set timeout start kernel ≡ some (returned v)
unfolding poll conclude
poll-first_set set timeout start kernel before after now fds v valid some_entry small answers all
      found =
    rw
      (
        lt→ltb 0 set.count some_entry,
        le→leb set.count capacity valid.count,
        fill-slots set.count 0 set.desc set.id small,
        answers,
        restart_poll-end timeout start before (record { now = now; reply = ready fds }) after all
            refl,
        conclude,
        find_set-first set.count 0 fds set.desc set.id,
        found,
      )
      refl
