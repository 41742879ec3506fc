-- ===== src/Platform/Tests.antt =====
-- The theorems of src/platform.c and src/platform_posix.c at small inputs.
use libhs.Base.{
  ℕ, ◌+◌, ◌-◌, ◌/◌, ◌≤◌, ◌≡◌, refl, ◌↔◌, true, false, some, List, [], ◌∷◌, pos, replicate, set,
  arith,
}
use libhs.Posix.{Turn, eintr, failed, ready}
use libhs.Platform.Timeout.{millis, adjust_timeout, adjust_timeout-millis-late}
use libhs.Platform.LinuxVersion.{
  Release, Before, release_2_6_28, release_2_6_34, detect_kernel26_byte_bug,
  detect_kernel26_byte_bug_iff,
}
use libhs.Platform.DescriptorSet.{DescriptorSet, remove}
use libhs.Platform.DescriptorSet.Entries.{IsValid, entries, remove-filter}
use libhs.Platform.Poll.{Revents, quiet, returned, poll}
use libhs.Platform.Poll.FirstReady.{poll-first_ready}

-- Half a second after its start, a timeout of half a second has 450 milliseconds left.
adjust_timeout-millis-late_example :
    (r : ℕ) × (adjust_timeout (pos 500) (millis 9 0) (millis 9 500000000) ≡ pos r)
    × (r ≤ 500 - (500000000 - 0) / 1000000 / 10)
    × (500 ≤ r + (500000000 - 0) / 1000000 / 10 + 1)
adjust_timeout-millis-late_example =
    adjust_timeout-millis-late 500 9 0 500000000 (omega arith) (omega arith) (omega arith)
      (omega arith)

abbrev release_4_1_2 : Release
release_4_1_2 = record { major = 4; minor = 1; release = 2; patch = 0 }

detect_kernel26_byte_bug_iff_example :
    let (bug, s) =
      detect_kernel26_byte_bug (record { init = false; bug = false; version = 0 }) release_2_6_28 in
    ((bug ≡ true)
      ↔ ((¬ Before release_2_6_28 release_2_6_28) × Before release_2_6_28 release_2_6_34))
    × (detect_kernel26_byte_bug s release_4_1_2 ≡ (bug, s))
detect_kernel26_byte_bug_iff_example =
    detect_kernel26_byte_bug_iff release_2_6_28 release_4_1_2 (omega arith)

-- Descriptors 4, 5 and 6 with the values 1, 2 and 1.
abbrev three : DescriptorSet
three = record {
  count = 3;
  desc = set (set (set (replicate 64 (pos 0)) 0 (pos 4)) 1 (pos 5)) 2 (pos 6);
  id = set (set (set (replicate 64 (pos 0)) 0 (pos 1)) 1 (pos 2)) 2 (pos 1);
}

three-IsValid : IsValid three
three-IsValid = record { desc = refl; id = refl; count = omega arith }

remove-filter_example :
    IsValid (remove three (pos 1)) × (entries (remove three (pos 1)) ≡ (pos 5, pos 2) ∷ [])
remove-filter_example = remove-filter three (pos 1) three-IsValid

abbrev hung_up : Revents
hung_up = record quiet { pollhup = true }

-- One interruption, then the second and third descriptor are ready.
abbrev answers : List (Turn (List Revents))
answers =
    record { now = 10; reply = failed eintr }
    ∷ record { now = 20; reply = ready (quiet ∷ hung_up ∷ hung_up ∷ []) }
    ∷ []

poll-first_ready_example : poll three (pos 50) 5 (λ _. answers) ≡ some (returned (pos 2))
poll-first_ready_example =
    poll-first_ready three (pos 50) 5 (λ _. answers)
      (record { now = 10; reply = failed eintr } ∷ []) [] 20 (quiet ∷ hung_up ∷ hung_up ∷ [])
      (pos 2) three-IsValid (omega arith) refl (refl, tt) refl refl
