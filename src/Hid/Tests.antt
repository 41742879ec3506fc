-- ===== src/Hid/Tests.antt =====
-- The HID theorems at concrete inputs.
use libhs.Base.{ℕ, ◌≡◌, refl, true, some, List, [], ◌∷◌, pos, take, arith}
use libhs.Posix.{eintr}
use libhs.Posix.Io.{Reply, failure, success, returned, wait}
use libhs.HidDescriptor.{no_usage}
use libhs.Hid.{Handle, read}
use libhs.Hid.Reports.{read-report}

abbrev handle : Handle
handle = record { report = record no_usage { numbered_reports = true }; buf_size = 0 }

-- A kernel with the bug, and a report longer than the buffer.
abbrev kernel : ℕ → Reply (List ℕ)
kernel n = success (take n (99 ∷ 3 ∷ 17 ∷ 18 ∷ 19 ∷ []))

abbrev buffer : List ℕ
buffer = 0 ∷ 0 ∷ 0 ∷ []

read-report_example :
    (h' : Handle) × (read true true kernel (pos 0) 0 [] handle buffer
      ≡ some (returned (pos 3) (h', 3 ∷ 17 ∷ 18 ∷ [])))
unfolding wait
read-report_example =
    read-report true kernel (pos 0) 0 [] handle buffer 99 3 (17 ∷ 18 ∷ 19 ∷ []) refl (omega arith)
      (λ n. refl)

abbrev answers : List ℕ → List (Reply (List ℕ))
answers request = failure eintr ∷ success (take 2 request) ∷ []
