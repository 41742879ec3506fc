-- ===== src/Hid/Reports.antt =====
-- What the callers of `hs_hid_read` and of the feature reports get.
use libhs.Base.{
  ℕ, suc, ◌+◌, ◌-◌, ◌≤◌, ◌≡◌, refl, Bool, true, false, some, List, [], ◌∷◌, ◌++◌, ℤ, pos, ltb, ◌==◌,
  length, take, drop, set, arith, Bool-cases, inl, inr, All, add-one, le→ltb,
}
use libhs.Posix.{Turn}
use libhs.Posix.Io.{Reply, success, returned, restart-append, is_interrupted, wait, proceed, fill}
use libhs.Hid.{
  Handle, conclude, without_first, with_zero, grow, read_now, read_after, read, received,
  get_feature_report,
}

-- The bytes that the kernel has for a report: a kernel with the bug puts one more before a report
-- with a number.
abbrev pub raw : (numbered bug : Bool) → (extra : ℕ) → List ℕ → List ℕ
raw false bug extra report = report
raw true false extra report = report
raw true true extra report = extra ∷ report

-- The report as the interface has it: it starts with its number, or with 0.
abbrev pub with_number : (numbered : Bool) → List ℕ → List ℕ
with_number true report = report
with_number false report = 0 ∷ report

grow-allocated : (size : ℕ) (h : Handle) → (grow true size h).0 ≡ true
unfolding grow
grow-allocated size h = elim (Bool-cases (ltb h.buf_size (size + 1))) [
  | inl e ↦ rw e refl
  | inr e ↦ rw e refl
]

size-pred : (n : ℕ) → suc (suc n) - 1 ≡ suc n
size-pred n = omega arith

nonempty : (n : ℕ) → (suc (suc n) == 0) ≡ false
nonempty n = ground arith

read_now-report :
    (bug numbered : Bool) (kernel : ℕ → Reply (List ℕ)) (h : Handle) (x y : ℕ) (buf : List ℕ)
    (extra first : ℕ) (report : List ℕ)
    → ((n : ℕ) → kernel n ≡ success (take n (raw numbered bug extra (first ∷ report))))
    → let whole = take (length (x ∷ y ∷ buf)) (with_number numbered (first ∷ report)) in
      (h' : Handle) × (read_now numbered bug true kernel h (x ∷ y ∷ buf)
        ≡ returned (pos (length whole)) (h', fill whole (x ∷ y ∷ buf)))
unfolding read_now conclude without_first with_zero
read_now-report bug false kernel h x y buf extra first report k =
    (h, rw (size-pred (length buf), k (suc (length buf))) refl)
read_now-report false true kernel h x y buf extra first report k =
    (h, rw (k (suc (suc (length buf)))) refl)
read_now-report true true kernel h x y buf extra first report k =
    let size = suc (suc (length buf)) in
    ((grow true size h).1, rw (grow-allocated size h, k (size + 1), add-one) refl)

-- If the wait is over, memory can be allocated, the caller's buffer takes at least two bytes and the
-- kernel has a report that is not empty, then `hs_hid_read` puts the report, with its number or 0
-- in front, at the start of the buffer, cut at the buffer's size, leaves the rest of the buffer and
-- returns how many bytes it put; a kernel with the bug makes no difference.
pub read-report :
    (bug : Bool) (kernel : ℕ → Reply (List ℕ)) (timeout : ℤ) (start : ℕ)
    (turns : List (Turn (Unit {0}))) (h : Handle) (buf : List ℕ) (extra first : ℕ) (report : List ℕ)
    → wait timeout start turns ≡ proceed
    → 2 ≤ length buf
    → ((n : ℕ)
        → kernel n ≡ success (take n (raw h.report.numbered_reports bug extra (first ∷ report))))
    → let whole = take (length buf) (with_number h.report.numbered_reports (first ∷ report)) in
      (h' : Handle) × (read bug true kernel timeout start turns h buf
        ≡ some (returned (pos (length whole)) (h', fill whole buf)))
unfolding read read_after
read-report bug kernel timeout start turns h [] extra first report w size k = elim size [ ]
read-report bug kernel timeout start turns h (x ∷ []) extra first report w size k =
    absurd (omega (arith, size))
read-report bug kernel timeout start turns h (x ∷ y ∷ buf) extra first report w size k =
    let (h', done) =
      read_now-report bug h.report.numbered_reports kernel h x y buf extra first report k in
    (h', rw (read, nonempty (length buf), w, done) refl)

-- Let the caller's buffer take at least two bytes, and let the kernel, asked about the memory behind
-- the buffer's first byte with the report's number in front, put `bytes` there, after any number of
-- interruptions. Then `hs_hid_get_feature_report` leaves the number and those bytes at the start of
-- the buffer, and returns how many bytes that is.
pub get_feature_report-number :
    (kernel : List ℕ → List (Reply (List ℕ))) (report_id : ℕ) (buf bytes : List ℕ)
    (before after : List (Reply (List ℕ)))
    → 2 ≤ length buf
    → All (λ r. is_interrupted r ≡ true) before
    → kernel (drop 1 (set buf 1 report_id)) ≡ before ++ success bytes ∷ after
    → get_feature_report kernel report_id buf
      ≡ some (
          returned
            (pos (length (report_id ∷ bytes)))
            (fill (report_id ∷ bytes) (set buf 1 report_id)))
unfolding get_feature_report received
get_feature_report-number kernel report_id [] bytes before after size all k = elim size [ ]
get_feature_report-number kernel report_id (x ∷ []) bytes before after size all k =
    absurd (omega (arith, size))
get_feature_report-number kernel report_id (x ∷ y ∷ buf) bytes before after size all k =
    rw
      (
        nonempty (length buf),
        le→ltb (suc (suc (length buf))) 2 size,
        k,
        restart-append before (success bytes) after all refl,
        add-one,
      )
      refl
