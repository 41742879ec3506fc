-- ===== src/Darwin/HidReports/Wakeup.antt =====
-- A reader that waits on the pipe is woken. The thread writes to the pipe after it has given up the
-- lock, so that a reader can come between.
use libhs.Base.{
  ℕ, ◌+◌, ◌≤◌, ◌≡◌, refl, Bool, true, false, List, [], ◌∷◌, pos, is_neg, if◌then◌else◌, Bool-cases,
  inl, inr, zero, suc, arith,
}
use libhs.Darwin.HidReports.{
  Handle, is_empty, fire_device_event, removal, get_memory, store, reset, hand_out, read_locked,
}

-- One step of the thread, or of a reader, whatever the memory and the reports are; the Boolean says
-- whether the thread has still to write to the pipe.
pub data Step : Handle → Bool → Handle → Bool → Type 0 where
  receive :
      (allocated : Bool) (report_id : ℕ) (report_data : List ℕ) (h : Handle)
      → Step h false
          (store (get_memory allocated h.free_reports h) report_id report_data h)
          (is_empty h.reports)
  fire : (h : Handle) → Step h true (fire_device_event h) false
  remove : (h : Handle) → Step h false (removal h) false
  take_report : (size : ℕ) (h : Handle) (due : Bool) → Step h due (read_locked size h).2 due

pub data Reach (start : Handle) : Handle → Bool → Type 0 where
  here : Reach start start false
  next :
      {h h' : Handle} {due due' : Bool}
      → Reach start h due
      → Step h due h' due'
      → Reach start h' due'

-- A report or an error waits for a reader.
abbrev pub waits : Handle → Bool
waits h = if is_empty h.reports then is_neg h.thread_ret else true

-- The handle as it is opened.
abbrev pub opened : (size : ℕ) → Handle
opened size = record {
  attached = true;
  size = size;
  pipe = 0;
  thread_ret = pos 0;
  reports = [];
  free_reports = 0;
  allocated_reports = 0;
}

abbrev Awake : Handle → Bool → Type 0
Awake h due = waits h ≡ true → due ≡ false → 1 ≤ h.pipe

store-pipe :
    (free : ℕ) (allocated : Bool) (report_id : ℕ) (report_data : List ℕ) (h : Handle)
    → (store (get_memory allocated free h) report_id report_data h).pipe ≡ h.pipe
unfolding get_memory store
store-pipe (suc free) allocated report_id report_data h = refl
store-pipe zero allocated report_id report_data h = ground arith

-- With an empty queue the thread has a byte to write; otherwise the pipe holds one already.
receive-Awake :
    (rs : List (List ℕ)) (h h' : Handle)
    → h.reports ≡ rs
    → h'.pipe ≡ h.pipe
    → Awake h false
    → Awake h' (is_empty rs)
receive-Awake [] h h' e p a w due = absurd (cc)
receive-Awake (r ∷ rs) h h' e p a w due = rw p (a (rw e refl) refl)

-- Nothing waits behind the reset of the pipe, and the pipe is left alone while something does.
reset-Awake :
    (rs : List (List ℕ)) (h : Handle)
    → h.reports ≡ rs
    → is_neg h.thread_ret ≡ false
    → 1 ≤ h.pipe
    → Awake (reset rs h) false
unfolding reset
reset-Awake [] h e ok p w d = let idle : waits h ≡ false = rw (e, ok) refl in absurd (cc)
reset-Awake (r ∷ rs) h e ok p w d = p

hand_out-Awake :
    (size : ℕ) (rs : List (List ℕ)) (h : Handle)
    → h.reports ≡ rs
    → is_neg h.thread_ret ≡ false
    → Awake h false
    → Awake (hand_out size rs h).2 false
unfolding hand_out
hand_out-Awake zero [] h e ok a = a
hand_out-Awake (suc size) [] h e ok a = a
hand_out-Awake size (r ∷ rs) h e ok a =
    let waiting : waits h ≡ true = rw e refl in
    reset-Awake rs (record h { reports = rs; free_reports = h.free_reports + 1 }) refl ok
      (a waiting refl)

read_locked-Awake :
    (size : ℕ) (due : Bool) (h : Handle) → Awake h due → Awake (read_locked size h).2 due
unfolding read_locked
read_locked-Awake size true h a = λ w d. absurd (cc)
read_locked-Awake size false h a = elim (Bool-cases (is_neg h.thread_ret)) [
  | inl failing ↦
      let waiting : waits h ≡ true = ground (arith, failing) in
      rw failing
        (reset-Awake h.reports (record h { thread_ret = pos 0 }) refl refl (a waiting refl))
  | inr ok ↦ rw ok (hand_out-Awake size h.reports h refl ok a)
]

Step-Awake : {h h' : Handle} {due due' : Bool} → Step h due h' due' → Awake h due → Awake h' due'
unfolding removal
Step-Awake (receive allocated report_id report_data h) a =
    receive-Awake h.reports h
      (store (get_memory allocated h.free_reports h) report_id report_data h) refl
      (store-pipe h.free_reports allocated report_id report_data h) a
Step-Awake (fire h) a = λ w d. omega arith
Step-Awake (remove h) a = λ w d. omega arith
Step-Awake (take_report size h due) a = read_locked-Awake size due h a

Reach-Awake : {h h' : Handle} {due : Bool} → Awake h false → Reach h h' due → Awake h' due
Reach-Awake a here = a
Reach-Awake a (next r s) = Step-Awake s (Reach-Awake a r)

-- However incoming reports, failed allocations, the removal of the device and readers follow each
-- other, while a report or an error waits and the thread has no byte left to write, the pipe holds
-- a byte, so that a poll of it does not wait.
pub waits-pipe : (size : ℕ) (h : Handle) → Reach (opened size) h false → waits h ≡ true → 1 ≤ h.pipe
waits-pipe size h r w = Reach-Awake (λ w d. absurd (cc)) r w refl
