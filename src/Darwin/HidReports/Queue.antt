-- ===== src/Darwin/HidReports/Queue.antt =====
-- While memory lasts, the reports are a queue of at most 64: a report that comes then is dropped.
use libhs.Base.{
  ℕ, zero, suc, ◌+◌, ◌%◌, ◌≤◌, ◌≡◌, refl, ap, ◌∙◌, Bool, true, false, List, [], ◌∷◌, ◌++◌, ℤ, pos,
  is_neg, if◌then◌else◌, ltb, ◌==◌, length, length-append, take, arith, Bool-cases, inl, inr,
}
use libhs.Darwin.HidReports.{
  Handle, is_empty, fire_device_event, get_memory, store, report_callback, reset, hand_out,
  read_locked,
}

-- Each allocated report is either waiting or free.
pub record IsValid (h : Handle) : Type 0 where
  pub counted : h.allocated_reports ≡ length h.reports + h.free_reports
  pub bounded : h.allocated_reports ≤ 64

-- The specification: a queue of at most 64 reports.
abbrev pub push : List ℕ → List (List ℕ) → List (List ℕ)
push r q = if ltb (length q) 64 then q ++ r ∷ [] else q

abbrev pub pop : List (List ℕ) → List ℕ × List (List ℕ)
pop [] = ([], [])
pop (r ∷ q) = (r, q)

-- What a step of the handle keeps, with the queue that it leaves.
pub record Leaves (h h' : Handle) (q : List (List ℕ)) : Type 0 where
  pub queue : h'.reports ≡ q
  pub valid : IsValid h'
  pub same_size : h'.size ≡ h.size
  pub same_ret : h'.thread_ret ≡ h.thread_ret

-- The event does not show in the queue.
fire-Leaves :
    (b : Bool) (h h' : Handle) (q : List (List ℕ))
    → Leaves h h' q
    → Leaves h (if b then fire_device_event h' else h') q
fire-Leaves true h h' q l = record {
  queue = l.queue;
  valid = record { counted = l.valid.counted; bounded = l.valid.bounded };
  same_size = l.same_size;
  same_ret = l.same_ret;
}
fire-Leaves false h h' q l = l

store-Leaves :
    (free : ℕ) (report_id : ℕ) (bytes : List ℕ) (h : Handle)
    → h.free_reports ≡ free
    → IsValid h
    → Leaves h
        (store (get_memory true free h) report_id bytes h)
        (push (report_id % 256 ∷ take h.size bytes) h.reports)
unfolding get_memory store
store-Leaves (suc free) report_id bytes h e v =
    let r = report_id % 256 ∷ take h.size bytes in
    let room : ltb (length h.reports) 64 ≡ true = ground (arith, v.counted, v.bounded) in
    record {
      queue = rw room;
      valid = record {
        counted = omega (arith, v.counted, length-append h.reports (r ∷ []));
        bounded = v.bounded;
      };
      same_size = refl;
      same_ret = refl;
    }
store-Leaves zero report_id bytes h e v = elim (Bool-cases (h.allocated_reports == 64)) [
  | inl all ↦
      let room : ltb (length h.reports) 64 ≡ false = ground (arith, v.counted) in
      rw all (record { queue = rw room; valid = v; same_size = refl; same_ret = refl })
  | inr more ↦
      let r = report_id % 256 ∷ take h.size bytes in
      let room : ltb (length h.reports) 64 ≡ true = ground (arith, v.counted, v.bounded) in
      rw more (record {
        queue = rw room;
        valid = record {
          counted = omega (arith, v.counted, length-append h.reports (r ∷ []));
          bounded = ground (arith, v.bounded);
        };
        same_size = refl;
        same_ret = refl;
      })
]

pub report_callback-push :
    (report_id : ℕ) (bytes : List ℕ) (h : Handle)
    → IsValid h
    → Leaves h
        (report_callback true true report_id bytes h)
        (push (report_id % 256 ∷ take h.size bytes) h.reports)
unfolding report_callback
report_callback-push report_id bytes h v =
    fire-Leaves (is_empty h.reports) h (store (get_memory true h.free_reports h) report_id bytes h)
      _ (store-Leaves h.free_reports report_id bytes h refl v)

reset-Leaves : (rs q : List (List ℕ)) (h h' : Handle) → Leaves h h' q → Leaves h (reset rs h') q
unfolding reset
reset-Leaves [] q h h' l = record {
  queue = l.queue;
  valid = record { counted = l.valid.counted; bounded = l.valid.bounded };
  same_size = l.same_size;
  same_ret = l.same_ret;
}
reset-Leaves (r ∷ rs) q h h' l = l

hand_out-pop :
    (size : ℕ) (rs : List (List ℕ)) (h : Handle)
    → h.reports ≡ rs
    → IsValid h
    → let o = hand_out size rs h in
      (o.0 ≡ pos (length (take size (pop rs).0)))
      × (o.1 ≡ take size (pop rs).0)
      × Leaves h o.2 (pop rs).1
unfolding hand_out
hand_out-pop zero [] h e v =
    (refl, refl, record { queue = e; valid = v; same_size = refl; same_ret = refl })
hand_out-pop (suc size) [] h e v =
    (refl, refl, record { queue = e; valid = v; same_size = refl; same_ret = refl })
hand_out-pop size (r ∷ rs) h e v = (
  refl,
  refl,
  reset-Leaves rs rs h (record h { reports = rs; free_reports = h.free_reports + 1 })
      (record {
        queue = refl;
        valid = record { counted = omega (arith, v.counted, ap length e); bounded = v.bounded };
        same_size = refl;
        same_ret = refl;
      }),
)

read_locked-pop :
    (size : ℕ) (h : Handle)
    → is_neg h.thread_ret ≡ false
    → IsValid h
    → let o = read_locked size h in
      (o.0 ≡ pos (length (take size (pop h.reports).0)))
      × (o.1 ≡ take size (pop h.reports).0)
      × Leaves h o.2 (pop h.reports).1
unfolding read_locked
read_locked-pop size h ok v = rw ok (hand_out-pop size h.reports h refl v)

-- A report comes, or a reader with a buffer of some size takes one.
pub data Event : Type 0 where
  comes : (report_id : ℕ) → (bytes : List ℕ) → Event
  taken : (size : ℕ) → Event

-- The results of the readers, in order, and the handle behind them.
unfoldable pub run : List Event → Handle → List (ℤ × List ℕ) × Handle
run [] h = ([], h)
run (comes report_id bytes ∷ es) h = run es (report_callback true true report_id bytes h)
run (taken size ∷ es) h =
    let (r, bytes, h') = read_locked size h in
    let (rest, h'') = run es h' in ((r, bytes) ∷ rest, h'')

-- The same on the specification; `max` is the size of the handle's reports.
abbrev pub run_queue : (max : ℕ) → List Event → List (List ℕ) → List (ℤ × List ℕ) × List (List ℕ)
run_queue max [] q = ([], q)
run_queue max (comes report_id bytes ∷ es) q =
    run_queue max es (push (report_id % 256 ∷ take max bytes) q)
run_queue max (taken size ∷ es) q =
    let bytes = take size (pop q).0 in
    let rest = run_queue max es (pop q).1 in ((pos (length bytes), bytes) ∷ rest.0, rest.1)

run-run_queue :
    (es : List Event) (max : ℕ) (q : List (List ℕ)) (h : Handle)
    → h.size ≡ max
    → h.reports ≡ q
    → IsValid h
    → is_neg h.thread_ret ≡ false
    → ((run es h).0 ≡ (run_queue max es q).0)
      × ((run es h).1.reports ≡ (run_queue max es q).1)
      × IsValid (run es h).1
unfolding run
run-run_queue [] max q h s e v ok = (refl, e, v)
run-run_queue (comes report_id bytes ∷ es) max q h s e v ok =
    let l = report_callback-push report_id bytes h v in
    let next = l.queue ∙ (λ i. push (report_id % 256 ∷ take (s i) bytes) (e i)) in
    run-run_queue es max _ (report_callback true true report_id bytes h) (l.same_size ∙ s) next
      l.valid (ap is_neg l.same_ret ∙ ok)
run-run_queue (taken size ∷ es) max q h s e v ok =
    let (counted, bytes, l) = read_locked-pop size h ok v in
    let (results, left, valid) =
      run-run_queue es max _ (read_locked size h).2 (l.same_size ∙ s)
        (l.queue ∙ ap (λ q. (pop q).1) e) l.valid (ap is_neg l.same_ret ∙ ok) in
    let given = bytes ∙ ap (λ q. take size (pop q).0) e in
    let number = counted ∙ ap (λ q. pos (length (take size (pop q).0))) e in
    ((λ i. (number i, given i) ∷ results i), left, valid)

-- While no allocation fails, on a valid handle without a pending error, any sequence of incoming
-- reports and reads gives the results of a queue of at most 64 reports, each with its number in
-- front and cut at the handle's size and at the reader's, and leaves the queue's reports waiting.
pub run-queue :
    (es : List Event) (h : Handle)
    → IsValid h
    → is_neg h.thread_ret ≡ false
    → ((run es h).0 ≡ (run_queue h.size es h.reports).0)
      × ((run es h).1.reports ≡ (run_queue h.size es h.reports).1)
      × IsValid (run es h).1
run-queue es h v ok = run-run_queue es h.size h.reports h refl refl v ok
