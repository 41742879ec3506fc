-- ===== src/Darwin/HidReports.antt =====
-- The reports of src/hid_darwin.c. A thread of the library receives them, and `hs_hid_read` hands
-- them out; both hold the handle's lock while they change it, so each is one step, but the thread
-- writes to the pipe behind the lock, for which Wakeup has a step of its own. The thread's life is
-- not modelled, and neither is a write to a full pipe. An error is the code that `hs_error` returns.
pub mod Queue
pub mod Wakeup
use libhs.Base.{
  ℕ, zero, suc, ◌+◌, ◌-◌, ◌%◌, Bool, true, false, not, Option, none, some, List, [], ◌∷◌, ◌++◌, ℤ,
  pos, is_neg, if◌then◌else◌, ltb, ◌==◌, ◌>>=◌, ◌>>◌, assert, length, take, drop,
}
use libhs.ErrorCode
use libhs.Posix.{Turn}
use libhs.Posix.Io.{Wait, wait, still, proceed, finish, Io, blocked, returned, fill}

-- `struct hs_handle`: whether `hid` is not null, `size`, the bytes in `pipe`, `thread_ret`, the
-- `data` of `reports`, the count of `free_reports`, whose data is written before it is read, and
-- `allocated_reports`.
pub record Handle : Type 0 where
  pub attached : Bool
  pub size : ℕ
  pub pipe : ℕ
  pub thread_ret : ℤ
  pub reports : List (List ℕ)
  pub free_reports : ℕ
  pub allocated_reports : ℕ

-- `_hs_list_is_empty(&h->reports)`
abbrev pub is_empty : List (List ℕ) → Bool
is_empty [] = true
is_empty (r ∷ rs) = false

-- `fire_device_event` and `reset_device_event`; a read of the empty pipe does not wait.
abbrev pub fire_device_event : Handle → Handle
fire_device_event h = record h { pipe = h.pipe + 1 }

abbrev pub reset_device_event : Handle → Handle
reset_device_event h = record h { pipe = h.pipe - 1 }

-- `hid_removal_callback`
unfoldable pub removal : Handle → Handle
removal h = fire_device_event (record h { attached = false })

-- The memory for a report: there is none, or the handle that gave it.
pub data Memory : Type 0 where
  full : Memory
  failed : Memory
  got : Handle → Memory

unfoldable pub get_memory : (allocated : Bool) → (free : ℕ) → Handle → Memory
get_memory allocated (suc free) h = got (record h { free_reports = free })
get_memory allocated zero h =
    if h.allocated_reports == 64
    then full
    else if allocated
    then got (record h { allocated_reports = h.allocated_reports + 1 })
    else failed

-- The report is put at the end; a failure is left for the reader.
unfoldable pub store : Memory → (report_id : ℕ) → (report_data : List ℕ) → Handle → Handle
store full report_id report_data h = h
store failed report_id report_data h = record h { thread_ret = ErrorCode.memory }
store (got h') report_id report_data h = record h' {
  reports = h'.reports ++ (report_id % 256 ∷ take h'.size report_data) ∷ [];
}

-- `hid_report_callback`; `input` says that it is an input report, `allocated` is the answer of
-- `calloc`.
unfoldable pub report_callback :
    (allocated input : Bool) → (report_id : ℕ) → (report_data : List ℕ) → Handle → Handle
unfolding get_memory store
report_callback allocated input report_id report_data h =
    if input
    then (let h' = store (get_memory allocated h.free_reports h) report_id report_data h in
        if is_empty h.reports then fire_device_event h' else h')
    else h

-- `if (_hs_list_is_empty(&h->reports)) reset_device_event(h);`
unfoldable pub reset : List (List ℕ) → Handle → Handle
reset [] h = reset_device_event h
reset (r ∷ rs) h = h

-- Under the lock, without an error of the thread: the result, the bytes for the caller's buffer of
-- `size` bytes, and the handle.
unfoldable pub hand_out : (size : ℕ) → List (List ℕ) → Handle → ℤ × List ℕ × Handle
unfolding reset
hand_out size [] h = (pos 0, [], h)
hand_out size (r ∷ rs) h =
    let bytes = take size r in
    (
      pos (length bytes),
      bytes,
      reset rs (record h { reports = rs; free_reports = h.free_reports + 1 }),
    )

-- Under the lock.
unfoldable pub read_locked : (size : ℕ) → Handle → ℤ × List ℕ × Handle
unfolding hand_out reset
read_locked size h =
    if is_neg h.thread_ret
    then (h.thread_ret, [], reset h.reports (record h { thread_ret = pos 0 }))
    else hand_out size h.reports h

read_after : Wait → (buf : List ℕ) → Handle → Io (List ℕ × Handle)
unfolding read_locked
read_after still buf h = blocked
read_after (finish r) buf h = returned r (buf, h)
read_after proceed buf h =
    let (r, bytes, h') = read_locked (length buf) h in returned r (fill bytes buf, h')

-- `hs_hid_read`; the thread may run while the wait lasts, so `h'` is the handle behind it.
unfoldable pub read :
    (timeout : ℤ)
    → (start : ℕ) → List (Turn (Unit {0}))
    → (h h' : Handle) → (buf : List ℕ) → Option (Io (List ℕ × Handle))
unfolding read_after
read timeout start turns h h' buf = do
  assert (not (length buf == 0))
  some (
      if h.attached
      then read_after (wait timeout start turns) buf h'
      else returned ErrorCode.io (buf, h'))

-- `send_report`, for `hs_hid_write` and `hs_hid_send_feature_report`; `kernel` answers
-- `IOHIDDeviceSetReport` for a number and the bytes behind it.
send_bytes : (kernel : ℕ → List ℕ → Bool) → (buf : List ℕ) → ℤ
send_bytes kernel [] = pos 0
send_bytes kernel (b ∷ []) = pos 0
send_bytes kernel (zero ∷ b ∷ bytes) =
    if kernel 0 (b ∷ bytes) then pos (length (b ∷ bytes) + 1) else ErrorCode.system
send_bytes kernel (suc n ∷ b ∷ bytes) =
    if kernel (suc n) (suc n ∷ b ∷ bytes)
    then pos (length (suc n ∷ b ∷ bytes))
    else ErrorCode.system

unfoldable pub send_report : (kernel : ℕ → List ℕ → Bool) → Handle → (buf : List ℕ) → ℤ
unfolding send_bytes
send_report kernel h buf = if h.attached then send_bytes kernel buf else ErrorCode.io

-- `hs_hid_get_feature_report`; `kernel` answers `IOHIDDeviceGetReport` for a number and the memory
-- behind the buffer's first byte, with `len` and that memory.
unfoldable pub get_feature_report :
    (kernel : ℕ → List ℕ → Option (ℕ × List ℕ))
    → (report_id : ℕ) → (buf : List ℕ) → Option (ℤ × List ℕ)
get_feature_report kernel report_id buf =
    assert (not (length buf == 0))
    >> some (elim (kernel report_id (drop 1 buf)) [
      | none ↦ (ErrorCode.system, buf)
      | some (len, filled) ↦ (pos len, report_id ∷ filled)
    ])
