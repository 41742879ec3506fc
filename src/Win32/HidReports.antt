-- ===== src/Win32/HidReports.antt =====
-- src/hid_win32.c: reading, writing and the feature reports.
use libhs.Base.{
  ℕ, suc, zero, ◌+◌, Bool, true, false, not, Option, none, some, List, [], ℤ, pos, negsuc,
  if◌then◌else◌, ltb, ◌==◌, ◌>>◌, assert, length, take, set,
}
use libhs.ErrorCode
use libhs.Win32.{Handle, start_async_read, finalize_async_read}
use libhs.Win32.SerialPort.{Turn, Outcome, restart}

-- A report came: the copy, cut at `size`, and the next read, which sets `len`.
give : (started : Bool) → (size have : ℕ) → Handle → Outcome
give started size have h =
    let n = if ltb have size then have else size in
    let (r, h') = start_async_read started h in (pos n, take n h.buf, record h' { len = r })

-- Behind the restart, at the result of the pending read, which sets `len`.
finish : Turn → (size : ℕ) → ℤ → Handle → Outcome
unfolding give
finish turn size (negsuc n) h = (negsuc n, [], record h { len = negsuc n })
finish turn size (pos zero) h = (pos 0, [], record h { len = pos 0 })
finish turn size (pos (suc n)) h = give turn.started size (suc n) h

-- Behind `if (h->len < 0) { ... }`, by `h->len`.
read_from : Turn → (size : ℕ) → ℤ → Handle → Outcome
unfolding finish
read_from turn size (negsuc n) h = (negsuc n, [], h)
read_from turn size (pos n) h =
    let (r, h') = finalize_async_read turn.completion h in finish turn size r h'

-- `hs_hid_read`, for a buffer of `size` bytes.
unfoldable pub read : Turn → (size : ℕ) → Handle → Option Outcome
unfolding read_from
read turn size h = do
  assert (not (size == 0))
  let h' = restart turn.restarted h.len h
  some (read_from turn size h'.len h')

-- `hs_hid_write`: `accepted` says that `WriteFile` succeeds or is pending, `written` is the answer of
-- `GetOverlappedResult`.
unfoldable pub write : (accepted : Bool) → (written : Option ℕ) → (size : ℕ) → ℤ
write accepted written zero = pos 0
write accepted written (suc zero) = pos 0
write false written (suc (suc size)) = ErrorCode.io
write true none (suc (suc size)) = ErrorCode.io
write true (some n) (suc (suc size)) = pos n

-- `hs_hid_get_feature_report`, likewise; `kernel` answers with the count of bytes, which leaves the
-- report's number out, and the buffer.
unfoldable pub get_feature_report :
    (accepted : Bool)
    → (kernel : List ℕ → Option (ℕ × List ℕ)) → (report_id : ℕ) → (buf : List ℕ)
    → Option (ℤ × List ℕ)
get_feature_report accepted kernel report_id buf =
    let buf' = set buf 0 report_id in
    assert (not (length buf == 0))
    >> some (
        if accepted
        then elim (kernel buf') [
          | none ↦ (ErrorCode.io, buf')
          | some (len, filled) ↦ (pos (len + 1), filled)
        ]
        else (ErrorCode.io, buf'))

-- `hs_hid_send_feature_report`; `accepted` is the answer of `HidD_SetFeature`.
unfoldable pub send_feature_report : (accepted : Bool) → (size : ℕ) → ℤ
send_feature_report accepted zero = pos 0
send_feature_report accepted (suc zero) = pos 0
send_feature_report accepted (suc (suc size)) =
    if accepted then pos (suc (suc size)) else ErrorCode.io
