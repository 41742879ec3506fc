-- ===== src/Hid.antt =====
-- The reports of src/hid_linux.c: `hs_hid_read`, `hs_hid_write` and the feature reports. The
-- handle's descriptor and path only reach the kernel and the messages, so the kernel's answers stand
-- in their place; that the pointers are not null and the device is a HID one are conditions of the
-- callers. An error is the code that `hs_error` returns.
pub mod Reports
mod Tests
use libhs.Base.{
  ℕ, zero, suc, ◌+◌, ◌-◌, Bool, true, false, not, Option, none, some, List, [], ◌∷◌, ℤ, pos,
  if◌then◌else◌, ltb, ◌==◌, ◌>>=◌, ◌>>◌, assert, length, set, drop,
}
use libhs.ErrorCode
use libhs.Posix.{Turn}
use libhs.Posix.Io.{
  Reply, failure, success, Io, blocked, returned, restart, read_error, write_error, Wait, wait,
  still, proceed, finish, fill,
}
use libhs.HidDescriptor.{Usage}

-- `struct hs_handle`, with the size of the buffer `buf` in the place of the buffer: what it holds
-- is copied out in the call that wrote it.
pub record Handle : Type 0 where
  pub report : Usage
  pub buf_size : ℕ

-- What `hs_hid_read` makes of the answer of `read`, with the bytes that end up at the start of the
-- caller's buffer.
conclude : Handle → (buf : List ℕ) → Reply (List ℕ) → Io (Handle × List ℕ)
conclude h buf (failure e) = returned (read_error e) (h, buf)
conclude h buf (success bytes) = returned (pos (length bytes)) (h, fill bytes buf)

-- `memcpy(buf, h->buf + 1, (size_t)--r)`
without_first : Reply (List ℕ) → Reply (List ℕ)
without_first (failure e) = failure e
without_first (success []) = success []
without_first (success (b ∷ bytes)) = success bytes

-- `buf[0] = 0; r++;`
with_zero : Reply (List ℕ) → Reply (List ℕ)
with_zero (failure e) = failure e
with_zero (success []) = success []
with_zero (success (b ∷ bytes)) = success (0 ∷ b ∷ bytes)

-- The buffer for `size + 1` bytes; `allocated` is the answer of `malloc`.
grow : (allocated : Bool) → (size : ℕ) → Handle → Bool × Handle
grow allocated size h =
    if ltb h.buf_size (size + 1)
    then (if allocated
        then (true, record h { buf_size = size + 1 })
        else (false, record h { buf_size = 0 }))
    else (true, h)

-- Behind the wait, by `h->numbered_reports` and `detect_kernel26_byte_bug()`; `kernel` answers
-- `read` for a size.
read_now :
    (numbered bug allocated : Bool)
    → (kernel : ℕ → Reply (List ℕ)) → Handle
    → (buf : List ℕ) → Io (Handle × List ℕ)
unfolding conclude without_first with_zero grow
read_now false bug allocated kernel h buf = conclude h buf (with_zero (kernel (length buf - 1)))
read_now true false allocated kernel h buf = conclude h buf (kernel (length buf))
read_now true true allocated kernel h buf =
    let (have, h') = grow allocated (length buf) h in
    if have
    then conclude h' buf (without_first (kernel (length buf + 1)))
    else returned ErrorCode.memory (h', buf)

read_after :
    Wait
    → (bug allocated : Bool) → (kernel : ℕ → Reply (List ℕ)) → Handle
    → (buf : List ℕ) → Io (Handle × List ℕ)
unfolding read_now
read_after still bug allocated kernel h buf = blocked
read_after (finish r) bug allocated kernel h buf = returned r (h, buf)
read_after proceed bug allocated kernel h buf =
    read_now h.report.numbered_reports bug allocated kernel h buf

-- `hs_hid_read`
unfoldable pub read :
    (bug allocated : Bool)
    → (kernel : ℕ → Reply (List ℕ)) → (timeout : ℤ) → (start : ℕ) → List (Turn (Unit {0}))
    → Handle
    → (buf : List ℕ) → Option (Io (Handle × List ℕ))
unfolding read_after
read bug allocated kernel timeout start turns h buf = do
  assert (not (length buf == 0))
  some (read_after (wait timeout start turns) bug allocated kernel h buf)

-- The end of the functions that send; a success holds the result of the call.
sent : Option (Reply ℕ) → Io (Unit {0})
sent none = blocked
sent (some (failure e)) = returned (write_error e) tt
sent (some (success n)) = returned (pos n) tt

-- `hs_hid_write`; `kernel` answers the calls of `write`, oldest first.
unfoldable pub write : (kernel : List ℕ → List (Reply ℕ)) → (buf : List ℕ) → Io (Unit {0})
unfolding sent
write kernel buf = if ltb (length buf) 2 then returned (pos 0) tt else sent (restart (kernel buf))

-- `hs_hid_send_feature_report`; `kernel` answers `ioctl(HIDIOCSFEATURE)`.
unfoldable pub send_feature_report :
    (kernel : List ℕ → List (Reply ℕ)) → (buf : List ℕ) → Io (Unit {0})
unfolding sent
send_feature_report kernel buf =
    if ltb (length buf) 2 then returned (pos 0) tt else sent (restart (kernel buf))

-- The end of `hs_hid_get_feature_report`.
received : (report_id : ℕ) → (buf : List ℕ) → Option (Reply (List ℕ)) → Io (List ℕ)
received report_id buf none = blocked
received report_id buf (some (failure e)) = returned (write_error e) buf
received report_id buf (some (success bytes)) =
    returned (pos (length bytes + 1)) (report_id ∷ fill bytes (drop 1 buf))

-- `hs_hid_get_feature_report`; `kernel` answers `ioctl(HIDIOCGFEATURE)` for the memory behind the
-- first byte, with the bytes that it puts there.
unfoldable pub get_feature_report :
    (kernel : List ℕ → List (Reply (List ℕ)))
    → (report_id : ℕ) → (buf : List ℕ) → Option (Io (List ℕ))
unfolding received
get_feature_report kernel report_id buf =
    let buf' = if ltb (length buf) 2 then buf else set buf 1 report_id in
    assert (not (length buf == 0))
    >> some (received report_id buf' (restart (kernel (drop 1 buf'))))
