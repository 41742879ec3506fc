-- ===== src/Device/Open.antt =====
-- `hs_device_open` and `hs_handle_close` of src/device.c, with the open and close functions of
-- src/device_posix.c and, for hidraw devices, of src/hid_linux.c. The kernel's answers are an
-- argument. A result comes with the device and with the descriptors that were closed on the way;
-- `none` is a use of freed memory or a failed assertion. The handle itself is one allocation that
-- `close` frees.
pub mod Balance
mod Tests
use libhs.Base.{
  ℕ, Bool, Option, none, some, List, [], ◌∷◌, ℤ, pos, negsuc, if◌then◌else◌, ◌>>=◌, take,
}
use libhs.ErrorCode
use libhs.Posix.{Errno, eintr, eacces, eio, enxio, enodev, enoent, enotdir}
use libhs.Posix.Io.{Reply, failure, success, restart}
use libhs.HidDescriptor.{Usage, no_usage, parse_descriptor}
use libhs.Device.{Device, Vtable, posix_device, linux_hid, is_online, ref, unref}

-- What `calloc`, the calls of `open`, and the two `ioctl` answer; the last one with the bytes that
-- it puts into the report.
pub record Answers : Type 0 where
  pub allocated : Bool
  pub opens : List (Reply ℕ)
  pub size : Reply ℕ
  pub descriptor : Reply (List ℕ)

-- `struct hs_handle`, less the device and the buffer that a read allocates. A handle of
-- src/device_posix.c has no report.
pub record Handle : Type 0 where
  pub fd : ℤ
  pub report : Usage

-- The call of `open` is still interrupted, or the function has returned.
pub data Attempt : Type 0 where
  pending : Device → Attempt
  ended : ℤ → Option Handle → Device → (closed : List ℤ) → Attempt

-- `switch (errno)` behind `open`.
unfoldable pub open_error : Errno → ℤ
open_error eacces = ErrorCode.access
open_error eio = ErrorCode.io
open_error enxio = ErrorCode.io
open_error enodev = ErrorCode.io
open_error enoent = ErrorCode.not_found
open_error enotdir = ErrorCode.not_found
open_error _ = ErrorCode.system

close_posix_device : Handle → Device → Option (Device × List ℤ)
close_posix_device h dev = unref dev >>= λ dev'. some (dev', h.fd ∷ [])

close_hidraw_device : Handle → Device → Option (Device × List ℤ)
close_hidraw_device h dev = unref dev >>= λ dev'. some (dev', h.fd ∷ [])

-- `vtable->close`
close_by : Vtable → Handle → Device → Option (Device × List ℤ)
unfolding close_posix_device close_hidraw_device
close_by posix_device h dev = close_posix_device h dev
close_by linux_hid h dev = close_hidraw_device h dev

unfoldable pub handle_close : Option Handle → Device → Option (Device × List ℤ)
unfolding close_by
handle_close none dev = some (dev, [])
handle_close (some h) dev = close_by dev.vtable h dev

-- `error: hs_handle_close(h); return r;`
give_up : ℤ → Option Handle → Device → Option Attempt
give_up r h dev = handle_close h dev >>= λ p. some (ended r none p.0 p.1)

-- `open_posix_device` behind `open`,
opened_posix : Option (Reply ℕ) → Device → Option Attempt
unfolding give_up
opened_posix none dev = some (pending dev)
opened_posix (some (failure e)) dev =
    give_up (open_error e) (some (record { fd = negsuc 0; report = no_usage })) dev
opened_posix (some (success fd)) dev =
    some (ended (pos 0) (some (record { fd = pos fd; report = no_usage })) dev [])

-- and as a whole.
open_posix_device : Answers → Device → Option Attempt
unfolding opened_posix
open_posix_device a dev =
    if a.allocated
    then (ref dev >>= λ dev'. opened_posix (restart a.opens) dev')
    else give_up ErrorCode.memory none dev

-- The two `ioctl` of `open_hidraw_device` and the scan of the report descriptor,
describe_hidraw :
    (size : Reply ℕ) → (descriptor : Reply (List ℕ)) → Handle → Device → Option Attempt
unfolding give_up
describe_hidraw (failure e) descriptor h dev = give_up ErrorCode.system (some h) dev
describe_hidraw (success size) (failure e) h dev = give_up ErrorCode.system (some h) dev
describe_hidraw (success size) (success value) h dev =
    parse_descriptor (take size value) h.report >>= λ report.
    some (ended (pos 0) (some (record h { report = report })) dev [])

-- the function behind `open`,
opened_hidraw :
    Option (Reply ℕ) → (size : Reply ℕ) → (descriptor : Reply (List ℕ)) → Device → Option Attempt
unfolding give_up describe_hidraw
opened_hidraw none size descriptor dev = some (pending dev)
opened_hidraw (some (failure e)) size descriptor dev =
    give_up (open_error e) (some (record { fd = negsuc 0; report = no_usage })) dev
opened_hidraw (some (success fd)) size descriptor dev =
    describe_hidraw size descriptor (record { fd = pos fd; report = no_usage }) dev

-- and as a whole.
open_hidraw_device : Answers → Device → Option Attempt
unfolding opened_hidraw
open_hidraw_device a dev =
    if a.allocated
    then (ref dev >>= λ dev'. opened_hidraw (restart a.opens) a.size a.descriptor dev')
    else give_up ErrorCode.memory none dev

-- `vtable->open`
open_by : Vtable → Answers → Device → Option Attempt
unfolding open_posix_device open_hidraw_device
open_by posix_device a dev = open_posix_device a dev
open_by linux_hid a dev = open_hidraw_device a dev

-- `hs_device_open`
unfoldable pub device_open : Answers → Device → Option Attempt
unfolding open_by
device_open a dev =
    if is_online dev.state
    then open_by dev.vtable a dev
    else some (ended ErrorCode.not_found none dev [])
