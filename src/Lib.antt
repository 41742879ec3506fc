-- ===== src/Lib.antt =====
-- libhs, a C library to enumerate HID and serial devices and to talk to them.
--
-- A monitor (src/monitor.c) keeps the known devices (src/device.c) in a hash table of intrusive
-- nodes (src/htable.c) and reports changes to callbacks. The platform's backend gives it the devices
-- and opens them: libudev on Linux, the Windows API, or IOKit on macOS. hid_linux.c scans the
-- report descriptor of a HID device for its primary usage.
-- src/platform.c and src/platform_posix.c hold the clock, timeouts and polling that the blocking
-- calls share, and every failure goes through `hs_error` of src/common.c.
--
-- Base             Boolean tests, C arrays as lists, the signed `int`
-- ErrorCode        include/hs/common.h: the error codes
-- Common           src/common.c: `error_mask`, `error_unmask`, `error`, `log_redirect`; Common/Mask
--                  has the stack of masked codes
-- Posix            the kernel's answers, and the restart of an interrupted `poll`; Io has the same
--                  for other calls, and the waits and errors that the I/O functions share
-- Platform         src/platform.c, src/platform_posix.c: Timeout (`hs_millis`,
--                  `hs_adjust_timeout`), DescriptorSet (`hs_descriptor_set_*`), Poll (`hs_poll`),
--                  LinuxVersion (`hs_linux_version`, and the test of src/hid_linux.c on it)
-- Serial           src/serial_posix.c: Attributes has `hs_serial_set_attributes`, Settings what it
--                  asks for, Transfer what `hs_serial_read` gives
-- Hid              src/hid_linux.c: the reports; Reports has what the callers get
-- HidDescriptor    src/hid_linux.c: `parse_descriptor`; Items has the items and their bytes
-- Htable           src/htable.h, src/htable.c: the pointers; Rings has paths along `next`, Buckets
--                  what a table stands for, Add, Remove and Unlink the operations, Foreach the
--                  macros, with Foreach/Cells for the loop over all nodes
-- Links            src/list.h: the links in memory; Rings has what they stand for, Insert, Remove and
--                  Splice the operations
-- Device           src/device.c: the reference count, with Live for a pair of calls; Open has
--                  `hs_device_open` and `hs_handle_close`, with src/device_posix.c and the hidraw
--                  part of src/hid_linux.c
-- Monitor          src/monitor.c: Known has the invariant, Add `_hs_monitor_add`, Remove and
--                  Disconnect `_hs_monitor_remove`, Callbacks the callbacks, Init, Listing and
--                  Release the functions on all devices
-- Linux            src/monitor_linux.c: `read_device_information`, with Steps and Details of it;
--                  Events has `hs_monitor_refresh` over what libudev sends, with Owned for the
--                  invariant, Reading and Removal for the events and Refresh for their sequence;
--                  Create has `hs_enumerate`, `hs_monitor_new` and `hs_monitor_free`
-- Win32            src/device_win32.c: asynchronous reads, with Open for the handles; SerialPort and
--                  Attributes for src/serial_win32.c, HidReports for src/hid_win32.c
-- Darwin           HidReports has the queue of src/hid_darwin.c between its thread and the readers,
--                  with Queue and Wakeup of it, Open the handles, and Platform
--                  src/platform_darwin.c, with Select of its `hs_poll`. Of src/monitor_darwin.c,
--                  Location has the location of a device, with Bounds and Order of it, Discovery
--                  `process_darwin_device`, Events `hs_monitor_refresh`, with Owned of it, and Create
--                  `hs_enumerate`, `hs_monitor_new` and `hs_monitor_free`
-- Windows          src/monitor_win32.c: Ids has `extract_device_id` and `build_device_path`, with
--                  RoundTrip of them; Notifications the queue between the window's thread and
--                  `hs_monitor_refresh`, with Queue for their interleavings; Controllers the USB
--                  controllers, with Listed and Numbers of them; Location
--                  `resolve_device_location`, with Trail for what it looks for and Ports for its
--                  array; Strings the texts of a device, Reading `process_win32_device`, Refresh
--                  `hs_monitor_refresh`, Create `hs_enumerate`, `hs_monitor_new` and
--                  `hs_monitor_free`. Platform has src/platform_win32.c
-- Compat           src/compat.c: `strrpbrk`
--
-- A function of the model has its source's name without `hs_`. A failed `assert`, a null
-- dereference, an access out of bounds and a use of what is freed, overwritten or not initialised are
-- the result `none`. Numbers are
-- natural numbers, with the wrap of their width written out where the code can reach it; an `int`
-- is an integer. An `hs_error` in a model that has no log is the code that it returns.
-- The structures of macOS are laid out with pointers of 64 bits, little endian.
-- The kernel, libudev, the Windows API, IOKit and the C library are not modelled: what they answer
-- is an argument. The client's callbacks are functions that do not call the monitor back.
-- Fuel: the scan of a report descriptor takes the report's length; a walk along a ring takes more
-- than the nodes of its bucket, and the loop over a list of events more than these and the events.
-- The theorems show that these suffice. The loop over the ports of a hub takes 256 rounds, behind
-- which its counter has wrapped; what is a `none` there does not end in the code.
-- Not modelled: message formatting; the life of threads, of which the theorems see only the steps
-- under a lock; the set-up of the window for the notifications of Windows, which only calls its
-- API; the objects of IOKit and their release; `stpcpy` and `asprintf` of src/compat.c; the
-- examples, which print what the library finds.
pub mod Base
pub mod Common
pub mod Compat
pub mod Darwin
pub mod Device
pub mod ErrorCode
pub mod Hid
pub mod HidDescriptor
pub mod Htable
pub mod Links
pub mod Linux
pub mod Monitor
pub mod Platform
pub mod Posix
pub mod Serial
pub mod Win32
pub mod Windows
