-- ===== src/Win32/Open.antt =====
-- Opening and closing in src/device_win32.c. What the system answers is an argument; timeouts and
-- the line that is raised for serial devices change no state of the library.
pub mod Balance
use libhs.Base.{
  ℕ, Bool, true, false, not, ◌&&◌, Option, none, some, List, [], ◌∷◌, ◌++◌, ℤ, pos, if◌then◌else◌,
  ◌>>=◌,
}
use libhs.ErrorCode
use libhs.Device.{Device, ref, unref}

-- The values of `GetLastError` that the code tells apart behind `CreateFile`.
pub data FileError : Type 0 where
  file_not_found path_not_found not_enough_memory out_of_memory access_denied : FileError
  other : ℕ → FileError

-- Which steps succeed; `file` holds the error of `CreateFile`, if there is one.
pub record Answers : Type 0 where
  pub allocated : Bool
  pub file : Option FileError
  pub overlapped : Bool
  pub event : Bool
  pub buffer : Bool
  pub started : Bool

-- What a handle holds. A file that is refused is `INVALID_HANDLE_VALUE`, which is not null.
pub data Resource : Type 0 where
  memory file invalid_file overlapped event buffer : Resource

-- The fields of `struct hs_handle` that `close_win32_device` looks at: `handle`, `ov`, its `hEvent`,
-- `buf` and `pending_thread`.
pub record Opened : Type 0 where
  pub handle : Option Resource
  pub ov : Bool
  pub event : Bool
  pub buf : Bool
  pub pending : Bool

abbrev when_set : Bool → Resource → List Resource
when_set true r = r ∷ []
when_set false r = []

abbrev when_some : Option Resource → List Resource
when_some none = []
when_some (some r) = r ∷ []

-- Everything but the reference is given back here, or by a thread that waits for the read. `cancels`
-- says that the system has `CancelIoEx`, `same` that the thread is the one that started the read.
pub release : Opened → List Resource
release h =
    when_some h.handle
    ++ (when_set h.buf buffer
        ++ (when_set (h.ov && h.event) event ++ (when_set h.ov overlapped ++ memory ∷ [])))

-- `close_win32_device`: the device, and what is given back; `none` is a use of freed memory.
unfoldable pub close_win32_device :
    (cancels same : Bool) → Opened → Device → Option (Device × List Resource)
unfolding release
close_win32_device cancels same h dev = unref dev >>= λ dev'.
    some (dev', if h.pending && (not cancels && not same) then [] else release h)

unfoldable pub file_error : FileError → ℤ
file_error file_not_found = ErrorCode.not_found
file_error path_not_found = ErrorCode.not_found
file_error not_enough_memory = ErrorCode.memory
file_error out_of_memory = ErrorCode.memory
file_error access_denied = ErrorCode.access
file_error (other n) = ErrorCode.system

-- The result, the handle if there is one, the device, and what was given back.
abbrev pub Attempt : Type 0
Attempt = ℤ × Option Opened × Device × List Resource

-- `error: hs_handle_close(h); return r;`
pub give_up : ℤ → Opened → Device → Option Attempt
give_up r h dev = close_win32_device false true h dev >>= λ p. some (r, none, p.0, p.1)

-- `open_win32_device` behind the allocation of the handle, from its end to its start.
pub start : Answers → Opened → Device → Option Attempt
start a h dev = some (pos 0, some (record h { pending = a.started }), dev, [])

pub get_buffer : Answers → Opened → Device → Option Attempt
unfolding start give_up
get_buffer a h dev =
    if a.buffer then start a (record h { buf = true }) dev else give_up ErrorCode.memory h dev

pub get_event : Answers → Opened → Device → Option Attempt
unfolding get_buffer give_up
get_event a h dev =
    if a.event then get_buffer a (record h { event = true }) dev else give_up ErrorCode.system h dev

pub get_overlapped : Answers → Opened → Device → Option Attempt
unfolding get_event give_up
get_overlapped a h dev =
    if a.overlapped
    then get_event a (record h { ov = true }) dev
    else give_up ErrorCode.memory h dev

-- `calloc`
abbrev pub zeroed : Opened
zeroed = record { handle = none; ov = false; event = false; buf = false; pending = false }

pub get_file : Answers → Option FileError → Device → Option Attempt
unfolding get_overlapped give_up file_error
get_file a none dev = get_overlapped a (record zeroed { handle = some file }) dev
get_file a (some e) dev = give_up (file_error e) (record zeroed { handle = some invalid_file }) dev

unfoldable pub open_win32_device : Answers → Device → Option Attempt
unfolding get_file
open_win32_device a dev =
    if a.allocated
    then (ref dev >>= λ dev'. get_file a a.file dev')
    else some (ErrorCode.memory, none, dev, [])
