-- ===== src/Darwin/Open.antt =====
-- Opening and closing in src/hid_darwin.c. What the system answers is an argument. The callbacks that
-- are registered and the flags of the pipe's ends are not modelled, and a `close` of -1 does nothing.
pub mod Balance
use libhs.Base.{
  ℕ, Bool, true, false, not, ◌&&◌, Option, none, some, List, [], ◌∷◌, ◌++◌, ℤ, pos, is_neg, is_pos,
  if◌then◌else◌, ◌>>=◌,
}
use libhs.ErrorCode
use libhs.Device.{Device, ref, unref}

-- Which steps succeed; `size` holds the device's longest input report, where it has the number.
-- `mutex` and `cond` are the results of `pthread_mutex_init` and `pthread_cond_init`, `thread` is
-- `pthread_create`, `source` is `CFRunLoopSourceCreate` in the thread.
pub record Answers : Type 0 where
  pub allocated : Bool
  pub service : Bool
  pub hid : Bool
  pub opened : Bool
  pub size : Option ℕ
  pub buffer : Bool
  pub pipe : Bool
  pub mutex : ℤ
  pub cond : ℤ
  pub thread : Bool
  pub source : Bool

-- What a handle holds.
pub data Resource : Type 0 where
  memory service hid buffer pipe mutex cond thread source : Resource

-- The fields of `struct hs_handle` that `close_hid_device` looks at, and whether they are set.
pub record Opened : Type 0 where
  pub service : Bool
  pub hid : Bool
  pub buf : Bool
  pub pipe : Bool
  pub mutex_init : Bool
  pub cond_init : Bool
  pub shutdown : Bool

abbrev when_set : Bool → List Resource → List Resource
when_set true rs = rs
when_set false rs = []

-- What `close_hid_device` gives back, in order. The thread is joined where it has left the source
-- that stops it.
pub release : Opened → List Resource
release h =
    when_set h.shutdown (thread ∷ source ∷ [])
    ++ (when_set h.cond_init (cond ∷ [])
        ++ (when_set h.mutex_init (mutex ∷ [])
            ++ (when_set h.pipe (pipe ∷ [])
                ++ (when_set h.buf (buffer ∷ [])
                    ++ (when_set h.hid (hid ∷ [])
                        ++ (when_set h.service (service ∷ []) ++ memory ∷ []))))))

-- `close_hid_device`: the device, and what is given back; `none` is a use of freed memory.
unfoldable pub close_hid_device : Opened → Device → Option (Device × List Resource)
unfolding release
close_hid_device h dev = unref dev >>= λ dev'. some (dev', release h)

-- The result, the handle if there is one, the device, and what was given back.
abbrev pub Attempt : Type 0
Attempt = ℤ × Option Opened × Device × List Resource

-- `error: hs_handle_close(h); return r;`
pub give_up : ℤ → Opened → Device → Option Attempt
give_up r h dev = close_hid_device h dev >>= λ p. some (r, none, p.0, p.1)

-- `device_thread` up to `CFRunLoopRun`: the value of `thread_ret`, and the handle.
pub device_thread : Answers → Opened → ℤ × Opened
device_thread a h =
    if a.source then (pos 1, record h { shutdown = true }) else (ErrorCode.system, h)

-- `open_hid_device` behind the allocation of the handle, from its end to its start.
pub start_thread : Answers → Opened → Device → Option Attempt
unfolding device_thread give_up
start_thread a h dev =
    if a.thread
    then (let (r, h') = device_thread a h in
        if is_neg r then give_up r h' dev else some (pos 0, some h', dev, []))
    else give_up ErrorCode.system h dev

-- `if (r < 0)` does not notice a positive result, with which both functions fail; the code goes on to
-- use and to destroy a mutex or a condition that is not initialised, which is a `none`.
pub get_locks : Answers → Opened → Device → Option Attempt
unfolding start_thread give_up
get_locks a h dev =
    if is_neg a.mutex
    then give_up ErrorCode.system h dev
    else if is_pos a.mutex
    then none
    else if is_neg a.cond
    then give_up ErrorCode.system (record h { mutex_init = true }) dev
    else if is_pos a.cond
    then none
    else start_thread a (record h { mutex_init = true; cond_init = true }) dev

pub get_pipe : Answers → Opened → Device → Option Attempt
unfolding get_locks give_up
get_pipe a h dev =
    if a.pipe then get_locks a (record h { pipe = true }) dev else give_up ErrorCode.system h dev

-- A device that does not tell the size of its reports is refused.
pub get_buffer : Answers → Option ℕ → Opened → Device → Option Attempt
unfolding get_pipe give_up
get_buffer a none h dev = give_up ErrorCode.system h dev
get_buffer a (some size) h dev =
    if a.buffer then get_pipe a (record h { buf = true }) dev else give_up ErrorCode.memory h dev

-- `calloc`
abbrev pub zeroed : Opened
zeroed = record {
  service = false;
  hid = false;
  buf = false;
  pipe = false;
  mutex_init = false;
  cond_init = false;
  shutdown = false;
}

pub get_device : Answers → Device → Option Attempt
unfolding get_buffer give_up
get_device a dev =
    if not a.service
    then give_up ErrorCode.not_found zeroed dev
    else if not a.hid
    then give_up ErrorCode.not_found (record zeroed { service = true }) dev
    else if not a.opened
    then give_up ErrorCode.system (record zeroed { service = true; hid = true }) dev
    else get_buffer a a.size (record zeroed { service = true; hid = true }) dev

unfoldable pub open_hid_device : Answers → Device → Option Attempt
unfolding get_device
open_hid_device a dev =
    if a.allocated
    then (ref dev >>= λ dev'. get_device a dev')
    else some (ErrorCode.memory, none, dev, [])
