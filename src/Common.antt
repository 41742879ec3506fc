-- ===== src/Common.antt =====
-- src/common.c: the log handler, the stack of masked error codes, and `hs_error`. The file's static
-- variables are the record `Log`. A message is the text that `vsnprintf` formats, as bytes; what the
-- handlers are given, and what goes to `stderr`, is recorded in `events`, newest first.
-- `assert` is a `none`. The text that `fmt` gives is an argument, since `vsnprintf` formats it.
pub mod Mask
mod Tests
use Prim.Native.Char.{code}
use Prim.Native.String.{String}
use libhs.Base.{
  ℕ, zero, suc, ◌+◌, ◌-◌, Bool, true, false, not, ◌&&◌, ◌||◌, Option, none, some, List, [], ◌∷◌,
  ◌++◌, ℤ, pos, is_neg, int_eq, if◌then◌else◌, ltb, ◌>>=◌, ◌>>◌, assert, get_or, set, take,
  replicate,
}
use libhs.ErrorCode

abbrev pub Text : Type 0
Text = List ℕ

-- The bytes of an ASCII literal.
abbrev pub codes : String → Text
codes String.[] = []
codes (String.◌∷◌ c s) = code c ∷ codes s

-- `enum hs_log_level`
pub data LogLevel : Type 0 where
  debug warning error_level : LogLevel

-- `handler` and `handler_udata`: `default_handler` with a null `udata`, or a function of the
-- client's with its own.
pub data Handler : Type 0 where
  default_handler : Handler
  redirected : (f udata : ℕ) → Handler

pub data Event : Type 0 where
  printed : Text → Event
  called : (f udata : ℕ) → LogLevel → Text → Event

-- `mask` is the array of 32 cells, `debug_env` says whether LIBHS_DEBUG is set.
pub record Log : Type 0 where
  pub handler : Handler
  pub mask : List ℤ
  pub mask_count : ℕ
  pub debug_env : Bool
  pub events : List Event

abbrev pub mask_size : ℕ
mask_size = 32

pub initial : Bool → Log
initial debug_env = record {
  handler = default_handler;
  mask = replicate mask_size (pos 0);
  mask_count = 0;
  debug_env = debug_env;
  events = [];
}

pub generic_message : ℤ → Text
generic_message err =
    if not (is_neg err)
    then codes "Success"
    else if int_eq err ErrorCode.memory
    then codes "Memory error"
    else if int_eq err ErrorCode.not_found
    then codes "Not found"
    else if int_eq err ErrorCode.access
    then codes "Permission error"
    else if int_eq err ErrorCode.io
    then codes "I/O error"
    else if int_eq err ErrorCode.system
    then codes "System error"
    else if int_eq err ErrorCode.invalid
    then codes "Invalid data error"
    else codes "Unknown error"

is_debug : LogLevel → Bool
is_debug debug = true
is_debug warning = false
is_debug error_level = false

-- `(*handler)(level, buf, handler_udata)`
handle : Handler → LogLevel → Text → Log → Log
unfolding is_debug
handle default_handler level msg s =
    if is_debug level && not s.debug_env
    then s
    else record s { events = printed (msg ++ codes "\n") ∷ s.events }
handle (redirected f udata) level msg s = record s { events = called f udata level msg ∷ s.events }

-- `hs_log_redirect`; the function is null or not.
pub log_redirect : Option ℕ → ℕ → Log → Log
log_redirect none udata s = record s { handler = default_handler }
log_redirect (some f) udata s = record s { handler = redirected f udata }

pub error_mask : ℤ → Log → Option Log
error_mask err s = do
  assert (ltb s.mask_count mask_size)
  some (record s { mask = set s.mask s.mask_count err; mask_count = s.mask_count + 1 })

pub error_unmask : Log → Option Log
error_unmask s = do assert (ltb 0 s.mask_count); some (record s { mask_count = s.mask_count - 1 })

-- `vsnprintf` cuts the text to the 512 bytes of `buf`, the last of which is the terminator.
logv : LogLevel → Text → Log → Log
unfolding handle
logv level text s = handle s.handler level (take 511 text) s

pub log : LogLevel → Text → Log → Log
unfolding logv
log level text s = logv level text s

-- The loop of `hs_error` over the cells from `i`, with the rounds left.
is_masked : (rounds i : ℕ) → List ℤ → ℤ → Bool
is_masked zero i cells err = false
is_masked (suc rounds) i cells err =
    int_eq (get_or cells i (pos 0)) err || is_masked rounds (i + 1) cells err

-- `fmt` is null or gives a text.
pub error : ℤ → Option Text → Log → ℤ × Log
unfolding is_masked logv
error err fmt s = if is_masked s.mask_count 0 s.mask err then (err, s) else elim fmt [
  | none ↦ (err, log error_level (generic_message err) s)
  | some text ↦ (err, logv error_level text s)
]
