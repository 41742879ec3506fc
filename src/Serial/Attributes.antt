-- ===== src/Serial/Attributes.antt =====
-- `hs_serial_set_attributes` of src/serial_posix.c, with the rates and flags of include/hs/serial.h.
-- `struct termios` is by the settings that the code writes, and `rest` for what it leaves alone: a
-- mask that is cleared and then set is one field. `tcgetattr`, `tcsetattr`, `cfmakeraw` and the two
-- functions that set a speed are arguments. `flags` is an `int` that is not negative.
use libhs.Base.{
  ℕ, ◌*◌, ◌/◌, ◌%◌, Bool, true, false, not, Option, none, some, ℤ, pos, if◌then◌else◌, ◌==◌, ◌>>=◌,
}
use libhs.ErrorCode

-- The constants of `speed_t` that the code uses.
pub data Speed : Type 0 where
  b110 b134 b150 b200 b300 b600 b1200 b1800 b2400 b4800 b9600 b19200 b38400 b57600 b115200 : Speed

pub data CharacterSize : Type 0 where
  cs5 cs6 cs7 cs8 : CharacterSize

-- See above.
pub record Termios : Type 0 where
  pub vmin : ℕ
  pub vtime : ℕ
  pub ispeed : Speed
  pub ospeed : Speed
  pub csize : CharacterSize
  pub clocal : Bool
  pub parenb : Bool
  pub parodd : Bool
  pub cstopb : Bool
  pub crtscts : Bool
  pub hupcl : Bool
  pub ixon : Bool
  pub ixoff : Bool
  pub rest : ℕ

-- `switch (rate)`; the default is an `assert(false)`.
unfoldable pub speed : (rate : ℕ) → Option Speed
speed rate =
    if rate == 110
    then some b110
    else if rate == 134
    then some b134
    else if rate == 150
    then some b150
    else if rate == 200
    then some b200
    else if rate == 300
    then some b300
    else if rate == 600
    then some b600
    else if rate == 1200
    then some b1200
    else if rate == 1800
    then some b1800
    else if rate == 2400
    then some b2400
    else if rate == 4800
    then some b4800
    else if rate == 9600
    then some b9600
    else if rate == 19200
    then some b19200
    else if rate == 38400
    then some b38400
    else if rate == 57600
    then some b57600
    else if rate == 115200
    then some b115200
    else none

-- `flags & HS_SERIAL_MASK_CSIZE`, and so on for the other masks.
abbrev pub mask_csize : ℕ → ℕ
mask_csize flags = flags % 4

abbrev pub mask_parity : ℕ → ℕ
mask_parity flags = flags / 4 % 4 * 4

abbrev pub mask_stop : ℕ → ℕ
mask_stop flags = flags / 16 % 2 * 16

abbrev pub mask_flow : ℕ → ℕ
mask_flow flags = flags / 32 % 4 * 32

abbrev pub mask_close : ℕ → ℕ
mask_close flags = flags / 128 % 2 * 128

unfoldable pub set_csize : ℕ → Termios → Termios
set_csize flags tio = record tio {
  csize =
      if mask_csize flags == 3
      then cs5
      else if mask_csize flags == 2
      then cs6
      else if mask_csize flags == 1
      then cs7
      else cs8;
}

unfoldable pub set_parity : ℕ → Termios → Option Termios
set_parity flags tio =
    if mask_parity flags == 0
    then some (record tio { parenb = false; parodd = false })
    else if mask_parity flags == 4
    then some (record tio { parenb = true; parodd = true })
    else if mask_parity flags == 8
    then some (record tio { parenb = true; parodd = false })
    else none

unfoldable pub set_stop : ℕ → Termios → Termios
set_stop flags tio = record tio { cstopb = not (mask_stop flags == 0) }

unfoldable pub set_flow : ℕ → Termios → Option Termios
set_flow flags tio =
    if mask_flow flags == 0
    then some (record tio { crtscts = false; ixon = false; ixoff = false })
    else if mask_flow flags == 32
    then some (record tio { crtscts = false; ixon = true; ixoff = true })
    else if mask_flow flags == 64
    then some (record tio { crtscts = true; ixon = false; ixoff = false })
    else none

unfoldable pub set_hupcl : ℕ → Termios → Termios
set_hupcl flags tio = record tio { hupcl = mask_close flags == 0 }

-- What the code does behind the speeds.
unfoldable pub set_flags : ℕ → Termios → Option Termios
set_flags flags tio = do
  tio1 ← set_parity flags (set_csize flags tio)
  tio2 ← set_flow flags (set_stop flags tio1)
  some (set_hupcl flags tio2)

module _ (cfmakeraw : Termios → Termios) (cfsetispeed cfsetospeed : Speed → Termios → Termios) where
  unfoldable pub configure : (rate flags : ℕ) → Termios → Option Termios
  configure rate flags tio = do
    let raw : Termios = record (cfmakeraw tio) { vmin = 1; vtime = 0; clocal = true }
    rate' ← speed rate
    set_flags flags (cfsetospeed rate' (cfsetispeed rate' raw))

  -- `got` is the answer of `tcgetattr`, `accepts` that of `tcsetattr`; the result comes with the
  -- settings that `tcsetattr` was given.
  unfoldable pub set_attributes :
      (got : Option Termios)
      → (accepts : Termios → Bool) → (rate flags : ℕ) → Option (ℤ × Option Termios)
  set_attributes none accepts rate flags = some (ErrorCode.system, none)
  set_attributes (some tio) accepts rate flags = configure rate flags tio >>= λ tio'.
      some (if accepts tio' then pos 0 else ErrorCode.system, some tio')
