-- ===== src/Win32/Attributes.antt =====
-- `hs_serial_set_attributes` of src/serial_win32.c. `DCB` is by the settings that the code writes,
-- and `rest` for what it leaves alone; `GetCommState` and `SetCommState` are arguments. `flags` is an
-- `int` that is not negative.
pub mod Agreement
use libhs.Base.{
  ℕ, ◌*◌, ◌/◌, ◌%◌, Bool, true, false, not, Option, none, some, List, [], ◌∷◌, ℤ, pos,
  if◌then◌else◌, ◌==◌, ◌>>=◌, ◌>>◌, assert, elem,
}
use libhs.ErrorCode
use libhs.Serial.Attributes.{mask_csize, mask_parity, mask_stop, mask_flow}

pub data Parity : Type 0 where
  no_parity odd_parity even_parity : Parity

pub record Dcb : Type 0 where
  pub baud_rate : ℕ
  pub byte_size : ℕ
  pub checks_parity : Bool
  pub parity : Parity
  pub two_stop_bits : Bool
  pub out_cts_flow : Bool
  pub out_dsr_flow : Bool
  pub rts_enabled : Bool
  pub dtr_enabled : Bool
  pub out_x : Bool
  pub in_x : Bool
  pub rest : ℕ

-- The cases of `switch (rate)`; the default is an `assert(false)`.
abbrev pub rates : List ℕ
rates =
    110 ∷ 134 ∷ 150 ∷ 200 ∷ 300 ∷ 600 ∷ 1200 ∷ 1800 ∷ 2400 ∷ 4800 ∷ 9600 ∷ 19200 ∷ 38400 ∷ 57600
    ∷ 115200 ∷ []

byte_size : ℕ → ℕ
byte_size flags =
    if mask_csize flags == 3
    then 5
    else if mask_csize flags == 2
    then 6
    else if mask_csize flags == 1
    then 7
    else 8

set_parity : ℕ → Dcb → Option Dcb
set_parity flags dcb =
    if mask_parity flags == 0
    then some (record dcb { checks_parity = false; parity = no_parity })
    else if mask_parity flags == 4
    then some (record dcb { checks_parity = true; parity = odd_parity })
    else if mask_parity flags == 8
    then some (record dcb { checks_parity = true; parity = even_parity })
    else none

-- `dcb.StopBits`, and the six settings that are cleared.
set_stop : ℕ → Dcb → Dcb
set_stop flags dcb = record dcb {
  two_stop_bits = not (mask_stop flags == 0);
  out_cts_flow = false;
  out_dsr_flow = false;
  rts_enabled = false;
  dtr_enabled = false;
  out_x = false;
  in_x = false;
}

set_flow : ℕ → Dcb → Option Dcb
set_flow flags dcb =
    if mask_flow flags == 0
    then some dcb
    else if mask_flow flags == 32
    then some (record dcb { out_x = true; in_x = true })
    else if mask_flow flags == 64
    then some (record dcb { out_cts_flow = true; rts_enabled = true })
    else none

unfoldable pub configure : (rate flags : ℕ) → Dcb → Option Dcb
unfolding byte_size set_parity set_stop set_flow
configure rate flags dcb = do
  assert (elem rate rates)
  dcb1 ← set_parity flags (record dcb { baud_rate = rate; byte_size = byte_size flags })
  set_flow flags (set_stop flags dcb1)

-- `got` is the answer of `GetCommState`, `accepts` that of `SetCommState`; the result comes with the
-- settings that `SetCommState` was given.
unfoldable pub set_attributes :
    (got : Option Dcb) → (accepts : Dcb → Bool) → (rate flags : ℕ) → Option (ℤ × Option Dcb)
set_attributes none accepts rate flags = some (ErrorCode.system, none)
set_attributes (some dcb) accepts rate flags = configure rate flags dcb >>= λ dcb'.
    some (if accepts dcb' then pos 0 else ErrorCode.system, some dcb')
