-- ===== src/Windows/Controllers.antt =====
-- The USB host controllers of src/monitor_win32.c, which get numbers as they are found.
pub mod Listed
pub mod Numbers
use libhs.Base.{
  ℕ, zero, suc, ◌+◌, ◌%◌, Bool, true, false, Option, none, some, List, [], ◌∷◌, ◌++◌, ℤ, pos,
  is_neg, if◌then◌else◌, ◌==◌, length,
}
use libhs.ErrorCode
use libhs.Common.{Text}
use libhs.Monitor.{text_eq}
use libhs.Windows.Ids.{strstr}

-- `struct usb_controller`, less its list head.
pub record Controller : Type 0 where
  pub index : ℕ
  pub roothub_id : Text

-- The loop, which returns 0 when it finds nothing.
unfoldable pub find_controller : List Controller → (id : Text) → ℕ
find_controller [] id = 0
find_controller (c ∷ cs) id = if text_eq c.roothub_id id then c.index else find_controller cs id

-- The bytes of `\ROOT_HUB`.
abbrev pub root_hub : Text
root_hub = 92 ∷ 82 ∷ 79 ∷ 79 ∷ 84 ∷ 95 ∷ 72 ∷ 85 ∷ 66 ∷ []

abbrev pub is_root_hub : (id : Text) → Bool
is_root_hub id = elim (strstr id root_hub) [ none ↦ false | some rest ↦ true ]

-- What `CM_Get_Child`, `CM_Get_Device_ID` and `malloc` answer for a host controller.
pub record Host : Type 0 where
  pub child : Bool
  pub roothub_id : Option Text
  pub allocated : Bool

pub add_root_hub :
    (allocated : Bool) → (id : Text) → (index : ℕ) → List Controller → ℤ × List Controller
add_root_hub allocated id index cs =
    if is_root_hub id
    then if allocated
      then (pos 1, cs ++ record { index = index; roothub_id = id } ∷ [])
      else (ErrorCode.memory, cs)
    else (pos 0, cs)

unfoldable pub add_controller : Host → (index : ℕ) → List Controller → ℤ × List Controller
unfolding add_root_hub
add_controller host index cs =
    if host.child
    then elim host.roothub_id [
      | none ↦ (pos 0, cs)
      | some id ↦ add_root_hub host.allocated id index cs
    ]
    else (pos 0, cs)

-- The loop of `populate_controllers`, from the host `i`.
unfoldable pub add_controllers : (i : ℕ) → List Host → List Controller → ℤ × List Controller
unfolding add_controller
add_controllers i [] cs = (pos 0, cs)
add_controllers i (host ∷ hosts) cs =
    let o = add_controller host ((i + 1) % 256) cs in
    let rest = add_controllers (i + 1) hosts o.1 in
    if i + 1 == 255 then (pos 0, cs) else if is_neg o.0 then o else rest

-- `opened` is the answer of `SetupDiGetClassDevs`, which lists the hosts.
unfoldable pub populate_controllers :
    (opened : Bool) → List Host → List Controller → ℤ × List Controller
unfolding add_controllers
populate_controllers opened hosts [] =
    if opened then add_controllers 0 hosts [] else (ErrorCode.system, [])
populate_controllers opened hosts (c ∷ cs) = (pos 0, c ∷ cs)
