-- ===== src/Windows/Create.antt =====
-- `hs_enumerate`, `hs_monitor_new` and `hs_monitor_free` of src/monitor_win32.c. What Windows and the
-- allocations answer is an argument. The handles, the lock of the controllers and the end of the
-- thread are not modelled.
pub mod Outcome
use libhs.Base.{
  ℕ, Bool, true, false, not, Option, none, some, List, [], ◌∷◌, ℤ, pos, is_neg, int_eq,
  if◌then◌else◌, ◌>>=◌, ◌>>◌, assert,
}
use libhs.ErrorCode
use libhs.Common.{Text}
use libhs.Device.{Device}
use libhs.Htable.{Htable, null}
use libhs.Monitor
use libhs.Monitor.{Monitor, Call}
use libhs.Linux.Events.{pass_read}
use libhs.Linux.Create.{zeroed}
use libhs.Windows.Controllers.{Controller, Host, populate_controllers}
use libhs.Windows.Location.{Node}
use libhs.Windows.Reading.{Answers, process_win32_device}
use libhs.Windows.Notifications.{Shared, Message}
use libhs.Windows.Refresh.{Arrival, Setting, receive}

-- A class of devices: whether `SetupDiGetClassDevs` lists it, and its devices. All of them are there.
pub record Class : Type 0 where
  pub opened : Bool
  pub devices : List Arrival

unfoldable pub read_listed : Setting → Arrival → Option (ℤ × Option Device)
read_listed c x =
    process_win32_device c.hid_guid c.scan c.vista c.controllers x.answers none x.node x.parents

module _ {W : Type 0} (f : Monitor → (place : ℕ) → W → Option (ℤ × Monitor × W)) (c : Setting) where
  -- The loop of `enumerate_class`; `f` is its callback, and the monitor has the devices in memory.
  unfoldable pub devices_loop : List Arrival → Monitor → W → Option (ℤ × Monitor × W)
  unfolding read_listed
  devices_loop [] m w = some (pos 0, m, w)
  devices_loop (x ∷ xs) m w =
      assert (m.device x.place).freed
      >> read_listed c x
      >>= (λ read. pass_read f x.place read m w)
      >>= λ o. let rest = devices_loop xs o.1 o.2 in if int_eq o.0 (pos 0) then rest else some o

  unfoldable pub enumerate_class : Class → Monitor → W → Option (ℤ × Monitor × W)
  unfolding devices_loop
  enumerate_class class m w =
      if class.opened then devices_loop class.devices m w else some (ErrorCode.system, m, w)

  -- The loop of `hs_enumerate` over `device_classes`.
  unfoldable pub classes_loop : List Class → Monitor → W → Option (ℤ × Monitor × W)
  unfolding enumerate_class
  classes_loop [] m w = some (pos 0, m, w)
  classes_loop (class ∷ classes) m w = enumerate_class class m w >>= λ o.
      let rest = classes_loop classes o.1 o.2 in if int_eq o.0 (pos 0) then rest else some o

-- What `hs_enumerate` meets: the hosts, and the two classes.
pub record Scan : Type 0 where
  pub hosts_opened : Bool
  pub hosts : List Host
  pub usb : Class
  pub hid : Class

module _ {W : Type 0} (f : Monitor → (place : ℕ) → W → Option (ℤ × Monitor × W)) (c : Setting) where
  -- The controllers that are known before are those of the setting.
  unfoldable pub enumerate : Scan → Monitor → W → Option (ℤ × Monitor × W)
  unfolding classes_loop
  enumerate scan m w =
      let (r, controllers) = populate_controllers scan.hosts_opened scan.hosts c.controllers in
      if is_neg r
      then some (r, m, w)
      else classes_loop f (record c { controllers = controllers }) (scan.usb ∷ scan.hid ∷ []) m w

-- What `hs_monitor_new` meets: calls that succeed, the result that the thread leaves before it
-- signals, and what the window receives before the event is reset.
pub record Start : Type 0 where
  pub allocated : Bool
  pub event : Bool
  pub table : Bool
  pub scan : Scan
  pub thread : Bool
  pub waited : Bool
  pub thread_ret : ℤ
  pub messages : List Message

-- The result, the monitor with what its threads share if there is one, and the devices in memory.
abbrev pub Attempt : Type 0
Attempt = ℤ × Option (Monitor × Shared) × (ℕ → Device)

-- `hs_monitor_free`, of a monitor that is not null: the devices in memory.
unfoldable pub free : (fuel : ℕ) → Monitor → Option (ℕ → Device)
free fuel m = Monitor.release fuel m >>= λ m'. some m'.device

-- `error: hs_monitor_free(monitor); return r;`
unfoldable pub give_up : (fuel : ℕ) → ℤ → Monitor → Option Attempt
unfolding free
give_up fuel r m = free fuel m >>= λ memory. some (r, none, memory)

-- From the start of the thread on. The code returns without `hs_monitor_free` where there is none.
unfoldable pub start_thread : (fuel : ℕ) → Start → Monitor → Option Attempt
unfolding give_up
start_thread fuel a m =
    let signalled : Shared = record { ret = a.thread_ret; notifications = []; signalled = true } in
    let shared = receive a.messages signalled in
    let unwaited = give_up fuel ErrorCode.system m in
    let failed = give_up fuel shared.ret m in
    if not a.thread
    then some (ErrorCode.system, none, m.device)
    else if not a.waited
    then unwaited
    else if is_neg shared.ret
    then failed
    else some (pos 0, some (m, record shared { signalled = false }), m.device)

module _ {W : Type 0} (call : Call W) (fuel : ℕ) (c : Setting) where
  -- The devices that are there already, through `monitor_enumerate_callback`.
  unfoldable pub fill : Start → Monitor → W → Option Attempt
  unfolding enumerate give_up start_thread
  fill a m w = enumerate (Monitor.add call fuel) c a.scan m w >>= λ o.
      let failed = give_up fuel o.0 o.1 in
      let on = start_thread fuel a o.1 in if is_neg o.0 then failed else on

  unfoldable pub set_up : Start → Monitor → W → Option Attempt
  unfolding fill give_up
  set_up a m w =
      let (r, m') = Monitor.init a.table m in if is_neg r then give_up fuel r m' else fill a m' w

  -- `hs_monitor_new`
  unfoldable pub create : Start → (memory : ℕ → Device) → W → Option Attempt
  unfolding set_up give_up
  create a memory w =
      if not a.allocated
      then some (ErrorCode.memory, none, memory)
      else if not a.event
      then give_up fuel ErrorCode.system (zeroed memory)
      else set_up a (zeroed memory) w
