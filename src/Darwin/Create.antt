-- ===== src/Darwin/Create.antt =====
-- `hs_enumerate`, `hs_monitor_new` and `hs_monitor_free` of src/monitor_darwin.c. What IOKit, the
-- kernel and the allocations answer is an argument. The ports, the queue of the kernel, the iterators
-- and the lock of the controllers are not modelled.
pub mod Outcome
mod Tests
use libhs.Base.{
  ℕ, ◌+◌, ◌%◌, Bool, true, false, not, Option, none, some, List, [], ◌∷◌, ℤ, pos, is_neg, int_eq,
  if◌then◌else◌, ◌==◌, ◌>>=◌, ltb, length,
}
use libhs.ErrorCode
use libhs.Common.{Text}
use libhs.Device.{Device}
use libhs.Monitor
use libhs.Monitor.{Monitor, Call, text_eq}
use libhs.Linux.Create.{zeroed, Attempt}
use libhs.Darwin.Events.{Found, process_iterator_devices}

-- `struct usb_controller`, less its list head.
pub record Controller : Type 0 where
  pub index : ℕ
  pub path : Text

-- `path` is what the registry answers.
unfoldable pub find_controller : List Controller → (path : Option Text) → ℕ
find_controller cs none = 0
find_controller [] (some path) = 0
find_controller (c ∷ cs) (some path) =
    let rest = find_controller cs (some path) in if text_eq c.path path then c.index else rest

-- What a host controller answers: its path, and the allocation.
pub record Host : Type 0 where
  pub path : Option Text
  pub allocated : Bool

-- The path is written to an `io_name_t`, which has room for 127 bytes and the one that ends them; a
-- longer path, of which IOKit has up to 511 bytes, is written outside of it.
unfoldable pub add_controller : Host → (index : ℕ) → List Controller → Option (ℤ × List Controller)
add_controller host index cs = elim host.path [
  | none ↦ some (pos 0, cs)
  | some path ↦
      if not (ltb (length path) 128)
      then none
      else if host.allocated
      then some (pos 1, record { index = index; path = path } ∷ cs)
      else some (ErrorCode.memory, cs)
]

-- The loop of `populate_controllers`.
unfoldable pub add_controllers :
    (index : ℕ) → List Host → List Controller → Option (ℤ × List Controller)
unfolding add_controller
add_controllers index [] cs = some (pos 0, cs)
add_controllers index (host ∷ hosts) cs =
    let added = add_controller host ((index + 1) % 256) cs >>= λ o.
    let rest = add_controllers (index + 1) hosts o.1 in if is_neg o.0 then some o else rest in
    if index == 255 then some (pos 0, cs) else added

-- `hosts` are the services of the iterator that IOKit gives, if it gives one.
unfoldable pub populate_controllers :
    (hosts : Option (List Host)) → List Controller → Option (ℤ × List Controller)
unfolding add_controllers
populate_controllers none [] = some (ErrorCode.system, [])
populate_controllers (some hosts) [] = add_controllers 0 hosts []
populate_controllers hosts (c ∷ cs) = some (pos 0, c ∷ cs)

-- What IOKit answers for a class of devices: whether it gives an iterator, and its services.
pub record Class : Type 0 where
  pub matched : Bool
  pub services : List Found

module _ {W : Type 0} (f : Monitor → (place : ℕ) → W → Option (ℤ × Monitor × W)) where
  -- The loop of `hs_enumerate` over `device_classes`; `f` is its callback.
  unfoldable pub classes_loop : List Class → Monitor → W → Option (ℤ × Monitor × W)
  classes_loop [] m w = some (pos 0, m, w)
  classes_loop (class ∷ classes) m w =
      let devices = process_iterator_devices f class.services m w in
      if class.matched
      then (devices >>= λ o.
          let rest = classes_loop classes o.1 o.2 in if int_eq o.0 (pos 0) then rest else some o)
      else some (ErrorCode.system, m, w)

  -- `cs` are the controllers known so far; the result comes with those known then.
  unfoldable pub enumerate :
      (hosts : Option (List Host))
      → (cs : List Controller) → List Class
      → Monitor
      → W
      → Option ((ℤ × Monitor × W) × List Controller)
  unfolding classes_loop populate_controllers
  enumerate hosts cs classes m w = populate_controllers hosts cs >>= λ p.
      let all = classes_loop classes m w in
      (if is_neg p.0 then some (p.0, m, w) else all) >>= λ o. some (o, p.1)

-- What `hs_monitor_new` meets: the controllers known so far and those that IOKit gives, calls that
-- succeed, the classes with their first devices, and the notification of those that end.
pub record Start : Type 0 where
  pub controllers : List Controller
  pub hosts : Option (List Host)
  pub allocated : Bool
  pub notify_port : Bool
  pub queue : Bool
  pub port_set : Bool
  pub member : Bool
  pub event : Bool
  pub table : Bool
  pub classes : List Class
  pub terminated : Bool

-- `hs_monitor_free`, of a monitor that is not null: the devices in memory.
unfoldable pub free : (fuel : ℕ) → Monitor → Option (ℕ → Device)
free fuel m = Monitor.release fuel m >>= λ m'. some m'.device

-- `error: hs_monitor_free(monitor); return r;`
unfoldable pub give_up : (fuel : ℕ) → ℤ → Monitor → Option Attempt
unfolding free
give_up fuel r m = free fuel m >>= λ memory. some (r, none, memory)

module _ {W : Type 0} (call : Call W) (fuel : ℕ) where
  -- The loop over `device_classes`, and the last notification.
  unfoldable pub fill : (terminated : Bool) → List Class → Monitor → W → Option Attempt
  unfolding give_up
  fill terminated [] m w =
      let failed = give_up fuel ErrorCode.system m in
      if terminated then some (pos 0, some m, m.device) else failed
  fill terminated (class ∷ classes) m w =
      let failed = give_up fuel ErrorCode.system m in
      let devices = process_iterator_devices (Monitor.add call fuel) class.services m w in
      if class.matched
      then (devices >>= λ o.
          let failed' = give_up fuel o.0 o.1 in
          let rest = fill terminated classes o.1 o.2 in if is_neg o.0 then failed' else rest)
      else failed

  -- The table, and what follows.
  unfoldable pub set_up : Start → Monitor → W → Option Attempt
  unfolding fill give_up
  set_up a m w =
      let (r, m') = Monitor.init a.table m in
      if is_neg r then give_up fuel r m' else fill a.terminated a.classes m' w

  -- `hs_monitor_new`, by the result of `populate_controllers`.
  unfoldable pub create_with : (populated : ℤ) → Start → (memory : ℕ → Device) → W → Option Attempt
  unfolding set_up give_up
  create_with populated a memory w =
      if is_neg populated
      then some (populated, none, memory)
      else if not a.allocated
      then some (ErrorCode.memory, none, memory)
      else if not a.notify_port
      then give_up fuel ErrorCode.system (zeroed memory)
      else if not a.queue
      then give_up fuel ErrorCode.system (zeroed memory)
      else if not a.port_set
      then give_up fuel ErrorCode.system (zeroed memory)
      else if not a.member
      then give_up fuel ErrorCode.system (zeroed memory)
      else if not a.event
      then give_up fuel ErrorCode.system (zeroed memory)
      else set_up a (zeroed memory) w

  -- `hs_monitor_new`, with the controllers that it leaves for the next call.
  unfoldable pub create : Start → (memory : ℕ → Device) → W → Option (Attempt × List Controller)
  unfolding create_with populate_controllers
  create a memory w = populate_controllers a.hosts a.controllers >>= λ p.
      create_with p.0 a memory w >>= λ o. some (o, p.1)
