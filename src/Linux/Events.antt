-- ===== src/Linux/Events.antt =====
-- The events of libudev, in src/monitor_linux.c: what becomes of a monitor while `hs_monitor_refresh`
-- receives them, and how a device that is read is given on. The filters for the subsystems are
-- libudev's. A device is read into memory that `calloc` gives.
pub mod Owned
pub mod Reading
pub mod Removal
pub mod Refresh
pub mod Release
use libhs.Base.{
  ℕ, Bool, true, false, not, Option, none, some, List, [], ◌∷◌, ℤ, pos, is_neg, int_eq,
  if◌then◌else◌, ◌>>=◌, ◌>>◌, assert,
}
use libhs.ErrorCode
use libhs.Common.{Text}
use libhs.Device
use libhs.Device.{Device}
use libhs.Monitor
use libhs.Monitor.{Monitor, Call, set_device}
use libhs.Linux.{Aggregate, Allocated, read_device_information}

-- A device that libudev hands out, with the number of the memory for it, and what it answers then.
pub record Found : Type 0 where
  pub place : ℕ
  pub allocated : Allocated
  pub aggregate : Aggregate

-- The action of an event, with what the code reads of the device.
pub data Event : Type 0 where
  added : Found → Event
  removed : (devpath : Text) → Event
  other : Event

-- A device is read, given to `f`, and the reference that reading it gave is dropped.
module _ {W : Type 0} (f : Monitor → (place : ℕ) → W → Option (ℤ × Monitor × W)) where
  unfoldable pub pass_read :
      (place : ℕ) → ℤ × Option Device → Monitor → W → Option (ℤ × Monitor × W)
  pass_read place (r, none) m w = some (r, m, w)
  pass_read place (r, some dev) m w = do
    o ← f (set_device m place dev) place w
    dev' ← Device.unref (o.1.device place)
    some (o.0, set_device o.1 place dev', o.2)

  -- `calloc` gives memory that is not in use.
  unfoldable pub pass_found :
      (strtoul : Text → (base : ℕ) → ℕ × Bool) → Found → Monitor → W → Option (ℤ × Monitor × W)
  unfolding pass_read
  pass_found strtoul found m w =
      assert (m.device found.place).freed
      >> pass_read found.place (read_device_information strtoul found.allocated found.aggregate) m w

module _ {W : Type 0} (call : Call W) (fuel : ℕ) where
  -- The call for a path, whose callbacks' answers are lost.
  pub remove_path : (devpath : Text) → Monitor → W → Option (ℤ × Monitor × W)
  remove_path devpath m w = Monitor.remove call fuel m devpath w >>= λ s. some (pos 0, s.0, s.1)

  module _ (strtoul : Text → (base : ℕ) → ℕ × Bool) where
    -- The body of the loop of `hs_monitor_refresh`.
    pub handle : Event → Monitor → W → Option (ℤ × Monitor × W)
    unfolding pass_found remove_path
    handle (added found) m w = pass_found (Monitor.add call fuel) strtoul found m w
    handle (removed devpath) m w = remove_path devpath m w
    handle other m w = some (pos 0, m, w)

    -- `hs_monitor_refresh`; `out_of_memory` says that libudev has set `ENOMEM` when it has no more
    -- events. A negative result leaves the events behind it for the next call.
    unfoldable pub refresh :
        (out_of_memory : Bool) → List Event → Monitor → W → Option (ℤ × List Event × Monitor × W)
    unfolding handle
    refresh out_of_memory [] m w =
        some (if out_of_memory then ErrorCode.memory else pos 0, [], m, w)
    refresh out_of_memory (e ∷ es) m w = handle e m w >>= λ o.
        let rest = refresh out_of_memory es o.1 o.2 in
        if is_neg o.0 then some (o.0, es, o.1, o.2) else rest
