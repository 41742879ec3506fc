-- ===== src/Darwin/Events.antt =====
-- The notifications of src/monitor_darwin.c: what becomes of a monitor while `hs_monitor_refresh`
-- dispatches the messages of its port. What IOKit, the kernel and the allocations answer is an
-- argument. What is left in an iterator is not modelled.
pub mod Owned
use libhs.Base.{
  ℕ, Bool, true, false, not, Option, none, some, List, [], ◌∷◌, ℤ, pos, is_neg, int_eq,
  if◌then◌else◌, ◌>>=◌, ◌>>◌, assert, take,
}
use libhs.ErrorCode
use libhs.Common.{Text}
use libhs.Device.{Device}
use libhs.Monitor
use libhs.Monitor.{Monitor, Call}
use libhs.Linux.Events.{pass_read, remove_path}
use libhs.Darwin.Discovery.{Service, process_darwin_device, hex}

-- A service of an iterator, with the memory that `calloc` gives for its device.
pub record Found : Type 0 where
  pub place : ℕ
  pub service : Service

module _ {W : Type 0} (f : Monitor → (place : ℕ) → W → Option (ℤ × Monitor × W)) where
  -- `calloc` gives memory that is not in use.
  unfoldable pub process_iterator_devices : List Found → Monitor → W → Option (ℤ × Monitor × W)
  process_iterator_devices [] m w = some (pos 0, m, w)
  process_iterator_devices (x ∷ xs) m w =
      assert (m.device x.place).freed
      >> process_darwin_device x.service
      >>= (λ read. pass_read f x.place read m w)
      >>= λ o.
          let rest = process_iterator_devices xs o.1 o.2 in
          if int_eq o.0 (pos 0) then rest else some o

-- A message of the port calls `darwin_devices_attached` with the services of its iterator, or
-- `darwin_devices_detached` with the session of each, if it has one.
pub data Message : Type 0 where
  attached : List Found → Message
  detached : List (Option ℕ) → Message

-- The key that `remove_device` prints into its 16 bytes.
abbrev pub removed_key : (session : ℕ) → Text
removed_key session = take 15 (hex session)

module _ {W : Type 0} (call : Call W) (fuel : ℕ) where
  unfoldable pub remove_device : (session : Option ℕ) → Monitor → W → Option (Monitor × W)
  remove_device none m w = some (m, w)
  remove_device (some session) m w = Monitor.remove call fuel m (removed_key session) w

  unfoldable pub darwin_devices_detached : List (Option ℕ) → Monitor → W → Option (Monitor × W)
  unfolding remove_device
  darwin_devices_detached [] m w = some (m, w)
  darwin_devices_detached (session ∷ sessions) m w =
      remove_device session m w >>= λ o. darwin_devices_detached sessions o.0 o.1

  -- The callback of a message, with the value of `notify_ret` that it leaves.
  unfoldable pub dispatch : Message → (notify_ret : ℤ) → Monitor → W → Option (ℤ × Monitor × W)
  unfolding process_iterator_devices darwin_devices_detached
  dispatch (attached xs) notify_ret m w = process_iterator_devices (Monitor.add call fuel) xs m w
  dispatch (detached sessions) notify_ret m w =
      darwin_devices_detached sessions m w >>= λ o. some (notify_ret, o.0, o.1)

  -- The loop of `hs_monitor_refresh`: the result, the messages left in the port, and the monitor;
  -- `failed` is a failure of `mach_msg` other than its end of time behind the messages.
  unfoldable pub dispatch_all :
      (failed : Bool)
      → List Message
      → (notify_ret : ℤ) → Monitor
      → W
      → Option (ℤ × List Message × ℤ × Monitor × W)
  unfolding dispatch
  dispatch_all failed [] notify_ret m w =
      some (if failed then ErrorCode.system else pos 0, [], notify_ret, m, w)
  dispatch_all failed (message ∷ messages) notify_ret m w = dispatch message notify_ret m w >>= λ o.
      let rest = dispatch_all failed messages o.0 o.1 o.2 in
      if int_eq o.0 (pos 0) then rest else some (o.0, messages, pos 0, o.1, o.2)

  -- `hs_monitor_refresh`, by the number that `kevent` returns; the fields are those of `dispatch_all`.
  unfoldable pub refresh :
      (events : ℤ)
      → (failed : Bool) → List Message
      → (notify_ret : ℤ) → Monitor
      → W
      → Option (ℤ × List Message × ℤ × Monitor × W)
  unfolding dispatch_all
  refresh events failed messages notify_ret m w =
      if is_neg events
      then some (ErrorCode.system, messages, notify_ret, m, w)
      else if int_eq events (pos 0)
      then some (pos 0, messages, notify_ret, m, w)
      else dispatch_all failed messages notify_ret m w
