-- ===== src/Windows/Refresh.antt =====
-- `hs_monitor_refresh` of src/monitor_win32.c. What Windows and `calloc` answer while the n-th
-- notification is handled is `arrivals n`; what the window receives meanwhile is an argument.
pub mod Outcome
use libhs.Base.{
  ℕ, suc, ◌+◌, Bool, true, false, Option, none, some, List, [], ◌∷◌, ◌++◌, ℤ, pos, is_neg,
  if◌then◌else◌, ◌>>=◌, ◌>>◌, assert,
}
use libhs.Common.{Text}
use libhs.Device.{Device}
use libhs.Monitor
use libhs.Monitor.{Monitor, Call}
use libhs.Linux.Events.{pass_read, remove_path}
use libhs.Windows.Controllers.{Controller}
use libhs.Windows.Location.{Node}
use libhs.Windows.Reading.{Answers, Scanned, process_win32_device}
use libhs.Windows.Notifications.{
  DeviceEvent, added, removed, Notification, Shared, Message, window_proc, take_notifications,
  put_back,
}

-- What an arrival meets: whether `CM_Locate_DevNode` finds the node, the place that `calloc` gives,
-- and the node with those above it.
pub record Arrival : Type 0 where
  pub located : Bool
  pub place : ℕ
  pub answers : Answers
  pub node : Node
  pub parents : List Node

-- What does not change while the notifications are handled.
pub record Setting : Type 0 where
  pub hid_guid : Text
  pub scan : Text → Scanned
  pub vista : Bool
  pub controllers : List Controller

unfoldable pub read_arrival : Setting → Arrival → (key : Text) → Option (ℤ × Option Device)
read_arrival c x key =
    process_win32_device c.hid_guid c.scan c.vista c.controllers x.answers (some key) x.node
      x.parents

-- The window's messages, one after the other.
unfoldable pub receive : List Message → Shared → Shared
receive [] s = s
receive (m ∷ ms) s = receive ms (window_proc m s)

module _ {W : Type 0} (call : Call W) (fuel : ℕ) (c : Setting) where
  -- A node that is not found makes the code read the key of a device that is null. `calloc` gives
  -- memory that is not in use.
  unfoldable pub process_arrival_notification :
      Arrival → (key : Text) → Monitor → W → Option (ℤ × Monitor × W)
  unfolding read_arrival
  process_arrival_notification x key m w =
      assert x.located >> assert (m.device x.place).freed >> read_arrival c x key >>= λ read.
      pass_read (Monitor.add call fuel) x.place read m w

  -- The body of the loop.
  unfoldable pub handle_notification :
      Arrival → Notification → Monitor → W → Option (ℤ × Monitor × W)
  unfolding process_arrival_notification
  handle_notification x n m w = elim n.event [
    | added ↦ process_arrival_notification x n.key m w
    | removed ↦ remove_path call fuel n.key m w
  ]

  -- The loop, from the notification `i`: the result, and what was not handled.
  unfoldable pub handle_all :
      (ℕ → Arrival)
      → (i : ℕ) → List Notification
      → Monitor
      → W
      → Option (ℤ × List Notification × Monitor × W)
  unfolding handle_notification
  handle_all arrivals i [] m w = some (pos 0, [], m, w)
  handle_all arrivals i (n ∷ ns) m w = handle_notification (arrivals i) n m w >>= λ o.
      let rest = handle_all arrivals (suc i) ns o.1 o.2 in
      if is_neg o.0 then some (o.0, ns, o.1, o.2) else rest

  -- Between the critical sections: an error of the thread is returned at once.
  unfoldable pub handle_taken :
      (ℕ → Arrival)
      → ℤ × List Notification
      → Monitor
      → W
      → Option (ℤ × List Notification × Monitor × W)
  unfolding handle_all
  handle_taken arrivals (r, ns) m w =
      if is_neg r then some (r, ns, m, w) else handle_all arrivals 0 ns m w

  -- `messages` is what the window receives between the critical sections.
  unfoldable pub refresh :
      (ℕ → Arrival)
      → (messages : List Message) → Shared
      → Monitor
      → W
      → Option (ℤ × Shared × Monitor × W)
  unfolding handle_taken receive
  refresh arrivals messages s m w =
      let taken = take_notifications s in
      handle_taken arrivals taken.0 m w >>= λ o.
      some (o.0, put_back o.1 (receive messages taken.1), o.2, o.3)
