-- ===== src/Windows/Notifications.antt =====
-- The notifications of src/monitor_win32.c: those that the background thread queues, and what
-- `hs_monitor_refresh` takes and puts back. Each function between `EnterCriticalSection` and
-- `LeaveCriticalSection` is one step of the state that the two threads share.

pub mod Queue
use libhs.Base.{
  ℕ, Bool, true, false, ◌&&◌, ◌||◌, Option, none, some, List, [], ◌∷◌, ◌++◌, ℤ, pos, is_neg,
  if◌then◌else◌, ◌==◌, drop, length, not,
}
use libhs.ErrorCode
use libhs.Common.{Text}
use libhs.Windows.Ids.{extract_device_id}

-- `enum device_event`
pub data DeviceEvent : Type 0 where
  added removed : DeviceEvent

-- `struct device_notification`, less its list head.
pub record Notification : Type 0 where
  pub event : DeviceEvent
  pub key : Text

-- The fields of `struct hs_monitor` that the threads share; `signalled` is the state of `event`.
pub record Shared : Type 0 where
  pub ret : ℤ
  pub notifications : List Notification
  pub signalled : Bool

-- The allocations of `post_device_event` that succeed.
pub record Allocated : Type 0 where
  pub notification : Bool
  pub id : Bool

-- Under the lock.
unfoldable pub queue_notification : Notification → Shared → Shared
queue_notification notification s = record s {
  notifications = s.notifications ++ notification ∷ [];
  signalled = true;
}

unfoldable pub post_device_event : Allocated → DeviceEvent → (name : Text) → Shared → ℤ × Shared
unfolding queue_notification
post_device_event ok event name s =
    if not ok.notification then (ErrorCode.memory, s) else elim (extract_device_id ok.id name) [
      | none ↦ (ErrorCode.memory, s)
      | some key ↦ (pos 0, queue_notification (record { event = event; key = key }) s)
    ]

-- What the window receives: `WM_DEVICECHANGE` with an arrival or a removal, or something else.
pub data Message : Type 0 where
  arrival removal : Allocated → (name : Text) → Message
  unrelated : Message

-- `if (r < 0)`
unfoldable pub report_error : ℤ × Shared → Shared
report_error (r, s) = if is_neg r then record s { ret = r; signalled = true } else s

unfoldable pub window_proc : Message → Shared → Shared
unfolding post_device_event report_error
window_proc (arrival ok name) s = report_error (post_device_event ok added name s)
window_proc (removal ok name) s = report_error (post_device_event ok removed name s)
window_proc unrelated s = s

-- The first critical section of `hs_monitor_refresh`: the error and the notifications so far.
unfoldable pub take_notifications : Shared → (ℤ × List Notification) × Shared
take_notifications s = ((s.ret, s.notifications), record s { ret = pos 0; notifications = [] })

-- The last one: what was not handled goes in front of what came meanwhile.
unfoldable pub put_back : List Notification → Shared → Shared
put_back notifications s =
    let all = notifications ++ s.notifications in
    if length all == 0
    then record s { notifications = all; signalled = false }
    else record s { notifications = all }
