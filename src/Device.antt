-- ===== src/Device.antt =====
-- src/device.c and `struct hs_device` of src/device_priv.h: a device and its reference count. A
-- device that was freed stays in the model with the mark `freed`, and a use of it is a `none`.
pub mod Live
pub mod Open
use libhs.Base.{
  ℕ, ◌+◌, ◌-◌, ◌%◌, ◌^◌, Bool, true, false, Option, none, some, if◌then◌else◌, ltb, ◌>>=◌, ◌>>◌,
  assert, not,
}
use libhs.Common.{Text}

-- `enum hs_device_status`
pub data DeviceStatus : Type 0 where
  disconnected online : DeviceStatus

abbrev pub is_online : DeviceStatus → Bool
is_online disconnected = false
is_online online = true

-- `enum hs_device_type`
pub data DeviceType : Type 0 where
  hid serial : DeviceType

-- `dev->vtable`, of the two tables that Linux has.
pub data Vtable : Type 0 where
  posix_device linux_hid : Vtable

-- `attached` says whether `dev->monitor` is not null; there is one monitor.
pub record Device : Type 0 where
  pub attached : Bool
  pub refcount : ℕ
  pub key : Text
  pub type : DeviceType
  pub vtable : Vtable
  pub state : DeviceStatus
  pub location : Option Text
  pub path : Text
  pub vid : ℕ
  pub pid : ℕ
  pub manufacturer : Option Text
  pub product : Option Text
  pub serial_number : Option Text
  pub iface : ℕ
  pub freed : Bool

-- `hs_device_ref`: the count is an `unsigned int`.
unfoldable pub ref : Device → Option Device
ref dev = do assert (not dev.freed); some (record dev { refcount = (dev.refcount + 1) % 2 ^ 32 })

-- `hs_device_unref` of a device that is not null. The count falls in any case; the memory is freed
-- unless the old count was greater than 1.
unfoldable pub unref : Device → Option Device
unref dev = do
  assert (not dev.freed)
  let dev' = record dev { refcount = (dev.refcount + 2 ^ 32 - 1) % 2 ^ 32 }
  some (if ltb 1 dev.refcount then dev' else record dev' { freed = true })
