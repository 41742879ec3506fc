-- ===== src/Linux.antt =====
-- `read_device_information` of src/monitor_linux.c, with what it calls there: how a device that
-- libudev knows becomes a device of the library. What libudev, `access`, `strtoul` and the
-- allocations answer are arguments; a path of libudev is never empty.
pub mod Steps
pub mod Details
pub mod Events
pub mod Create
mod Tests
use libhs.Base.{
  ℕ, ◌-◌, ◌%◌, ◌^◌, Bool, true, false, ◌&&◌, Option, none, some, List, [], ◌∷◌, ◌++◌, map, ℤ, pos,
  if◌then◌else◌, ◌==◌, length, drop,
}
use libhs.ErrorCode
use libhs.Common.{Text}
use libhs.Device.{Device, DeviceType, hid, serial, Vtable, posix_device, linux_hid, disconnected}
use libhs.Monitor.{text_eq}

-- The attributes of the USB device above a device.
pub record Usb : Type 0 where
  pub busnum : Option Text
  pub devpath : Option Text
  pub id_vendor : Option Text
  pub id_product : Option Text
  pub manufacturer : Option Text
  pub product : Option Text
  pub serial_number : Option Text

-- `struct udev_aggregate`, by what libudev answers for its three devices; `exists` is the answer of
-- `access`.
pub record Aggregate : Type 0 where
  pub subsystem : Option Text
  pub devnode : Option Text
  pub exists : Bool
  pub devpath : Text
  pub usb : Option Usb
  pub iface : Option Text

-- Which allocations succeed.
pub record Allocated : Type 0 where
  pub device : Bool
  pub path : Bool
  pub key : Bool
  pub location : Bool
  pub manufacturer : Bool
  pub product : Bool
  pub serial_number : Bool

-- A function returns early, or goes on with a value.
pub data Step (A : Type 0) : Type 0 where
  stop : ℤ → Step A
  next : A → Step A

infixl 5 ◌>>>◌
unfoldable pub ◌>>>◌ : {A B : Type 0} → Step A → (A → Step B) → Step B
stop r >>> f = stop r
next a >>> f = f a

-- `if (!buf) return 0;`
unfoldable pub need : {A : Type 0} → Option A → Step A
need none = stop (pos 0)
need (some a) = next a

-- `strdup`
unfoldable pub copy : (allocated : Bool) → Text → Step Text
copy allocated s = if allocated then next s else stop ErrorCode.memory

pub copy_optional : (allocated : Bool) → Option Text → Step (Option Text)
unfolding copy
copy_optional allocated none = next none
copy_optional allocated (some s) = copy allocated s >>> λ c. next (some c)

-- The bytes of `hidraw`, `tty` and `usb-`.
abbrev pub hidraw_text : Text
hidraw_text = 104 ∷ 105 ∷ 100 ∷ 114 ∷ 97 ∷ 119 ∷ []

abbrev pub tty_text : Text
tty_text = 116 ∷ 116 ∷ 121 ∷ []

abbrev pub usb_text : Text
usb_text = 117 ∷ 115 ∷ 98 ∷ 45 ∷ []

-- The loop of `compute_device_location`, at one byte.
abbrev pub dash_for_dot : ℕ → ℕ
dash_for_dot c = if c == 46 then 45 else c

pub compute_device_location : (allocated : Bool) → Usb → Step Text
unfolding need
compute_device_location allocated usb = need usb.busnum >>> λ busnum.
    need usb.devpath >>> λ devpath.
    if allocated
    then next (map dash_for_dot (usb_text ++ busnum ++ 45 ∷ devpath))
    else stop ErrorCode.memory

-- The type and the functions for a subsystem.
pub kind : Text → Step (DeviceType × Vtable)
kind subsystem =
    if text_eq subsystem hidraw_text
    then next (hid, linux_hid)
    else if text_eq subsystem tty_text
    then next (serial, posix_device)
    else stop (pos 0)

-- The text behind `buf += strlen(buf) - 1`.
last_byte : Text → Text
last_byte buf = drop (length buf - 1) buf

module _ (strtoul : Text → (base : ℕ) → ℕ × Bool) where
  -- `errno = 0; strtoul(...); if (errno) return 0;`, converted to a width.
  pub number : (base width : ℕ) → Text → Step ℕ
  number base width s =
      if (strtoul s base).1 then stop (pos 0) else next ((strtoul s base).0 % 2 ^ width)

  fill_device_details : Allocated → Aggregate → (usb : Usb) → (iface : Text) → Device → Step Device
  unfolding need kind copy copy_optional compute_device_location number last_byte
  fill_device_details ok agg usb iface dev = need agg.subsystem >>> λ subsystem.
      kind subsystem >>> λ k. need (if agg.exists then agg.devnode else none) >>> λ devnode.
      copy ok.path devnode >>> λ path. copy ok.key agg.devpath >>> λ key.
      compute_device_location ok.location usb >>> λ location. need usb.id_vendor >>> λ vendor.
      number 16 16 vendor >>> λ vid. need usb.id_product >>> λ product_id.
      number 16 16 product_id >>> λ pid.
      copy_optional ok.manufacturer usb.manufacturer >>> λ manufacturer.
      copy_optional ok.product usb.product >>> λ product.
      copy_optional ok.serial_number usb.serial_number >>> λ serial_number.
      number 10 8 (last_byte iface) >>> λ n. next (record dev {
        type = k.0;
        vtable = k.1;
        path = path;
        key = key;
        location = some location;
        vid = vid;
        pid = pid;
        manufacturer = manufacturer;
        product = product;
        serial_number = serial_number;
        iface = n;
      })

-- The result, with the device that was read. A device that is given up is freed, since it has one
-- reference.
finish : Step Device → ℤ × Option Device
finish (stop r) = (r, none)
finish (next dev) = (pos 1, some dev)

-- `calloc`, and `dev->refcount = 1`.
abbrev pub fresh : Device
fresh = record {
  attached = false;
  refcount = 1;
  key = [];
  type = hid;
  vtable = posix_device;
  state = disconnected;
  location = none;
  path = [];
  vid = 0;
  pid = 0;
  manufacturer = none;
  product = none;
  serial_number = none;
  iface = 0;
  freed = false;
}

unfoldable pub read_device_information :
    (strtoul : Text → (base : ℕ) → ℕ × Bool) → Allocated → Aggregate → ℤ × Option Device
unfolding fill_device_details finish need
read_device_information strtoul ok agg = finish (
    need agg.usb >>> λ usb. need agg.iface >>> λ iface.
    if ok.device then fill_device_details strtoul ok agg usb iface fresh else stop ErrorCode.memory)
