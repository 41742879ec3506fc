-- ===== src/Darwin/Discovery.antt =====
-- `process_darwin_device` of src/monitor_darwin.c and what it calls. What IOKit and the allocations
-- answer is an argument; a number is by its 64 bits. The table of functions of a device is not
-- modelled. `struct hs_device` is laid out as on 64-bit macOS, little endian: `vid`, `pid` and four
-- bytes of padding before the pointer `manufacturer`, `iface` and seven bytes of padding at the end.
pub mod Outcome
use libhs.Base.{
  ℕ, zero, suc, ◌+◌, ◌/◌, ◌%◌, ◌^◌, Bool, true, false, not, ◌&&◌, ◌==◌, Option, none, some, List,
  [], ◌∷◌, ◌++◌, ℤ, pos, is_pos, if◌then◌else◌, ltb, ◌>>=◌, take,
}
use libhs.ErrorCode
use libhs.Common.{Text}
use libhs.Device.{Device, DeviceType, hid, serial}
use libhs.Linux.{Step, stop, next, ◌>>>◌, need, copy, fresh}
use libhs.Darwin.Location.{resolve_device_location}

-- The digit that `%x` prints.
abbrev pub hex_digit : ℕ → ℕ
hex_digit n = if ltb n 10 then 48 + n else 87 + n

-- The text that `%PRIx64` prints, with the digits left and those behind.
unfoldable pub hex_loop : (rounds n : ℕ) → Text → Text
hex_loop zero n digits = digits
hex_loop (suc rounds) n digits =
    let digits' = hex_digit (n % 16) ∷ digits in
    let rest = hex_loop rounds (n / 16) digits' in if ltb n 16 then digits' else rest

unfoldable pub hex : ℕ → Text
unfolding hex_loop
hex n = hex_loop 16 n []

-- A property as a string: the string if it is one, the allocation, and whether the conversion works.
pub record StringAnswers : Type 0 where
  pub string : Option Text
  pub allocated : Bool
  pub converted : Bool

unfoldable pub get_ioregistry_value_string : StringAnswers → Step (Option Text)
get_ioregistry_value_string a = elim a.string [
  | none ↦ next none
  | some s ↦
      if not a.allocated
      then stop ErrorCode.memory
      else if a.converted
      then next (some s)
      else next none
]

-- The class of a service, with what is asked of it: the callout device, or the path in the registry
-- and its copy.
pub data Class : Type 0 where
  serial_client : StringAnswers → Class
  hid_device : (path : Option Text) → (allocated : Bool) → Class
  unknown : Class

unfoldable pub get_ioregistry_entry_path : (path : Option Text) → (allocated : Bool) → Step Text
unfolding copy
get_ioregistry_entry_path path allocated = elim path [
  | none ↦ stop ErrorCode.system
  | some p ↦ copy allocated p
]

unfoldable pub find_device_node : Class → Device → Step Device
unfolding get_ioregistry_value_string get_ioregistry_entry_path need
find_device_node (serial_client a) dev = get_ioregistry_value_string a >>> λ s.
    need s >>> λ path. next (record dev { type = serial; path = path })
find_device_node (hid_device path allocated) dev =
    get_ioregistry_entry_path path allocated >>> λ p. next (record dev { type = hid; path = p })
find_device_node unknown dev = stop (pos 0)

-- What a service answers: the parents that conform, the numbers, the strings, the class, and what
-- `resolve_device_location` meets.
pub record Service : Type 0 where
  pub interface_parent : Bool
  pub device_parent : Bool
  pub allocated : Bool
  pub session : Option ℕ
  pub id_vendor : Option ℕ
  pub id_product : Option ℕ
  pub interface_number : Option ℕ
  pub key_allocated : Bool
  pub vendor_name : StringAnswers
  pub product_name : StringAnswers
  pub serial_number : StringAnswers
  pub location_allocated : Bool
  pub controller : ℕ
  pub port : Option ℕ
  pub ports_above : List (Option ℕ)
  pub ports : List ℕ
  pub class : Class

-- Up to the location.
unfoldable pub start_device : Service → Step Device
unfolding need get_ioregistry_value_string hex
start_device a =
    if not a.interface_parent
    then stop (pos 0)
    else if not a.device_parent
    then stop (pos 0)
    else if not a.allocated
    then stop ErrorCode.memory
    else need a.session >>> λ session. need a.id_vendor >>> λ vid. need a.id_product >>> λ pid.
        need a.interface_number >>> λ iface.
        if not a.key_allocated
        then stop ErrorCode.memory
        else get_ioregistry_value_string a.vendor_name >>> λ manufacturer.
            get_ioregistry_value_string a.product_name >>> λ product.
            get_ioregistry_value_string a.serial_number >>> λ serial_number. next (record fresh {
              vid = vid % 2 ^ 16;
              pid = pid % 2 ^ 16;
              iface = iface % 2 ^ 8;
              key = hex session;
              manufacturer = manufacturer;
              product = product;
              serial_number = serial_number;
            })

-- The 64-bit write over `vid` ends with the padding, as does that over `iface`; the one over `pid`
-- reaches two bytes of `manufacturer`, which get the highest 16 bits of the number.
abbrev pub spilled : (id_product : Option ℕ) → Bool
spilled none = false
spilled (some n) = not (n / 2 ^ 48 % 2 ^ 16 == 0)

abbrev pub is_some : {A : Type 0} → Option A → Bool
is_some none = false
is_some (some a) = true

-- Whether `get_ioregistry_value_string` stores a string.
abbrev stores_string : StringAnswers → Bool
stores_string a = is_some a.string && (a.allocated && a.converted)

-- The write over `pid` is made, and no string takes the place of what it leaves in `manufacturer`: it
-- is freed, or handed out, as a pointer.
unfoldable pub leaves_pointer : Service → Bool
leaves_pointer a =
    a.interface_parent
    && (a.device_parent
        && (a.allocated
            && (is_some a.session
                && (is_some a.id_vendor
                    && (spilled a.id_product
                        && not (
                            is_some a.interface_number
                            && (a.key_allocated && stores_string a.vendor_name)))))))

-- Behind `resolve_device_location`, with its result and its text.
unfoldable pub set_location : ℤ × Option Text → Device → Step Device
set_location (r, location) dev =
    if is_pos r then next (record dev { location = location }) else stop r

-- The result, and the device; a device that is given up is freed, since it has one reference.
unfoldable pub finish : Step Device → ℤ × Option Device
finish (stop r) = (r, none)
finish (next dev) = (pos 1, some dev)

-- `none` is a fault.
unfoldable pub process_darwin_device : Service → Option (ℤ × Option Device)
unfolding start_device leaves_pointer set_location find_device_node finish
process_darwin_device a = if leaves_pointer a then none else elim (start_device a) [
  | stop r ↦ some (r, none)
  | next dev ↦
      resolve_device_location a.location_allocated a.controller a.port a.ports_above a.ports
      >>= λ o. some (finish (set_location o dev >>> find_device_node a.class))
]
