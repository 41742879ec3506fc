-- ===== src/Darwin/Discovery/Outcome.antt =====
-- What the device is that `process_darwin_device` gives.
use libhs.Base.{
  ℕ, ◌^◌, ◌%◌, ◌<◌, ◌≤◌, ◌≡◌, refl, sym, ap, Bool, false, not, ◌&&◌, Option, none, some, ℤ, pos,
  is_pos, arith, length, inl, inr, Option-cases,
}
use libhs.ErrorCode
use libhs.Common.{Text}
use libhs.Device.{Device, DeviceType, hid, serial}
use libhs.Linux.{Step, stop, next, ◌>>>◌}
use libhs.Linux.Steps.{Holds, next_Holds, then_Holds, weaken_Holds, need-Holds, copy-Holds, if_both}
use libhs.Darwin.Location.Bounds.{resolve_device_location-Sound}
use libhs.Darwin.Location.Bounds
use libhs.Darwin.Discovery.{
  hex, StringAnswers, get_ioregistry_value_string, Class, serial_client, hid_device, unknown,
  get_ioregistry_entry_path, find_device_node, Service, start_device, set_location, finish, spilled,
  is_some, leaves_pointer, process_darwin_device,
}

-- Where the path and the type come from.
abbrev pub Named : Class → Device → Type 0
Named (serial_client a) dev = (dev.type ≡ serial) × (a.string ≡ some dev.path)
Named (hid_device path allocated) dev = (dev.type ≡ hid) × (path ≡ some dev.path)
Named unknown dev = ⊥

-- A string that is given is the property's.
abbrev pub GivenBy : Option Text → Option Text → Type 0
GivenBy string s = (text : Text) → s ≡ some text → string ≡ some text

-- The device stands for what IOKit said, up to its location and its node.
pub record IsStarted (a : Service) (dev : Device) : Type 0 where
  pub one_reference : dev.refcount ≡ 1
  pub live : dev.freed ≡ false
  pub unattached : dev.attached ≡ false
  pub key : (session : ℕ) × (a.session ≡ some session) × (dev.key ≡ hex session)
  pub vid : (n : ℕ) × (a.id_vendor ≡ some n) × (dev.vid ≡ n % 2 ^ 16)
  pub pid : (n : ℕ) × (a.id_product ≡ some n) × (dev.pid ≡ n % 2 ^ 16)
  pub iface : (n : ℕ) × (a.interface_number ≡ some n) × (dev.iface ≡ n % 2 ^ 8)
  pub manufacturer : GivenBy a.vendor_name.string dev.manufacturer
  pub product : GivenBy a.product_name.string dev.product
  pub serial_number : GivenBy a.serial_number.string dev.serial_number

pub record IsLocated (a : Service) (dev : Device) : Type 0 where
  pub started : IsStarted a dev
  pub location : (text : Text) × (dev.location ≡ some text) × (length text ≤ 67)

string-Holds : (a : StringAnswers) → Holds (GivenBy a.string) (get_ioregistry_value_string a)
unfolding get_ioregistry_value_string Holds
string-Holds a = elim (Option-cases a.string) [
  | inl absent ↦ rw (get_ioregistry_value_string, absent) (λ text e. absurd (cc))
  | inr (s, e) ↦
      rw (get_ioregistry_value_string, e)
        (if_both (GivenBy (some s)) (not a.allocated) (stop ErrorCode.memory) _ refl (
          if_both (GivenBy (some s)) a.converted (next (some s)) (next none) (λ text h. h)
            (λ text h. absurd (cc))))
]

start_device-Holds : (a : Service) → Holds (IsStarted a) (start_device a)
unfolding start_device Holds
start_device-Holds a = if_both _ (not a.interface_parent) _ _ refl (
    if_both _ (not a.device_parent) _ _ refl (
      if_both _ (not a.allocated) _ _ refl (
        then_Holds _ _ _ _ (need-Holds a.session) (λ session e.
          then_Holds _ _ _ _ (need-Holds a.id_vendor) (λ vid e1.
            then_Holds _ _ _ _ (need-Holds a.id_product) (λ pid e2.
              then_Holds _ _ _ _ (need-Holds a.interface_number) (λ iface e3.
                if_both _ (not a.key_allocated) _ _ refl (
                  then_Holds (GivenBy a.vendor_name.string) _ _ _ (string-Holds a.vendor_name)
                    (λ m h.
                      then_Holds (GivenBy a.product_name.string) _ _ _ (string-Holds a.product_name)
                        (λ p h'.
                          then_Holds (GivenBy a.serial_number.string) _ _ _
                            (string-Holds a.serial_number)
                            (λ s h''. next_Holds (IsStarted a) _ (record {
                              one_reference = refl;
                              live = refl;
                              unattached = refl;
                              key = (session, e, refl);
                              vid = (vid, e1, refl);
                              pid = (pid, e2, refl);
                              iface = (iface, e3, refl);
                              manufacturer = h;
                              product = h';
                              serial_number = h'';
                            }))))))))))))

IsLocated-typed :
    (a : Service) (dev : Device) (type : DeviceType) (path : Text)
    → IsLocated a dev
    → IsLocated a (record dev { type = type; path = path })
IsLocated-typed a dev type path h = record {
  started = record {
    one_reference = h.started.one_reference;
    live = h.started.live;
    unattached = h.started.unattached;
    key = h.started.key;
    vid = h.started.vid;
    pid = h.started.pid;
    iface = h.started.iface;
    manufacturer = h.started.manufacturer;
    product = h.started.product;
    serial_number = h.started.serial_number;
  };
  location = h.location;
}

registry_path-Holds :
    (path : Option Text) (allocated : Bool)
    → Holds (λ p. path ≡ some p) (get_ioregistry_entry_path path allocated)
unfolding get_ioregistry_entry_path Holds
registry_path-Holds none allocated = refl
registry_path-Holds (some p) allocated =
    weaken_Holds (λ c. c ≡ p) (λ c. some p ≡ some c) _ (copy-Holds allocated p)
      (λ c e. ap some (sym e))

find_device_node-Holds :
    (a : Service) (class : Class) (dev : Device)
    → IsLocated a dev
    → Holds (λ dev'. IsLocated a dev' × Named class dev') (find_device_node class dev)
unfolding find_device_node Holds
find_device_node-Holds a (serial_client s) dev h =
    then_Holds (GivenBy s.string) _ _ _ (string-Holds s) (λ o given.
      then_Holds (λ path. o ≡ some path) _ _ _ (need-Holds o)
        (λ path e.
          next_Holds (λ dev'. IsLocated a dev' × Named (serial_client s) dev') _
            (IsLocated-typed a dev serial path h, (refl, given path e))))
find_device_node-Holds a (hid_device path allocated) dev h =
    then_Holds (λ p. path ≡ some p) _ _ _ (registry_path-Holds path allocated)
      (λ p e.
        next_Holds (λ dev'. IsLocated a dev' × Named (hid_device path allocated) dev') _
          (IsLocated-typed a dev hid p h, (refl, e)))
find_device_node-Holds a unknown dev h = refl

-- What the location leaves.
set_location-Holds :
    (a : Service) (dev : Device) (o : ℤ × Option Text)
    → Bounds.Sound o
    → IsStarted a dev
    → Holds (IsLocated a) (set_location o dev)
unfolding set_location Holds
set_location-Holds a dev (r, none) (inl e) st = rw e refl
set_location-Holds a dev (r, none) (inr e) st = rw e refl
set_location-Holds a dev (r, some text) (one, short) st = rw one (record {
  started = record {
    one_reference = st.one_reference;
    live = st.live;
    unattached = st.unattached;
    key = st.key;
    vid = st.vid;
    pid = st.pid;
    iface = st.iface;
    manufacturer = st.manufacturer;
    product = st.product;
    serial_number = st.serial_number;
  };
  location = (text, refl, short);
})

-- No device comes with a result that is not positive, and a device that was found with 1.
abbrev pub Sound : Service → ℤ × Option Device → Type 0
Sound a (r, none) = is_pos r ≡ false
Sound a (r, some dev) = (r ≡ pos 1) × IsLocated a dev × Named a.class dev

finish-Sound :
    (a : Service) (s : Step Device)
    → Holds (λ dev. IsLocated a dev × Named a.class dev) s
    → Sound a (finish s)
unfolding Holds finish
finish-Sound a (stop r) h = h
finish-Sound a (next dev) h = (refl, h.0, h.1)

-- The array of ports has its size, and the product number has at most 48 bits.
abbrev pub ShortNumber : Option ℕ → Type 0
ShortNumber none = Unit
ShortNumber (some n) = n < 2 ^ 48

abbrev pub Fits : Service → Type 0
Fits a = (length a.ports ≡ 16) × ShortNumber a.id_product

spilled-ShortNumber : (o : Option ℕ) → ShortNumber o → spilled o ≡ false
spilled-ShortNumber none short = refl
spilled-ShortNumber (some n) short = ground arith

none_of : (a b c d e rest : Bool) → rest ≡ false → (a && (b && (c && (d && (e && rest))))) ≡ false
none_of a b c d e rest off = ground arith

leaves_pointer-Fits : (a : Service) → Fits a → leaves_pointer a ≡ false
unfolding leaves_pointer
leaves_pointer-Fits a fits =
    let dry = spilled-ShortNumber a.id_product fits.1 in
    none_of a.interface_parent a.device_parent a.allocated (is_some a.session) (is_some a.id_vendor)
      _ (rw dry refl)

started-Sound :
    (a : Service) (s : Step Device)
    → start_device a ≡ s
    → Holds (IsStarted a) s
    → Fits a
    → (r : ℤ × Option Device) × (process_darwin_device a ≡ some r) × Sound a r
unfolding process_darwin_device Holds
started-Sound a (stop r) e h room =
    ((r, none), rw (process_darwin_device, leaves_pointer-Fits a room, e) refl, h)
started-Sound a (next dev) e h room =
    let (o, located, sound) =
      resolve_device_location-Sound a.location_allocated a.controller a.port a.ports_above a.ports
        room.0 in
    (
      finish (set_location o dev >>> find_device_node a.class),
      rw (process_darwin_device, leaves_pointer-Fits a room, e, located) refl,
      finish-Sound a (set_location o dev >>> find_device_node a.class) (
          then_Holds (IsLocated a) _ _ _ (set_location-Holds a dev o sound h)
            (λ dev' l. find_device_node-Holds a a.class dev' l)),
    )

-- For an array of ports that has its size, a product number of at most 48 bits, if there is one, and
-- whatever else IOKit and the allocations answer, `process_darwin_device` ends without a fault.
-- Without a device the result is not positive. With one it is 1, and the device has one reference and
-- no monitor; its key is the session's number in hexadecimal; its vendor, product and interface
-- numbers are the low bits of those that IOKit gives, and its strings, where it has them, those that
-- IOKit gives; its location is a text of at most 67 bytes; and its type and path are those of its
-- class.
pub process_darwin_device-Sound :
    (a : Service)
    → Fits a
    → (r : ℤ × Option Device) × (process_darwin_device a ≡ some r) × Sound a r
process_darwin_device-Sound a = started-Sound a (start_device a) refl (start_device-Holds a)
