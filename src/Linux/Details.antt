-- ===== src/Linux/Details.antt =====
-- What the device is that `read_device_information` gives.
use libhs.Base.{
  ℕ, ◌^◌, ◌<◌, ◌≡◌, refl, sym, ap, ◌∙◌, Bool, true, false, Option, none, some, ℤ, pos, is_pos,
}
use libhs.Common.{Text}
use libhs.Device.{Device}
use libhs.Linux.{
  Usb, Aggregate, Allocated, Step, stop, next, last_byte, fill_device_details, finish, fresh,
  read_device_information,
}
use libhs.Linux.Steps.{
  Holds, next_Holds, then_Holds, if_Holds, weaken_Holds, need-Holds, need_existing-Holds,
  copy-Holds, copy_optional-Holds, kind-Holds, vtable_of, HasNoDot, location-Holds,
  number-Holds_short, number-Holds_byte,
}

-- The device stands for what libudev said.
pub record IsRead (agg : Aggregate) (usb : Usb) (dev : Device) : Type 0 where
  pub one_reference : dev.refcount ≡ 1
  pub live : dev.freed ≡ false
  pub unknown : dev.attached ≡ false
  pub functions : dev.vtable ≡ vtable_of dev.type
  pub exists : agg.exists ≡ true
  pub path : agg.devnode ≡ some dev.path
  pub key : dev.key ≡ agg.devpath
  pub location : (t : Text) × (dev.location ≡ some t) × HasNoDot t
  pub vid : dev.vid < 2 ^ 16
  pub pid : dev.pid < 2 ^ 16
  pub iface : dev.iface < 2 ^ 8
  pub manufacturer : dev.manufacturer ≡ usb.manufacturer
  pub product : dev.product ≡ usb.product
  pub serial_number : dev.serial_number ≡ usb.serial_number

fill-Holds :
    (strtoul : Text → (base : ℕ) → ℕ × Bool) (ok : Allocated) (agg : Aggregate) (usb : Usb)
    (iface : Text)
    → Holds (IsRead agg usb) (fill_device_details strtoul ok agg usb iface fresh)
unfolding fill_device_details
fill-Holds strtoul ok agg usb iface = then_Holds _ _ _ _ (need-Holds agg.subsystem) (λ subsystem e0.
    then_Holds _ _ _ _ (kind-Holds subsystem) (λ k functions.
      then_Holds _ _ _ _ (need_existing-Holds agg.exists agg.devnode) (λ devnode there.
        then_Holds _ _ _ _ (copy-Holds ok.path devnode) (λ path e1.
          then_Holds _ _ _ _ (copy-Holds ok.key agg.devpath) (λ key e2.
            then_Holds _ _ _ _ (location-Holds ok.location usb) (λ location dots.
              then_Holds _ _ _ _ (need-Holds usb.id_vendor) (λ vendor e3.
                then_Holds _ _ _ _ (number-Holds_short strtoul vendor) (λ vid vid_bound.
                  then_Holds _ _ _ _ (need-Holds usb.id_product) (λ product_id e4.
                    then_Holds _ _ _ _ (number-Holds_short strtoul product_id) (λ pid pid_bound.
                      then_Holds _ _ _ _ (copy_optional-Holds ok.manufacturer usb.manufacturer)
                        (λ manufacturer e5.
                          then_Holds _ _ _ _ (copy_optional-Holds ok.product usb.product)
                            (λ product e6.
                              then_Holds _ _ _ _
                                (copy_optional-Holds ok.serial_number usb.serial_number)
                                (λ serial_number e7.
                                  then_Holds _ _ _ _ (number-Holds_byte strtoul (last_byte iface))
                                    (λ n n_bound. next_Holds _ _ (record {
                                      one_reference = refl;
                                      live = refl;
                                      unknown = refl;
                                      functions = functions;
                                      exists = there.0;
                                      path = there.1 ∙ ap some (sym e1);
                                      key = e2;
                                      location = (location, refl, dots);
                                      vid = vid_bound;
                                      pid = pid_bound;
                                      iface = n_bound;
                                      manufacturer = e5;
                                      product = e6;
                                      serial_number = e7;
                                    })))))))))))))))

-- No device comes with a result that is not positive, and a device that was read with 1.
abbrev pub Sound : Aggregate → ℤ × Option Device → Type 0
Sound agg (r, none) = is_pos r ≡ false
Sound agg (r, some dev) = (r ≡ pos 1) × (usb : Usb) × (agg.usb ≡ some usb) × IsRead agg usb dev

finish-Sound :
    (agg : Aggregate) (s : Step Device)
    → Holds (λ dev. (usb : Usb) × (agg.usb ≡ some usb) × IsRead agg usb dev) s
    → Sound agg (finish s)
unfolding Holds finish
finish-Sound agg (stop r) h = h
finish-Sound agg (next dev) (usb, same, read) = (refl, usb, same, read)

-- Whatever libudev, `strtoul` and the allocations answer, `read_device_information` gives either no
-- device and a result that is not positive, or 1 and a device with one reference, in no monitor,
-- whose functions are those of its type, whose path is the node that exists, whose key is the path
-- in sysfs, whose location has no dot, whose numbers fit their widths and whose strings are those of
-- the USB device.
pub read_device_information-Sound :
    (strtoul : Text → (base : ℕ) → ℕ × Bool) (ok : Allocated) (agg : Aggregate)
    → Sound agg (read_device_information strtoul ok agg)
unfolding read_device_information
read_device_information-Sound strtoul ok agg = finish-Sound agg _ (
    then_Holds _ _ _ _ (need-Holds agg.usb) (λ usb same.
      then_Holds _ _ _ _ (need-Holds agg.iface) (λ iface e. if_Holds _ ok.device _ (
        weaken_Holds _ _ _ (fill-Holds strtoul ok agg usb iface) (λ dev read. (usb, same, read))))))
