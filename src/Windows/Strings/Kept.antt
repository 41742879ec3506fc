-- ===== src/Windows/Strings/Kept.antt =====
-- Reading the texts changes nothing else of a device.
use libhs.Base.{◌≡◌, refl, Option, some, ◌==◌, not}
use libhs.Common.{Text}
use libhs.Device.{Device, DeviceType, hid, serial}
use libhs.Linux.{Step, next, ◌>>>◌}
use libhs.Linux.Steps.{Holds, next_Holds, then_Holds, if_both}
use libhs.Windows.Strings.{
  WideAnswers, wide_to_cstring, PropertyAnswers, read_hid_property, DescriptorAnswers, is_malformed,
  get_string_descriptor, read_strings, HubAnswers, read_hid_properties, ask_hub,
}

-- The texts alone may differ.
abbrev pub KeptBut : Device → Device → Type 0
KeptBut dev dev' =
    (m p s : Option Text) × (dev' ≡ record dev { manufacturer = m; product = p; serial_number = s })

abbrev Fine : {A : Type 0} → Step A → Type 0
Fine = Holds (λ a. Unit)

wide-Fine : (a : WideAnswers) → Fine (wide_to_cstring a)
unfolding wide_to_cstring Holds
wide-Fine a = if_both _ (not a.copied) _ _ refl (
    if_both _ (a.length == 0) _ _ refl
      (if_both _ (not a.allocated) _ _ refl (if_both _ (a.length' == 0) _ _ refl tt)))

wide_text-Fine : (a : WideAnswers) → Fine (wide_to_cstring a >>> λ s. next (some s))
unfolding Holds
wide_text-Fine a = then_Holds _ _ _ _ (wide-Fine a) (λ s h. tt)

hid_property-Fine : (a : PropertyAnswers) → Fine (read_hid_property a)
unfolding read_hid_property Holds
hid_property-Fine a =
    if_both _ (a.index == 0) _ _ tt (if_both _ a.success _ _ (wide_text-Fine a.wide) tt)

descriptor-Fine : (a : DescriptorAnswers) → Fine (get_string_descriptor a)
unfolding get_string_descriptor Holds
descriptor-Fine a =
    if_both _ (a.index == 0) _ _ tt
      (if_both _ (not a.success) _ _ tt (if_both _ (is_malformed a) _ _ tt (wide_text-Fine a.wide)))

read_strings-Kept :
    {A : Type 0} (read : A → Step (Option Text)) (a : A × A × A) (dev : Device)
    → ((x : A) → Fine (read x))
    → Holds (KeptBut dev) (read_strings read a dev)
unfolding read_strings
read_strings-Kept read a dev fine = then_Holds _ _ _ _ (fine a.0) (λ m h.
    then_Holds _ _ _ _ (fine a.1)
      (λ p h'. then_Holds _ _ _ _ (fine a.2) (λ s h''. next_Holds _ _ (m, p, s, refl))))

same-Kept : (dev : Device) → Holds (KeptBut dev) (next dev)
same-Kept dev = next_Holds _ dev (dev.manufacturer, dev.product, dev.serial_number, refl)

hid_properties-Kept :
    (a : HubAnswers) (dev : Device) → Holds (KeptBut dev) (read_hid_properties a dev)
unfolding read_hid_properties Holds
hid_properties-Kept a dev =
    if_both _ a.hid_opened _ _
      (read_strings-Kept read_hid_property a.hid_strings dev hid_property-Fine) refl

typed-Kept :
    (a : HubAnswers) (dev : Device) (type : DeviceType)
    → Holds (KeptBut dev) (elim type [
      | hid ↦ read_hid_properties a dev
      | serial ↦ read_strings get_string_descriptor a.strings dev
    ])
typed-Kept a dev hid = hid_properties-Kept a dev
typed-Kept a dev serial = read_strings-Kept get_string_descriptor a.strings dev descriptor-Fine

pub ask_hub-Kept : (a : HubAnswers) (dev : Device) → Holds (KeptBut dev) (ask_hub a dev)
unfolding ask_hub Holds
ask_hub-Kept a dev = if_both _ (not a.path_allocated) _ _ refl (
    if_both _ (not a.opened) _ _ (same-Kept dev) (
      if_both _ (not a.node_allocated) _ _ refl
        (if_both _ (not a.information) _ _ (same-Kept dev) (typed-Kept a dev dev.type))))
