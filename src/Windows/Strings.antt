-- ===== src/Windows/Strings.antt =====
-- What src/monitor_win32.c reads of the texts of a device, from the device or from its hub. What
-- Windows and the allocations answer are arguments.
pub mod Kept
use libhs.Base.{
  ℕ, ◌-◌, ◌%◌, Bool, not, ◌&&◌, ◌||◌, Option, none, some, pos, if◌then◌else◌, ltb, leb, ◌==◌,
}
use libhs.ErrorCode
use libhs.Common.{Text}
use libhs.Device.{Device, hid, serial}
use libhs.Linux.{Step, stop, next, ◌>>>◌}

-- What `wide_to_cstring` meets: its allocations, the lengths that `WideCharToMultiByte` returns, and
-- the text it writes.
pub record WideAnswers : Type 0 where
  pub copied : Bool
  pub length : ℕ
  pub allocated : Bool
  pub length' : ℕ
  pub text : Text

unfoldable pub wide_to_cstring : WideAnswers → Step Text
wide_to_cstring a =
    if not a.copied
    then stop ErrorCode.memory
    else if a.length == 0
    then stop ErrorCode.system
    else if not a.allocated
    then stop ErrorCode.memory
    else if a.length' == 0
    then stop ErrorCode.system
    else next a.text

-- `READ_HID_PROPERTY`: the index in the descriptor, whether the function succeeds, and the text.
pub record PropertyAnswers : Type 0 where
  pub index : ℕ
  pub success : Bool
  pub wide : WideAnswers

unfoldable pub read_hid_property : PropertyAnswers → Step (Option Text)
unfolding wide_to_cstring
read_hid_property a =
    if a.index == 0
    then next none
    else if a.success
    then (wide_to_cstring a.wide >>> λ s. next (some s))
    else next none

-- `READ_STRING_DESCRIPTOR`: the index, whether the request succeeds, the length it returns, and the
-- fields of the descriptor that it writes behind the twelve bytes of the request.
pub record DescriptorAnswers : Type 0 where
  pub index : ℕ
  pub success : Bool
  pub len : ℕ
  pub descriptor_type : ℕ
  pub descriptor_length : ℕ
  pub wide : WideAnswers

-- The tests on the descriptor; `len - sizeof(string.req)` wraps below the twelve bytes.
unfoldable pub is_malformed : DescriptorAnswers → Bool
is_malformed a =
    ltb a.len 2
    || not (a.descriptor_type == 3)
    || not (leb 12 a.len && a.descriptor_length == a.len - 12)
    || not (a.descriptor_length % 2 == 0)

-- `get_string_descriptor` where the index is not 0.
unfoldable pub get_string_descriptor : DescriptorAnswers → Step (Option Text)
unfolding is_malformed wide_to_cstring
get_string_descriptor a =
    if a.index == 0
    then next none
    else if not a.success
    then next none
    else if is_malformed a
    then next none
    else wide_to_cstring a.wide >>> λ s. next (some s)

-- The manufacturer, the product and the serial number, in this order.
unfoldable pub read_strings :
    {A : Type 0} → (A → Step (Option Text)) → A × A × A → Device → Step Device
read_strings read a dev = read a.0 >>> λ manufacturer. read a.1 >>> λ product.
    read a.2 >>> λ serial_number.
    next
      (record dev { manufacturer = manufacturer; product = product; serial_number = serial_number })

-- What the calls of `read_device_properties` answer for a port of the hub.
pub record HubAnswers : Type 0 where
  pub path_allocated : Bool
  pub opened : Bool
  pub node_allocated : Bool
  pub information : Bool
  pub hid_opened : Bool
  pub hid_strings : PropertyAnswers × PropertyAnswers × PropertyAnswers
  pub strings : DescriptorAnswers × DescriptorAnswers × DescriptorAnswers

-- `read_hid_properties`; the device is opened by its path.
unfoldable pub read_hid_properties : HubAnswers → Device → Step Device
unfolding read_strings read_hid_property
read_hid_properties a dev =
    if a.hid_opened then read_strings read_hid_property a.hid_strings dev else stop (pos 0)

-- With the path of the hub built and the hub opened; a hub that is not there is no error.
unfoldable pub ask_hub : HubAnswers → Device → Step Device
unfolding read_hid_properties read_strings get_string_descriptor
ask_hub a dev =
    if not a.path_allocated
    then stop ErrorCode.memory
    else if not a.opened
    then next dev
    else if not a.node_allocated
    then stop ErrorCode.memory
    else if not a.information
    then next dev
    else elim dev.type [
      | hid ↦ read_hid_properties a dev
      | serial ↦ read_strings get_string_descriptor a.strings dev
    ]
