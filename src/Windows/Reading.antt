-- ===== src/Windows/Reading.antt =====
-- `process_win32_device` of src/monitor_win32.c and what it calls: how a node of the device tree
-- becomes a device of the library. What Windows and the allocations answer are arguments. The
-- table of functions, of which Windows has one, and the buffers are not modelled; the texts that
-- Windows writes fit them.
pub mod Stages
pub mod Outcome
use libhs.Base.{
  ℕ, ◌+◌, ◌-◌, ◌%◌, ◌^◌, Bool, true, false, not, ◌&&◌, ◌||◌, Option, none, some, List, [], ◌∷◌,
  ◌++◌, ℤ, pos, negsuc, is_neg, is_pos, int_eq, if◌then◌else◌, ltb, leb, ◌==◌, ◌>>=◌, get_elem?,
}
use libhs.ErrorCode
use libhs.Common.{Text}
use libhs.Device.{Device, hid, serial}
use libhs.Linux.{Step, stop, next, ◌>>>◌, need, copy, fresh}
use libhs.Windows.Ids.{starts_with, strstr, build_device_path}
use libhs.Windows.Controllers.{Controller}
use libhs.Windows.Strings.{HubAnswers, ask_hub}
use libhs.Windows.Location.{Node, usb_prefix, resolve_device_location, build_location_string}

-- The loop that looks for the USB node: its identifier, and the nodes above it.
unfoldable pub usb_above : Node → (parents : List Node) → Step (Text × List Node)
unfolding need
usb_above node [] =
    need node.id >>> λ id. if starts_with usb_prefix id then next (id, []) else stop (pos 0)
usb_above node (parent ∷ parents) = need node.id >>> λ id.
    let rest = usb_above parent parents in
    if starts_with usb_prefix id then next (id, parent ∷ parents) else rest

-- The identifier of the hub: two nodes above an interface, else one.
unfoldable pub hub_id : (interface : Bool) → List Node → Step Text
unfolding need
hub_id interface [] = stop (pos 0)
hub_id true (node ∷ nodes) = hub_id false nodes
hub_id false (node ∷ nodes) = need node.id

-- What `sscanf` reads of an identifier: how many numbers, and the numbers.
pub record Scanned : Type 0 where
  pub count : ℕ
  pub vid : ℕ
  pub pid : ℕ
  pub iface : ℕ

-- The numbers go to fields of 16, 16 and 8 bits.
unfoldable pub set_numbers : Scanned → Device → Device
set_numbers n dev = record dev {
  vid = n.vid % 2 ^ 16;
  pid = n.pid % 2 ^ 16;
  iface = if n.count == 3 then n.iface % 2 ^ 8 else 0;
}

unfoldable pub read_device_properties :
    (scan : Text → Scanned) → HubAnswers → Node → (parents : List Node) → Device → Step Device
unfolding usb_above set_numbers hub_id ask_hub
read_device_properties scan a node parents dev = usb_above node parents >>> λ usb.
    let n = scan usb.0 in
    if ltb n.count 2
    then stop (pos 0)
    else hub_id (n.count == 3) usb.1 >>> λ id. ask_hub a (set_numbers n dev)

-- What `get_device_comport` meets: the registry's key and value, and the allocation.
pub record ComportAnswers : Type 0 where
  pub opened : Bool
  pub port_name : Option Text
  pub allocated : Bool

-- The bytes of `\\.\` come before the name.
unfoldable pub get_device_comport : ComportAnswers → Step Text
unfolding need
get_device_comport a =
    if a.opened
    then (need a.port_name >>> λ name.
        if a.allocated then next ((92 ∷ 92 ∷ 46 ∷ 92 ∷ []) ++ name) else stop ErrorCode.memory)
    else stop (pos 0)

-- The bytes of `HID\`, `&COL` and `&COL01\`.
abbrev pub hid_prefix : Text
hid_prefix = 72 ∷ 73 ∷ 68 ∷ 92 ∷ []

abbrev pub collection : Text
collection = 38 ∷ 67 ∷ 79 ∷ 76 ∷ []

abbrev pub first_collection : Text
first_collection = 38 ∷ 67 ∷ 79 ∷ 76 ∷ 48 ∷ 49 ∷ 92 ∷ []

-- All that `process_win32_device` meets for a node.
pub record Answers : Type 0 where
  pub allocated : Bool
  pub key_allocated : Bool
  pub comport : ComportAnswers
  pub path_allocated : Bool
  pub ports : List ℕ
  pub hub : ℕ → HubAnswers
  pub location_allocated : Bool

-- `find_device_node`, with the text of the class of HID devices.
unfoldable pub find_device_node : (hid_guid : Text) → Answers → Device → Step Device
unfolding get_device_comport build_device_path
find_device_node hid_guid a dev =
    if starts_with usb_prefix dev.key
    then (get_device_comport a.comport >>> λ path. next (record dev { path = path; type = serial }))
    else if starts_with hid_prefix dev.key
    then elim (build_device_path a.path_allocated dev.key hid_guid) [
      | none ↦ stop ErrorCode.memory
      | some path ↦ next (record dev { path = path; type = hid })
    ]
    else stop (pos 0)

-- A collection of a HID device that is not its first.
unfoldable pub is_duplicate : (key : Text) → Bool
is_duplicate key = starts_with hid_prefix key && elim (strstr key collection) [
  | none ↦ false
  | some rest ↦ not (starts_with first_collection rest)
]

-- Up to the location: the key is `id`, or else what `CM_Get_Device_ID` answers for the node.
unfoldable pub start_device : (hid_guid : Text) → Answers → (id : Option Text) → Node → Step Device
unfolding need copy is_duplicate find_device_node
start_device hid_guid a id node =
    if not a.allocated
    then stop ErrorCode.memory
    else elim id [ none ↦ need node.id | some given ↦ next given ] >>> λ text.
        copy a.key_allocated text >>> λ key.
        if is_duplicate key
        then stop (pos 0)
        else find_device_node hid_guid a (record fresh { key = key })

-- The result, and the device; a device that is given up is freed, since it has one reference.
unfoldable pub finish : Step Device → ℤ × Option Device
finish (stop r) = (r, none)
finish (next dev) = (pos 1, some dev)

-- Behind the properties.
unfoldable pub set_location : ℤ × Option Text → Device → Step Device
set_location (r, location) dev =
    if is_neg r then stop r else next (record dev { location = location })

module _ (hid_guid : Text) (scan : Text → Scanned) (vista : Bool)
    (controllers : List Controller) where
  -- Behind `resolve_device_location`, with its result and its ports.
  unfoldable pub locate_device :
      Answers → Node → (parents : List Node) → Device → ℤ × List ℕ → Option (Step Device)
  unfolding read_device_properties set_location
  locate_device a node parents dev (negsuc r, ports) = some (stop (negsuc r))
  locate_device a node parents dev (pos depth, ports) =
      if depth == 0
      then some (stop (pos 0))
      else get_elem? ports (depth - 1) >>= λ port.
          build_location_string a.location_allocated ports depth >>= λ text.
          some (read_device_properties scan (a.hub port) node parents dev >>> set_location text)

  unfoldable pub process_win32_device :
      Answers → (id : Option Text) → Node → (parents : List Node) → Option (ℤ × Option Device)
  unfolding start_device locate_device finish
  process_win32_device a id node parents = elim (start_device hid_guid a id node) [
    | stop r ↦ some (r, none)
    | next dev ↦
        resolve_device_location vista controllers node parents a.ports
        >>= locate_device a node parents dev
        >>= λ s. some (finish s)
  ]
