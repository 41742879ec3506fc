-- ===== src/Windows/Reading/Stages.antt =====
-- What the steps of `process_win32_device` leave for the next one.
use libhs.Base.{
  ◌≡◌, refl, sym, ap, ◌∙◌, subst, Bool, true, false, not, Option, none, some, List, [], ◌∷◌, ◌++◌,
  pos, if◌then◌else◌, ◌==◌, ltb, Bool-cases, inl, inr,
}
use libhs.ErrorCode
use libhs.Common.{Text}
use libhs.Device.{Device, DeviceType, hid, serial}
use libhs.Linux.{stop, next, ◌>>>◌, need, fresh}
use libhs.Linux.Steps.{Holds, next_Holds, then_Holds, weaken_Holds, need-Holds, copy-Holds, if_both}
use libhs.Windows.Ids.{starts_with, build_device_path}
use libhs.Windows.Location.{Node, usb_prefix}
use libhs.Windows.Strings.{HubAnswers}
use libhs.Windows.Strings.Kept.{KeptBut, ask_hub-Kept}
use libhs.Windows.Reading.{
  usb_above, hub_id, Scanned, set_numbers, read_device_properties, ComportAnswers,
  get_device_comport, hid_prefix, Answers, find_device_node, is_duplicate, start_device,
}

-- What the key, the path and the type of a device have to do with each other.
abbrev pub Named : (hid_guid : Text) → Answers → DeviceType → (key path : Text) → Type 0
Named hid_guid a serial key path =
    (name : Text) × (starts_with usb_prefix key ≡ true)
    × (a.comport.port_name ≡ some name)
    × (path ≡ (92 ∷ 92 ∷ 46 ∷ 92 ∷ []) ++ name)
Named hid_guid a hid key path =
    (starts_with hid_prefix key ≡ true) × (build_device_path true key hid_guid ≡ some path)

-- The identifier that a device is asked for by.
abbrev pub asked : (id : Option Text) → Node → Option Text
asked none node = node.id
asked (some given) node = some given

-- A device before its location is known.
pub record IsStarted (hid_guid : Text) (a : Answers) (key : Option Text) (dev : Device)
    : Type 0 where
  pub one_reference : dev.refcount ≡ 1
  pub live : dev.freed ≡ false
  pub unknown : dev.attached ≡ false
  pub key_asked : key ≡ some dev.key
  pub first : is_duplicate dev.key ≡ false
  pub named : Named hid_guid a dev.type dev.key dev.path

comport-Holds :
    (a : ComportAnswers)
    → Holds
        (λ path.
          (name : Text) × (a.port_name ≡ some name) × (path ≡ (92 ∷ 92 ∷ 46 ∷ 92 ∷ []) ++ name))
        (get_device_comport a)
unfolding get_device_comport Holds
comport-Holds a =
    if_both _ a.opened _ _
      (then_Holds (λ name. a.port_name ≡ some name) _ _ _ (need-Holds a.port_name)
        (λ name e. if_both _ a.allocated _ _ (name, e, refl) refl))
      refl

pub zero-Holds : {A : Type 0} (P : A → Type 0) → Holds P (stop (pos 0))
unfolding Holds
zero-Holds P = refl

module _ (hid_guid : Text) (a : Answers) (key : Text) where
  -- The device that `calloc` gives, with its key.
  abbrev keyed : Device
  keyed = record fresh { key = key }

  abbrev Started : Device → Type 0
  Started = IsStarted hid_guid a (some key)

  serial-Started :
      is_duplicate key ≡ false
      → starts_with usb_prefix key ≡ true
      → Holds Started (
          get_device_comport a.comport >>> λ path.
          next (record keyed { path = path; type = serial }))
  serial-Started first usb = then_Holds _ _ _ _ (comport-Holds a.comport) (λ path (name, there, is).
      next_Holds _ _ (record {
        one_reference = refl;
        live = refl;
        unknown = refl;
        key_asked = refl;
        first = first;
        named = (name, usb, there, is);
      }))

  hid-Started :
      (allocated : Bool) (o : Option Text)
      → is_duplicate key ≡ false
      → starts_with hid_prefix key ≡ true
      → build_device_path allocated key hid_guid ≡ o
      → Holds Started (elim o [
        | none ↦ stop ErrorCode.memory
        | some path ↦ next (record keyed { path = path; type = hid })
      ])
  unfolding Holds build_device_path
  hid-Started allocated none first is_hid e = refl
  hid-Started false (some path) first is_hid e = absurd (cc)
  hid-Started true (some path) first is_hid e = record {
    one_reference = refl;
    live = refl;
    unknown = refl;
    key_asked = refl;
    first = first;
    named = (is_hid, e);
  }

  node-Started : is_duplicate key ≡ false → Holds Started (find_device_node hid_guid a keyed)
  unfolding find_device_node
  node-Started first = elim (Bool-cases (starts_with usb_prefix key)) [
    | inl usb ↦ rw usb (serial-Started first usb)
    | inr other ↦ elim (Bool-cases (starts_with hid_prefix key)) [
      | inl is_hid ↦
          rw (other, is_hid)
            (hid-Started a.path_allocated (build_device_path a.path_allocated key hid_guid) first
              is_hid refl)
      | inr neither ↦ rw (other, neither) (zero-Holds Started)
    ]
  ]

  key-Started :
      Holds Started (if is_duplicate key then stop (pos 0) else find_device_node hid_guid a keyed)
  unfolding Holds
  key-Started = elim (Bool-cases (is_duplicate key)) [
    | inl duplicate ↦ rw duplicate refl
    | inr first ↦ rw first (node-Started first)
  ]

asked-Holds :
    (id : Option Text) (node : Node)
    → Holds
        (λ text. asked id node ≡ some text)
        (elim id [ none ↦ need node.id | some given ↦ next given ])
asked-Holds none node = need-Holds node.id
asked-Holds (some given) node = next_Holds _ given refl

pub start_device-Holds :
    (hid_guid : Text) (a : Answers) (id : Option Text) (node : Node)
    → Holds (IsStarted hid_guid a (asked id node)) (start_device hid_guid a id node)
unfolding start_device Holds
start_device-Holds hid_guid a id node = if_both _ (not a.allocated) _ _ refl (
    then_Holds (λ text. asked id node ≡ some text) _ _ _ (asked-Holds id node)
      (λ text e.
        then_Holds (λ key. key ≡ text) _ _ _ (copy-Holds a.key_allocated text)
          (λ key same.
            weaken_Holds (IsStarted hid_guid a (some key)) (IsStarted hid_guid a (asked id node)) _
              (key-Started hid_guid a key)
              (λ dev st. subst (λ k. IsStarted hid_guid a k dev) (ap some same ∙ sym e) st))))

-- The numbers that `read_device_properties` sets, in their widths, and texts; all else is kept.
abbrev pub Filled : Device → Device → Type 0
Filled dev dev' =
    (n : Scanned) × (m : Option Text) × (p : Option Text) × (s : Option Text) × (dev'
      ≡ record (set_numbers n dev) { manufacturer = m; product = p; serial_number = s })

usb-Fine : (node : Node) (parents : List Node) → Holds (λ u. Unit) (usb_above node parents)
unfolding usb_above Holds
usb-Fine node [] =
    then_Holds (λ u. Unit) (λ u. Unit) _ _ (weaken_Holds _ _ _ (need-Holds node.id) (λ u h. tt))
      (λ id h. if_both (λ u. Unit) (starts_with usb_prefix id) _ _ tt refl)
usb-Fine node (parent ∷ parents) =
    then_Holds (λ u. Unit) (λ u. Unit) _ _ (weaken_Holds _ _ _ (need-Holds node.id) (λ u h. tt))
      (λ id h. if_both (λ u. Unit) (starts_with usb_prefix id) _ _ tt (usb-Fine parent parents))

hub-Fine : (interface : Bool) (nodes : List Node) → Holds (λ u. Unit) (hub_id interface nodes)
unfolding hub_id Holds
hub-Fine interface [] = refl
hub-Fine true (node ∷ nodes) = hub-Fine false nodes
hub-Fine false (node ∷ nodes) = weaken_Holds _ _ _ (need-Holds node.id) (λ u h. tt)

pub properties-Holds :
    (scan : Text → Scanned) (a : HubAnswers) (node : Node) (parents : List Node) (dev : Device)
    → Holds (Filled dev) (read_device_properties scan a node parents dev)
unfolding read_device_properties Holds
properties-Holds scan a node parents dev =
    then_Holds (λ u. Unit) _ _ _ (usb-Fine node parents)
      (λ usb h. if_both _ (ltb (scan usb.0).count 2) _ _ refl (
        then_Holds (λ u. Unit) _ _ _ (hub-Fine ((scan usb.0).count == 3) usb.1)
          (λ id h'.
            weaken_Holds (KeptBut (set_numbers (scan usb.0) dev)) (Filled dev) _
              (ask_hub-Kept a (set_numbers (scan usb.0) dev))
              (λ dev' (m, p, s, e). (scan usb.0, m, p, s, e)))))
