-- ===== src/Windows/Location.antt =====
-- `resolve_device_location` of src/monitor_win32.c and what it calls. What Windows answers for the
-- nodes of its device tree is an argument; a write or a read outside `ports`, and a loop that does
-- not end, are a `none`.
pub mod Trail
pub mod Ports
use libhs.Base.{
  ℕ, zero, suc, ◌+◌, ◌-◌, ◌/◌, ◌%◌, Bool, true, false, not, ◌&&◌, Option, none, some, List, [], ◌∷◌,
  ◌++◌, ℤ, pos, negsuc, is_neg, int_eq, if◌then◌else◌, ltb, leb, ◌==◌, ◌>>=◌, ◌>>◌, assert, length,
  get_elem?, set,
}
use libhs.ErrorCode
use libhs.Common.{Text, codes}
use libhs.Monitor.{text_eq}
use libhs.Darwin.Location.{write, swap_ports}
use libhs.Darwin.Location
use libhs.Windows.Ids.{starts_with, build_device_path}
use libhs.Windows.Controllers.{Controller, find_controller, is_root_hub}

-- What a hub answers for one of its ports: two requests that succeed, the state of the port, the
-- allocation of the name, and the result and the text of `wide_to_cstring`.
pub record PortAnswers : Type 0 where
  pub node_allocated : Bool
  pub information : Bool
  pub connected : Bool
  pub name_length : Bool
  pub name_allocated : Bool
  pub name : Bool
  pub converted : ℤ × Text

unfoldable pub get_port_driverkey : PortAnswers → ℤ × Text
get_port_driverkey a =
    if not a.node_allocated
    then (ErrorCode.memory, [])
    else if not a.information
    then (pos 0, [])
    else if not a.connected
    then (pos 0, [])
    else if not a.name_length
    then (pos 0, [])
    else if not a.name_allocated
    then (ErrorCode.memory, [])
    else if not a.name
    then (pos 0, [])
    else if is_neg a.converted.0
    then (a.converted.0, [])
    else (pos 1, a.converted.1)

-- What a hub answers: the allocation of its path, whether the handle is not null, and the number of
-- its ports if the request succeeds.
pub record Hub : Type 0 where
  pub path_allocated : Bool
  pub opened : Bool
  pub number_of_ports : Option ℕ
  pub port : ℕ → PortAnswers

-- The loop of `find_device_port_xp`, with the result so far; `port` is a `uint8_t`, and the loop does
-- not end once it has wrapped.
unfoldable pub search_ports :
    (rounds : ℕ) → Hub → (child_key : Text) → (number port : ℕ) → ℤ → Option ℤ
unfolding get_port_driverkey
search_ports zero hub child_key number port r = if leb port number then none else some r
search_ports (suc rounds) hub child_key number port r =
    let o = get_port_driverkey (hub.port port) in
    let rest = search_ports rounds hub child_key number ((port + 1) % 256) o.0 in
    if not (leb port number)
    then some r
    else if is_neg o.0
    then some o.0
    else if int_eq o.0 (pos 0)
    then rest
    else if text_eq o.1 child_key
    then some (pos port)
    else rest

-- The path that is built for the hub shows in its answers only.
unfoldable pub find_device_port_xp : Hub → (child_key : Text) → Option ℤ
unfolding search_ports
find_device_port_xp hub child_key =
    if not hub.path_allocated
    then some ErrorCode.memory
    else if not hub.opened
    then some ErrorCode.system
    else elim hub.number_of_ports [
      | none ↦ some (pos 0)
      | some number ↦ search_ports 256 hub child_key number 1 (pos 0)
    ]

-- A node of the device tree: its identifier, the port in its location information as `sscanf` reads
-- it, its driver, and its ports if it is a hub.
pub record Node : Type 0 where
  pub id : Option Text
  pub port_in_location : Option ℕ
  pub driver : Option Text
  pub hub : Hub

-- `sscanf` leaves the 0 where it reads nothing.
unfoldable pub find_device_port_vista : Node → ℕ
find_device_port_vista node = elim node.port_in_location [ none ↦ 0 | some port ↦ port % 256 ]

-- The port of a node at its parent, by the version of Windows; `none` inside is an early `return 0`.
unfoldable pub find_port : (vista : Bool) → Node → (parent : Node) → Option (Option ℤ)
unfolding find_device_port_vista find_device_port_xp
find_port true node parent = some (some (pos (find_device_port_vista node)))
find_port false node parent = elim node.driver [
  | none ↦ some none
  | some child_key ↦ find_device_port_xp parent.hub child_key >>= λ r. some (some r)
]

-- The bytes of `USB\`.
abbrev pub usb_prefix : Text
usb_prefix = 85 ∷ 83 ∷ 66 ∷ 92 ∷ []

-- The loop that skips nodes up to the first one of USB: that node, its parent, and those above.
unfoldable pub find_usb_node : Node → (parents : List Node) → Option (Node × Node × List Node)
find_usb_node node [] = none
find_usb_node node (parent ∷ parents) = node.id >>= λ id.
    let rest = find_usb_node parent parents in
    if starts_with usb_prefix id then some (node, parent, parents) else rest

-- How the loop over the parents ends: with an early return, or behind it.
pub data Walk : Type 0 where
  returned : ℤ → Walk
  arrived : (ports : List ℕ) → (depth : ℕ) → Walk

-- `if (r) ports[depth++] = (uint8_t)r;`
unfoldable pub store_port : ℤ → List ℕ × ℕ → Option (List ℕ × ℕ)
unfolding write
store_port (pos r) (ports, depth) =
    if r == 0
    then some (ports, depth)
    else write ports depth (r % 256) >>= λ ports'. some (ports', depth + 1)
store_port (negsuc r) s = some s

-- At a root hub.
unfoldable pub store_controller : List Controller → (id : Text) → List ℕ × ℕ → Option Walk
unfolding write find_controller
store_controller controllers id (ports, depth) =
    if depth == 0
    then some (returned (pos 0))
    else write ports depth (find_controller controllers id) >>= λ ports'. some (
        if find_controller controllers id == 0
        then returned (pos 0)
        else arrived ports' (depth + 1))

-- Behind the store: a root hub ends the loop; `rest` is what it gives for the parents above.
unfoldable pub next_parent :
    List Controller → (id : Text) → (rest : Option Walk) → List ℕ × ℕ → Option Walk
unfolding store_controller
next_parent controllers id rest s =
    if is_root_hub id then store_controller controllers id s else rest

-- The body behind the test for the depth, by what `find_port` answers.
unfoldable pub after_port :
    List Controller
    → (id : Text) → (rest : List ℕ × ℕ → Option Walk) → List ℕ × ℕ
    → Option ℤ
    → Option Walk
unfolding store_port next_parent
after_port controllers id rest s none = some (returned (pos 0))
after_port controllers id rest s (some r) =
    if is_neg r
    then some (returned r)
    else store_port r s >>= λ s'. next_parent controllers id (rest s') s'

-- The loop over the parents of the USB node; a node without a parent ends it.
unfoldable pub walk :
    (vista : Bool) → List Controller → Node → (parents : List Node) → List ℕ × ℕ → Option Walk
unfolding find_port after_port
walk vista controllers node [] (ports, depth) = some (arrived ports depth)
walk vista controllers node (parent ∷ above) (ports, depth) =
    let rest = walk vista controllers parent above in
    if depth == 8 then some (returned (pos 0)) else elim parent.id [
      | none ↦ some (returned (pos 0))
      | some id ↦ find_port vista node parent >>= after_port controllers id rest (ports, depth)
    ]

-- Behind the loop, the ports are put in order; the result is their number.
unfoldable pub finish_location : Walk → Option (ℤ × List ℕ)
unfolding swap_ports
finish_location (returned r) = some (r, [])
finish_location (arrived ports depth) =
    swap_ports (depth / 2) 0 depth ports >>= λ ports'. some (pos depth, ports')

-- `resolve_device_location`; `ports` is what the array of the caller holds at first.
unfoldable pub resolve_device_location :
    (vista : Bool)
    → List Controller
    → Node
    → (parents : List Node) → (ports : List ℕ) → Option (ℤ × List ℕ)
unfolding find_usb_node walk finish_location
resolve_device_location vista controllers node parents ports = elim (find_usb_node node parents) [
  | none ↦ some (pos 0, [])
  | some found ↦ walk vista controllers found.0 (found.1 ∷ found.2) (ports, 0) >>= finish_location
]

-- The function has the same text here as in src/monitor_darwin.c.
unfoldable pub build_location_string :
    (allocated : Bool) → List ℕ → (depth : ℕ) → Option (ℤ × Option Text)
build_location_string = Location.build_location_string
