-- ===== src/Darwin/Location.antt =====
-- The location of a device in src/monitor_darwin.c. What the registry answers is an argument; a
-- write or a read outside `ports`, and a failed assertion, are a `none`.
pub mod Bounds
pub mod Order
use libhs.Base.{
  ℕ, zero, suc, ◌+◌, ◌-◌, ◌/◌, ◌%◌, Bool, true, false, not, ◌&&◌, Option, none, some, List, [], ◌∷◌,
  ◌++◌, ℤ, pos, is_neg, if◌then◌else◌, ltb, leb, ◌==◌, ◌>>=◌, ◌>>◌, assert, length, get_elem?, set,
}
use libhs.ErrorCode
use libhs.Common.{Text, codes}

-- `ports[i] = port`
unfoldable pub write : List ℕ → (i port : ℕ) → Option (List ℕ)
write ports i port = assert (ltb i (length ports)) >> some (set ports i port)

-- The text that `%hhu` prints.
abbrev pub decimal : ℕ → Text
decimal n =
    if ltb n 10
    then (48 + n) ∷ []
    else if ltb n 100
    then (48 + n / 10) ∷ (48 + n % 10) ∷ []
    else (48 + n / 100) ∷ (48 + n / 10 % 10) ∷ (48 + n % 10) ∷ []

-- The loop of `build_location_string`, with the rounds left and the bytes that `buf` has left.
unfoldable pub print_ports : (rounds i size : ℕ) → List ℕ → Text → Option Text
print_ports zero i size ports buf = some buf
print_ports (suc rounds) i size ports buf = do
  port ← get_elem? ports i
  let printed = 45 ∷ decimal (port % 256)
  assert (leb 2 (length printed) && ltb (length printed) size)
  print_ports rounds (i + 1) (size - length printed) ports (buf ++ printed)

-- The result, and the text for the caller; `allocated` is the answer of `strdup`.
unfoldable pub build_location_string :
    (allocated : Bool) → List ℕ → (depth : ℕ) → Option (ℤ × Option Text)
unfolding print_ports
build_location_string allocated ports depth =
    print_ports depth 0 (256 - 3) ports (codes "usb") >>= λ buf.
    some (if allocated then (pos 0, some buf) else (ErrorCode.memory, none))

-- A service's number, if it has one, goes to the end of the ports.
unfoldable pub get_port : Option ℕ → List ℕ × ℕ → Option (List ℕ × ℕ)
unfolding write
get_port none (ports, depth) = some (ports, depth)
get_port (some port) (ports, depth) = do ports' ← write ports depth port; some (ports', depth + 1)

pub data Walk : Type 0 where
  too_deep : Walk
  arrived : (ports : List ℕ) → (depth : ℕ) → Walk

-- The loop up to the controller, by the services' numbers.
unfoldable pub walk : List (Option ℕ) → List ℕ × ℕ → Option Walk
unfolding get_port
walk [] (ports, depth) = some (arrived ports depth)
walk (service ∷ services) (ports, depth) = get_port service (ports, depth) >>= λ s.
    let rest = walk services s in if s.1 == 16 then some too_deep else rest

-- The loop that reverses the ports, with the rounds left.
unfoldable pub swap_ports : (rounds i depth : ℕ) → List ℕ → Option (List ℕ)
unfolding write
swap_ports zero i depth ports = some ports
swap_ports (suc rounds) i depth ports = do
  tmp ← get_elem? ports i
  far ← get_elem? ports (depth - i - 1)
  ports' ← write ports i far
  ports'' ← write ports' (depth - i - 1) tmp
  swap_ports rounds (i + 1) depth ports''

-- Behind the test for the controller, with the controller among the ports.
unfoldable pub reversed_location :
    (allocated : Bool) → List ℕ → (depth : ℕ) → Option (ℤ × Option Text)
unfolding swap_ports build_location_string
reversed_location allocated ports depth = do
  ports' ← swap_ports (depth / 2) 0 depth ports
  o ← build_location_string allocated ports' depth
  some (if is_neg o.0 then o else (pos 1, o.1))

-- Behind the loop; `controller` is what `find_controller` answers.
unfoldable pub finish_location :
    (allocated : Bool) → (controller : ℕ) → Walk → Option (ℤ × Option Text)
unfolding write reversed_location
finish_location allocated controller too_deep = some (pos 0, none)
finish_location allocated controller (arrived ports depth) =
    if depth == 0
    then some (pos 0, none)
    else write ports depth controller >>= λ ports'.
        if controller == 0
        then some (pos 0, none)
        else reversed_location allocated ports' (depth + 1)

-- `resolve_device_location`; `ports` is what the array holds at first.
unfoldable pub resolve_device_location :
    (allocated : Bool)
    → (controller : ℕ) → (service : Option ℕ) → (parents : List (Option ℕ)) → (ports : List ℕ)
    → Option (ℤ × Option Text)
unfolding walk finish_location
resolve_device_location allocated controller service parents ports =
    walk (service ∷ parents) (ports, 0) >>= finish_location allocated controller
