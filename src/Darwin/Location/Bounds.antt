-- ===== src/Darwin/Location/Bounds.antt =====
-- The ports stay inside their array, and the text inside its buffer.
use libhs.Base.{
  ℕ, zero, suc, ◌+◌, ◌-◌, ◌*◌, ◌/◌, ◌%◌, ◌≤◌, ◌<◌, ◌≡◌, ◌⊎◌, refl, ◌∙◌, Bool, true, ◌&&◌, Option,
  none, some, List, [], ◌∷◌, ◌++◌, ℤ, pos, ltb, leb, ◌==◌, arith, length, length-append, length-set,
  get_elem?, set, Bool-cases, inl, inr,
}
use libhs.ErrorCode
use libhs.Common.{Text, codes}
use libhs.Darwin.Location.{
  write, decimal, print_ports, build_location_string, get_port, Walk, too_deep, arrived, walk,
  swap_ports, reversed_location, finish_location, resolve_device_location,
}

-- An index below the length has an element.
pub get_elem?-some : (xs : List ℕ) (i : ℕ) → i < length xs → (x : ℕ) × (get_elem? xs i ≡ some x)
get_elem?-some [] i h = absurd (omega arith)
get_elem?-some (x ∷ xs) zero h = (x, refl)
get_elem?-some (x ∷ xs) (suc i) h = get_elem?-some xs i (omega arith)

write-set :
    (ports : List ℕ) (i port : ℕ) → i < length ports → write ports i port ≡ some (set ports i port)
unfolding write
write-set ports i port h = let inside : ltb i (length ports) ≡ true = ground arith in rw inside refl

-- Each port takes a dash and one to three digits.
pub printed-length : (n : ℕ) → (2 ≤ length (45 ∷ decimal n)) × (length (45 ∷ decimal n) ≤ 4)
printed-length n = ground arith

print_ports-Short :
    (rounds i size : ℕ) (ports : List ℕ) (buf : Text)
    → i + rounds ≤ length ports
    → rounds * 4 < size
    → (text : Text) × (print_ports rounds i size ports buf ≡ some text)
      × (length text ≤ length buf + rounds * 4)
unfolding print_ports
print_ports-Short zero i size ports buf h room = (buf, refl, omega arith)
print_ports-Short (suc rounds) i size ports buf h room =
    let (port, got) = get_elem?-some ports i (omega arith) in
    let printed = 45 ∷ decimal (port % 256) in
    let (low, high) = printed-length (port % 256) in
    let fits : (leb 2 (length printed) && ltb (length printed) size) ≡ true = ground arith in
    let (text, done, short) =
      print_ports-Short rounds (i + 1) (size - length printed) ports (buf ++ printed) (omega arith)
        (omega arith) in
    (text, rw (got, fits) done, omega (arith, length-append buf printed))

swap_ports-length :
    (rounds i depth : ℕ) (ports : List ℕ)
    → (i + rounds) * 2 ≤ depth
    → depth ≤ length ports
    → (ports' : List ℕ) × (swap_ports rounds i depth ports ≡ some ports')
      × (length ports' ≡ length ports)
unfolding swap_ports
swap_ports-length zero i depth ports h inside = (ports, refl, refl)
swap_ports-length (suc rounds) i depth ports h inside =
    let j = depth - i - 1 in
    let (tmp, near) = get_elem?-some ports i (omega arith) in
    let (other, far) = get_elem?-some ports j (omega arith) in
    let same = length-set ports i other in
    let ports'' = set (set ports i other) j tmp in
    let same'' = length-set (set ports i other) j tmp in
    let (end, done, size) =
      swap_ports-length rounds (i + 1) depth ports'' (omega arith) (omega arith) in
    (
      end,
      rw
          (
            near,
            far,
            write-set ports i other (omega arith),
            write-set (set ports i other) j tmp (omega arith),
          )
          done,
      omega arith,
    )

-- The loop ends at the controller with at most 15 ports in the array.
abbrev Fits : Walk → Type 0
Fits too_deep = Unit
Fits (arrived ports depth) = (length ports ≡ 16) × (depth < 16)

get_port-Fits :
    (service : Option ℕ) (ports : List ℕ) (depth : ℕ)
    → length ports ≡ 16
    → depth < 16
    → (ports' : List ℕ) × (depth' : ℕ) × (get_port service (ports, depth) ≡ some (ports', depth'))
      × (length ports' ≡ 16)
      × (depth' ≤ 16)
unfolding get_port
get_port-Fits none ports depth size low = (ports, depth, refl, size, omega arith)
get_port-Fits (some port) ports depth size low = (
  set ports depth port,
  depth + 1,
  rw (write-set ports depth port (omega arith)) refl,
  length-set ports depth port ∙ size,
  omega arith,
)

walk-Fits :
    (services : List (Option ℕ)) (ports : List ℕ) (depth : ℕ)
    → length ports ≡ 16
    → depth < 16
    → (end : Walk) × (walk services (ports, depth) ≡ some end) × Fits end
unfolding walk
walk-Fits [] ports depth size low = (arrived ports depth, refl, (size, low))
walk-Fits (service ∷ services) ports depth size low =
    let (ports', depth', done, size', low') = get_port-Fits service ports depth size low in
    elim (Bool-cases (depth' == 16)) [
      | inl deep ↦ (too_deep, rw (done, deep) refl, tt)
      | inr on ↦
          let (end, done', fits) = walk-Fits services ports' depth' size' (ground arith) in
          (end, rw (done, on) done', fits)
    ]

-- A text comes with 1 only, and has at most 67 bytes.
abbrev pub Sound : ℤ × Option Text → Type 0
Sound (r, none) = (r ≡ pos 0) ⊎ (r ≡ ErrorCode.memory)
Sound (r, some text) = (r ≡ pos 1) × (length text ≤ 67)

reversed_location-Sound :
    (allocated : Bool) (ports : List ℕ) (depth : ℕ)
    → length ports ≡ 16
    → depth ≤ 16
    → (o : ℤ × Option Text) × (reversed_location allocated ports depth ≡ some o) × Sound o
unfolding reversed_location build_location_string
reversed_location-Sound allocated ports depth size low =
    let (ports', swapped, same) =
      swap_ports-length (depth / 2) 0 depth ports (omega arith) (omega arith) in
    let (text, printed, short) =
      print_ports-Short depth 0 253 ports' (codes "usb") (omega arith) (omega arith) in
    elim (Bool-cases allocated) [
      | inl given ↦ ((pos 1, some text), rw (swapped, printed, given) refl, (refl, omega arith))
      | inr failed ↦ ((ErrorCode.memory, none), rw (swapped, printed, failed) refl, inr refl)
    ]

finish_location-Sound :
    (allocated : Bool) (controller : ℕ) (end : Walk)
    → Fits end
    → (o : ℤ × Option Text) × (finish_location allocated controller end ≡ some o) × Sound o
unfolding finish_location
finish_location-Sound allocated controller too_deep fits = ((pos 0, none), refl, inl refl)
finish_location-Sound allocated controller (arrived ports depth) (size, low) =
    let written = write-set ports depth controller (omega arith) in
    elim (Bool-cases (depth == 0)) [
      | inl none_found ↦ ((pos 0, none), rw none_found refl, inl refl)
      | inr some_found ↦ elim (Bool-cases (controller == 0)) [
        | inl unknown ↦ ((pos 0, none), rw (some_found, written, unknown) refl, inl refl)
        | inr known ↦
            let (o, done, sound) =
              reversed_location-Sound allocated (set ports depth controller) (depth + 1)
                (length-set ports depth controller ∙ size) (omega arith) in
            (o, rw (some_found, written, known) done, sound)
      ]
    ]

-- Whatever the registry answers for the services, the controller and the allocation, no port is
-- written or read outside the array of 16, and no assertion on the buffer of 256 bytes fails. The
-- result is 0 or `HS_ERROR_MEMORY` without a text, or 1 with one of at most 67 bytes.
pub resolve_device_location-Sound :
    (allocated : Bool) (controller : ℕ) (service : Option ℕ) (parents : List (Option ℕ))
    (ports : List ℕ)
    → length ports ≡ 16
    → (o : ℤ × Option Text) × (resolve_device_location allocated controller service parents ports
        ≡ some o)
      × Sound o
unfolding resolve_device_location
resolve_device_location-Sound allocated controller service parents ports size =
    let (end, walked, fits) = walk-Fits (service ∷ parents) ports 0 size (omega arith) in
    let (o, done, sound) = finish_location-Sound allocated controller end fits in
    (o, rw (walked, done), sound)
