-- ===== src/Windows/Location/Ports.antt =====
-- `resolve_device_location` on its array of ports does what the trail says.
use libhs.Base.{
  ℕ, ◌+◌, ◌/◌, ◌%◌, ◌≡◌, refl, Bool, true, false, Option, none, some, List, [], ◌∷◌, ◌++◌, ℤ, pos,
  negsuc, is_neg, if◌then◌else◌, ◌==◌, ltb, ◌>>=◌, arith, length, length-append, Bool-cases,
  Option-cases, inl, inr,
}
use mathlib.Core.List.{append_assoc, reverse}
use libhs.Common.{Text}
use libhs.Darwin.Location.{write}
use libhs.Darwin.Location.Order.{write-behind, swap_ports-reverse}
use libhs.Windows.Controllers.{Controller, find_controller, is_root_hub}
use libhs.Windows.Location.{
  Node, find_port, find_usb_node, Walk, returned, arrived, store_port, store_controller,
  next_parent, after_port, walk, finish_location, resolve_device_location,
}
use libhs.Windows.Location.Trail.{
  Trail, left, found, overrun, add_port, at_root, after, trail, device_trail,
}

-- The loop over the array does what the trail says.
abbrev Agrees : Option Trail → Option Walk → Type 0
Agrees none w = w ≡ none
Agrees (some (left r)) w = w ≡ some (returned r)
Agrees (some overrun) w = w ≡ none
Agrees (some (found l)) w =
    (post : List ℕ) × (w ≡ some (arrived (l ++ post) (length l))) × (length l + length post ≡ 8)

-- The array with the ports so far, and what it still holds of its first contents.
abbrev Room : List ℕ → List ℕ → Type 0
Room l post = length l + length post ≡ 8

store_port-add :
    (r : ℤ) (l post : List ℕ)
    → Room l post
    → (length l == 8) ≡ false
    → (post' : List ℕ) × (store_port r (l ++ post, length l)
        ≡ some (add_port r l ++ post', length (add_port r l)))
      × Room (add_port r l) post'
unfolding store_port
store_port-add (negsuc r) l post room more = (post, refl, room)
store_port-add (pos r) l [] room more = absurd (ground arith)
store_port-add (pos r) l (x ∷ post) room more = elim (Bool-cases (r == 0)) [
  | inl none_there ↦ rw none_there (x ∷ post, refl, room)
  | inr there ↦
      let size = length-append l (r % 256 ∷ []) in
      let size' : length (l ++ r % 256 ∷ []) ≡ length l + 1 = omega (arith, size) in
      rw there (
        post,
        rw
            (
              write-behind l post x (r % 256) (length l) refl,
              size',
              append_assoc l (r % 256 ∷ []) post,
            )
            refl,
        omega (arith, size),
      )
]

-- No room is left in the array.
write-full :
    (l post : List ℕ) (v : ℕ)
    → Room l post
    → (length l == 8) ≡ true
    → write (l ++ post) (length l) v ≡ none
unfolding write
write-full l post v room full =
    let size = length-append l post in
    let e : length l ≡ 8 = ground arith in
    let outside : ltb (length l) (length (l ++ post)) ≡ false = ground arith in rw outside refl

store_controller-full :
    (cs : List Controller) (id : Text) (l post : List ℕ)
    → Room l post
    → (length l == 0) ≡ false
    → (length l == 8) ≡ true
    → store_controller cs id (l ++ post, length l) ≡ none
unfolding store_controller
store_controller-full cs id l post room some_there full =
    rw (some_there, write-full l post (find_controller cs id) room full) refl

store_controller-fits :
    (cs : List Controller) (id : Text) (l post : List ℕ) (x : ℕ)
    → (length l == 0) ≡ false
    → store_controller cs id (l ++ x ∷ post, length l)
      ≡ some (
          if find_controller cs id == 0
          then returned (pos 0)
          else arrived (l ++ find_controller cs id ∷ post) (length l + 1))
unfolding store_controller
store_controller-fits cs id l post x some_there =
    rw (some_there, write-behind l post x (find_controller cs id) (length l) refl) refl

store_controller-empty :
    (cs : List Controller) (id : Text) (l post : List ℕ)
    → (length l == 0) ≡ true
    → store_controller cs id (l ++ post, length l) ≡ some (returned (pos 0))
unfolding store_controller
store_controller-empty cs id l post empty = rw empty refl

fits-Agrees :
    (cs : List Controller) (id : Text) (l post : List ℕ)
    → Room l post
    → (length l == 0) ≡ false
    → (length l == 8) ≡ false
    → Agrees
        (some (at_root (find_controller cs id) l))
        (store_controller cs id (l ++ post, length l))
fits-Agrees cs id l [] room some_there fits = absurd (ground arith)
fits-Agrees cs id l (x ∷ post) room some_there fits =
    let c = find_controller cs id in
    let size = length-append l (c ∷ []) in
    let size' : length (l ++ c ∷ []) ≡ length l + 1 = omega (arith, size) in
    elim (Bool-cases (find_controller cs id == 0)) [
      | inl unknown ↦
          rw (store_controller-fits cs id l post x some_there, some_there, fits, unknown) refl
      | inr known ↦
          rw (store_controller-fits cs id l post x some_there, some_there, fits, known)
            (post, rw (size', append_assoc l (c ∷ []) post) refl, omega (arith, size))
    ]

store_controller-Agrees :
    (cs : List Controller) (id : Text) (l post : List ℕ)
    → Room l post
    → Agrees
        (some (at_root (find_controller cs id) l))
        (store_controller cs id (l ++ post, length l))
store_controller-Agrees cs id l post room = elim (Bool-cases (length l == 0)) [
  | inl empty ↦ rw (empty, store_controller-empty cs id l post empty) refl
  | inr some_there ↦ elim (Bool-cases (length l == 8)) [
    | inl full ↦ rw (some_there, full) (store_controller-full cs id l post room some_there full)
    | inr fits ↦ fits-Agrees cs id l post room some_there fits
  ]
]

-- Behind the port, if the loop that goes on agrees.
after_port-Agrees :
    (cs : List Controller) (id : Text) (rest : List ℕ → Option Trail)
    (rest' : List ℕ × ℕ → Option Walk) (l post : List ℕ) (port : Option ℤ)
    → Room l post
    → (length l == 8) ≡ false
    → ((l' post' : List ℕ) → Room l' post' → Agrees (rest l') (rest' (l' ++ post', length l')))
    → Agrees (after cs id rest l port) (after_port cs id rest' (l ++ post, length l) port)
unfolding after_port next_parent
after_port-Agrees cs id rest rest' l post none room more goes_on = refl
after_port-Agrees cs id rest rest' l post (some r) room more goes_on =
    let (post', stored, room') = store_port-add r l post room more in
    elim (Bool-cases (is_neg r)) [
      | inl failed ↦ rw failed refl
      | inr on ↦ elim (Bool-cases (is_root_hub id)) [
        | inl root ↦
            rw (on, stored, root) (store_controller-Agrees cs id (add_port r l) post' room')
        | inr hub ↦ rw (on, stored, hub) (goes_on (add_port r l) post' room')
      ]
    ]

bind-Agrees :
    (o : Option (Option ℤ)) (f : Option ℤ → Option Trail) (g : Option ℤ → Option Walk)
    → ((port : Option ℤ) → Agrees (f port) (g port))
    → Agrees (o >>= f) (o >>= g)
bind-Agrees none f g h = refl
bind-Agrees (some port) f g h = h port

walk-Agrees :
    (vista : Bool) (cs : List Controller) (node : Node) (parents : List Node) (l post : List ℕ)
    → Room l post
    → Agrees (trail vista cs node parents l) (walk vista cs node parents (l ++ post, length l))
unfolding trail walk
walk-Agrees vista cs node [] l post room = (post, refl, room)
walk-Agrees vista cs node (parent ∷ above) l post room = elim (Bool-cases (length l == 8)) [
  | inl deep ↦ rw deep refl
  | inr more ↦ elim (Option-cases parent.id) [
    | inl no_id ↦ rw (more, no_id) refl
    | inr (id, e) ↦
        rw (more, e)
          (bind-Agrees (find_port vista node parent) _ _ (λ port.
            after_port-Agrees cs id (trail vista cs parent above) (walk vista cs parent above) l
              post port room more (walk-Agrees vista cs parent above)))
  ]
]

-- The result of `resolve_device_location` for a trail: it is the number of the ports, which stand in
-- the array with the controller first.
abbrev pub Meets : Option Trail → Option (ℤ × List ℕ) → Type 0
Meets none o = o ≡ none
Meets (some (left r)) o = o ≡ some (r, [])
Meets (some overrun) o = o ≡ none
Meets (some (found l)) o =
    (post : List ℕ) × (o ≡ some (pos (length l), reverse l ++ post)) × (length l + length post ≡ 8)

finish_location-Meets :
    (t : Option Trail) (w : Option Walk) → Agrees t w → Meets t (w >>= finish_location)
unfolding finish_location
finish_location-Meets none w e = rw e refl
finish_location-Meets (some (left r)) w e = rw e refl
finish_location-Meets (some overrun) w e = rw e refl
finish_location-Meets (some (found l)) w (post, e, room) = (
  post,
  rw (e, swap_ports-reverse (length l / 2) 0 (length l) [] l post refl (omega arith) refl) refl,
  room,
)

-- Whatever Windows answers, `resolve_device_location` with its array of eight ports does what the
-- trail of the device says: an early return gives its result; ports that are found give their number
-- and stand in the array from the controller down to the device; and the code writes outside of the
-- array exactly where a root hub is reached with eight ports, or does not end exactly where the loop
-- over a hub's ports does not.
pub resolve_device_location-Meets :
    (vista : Bool) (controllers : List Controller) (node : Node) (parents : List Node)
    (ports : List ℕ)
    → length ports ≡ 8
    → Meets
        (device_trail vista controllers node parents)
        (resolve_device_location vista controllers node parents ports)
unfolding resolve_device_location device_trail
resolve_device_location-Meets vista controllers node parents ports room =
    elim (Option-cases (find_usb_node node parents)) [
      | inl none_there ↦ rw (device_trail, resolve_device_location, none_there) refl
      | inr (usb, e) ↦
          rw (device_trail, resolve_device_location, e)
            (finish_location-Meets (trail vista controllers usb.0 (usb.1 ∷ usb.2) [])
              (walk vista controllers usb.0 (usb.1 ∷ usb.2) (ports, 0))
              (walk-Agrees vista controllers usb.0 (usb.1 ∷ usb.2) [] ports (omega arith)))
    ]
