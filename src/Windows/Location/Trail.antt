-- ===== src/Windows/Location/Trail.antt =====
-- The location as a list: the ports from the device up to the controller.
use libhs.Base.{
  ℕ, ◌%◌, ◌≡◌, refl, Bool, true, false, Option, none, some, List, [], ◌∷◌, ◌++◌, ℤ, pos, negsuc,
  is_neg, is_pos, if◌then◌else◌, ◌==◌, ◌>>=◌, length, Bool-cases, Option-cases, inl, inr,
}
use libhs.Common.{Text}
use libhs.Windows.Controllers.{Controller, find_controller, is_root_hub}
use libhs.Windows.Location.{Node, find_port, find_usb_node}

-- How the way up ends: with a result, with ports, or at a root hub that a ninth port is needed for.
pub data Trail : Type 0 where
  left : ℤ → Trail
  found : (ports : List ℕ) → Trail
  overrun : Trail

abbrev pub add_port : ℤ → List ℕ → List ℕ
add_port (pos r) l = if r == 0 then l else l ++ r % 256 ∷ []
add_port (negsuc r) l = l

-- At a root hub, by the number of its controller.
abbrev pub at_root : (controller : ℕ) → List ℕ → Trail
at_root controller l =
    if length l == 0
    then left (pos 0)
    else if length l == 8
    then overrun
    else if controller == 0
    then left (pos 0)
    else found (l ++ controller ∷ [])

abbrev pub after :
    List Controller → (id : Text) → (List ℕ → Option Trail) → List ℕ → Option ℤ → Option Trail
after cs id rest l none = some (left (pos 0))
after cs id rest l (some r) =
    if is_neg r
    then some (left r)
    else if is_root_hub id
    then some (at_root (find_controller cs id) (add_port r l))
    else rest (add_port r l)

unfoldable pub trail :
    (vista : Bool) → List Controller → Node → (parents : List Node) → List ℕ → Option Trail
trail vista cs node [] l = some (found l)
trail vista cs node (parent ∷ above) l =
    let rest = trail vista cs parent above in
    if length l == 8 then some (left (pos 0)) else elim parent.id [
      | none ↦ some (left (pos 0))
      | some id ↦ find_port vista node parent >>= after cs id rest l
    ]

-- The trail of a device, from its USB node.
unfoldable pub device_trail :
    (vista : Bool) → List Controller → Node → (parents : List Node) → Option Trail
unfolding trail
device_trail vista cs node parents = elim (find_usb_node node parents) [
  | none ↦ some (left (pos 0))
  | some usb ↦ trail vista cs usb.0 (usb.1 ∷ usb.2) []
]

-- An early return is never positive.
abbrev pub Gives : Option Trail → Type 0
Gives (some (left r)) = is_pos r ≡ false
Gives t = Unit

at_root-Gives : (c : ℕ) (l : List ℕ) → Gives (some (at_root c l))
at_root-Gives c l =
    if_Gives (length l == 0) _ _ refl
      (if_Gives (length l == 8) _ _ tt (if_Gives (c == 0) _ _ refl tt))
  where
    if_Gives :
        (b : Bool) (t u : Trail)
        → Gives (some t)
        → Gives (some u)
        → Gives (some (if b then t else u))
    if_Gives true t u ht hu = ht
    if_Gives false t u ht hu = hu

after-Gives :
    (cs : List Controller) (id : Text) (rest : List ℕ → Option Trail) (l : List ℕ) (port : Option ℤ)
    → ((l' : List ℕ) → Gives (rest l'))
    → Gives (after cs id rest l port)
after-Gives cs id rest l none h = refl
after-Gives cs id rest l (some r) h = elim (Bool-cases (is_neg r)) [
  | inl failed ↦ rw failed (not_pos r failed)
  | inr on ↦ elim (Bool-cases (is_root_hub id)) [
    | inl root ↦ rw (on, root) (at_root-Gives (find_controller cs id) (add_port r l))
    | inr hub ↦ rw (on, hub) (h (add_port r l))
  ]
]
  where
    not_pos : (r : ℤ) → is_neg r ≡ true → is_pos r ≡ false
    not_pos (pos n) h = absurd (cc)
    not_pos (negsuc n) h = refl

bind-Gives :
    (o : Option (Option ℤ)) (f : Option ℤ → Option Trail)
    → ((port : Option ℤ) → Gives (f port))
    → Gives (o >>= f)
bind-Gives none f h = tt
bind-Gives (some port) f h = h port

trail-Gives :
    (vista : Bool) (cs : List Controller) (node : Node) (parents : List Node) (l : List ℕ)
    → Gives (trail vista cs node parents l)
unfolding trail
trail-Gives vista cs node [] l = tt
trail-Gives vista cs node (parent ∷ above) l = elim (Bool-cases (length l == 8)) [
  | inl deep ↦ rw deep refl
  | inr more ↦ elim (Option-cases parent.id) [
    | inl no_id ↦ rw (more, no_id) refl
    | inr (id, e) ↦
        rw (more, e)
          (bind-Gives (find_port vista node parent) _ (λ port.
            after-Gives cs id (trail vista cs parent above) l port
              (trail-Gives vista cs parent above)))
  ]
]

pub device_trail-Gives :
    (vista : Bool) (cs : List Controller) (node : Node) (parents : List Node)
    → Gives (device_trail vista cs node parents)
unfolding device_trail
device_trail-Gives vista cs node parents = elim (Option-cases (find_usb_node node parents)) [
  | inl none_there ↦ rw (device_trail, none_there) refl
  | inr (usb, e) ↦ rw (device_trail, e) (trail-Gives vista cs usb.0 (usb.1 ∷ usb.2) [])
]
