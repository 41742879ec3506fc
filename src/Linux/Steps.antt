-- ===== src/Linux/Steps.antt =====
-- What each step of `read_device_information` leaves for the next one.
use libhs.Base.{
  ℕ, ◌^◌, ◌<◌, ◌≡◌, refl, Bool, true, false, Option, none, some, [], ◌∷◌, ◌++◌, map, is_pos,
  if◌then◌else◌, ◌==◌, All, arith, Bool-cases, inl, inr,
}
use libhs.ErrorCode
use libhs.Common.{Text}
use libhs.Device.{DeviceType, hid, serial, Vtable, posix_device, linux_hid}
use libhs.Monitor.{text_eq}
use libhs.Linux.{
  Usb, Step, stop, next, ◌>>>◌, need, copy, copy_optional, usb_text, hidraw_text, tty_text,
  dash_for_dot, compute_device_location, kind, number,
}

-- An early return gives no device; a value satisfies `P`.
unfoldable pub Holds : {A : Type 0} → (A → Type 0) → Step A → Type 0
Holds P (stop r) = is_pos r ≡ false
Holds P (next a) = P a

pub next_Holds : {A : Type 0} (P : A → Type 0) (a : A) → P a → Holds P (next a)
unfolding Holds
next_Holds P a h = h

pub then_Holds :
    {A B : Type 0} (P : A → Type 0) (Q : B → Type 0) (s : Step A) (f : A → Step B)
    → Holds P s
    → ((a : A) → P a → Holds Q (f a))
    → Holds Q (s >>> f)
unfolding Holds ◌>>>◌
then_Holds P Q (stop r) f h k = h
then_Holds P Q (next a) f h k = k a h

pub need-Holds : {A : Type 0} (o : Option A) → Holds (λ a. o ≡ some a) (need o)
unfolding Holds need
need-Holds none = refl
need-Holds (some a) = refl

pub need_existing-Holds :
    (exists : Bool) (o : Option Text)
    → Holds (λ a. (exists ≡ true) × (o ≡ some a)) (need (if exists then o else none))
unfolding Holds need
need_existing-Holds false o = refl
need_existing-Holds true none = refl
need_existing-Holds true (some a) = (refl, refl)

pub copy-Holds : (allocated : Bool) (s : Text) → Holds (λ c. c ≡ s) (copy allocated s)
unfolding Holds copy
copy-Holds false s = refl
copy-Holds true s = refl

pub copy_optional-Holds :
    (allocated : Bool) (o : Option Text) → Holds (λ c. c ≡ o) (copy_optional allocated o)
unfolding Holds copy_optional copy ◌>>>◌
copy_optional-Holds allocated none = refl
copy_optional-Holds false (some s) = refl
copy_optional-Holds true (some s) = refl

-- The functions that open a device of a type.
abbrev pub vtable_of : DeviceType → Vtable
vtable_of hid = linux_hid
vtable_of serial = posix_device

abbrev pub subsystem_of : DeviceType → Text
subsystem_of hid = hidraw_text
subsystem_of serial = tty_text

pub kind-Holds : (s : Text) → Holds (λ k. k.1 ≡ vtable_of k.0) (kind s)
unfolding Holds kind
kind-Holds s = elim (Bool-cases (text_eq s hidraw_text)) [
  | inl e ↦ rw e refl
  | inr e ↦ elim (Bool-cases (text_eq s tty_text)) [
    | inl e' ↦ rw (e, e') refl
    | inr e' ↦ rw (e, e') refl
  ]
]

abbrev pub HasNoDot : Text → Type 0
HasNoDot s = All (λ c. (c == 46) ≡ false) s

map-HasNoDot : (s : Text) → HasNoDot (map dash_for_dot s)
map-HasNoDot [] = tt
map-HasNoDot (c ∷ s) = (ground arith, map-HasNoDot s)

pub location-Holds :
    (allocated : Bool) (usb : Usb) → Holds HasNoDot (compute_device_location allocated usb)
unfolding Holds compute_device_location
location-Holds allocated usb =
    then_Holds (λ a. usb.busnum ≡ some a) HasNoDot (need usb.busnum)
      (λ busnum. need usb.devpath >>> λ devpath.
        if allocated
        then next (map dash_for_dot (usb_text ++ busnum ++ 45 ∷ devpath))
        else stop ErrorCode.memory)
      (need-Holds usb.busnum)
      (λ busnum e.
        then_Holds (λ a. usb.devpath ≡ some a) HasNoDot (need usb.devpath)
          (λ devpath.
            if allocated
            then next (map dash_for_dot (usb_text ++ busnum ++ 45 ∷ devpath))
            else stop ErrorCode.memory)
          (need-Holds usb.devpath)
          (λ devpath e'. elim (Bool-cases allocated) [
            | inl got ↦ rw got (map-HasNoDot (usb_text ++ busnum ++ 45 ∷ devpath))
            | inr failed ↦ rw failed refl
          ]))

pub number-Holds_short :
    (strtoul : Text → (base : ℕ) → ℕ × Bool) (s : Text)
    → Holds (λ n. n < 2 ^ 16) (number strtoul 16 16 s)
unfolding Holds number
number-Holds_short strtoul s = elim (Bool-cases (strtoul s 16).1) [
  | inl e ↦ rw e refl
  | inr e ↦ rw e (omega arith)
]

pub number-Holds_byte :
    (strtoul : Text → (base : ℕ) → ℕ × Bool) (s : Text)
    → Holds (λ n. n < 2 ^ 8) (number strtoul 10 8 s)
unfolding Holds number
number-Holds_byte strtoul s = elim (Bool-cases (strtoul s 10).1) [
  | inl e ↦ rw e refl
  | inr e ↦ rw e (omega arith)
]

pub if_Holds :
    {A : Type 0} (P : A → Type 0) (b : Bool) (s : Step A)
    → Holds P s
    → Holds P (if b then s else stop ErrorCode.memory)
unfolding Holds
if_Holds P false s h = refl
if_Holds P true s h = h

pub weaken_Holds :
    {A : Type 0} (P Q : A → Type 0) (s : Step A) → Holds P s → ((a : A) → P a → Q a) → Holds Q s
unfolding Holds
weaken_Holds P Q (stop r) h k = h
weaken_Holds P Q (next a) h k = k a h

pub if_both :
    {A : Type 0} (P : A → Type 0) (c : Bool) (s t : Step A)
    → Holds P s
    → Holds P t
    → Holds P (if c then s else t)
if_both P true s t hs ht = hs
if_both P false s t hs ht = ht
