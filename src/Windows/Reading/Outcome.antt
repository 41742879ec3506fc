-- ===== src/Windows/Reading/Outcome.antt =====
-- What the device is that `process_win32_device` gives.
use libhs.Base.{
  ℕ, ◌+◌, ◌-◌, ◌%◌, ◌^◌, ◌<◌, ◌≡◌, ◌≢◌, refl, sym, subst, Bool, true, false, Option, none, some,
  List, [], ◌++◌, ℤ, pos, negsuc, is_pos, if◌then◌else◌, ◌==◌, ◌>>=◌, arith, length, length-append,
  Bool-cases, inl, inr,
}
use mathlib.Core.List.{reverse}
use libhs.ErrorCode
use libhs.Common.{Text, codes}
use libhs.Device.{Device}
use libhs.Linux.{Step, stop, next, ◌>>>◌}
use libhs.Linux.Steps.{Holds, then_Holds}
use libhs.Darwin.Location
use libhs.Darwin.Location.Bounds.{get_elem?-some}
use libhs.Darwin.Location.Order.{dashed, print_ports-dashed, length-reverse}
use libhs.Windows.Location.Trail.{
  Trail, left, found, overrun, device_trail, Gives, device_trail-Gives,
}
use libhs.Windows.Location.Ports.{Meets, resolve_device_location-Meets}
use libhs.Windows.Controllers.{Controller}
use libhs.Windows.Location.{Node, resolve_device_location, build_location_string}
use libhs.Windows.Reading.{
  Scanned, set_numbers, Answers, start_device, finish, set_location, locate_device,
  process_win32_device,
}
use libhs.Windows.Reading.Stages.{
  asked, IsStarted, Filled, zero-Holds, start_device-Holds, properties-Holds,
}

-- A device that was found at the ports `l`, from the device up to the controller.
pub record IsProcessed (hid_guid : Text) (a : Answers) (key : Option Text) (l : List ℕ)
    (dev : Device) : Type 0 where
  pub started : IsStarted hid_guid a key dev
  pub location : dev.location ≡ some (codes "usb" ++ dashed (reverse l))
  pub vid : dev.vid < 2 ^ 16
  pub pid : dev.pid < 2 ^ 16
  pub iface : dev.iface < 2 ^ 8

iface-bound : (n : Scanned) → (if n.count == 3 then n.iface % 2 ^ 8 else 0) < 2 ^ 8
iface-bound n = ground arith

module _ (hid_guid : Text) (a : Answers) (key : Option Text) (l : List ℕ) (dev : Device)
    (st : IsStarted hid_guid a key dev) where
  abbrev Whole : Device → Type 0
  Whole = IsProcessed hid_guid a key l

  filled-Whole :
      (n : Scanned) (m p s : Option Text)
      → Whole (record (set_numbers n dev) {
        manufacturer = m;
        product = p;
        serial_number = s;
        location = some (codes "usb" ++ dashed (reverse l));
      })
  unfolding set_numbers
  filled-Whole n m p s = record {
    started = record {
      one_reference = st.one_reference;
      live = st.live;
      unknown = st.unknown;
      key_asked = st.key_asked;
      first = st.first;
      named = st.named;
    };
    location = refl;
    vid = omega arith;
    pid = omega arith;
    iface = iface-bound n;
  }

  located-Holds :
      (allocated : Bool) (s : Step Device)
      → Holds (Filled dev) s
      → Holds Whole (
          s
          >>> set_location (
              if allocated
              then (pos 0, some (codes "usb" ++ dashed (reverse l)))
              else (ErrorCode.memory, none)))
  unfolding set_location Holds
  located-Holds true s h =
      then_Holds (Filled dev) _ s _ h (λ dev' (n, m, p, t, e). rw e (filled-Whole n m p t))
  located-Holds false s h = then_Holds (Filled dev) _ s _ h (λ dev' filled. refl)

-- No device comes with a result that is not positive, and a device that was read with 1.
abbrev pub Sound :
    (hid_guid : Text) → Answers → (key : Option Text) → Trail → ℤ × Option Device → Type 0
Sound hid_guid a key t (r, none) = is_pos r ≡ false
Sound hid_guid a key t (r, some dev) =
    (r ≡ pos 1) × (l : List ℕ) × (t ≡ found l) × IsProcessed hid_guid a key l dev

finish-Sound :
    (hid_guid : Text) (a : Answers) (key : Option Text) (l : List ℕ) (s : Step Device)
    → Holds (IsProcessed hid_guid a key l) s
    → Sound hid_guid a key (found l) (finish s)
unfolding Holds finish
finish-Sound hid_guid a key l (stop r) h = h
finish-Sound hid_guid a key l (next dev) h = (refl, l, refl, h)

stop-Sound :
    (hid_guid : Text) (a : Answers) (key : Option Text) (t : Trail) (r : ℤ)
    → is_pos r ≡ false
    → Sound hid_guid a key t (finish (stop r))
unfolding finish
stop-Sound hid_guid a key t r h = h

build-dashed :
    (allocated : Bool) (l post : List ℕ)
    → length l + length post ≡ 8
    → build_location_string allocated (reverse l ++ post) (length l)
      ≡ some (
          if allocated
          then (pos 0, some (codes "usb" ++ dashed (reverse l)))
          else (ErrorCode.memory, none))
unfolding build_location_string Location.build_location_string
build-dashed allocated l post room =
    let printed =
      print_ports-dashed (reverse l) [] post 0 253 (codes "usb") refl
        (omega (arith, length-reverse l)) in
    rw (sym (length-reverse l), printed) refl

module _ (hid_guid : Text) (scan : Text → Scanned) (vista : Bool) (controllers : List Controller)
    (a : Answers) (node : Node) (parents : List Node) where
  -- The end of `process_win32_device` for a device that was started.
  abbrev located : Device → ℤ × List ℕ → Option (Step Device)
  located = locate_device hid_guid scan vista controllers a node parents

  located-stop : (dev : Device) (r : ℤ) → is_pos r ≡ false → located dev (r, []) ≡ some (stop r)
  unfolding locate_device
  located-stop dev (pos n) h = let e : n ≡ 0 = ground arith in rw e refl
  located-stop dev (negsuc n) h = refl

  located-found :
      (key : Option Text) (dev : Device) (l post : List ℕ)
      → IsStarted hid_guid a key dev
      → length l + length post ≡ 8
      → (s : Step Device) × (located dev (pos (length l), reverse l ++ post) ≡ some s)
        × Holds (IsProcessed hid_guid a key l) s
  unfolding locate_device
  located-found key dev l post st room = elim (Bool-cases (length l == 0)) [
    | inl none_there ↦ (stop (pos 0), rw none_there refl, zero-Holds (IsProcessed hid_guid a key l))
    | inr some_there ↦
        let size = length-append (reverse l) post in
        let size' = length-reverse l in
        let low : length l - 1 < length (reverse l ++ post) = ground arith in
        let (port, got) = get_elem?-some (reverse l ++ post) (length l - 1) low in
        (
          _,
          rw (some_there, got, build-dashed a.location_allocated l post room) refl,
          located-Holds hid_guid a key l dev st a.location_allocated _
              (properties-Holds scan (a.hub port) node parents dev),
        )
  ]

  -- Behind `start_device`, by the trail.
  abbrev Ends : (key : Option Text) → Trail → Option (ℤ × Option Device) → Type 0
  Ends key t o = (r : ℤ × Option Device) × (o ≡ some r) × Sound hid_guid a key t r

  started-Ends :
      (key : Option Text) (dev : Device) (t : Trail) (o : Option (ℤ × List ℕ))
      → IsStarted hid_guid a key dev
      → t ≢ overrun
      → Gives (some t)
      → Meets (some t) o
      → Ends key t (o >>= located dev >>= λ s. some (finish s))
  started-Ends key dev overrun o st fits gives meets = absurd (fits refl)
  started-Ends key dev (left r) o st fits gives meets = (
    finish (stop r),
    rw (meets, located-stop dev r gives) refl,
    stop-Sound hid_guid a key (left r) r gives,
  )
  started-Ends key dev (found l) o st fits gives (post, meets, room) =
      let (s, done, h) = located-found key dev l post st room in
      (finish s, rw (meets, done) refl, finish-Sound hid_guid a key l s h)

  process-Ends :
      (id : Option Text) (t : Trail) (s : Step Device)
      → start_device hid_guid a id node ≡ s
      → Holds (IsStarted hid_guid a (asked id node)) s
      → length a.ports ≡ 8
      → device_trail vista controllers node parents ≡ some t
      → t ≢ overrun
      → Ends
          (asked id node)
          t
          (process_win32_device hid_guid scan vista controllers a id node parents)
  unfolding process_win32_device Holds
  process-Ends id t (stop r) e st room way fits = ((r, none), rw (process_win32_device, e) refl, st)
  process-Ends id t (next dev) e st room way fits =
      let meets = resolve_device_location-Meets vista controllers node parents a.ports room in
      let gives = device_trail-Gives vista controllers node parents in
      rw (process_win32_device, e)
        (started-Ends (asked id node) dev t
          (resolve_device_location vista controllers node parents a.ports) st fits
          (subst Gives way gives)
          (subst (λ w. Meets w (resolve_device_location vista controllers node parents a.ports)) way
            meets))

-- `process_win32_device` ends without a fault, whatever Windows, `sscanf` and the allocations answer,
-- where the loops over the ports of a hub end and no root hub is reached with eight ports. Without a
-- device the result is not positive. With one it is 1, and the device has one reference and no
-- monitor, its key is the identifier it was asked for by, which is not that of a duplicate
-- collection, and begins as its type says; its path is the `PortName` behind `\\.\`, or the path
-- that is built for the key; its location lists the ports from the controller down to the device;
-- and its numbers fit their widths.
pub process_win32_device-Sound :
    (hid_guid : Text) (scan : Text → Scanned) (vista : Bool) (controllers : List Controller)
    (a : Answers) (id : Option Text) (node : Node) (parents : List Node) (t : Trail)
    → length a.ports ≡ 8
    → device_trail vista controllers node parents ≡ some t
    → t ≢ overrun
    → (r : ℤ × Option Device) × (process_win32_device hid_guid scan vista controllers a id node
          parents
        ≡ some r)
      × Sound hid_guid a (asked id node) t r
process_win32_device-Sound hid_guid scan vista controllers a id node parents t =
    process-Ends hid_guid scan vista controllers a node parents id t
      (start_device hid_guid a id node) refl (start_device-Holds hid_guid a id node)
