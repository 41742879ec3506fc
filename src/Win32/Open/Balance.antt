-- ===== src/Win32/Open/Balance.antt =====
-- An open handle of the Windows backend holds one reference to its device, and whatever fails gives
-- back what it got.
use libhs.Base.{
  ℕ, suc, ◌≡◌, refl, Bool, true, false, Option, none, some, List, [], ◌∷◌, ◌++◌, ℤ, pos, is_neg,
  not, ◌&&◌, if◌then◌else◌, ◌==◌, arith,
}
use libhs.ErrorCode
use libhs.Device.{Device}
use libhs.Device.Live.{IsLive, raised, ref-raised, unref-raised}
use libhs.Win32.Open.{
  FileError, Answers, Resource, memory, file, invalid_file, overlapped, event, buffer, Opened,
  release, close_win32_device, file_error, Attempt, give_up, start, get_buffer, get_event,
  get_overlapped, zeroed, get_file, open_win32_device,
}

abbrev tag : Resource → ℕ
tag memory = 0
tag file = 1
tag invalid_file = 2
tag overlapped = 3
tag event = 4
tag buffer = 5

abbrev pub count : Resource → List Resource → ℕ
count r [] = 0
count r (x ∷ xs) = if tag r == tag x then suc (count r xs) else count r xs

-- What was got is what is given back, each once.
abbrev pub SameItems : List Resource → List Resource → Type 0
SameItems xs ys =
    (count memory xs ≡ count memory ys)
    × (count file xs ≡ count file ys)
    × (count invalid_file xs ≡ count invalid_file ys)
    × (count overlapped xs ≡ count overlapped ys)
    × (count event xs ≡ count event ys)
    × (count buffer xs ≡ count buffer ys)

-- What the system gives before the first step that fails.
abbrev pub acquired : Answers → List Resource
acquired a =
    if a.allocated
    then memory ∷ (elim a.file [
      | some e ↦ []
      | none ↦
          file
          ∷ (if a.overlapped
              then overlapped
                ∷ (if a.event then event ∷ (if a.buffer then buffer ∷ [] else []) else [])
              else [])
    ])
    else []

-- A `CreateFile` that fails gives `INVALID_HANDLE_VALUE`, which is not null: `close_win32_device`
-- passes it to `CloseHandle` nevertheless.
abbrev pub not_acquired : Answers → List Resource
not_acquired a = if a.allocated then elim a.file [ some e ↦ invalid_file ∷ [] | none ↦ [] ] else []

abbrev pub Balanced : Device → Answers → Attempt → Type 0
Balanced dev a (r, none, dev', given) =
    (is_neg r ≡ true) × (dev' ≡ dev) × SameItems given (not_acquired a ++ acquired a)
Balanced dev a (r, some h, dev', given) =
    (r ≡ pos 0)
    × (dev' ≡ raised dev)
    × (given ≡ [])
    × ((same : Bool)
        → (closed : List Resource) × (close_win32_device true same h dev' ≡ some (dev, closed))
          × SameItems closed (acquired a))

file_error-negative : (e : FileError) → is_neg (file_error e) ≡ true
unfolding file_error
file_error-negative e = ground arith

and_false : (b c : Bool) → c ≡ false → (b && c) ≡ false
and_false b c e = ground arith

module _ (dev : Device) (live : IsLive dev) where
  -- With `CancelIoEx`, or in the thread that reads, all is given back at once.
  close-raised :
      (cancels same : Bool) (h : Opened)
      → (not cancels && not same) ≡ false
      → close_win32_device cancels same h (raised dev) ≡ some (dev, release h)
  unfolding close_win32_device
  close-raised cancels same h at_once =
      rw (unref-raised dev live, and_false h.pending (not cancels && not same) at_once) refl

  give_up-raised : (r : ℤ) (h : Opened) → give_up r h (raised dev) ≡ some (r, none, dev, release h)
  unfolding give_up
  give_up-raised r h = rw (close-raised false true h refl) refl

  abbrev Ends : Answers → Type 0
  Ends a = (o : Attempt) × (open_win32_device a dev ≡ some o) × Balanced dev a o

  -- By the first step that fails.
  open-Ends :
      (allocated : Bool) (error : Option FileError) (ov ev buf started : Bool)
      → Ends (record {
        allocated = allocated;
        file = error;
        overlapped = ov;
        event = ev;
        buffer = buf;
        started = started;
      })
  unfolding open_win32_device get_file get_overlapped get_event get_buffer start release
  open-Ends false error ov ev buf started =
      ((ErrorCode.memory, none, dev, []), refl, (refl, refl, omega arith))
  open-Ends true (some e) ov ev buf started =
      let h : Opened = record zeroed { handle = some invalid_file } in
      (
        (file_error e, none, dev, release h),
        rw (ref-raised dev live, give_up-raised (file_error e) h) refl,
        (file_error-negative e, refl, omega arith),
      )
  open-Ends true none false ev buf started =
      let h : Opened = record zeroed { handle = some file } in
      (
        (ErrorCode.memory, none, dev, release h),
        rw (ref-raised dev live, give_up-raised ErrorCode.memory h) refl,
        (refl, refl, omega arith),
      )
  open-Ends true none true false buf started =
      let h : Opened = record zeroed { handle = some file; ov = true } in
      (
        (ErrorCode.system, none, dev, release h),
        rw (ref-raised dev live, give_up-raised ErrorCode.system h) refl,
        (refl, refl, omega arith),
      )
  open-Ends true none true true false started =
      let h : Opened = record zeroed { handle = some file; ov = true; event = true } in
      (
        (ErrorCode.memory, none, dev, release h),
        rw (ref-raised dev live, give_up-raised ErrorCode.memory h) refl,
        (refl, refl, omega arith),
      )
  open-Ends true none true true true started =
      let h : Opened = record zeroed {
        handle = some file;
        ov = true;
        event = true;
        buf = true;
        pending = started;
      } in
      (
        (pos 0, some h, raised dev, []),
        rw (ref-raised dev live) refl,
        (refl, refl, refl, λ same. (release h, close-raised true same h refl, omega arith)),
      )

-- On a device that is not freed, with at least one reference and room for one more,
-- `open_win32_device` ends without a fault, whatever the system answers. If it fails, the result is
-- negative, the device is as before, and what the system gave is given back, each thing once; where
-- `CreateFile` has failed, its invalid value is closed as well, which the system never gave. If it
-- succeeds, the result is 0, the device has one more reference, and nothing is given back; where the
-- system has `CancelIoEx`, `close_win32_device` then gives back what the system gave, each thing
-- once, and restores the device.
pub open_win32_device-balance :
    (a : Answers) (dev : Device)
    → IsLive dev
    → (o : Attempt) × (open_win32_device a dev ≡ some o) × Balanced dev a o
open_win32_device-balance a dev live =
    open-Ends dev live a.allocated a.file a.overlapped a.event a.buffer a.started
