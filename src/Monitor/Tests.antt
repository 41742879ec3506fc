-- ===== src/Monitor/Tests.antt =====
-- The theorems on the table and the monitor at a table of two cells and a monitor that knows one
-- device, `a`, which two clients watch.
use libhs.Base.{
  ℕ, zero, suc, ◌+◌, ◌%◌, ◌<◌, ◌≡◌, ◌≢◌, refl, true, false, ◌&&◌, none, some, List, [], ◌∷◌, ℤ, pos,
  if◌then◌else◌, ◌==◌, elem, map, length, arith,
}
use libhs.Device.{Device, online, serial, posix_device}
use libhs.Common.{codes}
use libhs.Htable.{Htable, Ptr, slot, node, null, hash_str}
use libhs.Htable
use libhs.Htable.Buckets.{Buckets, Represents, put, without}
use libhs.Htable.Add.{add-Represents}
use libhs.Htable.Unlink.{remove-Represents}
use libhs.Monitor.{Monitor, Callback, Call, trigger, add, remove}
use libhs.Monitor.Known.{IsKnown, IsValid, bucket}
use libhs.Monitor.Add.{attached_device, add-same, add-known}
use libhs.Monitor.Remove.{matches, dropped_device}
use libhs.Monitor.Disconnect.{remove-disconnects}
use libhs.Monitor.Release.{released_device, release-detaches}
use libhs.Monitor.Listing.{listing, list-listing}
use libhs.Monitor.{release, list}

abbrev no_buckets : Buckets
no_buckets i = []

abbrev empty_table : Htable
empty_table = record { size = 2; next = λ p. p; key = λ n. 0 }

empty_table-Represents : Represents empty_table no_buckets
empty_table-Represents = record {
  positive = omega arith;
  rings = λ i hi. refl;
  placed = λ i n hi on. cc;
  nodup = λ i hi. tt;
}

-- The key "a" has the hash 97, so its device goes to cell 1.
abbrev one_next : Ptr → Ptr
one_next null = null
one_next (slot zero) = slot 0
one_next (slot (suc zero)) = node 0
one_next (slot (suc (suc i))) = slot i
one_next (node n) = slot 1

abbrev one_bucket : Buckets
one_bucket zero = []
one_bucket (suc zero) = 0 ∷ []
one_bucket (suc (suc i)) = []

abbrev one_table : Htable
one_table = record { size = 2; next = one_next; key = λ n. 97 }

one_rings :
    (i : ℕ) → i < 2 → Htable.Rings.Leads one_next (slot i) (map node (one_bucket i)) (slot i)
one_rings zero hi = refl
one_rings (suc zero) hi = (refl, refl)
one_rings (suc (suc i)) hi = absurd (omega arith)

one_placed : (i n : ℕ) → i < 2 → elem n (one_bucket i) ≡ true → 97 % 2 ≡ i
one_placed zero n hi on = absurd (cc)
one_placed (suc zero) n hi on = refl
one_placed (suc (suc i)) n hi on = absurd (omega arith)

one-Nodup : (i : ℕ) → i < 2 → Htable.Buckets.Nodup (one_bucket i)
one-Nodup zero hi = tt
one-Nodup (suc zero) hi = (refl, tt)
one-Nodup (suc (suc i)) hi = tt

one_table-Represents : Represents one_table one_bucket
one_table-Represents = record {
  positive = omega arith;
  rings = one_rings;
  placed = one_placed;
  nodup = one-Nodup;
}

-- Node 5 with the key 9 goes before node 0.
add-Represents_example :
    (u : Htable) × (Htable.add one_table 9 5 ≡ some u)
    × (u.size ≡ 2)
    × (u.key 5 ≡ 9)
    × ((m : ℕ) → m ≢ 5 → u.key m ≡ 97)
    × Represents u (put one_bucket 1 5)
add-Represents_example = add-Represents one_table one_bucket 5 one_table-Represents five_absent 9
  where
    five_absent : (i : ℕ) → i < 2 → elem 5 (one_bucket i) ≡ false
    five_absent zero hi = refl
    five_absent (suc zero) hi = refl
    five_absent (suc (suc i)) hi = refl

remove-Represents_example :
    (u : Htable) × (Htable.remove 1 one_table 0 ≡ some u)
    × (u.size ≡ 2)
    × (u.key ≡ one_table.key)
    × Represents u (without one_bucket 0)
remove-Represents_example =
    remove-Represents one_table one_bucket 0 1 1 one_table-Represents (omega arith) refl
      (omega arith)

-- The device with the key "a", as `read_device_information` gives it.
abbrev found_device : Device
found_device = record {
  attached = false;
  refcount = 1;
  key = codes "a";
  type = serial;
  vtable = posix_device;
  state = online;
  location = none;
  path = codes "/dev/ttyACM0";
  vid = 0x16C0;
  pid = 0x0483;
  manufacturer = none;
  product = none;
  serial_number = none;
  iface = 0;
  freed = false;
}

-- The first client's function answers 0, the second's 1.
abbrev watchers : List Callback
watchers = record { id = 0; f = 0; udata = 3 } ∷ record { id = 1; f = 1; udata = 4 } ∷ []

-- The world counts the calls.
abbrev answer : Call ℕ
answer f udata n dev w = (pos f, w + 1)

abbrev empty_monitor : Monitor
empty_monitor = record {
  callbacks = watchers;
  callback_id = 2;
  devices = empty_table;
  device = λ n. found_device;
}

abbrev one_monitor : Monitor
one_monitor = record empty_monitor {
  devices = one_table;
  device = λ n. if n == 0 then attached_device found_device else found_device;
}

empty_monitor-IsValid : IsValid empty_monitor no_buckets
empty_monitor-IsValid = record { table = empty_table-Represents; known = λ i n hi on. absurd (cc) }

zero-IsKnown : IsKnown one_monitor 0
unfolding hash_str
zero-IsKnown = record {
  live = refl;
  attached = refl;
  state = refl;
  referenced = omega arith;
  bounded = omega arith;
  filed = refl;
}

one-IsKnown : (i n : ℕ) → i < 2 → elem n (one_bucket i) ≡ true → IsKnown one_monitor n
one-IsKnown zero n hi on = absurd (cc)
one-IsKnown (suc zero) zero hi on = zero-IsKnown
one-IsKnown (suc zero) (suc n) hi on = absurd (ground arith)
one-IsKnown (suc (suc i)) n hi on = absurd (cc)

one_monitor-IsValid : IsValid one_monitor one_bucket
one_monitor-IsValid = record { table = one_table-Represents; known = one-IsKnown }

-- A second `udev` event for the same device changes nothing.
add-same_example : add answer 2 one_monitor 1 7 ≡ some (pos 0, one_monitor, 7)
unfolding hash_str
add-same_example =
    add-same answer one_monitor one_bucket 1 2 7 one_monitor-IsValid (omega arith) refl

add-known_example :
    (m' : Monitor) × (r : ℤ) × (w' : ℕ) × (add answer 1 empty_monitor 0 7 ≡ some (r, m', w'))
    × IsValid m' (put no_buckets (bucket empty_monitor (codes "a")) 0)
    × (m'.device 0 ≡ attached_device found_device)
    × ((x : ℕ) → x ≢ 0 → m'.device x ≡ found_device)
    × ((r, m'.callbacks, w') ≡ trigger answer watchers 0 (attached_device found_device) 7)
    × (m'.devices.size ≡ 2)
add-known_example =
    add-known answer empty_monitor no_buckets 0 1 7 empty_monitor-IsValid (omega arith)
      (λ i hi. refl) refl refl (omega arith)

remove-disconnects_example :
    (m' : Monitor) × (w' : ℕ) × (b' : Buckets) × (remove answer 2 one_monitor (codes "a") 7
      ≡ some (m', w'))
    × IsValid m' b'
    × (b' 1 ≡ [])
    × ((j : ℕ) → j < 2 → j ≢ 1 → b' j ≡ one_bucket j)
    × ((x : ℕ)
        → m'.device x ≡ (
            if elem x (0 ∷ []) && matches (codes "a") one_monitor x
            then dropped_device (one_monitor.device x)
            else one_monitor.device x))
    × (m'.devices.size ≡ 2)
unfolding hash_str
remove-disconnects_example =
    remove-disconnects answer 2 one_monitor one_bucket (codes "a") 7 one_monitor-IsValid
      (omega arith)

one_fuel : (i : ℕ) → i < 2 → length (one_bucket i) < 2
one_fuel zero hi = omega arith
one_fuel (suc zero) hi = omega arith
one_fuel (suc (suc i)) hi = absurd (omega arith)

release-detaches_example :
    (m' : Monitor) × (release 2 one_monitor ≡ some m')
    × (m'.callbacks ≡ [])
    × ((x : ℕ)
        → m'.device x ≡ (
            if elem x (0 ∷ [])
            then released_device (one_monitor.device x)
            else one_monitor.device x))
release-detaches_example = release-detaches 2 one_monitor one_bucket one_monitor-IsValid one_fuel

list-listing_example :
    list answer 2 one_monitor 5 6 7 ≡ some (listing answer one_monitor 5 6 (0 ∷ []) 7)
list-listing_example =
    list-listing answer 2 one_monitor one_bucket 5 6 7 one_monitor-IsValid one_fuel
