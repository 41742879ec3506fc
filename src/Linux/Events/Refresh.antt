-- ===== src/Linux/Events/Refresh.antt =====
-- `hs_monitor_refresh` over any sequence of events.
use libhs.Base.{
  ℕ, ◌+◌, ◌<◌, ◌≡◌, refl, Bool, true, false, ◌||◌, Option, none, some, List, [], ◌∷◌, ℤ, pos,
  is_neg, if◌then◌else◌, ◌==◌, arith, elem, All, length, Bool-cases, inl, inr,
}
use libhs.ErrorCode
use libhs.Common.{Text}
use libhs.Device.{Device}
use libhs.Htable.Buckets.{Buckets, Nodup}
use libhs.Monitor
use libhs.Monitor.{Monitor, Call}
use libhs.Monitor.Known.{bucket}
use libhs.Linux.{Aggregate, read_device_information}
use libhs.Linux.Details.{Sound, read_device_information-Sound}
use libhs.Linux.Events.{Found, Event, added, removed, other, pass_read, pass_found, handle, refresh}
use libhs.Linux.Events.Owned.{IsOwned}
use libhs.Linux.Events.Reading.{Leaves, same-Leaves, add_read-Leaves}
use libhs.Linux.Events.Removal.{remove_path-Leaves}

-- The memory that reading the devices uses.
abbrev pub places : List Event → List ℕ
places [] = []
places (added found ∷ es) = found.place ∷ places es
places (removed devpath ∷ es) = places es
places (other ∷ es) = places es

abbrev pub place_of : Event → List ℕ
place_of e = places (e ∷ [])

abbrev pub AllFreed : Monitor → List ℕ → Type 0
AllFreed m = All (λ n. (m.device n).freed ≡ true)

pub AreOther : List ℕ → List ℕ → Type 0
AreOther used = All (λ n. elem n used ≡ false)

pub AreOther-none : (ns : List ℕ) → AreOther [] ns
unfolding AreOther
AreOther-none [] = tt
AreOther-none (n ∷ ns) = (refl, AreOther-none ns)

pub AreOther-one : (x : ℕ) (ns : List ℕ) → elem x ns ≡ false → AreOther (x ∷ []) ns
unfolding AreOther
AreOther-one x [] out = tt
AreOther-one x (n ∷ ns) out = (ground (arith, out), AreOther-one x ns (ground (arith, out)))

-- What one event uses, no later event does.
pub next-AreOther :
    (e : Event) (es : List Event) → Nodup (places (e ∷ es)) → AreOther (place_of e) (places es)
next-AreOther (added found) es nodup = AreOther-one found.place (places es) nodup.0
next-AreOther (removed devpath) es nodup = AreOther-none (places es)
next-AreOther other es nodup = AreOther-none (places es)

pub next-Nodup : (e : Event) (es : List Event) → Nodup (places (e ∷ es)) → Nodup (places es)
next-Nodup (added found) es nodup = nodup.1
next-Nodup (removed devpath) es nodup = nodup
next-Nodup other es nodup = nodup

pub next-AllFreed :
    (m : Monitor) (e : Event) (es : List Event)
    → AllFreed m (places (e ∷ es))
    → AllFreed m (place_of e) × AllFreed m (places es)
next-AllFreed m (added found) es free = ((free.0, tt), free.1)
next-AllFreed m (removed devpath) es free = (tt, free)
next-AllFreed m other es free = (tt, free)

pub Leaves-AllFreed :
    (m m' : Monitor) (b b' : Buckets) (used ns : List ℕ)
    → Leaves m b used m' b'
    → AreOther used ns
    → AllFreed m ns
    → AllFreed m' ns
unfolding AreOther
Leaves-AllFreed m m' b b' used [] l out free = tt
Leaves-AllFreed m m' b b' used (n ∷ ns) l out free =
    (l.free n out.0 free.0, Leaves-AllFreed m m' b b' used ns l out.1 free.1)

module _ {W : Type 0} (call : Call W) (fuel : ℕ) (strtoul : Text → (base : ℕ) → ℕ × Bool) where
  abbrev pub Ends : Monitor → Buckets → List ℕ → Option (ℤ × Monitor × W) → Type 0
  Ends m b used o =
      (r : ℤ) × (m' : Monitor) × (w' : W) × (b' : Buckets) × (o ≡ some (r, m', w'))
      × Leaves m b used m' b'

  read-Ends :
      (m : Monitor) (b : Buckets) (n : ℕ) (w : W) (agg : Aggregate) (read : ℤ × Option Device)
      → IsOwned m b
      → (m.device n).freed ≡ true
      → ((i : ℕ) → i < m.devices.size → length (b i) < fuel)
      → Sound agg read
      → Ends m b (n ∷ []) (pass_read (Monitor.add call fuel) n read m w)
  unfolding pass_read
  read-Ends m b n w agg (r, none) o free enough s = (r, m, w, b, refl, same-Leaves m b (n ∷ []) o)
  read-Ends m b n w agg (r, some dev) o free enough (one, usb, same, read) =
      add_read-Leaves call fuel m b n w o free enough r dev read.live read.one_reference

  -- A device that libudev hands out, in a place that is free.
  pub found-Ends :
      (found : Found) (m : Monitor) (b : Buckets) (w : W)
      → IsOwned m b
      → (m.device found.place).freed ≡ true
      → ((i : ℕ) → i < m.devices.size → length (b i) < fuel)
      → Ends m b (found.place ∷ []) (pass_found (Monitor.add call fuel) strtoul found m w)
  unfolding pass_found
  found-Ends found m b w o free enough = rw free (
      read-Ends m b found.place w found.aggregate
        (read_device_information strtoul found.allocated found.aggregate) o free enough
        (read_device_information-Sound strtoul found.allocated found.aggregate))

  handle-Ends :
      (e : Event) (m : Monitor) (b : Buckets) (w : W)
      → IsOwned m b
      → AllFreed m (place_of e)
      → ((i : ℕ) → i < m.devices.size → length (b i) < fuel)
      → Ends m b (place_of e) (handle call fuel strtoul e m w)
  unfolding handle
  handle-Ends (added found) m b w o free enough = found-Ends found m b w o free.0 enough
  handle-Ends (removed devpath) m b w o free enough =
      remove_path-Leaves call fuel m b devpath w o
        (enough (bucket m devpath) (omega (arith, o.valid.table.positive)))
  handle-Ends other m b w o free enough = (pos 0, m, w, b, refl, same-Leaves m b [] o)

  -- The tuple that the loop gives, at any answer of a step.
  refresh-Owned :
      (out_of_memory : Bool) (es : List Event) (m : Monitor) (b : Buckets) (w : W)
      → IsOwned m b
      → Nodup (places es)
      → AllFreed m (places es)
      → ((i : ℕ) → i < m.devices.size → length (b i) + length es < fuel)
      → (r : ℤ) × (rest : List Event) × (m' : Monitor) × (w' : W) × (b' : Buckets) × (refresh call
            fuel strtoul out_of_memory es m w
          ≡ some (r, rest, m', w'))
        × IsOwned m' b'
        × ((is_neg r || (length rest == 0)) ≡ true)
  unfolding refresh
  refresh-Owned out_of_memory [] m b w o nodup free enough =
      (if out_of_memory then ErrorCode.memory else pos 0, [], m, w, b, refl, o, ground arith)
  refresh-Owned out_of_memory (e ∷ es) m b w o nodup free enough =
      let (now, later) = next-AllFreed m e es free in
      let (r, m', w', b', done, l) =
        handle-Ends e m b w o now (λ i hi. omega (arith, enough i hi)) in
      let ih =
        refresh-Owned out_of_memory es m' b' w' l.owned (next-Nodup e es nodup)
          (Leaves-AllFreed m m' b b' (place_of e) (places es) l (next-AreOther e es nodup) later)
          (λ i hi.
            let hi' : i < m.devices.size = omega (arith, l.size) in
            omega (arith, enough i hi', l.growth i hi')) in
      elim (Bool-cases (is_neg r)) [
        | inl failed ↦ (r, es, m', w', b', rw (done, failed) refl, l.owned, rw failed refl)
        | inr on ↦
            let (r'', rest, m'', w'', b'', done', o', ends) = ih in
            (r'', rest, m'', w'', b'', rw (done, on) done', o', ends)
      ]

-- A monitor of which all known devices have one reference, while no other device is in memory, stays
-- such a monitor under `hs_monitor_refresh`, whatever the events and the answers of libudev,
-- `strtoul`, the allocations and the callbacks are: no reference is lost and none is left over. The
-- hypotheses are that the memory that `calloc` gives is free, each place once, and that there is
-- more fuel than any bucket has devices and the list has events. The function ends without a fault,
-- and with a negative result or with all events handled.
pub refresh-IsOwned :
    {W : Type 0} (call : Call W) (fuel : ℕ) (strtoul : Text → (base : ℕ) → ℕ × Bool)
    (out_of_memory : Bool) (es : List Event) (m : Monitor) (b : Buckets) (w : W)
    → IsOwned m b
    → Nodup (places es)
    → AllFreed m (places es)
    → ((i : ℕ) → i < m.devices.size → length (b i) + length es < fuel)
    → (r : ℤ) × (rest : List Event) × (m' : Monitor) × (w' : W) × (b' : Buckets) × (refresh call
          fuel strtoul out_of_memory es m w
        ≡ some (r, rest, m', w'))
      × IsOwned m' b'
      × ((is_neg r || (length rest == 0)) ≡ true)
refresh-IsOwned call fuel strtoul = refresh-Owned call fuel strtoul
