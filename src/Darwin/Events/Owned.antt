-- ===== src/Darwin/Events/Owned.antt =====
-- The messages leave a monitor that owns the devices it knows.
use libhs.Base.{
  ℕ, ◌+◌, ◌<◌, ◌≡◌, refl, Bool, true, false, Option, none, some, List, [], ◌∷◌, ◌++◌, ℤ, pos,
  negsuc, zero, suc, ◌==◌, is_pos, eq_of_int_eq, int_eq, if◌then◌else◌, ◌>>=◌, arith, length, All,
  Bool-cases, inl, inr,
}
use libhs.ErrorCode
use libhs.Device.{Device}
use libhs.Htable.Buckets.{Buckets, Nodup, Nodup-behind}
use libhs.Monitor
use libhs.Monitor.{Monitor, Call}
use libhs.Monitor.Known.{bucket}
use libhs.Linux.Events.{pass_read}
use libhs.Linux.Events.Owned.{IsOwned}
use libhs.Linux.Events.Reading.{Leaves, same-Leaves, add_read-Leaves}
use libhs.Linux.Events.Removal.{removed-Leaves}
use libhs.Linux.Events.Refresh.{AllFreed, AreOther-one, AreOther-none, Leaves-AllFreed}
use libhs.Darwin.Discovery.{Service, process_darwin_device}
use libhs.Darwin.Discovery.Outcome.{Sound, Fits, process_darwin_device-Sound}
use libhs.Darwin.Events.{
  Found, process_iterator_devices, Message, attached, detached, removed_key, remove_device,
  darwin_devices_detached, dispatch, dispatch_all, refresh,
}

int_ne : (r : ℤ) → int_eq r (pos 0) ≡ false → r ≡ pos 0 → ⊥
int_ne r off e = let same : int_eq r (pos 0) ≡ true = rw e refl in absurd (cc)

abbrev pub found_places : List Found → List ℕ
found_places [] = []
found_places (x ∷ xs) = x.place ∷ found_places xs

abbrev pub places_of : Message → List ℕ
places_of (attached xs) = found_places xs
places_of (detached sessions) = []

abbrev pub places : List Message → List ℕ
places [] = []
places (message ∷ messages) = places_of message ++ places messages

-- How many devices the messages are about.
abbrev pub size_of : Message → ℕ
size_of (attached xs) = length xs
size_of (detached sessions) = length sessions

abbrev pub count : List Message → ℕ
count [] = 0
count (message ∷ messages) = size_of message + count messages

-- Each array of ports has its size, and the product numbers do not reach the pointer behind them.
abbrev pub HaveRoom : List Found → Type 0
HaveRoom = All (λ x. Fits x.service)

AllFreed-behind : (m : Monitor) (xs ys : List ℕ) → AllFreed m (xs ++ ys) → AllFreed m ys
AllFreed-behind m [] ys free = free
AllFreed-behind m (x ∷ xs) ys free = AllFreed-behind m xs ys free.1

abbrev pub MessageRoom : Message → Type 0
MessageRoom (attached xs) = HaveRoom xs
MessageRoom (detached sessions) = Unit

module _ {W : Type 0} (call : Call W) (fuel : ℕ) where
  abbrev Ends : Monitor → Buckets → List ℕ → Option (ℤ × Monitor × W) → Type 0
  Ends m b used o =
      (r : ℤ) × (m' : Monitor) × (w' : W) × (b' : Buckets) × (o ≡ some (r, m', w'))
      × Leaves m b used m' b'

  read-Ends :
      (m : Monitor) (b : Buckets) (n : ℕ) (w : W) (a : Service) (read : ℤ × Option Device)
      → IsOwned m b
      → (m.device n).freed ≡ true
      → ((i : ℕ) → i < m.devices.size → length (b i) < fuel)
      → Sound a read
      → Ends m b (n ∷ []) (pass_read (Monitor.add call fuel) n read m w)
  unfolding pass_read
  read-Ends m b n w a (r, none) o free enough s = (r, m, w, b, refl, same-Leaves m b (n ∷ []) o)
  read-Ends m b n w a (r, some dev) o free enough (one, l, named) =
      add_read-Leaves call fuel m b n w o free enough r dev l.started.live l.started.one_reference

  found-Ends :
      (x : Found) (m : Monitor) (b : Buckets) (w : W)
      → Fits x.service
      → IsOwned m b
      → (m.device x.place).freed ≡ true
      → ((i : ℕ) → i < m.devices.size → length (b i) < fuel)
      → Ends m b (x.place ∷ []) (
          process_darwin_device x.service >>= λ read.
          pass_read (Monitor.add call fuel) x.place read m w)
  found-Ends x m b w room o free enough =
      let (read, done, s) = process_darwin_device-Sound x.service room in
      rw done (read-Ends m b x.place w x.service read o free enough s)

  -- A result, with a monitor that owns its devices, room for more of them, and places still free.
  abbrev pub Owns : (more : List ℕ) → (rounds : ℕ) → Option (ℤ × Monitor × W) → Type 0
  Owns more rounds o =
      (r : ℤ) × (m' : Monitor) × (w' : W) × (b' : Buckets) × (o ≡ some (r, m', w'))
      × IsOwned m' b'
      × AllFreed m' more
      × ((i : ℕ) → i < m'.devices.size → length (b' i) + rounds < fuel)

  pub iterator-Owns :
      (xs : List Found) (more : List ℕ) (rounds : ℕ) (m : Monitor) (b : Buckets) (w : W)
      → IsOwned m b
      → HaveRoom xs
      → Nodup (found_places xs ++ more)
      → AllFreed m (found_places xs ++ more)
      → ((i : ℕ) → i < m.devices.size → length (b i) + (length xs + rounds) < fuel)
      → Owns more rounds (process_iterator_devices (Monitor.add call fuel) xs m w)
  unfolding process_iterator_devices
  iterator-Owns [] more rounds m b w o there nodup freed enough =
      (pos 0, m, w, b, refl, o, freed, λ i hi. omega (arith, enough i hi))
  iterator-Owns (x ∷ xs) more rounds m b w o there nodup freed enough =
      let (r, m', w', b', done, l) =
        found-Ends x m b w there.0 o freed.0 (λ i hi. omega (arith, enough i hi)) in
      let room : (i : ℕ) → i < m'.devices.size → length (b' i) + (length xs + rounds) < fuel =
        λ i hi.
          let hi' : i < m.devices.size = omega (arith, l.size) in
          omega (arith, enough i hi', l.growth i hi') in
      let freed' =
        Leaves-AllFreed m m' b b' (x.place ∷ []) (found_places xs ++ more) l
          (AreOther-one x.place (found_places xs ++ more) nodup.0) freed.1 in
      let ih = iterator-Owns xs more rounds m' b' w' l.owned there.1 nodup.1 freed' room in
      elim (Bool-cases (int_eq r (pos 0))) [
        | inl on ↦
            let (r'', m'', w'', b'', done', o', freed'', room') = ih in
            (r'', m'', w'', b'', rw (freed.0, done, on) done', o', freed'', room')
        | inr off ↦ (
          r,
          m',
          w',
          b',
          rw (freed.0, done, off) refl,
          l.owned,
          AllFreed-behind m' (found_places xs) more freed',
          λ i hi. omega (arith, room i hi),
        )
      ]

  removal-Ends :
      (session : Option ℕ) (m : Monitor) (b : Buckets) (w : W)
      → IsOwned m b
      → ((i : ℕ) → i < m.devices.size → length (b i) < fuel)
      → (m' : Monitor) × (w' : W) × (b' : Buckets) × (remove_device call fuel session m w
          ≡ some (m', w'))
        × Leaves m b [] m' b'
  unfolding remove_device
  removal-Ends none m b w o enough = (m, w, b, refl, same-Leaves m b [] o)
  removal-Ends (some session) m b w o enough =
      let key = removed_key session in
      removed-Leaves call fuel m b key w o
        (enough (bucket m key) (omega (arith, o.valid.table.positive)))

  detached-Owns :
      (sessions : List (Option ℕ)) (more : List ℕ) (rounds : ℕ) (m : Monitor) (b : Buckets) (w : W)
      → IsOwned m b
      → AllFreed m more
      → ((i : ℕ) → i < m.devices.size → length (b i) + (length sessions + rounds) < fuel)
      → (m' : Monitor) × (w' : W) × (b' : Buckets) × (darwin_devices_detached call fuel sessions m w
          ≡ some (m', w'))
        × IsOwned m' b'
        × AllFreed m' more
        × ((i : ℕ) → i < m'.devices.size → length (b' i) + rounds < fuel)
  unfolding darwin_devices_detached
  detached-Owns [] more rounds m b w o freed enough =
      (m, w, b, refl, o, freed, λ i hi. omega (arith, enough i hi))
  detached-Owns (session ∷ sessions) more rounds m b w o freed enough =
      let (m', w', b', done, l) =
        removal-Ends session m b w o (λ i hi. omega (arith, enough i hi)) in
      let (m'', w'', b'', done', o', freed', room) =
        detached-Owns sessions more rounds m' b' w' l.owned
          (Leaves-AllFreed m m' b b' [] more l (AreOther-none more) freed)
          (λ i hi.
            let hi' : i < m.devices.size = omega (arith, l.size) in
            omega (arith, enough i hi', l.growth i hi')) in
      (m'', w'', b'', rw done done', o', freed', room)

  dispatch-Owns :
      (message : Message) (more : List ℕ) (rounds : ℕ) (m : Monitor) (b : Buckets) (w : W)
      → IsOwned m b
      → MessageRoom message
      → Nodup (places_of message ++ more)
      → AllFreed m (places_of message ++ more)
      → ((i : ℕ) → i < m.devices.size → length (b i) + (size_of message + rounds) < fuel)
      → Owns more rounds (dispatch call fuel message (pos 0) m w)
  unfolding dispatch
  dispatch-Owns (attached xs) more rounds m b w o there nodup freed enough =
      iterator-Owns xs more rounds m b w o there nodup freed enough
  dispatch-Owns (detached sessions) more rounds m b w o there nodup freed enough =
      let (m', w', b', done, o', freed', room) =
        detached-Owns sessions more rounds m b w o freed enough in
      (pos 0, m', w', b', rw done refl, o', freed', room)

  -- What the loop ends with.
  abbrev Dispatched : Option (ℤ × List Message × ℤ × Monitor × W) → Type 0
  Dispatched o =
      (r : ℤ) × (rest : List Message) × (m' : Monitor) × (w' : W) × (b' : Buckets) × (o
        ≡ some (r, rest, pos 0, m', w'))
      × IsOwned m' b'
      × (r ≡ pos 0 → rest ≡ [])

  dispatch_all-Owns :
      (failed : Bool) (messages : List Message) (m : Monitor) (b : Buckets) (w : W)
      → IsOwned m b
      → All MessageRoom messages
      → Nodup (places messages)
      → AllFreed m (places messages)
      → ((i : ℕ) → i < m.devices.size → length (b i) + count messages < fuel)
      → Dispatched (dispatch_all call fuel failed messages (pos 0) m w)
  unfolding dispatch_all
  dispatch_all-Owns failed [] m b w o there nodup freed enough =
      (if failed then ErrorCode.system else pos 0, [], m, w, b, refl, o, λ e. refl)
  dispatch_all-Owns failed (message ∷ messages) m b w o there nodup freed enough =
      let (r, m', w', b', done, o', freed', room) =
        dispatch-Owns message (places messages) (count messages) m b w o there.0 nodup freed
          enough in
      elim (Bool-cases (int_eq r (pos 0))) [
        | inl on ↦
            let zero : r ≡ pos 0 = eq_of_int_eq r (pos 0) on in
            let (r'', rest, m'', w'', b'', done', o'', all) =
              dispatch_all-Owns failed messages m' b' w' o' there.1
                (Nodup-behind (places_of message) (places messages) nodup) freed' room in
            (r'', rest, m'', w'', b'', rw (done, on, zero) done', o'', all)
        | inr off ↦ (r, messages, m', w', b', rw (done, off) refl, o', λ e. absurd (int_ne r off e))
      ]

-- A monitor of which all known devices have one reference, while no other device is in memory, and
-- whose `notify_ret` is 0, stays such a monitor under `hs_monitor_refresh`, whatever the messages
-- and the answers of IOKit, the kernel, the allocations and the callbacks are. The hypotheses are
-- that the memory that `calloc` gives is free, each place once, that the arrays of ports have their
-- size and the product numbers at most 48 bits, and that there is more fuel than any bucket has
-- devices and the messages are about. The function ends without a fault, and where `kevent` has seen a message and the result is 0, it has
-- dispatched all messages.
pub refresh-Owned :
    {W : Type 0} (call : Call W) (fuel : ℕ) (events : ℤ) (failed : Bool) (messages : List Message)
    (m : Monitor) (b : Buckets) (w : W)
    → IsOwned m b
    → All MessageRoom messages
    → Nodup (places messages)
    → AllFreed m (places messages)
    → ((i : ℕ) → i < m.devices.size → length (b i) + count messages < fuel)
    → (r : ℤ) × (rest : List Message) × (m' : Monitor) × (w' : W) × (b' : Buckets) × (refresh call
          fuel events failed messages
          (pos 0)
          m
          w
        ≡ some (r, rest, pos 0, m', w'))
      × IsOwned m' b'
      × (is_pos events ≡ true → r ≡ pos 0 → rest ≡ [])
unfolding refresh
refresh-Owned call fuel (negsuc n) failed messages m b w o there nodup freed enough =
    (ErrorCode.system, messages, m, w, b, refl, o, λ e. absurd (cc))
refresh-Owned call fuel (pos zero) failed messages m b w o there nodup freed enough =
    (pos 0, messages, m, w, b, refl, o, λ e. absurd (cc))
refresh-Owned call fuel (pos (suc n)) failed messages m b w o there nodup freed enough =
    let (r, rest, m', w', b', done, o', all) =
      dispatch_all-Owns call fuel failed messages m b w o there nodup freed enough in
    let positive : (suc n == 0) ≡ false = ground arith in
    (r, rest, m', w', b', rw positive done, o', λ e. all)
