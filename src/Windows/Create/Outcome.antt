-- ===== src/Windows/Create/Outcome.antt =====
-- What `hs_monitor_new` leaves: a monitor that owns the devices, or nothing.
use libhs.Base.{
  ℕ, ◌+◌, ◌<◌, ◌≡◌, refl, ap, ◌∙◌, Bool, true, false, Option, none, some, List, [], ◌∷◌, ◌++◌, ℤ,
  pos, is_neg, int_eq, ◌>>=◌, arith, length, All, Bool-cases, inl, inr,
}
use libhs.ErrorCode
use libhs.Device.{Device}
use libhs.Htable.Buckets.{Buckets, Nodup, Nodup-behind}
use libhs.Monitor
use libhs.Monitor.{Monitor, Call}
use libhs.Monitor.Init.{init-IsValid, init-failed}
use libhs.Monitor.Release.{release-none}
use libhs.Linux.Create.{zeroed}
use libhs.Linux.Create.Outcome.{AllFreed-of}
use libhs.Linux.Events.{pass_read}
use libhs.Linux.Events.Owned.{IsOwned}
use libhs.Linux.Events.Refresh.{AllFreed, AreOther-one, Leaves-AllFreed}
use libhs.Linux.Events.Release.{release-frees}
use libhs.Windows.Controllers.{populate_controllers}
use libhs.Windows.Reading.Outcome.{process_win32_device-Sound}
use libhs.Windows.Reading.Stages.{asked}
use libhs.Windows.Refresh.{Arrival, Setting, receive}
use libhs.Windows.Refresh.Outcome.{HasRoom, Ends, read-Ends}
use libhs.Windows.Create.{
  Class, read_listed, devices_loop, enumerate_class, classes_loop, Scan, enumerate, Start, Attempt,
  free, give_up, start_thread, fill, set_up, create,
}

abbrev pub places : List Arrival → List ℕ
places [] = []
places (x ∷ xs) = x.place ∷ places xs

abbrev pub all_places : List Class → List ℕ
all_places [] = []
all_places (class ∷ classes) = places class.devices ++ all_places classes

abbrev pub count : List Class → ℕ
count [] = 0
count (class ∷ classes) = length class.devices + count classes

module _ {W : Type 0} (call : Call W) (fuel : ℕ) (c : Setting) where
  abbrev listed : List Arrival → Monitor → W → Option (ℤ × Monitor × W)
  listed = devices_loop (Monitor.add call fuel) c

  listed-Ends :
      (x : Arrival) (m : Monitor) (b : Buckets) (w : W)
      → HasRoom c x
      → IsOwned m b
      → (m.device x.place).freed ≡ true
      → ((i : ℕ) → i < m.devices.size → length (b i) < fuel)
      → Ends call fuel c m b
          (x.place ∷ [])
          (read_listed c x >>= λ read. pass_read (Monitor.add call fuel) x.place read m w)
  unfolding read_listed
  listed-Ends x m b w there o free enough =
      let (read, done, s) =
        process_win32_device-Sound c.hid_guid c.scan c.vista c.controllers x.answers none x.node
          x.parents there.way there.room there.trail there.fits in
      rw done (read-Ends call fuel c m b x (asked none x.node) w there.way read o free enough s)

  -- A result, with a monitor that owns its devices, room for more of them, and places still free.
  abbrev Owns : (more : List ℕ) → (rounds : ℕ) → Option (ℤ × Monitor × W) → Type 0
  Owns more rounds o =
      (r : ℤ) × (m' : Monitor) × (w' : W) × (b' : Buckets) × (o ≡ some (r, m', w'))
      × IsOwned m' b'
      × ((int_eq r (pos 0)) ≡ true → AllFreed m' more)
      × ((i : ℕ) → i < m'.devices.size → length (b' i) + rounds < fuel)

  -- The head of a list of distinct places is not among the others.
  devices-Owns :
      (xs : List Arrival) (more : List ℕ) (rounds : ℕ) (m : Monitor) (b : Buckets) (w : W)
      → IsOwned m b
      → All (HasRoom c) xs
      → Nodup (places xs ++ more)
      → AllFreed m (places xs ++ more)
      → ((i : ℕ) → i < m.devices.size → length (b i) + (length xs + rounds) < fuel)
      → Owns more rounds (listed xs m w)
  unfolding devices_loop
  devices-Owns [] more rounds m b w o there nodup freed enough =
      (pos 0, m, w, b, refl, o, (λ e. freed), λ i hi. omega (arith, enough i hi))
  devices-Owns (x ∷ xs) more rounds m b w o there nodup freed enough =
      let (r, m', w', b', done, l) =
        listed-Ends x m b w there.0 o freed.0 (λ i hi. omega (arith, enough i hi)) in
      let room : (i : ℕ) → i < m'.devices.size → length (b' i) + (length xs + rounds) < fuel =
        λ i hi.
          let hi' : i < m.devices.size = omega (arith, l.size) in
          omega (arith, enough i hi', l.growth i hi') in
      let freed' =
        Leaves-AllFreed m m' b b' (x.place ∷ []) (places xs ++ more) l
          (AreOther-one x.place (places xs ++ more) nodup.0) freed.1 in
      let ih = devices-Owns xs more rounds m' b' w' l.owned there.1 nodup.1 freed' room in
      elim (Bool-cases (int_eq r (pos 0))) [
        | inl on ↦
            let (r'', m'', w'', b'', done', o', freed'', room') = ih in
            (r'', m'', w'', b'', rw (freed.0, done, on) done', o', freed'', room')
        | inr off ↦ (
          r,
          m',
          w',
          b',
          rw (freed.0, done, off) refl,
          l.owned,
          (λ e. absurd (cc)),
          λ i hi. omega (arith, room i hi),
        )
      ]

  class-Owns :
      (class : Class) (more : List ℕ) (rounds : ℕ) (m : Monitor) (b : Buckets) (w : W)
      → IsOwned m b
      → All (HasRoom c) class.devices
      → Nodup (places class.devices ++ more)
      → AllFreed m (places class.devices ++ more)
      → ((i : ℕ) → i < m.devices.size → length (b i) + (length class.devices + rounds) < fuel)
      → Owns more rounds (enumerate_class (Monitor.add call fuel) c class m w)
  unfolding enumerate_class
  class-Owns class more rounds m b w o there nodup freed enough = elim (Bool-cases class.opened) [
    | inl opened ↦
        rw opened (devices-Owns class.devices more rounds m b w o there nodup freed enough)
    | inr closed ↦
        rw closed (
          ErrorCode.system,
          m,
          w,
          b,
          refl,
          o,
          (λ e. absurd (cc)),
          λ i hi. omega (arith, enough i hi),
        )
  ]

  classes-Owns :
      (classes : List Class) (m : Monitor) (b : Buckets) (w : W)
      → IsOwned m b
      → All (λ class. All (HasRoom c) class.devices) classes
      → Nodup (all_places classes)
      → AllFreed m (all_places classes)
      → ((i : ℕ) → i < m.devices.size → length (b i) + count classes < fuel)
      → Owns [] 0 (classes_loop (Monitor.add call fuel) c classes m w)
  unfolding classes_loop
  classes-Owns [] m b w o there nodup freed enough = (pos 0, m, w, b, refl, o, (λ e. tt), enough)
  classes-Owns (class ∷ classes) m b w o there nodup freed enough =
      let (r, m', w', b', done, o', freed', room) =
        class-Owns class (all_places classes) (count classes) m b w o there.0 nodup freed enough in
      elim (Bool-cases (int_eq r (pos 0))) [
        | inl on ↦
            let (r'', m'', w'', b'', done', o'', freed'', room') =
              classes-Owns classes m' b' w' o' there.1
                (Nodup-behind (places class.devices) (all_places classes) nodup) (freed' on) room in
            (r'', m'', w'', b'', rw (done, on) done', o'', freed'', room')
        | inr off ↦
            (r, m', w', b', rw (done, off) refl, o', (λ e. tt), λ i hi. omega (arith, room i hi))
      ]

-- The controllers that `populate_controllers` leaves for the devices.
abbrev pub populated : Setting → Scan → Setting
populated c scan = record c {
  controllers = (populate_controllers scan.hosts_opened scan.hosts c.controllers).1;
}

abbrev pub classes : Scan → List Class
classes scan = scan.usb ∷ scan.hid ∷ []

-- Either a monitor that owns the devices, or no device in memory.
abbrev pub Made : Attempt → Type 0
Made (r, some (m, shared), memory) =
    (r ≡ pos 0) × (memory ≡ m.device) × (is_neg shared.ret ≡ false) × ((b : Buckets) × IsOwned m b)
Made (r, none, memory) = (is_neg r ≡ true) × ((n : ℕ) → (memory n).freed ≡ true)

abbrev Ended : Option Attempt → Type 0
Ended o = (a : Attempt) × (o ≡ some a) × Made a

give_up-Ended :
    (fuel : ℕ) (r : ℤ) (m : Monitor) (b : Buckets)
    → is_neg r ≡ true
    → IsOwned m b
    → ((i : ℕ) → i < m.devices.size → length (b i) < fuel)
    → Ended (give_up fuel r m)
unfolding give_up free
give_up-Ended fuel r m b negative o room =
    let (m', done, freed) = release-frees fuel m b o room in
    ((r, none, m'.device), rw done refl, (negative, freed))

start_thread-Ended :
    (fuel : ℕ) (a : Start) (m : Monitor) (b : Buckets)
    → a.thread ≡ true
    → IsOwned m b
    → ((i : ℕ) → i < m.devices.size → length (b i) < fuel)
    → Ended (start_thread fuel a m)
unfolding start_thread
start_thread-Ended fuel a m b thread o room =
    let shared =
      receive a.messages (record { ret = a.thread_ret; notifications = []; signalled = true }) in
    elim (Bool-cases a.waited) [
      | inr unwaited ↦ rw (thread, unwaited) (give_up-Ended fuel ErrorCode.system m b refl o room)
      | inl waited ↦ elim (Bool-cases (is_neg shared.ret)) [
        | inl failed ↦ rw (thread, waited, failed) (give_up-Ended fuel shared.ret m b failed o room)
        | inr on ↦ (
          (pos 0, some (m, record shared { signalled = false }), m.device),
          rw (thread, waited, on) refl,
          (refl, refl, on, (b, o)),
        )
      ]
    ]

module _ {W : Type 0} (call : Call W) (fuel : ℕ) (c : Setting) where
  enumerate-Owns :
      (scan : Scan) (m : Monitor) (b : Buckets) (w : W)
      → IsOwned m b
      → All (λ class. All (HasRoom (populated c scan)) class.devices) (classes scan)
      → Nodup (all_places (classes scan))
      → AllFreed m (all_places (classes scan))
      → ((i : ℕ) → i < m.devices.size → length (b i) + count (classes scan) < fuel)
      → Owns call fuel (populated c scan) [] 0 (enumerate (Monitor.add call fuel) c scan m w)
  unfolding enumerate
  enumerate-Owns scan m b w o there nodup freed enough =
      let (r, found) = populate_controllers scan.hosts_opened scan.hosts c.controllers in
      elim (Bool-cases (is_neg r)) [
        | inl failed ↦
            rw failed (r, m, w, b, refl, o, (λ e. tt), λ i hi. omega (arith, enough i hi))
        | inr on ↦ rw on (
            classes-Owns call fuel (populated c scan) (classes scan) m b w o there nodup freed
              enough)
      ]

  fill-Ended :
      (a : Start) (m : Monitor) (b : Buckets) (w : W)
      → a.thread ≡ true
      → IsOwned m b
      → All (λ class. All (HasRoom (populated c a.scan)) class.devices) (classes a.scan)
      → Nodup (all_places (classes a.scan))
      → AllFreed m (all_places (classes a.scan))
      → ((i : ℕ) → i < m.devices.size → length (b i) + count (classes a.scan) < fuel)
      → Ended (fill call fuel c a m w)
  unfolding fill
  fill-Ended a m b w thread o there nodup freed enough =
      let (r, m', w', b', done, o', _, room) =
        enumerate-Owns a.scan m b w o there nodup freed enough in
      let room' : (i : ℕ) → i < m'.devices.size → length (b' i) < fuel =
        λ i hi. omega (arith, room i hi) in
      elim (Bool-cases (is_neg r)) [
        | inl failed ↦ rw (done, failed) (give_up-Ended fuel r m' b' failed o' room')
        | inr on ↦ rw (done, on) (start_thread-Ended fuel a m' b' thread o' room')
      ]

  empty-Ended :
      (r : ℤ) (m : Monitor)
      → is_neg r ≡ true
      → m.devices.size ≡ 0
      → ((n : ℕ) → (m.device n).freed ≡ true)
      → Ended (give_up fuel r m)
  unfolding give_up free
  empty-Ended r m negative none_there freed =
      let done = release-none fuel m none_there in
      ((r, none, m.device), rw done refl, (negative, freed))

  set_up-Ended :
      (table : Bool) (a : Start) (memory : ℕ → Device) (w : W)
      → a.table ≡ table
      → a.thread ≡ true
      → ((n : ℕ) → (memory n).freed ≡ true)
      → All (λ class. All (HasRoom (populated c a.scan)) class.devices) (classes a.scan)
      → Nodup (all_places (classes a.scan))
      → count (classes a.scan) < fuel
      → Ended (set_up call fuel c a (zeroed memory) w)
  unfolding set_up
  set_up-Ended false a memory w e thread freed there nodup enough =
      let m = record (zeroed memory) { callbacks = [] } in
      rw (e, init-failed (zeroed memory)) (empty-Ended ErrorCode.memory m refl refl freed)
  set_up-Ended true a memory w e thread freed there nodup enough =
      let (m, made, v, same, _) = init-IsValid (zeroed memory) in
      let all : (n : ℕ) → (m.device n).freed ≡ true =
        λ n. ap (λ device. (device n).freed) same ∙ freed n in
      let o : IsOwned m (λ i. []) = record {
        valid = v;
        sole = λ i n hi on. absurd (cc);
        tidy = λ n live. let gone = all n in absurd (cc);
      } in
      rw (e, made)
        (fill-Ended a m (λ i. []) w thread o there nodup
          (AllFreed-of m all (all_places (classes a.scan))) (λ i hi. omega arith))

-- With no device in memory, each place used once, locations that fit the array of ports, more fuel
-- than there are devices, and a thread that can be created, `hs_monitor_new` ends without a fault,
-- whatever else Windows and the allocations answer. Either the result is 0, and there is a
-- well-formed monitor that has the one reference to each device it knows, while no other device is
-- in memory, and no error of its thread waits; or the result is negative, there is no monitor, and
-- all devices are freed.
pub new-Made :
    {W : Type 0} (call : Call W) (fuel : ℕ) (c : Setting) (a : Start) (memory : ℕ → Device) (w : W)
    → a.thread ≡ true
    → ((n : ℕ) → (memory n).freed ≡ true)
    → All (λ class. All (HasRoom (populated c a.scan)) class.devices) (classes a.scan)
    → Nodup (all_places (classes a.scan))
    → count (classes a.scan) < fuel
    → (o : Attempt) × (create call fuel c a memory w ≡ some o) × Made o
unfolding create
new-Made call fuel c a memory w thread freed there nodup enough = elim (Bool-cases a.allocated) [
  | inr unallocated ↦ ((ErrorCode.memory, none, memory), rw unallocated refl, (refl, freed))
  | inl allocated ↦ elim (Bool-cases a.event) [
    | inr no_event ↦
        rw (allocated, no_event)
          (empty-Ended call fuel c ErrorCode.system (zeroed memory) refl refl freed)
    | inl event ↦
        rw (allocated, event)
          (set_up-Ended call fuel c a.table a memory w refl thread freed there nodup enough)
  ]
]
