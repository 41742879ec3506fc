-- ===== src/Darwin/Create/Outcome.antt =====
-- What `hs_monitor_new` leaves: a monitor that owns the devices, or nothing.
use libhs.Base.{
  ℕ, ◌+◌, ◌<◌, ◌≡◌, refl, ap, ◌∙◌, Bool, true, false, not, Option, none, some, List, [], ◌∷◌, ◌++◌,
  ℤ, pos, is_neg, if◌then◌else◌, ltb, ◌==◌, ◌%◌, arith, length, All, Bool-cases, inl, inr,
}
use libhs.ErrorCode
use libhs.Common.{Text}
use libhs.Device.{Device}
use libhs.Htable.Buckets.{Buckets, Nodup, Nodup-behind}
use libhs.Monitor.{Monitor, Call}
use libhs.Monitor.Init.{init-IsValid, init-failed}
use libhs.Monitor.Release.{release-none}
use libhs.Linux.Create.{zeroed, Attempt}
use libhs.Linux.Create.Outcome.{Made, Ended, if-Ended, AllFreed-of}
use libhs.Linux.Events.Owned.{IsOwned}
use libhs.Linux.Events.Refresh.{AllFreed}
use libhs.Linux.Events.Release.{release-frees}
use libhs.Darwin.Events.Owned.{found_places, HaveRoom, iterator-Owns}
use libhs.Darwin.Create.{
  Controller, Host, add_controller, add_controllers, populate_controllers, Class, Start, free,
  give_up, fill, set_up, create_with, create,
}

abbrev pub class_places : List Class → List ℕ
class_places [] = []
class_places (class ∷ classes) = found_places class.services ++ class_places classes

abbrev pub count : List Class → ℕ
count [] = 0
count (class ∷ classes) = length class.services + count classes

module _ (fuel : ℕ) where
  give_up-Ended :
      (r : ℤ) (m : Monitor) (b : Buckets)
      → is_neg r ≡ true
      → IsOwned m b
      → ((i : ℕ) → i < m.devices.size → length (b i) < fuel)
      → Ended (give_up fuel r m)
  unfolding give_up free
  give_up-Ended r m b negative o room =
      let (m', done, freed) = release-frees fuel m b o room in
      ((r, none, m'.device), rw done refl, (negative, freed))

  empty-Ended :
      (r : ℤ) (m : Monitor)
      → is_neg r ≡ true
      → m.devices.size ≡ 0
      → ((n : ℕ) → (m.device n).freed ≡ true)
      → Ended (give_up fuel r m)
  unfolding give_up free
  empty-Ended r m negative none_there freed =
      let done = release-none fuel m none_there in
      ((r, none, m.device), rw done refl, (negative, freed))

module _ {W : Type 0} (call : Call W) (fuel : ℕ) where
  fill-Ended :
      (terminated : Bool) (classes : List Class) (m : Monitor) (b : Buckets) (w : W)
      → IsOwned m b
      → All (λ class. HaveRoom class.services) classes
      → Nodup (class_places classes)
      → AllFreed m (class_places classes)
      → ((i : ℕ) → i < m.devices.size → length (b i) + count classes < fuel)
      → Ended (fill call fuel terminated classes m w)
  unfolding fill
  fill-Ended terminated [] m b w o there nodup freed enough =
      if-Ended terminated _ _ ((pos 0, some m, m.device), refl, (refl, refl, (b, o)))
        (give_up-Ended fuel ErrorCode.system m b refl o (λ i hi. omega (arith, enough i hi)))
  fill-Ended terminated (class ∷ classes) m b w o there nodup freed enough =
      let (r, m', w', b', done, o', freed', room) =
        iterator-Owns call fuel class.services (class_places classes) (count classes) m b w o
          there.0 nodup freed enough in
      elim (Bool-cases class.matched) [
        | inr unmatched ↦
            rw unmatched
              (give_up-Ended fuel ErrorCode.system m b refl o (λ i hi. omega (arith, enough i hi)))
        | inl matched ↦ elim (Bool-cases (is_neg r)) [
          | inl failed ↦
              rw (matched, done, failed)
                (give_up-Ended fuel r m' b' failed o' (λ i hi. omega (arith, room i hi)))
          | inr on ↦
              rw (matched, done, on)
                (fill-Ended terminated classes m' b' w' o' there.1
                  (Nodup-behind (found_places class.services) (class_places classes) nodup) freed'
                  room)
        ]
      ]

  set_up-Ended :
      (table : Bool) (a : Start) (memory : ℕ → Device) (w : W)
      → a.table ≡ table
      → ((n : ℕ) → (memory n).freed ≡ true)
      → All (λ class. HaveRoom class.services) a.classes
      → Nodup (class_places a.classes)
      → count a.classes < fuel
      → Ended (set_up call fuel a (zeroed memory) w)
  unfolding set_up
  set_up-Ended false a memory w e freed there nodup enough =
      let m = record (zeroed memory) { callbacks = [] } in
      rw (e, init-failed (zeroed memory)) (empty-Ended fuel ErrorCode.memory m refl refl freed)
  set_up-Ended true a memory w e freed there nodup enough =
      let (m, made, v, same, _) = init-IsValid (zeroed memory) in
      let all : (n : ℕ) → (m.device n).freed ≡ true =
        λ n. ap (λ device. (device n).freed) same ∙ freed n in
      let o : IsOwned m (λ i. []) = record {
        valid = v;
        sole = λ i n hi on. absurd (cc);
        tidy = λ n live. let gone = all n in absurd (cc);
      } in
      rw (e, made)
        (fill-Ended a.terminated a.classes m (λ i. []) w o there nodup
          (AllFreed-of m all (class_places a.classes)) (λ i hi. omega arith))

  create_with-Ended :
      (populated : ℤ) (a : Start) (memory : ℕ → Device) (w : W)
      → ((n : ℕ) → (memory n).freed ≡ true)
      → All (λ class. HaveRoom class.services) a.classes
      → Nodup (class_places a.classes)
      → count a.classes < fuel
      → Ended (create_with call fuel populated a memory w)
  unfolding create_with
  create_with-Ended populated a memory w freed there nodup enough =
      let empty : Ended (give_up fuel ErrorCode.system (zeroed memory)) =
        empty-Ended fuel ErrorCode.system (zeroed memory) refl refl freed in
      elim (Bool-cases (is_neg populated)) [
        | inl failed ↦ ((populated, none, memory), rw failed refl, (failed, freed))
        | inr on ↦ rw on (
            if-Ended (not a.allocated) _ _ ((ErrorCode.memory, none, memory), refl, (refl, freed))
              (if-Ended (not a.notify_port) _ _ empty (
                if-Ended (not a.queue) _ _ empty (
                  if-Ended (not a.port_set) _ _ empty (
                    if-Ended (not a.member) _ _ empty (
                      if-Ended (not a.event) _ _ empty
                        (set_up-Ended a.table a memory w refl freed there nodup enough)))))))
      ]

-- The path of a controller fits its buffer.
abbrev pub ShortPath : Option Text → Type 0
ShortPath none = Unit
ShortPath (some path) = length path < 128

abbrev pub ShortPaths : Option (List Host) → Type 0
ShortPaths none = Unit
ShortPaths (some hosts) = All (λ host. ShortPath host.path) hosts

-- A call of `populate_controllers` that ends without a fault.
abbrev Populates : Option (ℤ × List Controller) → Type 0
Populates o = (p : ℤ × List Controller) × (o ≡ some p)

if-Populates :
    (b : Bool) (o o' : Option (ℤ × List Controller))
    → Populates o
    → Populates o'
    → Populates (if b then o else o')
if-Populates true o o' h h' = h
if-Populates false o o' h h' = h'

add_controller-Populates :
    (path : Option Text) (allocated : Bool) (index : ℕ) (cs : List Controller)
    → ShortPath path
    → Populates (add_controller (record { path = path; allocated = allocated }) index cs)
unfolding add_controller
add_controller-Populates none allocated index cs short = ((pos 0, cs), refl)
add_controller-Populates (some path) allocated index cs short =
    let fits : ltb (length path) 128 ≡ true = ground arith in
    rw fits (if-Populates allocated _ _ (_, refl) (_, refl))

add_controllers-Populates :
    (index : ℕ) (hosts : List Host) (cs : List Controller)
    → All (λ host. ShortPath host.path) hosts
    → Populates (add_controllers index hosts cs)
unfolding add_controllers
add_controllers-Populates index [] cs short = ((pos 0, cs), refl)
add_controllers-Populates index (host ∷ hosts) cs short =
    let (o, added) =
      add_controller-Populates host.path host.allocated ((index + 1) % 256) cs short.0 in
    if-Populates (index == 255) _ _ ((pos 0, cs), refl)
      (rw (add_controllers, added)
        (if-Populates (is_neg o.0) _ _ (o, refl)
          (add_controllers-Populates (index + 1) hosts o.1 short.1)))

populate_controllers-Populates :
    (hosts : Option (List Host)) (cs : List Controller)
    → ShortPaths hosts
    → Populates (populate_controllers hosts cs)
unfolding populate_controllers
populate_controllers-Populates none [] short = (_, refl)
populate_controllers-Populates (some hosts) [] short = add_controllers-Populates 0 hosts [] short
populate_controllers-Populates none (c ∷ cs) short = (_, refl)
populate_controllers-Populates (some hosts) (c ∷ cs) short = (_, refl)

-- With no device in memory, each place used once, arrays of ports that have their size, product
-- numbers of at most 48 bits, paths of controllers of less than 128 bytes, and more fuel than there
-- are devices, `hs_monitor_new` ends without a fault, whatever IOKit, the kernel and the allocations
-- answer. Either the result is 0, and there is a well-formed monitor that has the one reference to
-- each device it knows, while no other device is in memory; or the result is negative, there is no
-- monitor, and all devices are freed.
pub start-Made :
    {W : Type 0} (call : Call W) (fuel : ℕ) (a : Start) (memory : ℕ → Device) (w : W)
    → ((n : ℕ) → (memory n).freed ≡ true)
    → ShortPaths a.hosts
    → All (λ class. HaveRoom class.services) a.classes
    → Nodup (class_places a.classes)
    → count a.classes < fuel
    → (o : Attempt) × (cs : List Controller) × (create call fuel a memory w ≡ some (o, cs)) × Made o
unfolding create
start-Made call fuel a memory w freed short there nodup enough =
    let (p, populated) = populate_controllers-Populates a.hosts a.controllers short in
    let (o, done, made) = create_with-Ended call fuel p.0 a memory w freed there nodup enough in
    (o, p.1, rw (create, populated, done) refl, made)
