-- ===== src/Linux/Create/Outcome.antt =====
-- What `hs_monitor_new` leaves: a monitor that owns the devices, or nothing.
use libhs.Base.{
  ℕ, ◌+◌, ◌<◌, ◌≡◌, refl, ap, ◌∙◌, Bool, true, false, not, Option, none, some, List, [], ◌∷◌, ℤ,
  pos, is_neg, int_eq, if◌then◌else◌, arith, length, Bool-cases, inl, inr,
}
use libhs.ErrorCode
use libhs.Common.{Text}
use libhs.Device.{Device}
use libhs.Htable.Buckets.{Buckets, Nodup}
use libhs.Monitor
use libhs.Monitor.{Monitor, Call}
use libhs.Monitor.Init.{init-IsValid, init-failed}
use libhs.Monitor.Release.{release-none}
use libhs.Linux.Events.{Event, added, other}
use libhs.Linux.Events.Owned.{IsOwned}
use libhs.Linux.Events.Refresh.{
  places, AllFreed, found-Ends, next-AreOther, next-AllFreed, Leaves-AllFreed,
}
use libhs.Linux.Events.Release.{release-frees}
use libhs.Linux.Create.{
  Entry, listed, unopened, Scan, entries_loop, enumerate, Answers, zeroed, Attempt, free, give_up,
  fill, set_up, create,
}

-- An entry uses memory as an event does.
abbrev event : Entry → Event
event (listed found) = added found
event (unopened out_of_memory) = other

abbrev pub events : List Entry → List Event
events [] = []
events (e ∷ es) = event e ∷ events es

module _ {W : Type 0} (call : Call W) (fuel : ℕ) (strtoul : Text → (base : ℕ) → ℕ × Bool) where
  -- A result, with a monitor that owns its devices and that can be freed with the same fuel.
  abbrev Owns : Option (ℤ × Monitor × W) → Type 0
  Owns o =
      (r : ℤ) × (m' : Monitor) × (w' : W) × (b' : Buckets) × (o ≡ some (r, m', w'))
      × IsOwned m' b'
      × ((i : ℕ) → i < m'.devices.size → length (b' i) < fuel)

  entries_loop-Owns :
      (es : List Entry) (m : Monitor) (b : Buckets) (w : W)
      → IsOwned m b
      → Nodup (places (events es))
      → AllFreed m (places (events es))
      → ((i : ℕ) → i < m.devices.size → length (b i) + length es < fuel)
      → Owns (entries_loop strtoul (Monitor.add call fuel) es m w)
  unfolding entries_loop
  entries_loop-Owns [] m b w o nodup freed enough =
      (pos 0, m, w, b, refl, o, λ i hi. omega (arith, enough i hi))
  entries_loop-Owns (unopened true ∷ es) m b w o nodup freed enough =
      (ErrorCode.memory, m, w, b, refl, o, λ i hi. omega (arith, enough i hi))
  entries_loop-Owns (unopened false ∷ es) m b w o nodup freed enough =
      entries_loop-Owns es m b w o nodup freed (λ i hi. omega (arith, enough i hi))
  entries_loop-Owns (listed found ∷ es) m b w o nodup freed enough =
      let (now, later) = next-AllFreed m (added found) (events es) freed in
      let (r, m', w', b', done, l) =
        found-Ends call fuel strtoul found m b w o now.0 (λ i hi. omega (arith, enough i hi)) in
      let room : (i : ℕ) → i < m'.devices.size → length (b' i) + length es < fuel = λ i hi.
        let hi' : i < m.devices.size = omega (arith, l.size) in
        omega (arith, enough i hi', l.growth i hi') in
      let ih =
        entries_loop-Owns es m' b' w' l.owned nodup.1
          (Leaves-AllFreed m m' b b' (found.place ∷ []) (places (events es)) l
            (next-AreOther (added found) (events es) nodup) later)
          room in
      elim (Bool-cases (int_eq r (pos 0))) [
        | inl on ↦
            let (r'', m'', w'', b'', done', o', room') = ih in
            (r'', m'', w'', b'', rw (done, on) done', o', room')
        | inr off ↦ (r, m', w', b', rw (done, off) refl, l.owned, λ i hi. omega (arith, room i hi))
      ]

  if-Owns :
      (c : Bool) (x y : Option (ℤ × Monitor × W)) → Owns x → Owns y → Owns (if c then x else y)
  if-Owns true x y hx hy = hx
  if-Owns false x y hx hy = hy

  enumerate-Owns :
      (scan : Scan) (m : Monitor) (b : Buckets) (w : W)
      → IsOwned m b
      → Nodup (places (events scan.entries))
      → AllFreed m (places (events scan.entries))
      → ((i : ℕ) → i < m.devices.size → length (b i) + length scan.entries < fuel)
      → Owns (enumerate strtoul (Monitor.add call fuel) scan m w)
  unfolding enumerate
  enumerate-Owns scan m b w o nodup freed enough =
      let stopped : (r : ℤ) → Owns (some (r, m, w)) =
        λ r. (r, m, w, b, refl, o, λ i hi. omega (arith, enough i hi)) in
      if-Owns (not scan.udev) _ _ (stopped ErrorCode.system) (
        if-Owns (not scan.enumerate) _ _ (stopped ErrorCode.memory) (
          if-Owns (not scan.matches) _ _ (stopped ErrorCode.memory) (
            if-Owns (not scan.scanned) _ _ (stopped ErrorCode.system)
              (entries_loop-Owns scan.entries m b w o nodup freed enough))))

-- Either a monitor that owns the devices, or no device in memory.
abbrev pub Made : Attempt → Type 0
Made (r, some m, memory) = (r ≡ pos 0) × (memory ≡ m.device) × ((b : Buckets) × IsOwned m b)
Made (r, none, memory) = (is_neg r ≡ true) × ((n : ℕ) → (memory n).freed ≡ true)

abbrev pub Ended : Option Attempt → Type 0
Ended o = (a : Attempt) × (o ≡ some a) × Made a

pub if-Ended : (c : Bool) (x y : Option Attempt) → Ended x → Ended y → Ended (if c then x else y)
if-Ended true x y hx hy = hx
if-Ended false x y hx hy = hy

give_up-Ended :
    (fuel : ℕ) (r : ℤ) (m m' : Monitor)
    → is_neg r ≡ true
    → Monitor.release fuel m ≡ some m'
    → ((n : ℕ) → (m'.device n).freed ≡ true)
    → Ended (give_up fuel r m)
unfolding give_up free
give_up-Ended fuel r m m' negative done freed =
    ((r, none, m'.device), rw done refl, (negative, freed))

pub AllFreed-of :
    (m : Monitor) → ((n : ℕ) → (m.device n).freed ≡ true) → (ns : List ℕ) → AllFreed m ns
AllFreed-of m all [] = tt
AllFreed-of m all (n ∷ ns) = (all n, AllFreed-of m all ns)

module _ {W : Type 0} (call : Call W) (fuel : ℕ) (strtoul : Text → (base : ℕ) → ℕ × Bool) where
  fill-Ended :
      (scan : Scan) (m : Monitor) (b : Buckets) (w : W)
      → IsOwned m b
      → Nodup (places (events scan.entries))
      → AllFreed m (places (events scan.entries))
      → ((i : ℕ) → i < m.devices.size → length (b i) + length scan.entries < fuel)
      → Ended (fill call fuel strtoul scan m w)
  unfolding fill
  fill-Ended scan m b w o nodup freed enough =
      let (r, m', w', b', done, o', room) =
        enumerate-Owns call fuel strtoul scan m b w o nodup freed enough in
      elim (Bool-cases (is_neg r)) [
        | inl failed ↦
            let (m'', gone, all) = release-frees fuel m' b' o' room in
            rw (done, failed) (give_up-Ended fuel r m' m'' failed gone all)
        | inr on ↦ ((pos 0, some m', m'.device), rw (done, on) refl, (refl, refl, (b', o')))
      ]

  set_up-Ended :
      (table : Bool) (scan : Scan) (memory : ℕ → Device) (w : W)
      → ((n : ℕ) → (memory n).freed ≡ true)
      → Nodup (places (events scan.entries))
      → length scan.entries < fuel
      → Ended (set_up call fuel strtoul table scan (zeroed memory) w)
  unfolding set_up
  set_up-Ended false scan memory w freed nodup enough =
      let m = record (zeroed memory) { callbacks = [] } in
      rw (init-failed (zeroed memory))
        (give_up-Ended fuel ErrorCode.memory m m refl (release-none fuel m refl) freed)
  set_up-Ended true scan memory w freed nodup enough =
      let (m, made, v, same, _) = init-IsValid (zeroed memory) in
      let all : (n : ℕ) → (m.device n).freed ≡ true =
        λ n. ap (λ device. (device n).freed) same ∙ freed n in
      let o : IsOwned m (λ i. []) = record {
        valid = v;
        sole = λ i n hi on. absurd (cc);
        tidy = λ n live. let gone = all n in absurd (cc);
      } in
      rw made (
        fill-Ended scan m (λ i. []) w o nodup (AllFreed-of m all (places (events scan.entries)))
          (λ i hi. omega arith))

-- With no device in memory, each place used once, and more fuel than there are entries,
-- `hs_monitor_new` ends without a fault, whatever libudev, `strtoul` and the allocations answer.
-- Either the result is 0, and there is a well-formed monitor that has the one reference to each
-- device it knows, while no other device is in memory; or the result is negative, there is no
-- monitor, and all devices are freed.
pub create-Made :
    {W : Type 0} (call : Call W) (fuel : ℕ) (strtoul : Text → (base : ℕ) → ℕ × Bool) (a : Answers)
    (memory : ℕ → Device) (w : W)
    → ((n : ℕ) → (memory n).freed ≡ true)
    → Nodup (places (events a.scan.entries))
    → length a.scan.entries < fuel
    → (o : Attempt) × (create call fuel strtoul a memory w ≡ some o) × Made o
unfolding create
create-Made call fuel strtoul a memory w freed nodup enough =
    let m = zeroed memory in
    let empty : Ended (give_up fuel ErrorCode.system m) =
      give_up-Ended fuel ErrorCode.system m m refl (release-none fuel m refl) freed in
    if-Ended (not a.udev) _ _ ((ErrorCode.system, none, memory), refl, (refl, freed))
      (if-Ended (not a.allocated) _ _ ((ErrorCode.memory, none, memory), refl, (refl, freed))
        (if-Ended (not a.netlink) _ _ empty (
          if-Ended (not a.filters) _ _ empty (
            if-Ended (not a.receiving) _ _ empty
              (set_up-Ended call fuel strtoul a.table a.scan memory w freed nodup enough)))))
