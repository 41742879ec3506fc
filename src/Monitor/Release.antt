-- ===== src/Monitor/Release.antt =====
-- `_hs_monitor_release`: every known device loses the monitor's reference.
use libhs.Base.{
  ℕ, ◌+◌, ◌-◌, ◌%◌, ◌^◌, ◌<◌, ◌≡◌, ◌≢◌, refl, ◌∙◌, true, false, not, some, none, List, [], ◌∷◌,
  if◌then◌else◌, ◌==◌, ltb, arith, elem, length, Bool-cases, inl, inr, ==-refl, ==-of_ne,
}
use libhs.Device
use libhs.Device.{Device}
use libhs.Htable.Foreach.{go_on, each}
use libhs.Htable.Foreach.Cells.{all_nodes, elem-nodes, all_nodes-Nodup, foreach-each, foreach-none}
use libhs.Htable.Buckets.{Buckets, Nodup}
use libhs.Monitor.{Monitor, set_device, release_body, release}
use libhs.Monitor.Known.{IsValid}

-- The device as `_hs_monitor_release` leaves it: freed if the monitor held the last reference.
abbrev pub released_device : Device → Device
released_device dev = record dev {
  attached = false;
  refcount = dev.refcount - 1;
  freed = not (ltb 1 dev.refcount);
}

-- A device that can lose a reference.
abbrev IsHeld : Device → Type 0
IsHeld dev = (dev.freed ≡ false) × (0 < dev.refcount) × (dev.refcount < 2 ^ 32)

unref_released :
    (dev : Device)
    → IsHeld dev
    → Device.unref (record dev { attached = false }) ≡ some (released_device dev)
unfolding Device.unref
unref_released dev (live, held, bound) =
    let wrap : (dev.refcount + 2 ^ 32 - 1) % 2 ^ 32 ≡ dev.refcount - 1 = omega arith in
    elim (Bool-cases (ltb 1 dev.refcount)) [
      | inl more ↦ rw (wrap, live, more)
      | inr last ↦ rw (wrap, live, last)
    ]

release_body-released :
    (n : ℕ) (m : Monitor)
    → IsHeld (m.device n)
    → release_body n m ≡ (go_on, set_device m n (released_device (m.device n)))
unfolding release_body
release_body-released n m h = rw (release_body, unref_released (m.device n) h) refl

release_body-table : (n : ℕ) (m : Monitor) → (release_body n m).1.devices ≡ m.devices
unfolding release_body
release_body-table n m = ground arith

-- What the loop over some of the devices leaves.
each-released :
    (ns : List ℕ) (m : Monitor)
    → Nodup ns
    → ((x : ℕ) → elem x ns ≡ true → IsHeld (m.device x))
    → (m' : Monitor) × (each (λ s. s.devices) release_body ns m ≡ (none, m'))
      × ((x : ℕ) → m'.device x ≡ (if elem x ns then released_device (m.device x) else m.device x))
unfolding each
each-released [] m nodup held = (m, refl, λ x. refl)
each-released (n ∷ ns) m nodup held =
    let m1 = set_device m n (released_device (m.device n)) in
    let (m', done, devices) = each-released ns m1 nodup.1 (λ x on.
      let other : x ≢ n = λ e. absurd (cc) in
      let differ = ==-of_ne x n other in rw differ (held x (rw (differ, on) refl))) in
    (
      m',
      rw (release_body-released n m (held n (rw (==-refl n) refl))) done,
      λ x. elim (Bool-cases (x == n)) [
        | inl same ↦
            let e : x ≡ n = ground arith in
            let own : m'.device n ≡ released_device (m.device n) =
              devices n ∙ rw (nodup.0, ==-refl n) refl in
            rw (e, ==-refl n) own
        | inr differ ↦ rw differ (devices x ∙ rw differ refl)
      ],
    )

-- In a well-formed monitor, with more fuel than any bucket has devices, `_hs_monitor_release` ends
-- without a fault, and no callback is left. The known devices are detached and have one reference
-- less, and are freed if it was the last; every other device is as before.
pub release-detaches :
    (fuel : ℕ) (m : Monitor) (b : Buckets)
    → IsValid m b
    → ((i : ℕ) → i < m.devices.size → length (b i) < fuel)
    → (m' : Monitor) × (release fuel m ≡ some m')
      × (m'.callbacks ≡ [])
      × ((x : ℕ)
          → m'.device x
            ≡ (if elem x (all_nodes m.devices b) then released_device (m.device x) else m.device x))
unfolding release
release-detaches fuel m b v enough =
    let all = all_nodes m.devices b in
    let held : (x : ℕ) → elem x all ≡ true → IsHeld (m.device x) = λ x on.
      let (j, low, high, there) = elem-nodes b x m.devices.size 0 on in
      let k = v.known j x (omega arith) there in (k.live, k.referenced, k.bounded) in
    let (m', done, devices) = each-released all m (all_nodes-Nodup m.devices b v.table) held in
    (
      record m' { callbacks = [] },
      rw
          (
            foreach-each (λ (s : Monitor). s.devices) release_body (λ n s. release_body-table n s)
                fuel b m v.table enough,
            done,
          )
          refl,
      refl,
      devices,
    )

-- A monitor whose table was never set up.
pub release-none :
    (fuel : ℕ) (m : Monitor)
    → m.devices.size ≡ 0
    → release fuel m ≡ some (record m { callbacks = [] })
unfolding release
release-none fuel m h = rw (foreach-none (λ (s : Monitor). s.devices) release_body fuel m h) refl
