-- ===== src/Monitor/Add.antt =====
-- `_hs_monitor_add`: a device that is known already is left alone, any other becomes known.
use libhs.Base.{
  ℕ, ◌+◌, ◌%◌, ◌^◌, ◌<◌, ◌≡◌, ◌≢◌, refl, ap, ◌∙◌, Bool, true, false, ◌||◌, some, none, List, [],
  ◌∷◌, ℤ, pos, if◌then◌else◌, ◌==◌, arith, elem, All, length, Bool-cases, inl, inr, ==-refl,
  ==-of_ne,
}
use libhs.Device
use libhs.Device.{Device, online, disconnected}
use libhs.Htable.{Htable, hash_str}
use libhs.Htable.Foreach.{go_on, leave, each, visit, foreach_hash, foreach_hash-each_fixed}
use libhs.Htable.Buckets.{Buckets, put}
use libhs.Htable.Add.{add-Represents}
use libhs.Monitor.{
  Monitor, Callback, Call, text_eq, same_device, find_same, set_device, trigger, trigger_callbacks,
  add,
}
use libhs.Monitor.Known.{IsKnown, IsValid, bucket, eq_of_text_eq}

-- One of the devices has the key and the interface number of `dev`.
abbrev pub has_same : Monitor → Device → List ℕ → Bool
has_same m dev [] = false
has_same m dev (n ∷ ns) = same_device (m.device n) dev || has_same m dev ns

-- A device filed under another hash has another key.
visit-find_same :
    (m : Monitor) (n x : ℕ)
    → m.devices.key x ≡ hash_str (m.device x).key
    → visit (λ s. s.devices) (find_same n) (hash_str (m.device n).key) x m
      ≡ (if same_device (m.device x) (m.device n) then leave (pos 0) else go_on, m)
unfolding visit find_same
visit-find_same m n x filed = elim (Bool-cases (m.devices.key x == hash_str (m.device n).key)) [
  | inl hit ↦ rw hit (ground arith)
  | inr miss ↦ elim (Bool-cases (text_eq (m.device x).key (m.device n).key)) [
    | inl same ↦
        let e = ap hash_str (eq_of_text_eq (m.device x).key (m.device n).key same) in
        absurd (ground arith)
    | inr differ ↦ rw (miss, differ)
  ]
]

find_same-table : (n x : ℕ) (s : Monitor) → (find_same n x s).1.devices ≡ s.devices
unfolding find_same
find_same-table n x s = ground arith

-- The loop changes nothing, and finds whether there is such a device.
each-find_same :
    (m : Monitor) (n : ℕ) (ns : List ℕ)
    → All (λ x. m.devices.key x ≡ hash_str (m.device x).key) ns
    → each (λ s. s.devices) (visit (λ s. s.devices) (find_same n) (hash_str (m.device n).key)) ns m
      ≡ (if has_same m (m.device n) ns then some (pos 0) else none, m)
unfolding each
each-find_same m n [] filed = refl
each-find_same m n (x ∷ ns) filed = elim (Bool-cases (same_device (m.device x) (m.device n))) [
  | inl same ↦ rw (visit-find_same m n x filed.0, same)
  | inr differ ↦ rw (visit-find_same m n x filed.0, differ) (each-find_same m n ns filed.1)
]

module _ (m : Monitor) (b : Buckets) (n fuel : ℕ) (v : IsValid m b) where
  filed :
      (ns : List ℕ)
      → ((x : ℕ) → elem x ns ≡ true → elem x (b (bucket m (m.device n).key)) ≡ true)
      → All (λ x. m.devices.key x ≡ hash_str (m.device x).key) ns
  filed [] sub = tt
  filed (x ∷ ns) sub = (
    (v.known (bucket m (m.device n).key) x (omega (arith, v.table.positive))
        (sub x (ground arith))).filed,
    filed ns (λ y h. sub y (ground arith)),
  )

  -- The search over the ring of the table.
  search_loop :
      length (b (bucket m (m.device n).key)) < fuel
      → foreach_hash (λ s. s.devices) (find_same n) (hash_str (m.device n).key) fuel m
        ≡ some (
          if has_same m (m.device n) (b (bucket m (m.device n).key)) then some (pos 0) else none,
          m,
        )
  search_loop h =
      let i = bucket m (m.device n).key in
      foreach_hash-each_fixed (λ s. s.devices) (find_same n) (hash_str (m.device n).key) fuel b m
        v.table (λ x s. find_same-table n x s) h
      ∙ ap some (each-find_same m n (b i) (filed (b i) (λ x on. on)))

-- A device whose key and interface number a known device has is not added: nothing changes, no
-- callback runs, and the result is 0.
pub add-same :
    {W : Type 0} (call : Call W) (m : Monitor) (b : Buckets) (n fuel : ℕ) (w : W)
    → IsValid m b
    → length (b (bucket m (m.device n).key)) < fuel
    → has_same m (m.device n) (b (bucket m (m.device n).key)) ≡ true
    → add call fuel m n w ≡ some (pos 0, m, w)
unfolding add
add-same call m b n fuel w v h same = rw (search_loop m b n fuel v h, same)

-- The device as `_hs_monitor_add` leaves it.
abbrev pub attached_device : Device → Device
attached_device dev = record dev { attached = true; state = online; refcount = dev.refcount + 1 }

module _ {W : Type 0} (call : Call W) (m : Monitor) (b : Buckets) (n fuel : ℕ) (w : W)
    (v : IsValid m b) (enough : length (b (bucket m (m.device n).key)) < fuel)
    (fresh : (i : ℕ) → i < m.devices.size → elem n (b i) ≡ false)
    (new : has_same m (m.device n) (b (bucket m (m.device n).key)) ≡ false)
    (live : (m.device n).freed ≡ false) (room : (m.device n).refcount + 1 < 2 ^ 32) where
  IsKnown-of_put :
      (table : Htable) (callbacks : List Callback) (i x : ℕ)
      → table.key n ≡ hash_str (m.device n).key
      → ((y : ℕ) → y ≢ n → table.key y ≡ m.devices.key y)
      → i < m.devices.size
      → elem x (put b (bucket m (m.device n).key) n i) ≡ true
      → IsKnown
          (record (set_device m n (attached_device (m.device n))) {
            devices = table;
            callbacks = callbacks;
          })
          x
  unfolding put
  IsKnown-of_put table callbacks i x own others hi on = elim (Bool-cases (x == n)) [
    | inl same ↦
        let e : x ≡ n = ground arith in
        rw e (record {
          live = rw (==-refl n) live;
          attached = rw (==-refl n);
          state = rw (==-refl n);
          referenced = rw (==-refl n) (omega arith);
          bounded = rw (==-refl n) room;
          filed = rw (==-refl n) own;
        })
    | inr differ ↦
        let k = v.known i x hi (ground arith) in
        record {
          live = rw differ k.live;
          attached = rw differ k.attached;
          state = rw differ k.state;
          referenced = rw differ k.referenced;
          bounded = rw differ k.bounded;
          filed = rw differ (others x (ground arith) ∙ k.filed);
        }
  ]

  ref_attached :
      Device.ref (record (m.device n) { attached = true; state = online })
      ≡ some (attached_device (m.device n))
  unfolding Device.ref
  ref_attached =
      let wrap : ((m.device n).refcount + 1) % 2 ^ 32 ≡ (m.device n).refcount + 1 = omega arith in
      rw (live, wrap)

  -- A live device that is in no bucket, and whose key and interface number no known device has,
  -- becomes known at the front of the bucket of its key. It is then online and attached, and
  -- holds one more reference. The other devices and the table's size stay as they were, the
  -- monitor stays well formed, and the result and the client's world are those of the callbacks.
  pub add-known :
      (m' : Monitor) × (r : ℤ) × (w' : W) × (add call fuel m n w ≡ some (r, m', w'))
      × IsValid m' (put b (bucket m (m.device n).key) n)
      × (m'.device n ≡ attached_device (m.device n))
      × ((x : ℕ) → x ≢ n → m'.device x ≡ m.device x)
      × ((r, m'.callbacks, w') ≡ trigger call m.callbacks n (attached_device (m.device n)) w)
      × (m'.devices.size ≡ m.devices.size)
  unfolding add trigger_callbacks
  add-known =
      let dev = attached_device (m.device n) in
      let (table, added, size, own, others, r) =
        add-Represents m.devices b n v.table fresh (hash_str (m.device n).key) in
      let t = trigger call m.callbacks n dev w in
      (
        record (set_device m n dev) { devices = table; callbacks = t.1 },
        t.0,
        t.2,
        rw (search_loop m b n fuel v enough, new, ref_attached, added, ==-refl n),
        record {
          table = r;
          known = λ i x hi on. IsKnown-of_put table t.1 i x own others (omega (arith, size)) on;
        },
        rw (==-refl n),
        λ x ne. rw (==-of_ne x n ne),
        refl,
        size,
      )
