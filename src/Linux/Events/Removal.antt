-- ===== src/Linux/Events/Removal.antt =====
-- A removed path leaves a monitor that owns what it still knows.
use libhs.Base.{
  ℕ, ◌<◌, ◌≡◌, ◌≢◌, refl, sym, ap, ◌∙◌, Bool, true, false, not, ◌&&◌, some, List, [], ◌∷◌, ℤ, pos,
  if◌then◌else◌, ◌==◌, arith, elem, filter, length, length-filter-le, Bool-cases, inl, inr,
}
use libhs.Common.{Text}
use libhs.Htable.Buckets.{Buckets}
use libhs.Monitor
use libhs.Monitor.{Monitor, Call}
use libhs.Monitor.Known.{IsValid, bucket}
use libhs.Monitor.Remove.{matches, dropped_device}
use libhs.Monitor.Disconnect.{remove-disconnects}
use libhs.Linux.Events.{remove_path}
use libhs.Linux.Events.Owned.{IsOwned}
use libhs.Linux.Events.Reading.{Leaves}

elem-filter :
    (p : ℕ → Bool) (x : ℕ) (ns : List ℕ)
    → elem x ns ≡ true
    → p x ≡ true
    → elem x (filter p ns) ≡ true
elem-filter p x [] on h = absurd (cc)
elem-filter p x (n ∷ ns) on h = elim (Bool-cases (x == n)) [
  | inl same ↦
      let e : x ≡ n = ground arith in let holds : p n ≡ true = rw (← e) h in rw (holds, same) refl
  | inr differ ↦
      let ih = elem-filter p x ns (ground arith) h in
      elim (Bool-cases (p n)) [ inl holds ↦ rw (holds, differ) ih | inr fails ↦ rw fails ih ]
]

module _ (m m' : Monitor) (b b' : Buckets) (key : Text) (o : IsOwned m b) (v : IsValid m' b')
    (here : b' (bucket m key) ≡ filter (λ n. not (matches key m n)) (b (bucket m key)))
    (elsewhere : (j : ℕ) → j < m.devices.size → j ≢ bucket m key → b' j ≡ b j)
    (devices : (x : ℕ)
      → m'.device x ≡ (
          if elem x (b (bucket m key)) && matches key m x
          then dropped_device (m.device x)
          else m.device x))
    (size : m'.devices.size ≡ m.devices.size) where
  abbrev hit : ℕ → Bool
  hit x = elem x (b (bucket m key)) && matches key m x

  bucket_below : (k : Text) → bucket m k < m.devices.size
  bucket_below k = omega (arith, o.valid.table.positive)

  -- The monitor had the one reference.
  hit-freed : (x : ℕ) → hit x ≡ true → (m'.device x).freed ≡ true
  hit-freed x h =
      let one = o.sole (bucket m key) x (bucket_below key) (ground (arith, h)) in
      rw (devices x, h, one) refl

  live-same : (x : ℕ) → (m'.device x).freed ≡ false → (hit x ≡ false) × (m'.device x ≡ m.device x)
  live-same x live = elim (Bool-cases (hit x)) [
    | inl gone ↦ let f = hit-freed x gone in absurd (cc)
    | inr kept ↦ (kept, rw (devices x, kept) refl)
  ]

  tidy_after :
      (x : ℕ) → (m'.device x).freed ≡ false → elem x (b' (bucket m' (m'.device x).key)) ≡ true
  tidy_after x live =
      let (kept, same) = live-same x live in
      let i = bucket m (m.device x).key in
      let before = o.tidy x (ap (λ d. d.freed) (sym same) ∙ live) in
      let stays : elem x (b' i) ≡ true = elim (Bool-cases (i == bucket m key)) [
        | inl own ↦
            let e : i ≡ bucket m key = ground arith in
            let before' : elem x (b (bucket m key)) ≡ true = rw (← e) before in
            rw (e, here) (elem-filter _ x (b (bucket m key)) before' (ground arith))
        | inr other ↦ rw (elsewhere i (bucket_below (m.device x).key) (ground arith)) before
      ] in
      rw (size, same) stays

  pub removal-Leaves : Leaves m b [] m' b'
  removal-Leaves = record {
    owned = record {
      valid = v;
      sole = λ i x hi on.
          let live = (v.known i x hi on).live in
          let same = (live-same x live).1 in
          let before = o.tidy x (ap (λ d. d.freed) (sym same) ∙ live) in
          ap (λ d. d.refcount) same
          ∙ o.sole (bucket m (m.device x).key) x (bucket_below (m.device x).key) before;
      tidy = tidy_after;
    };
    size = size;
    growth = λ i hi. elim (Bool-cases (i == bucket m key)) [
      | inl own ↦
          let e : i ≡ bucket m key = ground arith in
          rw (e, here)
            (omega (arith, length-filter-le (λ n. not (matches key m n)) (b (bucket m key))))
      | inr other ↦ rw (elsewhere i hi (ground arith)) (omega arith)
    ];
    free = λ x out f. elim (Bool-cases (hit x)) [
      | inl gone ↦ hit-freed x gone
      | inr kept ↦ rw (devices x, kept) f
    ];
  }

pub removed-Leaves :
    {W : Type 0} (call : Call W) (fuel : ℕ) (m : Monitor) (b : Buckets) (key : Text) (w : W)
    → IsOwned m b
    → length (b (bucket m key)) < fuel
    → (m' : Monitor) × (w' : W) × (b' : Buckets) × (Monitor.remove call fuel m key w
        ≡ some (m', w'))
      × Leaves m b [] m' b'
removed-Leaves call fuel m b key w o enough =
    let (m', w', b', done, v, here, elsewhere, devices, size) =
      remove-disconnects call fuel m b key w o.valid enough in
    (m', w', b', done, removal-Leaves m m' b b' key o v here elsewhere devices size)

pub remove_path-Leaves :
    {W : Type 0} (call : Call W) (fuel : ℕ) (m : Monitor) (b : Buckets) (key : Text) (w : W)
    → IsOwned m b
    → length (b (bucket m key)) < fuel
    → (r : ℤ) × (m' : Monitor) × (w' : W) × (b' : Buckets) × (remove_path call fuel key m w
        ≡ some (r, m', w'))
      × Leaves m b [] m' b'
unfolding remove_path
remove_path-Leaves call fuel m b key w o enough =
    let (m', w', b', done, l) = removed-Leaves call fuel m b key w o enough in
    (pos 0, m', w', b', rw done refl, l)
