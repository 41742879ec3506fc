-- ===== src/Linux/Events/Owned.antt =====
-- What the events of libudev leave: a monitor that holds the one reference to each device it knows,
-- while every other device is freed.
use libhs.Base.{
  ℕ, ◌<◌, ◌≡◌, ◌≢◌, refl, sym, ap, ◌∙◌, true, false, ◌==◌, arith, elem, Bool-cases, inl, inr,
  ==-refl,
}
use libhs.Common.{Text}
use libhs.Device.{Device, online}
use libhs.Htable.{hash_str}
use libhs.Htable.Buckets.{Buckets, put}
use libhs.Monitor.{Monitor}
use libhs.Monitor.Known.{IsKnown, IsValid, bucket}

pub record IsOwned (m : Monitor) (b : Buckets) : Type 0 where
  pub valid : IsValid m b
  pub sole : (i n : ℕ) → i < m.devices.size → elem n (b i) ≡ true → (m.device n).refcount ≡ 1
  pub tidy : (n : ℕ) → (m.device n).freed ≡ false → elem n (b (bucket m (m.device n).key)) ≡ true

-- A freed place is in no bucket.
pub freed-absent :
    (m : Monitor) (b : Buckets) (n : ℕ)
    → IsValid m b
    → (m.device n).freed ≡ true
    → (i : ℕ) → i < m.devices.size
    → elem n (b i) ≡ false
freed-absent m b n v free i hi = elim (Bool-cases (elem n (b i))) [
  | inl on ↦ let k = v.known i n hi on in absurd (cc)
  | inr away ↦ away
]

known_ne :
    (m : Monitor) (b : Buckets) (n : ℕ)
    → IsValid m b
    → (m.device n).freed ≡ true
    → (i x : ℕ) → i < m.devices.size
    → elem x (b i) ≡ true
    → x ≢ n
known_ne m b n v free i x hi on e = let off = freed-absent m b n v free i hi in absurd (cc)

IsKnown-same :
    (m : Monitor) (x : ℕ) (device : ℕ → Device)
    → device x ≡ m.device x
    → IsKnown m x
    → IsKnown (record m { device = device }) x
IsKnown-same m x device e k = record {
  live = ap (λ d. d.freed) e ∙ k.live;
  attached = ap (λ d. d.attached) e ∙ k.attached;
  state = ap (λ d. d.state) e ∙ k.state;
  referenced = rw e k.referenced;
  bounded = rw e k.bounded;
  filed = k.filed ∙ ap (λ d. hash_str d.key) (sym e);
}

elem-put_other :
    (b : Buckets) (j n i x : ℕ) → (x == n) ≡ false → elem x (put b j n i) ≡ elem x (b i)
unfolding put
elem-put_other b j n i x ne = ground (arith, ne)

elem-put_own : (b : Buckets) (j n : ℕ) → elem n (put b j n j) ≡ true
unfolding put
elem-put_own b j n = rw (==-refl j, ==-refl n) refl

-- What stands at a freed place does not matter to the monitor.
pub elsewhere-IsValid :
    (m : Monitor) (b : Buckets) (n : ℕ) (device : ℕ → Device)
    → IsValid m b
    → (m.device n).freed ≡ true
    → ((x : ℕ) → x ≢ n → device x ≡ m.device x)
    → IsValid (record m { device = device }) b
elsewhere-IsValid m b n device v free others = record {
  table = v.table;
  known = λ i x hi on.
      IsKnown-same m x device (others x (known_ne m b n v free i x hi on)) (v.known i x hi on);
}

-- A device that is freed again leaves the monitor as it was.
pub freed_again-IsOwned :
    (m : Monitor) (b : Buckets) (n : ℕ) (device : ℕ → Device)
    → IsOwned m b
    → (m.device n).freed ≡ true
    → (device n).freed ≡ true
    → ((x : ℕ) → x ≢ n → device x ≡ m.device x)
    → IsOwned (record m { device = device }) b
freed_again-IsOwned m b n device o free gone others = record {
  valid = elsewhere-IsValid m b n device o.valid free others;
  sole = λ i x hi on.
      ap (λ d. d.refcount) (others x (known_ne m b n o.valid free i x hi on)) ∙ o.sole i x hi on;
  tidy = λ x live. elim (Bool-cases (x == n)) [
    | inl same ↦ let e : x ≡ n = ground arith in absurd (cc)
    | inr differ ↦
        let e = others x (ground arith) in
        ap (λ d. elem x (b (bucket m d.key))) e ∙ o.tidy x (ap (λ d. d.freed) (sym e) ∙ live)
  ];
}

-- The device as it is when the reader's reference is dropped.
abbrev pub kept_device : Device → Device
kept_device dev = record dev { attached = true; state = online; refcount = 1 }

module _ (m m' : Monitor) (b : Buckets) (n : ℕ) (dev : Device) (device : ℕ → Device)
    (o : IsOwned m b) (free : (m.device n).freed ≡ true)
    (v : IsValid m' (put b (bucket m dev.key) n)) (size : m'.devices.size ≡ m.devices.size)
    (live : dev.freed ≡ false) (own : device n ≡ kept_device dev)
    (same_key : (m'.device n).key ≡ dev.key) (others : (x : ℕ) → x ≢ n → device x ≡ m.device x)
    (others' : (x : ℕ) → x ≢ n → m'.device x ≡ m.device x) where
  kept-IsKnown :
      (i x : ℕ)
      → i < m'.devices.size
      → elem x (put b (bucket m dev.key) n i) ≡ true
      → IsKnown (record m' { device = device }) x
  kept-IsKnown i x hi on = elim (Bool-cases (x == n)) [
    | inl same ↦
        let e : x ≡ n = ground arith in
        let filed =
          (v.known (bucket m dev.key) n (omega (arith, size, v.table.positive))
            (elem-put_own b (bucket m dev.key) n)).filed in
        rw e (record {
          live = ap (λ d. d.freed) own ∙ live;
          attached = ap (λ d. d.attached) own;
          state = ap (λ d. d.state) own;
          referenced = rw own (omega arith);
          bounded = rw own (omega arith);
          filed = filed ∙ ap hash_str (same_key ∙ ap (λ d. d.key) (sym own));
        })
    | inr differ ↦
        let ne : x ≢ n = ground arith in
        IsKnown-same m' x device (others x ne ∙ sym (others' x ne)) (v.known i x hi on)
  ]

  -- The bucket that a key belongs to is as before.
  bucket_same : (key : Text) → bucket (record m' { device = device }) key ≡ bucket m key
  bucket_same key = rw size refl

  pub kept-IsOwned : IsOwned (record m' { device = device }) (put b (bucket m dev.key) n)
  kept-IsOwned = record {
    valid = record { table = v.table; known = kept-IsKnown };
    sole = λ i x hi on. elim (Bool-cases (x == n)) [
      | inl same ↦ let e : x ≡ n = ground arith in rw (e, own) refl
      | inr differ ↦
          rw (others x (ground arith))
            (o.sole i x (omega (arith, size)) (sym (elem-put_other b _ n i x differ) ∙ on))
    ];
    tidy = λ x alive. elim (Bool-cases (x == n)) [
      | inl same ↦
          let e : x ≡ n = ground arith in
          rw (e, own, bucket_same dev.key) (elem-put_own b (bucket m dev.key) n)
      | inr differ ↦
          let e = others x (ground arith) in
          rw (bucket_same (device x).key, e, elem-put_other b (bucket m dev.key) n _ x differ)
            (o.tidy x (ap (λ d. d.freed) (sym e) ∙ alive))
    ];
  }
