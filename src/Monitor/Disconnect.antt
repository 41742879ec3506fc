-- ===== src/Monitor/Disconnect.antt =====
-- The whole loop of `_hs_monitor_remove`, and its effect on the buckets and the devices.
use libhs.Base.{
  ℕ, ◌≤◌, ◌<◌, ◌≡◌, ◌≢◌, refl, sym, ap, ◌∙◌, Bool, true, false, not, ◌&&◌, Option, some, none, List,
  [], ◌∷◌, ◌++◌, if◌then◌else◌, ◌==◌, arith, elem, filter, map, length, length-append, Bool-cases,
  inl, inr, ==-refl,
}
use mathlib.Core.List.{append_assoc, map-append}
use libhs.Common.{Text}
use libhs.Htable.{Ptr, slot, node, hash_str}
use libhs.Htable.Rings
use libhs.Htable.Rings.{Leads}
use libhs.Htable.Foreach.{go_on, each, Ahead, foreach_hash-each}
use libhs.Htable.Buckets.{Buckets, without, erase-middle, erase-absent, Nodup-middle, elem-append}
use libhs.Monitor.{Monitor, Call, text_eq, remove_body, remove}
use libhs.Monitor.Known.{IsValid, bucket}
use libhs.Monitor.Remove.{dropped_device, disconnect-dropped, matches, step, step-other, step-match}

-- What the loop over `ns` leaves, when `ys` stood before them in bucket `i`. `hit` says which
-- devices have the key.
pub record Outcome {W : Type 0} (hit : ℕ → Bool) (m : Monitor) (b : Buckets) (i : ℕ)
    (ys ns : List ℕ) (r : Option (Unit {0}) × (Monitor × W)) : Type 0 where
  pub ended : r.0 ≡ none
  pub after : Buckets
  pub valid : IsValid r.1.0 after
  pub size : r.1.0.devices.size ≡ m.devices.size
  pub here : after i ≡ ys ++ filter (λ n. not (hit n)) ns
  pub elsewhere : (j : ℕ) → j < m.devices.size → j ≢ i → after j ≡ b j
  pub devices :
      (x : ℕ)
      → r.1.0.device x ≡ (if elem x ns && hit x then dropped_device (m.device x) else m.device x)

module _ (m : Monitor) (b : Buckets) (n i : ℕ) (ys ns : List ℕ) (v : IsValid m b)
    (hi : i < m.devices.size) (parts : b i ≡ ys ++ n ∷ ns) where
  stands : elem n (b i) ≡ true
  stands = rw (parts, elem-append n ys (n ∷ ns), ==-refl n) (ground arith)

  without_here : without b n i ≡ ys ++ ns
  unfolding without
  without_here =
      let d = v.table.nodup i hi in
      rw parts (erase-middle ys n ns (Nodup-middle ys n ns (rw parts at d)).0)

  without_elsewhere : (j : ℕ) → j < m.devices.size → j ≢ i → without b n j ≡ b j
  unfolding without
  without_elsewhere j hj ne = erase-absent n (b j) (elim (Bool-cases (elem n (b j))) [
    | inl there ↦ absurd (ne (sym (v.table.placed j n hj there) ∙ v.table.placed i n hi stands))
    | inr away ↦ away
  ])

  length-without : (fuel : ℕ) → length (b i) ≤ fuel → length (without b n i) ≤ fuel
  length-without fuel h = omega (
    arith,
    ap length without_here,
    ap length parts,
    length-append ys ns,
    length-append ys (n ∷ ns),
  )

-- A device that does not match is as before.
device-other :
    (m : Monitor) (hit : ℕ → Bool) (x n : ℕ) (ns : List ℕ)
    → hit n ≡ false
    → (if elem x ns && hit x then dropped_device (m.device x) else m.device x)
      ≡ (if elem x (n ∷ ns) && hit x then dropped_device (m.device x) else m.device x)
device-other m hit x n ns h = elim (Bool-cases (x == n)) [
  | inl same ↦ let e : x ≡ n = ground arith in rw (e, h) (ground arith)
  | inr differ ↦ rw differ
]

module _ (m m' : Monitor) (n x : ℕ) (own : m'.device n ≡ dropped_device (m.device n))
    (others : (y : ℕ) → y ≢ n → m'.device y ≡ m.device y) where
  key-match : (m'.device x).key ≡ (m.device x).key
  key-match = elim (Bool-cases (x == n)) [
    | inl same ↦ let e : x ≡ n = ground arith in rw e (ap (λ d. d.key) own)
    | inr differ ↦ ap (λ d. d.key) (others x (ground arith))
  ]

  device-match :
      (hit : ℕ → Bool) (ns : List ℕ)
      → elem n ns ≡ false
      → hit n ≡ true
      → (if elem x ns && hit x then dropped_device (m'.device x) else m'.device x)
        ≡ (if elem x (n ∷ ns) && hit x then dropped_device (m.device x) else m.device x)
  device-match hit ns absent same = elim (Bool-cases (x == n)) [
    | inl this ↦ let e : x ≡ n = ground arith in rw (e, absent, ==-refl n, same) own
    | inr other ↦ rw (other, others x (ground arith))
  ]

module _ {W : Type 0} (call : Call W) (fuel : ℕ) (key : Text) (hit : ℕ → Bool) where
  each-Outcome :
      (ns ys : List ℕ) (m : Monitor) (w : W) (b : Buckets) (i : ℕ)
      → IsValid m b
      → i < m.devices.size
      → b i ≡ ys ++ ns
      → length (b i) ≤ fuel
      → ((x : ℕ) → matches key m x ≡ hit x)
      → Outcome hit m b i ys ns (each (λ s. s.0.devices) (step call fuel key) ns (m, w))
  unfolding each
  each-Outcome [] ys m w b i v hi parts enough hits = record {
    ended = refl;
    after = b;
    valid = v;
    size = refl;
    here = parts;
    elsewhere = λ j hj ne. refl;
    devices = λ x. refl;
  }
  each-Outcome (n ∷ ns) ys m w b i v hi parts enough hits = elim (Bool-cases (hit n)) [
    | inl same ↦
        let (m', w', done, v', size, own, others, _, _) =
          disconnect-dropped call fuel m w b i n v hi (stands m b n i ys ns v hi parts) enough in
        let absent : elem n ns ≡ false =
          (Nodup-middle ys n ns (rw parts at (v.table.nodup i hi))).1 in
        let ih =
          each-Outcome ns ys m' w' (without b n) i v' (omega (arith, size))
            (without_here m b n i ys ns v hi parts)
            (length-without m b n i ys ns v hi parts fuel enough)
            (λ x. ap (λ k. text_eq k key) (key-match m m' n x own others) ∙ hits x) in
        rw
          (step-match call fuel key m w n (m', w')
            (v.known i n hi (stands m b n i ys ns v hi parts)).filed (hits n ∙ same) done)
          (record {
            ended = ih.ended;
            after = ih.after;
            valid = ih.valid;
            size = ih.size ∙ size;
            here = rw same ih.here;
            elsewhere = λ j hj ne.
                ih.elsewhere j (omega (arith, size)) ne
                ∙ without_elsewhere m b n i ys ns v hi parts j hj ne;
            devices = λ x. ih.devices x ∙ device-match m m' n x own others hit ns absent same;
          })
    | inr differ ↦
        let ih =
          each-Outcome ns (ys ++ n ∷ []) m w b i v hi (rw (append_assoc ys (n ∷ []) ns) parts)
            enough hits in
        rw (step-other call fuel key m w n (hits n ∙ differ)) (record {
          ended = ih.ended;
          after = ih.after;
          valid = ih.valid;
          size = ih.size;
          here = rw differ (ih.here ∙ append_assoc ys (n ∷ []) _);
          elsewhere = ih.elsewhere;
          devices = λ x. ih.devices x ∙ device-other m hit x n ns differ;
        })
  ]

-- The part of a ring behind some of its nodes.
Leads-Ahead_behind :
    (next : Ptr → Ptr) (i : ℕ) (ys ns : List ℕ)
    → Leads next (slot i) (map node (ys ++ ns)) (slot i)
    → Ahead next i ns
Leads-Ahead_behind next i ys [] h = tt
Leads-Ahead_behind next i ys (n ∷ ns) h =
    (Rings.split next (slot i) (map node ys) (node n) (map node ns) (slot i)
      (rw (← map-append node ys (n ∷ ns)) h)).1

module _ {W : Type 0} (call : Call W) (fuel : ℕ) (key : Text) (i size : ℕ) (hi : i < size) where
  -- What is still ahead of the loop stands at the end of its bucket.
  record Good (ns : List ℕ) (s : Monitor × W) : Type 0 where
    buckets : Buckets
    behind : List ℕ
    valid : IsValid s.0 buckets
    same_size : s.0.devices.size ≡ size
    parts : buckets i ≡ behind ++ ns
    enough : length (buckets i) ≤ fuel

  Good-Ahead : (ns : List ℕ) (s : Monitor × W) → Good ns s → Ahead s.0.devices.next i ns
  Good-Ahead ns s g =
      Leads-Ahead_behind s.0.devices.next i g.behind ns
        (rw (← g.parts) (g.valid.table.rings i (omega (arith, g.same_size))))

  Good-step :
      (n : ℕ) (ns : List ℕ) (s : Monitor × W)
      → Good (n ∷ ns) s
      → (step call fuel key n s).0 ≡ go_on
      → Good ns (step call fuel key n s).1
  Good-step n ns (m, w) g on =
      let ys = g.behind in
      let b = g.buckets in
      let v = g.valid in
      let hi' : i < m.devices.size = omega (arith, g.same_size) in
      let here = stands m b n i ys ns v hi' g.parts in
      elim (Bool-cases (matches key m n)) [
        | inl same ↦
            let (m', w', done, v', size', _, _, _, _) =
              disconnect-dropped call fuel m w b i n v hi' here g.enough in
            rw (step-match call fuel key m w n (m', w') (v.known i n hi' here).filed same done)
              (record {
                buckets = without b n;
                behind = ys;
                valid = v';
                same_size = size' ∙ g.same_size;
                parts = without_here m b n i ys ns v hi' g.parts;
                enough = length-without m b n i ys ns v hi' g.parts fuel g.enough;
              })
        | inr differ ↦ rw (step-other call fuel key m w n differ) (record {
          buckets = b;
          behind = ys ++ n ∷ [];
          valid = v;
          same_size = g.same_size;
          parts = rw (append_assoc ys (n ∷ []) ns) g.parts;
          enough = g.enough;
        })
      ]

-- In a well-formed monitor, with more fuel than the bucket of the key has nodes,
-- `_hs_monitor_remove` ends without a fault and leaves the monitor well formed. The bucket of the
-- key keeps the devices with other keys, in their order, and the other buckets are as before. The
-- known devices with the key are disconnected and have one reference less, and are freed if it was
-- the last; every other device is as before, and so is the table's size.
pub remove-disconnects :
    {W : Type 0} (call : Call W) (fuel : ℕ) (m : Monitor) (b : Buckets) (key : Text) (w : W)
    → IsValid m b
    → length (b (bucket m key)) < fuel
    → (m' : Monitor) × (w' : W) × (b' : Buckets) × (remove call fuel m key w ≡ some (m', w'))
      × IsValid m' b'
      × (b' (bucket m key) ≡ filter (λ n. not (matches key m n)) (b (bucket m key)))
      × ((j : ℕ) → j < m.devices.size → j ≢ bucket m key → b' j ≡ b j)
      × ((x : ℕ)
          → m'.device x ≡ (
              if elem x (b (bucket m key)) && matches key m x
              then dropped_device (m.device x)
              else m.device x))
      × (m'.devices.size ≡ m.devices.size)
unfolding remove
remove-disconnects call fuel m b key w v h =
    let i = bucket m key in
    let hi : i < m.devices.size = omega (arith, v.table.positive) in
    let o =
      each-Outcome call fuel key (matches key m) (b i) [] m w b i v hi refl (omega arith)
        (λ x. refl) in
    let r = each (λ s. s.0.devices) (step call fuel key) (b i) (m, w) in
    (
      r.1.0,
      r.1.1,
      o.after,
      rw (
        foreach_hash-each (λ s. s.0.devices) (remove_body call fuel key) (hash_str key) fuel b
            (m, w) (Good call fuel key i m.devices.size hi) v.table
            (λ ns s g. Good-Ahead call fuel key i m.devices.size hi ns s g)
            (λ n ns s g on. Good-step call fuel key i m.devices.size hi n ns s g on) h
            (record {
              buckets = b;
              behind = [];
              valid = v;
              same_size = refl;
              parts = refl;
              enough = omega arith;
            }),
        o.ended,
      ),
      o.valid,
      o.here,
      o.elsewhere,
      o.devices,
      o.size,
    )
