-- ===== src/Htable/Unlink.antt =====
-- `_hs_htable_remove` on the buckets.
use mathlib.Core.List.{map-append}
use native.Mathlib.Decide.{ℕ_discrete}
use libhs.Base.{
  ℕ, ◌+◌, ◌≤◌, ◌<◌, ◌≡◌, ◌≢◌, refl, sym, ◌∙◌, ap, subst, true, false, some, List, [], ◌∷◌, ◌++◌,
  map, arith, length, length-append, length-map, ==-refl, elem, Bool-cases, inl, inr,
}
use libhs.Htable.{Ptr, null, slot, node, Htable, write, load, remove_loop, remove}
use libhs.Htable.Rings
use libhs.Htable.Rings.{
  has, Distinct, Leads, last, ptr_eq_refl, ptr_eq-sym, off_path, has-last, has-append,
  write_twice-ne,
}
use libhs.Htable.Remove.{before, at, remove_loop-last, unlinked}
use libhs.Htable.Buckets.{
  Buckets, erase, without, Represents, ring, ring-Distinct, rings_apart, has-null, elem-split,
  elem-append, erase-absent, elem-erase_of, erase-Nodup,
}

-- From the node behind `m`, over the rest of the ring, back to `m`.
remove_loop-ring :
    (fuel : ℕ) (next : Ptr → Ptr) (m s : Ptr) (xs ys : List Ptr)
    → length xs + length ys < fuel
    → Leads next s xs m
    → Leads next m ys s
    → has m (ys ++ s ∷ xs) ≡ false
    → has null (ys ++ s ∷ xs) ≡ false
    → remove_loop fuel next m (next m) ≡ some (write (write next (last s xs) (next m)) m null)
remove_loop-ring fuel next m s xs [] h front back out live =
    subst (λ p. remove_loop fuel next m p ≡ some (write (write next (last s xs) (next m)) m null))
      (sym back) (remove_loop-last fuel next m s xs (omega arith) front out live)
remove_loop-ring fuel next m s xs (y ∷ ys) h front back out live =
    subst (λ p. remove_loop fuel next m p ≡ some (write (write next (last s xs) (next m)) m null))
      (sym back.0)
      (rw (← Rings.last-append y ys s xs) (
        remove_loop-last fuel next m y (ys ++ s ∷ xs) (omega (arith, length-append ys (s ∷ xs)))
          (Rings.append next y ys s xs m back.1 front) out live))

module _ (t : Htable) (b : Buckets) (n i : ℕ) (r : Represents t b) (hi : i < t.size)
    (ys zs : List ℕ) (parts : b i ≡ ys ++ n ∷ zs) where
  halves :
      Leads t.next (slot i) (map node ys) (node n) × Leads t.next (node n) (map node zs) (slot i)
  halves =
      Rings.split t.next (slot i) (map node ys) (node n) (map node zs) (slot i)
        (rw (← map-append node ys (n ∷ zs), ← parts) (r.rings i hi))

  whole : Distinct (slot i ∷ map node ys ++ node n ∷ map node zs)
  whole = rw (← map-append node ys (n ∷ zs), ← parts) (ring-Distinct i (b i) (r.nodup i hi))

  live : has null (slot i ∷ map node ys ++ node n ∷ map node zs) ≡ false
  live = rw (← map-append node ys (n ∷ zs), ← parts) (has-null i (b i))

  -- The node is neither on the way from it to the cell nor on the way back.
  turn_out : has (node n) (map node zs ++ slot i ∷ map node ys) ≡ false
  turn_out =
      let (front, back) =
        Rings.Distinct-middle (slot i ∷ map node ys) (node n) (map node zs) whole in
      ground (arith, has-append (node n) (map node zs) (slot i ∷ map node ys))

  turn_live : has null (map node zs ++ slot i ∷ map node ys) ≡ false
  turn_live = ground (
    arith,
    live,
    has-append null (map node zs) (slot i ∷ map node ys),
    has-append null (map node ys) (node n ∷ map node zs),
  )

  new_next : Ptr → Ptr
  new_next = write (write t.next (last (slot i) (map node ys)) (t.next (node n))) (node n) null

  own_ring : Leads new_next (slot i) (map node (ys ++ zs)) (slot i)
  unfolding new_next
  own_ring = rw (map-append node ys zs) (
      unlinked t.next (slot i) (map node ys) (node n) (map node zs) (slot i) halves.0 halves.1
        whole)

  -- What another ring holds is not touched.
  outside :
      (j : ℕ) (hj : j < t.size)
      → i ≢ j
      → (a : Ptr) → has a (ring j (b j)) ≡ true
      → new_next a ≡ t.next a
  unfolding new_next
  outside j hj ne a on =
      let off : has a (slot i ∷ map node ys ++ node n ∷ map node zs) ≡ false =
        rw (← map-append node ys (n ∷ zs), ← parts) (rings_apart i j a r hi hj ne on) in
      write_twice-ne t.next (last (slot i) (map node ys)) _ (node n) null a
        (ptr_eq-sym a _
          ∙ off_path a (last (slot i) (map node ys)) (slot i ∷ map node ys)
              (before a (slot i ∷ map node ys) (node n) (map node zs) off)
              (has-last (slot i) (map node ys)))
        (ptr_eq-sym a _
          ∙ off_path a (node n) (slot i ∷ map node ys ++ node n ∷ map node zs) off
              (at (node n) (slot i ∷ map node ys) (map node zs)))

  here : elem n (b i) ≡ true
  here = rw (parts, elem-append n ys (n ∷ zs), ==-refl n) (ground arith)

  -- The node stands in no other bucket.
  only_here : (j : ℕ) → j < t.size → i ≢ j → elem n (b j) ≡ false
  only_here j hj ne = elim (Bool-cases (elem n (b j))) [
    | inl there ↦ absurd (ne (sym (r.placed i n hi here) ∙ r.placed j n hj there))
    | inr away ↦ away
  ]

  count : length (map node ys) + length (map node zs) < length (b i)
  count =
      omega
        (arith, length-map node ys, length-map node zs, ap length parts, length-append ys (n ∷ zs))

  -- The rings afterwards.
  rings_after :
      erase n (b i) ≡ ys ++ zs
      → (j : ℕ) (hj : j < t.size) → Leads new_next (slot j) (map node (without b n j)) (slot j)
  unfolding without
  rings_after gone j hj = elim (ℕ_discrete i j) [
    | yes same ↦ rw (← same, gone) own_ring
    | no differ ↦ rw (erase-absent n (b j) (only_here j hj differ)) (
        Rings.move t.next new_next (slot j) (slot j) (map node (b j)) (slot j)
          (outside j hj differ (slot j) (ground arith))
          (λ a on. outside j hj differ a (ground arith)) (r.rings j hj))
  ]

  remove-Represents_at :
      (fuel : ℕ)
      → length (b i) ≤ fuel
      → erase n (b i) ≡ ys ++ zs
      → (u : Htable) × (remove fuel t n ≡ some u)
        × (u.size ≡ t.size)
        × (u.key ≡ t.key)
        × Represents u (without b n)
  unfolding remove load without new_next
  remove-Represents_at fuel h gone = (
    record t { next = new_next },
    rw (
        remove_loop-ring fuel t.next (node n) (slot i) (map node ys) (map node zs)
          (omega (arith, count)) halves.0 halves.1 turn_out turn_live),
    refl,
    refl,
    record {
      positive = r.positive;
      rings = rings_after gone;
      placed = λ j m hj on. r.placed j m hj (elem-erase_of m n (b j) on);
      nodup = λ j hj. erase-Nodup n (b j) (r.nodup j hj);
    },
  )

-- A node that stands in a bucket is taken out of it, with as much fuel as the bucket has nodes, and
-- the other nodes stay in their order.
pub remove-Represents :
    (t : Htable) (b : Buckets) (n i fuel : ℕ)
    → Represents t b
    → i < t.size
    → elem n (b i) ≡ true
    → length (b i) ≤ fuel
    → (u : Htable) × (remove fuel t n ≡ some u)
      × (u.size ≡ t.size)
      × (u.key ≡ t.key)
      × Represents u (without b n)
remove-Represents t b n i fuel r hi on h =
    let (ys, zs, parts, gone) = elem-split n (b i) on in
    remove-Represents_at t b n i r hi ys zs parts fuel h gone
