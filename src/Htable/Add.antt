-- ===== src/Htable/Add.antt =====
-- `_hs_htable_init`, `_hs_htable_clear` and `_hs_htable_add` on the buckets.
use libhs.Base.{
  ℕ, zero, suc, ◌+◌, ◌%◌, ◌≤◌, ◌<◌, ◌≡◌, ◌≢◌, refl, ◌∙◌, ◌⊎◌, true, false, some, [], ◌∷◌, map,
  arith, ◌==◌, ==-refl, ==-of_ne, elem, Bool-cases, inl, inr,
}
use libhs.Htable.{Ptr, slot, node, Htable, write, write_key, get_head, clear_loop, clear, init, add}
use libhs.Htable.Rings
use libhs.Htable.Rings.{has, Leads, ptr_eq_refl, off_path, write_self, write-ne, write_twice-ne}
use libhs.Htable.Buckets.{Buckets, put, Represents, has-node, has-slot, Nodup}

clear_loop-slot :
    (rounds i : ℕ) (next : Ptr → Ptr) (j : ℕ)
    → ((i ≤ j) × (j < i + rounds)) ⊎ (next (slot j) ≡ slot j)
    → clear_loop rounds i next (slot j) ≡ slot j
unfolding clear_loop write
clear_loop-slot zero i next j (inl h) = absurd (omega arith)
clear_loop-slot zero i next j (inr h) = h
clear_loop-slot (suc rounds) i next j h =
    clear_loop-slot rounds (i + 1) (write next (slot i) (slot i)) j (ground arith)

-- The allocation of a table with at least one cell gives one with empty buckets.
pub init-Represents :
    (t : Htable) (size : ℕ)
    → 0 < size
    → (u : Htable) × (init true t size ≡ some u) × (u.size ≡ size) × Represents u (λ _. [])
unfolding init clear
init-Represents t size h = (
  clear (record t { size = size }),
  refl,
  refl,
  record {
    positive = h;
    rings = λ i hi. clear_loop-slot size 0 t.next i (inl (omega arith, omega arith));
    placed = λ i n hi on. cc;
    nodup = λ i hi. tt;
  },
)

put-Nodup : (b : Buckets) (i n j : ℕ) → elem n (b j) ≡ false → Nodup (b j) → Nodup (put b i n j)
unfolding put
put-Nodup b i n j h d = ground arith

module _ (t : Htable) (b : Buckets) (n : ℕ) (r : Represents t b)
    (absent : (i : ℕ) → i < t.size → elem n (b i) ≡ false) where
  -- The ring of the bucket that the node goes to.
  head_ring :
      (i : ℕ) (hi : i < t.size)
      → Leads
          (write (write t.next (node n) (t.next (slot i))) (slot i) (node n))
          (slot i)
          (map node (n ∷ b i))
          (slot i)
  head_ring i hi = (
    write_self _ (slot i) (node n),
    Rings.move t.next _ (slot i) (node n) (map node (b i)) (slot i)
        (write-ne _ (slot i) (node n) (node n) refl ∙ write_self t.next (node n) _)
        (λ a on.
          write_twice-ne t.next (node n) _ (slot i) _ a
            (off_path (node n) a (map node (b i)) (has-node n (b i) ∙ absent i hi) on)
            (off_path (slot i) a (map node (b i)) (has-slot i (b i)) on))
        (r.rings i hi),
  )

  -- Any other ring.
  other_ring :
      (i j : ℕ) (hj : j < t.size)
      → j ≢ i
      → Leads
          (write (write t.next (node n) (t.next (slot i))) (slot i) (node n))
          (slot j)
          (map node (b j))
          (slot j)
  other_ring i j hj ne =
      Rings.move t.next _ (slot j) (slot j) (map node (b j)) (slot j)
        (write_twice-ne t.next (node n) _ (slot i) _ (slot j) refl (==-of_ne j i ne))
        (λ a on.
          write_twice-ne t.next (node n) _ (slot i) _ a
            (off_path (node n) a (map node (b j)) (has-node n (b j) ∙ absent j hj) on)
            (off_path (slot i) a (map node (b j)) (has-slot i (b j)) on))
        (r.rings j hj)

  ring_of_put :
      (i j : ℕ) (hi : i < t.size) (hj : j < t.size)
      → Leads
          (write (write t.next (node n) (t.next (slot i))) (slot i) (node n))
          (slot j)
          (map node (put b i n j))
          (slot j)
  unfolding put
  ring_of_put i j hi hj = elim (Bool-cases (j == i)) [
    | inl same ↦ let e : j ≡ i = ground arith in rw (e, ==-refl i) (head_ring i hi)
    | inr differ ↦ rw differ (other_ring i j hj (λ e. ground arith))
  ]

  placed_of_put :
      (key j m : ℕ)
      → j < t.size
      → elem m (put b (key % t.size) n j) ≡ true
      → write_key t.key n key m % t.size ≡ j
  unfolding put write_key
  placed_of_put key j m hj on = elim (Bool-cases (m == n)) [
    | inl same ↦ ground (arith, absent j hj)
    | inr differ ↦ rw differ (r.placed j m hj (ground arith))
  ]

  -- A node that is in no bucket goes to the front of the bucket of its key, and gets the key.
  pub add-Represents :
      (key : ℕ)
      → (u : Htable) × (add t key n ≡ some u)
        × (u.size ≡ t.size)
        × (u.key n ≡ key)
        × ((m : ℕ) → m ≢ n → u.key m ≡ t.key m)
        × Represents u (put b (key % t.size) n)
  unfolding add get_head write_key
  add-Represents key =
      let i = key % t.size in
      let hi : i < t.size = omega (arith, r.positive) in
      (
        record t {
          key = write_key t.key n key;
          next = write (write t.next (node n) (t.next (slot i))) (slot i) (node n);
        },
        ground (arith, r.positive),
        refl,
        rw (==-refl n),
        λ m ne. rw (==-of_ne m n ne),
        record {
          positive = r.positive;
          rings = λ j hj. ring_of_put i j hi hj;
          placed = λ j m hj on. placed_of_put key j m hj on;
          nodup = λ j hj. put-Nodup b i n j (absent j hj) (r.nodup j hj);
        },
      )
