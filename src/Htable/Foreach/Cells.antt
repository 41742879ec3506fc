-- ===== src/Htable/Foreach/Cells.antt =====
-- `hs_htable_foreach` with a body that leaves the table alone visits every node once.
use libhs.Base.{
  ℕ, zero, suc, ◌+◌, ◌≤◌, ◌<◌, ◌≡◌, refl, ◌∙◌, true, false, Option, none, some, List, [], ◌∷◌, ◌++◌,
  arith, ◌==◌, elem, length, Bool-cases, inl, inr,
}
use libhs.Htable.{Htable, slot}
use libhs.Htable.Buckets.{Buckets, Represents, Nodup, elem-append}
use libhs.Htable.Foreach.{
  Flow, go_on, leave, proceed, ring, each, ring-each, Ahead, Leads-Ahead, Ahead-tail, cells_loop,
  foreach,
}

-- The nodes of some cells, from cell `i` on.
abbrev pub nodes : Buckets → (rounds i : ℕ) → List ℕ
nodes b zero i = []
nodes b (suc rounds) i = b i ++ nodes b rounds (i + 1)

pub elem-nodes :
    (b : Buckets) (n rounds i : ℕ)
    → elem n (nodes b rounds i) ≡ true
    → (j : ℕ) × (i ≤ j) × (j < i + rounds) × (elem n (b j) ≡ true)
elem-nodes b n zero i on = absurd (cc)
elem-nodes b n (suc rounds) i on = elim (Bool-cases (elem n (b i))) [
  | inl here ↦ (i, omega arith, omega arith, here)
  | inr away ↦
      let behind : elem n (nodes b rounds (i + 1)) ≡ true =
        ground (arith, elem-append n (b i) (nodes b rounds (i + 1))) in
      let (j, low, high, there) = elem-nodes b n rounds (i + 1) behind in
      (j, omega arith, omega arith, there)
]

pub nodes-elem :
    (b : Buckets) (n rounds i j : ℕ)
    → i ≤ j
    → j < i + rounds
    → elem n (b j) ≡ true
    → elem n (nodes b rounds i) ≡ true
nodes-elem b n zero i j low high on = absurd (omega arith)
nodes-elem b n (suc rounds) i j low high on = elim (Bool-cases (i == j)) [
  | inl here ↦
      let e : i ≡ j = ground arith in
      let on' : elem n (b i) ≡ true = rw e on in
      rw (elem-append n (b i) (nodes b rounds (i + 1)), on') refl
  | inr later ↦
      let ih = nodes-elem b n rounds (i + 1) j (ground arith) (omega arith) on in
      rw (elem-append n (b i) (nodes b rounds (i + 1)), ih) (ground arith)
]

append-Nodup :
    (xs ys : List ℕ)
    → Nodup xs
    → Nodup ys
    → ((n : ℕ) → elem n xs ≡ true → elem n ys ≡ false)
    → Nodup (xs ++ ys)
append-Nodup [] ys hx hy apart = hy
append-Nodup (x ∷ xs) ys hx hy apart = (
  ground (arith, elem-append x xs ys, hx.0, apart x (ground arith)),
  append-Nodup xs ys hx.1 hy (λ n on. apart n (ground (arith, on))),
)

-- No node stands twice, in one cell or in two.
nodes-Nodup :
    (t : Htable) (b : Buckets)
    → Represents t b
    → (rounds i : ℕ) → i + rounds ≤ t.size
    → Nodup (nodes b rounds i)
nodes-Nodup t b r zero i h = tt
nodes-Nodup t b r (suc rounds) i h =
    append-Nodup (b i) (nodes b rounds (i + 1)) (r.nodup i (omega arith))
      (nodes-Nodup t b r rounds (i + 1) (omega arith))
      (λ n on. elim (Bool-cases (elem n (nodes b rounds (i + 1)))) [
        | inl twice ↦
            let (j, low, high, there) = elem-nodes b n rounds (i + 1) twice in
            absurd (omega (arith, r.placed i n (omega arith) on, r.placed j n (omega arith) there))
        | inr once ↦ once
      ])

-- All nodes of a table.
abbrev pub all_nodes : Htable → Buckets → List ℕ
all_nodes t b = nodes b t.size 0

pub all_nodes-Nodup : (t : Htable) (b : Buckets) → Represents t b → Nodup (all_nodes t b)
all_nodes-Nodup t b r = nodes-Nodup t b r t.size 0 (omega arith)

module _ {S R : Type 0} (table : S → Htable) (body : ℕ → S → Flow R × S)
    (same : (n : ℕ) (s : S) → table (body n s).1 ≡ table s) where
  proceed-table :
      (v : Flow R × S) (f : S → Option R × S) (t : Htable)
      → table v.1 ≡ t
      → ((s : S) → table (f s).1 ≡ table s)
      → table (proceed v f (λ r s. (some r, s))).1 ≡ t
  proceed-table (go_on, s) f t e h = h s ∙ e
  proceed-table (leave r, s) f t e h = e

  each-table : (ns : List ℕ) (s : S) → table (each table body ns s).1 ≡ table s
  unfolding each
  each-table [] s = refl
  each-table (n ∷ ns) s =
      proceed-table (body n s) (each table body ns) (table s) (same n s) (each-table ns)

  proceed-then :
      (v : Flow R × S) (f g h : S → Option R × S)
      → ((s : S) → f s ≡ (elim (g s).0 [ none ↦ h (g s).1 | some r ↦ (some r, (g s).1) ]))
      → let o = proceed v g (λ r s. (some r, s)) in
        proceed v f (λ r s. (some r, s)) ≡ (elim o.0 [ none ↦ h o.1 | some r ↦ (some r, o.1) ])
  proceed-then (go_on, s) f g h e = e s
  proceed-then (leave r, s) f g h e = refl

  each-append :
      (xs ys : List ℕ) (s : S)
      → each table body (xs ++ ys) s ≡ (elim (each table body xs s).0 [
        | none ↦ each table body ys (each table body xs s).1
        | some r ↦ (some r, (each table body xs s).1)
      ])
  unfolding each
  each-append [] ys s = refl
  each-append (n ∷ xs) ys s =
      proceed-then (body n s) (each table body (xs ++ ys)) (each table body xs) (each table body ys)
        (each-append xs ys)

  ring_here :
      (fuel i : ℕ) (b : Buckets) (s : S)
      → Represents (table s) b
      → i < (table s).size
      → length (b i) < fuel
      → ring table body fuel (slot i) s ≡ some (each table body (b i) s)
  ring_here fuel i b s r hi h =
      ring-each table body i (λ ns s'. (table s' ≡ table s) × Ahead (table s).next i ns)
        (λ ns s' g. rw (g.0) (g.1))
        (λ n ns s' g on. (same n s' ∙ g.0, Ahead-tail (table s).next i n ns g.1)) fuel (b i) s h
        (r.rings i hi) (refl, Leads-Ahead (table s).next i (b i) (r.rings i hi))

  -- What follows the loop over one ring.
  further :
      (v : Option R × S) (t : Htable) (f : S → Option (Option R × S)) (g : S → Option R × S)
      → table v.1 ≡ t
      → ((s : S) → table s ≡ t → f s ≡ some (g s))
      → (elim v.0 [ none ↦ f v.1 | some x ↦ some (some x, v.1) ])
        ≡ some (elim v.0 [ none ↦ g v.1 | some x ↦ (some x, v.1) ])
  further (none, s) t f g e h = h s e
  further (some x, s) t f g e h = refl

  cells_loop-each :
      (fuel : ℕ) (b : Buckets) (rounds i : ℕ) (s : S)
      → Represents (table s) b
      → i + rounds ≤ (table s).size
      → ((j : ℕ) → j < (table s).size → length (b j) < fuel)
      → cells_loop table body rounds i fuel s ≡ some (each table body (nodes b rounds i) s)
  unfolding cells_loop each
  cells_loop-each fuel b zero i s r h enough = refl
  cells_loop-each fuel b (suc rounds) i s r h enough =
      let hi : i < (table s).size = omega arith in
      rw (ring_here fuel i b s r hi (enough i hi), each-append (b i) (nodes b rounds (i + 1)) s)
        (further (each table body (b i) s) (table s) _ (each table body (nodes b rounds (i + 1)))
          (each-table (b i) s)
          (λ s' e.
            cells_loop-each fuel b rounds (i + 1) s' (rw e r) (rw e (omega arith))
              (λ j hj. enough j (rw (← e) hj))))

  pub foreach-each :
      (fuel : ℕ) (b : Buckets) (s : S)
      → Represents (table s) b
      → ((j : ℕ) → j < (table s).size → length (b j) < fuel)
      → foreach table body fuel s ≡ some (each table body (all_nodes (table s) b) s)
  unfolding foreach
  foreach-each fuel b s r enough = cells_loop-each fuel b (table s).size 0 s r (omega arith) enough

-- A table without cells, as `calloc` leaves it.
pub foreach-none :
    {S R : Type 0} (table : S → Htable) (body : ℕ → S → Flow R × S) (fuel : ℕ) (s : S)
    → (table s).size ≡ 0
    → foreach table body fuel s ≡ some (none, s)
unfolding foreach cells_loop
foreach-none table body fuel s h = rw h refl
