-- ===== src/Htable/Foreach.antt =====
-- The macros `hs_htable_foreach_hash` and `hs_htable_foreach` of src/htable.h over a client's state
-- `S` that holds the table. The successor is read before the body runs, so the body may take the
-- current node out of its ring. A loop takes fuel; `none` is a null dereference, or fuel that ran out.
pub mod Cells
use libhs.Base.{
  ℕ, zero, suc, ◌+◌, ◌%◌, ◌<◌, ◌≡◌, refl, ◌∙◌, Option, none, some, List, [], ◌∷◌, map,
  if◌then◌else◌, arith, ◌⊎◌, ◌==◌, length, Bool-cases, inl, inr, ◌>>=◌, ==-refl, ==-of_ne,
}
use libhs.Htable.{Ptr, null, slot, node, ptr_eq, Htable, load, get_head}
use libhs.Htable.Rings.{Leads}
use libhs.Htable.Buckets.{Buckets, Represents}

-- The body goes on with the next node, or returns from the function around the loop.
pub data Flow (R : Type 0) : Type 0 where
  go_on : Flow R
  leave : R → Flow R

abbrev as_node : Ptr → Option ℕ
as_node null = none
as_node (slot i) = none
as_node (node n) = some n

pub Flow-cases : {R : Type 0} (f : Flow R) → (f ≡ go_on) ⊎ ((r : R) × (f ≡ leave r))
Flow-cases go_on = inl refl
Flow-cases (leave r) = inr (r, refl)

-- The address that a list of nodes of the ring of cell `i` starts at.
abbrev start : ℕ → List ℕ → Ptr
start i [] = slot i
start i (n ∷ ns) = node n

-- From the first of the nodes the ring leads through the others to the cell.
abbrev pub Ahead : (Ptr → Ptr) → ℕ → List ℕ → Type 0
Ahead next i [] = Unit
Ahead next i (n ∷ ns) = Leads next (node n) (map node ns) (slot i)

abbrev Successor : ℕ → List ℕ → Ptr → Type 0
Successor i [] p = Unit
Successor i (n ∷ ns) p = p ≡ start i ns

Ahead-Successor :
    (next : Ptr → Ptr) (i n : ℕ) (ns : List ℕ) → Ahead next i (n ∷ ns) → next (node n) ≡ start i ns
Ahead-Successor next i n [] h = h
Ahead-Successor next i n (m ∷ ns) h = h.0

module _ {S R : Type 0} where
  -- What follows a body: the rest of the loop, or the return.
  abbrev pub proceed : {T : Type 0} → Flow R × S → (S → T) → (R → S → T) → T
  proceed (go_on, s) on off = on s
  proceed (leave r, s) on off = off r s

  proceed-some :
      (v : Flow R × S) (f : S → Option (Option R × S)) (g : S → Option R × S)
      → (v.0 ≡ go_on → f v.1 ≡ some (g v.1))
      → proceed v f (λ r s. some (some r, s)) ≡ some (proceed v g (λ r s. (some r, s)))
  proceed-some (go_on, s) f g h = h refl
  proceed-some (leave r, s) f g h = refl

module _ {S R : Type 0} (table : S → Htable) (visit : ℕ → S → Flow R × S) where
  -- `for (...; cur != head; cur = next, next = cur->next)` around one ring.
  ring_loop : (fuel : ℕ) → (head cur next : Ptr) → S → Option (Option R × S)
  ring_loop zero head cur next s = none
  ring_loop (suc fuel) head cur next s =
      let rest =
        λ (s' : S). load (table s').next next >>= λ next'. ring_loop fuel head next next' s' in
      if ptr_eq cur head
      then some (none, s)
      else as_node cur >>= λ n. proceed (visit n s) rest (λ r s'. some (some r, s'))

  -- `cur = head->next, next = cur->next`, and the loop.
  pub ring : (fuel : ℕ) → (head : Ptr) → S → Option (Option R × S)
  unfolding ring_loop
  ring fuel head s = do
    cur ← load (table s).next head
    next ← load (table s).next cur
    ring_loop fuel head cur next s

  -- The same over a list of nodes that is fixed when the loop begins.
  unfoldable pub each : List ℕ → S → Option R × S
  each [] s = (none, s)
  each (n ∷ ns) s = proceed (visit n s) (each ns) (λ r s'. (some r, s'))

  module _ (i : ℕ) (Good : List ℕ → S → Type 0)
      (ahead : (ns : List ℕ) (s : S) → Good ns s → Ahead (table s).next i ns)
      (keep : (n : ℕ) (ns : List ℕ) (s : S)
        → Good (n ∷ ns) s
        → (visit n s).0 ≡ go_on
        → Good ns (visit n s).1) where
    load-Successor :
        (ns : List ℕ) (s : S)
        → Good ns s
        → (p : Ptr) × (load (table s).next (start i ns) ≡ some p) × Successor i ns p
    unfolding load
    load-Successor [] s g = (_, refl, tt)
    load-Successor (n ∷ ns) s g =
        (_, refl, Ahead-Successor (table s).next i n ns (ahead (n ∷ ns) s g))

    ring_loop-each :
        (fuel : ℕ) (ns : List ℕ) (next : Ptr) (s : S)
        → length ns < fuel
        → Successor i ns next
        → Good ns s
        → ring_loop fuel (slot i) (start i ns) next s ≡ some (each ns s)
    unfolding ring_loop each
    ring_loop-each zero ns next s h succ g = absurd (omega arith)
    ring_loop-each (suc fuel) [] next s h succ g = rw (==-refl i)
    ring_loop-each (suc fuel) (n ∷ ns) next s h succ g = proceed-some (visit n s) _ (each ns) λ on.
        let g' = keep n ns s g on in
        let (p, e, succ') = load-Successor ns (visit n s).1 g' in
        rw (succ, e) (ring_loop-each fuel ns p (visit n s).1 (omega arith) succ' g')

    -- On the nodes of one ring the loop is the loop over their list, if the visits keep what is
    -- ahead of them.
    pub ring-each :
        (fuel : ℕ) (ns : List ℕ) (s : S)
        → length ns < fuel
        → Leads (table s).next (slot i) (map node ns) (slot i)
        → Good ns s
        → ring fuel (slot i) s ≡ some (each ns s)
    unfolding ring load
    ring-each fuel ns s h path g =
        let (p, e, succ) = load-Successor ns s g in
        rw (first ns path, e) (ring_loop-each fuel ns p s h succ g)
      where
        first :
            (ns : List ℕ)
            → Leads (table s).next (slot i) (map node ns) (slot i)
            → (table s).next (slot i) ≡ start i ns
        first [] path = path
        first (n ∷ ns) path = path.0

pub Leads-Ahead :
    (next : Ptr → Ptr) (i : ℕ) (ns : List ℕ)
    → Leads next (slot i) (map node ns) (slot i)
    → Ahead next i ns
Leads-Ahead next i [] h = tt
Leads-Ahead next i (n ∷ ns) h = h.1

pub Ahead-tail :
    (next : Ptr → Ptr) (i n : ℕ) (ns : List ℕ) → Ahead next i (n ∷ ns) → Ahead next i ns
Ahead-tail next i n [] h = tt
Ahead-tail next i n (m ∷ ns) h = h.1

module _ {S R : Type 0} (table : S → Htable) (body : ℕ → S → Flow R × S) where
  -- `if (cur->key == (k)) body`
  unfoldable pub visit : (k : ℕ) → ℕ → S → Flow R × S
  visit k n s = if (table s).key n == k then body n s else (go_on, s)

  unfoldable pub foreach_hash : (k fuel : ℕ) → S → Option (Option R × S)
  unfolding ring visit
  foreach_hash k fuel s =
      if (table s).size == 0
      then some (none, s)
      else get_head (table s) k >>= λ head. ring table (visit k) fuel head s

  -- Both loops of `hs_htable_foreach`: the rings from cell `i` on, with the cells left.
  pub cells_loop : (rounds i fuel : ℕ) → S → Option (Option R × S)
  unfolding ring
  cells_loop zero i fuel s = some (none, s)
  cells_loop (suc rounds) i fuel s = ring table body fuel (slot i) s >>= λ r. elim r.0 [
    | none ↦ cells_loop rounds (i + 1) fuel r.1
    | some x ↦ some (some x, r.1)
  ]

  unfoldable pub foreach : (fuel : ℕ) → S → Option (Option R × S)
  unfolding cells_loop
  foreach fuel s = cells_loop (table s).size 0 fuel s

  -- On a table that stands for buckets, with more fuel than the bucket of `k` has nodes, the loop
  -- visits the nodes of that bucket in order.
  pub foreach_hash-each :
      (k fuel : ℕ) (b : Buckets) (s : S) (Good : List ℕ → S → Type 0)
      → Represents (table s) b
      → ((ns : List ℕ) (s' : S) → Good ns s' → Ahead (table s').next (k % (table s).size) ns)
      → ((n : ℕ) (ns : List ℕ) (s' : S)
          → Good (n ∷ ns) s'
          → (visit k n s').0 ≡ go_on
          → Good ns (visit k n s').1)
      → length (b (k % (table s).size)) < fuel
      → Good (b (k % (table s).size)) s
      → foreach_hash k fuel s ≡ some (each table (visit k) (b (k % (table s).size)) s)
  unfolding foreach_hash get_head
  foreach_hash-each k fuel b s Good r ahead keep h g =
      let i = k % (table s).size in
      rw (==-of_ne (table s).size 0 (omega (arith, r.positive))) (
        ring-each table (visit k) i Good ahead keep fuel (b i) s h
          (r.rings i (omega (arith, r.positive))) g)

  -- In particular if the body leaves the table alone.
  pub foreach_hash-each_fixed :
      (k fuel : ℕ) (b : Buckets) (s : S)
      → Represents (table s) b
      → ((n : ℕ) (s' : S) → table (body n s').1 ≡ table s')
      → length (b (k % (table s).size)) < fuel
      → foreach_hash k fuel s ≡ some (each table (visit k) (b (k % (table s).size)) s)
  unfolding visit
  foreach_hash-each_fixed k fuel b s r same h =
      let i = k % (table s).size in
      foreach_hash-each k fuel b s (λ ns s'. (table s' ≡ table s) × Ahead (table s).next i ns) r
        (λ ns s' g. rw (g.0) (g.1))
        (λ n ns s' g on. (
          elim (Bool-cases ((table s').key n == k)) [
            | inl hit ↦ rw hit (same n s' ∙ g.0)
            | inr miss ↦ rw miss (g.0)
          ],
          Ahead-tail (table s).next i n ns g.1,
        ))
        h (refl, Leads-Ahead (table s).next i (b i) (r.rings i (omega (arith, r.positive))))
