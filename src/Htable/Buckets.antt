-- ===== src/Htable/Buckets.antt =====
-- What a hash table stands for: the nodes of each bucket, in the order of its ring.
use libhs.Base.{
  ℕ, ◌%◌, ◌<◌, ◌≡◌, ◌≢◌, refl, sym, ◌∙◌, ap, true, false, ◌||◌, List, [], ◌∷◌, ◌++◌, map,
  if◌then◌else◌, arith, ◌==◌, elem, Bool-cases, inl, inr,
}
use libhs.Htable.{Ptr, null, slot, node, Htable}
use libhs.Htable.Rings.{has, Distinct, Leads}

abbrev pub Buckets : Type 0
Buckets = ℕ → List ℕ

-- A node goes to the front of one bucket.
unfoldable pub put : Buckets → (i n : ℕ) → Buckets
put b i n j = if j == i then n ∷ b j else b j

unfoldable pub erase : ℕ → List ℕ → List ℕ
erase n [] = []
erase n (x ∷ xs) = if n == x then xs else x ∷ erase n xs

-- A node leaves the buckets.
unfoldable pub without : Buckets → (n : ℕ) → Buckets
without b n j = erase n (b j)

abbrev pub Nodup : List ℕ → Type 0
Nodup [] = Unit
Nodup (x ∷ xs) = (elem x xs ≡ false) × Nodup xs

-- Every cell starts a ring of distinct nodes, whose keys belong there.
pub record Represents (t : Htable) (b : Buckets) : Type 0 where
  pub positive : 0 < t.size
  pub rings : (i : ℕ) → i < t.size → Leads t.next (slot i) (map node (b i)) (slot i)
  pub placed : (i n : ℕ) → i < t.size → elem n (b i) ≡ true → t.key n % t.size ≡ i
  pub nodup : (i : ℕ) → i < t.size → Nodup (b i)

abbrev pub ring : ℕ → List ℕ → List Ptr
ring i xs = slot i ∷ map node xs

pub has-node : (n : ℕ) (xs : List ℕ) → has (node n) (map node xs) ≡ elem n xs
has-node n [] = refl
has-node n (x ∷ xs) = rw (has-node n xs)

pub has-slot : (i : ℕ) (xs : List ℕ) → has (slot i) (map node xs) ≡ false
has-slot i [] = refl
has-slot i (x ∷ xs) = has-slot i xs

pub has-null : (i : ℕ) (xs : List ℕ) → has null (ring i xs) ≡ false
has-null i [] = refl
has-null i (x ∷ xs) = has-null i xs

nodes-Distinct : (xs : List ℕ) → Nodup xs → Distinct (map node xs)
nodes-Distinct [] h = tt
nodes-Distinct (x ∷ xs) h = (has-node x xs ∙ h.0, nodes-Distinct xs h.1)

pub ring-Distinct : (i : ℕ) (xs : List ℕ) → Nodup xs → Distinct (ring i xs)
ring-Distinct i xs h = (has-slot i xs, nodes-Distinct xs h)

pub elem-append : (n : ℕ) (xs ys : List ℕ) → elem n (xs ++ ys) ≡ (elem n xs || elem n ys)
elem-append n [] ys = refl
elem-append n (x ∷ xs) ys = ground (arith, elem-append n xs ys)

-- Two rings share no address.
pub rings_apart :
    {t : Htable} {b : Buckets} (i j : ℕ) (a : Ptr)
    → Represents t b
    → i < t.size
    → j < t.size
    → i ≢ j
    → has a (ring j (b j)) ≡ true
    → has a (ring i (b i)) ≡ false
rings_apart {b} i j null r hi hj ne on = has-null i (b i)
rings_apart {b} i j (slot k) r hi hj ne on = ground (arith, has-slot k (b i), has-slot k (b j))
rings_apart {b} i j (node n) r hi hj ne on =
    let here : elem n (b j) ≡ true = sym (has-node n (b j)) ∙ on in
    rw (has-node n (b i)) (elim (Bool-cases (elem n (b i))) [
      | inl there ↦ absurd (ne (sym (r.placed i n hi there) ∙ r.placed j n hj here))
      | inr away ↦ away
    ])

-- Where a node stands in its bucket, and what erasing it leaves.
pub elem-split :
    (n : ℕ) (xs : List ℕ)
    → elem n xs ≡ true
    → (ys : List ℕ) × (zs : List ℕ) × (xs ≡ ys ++ n ∷ zs) × (erase n xs ≡ ys ++ zs)
unfolding erase
elem-split n [] h = absurd (cc)
elem-split n (x ∷ xs) h = elim (Bool-cases (n == x)) [
  | inl same ↦ ([], xs, ground arith, rw same)
  | inr differ ↦
      let (ys, zs, e, rest) = elem-split n xs (ground arith) in
      (x ∷ ys, zs, ap (λ l. x ∷ l) e, rw (differ, rest))
]

pub erase-absent : (n : ℕ) (xs : List ℕ) → elem n xs ≡ false → erase n xs ≡ xs
unfolding erase
erase-absent n [] h = refl
erase-absent n (x ∷ xs) h = ground (arith, erase-absent n xs)

pub elem-erase_of : (m n : ℕ) (xs : List ℕ) → elem m (erase n xs) ≡ true → elem m xs ≡ true
unfolding erase
elem-erase_of m n [] h = h
elem-erase_of m n (x ∷ xs) h = ground (arith, elem-erase_of m n xs)

elem-erase-false : (m n : ℕ) (xs : List ℕ) → elem m xs ≡ false → elem m (erase n xs) ≡ false
unfolding erase
elem-erase-false m n [] h = h
elem-erase-false m n (x ∷ xs) h = ground (arith, elem-erase-false m n xs)

pub erase-Nodup : (n : ℕ) (xs : List ℕ) → Nodup xs → Nodup (erase n xs)
unfolding erase
erase-Nodup n [] h = tt
erase-Nodup n (x ∷ xs) h = ground (arith, erase-Nodup n xs h.1, elem-erase-false x n xs h.0)

-- No node is left under its name.
pub elem-erase_self : (n : ℕ) (xs : List ℕ) → Nodup xs → elem n (erase n xs) ≡ false
unfolding erase
elem-erase_self n [] h = refl
elem-erase_self n (x ∷ xs) h = ground (arith, elem-erase_self n xs h.1)

pub Nodup-middle :
    (ys : List ℕ) (n : ℕ) (zs : List ℕ)
    → Nodup (ys ++ n ∷ zs)
    → (elem n ys ≡ false) × (elem n zs ≡ false)
Nodup-middle [] n zs h = (refl, h.0)
Nodup-middle (y ∷ ys) n zs h =
    let rest = Nodup-middle ys n zs h.1 in (ground (arith, elem-append y ys (n ∷ zs)), rest.1)

-- Erasing takes out the first occurrence.
pub erase-middle :
    (ys : List ℕ) (n : ℕ) (zs : List ℕ) → elem n ys ≡ false → erase n (ys ++ n ∷ zs) ≡ ys ++ zs
unfolding erase
erase-middle [] n zs h = ground arith
erase-middle (y ∷ ys) n zs h = ground (arith, erase-middle ys n zs)

pub Nodup-behind : (xs ys : List ℕ) → Nodup (xs ++ ys) → Nodup ys
Nodup-behind [] ys nodup = nodup
Nodup-behind (x ∷ xs) ys nodup = Nodup-behind xs ys nodup.1
