-- ===== src/Links/Rings.antt =====
-- What the links stand for: a ring from a head through a sequence of elements and back.
use libhs.Base.{
  ℕ, ◌≡◌, refl, ◌∙◌, true, false, List, [], ◌∷◌, ◌++◌, ◌==◌, arith, elem, Bool-cases, inl, inr,
  ==-refl,
}
use libhs.Htable.Buckets.{Nodup, elem-append}
use libhs.Links.{Memory}

-- The links lead from `p` through `xs` to `q`, and back.
abbrev pub Linked : Memory → ℕ → List ℕ → ℕ → Type 0
Linked m p [] q = (m.next p ≡ q) × (m.prev q ≡ p)
Linked m p (x ∷ xs) q = (m.next p ≡ x) × (m.prev x ≡ p) × Linked m x xs q

-- The ring of `list`: its elements differ from each other and from `list`, and none is `NULL`.
pub record IsRing (m : Memory) (list : ℕ) (xs : List ℕ) : Type 0 where
  pub linked : Linked m list xs list
  pub nodup : Nodup (list ∷ xs)
  pub nonnull : elem 0 (list ∷ xs) ≡ false

-- Other links do not matter.
pub Linked-frame :
    (m m' : Memory) (p : ℕ) (xs : List ℕ) (q : ℕ)
    → ((a : ℕ) → elem a (p ∷ xs) ≡ true → m'.next a ≡ m.next a)
    → ((a : ℕ) → elem a (q ∷ xs) ≡ true → m'.prev a ≡ m.prev a)
    → Linked m p xs q
    → Linked m' p xs q
Linked-frame m m' p [] q nexts prevs (n, b) =
    (nexts p (ground (arith, ==-refl p)) ∙ n, prevs q (ground (arith, ==-refl q)) ∙ b)
Linked-frame m m' p (x ∷ xs) q nexts prevs (n, b, rest) = (
  nexts p (ground (arith, ==-refl p)) ∙ n,
  prevs x (ground (arith, ==-refl x)) ∙ b,
  Linked-frame m m' x xs q (λ a on. nexts a (ground (arith, on)))
      (λ a on. prevs a (ground (arith, on))) rest,
)

pub Linked-append :
    (m : Memory) (p : ℕ) (xs : List ℕ) (x : ℕ) (ys : List ℕ) (q : ℕ)
    → Linked m p xs x
    → Linked m x ys q
    → Linked m p (xs ++ x ∷ ys) q
Linked-append m p [] x ys q (n, b) back = (n, b, back)
Linked-append m p (z ∷ xs) x ys q (n, b, rest) back = (n, b, Linked-append m z xs x ys q rest back)

pub Linked-split :
    (m : Memory) (p : ℕ) (xs : List ℕ) (x : ℕ) (ys : List ℕ) (q : ℕ)
    → Linked m p (xs ++ x ∷ ys) q
    → Linked m p xs x × Linked m x ys q
Linked-split m p [] x ys q (n, b, back) = ((n, b), back)
Linked-split m p (z ∷ xs) x ys q (n, b, rest) =
    let (front, back) = Linked-split m z xs x ys q rest in ((n, b, front), back)

-- The last address of a path.
abbrev pub last : ℕ → List ℕ → ℕ
last p [] = p
last p (x ∷ xs) = last x xs

pub Linked-last :
    (m : Memory) (p : ℕ) (xs : List ℕ) (q : ℕ) → Linked m p xs q → m.prev q ≡ last p xs
Linked-last m p [] q (n, b) = b
Linked-last m p (x ∷ xs) q (n, b, rest) = Linked-last m x xs q rest

pub Linked-last_next :
    (m : Memory) (p : ℕ) (xs : List ℕ) (q : ℕ) → Linked m p xs q → m.next (last p xs) ≡ q
Linked-last_next m p [] q (n, b) = n
Linked-last_next m p (x ∷ xs) q (n, b, rest) = Linked-last_next m x xs q rest

pub elem-last : (p : ℕ) (xs : List ℕ) → elem (last p xs) (p ∷ xs) ≡ true
elem-last p [] = ground (arith, ==-refl p)
elem-last p (x ∷ xs) = ground (arith, elem-last x xs)

-- The first address behind `p`.
abbrev pub first : List ℕ → ℕ → ℕ
first [] q = q
first (x ∷ xs) q = x

-- A path is split and joined at a gap between two addresses.
pub split_gap :
    (m : Memory) (p : ℕ) (xs ys : List ℕ) (q : ℕ)
    → Linked m p (xs ++ ys) q
    → Linked m p xs (first ys q) × Linked m (last p xs) ys q
split_gap m p [] [] q path = (path, path)
split_gap m p [] (y ∷ ys) q (n, b, rest) = ((n, b), (n, b, rest))
split_gap m p (x ∷ xs) ys q (n, b, rest) =
    let (front, back) = split_gap m x xs ys q rest in ((n, b, front), back)

pub join_gap :
    (m : Memory) (p : ℕ) (xs ys : List ℕ) (q : ℕ)
    → Linked m p xs (first ys q)
    → Linked m (last p xs) ys q
    → Linked m p (xs ++ ys) q
join_gap m p [] ys q front back = back
join_gap m p (x ∷ xs) ys q (n, b, rest) back = (n, b, join_gap m x xs ys q rest back)

-- A path gets another end,
pub Linked-end :
    (m m' : Memory) (p : ℕ) (xs : List ℕ) (q q' : ℕ)
    → Nodup (p ∷ xs)
    → m'.next (last p xs) ≡ q'
    → m'.prev q' ≡ last p xs
    → ((a : ℕ) → elem a (p ∷ xs) ≡ true → (a == last p xs) ≡ false → m'.next a ≡ m.next a)
    → ((a : ℕ) → elem a xs ≡ true → m'.prev a ≡ m.prev a)
    → Linked m p xs q
    → Linked m' p xs q'
Linked-end m m' p [] q q' nodup n' b' nexts prevs path = (n', b')
Linked-end m m' p (x ∷ xs) q q' nodup n' b' nexts prevs (n, b, rest) =
    let inner : (p == last x xs) ≡ false = elim (Bool-cases (p == last x xs)) [
      | inl same ↦ let e : p ≡ last x xs = ground arith in let on = elem-last x xs in absurd (cc)
      | inr differ ↦ differ
    ] in
    (
      nexts p (ground (arith, ==-refl p)) inner ∙ n,
      prevs x (ground (arith, ==-refl x)) ∙ b,
      Linked-end m m' x xs q q' nodup.1 n' b' (λ a on. nexts a (ground (arith, on)))
          (λ a on. prevs a (ground (arith, on))) rest,
    )

-- or another start.
pub Linked-start :
    (m m' : Memory) (p p' : ℕ) (xs : List ℕ) (q : ℕ)
    → Nodup (q ∷ xs)
    → m'.next p' ≡ first xs q
    → m'.prev (first xs q) ≡ p'
    → ((a : ℕ) → elem a xs ≡ true → m'.next a ≡ m.next a)
    → ((a : ℕ) → elem a (q ∷ xs) ≡ true → (a == first xs q) ≡ false → m'.prev a ≡ m.prev a)
    → Linked m p xs q
    → Linked m' p' xs q
Linked-start m m' p p' [] q nodup n' b' nexts prevs path = (n', b')
Linked-start m m' p p' (x ∷ xs) q nodup n' b' nexts prevs (n, b, rest) =
    let off : elem x (q ∷ xs) ≡ false = ground (arith, nodup.0, nodup.1.0) in
    let inner : (a : ℕ) → elem a (q ∷ xs) ≡ true → (a == x) ≡ false = λ a on.
      elim (Bool-cases (a == x)) [
        | inl same ↦ let e : a ≡ x = ground arith in absurd (cc)
        | inr differ ↦ differ
      ] in
    (
      n',
      b',
      Linked-frame m m' x xs q (λ a on. nexts a on)
          (λ a on. prevs a (ground (arith, on)) (inner a on)) rest,
    )

pub Nodup-append :
    (xs ys : List ℕ)
    → Nodup (xs ++ ys)
    → Nodup xs × Nodup ys × ((z : ℕ) → elem z xs ≡ true → elem z ys ≡ false)
Nodup-append [] ys h = (tt, h, λ z on. absurd (cc))
Nodup-append (x ∷ xs) ys h =
    let (nx, ny, apart) = Nodup-append xs ys h.1 in
    let off = elem-append x xs ys in
    (
      (ground (arith, h.0), nx),
      ny,
      λ z on. elim (Bool-cases (z == x)) [
        | inl same ↦
            let e : z ≡ x = ground arith in
            let away : elem x ys ≡ false = ground (arith, h.0) in rw e away
        | inr differ ↦ apart z (ground arith)
      ],
    )

-- An address of one part is none of the other.
pub apart_ne :
    (xs ys : List ℕ) (a b : ℕ)
    → ((z : ℕ) → elem z xs ≡ true → elem z ys ≡ false)
    → elem a xs ≡ true
    → elem b ys ≡ true
    → (a == b) ≡ false
apart_ne xs ys a b apart ha hb = elim (Bool-cases (a == b)) [
  | inl same ↦ let e : a ≡ b = ground arith in let off = apart a ha in absurd (cc)
  | inr differ ↦ differ
]

pub apart_ne-sym :
    (xs ys : List ℕ) (a b : ℕ)
    → ((z : ℕ) → elem z xs ≡ true → elem z ys ≡ false)
    → elem a xs ≡ true
    → elem b ys ≡ true
    → (b == a) ≡ false
apart_ne-sym xs ys a b apart ha hb = ground (arith, apart_ne xs ys a b apart ha hb)

pub elem-first : (ys : List ℕ) (q : ℕ) → elem (first ys q) (q ∷ ys) ≡ true
elem-first [] q = rw (==-refl q) refl
elem-first (y ∷ ys) q = ground (arith, ==-refl y)

pub elem-without :
    (a : ℕ) (xs : List ℕ) (n : ℕ) (ys : List ℕ)
    → elem a (xs ++ n ∷ ys) ≡ false
    → elem a (xs ++ ys) ≡ false
elem-without a [] n ys h = ground (arith, h)
elem-without a (x ∷ xs) n ys h = ground (arith, elem-without a xs n ys (ground (arith, h)), h)

pub Nodup-without : (xs : List ℕ) (n : ℕ) (ys : List ℕ) → Nodup (xs ++ n ∷ ys) → Nodup (xs ++ ys)
Nodup-without [] n ys h = h.1
Nodup-without (x ∷ xs) n ys h = (elem-without x xs n ys h.0, Nodup-without xs n ys h.1)

-- No address of a ring is `NULL`.
pub nonnull-ne : (zs : List ℕ) (a : ℕ) → elem 0 zs ≡ false → elem a zs ≡ true → (a == 0) ≡ false
nonnull-ne zs a off on = elim (Bool-cases (a == 0)) [
  | inl same ↦ let e : a ≡ 0 = ground arith in absurd (cc)
  | inr differ ↦ differ
]

pub Linked-first :
    (m : Memory) (p : ℕ) (xs : List ℕ) (q : ℕ) → Linked m p xs q → m.next p ≡ first xs q
Linked-first m p [] q path = path.0
Linked-first m p (x ∷ xs) q path = path.0

pub elem-front : (a : ℕ) (xs ys : List ℕ) → elem a xs ≡ true → elem a (xs ++ ys) ≡ true
elem-front a xs ys on = rw (elem-append a xs ys, on) refl

pub elem-back : (a : ℕ) (xs ys : List ℕ) → elem a ys ≡ true → elem a (xs ++ ys) ≡ true
elem-back a xs ys on = rw (elem-append a xs ys, on) (ground arith)
