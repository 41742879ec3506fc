-- ===== src/Htable/Rings.antt =====
-- Paths along `next`.
use libhs.Base.{
  ◌≡◌, refl, ◌∙◌, Bool, true, false, ◌||◌, List, [], ◌∷◌, ◌++◌, arith, Bool-cases, inl, inr,
}
use libhs.Htable.{Ptr, null, slot, node, ptr_eq, write}

pub eq_of_ptr_eq : (p q : Ptr) → ptr_eq p q ≡ true → p ≡ q
eq_of_ptr_eq null null h = refl
eq_of_ptr_eq null q h = ground arith
eq_of_ptr_eq (slot a) q h = ground arith
eq_of_ptr_eq (node a) q h = ground arith

pub ptr_eq_refl : (p : Ptr) → ptr_eq p p ≡ true
ptr_eq_refl null = refl
ptr_eq_refl (slot a) = ground arith
ptr_eq_refl (node a) = ground arith

abbrev pub has : Ptr → List Ptr → Bool
has a [] = false
has a (x ∷ xs) = ptr_eq a x || has a xs

abbrev pub Distinct : List Ptr → Type 0
Distinct [] = Unit
Distinct (x ∷ xs) = (has x xs ≡ false) × Distinct xs

-- From `p` the `next` fields lead through `xs` to `q`.
abbrev pub Leads : (Ptr → Ptr) → Ptr → List Ptr → Ptr → Type 0
Leads next p [] q = next p ≡ q
Leads next p (x ∷ xs) q = (next p ≡ x) × Leads next x xs q

abbrev pub last : Ptr → List Ptr → Ptr
last p [] = p
last p (x ∷ xs) = last x xs

-- A path depends on the start's `next` and on those of the addresses on it.
pub move :
    (f g : Ptr → Ptr) (p p' : Ptr) (xs : List Ptr) (q : Ptr)
    → g p' ≡ f p
    → ((a : Ptr) → has a xs ≡ true → g a ≡ f a)
    → Leads f p xs q
    → Leads g p' xs q
move f g p p' [] q start same path = start ∙ path
move f g p p' (x ∷ xs) q start same path = (
  start ∙ path.0,
  move f g x x xs q (same x (ground (arith, ptr_eq_refl x))) (λ a h. same a (ground arith)) path.1,
)

pub append :
    (next : Ptr → Ptr) (p : Ptr) (xs : List Ptr) (m : Ptr) (ys : List Ptr) (q : Ptr)
    → Leads next p xs m
    → Leads next m ys q
    → Leads next p (xs ++ m ∷ ys) q
append next p [] m ys q front back = (front, back)
append next p (x ∷ xs) m ys q front back = (front.0, append next x xs m ys q front.1 back)

pub split :
    (next : Ptr → Ptr) (p : Ptr) (xs : List Ptr) (m : Ptr) (ys : List Ptr) (q : Ptr)
    → Leads next p (xs ++ m ∷ ys) q
    → Leads next p xs m × Leads next m ys q
split next p [] m ys q path = path
split next p (x ∷ xs) m ys q path =
    let rest = split next x xs m ys q path.1 in ((path.0, rest.0), rest.1)

pub last-append :
    (p : Ptr) (xs : List Ptr) (m : Ptr) (ys : List Ptr) → last p (xs ++ m ∷ ys) ≡ last m ys
last-append p [] m ys = refl
last-append p (x ∷ xs) m ys = last-append x xs m ys

pub has-last : (p : Ptr) (xs : List Ptr) → has (last p xs) (p ∷ xs) ≡ true
has-last p [] = ground (arith, ptr_eq_refl p)
has-last p (x ∷ xs) = ground (arith, has-last x xs)

pub has-append : (a : Ptr) (xs ys : List Ptr) → has a (xs ++ ys) ≡ (has a xs || has a ys)
has-append a [] ys = refl
has-append a (x ∷ xs) ys = ground (arith, has-append a xs ys)

-- What is on a path is not what is off it.
pub off_path : (a b : Ptr) (xs : List Ptr) → has a xs ≡ false → has b xs ≡ true → ptr_eq b a ≡ false
off_path a b xs out on = elim (Bool-cases (ptr_eq b a)) [
  | inl same ↦ let e = eq_of_ptr_eq b a same in absurd (cc)
  | inr differ ↦ differ
]

pub ptr_eq-sym : (p q : Ptr) → ptr_eq p q ≡ ptr_eq q p
ptr_eq-sym null null = refl
ptr_eq-sym null q = ground arith
ptr_eq-sym (slot a) q = ground arith
ptr_eq-sym (node a) q = ground arith

pub write_self : (next : Ptr → Ptr) (p q : Ptr) → write next p q p ≡ q
unfolding write
write_self next p q = rw ptr_eq_refl

pub write-ne : (next : Ptr → Ptr) (p q a : Ptr) → ptr_eq a p ≡ false → write next p q a ≡ next a
unfolding write
write-ne next p q a h = rw h

-- Two writes seen from an address that neither touches.
pub write_twice-ne :
    (next : Ptr → Ptr) (p q p' q' a : Ptr)
    → ptr_eq a p ≡ false
    → ptr_eq a p' ≡ false
    → write (write next p q) p' q' a ≡ next a
write_twice-ne next p q p' q' a h h' = write-ne (write next p q) p' q' a h' ∙ write-ne next p q a h

-- In a list of distinct addresses one of them stands nowhere else.
pub Distinct-middle :
    (xs : List Ptr) (m : Ptr) (ys : List Ptr)
    → Distinct (xs ++ m ∷ ys)
    → (has m xs ≡ false) × (has m ys ≡ false)
Distinct-middle [] m ys h = (refl, h.0)
Distinct-middle (x ∷ xs) m ys h =
    let rest = Distinct-middle xs m ys h.1 in
    (
      ground (
        arith,
        off_path x m (xs ++ m ∷ ys) h.0
            (rw (has-append m xs (m ∷ ys), ptr_eq_refl m) (ground arith)),
      ),
      rest.1,
    )
