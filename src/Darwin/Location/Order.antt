-- ===== src/Darwin/Location/Order.antt =====
-- What the loops over the ports give: the ports in the opposite order, and their text.
use libhs.Base.{
  ℕ, zero, suc, ◌+◌, ◌-◌, ◌*◌, ◌/◌, ◌%◌, ◌≤◌, ◌<◌, ◌≡◌, refl, sym, ap, ◌∙◌, true, ◌&&◌, some, List,
  [], ◌∷◌, ◌++◌, ltb, leb, arith, length, length-append, get_elem?, set, add-one,
}
use mathlib.Core.List.{append_assoc, append-nil, reverse, reverse-cons, reverse-append}
use libhs.Common.{Text}
use libhs.Darwin.Location.Bounds.{printed-length}
use libhs.Darwin.Location.{write, decimal, print_ports, swap_ports}

set-behind :
    {A : Type 0} (pre post : List A) (x v : A) (i : ℕ)
    → i ≡ length pre
    → set (pre ++ x ∷ post) i v ≡ pre ++ v ∷ post
set-behind [] post x v i h = let e : i ≡ 0 = omega arith in rw e refl
set-behind (p ∷ pre) post x v zero h = absurd (omega arith)
set-behind (p ∷ pre) post x v (suc i) h = ap (λ l. p ∷ l) (set-behind pre post x v i (omega arith))

pub get-behind :
    {A : Type 0} (pre post : List A) (x : A) (i : ℕ)
    → i ≡ length pre
    → get_elem? (pre ++ x ∷ post) i ≡ some x
get-behind [] post x i h = let e : i ≡ 0 = omega arith in rw e refl
get-behind (p ∷ pre) post x zero h = absurd (omega arith)
get-behind (p ∷ pre) post x (suc i) h = get-behind pre post x i (omega arith)

-- A port is written at the end of those that are there.
pub write-behind :
    (pre post : List ℕ) (x v i : ℕ)
    → i ≡ length pre
    → write (pre ++ x ∷ post) i v ≡ some (pre ++ v ∷ post)
unfolding write
write-behind pre post x v i h =
    let size = length-append pre (x ∷ post) in
    let inside : ltb i (length (pre ++ x ∷ post)) ≡ true = ground arith in
    rw (inside, set-behind pre post x v i h) refl

-- A list of two or more has its ends.
ends :
    (xs : List ℕ)
    → 2 ≤ length xs
    → (a : ℕ) × (mid : List ℕ) × (z : ℕ) × (xs ≡ a ∷ (mid ++ z ∷ []))
      × (length xs ≡ suc (suc (length mid)))
ends [] h = absurd (omega arith)
ends (a ∷ []) h = absurd (omega arith)
ends (a ∷ z ∷ []) h = (a, [], z, refl, refl)
ends (a ∷ b ∷ c ∷ xs) h =
    let (b', mid, z, e, n) = ends (b ∷ c ∷ xs) (omega arith) in
    (a, b' ∷ mid, z, ap (λ l. a ∷ l) e, omega (arith, n))

reverse-ends :
    (a z : ℕ) (mid : List ℕ) → reverse (a ∷ (mid ++ z ∷ [])) ≡ z ∷ (reverse mid ++ a ∷ [])
reverse-ends a z mid =
    reverse-cons a (mid ++ z ∷ []) ∙ ap (λ l. l ++ a ∷ []) (reverse-append mid (z ∷ []))

pub length-reverse : (xs : List ℕ) → length (reverse xs) ≡ length xs
length-reverse [] = refl
length-reverse (x ∷ xs) =
    ap length (reverse-cons x xs)
    ∙ length-append (reverse xs) (x ∷ [])
    ∙ ap (λ n. n + 1) (length-reverse xs)
    ∙ add-one (length xs)

small-reverse : (xs : List ℕ) → length xs / 2 ≡ 0 → reverse xs ≡ xs
small-reverse [] h = refl
small-reverse (x ∷ []) h = refl
small-reverse (x ∷ y ∷ xs) h = absurd (omega arith)

-- The far end of what stands behind `pre`.
module _ (pre mid post : List ℕ) (j : ℕ) (at : j ≡ length pre + 1 + length mid) where
  far_place : (x : ℕ) → j ≡ length (pre ++ x ∷ mid)
  far_place x = omega (arith, length-append pre (x ∷ mid))

  get-far : (x z : ℕ) → get_elem? (pre ++ x ∷ (mid ++ z ∷ post)) j ≡ some z
  get-far x z =
      ap (λ l. get_elem? l j) (sym (append_assoc pre (x ∷ mid) (z ∷ post)))
      ∙ get-behind (pre ++ x ∷ mid) post z j (far_place x)

  write-far :
      (x z v : ℕ) → write (pre ++ x ∷ (mid ++ z ∷ post)) j v ≡ some (pre ++ x ∷ (mid ++ v ∷ post))
  write-far x z v =
      ap (λ l. write l j v) (sym (append_assoc pre (x ∷ mid) (z ∷ post)))
      ∙ write-behind (pre ++ x ∷ mid) post z v j (far_place x)
      ∙ ap some (append_assoc pre (x ∷ mid) (v ∷ post))

-- One round swaps the ends.
swap_ports-round :
    (rounds i depth a z : ℕ) (pre mid post : List ℕ)
    → i ≡ length pre
    → depth - i - 1 ≡ length pre + 1 + length mid
    → swap_ports (suc rounds) i depth (pre ++ a ∷ (mid ++ z ∷ post))
      ≡ swap_ports rounds (i + 1) depth (pre ++ z ∷ (mid ++ a ∷ post))
unfolding swap_ports
swap_ports-round rounds i depth a z pre mid post near far =
    rw
      (
        get-behind pre (mid ++ z ∷ post) a i near,
        get-far pre mid post (depth - i - 1) far a z,
        write-behind pre (mid ++ z ∷ post) a z i near,
        write-far pre mid post (depth - i - 1) far z z a,
      )
      refl

-- Between `pre` and `post`, the loop turns the list around.
pub swap_ports-reverse :
    (rounds i depth : ℕ) (pre xs post : List ℕ)
    → i ≡ length pre
    → depth ≡ i + length xs + i
    → rounds ≡ length xs / 2
    → swap_ports rounds i depth (pre ++ (xs ++ post)) ≡ some (pre ++ (reverse xs ++ post))
unfolding swap_ports
swap_ports-reverse zero i depth pre xs post at size half =
    ap (λ l. some (pre ++ (l ++ post))) (sym (small-reverse xs (sym half)))
swap_ports-reverse (suc rounds) i depth pre xs post at size half =
    let (a, mid, z, e, n) = ends xs (omega arith) in
    let ih =
      swap_ports-reverse rounds (i + 1) depth (pre ++ z ∷ []) mid (a ∷ post)
        (omega (arith, length-append pre (z ∷ []))) (omega arith) (omega arith) in
    ap (λ l. swap_ports (suc rounds) i depth (pre ++ (l ++ post))) e
    ∙ ap (λ l. swap_ports (suc rounds) i depth (pre ++ a ∷ l)) (append_assoc mid (z ∷ []) post)
    ∙ swap_ports-round rounds i depth a z pre mid post at (omega arith)
    ∙ ap (swap_ports rounds (i + 1) depth) (sym (append_assoc pre (z ∷ []) (mid ++ a ∷ post)))
    ∙ ih
    ∙ ap some (append_assoc pre (z ∷ []) (reverse mid ++ a ∷ post))
    ∙ ap (λ l. some (pre ++ z ∷ l)) (sym (append_assoc (reverse mid) (a ∷ []) post))
    ∙ ap (λ l. some (pre ++ (l ++ post))) (sym (ap reverse e ∙ reverse-ends a z mid))

-- The text of the ports.
abbrev pub dashed : List ℕ → Text
dashed [] = []
dashed (x ∷ xs) = (45 ∷ decimal (x % 256)) ++ dashed xs

pub print_ports-dashed :
    (xs pre post : List ℕ) (i size : ℕ) (buf : Text)
    → i ≡ length pre
    → length xs * 4 < size
    → print_ports (length xs) i size (pre ++ (xs ++ post)) buf ≡ some (buf ++ dashed xs)
unfolding print_ports
print_ports-dashed [] pre post i size buf at room = ap some (sym (append-nil buf))
print_ports-dashed (x ∷ xs) pre post i size buf at room =
    let printed = 45 ∷ decimal (x % 256) in
    let (low, high) = printed-length (x % 256) in
    let fits : (leb 2 (length printed) && ltb (length printed) size) ≡ true = ground arith in
    rw (get-behind pre (xs ++ post) x i at, fits)
      (ap (λ l. print_ports (length xs) (i + 1) (size - length printed) l (buf ++ printed))
          (sym (append_assoc pre (x ∷ []) (xs ++ post)))
        ∙ print_ports-dashed xs (pre ++ x ∷ []) post (i + 1) (size - length printed)
            (buf ++ printed) (omega (arith, length-append pre (x ∷ []))) (omega arith)
        ∙ ap some (append_assoc buf printed (dashed xs)))
