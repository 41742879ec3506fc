-- ===== src/Links/Insert.antt =====
-- `_hs_list_add` and `_hs_list_add_tail` put an element at one end of a ring.
use mathlib.Core.List.{append-nil}
use libhs.Base.{
  ℕ, ◌≡◌, refl, ap, ◌∙◌, true, false, some, List, [], ◌∷◌, ◌++◌, ◌==◌, arith, elem, Bool-cases, inl,
  inr, ==-refl,
}
use libhs.Htable.Buckets.{Nodup}
use libhs.Links.{
  Memory, put_next, put_prev, set_next, set_prev, get_next, get_prev, insert_internal, add,
  add_tail,
}
use libhs.Links.Rings.{
  Linked, IsRing, Linked-append, last, first, split_gap, Linked-end, Linked-start, Linked-first,
  Linked-last, Nodup-append, apart_ne, apart_ne-sym, elem-last, elem-first, nonnull-ne, elem-front,
  elem-back,
}

elem-with :
    (a : ℕ) (xs : List ℕ) (n : ℕ) (ys : List ℕ)
    → (a == n) ≡ false
    → elem a (xs ++ ys) ≡ false
    → elem a (xs ++ n ∷ ys) ≡ false
elem-with a [] n ys ne h = ground (arith, ne, h)
elem-with a (x ∷ xs) n ys ne h = ground (arith, elem-with a xs n ys ne (ground (arith, h)), h)

Nodup-with :
    (xs : List ℕ) (n : ℕ) (ys : List ℕ)
    → Nodup (xs ++ ys)
    → elem n (xs ++ ys) ≡ false
    → Nodup (xs ++ n ∷ ys)
Nodup-with [] n ys h off = (off, h)
Nodup-with (x ∷ xs) n ys h off =
    (elem-with x xs n ys (ground (arith, off)) h.0, Nodup-with xs n ys h.1 (ground (arith, off)))

module _ (m : Memory) (l : ℕ) (xs : List ℕ) (n : ℕ) (ys : List ℕ) (r : IsRing m l (xs ++ ys))
    (fresh : elem n (l ∷ xs ++ ys) ≡ false) (nonnull : (n == 0) ≡ false) where
  abbrev before : ℕ
  before = last l xs

  abbrev after : ℕ
  after = first ys l

  abbrev inserted : Memory
  inserted = put_next (put_prev (put_prev (put_next m before n) n before) after n) n after

  parts : Linked m l xs after × Linked m before ys l
  parts = split_gap m l xs ys l r.linked

  distinct : Nodup (l ∷ xs) × Nodup ys × ((z : ℕ) → elem z (l ∷ xs) ≡ true → elem z ys ≡ false)
  distinct = Nodup-append (l ∷ xs) ys r.nodup

  fresh-ne : (z : ℕ) → elem z ((l ∷ xs) ++ ys) ≡ true → (z == n) ≡ false
  fresh-ne z on = elim (Bool-cases (z == n)) [
    | inl same ↦ let e : z ≡ n = ground arith in absurd (cc)
    | inr differ ↦ differ
  ]

  front-ne : (z : ℕ) → elem z (l ∷ xs) ≡ true → (z == n) ≡ false
  front-ne z on = fresh-ne z (elem-front z (l ∷ xs) ys on)

  back-ne : (z : ℕ) → elem z (l ∷ ys) ≡ true → (z == n) ≡ false
  back-ne z on = elim (Bool-cases (z == l)) [
    | inl same ↦ let e : z ≡ l = ground arith in rw e (front-ne l (rw (==-refl l) refl))
    | inr differ ↦ fresh-ne z (elem-back z (l ∷ xs) ys (ground (arith, on)))
  ]

  sides-ne : (a b : ℕ) → elem a xs ≡ true → elem b (l ∷ ys) ≡ true → (a == b) ≡ false
  sides-ne a b ha hb = elim (Bool-cases (b == l)) [
    | inl same ↦
        let e : b ≡ l = ground arith in
        let off = distinct.0.0 in
        elim (Bool-cases (a == b)) [
          | inl twice ↦ let e' : a ≡ b = ground arith in absurd (cc)
          | inr differ ↦ differ
        ]
    | inr other ↦ apart_ne (l ∷ xs) ys a b distinct.2 (ground (arith, ha)) (ground (arith, hb))
  ]

  back-Nodup : Nodup (l ∷ ys)
  back-Nodup = (distinct.2 l (rw (==-refl l) refl), distinct.1)

  before-ne : (before == n) ≡ false
  before-ne = front-ne before (elem-last l xs)

  after-ne : (n == after) ≡ false
  after-ne = ground (arith, back-ne after (elem-first ys l))

  inserted-Linked : Linked inserted l (xs ++ n ∷ ys) l
  unfolding put_next put_prev
  inserted-Linked =
      Linked-append inserted l xs n ys l
        (Linked-end m inserted l xs after n distinct.0 (rw (before-ne, ==-refl before) refl)
          (rw (after-ne, ==-refl n) refl) (λ a on ne. rw (front-ne a on, ne) refl)
          (λ a on. rw (sides-ne a after on (elem-first ys l), front-ne a (ground (arith, on))) refl)
          parts.0)
        (Linked-start m inserted before n ys l back-Nodup (rw (==-refl n) refl)
          (rw (==-refl after) refl)
          (λ a on.
            let off = apart_ne-sym (l ∷ xs) ys before a distinct.2 (elem-last l xs) on in
            rw (back-ne a (ground (arith, on)), off) refl)
          (λ a on ne. rw (ne, back-ne a on) refl) parts.1)

  null-ne : (z : ℕ) → elem z ((l ∷ xs) ++ ys) ≡ true → (z == 0) ≡ false
  null-ne z on = nonnull-ne ((l ∷ xs) ++ ys) z r.nonnull on

  before_null : (before == 0) ≡ false
  before_null = null-ne before (elem-front before (l ∷ xs) ys (elem-last l xs))

  after_null : (after == 0) ≡ false
  after_null = elim (Bool-cases (after == l)) [
    | inl same ↦
        let e : after ≡ l = ground arith in
        rw e (null-ne l (elem-front l (l ∷ xs) ys (rw (==-refl l) refl)))
    | inr differ ↦ null-ne after (elem-back after (l ∷ xs) ys (ground (arith, elem-first ys l)))
  ]

  insert_internal-inserted : insert_internal m before after n ≡ some inserted
  unfolding insert_internal set_next set_prev
  insert_internal-inserted = rw (before_null, nonnull, after_null) refl

  inserted-IsRing : IsRing inserted l (xs ++ n ∷ ys)
  inserted-IsRing = record {
    linked = inserted-Linked;
    nodup = Nodup-with (l ∷ xs) n ys r.nodup fresh;
    nonnull = elem-with 0 (l ∷ xs) n ys (ground (arith, nonnull)) r.nonnull;
  }

add-insert :
    (m : Memory) (list head : ℕ)
    → (list == 0) ≡ false
    → add m list head ≡ insert_internal m list (m.next list) head
unfolding add get_next
add-insert m list head h = rw h refl

add_tail-insert :
    (m : Memory) (list head : ℕ)
    → (list == 0) ≡ false
    → add_tail m list head ≡ insert_internal m (m.prev list) list head
unfolding add_tail get_prev
add_tail-insert m list head h = rw h refl

-- An element that is in no place of a ring, and not `NULL`, comes first behind `_hs_list_add`, and
-- last behind `_hs_list_add_tail`; the others keep their order, and there is no null dereference.
pub add-IsRing :
    (m : Memory) (list : ℕ) (xs : List ℕ) (head : ℕ)
    → IsRing m list xs
    → elem head (list ∷ xs) ≡ false
    → (head == 0) ≡ false
    → ((m' : Memory) × (add m list head ≡ some m') × IsRing m' list (head ∷ xs))
      × ((m' : Memory) × (add_tail m list head ≡ some m') × IsRing m' list (xs ++ head ∷ []))
add-IsRing m list xs head r fresh nonnull =
    let list_null : (list == 0) ≡ false =
      nonnull-ne (list ∷ xs) list r.nonnull (rw (==-refl list) refl) in
    let next : m.next list ≡ first xs list = Linked-first m list xs list r.linked in
    let prev : m.prev list ≡ last list xs = Linked-last m list xs list r.linked in
    let r' : IsRing m list (xs ++ []) = rw (append-nil xs) r in
    let fresh' : elem head (list ∷ xs ++ []) ≡ false = rw (append-nil xs) fresh in
    (
      (
        inserted m list [] head xs r fresh nonnull,
        add-insert m list head list_null
            ∙ ap (λ x. insert_internal m list x head) next
            ∙ insert_internal-inserted m list [] head xs r fresh nonnull,
        inserted-IsRing m list [] head xs r fresh nonnull,
      ),
      (
        inserted m list xs head [] r' fresh' nonnull,
        add_tail-insert m list head list_null
            ∙ ap (λ x. insert_internal m x list head) prev
            ∙ insert_internal-inserted m list xs head [] r' fresh' nonnull,
        inserted-IsRing m list xs head [] r' fresh' nonnull,
      ),
    )
