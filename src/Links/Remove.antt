-- ===== src/Links/Remove.antt =====
-- `_hs_list_remove` takes an element out of its ring.
use libhs.Base.{
  ℕ, ◌≡◌, refl, true, false, some, List, ◌∷◌, ◌++◌, ◌==◌, arith, elem, Bool-cases, inl, inr,
  ==-refl,
}
use libhs.Htable.Buckets.{Nodup}
use libhs.Links.{Memory, put_next, put_prev, set_next, set_prev, get_next, get_prev, remove}
use libhs.Links.Rings.{
  Linked, IsRing, Linked-split, last, first, Linked-last, join_gap, Linked-end, Linked-start,
  Nodup-append, apart_ne, apart_ne-sym, elem-last, elem-first, elem-without, Nodup-without,
  nonnull-ne, Linked-first, elem-front, elem-back,
}

module _ (m : Memory) (l : ℕ) (xs : List ℕ) (n : ℕ) (ys : List ℕ)
    (r : IsRing m l (xs ++ n ∷ ys)) where
  abbrev before : ℕ
  before = last l xs

  abbrev after : ℕ
  after = first ys l

  abbrev removed : Memory
  removed = put_next (put_prev (put_prev (put_next m before after) after before) n 0) n 0

  parts : Linked m l xs n × Linked m n ys l
  parts = Linked-split m l xs n ys l r.linked

  distinct :
      Nodup (l ∷ xs) × Nodup (n ∷ ys) × ((z : ℕ) → elem z (l ∷ xs) ≡ true → elem z (n ∷ ys) ≡ false)
  distinct = Nodup-append (l ∷ xs) (n ∷ ys) r.nodup

  -- The element is on neither side of the gap that it leaves,
  front-ne : (z : ℕ) → elem z (l ∷ xs) ≡ true → (z == n) ≡ false
  front-ne z on = apart_ne (l ∷ xs) (n ∷ ys) z n distinct.2 on (rw (==-refl n) refl)

  back-ne : (z : ℕ) → elem z (l ∷ ys) ≡ true → (z == n) ≡ false
  back-ne z on = elim (Bool-cases (z == l)) [
    | inl same ↦ let e : z ≡ l = ground arith in rw e (front-ne l (rw (==-refl l) refl))
    | inr differ ↦
        let off = distinct.1.0 in
        elim (Bool-cases (z == n)) [
          | inl same ↦
              let e : z ≡ n = ground arith in
              let on' : elem z ys ≡ true = ground (arith, on) in absurd (cc)
          | inr other ↦ other
        ]
  ]

  -- and the sides have nothing in common.
  sides-ne : (a b : ℕ) → elem a xs ≡ true → elem b (l ∷ ys) ≡ true → (a == b) ≡ false
  sides-ne a b ha hb = elim (Bool-cases (b == l)) [
    | inl same ↦
        let e : b ≡ l = ground arith in
        let off = distinct.0.0 in
        elim (Bool-cases (a == b)) [
          | inl twice ↦ let e' : a ≡ b = ground arith in absurd (cc)
          | inr differ ↦ differ
        ]
    | inr other ↦
        apart_ne (l ∷ xs) (n ∷ ys) a b distinct.2 (ground (arith, ha)) (ground (arith, hb))
  ]

  back-Nodup : Nodup (l ∷ ys)
  back-Nodup = (ground (arith, distinct.2 l (rw (==-refl l) refl)), distinct.1.1)

  before-ne : (before == n) ≡ false
  before-ne = front-ne before (elem-last l xs)

  after-ne : (after == n) ≡ false
  after-ne = back-ne after (elem-first ys l)

  removed-Linked : Linked removed l (xs ++ ys) l
  unfolding put_next put_prev
  removed-Linked =
      join_gap removed l xs ys l
        (Linked-end m removed l xs n after distinct.0 (rw (before-ne, ==-refl before) refl)
          (rw (after-ne, ==-refl after) refl) (λ a on ne. rw (front-ne a on, ne) refl)
          (λ a on. rw (front-ne a (ground (arith, on)), sides-ne a after on (elem-first ys l)) refl)
          parts.0)
        (Linked-start m removed n before ys l back-Nodup (rw (before-ne, ==-refl before) refl)
          (rw (after-ne, ==-refl after) refl)
          (λ a on.
            let off =
              apart_ne-sym (l ∷ xs) (n ∷ ys) before a distinct.2 (elem-last l xs)
                (ground (arith, on)) in
            rw (back-ne a (ground (arith, on)), off) refl)
          (λ a on ne. rw (back-ne a on, ne) refl) parts.1)

  null-ne : (z : ℕ) → elem z ((l ∷ xs) ++ n ∷ ys) ≡ true → (z == 0) ≡ false
  null-ne z on = nonnull-ne ((l ∷ xs) ++ n ∷ ys) z r.nonnull on

  element_null : (n == 0) ≡ false
  element_null = null-ne n (elem-back n (l ∷ xs) (n ∷ ys) (rw (==-refl n) refl))

  before_null : (before == 0) ≡ false
  before_null = null-ne before (elem-front before (l ∷ xs) (n ∷ ys) (elem-last l xs))

  after_null : (after == 0) ≡ false
  after_null = elim (Bool-cases (after == l)) [
    | inl same ↦
        let e : after ≡ l = ground arith in
        rw e (null-ne l (elem-front l (l ∷ xs) (n ∷ ys) (rw (==-refl l) refl)))
    | inr differ ↦
        let on : elem after ys ≡ true = ground (arith, elem-first ys l) in
        null-ne after (elem-back after (l ∷ xs) (n ∷ ys) (rw on (ground arith)))
  ]

  remove-removed : remove m n ≡ some removed
  unfolding remove get_next get_prev set_next set_prev put_next put_prev
  remove-removed =
      let differ : (n == before) ≡ false = ground (arith, before-ne) in
      let back : m.prev n ≡ before = Linked-last m l xs n parts.0 in
      let next : m.next n ≡ after = Linked-first m n ys l parts.1 in
      rw (element_null, back, next, before_null, differ, back, next, after_null) refl

-- Taking an element out of a ring ends without a null dereference, leaves the ring of the others, in
-- their order, and clears the element's links.
pub remove-IsRing :
    (m : Memory) (list : ℕ) (xs : List ℕ) (head : ℕ) (ys : List ℕ)
    → IsRing m list (xs ++ head ∷ ys)
    → (m' : Memory) × (remove m head ≡ some m')
      × IsRing m' list (xs ++ ys)
      × (m'.next head ≡ 0)
      × (m'.prev head ≡ 0)
unfolding put_next put_prev
remove-IsRing m list xs head ys r = (
  removed m list xs head ys r,
  remove-removed m list xs head ys r,
  record {
    linked = removed-Linked m list xs head ys r;
    nodup = Nodup-without (list ∷ xs) head ys r.nodup;
    nonnull = elem-without 0 (list ∷ xs) head ys r.nonnull;
  },
  rw (==-refl head) refl,
  rw (==-refl head) refl,
)
