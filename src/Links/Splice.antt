-- ===== src/Links/Splice.antt =====
-- `_hs_list_splice` moves the elements of one ring to the front of another.
use libhs.Base.{
  ℕ, ◌≡◌, refl, true, false, some, List, [], ◌∷◌, ◌++◌, ◌==◌, arith, elem, Bool-cases, inl, inr,
  ==-refl,
}
use libhs.Links.{
  Memory, put_next, put_prev, set_next, set_prev, get_next, get_prev, init, is_empty, splice_links,
  splice_internal, splice,
}
use libhs.Links.Rings.{
  Linked, IsRing, last, first, join_gap, Linked-end, Linked-start, Linked-first, Linked-last,
  apart_ne, apart_ne-sym, elem-last, elem-first, nonnull-ne,
}

module _ (m : Memory) (l : ℕ) (ys : List ℕ) (f x : ℕ) (xs : List ℕ) (r : IsRing m l ys)
    (s : IsRing m f (x ∷ xs))
    (apart : (z : ℕ) → elem z (l ∷ ys) ≡ true → elem z (f ∷ x ∷ xs) ≡ false) where
  abbrev end : ℕ
  end = last x xs

  abbrev after : ℕ
  after = first ys l

  abbrev spliced : Memory
  spliced =
      put_next
        (put_prev (put_prev (put_next (put_next (put_prev m x l) l x) end after) after end) f f) f f

  -- No address of one ring is in the other.
  ring-ne : (a b : ℕ) → elem a (l ∷ ys) ≡ true → elem b (f ∷ x ∷ xs) ≡ true → (a == b) ≡ false
  ring-ne a b ha hb = apart_ne (l ∷ ys) (f ∷ x ∷ xs) a b apart ha hb

  from-ne : (a b : ℕ) → elem a (f ∷ x ∷ xs) ≡ true → elem b (l ∷ ys) ≡ true → (a == b) ≡ false
  from-ne a b ha hb = apart_ne-sym (l ∷ ys) (f ∷ x ∷ xs) b a apart hb ha

  head-ne : (z : ℕ) → elem z (x ∷ xs) ≡ true → (z == f) ≡ false
  head-ne z on = elim (Bool-cases (z == f)) [
    | inl same ↦ let e : z ≡ f = ground arith in let off = s.nodup.0 in absurd (cc)
    | inr differ ↦ differ
  ]

  first-ne : (z : ℕ) → elem z xs ≡ true → (z == x) ≡ false
  first-ne z on = elim (Bool-cases (z == x)) [
    | inl same ↦ let e : z ≡ x = ground arith in let off = s.nodup.1.0 in absurd (cc)
    | inr differ ↦ differ
  ]

  list-ne : (z : ℕ) → elem z ys ≡ true → (z == l) ≡ false
  list-ne z on = elim (Bool-cases (z == l)) [
    | inl same ↦ let e : z ≡ l = ground arith in let off = r.nodup.0 in absurd (cc)
    | inr differ ↦ differ
  ]

  list_on : elem l (l ∷ ys) ≡ true
  list_on = rw (==-refl l) refl

  from_on : elem f (f ∷ x ∷ xs) ≡ true
  from_on = rw (==-refl f) refl

  first_on : elem x (f ∷ x ∷ xs) ≡ true
  first_on = ground (arith, ==-refl x)

  end_on : elem end (f ∷ x ∷ xs) ≡ true
  end_on = ground (arith, elem-last x xs)

  after_on : elem after (l ∷ ys) ≡ true
  after_on = elem-first ys l

  spliced-Linked : Linked spliced l ((x ∷ xs) ++ ys) l
  unfolding put_next put_prev
  spliced-Linked =
      join_gap spliced l (x ∷ xs) ys l
        (
          rw (ring-ne l f list_on from_on, ring-ne l end list_on end_on, ==-refl l) refl,
          rw (head-ne x (rw (==-refl x) refl), from-ne x after first_on after_on, ==-refl x) refl,
          Linked-end m spliced x xs f after s.nodup.1
              (rw (head-ne end (elem-last x xs), ==-refl end) refl)
              (rw (ring-ne after f after_on from_on, ==-refl after) refl)
              (λ a on ne. rw (head-ne a on, ne, from-ne a l (ground (arith, on)) list_on) refl)
              (λ a on.
                rw
                  (
                    head-ne a (ground (arith, on)),
                    from-ne a after (ground (arith, on)) after_on,
                    first-ne a on,
                  )
                  refl)
              s.linked.2,
        )
        (Linked-start m spliced l end ys l r.nodup
          (rw (head-ne end (elem-last x xs), ==-refl end) refl)
          (rw (ring-ne after f after_on from_on, ==-refl after) refl)
          (λ a on.
            rw
              (
                ring-ne a f (ground (arith, on)) from_on,
                ring-ne a end (ground (arith, on)) end_on,
                list-ne a on,
              )
              refl)
          (λ a on ne. rw (ring-ne a f on from_on, ne, ring-ne a x on first_on) refl) r.linked)

  splice-spliced : splice m l f ≡ some spliced
  unfolding splice splice_internal splice_links is_empty init get_next get_prev set_next set_prev
      put_next put_prev
  splice-spliced =
      let at_first = head-ne x (rw (==-refl x) refl) in
      let behind : (f == x) ≡ false = ground (arith, at_first) in
      let next : m.next l ≡ after = Linked-first m l ys l r.linked in
      let start : m.next f ≡ x = s.linked.0 in
      let back : m.prev f ≡ end = Linked-last m f (x ∷ xs) f s.linked in
      let list_null = nonnull-ne (l ∷ ys) l r.nonnull list_on in
      let from_null = nonnull-ne (f ∷ x ∷ xs) f s.nonnull from_on in
      let first_null = nonnull-ne (f ∷ x ∷ xs) x s.nonnull first_on in
      let end_null = nonnull-ne (f ∷ x ∷ xs) end s.nonnull end_on in
      let after_null = nonnull-ne (l ∷ ys) after r.nonnull after_on in
      rw
        (
          list_null, next, from_null, start, at_first, first_null, behind, back, end_null,
          after_null, put_next, put_prev, start, behind, back,
        )
        refl

-- Splicing a ring with elements into another one, with which it shares no address, ends without a
-- null dereference: its elements come first, in their order, and its head is left with none.
pub splice-IsRing :
    (m : Memory) (list : ℕ) (ys : List ℕ) (from x : ℕ) (xs : List ℕ)
    → IsRing m list ys
    → IsRing m from (x ∷ xs)
    → ((z : ℕ) → elem z (list ∷ ys) ≡ true → elem z (from ∷ x ∷ xs) ≡ false)
    → (m' : Memory) × (splice m list from ≡ some m')
      × Linked m' list ((x ∷ xs) ++ ys) list
      × Linked m' from [] from
unfolding put_next put_prev
splice-IsRing m list ys from x xs r s apart = (
  spliced m list ys from x xs r s apart,
  splice-spliced m list ys from x xs r s apart,
  spliced-Linked m list ys from x xs r s apart,
  (rw (==-refl from) refl, rw (==-refl from) refl),
)
