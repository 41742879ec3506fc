-- ===== src/Links/Tests.antt =====
-- The ring of the list at 1 with the elements 2 and 3, and another list at 5 with the element 6.
use libhs.Base.{◌≡◌, refl, true, some, [], ◌∷◌, if◌then◌else◌, ◌==◌, ◌>>=◌}
use libhs.Links.{
  Memory, put_next, put_prev, set_next, set_prev, get_next, get_prev, add, add_tail, remove,
  is_empty, splice_links, splice_internal, splice, init, is_singular, get_first,
}
use libhs.Links.Rings.{IsRing}
use libhs.Links.Remove.{remove-IsRing}
use libhs.Base.{arith}
use libhs.Links.Rings.{Linked}
use libhs.Links.Splice.{splice-IsRing}
use libhs.Links.Insert.{add-IsRing}

abbrev memory : Memory
memory = record {
  next = λ x.
      if x == 1 then 2 else if x == 2 then 3 else if x == 3 then 1 else if x == 5 then 6 else 5;
  prev = λ x.
      if x == 1 then 3 else if x == 2 then 1 else if x == 3 then 2 else if x == 5 then 6 else 5;
}

memory-IsRing : IsRing memory 1 (2 ∷ 3 ∷ [])
memory-IsRing = record {
  linked = (refl, refl, (refl, refl, (refl, refl)));
  nodup = (refl, (refl, (refl, tt)));
  nonnull = refl;
}

remove-IsRing_example :
    (m' : Memory) × (remove memory 3 ≡ some m')
    × IsRing m' 1 (2 ∷ [])
    × (m'.next 3 ≡ 0)
    × (m'.prev 3 ≡ 0)
remove-IsRing_example = remove-IsRing memory 1 (2 ∷ []) 3 [] memory-IsRing

add-IsRing_example :
    ((m' : Memory) × (add memory 1 9 ≡ some m') × IsRing m' 1 (9 ∷ 2 ∷ 3 ∷ []))
    × ((m' : Memory) × (add_tail memory 1 9 ≡ some m') × IsRing m' 1 (2 ∷ 3 ∷ 9 ∷ []))
add-IsRing_example = add-IsRing memory 1 (2 ∷ 3 ∷ []) 9 memory-IsRing refl refl

other-IsRing : IsRing memory 5 (6 ∷ [])
other-IsRing = record {
  linked = (refl, refl, (refl, refl));
  nodup = (refl, (refl, tt));
  nonnull = refl;
}

splice-IsRing_example :
    (m' : Memory) × (splice memory 1 5 ≡ some m')
    × Linked m' 1 (6 ∷ 2 ∷ 3 ∷ []) 1
    × Linked m' 5 [] 5
splice-IsRing_example =
    splice-IsRing memory 1 (2 ∷ 3 ∷ []) 5 6 [] memory-IsRing other-IsRing (λ z on. ground arith)

-- The links of both lists behind a splice.
spliced_test :
    (splice memory 1 5 >>= λ m. some (m.next 1 ∷ m.next 6 ∷ m.prev 2 ∷ m.prev 6 ∷ m.next 5 ∷ []))
    ≡ some (6 ∷ 2 ∷ 6 ∷ 1 ∷ 5 ∷ [])
unfolding splice splice_internal splice_links is_empty init get_next get_prev set_next set_prev
    put_next put_prev
spliced_test = refl

emptied_test : (init memory 5 >>= λ m. is_empty m 5) ≡ some true
unfolding init is_empty get_next set_next set_prev put_next put_prev
emptied_test = refl

singular_test : is_singular memory 5 ≡ some true
unfolding is_singular get_next get_prev
singular_test = refl

first_test : get_first memory 1 ≡ some 2
unfolding get_first get_next
first_test = refl
