-- ===== src/Platform/DescriptorSet/Entries.antt =====
-- A descriptor set stands for the list of its entries: `add` appends, `remove` filters.
use libhs.Base.{
  ℕ, zero, suc, ◌+◌, ◌≤◌, ◌<◌, ◌≡◌, refl, ap, sym, ◌∙◌, ◌⊎◌, inl, inr, Bool, true, false, not, some,
  List, [], ◌∷◌, ◌++◌, none, ℤ, is_neg, int_eq, pos, ltb, get_or, set, length, zero-add, add-one,
  length-set, get_or-set_self, get_or-set_ne, filter, arith, Bool-cases,
}
use mathlib.Core.List.{append_assoc, append-nil}
use libhs.Platform.DescriptorSet.{DescriptorSet, capacity, add, remove, remove_loop}

pub record IsValid (s : DescriptorSet) : Type 0 where
  pub desc : length s.desc ≡ capacity
  pub id : length s.id ≡ capacity
  pub count : s.count ≤ capacity

-- The descriptors and values of `rounds` cells from index `i`.
abbrev pub slots : (rounds i : ℕ) → (desc id : List ℤ) → List (ℤ × ℤ)
slots zero i desc id = []
slots (suc rounds) i desc id =
    (get_or desc i (pos 0), get_or id i (pos 0)) ∷ slots rounds (i + 1) desc id

abbrev pub entries : DescriptorSet → List (ℤ × ℤ)
entries s = slots s.count 0 s.desc s.id

slots-suc :
    (k i : ℕ) (desc id : List ℤ)
    → slots (suc k) i desc id
      ≡ slots k i desc id ++ (get_or desc (i + k) (pos 0), get_or id (i + k) (pos 0)) ∷ []
slots-suc zero i desc id = let e : i + 0 ≡ i = omega arith in rw e
slots-suc (suc k) i desc id =
    let e : i + 1 + k ≡ i + suc k = omega arith in
    ap (λ l. (get_or desc i (pos 0), get_or id i (pos 0)) ∷ l) (slots-suc k (i + 1) desc id ∙ rw e)

-- A write outside the range changes none of its cells.
slots-set :
    (k i j : ℕ) (desc id : List ℤ) (d v : ℤ)
    → (j < i) ⊎ (i + k ≤ j)
    → slots k i (set desc j d) (set id j v) ≡ slots k i desc id
slots-set zero i j desc id d v h = refl
slots-set (suc k) i j desc id d v h = rw (
  get_or-set_ne desc {i = j} {j = i} d (pos 0) (omega arith),
  get_or-set_ne id {i = j} {j = i} v (pos 0) (omega arith),
  slots-set k (i + 1) j desc id d v (omega arith),
)

-- One more entry, written behind `c` entries.
slots-push :
    (c : ℕ) (desc id : List ℤ) (d v : ℤ)
    → c < length desc
    → c < length id
    → slots (c + 1) 0 (set desc c d) (set id c v) ≡ slots c 0 desc id ++ (d, v) ∷ []
slots-push c desc id d v hd hi = rw (
  add-one,
  slots-suc c 0 (set desc c d) (set id c v),
  zero-add,
  slots-set c 0 c desc id d v (inr (omega arith)),
  get_or-set_self desc c d (pos 0) hd,
  get_or-set_self id c v (pos 0) hi,
)

-- The entry has another value than `id`.
abbrev pub other : ℤ → ℤ × ℤ → Bool
other id (d, v) = not (int_eq v id)

remove_loop-entries :
    (rounds i count : ℕ) (s : DescriptorSet) (id : ℤ)
    → i + rounds ≤ length s.desc
    → i + rounds ≤ length s.id
    → count ≤ i
    → entries (remove_loop rounds i count s id)
      ≡ slots count 0 s.desc s.id ++ filter (other id) (slots rounds i s.desc s.id)
unfolding remove_loop
remove_loop-entries zero i count s id hd hi le = sym (append-nil _)
remove_loop-entries (suc rounds) i count s id hd hi le =
    let d = get_or s.desc i (pos 0) in
    let v = get_or s.id i (pos 0) in
    elim (Bool-cases (not (int_eq (get_or s.id i (pos 0)) id))) [
      | inl keep ↦ rw (
        keep,
        remove_loop,
        remove_loop-entries rounds (i + 1) (count + 1)
            (record s { desc = set s.desc count d; id = set s.id count v }) id
            (rw length-set (omega arith)) (rw length-set (omega arith)) (omega arith),
        slots-push count s.desc s.id d v (omega arith) (omega arith),
        slots-set rounds (i + 1) count s.desc s.id d v (inl (omega arith)),
        append_assoc,
      )
      | inr drop ↦ rw (
        drop,
        remove_loop,
        remove_loop-entries rounds (i + 1) count s id (omega arith) (omega arith) (omega arith),
      )
    ]

remove_loop-IsValid :
    (rounds i count : ℕ) (s : DescriptorSet) (id : ℤ)
    → length s.desc ≡ capacity
    → length s.id ≡ capacity
    → count ≤ i
    → i + rounds ≤ capacity
    → IsValid (remove_loop rounds i count s id)
unfolding remove_loop
remove_loop-IsValid zero i count s id hd hi le fit = ground arith
remove_loop-IsValid (suc rounds) i count s id hd hi le fit =
    let d = get_or s.desc i (pos 0) in
    let v = get_or s.id i (pos 0) in
    elim (Bool-cases (not (int_eq (get_or s.id i (pos 0)) id))) [
      | inl keep ↦ rw keep (
          remove_loop-IsValid rounds (i + 1) (count + 1)
            (record s { desc = set s.desc count d; id = set s.id count v }) id
            (length-set s.desc count d ∙ hd) (length-set s.id count v ∙ hi) (omega arith)
            (omega arith))
      | inr drop ↦
          rw drop (remove_loop-IsValid rounds (i + 1) count s id hd hi (omega arith) (omega arith))
    ]

-- The compaction in place keeps the set valid, drops every entry with the value and keeps the
-- others in their order.
pub remove-filter :
    (s : DescriptorSet) (id : ℤ)
    → IsValid s
    → IsValid (remove s id) × (entries (remove s id) ≡ filter (other id) (entries s))
unfolding remove
remove-filter s id v = (
  remove_loop-IsValid s.count 0 0 s id v.desc v.id (omega arith) (omega arith),
  remove_loop-entries s.count 0 0 s id (omega (arith, v.desc)) (omega (arith, v.id)) (omega arith),
)

-- On a valid set that is not full and a descriptor that is not negative, `add` succeeds, keeps the
-- set valid and appends one entry. On a full set, or for a negative descriptor, it fails its
-- assertion.
pub add-append :
    (s : DescriptorSet) (desc id : ℤ)
    → IsValid s
    → ((s.count < capacity)
        × (is_neg desc ≡ false)
        × (t : DescriptorSet) × (add s desc id ≡ some t)
        × IsValid t
        × (entries t ≡ entries s ++ (desc, id) ∷ []))
      ⊎ (((s.count ≡ capacity) ⊎ (is_neg desc ≡ true)) × (add s desc id ≡ none))
unfolding add
add-append s desc id v = elim (Bool-cases (ltb s.count capacity)) [
  | inl room ↦ elim (Bool-cases (is_neg desc)) [
    | inl neg ↦ inr (inr neg, rw (room, neg))
    | inr nonneg ↦ inl (
      ground arith,
      nonneg,
      record { count = s.count + 1; desc = set s.desc s.count desc; id = set s.id s.count id },
      rw (room, nonneg),
      record {
        desc = length-set s.desc s.count desc ∙ v.desc;
        id = length-set s.id s.count id ∙ v.id;
        count = ground arith;
      },
      slots-push s.count s.desc s.id desc id (ground arith) (ground arith),
    )
  ]
  | inr full ↦ inr (inl (ground arith), rw full)
]
