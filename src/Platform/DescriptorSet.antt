-- ===== src/Platform/DescriptorSet.antt =====
-- `struct hs_descriptor_set` of include/hs/platform.h and its operations of src/platform.c. The two
-- arrays are lists of 64 ints. A failed `assert` is a `none`.
pub mod Entries
use libhs.Base.{
  ℕ, zero, suc, ◌+◌, Bool, not, Option, some, List, ℤ, is_neg, int_eq, pos, if◌then◌else◌, ltb,
  ◌>>=◌, ◌>>◌, assert, get_or, set,
}

abbrev pub capacity : ℕ
capacity = 64

pub record DescriptorSet : Type 0 where
  pub count : ℕ
  pub desc : List ℤ
  pub id : List ℤ

pub clear : DescriptorSet → DescriptorSet
clear s = record s { count = 0 }

pub add : DescriptorSet → (desc id : ℤ) → Option DescriptorSet
add s desc id = do
  assert (ltb s.count capacity)
  assert (not (is_neg desc))
  some (record s { count = s.count + 1; desc = set s.desc s.count desc; id = set s.id s.count id })

-- The loop at index `i`, with the rounds left and the entries kept so far.
remove_loop : (rounds i count : ℕ) → DescriptorSet → ℤ → DescriptorSet
remove_loop zero i count s id = record s { count = count }
remove_loop (suc rounds) i count s id =
    let keep = not (int_eq (get_or s.id i (pos 0)) id) in
    remove_loop rounds (i + 1) (if keep then count + 1 else count)
      (if keep
        then record s {
          desc = set s.desc count (get_or s.desc i (pos 0));
          id = set s.id count (get_or s.id i (pos 0));
        }
        else s)
      id

pub remove : DescriptorSet → ℤ → DescriptorSet
unfolding remove_loop
remove s id = remove_loop s.count 0 0 s id
