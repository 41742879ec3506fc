-- ===== src/Htable.antt =====
-- src/htable.h and src/htable.c: the hash table of intrusive nodes. Each cell of `heads` starts a
-- ring: its `next` leads through the nodes of the bucket and back to the cell. A cell is used as a
-- node by its first field, so both are addresses of the type `Ptr`. A read through NULL, and `% 0`,
-- is a `none`; the two loops take fuel, and are `none` where it runs out.
pub mod Rings
pub mod Buckets
pub mod Add
pub mod Remove
pub mod Unlink
pub mod Foreach
use libhs.Base.{
  ℕ, zero, suc, ◌+◌, ◌*◌, ◌%◌, ◌^◌, Bool, true, false, Option, none, some, List, [], ◌∷◌, ◌==◌,
  if◌then◌else◌, ltb, ◌>>=◌, ◌>>◌, assert,
}

-- `slot i` is `&table->heads[i]`, `node n` the `hnode` of the device `n`.
pub data Ptr : Type 0 where
  null : Ptr
  slot : ℕ → Ptr
  node : ℕ → Ptr

abbrev pub ptr_eq : Ptr → Ptr → Bool
ptr_eq null null = true
ptr_eq null (slot b) = false
ptr_eq null (node b) = false
ptr_eq (slot a) null = false
ptr_eq (slot a) (slot b) = a == b
ptr_eq (slot a) (node b) = false
ptr_eq (node a) null = false
ptr_eq (node a) (slot b) = false
ptr_eq (node a) (node b) = a == b

-- `struct _hs_htable` with the memory that it reaches: the `next` field of cells and nodes, and the
-- `key` field of nodes.
pub record Htable : Type 0 where
  pub size : ℕ
  pub next : Ptr → Ptr
  pub key : ℕ → ℕ

-- The field `next` of one address is written.
unfoldable pub write : (Ptr → Ptr) → Ptr → Ptr → Ptr → Ptr
write next p q a = if ptr_eq a p then q else next a

write_key : (ℕ → ℕ) → ℕ → ℕ → ℕ → ℕ
write_key key n k a = if a == n then k else key a

-- `p->next`
unfoldable pub load : (Ptr → Ptr) → Ptr → Option Ptr
load next null = none
load next (slot i) = some (next (slot i))
load next (node n) = some (next (node n))

-- `_hs_htable_hash_str`, on the bytes before the terminator.
hash_loop : ℕ → List ℕ → ℕ
hash_loop hash [] = hash
hash_loop hash (c ∷ s) = hash_loop ((hash * 101 + c) % 2 ^ 32) s

unfoldable pub hash_str : List ℕ → ℕ
unfolding hash_loop
hash_str s = hash_loop 0 s

unfoldable pub get_head : Htable → ℕ → Option Ptr
get_head t key = if t.size == 0 then none else some (slot (key % t.size))

-- `for (i = 0; i < size; i++) heads[i] = &heads[i];`
clear_loop : (rounds i : ℕ) → (Ptr → Ptr) → Ptr → Ptr
clear_loop zero i next = next
clear_loop (suc rounds) i next = clear_loop rounds (i + 1) (write next (slot i) (slot i))

pub clear : Htable → Htable
unfolding clear_loop
clear t = record t { next = clear_loop t.size 0 t.next }

-- `allocated` says whether `malloc` succeeds; a failure is a `none`.
unfoldable pub init : (allocated : Bool) → Htable → (size : ℕ) → Option Htable
unfolding clear
init false t size = none
init true t size = some (clear (record t { size = size }))

pub add : Htable → (key n : ℕ) → Option Htable
unfolding write write_key load
add t key n = do
  head ← get_head t key
  first ← load t.next head
  some (record t {
    key = write_key t.key n key;
    next = write (write t.next (node n) first) head (node n);
  })

-- `_hs_htable_insert`: behind another node.
pub insert : Htable → (prev n : ℕ) → Htable
unfolding write write_key
insert t prev n = record t {
  key = write_key t.key n (t.key prev);
  next = write (write t.next (node n) (t.next (node prev))) (node prev) (node n);
}

-- The loop of `_hs_htable_remove` at `prev`.
pub remove_loop : (fuel : ℕ) → (Ptr → Ptr) → (head prev : Ptr) → Option (Ptr → Ptr)
remove_loop zero next head prev = none
remove_loop (suc fuel) next head prev = if ptr_eq prev head then some next else (do
  after ← load next prev
  let rest = remove_loop fuel next head after
  if ptr_eq after head then some (write (write next prev (next head)) head null) else rest)

pub remove : (fuel : ℕ) → Htable → (n : ℕ) → Option Htable
unfolding remove_loop
remove fuel t n = do
  first ← load t.next (node n)
  next ← remove_loop fuel t.next (node n) first
  some (record t { next = next })
