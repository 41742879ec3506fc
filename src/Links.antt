-- ===== src/Links.antt =====
-- src/list.h: the doubly linked lists, whose links stand inside the elements. An address is a number,
-- and 0 is `NULL`; a dereference of it is a `none`.
pub mod Rings
pub mod Remove
pub mod Insert
pub mod Splice
mod Tests
use libhs.Base.{
  ℕ, Bool, not, Option, none, some, if◌then◌else◌, ◌==◌, ◌>>=◌, ◌>>◌, ◌&&◌, assert, true, false,
}

-- The fields of all `_hs_list_head` in memory.
pub record Memory : Type 0 where
  pub next : ℕ → ℕ
  pub prev : ℕ → ℕ

-- `p->next = a` and `p->prev = a`
unfoldable pub put_next : Memory → (p a : ℕ) → Memory
put_next m p a = record m { next = λ x. if x == p then a else m.next x }

unfoldable pub put_prev : Memory → (p a : ℕ) → Memory
put_prev m p a = record m { prev = λ x. if x == p then a else m.prev x }

unfoldable pub set_next : Memory → (p a : ℕ) → Option Memory
set_next m p a = assert (not (p == 0)) >> some (put_next m p a)

unfoldable pub set_prev : Memory → (p a : ℕ) → Option Memory
set_prev m p a = assert (not (p == 0)) >> some (put_prev m p a)

-- `p->next` and `p->prev`
unfoldable pub get_next : Memory → (p : ℕ) → Option ℕ
get_next m p = assert (not (p == 0)) >> some (m.next p)

unfoldable pub get_prev : Memory → (p : ℕ) → Option ℕ
get_prev m p = assert (not (p == 0)) >> some (m.prev p)

unfoldable pub init : Memory → (list : ℕ) → Option Memory
unfolding set_next set_prev
init m list = do m1 ← set_prev m list list; set_next m1 list list

unfoldable pub insert_internal : Memory → (prev next head : ℕ) → Option Memory
unfolding set_next set_prev
insert_internal m prev next head = do
  m1 ← set_next m prev head
  m2 ← set_prev m1 head prev
  m3 ← set_prev m2 next head
  set_next m3 head next

unfoldable pub add : Memory → (list head : ℕ) → Option Memory
unfolding get_next insert_internal
add m list head = get_next m list >>= λ next. insert_internal m list next head

unfoldable pub add_tail : Memory → (list head : ℕ) → Option Memory
unfolding get_prev insert_internal
add_tail m list head = get_prev m list >>= λ prev. insert_internal m prev list head

-- Each assignment reads `head` again.
unfoldable pub remove : Memory → (head : ℕ) → Option Memory
unfolding get_next get_prev set_next set_prev
remove m head = do
  prev ← get_prev m head
  next ← get_next m head
  m1 ← set_next m prev next
  next' ← get_next m1 head
  prev' ← get_prev m1 head
  m2 ← set_prev m1 next' prev'
  m3 ← set_prev m2 head 0
  set_next m3 head 0

unfoldable pub is_empty : Memory → (head : ℕ) → Option Bool
unfolding get_next
is_empty m head = get_next m head >>= λ next. some (next == head)

unfoldable pub is_singular : Memory → (head : ℕ) → Option Bool
unfolding get_next get_prev
is_singular m head = do
  next ← get_next m head
  prev ← get_prev m head
  some (not (next == head) && (next == prev))

-- `_hs_list_get_first`: the address of the links.
unfoldable pub get_first : Memory → (head : ℕ) → Option ℕ
unfolding get_next
get_first m head = get_next m head >>= λ next. some (if next == head then 0 else next)

-- The assignments of `_hs_list_splice_internal`; each reads `head` again.
unfoldable pub splice_links : Memory → (prev next head : ℕ) → Option Memory
unfolding get_next get_prev set_next set_prev init
splice_links m prev next head = do
  first ← get_next m head
  m1 ← set_prev m first prev
  first' ← get_next m1 head
  m2 ← set_next m1 prev first'
  last ← get_prev m2 head
  m3 ← set_next m2 last next
  last' ← get_prev m3 head
  m4 ← set_prev m3 next last'
  init m4 head

unfoldable pub splice_internal : Memory → (prev next head : ℕ) → Option Memory
unfolding is_empty splice_links
splice_internal m prev next head = is_empty m head >>= λ empty.
    let spliced = splice_links m prev next head in if empty then some m else spliced

unfoldable pub splice : Memory → (list from : ℕ) → Option Memory
unfolding get_next splice_internal
splice m list from = get_next m list >>= λ next. splice_internal m list next from
