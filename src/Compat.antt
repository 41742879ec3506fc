-- ===== src/Compat.antt =====
-- src/compat.c: `strrpbrk`, on the bytes before the terminators. A pointer into the string is its
-- index, NULL a `none`.
pub mod Last
use libhs.Base.{ℕ, zero, suc, Bool, Option, none, some, List, if◌then◌else◌, get_or, elem, length}

-- `while (--s >= start)`, with the index of `s` before the test.
unfoldable pub strrpbrk_loop : ℕ → (s accept : List ℕ) → Option ℕ
strrpbrk_loop zero s accept = none
strrpbrk_loop (suc i) s accept =
    if elem (get_or s i 0) accept then some i else strrpbrk_loop i s accept

unfoldable pub strrpbrk : (s accept : List ℕ) → Option ℕ
unfolding strrpbrk_loop
strrpbrk s accept = strrpbrk_loop (length s) s accept
