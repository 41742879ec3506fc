-- ===== src/Htable/Remove.antt =====
-- `_hs_htable_remove` takes one node out of its ring.
use libhs.Base.{
  ℕ, zero, suc, ◌<◌, ◌≡◌, refl, ◌∙◌, true, false, some, List, [], ◌∷◌, ◌++◌, arith, length,
}
use libhs.Htable.{Ptr, null, slot, node, ptr_eq, write, load, remove_loop}
use libhs.Htable.Rings
use libhs.Htable.Rings.{
  has, Distinct, Leads, last, ptr_eq_refl, eq_of_ptr_eq, has-last, has-append, ptr_eq-sym, off_path,
  write_self, write-ne, write_twice-ne,
}

-- No address of the list is NULL.
abbrev pub NoNull : List Ptr → Type 0
NoNull xs = has null xs ≡ false

load-ok : (next : Ptr → Ptr) (p : Ptr) → ptr_eq null p ≡ false → load next p ≡ some (next p)
unfolding load
load-ok next null h = ground arith
load-ok next (slot i) h = refl
load-ok next (node n) h = refl

out_of : (a x : Ptr) (xs : List Ptr) → has a (x ∷ xs) ≡ false → ptr_eq a x ≡ false
out_of a x xs h = ground arith

in_rest : (a x : Ptr) (xs : List Ptr) → has a (x ∷ xs) ≡ false → has a xs ≡ false
in_rest a x xs h = ground arith

pub before :
    (a : Ptr) (xs : List Ptr) (m : Ptr) (ys : List Ptr)
    → has a (xs ++ m ∷ ys) ≡ false
    → has a xs ≡ false
before a xs m ys h = ground (arith, has-append a xs (m ∷ ys))

pub at : (m : Ptr) (xs ys : List Ptr) → has m (xs ++ m ∷ ys) ≡ true
at m xs ys = rw (has-append m xs (m ∷ ys), ptr_eq_refl m) (ground arith)

-- From `p`, which is not `head`, the path over `xs` comes to `head`: the loop unlinks `head` behind
-- the last address before it.
pub remove_loop-last :
    (fuel : ℕ) (next : Ptr → Ptr) (head p : Ptr) (xs : List Ptr)
    → length xs < fuel
    → Leads next p xs head
    → has head (p ∷ xs) ≡ false
    → NoNull (p ∷ xs)
    → remove_loop fuel next head p ≡ some (write (write next (last p xs) (next head)) head null)
unfolding remove_loop
remove_loop-last zero next head p xs fuel path out live = absurd (omega arith)
remove_loop-last (suc fuel) next head p [] h path out live = rw (
  ptr_eq-sym p head,
  out_of head p [] out,
  load-ok next p (out_of null p [] live),
  path,
  ptr_eq_refl head,
)
remove_loop-last (suc fuel) next head p (x ∷ xs) h path out live =
    rw
      (
        ptr_eq-sym p head,
        out_of head p (x ∷ xs) out,
        load-ok next p (out_of null p (x ∷ xs) live),
        path.0,
        ptr_eq-sym x head,
        out_of head x xs (in_rest head p (x ∷ xs) out),
      )
      (remove_loop-last fuel next head x xs (omega arith) path.1 (in_rest head p (x ∷ xs) out)
        (in_rest null p (x ∷ xs) live))

-- What the unlinking leaves.
pub unlinked :
    (next : Ptr → Ptr) (p : Ptr) (xs : List Ptr) (m : Ptr) (ys : List Ptr) (q : Ptr)
    → Leads next p xs m
    → Leads next m ys q
    → Distinct (p ∷ xs ++ m ∷ ys)
    → Leads (write (write next (last p xs) (next m)) m null) p (xs ++ ys) q
unlinked next p [] m ys q front back apart =
    Rings.move next _ m p ys q
      (write-ne (write next p (next m)) m null p (out_of p m ys apart.0)
        ∙ write_self next p (next m))
      (λ a on.
        write_twice-ne next p (next m) m null a (off_path p a ys (in_rest p m ys apart.0) on)
          (off_path m a ys apart.1.0 on))
      back
unlinked next p (x ∷ xs) m ys q front back apart = (
  write_twice-ne next (last x xs) (next m) m null p
        (ptr_eq-sym p (last x xs)
          ∙ off_path p (last x xs) (x ∷ xs) (before p (x ∷ xs) m ys apart.0) (has-last x xs))
        (ptr_eq-sym p m ∙ off_path p m (x ∷ xs ++ m ∷ ys) apart.0 (at m (x ∷ xs) ys))
      ∙ front.0,
  unlinked next x xs m ys q front.1 back apart.1,
)
