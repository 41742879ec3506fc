-- ===== src/Compat/Last.antt =====
-- `strrpbrk` finds the last byte that it accepts.
use libhs.Base.{
  ℕ, zero, suc, ◌≤◌, ◌≡◌, refl, subst, ap, sym, ◌∙◌, true, false, Option, none, some, List, [], ◌∷◌,
  ◌++◌, get_or, elem, length, take, take-all, take-suc, All, Bool-cases, inl, inr, arith,
  length-take,
}
use mathlib.Core.List.{append_assoc}
use libhs.Compat.{strrpbrk_loop, strrpbrk}

-- No byte of the string is accepted, or the one at the index is and none behind it.
abbrev pub Finds : (s accept : List ℕ) → Option ℕ → Type 0
Finds s accept none = All (λ c. elem c accept ≡ false) s
Finds s accept (some i) =
    (before : List ℕ) × (c : ℕ) × (after : List ℕ) × (s ≡ before ++ c ∷ after)
    × (length before ≡ i)
    × (elem c accept ≡ true)
    × All (λ x. elem x accept ≡ false) after

All-snoc :
    (accept xs : List ℕ) (c : ℕ)
    → All (λ x. elem x accept ≡ false) xs
    → elem c accept ≡ false
    → All (λ x. elem x accept ≡ false) (xs ++ c ∷ [])
All-snoc accept [] c all e = (e, tt)
All-snoc accept (x ∷ xs) c all e = (all.0, All-snoc accept xs c all.1 e)

Finds-snoc :
    (s accept : List ℕ) (c : ℕ) (found : Option ℕ)
    → Finds s accept found
    → elem c accept ≡ false
    → Finds (s ++ c ∷ []) accept found
Finds-snoc s accept c none all e = All-snoc accept s c all e
Finds-snoc s accept c (some i) (before, d, after, parts, index, hit, miss) e = (
  before,
  d,
  after ++ c ∷ [],
  ap (λ l. l ++ c ∷ []) parts ∙ append_assoc before (d ∷ after) (c ∷ []),
  index,
  hit,
  All-snoc accept after c miss e,
)

strrpbrk_loop-Finds :
    (n : ℕ) (s accept : List ℕ) → n ≤ length s → Finds (take n s) accept (strrpbrk_loop n s accept)
unfolding strrpbrk_loop
strrpbrk_loop-Finds zero s accept h = tt
strrpbrk_loop-Finds (suc n) s accept h =
    let c = get_or s n 0 in
    subst (λ l. Finds l accept (strrpbrk_loop (suc n) s accept))
      (sym (take-suc n s 0 (omega arith)))
      (elim (Bool-cases (elem (get_or s n 0) accept)) [
        | inl hit ↦ rw hit (take n s, c, [], refl, length-take n s (omega arith), hit, tt)
        | inr miss ↦ rw miss (
            Finds-snoc (take n s) accept c (strrpbrk_loop n s accept)
              (strrpbrk_loop-Finds n s accept (omega arith)) miss)
      ])

-- `strrpbrk` gives NULL exactly where no byte of the string is accepted, and else the position of an
-- accepted byte with no accepted byte behind it.
pub strrpbrk-Finds : (s accept : List ℕ) → Finds s accept (strrpbrk s accept)
unfolding strrpbrk
strrpbrk-Finds s accept =
    subst (λ l. Finds l accept (strrpbrk s accept)) (take-all (length s) s (omega arith))
      (strrpbrk_loop-Finds (length s) s accept (omega arith))
