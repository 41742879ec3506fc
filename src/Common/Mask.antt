-- ===== src/Common/Mask.antt =====
-- The masked codes of src/common.c as a stack.
use libhs.Base.{
  ℕ, zero, suc, ◌+◌, ◌-◌, ◌≤◌, ◌≡◌, refl, ap, ◌∙◌, Bool, true, false, ◌||◌, Option, none, some,
  List, [], ◌∷◌, ◌++◌, ℤ, pos, int_eq, if◌then◌else◌, ltb, arith, set, take, drop, drop-cons,
  add-one, length, length-set, take-set, take-suc, get_or-set_self, Bool-cases, int_eq_refl, inl,
  inr,
}
use libhs.Common.{
  Text, Log, mask_size, redirected, called, error_level, handle, error_mask, error_unmask,
  is_masked, error, log, logv, generic_message,
}

-- The array has its 32 cells and the count stays within it.
pub record IsValid (s : Log) : Type 0 where
  pub cells : length s.mask ≡ mask_size
  pub within : s.mask_count ≤ mask_size

-- The codes masked now, oldest first.
abbrev pub stack : Log → List ℤ
stack s = take s.mask_count s.mask

abbrev pub has_code : ℤ → List ℤ → Bool
has_code err [] = false
has_code err (x ∷ xs) = int_eq x err || has_code err xs

error_mask-IsValid : {s t : Log} (err : ℤ) → IsValid s → error_mask err s ≡ some t → IsValid t
unfolding error_mask
error_mask-IsValid {s} err v e = ground (arith, length-set s.mask s.mask_count err)

error_unmask-IsValid : {s t : Log} → IsValid s → error_unmask s ≡ some t → IsValid t
unfolding error_unmask
error_unmask-IsValid v e = ground arith

-- Pushing and popping are those of the stack.
stack-error_mask :
    (err : ℤ) {s t : Log} → IsValid s → error_mask err s ≡ some t → stack t ≡ stack s ++ err ∷ []
unfolding error_mask
stack-error_mask err {s} {t} v e = elim (Bool-cases (ltb s.mask_count mask_size)) [
  | inl room ↦
      let written : length (set s.mask s.mask_count err) ≡ mask_size =
        length-set s.mask s.mask_count err ∙ v.cells in
      let e' : t ≡ record s { mask = set s.mask s.mask_count err; mask_count = s.mask_count + 1 } =
        ground arith in
      rw (
        e',
        add-one,
        take-suc s.mask_count (set s.mask s.mask_count err) (pos 0) (ground arith),
        take-set s.mask_count s.mask_count s.mask err (omega arith),
        get_or-set_self s.mask s.mask_count err (pos 0) (ground arith),
      )
  | inr full ↦ absurd (ground arith)
]

-- The loop of `hs_error` looks for the code in the stack.
is_masked-has_code :
    (n i : ℕ) (cells : List ℤ) (err : ℤ)
    → i + n ≤ length cells
    → is_masked n i cells err ≡ has_code err (take n (drop i cells))
unfolding is_masked
is_masked-has_code zero i cells err h = refl
is_masked-has_code (suc n) i cells err h = rw (
  drop-cons i cells (pos 0) (omega arith),
  is_masked-has_code n (i + 1) cells err (omega arith),
  add-one,
)

is_masked-stack :
    (err : ℤ) {s : Log} → IsValid s → is_masked s.mask_count 0 s.mask err ≡ has_code err (stack s)
is_masked-stack err {s} v =
    is_masked-has_code s.mask_count 0 s.mask err (omega (arith, v.cells, v.within))

has_code-append :
    (err : ℤ) (xs ys : List ℤ) → has_code err (xs ++ ys) ≡ (has_code err xs || has_code err ys)
has_code-append err [] ys = refl
has_code-append err (x ∷ xs) ys = ground (arith, has_code-append err xs ys)

-- The text that a report carries: the formatted one, or the generic message of the code.
abbrev message : ℤ → Option Text → Text
message err none = generic_message err
message err (some text) = text

-- In a valid state with a handler of the client's, `hs_error` returns the code that it is given. It
-- calls the handler once, at the level of errors and with at most 511 bytes of the message, if the
-- code is not on the stack of masked codes, and otherwise calls nothing. It changes nothing else.
pub error-reports :
    (err : ℤ) (fmt : Option Text) (f udata : ℕ) {s : Log}
    → IsValid s
    → s.handler ≡ redirected f udata
    → error err fmt s ≡ (
      err,
      if has_code err (stack s) then s else record s {
        events = called f udata error_level (take 511 (message err fmt)) ∷ s.events;
      },
    )
unfolding error log logv handle
error-reports err none f udata {s} v h = rw (is_masked-stack err v, h) (ground arith)
error-reports err (some text) f udata {s} v h = rw (is_masked-stack err v, h) (ground arith)

-- A masked code is returned and nothing else happens.
error-silent :
    (err : ℤ) (fmt : Option Text) (s : Log)
    → is_masked s.mask_count 0 s.mask err ≡ true
    → error err fmt s ≡ (err, s)
unfolding error
error-silent err fmt s h = rw h

stack-error_unmask :
    (err : ℤ) {s t : Log}
    → IsValid s
    → error_mask err s ≡ some t
    → take (t.mask_count - 1) t.mask ≡ stack s
unfolding error_mask
stack-error_unmask err {s} {t} v e =
    let count : t.mask_count - 1 ≡ s.mask_count = ground arith in
    let cells : t.mask ≡ set s.mask s.mask_count err = ground arith in
    rw (count, cells) (take-set s.mask_count s.mask_count s.mask err (omega arith))

-- After `hs_error_mask` of a code, in a valid state with room, `hs_error` of that code calls nothing
-- and changes nothing. The matching `hs_error_unmask` succeeds, and then every code is masked
-- exactly if it was before.
pub error_mask-scope :
    (err : ℤ) (fmt : Option Text) {s t : Log}
    → IsValid s
    → error_mask err s ≡ some t
    → (error err fmt t ≡ (err, t))
      × (u : Log) × (error_unmask t ≡ some u)
      × ((e : ℤ) → has_code e (stack u) ≡ has_code e (stack s))
unfolding error_mask error_unmask
error_mask-scope err fmt {s} {t} v e = (
  error-silent err fmt t (
      rw
        (
          is_masked-stack err (error_mask-IsValid err v e),
          stack-error_mask err v e,
          has_code-append err (stack s) (err ∷ []),
        )
        (ground (arith, int_eq_refl err))),
  record t { mask_count = t.mask_count - 1 },
  ground arith,
  λ c. ap (has_code c) (stack-error_unmask err v e),
)
