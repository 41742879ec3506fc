-- ===== src/Windows/Ids/RoundTrip.antt =====
-- The path that is built for a device names the device.
use libhs.Base.{
  ℕ, zero, suc, ◌+◌, ◌≡◌, refl, sym, ap, ap₂, ◌∙◌, true, false, Option, none, some, List, [], ◌∷◌,
  ◌++◌, map, All, arith, length, elem, take, get_or,
}
use libhs.Common.{Text}
use libhs.Compat.{strrpbrk}
use libhs.Compat.Last.{Finds, strrpbrk-Finds}
use libhs.Windows.Ids.{
  id_byte, path_byte, skip_prefix, cut_class, extract_device_id, build_device_path,
}

-- None of the bytes is accepted.
abbrev NoneOf : (accept xs : List ℕ) → Type 0
NoneOf accept = All (λ x. elem x accept ≡ false)

no_hit :
    (accept before after : List ℕ) (c : ℕ)
    → NoneOf accept (before ++ c ∷ after)
    → elem c accept ≡ false
no_hit accept [] after c all = all.0
no_hit accept (x ∷ before) after c all = no_hit accept before after c all.1

-- The last accepted byte of a text has one place only.
last_place :
    (accept pre post before after : List ℕ) (c d : ℕ)
    → pre ++ c ∷ post ≡ before ++ d ∷ after
    → elem c accept ≡ true
    → NoneOf accept post
    → elem d accept ≡ true
    → NoneOf accept after
    → length before ≡ length pre
last_place accept [] post [] after c d same hit none' hit' none'' = refl
last_place accept [] post (x ∷ before) after c d same hit none' hit' none'' =
    let e : post ≡ before ++ d ∷ after = cc in
    let miss = no_hit accept before after d (rw (← e) none') in absurd (cc)
last_place accept (x ∷ pre) post [] after c d same hit none' hit' none'' =
    let e : pre ++ c ∷ post ≡ after = cc in
    let miss = no_hit accept pre post c (rw e none'') in absurd (cc)
last_place accept (x ∷ pre) post (y ∷ before) after c d same hit none' hit' none'' =
    let e : pre ++ c ∷ post ≡ before ++ d ∷ after = cc in
    ap suc (last_place accept pre post before after c d e hit none' hit' none'')

Finds-last :
    (accept pre post : List ℕ) (c : ℕ) (found : Option ℕ)
    → Finds (pre ++ c ∷ post) accept found
    → elem c accept ≡ true
    → NoneOf accept post
    → found ≡ some (length pre)
Finds-last accept pre post c none all hit miss =
    let off = no_hit accept pre post c all in absurd (cc)
Finds-last accept pre post c (some i) (before, d, after, parts, index, hit', miss') hit miss =
    ap some (sym index ∙ last_place accept pre post before after c d parts hit miss hit' miss')

-- The place of the last accepted byte.
strrpbrk-last :
    (accept pre post : List ℕ) (c : ℕ)
    → elem c accept ≡ true
    → NoneOf accept post
    → strrpbrk (pre ++ c ∷ post) accept ≡ some (length pre)
strrpbrk-last accept pre post c =
    Finds-last accept pre post c (strrpbrk (pre ++ c ∷ post) accept)
      (strrpbrk-Finds (pre ++ c ∷ post) accept)

take-before : (xs ys : List ℕ) → take (length xs) (xs ++ ys) ≡ xs
take-before [] ys = refl
take-before (x ∷ xs) ys = ap (λ l. x ∷ l) (take-before xs ys)

get_or-next :
    (i : ℕ) (xs ys : List ℕ) (c d : ℕ) → i ≡ suc (length xs) → get_or (xs ++ c ∷ d ∷ ys) i 0 ≡ d
get_or-next zero xs ys c d h = absurd (omega arith)
get_or-next (suc i) [] ys c d h = let e : i ≡ 0 = omega arith in rw e refl
get_or-next (suc i) (x ∷ xs) ys c d h = get_or-next i xs ys c d (omega arith)

id_byte-path_byte : (c : ℕ) → id_byte (path_byte c) ≡ id_byte c
id_byte-path_byte c = ground arith

canonical : (id : Text) → All (λ c. id_byte c ≡ c) id → map id_byte (map path_byte id) ≡ id
canonical [] all = refl
canonical (c ∷ id) all = ap₂ ◌∷◌ (id_byte-path_byte c ∙ all.0) (canonical id all.1)

-- The path of a device, less its prefix, loses its class.
cut-last :
    (id guid : Text)
    → NoneOf (92 ∷ 35 ∷ []) guid
    → cut_class (id ++ 35 ∷ 123 ∷ guid) (strrpbrk (id ++ 35 ∷ 123 ∷ guid) (92 ∷ 35 ∷ [])) ≡ id
unfolding cut_class
cut-last id guid plain =
    rw
      (
        strrpbrk-last (92 ∷ 35 ∷ []) id (123 ∷ guid) 35 refl (refl, plain),
        get_or-next (length id + 1) id guid 35 123 (omega arith),
        take-before id (35 ∷ 123 ∷ guid),
      )
      refl

-- The identifier that is extracted from the path of a device is the device's, where that is in the
-- form that Windows gives: in upper case and without `#`. The class holds neither `\` nor `#`.
pub extract_device_id-build_device_path :
    (id guid path : Text)
    → All (λ c. id_byte c ≡ c) id
    → All (λ c. elem c (92 ∷ 35 ∷ []) ≡ false) guid
    → build_device_path true id guid ≡ some path
    → extract_device_id true path ≡ some id
unfolding extract_device_id build_device_path skip_prefix
extract_device_id-build_device_path id guid path upper plain built =
    let e : (92 ∷ 92 ∷ 46 ∷ 92 ∷ []) ++ map path_byte id ++ 35 ∷ 123 ∷ guid ≡ path = cc in
    rw (← e, cut-last (map path_byte id) guid plain, canonical id upper) refl
