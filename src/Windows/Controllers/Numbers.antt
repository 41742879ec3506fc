-- ===== src/Windows/Controllers/Numbers.antt =====
-- The numbers of the controllers.
use libhs.Base.{
  ℕ, ◌+◌, ◌%◌, ◌≤◌, ◌<◌, ◌≡◌, ◌⊎◌, refl, ap, Bool, true, false, take, List, [], ◌∷◌, ◌++◌, ℤ,
  is_neg, if◌then◌else◌, ◌==◌, arith, All, Bool-cases, Option-cases, inl, inr,
}
use libhs.Common.{Text}
use libhs.Monitor.{text_eq}
use libhs.Windows.Controllers.{
  Controller, find_controller, is_root_hub, Host, add_root_hub, add_controller, add_controllers,
  populate_controllers,
}
use libhs.Windows.Controllers.Listed.{roots, add_controllers-Lists}

-- The numbers rise from above `low` up to `high`.
abbrev pub Rising : (low high : ℕ) → List Controller → Type 0
Rising low high [] = low ≤ high
Rising low high (c ∷ cs) = (low < c.index) × Rising c.index high cs

Rising-le : (low high : ℕ) (cs : List Controller) → Rising low high cs → low ≤ high
Rising-le low high [] h = h
Rising-le low high (c ∷ cs) h = let le = Rising-le c.index high cs h.1 in omega (arith, h.0)

Rising-weaken :
    (low high high' : ℕ) (cs : List Controller)
    → high ≤ high'
    → Rising low high cs
    → Rising low high' cs
Rising-weaken low high high' [] le h = omega arith
Rising-weaken low high high' (c ∷ cs) le h = (h.0, Rising-weaken c.index high high' cs le h.1)

Rising-snoc :
    (low high : ℕ) (c : Controller) (cs : List Controller)
    → high < c.index
    → Rising low high cs
    → Rising low c.index (cs ++ c ∷ [])
Rising-snoc low high c [] lt h = (omega arith, omega arith)
Rising-snoc low high c (d ∷ cs) lt h = (h.0, Rising-snoc d.index high c cs lt h.1)

-- The text of every controller is that of a root hub.
abbrev pub AreRoots : List Controller → Type 0
AreRoots = All (λ c. is_root_hub c.roothub_id ≡ true)

AreRoots-snoc :
    (c : Controller) (cs : List Controller)
    → is_root_hub c.roothub_id ≡ true
    → AreRoots cs
    → AreRoots (cs ++ c ∷ [])
AreRoots-snoc c [] root all = (root, tt)
AreRoots-snoc c (d ∷ cs) root all = (all.0, AreRoots-snoc c cs root all.1)

abbrev Numbered : (high : ℕ) → List Controller → Type 0
Numbered high cs = Rising 0 high cs × AreRoots cs

if_Numbered :
    (b : Bool) (high : ℕ) (o o' : ℤ × List Controller)
    → Numbered high o.1
    → Numbered high o'.1
    → Numbered high (if b then o else o').1
if_Numbered true high o o' h h' = h
if_Numbered false high o o' h h' = h'

add_root_hub-Numbered :
    (allocated : Bool) (id : Text) (index high : ℕ) (cs : List Controller)
    → high < index
    → Numbered high cs
    → Numbered index (add_root_hub allocated id index cs).1
unfolding add_root_hub
add_root_hub-Numbered allocated id index high cs lt h =
    let same : Numbered index cs = (Rising-weaken 0 high index cs (omega arith) h.0, h.1) in
    elim (Bool-cases (is_root_hub id)) [
      | inr other ↦ rw other same
      | inl root ↦ rw root (
          if_Numbered allocated index _ _
            (
              Rising-snoc 0 high (record { index = index; roothub_id = id }) cs lt h.0,
              AreRoots-snoc (record { index = index; roothub_id = id }) cs root h.1,
            )
            same)
    ]

add_controller-Numbered :
    (host : Host) (index high : ℕ) (cs : List Controller)
    → high < index
    → Numbered high cs
    → Numbered index (add_controller host index cs).1
unfolding add_controller
add_controller-Numbered host index high cs lt h =
    let same : Numbered index cs = (Rising-weaken 0 high index cs (omega arith) h.0, h.1) in
    elim (Bool-cases host.child) [
      | inr childless ↦ rw childless same
      | inl child ↦ elim (Option-cases host.roothub_id) [
        | inl nameless ↦ rw (child, nameless) same
        | inr (id, e) ↦ rw (child, e) (add_root_hub-Numbered host.allocated id index high cs lt h)
      ]
    ]

add_controllers-Numbered :
    (i : ℕ) (hosts : List Host) (cs : List Controller)
    → i < 255
    → Numbered i cs
    → Numbered 254 (add_controllers i hosts cs).1
unfolding add_controllers
add_controllers-Numbered i [] cs low h = (Rising-weaken 0 i 254 cs (omega arith) h.0, h.1)
add_controllers-Numbered i (host ∷ hosts) cs low h =
    let same : Numbered 254 cs = (Rising-weaken 0 i 254 cs (omega arith) h.0, h.1) in
    elim (Bool-cases (i + 1 == 255)) [
      | inl full ↦ rw full same
      | inr more ↦
          let low' : i + 1 < 255 = ground arith in
          let n = (i + 1) % 256 in
          let o = add_controller host n cs in
          let h' = add_controller-Numbered host n i cs (omega arith) h in
          rw more (
            if_Numbered (is_neg o.0) 254 o (add_controllers (i + 1) hosts o.1)
              (Rising-weaken 0 n 254 o.1 (omega arith) h'.0, h'.1)
              (add_controllers-Numbered (i + 1) hosts o.1 low'
                (Rising-weaken 0 n (i + 1) o.1 (omega arith) h'.0, h'.1)))
    ]

-- A number for an identifier: that of the first controller with it, or 0 where there is none.
abbrev IsOther : Text → Controller → Type 0
IsOther id c = text_eq c.roothub_id id ≡ false

abbrev pub Finds : (cs : List Controller) → (id : Text) → (index : ℕ) → Type 0
Finds cs id index =
    ((index ≡ 0) × All (IsOther id) cs)
    ⊎ ((before after : List Controller) × (c : Controller) × (cs ≡ before ++ (c ∷ after))
        × All (IsOther id) before
        × (text_eq c.roothub_id id ≡ true)
        × (index ≡ c.index))

find_controller-Finds : (cs : List Controller) (id : Text) → Finds cs id (find_controller cs id)
unfolding find_controller
find_controller-Finds [] id = inl (refl, tt)
find_controller-Finds (c ∷ cs) id = elim (Bool-cases (text_eq c.roothub_id id)) [
  | inl same ↦ rw same (inr ([], cs, c, refl, tt, same, refl))
  | inr other ↦ elim (find_controller-Finds cs id) [
    | inl (unknown, others) ↦ rw other (inl (unknown, (refl, others)))
    | inr (before, after, d, e, others, same, index) ↦
        rw other (inr (c ∷ before, after, d, ap (λ l. c ∷ l) e, (other, others), same, index))
  ]
]

-- Whatever the hosts are, how many of them there are and what fails, the controllers that
-- `populate_controllers` finds first are the root hubs below the first hosts, each with its host's
-- place as its number, and where the result is not negative these are all hosts up to the 254th. The
-- numbers rise from 1 to at most 254, so that none has the 0 that stands for an unknown one and no
-- two have the same; and `find_controller` gives for an identifier the number of the first controller
-- that has it, and 0 only where none has.
pub populate_controllers-Rising :
    (opened : Bool) (hosts : List Host) (id : Text)
    → let (r, cs) = populate_controllers opened hosts [] in
      ((k : ℕ) × (cs ≡ roots 1 (take k hosts)))
      × (is_neg r ≡ false → (opened ≡ true) × (cs ≡ roots 1 (take 254 hosts)))
      × Rising 0 254 cs
      × AreRoots cs
      × Finds cs id (find_controller cs id)
unfolding populate_controllers
populate_controllers-Rising false hosts id =
    ((0, refl), λ e. absurd (cc), omega arith, tt, find_controller-Finds [] id)
populate_controllers-Rising true hosts id =
    let h = add_controllers-Numbered 0 hosts [] (omega arith) (omega arith, tt) in
    let l = add_controllers-Lists 0 hosts [] (omega arith) in
    (l.0, λ e. (refl, l.1 e), h.0, h.1, find_controller-Finds (add_controllers 0 hosts []).1 id)
