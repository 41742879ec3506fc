-- ===== src/Windows/Controllers/Listed.antt =====
-- Which controllers `populate_controllers` lists.
use libhs.Base.{
  ℕ, zero, suc, ◌+◌, ◌-◌, ◌%◌, ◌<◌, ◌≡◌, refl, sym, ap, ◌∙◌, true, false, none, some, take, List,
  [], ◌∷◌, ◌++◌, ℤ, is_neg, if◌then◌else◌, ◌==◌, arith, Bool-cases, Option-cases, inl, inr,
}
use mathlib.Core.List.{append_assoc, append-nil}
use libhs.Windows.Controllers.{
  Controller, is_root_hub, Host, add_root_hub, add_controller, add_controllers,
}

-- The root hub below a host, with a number.
abbrev pub root_of : (index : ℕ) → Host → List Controller
root_of index host =
    if host.child
    then elim host.roothub_id [
      | none ↦ []
      | some id ↦ if is_root_hub id then record { index = index; roothub_id = id } ∷ [] else []
    ]
    else []

-- The root hubs below hosts, of which the first one has the number `index`, and each the next one.
abbrev pub roots : (index : ℕ) → List Host → List Controller
roots index [] = []
roots index (host ∷ hosts) = root_of index host ++ roots (index + 1) hosts

-- What a host adds to the list, unless an allocation fails.
abbrev Adds : (index : ℕ) → Host → List Controller → ℤ × List Controller → Type 0
Adds index host cs o =
    (is_neg o.0 ≡ true → o.1 ≡ cs) × (is_neg o.0 ≡ false → o.1 ≡ cs ++ root_of index host)

add_controller-Adds :
    (host : Host) (index : ℕ) (cs : List Controller)
    → Adds index host cs (add_controller host index cs)
unfolding add_controller add_root_hub
add_controller-Adds host index cs = elim (Bool-cases host.child) [
  | inr childless ↦ rw childless (λ e. refl, λ e. sym (append-nil cs))
  | inl child ↦ elim (Option-cases host.roothub_id) [
    | inl nameless ↦ rw (child, nameless) (λ e. refl, λ e. sym (append-nil cs))
    | inr (id, e) ↦ elim (Bool-cases (is_root_hub id)) [
      | inr other ↦ rw (child, e, other) (λ e. refl, λ e. sym (append-nil cs))
      | inl root ↦ elim (Bool-cases host.allocated) [
        | inl there ↦ rw (child, e, root, there) (λ neg. absurd (cc), λ e. refl)
        | inr failed ↦ rw (child, e, root, failed) (λ e. refl, λ non. absurd (cc))
      ]
    ]
  ]
]

take-nil : (n : ℕ) → ◌≡◌ {A = List Host} (take n []) []
take-nil zero = refl
take-nil (suc n) = refl

-- The list grows by the root hubs of the first hosts, and without an error by those of as many as
-- there are numbers for.
abbrev pub Lists : (i : ℕ) → List Host → List Controller → ℤ × List Controller → Type 0
Lists i hosts cs o =
    ((k : ℕ) × (o.1 ≡ cs ++ roots (i + 1) (take k hosts)))
    × (is_neg o.0 ≡ false → o.1 ≡ cs ++ roots (i + 1) (take (254 - i) hosts))

pub add_controllers-Lists :
    (i : ℕ) (hosts : List Host) (cs : List Controller)
    → i < 255
    → Lists i hosts cs (add_controllers i hosts cs)
unfolding add_controllers
add_controllers-Lists i [] cs low =
    ((0, sym (append-nil cs)), λ e. rw (take-nil (254 - i)) (sym (append-nil cs)))
add_controllers-Lists i (host ∷ hosts) cs low = elim (Bool-cases (i + 1 == 255)) [
  | inl full ↦
      let none_left : 254 - i ≡ 0 = ground arith in
      rw (full, none_left) ((0, sym (append-nil cs)), λ e. sym (append-nil cs))
  | inr more ↦
      let low' : i + 1 < 255 = ground arith in
      let number : (i + 1) % 256 ≡ i + 1 = omega arith in
      let n = (i + 1) % 256 in
      let (failed, added) = add_controller-Adds host n cs in
      let o = add_controller host n cs in
      elim (Bool-cases (is_neg o.0)) [
        | inl bad ↦ rw (more, bad) ((0, failed bad ∙ sym (append-nil cs)), λ good. absurd (cc))
        | inr fine ↦
            let ((k, some_), all) = add_controllers-Lists (i + 1) hosts o.1 low' in
            let join : (ys : List Controller) → o.1 ++ ys ≡ cs ++ (root_of (i + 1) host ++ ys) =
              λ ys.
                ap (λ l. l ++ ys) (added fine ∙ ap (λ m. cs ++ root_of m host) number)
                ∙ append_assoc cs (root_of (i + 1) host) ys in
            let one_more : 254 - i ≡ suc (254 - (i + 1)) = omega arith in
            rw (more, fine, one_more)
              (
                (suc k, some_ ∙ join (roots (i + 1 + 1) (take k hosts))),
                λ good. all good ∙ join (roots (i + 1 + 1) (take (254 - (i + 1)) hosts)),
              )
      ]
]
