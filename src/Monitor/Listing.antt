-- ===== src/Monitor/Listing.antt =====
-- `hs_monitor_list` visits the known devices in order, each once, until a call answers.
use libhs.Base.{
  ℕ, ◌<◌, ◌≡◌, refl, ap, ◌∙◌, Option, some, none, List, [], ◌∷◌, ℤ, pos, int_eq, if◌then◌else◌,
  length, Bool-cases, inl, inr,
}
use libhs.Htable.Foreach.{each}
use libhs.Htable.Foreach.Cells.{all_nodes, foreach-each}
use libhs.Htable.Buckets.{Buckets}
use libhs.Monitor.{Monitor, Call, list_body, list}
use libhs.Monitor.Known.{IsValid}

module _ {W : Type 0} (call : Call W) (m : Monitor) (f udata : ℕ) where
  -- The specification: the first answer that is not 0 ends the listing.
  abbrev pub listing : List ℕ → W → ℤ × W
  listing [] w = (pos 0, w)
  listing (n ∷ ns) w =
      let answer = call f udata n (m.device n) w in
      let rest = listing ns answer.1 in if int_eq answer.0 (pos 0) then rest else answer

  abbrev result : Option ℤ × (Monitor × W) → ℤ × W
  result (none, s) = (pos 0, s.1)
  result (some x, s) = (x, s.1)

  each-listing :
      (ns : List ℕ) (w : W)
      → result (each (λ s. s.0.devices) (list_body call f udata) ns (m, w)) ≡ listing ns w
  unfolding each list_body
  each-listing [] w = refl
  each-listing (n ∷ ns) w = elim (Bool-cases (int_eq (call f udata n (m.device n) w).0 (pos 0))) [
    | inl on ↦ rw on (each-listing ns (call f udata n (m.device n) w).1)
    | inr off ↦ rw off refl
  ]

  result-some :
      (r : Option ℤ × (Monitor × W))
      → (elim r.0 as (λ x. Option (ℤ × W)) [
        | none ↦ some (pos 0, r.1.1)
        | some x ↦ some (x, r.1.1)
      ])
        ≡ some (result r)
  result-some (none, s) = refl
  result-some (some x, s) = refl

  list_body-table :
      (n : ℕ) (s : Monitor × W) → (list_body call f udata n s).1.0.devices ≡ s.0.devices
  unfolding list_body
  list_body-table n s = refl

-- In a well-formed monitor, with more fuel than any bucket has devices, `hs_monitor_list` ends and
-- does what a listing of the known devices does: it calls the function for each of them, in the
-- order of the table, until a call answers other than 0, and gives that answer, or 0.
pub list-listing :
    {W : Type 0} (call : Call W) (fuel : ℕ) (m : Monitor) (b : Buckets) (f udata : ℕ) (w : W)
    → IsValid m b
    → ((i : ℕ) → i < m.devices.size → length (b i) < fuel)
    → list call fuel m f udata w ≡ some (listing call m f udata (all_nodes m.devices b) w)
unfolding list
list-listing call fuel m b f udata w v enough =
    rw
      (foreach-each (λ s. s.0.devices) (list_body call f udata)
        (λ n s. list_body-table call m f udata n s) fuel b (m, w) v.table enough)
      (result-some call m f udata _
        ∙ ap some (each-listing call m f udata (all_nodes m.devices b) w))
