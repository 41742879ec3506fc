-- ===== src/Linux/Events/Release.antt =====
-- Freeing a monitor that owns its devices frees them all.
use libhs.Base.{ℕ, ◌<◌, ◌≡◌, refl, true, some, arith, elem, length, Bool-cases, inl, inr}
use libhs.Htable.Buckets.{Buckets}
use libhs.Htable.Foreach.Cells.{all_nodes, nodes-elem, elem-nodes}
use libhs.Monitor
use libhs.Monitor.{Monitor}
use libhs.Monitor.Known.{bucket}
use libhs.Monitor.Release.{release-detaches}
use libhs.Linux.Events.Owned.{IsOwned}

pub release-frees :
    (fuel : ℕ) (m : Monitor) (b : Buckets)
    → IsOwned m b
    → ((i : ℕ) → i < m.devices.size → length (b i) < fuel)
    → (m' : Monitor) × (Monitor.release fuel m ≡ some m') × ((n : ℕ) → (m'.device n).freed ≡ true)
release-frees fuel m b o enough =
    let (m', done, _, devices) = release-detaches fuel m b o.valid enough in
    (
      m',
      done,
      λ n. elim (Bool-cases (elem n (all_nodes m.devices b))) [
        | inl known ↦
            let (j, low, high, there) = elem-nodes b n m.devices.size 0 known in
            let one = o.sole j n (omega arith) there in rw (devices n, known, one) refl
        | inr unknown ↦ elim (Bool-cases (m.device n).freed) [
          | inl freed ↦ rw (devices n, unknown) freed
          | inr live ↦
              let there =
                nodes-elem b n m.devices.size 0 (bucket m (m.device n).key) (omega arith)
                  (omega (arith, o.valid.table.positive)) (o.tidy n live) in
              absurd (cc)
        ]
      ],
    )
