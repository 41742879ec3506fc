-- ===== src/Monitor/Init.antt =====
-- `_hs_monitor_init`: an empty monitor, or the one that `calloc` gave.
use libhs.Base.{◌≡◌, refl, true, false, [], pos, arith}
use libhs.ErrorCode
use libhs.Htable
use libhs.Htable.Add.{init-Represents}
use libhs.Monitor.{Monitor, init}
use libhs.Monitor.Known.{IsValid}

pub init-IsValid :
    (m : Monitor)
    → (m' : Monitor) × (init true m ≡ (pos 0, m'))
      × IsValid m' (λ i. [])
      × (m'.device ≡ m.device)
      × (m'.callbacks ≡ [])
unfolding init
init-IsValid m =
    let (t, made, size, r) = init-Represents m.devices 64 (omega arith) in
    (
      record m { callbacks = []; devices = t },
      rw (init, made) refl,
      record { table = r; known = λ i n hi on. absurd (cc) },
      refl,
      refl,
    )

pub init-failed : (m : Monitor) → init false m ≡ (ErrorCode.memory, record m { callbacks = [] })
unfolding init Htable.init
init-failed m = refl
