-- ===== src/Monitor/Callbacks.antt =====
-- The callbacks of a monitor: registration, and what their answers do.
use libhs.Base.{
  ℕ, ◌+◌, ◌-◌, ◌^◌, ◌<◌, ◌≡◌, refl, ap, true, false, not, some, List, [], ◌∷◌, ◌++◌, ℤ, pos, is_neg,
  is_pos, arith, filter, All, Bool-cases, inl, inr, ==-refl, ==-of_ne,
}
use libhs.Device.{Device}
use libhs.Monitor.{
  Monitor, Callback, Call, trigger, register_callback, deregister_callback, drop_callback,
}

-- Every identifier was given before the next one.
abbrev pub AllBelow : Monitor → Type 0
AllBelow m = All (λ c. c.id < m.callback_id) m.callbacks

drop_callback-append :
    (id : ℕ) (cs : List Callback) (c : Callback)
    → All (λ x. x.id < id) cs
    → c.id ≡ id
    → drop_callback id (cs ++ c ∷ []) ≡ cs
unfolding drop_callback
drop_callback-append id [] c below e = rw (e, ==-refl id)
drop_callback-append id (x ∷ cs) c below e =
    rw (==-of_ne x.id id (omega (arith, below.0)))
      (ap (λ l. x ∷ l) (drop_callback-append id cs c below.1 e))

All-append :
    (P : Callback → Type 0) (cs : List Callback) (c : Callback)
    → All P cs
    → P c
    → All P (cs ++ c ∷ [])
All-append P [] c all own = (own, tt)
All-append P (x ∷ cs) c all own = (all.0, All-append P cs c all.1 own)

All-below_suc : (cs : List Callback) (k : ℕ) → All (λ c. c.id < k) cs → All (λ c. c.id < k + 1) cs
All-below_suc [] k all = tt
All-below_suc (c ∷ cs) k all = (omega (arith, all.0), All-below_suc cs k all.1)

-- Below the limit of `int`, a registration that gets its memory succeeds: it returns an identifier
-- that no other callback has, appends the callback, and keeps the identifiers below the next one.
-- Deregistering the identifier then gives the list of callbacks back.
pub register-deregister :
    (m : Monitor) (f udata : ℕ)
    → AllBelow m
    → m.callback_id < 2 ^ 31 - 1
    → (m' : Monitor) × (register_callback true m f udata ≡ some (pos m.callback_id, m'))
      × (m'.callbacks ≡ m.callbacks ++ record { id = m.callback_id; f = f; udata = udata } ∷ [])
      × AllBelow m'
      × (deregister_callback m' m.callback_id ≡ record m' { callbacks = m.callbacks })
unfolding register_callback deregister_callback
register-deregister m f udata below room =
    let c : Callback = record { id = m.callback_id; f = f; udata = udata } in
    let m' : Monitor = record m {
      callback_id = m.callback_id + 1;
      callbacks = m.callbacks ++ c ∷ [];
    } in
    (
      m',
      ground arith,
      refl,
      All-append (λ x. x.id < m.callback_id + 1) m.callbacks c
          (All-below_suc m.callbacks m.callback_id below) (omega arith),
      ap (λ cs. record m' { callbacks = cs })
          (drop_callback-append m.callback_id m.callbacks c below refl),
    )

module _ {W : Type 0} (call : Call W) (n : ℕ) (dev : Device) where
  -- The world after all the functions were called in turn.
  abbrev pub run_all : List Callback → W → W
  run_all [] w = w
  run_all (c ∷ cs) w = run_all cs (call c.f c.udata n dev w).1

  -- However the client's functions answer, the result is never positive: an answer that is positive
  -- is not returned, it only drops the callback.
  pub trigger-not_positive :
      (cs : List Callback) (w : W) → is_pos (trigger call cs n dev w).0 ≡ false
  unfolding trigger
  trigger-not_positive [] w = refl
  trigger-not_positive (c ∷ cs) w =
      ground (arith, trigger-not_positive cs (call c.f c.udata n dev w).1)

  -- Where each function answers the same in every world, and none a negative number, the result is
  -- 0, and exactly the callbacks whose answer is positive are dropped; all are called, in order.
  pub trigger-drops :
      (cs : List Callback) (w : W) (answer : ℕ → ℕ → ℤ)
      → ((f udata : ℕ) (w' : W) → (call f udata n dev w').0 ≡ answer f udata)
      → All (λ c. is_neg (answer c.f c.udata) ≡ false) cs
      → ((trigger call cs n dev w).0 ≡ pos 0)
        × ((trigger call cs n dev w).1 ≡ filter (λ c. not (is_pos (answer c.f c.udata))) cs)
        × ((trigger call cs n dev w).2 ≡ run_all cs w)
  unfolding trigger
  trigger-drops [] w answer fixed nonneg = (refl, refl, refl)
  trigger-drops (c ∷ cs) w answer fixed nonneg =
      let ih = trigger-drops cs (call c.f c.udata n dev w).1 answer fixed nonneg.1 in
      elim (Bool-cases (is_pos (answer c.f c.udata))) [
        | inl drop ↦ rw (fixed c.f c.udata w, nonneg.0, drop) ih
        | inr keep ↦ rw (fixed c.f c.udata w, nonneg.0, keep) (ih.0, ap (λ l. c ∷ l) ih.1, ih.2)
      ]
