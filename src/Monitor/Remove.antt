-- ===== src/Monitor/Remove.antt =====
-- `_hs_monitor_remove`: every device with the key is disconnected, dropped and reported.
use libhs.Base.{
  ℕ, ◌+◌, ◌-◌, ◌%◌, ◌^◌, ◌≤◌, ◌<◌, ◌≡◌, ◌≢◌, ap, ◌∙◌, Bool, true, false, not, Option, some, List,
  ◌==◌, ltb, arith, elem, length, Bool-cases, inl, inr, assert, ◌>>◌, ==-refl, ==-of_ne,
}
use libhs.Common.{Text}
use libhs.Device
use libhs.Device.{Device, online, disconnected}
use libhs.Htable.{Htable, hash_str, slot}
use libhs.Htable
use libhs.Htable.Foreach.{Flow, go_on, visit}
use libhs.Htable.Buckets.{Buckets, without, elem-erase_self, elem-erase_of}
use libhs.Htable.Unlink.{remove-Represents}
use libhs.Monitor.{
  Monitor, Callback, Call, text_eq, set_device, trigger, trigger_callbacks, settle, disconnect,
  remove_body,
}
use libhs.Monitor.Known.{IsKnown, IsValid, eq_of_text_eq}

-- The device as `_hs_monitor_remove` leaves it: freed if the monitor held the last reference.
abbrev pub dropped_device : Device → Device
dropped_device dev = record dev {
  state = disconnected;
  refcount = dev.refcount - 1;
  freed = not (ltb 1 dev.refcount);
}

unref_dropped :
    (dev : Device)
    → dev.freed ≡ false
    → 0 < dev.refcount
    → dev.refcount < 2 ^ 32
    → Device.unref (record dev { state = disconnected }) ≡ some (dropped_device dev)
unfolding Device.unref
unref_dropped dev live held bound =
    let wrap : (dev.refcount + 2 ^ 32 - 1) % 2 ^ 32 ≡ dev.refcount - 1 = omega arith in
    elim (Bool-cases (ltb 1 dev.refcount)) [
      | inl more ↦ rw (wrap, live, more)
      | inr last ↦ rw (wrap, live, last)
    ]

-- What is still known is another device.
IsKnown-after :
    (m : Monitor) (b : Buckets) (n : ℕ) (v : IsValid m b) (table : Htable)
    (callbacks : List Callback) (x j : ℕ)
    → j < m.devices.size
    → elem x (without b n j) ≡ true
    → table.key x ≡ m.devices.key x
    → IsKnown
        (record (set_device
          (record (set_device m n (record (m.device n) { state = disconnected })) {
            callbacks = callbacks;
          })
          n
          (dropped_device (m.device n))) { devices = table })
        x
unfolding without
IsKnown-after m b n v table callbacks x j hj on key =
    let k = v.known j x hj (elem-erase_of x n (b j) on) in
    let ne : (x == n) ≡ false = ground (arith, elem-erase_self n (b j) (v.table.nodup j hj)) in
    record {
      live = rw ne k.live;
      attached = rw ne k.attached;
      state = rw ne k.state;
      referenced = rw ne k.referenced;
      bounded = rw ne k.bounded;
      filed = rw ne (key ∙ k.filed);
    }

assert-true : {B : Type 0} (t : Bool) (k : Option B) → t ≡ true → (assert t >> k) ≡ k
assert-true t k h = rw h

module _ {W : Type 0} (call : Call W) (fuel : ℕ) where
  settle-some :
      (n : ℕ) (m : Monitor) (w : W) (table : Htable) (dev : Device)
      → Htable.remove fuel m.devices n ≡ some table
      → Device.unref (m.device n) ≡ some dev
      → settle call fuel n m w ≡ some (record (set_device m n dev) { devices = table }, w)
  unfolding settle
  settle-some n m w table dev e e' = rw (e, e')

  -- One device of a bucket is taken out of it.
  pub disconnect-dropped :
      (m : Monitor) (w : W) (b : Buckets) (i n : ℕ)
      → IsValid m b
      → i < m.devices.size
      → elem n (b i) ≡ true
      → length (b i) ≤ fuel
      → (m' : Monitor) × (w' : W) × (disconnect call fuel n (m, w) ≡ some (m', w'))
        × IsValid m' (without b n)
        × (m'.devices.size ≡ m.devices.size)
        × (m'.device n ≡ dropped_device (m.device n))
        × ((x : ℕ) → x ≢ n → m'.device x ≡ m.device x)
        × (m'.callbacks
            ≡ (trigger call m.callbacks n (record (m.device n) { state = disconnected }) w).1)
        × (w' ≡ (trigger call m.callbacks n (record (m.device n) { state = disconnected }) w).2)
  unfolding disconnect trigger_callbacks
  disconnect-dropped m w b i n v hi on enough =
      let k = v.known i n hi on in
      let dev = record (m.device n) { state = disconnected } in
      let m1 = set_device m n dev in
      let (table, removed, size, keys, r) =
        remove-Represents m.devices b n i fuel v.table hi on enough in
      let told = trigger_callbacks call m1 n w in
      (
        record (set_device told.1 n (dropped_device (m.device n))) { devices = table },
        told.2,
        assert-true (m.device n).attached _ k.attached
            ∙ settle-some n told.1 told.2 table (dropped_device (m.device n)) removed
                (rw (==-refl n) (unref_dropped (m.device n) k.live k.referenced k.bounded)),
        record {
          table = r;
          known = λ j x hj here.
              IsKnown-after m b n v table told.1.callbacks x j (omega (arith, size)) here
                (ap (λ f. f x) keys);
        },
        size,
        rw (==-refl n),
        λ x ne. rw (==-of_ne x n ne),
        rw (==-refl n),
        rw (==-refl n),
      )

-- The device has the key.
abbrev pub matches : Text → Monitor → ℕ → Bool
matches key m n = text_eq (m.device n).key key

module _ {W : Type 0} (call : Call W) (fuel : ℕ) (key : Text) where
  abbrev pub step : ℕ → Monitor × W → Flow (Unit {0}) × (Monitor × W)
  step = visit (λ s. s.0.devices) (remove_body call fuel key) (hash_str key)

  pub step-other :
      (m : Monitor) (w : W) (n : ℕ) → matches key m n ≡ false → step n (m, w) ≡ (go_on, (m, w))
  unfolding visit remove_body
  step-other m w n differ = elim (Bool-cases (m.devices.key n == hash_str key)) [
    | inl hit ↦ rw (hit, differ)
    | inr miss ↦ rw miss
  ]

  pub step-match :
      (m : Monitor) (w : W) (n : ℕ) (s : Monitor × W)
      → m.devices.key n ≡ hash_str (m.device n).key
      → matches key m n ≡ true
      → disconnect call fuel n (m, w) ≡ some s
      → step n (m, w) ≡ (go_on, s)
  unfolding visit remove_body
  step-match m w n s filed same done =
      let e : m.devices.key n ≡ hash_str key =
        filed ∙ ap hash_str (eq_of_text_eq (m.device n).key key same) in
      rw (e, ==-refl (hash_str key), same, done)
