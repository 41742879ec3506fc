-- ===== src/Monitor.antt =====
-- src/monitor.c: the devices that a monitor knows, and its callbacks. The hash table is that of
-- `Htable`, whose node `n` is the `hnode` of device `n`. The callbacks are the sequence that their
-- list stands for; a callback is a function of the client and its `udata`, and changes the client's
-- world `W`. A callback that itself calls the monitor or drops references is not modelled. Where a
-- loop runs out of fuel, or freed memory is used, the result is a `none`.
pub mod Callbacks
pub mod Known
pub mod Add
pub mod Remove
pub mod Disconnect
pub mod Release
pub mod Init
pub mod Listing
mod Tests
use libhs.Base.{
  ℕ, suc, ◌+◌, ◌-◌, ◌%◌, ◌^◌, Bool, true, false, ◌&&◌, Option, none, some, List, [], ◌∷◌, ◌++◌, ℤ,
  pos, is_neg, is_pos, int_eq, ltb, if◌then◌else◌, ◌==◌, ◌>>=◌, ◌>>◌, assert, not, length,
}
use libhs.ErrorCode
use libhs.Common.{Text}
use libhs.Device
use libhs.Device.{Device, online, disconnected}
use libhs.Htable
use libhs.Htable.{Htable, hash_str}
use libhs.Htable.Foreach.{Flow, go_on, leave, foreach_hash, foreach}

-- `struct callback`, less its list head.
pub record Callback : Type 0 where
  pub id : ℕ
  pub f : ℕ
  pub udata : ℕ

-- `struct hs_monitor` as src/monitor_priv.h has it, and the devices in memory.
pub record Monitor : Type 0 where
  pub callbacks : List Callback
  pub callback_id : ℕ
  pub devices : Htable
  pub device : ℕ → Device

-- `strcmp(a, b) == 0`
abbrev pub text_eq : Text → Text → Bool
text_eq [] [] = true
text_eq [] (y ∷ ys) = false
text_eq (x ∷ xs) [] = false
text_eq (x ∷ xs) (y ∷ ys) = x == y && text_eq xs ys

abbrev pub set_device : Monitor → ℕ → Device → Monitor
set_device m n dev = record m { device = λ i. if i == n then dev else m.device i }

-- `_hs_monitor_init`; `allocated` is the answer of `malloc`. A monitor comes zeroed from `calloc`.
pub init : (allocated : Bool) → Monitor → ℤ × Monitor
init allocated m = elim (Htable.init allocated m.devices 64) [
  | none ↦ (ErrorCode.memory, record m { callbacks = [] })
  | some t ↦ (pos 0, record m { callbacks = []; devices = t })
]

-- `hs_monitor_register_callback`; `allocated` is the answer of `calloc`. The identifier is an `int`
-- that may not overflow.
pub register_callback : (allocated : Bool) → Monitor → (f udata : ℕ) → Option (ℤ × Monitor)
register_callback false m f udata = some (ErrorCode.memory, m)
register_callback true m f udata = do
  assert (ltb m.callback_id (2 ^ 31 - 1))
  let callback : Callback = record { id = m.callback_id; f = f; udata = udata }
  some (
    pos m.callback_id,
    record m { callback_id = m.callback_id + 1; callbacks = m.callbacks ++ callback ∷ [] },
  )

-- The loop drops the first callback with the identifier, and breaks.
pub drop_callback : ℕ → List Callback → List Callback
drop_callback id [] = []
drop_callback id (c ∷ cs) = if c.id == id then cs else c ∷ drop_callback id cs

pub deregister_callback : Monitor → (id : ℕ) → Monitor
unfolding drop_callback
deregister_callback m id = record m { callbacks = drop_callback id m.callbacks }

-- What a client's function does with a device: the int that it returns, and its new world.
abbrev pub Call : Type 0 → Type 0
Call W = (f udata : ℕ) → (n : ℕ) → Device → W → ℤ × W

-- `strcmp(dev2->key, dev->key) == 0 && dev2->iface == dev->iface`
abbrev pub same_device : Device → Device → Bool
same_device dev2 dev = text_eq dev2.key dev.key && dev2.iface == dev.iface

-- The body of the loop of `_hs_monitor_add`: `return 0` at a known device.
pub find_same : ℕ → ℕ → Monitor → Flow ℤ × Monitor
find_same n n2 m = if same_device (m.device n2) (m.device n) then (leave (pos 0), m) else (go_on, m)

module _ {W : Type 0} (call : Call W) where
  -- `trigger_callbacks` on the callbacks of `dev->monitor`: a negative answer ends the loop, a
  -- positive one drops the callback.
  pub trigger : List Callback → ℕ → Device → W → ℤ × List Callback × W
  trigger [] n dev w = (pos 0, [], w)
  trigger (c ∷ cs) n dev w =
      let answer = call c.f c.udata n dev w in
      let rest = trigger cs n dev answer.1 in
      if is_neg answer.0
      then (answer.0, c ∷ cs, answer.1)
      else if is_pos answer.0
      then rest
      else (rest.0, c ∷ rest.1, rest.2)

  trigger_callbacks : Monitor → ℕ → W → ℤ × Monitor × W
  unfolding trigger
  trigger_callbacks m n w =
      let (r, callbacks, w') = trigger m.callbacks n (m.device n) w in
      (r, record m { callbacks = callbacks }, w')

  -- `_hs_monitor_add`, of the device `n`.
  pub add : (fuel : ℕ) → Monitor → (n : ℕ) → W → Option (ℤ × Monitor × W)
  unfolding find_same trigger_callbacks
  add fuel m n w =
      foreach_hash (λ s. s.devices) (find_same n) (hash_str (m.device n).key) fuel m >>= λ found.
      elim found.0 [
        | some r ↦ some (r, m, w)
        | none ↦ (do
          dev ← Device.ref (record (m.device n) { attached = true; state = online })
          table ← Htable.add m.devices (hash_str dev.key) n
          some (trigger_callbacks (record (set_device m n dev) { devices = table }) n w))
      ]

  -- The statements of the loop of `_hs_monitor_remove` under its test: behind the callbacks,
  settle : (fuel : ℕ) → ℕ → Monitor → W → Option (Monitor × W)
  settle fuel n m w = do
    table ← Htable.remove fuel m.devices n
    dev ← Device.unref (m.device n)
    some (record (set_device m n dev) { devices = table }, w)

  -- and all of them.
  pub disconnect : (fuel : ℕ) → ℕ → Monitor × W → Option (Monitor × W)
  unfolding trigger_callbacks settle
  disconnect fuel n (m, w) =
      let told =
        trigger_callbacks (set_device m n (record (m.device n) { state = disconnected })) n w in
      assert (m.device n).attached >> settle fuel n told.1 told.2

  -- The body; a fault leaves the loop.
  pub remove_body : (fuel : ℕ) → Text → ℕ → Monitor × W → Flow (Unit {0}) × (Monitor × W)
  unfolding disconnect
  remove_body fuel key n (m, w) =
      if text_eq (m.device n).key key
      then elim (disconnect fuel n (m, w)) [ none ↦ (leave tt, (m, w)) | some s ↦ (go_on, s) ]
      else (go_on, (m, w))

  -- `_hs_monitor_remove`
  pub remove : (fuel : ℕ) → Monitor → (key : Text) → W → Option (Monitor × W)
  unfolding remove_body
  remove fuel m key w =
      foreach_hash (λ s. s.0.devices) (remove_body fuel key) (hash_str key) fuel (m, w) >>= λ r.
      elim r.0 [ none ↦ some r.1 | some fault ↦ none ]

  -- `hs_monitor_list`, with a function of the client.
  pub list_body : (f udata : ℕ) → ℕ → Monitor × W → Flow ℤ × (Monitor × W)
  list_body f udata n (m, w) =
      let (r, w') = call f udata n (m.device n) w in
      (if int_eq r (pos 0) then go_on else leave r, (m, w'))

  pub list : (fuel : ℕ) → Monitor → (f udata : ℕ) → W → Option (ℤ × W)
  unfolding list_body
  list fuel m f udata w = foreach (λ s. s.0.devices) (list_body f udata) fuel (m, w) >>= λ r.
      elim r.0 [ none ↦ some (pos 0, r.1.1) | some x ↦ some (x, r.1.1) ]

-- `dev->monitor = NULL; hs_device_unref(dev);`, a fault leaves the loop.
pub release_body : ℕ → Monitor → Flow (Unit {0}) × Monitor
release_body n m = elim (Device.unref (record (m.device n) { attached = false })) [
  | none ↦ (leave tt, m)
  | some dev ↦ (go_on, set_device m n dev)
]

-- `_hs_monitor_release`: what is left of the devices. The callbacks and the table are freed.
pub release : (fuel : ℕ) → Monitor → Option Monitor
unfolding release_body
release fuel m = foreach (λ s. s.devices) release_body fuel m >>= λ r. elim r.0 [
  | none ↦ some (record r.1 { callbacks = [] })
  | some fault ↦ none
]
