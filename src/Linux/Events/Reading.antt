-- ===== src/Linux/Events/Reading.antt =====
-- A device that libudev hands out becomes known with one reference, or is freed again.
use libhs.Base.{
  ℕ, suc, ◌≤◌, ◌<◌, ◌≡◌, ◌≢◌, refl, ap, ◌∙◌, true, false, some, List, [], ◌∷◌, ℤ, pos, arith, elem,
  length, Bool-cases, inl, inr, ==-refl, ==-of_ne,
}
use libhs.Common.{Text}
use libhs.Device
use libhs.Device.{Device, online}
use libhs.Htable.Buckets.{Buckets, put}
use libhs.Monitor
use libhs.Monitor.{Monitor, Call, set_device, trigger}
use libhs.Monitor.Known.{IsValid, bucket}
use libhs.Monitor.Add.{has_same, attached_device, add-same, add-known}
use libhs.Linux.Events.{pass_read}
use libhs.Linux.Events.Owned.{
  IsOwned, freed-absent, elsewhere-IsValid, freed_again-IsOwned, kept_device, kept-IsOwned,
}

-- What an event leaves of a monitor, where `used` holds the places that it may use.
pub record Leaves (m : Monitor) (b : Buckets) (used : List ℕ) (m' : Monitor) (b' : Buckets)
    : Type 0 where
  pub owned : IsOwned m' b'
  pub size : m'.devices.size ≡ m.devices.size
  pub growth : (i : ℕ) → i < m.devices.size → length (b' i) ≤ suc (length (b i))
  pub free : (x : ℕ) → elem x used ≡ false → (m.device x).freed ≡ true → (m'.device x).freed ≡ true

-- Nothing happens to the monitor.
pub same-Leaves : (m : Monitor) (b : Buckets) (used : List ℕ) → IsOwned m b → Leaves m b used m b
same-Leaves m b used o = record {
  owned = o;
  size = refl;
  growth = λ i hi. omega arith;
  free = λ x out f. f;
}

unref_attached :
    (dev : Device)
    → dev.freed ≡ false
    → dev.refcount ≡ 1
    → Device.unref (attached_device dev) ≡ some (kept_device dev)
unfolding Device.unref
unref_attached dev live one = rw (live, one) refl

unref_last :
    (dev : Device)
    → dev.freed ≡ false
    → dev.refcount ≡ 1
    → (dev' : Device) × (Device.unref dev ≡ some dev') × (dev'.freed ≡ true)
unfolding Device.unref
unref_last dev live one = (record dev { refcount = 0; freed = true }, rw (live, one) refl, refl)

put-length : (b : Buckets) (j n i : ℕ) → length (put b j n i) ≤ suc (length (b i))
unfolding put
put-length b j n i = ground arith

set_device-own : (m : Monitor) (n : ℕ) (dev : Device) → (set_device m n dev).device n ≡ dev
set_device-own m n dev = rw (==-refl n) refl

set_device-others :
    (m : Monitor) (n : ℕ) (dev : Device) (x : ℕ)
    → x ≢ n
    → (set_device m n dev).device x ≡ m.device x
set_device-others m n dev x ne = rw (==-of_ne x n ne) refl

module _ {W : Type 0} (call : Call W) (fuel : ℕ) (m : Monitor) (b : Buckets) (n : ℕ) (w : W)
    (o : IsOwned m b) (free : (m.device n).freed ≡ true)
    (enough : (i : ℕ) → i < m.devices.size → length (b i) < fuel) (r : ℤ) (dev : Device)
    (live : dev.freed ≡ false) (one : dev.refcount ≡ 1) where
  abbrev held : Monitor
  held = set_device m n dev

  abbrev Ends : Type 0
  Ends =
      (r' : ℤ) × (m' : Monitor) × (w' : W) × (b' : Buckets) × (pass_read (Monitor.add call fuel) n
          (r, some dev) m w
        ≡ some (r', m', w'))
      × Leaves m b (n ∷ []) m' b'

  held-IsValid : IsValid held b
  held-IsValid = elsewhere-IsValid m b n held.device o.valid free (set_device-others m n dev)

  held_live : (held.device n).freed ≡ false
  held_live = ap (λ d. d.freed) (set_device-own m n dev) ∙ live

  held_one : (held.device n).refcount ≡ 1
  held_one = ap (λ d. d.refcount) (set_device-own m n dev) ∙ one

  key_fuel : (key : Text) → length (b (bucket held key)) < fuel
  key_fuel key = enough (bucket held key) (omega (arith, o.valid.table.positive))

  same-Ends : has_same held (held.device n) (b (bucket held (held.device n).key)) ≡ true → Ends
  unfolding pass_read
  same-Ends same =
      let (dev', gone, freed) = unref_last (held.device n) held_live held_one in
      let ends : (x : ℕ) → x ≢ n → (set_device held n dev').device x ≡ m.device x =
        λ x ne. set_device-others held n dev' x ne ∙ set_device-others m n dev x ne in
      (
        pos 0,
        set_device held n dev',
        w,
        b,
        rw (add-same call held b n fuel w held-IsValid (key_fuel (held.device n).key) same, gone)
            refl,
        record {
          owned =
              freed_again-IsOwned m b n (set_device held n dev').device o free
                (ap (λ d. d.freed) (set_device-own held n dev') ∙ freed) ends;
          size = refl;
          growth = λ i hi. omega arith;
          free = λ x out f. ap (λ d. d.freed) (ends x (ground (arith, out))) ∙ f;
        },
      )

  new-Ends : has_same held (held.device n) (b (bucket held (held.device n).key)) ≡ false → Ends
  unfolding pass_read
  new-Ends new =
      let (m', r', w', done, v, own, others, _, size) =
        add-known call held b n fuel w held-IsValid (key_fuel (held.device n).key)
          (freed-absent m b n o.valid free) new held_live (rw held_one (omega arith)) in
      let dev' = kept_device (held.device n) in
      let others' : (x : ℕ) → x ≢ n → m'.device x ≡ m.device x =
        λ x ne. others x ne ∙ set_device-others m n dev x ne in
      let ends : (x : ℕ) → x ≢ n → (set_device m' n dev').device x ≡ m.device x =
        λ x ne. set_device-others m' n dev' x ne ∙ others' x ne in
      (
        r',
        set_device m' n dev',
        w',
        put b (bucket m (held.device n).key) n,
        rw (done, own, unref_attached (held.device n) held_live held_one) refl,
        record {
          owned =
              kept-IsOwned m m' b n (held.device n) (set_device m' n dev').device o free v size
                held_live (set_device-own m' n dev') (ap (λ d. d.key) own) ends others';
          size = size;
          growth = λ i hi. put-length b (bucket m (held.device n).key) n i;
          free = λ x out f. ap (λ d. d.freed) (ends x (ground (arith, out))) ∙ f;
        },
      )

  pub add_read-Leaves : Ends
  add_read-Leaves =
      elim (Bool-cases (has_same held (held.device n) (b (bucket held (held.device n).key)))) [
        | inl same ↦ same-Ends same
        | inr new ↦ new-Ends new
      ]
