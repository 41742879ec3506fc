-- ===== src/Monitor/Known.antt =====
-- What a monitor knows: the devices in the buckets of its table, and what holds of each of them.
use libhs.Base.{ℕ, ◌%◌, ◌^◌, ◌<◌, ◌≡◌, refl, true, false, [], ◌∷◌, arith, elem}
use libhs.Common.{Text}
use libhs.Device.{online}
use libhs.Htable.{hash_str}
use libhs.Htable.Buckets.{Buckets, Represents}
use libhs.Monitor.{Monitor, text_eq}

pub eq_of_text_eq : (a b : Text) → text_eq a b ≡ true → a ≡ b
eq_of_text_eq [] [] h = refl
eq_of_text_eq [] (y ∷ ys) h = absurd (cc)
eq_of_text_eq (x ∷ xs) [] h = absurd (cc)
eq_of_text_eq (x ∷ xs) (y ∷ ys) h = ground (arith, eq_of_text_eq xs ys)

pub text_eq_refl : (a : Text) → text_eq a a ≡ true
text_eq_refl [] = refl
text_eq_refl (x ∷ xs) = ground (arith, text_eq_refl xs)

-- The monitor is well formed: its table stands for the buckets, and each device there is live,
-- online, attached to the monitor, referenced, and filed under the hash of its key.
pub record IsKnown (m : Monitor) (n : ℕ) : Type 0 where
  pub live : (m.device n).freed ≡ false
  pub attached : (m.device n).attached ≡ true
  pub state : (m.device n).state ≡ online
  pub referenced : 0 < (m.device n).refcount
  pub bounded : (m.device n).refcount < 2 ^ 32
  pub filed : m.devices.key n ≡ hash_str (m.device n).key

pub record IsValid (m : Monitor) (b : Buckets) : Type 0 where
  pub table : Represents m.devices b
  pub known : (i n : ℕ) → i < m.devices.size → elem n (b i) ≡ true → IsKnown m n

-- The bucket that a key belongs to.
abbrev pub bucket : Monitor → Text → ℕ
bucket m key = hash_str key % m.devices.size
