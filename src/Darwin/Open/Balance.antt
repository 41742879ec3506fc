-- ===== src/Darwin/Open/Balance.antt =====
-- An open handle of the macOS backend holds one reference to its device, and what fails gives back
-- what the system gave, but for a thread that has failed.
use libhs.Base.{
  ℕ, suc, ◌≡◌, Bool, true, false, not, ◌&&◌, Option, none, some, List, [], ◌∷◌, ◌++◌, ℤ, pos,
  is_neg, if◌then◌else◌, ◌==◌,
}
use libhs.ErrorCode
use libhs.Device.{Device}
use libhs.Device.Live.{IsLive, raised}
use libhs.Darwin.Open.{
  Answers, Resource, memory, service, hid, buffer, pipe, mutex, cond, thread, source,
  close_hid_device, Attempt, open_hid_device,
}

abbrev tag : Resource → ℕ
tag memory = 0
tag service = 1
tag hid = 2
tag buffer = 3
tag pipe = 4
tag mutex = 5
tag cond = 6
tag thread = 7
tag source = 8

abbrev pub count : Resource → List Resource → ℕ
count r [] = 0
count r (x ∷ xs) = if tag r == tag x then suc (count r xs) else count r xs

-- What was got is what is given back, each once.
abbrev pub SameItems : List Resource → List Resource → Type 0
SameItems xs ys =
    (count memory xs ≡ count memory ys)
    × (count service xs ≡ count service ys)
    × (count hid xs ≡ count hid ys)
    × (count buffer xs ≡ count buffer ys)
    × (count pipe xs ≡ count pipe ys)
    × (count mutex xs ≡ count mutex ys)
    × (count cond xs ≡ count cond ys)
    × (count thread xs ≡ count thread ys)
    × (count source xs ≡ count source ys)

abbrev and_then : Bool → Resource → List Resource → List Resource
and_then true r rs = r ∷ rs
and_then false r rs = []

abbrev acquired_buffer : Option ℕ → List Resource → List Resource
acquired_buffer none rs = []
acquired_buffer (some size) rs = rs

-- What the system gives before the first step that fails.
abbrev pub acquired : Answers → List Resource
acquired a = and_then a.allocated memory (
    and_then a.service service (
      and_then a.hid hid (
        if a.opened
        then acquired_buffer a.size (
            and_then a.buffer buffer (
              and_then a.pipe pipe (
                and_then (not (is_neg a.mutex)) mutex (
                  and_then (not (is_neg a.cond)) cond
                    (and_then a.thread thread (and_then a.source source []))))))
        else [])))

-- A thread that got no source has ended, and nothing joins it.
abbrev pub unjoined : Answers → List Resource
unjoined a = and_then ((count thread (acquired a) == 1) && not a.source) thread []

abbrev pub Balanced : Device → Answers → Attempt → Type 0
Balanced dev a (r, none, dev', given) =
    (is_neg r ≡ true) × (dev' ≡ dev) × SameItems (given ++ unjoined a) (acquired a)
Balanced dev a (r, some h, dev', given) =
    (r ≡ pos 0)
    × (dev' ≡ raised dev)
    × (given ≡ [])
    × ((closed : List Resource) × (close_hid_device h dev' ≡ some (dev, closed))
        × SameItems closed (acquired a))

abbrev answers : (a s h o : Bool) (z : Option ℕ) (b p : Bool) (m c : ℤ) (t r : Bool) → Answers
answers a s h o z b p m c t r = record {
  allocated = a;
  service = s;
  hid = h;
  opened = o;
  size = z;
  buffer = b;
  pipe = p;
  mutex = m;
  cond = c;
  thread = t;
  source = r;
}

module _ (dev : Device) (live : IsLive dev) where
  abbrev Ends : Answers → Type 0
  Ends a = (o : Attempt) × (open_hid_device a dev ≡ some o) × Balanced dev a o
