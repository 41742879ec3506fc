-- ===== src/Linux/Create/Tests.antt =====
-- The theorems on the events and on `hs_monitor_new` at concrete inputs: an adapter that comes twice.
use libhs.Base.{
  ℕ, ◌+◌, ◌-◌, ◌≡◌, ◌||◌, refl, Bool, true, false, some, none, List, [], ◌∷◌, ℤ, pos, is_neg, ◌==◌,
  length, arith,
}
use libhs.Common.{Text}
use libhs.Device.{Device}
use libhs.Htable.Buckets.{Buckets}
use libhs.Monitor.{Monitor, Call}
use libhs.Linux.{Usb, Aggregate, Allocated, tty_text, fresh}
use libhs.Linux.Events.{Found, Event, added, removed, other, refresh}
use libhs.Linux.Events.Owned.{IsOwned}
use libhs.Linux.Events.Refresh.{refresh-IsOwned}
use libhs.Linux.Create.{listed, unopened, Answers, Attempt, create}
use libhs.Linux.Create.Outcome.{Made, create-Made}

abbrev usb : Usb
usb = record {
  busnum = some (49 ∷ []);
  devpath = some (50 ∷ 46 ∷ 51 ∷ []);
  id_vendor = some (49 ∷ []);
  id_product = some (50 ∷ []);
  manufacturer = none;
  product = some (80 ∷ []);
  serial_number = none;
}

abbrev adapter : Aggregate
adapter = record {
  subsystem = some tty_text;
  devnode = some (47 ∷ 116 ∷ []);
  exists = true;
  devpath = 47 ∷ 115 ∷ [];
  usb = some usb;
  iface = some (46 ∷ 48 ∷ []);
}

abbrev all_allocated : Allocated
all_allocated = record {
  device = true;
  path = true;
  key = true;
  location = true;
  manufacturer = true;
  product = true;
  serial_number = true;
}

-- The first digit.
abbrev digit : Text → (base : ℕ) → ℕ × Bool
digit [] base = (0, false)
digit (c ∷ s) base = (c - 48, false)

abbrev at_place : ℕ → Found
at_place n = record { place = n; allocated = all_allocated; aggregate = adapter }

abbrev no_memory : ℕ → Device
no_memory n = record fresh { freed = true }

abbrev no_buckets : Buckets
no_buckets i = []

abbrev empty_monitor : Monitor
empty_monitor = record {
  callbacks = record { id = 0; f = 0; udata = 3 } ∷ [];
  callback_id = 1;
  devices = record { size = 2; next = λ p. p; key = λ n. 0 };
  device = no_memory;
}

empty_monitor-IsOwned : IsOwned empty_monitor no_buckets
empty_monitor-IsOwned = record {
  valid = record {
    table = record {
      positive = omega arith;
      rings = λ i hi. refl;
      placed = λ i n hi on. absurd (cc);
      nodup = λ i hi. tt;
    };
    known = λ i n hi on. absurd (cc);
  };
  sole = λ i n hi on. absurd (cc);
  tidy = λ n live. absurd (cc);
}

-- The world counts the calls.
abbrev answer : Call ℕ
answer f udata n dev w = (pos 0, w + 1)

abbrev events : List Event
events = added (at_place 4) ∷ other ∷ added (at_place 5) ∷ removed (47 ∷ 115 ∷ []) ∷ []

refresh-IsOwned_example :
    (r : ℤ) × (rest : List Event) × (m' : Monitor) × (w' : ℕ) × (b' : Buckets) × (refresh answer 5
        digit false events empty_monitor 7
      ≡ some (r, rest, m', w'))
    × IsOwned m' b'
    × ((is_neg r || (length rest == 0)) ≡ true)
refresh-IsOwned_example =
    refresh-IsOwned answer 5 digit false events empty_monitor no_buckets 7 empty_monitor-IsOwned
      (refl, (refl, tt)) (refl, (refl, tt)) (λ i hi. omega arith)

-- The second entry cannot be opened.
abbrev answers : Answers
answers = record {
  udev = true;
  allocated = true;
  netlink = true;
  filters = true;
  receiving = true;
  table = true;
  scan = record {
    udev = true;
    enumerate = true;
    matches = true;
    scanned = true;
    entries = listed (at_place 4) ∷ unopened true ∷ [];
  };
}

create-Made_example : (o : Attempt) × (create answer 3 digit answers no_memory 7 ≡ some o) × Made o
create-Made_example =
    create-Made answer 3 digit answers no_memory 7 (λ n. refl) (refl, tt) (omega arith)
