-- ===== src/Darwin/Create/Tests.antt =====
-- The theorems on the discovery of macOS at concrete inputs: an adapter that comes and goes.
use libhs.Base.{
  ℕ, ◌+◌, ◌≡◌, refl, true, false, Option, some, none, List, [], ◌∷◌, ℤ, pos, is_pos, arith, length,
  replicate,
}
use libhs.Device.{Device}
use libhs.Htable.Buckets.{Buckets}
use libhs.Linux.{fresh}
use libhs.Linux.Create.{Attempt}
use libhs.Linux.Create.Outcome.{Made}
use libhs.Linux.Events.Owned.{IsOwned}
use libhs.Monitor.{Monitor, Call}
use libhs.Darwin.Discovery.{
  StringAnswers, serial_client, Service, process_darwin_device, hex, hex_loop,
}
use libhs.Darwin.Discovery.Outcome.{Sound, Fits, process_darwin_device-Sound}
use libhs.Darwin.Events.{Found, Message, attached, detached, removed_key, refresh}
use libhs.Darwin.Events.Owned.{refresh-Owned}
use libhs.Darwin.Create.{Controller, Start, create}
use libhs.Darwin.Create.Outcome.{start-Made}

abbrev string : StringAnswers
string = record { string = some (80 ∷ []); allocated = true; converted = true }

abbrev adapter : Service
adapter = record {
  interface_parent = true;
  device_parent = true;
  allocated = true;
  session = some 0x1a2;
  id_vendor = some 0x16c0;
  id_product = some 0x483;
  interface_number = some 1;
  key_allocated = true;
  vendor_name = string;
  product_name = string;
  serial_number = string;
  location_allocated = true;
  controller = 1;
  port = some 2;
  ports_above = some 3 ∷ none ∷ [];
  ports = replicate 16 0;
  class = serial_client string;
}

adapter-Fits : Fits adapter
adapter-Fits = (refl, omega arith)

process_darwin_device-Sound_example :
    (r : ℤ × Option Device) × (process_darwin_device adapter ≡ some r) × Sound adapter r
process_darwin_device-Sound_example = process_darwin_device-Sound adapter adapter-Fits

-- `1a2`
hex_test : hex 0x1a2 ≡ 49 ∷ 97 ∷ 50 ∷ []
unfolding hex hex_loop
hex_test = refl

-- The key of a removal loses the last of sixteen digits.
cut_test : length (hex 0x1234567812345678) ≡ 16 × (length (removed_key 0x1234567812345678) ≡ 15)
unfolding hex hex_loop
cut_test = (refl, refl)

abbrev at_place : ℕ → Found
at_place n = record { place = n; service = adapter }

abbrev no_memory : ℕ → Device
no_memory n = record fresh { freed = true }

abbrev no_buckets : Buckets
no_buckets i = []

abbrev empty_monitor : Monitor
empty_monitor = record {
  callbacks = record { id = 0; f = 0; udata = 3 } ∷ [];
  callback_id = 1;
  devices = record { size = 2; next = λ p. p; key = λ n. 0 };
  device = no_memory;
}

empty_monitor-IsOwned : IsOwned empty_monitor no_buckets
empty_monitor-IsOwned = record {
  valid = record {
    table = record {
      positive = omega arith;
      rings = λ i hi. refl;
      placed = λ i n hi on. absurd (cc);
      nodup = λ i hi. tt;
    };
    known = λ i n hi on. absurd (cc);
  };
  sole = λ i n hi on. absurd (cc);
  tidy = λ n live. absurd (cc);
}

-- The world counts the calls.
abbrev answer : Call ℕ
answer f udata n dev w = (pos 0, w + 1)

abbrev messages : List Message
messages =
    attached (at_place 4 ∷ at_place 5 ∷ [])
    ∷ detached (none ∷ some 0x1a2 ∷ [])
    ∷ attached (at_place 6 ∷ [])
    ∷ []

refresh-Owned_example :
    (r : ℤ) × (rest : List Message) × (m' : Monitor) × (w' : ℕ) × (b' : Buckets) × (refresh answer 7
        (pos 1)
        false
        messages
        (pos 0)
        empty_monitor
        7
      ≡ some (r, rest, pos 0, m', w'))
    × IsOwned m' b'
    × (is_pos (pos 1) ≡ true → r ≡ pos 0 → rest ≡ [])
refresh-Owned_example =
    refresh-Owned answer 7 (pos 1) false messages empty_monitor no_buckets 7 empty_monitor-IsOwned
      ((adapter-Fits, (adapter-Fits, tt)), (tt, ((adapter-Fits, tt), tt)))
      (refl, (refl, (refl, tt))) (refl, (refl, (refl, tt))) (λ i hi. omega arith)

abbrev beginning : Start
beginning = record {
  controllers = [];
  hosts = some (record { path = some (47 ∷ []); allocated = true } ∷ []);
  allocated = true;
  notify_port = true;
  queue = true;
  port_set = true;
  member = true;
  event = true;
  table = true;
  classes =
      record { matched = true; services = at_place 4 ∷ [] }
      ∷ record { matched = true; services = at_place 5 ∷ [] }
      ∷ [];
  terminated = true;
}

start-Made_example :
    (o : Attempt) × (cs : List Controller) × (create answer 3 beginning no_memory 7 ≡ some (o, cs))
    × Made o
start-Made_example =
    start-Made answer 3 beginning no_memory 7 (λ n. refl) (omega arith, tt)
      ((adapter-Fits, tt), ((adapter-Fits, tt), tt)) (refl, (refl, tt)) (omega arith)
