-- ===== src/Windows/Tests.antt =====
-- The theorems on the discovery of Windows at concrete inputs: an adapter behind a hub.
use libhs.Base.{
  ℕ, ◌+◌, ◌≡◌, refl, true, false, is_neg, take, Option, some, none, List, [], ◌∷◌, ◌++◌, ℤ, pos,
  arith, length, replicate,
}
use libhs.Common.{Text}
use libhs.Device.{Device}
use libhs.Htable.Buckets.{Buckets}
use libhs.Linux.{fresh}
use libhs.Linux.Events.Owned.{IsOwned}
use libhs.Monitor.{Monitor, Call}
use libhs.Darwin.Location.{write}
use libhs.Windows.Ids.{extract_device_id, build_device_path}
use libhs.Windows.Ids.RoundTrip.{extract_device_id-build_device_path}
use libhs.Windows.Controllers.{Controller, Host, populate_controllers, find_controller}
use libhs.Windows.Controllers.Numbers.{Rising, AreRoots, Finds, populate_controllers-Rising}
use libhs.Windows.Controllers.Listed.{roots}
use libhs.Windows.Location.{
  PortAnswers, Hub, Node, search_ports, get_port_driverkey, find_device_port_xp,
  resolve_device_location, find_usb_node, walk, after_port, next_parent, store_port,
  store_controller, find_port, find_device_port_vista,
}
use libhs.Windows.Location.Trail.{found, trail, device_trail}
use libhs.Windows.Location.Ports.{Meets, resolve_device_location-Meets}
use libhs.Windows.Strings.{WideAnswers, DescriptorAnswers, PropertyAnswers, HubAnswers}
use libhs.Windows.Reading.{Answers, Scanned, process_win32_device}
use libhs.Windows.Reading.Outcome.{Sound, process_win32_device-Sound}
use libhs.Compat.{strrpbrk, strrpbrk_loop}
use libhs.Windows.Ids.{skip_prefix, cut_class}
use libhs.Windows.Notifications.{
  post_device_event, queue_notification, report_error, take_notifications, added, removed,
  Notification, Shared, Allocated, Message, arrival, removal, window_proc,
}
use libhs.Windows.Notifications.Queue.{
  System, handling, Reach, start, later, message, enter, handle, began, Wakes, reach-order,
}
use libhs.Windows.Refresh.{Arrival, Setting, refresh}
use libhs.Windows.Refresh.Outcome.{HasRoom, Refreshed, refresh-Refreshed}
use libhs.Windows.Create.{Class, Start, Attempt, create}
use libhs.Windows.Create.Outcome.{Made, new-Made}

-- `USB\A`, `USB\H` and `USB\ROOT_HUB\1`.
abbrev adapter_id : Text
adapter_id = 85 ∷ 83 ∷ 66 ∷ 92 ∷ 65 ∷ []

abbrev hub_id : Text
hub_id = 85 ∷ 83 ∷ 66 ∷ 92 ∷ 72 ∷ []

abbrev root_id : Text
root_id = 85 ∷ 83 ∷ 66 ∷ 92 ∷ 82 ∷ 79 ∷ 79 ∷ 84 ∷ 95 ∷ 72 ∷ 85 ∷ 66 ∷ 92 ∷ 49 ∷ []

abbrev guid : Text
guid = 97 ∷ 45 ∷ 48 ∷ 125 ∷ []

extract_device_id-build_device_path_example :
    extract_device_id true
      (92 ∷ 92 ∷ 46 ∷ 92 ∷ 85 ∷ 83 ∷ 66 ∷ 35 ∷ 65 ∷ 35 ∷ 123 ∷ 97 ∷ 45 ∷ 48 ∷ 125 ∷ [])
    ≡ some adapter_id
unfolding build_device_path
extract_device_id-build_device_path_example =
    extract_device_id-build_device_path adapter_id guid
      (92 ∷ 92 ∷ 46 ∷ 92 ∷ 85 ∷ 83 ∷ 66 ∷ 35 ∷ 65 ∷ 35 ∷ 123 ∷ 97 ∷ 45 ∷ 48 ∷ 125 ∷ [])
      (refl, (refl, (refl, (refl, (refl, tt))))) (refl, (refl, (refl, (refl, tt)))) refl

-- One host without a hub, and one with.
abbrev hosts : List Host
hosts =
    record { child = false; roothub_id = none; allocated = true }
    ∷ record { child = true; roothub_id = some root_id; allocated = true }
    ∷ []

populate_controllers-Rising_example :
    let (r, cs) = populate_controllers true hosts [] in
    ((k : ℕ) × (cs ≡ roots 1 (take k hosts)))
    × (is_neg r ≡ false → (true ≡ true) × (cs ≡ roots 1 (take 254 hosts)))
    × Rising 0 254 cs
    × AreRoots cs
    × Finds cs root_id (find_controller cs root_id)
populate_controllers-Rising_example = populate_controllers-Rising true hosts root_id

-- A hub with one port, to which a device with the driver `1` is connected.
abbrev port_answers : PortAnswers
port_answers = record {
  node_allocated = true;
  information = true;
  connected = true;
  name_length = true;
  name_allocated = true;
  name = true;
  converted = (pos 0, 49 ∷ []);
}

abbrev one_port : Hub
one_port = record {
  path_allocated = true;
  opened = true;
  number_of_ports = some 2;
  port = λ n. port_answers;
}

-- No port has a device with the driver `2`, but the last one is connected.
unmatched_test : find_device_port_xp one_port (50 ∷ []) ≡ some (pos 1)
unfolding find_device_port_xp search_ports get_port_driverkey
unmatched_test = refl

abbrev node_at : Text → ℕ → Node
node_at id port = record {
  id = some id;
  port_in_location = some port;
  driver = none;
  hub = one_port;
}

abbrev above : List Node
above = node_at hub_id 2 ∷ node_at root_id 0 ∷ []

abbrev controllers : List Controller
controllers = record { index = 7; roothub_id = root_id } ∷ []

adapter_trail :
    device_trail true controllers (node_at adapter_id 3) above ≡ some (found (3 ∷ 2 ∷ 7 ∷ []))
unfolding device_trail trail find_usb_node find_port find_device_port_vista find_controller
adapter_trail = refl

resolve_device_location-Meets_example :
    Meets
      (device_trail true controllers (node_at adapter_id 3) above)
      (resolve_device_location true controllers (node_at adapter_id 3) above (replicate 8 0))
resolve_device_location-Meets_example =
    resolve_device_location-Meets true controllers (node_at adapter_id 3) above (replicate 8 0) refl

-- Behind seven hubs, the controller's number is written outside of the array.
overrun_test :
    resolve_device_location true controllers
      (node_at adapter_id 3)
      (replicate 7 (node_at hub_id 2) ++ node_at root_id 0 ∷ [])
      (replicate 8 0)
    ≡ none
unfolding resolve_device_location find_usb_node walk after_port next_parent store_port
    store_controller find_port find_device_port_vista find_controller write
overrun_test = refl

abbrev wide : WideAnswers
wide = record { copied = true; length = 2; allocated = true; length' = 2; text = 80 ∷ [] }

abbrev property : PropertyAnswers
property = record { index = 1; success = true; wide = wide }

abbrev descriptor : DescriptorAnswers
descriptor = record {
  index = 1;
  success = true;
  len = 16;
  descriptor_type = 3;
  descriptor_length = 4;
  wide = wide;
}

abbrev hub_answers : HubAnswers
hub_answers = record {
  path_allocated = true;
  opened = true;
  node_allocated = true;
  information = true;
  hid_opened = true;
  hid_strings = (property, property, property);
  strings = (descriptor, descriptor, descriptor);
}

abbrev answers : Answers
answers = record {
  allocated = true;
  key_allocated = true;
  comport = record { opened = true; port_name = some (67 ∷ 79 ∷ 77 ∷ 51 ∷ []); allocated = true };
  path_allocated = true;
  ports = replicate 8 0;
  hub = λ port. hub_answers;
  location_allocated = true;
}

abbrev scan : Text → Scanned
scan id = record { count = 2; vid = length id; pid = 4; iface = 0 }

process_win32_device-Sound_example :
    (r : ℤ × Option Device) × (process_win32_device guid scan true controllers answers none
        (node_at adapter_id 3)
        above
      ≡ some r)
    × Sound guid answers (some adapter_id) (found (3 ∷ 2 ∷ 7 ∷ [])) r
process_win32_device-Sound_example =
    process_win32_device-Sound guid scan true controllers answers none (node_at adapter_id 3) above
      (found (3 ∷ 2 ∷ 7 ∷ [])) refl adapter_trail (λ e. absurd (cc))

-- A device comes and goes, and comes again while the first notification is handled.
abbrev memory_there : Allocated
memory_there = record { notification = true; id = true }

-- `\\?\usb#a#{`
abbrev name : Text
name = 92 ∷ 92 ∷ 63 ∷ 92 ∷ 117 ∷ 115 ∷ 98 ∷ 35 ∷ 97 ∷ 35 ∷ 123 ∷ []

abbrev comes : Message
comes = arrival memory_there name

abbrev goes : Message
goes = removal memory_there name

abbrev came : Notification
came = record { event = added; key = adapter_id }

abbrev gone : Notification
gone = record { event = removed; key = adapter_id }

abbrev one_handled : System
one_handled = record {
  shared = record { ret = pos 0; notifications = came ∷ []; signalled = true };
  phase = handling (gone ∷ []);
  accepted_all = came ∷ gone ∷ came ∷ [];
  handled = came ∷ [];
}

-- A notification that was put back while the event was not set.
abbrev left_behind : Shared
left_behind = record { ret = pos 0; notifications = came ∷ []; signalled = false }

one_handled-Reach : Reach left_behind one_handled
unfolding window_proc post_device_event queue_notification report_error extract_device_id
    skip_prefix cut_class strrpbrk strrpbrk_loop take_notifications
one_handled-Reach =
    later
      (later (later (later start (message (began left_behind) goes)) (enter _ refl))
        (handle _ came (gone ∷ []) (pos 0) refl))
      (message _ comes)

reach-order_example :
    (came ∷ gone ∷ came ∷ [] ≡ came ∷ gone ∷ came ∷ [])
    × (Wakes left_behind → true ≡ false → came ∷ [] ≡ came ∷ gone ∷ came ∷ [])
reach-order_example = reach-order left_behind one_handled one_handled-Reach

abbrev setting : Setting
setting = record { hid_guid = guid; scan = scan; vista = true; controllers = controllers }

abbrev arrives : ℕ → Arrival
arrives n = record {
  located = true;
  place = n;
  answers = answers;
  node = node_at adapter_id 3;
  parents = above;
}

arrives-HasRoom : (n : ℕ) → HasRoom setting (arrives n)
arrives-HasRoom n = record {
  room = refl;
  way = found (3 ∷ 2 ∷ 7 ∷ []);
  trail = adapter_trail;
  fits = λ e. absurd (cc);
}

abbrev no_memory : ℕ → Device
no_memory n = record fresh { freed = true }

abbrev empty_monitor : Monitor
empty_monitor = record {
  callbacks = record { id = 0; f = 0; udata = 3 } ∷ [];
  callback_id = 1;
  devices = record { size = 2; next = λ p. p; key = λ n. 0 };
  device = no_memory;
}

empty_monitor-IsOwned : IsOwned empty_monitor (λ i. [])
empty_monitor-IsOwned = record {
  valid = record {
    table = record {
      positive = omega arith;
      rings = λ i hi. refl;
      placed = λ i n hi on. absurd (cc);
      nodup = λ i hi. tt;
    };
    known = λ i n hi on. absurd (cc);
  };
  sole = λ i n hi on. absurd (cc);
  tidy = λ n live. absurd (cc);
}

-- The world counts the calls.
abbrev answer : Call ℕ
answer f udata n dev w = (pos 0, w + 1)

abbrev queued : Shared
queued = record { ret = pos 0; notifications = came ∷ gone ∷ []; signalled = true }

refresh-Refreshed_example :
    (r : ℤ) × (s' : Shared) × (m' : Monitor) × (w' : ℕ) × (b' : Buckets) × (done : List
      Notification)
    × (refresh answer 5 setting arrives (comes ∷ []) queued empty_monitor 7 ≡ some (r, s', m', w'))
    × IsOwned m' b'
    × Refreshed queued (comes ∷ []) r s' done
refresh-Refreshed_example =
    refresh-Refreshed answer 5 setting arrives (comes ∷ []) queued empty_monitor (λ i. []) 7
      empty_monitor-IsOwned (λ i. refl) arrives-HasRoom (λ i j ne e. ne e) (λ i. refl)
      (λ i hi. omega arith)

abbrev class_of : List Arrival → Class
class_of devices = record { opened = true; devices = devices }

-- The hosts are listed; the controller is known already.
abbrev beginning : Start
beginning = record {
  allocated = true;
  event = true;
  table = true;
  scan = record {
    hosts_opened = true;
    hosts = hosts;
    usb = class_of (arrives 4 ∷ []);
    hid = class_of (arrives 5 ∷ []);
  };
  thread = true;
  waited = true;
  thread_ret = pos 0;
  messages = comes ∷ [];
}

new-Made_example : (o : Attempt) × (create answer 3 setting beginning no_memory 7 ≡ some o) × Made o
unfolding populate_controllers
new-Made_example =
    new-Made answer 3 setting beginning no_memory 7 refl (λ n. refl)
      ((arrives-HasRoom 4, tt), ((arrives-HasRoom 5, tt), tt)) (refl, (refl, tt)) (omega arith)
