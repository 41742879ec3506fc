-- ===== src/Darwin/Tests.antt =====
-- The theorems on the macOS backend at concrete inputs.
use libhs.Base.{some, none, replicate}
use libhs.Common.{codes}
use libhs.Device.{Device, online, hid, posix_device}
use libhs.Darwin.Open.{Answers}
use libhs.Darwin.Location.{
  resolve_device_location, walk, get_port, write, finish_location, reversed_location, swap_ports,
  build_location_string, print_ports,
}
use libhs.Common.{codes}
use libhs.Base.{some, none, replicate, ◌≡◌, ◌≤◌, refl, true, false, List, [], ◌∷◌, pos, arith}
use libhs.Darwin.HidReports.{
  Handle, get_memory, store, reset, hand_out, read_locked, report_callback,
}
use libhs.Darwin.HidReports.Queue.{Event, comes, taken, run, run_queue, IsValid, run-queue}
use libhs.Darwin.HidReports.Wakeup.{
  Reach, opened, here, next, receive, fire, take_report, waits-pipe,
}

-- Two reports come, and three readers follow; the first report is cut at the handle's two bytes.
abbrev events : List Event
events = comes 1 (10 ∷ 11 ∷ 12 ∷ []) ∷ comes 258 (20 ∷ []) ∷ taken 8 ∷ taken 1 ∷ taken 8 ∷ []

run-queue_example :
    ((run events (opened 2)).0 ≡ (run_queue 2 events []).0)
    × ((run events (opened 2)).1.reports ≡ (run_queue 2 events []).1)
    × IsValid (run events (opened 2)).1
run-queue_example =
    run-queue events (opened 2) (record { counted = refl; bounded = omega arith }) refl

run_test :
    (run events (opened 2)).0 ≡ (pos 3, 1 ∷ 10 ∷ 11 ∷ []) ∷ (pos 1, 2 ∷ []) ∷ (pos 0, []) ∷ []
unfolding run report_callback get_memory store read_locked hand_out reset
run_test = refl

-- Two reports have come, and one was taken.
abbrev one_left : Handle
one_left = record {
  attached = true;
  size = 4;
  pipe = 1;
  thread_ret = pos 0;
  reports = (2 ∷ 6 ∷ []) ∷ [];
  free_reports = 1;
  allocated_reports = 2;
}

one_left-Reach : Reach (opened 4) one_left false
unfolding get_memory store read_locked hand_out reset
one_left-Reach =
    next
      (next (next (next here (receive true 1 (5 ∷ []) (opened 4))) (fire _))
        (receive true 2 (6 ∷ []) _))
      (take_report 8 _ false)

waits-pipe_example : 1 ≤ 1
waits-pipe_example = waits-pipe 4 one_left one_left-Reach refl

abbrev keyboard : Device
keyboard = record {
  attached = true;
  refcount = 1;
  key = 49 ∷ [];
  type = hid;
  vtable = posix_device;
  state = online;
  location = none;
  path = 73 ∷ [];
  vid = 1;
  pid = 2;
  manufacturer = none;
  product = none;
  serial_number = none;
  iface = 0;
  freed = false;
}

-- The thread gets no source for its loop.
abbrev no_source : Answers
no_source = record {
  allocated = true;
  service = true;
  hid = true;
  opened = true;
  size = some 64;
  buffer = true;
  pipe = true;
  mutex = pos 0;
  cond = pos 0;
  thread = true;
  source = false;
}

location_test :
    resolve_device_location true 20 (some 2) (none ∷ some 1 ∷ []) (replicate 16 7)
    ≡ some (pos 1, some (codes "usb-20-1-2"))
unfolding resolve_device_location walk get_port write finish_location reversed_location swap_ports
    build_location_string print_ports
location_test = refl
