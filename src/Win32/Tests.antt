-- ===== src/Win32/Tests.antt =====
-- The theorems on the Windows backend at concrete inputs.
use libhs.Base.{ℕ, ◌≡◌, ◌++◌, refl, true, false, some, none, List, [], ◌∷◌, pos, arith}
use libhs.ErrorCode
use libhs.Device.{Device, online, serial, posix_device}
use libhs.Device.Live.{IsLive}
use libhs.Serial.Attributes
use libhs.Serial.Attributes.{Termios, Speed, b9600, cs8}
use libhs.Win32.{Handle, incomplete, completed, finalize_async_read, start_async_read}
use libhs.Win32.SerialPort.{Turn}
use libhs.Win32.SerialPort.Stream.{run, received, unread, IsValid, run-stream}
use libhs.Win32.Attributes.{Dcb, no_parity}
use libhs.Win32.Open.{Answers, Attempt, open_win32_device}
use libhs.Win32.Open.Balance.{Balanced, open_win32_device-balance}

abbrev quiet : Turn
quiet = record { restarted = true; completion = incomplete; started = true }

abbrev line : Turn
line = record { restarted = true; completion = completed (104 ∷ 105 ∷ 10 ∷ []); started = false }

-- The port is silent, then three bytes come, and two calls read them.
abbrev calls : List (Turn × ℕ)
calls = (quiet, 8) ∷ (line, 2) ∷ (line, 2) ∷ []

abbrev new_handle : Handle
new_handle = record { buf = []; ptr = 0; len = pos 0; pending = true }

run-stream_example :
    (arrived : List ℕ) × (got : List ℕ) × (h' : Handle) × (run calls new_handle
      ≡ some (arrived, got, h'))
    × (got ++ unread h' ≡ arrived)
    × IsValid h'
run-stream_example = run-stream calls new_handle (omega arith) tt

run_test :
    run calls new_handle
    ≡ some (
      104 ∷ 105 ∷ 10 ∷ [],
      104 ∷ 105 ∷ 10 ∷ [],
      record { buf = 104 ∷ 105 ∷ 10 ∷ []; ptr = 3; len = ErrorCode.io; pending = false },
    )
unfolding run received finalize_async_read start_async_read
run_test = refl

abbrev termios : Termios
termios = record {
  vmin = 0;
  vtime = 0;
  ispeed = b9600;
  ospeed = b9600;
  csize = cs8;
  clocal = false;
  parenb = false;
  parodd = false;
  cstopb = false;
  crtscts = false;
  hupcl = false;
  ixon = false;
  ixoff = false;
  rest = 0;
}

abbrev dcb : Dcb
dcb = record {
  baud_rate = 300;
  byte_size = 7;
  checks_parity = true;
  parity = no_parity;
  two_stop_bits = true;
  out_cts_flow = true;
  out_dsr_flow = true;
  rts_enabled = true;
  dtr_enabled = true;
  out_x = true;
  in_x = true;
  rest = 5;
}

abbrev set_ispeed : Speed → Termios → Termios
set_ispeed s t = record t { ispeed = s }

abbrev set_ospeed : Speed → Termios → Termios
set_ospeed s t = record t { ospeed = s }

abbrev port : Device
port = record {
  attached = true;
  refcount = 1;
  key = 49 ∷ [];
  type = serial;
  vtable = posix_device;
  state = online;
  location = none;
  path = 67 ∷ [];
  vid = 1;
  pid = 2;
  manufacturer = none;
  product = none;
  serial_number = none;
  iface = 0;
  freed = false;
}

-- The last allocation fails.
abbrev no_buffer : Answers
no_buffer = record {
  allocated = true;
  file = none;
  overlapped = true;
  event = true;
  buffer = false;
  started = true;
}

port-IsLive : IsLive port
port-IsLive = record { live = refl; held = omega arith; room = omega arith }

open_win32_device-balance_example :
    (o : Attempt) × (open_win32_device no_buffer port ≡ some o) × Balanced port no_buffer o
open_win32_device-balance_example = open_win32_device-balance no_buffer port port-IsLive
