-- ===== src/Device/Open/Tests.antt =====
-- Opening and closing at concrete answers.
use libhs.Base.{refl, true, false, none, [], ◌∷◌, pos, arith}
use libhs.Posix.{eintr, enxio}
use libhs.Posix.Io.{failure, success, restart}
use libhs.Device.{Device, online, hid, linux_hid}
use libhs.Device.Open.{Answers, device_open}
use libhs.Device.Live.{IsLive}
use libhs.Device.Open.Balance.{Ends, device_open-balance}

abbrev keyboard : Device
keyboard = record {
  attached = true;
  refcount = 2;
  key = 47 ∷ [];
  type = hid;
  vtable = linux_hid;
  state = online;
  location = none;
  path = 47 ∷ 100 ∷ [];
  vid = 1;
  pid = 2;
  manufacturer = none;
  product = none;
  serial_number = none;
  iface = 0;
  freed = false;
}

-- The device goes away between `open` and the second `ioctl`.
abbrev gone : Answers
gone = record {
  allocated = true;
  opens = failure eintr ∷ success 7 ∷ [];
  size = success 4;
  descriptor = failure enxio;
}

keyboard-IsLive : IsLive keyboard
keyboard-IsLive = record { live = refl; held = omega arith; room = omega arith }

device_open-balance_example : Ends keyboard (pos 7 ∷ []) (device_open gone keyboard)
unfolding restart
device_open-balance_example = device_open-balance gone keyboard keyboard-IsLive
