-- ===== src/Linux/Tests.antt =====
-- A serial adapter behind a hub.
use libhs.Base.{ℕ, ◌-◌, ◌≡◌, refl, Bool, true, false, some, none, [], ◌∷◌, pos}
use libhs.Common.{Text}
use libhs.Linux.{◌>>>◌, Usb, Aggregate, Allocated, tty_text, read_device_information}
use libhs.Linux.Details.{Sound, read_device_information-Sound}

abbrev usb : Usb
usb = record {
  busnum = some (49 ∷ []);
  devpath = some (50 ∷ 46 ∷ 51 ∷ []);
  id_vendor = some (49 ∷ []);
  id_product = some (50 ∷ []);
  manufacturer = none;
  product = some (80 ∷ []);
  serial_number = none;
}

abbrev adapter : Aggregate
adapter = record {
  subsystem = some tty_text;
  devnode = some (47 ∷ 116 ∷ []);
  exists = true;
  devpath = 47 ∷ 115 ∷ [];
  usb = some usb;
  iface = some (46 ∷ 48 ∷ []);
}

abbrev all_allocated : Allocated
all_allocated = record {
  device = true;
  path = true;
  key = true;
  location = true;
  manufacturer = true;
  product = true;
  serial_number = true;
}

-- The first digit.
abbrev digit : Text → (base : ℕ) → ℕ × Bool
digit [] base = (0, false)
digit (c ∷ s) base = (c - 48, false)

read_device_information-Sound_example :
    Sound adapter (read_device_information digit all_allocated adapter)
read_device_information-Sound_example = read_device_information-Sound digit all_allocated adapter

result_test : (read_device_information digit all_allocated adapter).0 ≡ pos 1
unfolding read_device_information ◌>>>◌
result_test = refl
