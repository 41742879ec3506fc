-- ===== src/Win32/Attributes/Agreement.antt =====
-- The two backends accept the same attributes, and ask for the same settings.
use libhs.Base.{ℕ, ◌*◌, ◌/◌, ◌%◌, ◌≡◌, Bool, true, false, not, Option, none, some, ◌==◌}
use libhs.Serial.Attributes
use libhs.Serial.Attributes.{CharacterSize, cs5, cs6, cs7, cs8, Termios}
use libhs.Serial.Settings.{rate_of}
use libhs.Win32.Attributes.{Parity, no_parity, odd_parity, even_parity, Dcb, byte_size}

-- A setting of one version and the setting of the other that means the same.
abbrev pub bits_of : CharacterSize → ℕ
bits_of cs5 = 5
bits_of cs6 = 6
bits_of cs7 = 7
bits_of cs8 = 8

abbrev pub parity_of : (parenb parodd : Bool) → Parity
parity_of false o = no_parity
parity_of true true = odd_parity
parity_of true false = even_parity

-- The settings that flags without both parities and both flow controls ask for.
abbrev asked_of_dcb : (rate flags : ℕ) → Dcb → Dcb
asked_of_dcb rate flags d = record d {
  baud_rate = rate;
  byte_size = byte_size flags;
  checks_parity = not (flags / 4 % 4 == 0);
  parity = parity_of (not (flags / 4 % 4 == 0)) (flags / 4 % 4 == 1);
  two_stop_bits = not (flags / 16 % 2 * 16 == 0);
  out_cts_flow = flags / 32 % 4 == 2;
  out_dsr_flow = false;
  rts_enabled = flags / 32 % 4 == 2;
  dtr_enabled = false;
  out_x = flags / 32 % 4 == 1;
  in_x = flags / 32 % 4 == 1;
}

-- Every setting that either version makes of the attributes has its counterpart in the other: the
-- rate, the size of a character, the parity, the stop bits, and the flow control in both directions.
-- The lines that the library does not use for flow control are left alone.
abbrev pub Same : (rate : ℕ) → Termios → Dcb → Type 0
Same rate t d =
    (d.baud_rate ≡ rate)
    × (rate_of t.ispeed ≡ rate)
    × (rate_of t.ospeed ≡ rate)
    × (d.byte_size ≡ bits_of t.csize)
    × (d.checks_parity ≡ t.parenb)
    × (d.parity ≡ parity_of t.parenb t.parodd)
    × (d.two_stop_bits ≡ t.cstopb)
    × (d.out_cts_flow ≡ t.crtscts)
    × (d.rts_enabled ≡ t.crtscts)
    × (d.out_x ≡ t.ixon)
    × (d.in_x ≡ t.ixoff)
    × (d.out_dsr_flow ≡ false)
    × (d.dtr_enabled ≡ false)

-- Both versions fail an assertion, or both go on to the system with the same settings.
abbrev pub Agree : (rate : ℕ) → Option Termios → Option Dcb → Type 0
Agree rate none none = Unit
Agree rate none (some d) = ⊥
Agree rate (some t) none = ⊥
Agree rate (some t) (some d) = Same rate t d
