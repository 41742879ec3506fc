-- ===== src/Serial/Tests.antt =====
-- The serial theorems at concrete inputs.
use libhs.Base.{
  ℕ, ◌≡◌, ◌≤◌, refl, true, false, some, List, [], ◌∷◌, pos, take, length, length-take_le, subst, ap,
  arith,
}
use libhs.Posix.{Turn, eintr, failed, ready, restart_poll}
use libhs.Posix.Io.{Reply, failure, success, Io, returned, wait}
use libhs.Serial.Attributes.{Speed, b9600, b115200, cs5, Termios, set_attributes}
use libhs.Serial.Settings.{rate_of, control, flags_of, set_attributes-flags}
use libhs.Serial.Transfer.{Counts, read-Counts}
use libhs.Serial.{read}

abbrev set_ispeed : Speed → Termios → Termios
set_ispeed s t = record t { ispeed = s }

abbrev set_ospeed : Speed → Termios → Termios
set_ospeed s t = record t { ospeed = s }

abbrev before : Termios
before = record {
  vmin = 4;
  vtime = 7;
  ispeed = b9600;
  ospeed = b9600;
  csize = cs5;
  clocal = false;
  parenb = false;
  parodd = false;
  cstopb = true;
  crtscts = true;
  hupcl = true;
  ixon = true;
  ixoff = false;
  rest = 0;
}

-- 7 bits, even parity, RTS/CTS, no hang-up on close.
set_attributes-flags_example :
    (t : Termios) × (set_attributes
        (λ t. t)
        set_ispeed
        set_ospeed
        (some before)
        (λ t. true)
        115200
        201
      ≡ some (pos 0, some t))
    × (rate_of t.ispeed ≡ 115200)
    × (rate_of t.ospeed ≡ 115200)
    × (control t ≡ (1, 0, true))
    × (flags_of t ≡ 201)
set_attributes-flags_example =
    set_attributes-flags (λ t. t) set_ispeed set_ospeed before (λ t. true) b115200 201 (λ t. refl)
      (λ t. refl) (λ t e. e) (λ t. refl) (λ t. refl) (λ e. absurd (omega (arith, e)))
      (λ e. absurd (omega (arith, e)))

abbrev line : ℕ → Reply (List ℕ)
line n = success (take n (104 ∷ 105 ∷ 10 ∷ []))

abbrev bytes_of : Reply (List ℕ) → List ℕ
bytes_of (failure e) = []
bytes_of (success bytes) = bytes

line-fits : (n : ℕ) (bytes : List ℕ) → line n ≡ success bytes → length bytes ≤ n
line-fits n bytes e =
    subst (λ l. length l ≤ n) (ap bytes_of e) (length-take_le n (104 ∷ 105 ∷ 10 ∷ []))

abbrev turns : List (Turn (Unit {0}))
turns = record { now = 10; reply = failed eintr } ∷ record { now = 14; reply = ready tt } ∷ []

read-Counts_example :
    (io : Io (List ℕ)) × (read line (pos 50) 5 turns (0 ∷ 0 ∷ []) ≡ some io)
    × Counts (0 ∷ 0 ∷ []) io
read-Counts_example =
    read-Counts line (pos 50) 5 turns (0 ∷ 0 ∷ []) (λ e. absurd (omega (arith, e))) line-fits

read_test : read line (pos 50) 5 turns (0 ∷ 0 ∷ []) ≡ some (returned (pos 2) (104 ∷ 105 ∷ []))
unfolding read wait restart_poll
read_test = refl
