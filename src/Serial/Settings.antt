-- ===== src/Serial/Settings.antt =====
-- What `hs_serial_set_attributes` asks of the kernel, read back from the settings.
use libhs.Base.{
  ℕ, ◌+◌, ◌*◌, ◌/◌, ◌%◌, ◌≡◌, ◌≢◌, refl, ap, ◌∙◌, Bool, true, false, not, some, pos, if◌then◌else◌,
  ◌==◌, arith, ◌⊎◌, inl, inr, Bool-cases, Option-cases, none,
}
use libhs.ErrorCode
use libhs.Serial.Attributes.{
  Speed, b110, b134, b150, b200, b300, b600, b1200, b1800, b2400, b4800, b9600, b19200, b38400,
  b57600, b115200, CharacterSize, cs5, cs6, cs7, cs8, Termios, speed, set_csize, set_parity,
  set_stop, set_flow, set_hupcl, set_flags, configure, set_attributes,
}

-- The baud rate that a constant is named after.
abbrev pub rate_of : Speed → ℕ
rate_of b110 = 110
rate_of b134 = 134
rate_of b150 = 150
rate_of b200 = 200
rate_of b300 = 300
rate_of b600 = 600
rate_of b1200 = 1200
rate_of b1800 = 1800
rate_of b2400 = 2400
rate_of b4800 = 4800
rate_of b9600 = 9600
rate_of b19200 = 19200
rate_of b38400 = 38400
rate_of b57600 = 57600
rate_of b115200 = 115200

pub speed-rate_of : (s : Speed) → speed (rate_of s) ≡ some s
unfolding speed
speed-rate_of b110 = refl
speed-rate_of b134 = refl
speed-rate_of b150 = refl
speed-rate_of b200 = refl
speed-rate_of b300 = refl
speed-rate_of b600 = refl
speed-rate_of b1200 = refl
speed-rate_of b1800 = refl
speed-rate_of b2400 = refl
speed-rate_of b4800 = refl
speed-rate_of b9600 = refl
speed-rate_of b19200 = refl
speed-rate_of b38400 = refl
speed-rate_of b57600 = refl
speed-rate_of b115200 = refl

-- The flags that describe a setting.
abbrev pub csize_flags : CharacterSize → ℕ
csize_flags cs8 = 0
csize_flags cs7 = 1
csize_flags cs6 = 2
csize_flags cs5 = 3

-- Odd parity that is not turned on has the mask of both parities, which no valid flags have.
abbrev pub parity_flags : (parenb parodd : Bool) → ℕ
parity_flags false false = 0
parity_flags false true = 12
parity_flags true true = 4
parity_flags true false = 8

abbrev pub stop_flags : (cstopb : Bool) → ℕ
stop_flags false = 0
stop_flags true = 16

-- Any other mix of the three settings has the mask of both flow controls.
abbrev pub flow_flags : (crtscts ixon ixoff : Bool) → ℕ
flow_flags false false false = 0
flow_flags false true true = 32
flow_flags true false false = 64
flow_flags false false true = 96
flow_flags false true false = 96
flow_flags true false true = 96
flow_flags true true x = 96

abbrev pub close_flags : (hupcl : Bool) → ℕ
close_flags true = 0
close_flags false = 128

abbrev pub flags_of : Termios → ℕ
flags_of t =
    csize_flags t.csize
    + parity_flags t.parenb t.parodd
    + stop_flags t.cstopb
    + flow_flags t.crtscts t.ixon t.ixoff
    + close_flags t.hupcl

set_csize-flags :
    (flags : ℕ) (tio : Termios)
    → (c : CharacterSize) × (set_csize flags tio ≡ record tio { csize = c })
      × (csize_flags c ≡ flags % 4)
unfolding set_csize
set_csize-flags flags tio = ((set_csize flags tio).csize, refl, ground arith)

pub mod_four-cases : (n : ℕ) → n % 4 ≢ 3 → (n % 4 ≡ 0) ⊎ ((n % 4 ≡ 1) ⊎ (n % 4 ≡ 2))
mod_four-cases n valid = elim (Bool-cases (n % 4 == 0)) [
  | inl a ↦ inl (ground arith)
  | inr a ↦ elim (Bool-cases (n % 4 == 1)) [
    | inl b ↦ inr (inl (ground arith))
    | inr b ↦ inr (inr (ground arith))
  ]
]

set_parity-valid :
    (flags : ℕ) (tio : Termios)
    → flags / 4 % 4 ≢ 3
    → set_parity flags tio
      ≡ some (record tio { parenb = not (flags / 4 % 4 == 0); parodd = flags / 4 % 4 == 1 })
unfolding set_parity
set_parity-valid flags tio valid = elim (mod_four-cases (flags / 4) valid) [
  | inl e ↦ rw e
  | inr (inl e) ↦ rw e
  | inr (inr e) ↦ rw e
]

parity_flags-mask : (n : ℕ) → n % 4 ≢ 3 → parity_flags (not (n % 4 == 0)) (n % 4 == 1) ≡ n % 4 * 4
parity_flags-mask n valid = elim (mod_four-cases n valid) [
  | inl e ↦ rw e
  | inr (inl e) ↦ rw e
  | inr (inr e) ↦ rw e
]

set_flow-valid :
    (flags : ℕ) (tio : Termios)
    → flags / 32 % 4 ≢ 3
    → set_flow flags tio
      ≡ some (record tio {
        crtscts = flags / 32 % 4 == 2;
        ixon = flags / 32 % 4 == 1;
        ixoff = flags / 32 % 4 == 1;
      })
unfolding set_flow
set_flow-valid flags tio valid = elim (mod_four-cases (flags / 32) valid) [
  | inl e ↦ rw e
  | inr (inl e) ↦ rw e
  | inr (inr e) ↦ rw e
]

flow_flags-mask :
    (n : ℕ) → n % 4 ≢ 3 → flow_flags (n % 4 == 2) (n % 4 == 1) (n % 4 == 1) ≡ n % 4 * 32
flow_flags-mask n valid = elim (mod_four-cases n valid) [
  | inl e ↦ rw e
  | inr (inl e) ↦ rw e
  | inr (inr e) ↦ rw e
]

stop_flags-bit : (flags : ℕ) → stop_flags (not (flags / 16 % 2 * 16 == 0)) ≡ flags / 16 % 2 * 16
stop_flags-bit flags = ground arith

close_flags-bit : (flags : ℕ) → close_flags (flags / 128 % 2 * 128 == 0) ≡ flags / 128 % 2 * 128
close_flags-bit flags = ground arith

-- The sum of the masks is the low byte.
masks-byte :
    (flags : ℕ)
    → flags % 4
        + flags / 4 % 4 * 4
        + flags / 16 % 2 * 16
        + flags / 32 % 4 * 32
        + flags / 128 % 2 * 128
      ≡ flags % 256
masks-byte flags = omega arith

-- The settings that are made before the flags.
abbrev pub control : Termios → ℕ × ℕ × Bool
control t = (t.vmin, t.vtime, t.clocal)

-- The settings that flags without both parities and both flow controls ask for.
abbrev pub asked : (flags : ℕ) → Termios → Termios
asked flags tio = record tio {
  csize = (set_csize flags tio).csize;
  parenb = not (flags / 4 % 4 == 0);
  parodd = flags / 4 % 4 == 1;
  cstopb = not (flags / 16 % 2 * 16 == 0);
  crtscts = flags / 32 % 4 == 2;
  ixon = flags / 32 % 4 == 1;
  ixoff = flags / 32 % 4 == 1;
  hupcl = flags / 128 % 2 * 128 == 0;
}

pub set_flags-asked :
    (flags : ℕ) (tio : Termios)
    → flags / 4 % 4 ≢ 3
    → flags / 32 % 4 ≢ 3
    → set_flags flags tio ≡ some (asked flags tio)
unfolding set_flags set_csize set_stop set_hupcl
set_flags-asked flags tio parity flow =
    rw (set_flags, set_parity-valid flags (set_csize flags tio) parity, set_flow-valid flags _ flow)
      refl

asked-flags :
    (flags : ℕ) (tio : Termios)
    → flags / 4 % 4 ≢ 3
    → flags / 32 % 4 ≢ 3
    → flags_of (asked flags tio) ≡ flags % 256
asked-flags flags tio parity flow =
    let (c, sized, c_flags) = set_csize-flags flags tio in
    rw
      (
        sized,
        c_flags,
        parity_flags-mask (flags / 4) parity,
        flow_flags-mask (flags / 32) flow,
        stop_flags-bit flags,
        close_flags-bit flags,
      )
      (masks-byte flags)

-- Both parities, or both flow controls, fail an assertion.
pub set_flags-none :
    (flags : ℕ) (tio : Termios)
    → (flags / 4 % 4 ≡ 3) ⊎ (flags / 32 % 4 ≡ 3)
    → set_flags flags tio ≡ none
unfolding set_flags set_parity set_flow
set_flags-none flags tio (inl both) = rw both
set_flags-none flags tio (inr both) = elim (Option-cases (set_parity flags (set_csize flags tio))) [
  | inl failed ↦ rw (set_parity, failed)
  | inr (tio1, e) ↦ rw (e, both)
]

-- Let `cfsetispeed` and `cfsetospeed` store their speed, the second one not take away an equal
-- speed of the first, and both leave `VMIN`, `VTIME` and `CLOCAL`; let the flags have at most one
-- parity and one flow control. Then, for each rate of the library and whatever `cfmakeraw` does,
-- `hs_serial_set_attributes` gives to `tcsetattr` settings with this rate in both directions, with
-- `VMIN` 1, `VTIME` 0 and `CLOCAL`, and with exactly the flags that were asked for; its result is 0
-- if they are accepted and the system error if not.
pub set_attributes-flags :
    (cfmakeraw : Termios → Termios) (cfsetispeed cfsetospeed : Speed → Termios → Termios)
    (tio : Termios) (accepts : Termios → Bool) (s : Speed) (flags : ℕ)
    → ((t : Termios) → (cfsetispeed s t).ispeed ≡ s)
    → ((t : Termios) → (cfsetospeed s t).ospeed ≡ s)
    → ((t : Termios) → t.ispeed ≡ s → (cfsetospeed s t).ispeed ≡ s)
    → ((t : Termios) → control (cfsetispeed s t) ≡ control t)
    → ((t : Termios) → control (cfsetospeed s t) ≡ control t)
    → flags / 4 % 4 ≢ 3
    → flags / 32 % 4 ≢ 3
    → (t : Termios) × (set_attributes cfmakeraw cfsetispeed cfsetospeed
          (some tio)
          accepts
          (rate_of s)
          flags
        ≡ some (if accepts t then pos 0 else ErrorCode.system, some t))
      × (rate_of t.ispeed ≡ rate_of s)
      × (rate_of t.ospeed ≡ rate_of s)
      × (control t ≡ (1, 0, true))
      × (flags_of t ≡ flags % 256)
unfolding set_attributes configure
set_attributes-flags cfmakeraw cfsetispeed cfsetospeed tio accepts s flags ispeed ospeed keeps
      icontrol ocontrol parity flow =
    let raw : Termios = record (cfmakeraw tio) { vmin = 1; vtime = 0; clocal = true } in
    let first = cfsetispeed s raw in
    let both = cfsetospeed s first in
    (
      asked flags both,
      rw (configure, speed-rate_of s, set_flags-asked flags both parity flow) refl,
      ap rate_of (keeps first (ispeed raw)),
      ap rate_of (ospeed first),
      ocontrol first ∙ icontrol raw,
      asked-flags flags both parity flow,
    )
