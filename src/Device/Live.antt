-- ===== src/Device/Live.antt =====
-- Taking a reference and dropping it again.
use libhs.Base.{◌+◌, ◌-◌, ◌%◌, ◌^◌, ◌<◌, ◌≡◌, false, some, arith, lt→ltb}
use libhs.Device.{Device, ref, unref}

-- A device that may be used, and that takes one more reference without a wrap.
pub record IsLive (dev : Device) : Type 0 where
  pub live : dev.freed ≡ false
  pub held : 0 < dev.refcount
  pub room : dev.refcount + 1 < 2 ^ 32

-- The device with one more reference.
abbrev pub raised : Device → Device
raised dev = record dev { refcount = dev.refcount + 1 }

pub ref-raised : (dev : Device) → IsLive dev → ref dev ≡ some (raised dev)
unfolding ref
ref-raised dev h =
    let wrap : (dev.refcount + 1) % 2 ^ 32 ≡ dev.refcount + 1 = omega (arith, h.room) in
    rw (h.live, wrap)

pub unref-raised : (dev : Device) → IsLive dev → unref (raised dev) ≡ some dev
unfolding unref
unref-raised dev h =
    let wrap : (dev.refcount + 1 + 2 ^ 32 - 1) % 2 ^ 32 ≡ dev.refcount = omega (arith, h.room) in
    rw (lt→ltb 1 (dev.refcount + 1) (omega (arith, h.held)), wrap, h.live)
