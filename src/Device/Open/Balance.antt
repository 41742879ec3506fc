-- ===== src/Device/Open/Balance.antt =====
-- An open handle holds one reference to its device, and no other way out of `hs_device_open` leaves
-- a reference or a descriptor behind.
use libhs.Base.{
  ℕ, ◌≡◌, refl, true, ◌&&◌, Option, none, some, List, [], ◌∷◌, ℤ, pos, negsuc, is_neg,
  if◌then◌else◌, take, arith, Bool-cases, inl, inr,
}
use libhs.ErrorCode
use libhs.Posix.{Errno}
use libhs.Posix.Io.{Reply, failure, success, restart}
use libhs.HidDescriptor.{no_usage}
use libhs.HidDescriptor.Total.{parse_descriptor-total}
use libhs.Device.{Device, Vtable, posix_device, linux_hid, is_online}
use libhs.Device.Live.{IsLive, raised, ref-raised, unref-raised}
use libhs.Device.Open.{
  Answers, Handle, Attempt, pending, ended, open_error, close_posix_device, close_hidraw_device,
  close_by, handle_close, give_up, opened_posix, open_posix_device, describe_hidraw, opened_hidraw,
  open_hidraw_device, open_by, device_open,
}

-- The descriptors that `open` gave, -1 at a failure.
abbrev pub given : Option (Reply ℕ) → List ℤ
given none = []
given (some (failure e)) = negsuc 0 ∷ []
given (some (success fd)) = pos fd ∷ []

abbrev pub opened : Answers → Device → List ℤ
opened a dev = if is_online dev.state && a.allocated then given (restart a.opens) else []

-- A failure leaves the device as it was, with what was opened closed; a success leaves one more
-- reference and an open descriptor, and closing the handle takes both back.
abbrev pub Balanced : Device → List ℤ → Attempt → Type 0
Balanced dev fds (pending dev') = dev' ≡ raised dev
Balanced dev fds (ended r none dev' closed) = (is_neg r ≡ true) × (dev' ≡ dev) × (closed ≡ fds)
Balanced dev fds (ended r (some h) dev' closed) =
    (r ≡ pos 0)
    × (dev' ≡ raised dev)
    × (closed ≡ [])
    × (h.fd ∷ [] ≡ fds)
    × (handle_close (some h) dev' ≡ some (dev, h.fd ∷ []))

abbrev pub Ends : Device → List ℤ → Option Attempt → Type 0
Ends dev fds result = (o : Attempt) × (result ≡ some o) × Balanced dev fds o

open_error-negative : (e : Errno) → is_neg (open_error e) ≡ true
unfolding open_error
open_error-negative e = ground arith

module _ (dev : Device) (live : IsLive dev) where
  close_by-raised : (v : Vtable) (h : Handle) → close_by v h (raised dev) ≡ some (dev, h.fd ∷ [])
  unfolding close_by close_posix_device close_hidraw_device
  close_by-raised posix_device h = rw (unref-raised dev live) refl
  close_by-raised linux_hid h = rw (unref-raised dev live) refl

  handle_close-raised : (h : Handle) → handle_close (some h) (raised dev) ≡ some (dev, h.fd ∷ [])
  unfolding handle_close
  handle_close-raised h = close_by-raised dev.vtable h

  give_up-Ends :
      (r : ℤ) (h : Handle)
      → is_neg r ≡ true
      → Ends dev (h.fd ∷ []) (give_up r (some h) (raised dev))
  unfolding give_up
  give_up-Ends r h negative =
      (ended r none dev (h.fd ∷ []), rw (handle_close-raised h) refl, (negative, refl, refl))

  opened_posix-Ends :
      (reply : Option (Reply ℕ)) → Ends dev (given reply) (opened_posix reply (raised dev))
  unfolding opened_posix
  opened_posix-Ends none = (pending (raised dev), refl, refl)
  opened_posix-Ends (some (failure e)) =
      give_up-Ends (open_error e) (record { fd = negsuc 0; report = no_usage })
        (open_error-negative e)
  opened_posix-Ends (some (success fd)) =
      let h : Handle = record { fd = pos fd; report = no_usage } in
      (
        ended (pos 0) (some h) (raised dev) [],
        refl,
        (refl, refl, refl, refl, handle_close-raised h),
      )

  describe_hidraw-Ends :
      (size : Reply ℕ) (descriptor : Reply (List ℕ)) (h : Handle)
      → Ends dev (h.fd ∷ []) (describe_hidraw size descriptor h (raised dev))
  unfolding describe_hidraw
  describe_hidraw-Ends (failure e) descriptor h = give_up-Ends ErrorCode.system h refl
  describe_hidraw-Ends (success size) (failure e) h = give_up-Ends ErrorCode.system h refl
  describe_hidraw-Ends (success size) (success value) h =
      let (u, scanned) = parse_descriptor-total (take size value) h.report in
      let h' : Handle = record h { report = u } in
      (
        ended (pos 0) (some h') (raised dev) [],
        rw scanned refl,
        (refl, refl, refl, refl, handle_close-raised h'),
      )

  opened_hidraw-Ends :
      (reply : Option (Reply ℕ)) (size : Reply ℕ) (descriptor : Reply (List ℕ))
      → Ends dev (given reply) (opened_hidraw reply size descriptor (raised dev))
  unfolding opened_hidraw
  opened_hidraw-Ends none size descriptor = (pending (raised dev), refl, refl)
  opened_hidraw-Ends (some (failure e)) size descriptor =
      give_up-Ends (open_error e) (record { fd = negsuc 0; report = no_usage })
        (open_error-negative e)
  opened_hidraw-Ends (some (success fd)) size descriptor =
      describe_hidraw-Ends size descriptor (record { fd = pos fd; report = no_usage })

  open_by-Ends :
      (v : Vtable) (a : Answers)
      → Ends dev (if a.allocated then given (restart a.opens) else []) (open_by v a dev)
  unfolding open_by open_posix_device open_hidraw_device give_up handle_close
  open_by-Ends posix_device a = elim (Bool-cases a.allocated) [
    | inl got ↦ rw (got, ref-raised dev live) (opened_posix-Ends (restart a.opens))
    | inr failed ↦ rw failed (ended ErrorCode.memory none dev [], refl, (refl, refl, refl))
  ]
  open_by-Ends linux_hid a = elim (Bool-cases a.allocated) [
    | inl got ↦
        rw (got, ref-raised dev live) (opened_hidraw-Ends (restart a.opens) a.size a.descriptor)
    | inr failed ↦ rw failed (ended ErrorCode.memory none dev [], refl, (refl, refl, refl))
  ]

-- On a device that is not freed, with at least one reference and room for one more,
-- `hs_device_open` ends without a fault, whatever the kernel answers. While `open` is interrupted,
-- the attempt holds one reference. If it fails, the result is negative, the device is as before and
-- what `open` gave is closed. If it succeeds, the result is 0, the device has one more reference,
-- nothing is closed, and `hs_handle_close` closes the descriptor and restores the device.
pub device_open-balance :
    (a : Answers) (dev : Device) → IsLive dev → Ends dev (opened a dev) (device_open a dev)
unfolding device_open
device_open-balance a dev live = elim (Bool-cases (is_online dev.state)) [
  | inl on ↦ rw on (open_by-Ends dev live dev.vtable a)
  | inr off ↦ rw off (ended ErrorCode.not_found none dev [], refl, (refl, refl, refl))
]
