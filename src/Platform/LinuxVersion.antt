-- ===== src/Platform/LinuxVersion.antt =====
-- `hs_linux_version` of src/platform_posix.c and `detect_kernel26_byte_bug` of src/hid_linux.c. The
-- numbers that `sscanf` reads from `uname`'s release are an argument, 0 where it reads none.
use libhs.Base.{
  ℕ, ◌+◌, ◌*◌, ◌%◌, ◌^◌, ◌<◌, ◌≡◌, ◌↔◌, ◌⊎◌, Bool, true, false, not, ◌&&◌, if◌then◌else◌, ltb, leb,
  ◌==◌, arith,
}

pub record Release : Type 0 where
  pub major : ℕ
  pub minor : ℕ
  pub release : ℕ
  pub patch : ℕ

compose : ℕ → ℕ → ℕ → ℕ → ℕ
compose major minor release patch =
    (major * 10000000 + minor * 100000 + release * 1000 + patch) % 2 ^ 32

-- The result, and the new value of the static variable `version`.
unfoldable pub linux_version : (version : ℕ) → Release → ℕ × ℕ
unfolding compose
linux_version version name =
    if not (version == 0)
    then (version, version)
    else let fresh =
        (if leb 3 name.major
          then compose name.major name.minor 0 name.release
          else compose name.major name.minor name.release name.patch) in
      (fresh, fresh)

-- The static variables `init` and `bug`, and that of `hs_linux_version`.
pub record ByteBug : Type 0 where
  pub init : Bool
  pub bug : Bool
  pub version : ℕ

unfoldable pub detect_kernel26_byte_bug : ByteBug → Release → Bool × ByteBug
detect_kernel26_byte_bug s name =
    if s.init
    then (s.bug, s)
    else let (first, version) = linux_version s.version name in
      let bug = leb 20628000 first && ltb (linux_version version name).0 20634000 in
      (bug, record { init = true; bug = bug; version = version })

-- Numbers that the decimal places have room for.
pub record InRange (r : Release) : Type 0 where
  pub major : r.major < 400
  pub minor : r.minor < 100
  pub release : (r.major < 3 → r.release < 100) × (r.release < 1000)
  pub patch : r.patch < 1000

-- From 3.0 on a release has three numbers.
abbrev pub fourth : Release → ℕ
fourth r = if leb 3 r.major then 0 else r.patch

-- The order of releases, number by number.
abbrev pub Before : Release → Release → Type 0
Before a b =
    (a.major < b.major)
    ⊎ ((a.major ≡ b.major)
        × ((a.minor < b.minor)
            ⊎ ((a.minor ≡ b.minor)
                × ((a.release < b.release) ⊎ ((a.release ≡ b.release) × (fourth a < fourth b))))))

-- On releases whose numbers are in range the version numbers are ordered as the releases are.
pub linux_version-Before :
    (a b : Release)
    → InRange a
    → InRange b
    → ((linux_version 0 a).0 < (linux_version 0 b).0) ↔ Before a b
unfolding linux_version
linux_version-Before a b ha hb = ground arith

abbrev pub release_2_6_28 : Release
release_2_6_28 = record { major = 2; minor = 6; release = 28; patch = 0 }

abbrev pub release_2_6_34 : Release
release_2_6_34 = record { major = 2; minor = 6; release = 34; patch = 0 }

-- On a release whose numbers are in range, the first test for the byte bug says yes exactly from
-- 2.6.28 on and before 2.6.34, and every later test repeats the answer, whatever `uname` says then.
pub detect_kernel26_byte_bug_iff :
    (r later : Release)
    → InRange r
    → let (bug, s) =
        detect_kernel26_byte_bug (record { init = false; bug = false; version = 0 }) r in
      ((bug ≡ true) ↔ ((¬ Before r release_2_6_28) × Before r release_2_6_34))
      × (detect_kernel26_byte_bug s later ≡ (bug, s))
unfolding detect_kernel26_byte_bug linux_version
detect_kernel26_byte_bug_iff r later h = ground arith
