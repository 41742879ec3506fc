-- ===== src/Linux/Create.antt =====
-- `hs_enumerate`, `hs_monitor_new` and `hs_monitor_free` of src/monitor_linux.c. What libudev and the
-- allocations answer is an argument; the matches and filters for the subsystems are libudev's, and so
-- is what it gives back. The lock around `udev` is not modelled.
pub mod Outcome
mod Tests
use libhs.Base.{
  ℕ, Bool, true, false, not, Option, none, some, List, [], ◌∷◌, ℤ, pos, is_neg, int_eq,
  if◌then◌else◌, ◌>>=◌,
}
use libhs.ErrorCode
use libhs.Common.{Text}
use libhs.Device.{Device}
use libhs.Htable.{Htable, null}
use libhs.Monitor
use libhs.Monitor.{Monitor, Call}
use libhs.Linux.Events.{Found, pass_found}

-- An entry of the list of libudev, as `udev_device_new_from_syspath` answers for it.
pub data Entry : Type 0 where
  listed : Found → Entry
  unopened : (out_of_memory : Bool) → Entry

-- The calls of `hs_enumerate` that succeed.
pub record Scan : Type 0 where
  pub udev : Bool
  pub enumerate : Bool
  pub matches : Bool
  pub scanned : Bool
  pub entries : List Entry

module _ {W : Type 0} (strtoul : Text → (base : ℕ) → ℕ × Bool)
    (f : Monitor → (place : ℕ) → W → Option (ℤ × Monitor × W)) where
  -- The loop of `hs_enumerate`; `f` is its callback, and the monitor has the devices in memory.
  pub entries_loop : List Entry → Monitor → W → Option (ℤ × Monitor × W)
  entries_loop [] m w = some (pos 0, m, w)
  entries_loop (unopened out_of_memory ∷ es) m w =
      let rest = entries_loop es m w in
      if out_of_memory then some (ErrorCode.memory, m, w) else rest
  entries_loop (listed found ∷ es) m w = pass_found f strtoul found m w >>= λ o.
      let rest = entries_loop es o.1 o.2 in if int_eq o.0 (pos 0) then rest else some o

  pub enumerate : Scan → Monitor → W → Option (ℤ × Monitor × W)
  unfolding entries_loop
  enumerate scan m w =
      if not scan.udev
      then some (ErrorCode.system, m, w)
      else if not scan.enumerate
      then some (ErrorCode.memory, m, w)
      else if not scan.matches
      then some (ErrorCode.memory, m, w)
      else if not scan.scanned
      then some (ErrorCode.system, m, w)
      else entries_loop scan.entries m w

-- The calls of `hs_monitor_new` that succeed; `table` is the allocation of the cells.
pub record Answers : Type 0 where
  pub udev : Bool
  pub allocated : Bool
  pub netlink : Bool
  pub filters : Bool
  pub receiving : Bool
  pub table : Bool
  pub scan : Scan

-- `calloc`, with the devices in memory.
abbrev pub zeroed : (ℕ → Device) → Monitor
zeroed memory = record {
  callbacks = [];
  callback_id = 0;
  devices = record { size = 0; next = λ p. null; key = λ n. 0 };
  device = memory;
}

-- The result, the monitor if there is one, and the devices in memory.
abbrev pub Attempt : Type 0
Attempt = ℤ × Option Monitor × (ℕ → Device)

-- `hs_monitor_free`, of a monitor that is not null: the devices in memory.
unfoldable pub free : (fuel : ℕ) → Monitor → Option (ℕ → Device)
free fuel m = Monitor.release fuel m >>= λ m'. some m'.device

-- `error: hs_monitor_free(monitor); return r;`
pub give_up : (fuel : ℕ) → ℤ → Monitor → Option Attempt
unfolding free
give_up fuel r m = free fuel m >>= λ memory. some (r, none, memory)

module _ {W : Type 0} (call : Call W) (fuel : ℕ) (strtoul : Text → (base : ℕ) → ℕ × Bool) where
  -- The devices that are there already, through `monitor_enumerate_callback`.
  pub fill : Scan → Monitor → W → Option Attempt
  unfolding enumerate give_up
  fill scan m w = enumerate strtoul (Monitor.add call fuel) scan m w >>= λ o.
      let failed = give_up fuel o.0 o.1 in
      if is_neg o.0 then failed else some (pos 0, some o.1, o.1.device)

  -- The table, and what follows.
  pub set_up : (table : Bool) → Scan → Monitor → W → Option Attempt
  unfolding fill give_up
  set_up table scan m w =
      let (r, m') = Monitor.init table m in if is_neg r then give_up fuel r m' else fill scan m' w

  -- `hs_monitor_new`
  unfoldable pub create : Answers → (memory : ℕ → Device) → W → Option Attempt
  unfolding set_up give_up
  create a memory w =
      if not a.udev
      then some (ErrorCode.system, none, memory)
      else if not a.allocated
      then some (ErrorCode.memory, none, memory)
      else if not a.netlink
      then give_up fuel ErrorCode.system (zeroed memory)
      else if not a.filters
      then give_up fuel ErrorCode.system (zeroed memory)
      else if not a.receiving
      then give_up fuel ErrorCode.system (zeroed memory)
      else set_up a.table a.scan (zeroed memory) w
