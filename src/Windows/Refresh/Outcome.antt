-- ===== src/Windows/Refresh/Outcome.antt =====
-- What `hs_monitor_refresh` leaves of the monitor and of the notifications.
use libhs.Base.{
  ℕ, suc, ◌+◌, ◌≤◌, ◌<◌, ◌≡◌, ◌≢◌, refl, sym, ap, ◌∙◌, Bool, true, false, ◌==◌, Option, none, some,
  List, [], ◌∷◌, ◌++◌, ℤ, pos, is_neg, arith, length, Bool-cases, inl, inr,
}
use mathlib.Core.List.{append_assoc, append-nil}
use libhs.Common.{Text}
use libhs.Device.{Device}
use libhs.Htable.Buckets.{Buckets}
use libhs.Monitor
use libhs.Monitor.{Monitor, Call}
use libhs.Monitor.Known.{bucket}
use libhs.Linux.Events.{pass_read}
use libhs.Linux.Events.Owned.{IsOwned}
use libhs.Linux.Events.Reading.{Leaves, same-Leaves, add_read-Leaves}
use libhs.Linux.Events.Removal.{remove_path-Leaves}
use libhs.Windows.Location.Trail.{Trail, overrun, device_trail}
use libhs.Windows.Reading.Outcome.{Sound, process_win32_device-Sound}
use libhs.Windows.Notifications.{
  DeviceEvent, added, removed, Notification, Shared, Message, window_proc, take_notifications,
  put_back,
}
use libhs.Windows.Notifications.Queue.{accepted, window_proc-more}
use libhs.Windows.Refresh.{
  Arrival, Setting, read_arrival, receive, process_arrival_notification, handle_notification,
  handle_all, handle_taken, refresh,
}

-- What the code relies on: the way up from a node ends, and fits the array of ports.
pub record HasRoom (c : Setting) (x : Arrival) : Type 0 where
  pub room : length x.answers.ports ≡ 8
  pub way : Trail
  pub trail : device_trail c.vista c.controllers x.node x.parents ≡ some way
  pub fits : way ≢ overrun

abbrev pub Distinct : (ℕ → Arrival) → Type 0
Distinct arrivals = (i j : ℕ) → i ≢ j → (arrivals i).place ≢ (arrivals j).place

-- From the arrival `i` on, the places are free.
abbrev AllFree : (ℕ → Arrival) → (i : ℕ) → Monitor → Type 0
AllFree arrivals i m = (j : ℕ) → i ≤ j → (m.device (arrivals j).place).freed ≡ true

module _ {W : Type 0} (call : Call W) (fuel : ℕ) (c : Setting) where
  abbrev pub Ends : Monitor → Buckets → List ℕ → Option (ℤ × Monitor × W) → Type 0
  Ends m b used o =
      (r : ℤ) × (m' : Monitor) × (w' : W) × (b' : Buckets) × (o ≡ some (r, m', w'))
      × Leaves m b used m' b'

  pub read-Ends :
      (m : Monitor) (b : Buckets) (x : Arrival) (key : Option Text) (w : W) (t : Trail)
      (read : ℤ × Option Device)
      → IsOwned m b
      → (m.device x.place).freed ≡ true
      → ((i : ℕ) → i < m.devices.size → length (b i) < fuel)
      → Sound c.hid_guid x.answers key t read
      → Ends m b (x.place ∷ []) (pass_read (Monitor.add call fuel) x.place read m w)
  unfolding pass_read
  read-Ends m b x key w t (r, none) o free enough s =
      (r, m, w, b, refl, same-Leaves m b (x.place ∷ []) o)
  read-Ends m b x key w t (r, some dev) o free enough (one, l, way, p) =
      add_read-Leaves call fuel m b x.place w o free enough r dev p.started.live
        p.started.one_reference

  arrival-Ends :
      (x : Arrival) (key : Text) (m : Monitor) (b : Buckets) (w : W)
      → x.located ≡ true
      → HasRoom c x
      → IsOwned m b
      → (m.device x.place).freed ≡ true
      → ((i : ℕ) → i < m.devices.size → length (b i) < fuel)
      → Ends m b (x.place ∷ []) (process_arrival_notification call fuel c x key m w)
  unfolding process_arrival_notification read_arrival
  arrival-Ends x key m b w here there o free enough =
      let (read, done, s) =
        process_win32_device-Sound c.hid_guid c.scan c.vista c.controllers x.answers (some key)
          x.node x.parents there.way there.room there.trail there.fits in
      rw (here, free, done) (read-Ends m b x (some key) w there.way read o free enough s)

  handle-Ends :
      (x : Arrival) (event : DeviceEvent) (key : Text) (m : Monitor) (b : Buckets) (w : W)
      → x.located ≡ true
      → HasRoom c x
      → IsOwned m b
      → (m.device x.place).freed ≡ true
      → ((i : ℕ) → i < m.devices.size → length (b i) < fuel)
      → Ends m b
          (x.place ∷ [])
          (handle_notification call fuel c x (record { event = event; key = key }) m w)
  unfolding handle_notification
  handle-Ends x added key m b w here there o free enough =
      arrival-Ends x key m b w here there o free enough
  handle-Ends x removed key m b w here there o free enough =
      let (r, m', w', b', done, l) =
        remove_path-Leaves call fuel m b key w o
          (enough (bucket m key) (omega (arith, o.valid.table.positive))) in
      (
        r,
        m',
        w',
        b',
        done,
        record { owned = l.owned; size = l.size; growth = l.growth; free = λ y out. l.free y refl },
      )

  module _ (arrivals : ℕ → Arrival) (here : (i : ℕ) → (arrivals i).located ≡ true)
      (there : (i : ℕ) → HasRoom c (arrivals i)) (distinct : Distinct arrivals) where
    next-AllFree :
        (i : ℕ) (m m' : Monitor) (b b' : Buckets)
        → Leaves m b ((arrivals i).place ∷ []) m' b'
        → AllFree arrivals i m
        → AllFree arrivals (suc i) m'
    next-AllFree i m m' b b' l free j later =
        let ne = distinct j i (omega arith) in
        l.free (arrivals j).place (ground (arith, ne)) (free j (omega arith))

    -- The loop handles a first part, and all of it where the result is not negative.
    handle_all-Owned :
        (i : ℕ) (ns : List Notification) (m : Monitor) (b : Buckets) (w : W)
        → IsOwned m b
        → AllFree arrivals i m
        → ((j : ℕ) → j < m.devices.size → length (b j) + length ns < fuel)
        → (r : ℤ) × (rest : List Notification) × (m' : Monitor) × (w' : W) × (b' : Buckets)
          × (done : List Notification) × (handle_all call fuel c arrivals i ns m w
              ≡ some (r, rest, m', w'))
          × IsOwned m' b'
          × (ns ≡ done ++ rest)
          × (is_neg r ≡ false → rest ≡ [])
    unfolding handle_all
    handle_all-Owned i [] m b w o free enough = (pos 0, [], m, w, b, [], refl, o, refl, λ on. refl)
    handle_all-Owned i (n ∷ ns) m b w o free enough =
        let (r, m', w', b', done, l) =
          handle-Ends (arrivals i) n.event n.key m b w (here i) (there i) o (free i (omega arith))
            (λ j hj. omega (arith, enough j hj)) in
        let (r', rest, m'', w'', b'', handled, done', o', parts, all) =
          handle_all-Owned (suc i) ns m' b' w' l.owned (next-AllFree i m m' b b' l free) (λ j hj.
            let hj' : j < m.devices.size = omega (arith, l.size) in
            omega (arith, enough j hj', l.growth j hj')) in
        elim (Bool-cases (is_neg r)) [
          | inl failed ↦
              (r, ns, m', w', b', n ∷ [], rw (done, failed) refl, l.owned, refl, λ on. absurd (cc))
          | inr on ↦ (
            r',
            rest,
            m'',
            w'',
            b'',
            n ∷ handled,
            rw (done, on) done',
            o',
            ap (λ l. n ∷ l) parts,
            all,
          )
        ]

-- The notifications that messages queue.
abbrev pub accepted_all : List Message → List Notification
accepted_all [] = []
accepted_all (m ∷ ms) = accepted m ++ accepted_all ms

receive-more :
    (ms : List Message) (s : Shared)
    → (receive ms s).notifications ≡ s.notifications ++ accepted_all ms
unfolding receive
receive-more [] s = sym (append-nil s.notifications)
receive-more (m ∷ ms) s =
    receive-more ms (window_proc m s)
    ∙ ap (λ l. l ++ accepted_all ms) (window_proc-more m s)
    ∙ append_assoc s.notifications (accepted m) (accepted_all ms)

-- What is put back, and the event.
put_back-both :
    (ns : List Notification) (s : Shared)
    → ((put_back ns s).notifications ≡ ns ++ s.notifications)
      × ((put_back ns s).notifications ≡ [] → (put_back ns s).signalled ≡ false)
unfolding put_back
put_back-both ns s = elim (Bool-cases (length (ns ++ s.notifications) == 0)) [
  | inl empty ↦ rw (put_back, empty) (refl, λ e. refl)
  | inr more ↦
      rw (put_back, more)
        (
          refl,
          λ e. let size : length (ns ++ s.notifications) ≡ 0 = ap length e in absurd (ground arith),
        )
]

-- What a refresh leaves, where `done` is what it handled.
pub record Refreshed (s : Shared) (messages : List Message) (r : ℤ) (s' : Shared)
    (done : List Notification) : Type 0 where
  pub order : done ++ s'.notifications ≡ s.notifications ++ accepted_all messages
  pub complete : is_neg r ≡ false → done ≡ s.notifications
  pub quiet : s'.notifications ≡ [] → s'.signalled ≡ false

Refreshed-of :
    (s : Shared) (messages : List Message) (r : ℤ) (done rest : List Notification)
    → s.notifications ≡ done ++ rest
    → (is_neg r ≡ false → rest ≡ [])
    → Refreshed s messages r (put_back rest (receive messages (take_notifications s).1)) done
unfolding take_notifications
Refreshed-of s messages r done rest parts all =
    let taken = (take_notifications s).1 in
    let (back, quiet) = put_back-both rest (receive messages taken) in
    record {
      order =
          ap (λ l. done ++ l) (back ∙ ap (λ l. rest ++ l) (receive-more messages taken))
          ∙ sym (append_assoc done rest (accepted_all messages))
          ∙ ap (λ l. l ++ accepted_all messages) (sym parts);
      complete = λ on. sym (append-nil done) ∙ ap (λ l. done ++ l) (sym (all on)) ∙ sym parts;
      quiet = quiet;
    }

module _ {W : Type 0} (call : Call W) (fuel : ℕ) (c : Setting) (arrivals : ℕ → Arrival)
    (messages : List Message) (s : Shared) (m : Monitor) (b : Buckets) (w : W) (o : IsOwned m b)
    (here : (i : ℕ) → (arrivals i).located ≡ true) (there : (i : ℕ) → HasRoom c (arrivals i))
    (distinct : Distinct arrivals) (free : (i : ℕ) → (m.device (arrivals i).place).freed ≡ true)
    (enough : (i : ℕ) → i < m.devices.size → length (b i) + length s.notifications < fuel) where
  abbrev Result : Type 0
  Result =
      (r : ℤ) × (s' : Shared) × (m' : Monitor) × (w' : W) × (b' : Buckets) × (done : List
        Notification)
      × (refresh call fuel c arrivals messages s m w ≡ some (r, s', m', w'))
      × IsOwned m' b'
      × Refreshed s messages r s' done

  taken-Result : (failed : Bool) → is_neg s.ret ≡ failed → Result
  unfolding refresh handle_taken take_notifications
  taken-Result true e = (
    s.ret,
    put_back s.notifications (receive messages (take_notifications s).1),
    m,
    w,
    b,
    [],
    rw e refl,
    o,
    Refreshed-of s messages s.ret [] s.notifications refl (λ on. absurd (cc)),
  )
  taken-Result false e =
      let (r, rest, m', w', b', done, handled, o', parts, all) =
        handle_all-Owned call fuel c arrivals here there distinct 0 s.notifications m b w o
          (λ j low. free j) enough in
      (
        r,
        put_back rest (receive messages (take_notifications s).1),
        m',
        w',
        b',
        done,
        rw (e, handled) refl,
        o',
        Refreshed-of s messages r done rest parts all,
      )

  -- A monitor of which all known devices have one reference, while no other device is in memory,
  -- stays such a monitor under `hs_monitor_refresh`, whatever the other answers of Windows, the
  -- allocations and the callbacks are. The hypotheses are that the node of each arrival is there,
  -- that its location fits the array of ports, that `calloc` gives free memory, each place once, and
  -- that there is more fuel than any bucket has devices and the queue notifications. The function
  -- ends without a fault. It handles a first part of the queue, all of it where the result is not
  -- negative; the rest is queued again, in front of what the window received meanwhile; and the event
  -- is reset where nothing is left.
  pub refresh-Refreshed : Result
  refresh-Refreshed = taken-Result (is_neg s.ret) refl
