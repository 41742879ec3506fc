-- ===== src/Windows/Notifications/Queue.antt =====
-- Any interleaving of the window's messages with `hs_monitor_refresh`: what becomes of the
-- notifications, and of the event that a client waits for.
use libhs.Base.{
  ◌≡◌, refl, sym, ap, ◌∙◌, Bool, true, false, ◌&&◌, none, some, List, [], ◌∷◌, ◌++◌, ℤ, pos, negsuc,
  is_neg, if◌then◌else◌, ◌==◌, arith, length, Bool-cases, inl, inr,
}
use mathlib.Core.List.{append_assoc, append-nil}
use libhs.Common.{Text}
use libhs.Windows.Ids.{extract_device_id}
use libhs.Windows.Notifications.{
  DeviceEvent, added, removed, Notification, Shared, Allocated, queue_notification,
  post_device_event, Message, arrival, removal, unrelated, report_error, window_proc,
  take_notifications, put_back,
}

-- The notification that a name stands for, if the memory for it is there.
abbrev told : Allocated → DeviceEvent → (name : Text) → List Notification
told ok event name = elim (extract_device_id (ok.notification && ok.id) name) [
  | none ↦ []
  | some key ↦ record { event = event; key = key } ∷ []
]

abbrev pub accepted : Message → List Notification
accepted (arrival ok name) = told ok added name
accepted (removal ok name) = told ok removed name
accepted unrelated = []

-- Where `hs_monitor_refresh` stands, with the notifications of its own list.
pub data Phase : Type 0 where
  idle : Phase
  handling ending : List Notification → Phase

abbrev pub own : Phase → List Notification
own idle = []
own (handling ns) = ns
own (ending ns) = ns

-- The state of the threads, with all that was accepted and all that was handled so far.
pub record System : Type 0 where
  pub shared : Shared
  pub phase : Phase
  pub accepted_all : List Notification
  pub handled : List Notification

-- What `hs_monitor_refresh` does behind its first critical section.
abbrev pub entered : ℤ × List Notification → Phase
entered (r, ns) = if is_neg r then ending ns else handling ns

pub data Step : System → System → Type 0 where
  message :
      (s : System) (m : Message)
      → Step s (record s {
        shared = window_proc m s.shared;
        accepted_all = s.accepted_all ++ accepted m;
      })
  enter :
      (s : System)
      → s.phase ≡ idle
      → Step s (record s {
        shared = (take_notifications s.shared).1;
        phase = entered (take_notifications s.shared).0;
      })
  handle :
      (s : System) (n : Notification) (ns : List Notification) (r : ℤ)
      → s.phase ≡ handling (n ∷ ns)
      → Step s (record s {
        phase = if is_neg r then ending ns else handling ns;
        handled = s.handled ++ n ∷ [];
      })
  run_out : (s : System) → s.phase ≡ handling [] → Step s (record s { phase = ending [] })
  finish :
      (s : System) (ns : List Notification)
      → s.phase ≡ ending ns
      → Step s (record s { shared = put_back ns s.shared; phase = idle })

-- A monitor as `hs_monitor_new` leaves it, which has to its account what its first refresh left in
-- the queue and what the window has received since.
abbrev pub began : Shared → System
began first = record {
  shared = first;
  phase = idle;
  accepted_all = first.notifications;
  handled = [];
}

pub data Reach (first : Shared) : System → Type 0 where
  start : Reach first (began first)
  later : {s t : System} → Reach first s → Step s t → Reach first t

-- The event is set while something is queued.
abbrev pub Wakes : Shared → Type 0
Wakes sh = sh.signalled ≡ false → sh.notifications ≡ []

-- What was accepted is handled, or waits in its order; and where `A` holds, the event is set while
-- something waits.
pub record IsKept (A : Type 0) (s : System) : Type 0 where
  pub kept : s.handled ++ (own s.phase ++ s.shared.notifications) ≡ s.accepted_all
  pub awake : A → s.shared.signalled ≡ false → own s.phase ++ s.shared.notifications ≡ []

-- What an arrival or a removal does to the shared state.
posted-both :
    (ok : Allocated) (event : DeviceEvent) (name : Text) (s : Shared) (s' : Shared)
    → report_error (post_device_event ok event name s) ≡ s'
    → (s'.notifications ≡ s.notifications ++ told ok event name) × (s'.signalled ≡ true)
unfolding post_device_event report_error queue_notification extract_device_id
posted-both ok event name s s' e = elim (Bool-cases ok.notification) [
  | inl node ↦ elim (Bool-cases ok.id) [
    | inl id ↦ rw (← e, node, id) (refl, refl)
    | inr no_id ↦ rw (← e, node, no_id) (sym (append-nil s.notifications), refl)
  ]
  | inr no_node ↦ rw (← e, no_node) (sym (append-nil s.notifications), refl)
]

-- What a message queues.
pub window_proc-more :
    (m : Message) (s : Shared) → (window_proc m s).notifications ≡ s.notifications ++ accepted m
unfolding window_proc
window_proc-more (arrival ok name) s = (posted-both ok added name s _ refl).0
window_proc-more (removal ok name) s = (posted-both ok removed name s _ refl).0
window_proc-more unrelated s = sym (append-nil s.notifications)

more-kept :
    {A : Type 0} (xs ys zs all new : List A)
    → xs ++ (ys ++ zs) ≡ all
    → xs ++ (ys ++ (zs ++ new)) ≡ all ++ new
more-kept xs ys zs all new e =
    ap (λ l. xs ++ l) (sym (append_assoc ys zs new))
    ∙ sym (append_assoc xs (ys ++ zs) new)
    ∙ ap (λ l. l ++ new) e

told-IsKept :
    {A : Type 0} (ok : Allocated) (event : DeviceEvent) (name : Text) (s : System) (s' : Shared)
    → report_error (post_device_event ok event name s.shared) ≡ s'
    → IsKept A s
    → IsKept A (record s { shared = s'; accepted_all = s.accepted_all ++ told ok event name })
told-IsKept ok event name s s' e k =
    let (more, set) = posted-both ok event name s.shared s' e in
    record {
      kept = rw more (
          more-kept s.handled (own s.phase) s.shared.notifications s.accepted_all
            (told ok event name) k.kept);
      awake = λ a off. absurd (cc);
    }

message-IsKept :
    {A : Type 0} (m : Message) (s : System)
    → IsKept A s
    → IsKept A
        (record s { shared = window_proc m s.shared; accepted_all = s.accepted_all ++ accepted m })
unfolding window_proc
message-IsKept (arrival ok name) s k = told-IsKept ok added name s _ refl k
message-IsKept (removal ok name) s k = told-IsKept ok removed name s _ refl k
message-IsKept unrelated s k = record {
  kept = k.kept ∙ sym (append-nil s.accepted_all);
  awake = k.awake;
}

own-entered : (r : ℤ) (ns : List Notification) → own (entered (r, ns)) ≡ ns
own-entered (pos r) ns = refl
own-entered (negsuc r) ns = refl

own-next : (c : Bool) (ns : List Notification) → own (if c then ending ns else handling ns) ≡ ns
own-next true ns = refl
own-next false ns = refl

enter-IsKept :
    {A : Type 0} (s : System)
    → s.phase ≡ idle
    → IsKept A s
    → IsKept A (record s {
      shared = (take_notifications s.shared).1;
      phase = entered (take_notifications s.shared).0;
    })
unfolding take_notifications
enter-IsKept s at k =
    let ns = s.shared.notifications in
    let same : own (entered (s.shared.ret, ns)) ++ [] ≡ own s.phase ++ ns =
      append-nil (own (entered (s.shared.ret, ns)))
      ∙ own-entered s.shared.ret ns
      ∙ ap (λ p. own p ++ ns) (sym at) in
    record { kept = ap (λ l. s.handled ++ l) same ∙ k.kept; awake = λ a off. same ∙ k.awake a off }

handle-IsKept :
    {A : Type 0} (s : System) (n : Notification) (ns : List Notification) (r : ℤ)
    → s.phase ≡ handling (n ∷ ns)
    → IsKept A s
    → IsKept A (record s {
      phase = if is_neg r then ending ns else handling ns;
      handled = s.handled ++ n ∷ [];
    })
handle-IsKept s n ns r at k =
    let before : own s.phase ≡ n ∷ ns = ap own at in
    let rest = s.shared.notifications in
    record {
      kept =
          append_assoc s.handled (n ∷ [])
            (own (if is_neg r then ending ns else handling ns) ++ rest)
          ∙ ap (λ l. s.handled ++ (n ∷ (l ++ rest))) (own-next (is_neg r) ns)
          ∙ ap (λ l. s.handled ++ (l ++ rest)) (sym before)
          ∙ k.kept;
      awake = λ a off.
          let none' : n ∷ (ns ++ rest) ≡ [] = ap (λ l. l ++ rest) (sym before) ∙ k.awake a off in
          absurd (cc);
    }

nil-of-length : {A : Type 0} (xs : List A) → (length xs == 0) ≡ true → xs ≡ []
nil-of-length [] h = refl
nil-of-length (x ∷ xs) h = absurd (ground arith)

finish-IsKept :
    {A : Type 0} (s : System) (ns : List Notification)
    → s.phase ≡ ending ns
    → IsKept A s
    → IsKept A (record s { shared = put_back ns s.shared; phase = idle })
unfolding put_back
finish-IsKept s ns at k =
    let all = ns ++ s.shared.notifications in
    let same : all ≡ own s.phase ++ s.shared.notifications =
      ap (λ p. own p ++ s.shared.notifications) (sym at) in
    elim (Bool-cases (length all == 0)) [
      | inl empty ↦ record {
        kept = rw empty (ap (λ l. s.handled ++ l) same ∙ k.kept);
        awake = rw empty (λ a off. nil-of-length all empty);
      }
      | inr more ↦ record {
        kept = rw more (ap (λ l. s.handled ++ l) same ∙ k.kept);
        awake = rw more (λ a off. same ∙ k.awake a off);
      }
    ]

step-IsKept : {A : Type 0} {s t : System} → Step s t → IsKept A s → IsKept A t
step-IsKept (message s m) k = message-IsKept m s k
step-IsKept (enter s at) k = enter-IsKept s at k
step-IsKept (handle s n ns r at) k = handle-IsKept s n ns r at k
step-IsKept (run_out s at) k =
    let before : own s.phase ≡ [] = ap own at in
    let rest = s.shared.notifications in
    record {
      kept = ap (λ l. s.handled ++ (l ++ rest)) (sym before) ∙ k.kept;
      awake = λ a off. ap (λ l. l ++ rest) (sym before) ∙ k.awake a off;
    }
step-IsKept (finish s ns at) k = finish-IsKept s ns at k

reach-IsKept : (first : Shared) (s : System) → Reach first s → IsKept (Wakes first) s
reach-IsKept first s start = record { kept = refl; awake = λ wakes off. wakes off }
reach-IsKept first s (later r step) = step-IsKept step (reach-IsKept first _ r)

-- From whatever state `hs_monitor_new` leaves, in whatever order the window's messages and the steps
-- of `hs_monitor_refresh` come, and whatever handling a notification returns, no notification is
-- lost, repeated or passed by another: those handled, then those that `hs_monitor_refresh` holds,
-- then those that are queued, are the ones that were queued in the beginning and those accepted since,
-- in their order. If the event was set in the beginning or nothing was queued, then all of them are
-- handled whenever the event is not set.
pub reach-order :
    (first : Shared) (s : System)
    → Reach first s
    → (s.handled ++ (own s.phase ++ s.shared.notifications) ≡ s.accepted_all)
      × (Wakes first → s.shared.signalled ≡ false → s.handled ≡ s.accepted_all)
reach-order first s r =
    let k = reach-IsKept first s r in
    (
      k.kept,
      λ wakes off.
          sym (append-nil s.handled) ∙ ap (λ l. s.handled ++ l) (sym (k.awake wakes off)) ∙ k.kept,
    )
