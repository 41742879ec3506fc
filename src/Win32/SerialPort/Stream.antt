-- ===== src/Win32/SerialPort/Stream.antt =====
-- A serial port is a stream: `hs_serial_read` neither loses nor repeats a byte.
use libhs.Base.{
  ℕ, zero, suc, ◌+◌, ◌-◌, ◌≤◌, ◌≡◌, ◌≢◌, refl, sym, ap, subst, ◌∙◌, Bool, true, false, Option, some,
  List, [], ◌∷◌, ◌++◌, ℤ, pos, negsuc, is_neg, ltb, ◌>>=◌, ==-of_ne, All, length, drop, take-all,
  take-append-drop, drop-drop, length-drop, length-take, arith, Bool-cases, ◌⊎◌, inl, inr, ltb→lt,
  ltb→le,
}
use mathlib.Core.List.{append-nil, append_assoc}
use libhs.Win32.{
  Handle, Completion, incomplete, broken, completed, brought, start_async_read, finalize_async_read,
}
use libhs.Win32.SerialPort.{Turn, Outcome, start_next, give, ask, read_from, restart, read}

-- What the library has received and the caller has not, by `len`.
abbrev pub left_of : ℤ → (ptr : ℕ) → (buf : List ℕ) → List ℕ
left_of (pos zero) ptr buf = []
left_of (pos (suc n)) ptr buf = drop ptr buf
left_of (negsuc n) ptr buf = []

abbrev pub unread : Handle → List ℕ
unread h = left_of h.len h.ptr h.buf

-- `len` counts the bytes behind `ptr`.
abbrev pub Fits : ℤ → (ptr : ℕ) → (buf : List ℕ) → Type 0
Fits (pos zero) ptr buf = Unit
Fits (pos (suc n)) ptr buf = ptr + suc n ≡ length buf
Fits (negsuc n) ptr buf = Unit

abbrev pub IsValid : Handle → Type 0
IsValid h = Fits h.len h.ptr h.buf

-- The bytes that the system hands over during a call: none while there are unread ones.
abbrev pub asked : ℤ → Completion → List ℕ
asked (pos zero) c = brought c
asked (pos (suc n)) c = []
asked (negsuc n) c = []

unfoldable pub received : Turn → Handle → List ℕ
received turn h = asked (restart turn.restarted h.len h).len turn.completion

-- A call adds `fresh` to the stream and takes its bytes from the front.
abbrev pub Streams : (before fresh : List ℕ) → (size : ℕ) → Outcome → Type 0
Streams before fresh size (r, out, h) =
    (out ++ unread h ≡ before ++ fresh)
    × IsValid h
    × (length out ≤ size)
    × ((r ≡ pos (length out)) ⊎ ((is_neg r ≡ true) × (out ≡ [])))

start_next-empty :
    (started : Bool) (h : Handle)
    → (unread (start_next (pos 0) started h) ≡ []) × IsValid (start_next (pos 0) started h)
unfolding start_next start_async_read
start_next-empty true h = (refl, tt)
start_next-empty false h = (refl, tt)

-- The whole of what is left fits into the caller's buffer,
give_all-Streams :
    (started : Bool) (size have : ℕ) (h : Handle)
    → ltb size (suc have) ≡ false
    → h.ptr + suc have ≡ length h.buf
    → Streams (drop h.ptr h.buf) [] size (give started size (suc have) h)
unfolding give
give_all-Streams started size have h more fits =
    let h' : Handle = record h { ptr = h.ptr + suc have; len = pos 0 } in
    let e = start_next-empty started h' in
    let all = take-all (suc have) (drop h.ptr h.buf) (omega (arith, length-drop h.ptr h.buf)) in
    let none_left : suc have - suc have ≡ 0 = omega arith in
    let n = length-drop h.ptr h.buf in
    let c : length (drop h.ptr h.buf) ≡ suc have = omega (arith, n) in
    rw (more, none_left, all, e.0, c) (refl, e.1, ltb→le size (suc have) more, inl refl)

-- or a part of it does.
give_part-Streams :
    (started : Bool) (size have : ℕ) (h : Handle)
    → ltb size (suc have) ≡ true
    → h.ptr + suc have ≡ length h.buf
    → Streams (drop h.ptr h.buf) [] size (give started size (suc have) h)
unfolding give start_next
give_part-Streams started size have h less fits =
    let less' = ltb→lt size (suc have) less in
    let rest : suc have - size ≡ suc (have - size) = omega (arith, ltb→lt size (suc have) less) in
    let c = length-take size (drop h.ptr h.buf) (omega (arith, length-drop h.ptr h.buf)) in
    rw (less, rest, c)
      (
        rw (append-nil, ← drop-drop h.ptr size h.buf) (take-append-drop size (drop h.ptr h.buf)),
        omega arith,
        omega arith,
        inl refl,
      )

give-Streams :
    (started : Bool) (size have : ℕ) (h : Handle)
    → h.ptr + suc have ≡ length h.buf
    → Streams (drop h.ptr h.buf) [] size (give started size (suc have) h)
give-Streams started size have h fits = elim (Bool-cases (ltb size (suc have))) [
  | inl less ↦ give_part-Streams started size have h less fits
  | inr more ↦ give_all-Streams started size have h more fits
]

-- Nothing is left, and the system is asked.
ask-Streams :
    (turn : Turn) (size : ℕ) (h : Handle) (c : Completion)
    → let r = finalize_async_read c h in Streams [] (brought c) size (ask turn size h r.0 r.1)
unfolding ask finalize_async_read
ask-Streams turn size h incomplete = (refl, tt, omega arith, inl refl)
ask-Streams turn size h broken = (refl, tt, omega arith, inr (refl, refl))
ask-Streams turn size h (completed []) = (refl, tt, omega arith, inl refl)
ask-Streams turn size h (completed (b ∷ bytes)) =
    let h' : Handle = record h {
      buf = b ∷ bytes;
      pending = false;
      ptr = 0;
      len = pos (suc (length bytes));
    } in
    let (whole, fits, bound, counts) =
      give-Streams turn.started size (length bytes) h' (omega arith) in
    (whole ∙ append-nil (b ∷ bytes), fits, bound, counts)

read_from-Streams :
    (turn : Turn) (size : ℕ) (len : ℤ) (h : Handle)
    → h.len ≡ len
    → Fits len h.ptr h.buf
    → Streams (left_of len h.ptr h.buf) (asked len turn.completion) size (read_from turn size len h)
unfolding read_from
read_from-Streams turn size (negsuc n) h e fits = (
  ap (λ l. left_of l h.ptr h.buf) e,
  subst (λ l. Fits l h.ptr h.buf) (sym e) tt,
  omega arith,
  inr (refl, refl),
)
read_from-Streams turn size (pos zero) h e fits = ask-Streams turn size h turn.completion
read_from-Streams turn size (pos (suc n)) h e fits = give-Streams turn.started size n h fits

-- The restart neither brings nor loses bytes.
restart-unread :
    (restarted : Bool) (len : ℤ) (h : Handle)
    → h.len ≡ len
    → IsValid h
    → (unread (restart restarted len h) ≡ unread h) × IsValid (restart restarted len h)
unfolding restart start_async_read
restart-unread restarted (pos n) h e v = (refl, v)
restart-unread true (negsuc n) h e v = (sym (ap (λ l. left_of l h.ptr h.buf) e), tt)
restart-unread false (negsuc n) h e v = (sym (ap (λ l. left_of l h.ptr h.buf) e), tt)

-- One call on a valid handle ends without a fault, and streams.
pub read-Streams :
    (turn : Turn) (size : ℕ) (h : Handle)
    → size ≢ 0
    → IsValid h
    → (o : Outcome) × (read turn size h ≡ some o) × Streams (unread h) (received turn h) size o
unfolding read received
read-Streams turn size h room v =
    let h' = restart turn.restarted h.len h in
    let (same, v') = restart-unread turn.restarted h.len h refl v in
    (
      read_from turn size h'.len h',
      rw (==-of_ne size 0 room) refl,
      subst (λ l. Streams l (asked h'.len turn.completion) size (read_from turn size h'.len h'))
          same (read_from-Streams turn size h'.len h' refl v'),
    )

-- A sequence of calls, with the bytes that the system handed over and those that the callers got.
unfoldable pub run : List (Turn × ℕ) → Handle → Option (List ℕ × List ℕ × Handle)
unfolding read
run [] h = some ([], [], h)
run ((turn, size) ∷ calls) h = read turn size h >>= λ o.
    run calls o.2 >>= λ rest. some (received turn h ++ rest.0, o.1 ++ rest.1, rest.2)

-- On a valid handle, any sequence of calls of `hs_serial_read` with buffers that are not empty ends
-- without a fault. The bytes that the callers got, with those still unread at the end, are the ones
-- unread at the start and then those that the system handed over, each once and in order.
pub run-stream :
    (calls : List (Turn × ℕ)) (h : Handle)
    → All (λ c. c.1 ≢ 0) calls
    → IsValid h
    → (arrived : List ℕ) × (got : List ℕ) × (h' : Handle) × (run calls h ≡ some (arrived, got, h'))
      × (got ++ unread h' ≡ unread h ++ arrived)
      × IsValid h'
unfolding run
run-stream [] h room v = ([], [], h, refl, sym (append-nil (unread h)), v)
run-stream ((turn, size) ∷ calls) h room v =
    let (o, done, (whole, v', bound, counts)) = read-Streams turn size h room.0 v in
    let (arrived, got, h', ran, flow, v'') = run-stream calls o.2 room.1 v' in
    (
      received turn h ++ arrived,
      o.1 ++ got,
      h',
      rw (done, ran) refl,
      append_assoc o.1 got (unread h')
          ∙ ap (λ l. o.1 ++ l) flow
          ∙ sym (append_assoc o.1 (unread o.2) arrived)
          ∙ ap (λ l. l ++ arrived) whole
          ∙ append_assoc (unread h) (received turn h) arrived,
      v'',
    )
