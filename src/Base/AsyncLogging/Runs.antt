-- ===== src/Base/AsyncLogging/Runs.antt =====
-- Runs of the front end and the thread: what has been appended, and what stands in the file.
use mathlib.Core.Path.{subst}
use cloud_storge_system.Common.{
  ℕ, ◌≤◌, ◌≡◌, ◌∙◌, sym, ap, refl, true, Bytes, Option, none, some, List, [], ◌∷◌, ◌++◌, length,
  ltb, arith, if◌then◌else◌, append_assoc, append-nil,
}
use cloud_storge_system.Base.AsyncLogging.{
  Phase, checking, collecting, writing, stopped, Logging, started, append, check, swap_buffers,
  pieces, advance_at, stop, Event, appends, advances, stops, step, run_on, run,
}
use cloud_storge_system.Base.AsyncLogging.Supply.{
  Back, Inv, length-snoc, started-Inv, append-Inv, check-Inv, collect-swap, swap-Inv, written,
  write_out-written,
}
use cloud_storge_system.Base.AsyncLogging.Stored.{
  flat-append, flat-snoc, append-stored, swap-stored, pieces-all, written-stored, flat, stored,
}

-- A line is kept when a buffer has room for it and one byte more.
abbrev pub kept_of : ℕ → Event → Bytes
kept_of size (appends line) = if ltb (length line) size then line else []
kept_of size _ = []

abbrev pub kept : ℕ → List Event → Bytes
kept size [] = []
kept size (e ∷ es) = kept_of size e ++ kept size es

-- No more than 25 buffers are written at once.
abbrev pub Undropped : Event → Logging → Type 0
Undropped (advances notice) s = s.phase ≡ writing → length s.to_write ≤ 25
Undropped _ s = Unit

abbrev UndroppedOn : (Logging → Type 0) → Option Logging → Type 0
UndroppedOn f none = Unit
UndroppedOn f (some s) = f s

unfoldable pub UndroppedAll : ℕ → List Event → Logging → Type 0
unfolding step
UndroppedAll size [] s = Unit
UndroppedAll size (e ∷ es) s = Undropped e s × UndroppedOn (UndroppedAll size es) (step size e s)

-- The call succeeds and keeps the supply; where no buffer is dropped, nothing is lost.
abbrev pub Keeps : Type 0 → Logging → Bytes → Option Logging → Type 0
Keeps P s more o = (t : Logging) × (o ≡ some t) × Inv t × (P → stored t ≡ stored s ++ more)

advance_at-Keeps :
    (p : Phase) (notice : Bytes) (s : Logging)
    → s.phase ≡ p
    → Inv s
    → Keeps (Undropped (advances notice) s) s [] (advance_at p notice s)
unfolding advance_at
advance_at-Keeps checking notice s e v =
    (check s, refl, check-Inv s e v, λ h. sym (append-nil (stored s)))
advance_at-Keeps collecting notice s e v = (
  swap_buffers s,
  collect-swap s e v,
  swap-Inv s e v,
  λ h. swap-stored s e v ∙ sym (append-nil (stored s)),
)
advance_at-Keeps writing notice s e v = (
  written notice s,
  write_out-written notice s e v,
  record { front = v.front; back = (refl, refl, refl) },
  λ h. written-stored notice s (h e) ∙ sym (append-nil (stored s)),
)
advance_at-Keeps stopped notice s e v = (s, refl, v, λ h. sym (append-nil (stored s)))

step-Keeps :
    (size : ℕ) (e : Event) (s : Logging)
    → Inv s
    → Keeps (Undropped e s) s (kept_of size e) (step size e s)
unfolding step
step-Keeps size (appends line) s v =
    (append size line s, refl, append-Inv size line s v, λ h. append-stored size line s v)
step-Keeps size (advances notice) s v = advance_at-Keeps s.phase notice s refl v
step-Keeps size stops s v =
    (stop s, refl, record { front = v.front; back = v.back }, λ h. sym (append-nil (stored s)))

run-Keeps :
    (size : ℕ) (es : List Event) (s : Logging)
    → Inv s
    → Keeps (UndroppedAll size es s) s (kept size es) (run size es s)
unfolding run UndroppedAll
run-Keeps size [] s v = (s, refl, v, λ h. sym (append-nil (stored s)))
run-Keeps size (e ∷ es) s v =
    let (t, a, w, k) = step-Keeps size e s v in
    let (u, b, x, l) = run-Keeps size es t w in
    (
      u,
      ap (run_on (run size es)) a ∙ b,
      x,
      λ h.
          l (subst (UndroppedOn (UndroppedAll size es)) a h.1)
          ∙ ap (λ r. r ++ kept size es) (k h.0)
          ∙ append_assoc (stored s) (kept_of size e) (kept size es),
    )

-- However the calls of the front end, the pieces of the work of the thread and `stop` follow one
-- another, no assert fails; where the thread never takes more than 25 buffers at once, the file
-- and what waits for it hold every line that is shorter than a buffer, in the order of the calls,
-- and nothing else.
pub run-stored :
    (size : ℕ) (es : List Event)
    → (t : Logging) × (run size es started ≡ some t)
      × (UndroppedAll size es started → stored t ≡ kept size es)
run-stored size es = let (t, a, v, k) = run-Keeps size es started started-Inv in (t, a, k)

-- Three pieces of the work: the test, the lock, and the file.
abbrev pub round : Bytes → List Event
round notice = advances notice ∷ advances notice ∷ advances notice ∷ []

round-run :
    (size : ℕ) (notice : Bytes) (s : Logging)
    → Inv s
    → s.phase ≡ checking
    → s.running ≡ true
    → run size (round notice) s ≡ some (written notice (swap_buffers (check s)))
unfolding run step advance_at
round-run size notice s v p r =
    let a : Event = advances notice in
    let c = check s in
    let w = check-Inv s p v in
    let q : c.phase ≡ collecting = ap (λ b. if b then collecting else stopped) r in
    let d = swap_buffers c in
    ap (λ p. run_on (run size (a ∷ a ∷ [])) (advance_at p notice s)) p
    ∙ ap (λ p. run_on (run size (a ∷ [])) (advance_at p notice c)) q
    ∙ ap (run_on (run size (a ∷ []))) (collect-swap c q w)
    ∙ ap (run_on (run size [])) (write_out-written notice d refl (swap-Inv c q w))

round-output :
    (notice : Bytes) (s : Logging)
    → Inv s
    → s.phase ≡ checking
    → length s.buffers ≤ 24
    → flat (s.output ++ pieces notice (s.buffers ++ (s.current ∷ []))) ≡ stored s
round-output notice s v p h =
    let (a, b, c) = subst (λ p. Back p s.new1 s.new2 s.to_write) p v.back in
    let n = length-snoc s.buffers s.current in
    ap (λ l. flat (s.output ++ l))
      (pieces-all notice (s.buffers ++ (s.current ∷ [])) (omega (arith, n, h)))
    ∙ flat-append s.output (s.buffers ++ (s.current ∷ []))
    ∙ ap (λ t. flat s.output ++ t) (flat-snoc s.buffers s.current)
    ∙ ap (λ l. flat s.output ++ (flat l ++ (flat s.buffers ++ s.current))) (sym c)

or_started : Option Logging → Logging
or_started none = started
or_started (some s) = s

-- From every state that a run reaches in which the thread stands before the test of its loop and
-- has not been stopped, and no more than 24 full buffers wait, the three pieces of one round put all
-- that has been appended and kept so far into the file.
pub round-stored :
    (size : ℕ) (es : List Event) (notice : Bytes) (s : Logging)
    → run size es started ≡ some s
    → s.phase ≡ checking
    → s.running ≡ true
    → length s.buffers ≤ 24
    → (t : Logging) × (run size (round notice) s ≡ some t) × (flat t.output ≡ stored s)
unfolding or_started
round-stored size es notice s e p r h =
    let (t, a, w, k) = run-Keeps size es started started-Inv in
    let v : Inv s = subst Inv (ap or_started (sym a ∙ e)) w in
    (
      written notice (swap_buffers (check s)),
      round-run size notice s v p r,
      round-output notice s v p h,
    )
