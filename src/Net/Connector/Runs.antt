-- ===== src/Net/Connector/Runs.antt =====
-- Runs of a connector in its loop.
use mathlib.Core.Path.{subst}
use cloud_storge_system.Common.{
  ℕ, zero, suc, ◌+◌, ◌≤◌, ◌≡◌, ◌≢◌, ◌∙◌, sym, ap, refl, Bool, true, false, Option, none, some, List,
  [], ◌∷◌, ◌++◌, arith,
}
use cloud_storge_system.Net.Connector.{
  State, disconnected, connecting, connected, Task, stop_in_loop, reset_channel, Errno, Connector,
  make_connector, init_retry_delay_ms, max_retry_delay_ms, start, restart, stop, handle_write,
  handle_error, expire_at, run_task, Event, starts, restarts, expires, stops, errors, tasks_run,
  writes, step, run_on, run,
}
use cloud_storge_system.Net.Connector.Sound.{
  resets, resets-stop, held, held-none, size_of, Shape, Ledger, Inv, make_connector-Inv, Goes,
  start_in_loop-Goes,
}
use cloud_storge_system.Net.Connector.Removes.{stop_at-Goes, error_at-Goes, write_at-Goes}

-- `start` is called while no attempt is under way, `restart` after a connection, and neither while a
-- timer of `retry` runs; a timer expires when the channel has been reset, and the loop calls
-- `handleWrite` for a registered channel only.
abbrev pub Allowed : Event → Connector → Type 0
Allowed (starts e fd) s = (s.state ≡ disconnected) × (s.channel ≡ none) × (s.timers ≡ 0)
Allowed (restarts e fd) s = (s.channel ≡ none) × (s.timers ≡ 0)
Allowed (expires e fd) s = s.channel ≡ none
Allowed (writes err self_connect) s = s.registered ≡ true
Allowed _ s = Unit

abbrev AllowedOn : (Connector → Type 0) → Option Connector → Type 0
AllowedOn f none = Unit
AllowedOn f (some s) = f s

unfoldable pub AllowedAll : List Event → Connector → Type 0
unfolding step
AllowedAll [] s = Unit
AllowedAll (e ∷ es) s = Allowed e s × AllowedOn (AllowedAll es) (step e s)

Shape-none :
    (p : State) (c : Option ℕ) (r : Bool) (t n : ℕ)
    → Shape p c r t n
    → c ≡ none
    → (r ≡ false) × (n ≡ 0)
Shape-none connecting c r t n (a, b, d, f) e = let z = ap size_of e in ground (arith, a, z)
Shape-none disconnected c r t n (a, b, d) e = (a, d ∙ ap size_of e)
Shape-none connected c r t n (a, b, d) e = (a, d ∙ ap size_of e)

Shape-timer :
    (p : State) (c : Option ℕ) (r : Bool) (t n : ℕ)
    → Shape p c r t n
    → 1 ≤ t
    → (p ≡ disconnected) × (t ≤ 1)
Shape-timer connecting c r t n (a, b, d, e) h = ground (arith, d, h)
Shape-timer disconnected c r t n (a, b, d) h = (refl, b)
Shape-timer connected c r t n (a, b, d) h = ground (arith, b, h)

Shape-registered :
    (p : State) (c : Option ℕ) (r : Bool) (t n : ℕ) → Shape p c r t n → r ≡ true → p ≢ connected
Shape-registered connecting c r t n h e q = ground (arith, q)
Shape-registered disconnected c r t n h e q = ground (arith, q)
Shape-registered connected c r t n (a, b, d) e q = let z = sym a ∙ e in ground (arith, z)

size_of-most : (c : Option ℕ) → size_of c ≤ 1
size_of-most none = omega arith
size_of-most (some fd) = omega arith

-- The first reset is done.
Shape-reset :
    (p : State) (c : Option ℕ) (r : Bool) (t n : ℕ)
    → Shape p c r t (1 + n)
    → Shape p none r t n × (r ≡ false)
Shape-reset connecting c r t n (a, b, d, e) = ground (arith, e)
Shape-reset disconnected c r t n (a, b, d) =
    let m = size_of-most c in ((a, b, omega (arith, d, m)), a)
Shape-reset connected c r t n (a, b, d) = let m = size_of-most c in ((a, b, omega (arith, d, m)), a)

empty-Ledger : (s : Connector) → s.registered ≡ false → Inv s → Ledger s.opened s.closed s.handed []
empty-Ledger s r v =
    subst (λ k. Ledger s.opened s.closed s.handed k) (held-none s.channel s.registered r) v.ledger

starts-Goes :
    (e : Errno) (fd : ℕ) (s : Connector) → Inv s → Allowed (starts e fd) s → Goes (start e fd s)
unfolding start
starts-Goes e fd s v (p, c, t) =
    let (r, n) = Shape-none s.state s.channel s.registered s.timers (resets s.tasks) v.shape c in
    start_in_loop-Goes e fd (record s { connect = true })
      (record {
        state = p;
        fresh = (c, r, t, n);
        least = v.least;
        most = v.most;
        ledger = empty-Ledger s r v;
      })

restarts-Goes :
    (e : Errno) (fd : ℕ) (s : Connector) → Inv s → Allowed (restarts e fd) s → Goes (restart e fd s)
unfolding restart
restarts-Goes e fd s v (c, t) =
    let (r, n) = Shape-none s.state s.channel s.registered s.timers (resets s.tasks) v.shape c in
    start_in_loop-Goes e fd
      (record s { state = disconnected; retry_delay_ms = init_retry_delay_ms; connect = true })
      (record {
        state = refl;
        fresh = (c, r, t, n);
        least = omega arith;
        most = omega arith;
        ledger = empty-Ledger s r v;
      })

expire_at-Goes :
    (k : ℕ) (e : Errno) (fd : ℕ) (s : Connector)
    → s.timers ≡ k
    → Inv s
    → s.channel ≡ none
    → Goes (expire_at k e fd s)
expire_at-Goes zero e fd s q v c = (s, refl, v)
expire_at-Goes (suc k) e fd s q v c =
    let (r, n) = Shape-none s.state s.channel s.registered s.timers (resets s.tasks) v.shape c in
    let (p, t) =
      Shape-timer s.state s.channel s.registered s.timers (resets s.tasks) v.shape
        (omega (arith, q)) in
    start_in_loop-Goes e fd (record s { timers = k })
      (record {
        state = p;
        fresh = (c, r, omega (arith, q, t), n);
        least = v.least;
        most = v.most;
        ledger = empty-Ledger s r v;
      })

with_tasks-Inv :
    (s : Connector) (ts : List Task)
    → resets s.tasks ≡ resets ts
    → Inv s
    → Inv (record s { tasks = ts })
with_tasks-Inv s ts e v = record {
  shape = subst (λ n. Shape s.state s.channel s.registered s.timers n) e v.shape;
  least = v.least;
  most = v.most;
  ledger = v.ledger;
}

run_task-Goes : (ts : List Task) (s : Connector) → s.tasks ≡ ts → Inv s → Goes (run_task ts s)
run_task-Goes [] s e v = (s, refl, v)
run_task-Goes (stop_in_loop ∷ ts) s e v =
    stop_at-Goes s.state (record s { tasks = ts }) refl (with_tasks-Inv s ts (ap resets e) v)
run_task-Goes (reset_channel ∷ ts) s e v =
    let (a, r) =
      Shape-reset s.state s.channel s.registered s.timers (resets ts)
        (subst (λ n. Shape s.state s.channel s.registered s.timers n) (ap resets e) v.shape) in
    (
      record s { tasks = ts; channel = none },
      refl,
      record { shape = a; least = v.least; most = v.most; ledger = empty-Ledger s r v },
    )

step-Goes : (e : Event) (s : Connector) → Inv s → Allowed e s → Goes (step e s)
unfolding step handle_write handle_error
step-Goes (starts e fd) s v a = starts-Goes e fd s v a
step-Goes (restarts e fd) s v a = restarts-Goes e fd s v a
step-Goes (expires e fd) s v a = expire_at-Goes s.timers e fd s refl v a
step-Goes stops s v a = (
  stop s,
  refl,
  with_tasks-Inv (record s { connect = false }) (s.tasks ++ (stop_in_loop ∷ []))
      (sym (resets-stop s.tasks))
      (record { shape = v.shape; least = v.least; most = v.most; ledger = v.ledger }),
)
step-Goes errors s v a = error_at-Goes s.state s refl v
step-Goes tasks_run s v a = run_task-Goes s.tasks s refl v
step-Goes (writes err self_connect) s v a =
    write_at-Goes s.state err self_connect s refl
      (Shape-registered s.state s.channel s.registered s.timers (resets s.tasks) v.shape a) v

run-Goes : (es : List Event) (s : Connector) → Inv s → AllowedAll es s → Goes (run es s)
unfolding run AllowedAll
run-Goes [] s v a = (s, refl, v)
run-Goes (e ∷ es) s v (a, b) =
    let (t, g, w) = step-Goes e s v a in
    let (u, h, x) = run-Goes es t w (subst (AllowedOn (AllowedAll es)) g b) in
    (u, ap (run_on (run es)) g ∙ h, x)

-- A run of a new connector in which `start` is called only while it is disconnected, `start` and
-- `restart` only while no channel is left and no retry is planned, a retry comes only once the
-- channel is reset, and `handleWrite` only for a registered channel, trips no assert and uses no
-- null channel; the delay of the next retry is between half a second and thirty seconds; and each
-- socket was opened as often as it was closed, handed to the client, or is held by the channel.
pub run-Sound :
    (es : List Event)
    → AllowedAll es make_connector
    → (t : Connector) × (run es make_connector ≡ some t)
      × (init_retry_delay_ms ≤ t.retry_delay_ms)
      × (t.retry_delay_ms ≤ max_retry_delay_ms)
      × Ledger t.opened t.closed t.handed (held t.channel t.registered)
run-Sound es a =
    let (t, e, v) = run-Goes es make_connector make_connector-Inv a in
    (t, e, v.least, v.most, v.ledger)
