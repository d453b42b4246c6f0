-- ===== src/Net/Connector/Sound.antt =====
-- The states of a connector, and what each of its operations does to them.
use mathlib.Core.Path.{subst}
use cloud_storge_system.Common.{
  ℕ, ◌+◌, ◌≤◌, ◌≡◌, ◌∙◌, sym, ap, refl, ◌==◌, Bool, true, false, Option, none, some, List, [], ◌∷◌,
  ◌++◌, if◌then◌else◌, if-cases, arith,
}
use cloud_storge_system.Net.Connector.{
  State, disconnected, connecting, connected, Task, stop_in_loop, reset_channel, Errno, success,
  einprogress, eintr, eisconn, eagain, eaddrinuse, eaddrnotavail, econnrefused, enetunreach, eacces,
  eperm, eafnosupport, ealready, ebadf, efault, enotsock, other, Connector, make_connector,
  init_retry_delay_ms, max_retry_delay_ms, assert, is_null, is_disconnected, close, retry,
  connecting_to, connect_at, connect_now, start_in_loop,
}

abbrev pub occurs : ℕ → List ℕ → ℕ
occurs fd [] = 0
occurs fd (x ∷ xs) = (if fd == x then 1 else 0) + occurs fd xs

abbrev pub resets : List Task → ℕ
resets [] = 0
resets (stop_in_loop ∷ ts) = resets ts
resets (reset_channel ∷ ts) = 1 + resets ts

pub resets-stop : (ts : List Task) → resets (ts ++ (stop_in_loop ∷ [])) ≡ resets ts
resets-stop [] = refl
resets-stop (stop_in_loop ∷ ts) = resets-stop ts
resets-stop (reset_channel ∷ ts) = ap (λ n. 1 + n) (resets-stop ts)

pub resets-reset : (ts : List Task) → resets (ts ++ (reset_channel ∷ [])) ≡ 1 + resets ts
resets-reset [] = refl
resets-reset (stop_in_loop ∷ ts) = resets-reset ts
resets-reset (reset_channel ∷ ts) = ap (λ n. 1 + n) (resets-reset ts)

-- The socket that the registered channel holds.
abbrev pub held : Option ℕ → Bool → List ℕ
held (some fd) true = fd ∷ []
held _ _ = []

abbrev pub size_of : Option ℕ → ℕ
size_of none = 0
size_of (some fd) = 1

-- While it is connecting, the channel is registered, no timer runs and no reset waits; otherwise the
-- channel is not registered and one reset waits for each that is left, and only a disconnected
-- connector has a timer.
abbrev pub Shape : State → Option ℕ → Bool → ℕ → ℕ → Type 0
Shape connecting c r timers n = (size_of c ≡ 1) × (r ≡ true) × (timers ≡ 0) × (n ≡ 0)
Shape disconnected c r timers n = (r ≡ false) × (timers ≤ 1) × (n ≡ size_of c)
Shape connected c r timers n = (r ≡ false) × (timers ≡ 0) × (n ≡ size_of c)

-- Every socket that was opened is closed, handed over or held.
abbrev pub Ledger : List ℕ → List ℕ → List ℕ → List ℕ → Type 0
Ledger opened closed handed kept =
    (fd : ℕ) → occurs fd opened ≡ occurs fd closed + (occurs fd handed + occurs fd kept)

pub record Inv (s : Connector) : Type 0 where
  pub shape : Shape s.state s.channel s.registered s.timers (resets s.tasks)
  pub least : init_retry_delay_ms ≤ s.retry_delay_ms
  pub most : s.retry_delay_ms ≤ max_retry_delay_ms
  pub ledger : Ledger s.opened s.closed s.handed (held s.channel s.registered)

pub make_connector-Inv : Inv make_connector
make_connector-Inv = record {
  shape = (refl, omega arith, refl);
  least = omega arith;
  most = omega arith;
  ledger = λ fd. refl;
}

abbrev pub Goes : Option Connector → Type 0
Goes o = (t : Connector) × (o ≡ some t) × Inv t

-- No channel is left, and no timer runs.
abbrev pub Fresh : Connector → Type 0
Fresh s = (s.channel ≡ none) × (s.registered ≡ false) × (s.timers ≡ 0) × (resets s.tasks ≡ 0)

pub held-none : (c : Option ℕ) (r : Bool) → r ≡ false → held c r ≡ []
held-none none r e = refl
held-none (some fd) r e = ap (held (some fd)) e

-- A socket that nobody holds is closed, and another attempt may follow.
pub retry-Inv :
    (fd : ℕ) (s : Connector)
    → s.registered ≡ false
    → s.timers ≡ 0
    → resets s.tasks ≡ size_of s.channel
    → init_retry_delay_ms ≤ s.retry_delay_ms
    → s.retry_delay_ms ≤ max_retry_delay_ms
    → Ledger s.opened (fd ∷ s.closed) s.handed (held s.channel s.registered)
    → Inv (retry fd s)
retry-Inv fd s r t n a b l =
    if-cases Inv s.connect _ _
      (λ e. record {
        shape = (r, omega (arith, t), n);
        least = omega (arith, a);
        most = omega arith;
        ledger = l;
      })
      (λ e. record { shape = (r, omega (arith, t), n); least = a; most = b; ledger = l })

-- A disconnected connector that may open a socket.
pub record Ready (s : Connector) : Type 0 where
  pub state : s.state ≡ disconnected
  pub fresh : Fresh s
  pub least : init_retry_delay_ms ≤ s.retry_delay_ms
  pub most : s.retry_delay_ms ≤ max_retry_delay_ms
  pub ledger : Ledger s.opened s.closed s.handed []

abbrev opening : ℕ → Connector → Connector
opening fd s = record s { opened = fd ∷ s.opened }

size_of-none : (c : Option ℕ) → c ≡ none → size_of c ≡ 0
size_of-none c e = ap size_of e

connecting_to-Goes : (fd : ℕ) (s : Connector) → Ready s → Goes (connecting_to fd (opening fd s))
connecting_to-Goes fd s v =
    let (c, r, t, n) = v.fresh in
    (
      record s { state = connecting; channel = some fd; registered = true; opened = fd ∷ s.opened },
      ap
          (λ c. assert (is_null c) (
            some (record s {
              state = connecting;
              channel = some fd;
              registered = true;
              opened = fd ∷ s.opened;
            })))
          c,
      record {
        shape = (refl, refl, t, n);
        least = v.least;
        most = v.most;
        ledger = λ i. let l = v.ledger i in omega (arith, l);
      },
    )

closed-Ledger :
    (fd : ℕ) (s : Connector)
    → Ready s
    → Ledger (fd ∷ s.opened) (fd ∷ s.closed) s.handed (held s.channel s.registered)
closed-Ledger fd s v i =
    let (c, r, t, n) = v.fresh in
    let l = v.ledger i in
    let h = ap (occurs i) (held-none s.channel s.registered r) in omega (arith, l, h)

retry-Goes : (fd : ℕ) (s : Connector) → Ready s → Goes (some (retry fd (opening fd s)))
retry-Goes fd s v =
    let (c, r, t, n) = v.fresh in
    (
      retry fd (opening fd s),
      refl,
      retry-Inv fd (opening fd s) r t (n ∙ sym (size_of-none s.channel c)) v.least v.most
          (closed-Ledger fd s v),
    )

close-Goes : (fd : ℕ) (s : Connector) → Ready s → Goes (some (close fd (opening fd s)))
close-Goes fd s v =
    let (c, r, t, n) = v.fresh in
    (
      close fd (opening fd s),
      refl,
      record {
        shape =
            subst (λ p. Shape p s.channel s.registered s.timers (resets s.tasks)) (sym v.state)
              (r, omega (arith, t), n ∙ sym (size_of-none s.channel c));
        least = v.least;
        most = v.most;
        ledger = closed-Ledger fd s v;
      },
    )

connect_at-Goes :
    (e : Errno) (fd : ℕ) (s : Connector) → Ready s → Goes (connect_at e fd (opening fd s))
connect_at-Goes success fd s v = connecting_to-Goes fd s v
connect_at-Goes einprogress fd s v = connecting_to-Goes fd s v
connect_at-Goes eintr fd s v = connecting_to-Goes fd s v
connect_at-Goes eisconn fd s v = connecting_to-Goes fd s v
connect_at-Goes eagain fd s v = retry-Goes fd s v
connect_at-Goes eaddrinuse fd s v = retry-Goes fd s v
connect_at-Goes eaddrnotavail fd s v = retry-Goes fd s v
connect_at-Goes econnrefused fd s v = retry-Goes fd s v
connect_at-Goes enetunreach fd s v = retry-Goes fd s v
connect_at-Goes eacces fd s v = close-Goes fd s v
connect_at-Goes eperm fd s v = close-Goes fd s v
connect_at-Goes eafnosupport fd s v = close-Goes fd s v
connect_at-Goes ealready fd s v = close-Goes fd s v
connect_at-Goes ebadf fd s v = close-Goes fd s v
connect_at-Goes efault fd s v = close-Goes fd s v
connect_at-Goes enotsock fd s v = close-Goes fd s v
connect_at-Goes other fd s v = close-Goes fd s v

pub start_in_loop-Goes :
    (e : Errno) (fd : ℕ) (s : Connector) → Ready s → Goes (start_in_loop e fd s)
start_in_loop-Goes e fd s v =
    let (c, r, t, n) = v.fresh in
    let rest = if s.connect then connect_now e fd s else some s in
    subst Goes (sym (ap (λ p. assert (is_disconnected p) rest) v.state)) (
      if-cases Goes s.connect (connect_now e fd s) (some s) (λ q. connect_at-Goes e fd s v)
        (λ q. (
          s,
          refl,
          record {
            shape =
                subst (λ p. Shape p s.channel s.registered s.timers (resets s.tasks)) (sym v.state)
                  (r, omega (arith, t), n ∙ sym (size_of-none s.channel c));
            least = v.least;
            most = v.most;
            ledger =
                let h = held-none s.channel s.registered r in
                subst (λ k. Ledger s.opened s.closed s.handed k) (sym h) v.ledger;
          },
        )))
