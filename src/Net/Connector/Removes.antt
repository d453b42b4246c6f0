-- ===== src/Net/Connector/Removes.antt =====
-- A connector that takes its channel off the loop.
use mathlib.Core.Path.{subst}
use cloud_storge_system.Common.{
  ℕ, ◌≡◌, ◌≢◌, ◌∙◌, ap, refl, Bool, false, Option, none, some, [], ◌∷◌, ◌++◌, if◌then◌else◌,
  if-cases, arith,
}
use cloud_storge_system.Net.Connector.{
  State, disconnected, connecting, connected, reset_channel, Connector, retry, without_channel,
  stop_at, hand_over, write_at, error_at,
}
use cloud_storge_system.Net.Connector.Sound.{
  occurs, resets, resets-reset, held, held-none, size_of, Shape, Ledger, Inv, Goes, retry-Inv,
}

abbrev removed : Connector → Connector
removed s = record s { registered = false; tasks = s.tasks ++ (reset_channel ∷ []) }

some_of : (c : Option ℕ) → size_of c ≡ 1 → (fd : ℕ) × (c ≡ some fd)
some_of none e = ground (arith, e)
some_of (some fd) e = (fd, refl)

-- A connecting connector holds the socket of its channel.
pub record Taken (s : Connector) (fd : ℕ) : Type 0 where
  pub channel : s.channel ≡ some fd
  pub timers : s.timers ≡ 0
  pub count : resets (s.tasks ++ (reset_channel ∷ [])) ≡ size_of s.channel
  pub ledger : Ledger s.opened (fd ∷ s.closed) s.handed (held s.channel false)
  pub ledger_handed : Ledger s.opened s.closed (fd ∷ s.handed) (held s.channel false)

taken : (s : Connector) → s.state ≡ connecting → Inv s → (fd : ℕ) × Taken s fd
taken s e v =
    let (c, r, t, n) =
      subst (λ p. Shape p s.channel s.registered s.timers (resets s.tasks)) e v.shape in
    let (fd, k) = some_of s.channel c in
    let mine : held s.channel s.registered ≡ fd ∷ [] =
      ap (λ c. held c s.registered) k ∙ ap (held (some fd)) r in
    let gone = held-none s.channel false refl in
    (
      fd,
      record {
        channel = k;
        timers = t;
        count = let m = resets-reset s.tasks in omega (arith, m, n, c);
        ledger = λ i.
            let l = v.ledger i in
            let a = ap (occurs i) mine in let b = ap (occurs i) gone in omega (arith, l, a, b);
        ledger_handed = λ i.
            let l = v.ledger i in
            let a = ap (occurs i) mine in let b = ap (occurs i) gone in omega (arith, l, a, b);
      },
    )

retry-removed :
    (p : State) (s : Connector) (fd : ℕ)
    → Inv s
    → Taken s fd
    → Inv (retry fd (removed (record s { state = p })))
retry-removed p s fd v k =
    retry-Inv fd (removed (record s { state = p })) refl k.timers k.count v.least v.most k.ledger

hand_over-removed : (s : Connector) (fd : ℕ) → Inv s → Taken s fd → Inv (hand_over fd (removed s))
hand_over-removed s fd v k =
    if-cases Inv s.connect _ _
      (λ e. record {
        shape = (refl, k.timers, k.count);
        least = v.least;
        most = v.most;
        ledger = k.ledger_handed;
      })
      (λ e. record {
        shape = (refl, k.timers, k.count);
        least = v.least;
        most = v.most;
        ledger = k.ledger;
      })

pub stop_at-Goes : (p : State) (s : Connector) → s.state ≡ p → Inv s → Goes (stop_at p s)
stop_at-Goes connecting s e v =
    let (fd, k) = taken s e v in
    let t = record s { state = disconnected } in
    (
      retry fd (removed t),
      ap (λ c. without_channel c t retry) k.channel,
      retry-removed disconnected s fd v k,
    )
stop_at-Goes disconnected s e v = (s, refl, v)
stop_at-Goes connected s e v = (s, refl, v)

pub error_at-Goes : (p : State) (s : Connector) → s.state ≡ p → Inv s → Goes (error_at p s)
error_at-Goes connecting s e v =
    let (fd, k) = taken s e v in
    (
      retry fd (removed s),
      ap (λ c. without_channel c s retry) k.channel,
      retry-removed s.state s fd v k,
    )
error_at-Goes disconnected s e v = (s, refl, v)
error_at-Goes connected s e v = (s, refl, v)

pub write_at-Goes :
    (p : State) (err self_connect : Bool) (s : Connector)
    → s.state ≡ p
    → p ≢ connected
    → Inv s
    → Goes (write_at p err self_connect s)
write_at-Goes connecting err self_connect s e n v =
    let (fd, k) = taken s e v in
    let f = λ (fd : ℕ) (t : Connector).
      if err then retry fd t else if self_connect then retry fd t else hand_over fd t in
    (
      f fd (removed s),
      ap (λ c. without_channel c s f) k.channel,
      if-cases Inv err _ _ (λ q. retry-removed s.state s fd v k)
          (λ q.
            if-cases Inv self_connect _ _ (λ r. retry-removed s.state s fd v k)
              (λ r. hand_over-removed s fd v k)),
    )
write_at-Goes disconnected err self_connect s e n v = (s, refl, v)
write_at-Goes connected err self_connect s e n v = elim (n refl) [ ]
