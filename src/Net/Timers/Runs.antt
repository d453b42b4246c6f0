-- ===== src/Net/Timers/Runs.antt =====
-- Runs of what the thread of the loop does with the queue, from its constructor.
use mathlib.Core.Path.{subst}
use cloud_storge_system.Common.{
  ℕ, ◌+◌, ◌≡◌, ◌∙◌, ap, refl, true, false, not, ◌&&◌, Option, none, some, List, [], ◌∷◌, ltb,
  if-cases, if◌then◌else◌,
}
use cloud_storge_system.Net.Timers.{
  Timer, Pair, Queue, empty_queue, member, put, with_timer, insert, get_expired,
}
use cloud_storge_system.Net.Timers.Firing.{
  kept, renew, and_then, renew_all, rearm, rearmed, reset, Request, ask, ask_all, fire, handle_read,
}
use cloud_storge_system.Net.Timers.Agree.{Agree, Agree-put, put-same}
use cloud_storge_system.Net.Timers.Keeps.{
  Inv, Parked, Parked-put, Parked-place, with_both, insert-Inv,
}
use cloud_storge_system.Net.Timers.Steps.{Goes, Allowed, ask-Goes}
use cloud_storge_system.Net.Timers.Expiry.{Expires, get_expired-Split}

-- An expired timer goes back into the queue or is deleted.
renew-Goes :
    (now w p : ℕ) (es : List Pair) (q : Queue)
    → Inv q
    → Parked q.heap q.timers ((w, p) ∷ es)
    → Goes (with_timer (q.heap p) (renew now p q)) es
renew-Goes now w p es q v (b, (t, e), free, others, k) =
    let (r, g, x, y) =
      if-cases (λ o. Goes o es) (t.repeat && not (member (p, t.sequence) q.canceling)) _ _
        (λ i. again)
        (λ i. (
          _,
          refl,
          record {
            agree = Agree-put p none q.heap q.timers q.active free v.agree;
            sorted = v.sorted;
          },
          Parked-put p none q.heap q.timers es others k,
        )) in
    (r, ap (λ o. with_timer o (renew now p q)) e ∙ g, x, y)
  where
    u : Timer
    u = record t { expiration = now + t.interval }

    q' : Queue
    q' = record q { heap = put p (some u) q.heap }

    again : Goes (kept (insert p q')) es
    again =
        let v' : Inv q' = record {
          agree = Agree-put p (some u) q.heap q.timers q.active free v.agree;
          sorted = v.sorted;
        } in
        let (g, x) = insert-Inv p u q' b (put-same p (some u) q.heap) free v' in
        (
          with_both p u q',
          ap kept g,
          x,
          Parked-place p u.expiration q'.heap q.timers es others
              (Parked-put p (some u) q.heap q.timers es others k),
        )

renew_all-Goes :
    (now : ℕ) (es : List Pair) (q : Queue)
    → Inv q
    → Parked q.heap q.timers es
    → Goes (renew_all now es q) []
renew_all-Goes now [] q v k = (q, refl, v, tt)
renew_all-Goes now ((w, p) ∷ es) q v k =
    let (r, e, x, y) = renew-Goes now w p es q v k in
    let (s, g, z, l) = renew_all-Goes now es r x y in
    (s, ap (and_then (renew_all now es)) e ∙ g, z, l)

rearm-Goes : (ts : List Pair) (q : Queue) → Inv q → Agree q.heap ts q.active → Goes (rearm ts q) []
rearm-Goes [] q v a = (q, refl, v, tt)
rearm-Goes ((w, p) ∷ ts) q v (b, (t, e, x, m, f, a)) = (
  if ltb 0 t.expiration then record q { armed = some t.expiration } else q,
  ap
      (λ o.
        with_timer o
          (λ t. some (if ltb 0 t.expiration then record q { armed = some t.expiration } else q)))
      e,
  if-cases Inv (ltb 0 t.expiration) _ _ (λ i. record { agree = v.agree; sorted = v.sorted })
      (λ i. v),
  tt,
)

reset-Goes :
    (es : List Pair) (now : ℕ) (q : Queue)
    → Inv q
    → Parked q.heap q.timers es
    → Goes (reset es now q) []
unfolding reset
reset-Goes es now q v k =
    let (r, e, x, y) = renew_all-Goes now es q v k in
    let (s, g, z, l) = rearm-Goes r.timers r x x.agree in (s, ap (and_then rearmed) e ∙ g, z, l)

abbrev AdmitsOn : (Queue → Type 0) → Option Queue → Type 0
AdmitsOn f none = Unit
AdmitsOn f (some q) = f q

-- Every new timer stands at a free address.
unfoldable pub AdmitsAll : List Request → Queue → Type 0
unfolding ask
AdmitsAll [] q = Unit
AdmitsAll (c ∷ cs) q = Allowed c q × AdmitsOn (AdmitsAll cs) (ask c q)

ask_all-Goes :
    (cs : List Request) (q : Queue) (es : List Pair)
    → AdmitsAll cs q
    → Inv q
    → Parked q.heap q.timers es
    → Goes (ask_all cs q) es
unfolding ask_all AdmitsAll
ask_all-Goes [] q es a v k = (q, refl, v, k)
ask_all-Goes (c ∷ cs) q es (a, b) v k =
    let (r, e, x, y) = ask-Goes c q es a v k in
    let (s, g, z, l) = ask_all-Goes cs r es (subst (AdmitsOn (AdmitsAll cs)) e b) x y in
    (s, ap (and_then (ask_all cs)) e ∙ g, z, l)

-- An event of the loop: a request, or the timers that are due with what their callbacks ask for.
pub data Event : Type 0 where
  asks : Request → Event
  fires : List Request → ℕ → Event

unfoldable pub step : Event → Queue → Option Queue
unfolding ask handle_read
step (asks c) q = ask c q
step (fires cs now) q = handle_read cs now q

-- The queue that the callbacks meet.
abbrev pub AdmitsFire : List Request → Option (List Pair × Queue) → Type 0
AdmitsFire cs none = Unit
AdmitsFire cs (some (expired, q)) = AdmitsAll cs (record q { calling = true; canceling = [] })

unfoldable pub AdmitsEvent : Event → Queue → Type 0
unfolding get_expired AdmitsAll
AdmitsEvent (asks c) q = Allowed c q
AdmitsEvent (fires cs now) q = AdmitsFire cs (get_expired now q)

handle_read-Goes :
    (cs : List Request) (now : ℕ) (q : Queue)
    → AdmitsFire cs (get_expired now q)
    → Inv q
    → Goes (handle_read cs now q) []
unfolding handle_read
handle_read-Goes cs now q a v =
    let (expired, r, e, x, k) = get_expired-Split now q v in
    let called : Queue = record r { calling = true; canceling = [] } in
    let (s, g, y, l) =
      ask_all-Goes cs called expired (subst (AdmitsFire cs) e a)
        (record { agree = x.agree; sorted = x.sorted }) k.aside in
    let (u, h, z, m) =
      reset-Goes expired now (record s { calling = false })
        (record { agree = y.agree; sorted = y.sorted }) l in
    (
      u,
      ap (fire cs now) e
          ∙ ap (and_then (λ i. reset expired now (record i { calling = false }))) g
          ∙ h,
      z,
      m,
    )

step-Goes : (i : Event) (q : Queue) → AdmitsEvent i q → Inv q → Goes (step i q) []
unfolding step AdmitsEvent
step-Goes (asks c) q a v = ask-Goes c q [] a v tt
step-Goes (fires cs now) q a v = handle_read-Goes cs now q a v

unfoldable pub run : List Event → Queue → Option Queue
unfolding step
run [] q = some q
run (i ∷ is) q = and_then (run is) (step i q)

-- Every event of a run is one that the allocator admits.
unfoldable pub Admits : List Event → Queue → Type 0
unfolding step AdmitsEvent
Admits [] q = Unit
Admits (i ∷ is) q = AdmitsEvent i q × AdmitsOn (Admits is) (step i q)

run-Goes : (is : List Event) (q : Queue) → Admits is q → Inv q → Goes (run is q) []
unfolding run Admits
run-Goes [] q a v = (q, refl, v, tt)
run-Goes (i ∷ is) q (a, b) v =
    let (r, e, x, y) = step-Goes i q a v in
    let (s, g, z, l) = run-Goes is r (subst (AdmitsOn (Admits is)) e b) x in
    (s, ap (and_then (run is)) e ∙ g, z, l)

-- In every run from the constructor, of requests and of expiries whose callbacks make requests, where
-- each new timer stands at a free address below the greatest one, no assert fails and no deleted timer
-- is used; the two sets agree with each other and with the heap, the timers are in the order of their
-- times, and getExpired would succeed at any time and take off, in their order, exactly the timers
-- that are due then.
pub run-Expires :
    (is : List Event)
    → Admits is empty_queue
    → (q : Queue) × (run is empty_queue ≡ some q) × Inv q × ((now : ℕ) → Expires now q)
run-Expires is a =
    let (q, e, v, l) = run-Goes is empty_queue a (record { agree = refl; sorted = tt }) in
    (q, e, v, λ now. get_expired-Split now q v)
