-- ===== src/Net/Timers/Expiry.antt =====
-- `getExpired` from a valid queue.
use cloud_storge_system.Common.{
  ℕ, ◌<◌, ◌≤◌, ◌≡◌, ◌∙◌, ap, refl, true, some, List, [], ◌∷◌, ◌++◌, All, arith, if-cases,
}
use cloud_storge_system.Net.Timers.{
  Pair, Heap, Queue, member, erase, less, address_max, assert, earlier, with_timer, split_at_time,
  deactivate, with_active, get_expired,
}
use cloud_storge_system.Net.Timers.Agree.{Agree, Free}
use cloud_storge_system.Net.Timers.Keeps.{Inv, Sorted, Ahead, Parked, sizes}

-- What `getExpired` splits off: all entries up to the time and no other, in their order.
pub record Split (now : ℕ) (h : Heap) (ts expired rest : List Pair) : Type 0 where
  pub whole : expired ++ rest ≡ ts
  pub due : All (λ e. e.0 ≤ now) expired
  pub waiting : All (λ e. now < e.0) rest
  pub aside : Parked h rest expired
  pub sorted : Sorted rest

Free-pieces :
    (now p : ℕ) (ts : List Pair)
    → Free p ts
    → Free p (split_at_time now ts).0 × Free p (split_at_time now ts).1
Free-pieces now p [] f = (tt, tt)
Free-pieces now p (e ∷ ts) (n, f) =
    let (x, y) = Free-pieces now p ts f in
    if-cases (λ (s : List Pair × List Pair). Free p s.0 × Free p s.1) (less e (now, address_max)) _
      _ (λ i. ((n, x), y)) (λ i. (tt, (n, f)))

Waiting : (now w : ℕ) (ts : List Pair) → now < w → Ahead w ts → All (λ e. now < e.0) ts
Waiting now w [] l h = tt
Waiting now w (e ∷ ts) l (i, h) = (omega (arith, l, i), Waiting now w ts l h)

Split-pieces :
    (now : ℕ) (h : Heap) (ts vs : List Pair)
    → Agree h ts vs
    → Sorted ts
    → Split now h ts (split_at_time now ts).0 (split_at_time now ts).1
Split-pieces now h [] vs a s = record {
  whole = refl;
  due = tt;
  waiting = tt;
  aside = tt;
  sorted = tt;
}
Split-pieces now h ((w, p) ∷ ts) vs (b, (t, e, x, m, f, a)) (l, s) =
    let k = Split-pieces now h ts (erase (p, t.sequence) vs) a s in
    let (i, j) = Free-pieces now p ts f in
    if-cases (λ (z : List Pair × List Pair). Split now h ((w, p) ∷ ts) z.0 z.1)
      (less (w, p) (now, address_max)) _ _
      (λ q. record {
        whole = ap (λ l. (w, p) ∷ l) k.whole;
        due = (ground (arith, q), k.due);
        waiting = k.waiting;
        aside = (b, (t, e), j, i, k.aside);
        sorted = k.sorted;
      })
      (λ q.
        let late : now < w = ground (arith, q, b) in
        record {
          whole = refl;
          due = tt;
          waiting = (late, Waiting now w ts late l);
          aside = tt;
          sorted = (l, s);
        })

deactivate-Agree :
    (now : ℕ) (h : Heap) (ts vs : List Pair)
    → Agree h ts vs
    → (us : List Pair) × (deactivate h (split_at_time now ts).0 vs ≡ some us)
      × Agree h (split_at_time now ts).1 us
deactivate-Agree now h [] vs a = (vs, refl, a)
deactivate-Agree now h ((w, p) ∷ ts) vs (b, (t, e, x, m, f, a)) =
    let (us, g, k) = deactivate-Agree now h ts (erase (p, t.sequence) vs) a in
    if-cases
      (λ (z : List Pair × List Pair).
        (us : List Pair) × (deactivate h z.0 vs ≡ some us) × Agree h z.1 us)
      (less (w, p) (now, address_max)) _ _
      (λ q. (
        us,
        ap
              (λ o. with_timer o (λ t.
                assert (member (p, t.sequence) vs)
                  (deactivate h (split_at_time now ts).0 (erase (p, t.sequence) vs))))
              e
            ∙ ap (λ c. assert c (deactivate h (split_at_time now ts).0 (erase (p, t.sequence) vs)))
                m
            ∙ g,
        k,
      ))
      (λ q. (vs, refl, (b, (t, e, x, m, f, a))))

earlier-waiting : (now : ℕ) (ts : List Pair) → All (λ e. now < e.0) ts → earlier now ts ≡ true
earlier-waiting now [] h = refl
earlier-waiting now (e ∷ ts) (l, h) = ground (arith, l)

-- `getExpired` succeeds, and takes off the timers that are due.
abbrev pub Expires : ℕ → Queue → Type 0
Expires now q =
    (expired : List Pair) × (r : Queue) × (get_expired now q ≡ some (expired, r))
    × Inv r
    × Split now r.heap q.timers expired r.timers

pub get_expired-Split : (now : ℕ) (q : Queue) → Inv q → Expires now q
unfolding get_expired
get_expired-Split now q v =
    let k = Split-pieces now q.heap q.timers q.active v.agree v.sorted in
    let (us, g, a) = deactivate-Agree now q.heap q.timers q.active v.agree in
    let expired = (split_at_time now q.timers).0 in
    let rest = (split_at_time now q.timers).1 in
    let r : Queue = record q { timers = rest; active = us } in
    (
      expired,
      r,
      ap
            (λ c. assert c (
              assert (earlier now rest)
                (with_active q expired rest (deactivate q.heap expired q.active))))
            (sizes q v.agree)
          ∙ ap (λ c. assert c (with_active q expired rest (deactivate q.heap expired q.active)))
              (earlier-waiting now rest k.waiting)
          ∙ ap (with_active q expired rest) g
          ∙ ap (λ c. assert c (some (expired, r))) (sizes r a),
      record { agree = a; sorted = k.sorted },
      k,
    )
