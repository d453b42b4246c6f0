-- ===== src/Net/Timers/Steps.antt =====
-- Each operation of the queue from a valid one: no assert fails and no deleted timer is used.
use mathlib.Core.Path.{subst}
use cloud_storge_system.Common.{
  ℕ, ◌+◌, ◌<◌, ◌≡◌, ◌∙◌, sym, ap, refl, Bool, true, false, Option, none, some, List, [], ◌∷◌, arith,
  if-cases, if◌then◌else◌,
}
use cloud_storge_system.Net.Timers.{
  Timer, Pair, Heap, Queue, member, erase, put, address_max, sizes_agree, assert, earlier,
  with_timer, arm, add_timer, cancel_active, cancel_in_loop,
}
use cloud_storge_system.Net.Timers.Firing.{Request, adds, cancels, ask}
use cloud_storge_system.Net.Timers.Agree.{Free, Agree-put, put-same}
use cloud_storge_system.Net.Timers.Found.{Agree-found, not-member}
use cloud_storge_system.Net.Timers.Keeps.{
  Inv, Parked, Parked-put, Parked-place, Parked-erase, erase-Sorted, sizes, Agree-Free, with_both,
  insert-Inv,
}

-- The call succeeds with a valid queue, and the expired timers `es` are still aside.
abbrev pub Goes : Option Queue → List Pair → Type 0
Goes o es = (r : Queue) × (o ≡ some r) × Inv r × Parked r.heap r.timers es

-- The address of a new timer is free and is not the greatest one.
abbrev pub Allowed : Request → Queue → Type 0
Allowed (adds p when interval repeat) q = (p < address_max) × (q.heap p ≡ none)
Allowed (cancels p s) q = Unit

Parked-Free : (p : ℕ) (h : Heap) (ts es : List Pair) → h p ≡ none → Parked h ts es → Free p es
Parked-Free p h ts [] n k = tt
Parked-Free p h ts ((w, r) ∷ es) n (b, (t, e), i, j, k) = (
  (λ s. let z : none ≡ some t = sym n ∙ sym (ap h s) ∙ e in ground (arith, z)),
  Parked-Free p h ts es n k,
)

-- An address with an entry is not aside.
Parked-entry :
    (p w : ℕ) (h : Heap) (ts es : List Pair) → member (w, p) ts ≡ true → Parked h ts es → Free p es
Parked-entry p w h ts [] m k = tt
Parked-entry p w h ts ((v, r) ∷ es) m (b, t, i, j, k) = (
  (λ s.
      let z : member (w, p) ts ≡ false = not-member p w ts (subst (λ y. Free y ts) s i) in
      ground (arith, z, m)),
  Parked-entry p w h ts es m k,
)

arm-Goes :
    (w : ℕ) (b : Bool) (r : Queue) (es : List Pair)
    → Inv r
    → Parked r.heap r.timers es
    → Goes (arm w (some (b, r))) es
arm-Goes w true r es v k = (_, refl, record { agree = v.agree; sorted = v.sorted }, k)
arm-Goes w false r es v k = (r, refl, v, k)

add_timer-Goes :
    (p when interval : ℕ) (repeat : Bool) (q : Queue) (es : List Pair)
    → Allowed (adds p when interval repeat) q
    → Inv q
    → Parked q.heap q.timers es
    → Goes (add_timer p when interval repeat q) es
unfolding add_timer
add_timer-Goes p when interval repeat q es (b, n) v k =
    let t : Timer = record {
      expiration = when;
      interval = interval;
      repeat = repeat;
      sequence = q.created;
    } in
    let free = Agree-Free p q.heap q.timers q.active n v.agree in
    let aside = Parked-Free p q.heap q.timers es n k in
    let q' : Queue = record q { heap = put p (some t) q.heap; created = q.created + 1 } in
    let v' : Inv q' = record {
      agree = Agree-put p (some t) q.heap q.timers q.active free v.agree;
      sorted = v.sorted;
    } in
    let (e, w) = insert-Inv p t q' b (put-same p (some t) q.heap) free v' in
    let k' =
      Parked-place p when q'.heap q.timers es aside
        (Parked-put p (some t) q.heap q.timers es aside k) in
    let (r, g, x, y) = arm-Goes when (earlier when q.timers) (with_both p t q') es w k' in
    (r, ap (arm when) e ∙ g, x, y)

cancel-Goes :
    (p s : ℕ) (q : Queue) (es : List Pair)
    → Inv q
    → Parked q.heap q.timers es
    → member (p, s) q.active ≡ true
    → Goes (with_timer (q.heap p) (cancel_active p s q)) es
cancel-Goes p s q es v k m =
    let (t, e, _, n, f, a) = Agree-found p s q.heap q.timers q.active v.agree m in
    let d : Pair = (t.expiration, p) in
    let r : Queue = record q {
      timers = erase d q.timers;
      heap = put p none q.heap;
      active = erase (p, s) q.active;
    } in
    let w : Inv r = record {
      agree = Agree-put p none q.heap (erase d q.timers) (erase (p, s) q.active) f a;
      sorted = erase-Sorted d q.timers v.sorted;
    } in
    let aside = Parked-entry p t.expiration q.heap q.timers es n k in
    (
      r,
      ap (λ o. with_timer o (cancel_active p s q)) e
          ∙ ap (λ b. assert b (assert (sizes_agree r) (some r))) n
          ∙ ap (λ b. assert b (some r)) (sizes r w.agree),
      w,
      Parked-put p none q.heap (erase d q.timers) es aside (Parked-erase d q.heap q.timers es k),
    )

cancel_in_loop-Goes :
    (p s : ℕ) (q : Queue) (es : List Pair)
    → Inv q
    → Parked q.heap q.timers es
    → Goes (cancel_in_loop p s q) es
unfolding cancel_in_loop
cancel_in_loop-Goes p s q es v k =
    let found =
      if-cases (λ o. Goes o es) (member (p, s) q.active)
        (with_timer (q.heap p) (cancel_active p s q))
        (some (if q.calling then record q { canceling = (p, s) ∷ q.canceling } else q))
        (cancel-Goes p s q es v k)
        (λ m. (
          _,
          refl,
          if-cases Inv q.calling _ _ (λ c. record { agree = v.agree; sorted = v.sorted }) (λ c. v),
          if-cases (λ (r : Queue). Parked r.heap r.timers es) q.calling _ _ (λ c. k) (λ c. k),
        )) in
    let (r, e, x, y) = found in
    (
      r,
      ap
            (λ b. assert b (
              if member (p, s) q.active
              then with_timer (q.heap p) (cancel_active p s q)
              else some (if q.calling then record q { canceling = (p, s) ∷ q.canceling } else q)))
            (sizes q v.agree)
          ∙ e,
      x,
      y,
    )

pub ask-Goes :
    (c : Request) (q : Queue) (es : List Pair)
    → Allowed c q
    → Inv q
    → Parked q.heap q.timers es
    → Goes (ask c q) es
unfolding ask
ask-Goes (adds p when interval repeat) q es a v k = add_timer-Goes p when interval repeat q es a v k
ask-Goes (cancels p s) q es a v k = cancel_in_loop-Goes p s q es v k
