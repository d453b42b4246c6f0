-- ===== src/Net/Timers/Keeps.antt =====
-- The invariant of the queue, kept by each operation; the timers that have expired keep aside.
use cloud_storge_system.Common.{
  ℕ, ◌==◌, ◌<◌, ◌≤◌, ◌≡◌, ◌∙◌, sym, ap, true, not, Option, none, some, List, [], ◌∷◌, length, All,
  arith, if-cases,
}
use cloud_storge_system.Net.Timers.{
  Timer, Pair, Heap, Queue, same, member, erase, less, place, put, address_max, sizes_agree, assert,
  earlier, with_timer, insert_timer, insert,
}
use cloud_storge_system.Net.Timers.Agree.{
  Agree, Free, Agree-length, put-other, Free-place, Free-erase, Agree-place,
}
use cloud_storge_system.Net.Timers.Found.{Agree-inactive, not-member}

-- No entry is before the time.
abbrev pub Ahead : ℕ → List Pair → Type 0
Ahead w = All (λ e. w ≤ e.0)

abbrev pub Sorted : List Pair → Type 0
Sorted [] = Unit
Sorted ((w, p) ∷ ts) = Ahead w ts × Sorted ts

-- The sets agree with each other and with the heap, and the timers are in the order of their times.
pub record Inv (q : Queue) : Type 0 where
  pub agree : Agree q.heap q.timers q.active
  pub sorted : Sorted q.timers

Ahead-le : (v w : ℕ) (ts : List Pair) → v ≤ w → Ahead w ts → Ahead v ts
Ahead-le v w [] l h = tt
Ahead-le v w (e ∷ ts) l (i, h) = (omega (arith, l, i), Ahead-le v w ts l h)

Ahead-place : (v w p : ℕ) (ts : List Pair) → v ≤ w → Ahead v ts → Ahead v (place (w, p) ts)
Ahead-place v w p [] l h = (l, tt)
Ahead-place v w p (x ∷ ts) l (i, h) =
    if-cases (Ahead v) (less (w, p) x) _ _ (λ e. (l, (i, h))) (λ e. (i, Ahead-place v w p ts l h))

pub place-Sorted : (w p : ℕ) (ts : List Pair) → Sorted ts → Sorted (place (w, p) ts)
place-Sorted w p [] s = (tt, tt)
place-Sorted w p ((v, r) ∷ ts) (h, s) =
    if-cases Sorted (less (w, p) (v, r)) _ _
      (λ e. let l : w ≤ v = ground (arith, e) in ((l, Ahead-le w v ts l h), (h, s)))
      (λ e. let l : v ≤ w = ground (arith, e) in (Ahead-place v w p ts l h, place-Sorted w p ts s))

Ahead-erase : (v : ℕ) (e : Pair) (ts : List Pair) → Ahead v ts → Ahead v (erase e ts)
Ahead-erase v e [] h = tt
Ahead-erase v e (x ∷ ts) (i, h) =
    if-cases (Ahead v) (same x e) _ _ (λ s. h) (λ s. (i, Ahead-erase v e ts h))

pub erase-Sorted : (e : Pair) (ts : List Pair) → Sorted ts → Sorted (erase e ts)
erase-Sorted e [] s = tt
erase-Sorted e ((v, r) ∷ ts) (h, s) =
    if-cases Sorted (same (v, r) e) _ _ (λ i. s) (λ i. (Ahead-erase v e ts h, erase-Sorted e ts s))

pub sizes : (q : Queue) → Agree q.heap q.timers q.active → sizes_agree q ≡ true
sizes q a = equal (length q.timers) (length q.active) (Agree-length q.heap q.timers q.active a)
  where
    equal : (m n : ℕ) → m ≡ n → (m == n) ≡ true
    equal m n e = ground (arith, e)

-- Every timer of an entry is in the heap.
pub Agree-Free : (p : ℕ) (h : Heap) (ts vs : List Pair) → h p ≡ none → Agree h ts vs → Free p ts
Agree-Free p h [] vs n a = tt
Agree-Free p h ((w, r) ∷ ts) vs n (b, (t, e, x, m, f, a)) = (
  (λ i. let z : none ≡ some t = sym n ∙ sym (ap h i) ∙ e in ground (arith, z)),
  Agree-Free p h ts (erase (r, t.sequence) vs) n a,
)

-- The queue with the timer in both sets.
abbrev pub with_both : ℕ → Timer → Queue → Queue
with_both p t q = record q {
  timers = place (t.expiration, p) q.timers;
  active = (p, t.sequence) ∷ q.active;
}

pub insert-Inv :
    (p : ℕ) (t : Timer) (q : Queue)
    → p < address_max
    → q.heap p ≡ some t
    → Free p q.timers
    → Inv q
    → (insert p q ≡ some (earlier t.expiration q.timers, with_both p t q)) × Inv (with_both p t q)
unfolding insert
insert-Inv p t q b e f v =
    let both : Inv (with_both p t q) = record {
      agree = Agree-place p t q.heap q.timers q.active b e f v.agree;
      sorted = place-Sorted t.expiration p q.timers v.sorted;
    } in
    let r = some (earlier t.expiration q.timers, with_both p t q) in
    let fresh = ap not (not-member p t.expiration q.timers f) in
    let inactive = ap not (Agree-inactive p t.sequence q.heap q.timers q.active v.agree f) in
    (
      ap (λ o. with_timer o (λ t. insert_timer p t q)) e
          ∙ ap
              (λ c. assert c (
                assert (not (member (t.expiration, p) q.timers)) (
                  assert (not (member (p, t.sequence) q.active))
                    (assert (sizes_agree (with_both p t q)) r))))
              (sizes q v.agree)
          ∙ ap
              (λ c. assert c (
                assert (not (member (p, t.sequence) q.active))
                  (assert (sizes_agree (with_both p t q)) r)))
              fresh
          ∙ ap (λ c. assert c (assert (sizes_agree (with_both p t q)) r)) inactive
          ∙ ap (λ c. assert c r) (sizes (with_both p t q) both.agree),
      both,
    )

-- The expired timers: still in the heap, each once, and in neither set.
abbrev pub Parked : Heap → List Pair → List Pair → Type 0
Parked h ts [] = Unit
Parked h ts ((w, p) ∷ es) =
    (p < address_max) × ((t : Timer) × (h p ≡ some t)) × Free p ts × Free p es × Parked h ts es

pub Parked-put :
    (p : ℕ) (o : Option Timer) (h : Heap) (ts es : List Pair)
    → Free p es
    → Parked h ts es
    → Parked (put p o h) ts es
Parked-put p o h ts [] f k = tt
Parked-put p o h ts ((v, r) ∷ es) (n, f) (b, (t, e), i, j, k) =
    (b, (t, put-other p r o h (λ s. n (sym s)) ∙ e), i, j, Parked-put p o h ts es f k)

pub Parked-place :
    (p w : ℕ) (h : Heap) (ts es : List Pair)
    → Free p es
    → Parked h ts es
    → Parked h (place (w, p) ts) es
Parked-place p w h ts [] f k = tt
Parked-place p w h ts ((v, r) ∷ es) (n, f) (b, t, i, j, k) =
    (b, t, Free-place p r w ts (λ s. n (sym s)) i, j, Parked-place p w h ts es f k)

pub Parked-erase :
    (d : Pair) (h : Heap) (ts es : List Pair) → Parked h ts es → Parked h (erase d ts) es
Parked-erase d h ts [] k = tt
Parked-erase d h ts ((v, r) ∷ es) (b, t, i, j, k) =
    (b, t, Free-erase d r ts i, j, Parked-erase d h ts es k)
