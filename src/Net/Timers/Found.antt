-- ===== src/Net/Timers/Found.antt =====
-- The entry of an active timer.
use mathlib.Core.Path.{subst}
use cloud_storge_system.Common.{
  ℕ, ◌<◌, ◌≡◌, ◌≢◌, ◌∙◌, sym, ap, refl, inl, inr, Bool-cases, true, false, some, List, [], ◌∷◌,
  arith,
}
use cloud_storge_system.Net.Timers.{Timer, Pair, Heap, same, member, erase, address_max}
use cloud_storge_system.Net.Timers.Agree.{
  Agree, Free, Free-erase, same-≢, erase-other, member-erase, erase-erase, member-head, erase-head,
  member-tail,
}

-- An active timer has its entry, and both can go.
abbrev pub Found : Heap → List Pair → List Pair → ℕ → ℕ → Type 0
Found h ts vs p s =
    (t : Timer) × (h p ≡ some t)
    × (t.sequence ≡ s)
    × (member (t.expiration, p) ts ≡ true)
    × Free p (erase (t.expiration, p) ts)
    × Agree h (erase (t.expiration, p) ts) (erase (p, s) vs)

pub not-member : (p w : ℕ) (ts : List Pair) → Free p ts → member (w, p) ts ≡ false
not-member p w [] f = refl
not-member p w ((v, q) ∷ ts) (n, f) = ground (arith, n, not-member p w ts f)

same-snd : (v w p q : ℕ) → q ≢ p → same (w, q) (v, p) ≡ false
same-snd v w p q n = ground (arith, n)

Found-head :
    (q : ℕ) (u : Timer) (h : Heap) (ts vs : List Pair)
    → h q ≡ some u
    → Free q ts
    → Agree h ts (erase (q, u.sequence) vs)
    → Found h ((u.expiration, q) ∷ ts) vs q u.sequence
Found-head q u h ts vs g f a =
    let e = sym (erase-head (u.expiration, q) ts) in
    (
      u,
      g,
      refl,
      member-head (u.expiration, q) ts,
      subst (Free q) e f,
      subst (λ l. Agree h l (erase (q, u.sequence) vs)) e a,
    )

-- The entry of another timer stays.
Found-tail :
    (p s w q : ℕ) (u : Timer) (h : Heap) (ts vs : List Pair)
    → q < address_max
    → h q ≡ some u
    → u.expiration ≡ w
    → member (q, u.sequence) vs ≡ true
    → Free q ts
    → Found h ts (erase (q, u.sequence) vs) p s
    → Found h ((w, q) ∷ ts) vs p s
Found-tail p s w q u h ts vs c g x k f (t, e, es, m, fr, ag) =
    let n : q ≢ p = λ r.
      let z : member (t.expiration, p) ts ≡ false =
        sym (ap (λ y. member (t.expiration, y) ts) r) ∙ not-member q t.expiration ts f in
      ground (arith, z, m) in
    let stays = sym (erase-other (t.expiration, p) (w, q) ts (same-snd t.expiration w p q n)) in
    let kept =
      member-erase (p, s) (q, u.sequence) vs (same-≢ p q s u.sequence (λ i. n (sym i))) ∙ k in
    (
      t,
      e,
      es,
      member-tail (t.expiration, p) (w, q) ts m,
      subst (Free p) stays (n, fr),
      subst (λ l. Agree h l (erase (p, s) vs)) stays
          (
            c,
            (
              u,
              g,
              x,
              kept,
              Free-erase (t.expiration, p) q ts f,
              subst (Agree h (erase (t.expiration, p) ts)) (erase-erase (p, s) (q, u.sequence) vs)
                  ag,
            ),
          ),
    )

same-eq : (a b c d : ℕ) → same (a, b) (c, d) ≡ true → (a ≡ c) × (b ≡ d)
same-eq a b c d s = (ground (arith, s), ground (arith, s))

pub Agree-found :
    (p s : ℕ) (h : Heap) (ts vs : List Pair)
    → Agree h ts vs
    → member (p, s) vs ≡ true
    → Found h ts vs p s
Agree-found p s h [] vs a m =
    let n : member (p, s) vs ≡ false = ap (member (p, s)) a in ground (arith, n, m)
Agree-found p s h ((w, q) ∷ ts) vs (c, (u, g, x, k, f, a)) m =
    elim (Bool-cases (same (q, u.sequence) (p, s))) [
      | inl i ↦
          let (qp, us) = same-eq q u.sequence p s i in
          subst (λ e. Found h ((w, q) ∷ ts) vs e s) qp
            (subst (λ e. Found h ((w, q) ∷ ts) vs q e) us
              (subst (λ e. Found h ((e, q) ∷ ts) vs q u.sequence) x (Found-head q u h ts vs g f a)))
      | inr i ↦ Found-tail p s w q u h ts vs c g x k f (
          Agree-found p s h ts (erase (q, u.sequence) vs) a
            (member-erase (q, u.sequence) (p, s) vs i ∙ m))
    ]

-- A timer that no entry has is not active.
pub Agree-inactive :
    (p s : ℕ) (h : Heap) (ts vs : List Pair) → Agree h ts vs → Free p ts → member (p, s) vs ≡ false
Agree-inactive p s h ts vs a f = elim (Bool-cases (member (p, s) vs)) [
  | inl m ↦
      let (t, e, es, k, fr, ag) = Agree-found p s h ts vs a m in
      let z : member (t.expiration, p) ts ≡ false = not-member p t.expiration ts f in
      ground (arith, z, k)
  | inr m ↦ m
]
