-- ===== src/Net/Timers/Agree.antt =====
-- The agreement of the two sets of timers with the heap, entry by entry.
use mathlib.Core.Path.{subst}
use cloud_storge_system.Common.{
  ℕ, suc, ◌==◌, ◌<◌, ◌≡◌, ◌≢◌, ◌∙◌, sym, ap, refl, inl, inr, Bool-cases, true, false, Option, some,
  List, [], ◌∷◌, length, All, arith, if-cases, if◌then◌else◌,
}
use cloud_storge_system.Net.Timers.{
  Timer, Pair, Heap, same, member, erase, less, place, put, address_max,
}

-- No entry has the address.
abbrev pub Free : ℕ → List Pair → Type 0
Free p = All (λ e. e.1 ≢ p)

-- Each entry has a timer of its own whose time it is, and the active set has just these timers.
abbrev pub Agree : Heap → List Pair → List Pair → Type 0
Agree h [] vs = vs ≡ []
Agree h ((w, p) ∷ ts) vs =
    (p < address_max)
    × ((t : Timer) × (h p ≡ some t)
        × (t.expiration ≡ w)
        × (member (p, t.sequence) vs ≡ true)
        × Free p ts
        × Agree h ts (erase (p, t.sequence) vs))

pub length-erase :
    (e : Pair) (es : List Pair) → member e es ≡ true → length es ≡ suc (length (erase e es))
length-erase e [] m = ground (arith, m)
length-erase e (x ∷ xs) m = elim (Bool-cases (same x e)) [
  | inl s ↦ rw s (omega arith)
  | inr s ↦
      let n : member e xs ≡ true = ground (arith, m, s) in rw s (omega (arith, length-erase e xs n))
]

pub Agree-length : (h : Heap) (ts vs : List Pair) → Agree h ts vs → length ts ≡ length vs
Agree-length h [] vs a = ap length (sym a)
Agree-length h ((w, p) ∷ ts) vs (b, (t, e, x, m, f, a)) =
    omega (arith, Agree-length h ts (erase (p, t.sequence) vs) a, length-erase (p, t.sequence) vs m)

-- Pairs with different addresses.
pub same-≢ : (p q s r : ℕ) → p ≢ q → same (p, s) (q, r) ≡ false
same-≢ p q s r n = ground arith

pub erase-other :
    (e x : Pair) (xs : List Pair) → same x e ≡ false → erase e (x ∷ xs) ≡ x ∷ erase e xs
erase-other e x xs s = rw s refl

-- Erasing a pair keeps every other one.
pub member-erase :
    (e d : Pair) (es : List Pair) → same e d ≡ false → member d (erase e es) ≡ member d es
member-erase e d [] n = refl
member-erase (a, b) (c, d) ((x, y) ∷ xs) n = ground (arith, n, member-erase (a, b) (c, d) xs n)

pub erase-erase : (e d : Pair) (es : List Pair) → erase e (erase d es) ≡ erase d (erase e es)
erase-erase e d [] = refl
erase-erase (a, b) (c, d) ((x, y) ∷ xs) = ground (arith, erase-erase (a, b) (c, d) xs)

pub put-other : (p q : ℕ) (o : Option Timer) (h : Heap) → p ≢ q → put p o h q ≡ h q
put-other p q o h n =
    let d : (q == p) ≡ false = ground (arith, n) in ap (λ b. if b then o else h q) d

pub put-same : (p : ℕ) (o : Option Timer) (h : Heap) → put p o h p ≡ o
put-same p o h = let d : (p == p) ≡ true = ground arith in ap (λ b. if b then o else h p) d

-- The heap at an address that no entry has does not matter.
pub Agree-put :
    (p : ℕ) (o : Option Timer) (h : Heap) (ts vs : List Pair)
    → Free p ts
    → Agree h ts vs
    → Agree (put p o h) ts vs
Agree-put p o h [] vs f a = a
Agree-put p o h ((w, q) ∷ ts) vs (n, f) (b, (t, e, x, m, g, a)) = (
  b,
  (
    t,
    put-other p q o h (λ i. n (sym i)) ∙ e,
    x,
    m,
    g,
    Agree-put p o h ts (erase (q, t.sequence) vs) f a,
  ),
)

pub Free-place : (p q w : ℕ) (ts : List Pair) → p ≢ q → Free q ts → Free q (place (w, p) ts)
Free-place p q w [] n f = (n, tt)
Free-place p q w ((v, r) ∷ ts) n (m, f) = elim (Bool-cases (less (w, p) (v, r))) [
  | inl e ↦ rw e (n, (m, f))
  | inr e ↦ rw e (m, Free-place p q w ts n f)
]

pub Free-erase : (e : Pair) (q : ℕ) (ts : List Pair) → Free q ts → Free q (erase e ts)
Free-erase e q [] f = tt
Free-erase e q (x ∷ ts) (m, f) = elim (Bool-cases (same x e)) [
  | inl s ↦ rw s f
  | inr s ↦ rw s (m, Free-erase e q ts f)
]

pub member-head : (e : Pair) (xs : List Pair) → member e (e ∷ xs) ≡ true
member-head (a, b) xs = ground arith

pub erase-head : (e : Pair) (xs : List Pair) → erase e (e ∷ xs) ≡ xs
erase-head (a, b) xs = ground arith

pub member-tail : (e x : Pair) (xs : List Pair) → member e xs ≡ true → member e (x ∷ xs) ≡ true
member-tail e x xs m = ground (arith, m)

Agree-front :
    (p : ℕ) (t : Timer) (h : Heap) (ts vs : List Pair)
    → p < address_max
    → h p ≡ some t
    → Free p ts
    → Agree h ts vs
    → Agree h ((t.expiration, p) ∷ ts) ((p, t.sequence) ∷ vs)
Agree-front p t h ts vs b e f a = (
  b,
  (
    t,
    e,
    refl,
    member-head (p, t.sequence) vs,
    f,
    subst (Agree h ts) (sym (erase-head (p, t.sequence) vs)) a,
  ),
)

-- A new timer in both sets.
pub Agree-place :
    (p : ℕ) (t : Timer) (h : Heap) (ts vs : List Pair)
    → p < address_max
    → h p ≡ some t
    → Free p ts
    → Agree h ts vs
    → Agree h (place (t.expiration, p) ts) ((p, t.sequence) ∷ vs)
Agree-place p t h [] vs b e f a = Agree-front p t h [] vs b e f a
Agree-place p t h ((w, q) ∷ ts) vs b e (n, f) (c, (u, g, x, m, k, a)) =
    if-cases (λ l. Agree h l ((p, t.sequence) ∷ vs)) (less (t.expiration, p) (w, q)) _ _
      (λ i. Agree-front p t h ((w, q) ∷ ts) vs b e (n, f) (c, (u, g, x, m, k, a)))
      (λ i.
        let o = same-≢ p q t.sequence u.sequence (λ i. n (sym i)) in
        (
          c,
          (
            u,
            g,
            x,
            member-tail (q, u.sequence) (p, t.sequence) vs m,
            Free-place p q t.expiration ts (λ i. n (sym i)) k,
            subst (Agree h (place (t.expiration, p) ts))
                (sym (erase-other (q, u.sequence) (p, t.sequence) vs o))
                (Agree-place p t h ts (erase (q, u.sequence) vs) b e f a),
          ),
        ))
