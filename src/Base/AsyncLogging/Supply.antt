-- ===== src/Base/AsyncLogging/Supply.antt =====
-- The supply of buffers: where each of the spare buffers is, between the pieces of the work.
use mathlib.Core.Path.{subst}
use cloud_storge_system.Common.{
  ℕ, ◌-◌, ◌+◌, ◌≤◌, ◌≡◌, ◌∙◌, sym, ap, refl, Bool, true, Bytes, Option, none, some, List, [], ◌∷◌,
  ◌++◌, length, take, ltb, arith, if-cases,
}
use cloud_storge_system.Base.AsyncLogging.{
  Phase, checking, collecting, writing, stopped, Logging, started, append_to, rotate, append, check,
  is_clear, is_empty, not_empty, assert, next_after, new2_after, swap_buffers, collect, pieces,
  refill, finish, refill_both, write_out,
}

-- A spare buffer is empty; where it has been taken, this many buffers are there instead.
abbrev pub Spare : Option Bytes → ℕ → List Bytes → Type 0
Spare none n bs = n ≤ length bs
Spare (some b) n bs = b ≡ []

abbrev pub Back : Phase → Option Bytes → Option Bytes → List Bytes → Type 0
Back writing new1 new2 bs = (new1 ≡ none) × Spare new2 2 bs × (1 ≤ length bs)
Back _ new1 new2 bs = (new1 ≡ some []) × (new2 ≡ some []) × (bs ≡ [])

pub record Inv (s : Logging) : Type 0 where
  pub front : Spare s.next 1 s.buffers
  pub back : Back s.phase s.new1 s.new2 s.to_write

pub started-Inv : Inv started
started-Inv = record { front = refl; back = (refl, refl, refl) }

pub length-snoc : (bs : List Bytes) (b : Bytes) → length (bs ++ (b ∷ [])) ≡ 1 + length bs
length-snoc [] b = refl
length-snoc (c ∷ bs) b = let e = length-snoc bs b in ground (arith, e)

pub append-Inv : (size : ℕ) (line : Bytes) (s : Logging) → Inv s → Inv (append size line s)
unfolding append
append-Inv size line s v =
    if-cases Inv (ltb (length line) (size - length s.current))
      (record s { current = append_to size line s.current }) (rotate size line s)
      (λ e. record { front = v.front; back = v.back })
      (λ e. record {
        front = let n = length-snoc s.buffers s.current in omega (arith, n);
        back = v.back;
      })

pub check-Inv : (s : Logging) → s.phase ≡ checking → Inv s → Inv (check s)
check-Inv s e v =
    let b = subst (λ p. Back p s.new1 s.new2 s.to_write) e v.back in
    if-cases (λ p. Inv (record s { phase = p })) s.running collecting stopped
      (λ r. record { front = v.front; back = b }) (λ r. record { front = v.front; back = b })

assert-true : {A : Type 0} (b : Bool) (o : Option A) → b ≡ true → assert b o ≡ o
assert-true b o e = ap (λ b. assert b o) e

Spare-next_after :
    (next new2 : Option Bytes) (bs cs : List Bytes)
    → new2 ≡ some []
    → Spare next 1 bs
    → Spare (next_after next new2) 1 cs
Spare-next_after none new2 bs cs e f = subst (λ n. Spare n 1 cs) (sym e) refl
Spare-next_after (some b) new2 bs cs e f = f

Spare-new2_after :
    (next new2 : Option Bytes) (bs : List Bytes) (b : Bytes)
    → new2 ≡ some []
    → Spare next 1 bs
    → Spare (new2_after next new2) 2 (bs ++ (b ∷ []))
Spare-new2_after none new2 bs b e f = let n = length-snoc bs b in omega (arith, n)
Spare-new2_after (some c) new2 bs b e f = subst (λ n. Spare n 2 (bs ++ (b ∷ []))) (sym e) refl

pub collect-swap : (s : Logging) → s.phase ≡ collecting → Inv s → collect s ≡ some (swap_buffers s)
unfolding collect
collect-swap s e v =
    let (a, b, c) = subst (λ p. Back p s.new1 s.new2 s.to_write) e v.back in
    assert-true (is_clear s.new1) _ (ap is_clear a)
    ∙ assert-true (is_clear s.new2) _ (ap is_clear b)
    ∙ assert-true (is_empty s.to_write) _ (ap is_empty c)

pub swap-Inv : (s : Logging) → s.phase ≡ collecting → Inv s → Inv (swap_buffers s)
swap-Inv s e v =
    let (a, b, c) = subst (λ p. Back p s.new1 s.new2 s.to_write) e v.back in
    record {
      front = Spare-next_after s.next s.new2 s.buffers s.to_write b v.front;
      back = (
        refl,
        Spare-new2_after s.next s.new2 s.buffers s.current b v.front,
        let n = length-snoc s.buffers s.current in omega (arith, n),
      );
    }

-- Both buffers that were handed over are replaced.
refills :
    (new2 : Option Bytes) (bs : List Bytes)
    → Spare new2 2 bs
    → 1 ≤ length bs
    → (cs : List Bytes) × (ds : List Bytes) × (not_empty bs ≡ true)
      × (refill none (take 2 bs) ≡ some (some [], cs))
      × (refill new2 cs ≡ some (some [], ds))
refills new2 [] f h = ground (arith, h)
refills none (b ∷ []) f h = ground (arith, f)
refills (some c) (b ∷ []) f h = ([], [], refl, refl, ap (λ c. some (some c, [])) f)
refills none (b ∷ c ∷ bs) f h = (b ∷ [], [], refl, refl, refl)
refills (some d) (b ∷ c ∷ bs) f h = (b ∷ [], b ∷ [], refl, refl, ap (λ c. some (some c, b ∷ [])) f)

-- After the file is written.
abbrev pub written : Bytes → Logging → Logging
written notice s = record s {
  new1 = some [];
  new2 = some [];
  to_write = [];
  output = s.output ++ pieces notice s.to_write;
  phase = checking;
}

pub write_out-written :
    (notice : Bytes) (s : Logging)
    → s.phase ≡ writing
    → Inv s
    → write_out notice s ≡ some (written notice s)
unfolding write_out
write_out-written notice s e v =
    let (a, b, c) = subst (λ p. Back p s.new1 s.new2 s.to_write) e v.back in
    let (cs, ds, n, f, g) = refills s.new2 s.to_write b c in
    let s1 : Logging = record s { output = s.output ++ pieces notice s.to_write } in
    assert-true (not_empty s.to_write) _ n
    ∙ ap (λ n. refill_both s1 (refill n (take 2 s.to_write))) a
    ∙ ap (refill_both s1) f
    ∙ ap (finish s1 (some [])) g
