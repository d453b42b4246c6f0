-- ===== src/Net/Timers.antt =====
-- net/TimerQueue.h, net/TimerQueue.cc, net/Timer.h and net/Timer.cc: the timers of one loop. Times
-- are microseconds, and an interval is what addTime adds for it. A Timer stands at an address of the
-- heap; the sets are lists, the one of the timers in its order and the others in any, since the
-- order of these is not looked at. A failed assert and a use of a deleted timer are `none`.
pub mod Agree
pub mod Found
pub mod Firing
pub mod Keeps
pub mod Steps
pub mod Expiry
pub mod Runs
use cloud_storge_system.Common.{
  ℕ, ◌+◌, ◌-◌, ◌^◌, ◌==◌, Bool, true, false, not, ◌&&◌, ◌||◌, Option, none, some, List, [], ◌∷◌,
  length, ltb, if◌then◌else◌,
}

pub record Timer : Type 0 where
  pub expiration : ℕ
  pub interval : ℕ
  pub repeat : Bool
  pub sequence : ℕ

-- An entry of `timers_` is a time and an address, one of the other sets an address and a sequence
-- number.
abbrev pub Pair : Type 0
Pair = ℕ × ℕ

abbrev pub Heap : Type 0
Heap = ℕ → Option Timer

pub record Queue : Type 0 where
  pub heap : Heap
  pub timers : List Pair
  pub active : List Pair
  pub calling : Bool
  pub canceling : List Pair
  pub created : ℕ
  pub armed : Option ℕ

abbrev pub empty_queue : Queue
empty_queue = record {
  heap = λ p. none;
  timers = [];
  active = [];
  calling = false;
  canceling = [];
  created = 0;
  armed = none;
}

abbrev pub same : Pair → Pair → Bool
same (a, b) (c, d) = a == c && b == d

abbrev pub member : Pair → List Pair → Bool
member e [] = false
member e (x ∷ xs) = same x e || member e xs

-- `erase` of one element.
abbrev pub erase : Pair → List Pair → List Pair
erase e [] = []
erase e (x ∷ xs) = let rest = erase e xs in if same x e then xs else x ∷ rest

-- The order of std::pair.
abbrev pub less : Pair → Pair → Bool
less (a, b) (c, d) = ltb a c || (a == c && ltb b d)

abbrev pub place : Pair → List Pair → List Pair
place e [] = e ∷ []
place e (x ∷ xs) = let rest = place e xs in if less e x then e ∷ x ∷ xs else x ∷ rest

abbrev pub put : ℕ → Option Timer → Heap → Heap
put p o h = λ q. if q == p then o else h q

abbrev pub sizes_agree : Queue → Bool
sizes_agree q = length q.timers == length q.active

abbrev pub assert : {A : Type 0} → Bool → Option A → Option A
assert true o = o
assert false o = none

abbrev pub earlier : ℕ → List Pair → Bool
earlier w [] = true
earlier w ((v, p) ∷ ts) = ltb w v

abbrev pub insert_timer : ℕ → Timer → Queue → Option (Bool × Queue)
insert_timer p t q =
    let r : Queue = record q {
      timers = place (t.expiration, p) q.timers;
      active = (p, t.sequence) ∷ q.active;
    } in
    assert (sizes_agree q) (
      assert (not (member (t.expiration, p) q.timers)) (
        assert (not (member (p, t.sequence) q.active))
          (assert (sizes_agree r) (some (earlier t.expiration q.timers, r)))))

abbrev pub with_timer : {A : Type 0} → Option Timer → (Timer → Option A) → Option A
with_timer none f = none
with_timer (some t) f = f t

-- `insert`.
unfoldable pub insert : ℕ → Queue → Option (Bool × Queue)
insert p q = with_timer (q.heap p) (λ t. insert_timer p t q)

abbrev pub arm : ℕ → Option (Bool × Queue) → Option Queue
arm w none = none
arm w (some (true, q)) = some (record q { armed = some w })
arm w (some (false, q)) = some q

-- `addTimer` in the thread of the loop: a Timer at a new address, then `addTimerInLoop`.
unfoldable pub add_timer : ℕ → ℕ → ℕ → Bool → Queue → Option Queue
unfolding insert
add_timer p when interval repeat q =
    let t : Timer = record {
      expiration = when;
      interval = interval;
      repeat = repeat;
      sequence = q.created;
    } in
    arm when (insert p (record q { heap = put p (some t) q.heap; created = q.created + 1 }))

-- The branch of `cancelInLoop` for a timer that is active.
abbrev pub cancel_active : ℕ → ℕ → Queue → Timer → Option Queue
cancel_active p s q t =
    let r : Queue = record q {
      timers = erase (t.expiration, p) q.timers;
      heap = put p none q.heap;
      active = erase (p, s) q.active;
    } in
    assert (member (t.expiration, p) q.timers) (assert (sizes_agree r) (some r))

-- `cancelInLoop`.
unfoldable pub cancel_in_loop : ℕ → ℕ → Queue → Option Queue
cancel_in_loop p s q = assert (sizes_agree q) (
    if member (p, s) q.active
    then with_timer (q.heap p) (cancel_active p s q)
    else some (if q.calling then record q { canceling = (p, s) ∷ q.canceling } else q))

-- The address that no timer has.
abbrev pub address_max : ℕ
address_max = 2 ^ 64 - 1

-- The entries before `lower_bound` of the time and that address, and the others.
abbrev pub split_at_time : ℕ → List Pair → List Pair × List Pair
split_at_time now [] = ([], [])
split_at_time now (e ∷ es) =
    let (before, after) = split_at_time now es in
    if less e (now, address_max) then (e ∷ before, after) else ([], e ∷ es)

-- The loop of `getExpired` over the expired entries.
abbrev pub deactivate : Heap → List Pair → List Pair → Option (List Pair)
deactivate heap [] active = some active
deactivate heap ((w, p) ∷ es) active = with_timer (heap p) (λ t.
    assert (member (p, t.sequence) active) (deactivate heap es (erase (p, t.sequence) active)))

abbrev pub with_active :
    Queue → List Pair → List Pair → Option (List Pair) → Option (List Pair × Queue)
with_active q expired rest none = none
with_active q expired rest (some active) =
    let r : Queue = record q { timers = rest; active = active } in
    assert (sizes_agree r) (some (expired, r))

-- `getExpired`.
unfoldable pub get_expired : ℕ → Queue → Option (List Pair × Queue)
get_expired now q =
    let (expired, rest) = split_at_time now q.timers in
    assert (sizes_agree q)
      (assert (earlier now rest) (with_active q expired rest (deactivate q.heap expired q.active)))
