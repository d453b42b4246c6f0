-- ===== src/Net/TcpServer/Balance.antt =====
-- What a server gives to the loops of its connections.
use native.Mathlib.Nat.{mod-add-mod, mod-eq_of_lt, mod_self, mod-lt}
use cloud_storge_system.Common.{
  ℕ, zero, suc, ◌+◌, ◌-◌, ◌%◌, ◌^◌, ◌≤◌, ◌<◌, ◌≡◌, ◌≢◌, ◌∙◌, sym, ap, refl, Bytes, some, List, [],
  ◌∷◌, ◌++◌, length, leb, if◌then◌else◌, if-cases, arith,
}
use cloud_storge_system.Net.TcpServer.{
  Conn, Pool, Task, establish, destroy, Server, element, with_next, loop_in, assign, conn_name,
  remove_connection,
}
use cloud_storge_system.Net.TcpServer.Names.{
  occurs, one, occurs-assign, occurs-erase, conn_name-ne, Keyed, Keyed-assign, Keyed-erase,
}

-- How often connections of this name are established and destroyed.
abbrev pub established : Bytes → List Task → ℕ
established k [] = 0
established k (establish c ∷ ts) = one c.name k + established k ts
established k (destroy c ∷ ts) = established k ts

abbrev pub destroyed : Bytes → List Task → ℕ
destroyed k [] = 0
destroyed k (establish c ∷ ts) = destroyed k ts
destroyed k (destroy c ∷ ts) = one c.name k + destroyed k ts

pub established-append :
    (k : Bytes) (ts us : List Task) → established k (ts ++ us) ≡ established k ts + established k us
established-append k [] us = omega arith
established-append k (establish c ∷ ts) us = let r = established-append k ts us in omega (arith, r)
established-append k (destroy c ∷ ts) us = established-append k ts us

pub destroyed-append :
    (k : Bytes) (ts us : List Task) → destroyed k (ts ++ us) ≡ destroyed k ts + destroyed k us
destroyed-append k [] us = omega arith
destroyed-append k (establish c ∷ ts) us = destroyed-append k ts us
destroyed-append k (destroy c ∷ ts) us = let r = destroyed-append k ts us in omega (arith, r)

-- The loops in turn: the base loop where there is no other.
abbrev pub nth : ℕ → ℕ → List ℕ → ℕ
nth base i [] = base
nth base zero (x ∷ xs) = x
nth base (suc i) (x ∷ xs) = nth base i xs

abbrev pub turn : ℕ → List ℕ → ℕ → ℕ
turn base [] k = base
turn base (x ∷ xs) k = nth base (k % length (x ∷ xs)) (x ∷ xs)

element-nth : (base i : ℕ) (xs : List ℕ) → i < length xs → element i xs ≡ some (nth base i xs)
element-nth base i [] h = ground (arith, h)
element-nth base zero (x ∷ xs) h = refl
element-nth base (suc i) (x ∷ xs) h = element-nth base i xs (omega (arith, h))

abbrev pub Next : List ℕ → ℕ → ℕ → Type 0
Next [] next k = Unit
Next (x ∷ xs) next k = next ≡ k % length (x ∷ xs)

next_mod : (k n : ℕ) → 1 ≤ n → (if leb n (k % n + 1) then 0 else k % n + 1) ≡ (k + 1) % n
next_mod k n h =
    let r = mod-add-mod k n 1 in
    let b : k % n < n = mod-lt k (omega (arith, h)) in
    if-cases (λ x. x ≡ (k + 1) % n) (leb n (k % n + 1)) 0 (k % n + 1)
      (λ e.
        let a : k % n + 1 ≡ n = ground (arith, e, b) in
        sym (mod_self n) ∙ ap (λ x. x % n) (sym a) ∙ r)
      (λ e. let a : k % n + 1 < n = ground (arith, e) in sym (mod-eq_of_lt a) ∙ r)

pub loop_in-turn :
    (p : Pool) (l : List ℕ) (k : ℕ)
    → p.loops ≡ l
    → Next l p.next k
    → (x : ℕ) × (loop_in p l ≡ some (turn p.base_loop l k, record p { next = x }))
      × Next l x (k + 1)
loop_in-turn p [] k e n = (p.next, refl, tt)
loop_in-turn p (x ∷ xs) k e n =
    let l = x ∷ xs in
    let after = λ (m : ℕ) (i : ℕ). if leb m (i + 1) then 0 else i + 1 in
    let b : k % length l < length l = mod-lt k (omega arith) in
    (
      after (length p.loops) p.next,
      ap (with_next p) (
          ap (λ l. element p.next l) e
          ∙ ap (λ i. element i l) n
          ∙ element-nth p.base_loop (k % length l) l b),
      ap (λ l. after (length l) p.next) e
          ∙ ap (after (length l)) n
          ∙ next_mod k (length l) (omega arith),
    )

-- The connection of a number.
abbrev pub conn_at : Server → ℕ → ℕ → Conn
conn_at s i socket = record {
  name = conn_name s i;
  socket = socket;
  loop = turn s.pool.base_loop s.pool.loops (i - 1);
}

-- After k connections: the next loop is that of the turn, later names are free, and a connection is
-- established as often as it is destroyed, and once more if it is in the map, under its name.
pub record Inv (s : Server) (k : ℕ) : Type 0 where
  pub turn_is : Next s.pool.loops s.pool.next k
  pub count : s.next_conn_id ≡ k + 1
  pub free : (i : ℕ) → k < i → i < 2 ^ 31 → occurs (conn_name s i) s.connections ≡ 0
  pub keyed : Keyed s.connections
  pub balance : (n : Bytes) → established n s.queued ≡ destroyed n s.queued + occurs n s.connections

abbrev pub with_conn : Server → Pool → Conn → Server
with_conn s p c = record s {
  pool = p;
  next_conn_id = s.next_conn_id + 1;
  connections = assign c.name c s.connections;
  queued = s.queued ++ (establish c ∷ []);
}

pub accept-Inv :
    (s : Server) (k socket x : ℕ)
    → Inv s k
    → k + 1 < 2 ^ 31
    → Next s.pool.loops x (k + 1)
    → Inv (with_conn s (record s.pool { next = x }) (conn_at s (k + 1) socket)) (k + 1)
accept-Inv s k socket x v h n =
    let c = conn_at s (k + 1) socket in
    let none_yet = v.free (k + 1) (omega arith) h in
    record {
      turn_is = n;
      count = let e = v.count in omega (arith, e);
      free = λ i a b.
          let d : k + 1 ≢ i = λ e. omega (arith, e, a) in
          let o = conn_name-ne s (k + 1) i h b d in
          let f = v.free i (omega (arith, a)) b in
          let g = occurs-assign (conn_name s i) c.name c s.connections none_yet in
          omega (arith, o, f, g);
      keyed = Keyed-assign c s.connections v.keyed;
      balance = λ n.
          let a = v.balance n in
          let b = occurs-assign n c.name c s.connections none_yet in
          let d = established-append n s.queued (establish c ∷ []) in
          let f = destroyed-append n s.queued (establish c ∷ []) in omega (arith, a, b, d, f);
    }

-- A connection that is in the map is removed.
pub remove-Inv :
    (c : Conn) (s : Server) (k : ℕ)
    → Inv s k
    → 1 ≤ occurs c.name s.connections
    → Inv (remove_connection c s) k
unfolding remove_connection
remove-Inv c s k v h = record {
  turn_is = v.turn_is;
  count = v.count;
  free = λ i a b.
      let f = v.free i a b in
      let g = occurs-erase (conn_name s i) c.name s.connections h in omega (arith, f, g);
  keyed = Keyed-erase c.name s.connections v.keyed;
  balance = λ n.
      let a = v.balance n in
      let b = occurs-erase n c.name s.connections h in
      let d = established-append n s.queued (destroy c ∷ []) in
      let f = destroyed-append n s.queued (destroy c ∷ []) in omega (arith, a, b, d, f);
}
