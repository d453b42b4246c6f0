-- ===== src/Net/TcpServer/Runs.antt =====
-- Runs of a server, to its end.
use mathlib.Core.Path.{subst}
use native.Mathlib.Nat.{zero-mod}
use cloud_storge_system.Common.{
  ℕ, ◌+◌, ◌-◌, ◌^◌, ◌≤◌, ◌<◌, ◌≡◌, ◌∙◌, sym, ap, refl, Bytes, Option, none, some, List, [], ◌∷◌,
  ◌++◌, length, append-nil, append_assoc, arith,
}
use cloud_storge_system.Net.TcpServer.{
  Conn, Task, establish, destroy, Server, started, get_next_loop, conn_name, connect_in,
  new_connection, remove_connection, destroy_each, destroy_all, Event, accepts, removes, step,
  run_on, run,
}
use cloud_storge_system.Net.TcpServer.Names.{occurs, one, Keyed}
use cloud_storge_system.Net.TcpServer.Balance.{
  established, destroyed, established-append, destroyed-append, turn, loop_in-turn, Next, conn_at,
  Inv, with_conn, accept-Inv, remove-Inv,
}

-- The connections that are established, in order.
abbrev pub established_conns : List Task → List Conn
established_conns [] = []
established_conns (establish c ∷ ts) = c ∷ established_conns ts
established_conns (destroy c ∷ ts) = established_conns ts

-- Those of the accepted sockets.
abbrev pub accepted : (ℕ → ℕ → Conn) → ℕ → List Event → List Conn
accepted f i [] = []
accepted f i (accepts socket ∷ es) = f i socket ∷ accepted f (i + 1) es
accepted f i (removes c ∷ es) = accepted f i es

-- A connection that is removed is in the map.
abbrev pub Allowed : Event → Server → Type 0
Allowed (accepts socket) s = Unit
Allowed (removes c) s = 1 ≤ occurs c.name s.connections

abbrev AllowedOn : (Server → Type 0) → Option Server → Type 0
AllowedOn f none = Unit
AllowedOn f (some s) = f s

unfoldable pub AllowedAll : List Event → Server → Type 0
unfolding step
AllowedAll [] s = Unit
AllowedAll (e ∷ es) s = Allowed e s × AllowedOn (AllowedAll es) (step e s)

established_conns-append :
    (ts us : List Task)
    → established_conns (ts ++ us) ≡ established_conns ts ++ established_conns us
established_conns-append [] us = refl
established_conns-append (establish c ∷ ts) us = ap (λ l. c ∷ l) (established_conns-append ts us)
established_conns-append (destroy c ∷ ts) us = established_conns-append ts us

-- The run succeeds, and has established these connections after those before.
abbrev Goes : List Event → Server → ℕ → Option Server → Type 0
Goes es s k o =
    (t : Server) × (n : ℕ) × (o ≡ some t)
    × Inv t n
    × (established_conns t.queued ≡ established_conns s.queued ++ accepted (conn_at s) (k + 1) es)

accept-some :
    (socket k : ℕ) (s : Server)
    → Inv s k
    → (x : ℕ) × Next s.pool.loops x (k + 1)
      × (new_connection socket s
          ≡ some (with_conn s (record s.pool { next = x }) (conn_at s (k + 1) socket)))
unfolding new_connection get_next_loop
accept-some socket k s v =
    let (x, e, n) = loop_in-turn s.pool s.pool.loops k refl v.turn_is in
    let conn : ℕ → ℕ → Conn = λ i j. record {
      name = conn_name s i;
      socket = socket;
      loop = turn s.pool.base_loop s.pool.loops j;
    } in
    let made = λ (c : Conn). some (with_conn s (record s.pool { next = x }) c) in
    let j : k ≡ k + 1 - 1 = omega arith in
    (
      x,
      n,
      ap (connect_in socket s) e
          ∙ ap (λ i. made (conn i k)) v.count
          ∙ ap (λ j. made (conn (k + 1) j)) j,
    )

run-Goes :
    (es : List Event) (s : Server) (k : ℕ)
    → Inv s k
    → k + length es + 1 < 2 ^ 31
    → AllowedAll es s
    → Goes es s k (run es s)
unfolding run AllowedAll step remove_connection
run-Goes [] s k v h a = (s, k, refl, v, sym (append-nil (established_conns s.queued)))
run-Goes (accepts socket ∷ es) s k v h (a, b) =
    let (x, n, e) = accept-some socket k s v in
    let c = conn_at s (k + 1) socket in
    let t = with_conn s (record s.pool { next = x }) c in
    let w = accept-Inv s k socket x v (omega (arith, h)) n in
    let (u, m, g, z, q) =
      run-Goes es t (k + 1) w (omega (arith, h)) (subst (AllowedOn (AllowedAll es)) e b) in
    let before = established_conns s.queued in
    let after = accepted (conn_at s) (k + 1 + 1) es in
    (
      u,
      m,
      ap (run_on (run es)) e ∙ g,
      z,
      q
          ∙ ap (λ l. l ++ after) (established_conns-append s.queued (establish c ∷ []))
          ∙ append_assoc before (c ∷ []) after,
    )
run-Goes (removes c ∷ es) s k v h (a, b) =
    let t = remove_connection c s in
    let (u, m, g, z, q) = run-Goes es t k (remove-Inv c s k v a) (omega (arith, h)) b in
    let after = accepted (conn_at s) (k + 1) es in
    (
      u,
      m,
      g,
      z,
      q
          ∙ ap (λ l. l ++ after) (established_conns-append s.queued (destroy c ∷ []))
          ∙ ap (λ l. l ++ after) (append-nil (established_conns s.queued)),
    )

started-Inv :
    (name ip_port : Bytes) (base : ℕ) (loops : List ℕ) → Inv (started name ip_port base loops) 0
started-Inv name ip_port base loops = record {
  turn_is = first loops;
  count = omega arith;
  free = λ i a b. refl;
  keyed = tt;
  balance = λ n. refl;
}
  where
    first : (l : List ℕ) → Next l 0 0
    first [] = tt
    first (x ∷ xs) = sym (zero-mod (length (x ∷ xs)))

-- The destructor destroys what the map holds.
destroy_each-counts :
    (n : Bytes) (m : List (Bytes × Conn))
    → Keyed m
    → (established n (destroy_each m) ≡ 0) × (destroyed n (destroy_each m) ≡ occurs n m)
destroy_each-counts n [] v = (refl, refl)
destroy_each-counts n ((j, c) ∷ m) (e, v) =
    let (a, b) = destroy_each-counts n m v in
    (a, let z = ap (λ j. one j n) e in omega (arith, b, z))

destroy_all-balance :
    (s : Server) (k : ℕ) (n : Bytes)
    → Inv s k
    → established n (destroy_all s).queued ≡ destroyed n (destroy_all s).queued
unfolding destroy_all
destroy_all-balance s k n v =
    let (a, b) = destroy_each-counts n s.connections v.keyed in
    let c = established-append n s.queued (destroy_each s.connections) in
    let d = destroyed-append n s.queued (destroy_each s.connections) in
    let e = v.balance n in omega (arith, a, b, c, d, e)

-- A run of a started server that accepts sockets and removes only connections that are in its map,
-- while the numbers of connections fit an int, never indexes beyond the loops of the pool; the
-- connections that it establishes are those of the accepted sockets in order, the i-th with the name
-- of the number i and the loops in turn; and once the server is destroyed, connectDestroyed has been
-- given out for each name as often as connectEstablished.
pub run-Balanced :
    (name ip_port : Bytes) (base : ℕ) (loops : List ℕ) (es : List Event)
    → length es + 1 < 2 ^ 31
    → AllowedAll es (started name ip_port base loops)
    → (t : Server) × (run es (started name ip_port base loops) ≡ some t)
      × (established_conns t.queued ≡ accepted (conn_at (started name ip_port base loops)) 1 es)
      × ((n : Bytes) → established n (destroy_all t).queued ≡ destroyed n (destroy_all t).queued)
run-Balanced name ip_port base loops es h a =
    let (t, k, e, v, q) =
      run-Goes es (started name ip_port base loops) 0 (started-Inv name ip_port base loops)
        (omega (arith, h)) a in
    (t, e, q, λ n. destroy_all-balance t k n v)
