-- ===== src/Net/TcpServer.antt =====
-- net/TcpServer.h, net/TcpServer.cc, net/EventLoopThreadPool.h and net/EventLoopThreadPool.cc: the
-- connections of a server, the loop that each is given, and what is given to these loops, in order.
-- The map of connections is an association list, and an index beyond the vector is `none`.
pub mod Names
pub mod Balance
pub mod Runs
use cloud_storge_system.Common.{
  ℕ, zero, suc, ◌+◌, Bool, true, false, Bytes, bytes, Option, none, some, List, [], ◌∷◌, ◌++◌,
  length, leb, eqb, to_string, if◌then◌else◌,
}

pub record Conn : Type 0 where
  pub name : Bytes
  pub socket : ℕ
  pub loop : ℕ

-- EventLoopThreadPool, after `start`.
pub record Pool : Type 0 where
  pub base_loop : ℕ
  pub loops : List ℕ
  pub next : ℕ

-- TcpConnection::connectEstablished and connectDestroyed, in the loop of the connection.
pub data Task : Type 0 where
  establish destroy : Conn → Task

pub record Server : Type 0 where
  pub name : Bytes
  pub ip_port : Bytes
  pub pool : Pool
  pub next_conn_id : ℕ
  pub connections : List (Bytes × Conn)
  pub queued : List Task

-- `start`, once the threads of the pool run these loops.
abbrev pub started : Bytes → Bytes → ℕ → List ℕ → Server
started name ip_port base_loop loops = record {
  name = name;
  ip_port = ip_port;
  pool = record { base_loop = base_loop; loops = loops; next = 0 };
  next_conn_id = 1;
  connections = [];
  queued = [];
}

abbrev pub element : ℕ → List ℕ → Option ℕ
element i [] = none
element zero (x ∷ xs) = some x
element (suc i) (x ∷ xs) = element i xs

abbrev pub with_next : Pool → Option ℕ → Option (ℕ × Pool)
with_next p none = none
with_next p (some loop) =
    some (loop, record p { next = if leb (length p.loops) (p.next + 1) then 0 else p.next + 1 })

abbrev pub loop_in : Pool → List ℕ → Option (ℕ × Pool)
loop_in p [] = some (p.base_loop, p)
loop_in p (x ∷ xs) = with_next p (element p.next p.loops)

-- `EventLoopThreadPool::getNextLoop`.
unfoldable pub get_next_loop : Pool → Option (ℕ × Pool)
get_next_loop p = loop_in p p.loops

-- `connections_[name] = conn`.
abbrev pub assign : Bytes → Conn → List (Bytes × Conn) → List (Bytes × Conn)
assign k c [] = (k, c) ∷ []
assign k c ((j, d) ∷ m) = let rest = assign k c m in if eqb j k then (j, c) ∷ m else (j, d) ∷ rest

abbrev pub erase : Bytes → List (Bytes × Conn) → List (Bytes × Conn)
erase k [] = []
erase k ((j, d) ∷ m) = let rest = erase k m in if eqb j k then m else (j, d) ∷ rest

abbrev pub conn_name : Server → ℕ → Bytes
conn_name s id = s.name ++ (bytes "-" ++ (s.ip_port ++ (bytes "#" ++ to_string id)))

abbrev pub connect_in : ℕ → Server → Option (ℕ × Pool) → Option Server
connect_in socket s none = none
connect_in socket s (some (loop, p)) =
    let c : Conn = record { name = conn_name s s.next_conn_id; socket = socket; loop = loop } in
    some (record s {
      pool = p;
      next_conn_id = s.next_conn_id + 1;
      connections = assign c.name c s.connections;
      queued = s.queued ++ (establish c ∷ []);
    })

-- `newConnection`.
unfoldable pub new_connection : ℕ → Server → Option Server
unfolding get_next_loop
new_connection socket s = connect_in socket s (get_next_loop s.pool)

-- `removeConnectionInLoop`.
unfoldable pub remove_connection : Conn → Server → Server
remove_connection c s = record s {
  connections = erase c.name s.connections;
  queued = s.queued ++ (destroy c ∷ []);
}

abbrev pub destroy_each : List (Bytes × Conn) → List Task
destroy_each [] = []
destroy_each ((k, c) ∷ m) = destroy c ∷ destroy_each m

-- The destructor.
unfoldable pub destroy_all : Server → Server
destroy_all s = record s { connections = []; queued = s.queued ++ destroy_each s.connections }

-- A socket is accepted, or a connection is closed.
pub data Event : Type 0 where
  accepts : ℕ → Event
  removes : Conn → Event

unfoldable pub step : Event → Server → Option Server
unfolding new_connection remove_connection
step (accepts socket) s = new_connection socket s
step (removes c) s = some (remove_connection c s)

abbrev pub run_on : (Server → Option Server) → Option Server → Option Server
run_on f none = none
run_on f (some s) = f s

unfoldable pub run : List Event → Server → Option Server
unfolding step
run [] s = some s
run (e ∷ es) s = run_on (run es) (step e s)
