-- ===== src/Net/TcpServerExamples.antt =====
-- A server with two loops that accepts three sockets and removes a connection.
use cloud_storge_system.Common.{◌≡◌, Bytes, bytes, some, List, [], ◌∷◌, arith, to_string, eqb}
use cloud_storge_system.Net.TcpServer.{
  Conn, Server, started, conn_name, destroy_all, Event, accepts, removes, run,
}
use cloud_storge_system.Net.TcpServer.Balance.{established, destroyed, conn_at}
use cloud_storge_system.Net.TcpServer.Runs.{established_conns, accepted, AllowedAll, run-Balanced}

abbrev server : Server
server = started (bytes "http") (bytes "0.0.0.0:80") 9 (4 ∷ 5 ∷ [])

abbrev first_conn : Conn
unfolding to_string
first_conn = record { name = conn_name server 1; socket = 20; loop = 4 }

abbrev events : List Event
unfolding first_conn
events = accepts 20 ∷ accepts 21 ∷ removes first_conn ∷ accepts 22 ∷ []

events-AllowedAll : AllowedAll events server
unfolding AllowedAll events first_conn to_string eqb
events-AllowedAll = (tt, (tt, (omega arith, (tt, tt))))

run-Balanced_example :
    (t : Server) × (run events server ≡ some t)
    × (established_conns t.queued ≡ accepted (conn_at server) 1 events)
    × ((n : Bytes) → established n (destroy_all t).queued ≡ destroyed n (destroy_all t).queued)
unfolding events
run-Balanced_example =
    run-Balanced (bytes "http") (bytes "0.0.0.0:80") 9 (4 ∷ 5 ∷ []) events (omega arith)
      events-AllowedAll
