-- ===== src/Net/ServerExamples.antt =====
-- The theorems on the server, at a concrete connection.
use cloud_storge_system.Common.{
  ℕ, suc, ◌≡◌, ◌⊎◌, refl, true, bytes, some, [], ◌∷◌, ◌++◌, arith, eqb, c_str,
}
use cloud_storge_system.Net.Request.{post, http11}
use cloud_storge_system.Net.Response.{Response}
use cloud_storge_system.Net.Context.{Context, fresh, returns, spins}
use cloud_storge_system.Net.Context.Headers.{header_block}
use cloud_storge_system.Net.Context.Parse.{message}
use cloud_storge_system.Net.Context.Complete.{length_header, finished}
use cloud_storge_system.Net.Server.{Answer, default_callback, reply, on_message}
use cloud_storge_system.Net.Server as Server
use cloud_storge_system.Net.Server.Answers.{emptied}
use cloud_storge_system.Net.Server.Socket.{Served, perform_all, serve-message}
use cloud_storge_system.Net.Tcp.{Conn, make, connected, came_up, wrote, blocked}
use cloud_storge_system.Net.Tcp.Shape.{Inv}
use cloud_storge_system.Net.Server.Ready.{LeavesReady, on_message-Decides}
use cloud_storge_system.Net.Examples.{
  all_of, host_header, host_header-IsHeader, length_header-IsHeader, login-IsLine,
}

-- The default callback, which leaves a path parameter as the routes do.
abbrev callback : ℕ → Context → Response → Answer ℕ
callback s c r = record (default_callback s c r) {
  request = record (c.request) { path_params = (bytes "code", bytes "a1") ∷ [] };
}

-- A connection with a whole request and the start of the next one.
abbrev login_conn : Server.Conn ℕ
login_conn = record {
  context = some fresh;
  input =
      message post (bytes "/login") (bytes "?a=1") http11
        (header_block (length_header 2 ∷ host_header ∷ []) (bytes "{}" ++ bytes "GET"));
  actions = [];
  user = 0;
}

abbrev login_reply : Answer ℕ
login_reply =
    reply callback
      (finished 5 post (bytes "/login") (bytes "?a=1") http11 (host_header ∷ []) (bytes "{}"))
      login_conn

-- The TcpConnection below it, when it has come up.
abbrev up_conn : Conn
up_conn = record make { state = connected; reading = true; calls = came_up ∷ [] }

up_conn-Inv : Inv up_conn
up_conn-Inv = record {
  silent = λ h. ground (arith, h);
  listens = λ h. refl;
  waits = λ h. refl;
  quiet = λ h. ground (arith, h);
  story = refl;
}

serve-message_example :
    (j : Server.Conn ℕ) × (on_message callback 3 5 login_conn ≡ returns j)
    × (j.context ≡ some (emptied login_reply.request))
    × (j.input ≡ bytes "GET")
    × Served login_reply.response up_conn (perform_all (wrote 10) blocked j.actions up_conn)
unfolding all_of eqb c_str reply
serve-message_example =
    serve-message callback 0 5 post (bytes "/login") (bytes "?a=1") http11 (host_header ∷ [])
      (bytes "{}") (bytes "GET") login_conn up_conn (wrote 10) blocked login-IsLine
      (length_header-IsHeader, (host_header-IsHeader, tt)) ((refl, refl), tt) (omega arith) refl
      refl refl refl up_conn-Inv refl refl refl

on_message-Decides_example :
    ((n : ℕ) → on_message callback n 5 login_conn ≡ spins)
    ⊎ ((n : ℕ) → LeavesReady (on_message callback (suc (suc (suc n))) 5 login_conn))
on_message-Decides_example = on_message-Decides callback (λ s c r. refl) 5 login_conn
