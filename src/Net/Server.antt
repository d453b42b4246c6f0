-- ===== src/Net/Server.antt =====
-- net/HttpServer.h and net/HttpServer.cc: what the server does with the bytes of one connection.
-- The callback of the application is a parameter, with a state of its own; it returns normally. What
-- is asked of the connection is a list of actions, oldest first.
pub mod Answers
pub mod Ready
pub mod Socket
use cloud_storge_system.Common.{
  ℕ, ◌*◌, Bool, true, false, not, ◌&&◌, ◌||◌, Bytes, bytes, Option, none, some, List, [], ◌∷◌, ◌++◌,
  length, leb, if◌then◌else◌, eqb,
}
use cloud_storge_system.Net.Buffer.{Buffer, make, initial_size, content}
use cloud_storge_system.Net.Request.{Request, Method, post, Version, http10, get_header, method_eqb}
use cloud_storge_system.Net.Response.{Response, append_to_buffer}
use cloud_storge_system.Net.Response as Response
use cloud_storge_system.Net.Context.{
  Context, fresh, reset, ParseState, expect_body, ParseResult, error, need_more, headers_complete,
  got_request, Run, returns, aborts, spins, Parsed, parse_request,
}

-- What the server calls on the TcpConnection.
pub data Action : Type 0 where
  send : Bytes → Action
  shutdown : Action

-- What the callback leaves: its result, the response, the request, which it gets by reference, the
-- object it attached to the HttpContext, and what it called on the connection itself.
pub record Answer (S : Type 0) : Type 0 where
  pub sync : Bool
  pub response : Response
  pub request : Request
  pub attached : Option ℕ
  pub calls : List Action
  pub state : S

-- One connection: its HttpContext, the readable bytes of its input buffer, the actions so far, and
-- the state of the application.
pub record Conn (S : Type 0) : Type 0 where
  pub context : Option Context
  pub input : Bytes
  pub actions : List Action
  pub user : S

abbrev is_http10 : Version → Bool
is_http10 http10 = true
is_http10 _ = false

-- The close flag of a request.
unfoldable pub wants_close : Request → Bool
unfolding get_header eqb
wants_close req =
    let connection = get_header (bytes "Connection") req in
    eqb connection (bytes "close")
    || (is_http10 req.version && not (eqb connection (bytes "Keep-Alive")))

abbrev bad_request : Bytes
bad_request = bytes "HTTP/1.1 400 Bad Request\r\n\r\n"

abbrev is_expect_body : ParseState → Bool
is_expect_body expect_body = true
is_expect_body _ = false

-- A chunk of an upload that is passed on before the body is complete.
unfoldable pub is_upload_chunk : Context → Bool
unfolding eqb
is_upload_chunk c =
    is_expect_body c.state
    && (eqb c.request.path (bytes "/upload")
        && (method_eqb c.request.method post && leb (1024 * 1024) (length c.request.body)))

abbrev pub shut_if : Bool → List Action
shut_if true = shutdown ∷ []
shut_if false = []

-- The context with the request and the object that the callback leaves in it.
abbrev pub after_callback : {S : Type 0} → Answer S → Context → Context
after_callback a c = record c { request = a.request; custom = a.attached }

abbrev pub called : {S : Type 0} → Answer S → Context → Conn S → Conn S
called a c k = record k {
  context = some (after_callback a c);
  actions = k.actions ++ a.calls;
  user = a.state;
}

-- `defaultHttpCallback`, which is used until the application sets its own; k404NotFound is 404.
abbrev pub default_callback : {S : Type 0} → S → Context → Response → Answer S
default_callback s c r = record {
  sync = true;
  response = record r {
    status_code = 404;
    status_message = bytes "Not Found";
    close_connection = true;
  };
  request = c.request;
  attached = c.custom;
  calls = [];
  state = s;
}

module _ {S : Type 0} (callback : S → Context → Response → Answer S) where
  -- `onConnection`.
  abbrev pub on_connection : Bool → Conn S → Conn S
  on_connection true k = record k { context = some fresh }
  on_connection false k = k

  -- A synchronous answer goes through a buffer, where `none` is a failed assert, and the context
  -- is reset; else the context stays as it is.
  abbrev pub respond : Response → Option Buffer → Conn S → Run (Conn S)
  respond r none k = aborts
  respond r (some b) k =
      returns (record k { actions = k.actions ++ (send (content b) ∷ shut_if r.close_connection) })

  abbrev pub answered : Bool → Answer S → Context → Conn S → Run (Conn S)
  answered true a c k =
      respond a.response (append_to_buffer a.response (make initial_size))
        (record (called a c k) { context = some (reset (after_callback a c)) })
  answered false a c k = returns (called a c k)

  -- The answer of the callback to the request of a context.
  unfoldable pub reply : Context → Conn S → Answer S
  unfolding wants_close
  reply c k = callback k.user c (Response.make (wants_close c.request))

  -- `onRequest`, and the reset of the context that follows it.
  unfoldable pub on_request : Context → Conn S → Run (Conn S)
  unfolding reply
  on_request c k = answered (reply c k).sync (reply c k) c k

  -- The branch on kHeadersComplete: a response that the callback made is not sent.
  unfoldable pub on_headers : Context → Conn S → Conn S
  unfolding is_upload_chunk
  on_headers c k =
      if is_upload_chunk c
      then called (callback k.user c (Response.make false)) c k
      else record k { context = some c }

  -- The branches on the result of the parser.
  abbrev pub on_result : Parsed → Conn S → Run (Conn S)
  on_result (error, c, buf) k = returns (record k {
    context = some c;
    input = buf;
    actions = k.actions ++ (send bad_request ∷ shutdown ∷ []);
  })
  on_result (headers_complete, c, buf) k = returns (on_headers c (record k { input = buf }))
  on_result (got_request, c, buf) k = on_request c (record k { input = buf })
  on_result (need_more, c, buf) k = returns (record k { context = some c; input = buf })

  abbrev pub on_parsed : Run Parsed → Conn S → Run (Conn S)
  on_parsed (returns p) k = on_result p k
  on_parsed aborts k = aborts
  on_parsed spins k = spins

  abbrev pub with_context : ℕ → ℕ → Option Context → Conn S → Run (Conn S)
  with_context rounds time none k = returns k
  with_context rounds time (some c) k = on_parsed (parse_request rounds time c k.input) k

  -- `onMessage`, with the number of rounds for the loop of the parser.
  unfoldable pub on_message : ℕ → ℕ → Conn S → Run (Conn S)
  unfolding parse_request on_request on_headers
  on_message rounds time k = with_context rounds time k.context k
