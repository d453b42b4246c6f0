-- ===== src/Net/Server/Socket.antt =====
-- What the server asks of its TcpConnection, carried out on it in the thread of the loop.
use mathlib.Core.Path.{subst}
use cloud_storge_system.Common.{
  ℕ, suc, ◌<◌, ◌^◌, ◌≡◌, ◌∙◌, ◌⊎◌, sym, ap, refl, inl, inr, Bool, true, false, ◌&&◌, Bytes, Option,
  none, some, List, [], ◌∷◌, ◌++◌, length, All, arith, if-cases, if◌then◌else◌,
}
use cloud_storge_system.Net.Request.{Method, Version}
use cloud_storge_system.Net.Response.{Response}
use cloud_storge_system.Net.Response.Render.{render}
use cloud_storge_system.Net.Context.{Context, fresh, returns}
use cloud_storge_system.Net.Context.Headers.{Header, IsHeader, header_block}
use cloud_storge_system.Net.Context.Parse.{IsLine, message}
use cloud_storge_system.Net.Context.Complete.{length_header, finished, IsPlain}
use cloud_storge_system.Net.Server.{Action, Answer, send, shutdown, shut_if, reply, on_message}
use cloud_storge_system.Net.Server as Server
use cloud_storge_system.Net.Server.Answers.{answer_actions, emptied, on_message-message}
use cloud_storge_system.Net.Tcp.{
  State, connected, disconnecting, Outcome, Conn, is_disconnected, is_connected, idle, send_in_loop,
}
use cloud_storge_system.Net.Tcp as Tcp
use cloud_storge_system.Net.Tcp.Life as Life
use cloud_storge_system.Net.Tcp.Shape.{Inv}
use cloud_storge_system.Net.Tcp.Stream.{is_broken, taken, send_in_loop-Moves}
use cloud_storge_system.Net.Tcp.Open.{Stays, send_in_loop-Stays}

-- One action, with the outcomes of the writes that it meets.
unfoldable pub perform : Outcome → Outcome → Action → Conn → Option Conn
unfolding Tcp.send Life.shutdown
perform o p (send t) c = Tcp.send true o p t c
perform o p shutdown c = some (Life.shutdown true c)

abbrev perform_on : (Conn → Option Conn) → Option Conn → Option Conn
perform_on f none = none
perform_on f (some c) = f c

unfoldable pub perform_all : Outcome → Outcome → List Action → Conn → Option Conn
unfolding perform
perform_all o p [] c = some c
perform_all o p (a ∷ as') c = perform_on (perform_all o p as') (perform o p a c)

-- A connection that is to be closed is half closed when all is written, and else waits to write.
abbrev pub Closing : Bool → Conn → Type 0
Closing true d = (d.state ≡ disconnecting) × ((d.shut ≡ true) ⊎ (d.writing ≡ true))
Closing false d = d.state ≡ connected

-- The connection has taken the response, whole and behind everything before it.
abbrev pub Served : Response → Conn → Option Conn → Type 0
Served r c o =
    (d : Conn) × (o ≡ some d)
    × (d.sent ++ d.output ≡ (c.sent ++ c.output) ++ render r)
    × Closing r.close_connection d

false-and : (b : Bool) → (b && false) ≡ false
false-and true = refl
false-and false = refl

taken-whole :
    (o : Outcome) (t : Bytes) (c : Conn)
    → c.state ≡ connected
    → is_broken o ≡ false
    → taken o t c ≡ t
taken-whole o t c e h =
    ap (λ s. if is_disconnected s then [] else if idle c && is_broken o then [] else t) e
    ∙ ap (λ b. if idle c && b then [] else t) h
    ∙ ap (λ b. if b then [] else t) (false-and (idle c))

-- A send on a connection that is up.
abbrev Sent : Bytes → Conn → Option Conn → Type 0
Sent t c o =
    (d : Conn) × (o ≡ some d)
    × (d.sent ++ d.output ≡ (c.sent ++ c.output) ++ t)
    × (d.state ≡ connected)

send-Sent :
    (o p : Outcome) (t : Bytes) (c : Conn)
    → Inv c
    → c.state ≡ connected
    → is_broken o ≡ false
    → is_broken p ≡ false
    → Sent t c (perform o p (send t) c)
unfolding perform
send-Sent o p t c v e h i =
    let (d, g, x) = send_in_loop-Moves o p t c v (λ n. let z = sym e ∙ n in ground (arith, z)) in
    (
      d,
      ap (λ s. if is_connected s then send_in_loop o p t c else some c) e ∙ g,
      x.bytes ∙ ap (λ u. (c.sent ++ c.output) ++ u) (taken-whole o t c e h),
      subst (Stays c.state) g (send_in_loop-Stays o p t c i) ∙ e,
    )

shutdown-Closing :
    (o p : Outcome) (c : Conn)
    → c.state ≡ connected
    → (d : Conn) × (perform o p shutdown c ≡ some d)
      × (d.sent ++ d.output ≡ c.sent ++ c.output)
      × Closing true d
unfolding perform Life.shutdown Tcp.shutdown_in_loop
shutdown-Closing o p c e =
    let half : Conn = record c { state = disconnecting } in
    let d : Conn = if half.writing then half else record half { shut = true } in
    let done : (d.sent ++ d.output ≡ c.sent ++ c.output) × Closing true d =
      if-cases (λ (d : Conn). (d.sent ++ d.output ≡ c.sent ++ c.output) × Closing true d)
        half.writing _ _ (λ w. (refl, (refl, inr w))) (λ w. (refl, (refl, inl refl))) in
    (d, ap (λ s. some (if is_connected s then d else c)) e, done.0, done.1)

perform-Served :
    (o p : Outcome) (r : Response) (c : Conn)
    → Inv c
    → c.state ≡ connected
    → is_broken o ≡ false
    → is_broken p ≡ false
    → Served r c (perform_all o p (answer_actions r) c)
unfolding perform_all
perform-Served o p r c v e h i = by_close r.close_connection
  where
    by_close :
        (b : Bool)
        → (d : Conn) × (perform_all o p (send (render r) ∷ shut_if b) c ≡ some d)
          × (d.sent ++ d.output ≡ (c.sent ++ c.output) ++ render r)
          × Closing b d
    by_close false =
        let (d, g, x, s) = send-Sent o p (render r) c v e h i in
        (d, ap (perform_on (perform_all o p [])) g, x, s)
    by_close true =
        let (d, g, x, s) = send-Sent o p (render r) c v e h i in
        let (f, k, y, z) = shutdown-Closing o p d s in
        (
          f,
          ap (perform_on (perform_all o p (shutdown ∷ []))) g
              ∙ ap (perform_on (perform_all o p [])) k,
          y ∙ x,
          z,
        )

module _ {S : Type 0} (callback : S → Context → Response → Answer S) where
  -- Take a server whose context is new, which has asked nothing of its connection yet, and whose
  -- input is a request with a well-formed line and header block, whose Content-Length comes first, is
  -- below 2 ^ 31 and is the length of the body, and whose other headers are neither Content-Length
  -- nor Transfer-Encoding; let the callback answer synchronously and call nothing on the connection;
  -- and take a TcpConnection that is valid and connected, whose writes do not meet EPIPE or
  -- ECONNRESET. Within three rounds the call returns with the bytes behind the request and a
  -- context that is new but for the path parameters, which are those that the callback left, and carrying out what it asked for succeeds: the bytes given to the socket and those that
  -- wait are those from before and then the rendered response; and a response that closes the
  -- connection half closes it now or leaves it waiting to write.
  pub serve-message :
      (n time : ℕ) (m : Method) (path query : Bytes) (v : Version) (hs : List Header)
      (body rest : Bytes) (k : Server.Conn S) (c : Conn) (o p : Outcome)
      → IsLine m path query v
      → All IsHeader (length_header (length body) ∷ hs)
      → All IsPlain hs
      → length body < 2 ^ 31
      → k.context ≡ some fresh
      → k.input
        ≡ message m path query v (header_block (length_header (length body) ∷ hs) (body ++ rest))
      → (reply callback (finished time m path query v hs body) k).sync ≡ true
      → k.actions ++ (reply callback (finished time m path query v hs body) k).calls ≡ []
      → Inv c
      → c.state ≡ connected
      → is_broken o ≡ false
      → is_broken p ≡ false
      → (j : Server.Conn S) × (on_message callback (suc (suc (suc n))) time k ≡ returns j)
        × (j.context
            ≡ some (emptied (reply callback (finished time m path query v hs body) k).request))
        × (j.input ≡ rest)
        × Served
            (reply callback (finished time m path query v hs body) k).response
            c
            (perform_all o p j.actions c)
  serve-message n time m path query v hs body rest k c o p l h pl b ctx i a none_yet w up x y =
      let answer : Answer S = reply callback (finished time m path query v hs body) k in
      (
        _,
        on_message-message callback n time m path query v hs body rest k l h pl b ctx i a,
        refl,
        refl,
        subst
            (λ as'.
              Served answer.response c (perform_all o p (as' ++ answer_actions answer.response) c))
            (sym none_yet) (perform-Served o p answer.response c w up x y),
      )
