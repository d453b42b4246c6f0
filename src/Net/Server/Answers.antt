-- ===== src/Net/Server/Answers.antt =====
-- A complete request on a connection, from its bytes to the bytes of the answer.
use cloud_storge_system.Common.{
  ℕ, suc, ◌<◌, ◌^◌, ◌≡◌, ap, ◌∙◌, true, Bytes, some, List, ◌∷◌, ◌++◌, length, All,
}
use cloud_storge_system.Net.Buffer.{make, initial_size}
use cloud_storge_system.Net.Buffer.Refines.{make-Inv, content-make}
use cloud_storge_system.Net.Request.{Request, Method, Version}
use cloud_storge_system.Net.Response.{Response, append_to_buffer}
use cloud_storge_system.Net.Response.Render.{render, append_to_buffer-Yields}
use cloud_storge_system.Net.Context.{Context, fresh, reset, swap_empty, returns, parse_request}
use cloud_storge_system.Net.Context.Headers.{Header, IsHeader, header_block}
use cloud_storge_system.Net.Context.Parse.{IsLine, message}
use cloud_storge_system.Net.Context.Complete.{
  length_header, finished, IsPlain, parse_request-message,
}
use cloud_storge_system.Net.Server.{
  Action, send, Answer, Conn, reply, on_request, on_message, on_parsed, answered, with_context,
  respond, shut_if, after_callback,
}

-- The actions of an answer.
abbrev pub answer_actions : Response → List Action
answer_actions r = send (render r) ∷ shut_if r.close_connection

-- A context that is new but for the path parameters of a request.
abbrev pub emptied : Request → Context
emptied r = record fresh { request = swap_empty r }

module _ {S : Type 0} (callback : S → Context → Response → Answer S) where
  respond-render :
      (r : Response) (k : Conn S)
      → respond callback r (append_to_buffer r (make initial_size)) k
        ≡ returns (record k { actions = k.actions ++ answer_actions r })
  respond-render r k =
      let (b, e, v, c) = append_to_buffer-Yields r (make initial_size) (make-Inv initial_size) in
      ap (λ o. respond callback r o k) e
      ∙ ap
          (λ t. returns (record k { actions = k.actions ++ (send t ∷ shut_if r.close_connection) }))
          (c ∙ ap (λ t. t ++ render r) (content-make initial_size))

  pub on_request-sync :
      (c : Context) (k : Conn S)
      → (reply callback c k).sync ≡ true
      → on_request callback c k
        ≡ returns (record k {
          context = some (reset (after_callback (reply callback c k) c));
          actions =
              (k.actions ++ (reply callback c k).calls)
              ++ answer_actions (reply callback c k).response;
          user = (reply callback c k).state;
        })
  unfolding on_request
  on_request-sync c k e =
      ap (λ b. answered callback b (reply callback c k) c k) e
      ∙ respond-render (reply callback c k).response _

  -- On a connection with a new context whose input is a request with a well-formed line and header
  -- block, whose Content-Length comes first, is below 2 ^ 31 and is the length of the body, and whose
  -- other headers are neither Content-Length nor Transfer-Encoding, and to which the callback answers
  -- synchronously, three rounds are enough for a call that sends the rendered response behind what
  -- the callback called itself, shuts the connection down if the response asks for it, leaves the
  -- bytes behind the request, and leaves the context new again but for the path parameters, which
  -- are those that the callback left in the request.
  pub on_message-message :
      (n time : ℕ) (m : Method) (path query : Bytes) (v : Version) (hs : List Header)
      (body rest : Bytes) (k : Conn S)
      → IsLine m path query v
      → All IsHeader (length_header (length body) ∷ hs)
      → All IsPlain hs
      → length body < 2 ^ 31
      → k.context ≡ some fresh
      → k.input
        ≡ message m path query v (header_block (length_header (length body) ∷ hs) (body ++ rest))
      → (reply callback (finished time m path query v hs body) k).sync ≡ true
      → on_message callback (suc (suc (suc n))) time k
        ≡ returns (record k {
          context =
              some (emptied (reply callback (finished time m path query v hs body) k).request);
          input = rest;
          actions =
              (k.actions ++ (reply callback (finished time m path query v hs body) k).calls)
              ++ answer_actions (reply callback (finished time m path query v hs body) k).response;
          user = (reply callback (finished time m path query v hs body) k).state;
        })
  unfolding on_message reply
  on_message-message n time m path query v hs body rest k l h p b c i a =
      ap (λ o. with_context callback (suc (suc (suc n))) time o k) c
      ∙ ap (λ t. on_parsed callback (parse_request (suc (suc (suc n))) time fresh t) k) i
      ∙ ap (λ q. on_parsed callback q k)
          (parse_request-message time m path query v hs n body rest l h p b)
      ∙ on_request-sync (finished time m path query v hs body) (record k { input = rest }) a
