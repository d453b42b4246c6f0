-- ===== src/Net/Context/Parse.antt =====
-- `parseRequest`: what a complete request gives, when the loop ends, and when it does not.
use cloud_storge_system.Common.{
  ℕ, zero, suc, ◌+◌, min, ◌≡◌, refl, ap, ◌∙◌, ◌≢◌, Bytes, none, some, List, [], ◌∷◌, ◌++◌, length,
  take, arith, true, false, find, All, NoByte, find-crlf, length-append, take-append_left,
  drop-append_left, drop-append_add,
}
use cloud_storge_system.Net.Request.{Method, invalid, Version, unknown, empty_request}
use cloud_storge_system.Net.Context.{
  Context, fresh, ParseState, expect_request_line, expect_headers, expect_body, got_all,
  ParseResult, need_more, headers_complete, spins, round, line_round, headers_round,
  process_request_line, process_headers, process_body, parse_loop, parse_request, after_headers,
  after_line, headers_done, remaining_length,
}
use cloud_storge_system.Net.Context.Lines.{
  request_line, with_line, IsQuery, process_request_line-request_line,
}
use cloud_storge_system.Net.Context.Headers.{
  Header, IsHeader, header_lines, header_block, apply_headers, apply_headers-state,
  process_headers-block, process_headers-cut,
}

-- One round in each state.
module _ (f time : ℕ) (result : ParseResult) (c : Context) (buf : Bytes) where
  pub step :
      (s : ParseState)
      → c.state ≡ s
      → parse_loop (suc f) time result c buf ≡ round s (parse_loop f time) result time c buf
  unfolding parse_loop
  step s e = ap (λ s. round s (parse_loop f time) result time c buf) e

  pub round_headers :
      (c' : Context) (buf' : Bytes) (s : ParseState)
      → c.state ≡ expect_headers
      → process_headers c buf ≡ some (c', buf')
      → c'.state ≡ s
      → parse_loop (suc f) time result c buf
        ≡ after_headers s (parse_loop f time headers_complete) (parse_loop f time result) c' buf'
  round_headers c' buf' s e h g =
      step expect_headers e
      ∙ ap (headers_round (parse_loop f time) result) h
      ∙ ap
          (λ s.
            after_headers s (parse_loop f time headers_complete) (parse_loop f time result) c' buf')
          g

  pub round_line :
      (i : ℕ)
      → c.state ≡ expect_request_line
      → find (13 ∷ 10 ∷ []) buf ≡ some i
      → parse_loop (suc f) time result c buf
        ≡ after_line
            (parse_loop f time result)
            result
            time
            c
            buf
            i
            (process_request_line (take i buf) c.request)
  round_line i e h =
      step expect_request_line e ∙ ap (line_round (parse_loop f time) result time c buf) h

-- In the state kExpectHeaders, with no line end in the buffer, the loop never ends.
pub parse_loop-wait :
    (n time : ℕ) (result : ParseResult) (c : Context) (buf : Bytes)
    → c.state ≡ expect_headers
    → find (13 ∷ 10 ∷ []) buf ≡ none
    → parse_loop n time result c buf ≡ spins
unfolding apply_headers parse_loop
parse_loop-wait zero time result c buf e h = refl
parse_loop-wait (suc n) time result c buf e h =
    round_headers n time result c buf c buf expect_headers e (process_headers-cut [] buf c tt h) e
    ∙ parse_loop-wait n time result c buf e h

-- Header lines that are not followed by the end of the block, in the state kExpectHeaders.
parse_loop-cut :
    (n time : ℕ) (result : ParseResult) (hs : List Header) (c : Context) (rest : Bytes)
    → c.state ≡ expect_headers
    → All IsHeader hs
    → find (13 ∷ 10 ∷ []) rest ≡ none
    → parse_loop n time result c (header_lines hs rest) ≡ spins
unfolding parse_loop
parse_loop-cut zero time result hs c rest e h g = refl
parse_loop-cut (suc n) time result hs c rest e h g =
    let kept : (apply_headers hs rest c).state ≡ expect_headers =
      apply_headers-state hs rest c ∙ e in
    round_headers n time result c (header_lines hs rest) (apply_headers hs rest c) rest
      expect_headers e (process_headers-cut hs rest c h g) kept
    ∙ parse_loop-wait n time result (apply_headers hs rest c) rest kept g

-- The request line, ended by CR LF, before the rest of a message.
abbrev pub message : Method → Bytes → Bytes → Version → Bytes → Bytes
message m path query v rest = request_line m path query v ++ 13 ∷ 10 ∷ rest

-- The context behind the request line.
abbrev pub past_line : ℕ → Method → Bytes → Bytes → Version → Context
past_line time m path query v = record fresh {
  request = record (with_line m path query v) { receive_time = time };
  state = expect_headers;
}

-- What the parts of a request line must not contain.
pub record IsLine (m : Method) (path query : Bytes) (v : Version) : Type 0 where
  pub method_known : m ≢ invalid
  pub version_known : v ≢ unknown
  pub path_space : NoByte 32 path
  pub path_query : NoByte 63 path
  pub query_form : IsQuery query
  pub line_cr : NoByte 13 (request_line m path query v)

-- The first round reads the request line.
pub message-round :
    (f time : ℕ) (m : Method) (path query : Bytes) (v : Version) (rest : Bytes)
    → IsLine m path query v
    → parse_loop (suc f) time need_more fresh (message m path query v rest)
      ≡ parse_loop f time need_more (past_line time m path query v) rest
message-round f time m path query v rest h =
    let line = request_line m path query v in
    round_line f time need_more fresh (line ++ 13 ∷ 10 ∷ rest) (length line) refl
      (find-crlf line rest h.line_cr)
    ∙ ap
        (λ l.
          after_line (parse_loop f time need_more) need_more time fresh (line ++ 13 ∷ 10 ∷ rest)
            (length line) (process_request_line l empty_request))
        (take-append_left line (13 ∷ 10 ∷ rest))
    ∙ ap
        (after_line (parse_loop f time need_more) need_more time fresh (line ++ 13 ∷ 10 ∷ rest)
          (length line))
        (process_request_line-request_line m path query v h.method_known h.version_known
          h.path_space h.path_query h.query_form)
    ∙ ap (parse_loop f time need_more (past_line time m path query v))
        (drop-append_add 2 line (13 ∷ 10 ∷ rest))

-- A request whose header block has not arrived whole makes the loop run for ever: after a well-
-- formed request line and any number of header lines, as long as what follows holds no CR LF, no
-- number of rounds is enough.
pub parse_request-cut :
    (n time : ℕ) (m : Method) (path query : Bytes) (v : Version) (hs : List Header) (rest : Bytes)
    → IsLine m path query v
    → All IsHeader hs
    → find (13 ∷ 10 ∷ []) rest ≡ none
    → parse_request n time fresh (message m path query v (header_lines hs rest)) ≡ spins
unfolding parse_request parse_loop
parse_request-cut zero time m path query v hs rest l h g = refl
parse_request-cut (suc n) time m path query v hs rest l h g =
    message-round n time m path query v (header_lines hs rest) l
    ∙ parse_loop-cut n time need_more hs (past_line time m path query v) rest refl h g

-- Behind the request line of `fresh`, a whole header block leads to `headers_done`.
pub block-round :
    (f time : ℕ) (hs : List Header) (c : Context) (rest : Bytes)
    → c.state ≡ expect_headers
    → All IsHeader hs
    → parse_loop (suc f) time need_more c (header_block hs rest)
      ≡ headers_done
          (parse_loop f time headers_complete)
          (record (apply_headers hs (13 ∷ 10 ∷ rest) c) { state = expect_body })
          rest
block-round f time hs c rest e h =
    round_headers f time need_more c (header_block hs rest)
      (record (apply_headers hs (13 ∷ 10 ∷ rest) c) { state = expect_body }) rest expect_body e
      (process_headers-block hs rest c h) refl

-- The context with its body read.
abbrev pub with_body : Bytes → Context → Context
with_body body c = record c {
  state = got_all;
  request = record (c.request) { body = c.request.body ++ body };
  body_received = c.body_received + length body;
}

-- A body that is there whole is taken, and no more.
pub process_body-whole :
    (c : Context) (body rest : Bytes)
    → c.chunked ≡ false
    → c.body_received ≡ 0
    → c.content_length ≡ length body
    → process_body c (body ++ rest) ≡ (true, record (with_body body c) { state = c.state }, rest)
unfolding process_body
process_body-whole c body rest e z l =
    let n : min (length (body ++ rest)) (remaining_length c) ≡ length body =
      omega (arith, length-append body rest, z, l) in
    rw (e, process_body, n, take-append_left body rest, drop-append_left body rest)
      (ground (arith, z, l))
