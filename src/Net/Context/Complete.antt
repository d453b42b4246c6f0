-- ===== src/Net/Context/Complete.antt =====
-- `parseRequest` on a complete request with a Content-Length.
use mathlib.Core.Path.{ap₂}
use native.Mathlib.Nat.{zero-add}
use cloud_storge_system.Common.{
  ℕ, suc, ◌<◌, ◌^◌, ◌≡◌, refl, ap, ◌∙◌, Bytes, bytes, List, [], ◌∷◌, ◌++◌, length, arith, true,
  false, ltb, ◌==◌, eqb, eq_no_case, c_str, skip_space, to_string, digits_of-Digits, Digits, All,
}
use cloud_storge_system.Net.Request.{Request, Method, Version, add_header}
use cloud_storge_system.Net.Context.{
  Context, fresh, expect_body, got_all, headers_complete, got_request, Run, returns, Parsed,
  process_header, note_header, parse_loop, parse_request, after_body, headers_done,
}
use cloud_storge_system.Net.Context.Lines.{with_line, atoi_size-to_string}
use cloud_storge_system.Net.Context.Headers.{
  Header, IsHeader, header_lines, header_block, apply_headers,
}
use cloud_storge_system.Net.Context.Parse.{
  message, past_line, IsLine, message-round, block-round, step, process_body-whole,
}

-- A header that the parser only stores.
abbrev pub IsPlain : Header → Type 0
IsPlain (field, value) =
    (eq_no_case field (bytes "Content-Length") ≡ false)
    × (eq_no_case field (bytes "Transfer-Encoding") ≡ false)

-- The headers as the parser stores them, later ones over earlier ones of the same name.
pub stored : List Header → Request → Request
stored [] r = r
stored ((field, value) ∷ hs) r = stored hs (add_header field (32 ∷ value) r)

stored-body : (hs : List Header) (r : Request) → (stored hs r).body ≡ r.body
unfolding stored add_header
stored-body [] r = refl
stored-body ((field, value) ∷ hs) r = stored-body hs _

process_header-plain :
    (field text beyond value : Bytes) (c : Context)
    → IsPlain (field, value)
    → process_header field text beyond c ≡ record c { request = add_header field text c.request }
unfolding process_header note_header
process_header-plain field text beyond value c h = rw (h.0, h.1)

apply_headers-plain :
    (hs : List Header) (rest : Bytes) (c : Context)
    → All IsPlain hs
    → apply_headers hs rest c ≡ record c { request = stored hs c.request }
unfolding apply_headers stored
apply_headers-plain [] rest c h = refl
apply_headers-plain ((field, value) ∷ hs) rest c h =
    ap (apply_headers hs rest) (process_header-plain field (32 ∷ value) _ value c h.0)
    ∙ apply_headers-plain hs rest (record c { request = add_header field (32 ∷ value) c.request })
        h.1

skip_space-Digits : (text : Bytes) → Digits text → skip_space (32 ∷ text) ≡ text
unfolding skip_space
skip_space-Digits [] d = refl
skip_space-Digits (c ∷ cs) d = ground (arith, d.0.0, d.0.1)

abbrev pub length_header : ℕ → Header
length_header n = (bytes "Content-Length", to_string n)

is_length : eq_no_case (bytes "Content-Length") (bytes "Content-Length") ≡ true
unfolding eqb c_str
is_length = refl

to_string-Digits : (n : ℕ) → Digits (to_string n)
unfolding to_string
to_string-Digits n = digits_of-Digits 20 n

process_header-length :
    (n : ℕ) (rest : Bytes) (c : Context)
    → n < 2 ^ 31
    → process_header (bytes "Content-Length") (32 ∷ to_string n) (13 ∷ rest) c ≡ record c {
      request = add_header (bytes "Content-Length") (32 ∷ to_string n) c.request;
      content_length = n;
    }
unfolding process_header note_header
process_header-length n rest c h =
    rw (
      is_length,
      skip_space-Digits (to_string n) (to_string-Digits n),
      atoi_size-to_string n rest h,
    )

headers_done-body :
    (again : Context → Bytes → Run Parsed) (c : Context) (buf : Bytes)
    → 0 < c.content_length
    → 0 < length buf
    → headers_done again c buf ≡ again c buf
headers_done-body again c buf h k =
    let e : (c.content_length == 0) ≡ false = ground arith in
    let e' : ltb 0 (length buf) ≡ true = ground arith in rw (e, e')

module _ (time : ℕ) (m : Method) (path query : Bytes) (v : Version) (hs : List Header) where
  -- What the headers of the message make of its request.
  pub parsed_head : ℕ → Request
  parsed_head n =
      stored (length_header n ∷ hs) (record (with_line m path query v) { receive_time = time })

  -- The context when the headers are read.
  headed : ℕ → Context
  headed n = record fresh { request = parsed_head n; content_length = n; state = expect_body }

  -- The context at the end.
  abbrev pub finished : Bytes → Context
  finished body = record fresh {
    request = record (parsed_head (length body)) { body = body };
    content_length = length body;
    body_received = length body;
    state = got_all;
  }

  apply_headers-message :
      (n : ℕ) (rest : Bytes)
      → n < 2 ^ 31
      → All IsPlain hs
      → record (apply_headers
          (length_header n ∷ hs)
          (13 ∷ 10 ∷ rest)
          (past_line time m path query v)) { state = expect_body }
        ≡ headed n
  unfolding headed parsed_head stored apply_headers
  apply_headers-message n rest h p =
      ap {A = Context} (λ c. record (apply_headers hs (13 ∷ 10 ∷ rest) c) { state = expect_body })
        (process_header-length n (10 ∷ header_lines hs (13 ∷ 10 ∷ rest))
          (past_line time m path query v) h)
      ∙ ap {A = Context} (λ c. record c { state = expect_body })
          (apply_headers-plain hs (13 ∷ 10 ∷ rest) _ p)

  parsed_head-body : (n : ℕ) → (parsed_head n).body ≡ []
  unfolding parsed_head
  parsed_head-body n = stored-body (length_header n ∷ hs) _

  headers_done-message :
      (f : ℕ) (body rest : Bytes)
      → headers_done
          (parse_loop (suc f) time headers_complete)
          (headed (length body))
          (body ++ rest)
        ≡ returns (got_request, finished body, rest)
  unfolding headed
  headers_done-message f [] rest =
      ap
        (λ b. returns (
          got_request,
          record (finished []) { request = record (parsed_head 0) { body = b } },
          rest,
        ))
        (parsed_head-body 0)
  headers_done-message f (x ∷ body) rest =
      let all = x ∷ body in
      let c = headed (length all) in
      headers_done-body (parse_loop (suc f) time headers_complete) c (all ++ rest) (omega arith)
        (omega arith)
      ∙ step f time headers_complete c (all ++ rest) expect_body refl
      ∙ ap (after_body headers_complete) (process_body-whole c all rest refl refl refl)
      ∙ ap₂
          (λ b n. returns (
            got_request,
            record (finished all) {
              request = record (parsed_head (length all)) { body = b ++ all };
              body_received = n;
            },
            rest,
          ))
          (parsed_head-body (length all)) (zero-add (length all))

  -- A request with a well-formed line and header block whose Content-Length comes first, is below 2
  -- ^ 31 and is the length of the body, and whose other headers are neither Content-Length nor
  -- Transfer-Encoding, is parsed whole within three rounds: the result is its method, path, query,
  -- version, headers and body, and what follows it stays in the buffer.
  pub parse_request-message :
      (k : ℕ) (body rest : Bytes)
      → IsLine m path query v
      → All IsHeader (length_header (length body) ∷ hs)
      → All IsPlain hs
      → length body < 2 ^ 31
      → parse_request
          (suc (suc (suc k)))
          time
          fresh
          (message m path query v (header_block (length_header (length body) ∷ hs) (body ++ rest)))
        ≡ returns (got_request, finished body, rest)
  unfolding parse_request
  parse_request-message k body rest l h p small =
      message-round (suc (suc k)) time m path query v _ l
      ∙ block-round (suc k) time (length_header (length body) ∷ hs) (past_line time m path query v)
          (body ++ rest) refl h
      ∙ ap (λ c. headers_done (parse_loop (suc k) time headers_complete) c (body ++ rest))
          (apply_headers-message (length body) (body ++ rest) small p)
      ∙ headers_done-message k body rest
