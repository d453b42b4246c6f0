-- ===== src/Net/Examples.antt =====
-- The theorems on the buffer, the parser and the response, each at a concrete input.
use cloud_storge_system.Common.{
  ℕ, suc, ◌≡◌, ◌≢◌, refl, Bytes, bytes, some, List, [], ◌∷◌, ◌++◌, to_string, split_at, is_prefix,
  eqb, c_str, arith, true, false, NoByte, Bool, not, ◌&&◌, ◌==◌, find,
}
use cloud_storge_system.Net.Buffer.{Buffer, content}
use cloud_storge_system.Net.Buffer.Regions.{Inv}
use cloud_storge_system.Net.Buffer.Refines.{Yields}
use cloud_storge_system.Net.Buffer.Runs.{
  Op, appends, takes, prepends, unwrites, reads, shrinks, takes_all, run, replay, FitsAll,
  run-replay,
}
use cloud_storge_system.Net.Request.{
  Request, set_method, get, post, invalid, http11, unknown, url_decode, empty_request,
}
use cloud_storge_system.Net.Request.Decode.{url_encode, url_decode-url_encode}
use cloud_storge_system.Net.Context.{
  fresh, parse_request, process_request_line, returns, spins, aborts, got_request, error,
}
use cloud_storge_system.Net.Context.Lines.{request_line, IsQuery}
use cloud_storge_system.Net.Context.Headers.{Header, IsHeader, header_lines, header_block}
use cloud_storge_system.Net.Context.Parse.{IsLine, message, parse_request-cut}
use cloud_storge_system.Net.Context.Complete.{length_header, finished, parse_request-message}
use cloud_storge_system.Net.Context.Ends.{Decides, parse_request-Decides}
use cloud_storge_system.Net.Context.Body.{Keeps}
use cloud_storge_system.Net.Context.Keeps.{parse_request-Keeps, fresh-BodyInv}
use cloud_storge_system.Net.Context.Retry.{line, parse_request-again}
use cloud_storge_system.Net.Response.{append_to_buffer, Response, make as make_response}
use cloud_storge_system.Net.Response.Render.{render, append_to_buffer-Yields}

-- A buffer of six bytes that reads "HTTP".
abbrev http_buffer : Buffer
http_buffer = record {
  storage = 0 ∷ 0 ∷ 0 ∷ 0 ∷ 0 ∷ 0 ∷ 0 ∷ 0 ∷ bytes "HTTP" ++ (0 ∷ 0 ∷ []);
  reader = 8;
  writer = 12;
}

http_buffer-Inv : Inv http_buffer
http_buffer-Inv = record { ordered = omega arith; inside = omega arith; roomy = omega arith }

abbrev buffer_ops : List Op
buffer_ops =
    appends (bytes "/1.1")
    ∷ takes 2
    ∷ prepends (bytes "ab")
    ∷ unwrites 1
    ∷ reads (bytes "xyz")
    ∷ shrinks 0
    ∷ takes_all
    ∷ []

buffer_ops-FitsAll : FitsAll buffer_ops http_buffer
unfolding FitsAll
buffer_ops-FitsAll =
    (tt, (omega arith, (omega arith, (omega arith, (omega arith, (tt, (tt, tt)))))))

run-replay_example :
    (outs : List Bytes) × (b' : Buffer) × (run buffer_ops http_buffer ≡ some (outs, b'))
    × Inv b'
    × (replay buffer_ops (content http_buffer) ≡ (outs, content b'))
run-replay_example = run-replay buffer_ops http_buffer http_buffer-Inv buffer_ops-FitsAll

-- A test of all bytes of a text.
unfoldable pub all_of : (ℕ → Bool) → Bytes → Bool
all_of p [] = true
all_of p (c ∷ cs) = p c && all_of p cs

pub NoByte-all_of : (c : ℕ) (cs : Bytes) → all_of (λ x. not (x == c)) cs ≡ true → NoByte c cs
unfolding all_of
NoByte-all_of c [] h = tt
NoByte-all_of c (x ∷ cs) h = (ground (arith, h), NoByte-all_of c cs (ground (arith, h)))

url_decode-url_encode_example : url_decode (λ _. 7) (url_encode (bytes "a b%")) ≡ bytes "a b%"
url_decode-url_encode_example =
    url_decode-url_encode (λ _. 7) (bytes "a b%")
      (omega arith, (omega arith, (omega arith, (omega arith, tt))))

post-known : post ≢ invalid
post-known e = ground (arith, e)

http11-known : http11 ≢ unknown
http11-known e = ground (arith, e)

login_query : IsQuery (bytes "?a=1")
unfolding all_of
login_query = (refl, NoByte-all_of 32 (bytes "a=1") refl)

pub login-IsLine : IsLine post (bytes "/login") (bytes "?a=1") http11
unfolding all_of
login-IsLine = record {
  method_known = post-known;
  version_known = http11-known;
  path_space = NoByte-all_of 32 (bytes "/login") refl;
  path_query = NoByte-all_of 63 (bytes "/login") refl;
  query_form = login_query;
  line_cr = NoByte-all_of 13 (request_line post (bytes "/login") (bytes "?a=1") http11) refl;
}

abbrev pub host_header : Header
host_header = (bytes "Host", bytes "disk")

pub host_header-IsHeader : IsHeader host_header
unfolding all_of
host_header-IsHeader = (
  NoByte-all_of 58 (bytes "Host") refl,
  NoByte-all_of 13 (bytes "Host") refl,
  NoByte-all_of 13 (bytes "disk") refl,
)

pub length_header-IsHeader : IsHeader (length_header 2)
unfolding all_of to_string
length_header-IsHeader = (
  NoByte-all_of 58 (bytes "Content-Length") refl,
  NoByte-all_of 13 (bytes "Content-Length") refl,
  NoByte-all_of 13 (bytes "2") refl,
)

parse_request-message_example :
    parse_request 3 5 fresh (
      message post
        (bytes "/login")
        (bytes "?a=1")
        http11
        (header_block (length_header 2 ∷ host_header ∷ []) (bytes "{}" ++ bytes "GET")))
    ≡ returns (
      got_request,
      finished 5 post (bytes "/login") (bytes "?a=1") http11 (host_header ∷ []) (bytes "{}"),
      bytes "GET",
    )
unfolding all_of eqb c_str
parse_request-message_example =
    parse_request-message 5 post (bytes "/login") (bytes "?a=1") http11 (host_header ∷ []) 0
      (bytes "{}") (bytes "GET") login-IsLine (length_header-IsHeader, (host_header-IsHeader, tt))
      ((refl, refl), tt) (omega arith)

parse_request-cut_example :
    parse_request 100 5 fresh (
      message post
        (bytes "/login")
        (bytes "?a=1")
        http11
        (header_lines (host_header ∷ []) (bytes "Acc")))
    ≡ spins
unfolding find
parse_request-cut_example =
    parse_request-cut 100 5 post (bytes "/login") (bytes "?a=1") http11 (host_header ∷ [])
      (bytes "Acc") login-IsLine (host_header-IsHeader, tt) refl

parse_request-Decides_example :
    Decides
      (λ n. parse_request n 5 fresh (bytes "GET"))
      (λ n. parse_request (suc (suc (suc n))) 5 fresh (bytes "GET"))
parse_request-Decides_example = parse_request-Decides 5 fresh (bytes "GET")

parse_request-Keeps_example : Keeps (parse_request 3 5 fresh (bytes "POST / HTTP/1.1"))
parse_request-Keeps_example = parse_request-Keeps 3 5 fresh (bytes "POST / HTTP/1.1") fresh-BodyInv

-- "GET / HTTP/2.0" is refused for its version.
abbrev old_text : Bytes
old_text = bytes "/ HTTP/2.0"

get-known : get ≢ invalid
get-known e = ground (arith, e)

old_text-cr : NoByte 13 old_text
unfolding all_of
old_text-cr = NoByte-all_of 13 old_text refl

abbrev refused_request : Request
refused_request = record empty_request { method = get; path = bytes "/" }

refused_line :
    process_request_line (line get old_text get-known old_text-cr) empty_request
    ≡ some (false, refused_request)
unfolding process_request_line line split_at set_method is_prefix
refused_line = refl

parse_request-again_example :
    (parse_request 3 5 fresh (line get old_text get-known old_text-cr ++ 13 ∷ 10 ∷ [])
      ≡ returns (
        error,
        record fresh { request = refused_request },
        line get old_text get-known old_text-cr ++ 13 ∷ 10 ∷ [],
      ))
    × (parse_request 3 6
          (record fresh { request = refused_request })
          ((line get old_text get-known old_text-cr ++ 13 ∷ 10 ∷ []) ++ bytes "x")
        ≡ aborts)
parse_request-again_example =
    parse_request-again get old_text get-known old_text-cr 2 2 5 6 refused_request [] (bytes "x")
      refused_line

abbrev page : Response
page = record (make_response true) {
  status_code = 200;
  status_message = bytes "OK";
  body = bytes "hi";
}

append_to_buffer-Yields_example :
    Yields (append_to_buffer page http_buffer) (content http_buffer ++ render page)
append_to_buffer-Yields_example = append_to_buffer-Yields page http_buffer http_buffer-Inv
