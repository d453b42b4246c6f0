-- ===== src/Net/Context.antt =====
-- net/HttpContext.h and net/HttpContext.cc: the incremental parser of one connection.
-- The input buffer is its readable bytes: `findCRLF`, `retrieveUntil` and `retrieve` act on them as
-- Net/Buffer/Refines.antt proves. The object behind `customContext_` is named by its address.
pub mod Lines
pub mod Headers
pub mod Parse
pub mod Ends
pub mod Body
pub mod Keeps
pub mod Retry
pub mod Complete
pub mod Told
use cloud_storge_system.Common.{
  ℕ, zero, suc, ◌+◌, ◌-◌, ◌*◌, ◌/◌, ◌%◌, ◌^◌, ◌<◌, min, Bool, true, false, not, ◌&&◌, ◌||◌, Bytes,
  bytes, Option, none, some, List, [], ◌∷◌, ◌++◌, length, take, drop, ltb, leb, ◌==◌, if◌then◌else◌,
  eqb, split_at, skip_space, find, is_prefix, eq_no_case, c_str, read_digits,
}
use cloud_storge_system.Net.Request.{
  Request, Version, http10, http11, empty_request, set_method, add_header,
}

pub data ParseState : Type 0 where
  expect_request_line expect_headers expect_body got_all : ParseState

pub data ParseResult : Type 0 where
  error need_more headers_complete got_request : ParseResult

pub record Context : Type 0 where
  pub state : ParseState
  pub request : Request
  pub content_length : ℕ
  pub body_received : ℕ
  pub chunked : Bool
  pub custom : Option ℕ

-- The constructor.
abbrev pub fresh : Context
fresh = record {
  state = expect_request_line;
  request = empty_request;
  content_length = 0;
  body_received = 0;
  chunked = false;
  custom = none;
}

-- `swap` of the request with a new one, which leaves the path parameters where they are.
abbrev pub swap_empty : Request → Request
swap_empty r = record empty_request { path_params = r.path_params }

-- `reset()`.
abbrev pub reset : Context → Context
reset c = record c {
  state = expect_request_line;
  request = swap_empty c.request;
  content_length = 0;
  body_received = 0;
  chunked = false;
  custom = none;
}

abbrev pub remaining_length : Context → ℕ
remaining_length c = c.content_length - c.body_received

-- The last character of the version decides it.
abbrev version_of : Bytes → Option Version
version_of v =
    if length v == 8 && is_prefix (bytes "HTTP/1.") v
    then if eqb (drop 7 v) (bytes "1")
      then some http11
      else if eqb (drop 7 v) (bytes "0")
      then some http10
      else none
    else none

abbrev set_version : Option Version → Request → Bool × Request
set_version none r = (false, r)
set_version (some v) r = (true, record r { version = v })

abbrev set_target : Bytes → Option (Bytes × Bytes) → Request → Request
set_target target none r = record r { path = target }
set_target target (some (path, query)) r = record r { path = path; query = query }

-- From behind the first space: target, space, version.
abbrev request_target : Option (Bytes × Bytes) → Request → Bool × Request
request_target none r = (false, r)
request_target (some (target, rest)) r =
    set_version (version_of (drop 1 rest)) (set_target target (split_at b'?' target) r)

abbrev request_rest : Bytes → Option (Bool × Request) → Option (Bool × Request)
request_rest rest none = none
request_rest rest (some (false, r)) = some (false, r)
request_rest rest (some (true, r)) = some (request_target (split_at b' ' (drop 1 rest)) r)

abbrev request_parts : Request → Option (Bytes × Bytes) → Option (Bool × Request)
request_parts r none = some (false, r)
request_parts r (some (m, rest)) = request_rest rest (set_method m r)

-- `processRequestLine`: what it set stays set when it fails; `none` is the failed assert of
-- `setMethod`.
unfoldable pub process_request_line : Bytes → Request → Option (Bool × Request)
process_request_line line r = request_parts r (split_at b' ' line)

-- The `int` at the front of a text as atoi of glibc gives it (strtol, then a cast), as a size_t.
abbrev int_to_size : ℕ → ℕ
int_to_size low = if ltb low (2 ^ 31) then low else 2 ^ 64 - 2 ^ 32 + low

abbrev atoi_signed : Bytes → ℕ
atoi_signed [] = 0
atoi_signed (c ∷ cs) =
    if c == b'-'
    then int_to_size ((2 ^ 32 - min (read_digits 0 cs) (2 ^ 63) % 2 ^ 32) % 2 ^ 32)
    else int_to_size
        (min (if c == b'+' then read_digits 0 cs else read_digits 0 (c ∷ cs)) (2 ^ 63 - 1) % 2 ^ 32)

unfoldable pub atoi_size : Bytes → ℕ
unfolding skip_space read_digits
atoi_size text = atoi_signed (skip_space text)

-- What a header line does besides being stored: `value` is the text behind the colon and its white
-- space, up to the end of the line, and `beyond` what stands in the buffer from there on, where
-- atoi stops at the first byte that is no digit.
unfoldable pub note_header : Bytes → Bytes → Bytes → Context → Context
note_header field value beyond c =
    if eq_no_case field (bytes "Content-Length")
    then record c { content_length = atoi_size (value ++ beyond) }
    else if eq_no_case field (bytes "Transfer-Encoding")
    then if eq_no_case value (bytes "chunked") then record c { chunked = true } else c
    else c

-- One header line with a colon.
unfoldable pub process_header : Bytes → Bytes → Bytes → Context → Context
process_header field after_colon beyond c =
    note_header field (skip_space after_colon) beyond
      (record c { request = add_header field after_colon c.request })

abbrev header_split : Bytes → ℕ → Option (Bytes × Bytes)
header_split buf i = split_at b':' (take i buf)

-- The loop of `processHeaders`, which always succeeds; `none` is fuel that ran out. A line
-- without a colon ends the headers.
unfoldable pub headers_loop : ℕ → Context → Bytes → Option (Context × Bytes)
headers_loop zero c buf = none
headers_loop (suc f) c buf = elim (find (13 ∷ 10 ∷ []) buf) [
  | none ↦ some (c, buf)
  | some i ↦ elim (header_split buf i) [
    | none ↦ some (record c { state = expect_body }, drop (i + 2) buf)
    | some (field, rest) ↦
        headers_loop f (process_header field (drop 1 rest) (drop i buf) c) (drop (i + 2) buf)
  ]
]

-- `processHeaders`: each round takes two bytes at least, so this fuel is enough.
unfoldable pub process_headers : Context → Bytes → Option (Context × Bytes)
process_headers c buf = headers_loop (suc (length buf)) c buf

-- `processBody`; the flag is its result.
unfoldable pub process_body : Context → Bytes → Bool × Context × Bytes
process_body c buf =
    if c.chunked
    then (false, c, buf)
    else let n = min (length buf) (remaining_length c) in
      let c' = record c {
        request = record (c.request) { body = c.request.body ++ take n buf };
        body_received = c.body_received + n;
      } in
      (leb c.content_length (c.body_received + n), c', drop n buf)

-- How a call ends: it returns, an assert fails, or its loop is still running when the rounds that
-- it was given are used up.
pub data Run (A : Type 0) : Type 0 where
  returns : A → Run A
  aborts spins : Run A

abbrev pub Parsed : Type 0
Parsed = ParseResult × Context × Bytes

abbrev with_result : ParseResult → Context × Bytes → Run Parsed
with_result r (c, buf) = returns (r, c, buf)

abbrev after_line :
    (Context → Bytes → Run Parsed)
    → ParseResult
    → ℕ
    → Context
    → Bytes
    → ℕ
    → Option (Bool × Request)
    → Run Parsed
after_line again result time c buf i none = aborts
after_line again result time c buf i (some (false, r)) =
    returns (error, record c { request = r }, buf)
after_line again result time c buf i (some (true, r)) =
    again (record c { request = record r { receive_time = time }; state = expect_headers })
      (drop (i + 2) buf)

-- In the state kExpectBody, behind the headers: `again` is the next round, with the result
-- kHeadersComplete.
abbrev headers_done : (Context → Bytes → Run Parsed) → Context → Bytes → Run Parsed
headers_done again c buf =
    if c.content_length == 0 && not c.chunked
    then returns (got_request, record c { state = got_all }, buf)
    else if ltb 0 (length buf)
    then again c buf
    else returns (headers_complete, c, buf)

abbrev after_headers :
    ParseState
    → (Context → Bytes → Run Parsed)
    → (Context → Bytes → Run Parsed)
    → Context
    → Bytes
    → Run Parsed
after_headers expect_body again same c buf = headers_done again c buf
after_headers _ again same c buf = same c buf

abbrev after_body : ParseResult → Bool × Context × Bytes → Run Parsed
after_body result (true, c, buf) = returns (got_request, record c { state = got_all }, buf)
after_body result (false, c, buf) =
    returns (if ltb c.body_received c.content_length then headers_complete else result, c, buf)

abbrev pub Again : Type 0
Again = ParseResult → Context → Bytes → Run Parsed

abbrev pub line_round : Again → ParseResult → ℕ → Context → Bytes → Option ℕ → Run Parsed
line_round again result time c buf none = returns (result, c, buf)
line_round again result time c buf (some i) =
    after_line (again result) result time c buf i (process_request_line (take i buf) c.request)

abbrev headers_round : Again → ParseResult → Option (Context × Bytes) → Run Parsed
headers_round again result none = spins
headers_round again result (some (c, buf)) =
    after_headers c.state (again headers_complete) (again result) c buf

-- One round of the loop of `parseRequest`, in each state; `again` goes on with the loop.
abbrev round : ParseState → Again → ParseResult → ℕ → Context → Bytes → Run Parsed
round expect_request_line again result time c buf =
    line_round again result time c buf (find (13 ∷ 10 ∷ []) buf)
round expect_headers again result time c buf = headers_round again result (process_headers c buf)
round expect_body again result time c buf = after_body result (process_body c buf)
round got_all again result time c buf = again result c buf

-- The loop of `parseRequest` with the rounds it is given, the receive time and the result so far.
unfoldable pub parse_loop : ℕ → ℕ → ParseResult → Context → Bytes → Run Parsed
parse_loop zero time result c buf = spins
parse_loop (suc f) time result c buf = round c.state (parse_loop f time) result time c buf

-- `parseRequest`.
unfoldable pub parse_request : ℕ → ℕ → Context → Bytes → Run Parsed
parse_request rounds time c buf = parse_loop rounds time need_more c buf
