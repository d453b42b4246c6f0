-- ===== src/Net/Response.antt =====
-- net/HttpResponse.h: a response and its text. The response callback and the async flag are stored
-- by the source and read by nothing.
pub mod Render
use cloud_storge_system.Common.{
  ℕ, ◌==◌, Bool, true, false, Bytes, bytes, Option, none, some, List, [], ◌∷◌, ◌++◌, if◌then◌else◌,
  insert, to_string,
}
use cloud_storge_system.Net.Buffer.{Buffer, append, ◌>>=◌}

pub record Response : Type 0 where
  pub status_code : ℕ
  pub status_message : Bytes
  pub close_connection : Bool
  pub headers : List (Bytes × Bytes)
  pub body : Bytes

-- The constructor; kUnknown is 0.
abbrev pub make : Bool → Response
make close = record {
  status_code = 0;
  status_message = [];
  close_connection = close;
  headers = [];
  body = [];
}

abbrev pub add_header : Bytes → Bytes → Response → Response
add_header key value r = record r { headers = insert key value r.headers }

abbrev pub set_content_type : Bytes → Response → Response
set_content_type = add_header (bytes "Content-Type")

abbrev crlf : Bytes
crlf = 13 ∷ 10 ∷ []

-- The loop over the headers.
pub append_headers : List (Bytes × Bytes) → Buffer → Option Buffer
append_headers [] output = some output
append_headers ((key, value) ∷ headers) output = do
  a ← append key output
  b ← append (bytes ": ") a
  c ← append value b
  d ← append crlf c
  append_headers headers d

-- `appendToBuffer`.
pub append_to_buffer : Response → Buffer → Option Buffer
append_to_buffer r output = do
  a ← append (bytes "HTTP/1.1 " ++ to_string r.status_code ++ bytes " ") output
  b ← append r.status_message a
  c ← append crlf b
  d ←
      append
        (if r.close_connection
          then bytes "Connection: close\r\n"
          else bytes "Connection: Keep-Alive\r\n")
        c
  e ← append_headers r.headers d
  f ← append crlf e
  append r.body f
