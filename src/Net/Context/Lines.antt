-- ===== src/Net/Context/Lines.antt =====
-- One line at a time: the request line, a header line, a Content-Length.
use cloud_storge_system.Common.{
  ℕ, ◌^◌, ◌≤◌, ◌<◌, ◌≡◌, refl, ◌∙◌, ◌≢◌, true, Bytes, bytes, some, [], ◌∷◌, ◌++◌, arith, eqb,
  split_at, skip_space, is_prefix, read_digits, digits_of, to_string, NoByte, NoByte-append,
  split_at-append, split_at-eq-none, read_digits-digits_of, digits_of-Digits, digits_of-ne-nil,
  Digits, append-nil,
}
use cloud_storge_system.Net.Request.{
  Request, Method, invalid, get, post, head, put, delete, Version, unknown, http10, http11,
  empty_request, set_method, method_string,
}
use cloud_storge_system.Net.Context.{
  process_request_line, set_target, set_version, version_of, atoi_size,
}

-- The text of a version, which the parser knows.
abbrev pub version_text : Version → Bytes
version_text http10 = bytes "HTTP/1.0"
version_text _ = bytes "HTTP/1.1"

pub set_method-method_string :
    (m : Method) (r : Request)
    → m ≢ invalid
    → r.method ≡ invalid
    → set_method (method_string m) r ≡ some (true, record r { method = m })
unfolding set_method eqb
set_method-method_string invalid r h e = absurd (h refl)
set_method-method_string get r h e = ground (arith, e)
set_method-method_string post r h e = ground (arith, e)
set_method-method_string head r h e = ground (arith, e)
set_method-method_string put r h e = ground (arith, e)
set_method-method_string delete r h e = ground (arith, e)

pub method_string-NoByte : (m : Method) → NoByte 32 (method_string m)
method_string-NoByte invalid = omega arith
method_string-NoByte get = omega arith
method_string-NoByte post = omega arith
method_string-NoByte head = omega arith
method_string-NoByte put = omega arith
method_string-NoByte delete = omega arith

-- A request line: method, path, a query with its question mark or nothing, version.
abbrev pub request_line : Method → Bytes → Bytes → Version → Bytes
request_line m path query v = method_string m ++ 32 ∷ ((path ++ query) ++ 32 ∷ version_text v)

abbrev pub IsQuery : Bytes → Type 0
IsQuery [] = Unit
IsQuery (c ∷ q) = (c ≡ 63) × NoByte 32 q

IsQuery-NoByte : (query : Bytes) → IsQuery query → NoByte 32 query
IsQuery-NoByte [] h = tt
IsQuery-NoByte (c ∷ q) h = (omega (arith, h.0), h.1)

-- The request with the parts of its request line.
abbrev pub with_line : Method → Bytes → Bytes → Version → Request
with_line m path query v = record empty_request {
  method = m;
  path = path;
  query = query;
  version = v;
}

target_parts :
    (path query : Bytes)
    → NoByte 63 path
    → IsQuery query
    → (r : Request) → r.query ≡ []
    → set_target (path ++ query) (split_at 63 (path ++ query)) r
      ≡ record r { path = path; query = query }
target_parts path [] p q r e = rw (append-nil path, split_at-eq-none 63 path p) (ground (arith, e))
target_parts path (c ∷ query) p q r e = rw (q.0, split_at-append 63 path query p) refl

version_parts :
    (v : Version) (r : Request)
    → v ≢ unknown
    → set_version (version_of (version_text v)) r ≡ (true, record r { version = v })
unfolding eqb is_prefix
version_parts unknown r h = absurd (h refl)
version_parts http10 r h = refl
version_parts http11 r h = refl

-- A request line with a known method and version, a path without spaces and question marks, and a
-- query that is empty or begins with a question mark and has no space, sets the method, the path,
-- the query and the version.
pub process_request_line-request_line :
    (m : Method) (path query : Bytes) (v : Version)
    → m ≢ invalid
    → v ≢ unknown
    → NoByte 32 path
    → NoByte 63 path
    → IsQuery query
    → process_request_line (request_line m path query v) empty_request
      ≡ some (true, with_line m path query v)
unfolding process_request_line
process_request_line-request_line m path query v hm hv sp qm q = rw (
  split_at-append 32 (method_string m) ((path ++ query) ++ 32 ∷ version_text v)
      (method_string-NoByte m),
  set_method-method_string m empty_request hm refl,
  split_at-append 32 (path ++ query) (version_text v)
      (NoByte-append 32 path query sp (IsQuery-NoByte query q)),
  target_parts path query qm q (record empty_request { method = m }) refl,
  version_parts v (record empty_request { method = m; path = path; query = query }) hv,
)

skip_space-digit : (c : ℕ) (cs : Bytes) → 48 ≤ c → c ≤ 57 → skip_space (c ∷ cs) ≡ c ∷ cs
unfolding skip_space
skip_space-digit c cs lo hi = ground arith

pub atoi_size-Digits :
    (text rest : Bytes) (n : ℕ)
    → text ≢ []
    → Digits text
    → read_digits 0 (text ++ rest) ≡ n
    → n < 2 ^ 31
    → atoi_size (text ++ rest) ≡ n
unfolding atoi_size
atoi_size-Digits [] rest n h d e l = absurd (h refl)
atoi_size-Digits (c ∷ cs) rest n h d e l =
    rw (skip_space-digit c (cs ++ rest) d.0.0 d.0.1) (ground (arith, e, d.0.0, d.0.1))

pub stop_at_cr : (n : ℕ) (rest : Bytes) → read_digits n (13 ∷ rest) ≡ n
unfolding read_digits
stop_at_cr n rest = refl

-- The numeral of a length below 2 ^ 31 is read back, whatever stands behind the line.
pub atoi_size-to_string :
    (n : ℕ) (rest : Bytes) → n < 2 ^ 31 → atoi_size (to_string n ++ 13 ∷ rest) ≡ n
unfolding to_string
atoi_size-to_string n rest h =
    atoi_size-Digits (digits_of 20 n) (13 ∷ rest) n (digits_of-ne-nil 19 n) (digits_of-Digits 20 n)
      (read_digits-digits_of 20 n (13 ∷ rest) (omega arith) ∙ stop_at_cr n rest) h
