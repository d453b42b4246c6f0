-- ===== src/Net/Request.antt =====
-- net/HttpRequest.h: a parsed request, its query parameters and URL decoding.
-- std::unordered_map is a dictionary too: the sources only look its keys up.
pub mod Decode
use cloud_storge_system.Common.{
  ℕ, zero, suc, ◌+◌, ◌-◌, ◌*◌, ◌/◌, ◌%◌, ◌<◌, Bool, true, false, not, ◌&&◌, ◌||◌, Bytes, bytes,
  Option, none, some, List, [], ◌∷◌, ◌++◌, length, take, drop, ltb, leb, ◌==◌, if◌then◌else◌, eqb,
  split_at, skip_space, trim_end, is_space, is_empty, is_digit, lookup, insert, text_or_empty,
}

pub data Method : Type 0 where
  invalid get post head put delete : Method

pub data Version : Type 0 where
  unknown http10 http11 : Version

pub record Request : Type 0 where
  pub method : Method
  pub version : Version
  pub path : Bytes
  pub query : Bytes
  pub body : Bytes
  pub receive_time : ℕ
  pub headers : List (Bytes × Bytes)
  pub path_params : List (Bytes × Bytes)

-- The default constructor.
abbrev pub empty_request : Request
empty_request = record {
  method = invalid;
  version = unknown;
  path = [];
  query = [];
  body = [];
  receive_time = 0;
  headers = [];
  path_params = [];
}

-- The name of each method, as `methodString` gives it.
abbrev pub method_string : Method → Bytes
method_string invalid = bytes "UNKNOWN"
method_string get = bytes "GET"
method_string post = bytes "POST"
method_string head = bytes "HEAD"
method_string put = bytes "PUT"
method_string delete = bytes "DELETE"

abbrev pub method_eqb : Method → Method → Bool
method_eqb invalid invalid = true
method_eqb get get = true
method_eqb post post = true
method_eqb head head = true
method_eqb put put = true
method_eqb delete delete = true
method_eqb _ _ = false

-- The comparisons of `setMethod`.
unfoldable pub method_of : Bytes → Method
unfolding eqb
method_of m =
    if eqb m (bytes "GET")
    then get
    else if eqb m (bytes "POST")
    then post
    else if eqb m (bytes "HEAD")
    then head
    else if eqb m (bytes "PUT")
    then put
    else if eqb m (bytes "DELETE")
    then delete
    else invalid

-- `setMethod`: `none` is the failed assert that no method was set before; the flag is the result.
unfoldable pub set_method : Bytes → Request → Option (Bool × Request)
unfolding method_of
set_method m r =
    if method_eqb r.method invalid
    then some (not (method_eqb (method_of m) invalid), record r { method = method_of m })
    else none

-- `addHeader` on the text before the colon and the text behind it.
unfoldable pub add_header : Bytes → Bytes → Request → Request
unfolding skip_space trim_end insert
add_header field after_colon r = record r {
  headers = insert field (trim_end (skip_space after_colon)) r.headers;
}

unfoldable pub get_header : Bytes → Request → Bytes
unfolding lookup
get_header field r = text_or_empty (lookup field r.headers)

unfoldable pub get_path_param : Bytes → Request → Bytes
unfolding lookup
get_path_param name r = text_or_empty (lookup name r.path_params)

abbrev pub hex_digit : ℕ → Option ℕ
hex_digit c =
    if is_digit c
    then some (c - 48)
    else if leb 97 c && leb c 102
    then some (c - 87)
    else if leb 65 c && leb c 70
    then some (c - 55)
    else none

-- The value of the hexadecimal digits at the front of two characters at most; `none` where there
-- are none.
abbrev read_hex : Bytes → Option ℕ
read_hex [] = none
read_hex (a ∷ []) = hex_digit a
read_hex (a ∷ b ∷ _) = elim (hex_digit a) [
  | none ↦ none
  | some x ↦ elim (hex_digit b) [ none ↦ some x | some y ↦ some (x * 16 + y) ]
]

abbrev negate : Option ℕ → Option ℕ
negate none = none
negate (some x) = some ((256 - x) % 256)

abbrev read_signed : Bytes → Option ℕ
read_signed [] = none
read_signed (c ∷ cs) =
    if c == b'-' then negate (read_hex cs) else if c == b'+' then read_hex cs else read_hex (c ∷ cs)

-- The byte `static_cast<char>(value)` after `sscanf(text, "%x", &value)` on two characters:
-- white space and a sign are skipped; `none` where nothing is converted.
unfoldable pub scan_hex : Bytes → Option ℕ
unfolding skip_space
scan_hex text = read_signed (skip_space text)

abbrev pub or_junk : ℕ → Option ℕ → ℕ
or_junk junk none = junk
or_junk junk (some x) = x

abbrev plus_to_space : ℕ → ℕ
plus_to_space c = if c == b'+' then 32 else c

-- `urlDecode`. Where sscanf converts nothing the source reads a variable that was never set:
-- `junk` is the byte that stands there, by the number of characters left.
unfoldable pub url_decode : (ℕ → ℕ) → Bytes → Bytes
unfolding scan_hex
url_decode junk [] = []
url_decode junk (c ∷ []) = if c == b'%' then [] else plus_to_space c ∷ []
url_decode junk (c ∷ a ∷ []) =
    let rest = url_decode junk (a ∷ []) in if c == b'%' then rest else plus_to_space c ∷ rest
url_decode junk (c ∷ a ∷ b ∷ cs) =
    let escaped = or_junk (junk (length cs)) (scan_hex (a ∷ b ∷ [])) ∷ url_decode junk cs in
    let plain = plus_to_space c ∷ url_decode junk (a ∷ b ∷ cs) in
    if c == b'%' then escaped else plain

abbrev cons_first : ℕ → List Bytes → List Bytes
cons_first c [] = (c ∷ []) ∷ []
cons_first c (p ∷ ps) = (c ∷ p) ∷ ps

-- The parts of a text between the separators.
unfoldable pub split_on : ℕ → Bytes → List Bytes
split_on c [] = [] ∷ []
split_on c (x ∷ xs) = let rest = split_on c xs in if x == c then [] ∷ rest else cons_first x rest

-- What one `key=value` part of the query says of `key`.
abbrev part_value : (ℕ → ℕ) → Bytes → Bytes → Option (Bytes × Bytes) → Option Bytes
part_value junk key part none = if eqb part key then some (bytes "true") else none
part_value junk key part (some (k, rest)) =
    if eqb k key then some (url_decode junk (drop 1 rest)) else none

abbrev or_next : Option Bytes → Option Bytes → Option Bytes
or_next none next = next
or_next (some v) next = some v

unfoldable pub find_param : (ℕ → ℕ) → Bytes → List Bytes → Option Bytes
unfolding eqb split_at url_decode
find_param junk key [] = none
find_param junk key (part ∷ parts) =
    or_next (part_value junk key part (split_at b'=' part)) (find_param junk key parts)

abbrev pub value_or : Bytes → Option Bytes → Bytes
value_or d none = d
value_or d (some v) = v

abbrev query_value : (ℕ → ℕ) → Bytes → Bytes → Bytes → Bytes
query_value junk key default [] = default
query_value junk key default (c ∷ q) =
    if c == b'?' then value_or default (find_param junk key (split_on b'&' q)) else default

-- `getQuery(key, defaultValue)`.
unfoldable pub get_query : (ℕ → ℕ) → Bytes → Bytes → Request → Bytes
unfolding find_param split_on
get_query junk key default r = query_value junk key default r.query
