-- ===== src/App/World.antt =====
-- What the handlers of application/http_upload.cc share: the state of the server, exceptions, and
-- the outside world as parameters. Input comes from functions that are arbitrary: the answers of
-- MySQL may depend on all statements sent before, so no assumption on its tables, on other
-- clients or on the time is built in.
use cloud_storge_system.Common.{
  ℕ, Bool, true, false, Bytes, bytes, Option, none, some, List, [], ◌∷◌, if◌then◌else◌, get_elem?,
  ◌≡◌, ap,
}
use cloud_storge_system.App.Number.{ℤ, stoi}
use cloud_storge_system.App.Json.{Json}

-- A row of a result; a NULL column is `none`.
abbrev pub Row : Type 0
Row = List (Option Bytes)

-- What mysql_query, then mysql_store_result, answer: an error, no result set, or its rows.
pub data Reply : Type 0 where
  failed no_result : Reply
  rows : List Row → Reply

-- Libraries and the operating system.
pub record Env : Type 0 where
  -- MySQL: the reply to the newest of the statements sent so far, and mysql_insert_id then.
  pub answer : List Bytes → Reply
  pub insert_id : List Bytes → ℤ
  -- mysql_real_escape_string.
  pub escape : Bytes → Bytes
  -- nlohmann::json: parse, dump of a value whose texts are UTF-8, and the text of its exceptions.
  pub parse_json : Bytes → Option Json
  pub dump : Json → Bytes
  pub what : Bytes
  -- The file of the name mapping, read and written as JSON.
  pub parse_mapping : Bytes → Option (List (Bytes × Bytes))
  pub dump_mapping : List (Bytes × Bytes) → Bytes
  -- The stream of std::hash<std::string> in hexadecimal.
  pub hash : Bytes → Bytes
  -- The draws of std::random_device, by their number, and the clock in milliseconds.
  pub draw : ℕ → ℕ
  pub clock : ℕ → ℕ
  -- Whether the file system lets a file be created and be removed.
  pub can_create : Bytes → Bool
  pub can_unlink : Bytes → Bool
  -- The directory of the source file, with the pages of the site.
  pub root : Bytes
  -- What stands in the variable that sscanf may leave unset (Net/Request.antt).
  pub junk : ℕ → ℕ

-- The states of FileUploadContext.
pub data UploadState : Type 0 where
  expect_headers expect_content expect_boundary complete : UploadState

-- FileUploadContext: the file is `filename` in the file system, open until the object goes.
pub record Upload : Type 0 where
  pub filename : Bytes
  pub original_filename : Bytes
  pub total_bytes : ℕ
  pub state : UploadState
  pub boundary : Bytes

-- FileDownContext.
pub record Download : Type 0 where
  pub filepath : Bytes
  pub original_filename : Bytes
  pub file_size : ℕ
  pub position : ℕ
  pub is_complete : Bool

-- What `customContext_` of the connection's HttpContext points to.
pub data Custom : Type 0 where
  upload : Upload → Custom
  download : Download → Custom

-- The state of HttpUploadHandler, of the disk, and of the connection that is served:
-- `queries` are the statements sent to MySQL, newest first, `connected` says that `mysql` is not
-- null, `has_context` that the connection has an HttpContext, and `got_all` that this is in the
-- state kGotAll.
pub record World : Type 0 where
  pub queries : List Bytes
  pub connected : Bool
  pub files : Bytes → Option Bytes
  pub draws : ℕ
  pub mapping : List (Bytes × Bytes)
  pub has_context : Bool
  pub got_all : Bool
  pub custom : Option Custom

-- How a piece of code ends: a value, a C++ exception with its text, or undefined behaviour.
pub data Outcome (A : Type 0) : Type 0 where
  done : A → Outcome A
  thrown : Bytes → Outcome A
  undefined : Outcome A

abbrev pub M : Type 0 → Type 0
M A = World → Outcome A × World

abbrev pub pure : {A : Type 0} → A → M A
pure a w = (done a, w)

abbrev pub throw : {A : Type 0} → Bytes → M A
throw e w = (thrown e, w)

abbrev pub bind_outcome : {A B : Type 0} → Outcome A × World → (A → M B) → Outcome B × World
bind_outcome (done a, w) f = f a w
bind_outcome (thrown e, w) f = (thrown e, w)
bind_outcome (undefined, w) f = (undefined, w)

infixl 5 ◌>>=◌ ◌>>◌
abbrev pub ◌>>=◌ : {A B : Type 0} → M A → (A → M B) → M B
◌>>=◌ m f w = bind_outcome (m w) f

abbrev pub ◌>>◌ : {A B : Type 0} → M A → M B → M B
m >> k = m >>= λ _. k

abbrev pub catch_outcome : {A : Type 0} → Outcome A × World → (Bytes → M A) → Outcome A × World
catch_outcome (done a, w) handler = (done a, w)
catch_outcome (thrown e, w) handler = handler e w
catch_outcome (undefined, w) handler = (undefined, w)

-- `try { … } catch (const std::exception& e) { … }`.
abbrev pub try : {A : Type 0} → M A → (Bytes → M A) → M A
try m handler w = catch_outcome (m w) handler

module _ (env : Env) where
  abbrev pub succeeded : Reply → Bool
  succeeded failed = false
  succeeded _ = true

  -- `executeQuery`.
  unfoldable pub execute_query : Bytes → M Bool
  execute_query query w =
      let sent = query ∷ w.queries in
      if w.connected
      then (done (succeeded (env.answer sent)), record w { queries = sent })
      else (done false, w)

  abbrev pub stored_rows : Reply → Option (List Row)
  stored_rows (rows rs) = some rs
  stored_rows _ = none

  -- `executeQueryWithResult`: `none` is a null result.
  unfoldable pub query_rows : Bytes → M (Option (List Row))
  query_rows query w =
      let sent = query ∷ w.queries in
      if w.connected
      then (done (stored_rows (env.answer sent)), record w { queries = sent })
      else (done none, w)

  -- `mysql_insert_id`.
  unfoldable pub last_insert_id : M ℤ
  last_insert_id w = (done (env.insert_id w.queries), w)

  -- `escapeString`.
  unfoldable pub escape_string : Bytes → World → Bytes
  escape_string text w = if w.connected then env.escape text else text

-- The text of the exceptions of std::string and of std::stoi.
abbrev pub null_what : Bytes
null_what = bytes "basic_string: construction from null is not valid"

abbrev pub stoi_what : Bytes
stoi_what = bytes "stoi"

-- A column of a row; a column that the row lacks is read out of bounds.
abbrev pub column : ℕ → Row → M (Option Bytes)
column i row w = elim (get_elem? row i) [ none ↦ (undefined, w) | some v ↦ (done v, w) ]

-- `std::string s = row[i]`.
abbrev pub text_of : Option Bytes → M Bytes
text_of none = throw null_what
text_of (some s) = pure s

-- `std::stoi(text)`.
abbrev pub int_of : Bytes → M ℤ
int_of text w = elim (stoi text) [ none ↦ (thrown stoi_what, w) | some n ↦ (done n, w) ]

-- `row[i] ? row[i] : ""`.
abbrev pub text_or_blank : Option Bytes → Bytes
text_or_blank none = []
text_or_blank (some s) = s

-- `row[i] ? std::stoi(row[i]) : 0`.
abbrev pub int_or_zero : Option Bytes → M ℤ
int_or_zero none = pure (ℤ.pos 0)
int_or_zero (some s) = int_of s

-- `std::stoi` on a numeral, before what is done with the number.
pub int_of-some :
    {A : Type 0} (text : Bytes) (n : ℤ) (x : World) (k : ℤ → M A)
    → stoi text ≡ some n
    → (int_of text >>= k) x ≡ k n x
int_of-some text n x k e =
    ap
      (λ (o : Option ℤ).
        bind_outcome (elim o [ none ↦ (thrown stoi_what, x) | some m ↦ (done m, x) ]) k)
      e

pub int_of-none :
    {A : Type 0} (text : Bytes) (x : World) (k : ℤ → M A)
    → stoi text ≡ none
    → (int_of text >>= k) x ≡ (thrown stoi_what, x)
int_of-none text x k e =
    ap
      (λ (o : Option ℤ).
        bind_outcome (elim o [ none ↦ (thrown stoi_what, x) | some m ↦ (done m, x) ]) k)
      e
