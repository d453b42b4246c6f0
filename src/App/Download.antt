-- ===== src/App/Download.antt =====
-- `handleDownload` and `handleShareDownload`.
pub mod Access
use cloud_storge_system.Common.{
  ℕ, Bool, true, false, not, Bytes, bytes, Option, none, some, [], ◌++◌, if◌then◌else◌, is_empty,
  to_string, length,
}
use cloud_storge_system.Net.Request.{
  Request, head, method_eqb, get_header, get_path_param, get_query,
}
use cloud_storge_system.Net.Response.{Response, add_header, set_content_type}
use cloud_storge_system.App.Number.{ℤ}
use cloud_storge_system.App.World.{
  Env, Row, M, done, undefined, pure, throw, ◌>>=◌, try, query_rows, escape_string, column, text_of,
  int_of, text_or_blank, int_or_zero, Download, Custom, upload, download,
}
use cloud_storge_system.App.Reply.{Handled, shutdown, send_chunks, answered, send_error}
use cloud_storge_system.App.Session.{first_row, validate_session}
use cloud_storge_system.App.Account.{session_header}
use cloud_storge_system.App.Delete.{upload_path}
use cloud_storge_system.App.Permission.{
  Viewer, Grant, download_permits, share_download_permits, refusal,
}
use cloud_storge_system.App.Range.{
  Range, whole, part, unsatisfiable, overflow, parse_range, seek_to,
}

-- The user of a request, with 0 where no session is valid.
abbrev pub viewer_of : Option (ℤ × Bytes) → Viewer
viewer_of none = record { authenticated = false; user = ℤ.pos 0 }
viewer_of (some (user, username)) = record { authenticated = true; user = user }

-- The file that a query found.
pub record Found : Type 0 where
  pub server_filename : Bytes
  pub original_filename : Bytes
  pub grant : Grant

-- The columns of the two queries; `share_text` reads the share type.
abbrev pub read_found : (Option Bytes → M Bytes) → Row → M Found
read_found share_text row = do
  c1 ← column 1 row
  server ← text_of c1
  c2 ← column 2 row
  original ← text_of c2
  c3 ← column 3 row
  owner_text ← text_of c3
  owner ← int_of owner_text
  c4 ← column 4 row
  kind ← share_text c4
  c5 ← column 5 row
  shared ← int_or_zero c5
  c6 ← column 6 row
  pure (record {
    server_filename = server;
    original_filename = original;
    grant = record {
      owner = owner;
      share_type = kind;
      shared_with = shared;
      extract_code = text_or_blank c6;
    };
  })

abbrev content_range : ℕ → ℕ → ℕ → Bytes
content_range first last size =
    bytes "bytes " ++ to_string first ++ bytes "-" ++ to_string last ++ bytes "/" ++ to_string size

abbrev octets : Bytes
octets = bytes "application/octet-stream"

-- The status of the first answer.
abbrev pub ranged : Range → ℕ → Response → Response
ranged (part first last) size r =
    add_header (bytes "Content-Range") (content_range first last size)
      (record r { status_code = 206; status_message = bytes "Partial Content" })
ranged _ size r = record r { status_code = 200; status_message = bytes "OK" }

abbrev pub start_of : Range → ℕ
start_of (part first last) = first
start_of _ = 0

module _ (env : Env) where
  abbrev pub head_answer : ℕ → Response → Handled
  head_answer size r =
      let status =
        set_content_type octets (record r { status_code = 200; status_message = bytes "OK" }) in
      let sized = add_header (bytes "Content-Length") (to_string size) status in
      let ranges = add_header (bytes "Accept-Ranges") (bytes "bytes") sized in
      answered (add_header (bytes "Connection") (bytes "close") ranges) shutdown

  -- A new FileDownContext at the start of the range, and its headers. A context that is there
  -- already goes on as it is; one of another class would be read as if it were a FileDownContext.
  abbrev pub open_download : Found → Bytes → ℕ → Range → Response → Option Custom → M Handled
  open_download f path size range r none w =
      let d : Download = record {
        filepath = path;
        original_filename = f.original_filename;
        file_size = size;
        position = 0;
        is_complete = false;
      } in
      let named =
        add_header (bytes "Content-Disposition")
          (bytes "attachment; filename=\"" ++ f.original_filename ++ bytes "\"")
          (set_content_type octets (ranged range size r)) in
      let ranges = add_header (bytes "Accept-Ranges") (bytes "bytes") named in
      (
        done (answered (add_header (bytes "Connection") (bytes "keep-alive") ranges) send_chunks),
        record w { custom = some (download (seek_to (start_of range) d)) },
      )
  open_download f path size range r (some (download d)) w = (done (answered r send_chunks), w)
  open_download f path size range r (some (upload u)) w = (undefined, w)

  abbrev pub with_context : Found → Bytes → ℕ → Range → Response → M Handled
  with_context f path size range r w =
      if w.has_context
      then open_download f path size range r w.custom w
      else pure (send_error env (bytes "Internal Server Error") 500 r) w

  abbrev pub serve_range : Found → Bytes → ℕ → Response → Range → M Handled
  serve_range f path size r unsatisfiable =
      pure (send_error env (bytes "Range Not Satisfiable") 416 r)
  serve_range f path size r overflow = throw (bytes "stoull")
  serve_range f path size r whole = with_context f path size whole r
  serve_range f path size r (part first last) = with_context f path size (part first last) r

  abbrev pub serve_content : Found → Bytes → Request → Response → Option Bytes → M Handled
  serve_content f path req r none = pure (send_error env (bytes "File not found") 404 r)
  serve_content f path req r (some content) =
      if method_eqb req.method head
      then pure (head_answer (length content) r)
      else serve_range f path (length content) r
          (parse_range (get_header (bytes "Range") req) (length content))

  -- The part behind the permission check, the same in both handlers.
  unfoldable pub serve_file : Found → Request → Response → M Handled
  unfolding parse_range
  serve_file f req r =
      try
        (λ w.
          let path = upload_path f.server_filename in serve_content f path req r (w.files path) w)
        (λ what. pure (send_error env (bytes "Download failed") 500 r))

  abbrev pub permitted : Bool → Found → Bytes → Request → Response → M Handled
  permitted true f code req r = serve_file f req r
  permitted false f code req r = pure (send_error env (refusal f.grant code) 403 r)

  abbrev pub share_where : Bytes → Bytes → Bytes
  share_where name code =
      bytes "FROM files f JOIN file_shares fs ON f.id = fs.file_id WHERE f.filename = '"
      ++ name
      ++ bytes "' AND fs.share_code = '"
      ++ code
      ++ bytes "' AND (fs.expire_time IS NULL OR fs.expire_time > NOW())"

  abbrev pub shared_query : Bytes → Bytes → Bytes
  shared_query name code =
      bytes
        "SELECT f.id, f.filename, f.original_filename, f.user_id, fs.share_type, fs.shared_with_id, fs.extract_code "
      ++ share_where name code

  abbrev pub direct_query : Bytes → Bytes
  direct_query name =
      bytes
        "SELECT f.id, f.filename, f.original_filename, f.user_id, NULL as share_type, NULL as shared_with_id, NULL as extract_code FROM files f WHERE f.filename = '"
      ++ name
      ++ bytes "'"

  abbrev pub download_row : Bool → Viewer → Bytes → Request → Response → Option Row → M Handled
  download_row by_share v code req r none = pure (send_error env (bytes "File not found") 404 r)
  download_row by_share v code req r (some row) = do
    c0 ← column 0 row
    id_text ← text_of c0
    file ← int_of id_text
    f ← read_found (λ kind. pure (text_or_blank kind)) row
    permitted (download_permits by_share f.grant v code) f code req r

  abbrev pub download_query : Bytes → Bytes → Viewer → Request → Response → M Handled
  download_query name share_code v req r w =
      let code = get_query env.junk (bytes "extract_code") [] req in
      if not (is_empty share_code)
      then (do
        found ←
            query_rows env
              (shared_query (escape_string env name w) (escape_string env share_code w))
        download_row true v code req r (first_row found))
          w
      else if not v.authenticated
      then pure (send_error env (bytes "请先登录") 401 r) w
      else (do
        found ← query_rows env (direct_query (escape_string env name w))
        download_row false v code req r (first_row found))
          w

  -- The session of the header or, where that is empty, of the query.
  abbrev pub download_session : Request → Bytes
  download_session req =
      let header = session_header env req in
      if is_empty header then get_query env.junk (bytes "sessionId") [] req else header

  -- `handleDownload`.
  unfoldable pub handle_download : Request → Response → M Handled
  handle_download req r =
      let name = get_path_param (bytes "filename") req in
      if is_empty name then pure (send_error env (bytes "Missing filename") 400 r) else do
        who ← validate_session env (download_session req)
        download_query name (get_query env.junk (bytes "code") [] req) (viewer_of who) req r

  abbrev pub share_download_query : Bytes → Bytes → Bytes
  share_download_query name code =
      bytes
        "SELECT f.id, f.filename, f.original_filename, f.user_id, fs.share_type, fs.shared_with_id, fs.extract_code, fs.created_at, fs.expire_time "
      ++ share_where name code

  abbrev pub share_download_row : Viewer → Bytes → Request → Response → Option Row → M Handled
  share_download_row v code req r none =
      pure (send_error env (bytes "Share not found or expired") 404 r)
  share_download_row v code req r (some row) = do
    f ← read_found text_of row
    permitted (share_download_permits f.grant v code) f code req r

  abbrev pub share_download : Bytes → Bytes → Viewer → Request → Response → M Handled
  share_download name share_code v req r w =
      (do
        found ←
            query_rows env
              (share_download_query (escape_string env name w) (escape_string env share_code w))
        share_download_row v (get_query env.junk (bytes "extract_code") [] req) req r
            (first_row found))
        w

  -- `handleShareDownload`.
  unfoldable pub handle_share_download : Request → Response → M Handled
  handle_share_download req r =
      let name = get_path_param (bytes "filename") req in
      let share_code = get_query env.junk (bytes "code") [] req in
      if is_empty name
      then pure (send_error env (bytes "Missing filename") 400 r)
      else if is_empty share_code
      then pure (send_error env (bytes "Missing share code") 400 r)
      else do
        who ← validate_session env (session_header env req)
        share_download name share_code (viewer_of who) req r
