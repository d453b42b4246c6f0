-- ===== src/App/FileUpload.antt =====
-- The handler `handleFileUpload`: the checks of the request, the upload context of the connection,
-- one piece of the body (App/Upload.antt), and the answer when the upload is complete.
pub mod Pieces
pub mod Start
use cloud_storge_system.Common.{
  ℕ, suc, ◌+◌, ◌%◌, ◌==◌, Bool, true, false, not, ◌&&◌, ◌||◌, Bytes, bytes, Option, none, some,
  List, [], ◌∷◌, ◌++◌, if◌then◌else◌, eqb, is_empty, is_prefix, drop, to_string,
}
use cloud_storge_system.Net.Request.{Request, get_header}
use cloud_storge_system.Net.Response.{Response}
use cloud_storge_system.App.Number.{ℤ, int_text}
use cloud_storge_system.App.Json.{Json, str, int, nat, end, member}
use cloud_storge_system.App.World.{
  Env, World, M, Outcome, done, thrown, undefined, pure, throw, ◌>>=◌, ◌>>◌, bind_outcome, try,
  catch_outcome, execute_query, last_insert_id, escape_string, Upload, UploadState, expect_headers,
  expect_content, expect_boundary, complete, Custom, upload, download,
}
use cloud_storge_system.App.Reply.{
  Handled, AfterWrite, unchanged, shutdown, code_message, send_json, send_error,
}
use cloud_storge_system.App.Account.{guarded}
use cloud_storge_system.App.Delete.{upload_path, update_file}
use cloud_storge_system.App.Text.{url_decode, get_file_type}
use cloud_storge_system.App.Upload.{Piece, first_piece, later_piece, apply_piece}

-- A text without a line end, which `.` matches: neither "\n" nor "\r".
unfoldable pub is_one_line : Bytes → Bool
is_one_line [] = true
is_one_line (c ∷ cs) = not (c == 10 || c == 13) && is_one_line cs

-- A match of `boundary=(.+)$` at the front: its group.
abbrev boundary_here : Bytes → Option Bytes
boundary_here text =
    let rest = drop 9 text in
    if is_prefix (bytes "boundary=") text && (not (is_empty rest) && is_one_line rest)
    then some rest
    else none

abbrev or_later : Option Bytes → Option Bytes → Option Bytes
or_later none later = later
or_later (some x) later = some x

-- std::regex_search of `boundary=(.+)$`.
unfoldable pub find_boundary : Bytes → Option Bytes
unfolding is_prefix is_one_line
find_boundary [] = none
find_boundary (c ∷ cs) = or_later (boundary_here (c ∷ cs)) (find_boundary cs)

-- A match of `([^"]+)"` at the front, with what it has already read.
abbrev quoted_group : Bytes → Option Bytes
quoted_group [] = none
quoted_group (c ∷ cs) = some (c ∷ cs)

unfoldable pub until_quote : Bytes → Option Bytes
until_quote [] = none
until_quote (c ∷ cs) =
    let rest : Option Bytes = elim (until_quote cs) [ none ↦ none | some t ↦ some (c ∷ t) ] in
    if c == 34 then some [] else rest

abbrev name_here : Bytes → Option Bytes
name_here text =
    if is_prefix (bytes "filename=" ++ (34 ∷ [])) text
    then elim (until_quote (drop 10 text)) [ none ↦ none | some t ↦ quoted_group t ]
    else none

-- A match of `.*filename="([^"]+)"` at the front: the star takes as much as it can.
unfoldable pub name_in_line : Bytes → Option Bytes
unfolding is_prefix until_quote
name_in_line [] = none
name_in_line (c ∷ cs) =
    let later = name_in_line cs in
    if c == 10 || c == 13 then name_here (c ∷ cs) else or_later later (name_here (c ∷ cs))

-- std::regex_search of `Content-Disposition:.*filename="([^"]+)"`.
unfoldable pub find_filename : Bytes → Option Bytes
unfolding name_in_line is_prefix
find_filename [] = none
find_filename (c ∷ cs) =
    let later = find_filename cs in
    if is_prefix (bytes "Content-Disposition:") (c ∷ cs)
    then or_later (name_in_line (drop 20 (c ∷ cs))) later
    else later

-- `fs::path(name).filename()`: the text behind the last slash.
abbrev behind_slash : Bytes → Option Bytes → Option Bytes
behind_slash cs none = some cs
behind_slash cs (some rest) = some rest

unfoldable pub last_part : Bytes → Option Bytes
last_part [] = none
last_part (c ∷ cs) = let rest = last_part cs in if c == b'/' then behind_slash cs rest else rest

abbrev pub base_name : Bytes → Bytes
base_name path = elim (last_part path) [ none ↦ path | some name ↦ name ]

module _ (env : Env) where
  -- `generateUniqueFilename(prefix)`.
  unfoldable pub unique_filename : Bytes → M Bytes
  unique_filename prefix w = (
    done (
        prefix
        ++ bytes "_"
        ++ to_string (env.clock w.draws)
        ++ bytes "_"
        ++ to_string (1000 + env.draw w.draws % 9000)),
    record w { draws = w.draws + 1 },
  )

  -- The constructor of FileUploadContext: the file is created, or emptied.
  unfoldable pub create_upload : Bytes → Bytes → M Upload
  create_upload filename original w =
      let u : Upload = record {
        filename = filename;
        original_filename = original;
        total_bytes = 0;
        state = expect_headers;
        boundary = [];
      } in
      if env.can_create filename
      then (done u, record w { files = update_file w.files filename (some []) })
      else (thrown (bytes "Failed to open file: " ++ filename), w)

  abbrev set_upload : Upload → M (Unit {0})
  set_upload u w = (done tt, record w { custom = some (upload u) })

  abbrev apply_outcome : Upload → Outcome Piece → M Upload
  apply_outcome u (thrown e) w = (thrown e, w)
  apply_outcome u undefined w = (undefined, w)
  apply_outcome u (done p) w =
      let (u', w') = apply_piece p u w in (done u', record w' { custom = some (upload u') })

  -- The first request of an upload, once the name of the file is known.
  unfoldable pub start_upload : Bytes → Bytes → Bytes → M Upload
  unfolding first_piece
  start_upload boundary original body = do
    name ← unique_filename (bytes "upload")
    u ← create_upload (upload_path name) original
    set_upload (record u { boundary = boundary })
    apply_outcome (record u { boundary = boundary }) (first_piece boundary body)

  -- A later request: an empty body changes nothing.
  unfoldable pub continue_upload : Upload → Bytes → M Upload
  unfolding later_piece
  continue_upload u [] = pure u
  continue_upload u (c ∷ cs) = apply_outcome u (done (later_piece u.state u.boundary (c ∷ cs)))

  abbrev insert_file_query : Bytes → Bytes → ℕ → Bytes → ℤ → Bytes
  insert_file_query name original size type user =
      bytes
        "INSERT INTO files (filename, original_filename, file_size, file_type, user_id) VALUES ('"
      ++ name
      ++ bytes "', '"
      ++ original
      ++ bytes "', "
      ++ to_string size
      ++ bytes ", '"
      ++ type
      ++ bytes "', "
      ++ int_text user
      ++ bytes ")"

  abbrev upload_answer : Upload → ℤ → Json
  upload_answer u id = code_message 0 (bytes "上传成功") (
      member (bytes "fileId") (int id) (
        member (bytes "filename") (str (base_name u.filename)) (
          member (bytes "originalFilename") (str u.original_filename)
            (member (bytes "size") (nat u.total_bytes) end))))

  abbrev forget_context : M (Unit {0})
  forget_context w = (done tt, record w { custom = none })

  -- The row for the file, whatever the statement answers, and the answer.
  unfoldable pub finish_upload : Upload → ℤ → Response → M Handled
  unfolding last_part get_file_type
  finish_upload u user r w =
      let query =
        insert_file_query (escape_string env (base_name u.filename) w)
          (escape_string env u.original_filename w) u.total_bytes
          (escape_string env (get_file_type u.original_filename) w) user in
      (do
        execute_query env query
        id ← last_insert_id env
        forget_context
        pure (record (send_json env (upload_answer u id) r) { body_cleared = true }))
        w

  -- More is to come: no answer yet.
  abbrev waiting : Response → Handled
  waiting r = record { sync = false; response = r; after_write = unchanged; body_cleared = true }

  abbrev is_complete_state : UploadState → Bool
  is_complete_state complete = true
  is_complete_state _ = false

  unfoldable pub answer_upload : ℤ → Response → Upload → M Handled
  answer_upload user r u w =
      if is_complete_state u.state || w.got_all
      then finish_upload u user r w
      else pure (waiting r) w

  -- An upload context or an answer.
  abbrev or_answer :
      (Upload → M Handled) → Handled → Outcome Upload × World → Outcome Handled × World
  or_answer f h (done u, w) = f u w
  or_answer f h (thrown e, w) = (done h, w)
  or_answer f h (undefined, w) = (undefined, w)

  abbrev start_named : Bytes → Bytes → Bytes → ℤ → Response → M Handled
  start_named boundary original body user r w =
      or_answer (answer_upload user r) (send_error env (bytes "Failed to create file") 500 r)
        (start_upload boundary original body w)

  abbrev name_or_unknown : Option Bytes → Bytes
  name_or_unknown none = bytes "unknown_file"
  name_or_unknown (some name) = name

  -- The name of the file, from the header X-File-Name or from the body.
  abbrev name_upload : Bytes → Bytes → Bytes → ℤ → Response → M Handled
  name_upload boundary [] [] user r = pure (send_error env (bytes "Request body is empty") 400 r)
  name_upload boundary [] (c ∷ cs) user r =
      start_named boundary (name_or_unknown (find_filename (c ∷ cs))) (c ∷ cs) user r
  name_upload boundary (c ∷ cs) body user r =
      start_named boundary (url_decode env.junk (c ∷ cs)) body user r

  abbrev bounded_upload : Option Bytes → Request → ℤ → Response → M Handled
  bounded_upload none req user r = pure (send_error env (bytes "Invalid Content-Type") 400 r)
  bounded_upload (some b) req user r =
      name_upload (bytes "--" ++ b) (get_header (bytes "X-File-Name") req) req.body user r

  -- The branch without an upload context.
  unfoldable pub first_upload : Request → ℤ → Response → M Handled
  unfolding find_boundary find_filename
  first_upload req user r =
      let type = get_header (bytes "Content-Type") req in
      if is_empty type
      then pure (send_error env (bytes "Content-Type header is missing") 400 r)
      else bounded_upload (find_boundary type) req user r

  abbrev upload_of : Option Custom → Request → ℤ → Response → M Handled
  upload_of none req user r w = first_upload req user r w
  upload_of (some (upload u)) req user r w =
      or_answer (answer_upload user r) (send_error env (bytes "Failed to process data") 500 r)
        (continue_upload u req.body w)
  upload_of (some (download d)) req user r w = (undefined, w)

  -- What `handleFileUpload` does behind its session check.
  unfoldable pub upload_body : Request → Response → ℤ → M Handled
  upload_body req r user w =
      if w.has_context
      then upload_of w.custom req user r w
      else pure (send_error env (bytes "Internal Server Error") 500 r) w

  -- `handleFileUpload`.
  unfoldable pub handle_file_upload : Request → Response → M Handled
  handle_file_upload req r = guarded env req r (upload_body req r)
