-- ===== src/App/Examples.antt =====
-- The theorems on the file server, each at a concrete input.
use cloud_storge_system.Common.{
  ◌-◌, ◌≡◌, ◌≢◌, refl, ap, true, false, Bytes, bytes, some, none, List, [], ◌∷◌, ◌++◌, map,
  to_lower, if◌then◌else◌, leb, drop, take, length, find, is_prefix, eqb, to_string, lookup, All,
  arith,
}
use cloud_storge_system.Net.Request.{
  Request, empty_request, get_header, get_query, get_path_param, url_decode,
}
use cloud_storge_system.Net.Response.{Response, make as make_response}
use cloud_storge_system.App.Number.{ℤ, stoi}
use cloud_storge_system.App.World.{
  Env, World, Reply, rows, no_result, failed, done, Upload, expect_boundary, complete, Download,
}
use cloud_storge_system.App.Session.{generate_share_code, validate_session}
use cloud_storge_system.App.Text.{get_file_type, type_of_extension}
use cloud_storge_system.App.Text.FileType.{get_file_type-extension}
use cloud_storge_system.App.Account.{handle_search_users, refuse_session}
use cloud_storge_system.App.Delete.{
  handle_delete, upload_path, mapping_file, delete_owned, deleted, delete_file_query,
  delete_shares_query,
}
use cloud_storge_system.App.Delete.Owned.{asked, Safe, delete_owned-Safe, delete_owned-deletes}
use cloud_storge_system.App.Share.{handle_share_file}
use cloud_storge_system.App.ListFiles.{handle_list_files, list_rows}
use cloud_storge_system.App.ListFiles.Private.{Quiet, AllHide, list_rows-Quiet}
use cloud_storge_system.App.Json.{nil}
use cloud_storge_system.App.ShareAccess.{access_row}
use cloud_storge_system.App.ShareAccess.Columns.{ShareRow, FileRow, joined_row, access_row-thrown}
use cloud_storge_system.App.Routes.{
  routes, find_route, share_access, share_download, share_info, download_file, delete_file,
}
use cloud_storge_system.App.Routes.Reach.{find_route-group}
use cloud_storge_system.Net.Request.{get, head, delete}
use cloud_storge_system.App.World.{thrown, stoi_what, Row}
use cloud_storge_system.App.ShareAccess.{code_length_ok, code_chars_ok}
use cloud_storge_system.App.ShareAccess.Codes.{generate_share_code-accepted}
use cloud_storge_system.App.FileUpload.{handle_file_upload, start_upload}
use cloud_storge_system.App.FileUpload.Pieces.{
  Holds, Leaves, texts, continue_all, continue_all-Leaves,
}
use cloud_storge_system.App.FileUpload.Start.{part_body, start_upload-whole}
use cloud_storge_system.App.Guard.{after_query, handlers-anonymous, handlers-expired}
use cloud_storge_system.App.Permission.{Viewer}
use cloud_storge_system.App.Permission.Policy.{MayRead}
use cloud_storge_system.App.Download.{Found, viewer_of, handle_download, handle_share_download}
use cloud_storge_system.App.Download.Access.{
  Columns, row_of, found_in, Served, by_share, extract_code, asked as asked_file, share_asked,
  handle_download-Served, handle_share_download-Served,
}
use cloud_storge_system.App.Range.{part, unsatisfiable, parse_range, send_all}
use cloud_storge_system.App.Range.Chunks.{Opened, IsChunk, joined, send_all-joined}
use cloud_storge_system.App.Range.Header.{parse_range-positions}

-- A database in which every user owns file 7, and nobody has a session.
unfoldable answer_of : List Bytes → Reply
unfolding is_prefix
answer_of [] = failed
answer_of (q ∷ qs) =
    if is_prefix (bytes "SELECT id FROM files") q
    then rows ((some (bytes "7") ∷ []) ∷ [])
    else if is_prefix (bytes "DELETE") q
    then no_result
    else rows []

abbrev here : Env
here = record {
  answer = answer_of;
  insert_id = λ _. ℤ.pos 1;
  escape = λ s. s;
  parse_json = λ _. none;
  dump = λ _. [];
  what = bytes "json";
  parse_mapping = λ _. none;
  dump_mapping = λ _. [];
  hash = λ s. s;
  draw = λ n. n;
  clock = λ _. 1700000000000;
  can_create = λ _. true;
  can_unlink = λ _. true;
  root = bytes "/srv";
  junk = λ _. 0;
}

-- A server whose upload directory has the file "a".
abbrev at_start : World
at_start = record {
  queries = [];
  connected = true;
  files = λ p. if eqb (bytes "uploads/a") p then some (bytes "hello") else none;
  draws = 0;
  mapping = (bytes "a", bytes "a.txt") ∷ [];
  has_context = true;
  got_all = false;
  custom = none;
}

abbrev blank : Response
blank = make_response false

abbrev stranger : Request
stranger = record empty_request { headers = (bytes "X-Session-ID", bytes "0") ∷ [] }

-- A file of user 1, under a share with the extract code K7, and a guest who knows the code.
abbrev protected_file : Columns
protected_file = record {
  id = bytes "7";
  server = bytes "a";
  original = bytes "a.txt";
  owner = bytes "1";
  kind = some (bytes "protected");
  shared_with = none;
  extract_code = some (bytes "K7");
  others = none ∷ none ∷ [];
}

abbrev sharing : Env
sharing = record here { answer = λ _. rows (row_of protected_file ∷ []) }

abbrev visit : Request
visit = record empty_request {
  query = bytes "?code=s&extract_code=K7";
  path_params = (bytes "filename", bytes "a") ∷ [];
}

abbrev file_for_guest : Found
file_for_guest = found_in protected_file (ℤ.pos 1) (ℤ.pos 0)

handle_download-Served_example :
    Served sharing file_for_guest
      (extract_code sharing visit)
      visit
      blank
      (MayRead
        (by_share sharing visit)
        file_for_guest.grant
        (viewer_of none)
        (extract_code sharing visit))
      (handle_download sharing visit blank at_start)
      (asked_file sharing visit at_start)
unfolding stoi get_path_param get_query url_decode validate_session get_header
handle_download-Served_example =
    handle_download-Served sharing visit blank protected_file (ℤ.pos 7) (ℤ.pos 1) (ℤ.pos 0) refl
      refl refl at_start at_start none [] refl refl refl refl refl

handle_share_download-Served_example :
    Served sharing file_for_guest
      (extract_code sharing visit)
      visit
      blank
      (MayRead true file_for_guest.grant (viewer_of none) (extract_code sharing visit))
      (handle_share_download sharing visit blank at_start)
      (share_asked sharing visit at_start)
unfolding stoi get_path_param get_query url_decode validate_session get_header
handle_share_download-Served_example =
    handle_share_download-Served sharing visit blank protected_file (ℤ.pos 7) (ℤ.pos 1) (ℤ.pos 0)
      refl refl refl at_start at_start none [] (bytes "protected") refl refl refl refl refl refl

abbrev guest : Viewer
guest = record { authenticated = false; user = ℤ.pos 0 }

abbrev opened : Download
opened = record {
  filepath = bytes "uploads/a";
  original_filename = bytes "a.txt";
  file_size = 5;
  position = 2;
  is_complete = false;
}

opened-Opened : Opened (bytes "hello") opened
opened-Opened = record { sized = refl; small = omega arith; inside = omega arith; running = refl }

send_all-joined_example :
    (joined (send_all 4 (bytes "hello") opened).0 ≡ drop 2 (bytes "hello"))
    × ((send_all 4 (bytes "hello") opened).1 ≡ true)
    × All IsChunk (send_all 4 (bytes "hello") opened).0
send_all-joined_example = send_all-joined 4 (bytes "hello") opened opened-Opened (omega arith)

parse_range-positions_example :
    parse_range (bytes "bytes=" ++ (to_string 2 ++ 45 ∷ to_string 99)) 5
    ≡ (if leb 5 2 then unsatisfiable else part 2 (if leb 5 99 then 5 - 1 else 99))
parse_range-positions_example = parse_range-positions 2 99 5 (omega arith) (omega arith)

get_file_type-extension_example :
    (get_file_type (bytes "a.b" ++ 46 ∷ b'P' ∷ bytes "NG")
      ≡ type_of_extension (map to_lower (b'P' ∷ bytes "NG")))
    × (get_file_type (b'P' ∷ bytes "NG") ≡ bytes "unknown")
    × (get_file_type (bytes "a.b" ++ 46 ∷ []) ≡ bytes "unknown")
get_file_type-extension_example =
    get_file_type-extension (bytes "a.b") b'P' (bytes "NG")
      (omega arith, (omega arith, (omega arith, tt)))

generate_share_code-accepted_example :
    (code : Bytes) × (w' : World) × (generate_share_code here at_start ≡ (done code, w'))
    × (code_length_ok code ≡ true)
    × (code_chars_ok code ≡ true)
generate_share_code-accepted_example = generate_share_code-accepted here at_start

handlers-anonymous_example :
    (handle_file_upload here empty_request blank at_start
      ≡ (done (refuse_session here blank), at_start))
    × (handle_delete here empty_request blank at_start
        ≡ (done (refuse_session here blank), at_start))
    × (handle_share_file here empty_request blank at_start
        ≡ (done (refuse_session here blank), at_start))
    × (handle_list_files here empty_request blank at_start
        ≡ (done (refuse_session here blank), at_start))
    × (handle_search_users here empty_request blank at_start
        ≡ (done (refuse_session here blank), at_start))
unfolding get_header
handlers-anonymous_example = handlers-anonymous here empty_request blank at_start refl

handlers-expired_example :
    (handle_file_upload here stranger blank at_start
      ≡ (done (refuse_session here blank), after_query here (bytes "0") at_start))
    × (handle_delete here stranger blank at_start
        ≡ (done (refuse_session here blank), after_query here (bytes "0") at_start))
    × (handle_share_file here stranger blank at_start
        ≡ (done (refuse_session here blank), after_query here (bytes "0") at_start))
    × (handle_list_files here stranger blank at_start
        ≡ (done (refuse_session here blank), after_query here (bytes "0") at_start))
    × (handle_search_users here stranger blank at_start
        ≡ (done (refuse_session here blank), after_query here (bytes "0") at_start))
unfolding get_header answer_of eqb
handlers-expired_example = handlers-expired here stranger blank b'0' [] at_start refl refl refl

delete_owned-Safe_example :
    Safe here
      (bytes "a")
      blank
      (ℤ.pos 3)
      at_start
      (delete_owned here (bytes "a") blank (ℤ.pos 3) at_start)
delete_owned-Safe_example = delete_owned-Safe here (bytes "a") blank (ℤ.pos 3) at_start

abbrev asked_here : List Bytes
asked_here = asked here (bytes "a") blank (ℤ.pos 3) at_start refl refl

upload_path-other : upload_path (bytes "a") ≢ mapping_file
upload_path-other e = omega (arith, ap length e)

delete_owned-deletes_example :
    (w' : World) × (delete_owned here (bytes "a") blank (ℤ.pos 3) at_start
      ≡ (done (deleted here blank), w'))
    × (w'.queries
        ≡ delete_file_query here (ℤ.pos 7) ∷ delete_shares_query here (ℤ.pos 7) ∷ asked_here)
    × (w'.files (upload_path (bytes "a")) ≡ none)
    × (lookup (bytes "a") w'.mapping ≡ none)
unfolding answer_of stoi is_prefix eqb
delete_owned-deletes_example =
    delete_owned-deletes here (bytes "a") blank (ℤ.pos 3) at_start refl refl (bytes "7") [] []
      (ℤ.pos 7) (bytes "hello") refl refl refl refl refl upload_path-other

abbrev begun : Upload
begun = record {
  filename = bytes "uploads/a";
  original_filename = bytes "a.txt";
  total_bytes = 5;
  state = expect_boundary;
  boundary = bytes "--x";
}

begun-Holds : Holds (bytes "hello") begun at_start
unfolding eqb
begun-Holds = record { stored = refl; counted = refl }

continue_all-Leaves_example :
    Leaves
      (bytes "hello" ++ (texts here (bytes " to" ∷ []) ++ take 4 (bytes " you--x--")))
      complete
      (bytes "--x")
      (continue_all here ((bytes " to" ∷ []) ++ bytes " you--x--" ∷ []) begun at_start)
unfolding find is_prefix
continue_all-Leaves_example =
    continue_all-Leaves here (bytes "hello") (bytes " to" ∷ []) (bytes " you--x--") 4 begun at_start
      begun-Holds refl (((λ e. omega (arith, ap length e)), refl, refl), tt) refl

start_upload-whole_example : Leaves (bytes "hi" ++ (13 ∷ 10 ∷ [])) complete (bytes "--x") (
    start_upload here
      (bytes "--x")
      (bytes "a.txt")
      (part_body (bytes "--x") (bytes "--x") (bytes "hi") (13 ∷ 10 ∷ []))
      at_start)
unfolding find is_prefix
start_upload-whole_example =
    start_upload-whole here (λ _. refl) (bytes "--x") (bytes "a.txt") (bytes "--x") (bytes "hi")
      (13 ∷ 10 ∷ []) at_start refl refl

abbrev foreign_row : Row
foreign_row =
    some (bytes "7")
    ∷ some (bytes "a")
    ∷ some (bytes "a.txt")
    ∷ some (bytes "5")
    ∷ some (bytes "text")
    ∷ some (bytes "2024")
    ∷ some (bytes "0")
    ∷ []

list_rows-Quiet_example :
    Quiet AllHide at_start (list_rows here (foreign_row ∷ foreign_row ∷ []) nil at_start)
list_rows-Quiet_example =
    list_rows-Quiet here (foreign_row ∷ foreign_row ∷ []) nil at_start (refl, (refl, tt)) tt

abbrev share_row : ShareRow
share_row = record {
  id = bytes "1";
  file = bytes "7";
  owner = bytes "3";
  shared_with = none;
  kind = bytes "public";
  code = bytes "0123456789abcdefghijklmnopqrstuv";
  expires = none;
  created = some (bytes "2024");
  extract_code = none;
}

abbrev shared_file : FileRow
shared_file = record {
  filename = bytes "a";
  original = bytes "a.txt";
  size = bytes "5";
  type = some (bytes "text");
  username = bytes "anna";
  user = bytes "3";
}

access_row-thrown_example :
    access_row here guest share_row.code [] blank (some (joined_row share_row shared_file)) at_start
    ≡ (thrown stoi_what, at_start)
unfolding stoi
access_row-thrown_example =
    access_row-thrown here guest share_row.code [] blank share_row shared_file at_start refl

find_route-group_example :
    (find_route routes get (bytes "/share/" ++ b'a' ∷ bytes "1")
      ≡ some (share_access, (bytes "code", b'a' ∷ bytes "1") ∷ []))
    × (find_route routes get (bytes "/share/download/" ++ b'a' ∷ bytes "1")
        ≡ some (share_download, (bytes "filename", b'a' ∷ bytes "1") ∷ []))
    × (find_route routes get (bytes "/share/info/" ++ b'a' ∷ bytes "1")
        ≡ some (share_info, (bytes "code", b'a' ∷ bytes "1") ∷ []))
    × (find_route routes head (bytes "/download/" ++ b'a' ∷ bytes "1")
        ≡ some (download_file, (bytes "filename", b'a' ∷ bytes "1") ∷ []))
    × (find_route routes get (bytes "/download/" ++ b'a' ∷ bytes "1")
        ≡ some (download_file, (bytes "filename", b'a' ∷ bytes "1") ∷ []))
    × (find_route routes delete (bytes "/delete/" ++ b'a' ∷ bytes "1")
        ≡ some (delete_file, (bytes "filename", b'a' ∷ bytes "1") ∷ []))
find_route-group_example = find_route-group b'a' (bytes "1") (omega arith, (omega arith, tt))
