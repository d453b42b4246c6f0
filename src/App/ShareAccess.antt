-- ===== src/App/ShareAccess.antt =====
-- `handleShareAccess` and `handleShareInfo`: what a share link shows of its file.
pub mod Codes
pub mod Columns
use cloud_storge_system.Common.{
  ℕ, suc, ◌+◌, ◌==◌, ltb, leb, Bool, true, false, not, ◌&&◌, ◌||◌, Bytes, bytes, Option, none, some,
  List, [], ◌∷◌, ◌++◌, if◌then◌else◌, eqb, is_empty, is_prefix, length, find, drop, is_digit,
}
use cloud_storge_system.Net.Request.{Request, get_header, get_path_param, get_query}
use cloud_storge_system.Net.Response.{Response, add_header, set_content_type}
use cloud_storge_system.App.Number.{ℤ, pos, int_eqb, stoull}
use cloud_storge_system.App.Json.{Json, bool, str, int, nat, Members, end, member, obj}
use cloud_storge_system.App.World.{
  Env, World, Row, M, Outcome, done, thrown, undefined, pure, throw, ◌>>=◌, ◌>>◌, bind_outcome,
  query_rows, escape_string, column, text_of, int_of, text_or_blank, int_or_zero, null_what,
  stoi_what,
}
use cloud_storge_system.App.Reply.{
  Handled, shutdown, answered, code_message, send_json, send_error, handle_index,
}
use cloud_storge_system.App.Session.{first_row, validate_session}
use cloud_storge_system.App.Account.{session_header}
use cloud_storge_system.App.Permission.{Viewer, Grant, share_permits, refusal}
use cloud_storge_system.App.Download.{viewer_of}

-- The longest text without a slash at the front.
unfoldable pub segment : Bytes → Bytes
segment [] = []
segment (c ∷ cs) = let rest = segment cs in if c == b'/' then [] else c ∷ rest

abbrev some_text : Bytes → Option Bytes
some_text [] = none
some_text (c ∷ cs) = some (c ∷ cs)

-- std::regex_search for `/share/([^/]+)`: the group of the first match.
unfoldable pub search_share : Bytes → Option Bytes
unfolding segment is_prefix
search_share [] = none
search_share (c ∷ cs) =
    let here =
      if is_prefix (bytes "/share/") (c ∷ cs)
      then some_text (segment (drop 7 (c ∷ cs)))
      else none in
    elim here [ none ↦ search_share cs | some code ↦ some code ]

abbrev pub all_of : (ℕ → Bool) → Bytes → Bool
all_of p [] = true
all_of p (c ∷ cs) = p c && all_of p cs

-- The characters that a share code may have.
abbrev pub code_char : ℕ → Bool
code_char c = (leb 97 c && leb c 122) || is_digit c

-- The two checks on the share code; the first message is for its length.
unfoldable pub code_length_ok : Bytes → Bool
code_length_ok code = not (is_empty code) && length code == 32

unfoldable pub code_chars_ok : Bytes → Bool
code_chars_ok code = all_of code_char code

abbrev size_or_zero : Option Bytes → M ℕ
size_or_zero none w = (done 0, w)
size_or_zero (some s) w = elim (stoull s) [
  | none ↦ (thrown (bytes "stoull"), w)
  | some n ↦ (done n, w)
]

abbrev text_or_unknown : Option Bytes → Bytes
text_or_unknown none = bytes "unknown"
text_or_unknown (some s) = s

-- `row[i] && std::stoi(row[i]) == userId`.
abbrev pub owner_flag : Option Bytes → ℤ → M Bool
owner_flag none user = pure false
owner_flag (some s) user = do n ← int_of s; pure (int_eqb n user)

module _ (env : Env) where
  abbrev pub access_query : Bytes → Bytes → Bytes
  access_query code extract =
      bytes
        "SELECT fs.*, f.filename, f.original_filename, f.file_size, f.file_type, u.username as owner_username, f.user_id FROM file_shares fs JOIN files f ON fs.file_id = f.id JOIN users u ON f.user_id = u.id WHERE fs.share_code = '"
      ++ code
      ++ bytes
          "' AND (fs.expire_time IS NULL OR fs.expire_time > NOW()) AND (fs.share_type != 'protected' OR (fs.share_type = 'protected' AND fs.extract_code = '"
      ++ extract
      ++ bytes "'))"

  -- The columns by the numbers that the source gives them.
  abbrev file_json : Bytes → Bytes → Bool → Row → M Json
  file_json kind code owner row = do
    c0 ← column 0 row
    t0 ← text_of c0
    id ← int_of t0
    c1 ← column 1 row
    t1 ← text_of c1
    file ← int_of t1
    c2 ← column 2 row
    t2 ← text_of c2
    owner_id ← int_of t2
    c3 ← column 3 row
    shared ← int_or_zero c3
    c6 ← column 6 row
    c7 ← column 7 row
    c8 ← column 8 row
    c9 ← column 9 row
    c10 ← column 10 row
    size ← size_or_zero c10
    c11 ← column 11 row
    c12 ← column 12 row
    pure (
        code_message 0 (bytes "success") (
          member (bytes "file")
            (obj (
              member (bytes "id") (int id) (
                member (bytes "fileId") (int file) (
                  member (bytes "ownerId") (int owner_id) (
                    member (bytes "sharedWithId") (int shared) (
                      member (bytes "shareType") (str kind) (
                        member (bytes "shareCode") (str code) (
                          member (bytes "createdAt") (str (text_or_blank c6)) (
                            member (bytes "expireTime") (str (text_or_blank c7)) (
                              member (bytes "filename") (str (text_or_blank c8)) (
                                member (bytes "originalName") (str (text_or_blank c9)) (
                                  member (bytes "size") (nat size) (
                                    member (bytes "type") (str (text_or_unknown c11)) (
                                      member (bytes "ownerUsername") (str (text_or_blank c12))
                                        (member (bytes "isOwner") (bool owner) end)))))))))))))))
            (member (bytes "downloadUrl")
              (str (bytes "/share/download/" ++ text_or_blank c8 ++ bytes "?code=" ++ code)) end)))

  abbrev access_permits : Bool → Grant → Viewer → Bytes → Bool
  access_permits owner g v extract = if owner then true else share_permits g v extract

  abbrev json_answer : Response → Json → Handled
  json_answer r j =
      let status =
        set_content_type (bytes "application/json")
          (record r { status_code = 200; status_message = bytes "OK" }) in
      answered
        (add_header (bytes "Connection") (bytes "close") (record status { body = env.dump j }))
        shutdown

  abbrev shown : Bool → Grant → Bytes → Bytes → Bool → Row → Response → M Handled
  shown false g code extract owner row r = pure (send_error env (refusal g extract) 403 r)
  shown true g code extract owner row r = do
    j ← file_json g.share_type code owner row
    pure (json_answer r j)

  -- What is done with a row, by the type of the share and whether the viewer is the owner. The
  -- owner of the `Grant` is not read here.
  abbrev pub access_checked : Viewer → Bytes → Bytes → Response → Row → Bytes → Bool → M Handled
  access_checked v code extract r row kind owner = do
    c3 ← column 3 row
    shared ← int_or_zero c3
    c5 ← column 5 row
    let g : Grant = record {
      owner = pos 0;
      share_type = kind;
      shared_with = shared;
      extract_code = text_or_blank c5;
    }
    shown (access_permits owner g v extract) g code extract owner row r

  -- What is done with the row that was found.
  unfoldable pub access_row : Viewer → Bytes → Bytes → Response → Option Row → M Handled
  access_row v code extract r none = pure (send_error env (bytes "分享链接已失效或不存在") 404 r)
  access_row v code extract r (some row) = do
    c4 ← column 4 row
    kind ← text_of c4
    c13 ← column 13 row
    owner ← owner_flag c13 v.user
    access_checked v code extract r row kind owner

  abbrev access_json : Viewer → Bytes → Request → Response → M Handled
  access_json v code req r w =
      let extract = get_query env.junk (bytes "code") [] req in
      if not (code_length_ok code)
      then pure (send_error env (bytes "无效的分享码格式") 400 r) w
      else if not (code_chars_ok code)
      then pure (send_error env (bytes "分享码包含非法字符") 400 r) w
      else (do
        found ←
            query_rows env (access_query (escape_string env code w) (escape_string env extract w))
        access_row v code extract r (first_row found))
          w

  abbrev has_text : Option ℕ → Bool
  has_text none = false
  has_text (some i) = true

  abbrev wants_json : Request → Bool
  wants_json req =
      eqb (get_header (bytes "X-Requested-With") req) (bytes "XMLHttpRequest")
      || has_text (find (bytes "application/json") (get_header (bytes "Accept") req))

  abbrev share_page : Bytes → Request → Response → M Handled
  share_page code req r = do
    page ← handle_index env req r
    pure (record page { response = add_header (bytes "X-Share-Code") code page.response })

  abbrev access_code : Request → Response → Option Bytes → M Handled
  access_code req r none = pure (send_error env (bytes "无效的分享链接") 400 r)
  access_code req r (some code) = do
    who ← validate_session env (session_header env req)
    if wants_json req then access_json (viewer_of who) code req r else share_page code req r

  -- `handleShareAccess`.
  unfoldable pub handle_share_access : Request → Response → M Handled
  unfolding search_share find
  handle_share_access req r = access_code req r (search_share req.path)

  abbrev pub info_query : Bytes → Bytes
  info_query code =
      bytes
        "SELECT fs.*, f.filename, f.original_filename, f.file_size, f.file_type, u.username as owner_username, f.user_id FROM file_shares fs JOIN files f ON fs.file_id = f.id JOIN users u ON f.user_id = u.id WHERE fs.share_code = '"
      ++ code
      ++ bytes "' AND (fs.expire_time IS NULL OR fs.expire_time > NOW())"

  abbrev info_json :
      Bytes
      → Option Bytes
      → Option Bytes
      → ℕ
      → Option Bytes
      → Option Bytes
      → Option Bytes
      → Row
      → M Json
  info_json kind server original size created expires sized row = do
    c0 ← column 0 row
    t0 ← text_of c0
    id ← int_of t0
    pure (
        code_message 0 (bytes "success") (
          member (bytes "shareType") (str kind) (
            member (bytes "file")
              (obj (
                member (bytes "id") (int id) (
                  member (bytes "name") (str (text_or_blank server)) (
                    member (bytes "originalName") (str (text_or_blank original)) (
                      member (bytes "size") (nat size) (
                        member (bytes "type") (str (text_or_unknown sized)) (
                          member (bytes "shareTime") (str (text_or_blank created))
                            (member (bytes "expireTime") (str (text_or_blank expires)) end))))))))
              end)))

  unfoldable pub info_row : Bytes → Response → Option Row → M Handled
  info_row extract r none = pure (send_error env (bytes "分享链接已失效或不存在") 404 r)
  info_row extract r (some row) = do
    c4 ← column 4 row
    kind ← text_of c4
    c8 ← column 8 row
    server ← column 9 row
    original ← column 10 row
    sized ← column 11 row
    size ← size_or_zero sized
    created ← column 7 row
    expires ← column 6 row
    if eqb kind (bytes "protected") && (is_empty extract || not (eqb extract (text_or_blank c8)))
        then pure (send_error env (bytes "需要正确的提取码") 403 r)
        else (do
          j ← info_json kind server original size created expires sized row
          pure (send_json env j r))

  -- `handleShareInfo`, which needs no session.
  unfoldable pub handle_share_info : Request → Response → M Handled
  handle_share_info req r w =
      let code = get_path_param (bytes "code") req in
      if is_empty code
      then pure (send_error env (bytes "Missing share code") 400 r) w
      else (do
        found ← query_rows env (info_query (escape_string env code w))
        info_row (get_query env.junk (bytes "extract_code") [] req) r (first_row found))
          w
