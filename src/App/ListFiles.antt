-- ===== src/App/ListFiles.antt =====
-- The handler `handleListFiles`: the files of the user, with the share of each one that the user owns.
pub mod Private
use cloud_storge_system.Common.{
  ℕ, Bool, true, false, Bytes, bytes, Option, none, some, List, [], ◌∷◌, ◌++◌, if◌then◌else◌, eqb,
}
use cloud_storge_system.Net.Request.{Request, get_query}
use cloud_storge_system.Net.Response.{Response}
use cloud_storge_system.App.Number.{ℤ, pos, int_eqb, int_text, stoull}
use cloud_storge_system.App.Json.{
  Json, str, int, nat, bool, arr, Items, nil, Members, end, member, obj, push_back,
}
use cloud_storge_system.App.World.{
  Env, Row, M, done, thrown, pure, ◌>>=◌, query_rows, column, text_of, int_of, text_or_blank,
}
use cloud_storge_system.App.Reply.{Handled, code_message, send_json}
use cloud_storge_system.App.Session.{first_row}
use cloud_storge_system.App.Account.{guarded}

-- `std::stoull(text)`.
abbrev pub size_of : Bytes → M ℕ
size_of text w = elim (stoull text) [ none ↦ (thrown (bytes "stoull"), w) | some n ↦ (done n, w) ]

-- The query for a list type; an unknown type sends an empty statement.
unfoldable pub list_query : Bytes → ℤ → Bytes
unfolding eqb int_text
list_query kind user =
    let id = int_text user in
    if eqb kind (bytes "my")
    then bytes
        "SELECT f.id, f.filename, f.original_filename, f.file_size, f.file_type, f.created_at, 1 as is_owner FROM files f WHERE f.user_id = "
      ++ id
    else if eqb kind (bytes "shared")
    then bytes
        "SELECT f.id, f.filename, f.original_filename, f.file_size, f.file_type, f.created_at, 0 as is_owner FROM files f JOIN file_shares fs ON f.id = fs.file_id WHERE (fs.shared_with_id = "
      ++ id
      ++ bytes " OR fs.share_type = 'public') AND f.user_id != "
      ++ id
    else if eqb kind (bytes "all")
    then bytes
        "SELECT f.id, f.filename, f.original_filename, f.file_size, f.file_type, f.created_at, CASE WHEN f.user_id = "
      ++ id
      ++ bytes
          " THEN 1 ELSE 0 END as is_owner FROM files f LEFT JOIN file_shares fs ON f.id = fs.file_id WHERE f.user_id = "
      ++ id
      ++ bytes " OR fs.shared_with_id = "
      ++ id
      ++ bytes " OR fs.share_type = 'public'"
    else []

abbrev text_member : Bytes → Option Bytes → Members → Members
text_member key none more = more
text_member key (some s) more = member key (str s) more

abbrev member_if : Bool → Bytes → Option Bytes → Members → Members
member_if false key text more = more
member_if true key text more = text_member key text more

module _ (env : Env) where
  abbrev info_query : ℤ → Bytes
  info_query file =
      bytes
        "SELECT share_type, shared_with_id, share_code, expire_time, extract_code FROM file_shares WHERE file_id = "
      ++ int_text file

  -- The user that a share is for.
  abbrev receiver_row : ℤ → Members → Option Row → M Members
  receiver_row user more none = pure more
  receiver_row user more (some row) = do
    c ← column 0 row
    name ← text_of c
    pure (
        member (bytes "sharedWithUsername") (str name)
          (member (bytes "sharedWithId") (int user) more))

  abbrev receiver_members : Bool → Option Bytes → Members → M Members
  receiver_members true (some text) more = do
    user ← int_of text
    found ← query_rows env (bytes "SELECT username FROM users WHERE id = " ++ int_text user)
    receiver_row user more (first_row found)
  receiver_members _ _ more = pure more

  -- `shareInfo`, from the first row of the shares of a file.
  unfoldable pub share_info : Option Row → M (Option Json)
  unfolding query_rows
  share_info none = pure none
  share_info (some row) = do
    c0 ← column 0 row
    kind ← text_of c0
    code ← column 2 row
    extract ← column 4 row
    receiver ← column 1 row
    expire ← column 3 row
    more ←
        receiver_members (eqb kind (bytes "user")) receiver
          (text_member (bytes "expireTime") expire end)
    pure (
        some (
          obj (
            member (bytes "type") (str kind) (
              member (bytes "shareCode") (str (text_or_blank code))
                (member_if (eqb kind (bytes "protected")) (bytes "extractCode") extract more)))))

  abbrev pub info_of : Bool → ℤ → M (Option Json)
  info_of false file = pure none
  info_of true file = do found ← query_rows env (info_query file); share_info (first_row found)

  abbrev pub info_member : Option Json → Members
  info_member none = end
  info_member (some j) = member (bytes "shareInfo") j end

  -- One row of the list.
  unfoldable pub file_info : Row → M Json
  unfolding share_info
  file_info row = do
    c0 ← column 0 row
    t0 ← text_of c0
    id ← int_of t0
    c1 ← column 1 row
    name ← text_of c1
    c2 ← column 2 row
    original ← text_of c2
    c3 ← column 3 row
    t3 ← text_of c3
    size ← size_of t3
    c4 ← column 4 row
    type ← text_of c4
    c5 ← column 5 row
    created ← text_of c5
    c6 ← column 6 row
    t6 ← text_of c6
    flag ← int_of t6
    info ← info_of (int_eqb flag (pos 1)) id
    pure (
        obj (
          member (bytes "id") (int id) (
            member (bytes "name") (str name) (
              member (bytes "originalName") (str original) (
                member (bytes "size") (nat size) (
                  member (bytes "type") (str type) (
                    member (bytes "createdAt") (str created) (
                      member (bytes "isOwner") (bool (int_eqb flag (pos 1)))
                        (info_member info)))))))))

  -- The loop over the rows.
  unfoldable pub list_rows : List Row → Items → M Items
  list_rows [] files = pure files
  list_rows (row ∷ rs) files = do file ← file_info row; list_rows rs (push_back files file)

  abbrev list_members : Option (List Row) → M Members
  list_members none = pure end
  list_members (some rs) = do
    files ← list_rows rs nil
    pure (member (bytes "files") (arr files) end)

  abbrev list_files : Request → Response → ℤ → M Handled
  list_files req r user = do
    found ← query_rows env (list_query (get_query env.junk (bytes "type") (bytes "my") req) user)
    more ← list_members found
    pure (send_json env (code_message 0 (bytes "Success") more) r)

  -- `handleListFiles`.
  unfoldable pub handle_list_files : Request → Response → M Handled
  handle_list_files req r = guarded env req r (list_files req r)
