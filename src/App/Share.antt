-- ===== src/App/Share.antt =====
-- The handler `handleShareFile`: a new share of a file.
use cloud_storge_system.Common.{
  ◌==◌, Bool, true, false, Bytes, bytes, Option, none, some, [], ◌++◌, if◌then◌else◌, eqb,
}
use cloud_storge_system.Net.Request.{Request}
use cloud_storge_system.Net.Response.{Response}
use cloud_storge_system.App.Number.{ℤ, pos, negsuc, int_text}
use cloud_storge_system.App.Json.{Json, null, str, int, nat, Members, end, member, get_member}
use cloud_storge_system.App.World.{
  Env, M, pure, throw, ◌>>=◌, ◌>>◌, try, execute_query, query_rows, last_insert_id, escape_string,
  stoi_what,
}
use cloud_storge_system.App.Reply.{Handled, code_message, send_json, send_error}
use cloud_storge_system.App.Session.{generate_share_code, generate_extract_code}
use cloud_storge_system.App.Account.{parse_body, get_text, guarded, has_row}

-- The SQL values of a new share: the identifier of its receiver, the quoted extract code, the time
-- when it ends.
pub record Terms : Type 0 where
  pub receiver : Option ℤ
  pub extract_code : Option Bytes
  pub expiry : Bytes

abbrev receiver_text : Option ℤ → Bytes
receiver_text none = bytes "NULL"
receiver_text (some n) = int_text n

abbrev code_text : Option Bytes → Bytes
code_text none = bytes "NULL"
code_text (some c) = bytes "'" ++ c ++ bytes "'"

module _ (env : Env) where
  abbrev as_int : Option Json → M ℤ
  as_int (some (int n)) = pure n
  as_int (some (nat n)) = pure (pos n)
  as_int _ = throw env.what

  -- `int n = data[key]`. A number that is not an integer is outside the model.
  abbrev pub get_int : Bytes → Json → M ℤ
  get_int key j = as_int (get_member key j)

  abbrev pub owner_query : ℤ → ℤ → Bytes
  owner_query file user =
      bytes "SELECT 1 FROM files WHERE id = "
      ++ int_text file
      ++ bytes " AND user_id = "
      ++ int_text user

  abbrev hours_text : ℤ → Bytes
  hours_text (pos n) =
      if n == 0
      then bytes "NULL"
      else bytes "DATE_ADD(NOW(), INTERVAL " ++ int_text (pos n) ++ bytes " HOUR)"
  hours_text (negsuc n) = bytes "NULL"

  abbrev expiry_of : Option Json → M Bytes
  expiry_of none = pure (bytes "NULL")
  expiry_of (some null) = pure (bytes "NULL")
  expiry_of (some j) = do hours ← as_int (some j); pure (hours_text hours)

  abbrev receiver_query : ℤ → ℤ → Bytes
  receiver_query file receiver =
      bytes "SELECT 1 FROM file_shares WHERE file_id = "
      ++ int_text file
      ++ bytes " AND shared_with_id = "
      ++ int_text receiver
      ++ bytes " AND share_type = 'user'"

  abbrev pub share_query : ℤ → ℤ → Bytes → Bytes → Terms → Bytes
  share_query file user kind code t =
      bytes
        "INSERT INTO file_shares (file_id, owner_id, shared_with_id, share_type, share_code, extract_code, expire_time) VALUES ("
      ++ int_text file
      ++ bytes ", "
      ++ int_text user
      ++ bytes ", "
      ++ receiver_text t.receiver
      ++ bytes ", '"
      ++ kind
      ++ bytes "', '"
      ++ code
      ++ bytes "', "
      ++ code_text t.extract_code
      ++ bytes ", "
      ++ t.expiry
      ++ bytes ")"

  abbrev own_code : Option Bytes → Bytes
  own_code none = []
  own_code (some c) = c

  abbrev shared_json : ℤ → Bytes → Bytes → Members → Json
  shared_json id kind code more = code_message 0 (bytes "分享成功") (
      member (bytes "shareId") (int id) (
        member (bytes "shareType") (str kind) (
          member (bytes "shareCode") (str code)
            (member (bytes "shareLink") (str (bytes "/share/" ++ code)) more))))

  abbrev receiver_member : Option ℤ → M Members
  receiver_member none = throw stoi_what
  receiver_member (some n) = pure (member (bytes "sharedWithId") (int n) end)

  -- The members that depend on the type: `std::stoi("NULL")` throws.
  abbrev type_members : Bytes → Terms → M Members
  type_members kind t =
      if eqb kind (bytes "user")
      then receiver_member t.receiver
      else if eqb kind (bytes "protected")
      then pure (member (bytes "extractCode") (str (own_code t.extract_code)) end)
      else pure end

  abbrev share_created : Bytes → Bytes → Terms → Response → Bool → M Handled
  share_created kind code t r false = pure (send_error env (bytes "创建分享失败") 500 r)
  share_created kind code t r true = do
    id ← last_insert_id env
    more ← type_members kind t
    pure (send_json env (shared_json id kind code more) r)

  abbrev insert_share : ℤ → ℤ → Bytes → Bytes → Response → Terms → M Handled
  insert_share file user kind code r t w =
      (do
        inserted ←
            execute_query env
              (share_query file user (escape_string env kind w) (escape_string env code w) t)
        share_created kind code t r inserted)
        w

  abbrev share_with : ℤ → ℤ → Bytes → Bytes → Bytes → Response → ℤ → M Handled
  share_with file user kind code expiry r receiver = do
    already ← query_rows env (receiver_query file receiver)
    if has_row already
        then pure (send_error env (bytes "已经分享给该用户") 400 r)
        else insert_share file user kind code r
            (record { receiver = some receiver; extract_code = none; expiry = expiry })

  abbrev share_user : ℤ → ℤ → Bytes → Bytes → Bytes → Response → Option Json → M Handled
  share_user file user kind code expiry r none =
      insert_share file user kind code r
        (record { receiver = none; extract_code = none; expiry = expiry })
  share_user file user kind code expiry r (some j) = do
    receiver ← as_int (some j)
    share_with file user kind code expiry r receiver

  abbrev share_by_kind : ℤ → ℤ → Bytes → Bytes → Bytes → Json → Response → M Handled
  share_by_kind file user kind code expiry request r =
      if eqb kind (bytes "user")
      then share_user file user kind code expiry r (get_member (bytes "sharedWithId") request)
      else if eqb kind (bytes "protected")
      then (do
        extract ← generate_extract_code env
        insert_share file user kind code r
            (record { receiver = none; extract_code = some extract; expiry = expiry }))
      else insert_share file user kind code r
          (record { receiver = none; extract_code = none; expiry = expiry })

  abbrev pub private_query : ℤ → Bytes
  private_query file = bytes "DELETE FROM file_shares WHERE file_id = " ++ int_text file

  abbrev share_owned : ℤ → ℤ → Bytes → Json → Response → Bool → M Handled
  share_owned file user kind request r false = pure (send_error env (bytes "您没有权限分享此文件") 403 r)
  share_owned file user kind request r true =
      if eqb kind (bytes "private")
      then (do
        execute_query env (private_query file)
        pure (send_json env (code_message 0 (bytes "文件设置为私有成功") end) r))
      else do
        expiry ← expiry_of (get_member (bytes "expireTime") request)
        code ← generate_share_code env
        share_by_kind file user kind code expiry request r

  abbrev pub share_file : Request → Response → ℤ → M Handled
  share_file req r user =
      try
        (do
          request ← parse_body env req.body
          file ← get_int (bytes "fileId") request
          kind ← get_text env (bytes "shareType") request
          owned ← query_rows env (owner_query file user)
          share_owned file user kind request r (has_row owned))
        (λ what. pure (send_error env (bytes "分享失败: " ++ what) 500 r))

  -- `handleShareFile`.
  unfoldable pub handle_share_file : Request → Response → M Handled
  handle_share_file req r = guarded env req r (share_file req r)
