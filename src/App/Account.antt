-- ===== src/App/Account.antt =====
-- Accounts: `handleRegister`, `handleLogin`, `handleLogout` and `handleSearchUsers`.
use cloud_storge_system.Common.{
  ◌==◌, Bool, true, false, ◌||◌, Bytes, bytes, Option, none, some, List, [], ◌∷◌, ◌++◌,
  if◌then◌else◌, is_empty, is_prefix, drop,
}
use cloud_storge_system.Net.Request.{Request, get_header}
use cloud_storge_system.Net.Response.{Response}
use cloud_storge_system.App.Number.{ℤ, int_text}
use cloud_storge_system.App.Json.{
  Json, str, int, arr, Items, nil, end, member, obj, get_member, push_back,
}
use cloud_storge_system.App.World.{
  Env, Row, M, done, thrown, pure, throw, ◌>>=◌, ◌>>◌, try, execute_query, query_rows,
  last_insert_id, escape_string, column, text_of, int_of, text_or_blank,
}
use cloud_storge_system.App.Reply.{Handled, code_message, send_json, send_error}
use cloud_storge_system.App.Session.{
  first_row, validate_session, generate_session_id, save_session, end_session,
}
use cloud_storge_system.App.Text.{url_decode}

abbrev pub has_row : Option (List Row) → Bool
has_row none = false
has_row (some []) = false
has_row (some (_ ∷ _)) = true

module _ (env : Env) where
  -- `json::parse(text)`.
  abbrev pub parse_body : Bytes → M Json
  parse_body text w = elim (env.parse_json text) [
    | none ↦ (thrown env.what, w)
    | some j ↦ (done j, w)
  ]

  abbrev as_text : Option Json → M Bytes
  as_text (some (str s)) = pure s
  as_text _ = throw env.what

  -- `std::string s = data[key]`.
  abbrev pub get_text : Bytes → Json → M Bytes
  get_text key j = as_text (get_member key j)

  abbrev text_or : Bytes → Option Json → M Bytes
  text_or d none = pure d
  text_or d (some (str s)) = pure s
  text_or d _ = throw env.what

  -- `data.value(key, "")`, which throws on a value that is no object.
  abbrev get_text_or_blank : Bytes → Json → M Bytes
  get_text_or_blank key (obj ms) = text_or [] (get_member key (obj ms))
  get_text_or_blank key _ = throw env.what

  abbrev pub user_query : Bytes → Bytes
  user_query escaped = bytes "SELECT id FROM users WHERE username = '" ++ escaped ++ bytes "'"

  abbrev quoted_or_null : Bytes → Bytes → Bytes
  quoted_or_null [] escaped = bytes "NULL"
  quoted_or_null (_ ∷ _) escaped = bytes "'" ++ escaped ++ bytes "'"

  abbrev pub insert_user_query : Bytes → Bytes → Bytes → Bytes
  insert_user_query name password email =
      bytes "INSERT INTO users (username, password, email) VALUES ('"
      ++ name
      ++ bytes "', '"
      ++ password
      ++ bytes "', "
      ++ email
      ++ bytes ")"

  abbrev registered : Response → Bool → M Handled
  registered r false = pure (send_error env (bytes "注册失败，请稍后重试") 500 r)
  registered r true = do
    id ← last_insert_id env
    pure (send_json env (code_message 0 (bytes "注册成功") (member (bytes "userId") (int id) end)) r)

  abbrev register_new : Bytes → Bytes → Bytes → Response → Bool → M Handled
  register_new username hashed email r true w = pure (send_error env (bytes "用户名已存在") 400 r) w
  register_new username hashed email r false w =
      (do
        inserted ← execute_query env (
            insert_user_query (escape_string env username w) (escape_string env hashed w)
              (quoted_or_null email (escape_string env email w)))
        registered r inserted)
        w

  abbrev register_user : Bytes → Bytes → Bytes → Response → M Handled
  register_user username password email r w =
      if is_empty username || is_empty password
      then pure (send_error env (bytes "用户名和密码不能为空") 400 r) w
      else (do
        found ← query_rows env (user_query (escape_string env username w))
        register_new username (env.hash password) email r (has_row found))
          w

  -- `handleRegister`.
  unfoldable pub handle_register : Request → Response → M Handled
  handle_register req r =
      try
        (do
          request ← parse_body req.body
          username ← get_text (bytes "username") request
          password ← get_text (bytes "password") request
          email ← get_text_or_blank (bytes "email") request
          register_user username password email r)
        (λ what. pure (send_error env (bytes "注册失败: " ++ what) 500 r))

  abbrev pub login_query : Bytes → Bytes → Bytes
  login_query name password =
      bytes "SELECT id, username FROM users WHERE username = '"
      ++ name
      ++ bytes "' AND password = '"
      ++ password
      ++ bytes "'"

  abbrev login_answer : Bytes → ℤ → Bytes → Json
  login_answer session user username = code_message 0 (bytes "登录成功") (
      member (bytes "sessionId") (str session)
        (member (bytes "userId") (int user) (member (bytes "username") (str username) end)))

  abbrev open_session : Response → Option Row → M Handled
  open_session r none = pure (send_error env (bytes "用户名或密码错误") 401 r)
  open_session r (some row) = do
    id ← column 0 row
    id_text ← text_of id
    user ← int_of id_text
    name ← column 1 row
    username ← text_of name
    session ← generate_session_id env
    save_session env session user username
    pure (send_json env (login_answer session user username) r)

  abbrev login_user : Bytes → Bytes → Response → M Handled
  login_user username password r w =
      if is_empty username || is_empty password
      then pure (send_error env (bytes "用户名和密码不能为空") 400 r) w
      else (do
        found ←
            query_rows env
              (login_query (escape_string env username w) (escape_string env (env.hash password) w))
        open_session r (first_row found))
          w

  -- `handleLogin`.
  unfoldable pub handle_login : Request → Response → M Handled
  handle_login req r =
      try
        (do
          request ← parse_body req.body
          username ← get_text (bytes "username") request
          password ← get_text (bytes "password") request
          login_user username password r)
        (λ what. pure (send_error env (bytes "登录失败: " ++ what) 500 r))

  -- `handleLogout`; `endSession` does nothing with an empty identifier.
  unfoldable pub handle_logout : Request → Response → M Handled
  handle_logout req r = do
    end_session env (get_header (bytes "X-Session-ID") req)
    pure (send_json env (code_message 0 (bytes "Logout successful") end) r)

  abbrev pub session_header : Request → Bytes
  session_header = get_header (bytes "X-Session-ID")

  abbrev pub refuse_session : Response → Handled
  refuse_session r = send_error env (bytes "未登录或会话已过期") 401 r

  -- What a handler does behind its session check.
  abbrev pub with_session : Response → (ℤ → M Handled) → Option (ℤ × Bytes) → M Handled
  with_session r rest none = pure (refuse_session r)
  with_session r rest (some (user, username)) = rest user

  abbrev pub guarded : Request → Response → (ℤ → M Handled) → M Handled
  guarded req r rest = do who ← validate_session env (session_header req); with_session r rest who

  abbrev search_query : Bytes → ℤ → Bytes
  search_query escaped user =
      bytes "SELECT id, username, email FROM users WHERE username LIKE '%"
      ++ escaped
      ++ bytes "%' AND id != "
      ++ int_text user
      ++ bytes " LIMIT 10"

  -- The loop over the rows.
  unfoldable pub found_users : List Row → Items → M Items
  found_users [] users = pure users
  found_users (row ∷ rs) users = do
    id ← column 0 row
    id_text ← text_of id
    n ← int_of id_text
    name ← column 1 row
    email ← column 2 row
    found_users rs (
        push_back users (
          obj (
            member (bytes "id") (int n) (
              member (bytes "username") (str (text_or_blank name))
                (member (bytes "email") (str (text_or_blank email)) end)))))

  abbrev rows_or_none : Option (List Row) → List Row
  rows_or_none none = []
  rows_or_none (some rs) = rs

  abbrev search_users : Bytes → ℤ → Response → M Handled
  search_users keyword user r w =
      if is_empty keyword
      then pure (send_error env (bytes "搜索关键词不能为空") 400 r) w
      else (do
        found ← query_rows env (search_query (escape_string env keyword w) user)
        users ← found_users (rows_or_none found) nil
        pure (
            send_json env
              (code_message 0 (bytes "Success") (member (bytes "users") (arr users) end)) r))
          w

  -- The query without its question mark.
  abbrev pub without_mark : Bytes → Bytes
  without_mark [] = []
  without_mark (c ∷ q) = if c == b'?' then q else c ∷ q

  -- `handleSearchUsers`.
  unfoldable pub handle_search_users : Request → Response → M Handled
  unfolding url_decode is_prefix
  handle_search_users req r = guarded req r λ user.
      let query = without_mark req.query in
      if is_prefix (bytes "keyword=") query
      then search_users (url_decode env.junk (drop 8 query)) user r
      else pure (send_error env (bytes "搜索关键词不能为空") 400 r)
