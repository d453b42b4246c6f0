-- ===== src/App/Session.antt =====
-- Sessions: `validateSession`, `saveSession`, `endSession` and the random codes.
use cloud_storge_system.Common.{
  ℕ, zero, suc, ◌+◌, ◌%◌, Bool, true, Bytes, bytes, Option, none, some, List, [], ◌∷◌, ◌++◌,
  get_elem?,
}
use cloud_storge_system.App.Number.{ℤ, int_text}
use cloud_storge_system.App.World.{
  Env, Row, M, done, pure, ◌>>=◌, ◌>>◌, execute_query, query_rows, escape_string, column, text_of,
  int_of,
}

-- The row that a query found first: `!result || mysql_num_rows(result) == 0`, then
-- mysql_fetch_row.
abbrev pub first_row : Option (List Row) → Option Row
first_row none = none
first_row (some []) = none
first_row (some (r ∷ rs)) = some r

-- The characters of session identifiers and share codes, and those of extract codes.
abbrev pub lower_alphabet : Bytes
lower_alphabet = bytes "abcdefghijklmnopqrstuvwxyz0123456789"

abbrev pub upper_alphabet : Bytes
upper_alphabet = bytes "0123456789ABCDEFGHIJKLMNOPQRSTUVWXYZ"

abbrev pub byte_or : ℕ → Option ℕ → ℕ
byte_or d none = d
byte_or d (some c) = c

-- The loop of the three generators: `n` characters, each by a draw between 0 and 35.
unfoldable pub random_text : (ℕ → ℕ) → Bytes → ℕ → ℕ → Bytes
random_text draw alphabet first zero = []
random_text draw alphabet first (suc n) =
    byte_or 0 (get_elem? alphabet (draw first % 36)) ∷ random_text draw alphabet (first + 1) n

module _ (env : Env) where
  abbrev draw_text : Bytes → ℕ → M Bytes
  draw_text alphabet n w =
      (done (random_text env.draw alphabet w.draws n), record w { draws = w.draws + n })

  -- `generateSessionId`, `generateShareCode` and `generateExtractCode`.
  unfoldable pub generate_session_id : M Bytes
  unfolding random_text
  generate_session_id = draw_text lower_alphabet 32

  unfoldable pub generate_share_code : M Bytes
  unfolding random_text
  generate_share_code = draw_text lower_alphabet 32

  unfoldable pub generate_extract_code : M Bytes
  unfolding random_text
  generate_extract_code = draw_text upper_alphabet 6

  abbrev pub session_query : Bytes → Bytes
  session_query escaped =
      bytes "SELECT user_id, username FROM sessions WHERE session_id = '"
      ++ escaped
      ++ bytes "' AND expire_time > NOW()"

  abbrev pub renew_query : Bytes → Bytes
  renew_query escaped =
      bytes
        "UPDATE sessions SET expire_time = DATE_ADD(NOW(), INTERVAL 30 MINUTE) WHERE session_id = '"
      ++ escaped
      ++ bytes "'"

  abbrev renew_session : Bytes → Option Row → M (Option (ℤ × Bytes))
  renew_session escaped none = pure none
  renew_session escaped (some row) = do
    id ← column 0 row
    id_text ← text_of id
    user ← int_of id_text
    name ← column 1 row
    username ← text_of name
    execute_query env (renew_query escaped)
    pure (some (user, username))

  -- `validateSession`: the user of a session that has not run out, whose term it renews; `none`
  -- is the result false.
  unfoldable pub validate_session : Bytes → M (Option (ℤ × Bytes))
  unfolding query_rows execute_query escape_string
  validate_session [] w = (done none, w)
  validate_session (c ∷ id) w =
      let escaped = escape_string env (c ∷ id) w in
      (do result ← query_rows env (session_query escaped); renew_session escaped (first_row result))
        w

  abbrev pub save_query : Bytes → ℤ → Bytes → Bytes
  save_query escaped user escaped_name =
      bytes "INSERT INTO sessions (session_id, user_id, username, expire_time) VALUES ('"
      ++ escaped
      ++ bytes "', "
      ++ int_text user
      ++ bytes ", '"
      ++ escaped_name
      ++ bytes "', DATE_ADD(NOW(), INTERVAL 30 MINUTE))"

  -- `saveSession`.
  unfoldable pub save_session : Bytes → ℤ → Bytes → M Bool
  unfolding execute_query escape_string
  save_session id user username w =
      execute_query env (save_query (escape_string env id w) user (escape_string env username w)) w

  -- `endSession`; the result is that of the statement, true for an empty identifier.
  unfoldable pub end_session : Bytes → M Bool
  unfolding execute_query escape_string
  end_session [] w = (done true, w)
  end_session (c ∷ id) w =
      execute_query env
        (bytes "DELETE FROM sessions WHERE session_id = '"
          ++ escape_string env (c ∷ id) w
          ++ bytes "'")
        w
