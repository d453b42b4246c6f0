-- ===== src/App/Delete.antt =====
-- `handleDelete`, with the file name mapping.
pub mod Owned
use cloud_storge_system.Common.{
  ℕ, Bool, true, false, not, Bytes, bytes, Option, none, some, List, [], ◌∷◌, ◌++◌, if◌then◌else◌,
  eqb, is_empty,
}
use cloud_storge_system.Net.Request.{Request, get_path_param}
use cloud_storge_system.Net.Response.{Response}
use cloud_storge_system.App.Number.{ℤ, int_text}
use cloud_storge_system.App.Json.{end}
use cloud_storge_system.App.World.{
  Env, World, Row, M, Outcome, done, thrown, undefined, pure, ◌>>=◌, ◌>>◌, bind_outcome,
  execute_query, query_rows, escape_string, column, text_of, int_of, null_what, stoi_what,
}
use cloud_storge_system.App.Reply.{Handled, code_message, send_json, send_error}
use cloud_storge_system.App.Session.{first_row}
use cloud_storge_system.App.Account.{guarded}

-- uploadDir_ and mappingFile_.
abbrev pub upload_path : Bytes → Bytes
upload_path name = bytes "uploads/" ++ name

abbrev pub mapping_file : Bytes
mapping_file = bytes "uploads/filename_mapping.json"

abbrev pub update_file : (Bytes → Option Bytes) → Bytes → Option Bytes → Bytes → Option Bytes
update_file files path content p = if eqb path p then content else files p

-- `erase(key)` on a std::map.
unfoldable pub erase_key : Bytes → List (Bytes × Bytes) → List (Bytes × Bytes)
erase_key k [] = []
erase_key k ((j, v) ∷ m) = let rest = erase_key k m in if eqb j k then rest else (j, v) ∷ rest

module _ (env : Env) where
  abbrev parsed_or : List (Bytes × Bytes) → Option (List (Bytes × Bytes)) → List (Bytes × Bytes)
  parsed_or old none = old
  parsed_or old (some m) = m

  abbrev loaded : List (Bytes × Bytes) → Option Bytes → List (Bytes × Bytes)
  loaded old none = old
  loaded old (some text) = parsed_or old (env.parse_mapping text)

  -- `loadFilenameMappingInternal`: a file that is missing or does not parse changes nothing.
  unfoldable pub load_mapping : World → World
  load_mapping w = record w { mapping = loaded w.mapping (w.files mapping_file) }

  -- `saveFilenameMappingInternal`.
  unfoldable pub save_mapping : World → World
  save_mapping w =
      if env.can_create mapping_file
      then record w { files = update_file w.files mapping_file (some (env.dump_mapping w.mapping)) }
      else w

  -- The last block of `handleDelete`.
  unfoldable pub forget_mapping : Bytes → M (Unit {0})
  unfolding load_mapping save_mapping erase_key
  forget_mapping name w =
      let fresh = load_mapping w in
      (done tt, save_mapping (record fresh { mapping = erase_key name fresh.mapping }))

  abbrev unlinked : Bytes → Option Bytes → World → World
  unlinked path none w = w
  unlinked path (some content) w =
      if env.can_unlink path then record w { files = update_file w.files path none } else w

  -- `access`, then `unlink`, whose failure is only logged.
  unfoldable pub unlink_file : Bytes → M (Unit {0})
  unlink_file path w = (done tt, unlinked path (w.files path) w)

  abbrev pub owned_query : Bytes → ℤ → Bytes
  owned_query escaped user =
      bytes "SELECT id FROM files WHERE filename = '"
      ++ escaped
      ++ bytes "' AND user_id = "
      ++ int_text user

  abbrev pub delete_shares_query : ℤ → Bytes
  delete_shares_query file = bytes "DELETE FROM file_shares WHERE file_id = " ++ int_text file

  abbrev pub delete_file_query : ℤ → Bytes
  delete_file_query file = bytes "DELETE FROM files WHERE id = " ++ int_text file

  abbrev pub deleted : Response → Handled
  deleted r = send_json env (code_message 0 (bytes "success") end) r

  abbrev pub delete_disk : Bytes → Response → Bool → M Handled
  delete_disk name r false = pure (send_error env (bytes "删除文件记录失败") 500 r)
  delete_disk name r true = do unlink_file (upload_path name); forget_mapping name; pure (deleted r)

  abbrev pub delete_row : Bytes → Response → Option Row → M Handled
  delete_row name r none = pure (send_error env (bytes "文件不存在或您没有权限删除此文件") 403 r)
  delete_row name r (some row) = do
    id ← column 0 row
    id_text ← text_of id
    file ← int_of id_text
    execute_query env (delete_shares_query file)
    removed ← execute_query env (delete_file_query file)
    delete_disk name r removed

  abbrev pub delete_owned : Bytes → Response → ℤ → M Handled
  delete_owned name r user w =
      if is_empty name
      then pure (send_error env (bytes "Missing filename") 400 r) w
      else (do
        found ← query_rows env (owned_query (escape_string env name w) user)
        delete_row name r (first_row found))
          w

  -- `handleDelete`.
  unfoldable pub handle_delete : Request → Response → M Handled
  handle_delete req r = guarded env req r (delete_owned (get_path_param (bytes "filename") req) r)
