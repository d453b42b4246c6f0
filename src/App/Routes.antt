-- ===== src/App/Routes.antt =====
-- The route table and `onRequest`. A pattern of `addRoute` is a text that `escapeRegex` makes match
-- itself, or a text with one group `([^/]+)` behind it.
pub mod Reach
use cloud_storge_system.Common.{
  ℕ, suc, ◌+◌, ◌==◌, Bool, true, false, not, ◌&&◌, Bytes, bytes, Option, none, some, List, [], ◌∷◌,
  ◌++◌, if◌then◌else◌, eqb, is_empty, is_prefix, drop, length,
}
use cloud_storge_system.Net.Request.{Request, Method, get, post, head, delete, method_eqb}
use cloud_storge_system.Net.Response.{Response}
use cloud_storge_system.App.World.{
  Env, World, M, Outcome, done, thrown, undefined, pure, try, catch_outcome,
}
use cloud_storge_system.App.Reply.{
  Handled, send_error, handle_not_found, handle_index, handle_favicon,
}
use cloud_storge_system.App.Account.{
  handle_register, handle_login, handle_logout, handle_search_users,
}
use cloud_storge_system.App.FileUpload.{handle_file_upload}
use cloud_storge_system.App.ListFiles.{handle_list_files}
use cloud_storge_system.App.Download.{handle_download, handle_share_download}
use cloud_storge_system.App.Delete.{handle_delete}
use cloud_storge_system.App.Share.{handle_share_file}
use cloud_storge_system.App.ShareAccess.{handle_share_access, handle_share_info}

-- The handlers of the table.
pub data Handler : Type 0 where
  favicon register login index share_access share_download share_info file_upload list_files
        download_file delete_file share_file search_users logout :
      Handler

pub data Pattern : Type 0 where
  exact : Bytes → Pattern
  -- The text before the group, and the name of the parameter.
  group : Bytes → Bytes → Pattern

pub record Route : Type 0 where
  pub pattern : Pattern
  pub method : Method
  pub handler : Handler

abbrev to_route : Pattern → Method → Handler → Route
to_route p m h = record { pattern = p; method = m; handler = h }

-- `initRoutes`.
abbrev pub routes : List Route
routes =
    to_route (exact (bytes "/favicon.ico")) get favicon
    ∷ to_route (exact (bytes "/register")) post register
    ∷ to_route (exact (bytes "/login")) post login
    ∷ to_route (exact (bytes "/")) get index
    ∷ to_route (exact (bytes "/index.html")) get index
    ∷ to_route (exact (bytes "/register.html")) get index
    ∷ to_route (group (bytes "/share/") (bytes "code")) get share_access
    ∷ to_route (group (bytes "/share/download/") (bytes "filename")) get share_download
    ∷ to_route (group (bytes "/share/info/") (bytes "code")) get share_info
    ∷ to_route (exact (bytes "/upload")) post file_upload
    ∷ to_route (exact (bytes "/files")) get list_files
    ∷ to_route (group (bytes "/download/") (bytes "filename")) head download_file
    ∷ to_route (group (bytes "/download/") (bytes "filename")) get download_file
    ∷ to_route (group (bytes "/delete/") (bytes "filename")) delete delete_file
    ∷ to_route (exact (bytes "/share")) post share_file
    ∷ to_route (exact (bytes "/users/search")) get search_users
    ∷ to_route (exact (bytes "/logout")) post logout
    ∷ []

-- A text that `[^/]+` matches as a whole.
unfoldable pub no_slash : Bytes → Bool
no_slash [] = true
no_slash (c ∷ cs) = not (c == b'/') && no_slash cs

-- std::regex_match of a path: the parameters.
unfoldable pub match_path : Pattern → Bytes → Option (List (Bytes × Bytes))
unfolding no_slash is_prefix eqb
match_path (exact text) path = if eqb path text then some [] else none
match_path (group before name) path =
    let rest = drop (length before) path in
    if is_prefix before path && (not (is_empty rest) && no_slash rest)
    then some ((name, rest) ∷ [])
    else none

abbrev or_next :
    Handler
    → Option (Handler × List (Bytes × Bytes))
    → Option (List (Bytes × Bytes))
    → Option (Handler × List (Bytes × Bytes))
or_next h next none = next
or_next h next (some params) = some (h, params)

-- The loop over the routes.
unfoldable pub find_route : List Route → Method → Bytes → Option (Handler × List (Bytes × Bytes))
unfolding match_path
find_route [] m path = none
find_route (route ∷ rs) m path =
    let next = find_route rs m path in
    if method_eqb route.method m
    then or_next route.handler next (match_path route.pattern path)
    else next

module _ (env : Env) where
  abbrev pub handle : Handler → Request → Response → M Handled
  handle favicon = handle_favicon env
  handle register = handle_register env
  handle login = handle_login env
  handle index = handle_index env
  handle share_access = handle_share_access env
  handle share_download = handle_share_download env
  handle share_info = handle_share_info env
  handle file_upload = handle_file_upload env
  handle list_files = handle_list_files env
  handle download_file = handle_download env
  handle delete_file = handle_delete env
  handle share_file = handle_share_file env
  handle search_users = handle_search_users env
  handle logout = handle_logout env

  abbrev pub routed : Option (Handler × List (Bytes × Bytes)) → Request → Response → M Handled
  routed none req r = pure (handle_not_found env r)
  routed (some (h, params)) req r = handle h (record req { path_params = params }) r

  -- The catch block.
  abbrev pub caught : Response → Bytes → M Handled
  caught r what = pure (send_error env (bytes "Internal Server Error") 500 r)

  -- `onRequest`.
  unfoldable pub on_request : Request → Response → M Handled
  unfolding find_route
  on_request req r = try (routed (find_route routes req.method req.path) req r) (caught r)
