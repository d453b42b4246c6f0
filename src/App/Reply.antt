-- ===== src/App/Reply.antt =====
-- The answers of the handlers: `sendError`, the JSON answer that every handler builds in the same
-- lines, `handleNotFound`, and the two static pages.
use cloud_storge_system.Common.{
  ℕ, Bool, true, false, ◌||◌, Bytes, bytes, Option, none, some, [], ◌++◌, if◌then◌else◌, eqb,
  is_prefix,
}
use cloud_storge_system.Net.Request.{Request}
use cloud_storge_system.Net.Response.{Response, add_header, set_content_type}
use cloud_storge_system.App.Json.{Json, Members, member, end, obj, nat, str}
use cloud_storge_system.App.World.{Env, M, pure}

-- The callback that a handler sets for the time when the response is written.
pub data AfterWrite : Type 0 where
  unchanged shutdown send_chunks : AfterWrite

-- The answer of a handler: its result (false: the response comes later), the response, the
-- write-complete callback, and whether the handler emptied the body of the request.
pub record Handled : Type 0 where
  pub sync : Bool
  pub response : Response
  pub after_write : AfterWrite
  pub body_cleared : Bool

abbrev pub answered : Response → AfterWrite → Handled
answered r a = record { sync = true; response = r; after_write = a; body_cleared = false }

-- `{"code", …}, {"message", …}`.
abbrev pub code_message : ℕ → Bytes → Members → Json
code_message code message more =
    obj (member (bytes "code") (nat code) (member (bytes "message") (str message) more))

module _ (env : Env) where
  -- Status 200, JSON content, and the connection closed when it is written.
  unfoldable pub send_json : Json → Response → Handled
  send_json j r =
      let status = record r { status_code = 200; status_message = bytes "OK" } in
      let headers =
        add_header (bytes "Connection") (bytes "close")
          (set_content_type (bytes "application/json") status) in
      answered (record headers { body = env.dump j }) shutdown

  -- `sendError`.
  unfoldable pub send_error : Bytes → ℕ → Response → Handled
  send_error message code r =
      let status = record r { status_code = code; status_message = message } in
      let headers =
        add_header (bytes "Connection") (bytes "close")
          (set_content_type (bytes "application/json") status) in
      answered (record headers { body = env.dump (code_message code message end) }) shutdown

  -- `handleNotFound`.
  unfoldable pub handle_not_found : Response → Handled
  unfolding send_error
  handle_not_found r = send_error (bytes "Not Found") 404 r

  abbrev page_name : Bytes → Bytes
  page_name path =
      if eqb path (bytes "/register.html")
      then bytes "/register.html"
      else if eqb path (bytes "/share.html") || is_prefix (bytes "/share/") path
      then bytes "/share.html"
      else bytes "/index.html"

  abbrev page_answer : Bytes → Response → Option Bytes → Handled
  page_answer path r none = send_error (bytes "Failed to open " ++ path) 500 r
  page_answer path r (some html) =
      answered (record (add_header (bytes "Connection") (bytes "close") r) { body = html }) shutdown

  -- `handleIndex`: a page of the site, by the path of the request.
  unfoldable pub handle_index : Request → Response → M Handled
  unfolding send_error
  handle_index req r w =
      let page = env.root ++ page_name req.path in
      let status = record r { status_code = 200; status_message = bytes "OK" } in
      pure
        (page_answer page (set_content_type (bytes "text/html; charset=utf-8") status)
          (w.files page))
        w

  abbrev icon_answer : Response → Option Bytes → Handled
  icon_answer r none =
      let status = record r { status_code = 404; status_message = bytes "Not Found" } in
      let headers =
        add_header (bytes "Connection") (bytes "close")
          (set_content_type (bytes "image/x-icon") status) in
      answered (record headers { body = [] }) shutdown
  icon_answer r (some icon) =
      let status = record r { status_code = 200; status_message = bytes "OK" } in
      let headers =
        add_header (bytes "Connection") (bytes "close")
          (set_content_type (bytes "image/x-icon") status) in
      answered (record headers { body = icon }) shutdown

  -- `handleFavicon`.
  unfoldable pub handle_favicon : Request → Response → M Handled
  handle_favicon req r w = pure (icon_answer r (w.files (env.root ++ bytes "/favicon.ico"))) w
