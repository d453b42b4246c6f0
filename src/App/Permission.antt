-- ===== src/App/Permission.antt =====
-- Who may read a file: the decision that `handleDownload` and `handleShareDownload` make.
pub mod Policy
use cloud_storge_system.Common.{
  ℕ, Bool, true, false, not, ◌&&◌, ◌||◌, Bytes, bytes, Option, none, some, List, [], ◌∷◌, ◌++◌,
  if◌then◌else◌, eqb, is_empty,
}
use cloud_storge_system.App.Number.{ℤ, int_eqb}
use cloud_storge_system.App.Json.{Json}

-- The user of a request: `isAuthenticated` and `userId`, which is 0 without a session.
pub record Viewer : Type 0 where
  pub authenticated : Bool
  pub user : ℤ

-- What a query says of a file and of its share: empty texts and 0 stand for NULL.
pub record Grant : Type 0 where
  pub owner : ℤ
  pub share_type : Bytes
  pub shared_with : ℤ
  pub extract_code : Bytes

-- The branches on the share type, with the extract code of the request.
unfoldable pub share_permits : Grant → Viewer → Bytes → Bool
unfolding int_eqb eqb
share_permits g v code =
    if eqb g.share_type (bytes "public")
    then true
    else if eqb g.share_type (bytes "protected")
    then not (is_empty code) && eqb code g.extract_code
    else if eqb g.share_type (bytes "user")
    then v.authenticated && int_eqb v.user g.shared_with
    else false

abbrev pub is_owner : Grant → Viewer → Bool
is_owner g v = v.authenticated && int_eqb v.user g.owner

-- `hasPermission` of `handleDownload`; the flag says that the request has a share code.
unfoldable pub download_permits : Bool → Grant → Viewer → Bytes → Bool
unfolding share_permits
download_permits by_share g v code =
    if is_owner g v
    then true
    else if by_share
    then share_permits g v code
    else v.authenticated && int_eqb v.user g.owner

-- `hasPermission` of `handleShareDownload`.
unfoldable pub share_download_permits : Grant → Viewer → Bytes → Bool
unfolding share_permits
share_download_permits g v code = if is_owner g v then true else share_permits g v code

-- The message of a refusal.
unfoldable pub refusal : Grant → Bytes → Bytes
unfolding eqb
refusal g code =
    if eqb g.share_type (bytes "protected") && (is_empty code || not (eqb code g.extract_code))
    then bytes "需要正确的提取码"
    else bytes "您没有权限访问此文件"
