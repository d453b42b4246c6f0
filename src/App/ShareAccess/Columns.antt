-- ===== src/App/ShareAccess/Columns.antt =====
-- The columns that `handleShareAccess` reads, against the tables of file_manager.sql.
use cloud_storge_system.Common.{◌≡◌, ap, Bytes, Option, none, some, [], ◌∷◌}
use cloud_storge_system.Net.Response.{Response}
use cloud_storge_system.App.Number.{ℤ, stoi, int_eqb}
use cloud_storge_system.App.World.{
  Env, World, Row, M, done, thrown, pure, ◌>>=◌, bind_outcome, stoi_what, int_of,
}
use cloud_storge_system.App.Permission.{Viewer}
use cloud_storge_system.App.ShareAccess.{access_row, access_checked, owner_flag}

-- A row of file_shares: id, file_id, owner_id, shared_with_id, share_type, share_code, expire_time,
-- created_at and extract_code.
pub record ShareRow : Type 0 where
  pub id : Bytes
  pub file : Bytes
  pub owner : Bytes
  pub shared_with : Option Bytes
  pub kind : Bytes
  pub code : Bytes
  pub expires : Option Bytes
  pub created : Option Bytes
  pub extract_code : Option Bytes

-- What the query of `handleShareAccess` selects besides, in its order: filename,
-- original_filename, file_size, file_type, owner_username, user_id.
pub record FileRow : Type 0 where
  pub filename : Bytes
  pub original : Bytes
  pub size : Bytes
  pub type : Option Bytes
  pub username : Bytes
  pub user : Bytes

abbrev pub joined_row : ShareRow → FileRow → Row
joined_row s f =
    some s.id
    ∷ some s.file
    ∷ some s.owner
    ∷ s.shared_with
    ∷ some s.kind
    ∷ some s.code
    ∷ s.expires
    ∷ s.created
    ∷ s.extract_code
    ∷ some f.filename
    ∷ some f.original
    ∷ some f.size
    ∷ f.type
    ∷ some f.username
    ∷ some f.user
    ∷ []

int_of-none : (text : Bytes) (x : World) → stoi text ≡ none → int_of text x ≡ (thrown stoi_what, x)
int_of-none text x e =
    ap (λ (o : Option ℤ). elim o [ none ↦ (thrown stoi_what, x) | some m ↦ (done m, x) ]) e

bind-thrown :
    {A B : Type 0} (m : M A) (k : A → M B) (x y : World) (what : Bytes)
    → m x ≡ (thrown what, y)
    → (m >>= k) x ≡ (thrown what, y)
bind-thrown m k x y what e = ap (λ o. bind_outcome o k) e

-- On a row of the query as the tables of the database have it, handleShareAccess reads the name
-- of the owner as the number of the owner: unless that name begins like a number, it throws,
-- whoever asks and whatever the share allows.
pub access_row-thrown :
    (env : Env) (v : Viewer) (code extract : Bytes) (r : Response) (s : ShareRow) (f : FileRow)
    (w : World)
    → stoi f.username ≡ none
    → access_row env v code extract r (some (joined_row s f)) w ≡ (thrown stoi_what, w)
unfolding access_row
access_row-thrown env v code extract r s f w e =
    bind-thrown (owner_flag (some f.username) v.user)
      (access_checked env v code extract r (joined_row s f) s.kind) w w stoi_what
      (bind-thrown (int_of f.username) (λ n. pure (int_eqb n v.user)) w w stoi_what
        (int_of-none f.username w e))
