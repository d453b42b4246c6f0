-- ===== src/App/Download/Access.antt =====
-- `handleDownload` and `handleShareDownload`: who is served a file that a query finds.
use mathlib.Core.Path.{subst}
use cloud_storge_system.Common.{
  Bool, true, false, not, ◌||◌, Bytes, bytes, Option, none, some, List, [], ◌∷◌, ◌≡◌, refl, ◌∙◌, ap,
  sym, ◌⊎◌, ◌↔◌, inl, inr, Bool-cases, if◌then◌else◌, is_empty, arith,
}
use cloud_storge_system.Net.Request.{Request, get_path_param, get_query}
use cloud_storge_system.Net.Response.{Response}
use cloud_storge_system.App.Number.{ℤ, stoi}
use cloud_storge_system.App.World.{
  Env, World, Row, Outcome, rows, M, done, pure, ◌>>=◌, bind_outcome, int_of-some, int_or_zero,
  text_of, text_or_blank, query_rows, escape_string,
}
use cloud_storge_system.App.Reply.{Handled, send_error}
use cloud_storge_system.App.Session.{validate_session}
use cloud_storge_system.App.Account.{session_header}
use cloud_storge_system.App.Permission.{Viewer, download_permits, share_download_permits, refusal}
use cloud_storge_system.App.Permission.Policy.{
  MayRead, download_permits-MayRead, share_download_permits-MayRead,
}
use cloud_storge_system.App.Download.{
  Found, viewer_of, read_found, serve_file, permitted, download_row, download_query,
  download_session, handle_download, direct_query, shared_query, share_download_query,
  share_download_row, share_download, handle_share_download,
}

-- The columns that both queries ask for first; the later query asks for more of them.
pub record Columns : Type 0 where
  pub id : Bytes
  pub server : Bytes
  pub original : Bytes
  pub owner : Bytes
  pub kind : Option Bytes
  pub shared_with : Option Bytes
  pub extract_code : Option Bytes
  pub others : List (Option Bytes)

abbrev pub row_of : Columns → Row
row_of c =
    some c.id
    ∷ some c.server
    ∷ some c.original
    ∷ some c.owner
    ∷ c.kind
    ∷ c.shared_with
    ∷ c.extract_code
    ∷ c.others

-- The number in a column, 0 where it is NULL.
abbrev pub number_or_zero : Option Bytes → Option ℤ
number_or_zero none = some (ℤ.pos 0)
number_or_zero (some text) = stoi text

-- The file and its share as the columns name them.
abbrev pub found_in : Columns → ℤ → ℤ → Found
found_in c owner shared_with = record {
  server_filename = c.server;
  original_filename = c.original;
  grant = record {
    owner = owner;
    share_type = text_or_blank c.kind;
    shared_with = shared_with;
    extract_code = text_or_blank c.extract_code;
  };
}

int_or_zero-some :
    {A : Type 0} (text : Option Bytes) (n : ℤ) (x : World) (k : ℤ → M A)
    → number_or_zero text ≡ some n
    → (int_or_zero text >>= k) x ≡ k n x
int_or_zero-some none n x k e = ap (λ o. elim o [ none ↦ k (ℤ.pos 0) x | some m ↦ k m x ]) e
int_or_zero-some (some text) n x k e = int_of-some text n x k e

read_found-row_of :
    (share_text : Option Bytes → M Bytes) (c : Columns) (owner shared_with : ℤ) (x : World)
    → stoi c.owner ≡ some owner
    → number_or_zero c.shared_with ≡ some shared_with
    → share_text c.kind x ≡ (done (text_or_blank c.kind), x)
    → read_found share_text (row_of c) x ≡ (done (found_in c owner shared_with), x)
read_found-row_of share_text c owner shared_with x e f g =
    let made : Bytes → ℤ → Found = λ kind shared. record {
      server_filename = c.server;
      original_filename = c.original;
      grant = record {
        owner = owner;
        share_type = kind;
        shared_with = shared;
        extract_code = text_or_blank c.extract_code;
      };
    } in
    let after : Bytes → M Found = λ kind. (int_or_zero c.shared_with >>= λ n. pure (made kind n)) in
    int_of-some c.owner owner x _ e
    ∙ ap (λ o. bind_outcome o after) g
    ∙ int_or_zero-some c.shared_with shared_with x (λ n. pure (made (text_or_blank c.kind) n)) f

-- What both handlers do with a file that was found and a decision on it.
module _ (env : Env) (f : Found) (code : Bytes) (req : Request) (r : Response) where
  abbrev pub Served : Type 0 → Outcome Handled × World → World → Type 0
  Served may result w =
      (may × (result ≡ serve_file env f req r w))
      ⊎ ((¬ may) × (result ≡ (done (send_error env (refusal f.grant code) 403 r), w)))

  permitted-Served :
      {may : Type 0} (b : Bool) (w : World)
      → (b ≡ true) ↔ may
      → Served may (permitted env b f code req r w) w
  permitted-Served true w h = inl (h.0 refl, refl)
  permitted-Served false w h = inr (λ m. ground (arith, h.1 m), refl)

  permitted-runs :
      {may : Type 0} {result : Outcome Handled × World} (b : Bool) (w : World)
      → result ≡ permitted env b f code req r w
      → (b ≡ true) ↔ may
      → Served may result w
  permitted-runs {may} b w e h = subst (λ o. Served may o w) (sym e) (permitted-Served b w h)

module _ (env : Env) (req : Request) where
  -- The texts that the request brings.
  abbrev pub name : Bytes
  name = get_path_param (bytes "filename") req

  abbrev pub share_code : Bytes
  share_code = get_query env.junk (bytes "code") [] req

  abbrev pub extract_code : Bytes
  extract_code = get_query env.junk (bytes "extract_code") [] req

  abbrev pub by_share : Bool
  by_share = not (is_empty share_code)

  -- The statement of `handleDownload`, where the share code is empty and where it is not.
  abbrev statement : Bool → Bytes
  statement b =
      if b
      then direct_query env (env.escape name)
      else shared_query env (env.escape name) (env.escape share_code)

  -- The world after the statement for the file.
  abbrev pub asked : World → World
  asked w = record w { queries = statement (is_empty share_code) ∷ w.queries }

  abbrev pub share_asked : World → World
  share_asked w = record w {
    queries = share_download_query env (env.escape name) (env.escape share_code) ∷ w.queries;
  }

module _ (env : Env) (req : Request) (r : Response) (c : Columns) (id owner shared_with : ℤ)
    (is_id : stoi c.id ≡ some id) (is_owner : stoi c.owner ≡ some owner)
    (is_shared : number_or_zero c.shared_with ≡ some shared_with) where
  download_row-permitted :
      (by_share : Bool) (v : Viewer) (code : Bytes) (w : World)
      → let f = found_in c owner shared_with in
        download_row env by_share v code req r (some (row_of c)) w
        ≡ permitted env (download_permits by_share f.grant v code) f code req r w
  download_row-permitted by_share v code w =
      let served : Found → M Handled =
        λ f. permitted env (download_permits by_share f.grant v code) f code req r in
      let reads = read_found (λ kind. pure (text_or_blank kind)) (row_of c) in
      int_of-some c.id id w (λ n. reads >>= served) is_id
      ∙ ap (λ o. bind_outcome o served)
          (read_found-row_of (λ kind. pure (text_or_blank kind)) c owner shared_with w is_owner
            is_shared refl)

  download_query-row :
      (v : Viewer) (w : World) (more : List Row)
      → w.connected ≡ true
      → (by_share env req || v.authenticated) ≡ true
      → env.answer (asked env req w).queries ≡ rows (row_of c ∷ more)
      → download_query env (name env req) (share_code env req) v req r w
        ≡ download_row env
            (by_share env req)
            v
            (extract_code env req)
            req
            r
            (some (row_of c))
            (asked env req w)
  unfolding query_rows escape_string
  download_query-row v w more up may_ask answer =
      elim (Bool-cases (is_empty (share_code env req))) [
        | inl e ↦
            let signed : v.authenticated ≡ true = ground (arith, e, may_ask) in
            let found = ap (λ b. env.answer (statement env req b ∷ w.queries)) (sym e) ∙ answer in
            rw (e, signed, up, found) refl
        | inr e ↦
            let found = ap (λ b. env.answer (statement env req b ∷ w.queries)) (sym e) ∙ answer in
            rw (e, up, found) refl
      ]

  share_download_row-permitted :
      (v : Viewer) (code : Bytes) (w : World) (kind : Bytes)
      → c.kind ≡ some kind
      → let f = found_in c owner shared_with in
        share_download_row env v code req r (some (row_of c)) w
        ≡ permitted env (share_download_permits f.grant v code) f code req r w
  share_download_row-permitted v code w kind is_kind =
      let served : Found → M Handled =
        λ f. permitted env (share_download_permits f.grant v code) f code req r in
      let read : text_of c.kind w ≡ (done (text_or_blank c.kind), w) = rw is_kind refl in
      ap (λ o. bind_outcome o served)
        (read_found-row_of text_of c owner shared_with w is_owner is_shared read)

  -- For a file name that is not empty, a request with a share code or of a session, and a connected
  -- database that answers the statement for the file with a row whose numbers are numerals:
  -- `handleDownload` serves the file of the row exactly to those who may read it, its owner and, with
  -- a share code, whom the share of the row lets read it; for all others the handler ends with the
  -- answer 403, in the world after the statement.
  pub handle_download-Served :
      (w w1 : World) (who : Option (ℤ × Bytes)) (more : List Row)
      → is_empty (name env req) ≡ false
      → validate_session env (download_session env req) w ≡ (done who, w1)
      → w1.connected ≡ true
      → (by_share env req || (viewer_of who).authenticated) ≡ true
      → env.answer (asked env req w1).queries ≡ rows (row_of c ∷ more)
      → let f = found_in c owner shared_with in
        let code = extract_code env req in
        Served env f code req r
          (MayRead (by_share env req) f.grant (viewer_of who) code)
          (handle_download env req r w)
          (asked env req w1)
  unfolding handle_download
  handle_download-Served w w1 who more named session up may_ask answer =
      let f = found_in c owner shared_with in
      let v = viewer_of who in
      let code = extract_code env req in
      let permits = download_permits (by_share env req) f.grant v code in
      let asks_for : Option (ℤ × Bytes) → M Handled =
        λ who. download_query env (name env req) (share_code env req) (viewer_of who) req r in
      let runs : handle_download env req r w
          ≡ permitted env permits f code req r (asked env req w1) =
        rw named refl
        ∙ ap (λ o. bind_outcome o asks_for) session
        ∙ download_query-row v w1 more up may_ask answer
        ∙ download_row-permitted (by_share env req) v code (asked env req w1) in
      permitted-runs env f code req r permits (asked env req w1) runs
        (download_permits-MayRead (by_share env req) f.grant v code)

  -- For a file name and a share code that are not empty and a connected database that answers the
  -- statement for the share with a row whose numbers are numerals and whose share type is not NULL:
  -- `handleShareDownload` serves the file of the row exactly to its owner with a session and to
  -- those whom the share of the row lets read it; for all others the handler ends with the answer
  -- 403, in the world after the statement.
  pub handle_share_download-Served :
      (w w1 : World) (who : Option (ℤ × Bytes)) (more : List Row) (kind : Bytes)
      → is_empty (name env req) ≡ false
      → is_empty (share_code env req) ≡ false
      → validate_session env (session_header env req) w ≡ (done who, w1)
      → w1.connected ≡ true
      → env.answer (share_asked env req w1).queries ≡ rows (row_of c ∷ more)
      → c.kind ≡ some kind
      → let f = found_in c owner shared_with in
        let code = extract_code env req in
        Served env f code req r
          (MayRead true f.grant (viewer_of who) code)
          (handle_share_download env req r w)
          (share_asked env req w1)
  unfolding handle_share_download query_rows escape_string
  handle_share_download-Served w w1 who more kind named coded session up answer is_kind =
      let f = found_in c owner shared_with in
      let v = viewer_of who in
      let code = extract_code env req in
      let permits = share_download_permits f.grant v code in
      let asks_for : Option (ℤ × Bytes) → M Handled =
        λ who. share_download env (name env req) (share_code env req) (viewer_of who) req r in
      let found : share_download env (name env req) (share_code env req) v req r w1
          ≡ share_download_row env v code req r (some (row_of c)) (share_asked env req w1) =
        rw (up, answer) refl in
      let runs : handle_share_download env req r w
          ≡ permitted env permits f code req r (share_asked env req w1) =
        rw (named, coded) refl
        ∙ ap (λ o. bind_outcome o asks_for) session
        ∙ found
        ∙ share_download_row-permitted v code (share_asked env req w1) kind is_kind in
      permitted-runs env f code req r permits (share_asked env req w1) runs
        (share_download_permits-MayRead f.grant v code)
