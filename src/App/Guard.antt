-- ===== src/App/Guard.antt =====
-- The session check before the guarded handlers.
use cloud_storge_system.Common.{ℕ, ◌≡◌, refl, ap, ◌∙◌, true, Bytes, none, [], ◌∷◌}
use cloud_storge_system.Net.Request.{Request}
use cloud_storge_system.Net.Response.{Response}
use cloud_storge_system.App.Number.{ℤ}
use cloud_storge_system.App.World.{Env, World, rows, M, done, query_rows, escape_string}
use cloud_storge_system.App.Reply.{Handled}
use cloud_storge_system.App.Session.{validate_session, session_query}
use cloud_storge_system.App.Account.{guarded, session_header, refuse_session, handle_search_users}
use cloud_storge_system.App.Delete.{handle_delete}
use cloud_storge_system.App.Share.{handle_share_file}
use cloud_storge_system.App.ListFiles.{handle_list_files}
use cloud_storge_system.App.FileUpload.{handle_file_upload}

module _ (env : Env) where
  guarded-refused :
      (req : Request) (r : Response) (rest : ℤ → M Handled) (w w' : World)
      → validate_session env (session_header env req) w ≡ (done none, w')
      → guarded env req r rest w ≡ (done (refuse_session env r), w')
  guarded-refused req r rest w w' e = rw e refl

  -- The world behind a session query.
  abbrev pub after_query : Bytes → World → World
  after_query id w = record w { queries = session_query env (env.escape id) ∷ w.queries }

  pub validate_session-unknown :
      (c : ℕ) (id : Bytes) (w : World)
      → w.connected ≡ true
      → env.answer (session_query env (env.escape (c ∷ id)) ∷ w.queries) ≡ rows []
      → validate_session env (c ∷ id) w ≡ (done none, after_query (c ∷ id) w)
  unfolding validate_session query_rows escape_string
  validate_session-unknown c id w up e = rw (up, e) refl

  -- Without a session in the header, uploading, deleting, sharing and listing files and searching
  -- for users answer 401 and change nothing at all: no statement is sent and no file is touched.
  pub handlers-anonymous :
      (req : Request) (r : Response) (w : World)
      → session_header env req ≡ []
      → (handle_file_upload env req r w ≡ (done (refuse_session env r), w))
        × (handle_delete env req r w ≡ (done (refuse_session env r), w))
        × (handle_share_file env req r w ≡ (done (refuse_session env r), w))
        × (handle_list_files env req r w ≡ (done (refuse_session env r), w))
        × (handle_search_users env req r w ≡ (done (refuse_session env r), w))
  unfolding handle_file_upload handle_delete handle_share_file handle_list_files handle_search_users
      validate_session
  handlers-anonymous req r w e =
      let v : validate_session env (session_header env req) w ≡ (done none, w) =
        ap (λ id. validate_session env id w) e in
      (
        guarded-refused req r _ w w v,
        guarded-refused req r _ w w v,
        guarded-refused req r _ w w v,
        guarded-refused req r _ w w v,
        guarded-refused req r _ w w v,
      )

  -- With a session header for which the connected database has no row, uploading, deleting, sharing
  -- and listing files and searching for users answer 401, and the question for the session is all
  -- that happens.
  pub handlers-expired :
      (req : Request) (r : Response) (c : ℕ) (id : Bytes) (w : World)
      → session_header env req ≡ c ∷ id
      → w.connected ≡ true
      → env.answer (session_query env (env.escape (c ∷ id)) ∷ w.queries) ≡ rows []
      → (handle_file_upload env req r w ≡ (done (refuse_session env r), after_query (c ∷ id) w))
        × (handle_delete env req r w ≡ (done (refuse_session env r), after_query (c ∷ id) w))
        × (handle_share_file env req r w ≡ (done (refuse_session env r), after_query (c ∷ id) w))
        × (handle_list_files env req r w ≡ (done (refuse_session env r), after_query (c ∷ id) w))
        × (handle_search_users env req r w ≡ (done (refuse_session env r), after_query (c ∷ id) w))
  unfolding handle_file_upload handle_delete handle_share_file handle_list_files handle_search_users
  handlers-expired req r c id w e up h =
      let v = ap (λ i. validate_session env i w) e ∙ validate_session-unknown c id w up h in
      (
        guarded-refused req r _ w _ v,
        guarded-refused req r _ w _ v,
        guarded-refused req r _ w _ v,
        guarded-refused req r _ w _ v,
        guarded-refused req r _ w _ v,
      )
