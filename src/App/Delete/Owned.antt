-- ===== src/App/Delete/Owned.antt =====
-- `handleDelete`: only the owner's files go.
use mathlib.Core.Path.{subst}
use cloud_storge_system.Common.{
  ◌≡◌, ◌≢◌, refl, sym, ap, ◌∙◌, ◌⊎◌, inl, inr, Bool-cases, Option-cases, Bool, true, false, Bytes,
  none, some, List, [], ◌∷◌, eqb, eqb_iff, eqb_refl, is_empty, lookup, arith,
}
use cloud_storge_system.Net.Response.{Response}
use cloud_storge_system.App.Number.{ℤ, stoi}
use cloud_storge_system.App.World.{
  Env, World, Row, Outcome, Reply, int_of-some, int_of-none, rows, no_result, failed, stored_rows,
  succeeded, M, done, ◌>>=◌, ◌>>◌, execute_query, query_rows, escape_string,
}
use cloud_storge_system.App.Session.{first_row}
use cloud_storge_system.App.Reply.{Handled}
use cloud_storge_system.App.Delete.{
  upload_path, mapping_file, erase_key, load_mapping, save_mapping, forget_mapping, unlink_file,
  owned_query, delete_shares_query, delete_file_query, deleted, delete_owned, delete_row,
  delete_disk,
}

lookup-erase_key : (k : Bytes) (m : List (Bytes × Bytes)) → lookup k (erase_key k m) ≡ none
unfolding lookup erase_key
lookup-erase_key k [] = refl
lookup-erase_key k ((j, v) ∷ m) = elim (Bool-cases (eqb j k)) [
  | inl e ↦ rw e (lookup-erase_key k m)
  | inr e ↦ ground (arith, e, lookup-erase_key k m)
]

-- The deletion of the row, and what follows it.
module _ (env : Env) (name : Bytes) (r : Response) where
  -- The world behind the last block of the handler.
  final : World → World
  final y = (forget_mapping env name (unlink_file env (upload_path name) y).1).1

  delete_disk-final : (y : World) → delete_disk env name r true y ≡ (done (deleted env r), final y)
  unfolding final unlink_file forget_mapping
  delete_disk-final y = refl

  delete_row-rows :
      (id_text : Bytes) (columns : Row) (file : ℤ) (x : World)
      → x.connected ≡ true
      → stoi id_text ≡ some file
      → env.answer (delete_file_query env file ∷ delete_shares_query env file ∷ x.queries)
        ≡ no_result
      → delete_row env name r (some (some id_text ∷ columns)) x
        ≡ delete_disk env name r true (record x {
          queries = delete_file_query env file ∷ delete_shares_query env file ∷ x.queries;
        })
  unfolding execute_query
  delete_row-rows id_text columns file x up n f =
      int_of-some id_text file x (deletes) n ∙ rw (up, f) refl
    where
      deletes : ℤ → M Handled
      deletes file = do
        execute_query env (delete_shares_query env file)
        removed ← execute_query env (delete_file_query env file)
        delete_disk env name r removed

  save-same :
      (y : World)
      → ((save_mapping env y).queries ≡ y.queries) × ((save_mapping env y).mapping ≡ y.mapping)
  unfolding save_mapping
  save-same y = elim (Bool-cases (env.can_create mapping_file)) [
    | inl c ↦ rw c (refl, refl)
    | inr c ↦ rw c (refl, refl)
  ]

  save-files : (y : World) (p : Bytes) → p ≢ mapping_file → (save_mapping env y).files p ≡ y.files p
  unfolding save_mapping
  save-files y p ne = elim (Bool-cases (env.can_create mapping_file)) [
    | inl c ↦ rw (c, other) refl
    | inr c ↦ rw c refl
  ]
    where
      other : eqb mapping_file p ≡ false
      other = elim (Bool-cases (eqb mapping_file p)) [
        | inl e ↦ absurd (ne (sym ((eqb_iff mapping_file p).0 e)))
        | inr e ↦ e
      ]

  unlink-queries : (path : Bytes) (y : World) → (unlink_file env path y).1.queries ≡ y.queries
  unfolding unlink_file
  unlink-queries path y = elim (Option-cases (y.files path)) [
    | inl e ↦ rw e refl
    | inr (c, e) ↦ elim (Bool-cases (env.can_unlink path)) [
      | inl u ↦ rw (e, u) refl
      | inr u ↦ rw (e, u) refl
    ]
  ]

  unlink-files :
      (path : Bytes) (y : World) (content : Bytes)
      → y.files path ≡ some content
      → env.can_unlink path ≡ true
      → (unlink_file env path y).1.files path ≡ none
  unfolding unlink_file
  unlink-files path y content on can = rw (on, can, eqb_refl path) refl

  final-queries : (y : World) → (final y).queries ≡ y.queries
  unfolding final forget_mapping load_mapping
  final-queries y = (save-same _).0 ∙ unlink-queries (upload_path name) y

  final-mapping : (y : World) → lookup name (final y).mapping ≡ none
  unfolding final forget_mapping
  final-mapping y = ap (lookup name) (save-same _).1 ∙ lookup-erase_key name _

  final-files :
      (y : World) (content : Bytes)
      → y.files (upload_path name) ≡ some content
      → env.can_unlink (upload_path name) ≡ true
      → upload_path name ≢ mapping_file
      → (final y).files (upload_path name) ≡ none
  unfolding final forget_mapping load_mapping
  final-files y content on can ne =
      save-files _ (upload_path name) ne ∙ unlink-files (upload_path name) y content on can

module _ (env : Env) (name : Bytes) (r : Response) (user : ℤ) (w : World)
    (named : is_empty name ≡ false) (up : w.connected ≡ true) where
  -- The statements that a deletion sends, newest first.
  abbrev pub asked : List Bytes
  asked = owned_query env (env.escape name) user ∷ w.queries

  found :
      {row : Row} {more : List Row}
      → env.answer asked ≡ rows (row ∷ more)
      → delete_owned env name r user w
        ≡ delete_row env name r (some row) (record w { queries = asked })
  unfolding query_rows escape_string
  found e = rw (named, up, e) refl

  -- For a file name that is not empty and a connected database that has a row for it and the user,
  -- with a number as its identifier, and deletes it: where the file is on the disk, can be removed
  -- and is not the mapping file, its shares and its row are deleted in the database in this order,
  -- the file is gone from the disk, its name from the mapping, and the answer is success.
  pub delete_owned-deletes :
      (id_text : Bytes) (columns : Row) (more : List Row) (file : ℤ) (content : Bytes)
      → env.answer asked ≡ rows ((some id_text ∷ columns) ∷ more)
      → stoi id_text ≡ some file
      → env.answer (delete_file_query env file ∷ delete_shares_query env file ∷ asked) ≡ no_result
      → w.files (upload_path name) ≡ some content
      → env.can_unlink (upload_path name) ≡ true
      → upload_path name ≢ mapping_file
      → (w' : World) × (delete_owned env name r user w ≡ (done (deleted env r), w'))
        × (w'.queries ≡ delete_file_query env file ∷ delete_shares_query env file ∷ asked)
        × (w'.files (upload_path name) ≡ none)
        × (lookup name w'.mapping ≡ none)
  delete_owned-deletes id_text columns more file content e n f on can ne =
      let x : World = record w { queries = asked } in
      let y : World = record w {
        queries = delete_file_query env file ∷ delete_shares_query env file ∷ asked;
      } in
      (
        final env name r y,
        found e
            ∙ delete_row-rows env name r id_text columns file x up n f
            ∙ delete_disk-final env name r y,
        final-queries env name r y,
        final-files env name r y content on can ne,
        final-mapping env name r y,
      )

-- The files and the mapping of the server are as they were.
abbrev pub Kept : World → World → Type 0
Kept w w' = (w'.files ≡ w.files) × (w'.mapping ≡ w.mapping)

-- The database has a row for the file and the user, and deleted the row of the file that this names.
pub record Owner (env : Env) (name : Bytes) (user : ℤ) (w : World) : Type 0 where
  pub id_text : Bytes
  pub columns : Row
  pub more : List Row
  pub file : ℤ
  pub is_up : w.connected ≡ true
  pub has_row :
      env.answer (owned_query env (env.escape name) user ∷ w.queries)
      ≡ rows ((some id_text ∷ columns) ∷ more)
  pub is_file : stoi id_text ≡ some file
  pub was_deleted :
      succeeded env (
        env.answer (
          delete_file_query env file
          ∷ delete_shares_query env file
          ∷ owned_query env (env.escape name) user
          ∷ w.queries))
      ≡ true

module _ (env : Env) (name : Bytes) (r : Response) (user : ℤ) (w : World) where
  abbrev pub Safe : Outcome Handled × World → Type 0
  Safe p = Kept w p.1 ⊎ Owner env name user w

  abbrev sent : World
  sent = record w { queries = owned_query env (env.escape name) user ∷ w.queries }

  abbrev both_sent : ℤ → World
  both_sent file = record w {
    queries = delete_file_query env file ∷ delete_shares_query env file ∷ sent.queries;
  }

  abbrev deletes : ℤ → M Handled
  deletes file = do
    execute_query env (delete_shares_query env file)
    removed ← execute_query env (delete_file_query env file)
    delete_disk env name r removed

  disk-Safe :
      (file : ℤ) (b : Bool)
      → (b ≡ true → Owner env name user w)
      → Safe (delete_disk env name r b (both_sent file))
  disk-Safe file true h = inr (h refl)
  disk-Safe file false h = inl (refl, refl)

  deletes-Safe :
      (id_text : Bytes) (columns : Row) (more : List Row) (file : ℤ)
      → w.connected ≡ true
      → env.answer sent.queries ≡ rows ((some id_text ∷ columns) ∷ more)
      → stoi id_text ≡ some file
      → Safe (deletes file sent)
  unfolding execute_query
  deletes-Safe id_text columns more file up e n =
      let b = succeeded env (env.answer (both_sent file).queries) in
      let runs : deletes file sent ≡ delete_disk env name r b (both_sent file) = rw up refl in
      subst Safe (sym runs) (
        disk-Safe file b (λ d. record {
          id_text = id_text;
          columns = columns;
          more = more;
          file = file;
          is_up = up;
          has_row = e;
          is_file = n;
          was_deleted = d;
        }))

  row-Safe :
      (row : Row) (more : List Row)
      → w.connected ≡ true
      → env.answer sent.queries ≡ rows (row ∷ more)
      → Safe (delete_row env name r (some row) sent)
  row-Safe [] more up e = inl (refl, refl)
  row-Safe (none ∷ columns) more up e = inl (refl, refl)
  row-Safe (some id_text ∷ columns) more up e = elim (Option-cases (stoi id_text)) [
    | inl n ↦ subst Safe (sym (int_of-none id_text sent deletes n)) (inl (refl, refl))
    | inr (file, n) ↦
        subst Safe (sym (int_of-some id_text file sent deletes n))
          (deletes-Safe id_text columns more file up e n)
  ]

  replied :
      (o : Reply)
      → w.connected ≡ true
      → env.answer sent.queries ≡ o
      → Safe (delete_row env name r (first_row (stored_rows env o)) sent)
  replied failed up e = inl (refl, refl)
  replied no_result up e = inl (refl, refl)
  replied (rows []) up e = inl (refl, refl)
  replied (rows (row ∷ more)) up e = row-Safe row more up e

  -- Whatever the database answers, `handleDelete` leaves all files and the mapping as they are for a
  -- user and a file unless the database has a row for both, whose identifier is a numeral, and then
  -- deleted the row of this file.
  pub delete_owned-Safe : Safe (delete_owned env name r user w)
  unfolding query_rows escape_string
  delete_owned-Safe = elim (Bool-cases (is_empty name)) [
    | inl e ↦ rw e (inl (refl, refl))
    | inr e ↦ elim (Bool-cases w.connected) [
      | inl up ↦
          let runs : delete_owned env name r user w
              ≡ delete_row env name r (first_row (stored_rows env (env.answer sent.queries))) sent =
            rw (e, up) refl in
          subst Safe (sym runs) (replied (env.answer sent.queries) up refl)
      | inr down ↦ rw (e, down) (inl (refl, refl))
    ]
  ]
