-- ===== src/App/FileUpload/Start.antt =====
-- The first request of an upload.
use cloud_storge_system.Common.{
  ℕ, ◌+◌, ◌-◌, ◌≤◌, ◌≡◌, refl, ap, ◌∙◌, true, false, Bytes, bytes, some, [], ◌∷◌, ◌++◌, leb, ◌==◌,
  length, take, drop, find, arith, drop-append_add, take-append_add,
}
use cloud_storge_system.App.World.{Env, World, done, Upload, complete, upload}
use cloud_storge_system.App.Upload.{Piece, blank_line, first_piece, apply_piece}
use cloud_storge_system.App.FileUpload.{create_upload, unique_filename, start_upload}
use cloud_storge_system.App.FileUpload.Pieces.{
  Holds, Leaves, written_text, update_file-same, apply_piece-Holds, apply_piece-next,
  apply_piece-boundary,
}

-- A part between its header and the end boundary.
abbrev pub part_body : Bytes → Bytes → Bytes → Bytes → Bytes
part_body boundary head content tail =
    head ++ (blank_line ++ (content ++ (13 ∷ 10 ∷ (boundary ++ bytes "--" ++ tail))))

first_piece-end :
    (boundary body : Bytes) (pos stop : ℕ)
    → find blank_line body ≡ some pos
    → find (boundary ++ bytes "--") body ≡ some stop
    → (pos + 4) ≤ stop
    → (stop == 0) ≡ false
    → first_piece boundary body
      ≡ done (record {
        written = some (take (stop - (pos + 4)) (drop (pos + 4) body));
        next = complete;
      })
unfolding first_piece
first_piece-end boundary body pos stop h f le z =
    let l : leb (pos + 4) stop ≡ true = ground (arith, le) in rw (h, f, z, l) refl

behind_head :
    (boundary head content tail : Bytes)
    → drop (length head + 4) (part_body boundary head content tail)
      ≡ content ++ (13 ∷ 10 ∷ (boundary ++ bytes "--" ++ tail))
behind_head boundary head content tail = drop-append_add 4 head _

content_part :
    (boundary content tail : Bytes)
    → take (length content + 2) (content ++ (13 ∷ 10 ∷ (boundary ++ bytes "--" ++ tail)))
      ≡ content ++ (13 ∷ 10 ∷ [])
content_part boundary content tail = take-append_add 2 content _

first_piece-whole :
    (boundary head content tail : Bytes)
    → find blank_line (part_body boundary head content tail) ≡ some (length head)
    → find (boundary ++ bytes "--") (part_body boundary head content tail)
      ≡ some (length head + 4 + (length content + 2))
    → first_piece boundary (part_body boundary head content tail)
      ≡ done (record { written = some (content ++ (13 ∷ 10 ∷ [])); next = complete })
first_piece-whole boundary head content tail h f =
    first_piece-end boundary (part_body boundary head content tail) (length head) _ h f
      (omega arith) (ground arith)
    ∙ ap (λ t. done (record { written = some t; next = complete }))
        (ap (λ n. take n (drop (length head + 4) (part_body boundary head content tail))) count
          ∙ ap (take (length content + 2)) (behind_head boundary head content tail)
          ∙ content_part boundary content tail)
  where
    count : (length head + 4 + (length content + 2)) - (length head + 4) ≡ length content + 2
    count = omega arith

-- The piece on the fresh file.
apply_fresh :
    (p : Piece) (u : Upload) (x : World)
    → Holds [] u x
    → Leaves (written_text p.written) p.next u.boundary (
      done (apply_piece p u x).0,
      record (apply_piece p u x).1 { custom = some (upload (apply_piece p u x).0) },
    )
apply_fresh p u x h =
    let r = apply_piece-Holds [] p u x h in
    (
      (apply_piece p u x).0,
      _,
      refl,
      record { stored = r.stored; counted = r.counted },
      apply_piece-next p u x,
      apply_piece-boundary p u x,
    )

module _ (env : Env) (creates : (path : Bytes) → env.can_create path ≡ true) where
  -- The first request: the file is created, and has what the piece writes.
  pub start_upload-Leaves :
      (boundary original body : Bytes) (w : World) (p : Piece)
      → first_piece boundary body ≡ done p
      → Leaves (written_text p.written) p.next boundary (start_upload env boundary original body w)
  unfolding start_upload unique_filename create_upload
  start_upload-Leaves boundary original body w p h =
      rw (creates _, h)
        (apply_fresh p _ _
          (record { stored = update_file-same w.files _ (some []); counted = refl }))

  -- A file that comes whole in one request, where the first blank line ends the head, the end
  -- boundary first occurs behind the content and its line end, and every file can be created: the
  -- upload is complete, and the file is the content and the line end that belongs to the boundary.
  pub start_upload-whole :
      (boundary original head content tail : Bytes) (w : World)
      → find blank_line (part_body boundary head content tail) ≡ some (length head)
      → find (boundary ++ bytes "--") (part_body boundary head content tail)
        ≡ some (length head + 4 + (length content + 2))
      → Leaves
          (content ++ (13 ∷ 10 ∷ []))
          complete
          boundary
          (start_upload env boundary original (part_body boundary head content tail) w)
  start_upload-whole boundary original head content tail w h f =
      start_upload-Leaves boundary original (part_body boundary head content tail) w _
        (first_piece-whole boundary head content tail h f)
