-- ===== src/App/Upload.antt =====
-- `handleFileUpload` and `FileUploadContext`: a multipart body that may come in pieces.
use cloud_storge_system.Common.{
  ℕ, ◌+◌, ◌-◌, ◌==◌, ltb, leb, Bool, true, false, Bytes, bytes, Option, none, some, [], ◌∷◌, ◌++◌,
  if◌then◌else◌, length, find, drop, take,
}
use cloud_storge_system.App.World.{
  World, Outcome, done, undefined, Upload, UploadState, expect_headers, expect_content,
  expect_boundary, complete,
}
use cloud_storge_system.App.Delete.{update_file}

-- "\r\n\r\n".
abbrev pub blank_line : Bytes
blank_line = 13 ∷ 10 ∷ 13 ∷ 10 ∷ []

abbrev pub end_boundary : Upload → Bytes
end_boundary u = u.boundary ++ bytes "--"

-- A piece of a body splits into the bytes that `writeData` gets, if it is called, and the state
-- behind them.
pub record Piece : Type 0 where
  pub written : Option Bytes
  pub next : UploadState

abbrev pub some_if : Bool → Bytes → Option Bytes
some_if true text = some text
some_if false text = none

-- `writeData(body.data() + pos, endPos - pos)`: where the end boundary stands before the content
-- the length wraps round, and the call reads out of bounds.
abbrev first_end : Bytes → ℕ → ℕ → Outcome Piece
first_end body start stop =
    if stop == 0
    then done (record { written = none; next = complete })
    else if leb start stop
    then done (record { written = some (take (stop - start) (drop start body)); next = complete })
    else undefined

abbrev first_open : Bytes → ℕ → Outcome Piece
first_open body start = done (record {
  written = some_if (ltb start (length body)) (drop start body);
  next = expect_boundary;
})

abbrev first_content : Bytes → ℕ → Option ℕ → Outcome Piece
first_content body start none = first_open body start
first_content body start (some stop) = first_end body start stop

-- The first piece, with the header of its part: `boundary` begins with two dashes.
abbrev first_at : Bytes → Bytes → Option ℕ → Outcome Piece
first_at boundary body none = done (record { written = none; next = expect_headers })
first_at boundary body (some pos) =
    first_content body (pos + 4) (find (boundary ++ bytes "--") body)

unfoldable pub first_piece : Bytes → Bytes → Outcome Piece
first_piece boundary body = first_at boundary body (find blank_line body)

abbrev add_opt : ℕ → Option ℕ → Option ℕ
add_opt n none = none
add_opt n (some i) = some (n + i)

-- `body.find("\r\n\r\n", pos)`.
abbrev pub find_from : Bytes → ℕ → Bytes → Option ℕ
find_from p pos body = add_opt pos (find p (drop pos body))

abbrev boundary_header : Bytes → ℕ → Option ℕ → Piece
boundary_header body pos none = record { written = none; next = expect_boundary }
boundary_header body pos (some start) = record {
  written = some_if (ltb 0 pos) (take pos body);
  next = expect_content;
}

abbrev boundary_next : Bytes → Option ℕ → Piece
boundary_next body none = record { written = some body; next = expect_boundary }
boundary_next body (some pos) = boundary_header body pos (find_from blank_line pos body)

abbrev boundary_end : Bytes → Bytes → Option ℕ → Piece
boundary_end boundary body none = boundary_next body (find boundary body)
boundary_end boundary body (some stop) = record {
  written = some_if (ltb 0 stop) (take stop body);
  next = complete;
}

abbrev content_next : Bytes → Option ℕ → Piece
content_next body none = record { written = some body; next = expect_content }
content_next body (some pos) = record { written = some (take pos body); next = expect_boundary }

-- A later piece that is not empty, in each state.
unfoldable pub later_piece : UploadState → Bytes → Bytes → Piece
later_piece expect_boundary boundary body =
    boundary_end boundary body (find (boundary ++ bytes "--") body)
later_piece expect_content boundary body = content_next body (find boundary body)
later_piece complete boundary body = record { written = none; next = complete }
later_piece expect_headers boundary body = record { written = none; next = expect_headers }

-- `writeData`, on an open file.
unfoldable pub write_data : Bytes → Upload → World → Upload × World
write_data text u w =
    let old : Bytes = elim (w.files u.filename) [ none ↦ [] | some content ↦ content ] in
    (
      record u { total_bytes = u.total_bytes + length text },
      record w { files = update_file w.files u.filename (some (old ++ text)) },
    )

abbrev write_opt : Option Bytes → Upload → World → Upload × World
write_opt none u w = (u, w)
write_opt (some text) u w = write_data text u w

-- The writes and the state change of one piece.
unfoldable pub apply_piece : Piece → Upload → World → Upload × World
unfolding write_data
apply_piece p u w = let (u', w') = write_opt p.written u w in (record u' { state = p.next }, w')
