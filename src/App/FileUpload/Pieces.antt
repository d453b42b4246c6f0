-- ===== src/App/FileUpload/Pieces.antt =====
-- What an upload writes: one piece, a series of pieces, and a body in one request.
use mathlib.Core.Path.{subst}
use cloud_storge_system.Common.{
  ℕ, zero, suc, ◌≢◌, is_prefix, ◌≡◌, refl, sym, ap, ◌∙◌, true, Bytes, bytes, Option, none, some,
  List, [], ◌∷◌, ◌++◌, ltb, eqb_refl, length, length-append, take, find, All, arith, append_assoc,
  append-nil,
}
use cloud_storge_system.App.World.{
  Env, World, M, Outcome, done, bind_outcome, Upload, UploadState, expect_boundary, complete,
}
use cloud_storge_system.App.Delete.{update_file}
use cloud_storge_system.App.Upload.{Piece, later_piece, apply_piece, write_data}
use cloud_storge_system.App.FileUpload.{continue_upload}

-- The file of the upload is `content`, and the counter is its length.
pub record Holds (content : Bytes) (u : Upload) (w : World) : Type 0 where
  pub stored : w.files u.filename ≡ some content
  pub counted : u.total_bytes ≡ length content

-- The bytes that a piece writes.
abbrev pub written_text : Option Bytes → Bytes
written_text none = []
written_text (some text) = text

pub update_file-same :
    (files : Bytes → Option Bytes) (path : Bytes) (content : Option Bytes)
    → update_file files path content path ≡ content
update_file-same files path content = rw (eqb_refl path) refl

write_data-Holds :
    (content text : Bytes) (u : Upload) (w : World)
    → Holds content u w
    → Holds (content ++ text) (write_data text u w).0 (write_data text u w).1
unfolding write_data
write_data-Holds content text u w h = record {
  stored =
      update_file-same w.files u.filename _
      ∙ ap (λ (o : Option Bytes). some (elim o [ none ↦ [] | some c ↦ c ] ++ text)) h.stored;
  counted = omega (arith, h.counted, length-append content text);
}

-- One piece: its bytes go behind the file.
Applied : Bytes → Piece → Upload × World → Type 0
Applied content p (u, w) = Holds (content ++ written_text p.written) u w × (u.state ≡ p.next)

pub apply_piece-Holds :
    (content : Bytes) (p : Piece) (u : Upload) (w : World)
    → Holds content u w
    → Holds (content ++ written_text p.written) (apply_piece p u w).0 (apply_piece p u w).1
unfolding apply_piece
apply_piece-Holds content p u w h = by_write p.written
  where
    by_write :
        (o : Option Bytes)
        → Holds
            (content ++ written_text o)
            (apply_piece (record p { written = o }) u w).0
            (apply_piece (record p { written = o }) u w).1
    by_write none = record {
      stored = h.stored ∙ ap some (sym (append-nil content));
      counted = h.counted ∙ ap length (sym (append-nil content));
    }
    by_write (some text) =
        let r = write_data-Holds content text u w h in
        record { stored = r.stored; counted = r.counted }

pub apply_piece-next : (p : Piece) (u : Upload) (w : World) → (apply_piece p u w).0.state ≡ p.next
unfolding apply_piece
apply_piece-next p u w = refl

pub apply_piece-boundary :
    (p : Piece) (u : Upload) (w : World) → (apply_piece p u w).0.boundary ≡ u.boundary
unfolding apply_piece write_data
apply_piece-boundary p u w = by_write p.written
  where
    by_write :
        (o : Option Bytes) → (apply_piece (record p { written = o }) u w).0.boundary ≡ u.boundary
    by_write none = refl
    by_write (some text) = refl

-- The file and the state behind a request that goes well.
abbrev pub Leaves : Bytes → UploadState → Bytes → Outcome Upload × World → Type 0
Leaves content s boundary o =
    (u : Upload) × (w : World) × (o ≡ (done u, w))
    × Holds content u w
    × (u.state ≡ s)
    × (u.boundary ≡ boundary)

module _ (env : Env) where
  -- What a later request writes, and the state behind it.
  pub text_of_piece : Upload → Bytes → Bytes
  text_of_piece u [] = []
  text_of_piece u (c ∷ cs) = written_text (later_piece u.state u.boundary (c ∷ cs)).written

  -- Whatever a later request brings, in whatever state, the file of an upload only grows at its
  -- end, and the counter stays the length of the file.
  continue_upload-Leaves :
      (content body : Bytes) (u : Upload) (w : World)
      → Holds content u w
      → (text : Bytes) × (s : UploadState) × Leaves
          (content ++ text)
          s
          u.boundary
          (continue_upload env u body w)
  unfolding continue_upload
  continue_upload-Leaves content [] u w h = (
    [],
    u.state,
    (
      u,
      w,
      refl,
      record {
        stored = h.stored ∙ ap some (sym (append-nil content));
        counted = h.counted ∙ ap length (sym (append-nil content));
      },
      refl,
      refl,
    ),
  )
  continue_upload-Leaves content (c ∷ cs) u w h =
      let p = later_piece u.state u.boundary (c ∷ cs) in
      let r = apply_piece-Holds content p u w h in
      (
        written_text p.written,
        p.next,
        (
          (apply_piece p u w).0,
          _,
          refl,
          record { stored = r.stored; counted = r.counted },
          apply_piece-next p u w,
          apply_piece-boundary p u w,
        ),
      )

  -- One piece that is not empty, by the equation for what it becomes.
  piece-Leaves :
      (content body : Bytes) (u : Upload) (w : World) (p : Piece)
      → Holds content u w
      → body ≢ []
      → later_piece u.state u.boundary body ≡ p
      → Leaves (content ++ written_text p.written) p.next u.boundary (continue_upload env u body w)
  unfolding continue_upload
  piece-Leaves content [] u w p h n e = absurd (n refl)
  piece-Leaves content (c ∷ cs) u w p h n e =
      let r = apply_piece-Holds content p u w h in
      rw e (
        (apply_piece p u w).0,
        _,
        refl,
        record { stored = r.stored; counted = r.counted },
        apply_piece-next p u w,
        apply_piece-boundary p u w,
      )

  -- Several requests of one upload, one after another.
  unfoldable pub continue_all : List Bytes → Upload → M Upload
  unfolding continue_upload
  continue_all [] u w = (done u, w)
  continue_all (body ∷ bodies) u w =
      bind_outcome (continue_upload env u body w) (continue_all bodies)

  pub texts : List Bytes → Bytes
  texts [] = []
  texts (body ∷ bodies) = body ++ texts bodies

  -- A part of the content: the boundary does not occur in it.
  abbrev pub IsInner : Bytes → Bytes → Type 0
  IsInner boundary body =
      (body ≢ []) × (find (boundary ++ bytes "--") body ≡ none) × (find boundary body ≡ none)

  later_piece-inner :
      (boundary body : Bytes)
      → IsInner boundary body
      → later_piece expect_boundary boundary body
        ≡ record { written = some body; next = expect_boundary }
  unfolding later_piece
  later_piece-inner boundary body h = rw (h.1, h.2) refl

  -- The end boundary does not occur in an empty piece.
  found-not_nil :
      (boundary body : Bytes) (stop : ℕ)
      → find (boundary ++ bytes "--") body ≡ some stop
      → body ≢ []
  unfolding find is_prefix
  found-not_nil boundary (c ∷ cs) stop h e = ground (arith, e)
  found-not_nil [] [] stop h e = ground (arith, h)
  found-not_nil (b ∷ bs) [] stop h e = ground (arith, h)

  later_piece-last :
      (boundary body : Bytes) (stop : ℕ)
      → find (boundary ++ bytes "--") body ≡ some stop
      → (written_text (later_piece expect_boundary boundary body).written ≡ take stop body)
        × ((later_piece expect_boundary boundary body).next ≡ complete)
  unfolding later_piece
  later_piece-last boundary body zero h = rw h (refl, refl)
  later_piece-last boundary body (suc stop) h =
      let z : ltb 0 (suc stop) ≡ true = ground arith in rw (h, z) (refl, refl)

  -- What a request leaves, by what it writes and the state behind it.
  continue_upload-text :
      (content text : Bytes) (s : UploadState) (body : Bytes) (u : Upload) (w : World)
      → Holds content u w
      → body ≢ []
      → written_text (later_piece u.state u.boundary body).written ≡ text
      → (later_piece u.state u.boundary body).next ≡ s
      → Leaves (content ++ text) s u.boundary (continue_upload env u body w)
  continue_upload-text content text s body u w h n e f =
      rw (← e, ← f) (piece-Leaves content body u w (later_piece u.state u.boundary body) h n refl)

  Continued : Bytes → Bytes → List Bytes → Outcome Upload × World → Type 0
  Continued content boundary bodies o =
      Leaves content complete boundary (bind_outcome o (continue_all bodies))

  -- An upload in pieces, from the state in which a boundary is expected: requests with bodies that
  -- are not empty and do not contain the boundary, then one that contains the end boundary, leave
  -- the file with all their bytes up to the end boundary in order, its counter right, and the
  -- upload complete.
  pub continue_all-Leaves :
      (content : Bytes) (bodies : List Bytes) (last : Bytes) (stop : ℕ) (u : Upload) (w : World)
      → Holds content u w
      → u.state ≡ expect_boundary
      → All (IsInner u.boundary) bodies
      → find (u.boundary ++ bytes "--") last ≡ some stop
      → Leaves
          (content ++ (texts bodies ++ take stop last))
          complete
          u.boundary
          (continue_all (bodies ++ last ∷ []) u w)
  unfolding continue_all texts
  continue_all-Leaves content [] last stop u w h e inner f =
      let p = later_piece-last u.boundary last stop f in
      let (u', w', ran, holds, at, same) =
        continue_upload-text content (take stop last) complete last u w h
          (found-not_nil u.boundary last stop f)
          (ap (λ s. written_text (later_piece s u.boundary last).written) e ∙ p.0)
          (ap (λ s. (later_piece s u.boundary last).next) e ∙ p.1) in
      (u', w', ap (λ o. bind_outcome o (continue_all [])) ran, holds, at, same)
  continue_all-Leaves content (body ∷ bodies) last stop u w h e (i, inner) f =
      let p = later_piece-inner u.boundary body i in
      let (v, x, ran, holds, at, same) =
        continue_upload-text content body expect_boundary body u w h i.0
          (ap (λ s. written_text (later_piece s u.boundary body).written) e
            ∙ ap (λ q. written_text q.written) p)
          (ap (λ s. (later_piece s u.boundary body).next) e ∙ ap (λ q. q.next) p) in
      let (u', w', ran', holds', at', same') =
        continue_all-Leaves (content ++ body) bodies last stop v x holds at
          (subst (λ b. All (IsInner b) bodies) (sym same) inner)
          (ap (λ b. find (b ++ bytes "--") last) same ∙ f) in
      (
        u',
        w',
        ap (λ o. bind_outcome o (continue_all (bodies ++ last ∷ []))) ran ∙ ran',
        subst (λ t. Holds t u' w')
            (append_assoc content body (texts bodies ++ take stop last)
              ∙ ap (λ t. content ++ t) (sym (append_assoc body (texts bodies) (take stop last))))
            holds',
        at',
        same' ∙ same,
      )
