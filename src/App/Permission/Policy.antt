-- ===== src/App/Permission/Policy.antt =====
-- Who may read a file, as a relation, against the decisions of the two download handlers.
use cloud_storge_system.Common.{
  ◌≡◌, refl, ◌≢◌, Bool, true, false, not, Bytes, bytes, inl, inr, Bool-cases, arith, eqb, eqb_iff,
  is_empty, [], ◌∷◌, ◌↔◌,
}
use cloud_storge_system.App.Number.{int_eqb_iff}
use cloud_storge_system.App.Permission.{
  Viewer, Grant, share_permits, is_owner, download_permits, share_download_permits,
}

-- What a share lets a viewer read who shows `code`: everybody a public one, a holder of the
-- extract code a protected one, and the named user one for a user.
pub data ShareLets (g : Grant) (v : Viewer) (code : Bytes) : Type 0 where
  for_all : g.share_type ≡ bytes "public" → ShareLets g v code
  for_code :
      g.share_type ≡ bytes "protected" → code ≢ [] → code ≡ g.extract_code → ShareLets g v code
  for_user :
      g.share_type ≡ bytes "user"
      → v.authenticated ≡ true
      → v.user ≡ g.shared_with
      → ShareLets g v code

-- A viewer may read a file of their own, and a file that the share they came by lets them read.
pub data MayRead (by_share : Bool) (g : Grant) (v : Viewer) (code : Bytes) : Type 0 where
  own : v.authenticated ≡ true → v.user ≡ g.owner → MayRead by_share g v code
  shared : by_share ≡ true → ShareLets g v code → MayRead by_share g v code

not_empty : (code : Bytes) → not (is_empty code) ≡ true → code ≢ []
not_empty [] h e = ground (arith, h)
not_empty (c ∷ cs) h e = ground (arith, e)

is_not_empty : (code : Bytes) → code ≢ [] → is_empty code ≡ false
is_not_empty [] h = ground (arith, h refl)
is_not_empty (c ∷ cs) h = refl

share_permits_sound :
    (g : Grant) (v : Viewer) (code : Bytes) → share_permits g v code ≡ true → ShareLets g v code
unfolding share_permits
share_permits_sound g v code h = elim (Bool-cases (eqb g.share_type (bytes "public"))) [
  | inl a ↦ for_all ((eqb_iff g.share_type (bytes "public")).0 a)
  | inr a ↦ elim (Bool-cases (eqb g.share_type (bytes "protected"))) [
    | inl b ↦
        for_code ((eqb_iff g.share_type (bytes "protected")).0 b)
          (not_empty code (ground (arith, a, b, h)))
          ((eqb_iff code g.extract_code).0 (ground (arith, a, b, h)))
    | inr b ↦
        for_user ((eqb_iff g.share_type (bytes "user")).0 (ground (arith, a, b, h)))
          (ground (arith, a, b, h)) ((int_eqb_iff v.user g.shared_with).0 (ground (arith, a, b, h)))
  ]
]

share_permits_complete :
    (g : Grant) (v : Viewer) (code : Bytes) → ShareLets g v code → share_permits g v code ≡ true
unfolding share_permits
share_permits_complete g v code (for_all p) = rw ((eqb_iff g.share_type (bytes "public")).1 p) refl
share_permits_complete g v code (for_code p n e) =
    rw (p, is_not_empty code n, (eqb_iff code g.extract_code).1 e) refl
share_permits_complete g v code (for_user p a e) =
    rw (p, a, (int_eqb_iff v.user g.shared_with).1 e) refl

is_owner-own :
    (g : Grant) (v : Viewer) → is_owner g v ≡ true → (v.authenticated ≡ true) × (v.user ≡ g.owner)
is_owner-own g v h = (ground (arith, h), (int_eqb_iff v.user g.owner).0 (ground (arith, h)))

-- The decision of `handleDownload` is true of exactly those who may read the file.
pub download_permits-MayRead :
    (by_share : Bool) (g : Grant) (v : Viewer) (code : Bytes)
    → (download_permits by_share g v code ≡ true) ↔ MayRead by_share g v code
unfolding download_permits
download_permits-MayRead by_share g v code = (sound, complete)
  where
    sound : download_permits by_share g v code ≡ true → MayRead by_share g v code
    sound h = elim (Bool-cases (is_owner g v)) [
      | inl o ↦ own (is_owner-own g v o).0 (is_owner-own g v o).1
      | inr o ↦ elim (Bool-cases by_share) [
        | inl s ↦ shared s (share_permits_sound g v code (ground (arith, o, s, h)))
        | inr s ↦
            own (is_owner-own g v (ground (arith, o, s, h))).0
              (is_owner-own g v (ground (arith, o, s, h))).1
      ]
    ]

    complete : MayRead by_share g v code → download_permits by_share g v code ≡ true
    complete (own a e) = let i = (int_eqb_iff v.user g.owner).1 e in ground (arith, a, i)
    complete (shared s l) = let p = share_permits_complete g v code l in ground (arith, s, p)

-- The decision of `handleShareDownload` is true of exactly those who may with a share code.
pub share_download_permits-MayRead :
    (g : Grant) (v : Viewer) (code : Bytes)
    → (share_download_permits g v code ≡ true) ↔ MayRead true g v code
unfolding share_download_permits download_permits
share_download_permits-MayRead g v code = download_permits-MayRead true g v code
