-- ===== src/App/Routes/Reach.antt =====
-- Which requests reach which handler.
use cloud_storge_system.Common.{
  ℕ, ◌≡◌, refl, true, Bytes, bytes, some, [], ◌∷◌, ◌++◌, NoByte, is_prefix, eqb, arith,
}
use cloud_storge_system.Net.Request.{get, head, delete}
use cloud_storge_system.App.Routes.{
  routes, find_route, match_path, no_slash, share_access, share_download, share_info, download_file,
  delete_file,
}

no_slash-NoByte : (name : Bytes) → NoByte 47 name → no_slash name ≡ true
unfolding no_slash
no_slash-NoByte [] h = refl
no_slash-NoByte (c ∷ cs) h = ground (arith, h.0, no_slash-NoByte cs h.1)

-- For a name that is not empty and has no slash, the six routes that take a name in the path
-- reach their own handlers, by the methods of the routes, and hand over that name as their
-- parameter.
pub find_route-group :
    (c : ℕ) (cs : Bytes)
    → NoByte 47 (c ∷ cs)
    → (find_route routes get (bytes "/share/" ++ c ∷ cs)
        ≡ some (share_access, (bytes "code", c ∷ cs) ∷ []))
      × (find_route routes get (bytes "/share/download/" ++ c ∷ cs)
          ≡ some (share_download, (bytes "filename", c ∷ cs) ∷ []))
      × (find_route routes get (bytes "/share/info/" ++ c ∷ cs)
          ≡ some (share_info, (bytes "code", c ∷ cs) ∷ []))
      × (find_route routes head (bytes "/download/" ++ c ∷ cs)
          ≡ some (download_file, (bytes "filename", c ∷ cs) ∷ []))
      × (find_route routes get (bytes "/download/" ++ c ∷ cs)
          ≡ some (download_file, (bytes "filename", c ∷ cs) ∷ []))
      × (find_route routes delete (bytes "/delete/" ++ c ∷ cs)
          ≡ some (delete_file, (bytes "filename", c ∷ cs) ∷ []))
unfolding find_route match_path is_prefix eqb
find_route-group c cs h =
    let n = no_slash-NoByte (c ∷ cs) h in
    (rw n refl, rw n refl, rw n refl, rw n refl, rw n refl, rw n refl)
