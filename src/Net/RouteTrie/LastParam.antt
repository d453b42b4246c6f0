-- ===== src/Net/RouteTrie/LastParam.antt =====
-- A route whose last segment is its only parameter. The name of a parameter is kept at the parent of
-- its node, and `findMatches` looks for it at the node itself.
use cloud_storge_system.Common.{
  ◌≡◌, ◌∙◌, ap, false, Bytes, bytes, none, some, List, [], ◌∷◌, ◌++◌, All, eqb, if◌then◌else◌,
  NoByte, split_at-eq-none, append-nil,
}
use cloud_storge_system.Net.RouteTrie.{
  nil, Params, empty_node, place, find_round, child, exact, by_param, by_wildcard, base_path,
  add_at, add_route, search, find_matches, pick, find_route, split_path,
}
use cloud_storge_system.Net.RouteTrie.Static.{IsStatic, eqb_refl}

-- A segment that is neither a parameter nor the name of a node for parameters or wildcards.
abbrev pub IsPlain : Bytes → Type 0
IsPlain segment =
    IsStatic segment × (eqb segment (bytes "*") ≡ false) × (eqb segment (bytes "**") ≡ false)

no-match :
    (segments : List Bytes) (name value method handler : Bytes) (params : Params)
    → All IsPlain segments
    → eqb (bytes "*") value ≡ false
    → find_matches
        (segments ++ (value ∷ []))
        (add_at (segments ++ ((b':' ∷ name) ∷ [])) method handler empty_node)
        params
      ≡ []
unfolding search add_at eqb child
no-match [] name value method handler params h v =
    ap
      (λ b.
        exact (search []) (if b then some (add_at [] method handler empty_node) else none) params
        ++ [])
      v
no-match (segment ∷ segments) name value method handler params ((s, star, stars), h) v =
    let below = search (segments ++ (value ∷ [])) in
    let down = add_at (segments ++ ((b':' ∷ name) ∷ [])) method handler in
    let next = down empty_node in
    ap
      (λ o.
        find_round segment below
          (place o segment down nil (record { handlers = []; param_names = []; is_leaf = false }))
          params)
      s
    ∙ ap
        (λ b.
          exact below (if b then some next else none) params
          ++ (by_param below segment (if eqb segment (bytes "*") then some next else none) params
              ++ by_wildcard below segment (if eqb segment (bytes "**") then some next else none)
                  params))
        (eqb_refl segment)
    ∙ ap
        (λ b.
          find_matches (segments ++ (value ∷ [])) next params
          ++ (by_param below segment (if b then some next else none) params
              ++ by_wildcard below segment (if eqb segment (bytes "**") then some next else none)
                  params))
        star
    ∙ ap
        (λ b.
          find_matches (segments ++ (value ∷ [])) next params
          ++ by_wildcard below segment (if b then some next else none) params)
        stars
    ∙ append-nil _
    ∙ no-match segments name value method handler params h v

-- When a route whose only parameter is its last segment is added to an empty trie, and none of its
-- other segments is * or **, no path in which that segment is replaced by another one but * is
-- found.
pub find_route-last_param :
    (path query name value method handler : Bytes) (segments : List Bytes)
    → split_path path ≡ segments ++ ((b':' ∷ name) ∷ [])
    → NoByte b'?' query
    → split_path query ≡ segments ++ (value ∷ [])
    → All IsPlain segments
    → eqb (bytes "*") value ≡ false
    → find_route query method (add_route path method handler empty_node) ≡ ([], [])
unfolding find_route add_route
find_route-last_param path query name value method handler segments p q r h v =
    ap
      (λ o. pick method (
        find_matches (split_path (base_path query o))
          (add_at (split_path path) method handler empty_node) []))
      (split_at-eq-none b'?' query q)
    ∙ ap (λ t. pick method (find_matches t (add_at (split_path path) method handler empty_node) []))
        r
    ∙ ap
        (λ t.
          pick method
            (find_matches (segments ++ (value ∷ [])) (add_at t method handler empty_node) []))
        p
    ∙ ap (pick method) (no-match segments name value method handler [] h v)
