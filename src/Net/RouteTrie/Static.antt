-- ===== src/Net/RouteTrie/Static.antt =====
-- Routes without parameters: what is added is found again.
use cloud_storge_system.Common.{
  ◌≡◌, ◌∙◌, ap, refl, true, Bytes, bytes, none, some, List, [], ◌∷◌, ◌++◌, All, arith, eqb, eqb_iff,
  lookup, lookup-insert, if◌then◌else◌, NoByte, split_at-eq-none,
}
use cloud_storge_system.Net.RouteTrie.{
  Entry, Node, node, Children, nil, cons, Params, Match, child, put, or_empty, param_of, place,
  find_round, base_path, add_at, add_route, search, exact, by_param, by_wildcard, find_matches,
  pick, find_route, split_path,
}

child-put :
    (k j : Bytes) (n : Node) (ns : Children)
    → child j (put k n ns) ≡ (if eqb k j then some n else child j ns)
unfolding child put
child-put k j n nil = refl
child-put k j n (cons i m ns) =
    ground (arith, eqb_iff k j, eqb_iff i k, eqb_iff i j, child-put k j n ns)

-- A segment that is no parameter.
abbrev pub IsStatic : Bytes → Type 0
IsStatic segment = param_of segment ≡ none

pub eqb_refl : (k : Bytes) → eqb k k ≡ true
eqb_refl k = ground (arith, eqb_iff k k)

-- The first match for the segments of a route is the node that the route leads to.
first-match :
    (segments : List Bytes) (method handler : Bytes) (n : Node) (params : Params)
    → All IsStatic segments
    → (e : Entry) × (ms : List Match) × (find_matches segments
          (add_at segments method handler n)
          params
        ≡ (e, params) ∷ ms)
      × (e.is_leaf ≡ true)
      × (lookup method e.handlers ≡ some handler)
unfolding search add_at
first-match [] method handler (node ns e) params h = (
  _,
  [],
  refl,
  refl,
  lookup-insert method method handler e.handlers
      ∙ ap (λ b. if b then some handler else lookup method e.handlers) (eqb_refl method),
)
first-match (segment ∷ segments) method handler (node ns e) params (s, h) =
    let below = or_empty (child segment ns) in
    let next = add_at segments method handler below in
    let (f, ms, m, leaf, found) = first-match segments method handler below params h in
    let others =
      by_param (search segments) segment (child (bytes "*") (put segment next ns)) params
      ++ by_wildcard (search segments) segment (child (bytes "**") (put segment next ns)) params in
    (
      f,
      ms ++ others,
      ap
            (λ o.
              find_round segment (search segments)
                (place o segment (add_at segments method handler) ns e) params)
            s
          ∙ ap (λ o. exact (search segments) o params ++ others)
              (child-put segment segment next ns
                ∙ ap (λ b. if b then some next else child segment ns) (eqb_refl segment))
          ∙ ap (λ l. l ++ others) m,
      leaf,
      found,
    )

pick-first :
    (method handler : Bytes) (e : Entry) (params : Params) (ms : List Match)
    → e.is_leaf ≡ true
    → lookup method e.handlers ≡ some handler
    → pick method ((e, params) ∷ ms) ≡ (handler, params)
pick-first method handler e params ms leaf found =
    ap
      (λ b.
        if b
        then elim (lookup method e.handlers) as (λ x. Bytes × Params) [
          | some h ↦ (h, params)
          | none ↦ pick method ms
        ]
        else pick method ms)
      leaf
    ∙ ap (λ o. elim o as (λ x. Bytes × Params) [ some h ↦ (h, params) | none ↦ pick method ms ])
        found

-- Whatever routes a trie has, with parameters and wildcards too, a route that is added to it and
-- whose path has no question mark and no segment that starts with a colon is what its own path and
-- method find, without parameters.
pub find_route-add_route :
    (path method handler : Bytes) (root : Node)
    → NoByte b'?' path
    → All IsStatic (split_path path)
    → find_route path method (add_route path method handler root) ≡ (handler, [])
unfolding find_route add_route
find_route-add_route path method handler root q h =
    let (e, ms, m, leaf, found) = first-match (split_path path) method handler root [] h in
    ap
      (λ o. pick method (
        find_matches (split_path (base_path path o)) (add_at (split_path path) method handler root)
          []))
      (split_at-eq-none b'?' path q)
    ∙ ap (pick method) m
    ∙ pick-first method handler e [] ms leaf found
