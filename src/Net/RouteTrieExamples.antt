-- ===== src/Net/RouteTrieExamples.antt =====
-- The theorems on the trie of routes, at concrete routes.
use cloud_storge_system.Common.{◌≡◌, refl, bytes, [], ◌∷◌, eqb}
use cloud_storge_system.Net.RouteTrie.{Node, empty_node, add_route, find_route, split_path}
use cloud_storge_system.Net.RouteTrie.Static.{find_route-add_route}
use cloud_storge_system.Net.RouteTrie.LastParam.{find_route-last_param}
use cloud_storge_system.Net.Examples.{all_of, NoByte-all_of}

-- A trie with a route whose parameter would take the same path.
abbrev files : Node
files = add_route (bytes "/files/:id") (bytes "GET") (bytes "one") empty_node

find_route-add_route_example :
    find_route
      (bytes "/files/all")
      (bytes "GET")
      (add_route (bytes "/files/all") (bytes "GET") (bytes "all") files)
    ≡ (bytes "all", [])
unfolding all_of split_path
find_route-add_route_example =
    find_route-add_route (bytes "/files/all") (bytes "GET") (bytes "all") files
      (NoByte-all_of 63 (bytes "/files/all") refl) (refl, (refl, tt))

find_route-last_param_example :
    find_route
      (bytes "/files/7")
      (bytes "GET")
      (add_route (bytes "/files/:id") (bytes "GET") (bytes "one") empty_node)
    ≡ ([], [])
unfolding all_of split_path eqb
find_route-last_param_example =
    find_route-last_param (bytes "/files/:id") (bytes "/files/7") (bytes "id") (bytes "7")
      (bytes "GET") (bytes "one") (bytes "files" ∷ []) refl
      (NoByte-all_of 63 (bytes "/files/7") refl) refl ((refl, refl, refl), tt) refl
