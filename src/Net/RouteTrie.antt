-- ===== src/Net/RouteTrie.antt =====
-- net/RouteTrie.h and net/RouteTrie.cc: a trie of routes. A std::map of children is a list in the
-- order of its keys; a handler is a name; an unordered_map of parameters is a list without order.
pub mod Static
pub mod LastParam
use cloud_storge_system.Common.{
  ℕ, ◌==◌, Bool, true, false, not, Bytes, bytes, Option, none, some, List, [], ◌∷◌, ◌++◌,
  if◌then◌else◌, eqb, bytes_lt, lookup, insert, split_at, text_or_empty,
}

abbrev pub Params : Type 0
Params = List (Bytes × Bytes)

-- The members of a TrieNode besides its children.
pub record Entry : Type 0 where
  pub handlers : List (Bytes × Bytes)
  pub param_names : List Bytes
  pub is_leaf : Bool

mutual
  pub data Node : Type 0 where
    node : Children → Entry → Node

  pub data Children : Type 0 where
    nil : Children
    cons : Bytes → Node → Children → Children

abbrev pub empty_node : Node
empty_node = node nil (record { handlers = []; param_names = []; is_leaf = false })

-- The loop of `splitPath`, with the segment that is being read.
abbrev push : Bytes → List Bytes → List Bytes
push [] segments = segments
push (c ∷ cs) segments = (c ∷ cs) ∷ segments

unfoldable pub split_from : Bytes → Bytes → List Bytes
split_from segment [] = push segment []
split_from segment (c ∷ cs) =
    let rest = split_from [] cs in
    let more = split_from (segment ++ (c ∷ [])) cs in if c == b'/' then push segment rest else more

-- `splitPath`.
unfoldable pub split_path : Bytes → List Bytes
unfolding split_from
split_path path = split_from [] path

unfoldable pub child : Bytes → Children → Option Node
child key nil = none
child key (cons k n ns) = if eqb k key then some n else child key ns

-- `children[key] = n`.
unfoldable pub put : Bytes → Node → Children → Children
put key n nil = cons key n nil
put key n (cons k m ns) =
    if eqb k key
    then cons key n ns
    else if bytes_lt key k
    then cons key n (cons k m ns)
    else cons k m (put key n ns)

abbrev pub or_empty : Option Node → Node
or_empty none = empty_node
or_empty (some n) = n

-- A segment that starts with a colon: what follows the colon.
abbrev pub param_of : Bytes → Option Bytes
param_of [] = none
param_of (c ∷ cs) = if c == b':' then some cs else none

-- One round of `addRoute` at a node; `down` goes on at the child.
abbrev pub place : Option Bytes → Bytes → (Node → Node) → Children → Entry → Node
place (some name) segment down ns e =
    node (put (bytes "*") (down (or_empty (child (bytes "*") ns))) ns)
      (record e { param_names = e.param_names ++ (name ∷ []) })
place none segment down ns e = node (put segment (down (or_empty (child segment ns))) ns) e

-- The loop of `addRoute` and what follows it, from a node on.
unfoldable pub add_at : List Bytes → Bytes → Bytes → Node → Node
unfolding child put insert
add_at [] method handler (node ns e) =
    node ns (record e { is_leaf = true; handlers = insert method handler e.handlers })
add_at (segment ∷ segments) method handler (node ns e) =
    place (param_of segment) segment (add_at segments method handler) ns e

-- `addRoute`.
unfoldable pub add_route : Bytes → Bytes → Bytes → Node → Node
unfolding add_at split_path
add_route path method handler root = add_at (split_path path) method handler root

abbrev pub Match : Type 0
Match = Entry × Params

-- The last name that `param_names.back()` gives.
abbrev back : List Bytes → Option Bytes
back [] = none
back (n ∷ []) = some n
back (n ∷ m ∷ ns) = back (m ∷ ns)

abbrev pub names_of : Node → List Bytes
names_of (node ns e) = e.param_names

abbrev with_slash : Bytes → Bytes → Bytes
with_slash [] segment = segment
with_slash (c ∷ cs) segment = (c ∷ cs) ++ bytes "/" ++ segment

-- `findMatches` on the segments that are left, and its loop over what a wildcard takes: `wild` gets
-- the text of the segments taken so far and goes on with those that are left.
pub record Search : Type 0 where
  pub find : Node → Params → List Match
  pub wild : Node → Bytes → Params → List Match

abbrev pub at_end : Node → Params → List Match
at_end (node ns e) params = if e.is_leaf then (e, params) ∷ [] else []

abbrev pub exact : Search → Option Node → Params → List Match
exact below none params = []
exact below (some n) params = below.find n params

abbrev by_name : Search → Bytes → Node → Option Bytes → Params → List Match
by_name below segment n none params = []
by_name below segment n (some name) params = below.find n (insert name segment params)

abbrev pub by_param : Search → Bytes → Option Node → Params → List Match
by_param below segment none params = []
by_param below segment (some n) params = by_name below segment n (back (names_of n)) params

abbrev pub by_wildcard : Search → Bytes → Option Node → Params → List Match
by_wildcard below segment none params = []
by_wildcard below segment (some n) params = below.wild n (with_slash [] segment) params

-- One call with a segment left; `below` searches behind the segment.
abbrev pub find_round : Bytes → Search → Node → Params → List Match
find_round segment below (node ns e) params =
    exact below (child segment ns) params
    ++ (by_param below segment (child (bytes "*") ns) params
        ++ by_wildcard below segment (child (bytes "**") ns) params)

abbrev taken : (Node → Params → List Match) → Node → Bytes → Params → List Match
taken find n [] params = []
taken find n (c ∷ cs) params = find n (insert (bytes "*") (c ∷ cs) params)

unfoldable pub search : List Bytes → Search
unfolding child insert
search [] = record { find = at_end; wild = taken at_end }
search (segment ∷ segments) =
    let below = search segments in
    record {
      find = find_round segment below;
      wild = λ n value params.
          taken (find_round segment below) n value params
          ++ below.wild n (with_slash value segment) params;
    }

-- `findMatches`.
abbrev pub find_matches : List Bytes → Node → Params → List Match
find_matches segments n params = (search segments).find n params

-- The first match in the order of the search that has a handler for the method.
abbrev pub pick : Bytes → List Match → Bytes × Params
pick method [] = ([], [])
pick method ((e, params) ∷ ms) =
    let rest = pick method ms in
    if e.is_leaf
    then elim (lookup method e.handlers) [ some h ↦ (h, params) | none ↦ rest ]
    else rest

abbrev pub base_path : Bytes → Option (Bytes × Bytes) → Bytes
base_path path none = path
base_path path (some (before, after)) = before

-- `findRoute`.
unfoldable pub find_route : Bytes → Bytes → Node → Bytes × Params
unfolding split_path search
find_route path method root =
    pick method (find_matches (split_path (base_path path (split_at b'?' path))) root [])
