-- ===== src/Presence.antt =====
-- Who is online: src/presence/presence.service.ts.
pub mod Lookups
pub mod Refinement
use workspacebridge_backend.Base.{
  ℕ, Bool, true, false, not, Option, none, some, List, [], ◌∷◌, ◌++◌, ◌==◌, if◌then◌else◌, is_some,
  or_else, length, elem, delete_where,
}
use workspacebridge_backend.Store.{Text}

-- `Map<string, Set<string>>`: the sockets of each user, keys and members in order of insertion.
abbrev pub Registry : Type 0
Registry = List (Text × List Text)

-- `Map.get`, `set` of a key that is there, and `delete`, on the entries of a map in order of insertion.
module _ {V : Type 0} where
  unfoldable pub lookup : Text → List (Text × V) → Option V
  lookup key [] = none
  lookup key ((k, v) ∷ rest) = if k == key then some v else lookup key rest

  unfoldable pub put : Text → V → List (Text × V) → List (Text × V)
  put key value [] = []
  put key value ((k, v) ∷ rest) = (if k == key then (k, value) else (k, v)) ∷ put key value rest

  unfoldable pub drop_key : Text → List (Text × V) → List (Text × V)
  drop_key key [] = []
  drop_key key ((k, v) ∷ rest) = if k == key then drop_key key rest else (k, v) ∷ drop_key key rest

-- `Set.add` and `Set.delete`
unfoldable pub insert : Text → List Text → List Text
insert s sockets = if elem s sockets then sockets else sockets ++ s ∷ []

unfoldable pub discard : Text → List Text → List Text
discard s sockets = delete_where (λ k. k == s) sockets

unfoldable pub add : Text → Text → Registry → Registry
add user_id socket_id registry = elim (lookup user_id registry) [
  | some sockets ↦ put user_id (insert socket_id sockets) registry
  | none ↦ registry ++ (user_id, socket_id ∷ []) ∷ []
]

unfoldable pub remove : Text → Text → Registry → Registry
remove user_id socket_id registry = elim (lookup user_id registry) [
  | none ↦ registry
  | some sockets ↦
      let rest = discard socket_id sockets in
      if length rest == 0 then drop_key user_id registry else put user_id rest registry
]

abbrev pub is_online : Text → Registry → Bool
is_online user_id registry = is_some (lookup user_id registry)

abbrev pub get_socket_ids : Text → Registry → List Text
get_socket_ids user_id registry = or_else (lookup user_id registry) []
