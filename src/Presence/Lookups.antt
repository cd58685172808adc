-- ===== src/Presence/Lookups.antt =====
-- What a lookup finds after a write to the registry: src/presence/presence.service.ts.
use workspacebridge_backend.Base.{
  ◌≡◌, refl, true, false, not, ◌&&◌, ◌||◌, none, some, List, [], ◌∷◌, ◌++◌, arith, inl, inr, ◌==◌,
  if◌then◌else◌, length, elem, delete_where, ==_iff, ==_self, Option-cases, Bool-cases, sym, subst,
}
use workspacebridge_backend.Store.{Text}
use workspacebridge_backend.Presence.{
  Registry, lookup, put, drop_key, insert, discard, add, remove, get_socket_ids,
}

module _ {V : Type 0} where
  pub lookup-put_self :
      (u : Text) (s old : V) (r : List (Text × V))
      → lookup u r ≡ some old
      → lookup u (put u s r) ≡ some s
  unfolding lookup put
  lookup-put_self u s old [] e = ground arith
  lookup-put_self u s old ((k, ss) ∷ r) e = ground (arith, lookup-put_self u s old r)

  pub lookup-put_other :
      (u v : Text) (s : V) (r : List (Text × V))
      → (u == v) ≡ false
      → lookup v (put u s r) ≡ lookup v r
  unfolding lookup put
  lookup-put_other u v s [] n = refl
  lookup-put_other u v s ((k, ss) ∷ r) n = ground (arith, lookup-put_other u v s r n)

  pub lookup-drop_key_self : (u : Text) (r : List (Text × V)) → lookup u (drop_key u r) ≡ none
  unfolding lookup drop_key
  lookup-drop_key_self u [] = refl
  lookup-drop_key_self u ((k, ss) ∷ r) = ground (arith, lookup-drop_key_self u r)

  pub lookup-drop_key_other :
      (u v : Text) (r : List (Text × V)) → (u == v) ≡ false → lookup v (drop_key u r) ≡ lookup v r
  unfolding lookup drop_key
  lookup-drop_key_other u v [] n = refl
  lookup-drop_key_other u v ((k, ss) ∷ r) n = ground (arith, lookup-drop_key_other u v r n)

  pub lookup-append_self :
      (u : Text) (s : V) (r : List (Text × V))
      → lookup u r ≡ none
      → lookup u (r ++ (u, s) ∷ []) ≡ some s
  unfolding lookup
  lookup-append_self u s [] e = ground (arith, ==_self u)
  lookup-append_self u s ((k, ss) ∷ r) e = ground (arith, lookup-append_self u s r)

  pub lookup-append_other :
      (u v : Text) (s : V) (r : List (Text × V))
      → (u == v) ≡ false
      → lookup v (r ++ (u, s) ∷ []) ≡ lookup v r
  unfolding lookup
  lookup-append_other u v s [] n = ground arith
  lookup-append_other u v s ((k, ss) ∷ r) n = ground (arith, lookup-append_other u v s r n)

elem-append_one : (t s : Text) (ss : List Text) → elem t (ss ++ s ∷ []) ≡ (elem t ss || t == s)
unfolding elem
elem-append_one t s [] = ground arith
elem-append_one t s (k ∷ ss) = ground (arith, elem-append_one t s ss)

pub elem-insert : (t s : Text) (ss : List Text) → elem t (insert s ss) ≡ (elem t ss || t == s)
unfolding insert
elem-insert t s ss = elim (Bool-cases (elem s ss)) [
  | inl present ↦ elim (Bool-cases (t == s)) [
    | inl same ↦ ground (arith, subst (λ k. elem k ss ≡ true) (sym ((==_iff t s).0 same)) present)
    | inr other ↦ ground arith
  ]
  | inr absent ↦ ground (arith, elem-append_one t s ss)
]

pub elem-discard :
    (t s : Text) (ss : List Text) → elem t (discard s ss) ≡ (elem t ss && not (t == s))
unfolding discard delete_where elem
elem-discard t s [] = refl
elem-discard t s (k ∷ ss) = ground (arith, elem-discard t s ss)

pub no_members : (ss : List Text) → (length ss == 0) ≡ true → ss ≡ []
no_members [] e = refl
no_members (k ∷ ss) e = ground arith

pub lookup-add_self :
    (u s : Text) (r : Registry) → lookup u (add u s r) ≡ some (insert s (get_socket_ids u r))
unfolding add insert elem
lookup-add_self u s r = elim (Option-cases (lookup u r)) [
  | inl gone ↦ ground (arith, lookup-append_self u (s ∷ []) r gone)
  | inr (ss, e) ↦ ground (arith, lookup-put_self u (insert s ss) ss r e)
]

pub lookup-add_other :
    (u s v : Text) (r : Registry) → (u == v) ≡ false → lookup v (add u s r) ≡ lookup v r
unfolding add
lookup-add_other u s v r n = elim (Option-cases (lookup u r)) [
  | inl gone ↦ ground (arith, lookup-append_other u v (s ∷ []) r n)
  | inr (ss, e) ↦ ground (arith, lookup-put_other u v (insert s ss) r n)
]

-- A user whose last socket goes is dropped.
pub lookup-remove_self :
    (u s : Text) (r : Registry)
    → let rest = discard s (get_socket_ids u r) in
      lookup u (remove u s r) ≡ (if length rest == 0 then none else some rest)
unfolding remove discard delete_where
lookup-remove_self u s r = elim (Option-cases (lookup u r)) [
  | inl gone ↦ ground arith
  | inr (ss, e) ↦ elim (Bool-cases (length (discard s ss) == 0)) [
    | inl last ↦ ground (arith, lookup-drop_key_self u r)
    | inr more ↦ ground (arith, lookup-put_self u (discard s ss) ss r e)
  ]
]

pub lookup-remove_other :
    (u s v : Text) (r : Registry) → (u == v) ≡ false → lookup v (remove u s r) ≡ lookup v r
unfolding remove
lookup-remove_other u s v r n = elim (Option-cases (lookup u r)) [
  | inl gone ↦ ground arith
  | inr (ss, e) ↦ elim (Bool-cases (length (discard s ss) == 0)) [
    | inl last ↦ ground (arith, lookup-drop_key_other u v r n)
    | inr more ↦ ground (arith, lookup-put_other u v (discard s ss) r n)
  ]
]

pub length-insert : (s : Text) (ss : List Text) → (length (insert s ss) == 0) ≡ false
unfolding insert elem
length-insert s [] = refl
length-insert s (k ∷ ss) = ground arith
