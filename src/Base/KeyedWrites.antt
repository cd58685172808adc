-- ===== src/Base/KeyedWrites.antt =====
-- Writes that keep a key unique.
use Prim.Native.Nat.{ℕ}
use mathlib.Core.Path.{◌≡◌, refl}
use mathlib.Core.Bool.{Bool, false}
use mathlib.Core.Option.{none}
use mathlib.Core.List.{List, [], ◌∷◌, ◌++◌}
use native.Mathlib.Omega.{arith}
use workspacebridge_backend.Base.Tests.{◌==◌}
use workspacebridge_backend.Base.Table.{find, update_where, delete_where}
use workspacebridge_backend.Base.Queries.{find-delete_where_absent}
use workspacebridge_backend.Base.Keys.{has_key, IsKeyed}

module _ {ℓ} {A : Type ℓ} (key : A → ℕ) where
  find-append_absent :
      (k : ℕ) (xs : List A) (a : A)
      → find (has_key key k) xs ≡ none
      → (key a == k) ≡ false
      → find (has_key key k) (xs ++ a ∷ []) ≡ none
  unfolding find
  find-append_absent k [] a e n = ground arith
  find-append_absent k (x ∷ xs) a e n = ground (arith, find-append_absent k xs a)

  -- A row with a fresh key.
  pub append-IsKeyed :
      (xs : List A) (a : A)
      → IsKeyed key xs
      → find (has_key key (key a)) xs ≡ none
      → IsKeyed key (xs ++ a ∷ [])
  unfolding find
  append-IsKeyed [] a u e = (refl, tt)
  append-IsKeyed (x ∷ xs) a u e =
      ground (arith, find-append_absent (key x) xs a u.0, append-IsKeyed xs a u.1)

  pub delete_where-IsKeyed :
      (q : A → Bool) (xs : List A) → IsKeyed key xs → IsKeyed key (delete_where q xs)
  unfolding delete_where
  delete_where-IsKeyed q [] u = tt
  delete_where-IsKeyed q (x ∷ xs) u = ground (
    arith,
    delete_where-IsKeyed q xs u.1,
    find-delete_where_absent (has_key key (key x)) q xs u.0,
  )

  find-update_where_absent :
      (k : ℕ) (q : A → Bool) (f : A → A) (xs : List A)
      → ((x : A) → key (f x) ≡ key x)
      → find (has_key key k) xs ≡ none
      → find (has_key key k) (update_where q f xs) ≡ none
  unfolding find update_where
  find-update_where_absent k q f [] h e = refl
  find-update_where_absent k q f (x ∷ xs) h e =
      ground (arith, h x, find-update_where_absent k q f xs h)

  -- A change that keeps the keys.
  pub update_where-IsKeyed :
      (q : A → Bool) (f : A → A) (xs : List A)
      → ((x : A) → key (f x) ≡ key x)
      → IsKeyed key xs
      → IsKeyed key (update_where q f xs)
  unfolding update_where
  update_where-IsKeyed q f [] h u = tt
  update_where-IsKeyed q f (x ∷ xs) h u =
      ground (
        arith,
        h x,
        update_where-IsKeyed q f xs h u.1,
        find-update_where_absent (key x) q f xs h u.0,
      )
