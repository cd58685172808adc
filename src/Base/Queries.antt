-- ===== src/Base/Queries.antt =====
-- Laws of the table queries.
use Prim.Native.Nat.{ℕ, zero, suc, ◌+◌, ◌-◌, ◌≤◌}
use mathlib.Core.Path.{◌≡◌, refl}
use mathlib.Core.Bool.{Bool, true, false}
use mathlib.Core.Option.{none, some}
use mathlib.Core.List.{List, [], ◌∷◌, ◌++◌, map}
use native.Mathlib.Omega.{arith}
use workspacebridge_backend.Base.Tests.{==_self, is_some}
use workspacebridge_backend.Base.Lists.{length, take, All}
use workspacebridge_backend.Base.Table.{find, select, count, update_where, delete_where, elem}

module _ {ℓ} {A : Type ℓ} where
  pub count-append : (p : A → Bool) (xs ys : List A) → count p (xs ++ ys) ≡ count p xs + count p ys
  unfolding count
  count-append p [] ys = omega arith
  count-append p (x ∷ xs) ys = ground (arith, count-append p xs ys)

  pub length-select : (p : A → Bool) (xs : List A) → length (select p xs) ≡ count p xs
  unfolding count select
  length-select p [] = refl
  length-select p (x ∷ xs) = ground (arith, length-select p xs)

  -- Deleting rows never makes more rows fit.
  pub count-delete_where-le :
      (p q : A → Bool) (xs : List A) → count p (delete_where q xs) ≤ count p xs
  unfolding count delete_where
  count-delete_where-le p q [] = omega arith
  count-delete_where-le p q (x ∷ xs) = ground (arith, count-delete_where-le p q xs)

  pub count-delete_where_self : (p : A → Bool) (xs : List A) → count p (delete_where p xs) ≡ 0
  unfolding count delete_where
  count-delete_where_self p [] = refl
  count-delete_where_self p (x ∷ xs) = ground (arith, count-delete_where_self p xs)

  -- A selection is not touched by a deletion of rows outside it.
  pub select-delete_where_other :
      (p q : A → Bool) (xs : List A)
      → ((x : A) → p x ≡ true → q x ≡ false)
      → select p (delete_where q xs) ≡ select p xs
  unfolding select delete_where
  select-delete_where_other p q [] h = refl
  select-delete_where_other p q (x ∷ xs) h = ground (arith, h x, select-delete_where_other p q xs h)

  pub select-append :
      (p : A → Bool) (xs ys : List A) → select p (xs ++ ys) ≡ select p xs ++ select p ys
  unfolding select
  select-append p [] ys = refl
  select-append p (x ∷ xs) ys = ground (arith, select-append p xs ys)

  -- A new row that does not fit leaves the selection as it was.
  pub select-append_other :
      (p : A → Bool) (xs : List A) (a : A) → p a ≡ false → select p (xs ++ a ∷ []) ≡ select p xs
  unfolding select
  select-append_other p [] a e = ground arith
  select-append_other p (x ∷ xs) a e = ground (arith, select-append_other p xs a e)

  -- A new row that fits joins the selection at the end.
  pub select-append_fits :
      (p : A → Bool) (xs : List A) (a : A)
      → p a ≡ true
      → select p (xs ++ a ∷ []) ≡ select p xs ++ a ∷ []
  unfolding select
  select-append_fits p [] a e = ground arith
  select-append_fits p (x ∷ xs) a e = ground (arith, select-append_fits p xs a e)

  -- The selected rows fit.
  pub All-select : (p : A → Bool) (xs : List A) → All (λ x. p x ≡ true) (select p xs)
  unfolding select
  All-select p [] = tt
  All-select p (x ∷ xs) = ground (arith, All-select p xs)

  -- Deleting the first `k` rows that fit, and perhaps more, leaves at most the rest of them.
  pub count-delete_where-take :
      (p q : A → Bool) (k : ℕ) (xs : List A)
      → All (λ x. q x ≡ true) (take k (select p xs))
      → count p (delete_where q xs) ≤ count p xs - k
  unfolding count delete_where select
  count-delete_where-take p q k [] h = omega arith
  count-delete_where-take p q zero (x ∷ xs) h = ground (arith, count-delete_where-le p q xs)
  count-delete_where-take p q (suc k) (x ∷ xs) h =
      ground (arith, count-delete_where-take p q k xs, count-delete_where-take p q (suc k) xs)

  -- A row that is found fits.
  pub find-fits : (p : A → Bool) (xs : List A) (x : A) → find p xs ≡ some x → p x ≡ true
  unfolding find
  find-fits p [] x h = ground arith
  find-fits p (y ∷ xs) x h = ground (arith, find-fits p xs x)

  -- Nothing that fits is left after a deletion.
  pub find-delete_where_self : (p : A → Bool) (xs : List A) → find p (delete_where p xs) ≡ none
  unfolding find delete_where
  find-delete_where_self p [] = refl
  find-delete_where_self p (x ∷ xs) = ground (arith, find-delete_where_self p xs)

  -- A deletion of rows that do not fit hides nothing.
  pub find-delete_where_other :
      (p q : A → Bool) (xs : List A)
      → ((x : A) → q x ≡ true → p x ≡ false)
      → find p (delete_where q xs) ≡ find p xs
  unfolding find delete_where
  find-delete_where_other p q [] h = refl
  find-delete_where_other p q (x ∷ xs) h = ground (arith, h x, find-delete_where_other p q xs h)

  -- What is not there is not there after a deletion either.
  pub find-delete_where_absent :
      (p q : A → Bool) (xs : List A) → find p xs ≡ none → find p (delete_where q xs) ≡ none
  unfolding find delete_where
  find-delete_where_absent p q [] e = refl
  find-delete_where_absent p q (x ∷ xs) e = ground (arith, find-delete_where_absent p q xs)

  -- A change that keeps the key is seen by a search for that key.
  pub find-update_where_self :
      (p : A → Bool) (f : A → A) (xs : List A)
      → ((x : A) → p (f x) ≡ p x)
      → find p (update_where p f xs) ≡ (elim (find p xs) [ none ↦ none | some x ↦ some (f x) ])
  unfolding find update_where
  find-update_where_self p f [] h = refl
  find-update_where_self p f (x ∷ xs) h = ground (arith, h x, find-update_where_self p f xs h)

  -- The row that a search finds is found changed, if the change keeps what the search tests.
  pub find-update_where_hit :
      (p q : A → Bool) (f : A → A) (xs : List A) (u : A)
      → ((x : A) → p (f x) ≡ p x)
      → find p xs ≡ some u
      → q u ≡ true
      → find p (update_where q f xs) ≡ some (f u)
  unfolding find update_where
  find-update_where_hit p q f [] u h e g = ground arith
  find-update_where_hit p q f (x ∷ xs) u h e g =
      ground (arith, h x, find-update_where_hit p q f xs u h)

  -- A change of rows that do not fit, before or after, is not seen.
  pub find-update_where_other :
      (p q : A → Bool) (f : A → A) (xs : List A)
      → ((x : A) → q x ≡ true → p x ≡ false)
      → ((x : A) → q x ≡ true → p (f x) ≡ false)
      → find p (update_where q f xs) ≡ find p xs
  unfolding find update_where
  find-update_where_other p q f [] h g = refl
  find-update_where_other p q f (x ∷ xs) h g =
      ground (arith, h x, g x, find-update_where_other p q f xs h g)

  -- A change that keeps what is counted keeps the count.
  pub count-update_where :
      (p q : A → Bool) (f : A → A) (xs : List A)
      → ((x : A) → p (f x) ≡ p x)
      → count p (update_where q f xs) ≡ count p xs
  unfolding count update_where
  count-update_where p q f [] h = refl
  count-update_where p q f (x ∷ xs) h = ground (arith, h x, count-update_where p q f xs h)

  pub find-append :
      (p : A → Bool) (xs ys : List A) → find p xs ≡ none → find p (xs ++ ys) ≡ find p ys
  unfolding find
  find-append p [] ys h = refl
  find-append p (x ∷ xs) ys h = ground (arith, find-append p xs ys)

  pub find-append_left :
      (p : A → Bool) (xs ys : List A) (a : A) → find p xs ≡ some a → find p (xs ++ ys) ≡ some a
  unfolding find
  find-append_left p [] ys a h = ground arith
  find-append_left p (x ∷ xs) ys a h = ground (arith, find-append_left p xs ys a)

  -- A new row that fits is found, when no old one does.
  pub find-append_new :
      (p : A → Bool) (xs : List A) (a : A)
      → find p xs ≡ none
      → p a ≡ true
      → find p (xs ++ a ∷ []) ≡ some a
  unfolding find
  find-append_new p [] a e f = ground arith
  find-append_new p (x ∷ xs) a e f = ground (arith, find-append_new p xs a)

  -- A search finds a row among the old ones or the new row at the end.
  pub find-append_end :
      (p : A → Bool) (xs : List A) (a : A) → p a ≡ true → is_some (find p (xs ++ a ∷ [])) ≡ true
  unfolding find
  find-append_end p [] a e = ground arith
  find-append_end p (x ∷ xs) a e = ground (arith, find-append_end p xs a e)

module _ {ℓ} {A : Type ℓ} (key : A → ℕ) where
  -- Each row's key is among the keys of the rows.
  pub elem-map_cons :
      (y : A) (zs xs : List A)
      → All (λ x. elem (key x) (map key zs) ≡ true) xs
      → All (λ x. elem (key x) (map key (y ∷ zs)) ≡ true) xs
  unfolding elem
  elem-map_cons y zs [] h = tt
  elem-map_cons y zs (x ∷ xs) h = ground (arith, elem-map_cons y zs xs h.1)

  pub elem-map_self : (xs : List A) → All (λ x. elem (key x) (map key xs) ≡ true) xs
  unfolding elem
  elem-map_self [] = tt
  elem-map_self (x ∷ xs) =
      (ground (arith, ==_self (key x)), elem-map_cons x xs xs (elem-map_self xs))
