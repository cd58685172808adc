-- ===== src/Base/Keys.antt =====
-- Tables with a unique key: what a write to the row of one key leaves alone.
use Prim.Native.Nat.{ℕ, zero, suc, ◌-◌}
use mathlib.Core.Path.{◌≡◌, refl, ap, sym, ◌∙◌}
use mathlib.Core.Bool.{Bool, false, ◌||◌}
use mathlib.Core.Option.{none, some}
use mathlib.Core.List.{List, [], ◌∷◌, map, ◌++◌, reverse, reverse-cons}
use native.Mathlib.Omega.{arith}
use workspacebridge_backend.Base.Tests.{==_self, ◌==◌}
use workspacebridge_backend.Base.Lists.{take, drop, length}
use workspacebridge_backend.Base.Reversal.{drop-reverse, take-reverse}
use workspacebridge_backend.Base.Table.{elem, find, select, update_where, delete_where}

module _ {ℓ} {A : Type ℓ} (key : A → ℕ) where
  abbrev pub has_key : ℕ → A → Bool
  has_key k x = key x == k

  -- No two rows have the same key.
  abbrev pub IsKeyed : List A → Type ℓ
  IsKeyed [] = Unit
  IsKeyed (x ∷ xs) = (find (has_key (key x)) xs ≡ none) × IsKeyed xs

  select-delete_where_absent :
      (q : A → Bool) (k : ℕ) (xs : List A)
      → find (has_key k) xs ≡ none
      → select q (delete_where (has_key k) xs) ≡ select q xs
  unfolding find select delete_where
  select-delete_where_absent q k [] e = refl
  select-delete_where_absent q k (x ∷ xs) e = ground (arith, select-delete_where_absent q k xs)

  select-update_where_absent :
      (q : A → Bool) (f : A → A) (k : ℕ) (xs : List A)
      → find (has_key k) xs ≡ none
      → select q (update_where (has_key k) f xs) ≡ select q xs
  unfolding find select update_where
  select-update_where_absent q f k [] e = refl
  select-update_where_absent q f k (x ∷ xs) e = ground (arith, select-update_where_absent q f k xs)

  -- Deleting the row of a key leaves every selection without that row as it was.
  pub select-delete_key :
      (q : A → Bool) (k : ℕ) (xs : List A) (t : A)
      → IsKeyed xs
      → find (has_key k) xs ≡ some t
      → q t ≡ false
      → select q (delete_where (has_key k) xs) ≡ select q xs
  unfolding find select delete_where
  select-delete_key q k [] t u f e = ground arith
  select-delete_key q k (x ∷ xs) t u f e =
      ground (arith, select-delete_key q k xs t u.1, select-delete_where_absent q k xs)

  -- Nor does a change of that row show, if neither it nor its new form is selected.
  pub select-update_key :
      (q : A → Bool) (f : A → A) (k : ℕ) (xs : List A) (t : A)
      → IsKeyed xs
      → find (has_key k) xs ≡ some t
      → q t ≡ false
      → q (f t) ≡ false
      → select q (update_where (has_key k) f xs) ≡ select q xs
  unfolding find select update_where
  select-update_key q f k [] t u e a b = ground arith
  select-update_key q f k (x ∷ xs) t u e a b =
      ground (arith, select-update_key q f k xs t u.1, select-update_where_absent q f k xs)

  -- One more key to delete makes no difference when no row has it.
  delete_where-elem_absent :
      (k : ℕ) (ks : List ℕ) (xs : List A)
      → find (has_key k) xs ≡ none
      → delete_where (λ x. elem (key x) (k ∷ ks)) xs ≡ delete_where (λ x. elem (key x) ks) xs
  unfolding find delete_where elem
  delete_where-elem_absent k ks [] e = refl
  delete_where-elem_absent k ks (x ∷ xs) e = ground (arith, delete_where-elem_absent k ks xs)

  -- Deleting the keys of the first rows drops these rows.
  pub delete_where-take :
      (n : ℕ) (xs : List A)
      → IsKeyed xs
      → delete_where (λ x. elem (key x) (map key (take n xs))) xs ≡ drop n xs
  unfolding delete_where elem
  delete_where-take zero [] u = refl
  delete_where-take zero (x ∷ xs) u = ground (arith, delete_where-take zero xs u.1)
  delete_where-take (suc n) [] u = refl
  delete_where-take (suc n) (x ∷ xs) u = ground (
    arith,
    ==_self (key x),
    delete_where-elem_absent (key x) (map key (take n xs)) xs u.0,
    delete_where-take n xs u.1,
  )

  find-select_absent :
      (k : ℕ) (q : A → Bool) (xs : List A)
      → find (has_key k) xs ≡ none
      → find (has_key k) (select q xs) ≡ none
  unfolding find select
  find-select_absent k q [] e = refl
  find-select_absent k q (x ∷ xs) e = ground (arith, find-select_absent k q xs)

  pub select-IsKeyed : (q : A → Bool) (xs : List A) → IsKeyed xs → IsKeyed (select q xs)
  unfolding select
  select-IsKeyed q [] u = tt
  select-IsKeyed q (x ∷ xs) u =
      ground (arith, select-IsKeyed q xs u.1, find-select_absent (key x) q xs u.0)

  -- The keys of a list and of its reversal are the same.
  elem-append : (k : ℕ) (js ks : List ℕ) → elem k (js ++ ks) ≡ (elem k js || elem k ks)
  unfolding elem
  elem-append k [] ks = refl
  elem-append k (j ∷ js) ks = ground (arith, elem-append k js ks)

  map-append : (xs ys : List A) → map key (xs ++ ys) ≡ map key xs ++ map key ys
  map-append [] ys = refl
  map-append (x ∷ xs) ys = ap (◌∷◌ (key x)) (map-append xs ys)

  pub elem-map-reverse : (k : ℕ) (xs : List A) → elem k (map key (reverse xs)) ≡ elem k (map key xs)
  unfolding elem
  elem-map-reverse k [] = refl
  elem-map-reverse k (x ∷ xs) = ground (
    arith,
    reverse-cons x xs,
    map-append (reverse xs) (x ∷ []),
    elem-append k (map key (reverse xs)) (key x ∷ []),
    elem-map-reverse k xs,
  )

  delete_where-elem_ext :
      (js ks : List ℕ) (xs : List A)
      → ((k : ℕ) → elem k js ≡ elem k ks)
      → delete_where (λ x. elem (key x) js) xs ≡ delete_where (λ x. elem (key x) ks) xs
  unfolding delete_where
  delete_where-elem_ext js ks [] h = refl
  delete_where-elem_ext js ks (x ∷ xs) h =
      ground (arith, h (key x), delete_where-elem_ext js ks xs h)

  select-delete_where_comm :
      (p q : A → Bool) (xs : List A) → select p (delete_where q xs) ≡ delete_where q (select p xs)
  unfolding delete_where select
  select-delete_where_comm p q [] = refl
  select-delete_where_comm p q (x ∷ xs) = ground (arith, select-delete_where_comm p q xs)

  -- Pruning a selection to its newest rows: what lies beyond the first `n` of the reversed selection
  -- is deleted, and these `n` are what is left of it.
  pub prune_to_newest :
      (p : A → Bool) (n : ℕ) (xs : List A)
      → IsKeyed xs
      → let newest = reverse (select p xs) in
        reverse (select p (delete_where (λ x. elem (key x) (map key (drop n newest))) xs))
        ≡ take n newest
  prune_to_newest p n xs u =
      let s = select p xs in
      let m = length s - n in
      ap reverse (
        select-delete_where_comm p (λ x. elem (key x) (map key (drop n (reverse s)))) xs
        ∙ delete_where-elem_ext (map key (drop n (reverse s))) (map key (take m s)) s
            (λ k. ap (λ l. elem k (map key l)) (drop-reverse n s) ∙ elem-map-reverse k (take m s))
        ∙ delete_where-take m s (select-IsKeyed p xs u))
      ∙ sym (take-reverse n s)
