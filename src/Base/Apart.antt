-- ===== src/Base/Apart.antt =====
-- Deleting selected rows by their keys leaves the other rows alone, if the keys are unique.
use Prim.Native.Nat.{ℕ, zero, suc}
use mathlib.Core.Path.{◌≡◌, refl, subst}
use mathlib.Core.Bool.{Bool, false, not}
use mathlib.Core.Logic.{inl, inr}
use mathlib.Core.Option.{none}
use mathlib.Core.List.{List, [], ◌∷◌, map}
use native.Mathlib.Omega.{arith}
use workspacebridge_backend.Base.Tests.{Bool-cases}
use workspacebridge_backend.Base.Lists.{take, All}
use workspacebridge_backend.Base.Table.{find, select, delete_where, elem}
use workspacebridge_backend.Base.Keys.{has_key, IsKeyed}

module _ {ℓ} {A : Type ℓ} (key : A → ℕ) (p : A → Bool) where
  -- The keys are those of no row that does not fit.
  abbrev IsApart : List ℕ → A → Type 0
  IsApart ks x = p x ≡ false → elem (key x) ks ≡ false

  elem-select_absent :
      (k : ℕ) (xs : List A)
      → find (has_key key k) xs ≡ none
      → elem k (map key (select p xs)) ≡ false
  unfolding find elem select
  elem-select_absent k [] e = refl
  elem-select_absent k (x ∷ xs) e = ground (arith, elem-select_absent k xs)

  IsApart-cons :
      (k : ℕ) (ks : List ℕ) (xs : List A)
      → find (has_key key k) xs ≡ none
      → All (IsApart ks) xs
      → All (IsApart (k ∷ ks)) xs
  unfolding find elem
  IsApart-cons k ks [] e h = tt
  IsApart-cons k ks (x ∷ xs) e h =
      ((λ f. ground (arith, h.0 f)), IsApart-cons k ks xs (ground arith) h.1)

  select-IsApart : (xs : List A) → IsKeyed key xs → All (IsApart (map key (select p xs))) xs
  unfolding select
  select-IsApart [] u = tt
  select-IsApart (x ∷ xs) u = elim (Bool-cases (p x)) [
    | inl fits ↦
        let chosen : x ∷ select p xs ≡ select p (x ∷ xs) = ground arith in
        (
          (λ f. ground arith),
          subst (λ ys. All (IsApart (map key ys)) xs) chosen
              (IsApart-cons (key x) (map key (select p xs)) xs u.0 (select-IsApart xs u.1)),
        )
    | inr unfit ↦
        let passed : select p xs ≡ select p (x ∷ xs) = ground arith in
        (
          (λ f. ground (arith, elem-select_absent (key x) xs u.0)),
          subst (λ ys. All (IsApart (map key ys)) xs) passed (select-IsApart xs u.1),
        )
  ]

  elem-take_absent :
      (k n : ℕ) (xs : List A) → elem k (map key xs) ≡ false → elem k (map key (take n xs)) ≡ false
  unfolding elem
  elem-take_absent k zero xs e = refl
  elem-take_absent k (suc n) [] e = refl
  elem-take_absent k (suc n) (x ∷ xs) e = ground (arith, elem-take_absent k n xs)

  kept :
      (ks : List ℕ) (xs : List A)
      → All (IsApart ks) xs
      → select (λ x. not (p x)) (delete_where (λ x. elem (key x) ks) xs)
        ≡ select (λ x. not (p x)) xs
  unfolding select delete_where
  kept ks [] h = refl
  kept ks (x ∷ xs) h = ground (arith, h.0, kept ks xs h.1)

  IsApart-take :
      (n : ℕ) (ys xs : List A)
      → All (IsApart (map key ys)) xs
      → All (IsApart (map key (take n ys))) xs
  IsApart-take n ys [] h = tt
  IsApart-take n ys (x ∷ xs) h =
      ((λ f. elem-take_absent (key x) n ys (h.0 f)), IsApart-take n ys xs h.1)

  -- What is left beside the first rows that fit, once these are deleted by their keys.
  pub select-delete_first :
      (n : ℕ) (xs : List A)
      → IsKeyed key xs
      → select
          (λ x. not (p x))
          (delete_where (λ x. elem (key x) (map key (take n (select p xs)))) xs)
        ≡ select (λ x. not (p x)) xs
  select-delete_first n xs u = kept _ xs (IsApart-take n (select p xs) xs (select-IsApart xs u))
