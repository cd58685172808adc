-- ===== src/Base/Reversal.antt =====
-- The ends of a reversed list.
use Prim.Native.Nat.{ℕ, zero, suc, ◌-◌, ◌≤◌}
use mathlib.Core.Path.{◌≡◌, refl, ap, sym, ◌∙◌}
use mathlib.Core.Logic.{inl, inr}
use mathlib.Core.List.{List, [], ◌∷◌, ◌++◌, reverse, reverse-cons, append-nil}
use native.Mathlib.Omega.{arith}
use workspacebridge_backend.Base.Tests.{leb, Bool-cases}
use workspacebridge_backend.Base.Lists.{length, take, drop, length-reverse}

pub drop-append {ℓ} :
    {A : Type ℓ} (k : ℕ) (xs ys : List A) → drop k (xs ++ ys) ≡ drop k xs ++ drop (k - length xs) ys
drop-append zero xs ys = ground arith
drop-append (suc k) [] ys = ground arith
drop-append (suc k) (x ∷ xs) ys = ground (arith, drop-append k xs ys)

drop-all {ℓ} : {A : Type ℓ} (k : ℕ) (xs : List A) → length xs ≤ k → drop k xs ≡ []
drop-all zero [] h = refl
drop-all zero (x ∷ xs) h = absurd (omega arith)
drop-all (suc k) [] h = refl
drop-all (suc k) (x ∷ xs) h = drop-all k xs (omega arith)

-- The end of a reversed list is the beginning of the list.
pub drop-reverse {ℓ} :
    {A : Type ℓ} (k : ℕ) (xs : List A) → drop k (reverse xs) ≡ reverse (take (length xs - k) xs)
drop-reverse zero [] = refl
drop-reverse (suc k) [] = ground arith
drop-reverse k (x ∷ xs) = elim (Bool-cases (leb k (length xs))) [
  | inl le ↦
      let none_left : k - length (reverse xs) ≡ 0 = ground (arith, length-reverse xs) in
      let one_more : suc (length xs) - k ≡ suc (length xs - k) = ground arith in
      rw (
        reverse-cons x xs,
        drop-append k (reverse xs) (x ∷ []),
        none_left,
        one_more,
        reverse-cons x (take (length xs - k) xs),
        drop-reverse k xs,
      )
  | inr gt ↦
      let none_taken : suc (length xs) - k ≡ 0 = ground arith in
      rw none_taken (drop-all k (reverse (x ∷ xs)) (ground (arith, length-reverse (x ∷ xs))))
]

take-append {ℓ} :
    {A : Type ℓ} (k : ℕ) (xs ys : List A) → take k (xs ++ ys) ≡ take k xs ++ take (k - length xs) ys
take-append zero xs ys = ground arith
take-append (suc k) [] ys = ground arith
take-append (suc k) (x ∷ xs) ys = ground (arith, take-append k xs ys)

take-all {ℓ} : {A : Type ℓ} (k : ℕ) (xs : List A) → length xs ≤ k → take k xs ≡ xs
take-all zero [] h = refl
take-all zero (x ∷ xs) h = absurd (omega arith)
take-all (suc k) [] h = refl
take-all (suc k) (x ∷ xs) h = ap (◌∷◌ x) (take-all k xs (omega arith))

-- The beginning of a reversed list is the end of the list.
pub take-reverse {ℓ} :
    {A : Type ℓ} (k : ℕ) (xs : List A) → take k (reverse xs) ≡ reverse (drop (length xs - k) xs)
take-reverse zero [] = refl
take-reverse (suc k) [] = ground arith
take-reverse k (x ∷ xs) = elim (Bool-cases (leb k (length xs))) [
  | inl le ↦
      let none_left : k - length (reverse xs) ≡ 0 = ground (arith, length-reverse xs) in
      let one_more : suc (length xs) - k ≡ suc (length xs - k) = ground arith in
      rw
        (
          reverse-cons x xs,
          take-append k (reverse xs) (x ∷ []),
          none_left,
          one_more,
          take-reverse k xs,
        )
        (append-nil (reverse (drop (length xs - k) xs)))
  | inr gt ↦
      let none_taken : suc (length xs) - k ≡ 0 = ground arith in
      rw none_taken (take-all k (reverse (x ∷ xs)) (ground (arith, length-reverse (x ∷ xs))))
]

pub reverse-append_one {ℓ} :
    {A : Type ℓ} (xs : List A) (a : A) → reverse (xs ++ a ∷ []) ≡ a ∷ reverse xs
reverse-append_one [] a = refl
reverse-append_one (x ∷ xs) a =
    reverse-cons x (xs ++ a ∷ [])
    ∙ ap (λ l. l ++ x ∷ []) (reverse-append_one xs a)
    ∙ ap (◌∷◌ a) (sym (reverse-cons x xs))
