-- ===== src/Base/Table.antt =====
-- A table of the database as the list of its rows, oldest first, and the queries of the Prisma
-- client that the services make: findFirst/findUnique, findMany, count, updateMany, deleteMany.
use Prim.Native.Nat.{ℕ, suc}
use mathlib.Core.Bool.{Bool, false, ◌||◌}
use mathlib.Core.Option.{Option, none, some}
use mathlib.Core.List.{List, [], ◌∷◌}
use workspacebridge_backend.Base.Tests.{◌==◌, if◌then◌else◌}

module _ {ℓ} {A : Type ℓ} where
  -- The first row that fits.
  unfoldable pub find : (A → Bool) → List A → Option A
  find p [] = none
  find p (x ∷ xs) = if p x then some x else find p xs

  -- The rows that fit, in order of creation.
  unfoldable pub select : (A → Bool) → List A → List A
  select p [] = []
  select p (x ∷ xs) = if p x then x ∷ select p xs else select p xs

  -- How many rows fit.
  unfoldable pub count : (A → Bool) → List A → ℕ
  count p [] = 0
  count p (x ∷ xs) = if p x then suc (count p xs) else count p xs

  -- The rows that fit are changed, the others stay.
  unfoldable pub update_where : (A → Bool) → (A → A) → List A → List A
  update_where p f [] = []
  update_where p f (x ∷ xs) = (if p x then f x else x) ∷ update_where p f xs

  -- The rows that fit are gone.
  unfoldable pub delete_where : (A → Bool) → List A → List A
  delete_where p [] = []
  delete_where p (x ∷ xs) = if p x then delete_where p xs else x ∷ delete_where p xs

-- Membership of a key in a list of keys, as in `{ id: { in: ids } }`.
unfoldable pub elem : ℕ → List ℕ → Bool
elem k [] = false
elem k (j ∷ js) = k == j || elem k js
