-- ===== src/Base/Handler.antt =====
-- A request handler: it reads and writes a state and may throw. What was written before a throw
-- stays written, since the services do not run in a transaction unless they say so.
use mathlib.Core.Bool.{Bool}
use mathlib.Core.Option.{Option, none, some}
use workspacebridge_backend.Base.Tests.{if◌then◌else◌}

-- The exception class is the HTTP status; `internal` is an error of the database client or the storage,
-- whose status src/libs/common/filters/global-exception.filter.ts chooses.
pub data Status : Type 0 where
  bad_request unauthorized forbidden not_found conflict payload_too_large internal : Status

pub data Result (R A : Type 0) : Type 0 where
  ok : A → Result R A
  err : Status → R → Result R A

abbrev pub Exec : Type 0 → Type 0 → Type 0 → Type 0
Exec S R A = S → Result R A × S

module _ {S R A : Type 0} where
  abbrev pub pure : A → Exec S R A
  pure a s = (ok a, s)

  abbrev pub throw : Status → R → Exec S R A
  throw c r s = (err c r, s)

  abbrev pub gets : (S → A) → Exec S R A
  gets f s = (ok (f s), s)

  abbrev pub or_throw : Option A → Status → R → Exec S R A
  or_throw none c r = throw c r
  or_throw (some a) c r = pure a

infixl 5 ◌>>=◌ ◌>>◌
abbrev pub ◌>>=◌ : {S R A B : Type 0} → Exec S R A → (A → Exec S R B) → Exec S R B
◌>>=◌ m f s = let (r, s') = m s in elim r [ ok a ↦ f a s' | err c e ↦ (err c e, s') ]

abbrev pub ◌>>◌ : {S R A B : Type 0} → Exec S R A → Exec S R B → Exec S R B
m >> k = m >>= λ _. k

abbrev pub throw_if : {S R : Type 0} → Bool → Status → R → Exec S R Unit
throw_if b c r s = (if b then err c r else ok tt, s)

abbrev pub modify : {S R : Type 0} → (S → S) → Exec S R Unit
modify f s = (ok tt, f s)

abbrev pub when : {S R : Type 0} → Bool → Exec S R Unit → Exec S R Unit
when b m s = if b then m s else (ok tt, s)
