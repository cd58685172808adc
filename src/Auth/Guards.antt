-- ===== src/Auth/Guards.antt =====
-- The guards of the HTTP controllers: src/auth/guards/csrf.guard.ts, src/auth/guards/roles.guard.ts and
-- src/auth/strategies/jwt.strategy.ts.
pub mod Csrf
use workspacebridge_backend.Base.{
  ℕ, Bool, true, false, not, ◌&&◌, ◌||◌, Option, none, some, List, [], ◌∷◌, ◌==◌, if◌then◌else◌,
  length, find, pure, gets, or_throw, ◌>>=◌, ◌>>◌, throw_if, forbidden, unauthorized,
}
use workspacebridge_backend.Store.{Text, User, UserRole, is_active, JwtPayload, Action, Reason}
use workspacebridge_backend.Auth.Login.{is_user}
use workspacebridge_backend.Sockets.{awaits_second_factor}

-- A header, which may come several times.
pub data Header : Type 0 where
  absent : Header
  one : List ℕ → Header
  many : List (List ℕ) → Header

-- `Array.isArray(headerValue) ? headerValue[0] : headerValue`
abbrev pub header_token : Header → List ℕ
header_token Header.absent = []
header_token (Header.one t) = t
header_token (Header.many []) = []
header_token (Header.many (t ∷ ts)) = t

abbrev pub is_blank : List ℕ → Bool
is_blank [] = true
is_blank (b ∷ bs) = false

-- `timingSafeEqual` of two buffers of one length.
unfoldable pub timing_safe_equal : List ℕ → List ℕ → Bool
timing_safe_equal [] ys = true
timing_safe_equal (x ∷ xs) [] = true
timing_safe_equal (x ∷ xs) (y ∷ ys) = x == y && timing_safe_equal xs ys

unfoldable pub safe_equal : List ℕ → List ℕ → Bool
unfolding timing_safe_equal
safe_equal a b = if not (length a == length b) then false else timing_safe_equal a b

-- `CsrfGuard.canActivate` on the cookie (empty when there is none) and the header.
unfoldable pub csrf_can_activate : List ℕ → Header → Bool
unfolding safe_equal
csrf_can_activate cookie header = not (
    is_blank cookie
    || is_blank (header_token header)
    || not (safe_equal cookie (header_token header)))

abbrev pub is_role : UserRole → UserRole → Bool
is_role UserRole.freelancer UserRole.freelancer = true
is_role UserRole.client UserRole.client = true
is_role UserRole.admin UserRole.admin = true
is_role _ _ = false

unfoldable pub includes : UserRole → List UserRole → Bool
includes role [] = false
includes role (r ∷ rs) = is_role r role || includes role rs

-- `RolesGuard.canActivate`: the roles that the handler requires, if any, and the role of the request's user.
unfoldable pub roles_can_activate : Option (List UserRole) → Option UserRole → Bool
unfolding includes
roles_can_activate none role = true
roles_can_activate (some required) none = false
roles_can_activate (some required) (some role) = includes role required

-- `JwtStrategy.validate`, on the payload of a token that the library has verified.
unfoldable pub validate : JwtPayload → Action User
validate p = do
  throw_if (awaits_second_factor p.is_two_factor_authenticated) unauthorized
      Reason.invalid_token_type
  users ← gets (λ db. db.users)
  u ← or_throw (find (is_user p.user_id) users) unauthorized Reason.user_not_found
  throw_if (not (is_active u.status)) unauthorized Reason.account_suspended
  pure u
