-- ===== src/Auth/Guards/Csrf.antt =====
-- What the double-submit check lets through: src/auth/guards/csrf.guard.ts.
use workspacebridge_backend.Base.{
  ℕ, ◌≡◌, ◌↔◌, refl, sym, ap, ◌∙◌, true, false, List, [], ◌∷◌, arith, ==_iff, ==_self,
}
use workspacebridge_backend.Auth.Guards.{
  Header, header_token, is_blank, timing_safe_equal, safe_equal, csrf_can_activate,
}

safe_equal_sound : (a b : List ℕ) → safe_equal a b ≡ true → a ≡ b
unfolding safe_equal timing_safe_equal
safe_equal_sound [] [] e = refl
safe_equal_sound [] (y ∷ ys) e = ground arith
safe_equal_sound (x ∷ xs) [] e = ground arith
safe_equal_sound (x ∷ xs) (y ∷ ys) e = ground (arith, ==_iff x y, safe_equal_sound xs ys)

safe_equal_self : (a : List ℕ) → safe_equal a a ≡ true
unfolding safe_equal timing_safe_equal
safe_equal_self [] = refl
safe_equal_self (x ∷ xs) = ground (arith, ==_self x, safe_equal_self xs)

-- A request passes exactly when it brings the same token in the cookie and in the header, and it is not
-- empty; of a header that comes several times the first counts.
pub csrf_passes_iff :
    (cookie : List ℕ) (header : Header)
    → (csrf_can_activate cookie header ≡ true)
      ↔ ((cookie ≡ header_token header) × (is_blank cookie ≡ false))
unfolding csrf_can_activate
csrf_passes_iff cookie header = (
  (λ e. (safe_equal_sound cookie (header_token header) (ground arith), ground arith)),
  (λ h.
      let e = h.0 in
      let same : safe_equal cookie (header_token header) ≡ true =
        ap (safe_equal cookie) (sym e) ∙ safe_equal_self cookie in
      let full : is_blank (header_token header) ≡ false = ap is_blank (sym e) ∙ h.1 in
      ground (arith, h.1)),
)
