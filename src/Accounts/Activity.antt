-- ===== src/Accounts/Activity.antt =====
-- The pages of the activity log: getActivity of src/user/user.service.ts.
use Prim.Native.Nat.{min}
use workspacebridge_backend.Base.{
  ℕ, zero, suc, ◌+◌, ◌-◌, ◌*◌, ◌≤◌, ◌≡◌, refl, ap, ◌∙◌, sym, List, [], ◌∷◌, ◌++◌, reverse, arith,
  ltb, length, take, drop, select, count, length-take, length-drop, length-reverse, length-select,
}
use workspacebridge_backend.Store.{Text, Db}
use workspacebridge_backend.Accounts.{get_activity, is_activity_of, page_size, safe_page}

take-nil {ℓ} : {A : Type ℓ} (n : ℕ) → take {A = A} n [] ≡ []
take-nil zero = refl
take-nil (suc n) = refl

take-add {ℓ} :
    {A : Type ℓ} (m n : ℕ) (xs : List A) → take (m + n) xs ≡ take m xs ++ take n (drop m xs)
take-add zero n xs = ground arith
take-add (suc m) n [] = take-nil (suc m + n) ∙ sym (take-nil n)
take-add (suc m) n (x ∷ xs) =
    let e : suc m + n ≡ suc (m + n) = omega arith in rw e (ap (◌∷◌ x) (take-add m n xs))

rows_left : (b z n : ℕ) → ltb (b + min z (n - b)) n ≡ ltb (b + z) n
rows_left b z n = ground arith

page_end : (p z : ℕ) → 1 ≤ p → p * z ≡ (p - 1) * z + z
page_end zero z h = elim h [ ]
page_end (suc q) z h = grind arith

-- The pages, one after the other, are all the account actions of the user, newest first: what has been shown up to a
-- page is what had been shown before it and the items of the page. A page holds between one and a hundred
-- rows, and says that there is more exactly when rows are left after it.
pub activity_pages :
    (user_id : Text) (page limit : ℕ) (db : Db)
    → let newest = reverse (select (is_activity_of user_id) db.audit_log) in
      let p = get_activity user_id page limit db in
      (take (p.page * p.limit) newest ≡ take ((p.page - 1) * p.limit) newest ++ p.items)
      × (length p.items ≤ p.limit)
      × (1 ≤ p.limit)
      × (p.limit ≤ 100)
      × (p.has_more ≡ ltb (p.page * p.limit) (length newest))
unfolding get_activity
activity_pages user_id page limit db =
    let newest = reverse (select (is_activity_of user_id) db.audit_log) in
    let z = page_size limit in
    let before = (safe_page page - 1) * z in
    let last : safe_page page * z ≡ before + z = page_end (safe_page page) z (ground arith) in
    let total : count (is_activity_of user_id) db.audit_log ≡ length newest = sym (
      length-reverse (select (is_activity_of user_id) db.audit_log)
      ∙ length-select (is_activity_of user_id) db.audit_log) in
    let rows : length (take z (drop before newest)) ≡ min z (length newest - before) =
      length-take z (drop before newest) ∙ ap (min z) (length-drop before newest) in
    (
      ap (λ n. take n newest) last ∙ take-add before z newest,
      omega (arith, rows),
      ground arith,
      ground arith,
      rw (last, total, rows) (rows_left before z (length newest)),
    )
