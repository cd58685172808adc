-- ===== src/Auth/Passwords/History.antt =====
-- The password history as a queue: src/libs/common/services/password-history.service.ts.
use workspacebridge_backend.Base.{
  prune_to_newest, select-append_fits, reverse-append_one, ==_iff, count, length-select,
  length-take, ◌≤◌, ◌≢◌, ◌≡◌, refl, ap, ◌∙◌, true, List, [], ◌∷◌, ◌++◌, reverse, arith, inl, inr,
  ok, find, select, take, length, Option-cases, IsKeyed, length-reverse, or_else,
}
use workspacebridge_backend.Store.{Text, OldPassword, Deps, Db}
use workspacebridge_backend.Auth.Login.{is_user}
use workspacebridge_backend.Auth.Passwords.{
  history_limit, is_old_password_of, newest_first, remember, record_password, matches_any,
  assert_not_reused, assert_not_breached, change_password,
}

-- The history of a user is a queue of five hashes, newest first: an entry goes in front, and the
-- sixth goes out. (Rows have an id of their own.)
pub remember_is_queue :
    (user_id : Text) (entry : OldPassword) (history : List OldPassword)
    → entry.user_id ≡ user_id
    → IsKeyed (λ o. o.id) (history ++ entry ∷ [])
    → newest_first user_id (remember user_id entry history)
      ≡ take 5 (entry ∷ newest_first user_id history)
unfolding remember
remember_is_queue user_id entry history owned keyed =
    let p = is_old_password_of user_id in
    let fits : p entry ≡ true = (==_iff entry.user_id user_id).1 owned in
    prune_to_newest (λ o. o.id) p 5 (history ++ entry ∷ []) keyed
    ∙ ap (take 5) (
        ap reverse (select-append_fits p history entry fits)
        ∙ reverse-append_one (select p history) entry)

-- So at most five hashes are kept of each user, whatever there was before.
pub remember-length :
    (user_id : Text) (entry : OldPassword) (history : List OldPassword)
    → entry.user_id ≡ user_id
    → IsKeyed (λ o. o.id) (history ++ entry ∷ [])
    → count (is_old_password_of user_id) (remember user_id entry history) ≤ 5
remember-length user_id entry history owned keyed =
    let p = is_old_password_of user_id in
    let rest = remember user_id entry history in
    omega (
      arith,
      length-select p rest,
      length-reverse (select p rest),
      ap length (remember_is_queue user_id entry history owned keyed),
      length-take 5 (entry ∷ newest_first user_id history),
    )

module _ (d : Deps) where
  -- A password that fits a remembered hash is refused, whatever is typed as the current password.
  remembered_refused :
      (id typed new entry_id salt : Text) (db : Db)
      → matches_any d new (take history_limit (newest_first id db.password_history)) ≡ true
      → let out = change_password d id typed new entry_id salt db in (out.0 ≢ ok tt) × (out.1 ≡ db)
  unfolding change_password assert_not_breached assert_not_reused
  remembered_refused id typed new entry_id salt db m =
      elim (Option-cases (find (is_user id) db.users)) [
        | inl gone ↦ ((λ e. ground arith), ground arith)
        | inr (u, f) ↦ ((λ e. ground arith), ground arith)
      ]

  abbrev pub replaced : Text → Text → Text → OldPassword
  replaced entry_id id h = record { id = entry_id; user_id = id; password = h }

  -- A change that went through has remembered a hash that the current password fits.
  change_password_remembers :
      (id current new entry_id salt : Text) (db db' : Db)
      → change_password d id current new entry_id salt db ≡ (ok tt, db')
      → (h : Text) × (d.argon2_verify h current ≡ true)
        × (db'.password_history ≡ remember id (replaced entry_id id h) db.password_history)
  unfolding change_password assert_not_breached assert_not_reused record_password
  change_password_remembers id current new entry_id salt db db' e =
      elim (Option-cases (find (is_user id) db.users)) [
        | inl gone ↦ ground arith
        | inr (u, f) ↦ (or_else u.password 0, ground arith, ground arith)
      ]

  newest_matches :
      (id current : Text) (entry : OldPassword) (history : List OldPassword)
      → entry.user_id ≡ id
      → IsKeyed (λ o. o.id) (history ++ entry ∷ [])
      → d.argon2_verify entry.password current ≡ true
      → matches_any d current (take history_limit (newest_first id (remember id entry history)))
        ≡ true
  unfolding matches_any
  newest_matches id current entry history owned keyed m =
      rw (remember_is_queue id entry history owned keyed, m)

  -- Nobody changes back to the password that they have just replaced: after a change that went
  -- through, with a fresh id for its history row, another change to the replaced password does not
  -- go through and writes nothing, whatever is typed as the current one.
  pub change_back_refused :
      (id current new entry_id salt typed next_id next_salt : Text) (db db' : Db)
      → change_password d id current new entry_id salt db ≡ (ok tt, db')
      → ((h : Text) → IsKeyed (λ o. o.id) (db.password_history ++ replaced entry_id id h ∷ []))
      → let out = change_password d id typed current next_id next_salt db' in
        (out.0 ≢ ok tt) × (out.1 ≡ db')
  change_back_refused id current new entry_id salt typed next_id next_salt db db' e keyed =
      let (h, m, kept) = change_password_remembers id current new entry_id salt db db' e in
      remembered_refused id typed current next_id next_salt db' (
        rw kept
          (newest_matches id current (replaced entry_id id h) db.password_history refl (keyed h) m))
