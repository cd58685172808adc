-- ===== src/Files/Sweep/Ending.antt =====
-- A sweep whose storage obeys ends, and takes the expired files alone.
use workspacebridge_backend.Base.{
  ℕ, suc, zero, ◌-◌, ◌≤◌, ◌<◌, ◌≡◌, refl, sym, ap, subst, ◌∙◌, Bool, false, not, some, List, [],
  ◌∷◌, map, arith, inl, inr, ltb, ◌==◌, if◌then◌else◌, length, select, count, delete_where, elem,
  IsKeyed, length-take, length-select, count-delete_where-take, elem-map_self, delete_where-IsKeyed,
  select-delete_first, Bool-cases, ltb→lt, ==_iff,
}
use Prim.Native.Nat.{min}
use workspacebridge_backend.Store.{Text, Time, File, Db}
use workspacebridge_backend.Files.{is_file}
use workspacebridge_backend.Files.Sweep.{
  batch_size, is_expired, erase, purge_batch, next_batch, process_expired,
}

abbrev file_ids : List File → List Text
file_ids = map λ f. f.id

delete_where-elem_cons :
    (k : ℕ) (ks : List ℕ) (fs : List File)
    → delete_where (λ f. elem f.id ks) (delete_where (is_file k) fs)
      ≡ delete_where (λ f. elem f.id (k ∷ ks)) fs
unfolding delete_where elem
delete_where-elem_cons k ks [] = refl
delete_where-elem_cons k ks (f ∷ fs) = ground (arith, delete_where-elem_cons k ks fs)

delete_where-elem_nil : (fs : List File) → delete_where (λ f. elem f.id []) fs ≡ fs
unfolding delete_where elem
delete_where-elem_nil [] = refl
delete_where-elem_nil (f ∷ fs) = ap (◌∷◌ f) (delete_where-elem_nil fs)

-- A batch that the storage takes is one deletion.
taken_batch :
    (fails : Text → Bool) (bs : List File) (db : Db)
    → ((k : Text) → fails k ≡ false)
    → (purge_batch fails bs db).files ≡ delete_where (λ f. elem f.id (file_ids bs)) db.files
unfolding purge_batch
taken_batch fails [] db obeys = sym (delete_where-elem_nil db.files)
taken_batch fails (b ∷ bs) db obeys =
    let erased : (if fails b.storage_key then db else erase b db) ≡ erase b db =
      rw (obeys b.storage_key) in
    ap (λ e. (purge_batch fails bs e).files) erased
    ∙ taken_batch fails bs (erase b db) obeys
    ∙ delete_where-elem_cons b.id (file_ids bs) db.files

positive : (n : ℕ) → (n == 0) ≡ false → 1 ≤ n
positive n h = ground arith

-- The state after the sweep: no file has expired, every other file is there as before.
pub record IsSwept (now : Time) (db db' : Db) : Type 0 where
  pub none_expired : count (is_expired now) db'.files ≡ 0
  pub others_kept :
      select (λ f. not (is_expired now f)) db'.files ≡ select (λ f. not (is_expired now f)) db.files

module _ (fails : Text → Bool) (obeys : (k : Text) → fails k ≡ false) (now : Time) where
  abbrev after_batch : Db → Db
  after_batch db = purge_batch fails (next_batch now db) db

  batch_shrinks :
      (db : Db)
      → count (is_expired now) (after_batch db).files ≤ count (is_expired now) db.files - batch_size
  batch_shrinks db =
      subst (λ fs. count (is_expired now) fs ≤ count (is_expired now) db.files - batch_size)
        (sym (taken_batch fails (next_batch now db) db obeys))
        (count-delete_where-take (is_expired now) _ batch_size db.files
          (elem-map_self (λ f. f.id) (next_batch now db)))

  batch_keeps :
      (db : Db)
      → IsKeyed (λ f. f.id) db.files
      → select (λ f. not (is_expired now f)) (after_batch db).files
        ≡ select (λ f. not (is_expired now f)) db.files
  batch_keeps db u =
      ap (select λ f. not (is_expired now f)) (taken_batch fails (next_batch now db) db obeys)
      ∙ select-delete_first (λ f. f.id) (is_expired now) batch_size db.files u

  batch-IsKeyed :
      (db : Db) → IsKeyed (λ f. f.id) db.files → IsKeyed (λ f. f.id) (after_batch db).files
  batch-IsKeyed db u =
      subst (IsKeyed λ f. f.id) (sym (taken_batch fails (next_batch now db) db obeys))
        (delete_where-IsKeyed (λ f. f.id) _ db.files u)

  -- A sweep whose storage obeys ends, with at most one round more than there are expired files:
  -- then no file in the trash is past its time, and every other file is kept, the ids of the files
  -- being unique.
  pub sweep_ends :
      (n : ℕ) (db : Db)
      → IsKeyed (λ f. f.id) db.files
      → count (is_expired now) db.files < n
      → (db' : Db) × (process_expired n fails now db ≡ some db') × IsSwept now db db'
  unfolding process_expired
  sweep_ends zero db u few = absurd (omega arith)
  sweep_ends (suc n) db u few =
      let expired = count (is_expired now) db.files in
      let all = select (is_expired now) db.files in
      let counted : length all ≡ expired = length-select (is_expired now) db.files in
      let taken : length (next_batch now db) ≡ min batch_size (length all) =
        length-take batch_size all in
      let fewer = batch_shrinks db in
      elim (Bool-cases (length (next_batch now db) == 0)) [
        | inl empty ↦ (
          db,
          rw empty,
          record {
            none_expired = omega (arith, counted, taken, (==_iff _ 0).0 empty);
            others_kept = refl;
          },
        )
        | inr some_left ↦ elim (Bool-cases (ltb (length (next_batch now db)) batch_size)) [
          | inl short ↦ (
            after_batch db,
            rw (some_left, short),
            record {
              none_expired = omega (arith, counted, taken, fewer, ltb→lt _ _ short);
              others_kept = batch_keeps db u;
            },
          )
          | inr full ↦
              let not_empty : 1 ≤ length (next_batch now db) = positive _ some_left in
              let (db', e, s) =
                sweep_ends n (after_batch db) (batch-IsKeyed db u)
                  (omega (arith, fewer, few, counted, taken, not_empty)) in
              (
                db',
                rw (some_left, full) e,
                record {
                  none_expired = s.none_expired;
                  others_kept = s.others_kept ∙ batch_keeps db u;
                },
              )
        ]
      ]
