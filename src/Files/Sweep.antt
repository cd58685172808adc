-- ===== src/Files/Sweep.antt =====
-- The daily sweep of the trash: src/file/file-cleanup.service.ts.
pub mod Ending
use workspacebridge_backend.Base.{
  ℕ, suc, zero, ◌+◌, ◌-◌, ◌≤◌, ◌<◌, ◌≡◌, refl, sym, ap, subst, ◌∙◌, Bool, true, false, not, ◌&&◌,
  ◌||◌, Option, none, some, List, [], ◌∷◌, ◌++◌, map, arith, inl, inr, ltb, leb, ◌==◌,
  if◌then◌else◌, length, take, find, select, count, delete_where, elem, All, IsKeyed, has_key,
  length-take, length-select, count-delete_where-take, elem-map_self, delete_where-IsKeyed,
  Bool-cases, ==_iff, ==_self,
}
use workspacebridge_backend.Store.{Text, Time, File, Db}
use workspacebridge_backend.Files.{is_file, delete_file, trash_retention_ms}

abbrev pub batch_size : ℕ
batch_size = 100

-- `deletedAt: { not: null, lt: cutoff }`, with the cutoff that is computed before the loop.
abbrev pub is_expired : Time → File → Bool
is_expired now f = elim f.deleted_at [ none ↦ false | some t ↦ ltb t (now - trash_retention_ms) ]

abbrev pub erase : File → Db → Db
erase f db = record (delete_file f.id db) {
  objects = delete_where (λ k. k == f.storage_key) db.objects;
}

-- `fails` says for which keys the storage throws; such a row stays.
unfoldable pub purge_batch : (Text → Bool) → List File → Db → Db
purge_batch fails [] db = db
purge_batch fails (f ∷ fs) db =
    purge_batch fails fs (if fails f.storage_key then db else erase f db)

abbrev pub next_batch : Time → Db → List File
next_batch now db = take batch_size (select (is_expired now) db.files)

-- The loop of `processExpired`, for as many rounds as the fuel allows; `none` when it has not ended.
unfoldable pub process_expired : ℕ → (Text → Bool) → Time → Db → Option Db
process_expired zero fails now db = none
process_expired (suc n) fails now db =
    let batch = next_batch now db in
    let db' = purge_batch fails batch db in
    let rest = process_expired n fails now db' in
    if length batch == 0 then some db else if ltb (length batch) batch_size then some db' else rest

-- Another instance that holds the lock makes the sweep a no-op.
unfoldable pub sweep_expired_trash : Bool → ℕ → (Text → Bool) → Time → Db → Option Db
sweep_expired_trash locked n fails now db =
    if locked then process_expired n fails now db else some db

stuck_batch :
    (fails : Text → Bool) (fs : List File) (db : Db)
    → All (λ f. fails f.storage_key ≡ true) fs
    → purge_batch fails fs db ≡ db
unfolding purge_batch
stuck_batch fails [] db h = refl
stuck_batch fails (f ∷ fs) db h = ground (arith, stuck_batch fails fs db h.1)

full_batch :
    (now : Time) (db : Db)
    → batch_size ≤ count (is_expired now) db.files
    → length (next_batch now db) ≡ batch_size
full_batch now db many = ground (
  arith,
  length-take batch_size (select (is_expired now) db.files),
  length-select (is_expired now) db.files,
)

-- If the storage keeps refusing the first hundred expired files, the sweep never ends: no number of
-- rounds is enough.
pub refused_batch_never_ends :
    (fails : Text → Bool) (now : Time) (db : Db) (n : ℕ)
    → batch_size ≤ count (is_expired now) db.files
    → All (λ f. fails f.storage_key ≡ true) (next_batch now db)
    → process_expired n fails now db ≡ none
unfolding process_expired
refused_batch_never_ends fails now db zero many h = refl
refused_batch_never_ends fails now db (suc n) many h =
    rw (stuck_batch fails (next_batch now db) db h, full_batch now db many)
      (refused_batch_never_ends fails now db n many h)
