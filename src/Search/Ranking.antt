-- ===== src/Search/Ranking.antt =====
-- The order of the results: the sort and the limits of src/search/search.service.ts.
use workspacebridge_backend.Base.{
  zero, suc, ◌≡◌, ◌≤◌, ℕ, Bool, true, Option, none, some, List, [], ◌∷◌, ◌++◌, arith, map, take,
  length, length-take, Bool-cases, inl, inr, All,
}
use workspacebridge_backend.Search.{
  Hit, SearchResult, is_before, insert, by_rank, matches, top, settle,
}

-- A predicate on every result survives whatever the search does with lists.
module _ (P : SearchResult → Type 0) where
  pub All-append : (rs ss : List SearchResult) → All P rs → All P ss → All P (rs ++ ss)
  All-append [] ss h k = k
  All-append (r ∷ rs) ss h k = (h.0, All-append rs ss h.1 k)

  -- Only a job that is started needs to keep the predicate.
  pub All-settle :
      (js : List (Bool × List SearchResult))
      → All (λ j. j.0 ≡ true → All P j.1) js
      → All P (settle js)
  unfolding settle
  All-settle [] h = tt
  All-settle ((c, rs) ∷ js) h = elim (Bool-cases c) [
    | inl started ↦ rw started (All-append rs (settle js) (h.0 started) (All-settle js h.1))
    | inr skipped ↦ rw skipped (All-settle js h.1)
  ]

  All-insert : (a : SearchResult) (rs : List SearchResult) → P a → All P rs → All P (insert a rs)
  unfolding insert
  All-insert a [] p h = (p, tt)
  All-insert a (b ∷ bs) p h = elim (Bool-cases (is_before a b)) [
    | inl e ↦ rw e (p, h)
    | inr e ↦ rw e (h.0, All-insert a bs p h.1)
  ]

  All-by_rank : (rs : List SearchResult) → All P rs → All P (by_rank rs)
  unfolding by_rank
  All-by_rank [] h = tt
  All-by_rank (r ∷ rs) h = All-insert r (by_rank rs) h.0 (All-by_rank rs h.1)

  All-take : (n : ℕ) (rs : List SearchResult) → All P rs → All P (take n rs)
  All-take zero rs h = tt
  All-take (suc n) [] h = tt
  All-take (suc n) (r ∷ rs) h = (h.0, All-take n rs h.1)

  pub All-top : (limit : ℕ) (rs : List SearchResult) → All P rs → All P (top limit rs)
  unfolding top
  All-top limit rs h = All-take limit (by_rank rs) (All-by_rank rs h)

  pub All-map :
      (f : SearchResult → SearchResult) (rs : List SearchResult)
      → ((r : SearchResult) → P r → P (f r))
      → All P rs
      → All P (map f rs)
  All-map f [] keeps h = tt
  All-map f (r ∷ rs) keeps h = (keeps r h.0, All-map f rs keeps h.1)

  -- The rows that match give results.
  pub All-matches {ℓ κ} :
      {A : Type ℓ} (Q : A → Type κ) (hit : A → Option Hit) (make : A → Hit → SearchResult)
      (rows : List A)
      → ((a : A) (h : Hit) → Q a → P (make a h))
      → All Q rows
      → All P (matches hit make rows)
  unfolding matches
  All-matches Q hit make [] good h = tt
  All-matches Q hit make (a ∷ rows) good h =
      elim (hit a)
        as (λ o.
          All P
            (elim o [ none ↦ matches hit make rows | some k ↦ make a k ∷ matches hit make rows ])) [
              | none ↦ All-matches Q hit make rows good h.1
              | some k ↦ (good a k h.0, All-matches Q hit make rows good h.1)
            ]

-- No result stands before one that should come first.
abbrev pub IsRanked : List SearchResult → Type 0
IsRanked [] = Unit
IsRanked (r ∷ rs) = All (λ s. is_before r s ≡ true) rs × IsRanked rs

is_before_trans :
    (a b : SearchResult) (rs : List SearchResult)
    → is_before a b ≡ true
    → All (λ s. is_before b s ≡ true) rs
    → All (λ s. is_before a s ≡ true) rs
is_before_trans a b [] e h = tt
is_before_trans a b (r ∷ rs) e h = (ground (arith, h.0), is_before_trans a b rs e h.1)

insert-IsRanked : (a : SearchResult) (rs : List SearchResult) → IsRanked rs → IsRanked (insert a rs)
unfolding insert
insert-IsRanked a [] h = (tt, tt)
insert-IsRanked a (b ∷ bs) h = elim (Bool-cases (is_before a b)) [
  | inl e ↦ rw e ((e, is_before_trans a b bs e h.0), h)
  | inr e ↦
      rw e
        (All-insert (λ s. is_before b s ≡ true) a bs (ground arith) h.0, insert-IsRanked a bs h.1)
]

by_rank-IsRanked : (rs : List SearchResult) → IsRanked (by_rank rs)
unfolding by_rank
by_rank-IsRanked [] = tt
by_rank-IsRanked (r ∷ rs) = insert-IsRanked r (by_rank rs) (by_rank-IsRanked rs)

take-IsRanked : (n : ℕ) (rs : List SearchResult) → IsRanked rs → IsRanked (take n rs)
take-IsRanked zero rs h = tt
take-IsRanked (suc n) [] h = tt
take-IsRanked (suc n) (r ∷ rs) h =
    (All-take (λ s. is_before r s ≡ true) n rs h.0, take-IsRanked n rs h.1)

pub top-IsRanked : (limit : ℕ) (rs : List SearchResult) → IsRanked (top limit rs)
unfolding top
top-IsRanked limit rs = take-IsRanked limit (by_rank rs) (by_rank-IsRanked rs)

pub length-top : (limit : ℕ) (rs : List SearchResult) → length (top limit rs) ≤ limit
unfolding top
length-top limit rs = omega (arith, length-take limit (by_rank rs))
