-- ===== src/Files/Names/Safety.antt =====
-- What is promised of a stored file name: sanitizeFilename of src/file/file.service.ts.
use workspacebridge_backend.Base.{
  ℕ, ◌+◌, ◌-◌, ◌≤◌, ◌<◌, subst, ◌≡◌, refl, ap, ◌∙◌, true, false, some, List, [], ◌∷◌, ◌++◌, arith,
  inl, inr, leb, length, take, drop, All, length-append, length-take, Bool-cases, le→leb, leb→le,
}
use workspacebridge_backend.Files.Names.Extension.{
  IsPart, node_extname-IsPart, strip-All, All-trim_start, All-trim_end, All-take, All-append,
}
use workspacebridge_backend.Files.Names.{
  max_filename_length, is_control, is_space, is_dot_or_space, slice_base, trimmed_name, is_empty,
  truncate, sanitize_filename, node_extname,
}

drop-length-append : (cs ds : List ℕ) → drop (length cs) (cs ++ ds) ≡ ds
drop-length-append [] ds = refl
drop-length-append (c ∷ cs) ds = drop-length-append cs ds

trimmed_name-All : (raw : List ℕ) → All (λ c. is_control c ≡ false) (trimmed_name raw)
unfolding trimmed_name
trimmed_name-All raw = All-trim_end is_control is_dot_or_space _ (
    All-trim_end is_control is_space _
      (All-trim_start is_control is_space _ (strip-All is_control raw)))

not_empty : (cs : List ℕ) → 1 ≤ length cs → is_empty cs ≡ false
not_empty [] h = absurd (omega arith)
not_empty (c ∷ cs) h = refl

module _ (extname : List ℕ → List ℕ) where
  -- What is promised of a stored name: it is not empty, has no control characters, is within the limit if
  -- the extension is, and is the trimmed name, or ends with its extension if that is too long.
  pub record IsSafe (name s : List ℕ) : Type 0 where
    pub nonempty : is_empty s ≡ false
    pub no_controls : All (λ c. is_control c ≡ false) s
    pub bounded : length (extname name) ≤ max_filename_length → length s ≤ max_filename_length
    pub kept : length name ≤ max_filename_length → s ≡ name
    pub keeps_extension :
        max_filename_length < length name → drop (length s - length (extname name)) s ≡ extname name

  All-slice_base :
      (e : ℕ) (base : List ℕ)
      → All (λ c. is_control c ≡ false) base
      → All (λ c. is_control c ≡ false) (slice_base e base)
  unfolding slice_base
  All-slice_base e base h = elim (Bool-cases (leb e max_filename_length)) [
    | inl small ↦ rw small (All-take is_control (max_filename_length - e) base h)
    | inr big ↦ rw big (All-take is_control (length base - (e - max_filename_length)) base h)
  ]

  -- With the extension, the shortened base fills the limit, unless the extension is longer.
  length-slice_base :
      (e : ℕ) (base : List ℕ)
      → max_filename_length < length base + e
      → leb e max_filename_length ≡ true
      → length (slice_base e base) + e ≡ max_filename_length
  unfolding slice_base
  length-slice_base e base big small =
      rw small (ground (arith, length-take (max_filename_length - e) base))

  truncate-IsSafe :
      (name : List ℕ)
      → IsPart (extname name) name
      → All (λ c. is_control c ≡ false) name
      → max_filename_length < length name
      → IsSafe name (truncate extname name)
  unfolding truncate
  truncate-IsSafe name part clean long =
      let ext = extname name in
      let base = take (length name - length ext) name in
      let head = slice_base (length ext) base in
      let whole : length (head ++ ext) ≡ length head + length ext = length-append head ext in
      let whole_base : length base + length ext ≡ length name =
        ground (arith, length-take (length name - length ext) name, part.0) in
      let fits : leb (length ext) max_filename_length ≡ true
          → length head + length ext ≡ max_filename_length =
        length-slice_base (length ext) base (omega (arith, whole_base)) in
      record {
        nonempty =
            not_empty (head ++ ext) (elim (Bool-cases (leb (length ext) max_filename_length)) [
              | inl small ↦ omega (arith, whole, fits small)
              | inr big ↦ ground (arith, whole, big)
            ]);
        no_controls =
            All-append is_control head ext
              (All-slice_base (length ext) base (All-take is_control _ name clean))
              (part.1 is_control clean);
        bounded = λ small. omega (arith, whole, fits (le→leb _ _ small));
        kept = λ short. absurd (omega (arith, long, short));
        keeps_extension = λ any.
            ap (λ k. drop k (head ++ ext)) (omega (arith, whole)) ∙ drop-length-append head ext;
      }

-- A name that is accepted is safe: it is not empty and has no control characters; a trimmed name that is
-- short enough is kept as it is, a longer one is cut to the limit and keeps its extension, if the
-- extension itself is within the limit.
pub sanitize_filename-IsSafe :
    (raw s : List ℕ)
    → sanitize_filename node_extname raw ≡ some s
    → IsSafe node_extname (trimmed_name raw) s
unfolding sanitize_filename
sanitize_filename-IsSafe raw s e =
    let name = trimmed_name raw in
    elim (Bool-cases (is_empty name)) [
      | inl empty ↦ ground arith
      | inr some_left ↦ elim (Bool-cases (leb (length name) max_filename_length)) [
        | inl small ↦
            let same : name ≡ s = ground arith in
            subst (IsSafe node_extname name) same (record {
              nonempty = some_left;
              no_controls = trimmed_name-All raw;
              bounded = λ any. leb→le _ _ small;
              kept = λ any. refl;
              keeps_extension = λ long. ground (arith, long, small);
            })
        | inr big ↦
            let same : truncate node_extname name ≡ s = ground arith in
            subst (IsSafe node_extname name) same (
              truncate-IsSafe node_extname name (node_extname-IsPart name) (trimmed_name-All raw)
                (ground arith))
      ]
    ]
