-- ===== src/Files/Names.antt =====
-- File names: sanitizeFilename of src/file/file.service.ts, on UTF-16 code units.
pub mod Extension
pub mod Safety
use workspacebridge_backend.Base.{
  ℕ, suc, zero, ◌+◌, ◌-◌, ◌≤◌, ◌<◌, subst, ◌≡◌, refl, ap, ◌∙◌, Bool, true, false, ◌&&◌, ◌||◌,
  Option, none, some, List, [], ◌∷◌, ◌++◌, arith, inl, inr, ltb, leb, ◌==◌, if◌then◌else◌, length,
  take, drop, All, elem, length-append, length-take, Bool-cases, le→leb, leb→le,
}

abbrev pub max_filename_length : ℕ
max_filename_length = 255

-- `[\x00-\x1F\x7F]`
abbrev pub is_control : ℕ → Bool
is_control c = ltb c 32 || c == 127

-- What `trim` removes: the white space and line ends of ECMAScript.
abbrev pub is_space : ℕ → Bool
is_space c =
    (leb 9 c && leb c 13)
    || c == 32
    || c == 160
    || c == 5760
    || (leb 8192 c && leb c 8202)
    || c == 8232
    || c == 8233
    || c == 8239
    || c == 8287
    || c == 12288
    || c == 65279

abbrev pub is_dot_or_space : ℕ → Bool
is_dot_or_space c = c == 46 || c == 32

-- `replace(/p/g, '')`
unfoldable pub strip : (ℕ → Bool) → List ℕ → List ℕ
strip p [] = []
strip p (c ∷ cs) = let rest = strip p cs in if p c then rest else c ∷ rest

unfoldable pub trim_start : (ℕ → Bool) → List ℕ → List ℕ
trim_start p [] = []
trim_start p (c ∷ cs) = let rest = trim_start p cs in if p c then rest else c ∷ cs

-- `replace(/p+$/, '')`
unfoldable pub trim_end : (ℕ → Bool) → List ℕ → List ℕ
trim_end p [] = []
trim_end p (c ∷ cs) = elim (trim_end p cs) [ [] ↦ if p c then [] else c ∷ [] | d ∷ ds ↦ c ∷ d ∷ ds ]

-- `base.slice(0, max - e)`, where a negative end counts from the end of the text.
unfoldable pub slice_base : ℕ → List ℕ → List ℕ
slice_base e base =
    if leb e max_filename_length
    then take (max_filename_length - e) base
    else take (length base - (e - max_filename_length)) base

unfoldable pub trimmed_name : List ℕ → List ℕ
trimmed_name name =
    trim_end is_dot_or_space (trim_end is_space (trim_start is_space (strip is_control name)))

abbrev pub is_empty : List ℕ → Bool
is_empty [] = true
is_empty (c ∷ cs) = false

-- `path.extname` of Node (POSIX): of the last part of the path, from the last dot on, unless the dot
-- comes first or the part is '..'.
unfoldable pub last_part : List ℕ → List ℕ
last_part [] = []
last_part (c ∷ cs) =
    let rest = last_part cs in if elem 47 cs then rest else if c == 47 then cs else c ∷ cs

unfoldable pub from_last_dot : List ℕ → List ℕ
from_last_dot [] = []
from_last_dot (c ∷ cs) =
    let rest = from_last_dot cs in if elem 46 cs then rest else if c == 46 then c ∷ cs else []

abbrev pub is_slash : ℕ → Bool
is_slash c = c == 47

abbrev pub is_lone_dot : List ℕ → Bool
is_lone_dot [] = false
is_lone_dot (c ∷ cs) = c == 46 && is_empty cs

abbrev pub extension_of : List ℕ → List ℕ
extension_of [] = []
extension_of (c ∷ cs) = if c == 46 && is_lone_dot cs then [] else from_last_dot cs

unfoldable pub node_extname : List ℕ → List ℕ
unfolding last_part from_last_dot
node_extname path = extension_of (last_part (trim_end is_slash path))

-- The two functions take the `extname` that they use.
module _ (extname : List ℕ → List ℕ) where
  unfoldable pub truncate : List ℕ → List ℕ
  truncate name =
      let ext = extname name in
      slice_base (length ext) (take (length name - length ext) name) ++ ext

  -- `none` is the 400 "Filename is required".
  unfoldable pub sanitize_filename : List ℕ → Option (List ℕ)
  unfolding truncate
  sanitize_filename original_name =
      let name = trimmed_name original_name in
      if is_empty name
      then none
      else if leb (length name) max_filename_length
      then some name
      else some (truncate name)
