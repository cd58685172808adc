-- ===== src/Files/Names/Extension.antt =====
-- What `extname` and the cuts of sanitizeFilename in src/file/file.service.ts keep of a name.
use workspacebridge_backend.Base.{
  ℕ, suc, zero, ◌≤◌, ◌≡◌, Bool, false, List, [], ◌∷◌, ◌++◌, arith, length, take, drop, All,
}
use workspacebridge_backend.Files.Names.{
  strip, trim_start, trim_end, last_part, from_last_dot, is_slash, extension_of, node_extname,
}

pub strip-All : (p : ℕ → Bool) (cs : List ℕ) → All (λ c. p c ≡ false) (strip p cs)
unfolding strip
strip-All p [] = tt
strip-All p (c ∷ cs) = ground (arith, strip-All p cs)

pub All-trim_start :
    (p q : ℕ → Bool) (cs : List ℕ)
    → All (λ c. p c ≡ false) cs
    → All (λ c. p c ≡ false) (trim_start q cs)
unfolding trim_start
All-trim_start p q [] h = tt
All-trim_start p q (c ∷ cs) h = ground (arith, All-trim_start p q cs h.1)

pub All-trim_end :
    (p q : ℕ → Bool) (cs : List ℕ)
    → All (λ c. p c ≡ false) cs
    → All (λ c. p c ≡ false) (trim_end q cs)
unfolding trim_end
All-trim_end p q [] h = tt
All-trim_end p q (c ∷ cs) h = ground (arith, All-trim_end p q cs h.1)

pub All-take :
    (p : ℕ → Bool) (k : ℕ) (cs : List ℕ)
    → All (λ c. p c ≡ false) cs
    → All (λ c. p c ≡ false) (take k cs)
All-take p zero cs h = tt
All-take p (suc k) [] h = tt
All-take p (suc k) (c ∷ cs) h = (h.0, All-take p k cs h.1)

pub All-drop :
    (p : ℕ → Bool) (k : ℕ) (cs : List ℕ)
    → All (λ c. p c ≡ false) cs
    → All (λ c. p c ≡ false) (drop k cs)
All-drop p zero cs h = h
All-drop p (suc k) [] h = tt
All-drop p (suc k) (c ∷ cs) h = All-drop p k cs h.1

pub All-append :
    (p : ℕ → Bool) (cs ds : List ℕ)
    → All (λ c. p c ≡ false) cs
    → All (λ c. p c ≡ false) ds
    → All (λ c. p c ≡ false) (cs ++ ds)
All-append p [] ds h k = k
All-append p (c ∷ cs) ds h k = (h.0, All-append p cs ds h.1 k)

-- A suffix of a list keeps what all of it has, and is no longer.
abbrev pub IsPart : List ℕ → List ℕ → Type 0
IsPart cs ds =
    (length cs ≤ length ds)
    × ((p : ℕ → Bool) → All (λ c. p c ≡ false) ds → All (λ c. p c ≡ false) cs)

IsPart-trans : (as_ bs cs : List ℕ) → IsPart as_ bs → IsPart bs cs → IsPart as_ cs
IsPart-trans as_ bs cs h k = (omega (arith, h.0, k.0), (λ p all. h.1 p (k.1 p all)))

length-trim_end-le : (q : ℕ → Bool) (cs : List ℕ) → length (trim_end q cs) ≤ length cs
unfolding trim_end
length-trim_end-le q [] = omega arith
length-trim_end-le q (c ∷ cs) = ground (arith, length-trim_end-le q cs)

trim_end-IsPart : (q : ℕ → Bool) (cs : List ℕ) → IsPart (trim_end q cs) cs
trim_end-IsPart q cs = (length-trim_end-le q cs, (λ p all. All-trim_end p q cs all))

last_part-IsPart : (cs : List ℕ) → IsPart (last_part cs) cs
unfolding last_part
last_part-IsPart [] = (omega arith, (λ p all. tt))
last_part-IsPart (c ∷ cs) =
    let rest = last_part-IsPart cs in
    (ground (arith, rest.0), (λ p all. ground (arith, all.0, all.1, rest.1 p all.1)))

from_last_dot-IsPart : (cs : List ℕ) → IsPart (from_last_dot cs) cs
unfolding from_last_dot
from_last_dot-IsPart [] = (omega arith, (λ p all. tt))
from_last_dot-IsPart (c ∷ cs) =
    let rest = from_last_dot-IsPart cs in
    (ground (arith, rest.0), (λ p all. ground (arith, all.0, all.1, rest.1 p all.1)))

extension_of-IsPart : (cs : List ℕ) → IsPart (extension_of cs) cs
extension_of-IsPart [] = (omega arith, (λ p all. tt))
extension_of-IsPart (c ∷ cs) =
    let rest : IsPart (from_last_dot cs) cs = from_last_dot-IsPart cs in
    (ground (arith, rest.0), (λ p all. ground (arith, rest.1 p all.1)))

-- The extension is made of the name.
pub node_extname-IsPart : (name : List ℕ) → IsPart (node_extname name) name
unfolding node_extname
node_extname-IsPart name =
    let path = trim_end is_slash name in
    IsPart-trans (extension_of (last_part path)) (last_part path) name
      (extension_of-IsPart (last_part path))
      (IsPart-trans (last_part path) path name (last_part-IsPart path)
        (trim_end-IsPart is_slash name))
