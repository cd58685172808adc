-- ===== src/Auth/Secrets.antt =====
-- Secrets at rest: src/libs/common/utils/secret-crypto.ts. Texts are code units, buffers are bytes.
use workspacebridge_backend.Base.{
  ℕ, ◌≡◌, refl, ap, subst, ◌∙◌, Bool, true, false, not, ◌&&◌, Option, none, some, List, [], ◌∷◌,
  ◌++◌, arith, ◌==◌, if◌then◌else◌, length, take, drop,
}

abbrev pub iv_length : ℕ
iv_length = 12

abbrev pub auth_tag_length : ℕ
auth_tag_length = 16

-- 'enc:v1:'
abbrev pub encrypted_prefix : List ℕ
encrypted_prefix = 101 ∷ 110 ∷ 99 ∷ 58 ∷ 118 ∷ 49 ∷ 58 ∷ []

-- What the code takes from Node: base64 and UTF-8, and AES-256-GCM under the key of the environment,
-- which gives a tag and a ciphertext, and opens them again or throws (`none`).
pub record SecretCipher : Type 0 where
  pub to_base64 : List ℕ → List ℕ
  pub from_base64 : List ℕ → List ℕ
  pub to_utf8 : List ℕ → List ℕ
  pub from_utf8 : List ℕ → List ℕ
  pub seal : List ℕ → List ℕ → List ℕ × List ℕ
  pub unseal : List ℕ → List ℕ → List ℕ → Option (List ℕ)

unfoldable pub starts_with : List ℕ → List ℕ → Bool
starts_with [] text = true
starts_with (p ∷ ps) [] = false
starts_with (p ∷ ps) (c ∷ cs) = p == c && starts_with ps cs

-- `typeof stored === 'string' && stored.startsWith(ENCRYPTED_PREFIX)`
unfoldable pub is_encrypted_secret : Option (List ℕ) → Bool
unfolding starts_with
is_encrypted_secret none = false
is_encrypted_secret (some stored) = starts_with encrypted_prefix stored

module _ (x : SecretCipher) where
  -- The random initialisation vector is an argument.
  unfoldable pub encrypt_secret : List ℕ → List ℕ → List ℕ
  encrypt_secret iv plaintext =
      let (tag, encrypted) = x.seal iv (x.to_utf8 plaintext) in
      encrypted_prefix ++ x.to_base64 (iv ++ (tag ++ encrypted))

  unfoldable pub unseal_text : List ℕ → List ℕ → List ℕ → Option (List ℕ)
  unseal_text iv tag encrypted = elim (x.unseal iv tag encrypted) [
    | none ↦ none
    | some bytes ↦ some (x.from_utf8 bytes)
  ]

  -- The buffer, taken apart and opened.
  unfoldable pub unseal_parts : List ℕ → Option (List ℕ)
  unfolding unseal_text
  unseal_parts combined =
      let rest = drop iv_length combined in
      unseal_text (take iv_length combined) (take auth_tag_length rest) (drop auth_tag_length rest)

  unfoldable pub decrypt_secret : List ℕ → Option (List ℕ)
  unfolding starts_with unseal_parts
  decrypt_secret stored =
      if not (starts_with encrypted_prefix stored)
      then some stored
      else unseal_parts (x.from_base64 (drop (length encrypted_prefix) stored))

take-front {ℓ} : {A : Type ℓ} (n : ℕ) (xs ys : List A) → length xs ≡ n → take n (xs ++ ys) ≡ xs
take-front {A = A} n xs ys e = subst (λ k. take k (xs ++ ys) ≡ xs) e (go xs)
  where
    go : (zs : List A) → take (length zs) (zs ++ ys) ≡ zs
    go [] = refl
    go (z ∷ zs) = ap (◌∷◌ z) (go zs)

drop-front {ℓ} : {A : Type ℓ} (n : ℕ) (xs ys : List A) → length xs ≡ n → drop n (xs ++ ys) ≡ ys
drop-front {A = A} n xs ys e = subst (λ k. drop k (xs ++ ys) ≡ ys) e (go xs)
  where
    go : (zs : List A) → drop (length zs) (zs ++ ys) ≡ ys
    go [] = refl
    go (z ∷ zs) = go zs

-- What Node documents of the parts: base64 and UTF-8 decode what they encode, the tag has sixteen bytes, and
-- a ciphertext opens under the vector and the tag that it came with.
pub record IsSound (x : SecretCipher) (iv plaintext : List ℕ) : Type 0 where
  pub base64 : (bytes : List ℕ) → x.from_base64 (x.to_base64 bytes) ≡ bytes
  pub utf8 : x.from_utf8 (x.to_utf8 plaintext) ≡ plaintext
  pub vector : length iv ≡ iv_length
  pub tag : length (x.seal iv (x.to_utf8 plaintext)).0 ≡ auth_tag_length
  pub opens :
      x.unseal iv (x.seal iv (x.to_utf8 plaintext)).0 (x.seal iv (x.to_utf8 plaintext)).1
      ≡ some (x.to_utf8 plaintext)

unseal_text_lem :
    (x : SecretCipher) (iv tag encrypted bytes : List ℕ)
    → x.unseal iv tag encrypted ≡ some bytes
    → unseal_text x iv tag encrypted ≡ some (x.from_utf8 bytes)
unfolding unseal_text
unseal_text_lem x iv tag encrypted bytes e =
    ap
      (λ (o : Option (List ℕ)). elim o as (λ k. Option (List ℕ)) [
        | none ↦ none
        | some b ↦ some (x.from_utf8 b)
      ])
      e

unsealed :
    (x : SecretCipher) (combined iv tag encrypted bytes : List ℕ)
    → take iv_length combined ≡ iv
    → take auth_tag_length (drop iv_length combined) ≡ tag
    → drop auth_tag_length (drop iv_length combined) ≡ encrypted
    → x.unseal iv tag encrypted ≡ some bytes
    → unseal_parts x combined ≡ some (x.from_utf8 bytes)
unfolding unseal_parts
unsealed x combined iv tag encrypted bytes e f g h =
    let rest = drop iv_length combined in
    ap (λ i. unseal_text x i (take auth_tag_length rest) (drop auth_tag_length rest)) e
    ∙ ap (λ t. unseal_text x iv t (drop auth_tag_length rest)) f
    ∙ ap (unseal_text x iv tag) g
    ∙ unseal_text_lem x iv tag encrypted bytes h

-- A secret that is encrypted is marked as such and decrypts to itself; a text without the mark, from before
-- the encryption, is read as it is.
pub secret_kept :
    (x : SecretCipher) (iv plaintext legacy : List ℕ)
    → IsSound x iv plaintext
    → is_encrypted_secret (some legacy) ≡ false
    → (is_encrypted_secret (some (encrypt_secret x iv plaintext)) ≡ true)
      × (decrypt_secret x (encrypt_secret x iv plaintext) ≡ some plaintext)
      × (decrypt_secret x legacy ≡ some legacy)
unfolding encrypt_secret decrypt_secret is_encrypted_secret starts_with
secret_kept x iv plaintext legacy h old =
    let (tag, encrypted) = x.seal iv (x.to_utf8 plaintext) in
    let combined = iv ++ (tag ++ encrypted) in
    let rest = drop-front iv_length iv (tag ++ encrypted) h.vector in
    (
      refl,
      ap (unseal_parts x) (h.base64 combined)
          ∙ unsealed x combined iv tag encrypted (x.to_utf8 plaintext)
              (take-front iv_length iv (tag ++ encrypted) h.vector)
              (ap (take auth_tag_length) rest ∙ take-front auth_tag_length tag encrypted h.tag)
              (ap (drop auth_tag_length) rest ∙ drop-front auth_tag_length tag encrypted h.tag)
              h.opens
          ∙ ap some h.utf8,
      ground arith,
    )
