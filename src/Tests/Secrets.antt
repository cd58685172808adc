-- ===== src/Tests/Secrets.antt =====
-- A secret at a concrete input, with a cipher that adds a tag of zeros.
use workspacebridge_backend.Base.{◌≡◌, refl, true, some, List, ℕ, [], ◌∷◌}
use workspacebridge_backend.Auth.Secrets.{
  SecretCipher, is_encrypted_secret, encrypt_secret, decrypt_secret, starts_with, secret_kept,
}

abbrev zeros : List ℕ
zeros = 0 ∷ 0 ∷ 0 ∷ 0 ∷ 0 ∷ 0 ∷ 0 ∷ 0 ∷ 0 ∷ 0 ∷ 0 ∷ 0 ∷ 0 ∷ 0 ∷ 0 ∷ 0 ∷ []

abbrev vector : List ℕ
vector = 1 ∷ 2 ∷ 3 ∷ 4 ∷ 5 ∷ 6 ∷ 7 ∷ 8 ∷ 9 ∷ 10 ∷ 11 ∷ 12 ∷ []

abbrev cipher : SecretCipher
cipher = record {
  to_base64 = λ bytes. bytes;
  from_base64 = λ text. text;
  to_utf8 = λ text. text;
  from_utf8 = λ bytes. bytes;
  seal = λ iv text. (zeros, text);
  unseal = λ iv tag text. some text;
}

secret_kept_example :
    (is_encrypted_secret (some (encrypt_secret cipher vector (74 ∷ 66 ∷ []))) ≡ true)
    × (decrypt_secret cipher (encrypt_secret cipher vector (74 ∷ 66 ∷ [])) ≡ some (74 ∷ 66 ∷ []))
    × (decrypt_secret cipher (74 ∷ []) ≡ some (74 ∷ []))
secret_kept_example =
    secret_kept cipher vector (74 ∷ 66 ∷ []) (74 ∷ [])
      (record { base64 = λ bytes. refl; utf8 = refl; vector = refl; tag = refl; opens = refl })
      (unfold is_encrypted_secret starts_with in refl)
