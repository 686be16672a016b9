-- ===== src/Providers/Bitwarden/Provider/Reading.antt =====
-- Discovery reads the key store, and every cipher counts by itself.
use keyring_rs.Base.{ℕ, ◌≡◌, refl, ◌∙◌, inl, inr, Bool-cases, List, [], ◌∷◌, Option, none, some}
use keyring_rs.Base.Text.{Text}
use keyring_rs.Base.Result.{ok, ok_or, continue}
use keyring_rs.Base.Run.{change_error, change_error-keeps, continue-keeps}
use keyring_rs.Core.Provider.{SshKey, KeyPairSnapshot}
use keyring_rs.Providers.Bitwarden.Models.{
  BitwardenCipher, BitwardenCipherSshKey, is_ssh_key, is_deleted, is_archived,
}
use keyring_rs.Providers.Bitwarden.Crypto.{
  SymmetricKeyId, base_key, non_blank, unwrapped_key, check_key, resolve_cipher_key,
  decrypt_optional_string, require,
}
use keyring_rs.Providers.Bitwarden.KeyStore.{
  Crypto, bad_cipher_key, cipher_key_not_unwrapped, bad_enc_string, not_decrypted,
}
use keyring_rs.Providers.Bitwarden.Crypto.Store.{ReadLaws}
use keyring_rs.Providers.Bitwarden.Provider.{
  undecryptable, decrypt_key, open_key, key, usable, discover,
}

module _ (C : Crypto) (laws : ReadLaws C) (store : C.Store) where
  abbrev Same : C.Context → Type 0
  Same c = C.close c ≡ store

  unwrap-Same :
      (base : SymmetricKeyId C) (c : C.Context)
      → Same c
      → (o : Option C.EncString)
      → Same
          (continue
            (ok_or o bad_cipher_key, c)
            (λ w. require C (C.unwrap_symmetric_key base w) cipher_key_not_unwrapped)).1
  unwrap-Same base c h none = h
  unwrap-Same base c h (some w) = laws.close_unwrap base w c ∙ h

  unwrapped_key-Same :
      (base : SymmetricKeyId C) (c : C.Context)
      → Same c
      → (o : Option Text) → Same (unwrapped_key C base o c).1
  unfolding unwrapped_key
  unwrapped_key-Same base c h none = h
  unwrapped_key-Same base c h (some key) = unwrap-Same base c h (C.parse_enc_string key)

  check_key-Same : (id : SymmetricKeyId C) (c : C.Context) → Same c → Same (check_key C id c).1
  unfolding check_key
  check_key-Same id c h = elim (Bool-cases (C.has_symmetric_key id c)) [
    | inl e ↦ rw (check_key, e) h
    | inr e ↦ rw (check_key, e) h
  ]

  resolve_cipher_key-Same :
      (cipher : BitwardenCipher) (c : C.Context) → Same c → Same (resolve_cipher_key C cipher c).1
  unfolding resolve_cipher_key
  resolve_cipher_key-Same cipher c h =
      continue-keeps Same
        (unwrapped_key C (base_key C cipher.organization_id) (non_blank cipher.key) c) (check_key C)
        (unwrapped_key-Same (base_key C cipher.organization_id) c h (non_blank cipher.key))
        check_key-Same

  decrypt-Same :
      (id : SymmetricKeyId C) (c : C.Context)
      → Same c
      → (o : Option C.EncString)
      → Same
          (continue
            (ok_or o bad_enc_string, c)
            (λ w d.
              continue (require C (C.decrypt id w) not_decrypted d) (λ t d'. (ok (some t), d')))).1
  decrypt-Same id c h none = h
  decrypt-Same id c h (some w) =
      continue-keeps Same (require C (C.decrypt id w) not_decrypted c) _
        (laws.close_decrypt id w c ∙ h) (λ t d k. k)

  decrypt_optional_string-Same :
      (id : SymmetricKeyId C) (value : Option Text) (c : C.Context)
      → Same c
      → Same (decrypt_optional_string C id value c).1
  unfolding decrypt_optional_string
  decrypt_optional_string-Same id none c h = h
  decrypt_optional_string-Same id (some value) c h = decrypt-Same id c h (C.parse_enc_string value)

  module _ (K : SshKey) (show_uuid : ℕ → Text) where
    decrypt_key-Same :
        (id : ℕ) (ssh : BitwardenCipherSshKey) (cipher : BitwardenCipher) (c : C.Context)
        → Same c
        → Same (decrypt_key K C show_uuid id ssh cipher c).1
    unfolding decrypt_key
    decrypt_key-Same id ssh cipher c h =
        continue-keeps Same (change_error undecryptable (resolve_cipher_key C cipher c)) _
          (change_error-keeps Same undecryptable (resolve_cipher_key C cipher c)
            (resolve_cipher_key-Same cipher c h))
          (λ key d k.
            continue-keeps Same
              (change_error undecryptable (decrypt_optional_string C key cipher.name d)) _
              (change_error-keeps Same undecryptable (decrypt_optional_string C key cipher.name d)
                (decrypt_optional_string-Same key cipher.name d k))
              (λ name d' k'.
                continue-keeps Same
                  (change_error undecryptable (decrypt_optional_string C key ssh.private_key d')) _
                  (change_error-keeps Same undecryptable
                    (decrypt_optional_string C key ssh.private_key d')
                    (decrypt_optional_string-Same key ssh.private_key d' k'))
                  (λ pem d'' k''. k'')))

    open_key-store :
        (cipher : BitwardenCipher) (i : Option ℕ) (s : Option BitwardenCipherSshKey)
        → cipher.id ≡ i
        → cipher.ssh_key ≡ s
        → (open_key K C show_uuid cipher store).1 ≡ store
    unfolding open_key
    open_key-store cipher none s e e' = rw (open_key, e) refl
    open_key-store cipher (some id) none e e' = rw (open_key, e, e') refl
    open_key-store cipher (some id) (some ssh) e e' =
        rw (open_key, e, e')
          (decrypt_key-Same id ssh cipher (C.context_mut store) (laws.close_context store))

    key-store : (cipher : BitwardenCipher) → (key K C show_uuid cipher store).1 ≡ store
    unfolding key
    key-store cipher = elim (Bool-cases (is_ssh_key cipher)) [
      | inr e ↦ rw (key, e) refl
      | inl e ↦ elim (Bool-cases (is_deleted cipher)) [
        | inl q ↦ rw (key, e, q) refl
        | inr q ↦ elim (Bool-cases (is_archived cipher)) [
          | inl i ↦ rw (key, e, q, i) refl
          | inr i ↦ rw (key, e, q, i) (open_key-store cipher cipher.id cipher.ssh_key refl refl)
        ]
      ]
    ]

    -- The keys of the ciphers, each read in the store as it is, in the order of the vault.
    abbrev pub keys_of : List BitwardenCipher → KeyPairSnapshot K
    keys_of [] = []
    keys_of (cipher ∷ rest) = usable K C show_uuid (key K C show_uuid cipher store).0 (keys_of rest)

    -- Discovery returns the keys of the ciphers in order, each as the cipher yields it by itself in the
    -- store at the start: a cipher that fails, or is of no use, changes nothing for the others, and the
    -- store is the same at the end.
    pub discover-keys_of :
        (ciphers : List BitwardenCipher)
        → discover K C show_uuid ciphers store ≡ (keys_of ciphers, store)
    unfolding discover
    discover-keys_of [] = refl
    discover-keys_of (cipher ∷ rest) = rw (key-store cipher, discover-keys_of rest) refl
