-- ===== src/Providers/Bitwarden/Provider/Discovery.antt =====
-- Which keys are discovered in a vault.
use keyring_rs.Base.{
  ℕ, ◌≡◌, refl, subst, ◌⊎◌, inl, inr, Bool, true, false, not, Bool-cases, Option, none, some,
  Option-cases, is_empty, if◌then◌else◌, arith,
}
use keyring_rs.Base.Text.{Text, is_blank}
use keyring_rs.Base.Result.{Result, ok}
use keyring_rs.Base.Run.{change_error, change_error-ok, continue-elim}
use keyring_rs.Core.Provider.{SshKey}
use keyring_rs.Providers.Bitwarden.Models.{
  BitwardenCipher, BitwardenCipherSshKey, is_ssh_key, is_deleted, is_archived,
}
use keyring_rs.Providers.Bitwarden.Crypto.{
  SymmetricKeyId, resolve_cipher_key, decrypt_optional_string,
}
use keyring_rs.Providers.Bitwarden.KeyStore.{Crypto}
use keyring_rs.Providers.Bitwarden.Provider.{
  CipherError, undecryptable, choose_comment, parse_key, decrypt_key, open_key, key,
}

choose_comment-nonempty :
    (show_uuid : ℕ → Text) (id : ℕ) (name : Option Text)
    → is_empty (choose_comment show_uuid id name) ≡ false
unfolding choose_comment is_blank
choose_comment-nonempty show_uuid id none = refl
choose_comment-nonempty show_uuid id (some name) = elim (Bool-cases (is_blank name)) [
  | inl e ↦ rw (choose_comment, e) refl
  | inr e ↦ rw (choose_comment, e) e
]

module _ (K : SshKey) (C : Crypto) (show_uuid : ℕ → Text) where
  -- The name and the private key text of a cipher, read in a context one after the other, with the
  -- cipher's key.
  pub record Decrypted (cipher : BitwardenCipher) (ssh : BitwardenCipherSshKey) (c : C.Context)
      (name pem : Option Text) : Type 0 where
    pub key : SymmetricKeyId C
    pub keyed : C.Context
    pub named : C.Context
    pub read : C.Context
    pub resolved : resolve_cipher_key C cipher c ≡ (ok key, keyed)
    pub name_read : decrypt_optional_string C key cipher.name keyed ≡ (ok name, named)
    pub pem_read : decrypt_optional_string C key ssh.private_key named ≡ (ok pem, read)

  -- What a key is that is discovered for a cipher in a store.
  pub record Live (cipher : BitwardenCipher) (store : C.Store) (k : K.PrivateKey) : Type 0 where
    pub ssh : is_ssh_key cipher ≡ true
    pub not_deleted : is_deleted cipher ≡ false
    pub not_archived : is_archived cipher ≡ false
    pub id : ℕ
    pub has_id : cipher.id ≡ some id
    pub ssh_key : BitwardenCipherSshKey
    pub has_ssh_key : cipher.ssh_key ≡ some ssh_key
    pub name : Option Text
    pub pem : Text
    pub decrypted : Decrypted cipher ssh_key (C.context_mut store) name (some pem)
    pub parsed : K.PrivateKey
    pub from_pem : K.from_openssh pem ≡ some parsed
    pub is_key : k ≡ K.set_comment parsed (choose_comment show_uuid id name)
    pub comment_nonempty : is_empty (choose_comment show_uuid id name) ≡ false

  parse_key-some :
      (id : ℕ) (name pem : Option Text) (k : K.PrivateKey)
      → parse_key K C show_uuid id name pem ≡ ok (some k)
      → (text : Text) × (pem ≡ some text)
        × (out : K.PrivateKey) × (K.from_openssh text ≡ some out)
        × (k ≡ K.set_comment out (choose_comment show_uuid id name))
  unfolding parse_key
  parse_key-some id name none k h = cc h
  parse_key-some id name (some pem) k h = elim (Option-cases (K.from_openssh pem)) [
    | inl e ↦ cc (e, h)
    | inr (out, e) ↦ (pem, refl, out, e, cc (e, h))
  ]

  -- The parts that a key was made of.
  abbrev Made : ℕ → BitwardenCipher → BitwardenCipherSshKey → C.Context → K.PrivateKey → Type 0
  Made id cipher ssh c k =
      (name : Option Text) × (pem : Option Text) × Decrypted cipher ssh c name pem
      × (parse_key K C show_uuid id name pem ≡ ok (some k))

  decrypt_key-some :
      (id : ℕ) (ssh : BitwardenCipherSshKey) (cipher : BitwardenCipher) (c : C.Context)
      (k : K.PrivateKey)
      → (decrypt_key K C show_uuid id ssh cipher c).0 ≡ ok (some k)
      → Made id cipher ssh c k
  unfolding decrypt_key
  decrypt_key-some id ssh cipher c k =
      let resolved = resolve_cipher_key C cipher c in
      let keyed = change_error undecryptable resolved in
      continue-elim Q keyed _
        (λ key found.
          let name_read = decrypt_optional_string C key cipher.name keyed.1 in
          let named = change_error undecryptable name_read in
          continue-elim Q named _
            (λ name found'.
              let pem_read = decrypt_optional_string C key ssh.private_key named.1 in
              let opened = change_error undecryptable pem_read in
              continue-elim Q opened _
                (λ pem found'' h. (
                  name,
                  pem,
                  record {
                    key = key;
                    keyed = keyed.1;
                    named = named.1;
                    read = opened.1;
                    resolved = change_error-ok undecryptable resolved key found;
                    name_read = change_error-ok undecryptable name_read name found';
                    pem_read = change_error-ok undecryptable pem_read pem found'';
                  },
                  h,
                ))
                (λ e _ h. cc h))
            (λ e _ h. cc h))
        (λ e _ h. cc h)
    where
      Q : Result CipherError (Option K.PrivateKey) × C.Context → Type 0
      Q r = r.0 ≡ ok (some k) → Made id cipher ssh c k

  open_key-some :
      (cipher : BitwardenCipher) (store : C.Store) (k : K.PrivateKey)
      → (open_key K C show_uuid cipher store).0 ≡ ok (some k)
      → (id : ℕ) × (cipher.id ≡ some id)
        × (ssh : BitwardenCipherSshKey) × (cipher.ssh_key ≡ some ssh)
        × Made id cipher ssh (C.context_mut store) k
  unfolding open_key
  open_key-some cipher store k h = go cipher.id cipher.ssh_key refl refl
    where
      go :
          (i : Option ℕ) (s : Option BitwardenCipherSshKey)
          → cipher.id ≡ i
          → cipher.ssh_key ≡ s
          → (id : ℕ) × (cipher.id ≡ some id)
            × (ssh : BitwardenCipherSshKey) × (cipher.ssh_key ≡ some ssh)
            × Made id cipher ssh (C.context_mut store) k
      go none s e e' = cc (e, h)
      go (some id) none e e' = cc (e, e', h)
      go (some id) (some ssh) e e' =
          (id, e, ssh, e', decrypt_key-some id ssh cipher (C.context_mut store) k (cc (e, e', h)))

  abbrev guarded :
      Bool
      → Bool
      → Bool
      → C.Store
      → Result CipherError (Option K.PrivateKey) × C.Store
      → Result CipherError (Option K.PrivateKey) × C.Store
  guarded ssh deleted archived store r =
      if not ssh
      then (ok none, store)
      else if deleted
      then (ok none, store)
      else if archived
      then (ok none, store)
      else r

  guarded-some :
      (ssh deleted archived : Bool) (store : C.Store)
      (r : Result CipherError (Option K.PrivateKey) × C.Store) (k : K.PrivateKey)
      → (guarded ssh deleted archived store r).0 ≡ ok (some k)
      → (ssh ≡ true) × (deleted ≡ false) × (archived ≡ false) × (r.0 ≡ ok (some k))
  guarded-some false deleted archived store r k h = cc h
  guarded-some true true archived store r k h = cc h
  guarded-some true false true store r k h = cc h
  guarded-some true false false store r k h = (refl, refl, refl, h)

  guarded_dead :
      (ssh deleted archived : Bool) (store : C.Store)
      (r : Result CipherError (Option K.PrivateKey) × C.Store)
      → (ssh ≡ false) ⊎ ((deleted ≡ true) ⊎ (archived ≡ true))
      → guarded ssh deleted archived store r ≡ (ok none, store)
  guarded_dead false deleted archived store r h = refl
  guarded_dead true true archived store r h = refl
  guarded_dead true false true store r h = refl
  guarded_dead true false false store r h = ground arith

  -- A key found for a cipher is that of a live SSH item with an id: it is parsed from the item's private
  -- key text, decrypted with the item's key, and named by the item's trimmed name, decrypted before it, or
  -- by the id, never by an empty comment. For a cipher that is no SSH item, or is deleted or archived,
  -- nothing is decrypted and the store is not touched.
  pub key-Live :
      (cipher : BitwardenCipher) (store : C.Store)
      → ((k : K.PrivateKey)
          → (key K C show_uuid cipher store).0 ≡ ok (some k)
          → Live cipher store k)
        × ((is_ssh_key cipher ≡ false) ⊎ ((is_deleted cipher ≡ true) ⊎ (is_archived cipher ≡ true))
            → key K C show_uuid cipher store ≡ (ok none, store))
  unfolding key
  key-Live cipher store =
      let r = open_key K C show_uuid cipher store in
      (
        λ k h.
            let g =
              guarded-some (is_ssh_key cipher) (is_deleted cipher) (is_archived cipher) store r k
                h in
            let (id, has_id, ssh, has_ssh, parts) = open_key-some cipher store k g.3 in
            let (name, pem, decrypted, made) = parts in
            let (text, some_pem, out, from_pem, is_key) = parse_key-some id name pem k made in
            record {
              ssh = g.0;
              not_deleted = g.1;
              not_archived = g.2;
              id = id;
              has_id = has_id;
              ssh_key = ssh;
              has_ssh_key = has_ssh;
              name = name;
              pem = text;
              decrypted =
                  subst (Decrypted cipher ssh (C.context_mut store) name) some_pem decrypted;
              parsed = out;
              from_pem = from_pem;
              is_key = is_key;
              comment_nonempty = choose_comment-nonempty show_uuid id name;
            },
        guarded_dead (is_ssh_key cipher) (is_deleted cipher) (is_archived cipher) store r,
      )
