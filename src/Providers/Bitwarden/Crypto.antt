-- ===== src/Providers/Bitwarden/Crypto.antt =====
-- crates/keyring-providers/src/bitwarden/crypto.rs: the bootstrap of the key store from a login,
-- the keys of organizations, and the keys of ciphers. The crate `bitwarden_crypto` is the parameter
-- `Crypto`. Errors are told apart by their context; the cause below it, which is only logged, is not kept.
pub mod Store
pub mod Entries
pub mod Organizations
pub mod Bootstrap
pub mod UserKey
use keyring_rs.Base.{
  ℕ, Bool, true, false, not, List, [], ◌∷◌, Option, none, some, ◌==◌, is_empty, if◌then◌else◌,
}
use keyring_rs.Base.Int.{ℤ, to_u32}
use keyring_rs.Base.Text.{Text, is_blank}
use keyring_rs.Base.Result.{Done, Result, ok, err, Run, ok_or, map_ok, and_then, continue}
use keyring_rs.Base.Run.{◌>>=◌, ◌>>◌, return, fail, lift, on_error}
use keyring_rs.Providers.Bitwarden.Models.{
  BitwardenProfileOrganization, BitwardenProfile, BitwardenCipher,
}
use keyring_rs.Providers.Bitwarden.Auth.{
  KdfType, pbkdf2_sha256, argon2id, KdfModel, MasterPasswordUnlockResponseModel,
  BitwardenTokenSuccessResponse,
}
use keyring_rs.Providers.Bitwarden.KeyStore.{
  BitwardenSymmetricKeyId, user, organization, local, BitwardenAsymmetricKeyId, user_private_key,
  local_private_key, Kdf, pbkdf2, argon2, Crypto, CryptoError, missing_private_key, bad_private_key,
  missing_unlock, bad_kdf_parameter, missing_memory, missing_parallelism, missing_wrapped_key,
  bad_wrapped_key, missing_salt, bad_kdf, user_key_not_decrypted, unknown_algorithm,
  private_key_not_persisted, user_key_not_persisted, user_private_key_missing, bad_organization_key,
  organization_key_not_decrypted, bad_cipher_key, cipher_key_not_unwrapped, missing_cipher_key,
  bad_enc_string, not_decrypted,
}

abbrev pub nonzero : Option ℕ → Option ℕ
nonzero none = none
nonzero (some n) = if n == 0 then none else some n

unfoldable pub parse_nonzero_u32 : ℤ → Result CryptoError ℕ
parse_nonzero_u32 value = ok_or (nonzero (to_u32 value)) bad_kdf_parameter

unfoldable pub parse_kdf : KdfType → KdfModel → Result CryptoError Kdf
unfolding parse_nonzero_u32
parse_kdf pbkdf2_sha256 kdf = map_ok (λ n. pbkdf2 n) (parse_nonzero_u32 kdf.iterations)
parse_kdf argon2id kdf = and_then (parse_nonzero_u32 kdf.iterations) (λ iterations.
    and_then (ok_or kdf.memory missing_memory) (λ m. and_then (parse_nonzero_u32 m) (λ memory.
      and_then (ok_or kdf.parallelism missing_parallelism)
        (λ p. map_ok (λ parallelism. argon2 iterations memory parallelism) (parse_nonzero_u32 p)))))

-- `filter(|value| !value.trim().is_empty())`
unfoldable pub non_blank : Option Text → Option Text
unfolding is_blank
non_blank none = none
non_blank (some value) = if is_blank value then none else some value

-- `as_deref().unwrap_or(&[])`
abbrev pub or_empty : {A : Type 0} → Option (List A) → List A
or_empty none = []
or_empty (some xs) = xs

module _ (C : Crypto) where
  abbrev pub SymmetricKeyId : Type 0
  SymmetricKeyId = BitwardenSymmetricKeyId C.LocalId

  pub record BitwardenMasterPasswordUnlockData : Type 0 where
    pub kdf : Kdf
    pub master_key_wrapped_user_key : C.EncString
    pub salt : Text

  unfoldable pub parse_master_password_unlock :
      MasterPasswordUnlockResponseModel → Result CryptoError BitwardenMasterPasswordUnlockData
  unfolding parse_kdf
  parse_master_password_unlock response =
      and_then (parse_kdf response.kdf.kdf_type response.kdf) (λ kdf.
        and_then (ok_or response.master_key_encrypted_user_key missing_wrapped_key) (λ text.
          and_then (ok_or (C.parse_enc_string text) bad_wrapped_key) (λ wrapped.
            map_ok
              (λ salt. record { kdf = kdf; master_key_wrapped_user_key = wrapped; salt = salt })
              (ok_or response.salt missing_salt))))

  abbrev pub unlock_model : BitwardenTokenSuccessResponse → Option MasterPasswordUnlockResponseModel
  unlock_model token = elim token.user_decryption_options [
    | none ↦ none
    | some options ↦ options.master_password_unlock
  ]

  -- Steps 1 to 3, which do not touch the store: the private key as it was sent, and the user key.
  unfoldable pub user_keys :
      Text → BitwardenTokenSuccessResponse → Result CryptoError (C.EncString × C.SymmetricKey)
  unfolding parse_master_password_unlock
  user_keys password token = and_then (ok_or token.private_key missing_private_key) (λ text.
      and_then (ok_or (C.parse_enc_string text) bad_private_key) (λ private_key.
        and_then (ok_or (unlock_model token) missing_unlock) (λ model.
          and_then (parse_master_password_unlock model) (λ unlock.
            and_then (ok_or (C.derive password unlock.salt unlock.kdf) bad_kdf) (λ master_key.
              map_ok (λ user_key. (private_key, user_key))
                (ok_or (C.decrypt_user_key master_key unlock.master_key_wrapped_user_key)
                  user_key_not_decrypted))))))

  -- A change of the context that may fail, with its error.
  abbrev pub step : (C.Context → Bool × C.Context) → CryptoError → Run C.Context CryptoError Done
  step f e ctx = let r = f ctx in (if r.0 then ok tt else err e, r.1)

  abbrev pub require :
      {A : Type 0} → (C.Context → Option A × C.Context) → CryptoError → Run C.Context CryptoError A
  require f e ctx = let r = f ctx in (ok_or r.0 e, r.1)

  -- The unwrapped private key is persisted; without one there is nothing to do.
  unfoldable pub persist_private_key :
      Option (BitwardenAsymmetricKeyId C.LocalId) → Run C.Context CryptoError Done
  persist_private_key none = return tt
  persist_private_key (some id) =
      step (C.persist_asymmetric_key id user_private_key) private_key_not_persisted

  unfoldable pub import_user_key : C.EncString → SymmetricKeyId → Run C.Context CryptoError Done
  unfolding persist_private_key
  import_user_key private_key user_key_id ctx =
      if C.has_known_algorithm user_key_id ctx
      then (let unwrapped = C.unwrap_private_key user_key_id private_key ctx in
          continue (persist_private_key unwrapped.0 unwrapped.1)
            (λ _. step (C.persist_symmetric_key user_key_id user) user_key_not_persisted))
      else (err unknown_algorithm, ctx)

  -- Step 4, in a context of the store.
  unfoldable pub bootstrap : C.EncString × C.SymmetricKey → Run C.Context CryptoError Done
  unfolding import_user_key
  bootstrap (private_key, user_key) ctx =
      if C.has_symmetric_key user ctx
      then (ok tt, ctx)
      else (let added = C.add_local_symmetric_key user_key ctx in
          import_user_key private_key added.0 added.1)

  -- A context lives to the end of the function that opened it.
  abbrev pub in_context : {A : Type 0} → Run C.Context CryptoError A → Run C.Store CryptoError A
  in_context f store = let r = f (C.context_mut store) in (r.0, C.close r.1)

  -- Step 4, once the keys of the login are known.
  unfoldable pub import_user_keys :
      C.Store
      → Result CryptoError (C.EncString × C.SymmetricKey)
      → Result CryptoError Done × C.Store
  unfolding bootstrap
  import_user_keys store (err e) = (err e, store)
  import_user_keys store (ok keys) = in_context (bootstrap keys) store

  unfoldable pub initialize_user_crypto :
      Text → BitwardenTokenSuccessResponse → Run C.Store CryptoError Done
  unfolding user_keys import_user_keys
  initialize_user_crypto password token store = import_user_keys store (user_keys password token)

  abbrev pub is_not_organization : SymmetricKeyId → Bool
  is_not_organization (organization id) = false
  is_not_organization _ = true

  unfoldable pub import_key : ℕ → Text → Run C.Context CryptoError Done
  import_key id key = do
    shared_key ← lift (ok_or (C.parse_shared_key key) (bad_organization_key id))
    step (C.decapsulate_key_unsigned user_private_key (organization id) shared_key)
        (organization_key_not_decrypted id)

  -- One pass of the loop; an entry without an id or a key is passed over.
  unfoldable pub import_organization : BitwardenProfileOrganization → Run C.Context CryptoError Done
  unfolding import_key
  import_organization o = elim o.id [
    | none ↦ return tt
    | some id ↦ elim o.key [ none ↦ return tt | some key ↦ import_key id key ]
  ]

  unfoldable pub import_organizations :
      List BitwardenProfileOrganization → Run C.Context CryptoError Done
  unfolding import_organization
  import_organizations [] = return tt
  import_organizations (o ∷ rest) = do import_organization o; import_organizations rest

  unfoldable pub rebuild_organizations :
      List BitwardenProfileOrganization → Run C.Context CryptoError Done
  unfolding import_organizations
  rebuild_organizations organizations ctx =
      if C.has_asymmetric_key user_private_key ctx
      then import_organizations organizations (C.retain_symmetric_keys is_not_organization ctx)
      else (err user_private_key_missing, ctx)

  unfoldable pub initialize_org_keys : BitwardenProfile → Run C.Store CryptoError Done
  unfolding rebuild_organizations
  initialize_org_keys profile store =
      let organizations = or_empty profile.organizations in
      if is_empty organizations
      then (ok tt, store)
      else in_context (rebuild_organizations organizations) store

  abbrev pub base_key : Option ℕ → SymmetricKeyId
  base_key none = user
  base_key (some id) = organization id

  unfoldable pub unwrapped_key :
      SymmetricKeyId → Option Text → Run C.Context CryptoError SymmetricKeyId
  unwrapped_key base none = return base
  unwrapped_key base (some key) = do
    wrapped ← lift (ok_or (C.parse_enc_string key) bad_cipher_key)
    require (C.unwrap_symmetric_key base wrapped) cipher_key_not_unwrapped

  unfoldable pub check_key : SymmetricKeyId → Run C.Context CryptoError SymmetricKeyId
  check_key key_id ctx =
      if C.has_symmetric_key key_id ctx then (ok key_id, ctx) else (err missing_cipher_key, ctx)

  unfoldable pub resolve_cipher_key : BitwardenCipher → Run C.Context CryptoError SymmetricKeyId
  unfolding non_blank unwrapped_key check_key
  resolve_cipher_key cipher = do
    key_id ← unwrapped_key (base_key cipher.organization_id) (non_blank cipher.key)
    check_key key_id

  unfoldable pub decrypt_optional_string :
      SymmetricKeyId → Option Text → Run C.Context CryptoError (Option Text)
  decrypt_optional_string key none = return none
  decrypt_optional_string key (some value) = do
    encrypted ← lift (ok_or (C.parse_enc_string value) bad_enc_string)
    text ← require (C.decrypt key encrypted) not_decrypted
    return (some text)
