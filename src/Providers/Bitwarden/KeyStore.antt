-- ===== src/Providers/Bitwarden/KeyStore.antt =====
-- What crates/keyring-providers/src/bitwarden/crypto.rs uses of the crate `bitwarden_crypto`, as the
-- parameter `Crypto`, its key ids, and its errors.
use keyring_rs.Base.{ℕ, Bool, Option}
use keyring_rs.Base.Text.{Text}

-- `key_ids!`; `L` is the type of local ids.
pub data BitwardenSymmetricKeyId (L : Type 0) : Type 0 where
  user : BitwardenSymmetricKeyId L
  organization : ℕ → BitwardenSymmetricKeyId L
  local : L → BitwardenSymmetricKeyId L

pub data BitwardenAsymmetricKeyId (L : Type 0) : Type 0 where
  user_private_key : BitwardenAsymmetricKeyId L
  local_private_key : L → BitwardenAsymmetricKeyId L

-- `bitwarden_crypto::Kdf`
pub data Kdf : Type 0 where
  pbkdf2 : (iterations : ℕ) → Kdf
  argon2 : (iterations memory parallelism : ℕ) → Kdf

-- `KeyStore` is `Store`, and `KeyStoreContext` is `Context`, whose local keys `close` drops.
pub record Crypto : Type 1 where
  pub Store : Type 0
  pub Context : Type 0
  pub LocalId : Type 0
  pub EncString : Type 0
  pub UnsignedSharedKey : Type 0
  pub MasterKey : Type 0
  pub SymmetricKey : Type 0
  pub empty : Store
  pub context_mut : Store → Context
  pub close : Context → Store
  pub parse_enc_string : Text → Option EncString
  pub parse_shared_key : Text → Option UnsignedSharedKey
  pub derive : Text → Text → Kdf → Option MasterKey
  pub decrypt_user_key : MasterKey → EncString → Option SymmetricKey
  pub has_symmetric_key : BitwardenSymmetricKeyId LocalId → Context → Bool
  pub has_asymmetric_key : BitwardenAsymmetricKeyId LocalId → Context → Bool
  pub add_local_symmetric_key : SymmetricKey → Context → BitwardenSymmetricKeyId LocalId × Context
  pub has_known_algorithm : BitwardenSymmetricKeyId LocalId → Context → Bool
  pub unwrap_private_key :
      BitwardenSymmetricKeyId LocalId
      → EncString
      → Context
      → Option (BitwardenAsymmetricKeyId LocalId) × Context
  pub persist_asymmetric_key :
      BitwardenAsymmetricKeyId LocalId → BitwardenAsymmetricKeyId LocalId → Context → Bool × Context
  pub persist_symmetric_key :
      BitwardenSymmetricKeyId LocalId → BitwardenSymmetricKeyId LocalId → Context → Bool × Context
  pub retain_symmetric_keys : (BitwardenSymmetricKeyId LocalId → Bool) → Context → Context
  pub decapsulate_key_unsigned :
      BitwardenAsymmetricKeyId LocalId
      → BitwardenSymmetricKeyId LocalId
      → UnsignedSharedKey
      → Context
      → Bool × Context
  pub unwrap_symmetric_key :
      BitwardenSymmetricKeyId LocalId
      → EncString
      → Context
      → Option (BitwardenSymmetricKeyId LocalId) × Context
  pub decrypt : BitwardenSymmetricKeyId LocalId → EncString → Context → Option Text × Context

pub data CryptoError : Type 0 where
  missing_private_key bad_private_key missing_unlock bad_kdf_parameter missing_memory : CryptoError
  missing_parallelism missing_wrapped_key bad_wrapped_key missing_salt : CryptoError
  bad_kdf user_key_not_decrypted unknown_algorithm : CryptoError
  private_key_not_persisted user_key_not_persisted : CryptoError
  user_private_key_missing : CryptoError
  bad_organization_key organization_key_not_decrypted : ℕ → CryptoError
  bad_cipher_key cipher_key_not_unwrapped missing_cipher_key : CryptoError
  bad_enc_string not_decrypted : CryptoError
