-- ===== src/Service/Index.antt =====
-- The session's `HashMap<KeyData, KeyPair>` of crates/keyring-service/src/runtime.rs, as an
-- association list. Its iteration order is left open: see `request_identities`.
pub mod Laws
use keyring_rs.Base.{List, [], ◌∷◌, Option, none, some, ite}
use keyring_rs.Core.Provider.{SshKey, KeyPairSnapshot}

abbrev pub Index : SshKey → Type 0
Index K = List (K.KeyData × K.PrivateKey)

module _ (K : SshKey) where
  -- `HashMap::get`
  unfoldable pub get : K.KeyData → Index K → Option K.PrivateKey
  get d [] = none
  get d ((c, k) ∷ m) = ite (K.key_data_eq c d) (some k) (get d m)

  -- `HashMap::insert`: a later entry replaces the earlier one with the same key.
  unfoldable pub insert : K.KeyData → K.PrivateKey → Index K → Index K
  insert d k [] = (d, k) ∷ []
  insert d k ((c, j) ∷ m) = ite (K.key_data_eq c d) ((c, k) ∷ m) ((c, j) ∷ insert d k m)

  -- `out.extend(keys.iter().map(|key| (KeyData::from(key), key)))`
  unfoldable pub extend : Index K → KeyPairSnapshot K → Index K
  unfolding insert
  extend out [] = out
  extend out (key ∷ keys) = extend (insert (K.key_data key) key out) keys
