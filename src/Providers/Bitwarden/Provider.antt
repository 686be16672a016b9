-- ===== src/Providers/Bitwarden/Provider.antt =====
-- crates/keyring-providers/src/bitwarden/provider.rs: loading the SSH keys of a vault, once an hour.
pub mod Discovery
pub mod Reading
pub mod Keeping
pub mod Confinement
pub mod Caching
pub mod Held
pub mod Origin
use keyring_rs.Base.{ℕ, ◌*◌, not, List, [], ◌∷◌, ◌++◌, Option, none, some, if◌then◌else◌}
use keyring_rs.Base.Text.{Text, text, trim, is_blank}
use keyring_rs.Base.Result.{Result, ok, err, Run, ok_or}
use keyring_rs.Base.Run.{◌>>=◌, return, lift, on_error}
use keyring_rs.Core.Provider.{SshKey, KeyPairSnapshot, KeyPairProvider}
use keyring_rs.Core.Cell.{CacheCell, get_or_try_init}
use keyring_rs.Providers.Bitwarden.Config.{BitwardenProviderConfig}
use keyring_rs.Providers.Bitwarden.Models.{
  BitwardenProfile, BitwardenCipher, BitwardenCipherSshKey, BitwardenSyncResponse, is_ssh_key,
  is_deleted, is_archived,
}
use keyring_rs.Providers.Bitwarden.Crypto.{
  in_context, resolve_cipher_key, decrypt_optional_string, or_empty,
}
use keyring_rs.Providers.Bitwarden.KeyStore.{Crypto, CryptoError}
use keyring_rs.Providers.Bitwarden.Session.{new, sync, init_orgs}
use keyring_rs.Providers.Bitwarden.Net.{BitwardenSession, Net, SyncError, from_secs}

pub data CipherError : Type 0 where
  undecryptable : CryptoError → CipherError
  bad_openssh : ℕ → CipherError

pub data FetchError (E : Type 0) : Type 0 where
  session_failed : SyncError E → FetchError E
  missing_profile : FetchError E
  organizations_failed : CryptoError → FetchError E

-- `session` is the once-cell, `keys` the cache.
pub record BitwardenProvider (K : SshKey) (C : Crypto) : Type 0 where
  pub config : BitwardenProviderConfig
  pub session : Option (BitwardenSession C)
  pub keys : CacheCell (KeyPairSnapshot K)

pub data NameError : Type 0 where
  bitwarden_name_empty : NameError

-- `Display for Uuid` is a parameter.
abbrev pub default_comment : (ℕ → Text) → ℕ → Text
default_comment show_uuid id = text "bitwarden:" ++ show_uuid id

unfoldable pub choose_comment : (ℕ → Text) → ℕ → Option Text → Text
unfolding trim is_blank
choose_comment show_uuid id none = default_comment show_uuid id
choose_comment show_uuid id (some name) =
    if is_blank name then default_comment show_uuid id else trim name

module _ (K : SshKey) (C : Crypto) where
  unfoldable pub try_from_bitwarden :
      BitwardenProviderConfig → Result NameError (BitwardenProvider K C)
  unfolding is_blank
  try_from_bitwarden value =
      if is_blank value.name
      then err bitwarden_name_empty
      else ok (record { config = value; session = none; keys = none })

module _ (K : SshKey) (C : Crypto) (show_uuid : ℕ → Text) where
  -- Step 3 of `key`.
  unfoldable pub parse_key :
      ℕ → Option Text → Option Text → Result CipherError (Option K.PrivateKey)
  unfolding choose_comment
  parse_key id name none = ok none
  parse_key id name (some pem) = elim (K.from_openssh pem) [
    | none ↦ err (bad_openssh id)
    | some out ↦ ok (some (K.set_comment out (choose_comment show_uuid id name)))
  ]

  unfoldable pub decrypt_key :
      ℕ → BitwardenCipherSshKey → BitwardenCipher → Run C.Context CipherError (Option K.PrivateKey)
  unfolding parse_key resolve_cipher_key decrypt_optional_string
  decrypt_key id ssh cipher = do
    key ← on_error (resolve_cipher_key C cipher) undecryptable
    name ← on_error (decrypt_optional_string C key cipher.name) undecryptable
    pem ← on_error (decrypt_optional_string C key ssh.private_key) undecryptable
    lift (parse_key id name pem)

  -- The second group of guards, and a context for the rest.
  unfoldable pub open_key :
      BitwardenCipher → C.Store → Result CipherError (Option K.PrivateKey) × C.Store
  unfolding decrypt_key
  open_key cipher store = elim cipher.id [
    | none ↦ (ok none, store)
    | some id ↦ elim cipher.ssh_key [
      | none ↦ (ok none, store)
      | some ssh ↦ (let r = decrypt_key id ssh cipher (C.context_mut store) in (r.0, C.close r.1))
    ]
  ]

  unfoldable pub key :
      BitwardenCipher → C.Store → Result CipherError (Option K.PrivateKey) × C.Store
  unfolding open_key is_ssh_key is_deleted is_archived
  key cipher store =
      if not (is_ssh_key cipher)
      then (ok none, store)
      else if is_deleted cipher
      then (ok none, store)
      else if is_archived cipher
      then (ok none, store)
      else open_key cipher store

  -- The closure of `filter_map`: an error is logged, and the cipher skipped.
  abbrev pub usable :
      Result CipherError (Option K.PrivateKey) → KeyPairSnapshot K → KeyPairSnapshot K
  usable (ok (some k)) rest = k ∷ rest
  usable (ok none) rest = rest
  usable (err e) rest = rest

  unfoldable pub discover : List BitwardenCipher → C.Store → KeyPairSnapshot K × C.Store
  unfolding key
  discover [] store = ([], store)
  discover (cipher ∷ rest) store =
      let r = key cipher store in let more = discover rest r.1 in (usable r.0 more.0, more.1)

  module _ {W E : Type 0} (net : Net C W E) (config : BitwardenProviderConfig) where
    abbrev pub discover_in :
        List BitwardenCipher → Run (BitwardenSession C × W) (FetchError E) (KeyPairSnapshot K)
    discover_in ciphers (s, w) =
        let found = discover ciphers s.store in (ok found.0, (record s { store = found.1 }, w))

    -- Steps 2 to 4 of `fetch`, with the session at hand.
    unfoldable pub refresh : Run (BitwardenSession C × W) (FetchError E) (KeyPairSnapshot K)
    unfolding sync init_orgs discover
    refresh = do
      response ← on_error (sync net config) session_failed
      profile ← lift (ok_or response.profile missing_profile)
      on_error (init_orgs net profile) organizations_failed >>= λ _.
          discover_in (or_empty response.ciphers)

    abbrev pub keep_session :
        Result (FetchError E) (KeyPairSnapshot K) × (BitwardenSession C × W)
        → Result (FetchError E) (KeyPairSnapshot K) × (Option (BitwardenSession C) × W)
    keep_session (r, (s, w)) = (r, (some s, w))

    unfoldable pub with_session :
        Result (SyncError E) (BitwardenSession C) × W
        → Result (FetchError E) (KeyPairSnapshot K) × (Option (BitwardenSession C) × W)
    unfolding refresh
    with_session (ok s, w) = keep_session (refresh (s, w))
    with_session (err e, w) = (err (session_failed e), (none, w))

    -- A failure to build the session leaves the once-cell empty; the session outlives later failures.
    unfoldable pub fetch : Run (Option (BitwardenSession C) × W) (FetchError E) (KeyPairSnapshot K)
    unfolding new refresh with_session
    fetch (none, w) = with_session (new net config w)
    fetch (some s, w) = keep_session (refresh (s, w))

    abbrev pub cache_ttl : ℕ
    cache_ttl = from_secs (60 * 60)

    abbrev pub Loading : Type 0
    Loading = CacheCell (KeyPairSnapshot K) × (Option (BitwardenSession C) × W)

    -- `acquire` is the wait for the lock of the cache.
    unfoldable pub load_bitwarden : (Loading → Loading) → KeyPairProvider K Loading (FetchError E)
    unfolding get_or_try_init fetch
    load_bitwarden acquire = get_or_try_init (λ st. net.now st.1) acquire cache_ttl fetch
