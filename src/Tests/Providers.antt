-- ===== src/Tests/Providers.antt =====
-- The Bitwarden provider against a small key store and a small net.
use keyring_rs.Base.{
  ℕ, ◌≡◌, ◌↔◌, ◌⊎◌, refl, true, false, List, [], ◌∷◌, none, some, ◌==◌, if◌then◌else◌,
}
use keyring_rs.Base.Text.{Text, text}
use keyring_rs.Base.Result.{Result, ok, err}
use keyring_rs.Base.Int.{pos}
use keyring_rs.Providers.Bitwarden.Config.{BitwardenProviderConfig}
use keyring_rs.Providers.Bitwarden.Models.{
  BitwardenProfile, BitwardenCipher, BitwardenSyncResponse, is_ssh_key, is_deleted, is_archived,
}
use keyring_rs.Providers.Bitwarden.Auth.{
  BitwardenTokenSuccessResponse, success, pbkdf2_sha256, request_api_key_token,
}
use keyring_rs.Providers.Bitwarden.Auth.Laws.{Granted, request_api_key_token-Granted}
use keyring_rs.Providers.Bitwarden.Crypto.{initialize_user_crypto, initialize_org_keys, or_empty}
use keyring_rs.Providers.Bitwarden.KeyStore.{CryptoError, user, organization}
use keyring_rs.Providers.Bitwarden.Crypto.Store.{is_some}
use keyring_rs.Providers.Bitwarden.Crypto.Organizations.{initialize_org_keys-last}
use keyring_rs.Providers.Bitwarden.Crypto.Entries.{key_from, last_key}
use keyring_rs.Providers.Bitwarden.Crypto.Bootstrap.{is_ok, initialize_user_crypto-has_user}
use keyring_rs.Providers.Bitwarden.Session.{sync, login, request_token}
use keyring_rs.Providers.Bitwarden.Session.Publishing.{Published, login-Published}
use keyring_rs.Providers.Bitwarden.Auth.{BitwardenAuthError}
use keyring_rs.Providers.Bitwarden.Net.{BitwardenSession, Net, default_auth}
use keyring_rs.Providers.Bitwarden.Session.Login.{IsSession, Rely}
use keyring_rs.Providers.Bitwarden.Session.Order.{sync-IsSession}
use keyring_rs.Providers.Bitwarden.Session.Calls.{Calls, counted, calls, Within}
use keyring_rs.Providers.Bitwarden.Session.Confinement.{Respects}
use keyring_rs.Providers.Bitwarden.Session.Attempts.{sync-calls}
use keyring_rs.Providers.Bitwarden.Session.Recovery.{Ended, sync-Ended}
use keyring_rs.Providers.Bitwarden.Provider.{key, discover, load_bitwarden, Loading}
use keyring_rs.Providers.Bitwarden.Provider.Discovery.{Live, key-Live}
use keyring_rs.Providers.Bitwarden.Provider.Reading.{keys_of, discover-keys_of}
use keyring_rs.Providers.Bitwarden.Provider.Caching.{IsCell, load_bitwarden-IsCell}
use keyring_rs.Tests.Toy.{toy_key, Key}
use keyring_rs.Tests.Vault.{ToyStore, toy_crypto, toy_view, toy_store_laws, toy_read_laws}

abbrev pub vault_config : BitwardenProviderConfig
vault_config = record {
  name = text "vault";
  api_url = text "api";
  identity_url = text "identity";
  client_id = text "id";
  client_secret = text "secret";
  password = text "pw";
}

abbrev token_payload : BitwardenTokenSuccessResponse
token_payload = record {
  access_token = text "t";
  expires_in = 3600;
  private_key = some (text "private");
  user_decryption_options = some (record {
    master_password_unlock = some (record {
      kdf = record {
        kdf_type = pbkdf2_sha256;
        iterations = pos 600000;
        memory = none;
        parallelism = none;
      };
      master_key_encrypted_user_key = some (text "wrapped");
      salt = some (text "salt");
    });
  });
}

abbrev ssh_cipher : BitwardenCipher
ssh_cipher = record {
  id = some 9;
  organization_id = none;
  cipher_type = some (pos 5);
  name = some (text " laptop ");
  deleted_date = none;
  archived_date = none;
  key = none;
  ssh_key = some (record { private_key = some (text "pem") });
}

-- The same item in the trash, and one with a key of its own.
abbrev vault_ciphers : List BitwardenCipher
vault_ciphers = record ssh_cipher { deleted_date = some (text "2026") } ∷ ssh_cipher ∷ []

abbrev vault_payload : BitwardenSyncResponse
vault_payload = record {
  profile = some (record { organizations = none });
  ciphers = some vault_ciphers;
}

-- The world holds the statuses of the sync requests to come.
abbrev popped : List ℕ → Result ℕ ℕ × List ℕ
popped [] = (err 0, [])
popped (status ∷ rest) = (ok status, rest)

abbrev pub toy_net : Net toy_crypto (List ℕ) ℕ
toy_net = record {
  http = record {
    Response = ℕ;
    Bytes = Text;
    post = λ p st. (ok 200, st);
    get = λ g st. let r = popped st.1 in (r.0, (st.0, r.1));
    status = λ status. status;
    bytes = λ r st. (ok [], st);
    decode_token = λ body. some (success token_payload);
  };
  build_client = λ connect read total w. (ok tt, w);
  gate = λ st. st;
  now = λ w. 1000;
  instant_max = 9000000000000000;
  decode_sync = λ body. some vault_payload;
}

toy_net-Rely : Rely toy_net toy_view
toy_net-Rely = record {
  post-IsSession = λ p st h. h;
  get-IsSession = λ g st h. h;
  bytes-IsSession = λ r st h. h;
  gate-IsSession = λ st h. h;
}

pub toy_net-Respects : (cfg : BitwardenProviderConfig) → Respects toy_net cfg
toy_net-Respects cfg = record {
  post-IsOwn = λ p st h. h;
  get-IsOwn = λ g st h. h;
  bytes-IsOwn = λ r st h. h;
  gate-IsOwn = λ st h. h;
}

abbrev pub fresh_session : BitwardenSession toy_crypto
fresh_session = record {
  api = record { base_path = text "api"; user_agent = none };
  id = record { base_path = text "identity"; user_agent = none };
  store = toy_crypto.empty;
  state = default_auth;
}

fresh_session-IsSession : IsSession toy_view fresh_session
fresh_session-IsSession = record {
  token_exp = refl;
  token_crypto = λ e. cc e;
  crypto_user = λ e. cc e;
}

request_api_key_token-Granted_example :
    (request_api_key_token toy_net.http CryptoError fresh_session.id [] [] (fresh_session, [])
      ≡ (ok token_payload, (fresh_session, [])))
    ↔ Granted toy_net.http CryptoError fresh_session.id [] []
        (fresh_session, [])
        token_payload
        (fresh_session, [])
request_api_key_token-Granted_example =
    request_api_key_token-Granted toy_net.http CryptoError fresh_session.id [] []
      (fresh_session, []) (fresh_session, []) token_payload

sync-IsSession_example :
    IsSession toy_view (sync toy_net vault_config (fresh_session, 401 ∷ 200 ∷ [])).1.0
sync-IsSession_example =
    sync-IsSession toy_net toy_view toy_store_laws toy_net-Rely vault_config
      (fresh_session, 401 ∷ 200 ∷ []) fresh_session-IsSession

abbrev no_calls : Calls
no_calls = record { posts = 0; gets = 0 }

sync-calls_example : Within 2 2 no_calls (
    calls toy_net
      (sync (counted toy_net) vault_config (fresh_session, (401 ∷ 200 ∷ [], no_calls))).1)
sync-calls_example = sync-calls toy_net vault_config (fresh_session, (401 ∷ 200 ∷ [], no_calls))

sync-Ended_example : Ended toy_net (sync toy_net vault_config (fresh_session, 401 ∷ 401 ∷ 200 ∷ []))
sync-Ended_example = sync-Ended toy_net vault_config (fresh_session, 401 ∷ 401 ∷ 200 ∷ [])

initialize_user_crypto-has_user_example :
    (is_some (
        toy_view.find user
          (initialize_user_crypto toy_crypto (text "pw") token_payload toy_crypto.empty).1)
      ≡ (if is_ok (initialize_user_crypto toy_crypto (text "pw") token_payload toy_crypto.empty).0
          then true
          else false))
    × ((id : ℕ)
        → toy_view.find
            (organization id)
            (initialize_user_crypto toy_crypto (text "pw") token_payload toy_crypto.empty).1
          ≡ none)
initialize_user_crypto-has_user_example =
    initialize_user_crypto-has_user toy_crypto toy_view toy_store_laws (text "pw") token_payload
      toy_crypto.empty

-- An old organization 5, whose key the profile does not have, and a second key for organization 1.
abbrev before_orgs : ToyStore
before_orgs = record { user_key = some 1; private_key = some 100; organizations = λ id. some 50 }

abbrev profile : BitwardenProfile
profile = record {
  organizations = some (
      record { id = some 1; key = some (text "a") }
      ∷ record { id = none; key = some (text "b") }
      ∷ record { id = some 1; key = some (text "abc") }
      ∷ []);
}

-- Organization 1 has the last of its keys, and all others have none.
abbrev after_orgs : ToyStore
after_orgs = record {
  user_key = some 1;
  private_key = some 100;
  organizations = λ id. if id == 1 then some 103 else if id == 1 then some 101 else none;
}

org_keys_imported : initialize_org_keys toy_crypto profile before_orgs ≡ (ok tt, after_orgs)
unfolding initialize_org_keys
org_keys_imported = refl

initialize_org_keys-last_example :
    (false ≡ false
      → ((id : ℕ)
          → toy_view.find (organization id) after_orgs
            ≡ key_from toy_crypto toy_view toy_store_laws
                (toy_crypto.context_mut before_orgs)
                none
                (last_key id (or_empty profile.organizations)))
        × (toy_view.find user after_orgs ≡ some 1))
    × (false ≡ true → after_orgs ≡ before_orgs)
initialize_org_keys-last_example =
    initialize_org_keys-last toy_crypto toy_view toy_store_laws profile before_orgs after_orgs
      org_keys_imported

key-Live_example :
    ((k : Key)
      → (key toy_key toy_crypto (λ id. []) ssh_cipher before_orgs).0 ≡ ok (some k)
      → Live toy_key toy_crypto (λ id. []) ssh_cipher before_orgs k)
    × ((is_ssh_key ssh_cipher ≡ false)
          ⊎ ((is_deleted ssh_cipher ≡ true) ⊎ (is_archived ssh_cipher ≡ true))
        → key toy_key toy_crypto (λ id. []) ssh_cipher before_orgs ≡ (ok none, before_orgs))
key-Live_example = key-Live toy_key toy_crypto (λ id. []) ssh_cipher before_orgs

discover-keys_of_example :
    discover toy_key toy_crypto (λ id. []) vault_ciphers before_orgs
    ≡ (keys_of toy_crypto toy_read_laws before_orgs toy_key (λ id. []) vault_ciphers, before_orgs)
discover-keys_of_example =
    discover-keys_of toy_crypto toy_read_laws before_orgs toy_key (λ id. []) vault_ciphers

abbrev alone :
    Loading toy_key toy_crypto (λ id. []) toy_net vault_config
    → Loading toy_key toy_crypto (λ id. []) toy_net vault_config
alone st = st

load_bitwarden-IsCell_example :
    IsCell toy_view
      (load_bitwarden toy_key toy_crypto
        (λ id. [])
        toy_net
        vault_config
        alone
        (none, (none, 401 ∷ 200 ∷ []))).1.1.0
load_bitwarden-IsCell_example =
    load_bitwarden-IsCell toy_key toy_crypto (λ id. []) toy_net vault_config toy_view toy_store_laws
      toy_read_laws toy_net-Rely alone (λ st h. h) (none, (none, 401 ∷ 200 ∷ [])) tt

login-Published_example :
    ((response : BitwardenTokenSuccessResponse) (s : BitwardenSession toy_crypto) (w : List ℕ)
      → request_token toy_net vault_config (fresh_session, []) ≡ (ok response, (s, w))
      → Published toy_net vault_config response s w
          (login toy_net vault_config (fresh_session, [])))
    × ((e : BitwardenAuthError ℕ CryptoError) (st' : BitwardenSession toy_crypto × List ℕ)
        → request_token toy_net vault_config (fresh_session, []) ≡ (err e, st')
        → login toy_net vault_config (fresh_session, []) ≡ (err e, st'))
login-Published_example = login-Published toy_net vault_config (fresh_session, [])
