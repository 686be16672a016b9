-- ===== src/Providers/Bitwarden/Session.antt =====
-- crates/keyring-providers/src/bitwarden/session.rs: the token, its expiry and the key store of one
-- provider. An operation runs over `BitwardenSession × W`: a request, or the wait for the refresh gate, may
-- change the session too, by the work of other tasks. The locks on `state` are held for single steps.
pub mod Recording
pub mod Calls
pub mod Attempts
pub mod Login
pub mod Publishing
pub mod Keeping
pub mod Provenance
pub mod Confinement
pub mod Confined
pub mod Logging
pub mod Order
pub mod Recovery
pub mod Interference
pub mod Tasks
pub mod History
pub mod Gate
pub mod Solo
pub mod Renewal
pub mod Alone
pub mod Refinement
use keyring_rs.Base.{
  ℕ, zero, suc, ◌+◌, ◌*◌, Bool, true, false, ◌++◌, Option, none, some, ◌==◌, leb, if◌then◌else◌,
}
use keyring_rs.Base.Text.{Text, text, text_eq}
use keyring_rs.Base.Result.{Done, Result, ok, err, Run, ok_or, continue}
use keyring_rs.Base.Run.{◌>>=◌, ◌>>◌, return, fail, lift, on_error}
use keyring_rs.Providers.Bitwarden.Config.{BitwardenProviderConfig}
use keyring_rs.Providers.Bitwarden.Models.{BitwardenProfile, BitwardenSyncResponse}
use keyring_rs.Providers.Bitwarden.Auth.{
  BitwardenTokenSuccessResponse, BitwardenAuthError, invalid_response, crypto_bootstrap, SyncGet,
  Http, HttpConfiguration, is_success, request_api_key_token,
}
use keyring_rs.Providers.Bitwarden.Crypto.{initialize_user_crypto, initialize_org_keys}
use keyring_rs.Providers.Bitwarden.KeyStore.{Crypto, CryptoError}
use keyring_rs.Providers.Bitwarden.Net.{
  connect_timeout, read_timeout, http_timeout, from_secs, token_renewal_window, Auth, default_auth,
  BitwardenSession, Net, SyncError, client_not_built, auth_failed, missing_token, request_failed,
  still_unauthorized, bad_status, body_failed, bad_json, unreachable, client_name, client_version,
}

-- `Instant::checked_add`
unfoldable pub checked_add : ℕ → ℕ → ℕ → Option ℕ
checked_add max now d = if leb (now + d) max then some (now + d) else none

-- A rejected token and its expiry are cleared, unless the token has been replaced.
unfoldable pub invalidate : Text → Auth → Auth
unfolding text_eq
invalidate token state = elim state.token [
  | none ↦ state
  | some current ↦
      if text_eq current token then record state { token = none; exp = none } else state
]

-- Missing or soon-expiring authentication.
unfoldable pub stale_at : ℕ → Auth → Bool
stale_at now state = elim state.exp [
  | none ↦ true
  | some exp ↦ leb exp (now + token_renewal_window)
]

abbrev pub is_none : {A : Type 0} → Option A → Bool
is_none none = true
is_none (some a) = false

module _ {C : Crypto} {W E : Type 0} (net : Net C W E) where
  -- A client is built, and both configurations use it.
  unfoldable pub new : BitwardenProviderConfig → Run W (SyncError E) (BitwardenSession C)
  new config = do
    on_error (net.build_client connect_timeout read_timeout http_timeout) client_not_built
    return (record {
      api = record {
        base_path = config.api_url;
        user_agent = some (text "OpenAPI-Generator/latest/rust");
      };
      id = record {
        base_path = config.identity_url;
        user_agent = some (text "OpenAPI-Generator/v1/rust");
      };
      store = C.empty;
      state = default_auth;
    })

  abbrev pub State : Type 0
  State = BitwardenSession C × W

  unfoldable pub init_orgs : BitwardenProfile → Run State CryptoError Done
  unfolding initialize_org_keys
  init_orgs profile (s, w) =
      let r = initialize_org_keys C profile s.store in (r.0, (record s { store = r.1 }, w))

  unfoldable pub stale : State → Bool
  unfolding stale_at
  stale (s, w) = stale_at (net.now w) s.state

  -- The end of `login`, on the outcome of the crypto bootstrap.
  unfoldable pub publish :
      BitwardenTokenSuccessResponse
      → ℕ
      → BitwardenSession C
      → W
      → Result CryptoError Done × C.Store
      → Result (BitwardenAuthError E CryptoError) Done × State
  publish response exp s w (ok u, store) = (
    ok tt,
    (
      record s {
        store = store;
        state = record { token = some response.access_token; exp = some exp; crypto = true };
      },
      w,
    ),
  )
  publish response exp s w (err e, store) =
      (err (crypto_bootstrap e), (record s { store = store }, w))

  abbrev pub ensure_crypto :
      BitwardenProviderConfig
      → BitwardenTokenSuccessResponse
      → BitwardenSession C
      → Result CryptoError Done × C.Store
  ensure_crypto config response s =
      if s.state.crypto
      then (ok tt, s.store)
      else initialize_user_crypto C config.password response s.store

  unfoldable pub login_with :
      BitwardenProviderConfig
      → BitwardenTokenSuccessResponse
      → Run State (BitwardenAuthError E CryptoError) Done
  unfolding publish checked_add
  login_with config response (s, w) =
      elim (checked_add net.instant_max (net.now w) (from_secs response.expires_in)) [
        | none ↦ (err invalid_response, (s, w))
        | some exp ↦ publish response exp s w (ensure_crypto config response s)
      ]

  unfoldable pub request_token :
      BitwardenProviderConfig
      → Run State (BitwardenAuthError E CryptoError) BitwardenTokenSuccessResponse
  unfolding request_api_key_token
  request_token config (s, w) =
      request_api_key_token net.http CryptoError s.id config.client_id config.client_secret (s, w)

  unfoldable pub login : BitwardenProviderConfig → Run State (BitwardenAuthError E CryptoError) Done
  unfolding login_with request_token
  login config = do response ← request_token config; login_with config response

  unfoldable pub renew : BitwardenProviderConfig → Run State (BitwardenAuthError E CryptoError) Done
  unfolding login stale
  renew config st = elim (stale st) [ true ↦ login config st | false ↦ (ok tt, st) ]

  unfoldable pub token : BitwardenProviderConfig → Run State (BitwardenAuthError E CryptoError) Done
  unfolding renew stale
  token config st = elim (stale st) [ true ↦ renew config (net.gate st) | false ↦ (ok tt, st) ]

  abbrev pub current_token : Run State (SyncError E) Text
  current_token (s, w) = (ok_or s.state.token missing_token, (s, w))

  unfoldable pub sync_get : HttpConfiguration → Text → SyncGet
  sync_get api bearer = record {
    url = api.base_path ++ text "/sync?excludeDomains=true";
    client_name = client_name;
    client_version = client_version;
    bearer = bearer;
    user_agent = api.user_agent;
  }

  unfoldable pub request_sync : Text → Run State (SyncError E) net.http.Response
  unfolding sync_get
  request_sync bearer (s, w) = on_error (net.http.get (sync_get s.api bearer)) request_failed (s, w)

  -- After a 401, once the gate is held and the rejected token is cleared.
  unfoldable pub retry :
      Run State (SyncError E) BitwardenSyncResponse
      → ℕ
      → BitwardenProviderConfig
      → Run State (SyncError E) BitwardenSyncResponse
  unfolding login
  retry next attempt config (s, w) =
      if attempt == 1
      then (err still_unauthorized, (s, w))
      else if is_none s.state.token
      then continue (on_error (login config) auth_failed (s, w)) (λ _. next)
      else next (s, w)

  abbrev pub reject : Text → State → State
  reject rejected (s, w) = (record s { state = invalidate rejected s.state }, w)

  unfoldable pub read_sync : net.http.Response → Run State (SyncError E) BitwardenSyncResponse
  read_sync response = do
    body ← on_error (net.http.bytes response) body_failed
    lift (ok_or (net.decode_sync body) bad_json)

  -- What follows the headers of a response: `next` is the rest of the loop.
  unfoldable pub answer :
      Run State (SyncError E) BitwardenSyncResponse
      → ℕ
      → BitwardenProviderConfig
      → Text
      → net.http.Response
      → Run State (SyncError E) BitwardenSyncResponse
  unfolding retry read_sync invalidate
  answer next attempt config rejected response st =
      if net.http.status response == 401
      then retry next attempt config (reject rejected (net.gate st))
      else if is_success (net.http.status response)
      then read_sync response st
      else (err (bad_status (net.http.status response)), st)

  -- The loop over the attempts that remain.
  unfoldable pub attempts :
      ℕ → ℕ → BitwardenProviderConfig → Run State (SyncError E) BitwardenSyncResponse
  unfolding answer request_sync
  attempts zero attempt config = fail unreachable
  attempts (suc n) attempt config = do
    bearer ← current_token
    response ← request_sync bearer
    answer (attempts n (suc attempt) config) attempt config bearer response

  unfoldable pub sync : BitwardenProviderConfig → Run State (SyncError E) BitwardenSyncResponse
  unfolding attempts token
  sync config = do on_error (token config) auth_failed; attempts 2 0 config
