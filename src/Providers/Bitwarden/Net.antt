-- ===== src/Providers/Bitwarden/Net.antt =====
-- The state of a session, of crates/keyring-providers/src/bitwarden/session.rs, and what its code uses of
-- the network and the clock.
use keyring_rs.Base.{ℕ, ◌*◌, Bool, false, Option, none}
use keyring_rs.Base.Text.{Text, text}
use keyring_rs.Base.Result.{Done, Run}
use keyring_rs.Providers.Bitwarden.Models.{BitwardenSyncResponse}
use keyring_rs.Providers.Bitwarden.Auth.{BitwardenAuthError, Http, HttpConfiguration}
use keyring_rs.Providers.Bitwarden.KeyStore.{Crypto, CryptoError}

-- Durations and instants are numbers of nanoseconds.
abbrev pub from_secs : ℕ → ℕ
from_secs n = n * 1000000000

abbrev pub token_renewal_window : ℕ
token_renewal_window = from_secs (5 * 60)

abbrev pub connect_timeout : ℕ
connect_timeout = from_secs 5

abbrev pub read_timeout : ℕ
read_timeout = from_secs 5

abbrev pub http_timeout : ℕ
http_timeout = from_secs 10

pub record Auth : Type 0 where
  pub token : Option Text
  pub exp : Option ℕ
  pub crypto : Bool

abbrev pub default_auth : Auth
default_auth = record { token = none; exp = none; crypto = false }

-- Without the gate, which is in the operations of `Net`.
pub record BitwardenSession (C : Crypto) : Type 0 where
  pub api : HttpConfiguration
  pub id : HttpConfiguration
  pub store : C.Store
  pub state : Auth

-- HTTP, the clock, the gate and the decoder of `/sync` payloads over a world `W`.
pub record Net (C : Crypto) (W E : Type 0) : Type 1 where
  pub http : Http (BitwardenSession C × W) E
  pub build_client : (connect read total : ℕ) → Run W E Done
  pub gate : BitwardenSession C × W → BitwardenSession C × W
  pub now : W → ℕ
  pub instant_max : ℕ
  pub decode_sync : http.Bytes → Option BitwardenSyncResponse

pub data SyncError (E : Type 0) : Type 0 where
  client_not_built : E → SyncError E
  auth_failed : BitwardenAuthError E CryptoError → SyncError E
  missing_token : SyncError E
  request_failed : E → SyncError E
  still_unauthorized : SyncError E
  bad_status : ℕ → SyncError E
  body_failed : E → SyncError E
  bad_json : SyncError E
  unreachable : SyncError E

abbrev pub client_name : Text
client_name = text "web"

abbrev pub client_version : Text
client_version = text "2026.3.1"
