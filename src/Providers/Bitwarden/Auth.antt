-- ===== src/Providers/Bitwarden/Auth.antt =====
-- crates/keyring-providers/src/bitwarden/auth.rs: the API-key token exchange. The HTTP client, the
-- JSON decoder and the unlock payload of `bitwarden_api_api` stand for crates that it calls.
pub mod Laws
pub mod Display
use keyring_rs.Base.{
  ℕ, ◌&&◌, Bool, true, false, List, ◌++◌, Option, none, some, leb, ltb, if◌then◌else◌,
}
use keyring_rs.Base.Int.{ℤ}
use keyring_rs.Base.Text.{Text, text, is_blank}
use keyring_rs.Base.Result.{Result, ok, err, Run, ok_or, and_then}
use keyring_rs.Base.Run.{◌>>=◌, lift, on_error}

abbrev pub device_type : ℕ
device_type = 10

abbrev pub device_identifier : Text
device_identifier = text "b86dd6ab-4265-4ddf-a7f1-eb28d5677f33"

abbrev pub device_name : Text
device_name = text "firefox"

pub record BitwardenApiTokenRequest : Type 0 where
  pub scope : Text
  pub client_id : Text
  pub client_secret : Text
  pub device_type : ℕ
  pub device_identifier : Text
  pub device_name : Text
  pub grant_type : Text

unfoldable pub new_token_request : Text → Text → BitwardenApiTokenRequest
new_token_request client_id client_secret = record {
  scope = text "api";
  client_id = client_id;
  client_secret = client_secret;
  device_type = device_type;
  device_identifier = device_identifier;
  device_name = device_name;
  grant_type = text "client_credentials";
}

pub data KdfType : Type 0 where
  pbkdf2_sha256 argon2id : KdfType

pub record KdfModel : Type 0 where
  pub kdf_type : KdfType
  pub iterations : ℤ
  pub memory : Option ℤ
  pub parallelism : Option ℤ

pub record MasterPasswordUnlockResponseModel : Type 0 where
  pub kdf : KdfModel
  pub master_key_encrypted_user_key : Option Text
  pub salt : Option Text

pub record BitwardenUserDecryptionOptionsResponseModel : Type 0 where
  pub master_password_unlock : Option MasterPasswordUnlockResponseModel

pub record BitwardenTokenSuccessResponse : Type 0 where
  pub access_token : Text
  pub expires_in : ℕ
  pub private_key : Option Text
  pub user_decryption_options : Option BitwardenUserDecryptionOptionsResponseModel

pub record BitwardenIdentityErrorModel : Type 0 where
  pub message : Text
  pub object : Text

pub record BitwardenIdentityTokenFailResponse : Type 0 where
  pub error : Text
  pub error_description : Text
  pub error_model : BitwardenIdentityErrorModel

-- The map of second factors, with each JSON value as its text.
pub record BitwardenTwoFactorResponse : Type 0 where
  pub error : Text
  pub error_description : Text
  pub two_factor_providers : List (Text × Text)

pub data BitwardenTokenResponse : Type 0 where
  success : BitwardenTokenSuccessResponse → BitwardenTokenResponse
  two_factor : BitwardenTwoFactorResponse → BitwardenTokenResponse
  identity_failed : BitwardenIdentityTokenFailResponse → BitwardenTokenResponse

-- `Display for BitwardenIdentityTokenFailResponse`
unfoldable pub display_fail : BitwardenIdentityTokenFailResponse → Text
unfolding is_blank
display_fail fail =
    if is_blank fail.error_model.message
    then fail.error ++ text ": " ++ fail.error_description
    else fail.error_model.message

-- What a token request can fail with before the payload counts: a transport error `E` or a status.
pub data TokenRequestError (E : Type 0) : Type 0 where
  transport : E → TokenRequestError E
  failed_status : ℕ → TokenRequestError E

-- `C` is the error of the crypto bootstrap.
pub data BitwardenAuthError (E C : Type 0) : Type 0 where
  token_request : TokenRequestError E → BitwardenAuthError E C
  identity_fail : BitwardenIdentityTokenFailResponse → BitwardenAuthError E C
  two_factor_required : BitwardenAuthError E C
  invalid_response : BitwardenAuthError E C
  crypto_bootstrap : C → BitwardenAuthError E C

pub record TokenPost : Type 0 where
  pub url : Text
  pub content_type : Text
  pub accept : Text
  pub device_type : ℕ
  pub user_agent : Option Text
  pub form : BitwardenApiTokenRequest

pub record SyncGet : Type 0 where
  pub url : Text
  pub client_name : Text
  pub client_version : Text
  pub bearer : Text
  pub user_agent : Option Text

-- `reqwest` and `serde_json`, over a state `S` that a request may change.
pub record Http (S E : Type 0) : Type 1 where
  pub Response : Type 0
  pub Bytes : Type 0
  pub post : TokenPost → Run S E Response
  pub get : SyncGet → Run S E Response
  pub status : Response → ℕ
  pub bytes : Response → Run S E Bytes
  pub decode_token : Bytes → Option BitwardenTokenResponse

-- `bitwarden_api_identity::Configuration` and the API's, without the client.
pub record HttpConfiguration : Type 0 where
  pub base_path : Text
  pub user_agent : Option Text

-- `StatusCode::is_success`
abbrev pub is_success : ℕ → Bool
is_success status = leb 200 status && ltb status 300

module _ {E C : Type 0} where
  -- The `match` on the decoded payload.
  unfoldable pub accept_token :
      BitwardenTokenResponse → Result (BitwardenAuthError E C) BitwardenTokenSuccessResponse
  accept_token (success response) = ok response
  accept_token (two_factor response) = err two_factor_required
  accept_token (identity_failed response) = err (identity_fail response)

  -- The last arms of the `match`: a status that is no success.
  unfoldable pub refuse_token :
      ℕ
      → Result (BitwardenAuthError E C) BitwardenTokenSuccessResponse
      → Result (BitwardenAuthError E C) BitwardenTokenSuccessResponse
  refuse_token status (err (identity_fail response)) = err (identity_fail response)
  refuse_token status (err two_factor_required) = err two_factor_required
  refuse_token status _ = err (token_request (failed_status status))

  unfoldable pub judge_token :
      ℕ
      → Result (BitwardenAuthError E C) BitwardenTokenSuccessResponse
      → Result (BitwardenAuthError E C) BitwardenTokenSuccessResponse
  unfolding refuse_token
  judge_token status result = if is_success status then result else refuse_token status result

module _ {S E : Type 0} (http : Http S E) (C : Type 0) where
  unfoldable pub parse_token :
      http.Bytes → Result (BitwardenAuthError E C) BitwardenTokenSuccessResponse
  unfolding accept_token
  parse_token body = and_then (ok_or (http.decode_token body) invalid_response) accept_token

  unfoldable pub token_post : HttpConfiguration → Text → Text → TokenPost
  unfolding new_token_request
  token_post config client_id client_secret = record {
    url = config.base_path ++ text "/connect/token";
    content_type = text "application/x-www-form-urlencoded; charset=utf-8";
    accept = text "application/json";
    device_type = device_type;
    user_agent = config.user_agent;
    form = new_token_request client_id client_secret;
  }

  unfoldable pub request_api_key_token :
      HttpConfiguration → Text → Text → Run S (BitwardenAuthError E C) BitwardenTokenSuccessResponse
  unfolding parse_token judge_token token_post
  request_api_key_token config client_id client_secret = do
    response ←
        on_error (http.post (token_post config client_id client_secret))
          (λ error. token_request (transport error))
    body ← on_error (http.bytes response) (λ error. token_request (transport error))
    lift (judge_token (http.status response) (parse_token body))
