-- ===== src/Providers/Bitwarden/Auth/Display.antt =====
-- How the errors of crates/keyring-providers/src/bitwarden/auth.rs are displayed.
use keyring_rs.Base.{◌⊎◌, inl, inr, Option, none, some}
use keyring_rs.Base.Text.{Text, text}
use keyring_rs.Providers.Bitwarden.Auth.{
  TokenRequestError, BitwardenAuthError, token_request, identity_fail, two_factor_required,
  invalid_response, crypto_bootstrap, display_fail,
}

-- `Display for BitwardenAuthError`: the causes of a failed request or bootstrap are not in it.
unfoldable pub display_error : {E C : Type 0} → BitwardenAuthError E C → Text
unfolding display_fail
display_error (token_request error) = text "failed to request bitwarden token"
display_error (identity_fail error) = display_fail error
display_error two_factor_required = text "bitwarden requires two-factor authentication"
display_error invalid_response = text "bitwarden identity response could not be parsed"
display_error (crypto_bootstrap error) = text "failed to initialize bitwarden crypto"

-- `Error::source`
unfoldable pub source : {E C : Type 0} → BitwardenAuthError E C → Option (TokenRequestError E ⊎ C)
source (token_request error) = some (inl error)
source (identity_fail error) = none
source two_factor_required = none
source invalid_response = none
source (crypto_bootstrap error) = some (inr error)
