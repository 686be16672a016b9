-- ===== src/Providers/Bitwarden/Config.antt =====
-- crates/keyring-providers/src/bitwarden/config.rs
use keyring_rs.Base.Text.{Text}

pub record BitwardenProviderConfig : Type 0 where
  pub name : Text
  pub api_url : Text
  pub identity_url : Text
  pub client_id : Text
  pub client_secret : Text
  pub password : Text
