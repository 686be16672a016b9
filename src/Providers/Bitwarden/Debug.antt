-- ===== src/Providers/Bitwarden/Debug.antt =====
-- `Debug` of crates/keyring-providers/src/bitwarden/config.rs and provider.rs.
use keyring_rs.Base.{◌≡◌, ◌↔◌, ap, true, false, [], ◌∷◌}
use keyring_rs.Base.Text.{text}
use keyring_rs.Base.Fmt.{Shown, quoted, DebugStruct}
use keyring_rs.Core.Provider.{SshKey}
use keyring_rs.Providers.Bitwarden.Config.{BitwardenProviderConfig}
use keyring_rs.Providers.Bitwarden.KeyStore.{Crypto}
use keyring_rs.Providers.Bitwarden.Provider.{BitwardenProvider}

abbrev pub masked : Shown
masked = quoted (text "***")

unfoldable pub debug_config : BitwardenProviderConfig → DebugStruct
debug_config config = record {
  name = text "BitwardenProviderConfig";
  fields =
      (text "name", quoted config.name)
      ∷ (text "api_url", quoted config.api_url)
      ∷ (text "identity_url", quoted config.identity_url)
      ∷ (text "client_id", quoted config.client_id)
      ∷ (text "client_secret", masked)
      ∷ (text "password", masked)
      ∷ [];
  exhaustive = true;
}

unfoldable pub debug_provider : {K : SshKey} {C : Crypto} → BitwardenProvider K C → DebugStruct
debug_provider provider = record {
  name = text "BitwardenProvider";
  fields =
      (text "name", quoted provider.config.name)
      ∷ (text "api_url", quoted provider.config.api_url)
      ∷ (text "identity_url", quoted provider.config.identity_url)
      ∷ [];
  exhaustive = false;
}

-- What is printed of a configuration tells exactly its name, its addresses and its client id: the
-- secret and the password can be anything.
debug_config-public :
    (c d : BitwardenProviderConfig)
    → (debug_config c ≡ debug_config d) ↔ (
        (c.name ≡ d.name)
        × (c.api_url ≡ d.api_url)
        × (c.identity_url ≡ d.identity_url)
        × (c.client_id ≡ d.client_id))
unfolding debug_config
debug_config-public c d = (
  λ h. let f = ap (λ (s : DebugStruct). s.fields) h in (cc f, cc f, cc f, cc f),
  λ h. cc (h.0, h.1, h.2, h.3),
)

-- What is printed of a provider tells exactly its name and addresses, whatever its session and its
-- cache hold.
debug_provider-public :
    {K : SshKey} {C : Crypto} (p q : BitwardenProvider K C)
    → (debug_provider p ≡ debug_provider q) ↔ (
        (p.config.name ≡ q.config.name)
        × (p.config.api_url ≡ q.config.api_url)
        × (p.config.identity_url ≡ q.config.identity_url))
unfolding debug_provider
debug_provider-public p q = (
  λ h. let f = ap (λ (s : DebugStruct). s.fields) h in (cc f, cc f, cc f),
  λ h. cc (h.0, h.1, h.2),
)
