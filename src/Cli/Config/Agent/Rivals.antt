-- ===== src/Cli/Config/Agent/Rivals.antt =====
-- A load that another client does meanwhile is among what other tasks may do.
use keyring_rs.Base.{ℕ, List, Option, none, some, get_elem?}
use keyring_rs.Base.Text.{Text}
use keyring_rs.Core.Provider.{SshKey, KeyPairSnapshot}
use keyring_rs.Core.Cell.{CacheCell}
use keyring_rs.Providers.Bitwarden.KeyStore.{Crypto}
use keyring_rs.Providers.Bitwarden.Net.{BitwardenSession, Net}
use keyring_rs.Providers.Bitwarden.Session.Logging.{Respects-Confines}
use keyring_rs.Providers.Bitwarden.Provider.{load_bitwarden}
use keyring_rs.Providers.Bitwarden.Provider.Origin.{load_bitwarden-Genuine}
use keyring_rs.Cli.Config.{Config, Provider, dummy_provider, bitwarden_provider}
use keyring_rs.Cli.Config.Laws.{all_declared}
use keyring_rs.Cli.Config.Agent.{Others}
use keyring_rs.Cli.Config.Agent.Slots.{Respected}
use keyring_rs.Cli.Config.Agent.Origin.{Keeps}
use keyring_rs.Cli.Config.Agent.Confinement.{Abides, all_logged, load_bitwarden-Logged}

module _ (K : SshKey) (C : Crypto) (from_seed : List ℕ → K.PrivateKey) (show_uuid : ℕ → Text)
    (config : Config) where
  -- While a load waits for the cache of a provider, another client loads the provider, which may be the
  -- first load, and so the one that fills the empty cells.
  module _ {W E : Type 0} (net : ℕ → Net C W E) (others : Others K C show_uuid net) where
    abbrev rival :
        ℕ
        → Option (Provider K C)
        → CacheCell (KeyPairSnapshot K) × (Option (BitwardenSession C) × W)
        → CacheCell (KeyPairSnapshot K) × (Option (BitwardenSession C) × W)
    rival i none st = st
    rival i (some (dummy_provider p)) st = st
    rival i (some (bitwarden_provider p)) st =
        (load_bitwarden K C show_uuid (net i) p.config (others.acquire i) st).1

    abbrev pub rivalled : Others K C show_uuid net
    rivalled = record {
      before = others.before;
      acquire = λ i. rival i (get_elem? (all_declared K C from_seed config) i);
    }

    pub rivalled-Keeps :
        Respected K C from_seed config net
        → Keeps K C from_seed show_uuid net config others
        → Keeps K C from_seed show_uuid net config rivalled
    rivalled-Keeps respects keeps = record {
      before = keeps.before;
      acquire = λ i p st at h. rw at (
          (load_bitwarden-Genuine K C show_uuid (net i) p.config
            (Respects-Confines (net i) p.config (respects i p at)) (others.acquire i)
            (λ st. keeps.acquire i p st at) st h).0);
    }

  pub rivalled-Abides :
      {W E : Type 0} (net : ℕ → Net C W E)
      (others : Others K C show_uuid (all_logged K C from_seed show_uuid net config))
      → Respected K C from_seed config net
      → Abides K C from_seed show_uuid net config others
      → Abides K C from_seed show_uuid net config
          (rivalled (all_logged K C from_seed show_uuid net config) others)
  rivalled-Abides net others respects abides = record {
    before = abides.before;
    acquire = λ i p st at h. rw at (
        load_bitwarden-Logged K C from_seed show_uuid net config respects i p at (others.acquire i)
          (λ st. abides.acquire i p st at) st h);
  }
