-- ===== src/Cli/Config/Agent.antt =====
-- `KeyPairProvider::load` of the providers that a configuration builds, on a world that holds their
-- states: crates/keyring-providers/src/dummy/provider.rs and bitwarden/provider.rs.
pub mod Built
pub mod Slots
pub mod Origin
pub mod Reuse
pub mod Sharing
pub mod Confinement
pub mod Rivals
use keyring_rs.Base.{ℕ, ◌==◌, none, Option, if◌then◌else◌}
use keyring_rs.Base.Text.{Text}
use keyring_rs.Base.Result.{Result}
use keyring_rs.Core.Provider.{SshKey, KeyPairSnapshot, KeyPairProvider}
use keyring_rs.Core.Cell.{CacheCell}
use keyring_rs.Providers.Dummy.{load_dummy}
use keyring_rs.Providers.Bitwarden.KeyStore.{Crypto}
use keyring_rs.Providers.Bitwarden.Net.{BitwardenSession, Net}
use keyring_rs.Providers.Bitwarden.Provider.{BitwardenProvider, FetchError, Loading, load_bitwarden}
use keyring_rs.Cli.Config.{Provider, dummy_provider, bitwarden_provider}

-- The cells of a `BitwardenProvider`.
pub record Slot (K : SshKey) (C : Crypto) : Type 0 where
  pub keys : CacheCell (KeyPairSnapshot K)
  pub session : Option (BitwardenSession C)

-- The states of the providers by their index, and the world outside.
abbrev pub World : SshKey → Crypto → Type 0 → Type 0
World K C W = (ℕ → Slot K C) × W

module _ (K : SshKey) (C : Crypto) where
  abbrev pub put :
      {W : Type 0}
      → ℕ
      → (ℕ → Slot K C)
      → CacheCell (KeyPairSnapshot K) × (Option (BitwardenSession C) × W)
      → World K C W
  put i slots (keys, (session, w)) =
      (λ j. if i == j then record { keys = keys; session = session } else slots j, w)

  -- Each provider has a net of its own: what it does to a session, the other tasks of that provider do.
  module _ (show_uuid : ℕ → Text) {W E : Type 0} (net : ℕ → Net C W E) where
    -- What other tasks do: before the load of the provider at an index, and while it waits for the
    -- lock of its cache.
    pub record Others : Type 0 where
      pub before : ℕ → World K C W → World K C W
      pub acquire :
          ℕ
          → CacheCell (KeyPairSnapshot K) × (Option (BitwardenSession C) × W)
          → CacheCell (KeyPairSnapshot K) × (Option (BitwardenSession C) × W)

    unfoldable pub load_at :
        Others → ℕ → Provider K C → KeyPairProvider K (World K C W) (FetchError E)
    unfolding load_dummy load_bitwarden
    load_at others i (dummy_provider p) v = load_dummy K p v
    load_at others i (bitwarden_provider p) v =
        let r =
          load_bitwarden K C show_uuid (net i) p.config (others.acquire i)
            ((v.0 i).keys, ((v.0 i).session, v.1)) in
        (r.0, put i v.0 r.1)

    abbrev pub attach : Others → ℕ → Provider K C → KeyPairProvider K (World K C W) (FetchError E)
    attach others i p v = load_at others i p (others.before i v)
