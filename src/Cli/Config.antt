-- ===== src/Cli/Config.antt =====
-- crates/keyring-cli/src/config.rs, and from main.rs the functions `load` and `main`. Reading a file and
-- decoding TOML are parameters.
pub mod Laws
pub mod Agent
use keyring_rs.Base.{ℕ, suc, List, [], ◌∷◌, ◌++◌, map, Option}
use keyring_rs.Base.Text.{Text}
use keyring_rs.Base.Result.{Done, Result, ok, err, Run, ok_or, map_ok, map_err, and_then}
use keyring_rs.Base.Run.{◌>>=◌, ◌>>◌, return, lift, on_error}
use keyring_rs.Core.Provider.{SshKey, KeyPairProvider}
use keyring_rs.Service.Session.{NewError, ServiceAgent, new}
use keyring_rs.Providers.Dummy.{DummyProviderConfig, DummyProvider, DummyError, try_from_dummy}
use keyring_rs.Providers.Bitwarden.Config.{BitwardenProviderConfig}
use keyring_rs.Providers.Bitwarden.KeyStore.{Crypto}
use keyring_rs.Providers.Bitwarden.Provider.{BitwardenProvider, NameError, try_from_bitwarden}
use keyring_rs.Cli.Platform.{Os, IoError, Listener, bind}
use keyring_rs.Cli.Signal.{Streams, Signal, new_signal}

-- `Args`; clap makes them of the command line.
pub record Args : Type 0 where
  pub config : Text
  pub path : Text

pub record Config : Type 0 where
  pub dummy : List DummyProviderConfig
  pub bitwarden : List BitwardenProviderConfig

-- `Box<dyn KeyPairProvider>`
pub data Provider (K : SshKey) (C : Crypto) : Type 0 where
  dummy_provider : DummyProvider K → Provider K C
  bitwarden_provider : BitwardenProvider K C → Provider K C

pub data ProviderError : Type 0 where
  bad_dummy : DummyError → ProviderError
  bad_bitwarden : NameError → ProviderError

pub data StartError (E : Type 0) : Type 0 where
  unreadable : E → StartError E
  unparsable : StartError E
  bad_provider : ProviderError → StartError E
  bad_service : NewError → StartError E
  no_signals : E → StartError E
  no_socket : IoError → StartError E

-- `collect` into a `Result`: the first error ends it.
unfoldable pub collect : {A E : Type 0} → List (Result E A) → Result E (List A)
collect [] = ok []
collect (r ∷ rest) = and_then r (λ a. map_ok (λ more. a ∷ more) (collect rest))

module _ {W E : Type 0} (read_to_string : Text → Run W E Text)
    (from_toml : Text → Option Config) where
  -- `Config::new`
  unfoldable pub read_config : Text → Run W (StartError E) Config
  read_config path = do
    source ← on_error (read_to_string path) unreadable
    lift (ok_or (from_toml source) unparsable)

-- Each provider with its index, which tells their states apart in the world of the service.
abbrev pub attached : {A B : Type 0} → (ℕ → A → B) → ℕ → List A → List B
attached attach i [] = []
attached attach i (p ∷ ps) = attach i p ∷ attached attach (suc i) ps

-- `from_seed` makes the key of a dummy provider.
module _ (K : SshKey) (C : Crypto) (from_seed : List ℕ → K.PrivateKey) where
  unfoldable pub build_dummy : DummyProviderConfig → Result ProviderError (Provider K C)
  unfolding try_from_dummy
  build_dummy cfg =
      map_err (map_ok (λ p. dummy_provider p) (try_from_dummy K from_seed cfg)) (λ e. bad_dummy e)

  unfoldable pub build_bitwarden : BitwardenProviderConfig → Result ProviderError (Provider K C)
  unfolding try_from_bitwarden
  build_bitwarden cfg =
      map_err (map_ok (λ p. bitwarden_provider p) (try_from_bitwarden K C cfg))
        (λ e. bad_bitwarden e)

  unfoldable pub providers : Config → Result ProviderError (List (Provider K C))
  unfolding collect build_dummy build_bitwarden
  providers config = collect (map build_dummy config.dummy ++ map build_bitwarden config.bitwarden)

  -- `attach` gives the provider at an index its state in the world `V` of the service.
  module _ {W V E F : Type 0} (read_to_string : Text → Run W E Text)
      (from_toml : Text → Option Config) (attach : ℕ → Provider K C → KeyPairProvider K V F) where
    unfoldable pub load : Text → Run W (StartError E) (ServiceAgent K V F)
    unfolding read_config providers new
    load path = do
      config ← read_config read_to_string from_toml path
      built ← lift (map_err (providers config) (λ e. bad_provider e))
      lift (map_err (new K (attached attach 0 built)) (λ e. bad_service e))

    -- `main` from the arguments up to `serve`: signals, configuration, socket.
    unfoldable pub startup :
        {L G : Type 0}
        → Streams W G E
        → Os W L
        → Args
        → Run W (StartError E) (Listener L × (Signal G × ServiceAgent K V F))
    unfolding load bind new_signal
    startup streams os args = do
      signal ← on_error (new_signal streams) no_signals
      agent ← load args.config
      socket ← on_error (bind os args.path) no_socket
      return (socket, (signal, agent))
