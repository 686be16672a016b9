-- ===== src/Tests/Startup.antt =====
-- Configurations of crates/keyring-cli, and starts of the program with them.
use keyring_rs.Base.{ℕ, suc, false, ◌≡◌, refl, List, [], ◌∷◌, Option, some}
use keyring_rs.Base.Text.{Text, text}
use keyring_rs.Base.Result.{Result, ok, err, Run, continue}
use keyring_rs.Base.Run.{change_error}
use keyring_rs.Core.Provider.{KeyPairProvider, ed25519}
use keyring_rs.Cli.Platform.{Os, Listener, bind, not_found, connected}
use keyring_rs.Cli.Config.{
  Args, attached, Config, Provider, ProviderError, bad_dummy, bad_provider, bad_service, no_socket,
  build_dummy, StartError, providers, startup,
}
use keyring_rs.Cli.Signal.{Streams, Signal, new_signal}
use keyring_rs.Cli.Config.Laws.{declared, providers-declared, startup_lem}
use keyring_rs.Service.Session.{no_providers, ServiceAgent}
use keyring_rs.Providers.Dummy.{dummy_name_empty}
use keyring_rs.Tests.Toy.{toy_key, Key}
use keyring_rs.Tests.Vault.{toy_crypto}

abbrev pub from_seed : List ℕ → Key
from_seed seed = record { number = 7; label = []; kind = ed25519 }

abbrev one_dummy : Config
one_dummy = record { dummy = record { name = text "local" } ∷ []; bitwarden = [] }

abbrev blank_name : Config
blank_name = record { dummy = record { name = text "  " } ∷ []; bitwarden = [] }

blank_name_refused :
    (e : ProviderError) × (providers toy_key toy_crypto from_seed blank_name ≡ err e)
unfolding providers build_dummy
blank_name_refused = (bad_dummy dummy_name_empty, refl)

-- The world counts the sockets that were made.
abbrev sockets : Os ℕ ℕ
sockets = record {
  listen = λ path w. (ok w, suc w);
  symlink_metadata = λ path w. (err (record { kind = not_found; code = 2 }), w);
  connect = λ path w. (connected, w);
  remove_file = λ path w. (ok tt, w);
}

abbrev attach : ℕ → Provider toy_key toy_crypto → KeyPairProvider toy_key ℕ ℕ
attach i p w = (ok [], w)

-- Streams without signals, numbered by the sockets that were there.
abbrev streams : Streams ℕ ℕ ℕ
streams = record { signal = λ kind w. (ok w, w); poll = λ g w. (false, w) }

abbrev args : Args
args = record { config = []; path = text "s" }

abbrev signal : Signal ℕ
signal = record { reload = 0; interrupt = 0; terminate = 0 }

abbrev read_file : Text → Run ℕ ℕ Text
read_file path w = (ok path, w)

abbrev toml : Text → Option Config
toml source = some one_dummy

one_dummy-declared :
    providers toy_key toy_crypto from_seed one_dummy
    ≡ declared toy_key toy_crypto from_seed one_dummy
one_dummy-declared = providers-declared toy_key toy_crypto from_seed one_dummy

abbrev begun : Result (StartError ℕ) (Listener ℕ × (Signal ℕ × ServiceAgent toy_key ℕ ℕ)) × ℕ
begun = startup toy_key toy_crypto from_seed read_file toml attach streams sockets args 0

startup_lem_example :
    ((e : ProviderError)
      → declared toy_key toy_crypto from_seed one_dummy ≡ err e
      → begun ≡ (err (bad_provider e), 0))
    × (declared toy_key toy_crypto from_seed one_dummy ≡ ok []
        → begun ≡ (err (bad_service no_providers), 0))
    × ((p : Provider toy_key toy_crypto) (ps : List (Provider toy_key toy_crypto))
        → declared toy_key toy_crypto from_seed one_dummy ≡ ok (p ∷ ps)
        → begun
          ≡ continue (change_error no_socket (bind sockets (text "s") 0)) (λ socket w3.
            (ok (socket, (signal, record { providers = attached attach 0 (p ∷ ps) })), w3)))
unfolding new_signal
startup_lem_example =
    startup_lem toy_key toy_crypto from_seed read_file toml attach streams sockets args 0 0 0 signal
      [] one_dummy refl refl refl
