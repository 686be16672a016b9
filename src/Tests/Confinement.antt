-- ===== src/Tests/Confinement.antt =====
-- Where the requests of a loaded agent go.
use keyring_rs.Base.{ℕ, ◌≡◌, refl, ℕ_discrete, List, [], ◌∷◌, none}
use keyring_rs.Base.Text.{Text, text}
use keyring_rs.Base.Result.{ok}
use keyring_rs.Service.Session.{ServiceAgent, new, new_session, load_once}
use keyring_rs.Service.Session.Snapshot.{perform_all}
use keyring_rs.Providers.Bitwarden.Provider.{FetchError}
use keyring_rs.Providers.Bitwarden.Session.Confinement.{Sent, posted, got, logged}
use keyring_rs.Cli.Config.{providers, build_dummy, build_bitwarden, read_config, load, attached}
use keyring_rs.Cli.Config.Agent.{World, Others, load_at, attach}
use keyring_rs.Core.Cell.{fresh}
use keyring_rs.Providers.Bitwarden.Crypto.{initialize_user_crypto}
use keyring_rs.Service.Index.{extend}
use keyring_rs.Cli.Config.Agent.Confinement.{IsAttributed, load-IsAttributed}
use keyring_rs.Tests.Toy.{toy_key, toy_signing, toy_proto}
use keyring_rs.Tests.Vault.{toy_crypto}
use keyring_rs.Tests.Providers.{toy_net}
use keyring_rs.Tests.Startup.{from_seed}
use keyring_rs.Tests.Agent.{both, read_file, toml, no_uuid, nets, nets-Respected, built, asked}
use keyring_rs.Cli.Config.Agent.Rivals.{rivalled, rivalled-Abides}
use keyring_rs.Providers.Bitwarden.Net.{Net}

abbrev logs : ℕ → Net toy_crypto (List ℕ × List Sent) ℕ
logs i = logged toy_net

abbrev nobody : Others toy_key toy_crypto no_uuid logs
nobody = record { before = λ i v. v; acquire = λ i st. st }

-- Another client loads each provider while this one waits for its cache.
abbrev rivals : Others toy_key toy_crypto no_uuid logs
rivals = rivalled toy_key toy_crypto from_seed no_uuid both logs nobody

abbrev cold : World toy_key toy_crypto (List ℕ × List Sent)
cold = (λ i. record { keys = none; session = none }, (401 ∷ 200 ∷ [], []))

abbrev agent : ServiceAgent toy_key (World toy_key toy_crypto (List ℕ × List Sent)) (FetchError ℕ)
agent = record { providers = attached (attach toy_key toy_crypto no_uuid logs rivals) 0 built }

agent_loads :
    (load toy_key toy_crypto from_seed read_file toml
      (attach toy_key toy_crypto no_uuid logs rivals)
      []
      0).0
    ≡ ok agent
unfolding load read_config providers build_dummy build_bitwarden new
agent_loads = refl

load-IsAttributed_example :
    IsAttributed toy_key toy_crypto from_seed no_uuid nets both
      (perform_all toy_key toy_signing toy_proto (λ m. m) asked (new_session toy_key agent, cold)).1
load-IsAttributed_example =
    load-IsAttributed toy_key toy_crypto from_seed no_uuid nets both rivals
      (rivalled-Abides toy_key toy_crypto from_seed no_uuid both nets nobody nets-Respected
        (record { before = λ i v h. h; acquire = λ i p st at h. h }))
      nets-Respected read_file toml [] [] 0 0 agent toy_signing toy_proto (λ m. m) refl refl
      agent_loads asked cold (record { sessions = λ i p at. tt; log = tt })

abbrev url_of : Sent → Text
url_of (posted p) = p.url
url_of (got g) = g.url

abbrev urls : List Sent → List Text
urls [] = []
urls (x ∷ xs) = url_of x ∷ urls xs

-- The rival logs in, is refused, logs in again and syncs, and the session then needs no request; the
-- newest request is the first.
sent_urls :
    urls (load_once toy_key (new_session toy_key agent, cold)).1.1.1.1
    ≡ text "api/sync?excludeDomains=true"
      ∷ text "identity/connect/token"
      ∷ text "api/sync?excludeDomains=true"
      ∷ text "identity/connect/token"
      ∷ []
unfolding load_once new_session load_at fresh initialize_user_crypto extend ℕ_discrete
sent_urls = refl
