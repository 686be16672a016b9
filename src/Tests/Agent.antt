-- ===== src/Tests/Agent.antt =====
-- The agent of a configuration with a provider of each sort.
use keyring_rs.Base.{ℕ, ◌≡◌, refl, ap, arith, ℕ_discrete, All, List, [], ◌∷◌, Option, none, some}
use keyring_rs.Base.Text.{Text, text}
use keyring_rs.Service.Index.{Index, extend}
use keyring_rs.Service.Session.{LoadError, ServiceSession, load_once}
use keyring_rs.Base.Result.{Result, ok, Run}
use keyring_rs.Service.Session.{
  AgentIdentity, ServiceAgent, SignRequest, new_session, request_identities, sign, new,
}
use keyring_rs.Service.Session.Snapshot.{Call, lists, signs, perform_all}
use keyring_rs.Service.Session.Supply.Replies.{Listed, SignedBy}
use keyring_rs.Providers.Bitwarden.Provider.{FetchError}
use keyring_rs.Providers.Dummy.{seed}
use keyring_rs.Cli.Config.{
  Config, Provider, dummy_provider, bitwarden_provider, providers, build_dummy, build_bitwarden,
  read_config, load, attached,
}
use keyring_rs.Cli.Config.Agent.{World, Others, load_at, attach}
use keyring_rs.Core.Cell.{fresh}
use keyring_rs.Providers.Bitwarden.Crypto.{initialize_user_crypto}
use keyring_rs.Cli.Config.Agent.Sharing.{load_once-shared}
use keyring_rs.Cli.Config.Agent.Origin.{Configured, IsInOrder, Keeps, load-Configured}
use keyring_rs.Cli.Config.Agent.Slots.{Respected}
use keyring_rs.Cli.Config.Agent.Rivals.{rivalled, rivalled-Keeps}
use keyring_rs.Providers.Bitwarden.Net.{Net}
use keyring_rs.Tests.Toy.{toy_key, toy_signing, toy_proto, named}
use keyring_rs.Tests.Vault.{toy_crypto}
use keyring_rs.Tests.Providers.{vault_config, toy_net, toy_net-Respects}
use keyring_rs.Tests.Startup.{from_seed}

abbrev pub both : Config
both = record { dummy = record { name = text "local" } ∷ []; bitwarden = vault_config ∷ [] }

abbrev pub read_file : Text → Run ℕ ℕ Text
read_file path w = (ok path, w)

abbrev pub toml : Text → Option Config
toml source = some both

abbrev pub no_uuid : ℕ → Text
no_uuid id = []

abbrev pub nets : ℕ → Net toy_crypto (List ℕ) ℕ
nets i = toy_net

abbrev nobody : Others toy_key toy_crypto no_uuid nets
nobody = record { before = λ i v. v; acquire = λ i st. st }

nobody-Keeps : Keeps toy_key toy_crypto from_seed no_uuid nets both nobody
nobody-Keeps = record { before = λ i v h. h; acquire = λ i p st at h. h }

-- Another client loads each provider while this one waits for its cache.
abbrev rivals : Others toy_key toy_crypto no_uuid nets
rivals = rivalled toy_key toy_crypto from_seed no_uuid both nets nobody

pub nets-Respected : Respected toy_key toy_crypto from_seed both nets
nets-Respected i p at = toy_net-Respects p.config

abbrev pub built : List (Provider toy_key toy_crypto)
built =
    dummy_provider (record { identities = from_seed seed ∷ [] })
    ∷ bitwarden_provider (record { config = vault_config; session = none; keys = none })
    ∷ []

-- Caches and sessions are empty, and two sync requests will be answered.
abbrev cold : World toy_key toy_crypto (List ℕ)
cold = (λ i. record { keys = none; session = none }, 401 ∷ 200 ∷ [])

abbrev agent : ServiceAgent toy_key (World toy_key toy_crypto (List ℕ)) (FetchError ℕ)
agent = record { providers = attached (attach toy_key toy_crypto no_uuid nets nobody) 0 built }

abbrev rivalled_agent : ServiceAgent toy_key (World toy_key toy_crypto (List ℕ)) (FetchError ℕ)
rivalled_agent = record {
  providers = attached (attach toy_key toy_crypto no_uuid nets rivals) 0 built;
}

agent_loads :
    (load toy_key toy_crypto from_seed read_file toml
      (attach toy_key toy_crypto no_uuid nets rivals)
      []
      0).0
    ≡ ok rivalled_agent
unfolding load read_config providers build_dummy build_bitwarden new
agent_loads = refl

abbrev pub asked : List (Call toy_key toy_proto)
asked = lists ∷ signs (record { pubkey = 7; bytes = 1 ∷ []; flags = 0 }) ∷ []

load-Configured_example :
    IsInOrder toy_key toy_crypto from_seed no_uuid nets both
      (perform_all toy_key toy_signing toy_proto
        (λ m. m)
        asked
        (new_session toy_key rivalled_agent, cold)).1
    × ((ids : List (AgentIdentity ℕ))
        → (request_identities toy_key
            (λ m. m)
            (perform_all toy_key toy_signing toy_proto
              (λ m. m)
              asked
              (new_session toy_key rivalled_agent, cold))).0
          ≡ ok ids
        → All (Listed toy_key (Configured toy_key toy_crypto from_seed no_uuid nets both)) ids)
    × ((req : SignRequest ℕ) (signature : List ℕ)
        → (sign toy_key toy_signing req (
            perform_all toy_key toy_signing toy_proto
              (λ m. m)
              asked
              (new_session toy_key rivalled_agent, cold))).0
          ≡ ok signature
        → SignedBy toy_key
            (Configured toy_key toy_crypto from_seed no_uuid nets both)
            toy_signing
            req
            signature)
load-Configured_example =
    load-Configured toy_key toy_crypto from_seed no_uuid nets both rivals
      (rivalled-Keeps toy_key toy_crypto from_seed no_uuid both nets nobody nets-Respected
        nobody-Keeps)
      nets-Respected read_file toml [] [] 0 0 rivalled_agent toy_signing toy_proto (λ m. m) refl
      refl agent_loads (λ Q m h. h) cold (λ i p at. (tt, tt)) asked

-- The first session logs in twice, since the first sync is refused, and loads both providers.
abbrev first_load :
    Result (LoadError (FetchError ℕ)) (Index toy_key)
    × (ServiceSession toy_key (World toy_key toy_crypto (List ℕ)) (FetchError ℕ)
        × World toy_key toy_crypto (List ℕ))
first_load = load_once toy_key (new_session toy_key agent, cold)

abbrev both_keys : Index toy_key
both_keys = (7, named 7 []) ∷ (112, named 112 (text "laptop")) ∷ []

both_load : first_load.0 ≡ ok both_keys
unfolding load_once new_session load_at fresh initialize_user_crypto extend ℕ_discrete
both_load = refl

-- The rival does the first load; what it leaves in the cache is what this session gets.
rival_loads : (load_once toy_key (new_session toy_key rivalled_agent, cold)).0 ≡ ok both_keys
unfolding load_once new_session load_at fresh initialize_user_crypto extend ℕ_discrete
rival_loads = refl

-- Half an hour later nothing has been fetched since; the net would refuse any request.
load_once-shared_example : load_once toy_key (new_session toy_key agent, (first_load.1.1.0, [])) ≡ (
  ok both_keys,
  (record (new_session toy_key agent) { keys = some both_keys }, (first_load.1.1.0, [])),
)
load_once-shared_example =
    load_once-shared toy_key toy_crypto no_uuid nets nobody (λ i v. refl) built cold first_load.1.1
      first_load.1.0 both_keys (ap (λ r. (r, first_load.1)) both_load) [] (λ i ks at h. omega arith)
