-- ===== src/Tests/Clients.antt =====
-- A client that is served across a reload.
use keyring_rs.Base.{
  ℕ, ◌≡◌, refl, inl, true, false, ◌==◌, if◌then◌else◌, List, [], ◌∷◌, Option, none, some,
}
use keyring_rs.Base.Result.{Result, ok, err}
use keyring_rs.Service.Session.{
  AgentIdentity, AgentError, ServiceSession, new, new_session, request_identities, sign, extension,
}
use keyring_rs.Service.Session.Snapshot.{Call, lists, signs, extends}
use keyring_rs.Providers.Bitwarden.Provider.{FetchError}
use keyring_rs.Cli.Handle.{Round, HandleError, other_error, request, handle}
use keyring_rs.Cli.Handle.Laws.{all_served}
use keyring_rs.Cli.Handle.Conversation.{forwarded, Dispatches}
use keyring_rs.Cli.Config.{
  Config, providers, build_dummy, build_bitwarden, read_config, load, attached,
}
use keyring_rs.Cli.Config.Agent.{Others, attach}
use keyring_rs.Cli.Config.Agent.Origin.{Keeps}
use keyring_rs.Cli.Serve.{Service, Ready, continue, candidate, turns, start}
use keyring_rs.Cli.Signal.{reload}
use keyring_rs.Cli.Serve.Clients.{within, Worlds, Agent, LoadedFrom, AreVouched, turns-Vouched}
use keyring_rs.Tests.Toy.{toy_key, toy_signing, toy_proto, Message}
use keyring_rs.Tests.Vault.{toy_crypto}
use keyring_rs.Tests.Startup.{from_seed}
use keyring_rs.Tests.Agent.{both, read_file, toml, no_uuid, nets, nets-Respected, built}
use keyring_rs.Cli.Config.Agent.Rivals.{rivalled, rivalled-Keeps}
use keyring_rs.Providers.Bitwarden.Net.{Net}

-- Each generation has the configuration `both`.
abbrev configs : ℕ → Config
configs g = both

abbrev all_nets : ℕ → ℕ → Net toy_crypto (List ℕ) ℕ
all_nets g = nets

abbrev nobody : Others toy_key toy_crypto no_uuid nets
nobody = record { before = λ i v. v; acquire = λ i st. st }

-- In each generation, another client loads each provider while one waits for its cache.
abbrev rivals : ℕ → Others toy_key toy_crypto no_uuid nets
rivals g = rivalled toy_key toy_crypto from_seed no_uuid both nets nobody

abbrev ToyWorlds : Type 0
ToyWorlds = Worlds toy_key toy_crypto from_seed no_uuid configs all_nets rivals read_file toml

abbrev ToyAgent : Type 0
ToyAgent = Agent toy_key toy_crypto from_seed no_uuid configs all_nets rivals read_file toml

rivals-Keeps : (g : ℕ) → Keeps toy_key toy_crypto from_seed no_uuid nets both (rivals g)
rivals-Keeps g =
    rivalled-Keeps toy_key toy_crypto from_seed no_uuid both nets nobody nets-Respected
      (record { before = λ i v h. h; acquire = λ i p st at h. h })

-- The agent of each generation.
abbrev agent : ℕ → ToyAgent
agent g = record {
  providers =
      attached (λ i p. within toy_key g (attach toy_key toy_crypto no_uuid nets (rivals g) i p)) 0
        built;
}

agent-LoadedFrom :
    (g : ℕ)
    → LoadedFrom toy_key toy_crypto from_seed no_uuid configs all_nets rivals read_file toml
        (agent g)
unfolding load read_config providers build_dummy build_bitwarden new
agent-LoadedFrom g = record {
  generation = g;
  path = [];
  source = [];
  before = 0;
  between = 0;
  read = refl;
  decoded = refl;
  loaded = refl;
}

-- The requests are the calls, and one without an operation.
abbrev ToyRequest : Type 0
ToyRequest = Option (Call toy_key toy_proto)

data ToyResponse : Type 0 where
  identities : List (AgentIdentity ℕ) → ToyResponse
  signature : List ℕ → ToyResponse
  extended : Option Message → ToyResponse

abbrev ToyClient : Type 0
ToyClient = ServiceSession toy_key ToyWorlds (FetchError ℕ) × ToyWorlds

abbrev toy_error : AgentError (FetchError ℕ) → ℕ
toy_error e = 1

abbrev toy_answer : ToyRequest → ToyClient → Result (HandleError ℕ) ToyResponse × ToyClient
toy_answer none st = (err (other_error 0), st)
toy_answer (some lists) st = forwarded toy_error identities (request_identities toy_key (λ m. m) st)
toy_answer (some (signs r)) st = forwarded toy_error signature (sign toy_key toy_signing r st)
toy_answer (some (extends ext)) (session, w) =
    forwarded toy_error extended
      (let r = extension toy_key toy_proto ext session in (r.0, (r.1, w)))

toy_answer-Dispatches : Dispatches toy_key toy_signing toy_proto (λ m. m) toy_answer
toy_answer-Dispatches = record {
  call = λ req. req;
  identities_answer = identities;
  sign_response = signature;
  extension_answer = extended;
  other = toy_error;
  unsupported = 0;
  listing = λ req st e. rw e refl;
  signing = λ req r st e. rw e refl;
  extending = λ req ext session w e. rw e refl;
  refusing = λ req st e. rw e refl;
}

abbrev quiet : Ready ToyAgent ℕ ℕ
quiet = record { signal = none; loaded = none; joined = none; accepted = none }

-- A client comes, the configuration is reloaded, and another client comes.
abbrev history : List (Ready ToyAgent ℕ ℕ)
history =
    record quiet { accepted = some (ok 10) }
    ∷ record quiet { signal = some reload }
    ∷ record quiet { loaded = some (candidate (agent 1)) }
    ∷ record quiet { accepted = some (ok 11) }
    ∷ []

abbrev state : Service ToyAgent ℕ
state = record {
  agent = agent 1;
  jobs =
      record { client = 10; agent = agent 0; stop = 0 }
      ∷ record { client = 11; agent = agent 1; stop = 1 }
      ∷ [];
  reloads = 0;
  reload_pending = false;
  stop = 1;
  stopped = λ c. if c == 1 then false else if c == 0 then true else false;
}

history-state : turns history (start (agent 0)) ≡ continue state
unfolding turns start
history-state = refl

abbrev fresh : ToyWorlds
fresh = (λ g i. record { keys = none; session = none }, 200 ∷ [])

-- It lists the keys, asks for a signature, and sends what has no operation.
abbrev asks : ToyRequest → Round ToyRequest ℕ
asks req = record {
  stopped = false;
  changed = false;
  incoming = request req;
  handle_time = 1;
  send_time = 1;
  sent = ok tt;
}

abbrev rounds : List (Round ToyRequest ℕ)
rounds =
    asks (some lists)
    ∷ asks (some (signs (record { pubkey = 7; bytes = 1 ∷ []; flags = 0 })))
    ∷ asks none
    ∷ []

turns-Vouched_example :
    (l : LoadedFrom toy_key toy_crypto from_seed no_uuid configs all_nets rivals read_file toml
      (agent 1))
    × AreVouched toy_key toy_crypto from_seed no_uuid configs all_nets rivals read_file toml
        toy_signing toy_proto
        (λ m. m)
        toy_answer
        toy_answer-Dispatches
        l.generation
        (all_served rounds)
        (handle toy_answer rounds (new_session toy_key (agent 1), fresh)).written
turns-Vouched_example =
    turns-Vouched toy_key toy_crypto from_seed no_uuid configs all_nets rivals read_file toml
      toy_signing toy_proto (λ m. m) toy_answer toy_answer-Dispatches rivals-Keeps
      (λ g. nets-Respected) (λ Q m h. h) history (agent 0) state 1
      (record { client = 11; agent = agent 1; stop = 1 }) fresh rounds (agent-LoadedFrom 0)
      (tt, (tt, (agent-LoadedFrom 1, (tt, tt)))) (inl history-state) refl (λ l i p at. (tt, tt))
