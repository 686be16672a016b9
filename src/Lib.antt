-- ===== src/Lib.antt =====
-- keyring-rs: an SSH agent whose keys come from configured providers.
--
-- The program reads a configuration, builds one provider for each of its sections, binds a Unix
-- socket and serves SSH agent clients. Each connection is a task with its own session; a session loads
-- the keys of all providers on first use, lists them and signs with them. A reload signal replaces the
-- agent for later connections; a shutdown signal drains the tasks. The Bitwarden provider logs in by
-- an API key, synchronises a vault, and decrypts the SSH keys in it, at most once an hour.
--
-- Parts and files, with the code that they model:
--
--   Base                   results, `do` notation, Rust strings, lists, integers, sorting
--   Core.Provider          crates/keyring-core/src/provider.rs: snapshots, `KeyPairProvider::load`
--   Core.Cell              crates/keyring-core/src/cell.rs: `CacheCell::get_or_try_init`; Sharing has all
--                          its callers side by side, as a step relation
--   Service.Index          the key map of a session, crates/keyring-service/src/runtime.rs
--   Service.Sig            `ServiceSession::sig`, the same file
--   Service.Session        `ServiceAgent`, `ServiceSession` and their requests, the same file
--   Service.KeyMap         that map up to the order of its entries, as a quotient, and a machine over it
--                          that answers requests, which sessions are compared with
--   Service.Debug          what is printed of them, the same file
--   Providers.Dummy        crates/keyring-providers/src/dummy
--   Providers.Bitwarden    crates/keyring-providers/src/bitwarden, a module for each file of it: Config,
--                          Models, Auth, Crypto, Session, Provider, with Debug for what is printed;
--                          KeyStore and Net hold the parameters of Crypto and Session with their
--                          data; Session.Tasks has the tasks of one session side by side,
--                          Session.Refinement compares `sync` with its steps, and
--                          Session.Confinement says where the requests of a session may go
--   Cli.Config             crates/keyring-cli/src/config.rs, and `load` and `main` of main.rs; Agent
--                          joins the providers, the session and the configuration into one program,
--                          and Agent.Confinement the requests of all providers
--   Cli.Platform           the Unix `Listener` of crates/keyring-cli/src/platform.rs
--   Cli.NamedPipe          the Windows `Listener` of the same file, with its security descriptor
--   Cli.Signal             `Signal` of the same file, on Unix
--   Cli.Serve              `serve` and `report` of crates/keyring-cli/src/main.rs; Shutdown follows
--                          the tasks after the loop, Clients joins the loop, the configurations and
--                          the client tasks
--   Cli.Handle             `handle`, the task of one client, of the same file; Conversation has it over
--                          the operations of `ServiceSession`
--   Tests                  runs on small inputs, and the theorems at such inputs
--
-- How the state is carried: an operation that changes a state and may fail is a `Run S E A`, which is
-- `S → Result E A × S`. A world `W` that the program does not look into holds what lies outside: files,
-- the network, the clock, the states of the providers. A session is a pair with such a world; a
-- `CacheCell` is an optional value with its time; the service loop is a function from what is ready in
-- a turn, the list of turns being arbitrary. In Cli.Config.Agent the world is the cells of all providers
-- by their index, with the world outside. Names of functions, fields and constructors are those of
-- the code; a long function is cut at its branches, and its parts have names of their own.
--
-- What stands in for other crates, always as a parameter: `SshKey` and `Signing` for ssh_key and
-- rsa, `AgentProto` for the protocol messages, `Os` for the socket and the file system, `Windows`
-- for the named pipes, `Streams` for the signal streams, `Crypto` for bitwarden_crypto, `Http` and
-- `Net` for reqwest, serde_json and the clock. `KeyView`, `StoreLaws` and `ReadLaws` say what is
-- relied on of the key store, and `Dispatches` that ssh_agent_lib hands a request to the handler of its
-- kind, as it documents. `Rely`, `Keeps` and `Respects` bound what other tasks do to a session while
-- one task waits, or what they log of their requests.
-- Tests.Vault shows a store with these laws.
--
-- Concurrency: client tasks, builds and signals meet in the turns of Cli.Serve. Callers of a cache
-- interleave in Core.Cell.Sharing, and tasks of one Bitwarden session in Providers.Bitwarden.Session.Tasks,
-- each a step relation between awaits. Where one task of a session is followed from start to end, other
-- tasks may change the session in any request and in the wait for its gate, which are operations on the
-- session and the world together; Session.Interference puts tasks that run `sync` there. Each provider of
-- each generation of agents has its own such operations, so that what is supposed of them is for its own
-- configuration; in the wait for its cache too, other tasks may change its cells, and Agent.Rivals puts
-- the load of another client there, which may be the first one.
--
-- Bounds: durations and instants are numbers of nanoseconds, integers of a width are numbers with
-- the test that the code does (`u32` of KDF parameters, the RSA size with its saturating product, the
-- largest instant). No function runs on fuel: loops are recursion on a list, and the two attempts of
-- `sync` are counted down from two, with a theorem that the end of the loop is never reached.
--
-- Not modelled: the parsing of arguments and the set-up of logging (args.rs, init.rs), which are calls
-- of libraries; the Windows `Signal`, which has no state; the `Debug` that is derived; the text that the
-- formatter makes of a `Debug` struct; the causes below an error's context but those of an
-- authentication error, which are only logged; log lines; how long
-- a build runs on after a shutdown, since a running read cannot be aborted and nobody takes its result.
pub mod Base
pub mod Core
pub mod Service
pub mod Providers
pub mod Cli
pub mod Tests
