-- ===== src/Cli/Serve/Clients.antt =====
-- The program from its configurations on: what the clients of the service loop are told, whatever is
-- reloaded meanwhile.
use keyring_rs.Base.{
  ℕ, ◌≡◌, ◌⊎◌, All, All-get_elem?, get_elem?, List, Option, some, ◌==◌, ==_refl, if◌then◌else◌,
  Paired,
}
use keyring_rs.Base.Text.{Text}
use keyring_rs.Base.Result.{Result, ok, Run}
use keyring_rs.Core.Provider.{SshKey, KeyPairProvider}
use keyring_rs.Service.Index.{Index}
use keyring_rs.Service.Sig.{Signing}
use keyring_rs.Service.Session.{AgentProto, ServiceAgent, ServiceSession, new_session}
use keyring_rs.Service.Session.Supply.{Supplies}
use keyring_rs.Providers.Bitwarden.KeyStore.{Crypto}
use keyring_rs.Providers.Bitwarden.Net.{Net}
use keyring_rs.Providers.Bitwarden.Provider.{FetchError}
use keyring_rs.Cli.Handle.{Round, HandleError, Response, handle}
use keyring_rs.Cli.Handle.Laws.{all_served}
use keyring_rs.Cli.Handle.Conversation.{Dispatches, Vouched, handle-Vouched}
use keyring_rs.Cli.Config.{Config, load}
use keyring_rs.Cli.Config.Agent.{Slot, Others, attach}
use keyring_rs.Cli.Config.Agent.Slots.{Respected, load-Supplies}
use keyring_rs.Cli.Config.Agent.Origin.{Configured, IsInOrder, Keeps, attach-Supplies}
use keyring_rs.Cli.Serve.{Job, Service, Ready, continue, break, turns, start}
use keyring_rs.Cli.Serve.Turns.{Holds_at}
use keyring_rs.Cli.Serve.Agents.{IsProvisioned, Offers, turns-IsProvisioned}

-- The states of the providers of all generations of agents, by the number of the generation.
module _ (K : SshKey) where
  abbrev pub within :
      {V W F : Type 0} → ℕ → KeyPairProvider K (V × W) F → KeyPairProvider K ((ℕ → V) × W) F
  within g src (states, w) =
      let r = src (states g, w) in (r.0, (λ h. if g == h then r.1.0 else states h, r.1.1))

  within-Supplies :
      {V W F : Type 0} (Inv : V × W → Type 0) (Good : K.PrivateKey → Type 0) (g : ℕ)
      (src : KeyPairProvider K (V × W) F)
      → Supplies K Inv Good src
      → Supplies K (λ v. Inv (v.0 g, v.1)) Good (within g src)
  within-Supplies Inv Good g src h (states, w) inv =
      let s = h (states g, w) inv in (rw (==_refl g) s.0, s.1)

module _ (K : SshKey) (C : Crypto) (from_seed : List ℕ → K.PrivateKey) (show_uuid : ℕ → Text)
    {W E X D : Type 0} (configs : ℕ → Config) (net : ℕ → ℕ → Net C W E)
    (others : (g : ℕ) → Others K C show_uuid (net g)) (read_to_string : Text → Run X D Text)
    (from_toml : Text → Option Config) where
  abbrev pub Worlds : Type 0
  Worlds = (ℕ → ℕ → Slot K C) × W

  abbrev pub Agent : Type 0
  Agent = ServiceAgent K Worlds (FetchError E)

  -- An agent that `load` built in some generation, of the configuration that was read for it.
  pub record LoadedFrom (agent : Agent) : Type 0 where
    pub generation : ℕ
    pub path : Text
    pub source : Text
    pub before : X
    pub between : X
    pub read : read_to_string path before ≡ (ok source, between)
    pub decoded : from_toml source ≡ some (configs generation)
    pub loaded :
        (load K C from_seed read_to_string from_toml
          (λ i p.
            within K generation (attach K C show_uuid (net generation) (others generation) i p))
          path
          before).0
        ≡ ok agent

  module _ (S : Signing K) (P : AgentProto) (iter : Index K → Index K) {Req Res Y : Type 0}
      (answer : Req
        → ServiceSession K Worlds (FetchError E) × Worlds
        → Result (HandleError Y) Res × (ServiceSession K Worlds (FetchError E) × Worlds))
      (d : Dispatches K S P iter answer) where
    -- One response for each request that is served, in order, and each is a failure, or tells of keys
    -- that the configuration of the generation stands for.
    abbrev pub AreVouched : ℕ → List Req → List (Response Res) → Type 0
    AreVouched g =
        Paired
          (Vouched K S P iter answer d (Configured K C from_seed show_uuid (net g) (configs g)))

    -- The caches and sessions of a generation are in order.
    abbrev pub AreInOrder : ℕ → Worlds → Type 0
    AreInOrder g v = IsInOrder K C from_seed show_uuid (net g) (configs g) (v.0 g, v.1)

    module _ (keeps : (g : ℕ) → Keeps K C from_seed show_uuid (net g) (configs g) (others g))
        (respects : (g : ℕ) → Respected K C from_seed (configs g) (net g))
        (visits : (Q : K.KeyData × K.PrivateKey → Type 0) (m : Index K)
          → All Q m
          → All Q (iter m)) where
      loaded-AreVouched :
          (agent : Agent) (l : LoadedFrom agent) (v : Worlds) (rounds : List (Round Req Y))
          → AreInOrder l.generation v
          → AreVouched l.generation
              (all_served rounds)
              (handle answer rounds (new_session K agent, v)).written
      unfolding new_session
      loaded-AreVouched agent l v rounds order =
          let g = l.generation in
          let Good = Configured K C from_seed show_uuid (net g) (configs g) in
          let attach' = attach K C show_uuid (net g) (others g) in
          handle-Vouched K S P iter answer d Good (AreInOrder g) visits rounds
            (new_session K agent, v)
            (record {
              world = order;
              providers =
                  load-Supplies K C from_seed (configs g) (AreInOrder g) Good read_to_string
                    from_toml (λ i p. within K g (attach' i p)) agent l.path l.source l.before
                    l.between
                    (λ i p at.
                      within-Supplies K (IsInOrder K C from_seed show_uuid (net g) (configs g)) Good
                        g (attach' i p)
                        (attach-Supplies K C from_seed show_uuid (net g) (configs g) (others g)
                          (keeps g) (respects g) i p at))
                    l.read l.decoded l.loaded;
              stock = tt;
            })

      -- The service, with an agent that was loaded and whose reloads load their candidates, each in some
      -- generation, of the configuration that was read for it: whatever has become ready, a task that
      -- runs at the end, or is to be drained after a shutdown, has an agent that was loaded in some
      -- generation, and its client is told of keys of the configuration of that generation only. Whatever
      -- that client sends, it is written one response for each request that is served, in order; a list has
      -- identities of keys that the configuration stands for, and a signature is of the requested data
      -- by such a key with the requested public key. The session starts in a world where the caches and
      -- sessions of the generation are in order; the other tasks of each generation keep that order for
      -- the configuration of that generation, be they waited for in a request, at a gate or at a cache.
      pub turns-Vouched :
          {L Z : Type 0} (rs : List (Ready Agent L Z)) (agent : Agent) (s : Service Agent L) (n : ℕ)
          (j : Job Agent L) (v : Worlds) (rounds : List (Round Req Y))
          → LoadedFrom agent
          → All (Offers LoadedFrom) rs
          → (turns rs (start agent) ≡ continue s) ⊎ (turns rs (start agent) ≡ break s)
          → get_elem? s.jobs n ≡ some j
          → ((l : LoadedFrom j.agent) → AreInOrder l.generation v)
          → (l : LoadedFrom j.agent) × AreVouched l.generation
              (all_served rounds)
              (handle answer rounds (new_session K j.agent, v)).written
      turns-Vouched rs agent s n j v rounds h g ends at order =
          let serving =
            Holds_at (IsProvisioned LoadedFrom) (turns rs (start agent)) s ends
              (turns-IsProvisioned LoadedFrom rs agent h g) in
          let l =
            All-get_elem? (λ (j : Job Agent _). LoadedFrom j.agent) s.jobs n j serving.serving at in
          (l, loaded-AreVouched j.agent l v rounds (order l))
