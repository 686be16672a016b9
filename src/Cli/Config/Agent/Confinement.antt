-- ===== src/Cli/Config/Agent/Confinement.antt =====
-- Which requests the providers of an agent send, by the configuration that the agent was loaded from.
use mathlib.Core.List.{Mem}
use keyring_rs.Base.{ℕ, ◌≡◌, All, List, [], ◌∷◌, Option, some, get_elem?}
use keyring_rs.Base.Text.{Text}
use keyring_rs.Base.Result.{ok, Run}
use keyring_rs.Core.Provider.{SshKey, KeyPairSnapshot}
use keyring_rs.Core.Cell.{CacheCell}
use keyring_rs.Service.Index.{Index}
use keyring_rs.Service.Sig.{Signing}
use keyring_rs.Service.Session.{AgentProto, ServiceAgent, new_session}
use keyring_rs.Service.Session.Snapshot.{Call, perform_all}
use keyring_rs.Service.Session.Supply.{Supplies}
use keyring_rs.Service.Session.Supply.Replies.{perform_all-Supplied}
use keyring_rs.Providers.Dummy.{load_dummy}
use keyring_rs.Providers.Bitwarden.KeyStore.{Crypto}
use keyring_rs.Providers.Bitwarden.Net.{BitwardenSession, Net}
use keyring_rs.Providers.Bitwarden.Session.Confinement.{Sent, logged, Permitted}
use keyring_rs.Providers.Bitwarden.Session.Logging.{logged-Confines}
use keyring_rs.Providers.Bitwarden.Provider.{BitwardenProvider, FetchError, Loading, load_bitwarden}
use keyring_rs.Providers.Bitwarden.Provider.Confinement.{
  ConfinedCell, OwnCell, ConfinedCell-join, ConfinedCell-split, load_bitwarden-Confined,
}
use keyring_rs.Cli.Config.{Config, Provider, dummy_provider, bitwarden_provider, load}
use keyring_rs.Cli.Config.Laws.{all_declared}
use keyring_rs.Cli.Config.Agent.{Slot, World, Others, load_at, attach}
use keyring_rs.Cli.Config.Agent.Slots.{
  Slotted, Respected, put-Slotted, declared-member, load-Supplies,
}

module _ (K : SshKey) where
  units : (ks : KeyPairSnapshot K) → All (λ k. Unit {0}) ks
  units [] = tt
  units (k ∷ ks) = (tt, units ks)

module _ (K : SshKey) (C : Crypto) (from_seed : List ℕ → K.PrivateKey) where
  module _ (show_uuid : ℕ → Text) {W E : Type 0} (net : ℕ → Net C W E) (config : Config) where
    -- A request that one of the declared Bitwarden configurations permits.
    pub record Attributed (x : Sent) : Type 0 where
      pub index : ℕ
      pub provider : BitwardenProvider K C
      pub declared :
          get_elem? (all_declared K C from_seed config) index ≡ some (bitwarden_provider provider)
      pub member : Mem provider.config config.bitwarden
      pub permitted : Permitted (net index) provider.config x

    abbrev pub Logged : W × List Sent → Type 0
    Logged w = All Attributed w.1

    -- The session of each Bitwarden provider is one of its configuration, and all requests that were
    -- sent are attributed.
    pub record IsAttributed (v : World K C (W × List Sent)) : Type 0 where
      pub sessions :
          Slotted K C from_seed config
            (λ i cfg (slot : Slot K C). OwnCell (net i) cfg slot.session)
            v.0
      pub log : All Attributed v.1.1

    abbrev pub all_logged : ℕ → Net C (W × List Sent) E
    all_logged i = logged (net i)

    -- Other tasks keep to that too: between loads, and with the cells of the provider that is declared
    -- at an index, while a load waits for its cache.
    pub record Abides (others : Others K C show_uuid all_logged) : Type 0 where
      pub before :
          (i : ℕ) (v : World K C (W × List Sent))
          → IsAttributed v
          → IsAttributed (others.before i v)
      pub acquire :
          (i : ℕ) (p : BitwardenProvider K C)
          (st : CacheCell (KeyPairSnapshot K) × (Option (BitwardenSession C) × (W × List Sent)))
          → get_elem? (all_declared K C from_seed config) i ≡ some (bitwarden_provider p)
          → ConfinedCell (net i) (all_logged i) p.config Logged st.1
          → ConfinedCell (net i) (all_logged i) p.config Logged (others.acquire i st).1

    module _ (respects : Respected K C from_seed config net) where
      -- What a load of a declared provider keeps, given what other tasks keep while it waits.
      pub load_bitwarden-Logged :
          (i : ℕ) (p : BitwardenProvider K C)
          → get_elem? (all_declared K C from_seed config) i ≡ some (bitwarden_provider p)
          → (acquire : Loading K C show_uuid (all_logged i) p.config
              → Loading K C show_uuid (all_logged i) p.config)
          → ((st : Loading K C show_uuid (all_logged i) p.config)
              → ConfinedCell (net i) (all_logged i) p.config Logged st.1
              → ConfinedCell (net i) (all_logged i) p.config Logged (acquire st).1)
          → (st : Loading K C show_uuid (all_logged i) p.config)
          → ConfinedCell (net i) (all_logged i) p.config Logged st.1
          → ConfinedCell
              (net i)
              (all_logged i)
              p.config
              Logged
              (load_bitwarden K C show_uuid (all_logged i) p.config acquire st).1.1
      load_bitwarden-Logged i p at =
          load_bitwarden-Confined (net i) (all_logged i) p.config Logged K show_uuid (
            logged-Confines (net i) p.config (respects i p at) Attributed (λ x permitted. record {
              index = i;
              provider = p;
              declared = at;
              member = declared-member K C from_seed config.dummy config.bitwarden i p at;
              permitted = permitted;
            }))

    module _ (others : Others K C show_uuid all_logged) (abides : Abides others)
        (respects : Respected K C from_seed config net) where
      load_at-IsAttributed :
          (i : ℕ) (p : Provider K C) (v : World K C (W × List Sent))
          → get_elem? (all_declared K C from_seed config) i ≡ some p
          → IsAttributed v
          → IsAttributed (load_at K C show_uuid all_logged others i p v).1
      unfolding load_at load_dummy
      load_at-IsAttributed i (dummy_provider p) v at h = h
      load_at-IsAttributed i (bitwarden_provider p) v at h =
          let slot = v.0 i in
          let after =
            (load_bitwarden K C show_uuid (all_logged i) p.config (others.acquire i)
              (slot.keys, (slot.session, v.1))).1 in
          let parts =
            ConfinedCell-split (net i) (all_logged i) p.config Logged after.1.0 after.1.1 (
              load_bitwarden-Logged respects i p at (others.acquire i)
                (λ st. abides.acquire i p st at) (slot.keys, (slot.session, v.1))
                (ConfinedCell-join (net i) (all_logged i) p.config Logged slot.session v.1
                  (h.sessions i p at) h.log)) in
          record {
            sessions =
                put-Slotted K C from_seed config
                  (λ i cfg (slot : Slot K C). OwnCell (net i) cfg slot.session) i p v.0 after at
                  h.sessions parts.0;
            log = parts.1;
          }

      attach-IsAttributed :
          (i : ℕ) (p : Provider K C)
          → get_elem? (all_declared K C from_seed config) i ≡ some p
          → Supplies K IsAttributed (λ k. Unit {0}) (attach K C show_uuid all_logged others i p)
      attach-IsAttributed i p at v h = (
        load_at-IsAttributed i p (others.before i v) at (abides.before i v h),
        λ ks found. units K ks,
      )

      -- The program, from its configuration on: whatever requests a session has answered, begun in a
      -- world where this was so, each HTTP request that its providers have sent is one that a declared
      -- Bitwarden configuration permits, and the session of each provider is one of its configuration.
      -- A configuration permits posts of its client id and secret to its own identity URL, with nothing
      -- else of it, and gets from its own API URL with a token that the identity server at its own URL
      -- granted to these credentials. Other tasks are taken to keep to that too, between
      -- loads and in the cells of the provider whose cache is waited for; in its requests and in the wait for
      -- its gate they leave its session one of its configuration.
      pub load-IsAttributed :
          {X D : Type 0} (read_to_string : Text → Run X D Text) (from_toml : Text → Option Config)
          (path source : Text) (x x' : X)
          (agent : ServiceAgent K (World K C (W × List Sent)) (FetchError E)) (S : Signing K)
          (P : AgentProto) (iter : Index K → Index K)
          → read_to_string path x ≡ (ok source, x')
          → from_toml source ≡ some config
          → (load K C from_seed read_to_string from_toml
              (attach K C show_uuid all_logged others)
              path
              x).0
            ≡ ok agent
          → (cs : List (Call K P)) (v : World K C (W × List Sent)) → IsAttributed v
          → IsAttributed (perform_all K S P iter cs (new_session K agent, v)).1
      unfolding new_session
      load-IsAttributed read_to_string from_toml path source x x' agent S P iter h h' loaded cs v
            a =
          (perform_all-Supplied K IsAttributed (λ k. Unit {0}) S P iter cs (new_session K agent, v)
            (record {
              world = a;
              providers =
                  load-Supplies K C from_seed config IsAttributed (λ k. Unit {0}) read_to_string
                    from_toml (attach K C show_uuid all_logged others) agent path source x x'
                    attach-IsAttributed h h' loaded;
              stock = tt;
            })).world
