-- ===== src/Cli/Config/Agent/Origin.antt =====
-- Every key that the program lists or signs with is one that its configuration stands for.
use mathlib.Core.List.{Mem}
use keyring_rs.Base.{
  ℕ, ◌≡◌, ◌≢◌, refl, sym, subst, ◌⊎◌, inl, inr, All, List, [], ◌∷◌, Option, some, get_elem?,
}
use keyring_rs.Base.Text.{Text}
use keyring_rs.Base.Result.{ok, Run}
use keyring_rs.Core.Provider.{SshKey, KeyPairSnapshot}
use keyring_rs.Core.Cell.{CacheCell}
use keyring_rs.Service.Index.{Index}
use keyring_rs.Service.Sig.{Signing}
use keyring_rs.Service.Session.{
  AgentProto, AgentIdentity, ServiceAgent, SignRequest, new_session, request_identities, sign,
}
use keyring_rs.Service.Session.Snapshot.{Call, perform_all}
use keyring_rs.Service.Session.Supply.{Supplies, Supplied}
use keyring_rs.Service.Session.Supply.Replies.{
  Listed, SignedBy, perform_all-Supplied, request_identities-Listed, sign-SignedBy,
}
use keyring_rs.Providers.Dummy.{seed, load_dummy}
use keyring_rs.Providers.Bitwarden.Config.{BitwardenProviderConfig}
use keyring_rs.Providers.Bitwarden.KeyStore.{Crypto}
use keyring_rs.Providers.Bitwarden.Net.{BitwardenSession, Net}
use keyring_rs.Providers.Bitwarden.Session.Logging.{Respects-Confines}
use keyring_rs.Providers.Bitwarden.Provider.{BitwardenProvider, FetchError, load_bitwarden}
use keyring_rs.Providers.Bitwarden.Provider.Confinement.{
  OwnCell, ConfinedCell-join, ConfinedCell-split,
}
use keyring_rs.Providers.Bitwarden.Provider.Origin.{
  Genuine, IsStocked, Orderly, load_bitwarden-Genuine,
}
use keyring_rs.Cli.Config.{Config, Provider, dummy_provider, bitwarden_provider, load}
use keyring_rs.Cli.Config.Laws.{all_declared}
use keyring_rs.Cli.Config.Agent.{Slot, World, Others, load_at, attach}
use keyring_rs.Cli.Config.Agent.Slots.{
  Slotted, Respected, put-Slotted, declared-member, declared-seed, load-Supplies,
}

module _ (K : SshKey) (C : Crypto) (from_seed : List ℕ → K.PrivateKey) where
  module _ (show_uuid : ℕ → Text) {W E : Type 0} (net : ℕ → Net C W E) (config : Config) where
    -- A key of a live SSH item in the vault that one of the declared Bitwarden providers was given.
    pub record FromVault (k : K.PrivateKey) : Type 0 where
      pub index : ℕ
      pub provider : BitwardenProvider K C
      pub declared :
          get_elem? (all_declared K C from_seed config) index ≡ some (bitwarden_provider provider)
      pub member : Mem provider.config config.bitwarden
      pub genuine : Genuine K C show_uuid (net index) provider.config k

    -- A key that the configuration stands for.
    abbrev pub Configured : K.PrivateKey → Type 0
    Configured k = ((config.dummy ≢ []) × (k ≡ from_seed seed)) ⊎ FromVault k

    -- The cache of a provider has keys of its configuration only, and so its session.
    abbrev pub IsOrderly : ℕ → BitwardenProviderConfig → Slot K C → Type 0
    IsOrderly i cfg slot =
        IsStocked K C show_uuid (net i) cfg slot.keys × OwnCell (net i) cfg slot.session

    -- The caches and sessions of all providers are in order.
    abbrev pub IsInOrder : World K C W → Type 0
    IsInOrder v = Slotted K C from_seed config IsOrderly v.0

    -- The other tasks keep that order, as loads do: between loads, and in the cells of the provider that
    -- is declared at an index, while a load waits for its cache.
    pub record Keeps (others : Others K C show_uuid net) : Type 0 where
      pub before : (i : ℕ) (v : World K C W) → IsInOrder v → IsInOrder (others.before i v)
      pub acquire :
          (i : ℕ) (p : BitwardenProvider K C)
          (st : CacheCell (KeyPairSnapshot K) × (Option (BitwardenSession C) × W))
          → get_elem? (all_declared K C from_seed config) i ≡ some (bitwarden_provider p)
          → Orderly K C show_uuid (net i) p.config st
          → Orderly K C show_uuid (net i) p.config (others.acquire i st)

    weaken_seed :
        (ks : KeyPairSnapshot K) → ks ≡ from_seed seed ∷ [] → config.dummy ≢ [] → All Configured ks
    weaken_seed ks e some_dummy = subst (All Configured) (sym e) (inl (some_dummy, refl), tt)

    weaken-Genuine :
        (i : ℕ) (p : BitwardenProvider K C) (ks : KeyPairSnapshot K)
        → get_elem? (all_declared K C from_seed config) i ≡ some (bitwarden_provider p)
        → All (Genuine K C show_uuid (net i) p.config) ks
        → All Configured ks
    weaken-Genuine i p [] at t = tt
    weaken-Genuine i p (k ∷ ks) at t = (
      inr (record {
        index = i;
        provider = p;
        declared = at;
        member = declared-member K C from_seed config.dummy config.bitwarden i p at;
        genuine = t.0;
      }),
      weaken-Genuine i p ks at t.1,
    )

    module _ (others : Others K C show_uuid net) (keeps : Keeps others)
        (respects : Respected K C from_seed config net) where
      load_at-Supplies :
          (i : ℕ) (p : Provider K C) (v : World K C W)
          → get_elem? (all_declared K C from_seed config) i ≡ some p
          → IsInOrder v
          → IsInOrder (load_at K C show_uuid net others i p v).1
            × ((ks : KeyPairSnapshot K)
                → (load_at K C show_uuid net others i p v).0 ≡ ok ks
                → All Configured ks)
      unfolding load_at load_dummy
      load_at-Supplies i (dummy_provider p) v at h =
          let d = declared-seed K C from_seed config.dummy config.bitwarden i p at in
          (h, λ ks found. weaken_seed ks (cc (found, d.1)) d.0)
      load_at-Supplies i (bitwarden_provider p) v at h =
          let slot = v.0 i in
          let st : CacheCell (KeyPairSnapshot K) × (Option (BitwardenSession C) × W) =
            (slot.keys, (slot.session, v.1)) in
          let own =
            ConfinedCell-join (net i) (net i) p.config (λ w. Unit {0}) slot.session v.1 (h i p at).1
              tt in
          let r =
            load_bitwarden-Genuine K C show_uuid (net i) p.config
              (Respects-Confines (net i) p.config (respects i p at)) (others.acquire i)
              (λ st. keeps.acquire i p st at) st ((h i p at).0, own) in
          let after = (load_bitwarden K C show_uuid (net i) p.config (others.acquire i) st).1 in
          let own' =
            ConfinedCell-split (net i) (net i) p.config (λ w. Unit {0}) after.1.0 after.1.1 r.0.1 in
          (
            put-Slotted K C from_seed config IsOrderly i p v.0 after at h (r.0.0, own'.0),
            λ ks found. weaken-Genuine i p ks at (r.1 ks found),
          )

      pub attach-Supplies :
          (i : ℕ) (p : Provider K C)
          → get_elem? (all_declared K C from_seed config) i ≡ some p
          → Supplies K IsInOrder Configured (attach K C show_uuid net others i p)
      attach-Supplies i p at v h = load_at-Supplies i p (others.before i v) at (keeps.before i v h)

      -- The program, from its configuration on: whatever requests a session has answered, begun in a
      -- world whose caches and sessions are in order, they are in order again, what it then lists are
      -- identities of keys that the configuration stands for, and what it signs is signed by such a key
      -- with the requested public key. Such a key is the one of the dummy seed, if a dummy is declared,
      -- or one that an SSH item, neither deleted nor archived, yields, of a vault that the API server of a
      -- declared Bitwarden provider gave in a successful answer to a token that the provider's identity
      -- server granted to its credentials. The caches and sessions are in order if they hold only such
      -- keys, tokens and addresses, those of the provider declared at the index; other tasks are taken to keep
      -- them so, in the cells of each provider by its own configuration.
      pub load-Configured :
          {X D : Type 0} (read_to_string : Text → Run X D Text) (from_toml : Text → Option Config)
          (path source : Text) (x x' : X) (agent : ServiceAgent K (World K C W) (FetchError E))
          (S : Signing K) (P : AgentProto) (iter : Index K → Index K)
          → read_to_string path x ≡ (ok source, x')
          → from_toml source ≡ some config
          → (load K C from_seed read_to_string from_toml (attach K C show_uuid net others) path x).0
            ≡ ok agent
          → ((Q : K.KeyData × K.PrivateKey → Type 0) (m : Index K) → All Q m → All Q (iter m))
          → (v : World K C W) → IsInOrder v
          → (cs : List (Call K P))
          → IsInOrder (perform_all K S P iter cs (new_session K agent, v)).1
            × ((ids : List (AgentIdentity K.KeyData))
                → (request_identities K iter (perform_all K S P iter cs (new_session K agent, v))).0
                  ≡ ok ids
                → All (Listed K Configured) ids)
            × ((req : SignRequest K.KeyData) (signature : S.Signature)
                → (sign K S req (perform_all K S P iter cs (new_session K agent, v))).0
                  ≡ ok signature
                → SignedBy K Configured S req signature)
      unfolding new_session
      load-Configured read_to_string from_toml path source x x' agent S P iter h h' loaded visits v
            order cs =
          let start : Supplied K IsInOrder Configured (new_session K agent, v) = record {
            world = order;
            providers =
                load-Supplies K C from_seed config IsInOrder Configured read_to_string from_toml
                  (attach K C show_uuid net others) agent path source x x' attach-Supplies h h'
                  loaded;
            stock = tt;
          } in
          let after =
            perform_all-Supplied K IsInOrder Configured S P iter cs (new_session K agent, v)
              start in
          (
            after.world,
            request_identities-Listed K IsInOrder Configured S P iter visits
                (perform_all K S P iter cs (new_session K agent, v)) after,
            λ req.
                sign-SignedBy K IsInOrder Configured S P iter req
                  (perform_all K S P iter cs (new_session K agent, v)) after,
          )
