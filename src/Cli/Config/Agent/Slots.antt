-- ===== src/Cli/Config/Agent/Slots.antt =====
-- The providers of a loaded agent by their index, and the states that they have there.
use mathlib.Core.List.{Mem, mem-cons, mem-cons_of_mem}
use mathlib.Core.Logic.Or
use keyring_rs.Base.{
  ℕ, zero, suc, ◌+◌, ◌≡◌, ◌≢◌, ◌∙◌, sym, ap, subst, inl, inr, Bool-cases, All, List, [], ◌∷◌, ◌++◌,
  map, Option, some, ◌==◌, ==_iff, get_elem?, arith,
}
use keyring_rs.Base.Text.{Text}
use keyring_rs.Base.Result.{ok, Run}
use keyring_rs.Core.Provider.{SshKey, KeyPairSnapshot, KeyPairProvider}
use keyring_rs.Core.Cell.{CacheCell}
use keyring_rs.Service.Session.{ServiceAgent}
use keyring_rs.Service.Session.Supply.{Supplies}
use keyring_rs.Providers.Dummy.{DummyProviderConfig, DummyProvider, seed}
use keyring_rs.Providers.Bitwarden.Config.{BitwardenProviderConfig}
use keyring_rs.Providers.Bitwarden.KeyStore.{Crypto}
use keyring_rs.Providers.Bitwarden.Net.{BitwardenSession, Net}
use keyring_rs.Providers.Bitwarden.Session.Confinement.{Respects}
use keyring_rs.Providers.Bitwarden.Provider.{BitwardenProvider}
use keyring_rs.Cli.Config.{Config, Provider, dummy_provider, bitwarden_provider, attached, load}
use keyring_rs.Cli.Config.Laws.{fixed, lazy, all_declared}
use keyring_rs.Cli.Config.Agent.{Slot, put}
use keyring_rs.Cli.Config.Agent.Built.{load-all_declared}

-- What holds of each provider at its index holds of all.
module _ {A B : Type 0} (f : ℕ → A → B) (Q : B → Type 0) (all : List A)
    (each : (i : ℕ) (a : A) → get_elem? all i ≡ some a → Q (f i a)) where
  attached_from :
      (i : ℕ) (rest : List A)
      → ((n : ℕ) → get_elem? all (i + n) ≡ get_elem? rest n)
      → All Q (attached f i rest)
  attached_from i [] at = tt
  attached_from i (a ∷ rest) at = (
    each i a (ap (get_elem? all) (omega arith) ∙ at 0),
    attached_from (suc i) rest (λ n. ap (get_elem? all) (omega arith) ∙ at (suc n)),
  )

  attached-All : All Q (attached f 0 all)
  attached-All = attached_from 0 all (λ n. ap (get_elem? all) (omega arith))

module _ (K : SshKey) (C : Crypto) (from_seed : List ℕ → K.PrivateKey) where
  lazy-member :
      (cfgs : List BitwardenProviderConfig) (i : ℕ) (p : BitwardenProvider K C)
      → get_elem? (map (lazy K C from_seed) cfgs) i ≡ some (bitwarden_provider p)
      → Mem p.config cfgs
  lazy-member [] i p h = cc h
  lazy-member (c ∷ cfgs) zero p h = mem-cons.1 (Or.inl (cc h))
  lazy-member (c ∷ cfgs) (suc i) p h = mem-cons_of_mem _ (lazy-member cfgs i p h)

  -- A Bitwarden provider has a configuration that is declared.
  pub declared-member :
      (dummies : List DummyProviderConfig) (cfgs : List BitwardenProviderConfig) (i : ℕ)
      (p : BitwardenProvider K C)
      → get_elem? (map (fixed K C from_seed) dummies ++ map (lazy K C from_seed) cfgs) i
        ≡ some (bitwarden_provider p)
      → Mem p.config cfgs
  declared-member [] cfgs i p h = lazy-member cfgs i p h
  declared-member (d ∷ dummies) cfgs zero p h = cc h
  declared-member (d ∷ dummies) cfgs (suc i) p h = declared-member dummies cfgs i p h

  lazy_no_dummy :
      (cfgs : List BitwardenProviderConfig) (i : ℕ) (p : DummyProvider K)
      → get_elem? (map (lazy K C from_seed) cfgs) i ≢ some (dummy_provider p)
  lazy_no_dummy [] i p h = cc h
  lazy_no_dummy (c ∷ cfgs) zero p h = cc h
  lazy_no_dummy (c ∷ cfgs) (suc i) p h = lazy_no_dummy cfgs i p h

  -- A dummy provider is declared too, and has the key of the fixed seed only.
  pub declared-seed :
      (dummies : List DummyProviderConfig) (cfgs : List BitwardenProviderConfig) (i : ℕ)
      (p : DummyProvider K)
      → get_elem? (map (fixed K C from_seed) dummies ++ map (lazy K C from_seed) cfgs) i
        ≡ some (dummy_provider p)
      → (dummies ≢ []) × (p.identities ≡ from_seed seed ∷ [])
  declared-seed [] cfgs i p h = absurd (lazy_no_dummy cfgs i p h)
  declared-seed (d ∷ dummies) cfgs zero p h = (λ e. cc e, cc h)
  declared-seed (d ∷ dummies) cfgs (suc i) p h = (λ e. cc e, (declared-seed dummies cfgs i p h).1)

  module _ (config : Config) where
    -- The state of each Bitwarden provider has a property that its index and configuration give.
    abbrev pub Slotted : (ℕ → BitwardenProviderConfig → Slot K C → Type 0) → (ℕ → Slot K C) → Type 0
    Slotted Q slots =
        (i : ℕ) (p : BitwardenProvider K C)
        → get_elem? (all_declared K C from_seed config) i ≡ some (bitwarden_provider p)
        → Q i p.config (slots i)

    -- In requests and in the wait for the gate, the other tasks of each Bitwarden provider leave its
    -- session one of its configuration.
    abbrev pub Respected : {W E : Type 0} → (ℕ → Net C W E) → Type 0
    Respected net =
        (i : ℕ) (p : BitwardenProvider K C)
        → get_elem? (all_declared K C from_seed config) i ≡ some (bitwarden_provider p)
        → Respects (net i) p.config

    same_config :
        (i j : ℕ) (p q : BitwardenProvider K C)
        → get_elem? (all_declared K C from_seed config) i ≡ some (bitwarden_provider p)
        → get_elem? (all_declared K C from_seed config) j ≡ some (bitwarden_provider q)
        → i ≡ j
        → p.config ≡ q.config
    same_config i j p q at at' e =
        let same : p ≡ q = cc (at, at', e) in ap (λ (r : BitwardenProvider K C). r.config) same

    pub put-Slotted :
        {W : Type 0} (Q : ℕ → BitwardenProviderConfig → Slot K C → Type 0) (i : ℕ)
        (p : BitwardenProvider K C) (slots : ℕ → Slot K C)
        (st : CacheCell (KeyPairSnapshot K) × (Option (BitwardenSession C) × W))
        → get_elem? (all_declared K C from_seed config) i ≡ some (bitwarden_provider p)
        → Slotted Q slots
        → Q i p.config (record { keys = st.0; session = st.1.0 })
        → Slotted Q (put K C i slots st).0
    put-Slotted Q i p slots (keys, (session, w)) at h new j q at' = elim (Bool-cases (i == j)) [
      | inl e ↦ rw e (
          let same = (==_iff i j).0 e in
          let slot : Slot K C = record { keys = keys; session = session } in
          subst (λ (c : BitwardenProviderConfig). Q j c slot) (same_config i j p q at at' same)
            (subst (λ n. Q n p.config slot) same new))
      | inr e ↦ rw e (h j q at')
    ]

    -- The agent that `load` returns has good providers, if each provider that is declared is good
    -- at its index.
    pub load-Supplies :
        {W V E F : Type 0} (Inv : V → Type 0) (Good : K.PrivateKey → Type 0)
        (read_to_string : Text → Run W E Text) (from_toml : Text → Option Config)
        (attach : ℕ → Provider K C → KeyPairProvider K V F) (agent : ServiceAgent K V F)
        (path source : Text) (w w' : W)
        → ((i : ℕ) (p : Provider K C)
            → get_elem? (all_declared K C from_seed config) i ≡ some p
            → Supplies K Inv Good (attach i p))
        → read_to_string path w ≡ (ok source, w')
        → from_toml source ≡ some config
        → (load K C from_seed read_to_string from_toml attach path w).0 ≡ ok agent
        → All (Supplies K Inv Good) agent.providers
    load-Supplies Inv Good read_to_string from_toml attach agent path source w w' each h h' loaded =
        subst (All (Supplies K Inv Good))
          (sym (
            load-all_declared K C from_seed read_to_string from_toml attach agent path w w' source
              config h h' loaded))
          (attached-All attach (Supplies K Inv Good) (all_declared K C from_seed config) each)
