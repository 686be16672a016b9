-- ===== src/Cli/Config/Agent/Reuse.antt =====
-- What one session has loaded serves the sessions after it for an hour.
use mathlib.Core.Path.{fun_ext}
use keyring_rs.Base.{
  ℕ, ◌<◌, ◌*◌, ◌-◌, ◌≡◌, ◌≢◌, refl, ◌∙◌, sym, ap, inl, inr, Bool-cases, ==_iff, ==_refl, Option,
  some, ◌==◌, if◌then◌else◌,
}
use keyring_rs.Base.Text.{Text}
use keyring_rs.Base.Result.{Result, ok}
use keyring_rs.Core.Provider.{SshKey, KeyPairSnapshot}
use keyring_rs.Core.Cell.{CacheCell}
use keyring_rs.Core.Cell.Laws.{
  IsFresh, Outcome, hit, waited, refreshed, not_refreshed, get_or_try_init-Outcome, get_fresh,
}
use keyring_rs.Providers.Dummy.{load_dummy}
use keyring_rs.Providers.Bitwarden.Config.{BitwardenProviderConfig}
use keyring_rs.Providers.Bitwarden.KeyStore.{Crypto}
use keyring_rs.Providers.Bitwarden.Net.{BitwardenSession, Net, from_secs}
use keyring_rs.Providers.Bitwarden.Provider.{FetchError, Loading, cache_ttl, fetch, load_bitwarden}
use keyring_rs.Cli.Config.{Provider, dummy_provider, bitwarden_provider}
use keyring_rs.Cli.Config.Agent.{Slot, World, put, Others, load_at}

module _ (K : SshKey) (C : Crypto) (show_uuid : ℕ → Text) {W E : Type 0} (net : Net C W E) where
  module _ (config : BitwardenProviderConfig)
      (acquire : Loading K C show_uuid net config → Loading K C show_uuid net config) where
    -- The cache holds what a load has returned.
    Outcome-cached :
        (cell : CacheCell (KeyPairSnapshot K)) (st : Option (BitwardenSession C) × W)
        (r : Result (FetchError E) (KeyPairSnapshot K) × Loading K C show_uuid net config)
        (ks : KeyPairSnapshot K)
        → Outcome
            (λ st. net.now st.1)
            acquire
            (cache_ttl K C show_uuid net config)
            (fetch K C show_uuid net config)
            cell
            st
            r
        → r.0 ≡ ok ks
        → (at : ℕ) × (r.1.0 ≡ some (ks, at))
    Outcome-cached cell st _ ks (hit a f) h = (f.0, cc (f.1, h))
    Outcome-cached cell st _ ks (waited a locked v s q f) h = (f.0, cc (f.1, h))
    Outcome-cached cell st _ ks (refreshed a locked v u s q s' q') h = (net.now u.1, cc h)
    Outcome-cached cell st _ ks (not_refreshed e locked v u s q s' q') h = cc h

    load_bitwarden-cached :
        (st : Loading K C show_uuid net config) (ks : KeyPairSnapshot K)
        → (load_bitwarden K C show_uuid net config acquire st).0 ≡ ok ks
        → (at : ℕ) × ((load_bitwarden K C show_uuid net config acquire st).1.0 ≡ some (ks, at))
    unfolding load_bitwarden
    load_bitwarden-cached (cell, st) ks =
        Outcome-cached cell st (load_bitwarden K C show_uuid net config acquire (cell, st)) ks (
          get_or_try_init-Outcome (λ st. net.now st.1) acquire (cache_ttl K C show_uuid net config)
            (fetch K C show_uuid net config) cell st)

    load_bitwarden-fresh :
        (cell : CacheCell (KeyPairSnapshot K)) (st : Option (BitwardenSession C) × W)
        (ks : KeyPairSnapshot K)
        → IsFresh (cache_ttl K C show_uuid net config) (net.now st.1) cell ks
        → load_bitwarden K C show_uuid net config acquire (cell, st) ≡ (ok ks, (cell, st))
    unfolding load_bitwarden
    load_bitwarden-fresh cell st ks f =
        get_fresh (λ st. net.now st.1) acquire (cache_ttl K C show_uuid net config)
          (fetch K C show_uuid net config) cell st f

module _ (K : SshKey) (C : Crypto) (show_uuid : ℕ → Text) {W E : Type 0} (net : ℕ → Net C W E) where
  -- What a provider at an index has returned, and would return again.
  abbrev pub Cached : ℕ → Provider K C → KeyPairSnapshot K → (ℕ → Slot K C) → Type 0
  Cached i (dummy_provider p) ks slots = ks ≡ p.identities
  Cached i (bitwarden_provider p) ks slots = (at : ℕ) × ((slots i).keys ≡ some (ks, at))

  put_same :
      {X : Type 0} (i : ℕ) (slots : ℕ → Slot K C)
      (st : CacheCell (KeyPairSnapshot K) × (Option (BitwardenSession C) × X))
      → (put K C i slots st).0 i ≡ record { keys = st.0; session = st.1.0 }
  put_same i slots (keys, (session, w)) = rw (==_refl i) refl

  put_other :
      {X : Type 0} (i j : ℕ) (slots : ℕ → Slot K C)
      (st : CacheCell (KeyPairSnapshot K) × (Option (BitwardenSession C) × X))
      → i ≢ j
      → (put K C i slots st).0 j ≡ slots j
  put_other i j slots (keys, (session, w)) ne = elim (Bool-cases (i == j)) [
    | inl e ↦ absurd (ne ((==_iff i j).0 e))
    | inr e ↦ rw e refl
  ]

  put_back :
      (i : ℕ) (slots : ℕ → Slot K C) (w : W)
      → put K C i slots ((slots i).keys, ((slots i).session, w)) ≡ (slots, w)
  put_back i slots w = ap (λ slots. (slots, w)) (fun_ext same)
    where
      same :
          (j : ℕ)
          → (if i == j
              then record { keys = (slots i).keys; session = (slots i).session }
              else slots j)
            ≡ slots j
      same j = elim (Bool-cases (i == j)) [
        | inl e ↦ rw e (ap slots ((==_iff i j).0 e))
        | inr e ↦ rw e refl
      ]

  -- The caches that hold a snapshot are all younger than an hour.
  abbrev pub Young : World K C W → Type 0
  Young v =
      (i : ℕ) (ks : KeyPairSnapshot K) (at : ℕ)
      → (v.0 i).keys ≡ some (ks, at)
      → (net i).now v.1 - at < from_secs (60 * 60)

  module _ (others : Others K C show_uuid net) where
    pub load_at-Cached :
        (i : ℕ) (p : Provider K C) (v : World K C W) (ks : KeyPairSnapshot K)
        → (load_at K C show_uuid net others i p v).0 ≡ ok ks
        → Cached i p ks (load_at K C show_uuid net others i p v).1.0
    unfolding load_at load_dummy
    load_at-Cached i (dummy_provider p) v ks h = cc h
    load_at-Cached i (bitwarden_provider p) v ks h =
        let slot = v.0 i in
        let r =
          load_bitwarden K C show_uuid (net i) p.config (others.acquire i)
            (slot.keys, (slot.session, v.1)) in
        let c =
          load_bitwarden-cached K C show_uuid (net i) p.config (others.acquire i)
            (slot.keys, (slot.session, v.1)) ks h in
        (c.0, ap (λ (s : Slot K C). s.keys) (put_same i v.0 r.1) ∙ c.1)

    pub load_at_other :
        (i j : ℕ) (p : Provider K C) (v : World K C W)
        → i ≢ j
        → (load_at K C show_uuid net others i p v).1.0 j ≡ v.0 j
    unfolding load_at load_dummy
    load_at_other i j (dummy_provider p) v ne = refl
    load_at_other i j (bitwarden_provider p) v ne =
        let slot = v.0 i in
        put_other i j v.0
          (load_bitwarden K C show_uuid (net i) p.config (others.acquire i)
            (slot.keys, (slot.session, v.1))).1
          ne

    pub load_at_again :
        (i : ℕ) (p : Provider K C) (v : World K C W) (ks : KeyPairSnapshot K)
        → Cached i p ks v.0
        → Young v
        → load_at K C show_uuid net others i p v ≡ (ok ks, v)
    unfolding load_at load_dummy
    load_at_again i (dummy_provider p) v ks c young = ap (λ ks. (ok ks, v)) (sym c)
    load_at_again i (bitwarden_provider p) (slots, w) ks c young =
        rw
          (load_bitwarden-fresh K C show_uuid (net i) p.config (others.acquire i) (slots i).keys
            ((slots i).session, w) ks (c.0, c.1, young i ks c.0 c.1))
          (ap (λ v. (ok ks, v)) (put_back i slots w))
