-- ===== src/Cli/Config/Agent/Sharing.antt =====
-- The sessions of one agent share what its providers have loaded.
use keyring_rs.Base.{ℕ, suc, ◌<◌, ◌≡◌, refl, ◌∙◌, sym, ap, subst, List, [], ◌∷◌, ◌++◌, some, arith}
use keyring_rs.Base.Result.{Result, ok, err}
use keyring_rs.Base.Run.{
  change_error, change_error-ok, change_error-keeps, continue-elim, continue-keeps,
}
use keyring_rs.Base.Text.{Text}
use keyring_rs.Core.Provider.{SshKey, KeyPairSnapshot, KeyPairProvider}
use keyring_rs.Service.Index.{Index, extend}
use keyring_rs.Service.Session.{
  LoadError, provider_load_failed, ServiceSession, new_session, load_once, init_keys,
}
use keyring_rs.Service.Session.Loading.{collect, load_once-collect, indexed}
use keyring_rs.Providers.Bitwarden.KeyStore.{Crypto}
use keyring_rs.Providers.Bitwarden.Net.{Net}
use keyring_rs.Providers.Bitwarden.Provider.{FetchError}
use keyring_rs.Cli.Config.{Provider, dummy_provider, bitwarden_provider, attached}
use keyring_rs.Cli.Config.Agent.{Slot, World, Others, load_at, attach}
use keyring_rs.Cli.Config.Agent.Reuse.{Cached, Young, load_at-Cached, load_at_other, load_at_again}

module _ (K : SshKey) (C : Crypto) (show_uuid : ℕ → Text) {W E : Type 0} (net : ℕ → Net C W E)
    (others : Others K C show_uuid net) where
  -- No other task is at work between the loads of one session.
  abbrev pub Quiet : Type 0
  Quiet = (i : ℕ) (v : World K C W) → others.before i v ≡ v

  abbrev all_of : ℕ → List (Provider K C) → List (KeyPairProvider K (World K C W) (FetchError E))
  all_of = attached (attach K C show_uuid net others)

  -- All providers from an index on have their part of some keys in the caches.
  AllCached : ℕ → List (Provider K C) → KeyPairSnapshot K → (ℕ → Slot K C) → Type 0
  AllCached i [] keys slots = keys ≡ []
  AllCached i (p ∷ ps) keys slots =
      (ks : KeyPairSnapshot K) × (more : KeyPairSnapshot K) × (keys ≡ ks ++ more)
      × Cached K C show_uuid net i p ks slots
      × AllCached (suc i) ps more slots

  Cached-same :
      (i : ℕ) (p : Provider K C) (ks : KeyPairSnapshot K) (slots slots' : ℕ → Slot K C)
      → slots' i ≡ slots i
      → Cached K C show_uuid net i p ks slots
      → Cached K C show_uuid net i p ks slots'
  Cached-same i (dummy_provider p) ks slots slots' e c = c
  Cached-same i (bitwarden_provider p) ks slots slots' e c =
      (c.0, ap (λ (s : Slot K C). s.keys) e ∙ c.1)

  module _ (quiet : Quiet) where
    untouched :
        (i j : ℕ) (ps : List (Provider K C)) (v : World K C W)
        → j < i
        → (collect K i (all_of i ps) v).1.0 j ≡ v.0 j
    unfolding collect
    untouched i j [] v less = refl
    untouched i j (p ∷ ps) v less =
        let r = load_at K C show_uuid net others i p (others.before i v) in
        let own = change_error-keeps Same (provider_load_failed i) r (
          load_at_other K C show_uuid net others i j p (others.before i v)
            (λ e. omega (arith, e, less))
          ∙ ap (λ (u : World K C W). u.0 j) (quiet i v)) in
        continue-keeps Same (change_error (provider_load_failed i) r) _ own (λ ks st h.
          continue-keeps Same (collect K (suc i) (all_of (suc i) ps) st) _
            (untouched (suc i) j ps st (omega (arith, less)) ∙ h) (λ more st' k. k))
      where
        Same : World K C W → Type 0
        Same u = u.0 j ≡ v.0 j

    collect-AllCached :
        (i : ℕ) (ps : List (Provider K C)) (v : World K C W) (keys : KeyPairSnapshot K)
        → (collect K i (all_of i ps) v).0 ≡ ok keys
        → AllCached i ps keys (collect K i (all_of i ps) v).1.0
    unfolding collect AllCached
    collect-AllCached i [] v keys h = cc h
    collect-AllCached i (p ∷ ps) v keys given =
        let r = load_at K C show_uuid net others i p (others.before i v) in
        let loaded = change_error (provider_load_failed i) r in
        continue-elim Q loaded _
          (λ ks found.
            let q = change_error-ok (provider_load_failed i) r ks found in
            let c =
              subst (λ (u : World K C W). Cached K C show_uuid net i p ks u.0) (ap (λ t. t.1) q)
                (load_at-Cached K C show_uuid net others i p (others.before i v) ks
                  (ap (λ t. t.0) q)) in
            continue-elim Q (collect K (suc i) (all_of (suc i) ps) loaded.1) _
              (λ more found' keys h. (
                ks,
                more,
                cc h,
                Cached-same i p ks loaded.1.0 _ (untouched (suc i) i ps loaded.1 (omega arith)) c,
                collect-AllCached (suc i) ps loaded.1 more found',
              ))
              (λ e _ keys h. cc h))
          (λ e _ keys h. cc h) keys given
      where
        Q : Result (LoadError (FetchError E)) (KeyPairSnapshot K) × World K C W → Type 0
        Q t = (keys : KeyPairSnapshot K) → t.0 ≡ ok keys → AllCached i (p ∷ ps) keys t.1.0

    collect_again :
        (i : ℕ) (ps : List (Provider K C)) (v : World K C W) (keys : KeyPairSnapshot K)
        → AllCached i ps keys v.0
        → Young K C show_uuid net v
        → collect K i (all_of i ps) v ≡ (ok keys, v)
    unfolding collect AllCached
    collect_again i [] v keys c young = ap (λ ks. (ok ks, v)) (sym c)
    collect_again i (p ∷ ps) v keys c young =
        let again : load_at K C show_uuid net others i p (others.before i v) ≡ (ok c.0, v) =
          ap (load_at K C show_uuid net others i p) (quiet i v)
          ∙ load_at_again K C show_uuid net others i p v c.0 c.3 young in
        rw (again, collect_again (suc i) ps v c.1 c.4 young) (ap (λ ks. (ok ks, v)) (sym c.2))

    loaded_keys :
        (session s1 : ServiceSession K (World K C W) (FetchError E)) (m : Index K)
        (v1 : World K C W) (r : Result (LoadError (FetchError E)) (KeyPairSnapshot K) × World K C W)
        → init_keys K session (indexed K [] r) ≡ (ok m, (s1, v1))
        → (keys : KeyPairSnapshot K) × (r ≡ (ok keys, v1)) × (m ≡ extend K [] keys)
    loaded_keys session s1 m v1 (ok keys, v) h = (keys, cc h, cc h)
    loaded_keys session s1 m v1 (err e, v) h = cc h

    -- Once a session of an agent has loaded its keys, every other session of the agent that loads
    -- while the cached snapshots are younger than an hour gets the same index, and reaches neither the
    -- network nor the state of any provider, whatever has happened outside in between.
    pub load_once-shared :
        (ps : List (Provider K C)) (v v1 : World K C W)
        (s1 : ServiceSession K (World K C W) (FetchError E)) (m : Index K)
        → load_once K (new_session K (record { providers = all_of 0 ps }), v) ≡ (ok m, (s1, v1))
        → (w : W) → Young K C show_uuid net (v1.0, w)
        → (let session = new_session K (record { providers = all_of 0 ps }) in
            load_once K (session, (v1.0, w))
            ≡ (ok m, (record session { keys = some m }, (v1.0, w))))
    unfolding new_session
    load_once-shared ps v v1 s1 m h w young =
        let session = new_session K (record { providers = all_of 0 ps }) in
        let first =
          loaded_keys session s1 m v1 (collect K 0 (all_of 0 ps) v)
            (sym (load_once-collect K session v refl) ∙ h) in
        let cached =
          subst (λ (u : World K C W). AllCached 0 ps first.0 u.0) (ap (λ r. r.1) first.1)
            (collect-AllCached 0 ps v first.0 (ap (λ r. r.0) first.1)) in
        load_once-collect K session (v1.0, w) refl
        ∙ ap (λ r. init_keys K session (indexed K [] r))
            (collect_again 0 ps (v1.0, w) first.0 cached young)
        ∙ ap (λ m. (ok m, (record session { keys = some m }, (v1.0, w)))) (sym first.2)
