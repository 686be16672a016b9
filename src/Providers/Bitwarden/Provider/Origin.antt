-- ===== src/Providers/Bitwarden/Provider/Origin.antt =====
-- Where the keys of a load come from.
use keyring_rs.Base.{ℕ, ◌≡◌, subst, All, [], ◌∷◌, Option, none, some}
use keyring_rs.Base.Text.{Text}
use keyring_rs.Base.Result.{Result, ok, err, ok_or}
use keyring_rs.Base.Run.{change_error, change_error-ok, continue-elim}
use keyring_rs.Core.Provider.{SshKey, KeyPairSnapshot}
use keyring_rs.Core.Cell.{CacheCell}
use keyring_rs.Core.Cell.Laws.{
  Outcome, hit, waited, refreshed, not_refreshed, get_or_try_init-Outcome,
}
use keyring_rs.Providers.Bitwarden.Config.{BitwardenProviderConfig}
use keyring_rs.Providers.Bitwarden.Models.{BitwardenSyncResponse}
use keyring_rs.Providers.Bitwarden.Crypto.{or_empty}
use keyring_rs.Providers.Bitwarden.KeyStore.{Crypto}
use keyring_rs.Providers.Bitwarden.Session.{new, sync, init_orgs}
use keyring_rs.Providers.Bitwarden.Session.Provenance.{Traced, sync-Traced}
use keyring_rs.Providers.Bitwarden.Session.Confined.{Confined, Confines, Confined-Keeps}
use keyring_rs.Providers.Bitwarden.Provider.Keeping.{OfNew, fetch_keeps}
use keyring_rs.Providers.Bitwarden.Provider.Confinement.{
  ConfinedCell, new-Confined, Confined-RefreshKeeps,
}
use keyring_rs.Providers.Bitwarden.Net.{BitwardenSession, Net, SyncError}
use keyring_rs.Providers.Bitwarden.Provider.{
  FetchError, session_failed, missing_profile, organizations_failed, refresh, with_session, fetch,
  cache_ttl, Loading, load_bitwarden,
}
use keyring_rs.Providers.Bitwarden.Provider.Held.{Held, discover-Held}

module _ (K : SshKey) (C : Crypto) (show_uuid : ℕ → Text) where
  module _ {W E : Type 0} (net : Net C W E) (config : BitwardenProviderConfig) where
    -- A session of the configuration.
    abbrev pub Own : BitwardenSession C × W → Type 0
    Own = Confined net net config (λ w. Unit {0})

    abbrev pub OwnOrNone : Option (BitwardenSession C) × W → Type 0
    OwnOrNone = ConfinedCell net net config (λ w. Unit {0})

    -- A key of a live SSH item, in a vault that a session of the configuration was answered.
    pub record Genuine (k : K.PrivateKey) : Type 0 where
      pub vault : BitwardenSyncResponse
      pub traced : Traced net Own vault
      pub held : Held K C show_uuid (or_empty vault.ciphers) k

    All-Genuine :
        (vault : BitwardenSyncResponse) (ks : KeyPairSnapshot K)
        → Traced net Own vault
        → All (Held K C show_uuid (or_empty vault.ciphers)) ks
        → All Genuine ks
    All-Genuine vault [] a t = tt
    All-Genuine vault (k ∷ ks) a t =
        (record { vault = vault; traced = a; held = t.0 }, All-Genuine vault ks a t.1)

    abbrev pub Yields : {S : Type 0} → Result (FetchError E) (KeyPairSnapshot K) × S → Type 0
    Yields r = (ks : KeyPairSnapshot K) → r.0 ≡ ok ks → All Genuine ks

    -- The cache of a provider is empty, or holds keys of that origin.
    abbrev pub IsStocked : CacheCell (KeyPairSnapshot K) → Type 0
    IsStocked none = Unit
    IsStocked (some (ks, at)) = All Genuine ks

    -- The cells of a provider: genuine keys, and a session of the configuration, if any.
    abbrev pub Orderly : Loading K C show_uuid net config → Type 0
    Orderly st = IsStocked st.0 × OwnOrNone st.1

    cached-Genuine :
        (cell : CacheCell (KeyPairSnapshot K)) (ks : KeyPairSnapshot K) (at : ℕ)
        → IsStocked cell
        → cell ≡ some (ks, at)
        → All Genuine ks
    cached-Genuine none ks at h e = cc e
    cached-Genuine (some (js, t)) ks at h e = subst (All Genuine) (cc e) h

    module _ (confines : Confines net net config (λ w. Unit {0})) where
      refresh-Yields :
          (st : BitwardenSession C × W) → Own st → Yields (refresh K C show_uuid net config st)
      unfolding refresh
      refresh-Yields st own =
          let synced = change_error session_failed (sync net config st) in
          continue-elim Yields synced _
            (λ vault h.
              let q = change_error-ok session_failed (sync net config st) vault h in
              let traced =
                sync-Traced net Own config (Confined-Keeps net net config (λ w. Unit {0}) confines)
                  st own vault (cc q) in
              continue-elim Yields (ok_or vault.profile missing_profile, synced.1) _
                (λ profile _.
                  let imported =
                    change_error organizations_failed (init_orgs net profile synced.1) in
                  continue-elim Yields imported _
                    (λ u _ ks found. All-Genuine vault ks traced (
                      subst (All (Held K C show_uuid (or_empty vault.ciphers))) (cc found)
                        (discover-Held K C show_uuid (or_empty vault.ciphers) imported.1.0.store)))
                    (λ e _ ks found. cc found))
                (λ e _ ks found. cc found))
            (λ e _ ks found. cc found)

      with_session-Yields :
          (r : Result (SyncError E) (BitwardenSession C) × W)
          → OfNew Own (λ w. Unit {0}) r
          → Yields (with_session K C show_uuid net config r)
      unfolding with_session
      with_session-Yields (ok s, w) h = refresh-Yields (s, w) h
      with_session-Yields (err e, w) h = λ ks found. cc found

      fetch-Yields :
          (st : Option (BitwardenSession C) × W)
          → OwnOrNone st
          → Yields (fetch K C show_uuid net config st)
      unfolding fetch
      fetch-Yields (none, w) h =
          with_session-Yields (new net config w)
            (new-Confined net net config (λ w. Unit {0}) K show_uuid confines w tt)
      fetch-Yields (some s, w) h = refresh-Yields (s, w) h

      fetch-Own :
          (st : Option (BitwardenSession C) × W)
          → OwnOrNone st
          → OwnOrNone (fetch K C show_uuid net config st).1
      fetch-Own =
          fetch_keeps K C show_uuid net config Own (λ w. Unit {0})
            (Confined-RefreshKeeps net net config (λ w. Unit {0}) K show_uuid confines)

      module _ (acquire : Loading K C show_uuid net config → Loading K C show_uuid net config)
          (waits : (st : Loading K C show_uuid net config)
            → Orderly st
            → Orderly (acquire st)) where
        Outcome-Genuine :
            (cell : CacheCell (KeyPairSnapshot K)) (st : Option (BitwardenSession C) × W)
            (r : Result (FetchError E) (KeyPairSnapshot K) × Loading K C show_uuid net config)
            → Orderly (cell, st)
            → Outcome
                (λ st. net.now st.1)
                acquire
                (cache_ttl K C show_uuid net config)
                (fetch K C show_uuid net config)
                cell
                st
                r
            → Orderly r.1 × Yields r
        Outcome-Genuine cell st _ h (hit a f) =
            (h, λ ks found. subst (All Genuine) (cc found) (cached-Genuine cell a f.0 h.0 f.1))
        Outcome-Genuine cell st _ h (waited a locked v s q f) =
            let h' = subst Orderly q (waits (cell, st) h) in
            (h', λ ks found. subst (All Genuine) (cc found) (cached-Genuine locked a f.0 h'.0 f.1))
        Outcome-Genuine cell st _ h (refreshed a locked v u s q s' q') =
            let h' = subst Orderly q (waits (cell, st) h) in
            let fetched = fetch-Yields v h'.1 a (cc q') in
            let own = subst (λ t. OwnOrNone t.1) q' (fetch-Own v h'.1) in
            ((fetched, own), λ ks found. subst (All Genuine) (cc found) fetched)
        Outcome-Genuine cell st _ h (not_refreshed e locked v u s q s' q') =
            let h' = subst Orderly q (waits (cell, st) h) in
            ((h'.0, subst (λ t. OwnOrNone t.1) q' (fetch-Own v h'.1)), λ ks found. cc found)

        -- Whichever way a load ends, it leaves the cells of the provider in order, and the keys that it
        -- returns are genuine.
        pub load_bitwarden-Genuine :
            (st : Loading K C show_uuid net config)
            → Orderly st
            → Orderly (load_bitwarden K C show_uuid net config acquire st).1
              × Yields (load_bitwarden K C show_uuid net config acquire st)
        unfolding load_bitwarden
        load_bitwarden-Genuine (cell, st) h =
            Outcome-Genuine cell st (load_bitwarden K C show_uuid net config acquire (cell, st)) h (
              get_or_try_init-Outcome (λ st. net.now st.1) acquire
                (cache_ttl K C show_uuid net config) (fetch K C show_uuid net config) cell st)
