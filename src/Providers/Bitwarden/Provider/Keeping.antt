-- ===== src/Providers/Bitwarden/Provider/Keeping.antt =====
-- What a load of the provider keeps: a property of its session and the world that the parts of a refresh
-- keep.
use keyring_rs.Base.{ℕ, subst, Option, none, some, List}
use keyring_rs.Base.Text.{Text}
use keyring_rs.Base.Result.{Result, ok, err, ok_or}
use keyring_rs.Base.Run.{change_error, change_error-keeps, continue-keeps}
use keyring_rs.Core.Provider.{SshKey, KeyPairSnapshot}
use keyring_rs.Core.Cell.{CacheCell}
use keyring_rs.Core.Cell.Laws.{
  Outcome, hit, waited, refreshed, not_refreshed, get_or_try_init-Outcome,
}
use keyring_rs.Providers.Bitwarden.Config.{BitwardenProviderConfig}
use keyring_rs.Providers.Bitwarden.Models.{BitwardenProfile, BitwardenCipher}
use keyring_rs.Providers.Bitwarden.Crypto.{or_empty}
use keyring_rs.Providers.Bitwarden.KeyStore.{Crypto}
use keyring_rs.Providers.Bitwarden.Session.{new, sync, init_orgs}
use keyring_rs.Providers.Bitwarden.Net.{BitwardenSession, Net, SyncError}
use keyring_rs.Providers.Bitwarden.Provider.{
  FetchError, session_failed, missing_profile, organizations_failed, discover_in, refresh,
  with_session, fetch, cache_ttl, Loading, load_bitwarden,
}

-- `Holds` is of a session, and `Idle` of the world while the once-cell is empty.
module _ {C : Crypto} {W : Type 0} (Holds : BitwardenSession C × W → Type 0)
    (Idle : W → Type 0) where
  abbrev pub OfCell : Option (BitwardenSession C) × W → Type 0
  OfCell (none, w) = Idle w
  OfCell (some s, w) = Holds (s, w)

  abbrev pub OfNew : {E : Type 0} → Result (SyncError E) (BitwardenSession C) × W → Type 0
  OfNew (ok s, w) = Holds (s, w)
  OfNew (err e, w) = Idle w

module _ (K : SshKey) (C : Crypto) (show_uuid : ℕ → Text) {W E : Type 0} (net : Net C W E)
    (config : BitwardenProviderConfig) (Holds : BitwardenSession C × W → Type 0)
    (Idle : W → Type 0) where
  pub record RefreshKeeps : Type 0 where
    pub new_keeps : (w : W) → Idle w → OfNew Holds Idle (new net config w)
    pub sync_keeps : (st : BitwardenSession C × W) → Holds st → Holds (sync net config st).1
    pub init_orgs_keeps :
        (profile : BitwardenProfile) (st : BitwardenSession C × W)
        → Holds st
        → Holds (init_orgs net profile st).1
    pub discover_in_keeps :
        (ciphers : List BitwardenCipher) (st : BitwardenSession C × W)
        → Holds st
        → Holds (discover_in K C show_uuid net config ciphers st).1

  module _ (keeps : RefreshKeeps) where
    refresh_keeps :
        (st : BitwardenSession C × W) → Holds st → Holds (refresh K C show_uuid net config st).1
    unfolding refresh
    refresh_keeps st h =
        continue-keeps Holds (change_error session_failed (sync net config st)) _
          (change_error-keeps Holds session_failed (sync net config st) (keeps.sync_keeps st h))
          (λ response st' k.
            continue-keeps Holds (ok_or response.profile missing_profile, st') _ k
              (λ profile st'' k'.
                continue-keeps Holds
                  (change_error organizations_failed (init_orgs net profile st'')) _
                  (change_error-keeps Holds organizations_failed (init_orgs net profile st'')
                    (keeps.init_orgs_keeps profile st'' k'))
                  (λ u. keeps.discover_in_keeps (or_empty response.ciphers))))

    with_session_keeps :
        (r : Result (SyncError E) (BitwardenSession C) × W)
        → OfNew Holds Idle r
        → OfCell Holds Idle (with_session K C show_uuid net config r).1
    unfolding with_session
    with_session_keeps (ok s, w) h = refresh_keeps (s, w) h
    with_session_keeps (err e, w) h = h

    pub fetch_keeps :
        (st : Option (BitwardenSession C) × W)
        → OfCell Holds Idle st
        → OfCell Holds Idle (fetch K C show_uuid net config st).1
    unfolding fetch
    fetch_keeps (none, w) h = with_session_keeps (new net config w) (keeps.new_keeps w h)
    fetch_keeps (some s, w) h = refresh_keeps (s, w) h

    module _ (acquire : Loading K C show_uuid net config → Loading K C show_uuid net config)
        (waits : (st : Loading K C show_uuid net config)
          → OfCell Holds Idle st.1
          → OfCell Holds Idle (acquire st).1) where
      Outcome-OfCell :
          (cell : CacheCell (KeyPairSnapshot K)) (st : Option (BitwardenSession C) × W)
          (r : Result (FetchError E) (KeyPairSnapshot K) × Loading K C show_uuid net config)
          → OfCell Holds Idle st
          → Outcome
              (λ st. net.now st.1)
              acquire
              (cache_ttl K C show_uuid net config)
              (fetch K C show_uuid net config)
              cell
              st
              r
          → OfCell Holds Idle r.1.1
      Outcome-OfCell cell st _ h (hit a f) = h
      Outcome-OfCell cell st _ h (waited a locked v s q f) =
          subst (λ t. OfCell Holds Idle t.1) q (waits (cell, st) h)
      Outcome-OfCell cell st _ h (refreshed a locked v u s q s' q') =
          subst (λ t. OfCell Holds Idle t.1) q'
            (fetch_keeps v (subst (λ t. OfCell Holds Idle t.1) q (waits (cell, st) h)))
      Outcome-OfCell cell st _ h (not_refreshed e locked v u s q s' q') =
          subst (λ t. OfCell Holds Idle t.1) q'
            (fetch_keeps v (subst (λ t. OfCell Holds Idle t.1) q (waits (cell, st) h)))

      -- What the parts of a refresh keep, a load keeps, whichever way it ends.
      pub load_bitwarden_keeps :
          (st : Loading K C show_uuid net config)
          → OfCell Holds Idle st.1
          → OfCell Holds Idle (load_bitwarden K C show_uuid net config acquire st).1.1
      unfolding load_bitwarden
      load_bitwarden_keeps (cell, st) h =
          Outcome-OfCell cell st (load_bitwarden K C show_uuid net config acquire (cell, st)) h (
            get_or_try_init-Outcome (λ st. net.now st.1) acquire
              (cache_ttl K C show_uuid net config) (fetch K C show_uuid net config) cell st)
