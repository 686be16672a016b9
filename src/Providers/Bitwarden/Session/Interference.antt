-- ===== src/Providers/Bitwarden/Session/Interference.antt =====
-- What is relied on of the other tasks of a session holds where they run the code of the session.
use keyring_rs.Base.{◌≡◌, sym, subst, List, [], ◌∷◌}
use keyring_rs.Providers.Bitwarden.Config.{BitwardenProviderConfig}
use keyring_rs.Providers.Bitwarden.Auth.{TokenPost, SyncGet}
use keyring_rs.Providers.Bitwarden.KeyStore.{Crypto}
use keyring_rs.Providers.Bitwarden.Crypto.Store.{KeyView, StoreLaws}
use keyring_rs.Providers.Bitwarden.Session.{sync}
use keyring_rs.Providers.Bitwarden.Net.{BitwardenSession, Net}
use keyring_rs.Providers.Bitwarden.Session.Login.{IsSession, Rely}
use keyring_rs.Providers.Bitwarden.Session.Order.{sync-IsSession}

module _ {C : Crypto} {W E : Type 0} where
  -- The network alone does not change a session.
  pub record IsIsolated (net : Net C W E) : Type 0 where
    pub post : (p : TokenPost) (st : BitwardenSession C × W) → (net.http.post p st).1.0 ≡ st.0
    pub get : (g : SyncGet) (st : BitwardenSession C × W) → (net.http.get g st).1.0 ≡ st.0
    pub bytes :
        (r : net.http.Response) (st : BitwardenSession C × W) → (net.http.bytes r st).1.0 ≡ st.0
    pub gate : (st : BitwardenSession C × W) → (net.gate st).0 ≡ st.0

  -- Another task syncs before each request, each body and each wait for the gate.
  abbrev pub beside : BitwardenProviderConfig → Net C W E → Net C W E
  beside config net = record net {
    http = record net.http {
      post = λ p st. net.http.post p (sync net config st).1;
      get = λ g st. net.http.get g (sync net config st).1;
      bytes = λ r st. net.http.bytes r (sync net config st).1;
    };
    gate = λ st. net.gate (sync net config st).1;
  }

  -- As many other tasks as there are configurations, each beside the ones after it.
  abbrev pub beside_all : List BitwardenProviderConfig → Net C W E → Net C W E
  beside_all [] net = net
  beside_all (config ∷ configs) net = beside config (beside_all configs net)

  module _ (view : KeyView C) (laws : StoreLaws C view) where
    IsIsolated-Rely : (net : Net C W E) → IsIsolated net → Rely net view
    IsIsolated-Rely net alone = record {
      post-IsSession = λ p st h. subst (IsSession view) (sym (alone.post p st)) h;
      get-IsSession = λ g st h. subst (IsSession view) (sym (alone.get g st)) h;
      bytes-IsSession = λ r st h. subst (IsSession view) (sym (alone.bytes r st)) h;
      gate-IsSession = λ st h. subst (IsSession view) (sym (alone.gate st)) h;
    }

    beside-Rely :
        (net : Net C W E) (config : BitwardenProviderConfig)
        → Rely net view
        → Rely (beside config net) view
    beside-Rely net config rely = record {
      post-IsSession = λ p st h.
          rely.post-IsSession p (sync net config st).1
            (sync-IsSession net view laws rely config st h);
      get-IsSession = λ g st h.
          rely.get-IsSession g (sync net config st).1
            (sync-IsSession net view laws rely config st h);
      bytes-IsSession = λ r st h.
          rely.bytes-IsSession r (sync net config st).1
            (sync-IsSession net view laws rely config st h);
      gate-IsSession = λ st h.
          rely.gate-IsSession (sync net config st).1
            (sync-IsSession net view laws rely config st h);
    }

    -- Whatever number of tasks sync the same session at the awaits of one another, what each relies on
    -- holds.
    pub beside_all-Rely :
        (net : Net C W E) (configs : List BitwardenProviderConfig)
        → IsIsolated net
        → Rely (beside_all configs net) view
    beside_all-Rely net [] alone = IsIsolated-Rely net alone
    beside_all-Rely net (config ∷ configs) alone =
        beside-Rely (beside_all configs net) config (beside_all-Rely net configs alone)

    -- So a sync keeps the session in order with any number of such tasks at work.
    pub sync_beside-IsSession :
        (net : Net C W E) (configs : List BitwardenProviderConfig)
        (config : BitwardenProviderConfig) (st : BitwardenSession C × W)
        → IsIsolated net
        → IsSession view st.0
        → IsSession view (sync (beside_all configs net) config st).1.0
    sync_beside-IsSession net configs config st alone h =
        sync-IsSession (beside_all configs net) view laws (beside_all-Rely net configs alone) config
          st h
