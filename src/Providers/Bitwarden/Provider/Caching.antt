-- ===== src/Providers/Bitwarden/Provider/Caching.antt =====
-- Loading through the cache: the session of a provider stays in order.
use keyring_rs.Base.{ℕ, ◌≡◌, refl, ◌∙◌, sym, ap, Option, none, some, List}
use keyring_rs.Base.Text.{Text}
use keyring_rs.Base.Result.{Result, ok, err}
use keyring_rs.Base.Run.{change_error, continue-elim}
use keyring_rs.Core.Provider.{SshKey}
use keyring_rs.Providers.Bitwarden.Config.{BitwardenProviderConfig}
use keyring_rs.Providers.Bitwarden.Models.{BitwardenProfile, BitwardenCipher}
use keyring_rs.Providers.Bitwarden.KeyStore.{Crypto}
use keyring_rs.Providers.Bitwarden.Crypto.Store.{is_some, KeyView, StoreLaws, ReadLaws}
use keyring_rs.Providers.Bitwarden.Crypto.UserKey.{initialize_org_keys-user}
use keyring_rs.Providers.Bitwarden.Session.{new, init_orgs}
use keyring_rs.Providers.Bitwarden.Net.{
  connect_timeout, read_timeout, http_timeout, BitwardenSession, Net, SyncError, client_not_built,
  default_auth,
}
use keyring_rs.Providers.Bitwarden.Session.Login.{IsSession, Rely}
use keyring_rs.Providers.Bitwarden.Session.Order.{sync-IsSession}
use keyring_rs.Providers.Bitwarden.Provider.{discover_in, Loading, load_bitwarden}
use keyring_rs.Providers.Bitwarden.Provider.Keeping.{
  OfCell, OfNew, RefreshKeeps, load_bitwarden_keeps,
}
use keyring_rs.Providers.Bitwarden.Provider.Reading.{discover-keys_of}

-- The once-cell is empty, or holds a session in order.
abbrev pub IsCell : {C : Crypto} → KeyView C → Option (BitwardenSession C) → Type 0
IsCell view none = Unit
IsCell view (some s) = IsSession view s

module _ (K : SshKey) (C : Crypto) (show_uuid : ℕ → Text) {W E : Type 0} (net : Net C W E)
    (config : BitwardenProviderConfig) (view : KeyView C) (laws : StoreLaws C view)
    (reads : ReadLaws C) (rely : Rely net view) where
  abbrev Holds : BitwardenSession C × W → Type 0
  Holds st = IsSession view st.0

  init_orgs-IsSession :
      (profile : BitwardenProfile) (st : BitwardenSession C × W)
      → Holds st
      → Holds (init_orgs net profile st).1
  unfolding init_orgs
  init_orgs-IsSession profile (s, w) h = record {
    token_exp = h.token_exp;
    token_crypto = h.token_crypto;
    crypto_user = λ c. rw (initialize_org_keys-user C view laws profile s.store) (h.crypto_user c);
  }

  discover_in-IsSession :
      (ciphers : List BitwardenCipher) (st : BitwardenSession C × W)
      → Holds st
      → Holds (discover_in K C show_uuid net config ciphers st).1
  discover_in-IsSession ciphers (s, w) h = record {
    token_exp = h.token_exp;
    token_crypto = h.token_crypto;
    crypto_user = λ c. rw (discover-keys_of C reads s.store K show_uuid ciphers) (h.crypto_user c);
  }

  new-default_auth :
      (w : W) (s : BitwardenSession C) → (new net config w).0 ≡ ok s → s.state ≡ default_auth
  unfolding new
  new-default_auth w =
      continue-elim (λ r. (s : BitwardenSession C) → r.0 ≡ ok s → s.state ≡ default_auth)
        (change_error client_not_built
          (net.build_client connect_timeout read_timeout http_timeout w))
        _ (λ u _ s h. cc h) (λ e _ s h. cc h)

  default-IsSession : (s : BitwardenSession C) → s.state ≡ default_auth → IsSession view s
  default-IsSession s h = record {
    token_exp = ap (λ a. is_some a.token) h ∙ sym (ap (λ a. is_some a.exp) h);
    token_crypto = λ t. cc (t, h);
    crypto_user = λ c. cc (c, ap (λ a. a.crypto) h);
  }

  new-IsSession :
      (r : Result (SyncError E) (BitwardenSession C) × W)
      → ((s : BitwardenSession C) → r.0 ≡ ok s → s.state ≡ default_auth)
      → OfNew Holds (λ w. Unit) r
  new-IsSession (ok s, w) h = default-IsSession s (h s refl)
  new-IsSession (err e, w) h = tt

  IsSession-RefreshKeeps : RefreshKeeps K C show_uuid net config Holds (λ w. Unit)
  IsSession-RefreshKeeps = record {
    new_keeps = λ w u. new-IsSession (new net config w) (new-default_auth w);
    sync_keeps = sync-IsSession net view laws rely config;
    init_orgs_keeps = init_orgs-IsSession;
    discover_in_keeps = discover_in-IsSession;
  }

  IsCell-OfCell :
      (st : Option (BitwardenSession C) × W) → IsCell view st.0 → OfCell Holds (λ w. Unit) st
  IsCell-OfCell (none, w) h = h
  IsCell-OfCell (some s, w) h = h

  OfCell-IsCell :
      (st : Option (BitwardenSession C) × W) → OfCell Holds (λ w. Unit) st → IsCell view st.0
  OfCell-IsCell (none, w) h = h
  OfCell-IsCell (some s, w) h = h

  module _ (acquire : Loading K C show_uuid net config → Loading K C show_uuid net config) where
    -- A load of the provider, whichever way it ends, leaves its once-cell empty or with a session in
    -- order: a token has an expiry and a bootstrapped store, which has the user key. This holds with
    -- other tasks at work that keep to the same order.
    pub load_bitwarden-IsCell :
        ((st : Loading K C show_uuid net config)
          → IsCell view st.1.0
          → IsCell view (acquire st).1.0)
        → (st : Loading K C show_uuid net config) → IsCell view st.1.0
        → IsCell view (load_bitwarden K C show_uuid net config acquire st).1.1.0
    load_bitwarden-IsCell k st h =
        OfCell-IsCell (load_bitwarden K C show_uuid net config acquire st).1.1 (
          load_bitwarden_keeps K C show_uuid net config Holds (λ w. Unit) IsSession-RefreshKeeps
            acquire (λ st h. IsCell-OfCell (acquire st).1 (k st (OfCell-IsCell st.1 h))) st
            (IsCell-OfCell st.1 h))
