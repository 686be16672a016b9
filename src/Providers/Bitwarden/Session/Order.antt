-- ===== src/Providers/Bitwarden/Session/Order.antt =====
-- A sync keeps the session in order.
use keyring_rs.Base.{refl, inl, inr, Bool-cases, Option-cases}
use keyring_rs.Base.Text.{Text, text_eq}
use keyring_rs.Providers.Bitwarden.Config.{BitwardenProviderConfig}
use keyring_rs.Providers.Bitwarden.KeyStore.{Crypto}
use keyring_rs.Providers.Bitwarden.Crypto.Store.{KeyView, StoreLaws}
use keyring_rs.Providers.Bitwarden.Session.{invalidate, State, sync_get, sync}
use keyring_rs.Providers.Bitwarden.Net.{BitwardenSession, Net}
use keyring_rs.Providers.Bitwarden.Session.Keeping.{Keeps, sync_keeps}
use keyring_rs.Providers.Bitwarden.Session.Login.{IsSession, Rely, login-IsSession}

module _ {C : Crypto} (view : KeyView C) where
  invalidate-IsSession :
      (rejected : Text) (s : BitwardenSession C)
      → IsSession view s
      → IsSession view (record s { state = invalidate rejected s.state })
  unfolding invalidate
  invalidate-IsSession rejected s h = elim (Option-cases s.state.token) [
    | inl e ↦ rw (invalidate, e) h
    | inr (t, e) ↦ elim (Bool-cases (text_eq t rejected)) [
      | inl q ↦
          rw (invalidate, e, q)
            (record { token_exp = refl; token_crypto = λ i. cc i; crypto_user = h.crypto_user })
      | inr q ↦ rw (invalidate, e, q) h
    ]
  ]

module _ {C : Crypto} {W E : Type 0} (net : Net C W E) (view : KeyView C) (laws : StoreLaws C view)
    (rely : Rely net view) where
  IsSession-Keeps :
      (config : BitwardenProviderConfig) → Keeps net config (λ st. IsSession view st.0)
  IsSession-Keeps config = record {
    login_keeps = login-IsSession net view laws rely config;
    gate_keeps = rely.gate-IsSession;
    reject_keeps = λ rejected st h. invalidate-IsSession view rejected st.0 h;
    get_keeps = λ bearer st _ h. rely.get-IsSession (sync_get net st.0.api bearer) st h;
    bytes_keeps = rely.bytes-IsSession;
  }

  -- A sync keeps the session in order, however it ends and whatever other tasks do meanwhile within
  -- the same order: a token has an expiry and a bootstrapped store, and a store marked as bootstrapped
  -- has the user key.
  pub sync-IsSession :
      (config : BitwardenProviderConfig) (st : State net)
      → IsSession view st.0
      → IsSession view (sync net config st).1.0
  sync-IsSession config st h =
      sync_keeps net config (λ st. IsSession view st.0) (IsSession-Keeps config) st h
