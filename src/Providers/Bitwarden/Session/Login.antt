-- ===== src/Providers/Bitwarden/Session/Login.antt =====
-- What holds of a session at any time, other tasks at work or not.
use keyring_rs.Base.{ℕ, ◌≡◌, refl, ◌∙◌, ap, inl, inr, true, Bool-cases, if◌then◌else◌, Option-cases}
use keyring_rs.Base.Result.{Done, Result, ok, err}
use keyring_rs.Base.Run.{change_error, change_error-keeps, continue-keeps}
use keyring_rs.Providers.Bitwarden.Config.{BitwardenProviderConfig}
use keyring_rs.Providers.Bitwarden.Auth.{
  BitwardenTokenSuccessResponse, token_request, transport, TokenPost, SyncGet,
  request_api_key_token, token_post,
}
use keyring_rs.Providers.Bitwarden.KeyStore.{Crypto, CryptoError, user}
use keyring_rs.Providers.Bitwarden.Crypto.Store.{is_some, KeyView, StoreLaws}
use keyring_rs.Providers.Bitwarden.Crypto.Bootstrap.{is_ok, initialize_user_crypto-has_user}
use keyring_rs.Providers.Bitwarden.Session.{
  checked_add, State, publish, ensure_crypto, login_with, request_token, login,
}
use keyring_rs.Providers.Bitwarden.Net.{BitwardenSession, Net, from_secs}

-- A token has an expiry and a bootstrapped store; a bootstrapped store has the user key.
pub record IsSession {C : Crypto} (view : KeyView C) (s : BitwardenSession C) : Type 0 where
  pub token_exp : is_some s.state.token ≡ is_some s.state.exp
  pub token_crypto : is_some s.state.token ≡ true → s.state.crypto ≡ true
  pub crypto_user : s.state.crypto ≡ true → is_some (view.find user s.store) ≡ true

-- Other tasks, which run during the requests of this one and while it waits for the gate, keep the
-- session in order too.
pub record Rely {C : Crypto} {W E : Type 0} (net : Net C W E) (view : KeyView C) : Type 0 where
  pub post-IsSession :
      (p : TokenPost) (st : BitwardenSession C × W)
      → IsSession view st.0
      → IsSession view (net.http.post p st).1.0
  pub get-IsSession :
      (g : SyncGet) (st : BitwardenSession C × W)
      → IsSession view st.0
      → IsSession view (net.http.get g st).1.0
  pub bytes-IsSession :
      (r : net.http.Response) (st : BitwardenSession C × W)
      → IsSession view st.0
      → IsSession view (net.http.bytes r st).1.0
  pub gate-IsSession :
      (st : BitwardenSession C × W) → IsSession view st.0 → IsSession view (net.gate st).0

module _ {C : Crypto} {W E : Type 0} (net : Net C W E) (view : KeyView C) (laws : StoreLaws C view)
    (rely : Rely net view) where
  abbrev Holds : State net → Type 0
  Holds st = IsSession view st.0

  publish-IsSession :
      (response : BitwardenTokenSuccessResponse) (exp : ℕ) (s : BitwardenSession C) (w : W)
      (r : Result CryptoError Done × C.Store)
      → IsSession view s
      → (is_ok r.0 ≡ true → is_some (view.find user r.1) ≡ true)
      → (s.state.crypto ≡ true → is_some (view.find user r.1) ≡ true)
      → Holds (publish net response exp s w r).1
  unfolding publish
  publish-IsSession response exp s w (ok u, store) h done old = record {
    token_exp = refl;
    token_crypto = λ _. refl;
    crypto_user = λ _. done refl;
  }
  publish-IsSession response exp s w (err e, store) h done old = record {
    token_exp = h.token_exp;
    token_crypto = h.token_crypto;
    crypto_user = old;
  }

  ensured-IsSession :
      (config : BitwardenProviderConfig) (response : BitwardenTokenSuccessResponse) (exp : ℕ)
      (s : BitwardenSession C) (w : W)
      → IsSession view s
      → Holds (publish net response exp s w (ensure_crypto net config response s)).1
  ensured-IsSession config response exp s w h = elim (Bool-cases s.state.crypto) [
    | inl e ↦
        publish-IsSession response exp s w (ensure_crypto net config response s) h
          (λ _. rw e (h.crypto_user e)) (λ _. rw e (h.crypto_user e))
    | inr e ↦
        publish-IsSession response exp s w (ensure_crypto net config response s) h
          (rw e (λ o.
            (initialize_user_crypto-has_user C view laws config.password response s.store).0
            ∙ ap (λ b. if b then true else is_some (view.find user s.store)) o))
          (λ c. cc (c, e))
  ]

  login_with-IsSession :
      (config : BitwardenProviderConfig) (response : BitwardenTokenSuccessResponse) (st : State net)
      → Holds st
      → Holds (login_with net config response st).1
  unfolding login_with
  login_with-IsSession config response (s, w) h =
      elim (Option-cases
        (checked_add net.instant_max (net.now w) (from_secs response.expires_in))) [
          | inl e ↦ rw (login_with, e) h
          | inr (exp, e) ↦ rw (login_with, e) (ensured-IsSession config response exp s w h)
        ]

  request_token-IsSession :
      (config : BitwardenProviderConfig) (st : State net)
      → Holds st
      → Holds (request_token net config st).1
  unfolding request_token request_api_key_token
  request_token-IsSession config (s, w) h =
      let p = token_post net.http CryptoError s.id config.client_id config.client_secret in
      continue-keeps Holds
        (change_error (λ error. token_request (transport error)) (net.http.post p (s, w))) _
        (change_error-keeps Holds _ (net.http.post p (s, w)) (rely.post-IsSession p (s, w) h))
        (λ response st k.
          continue-keeps Holds
            (change_error (λ error. token_request (transport error)) (net.http.bytes response st)) _
            (change_error-keeps Holds _ (net.http.bytes response st)
              (rely.bytes-IsSession response st k))
            (λ body st' k'. k'))

  pub login-IsSession :
      (config : BitwardenProviderConfig) (st : State net) → Holds st → Holds (login net config st).1
  unfolding login
  login-IsSession config st h =
      continue-keeps Holds (request_token net config st) (login_with net config)
        (request_token-IsSession config st h) (login_with-IsSession config)
