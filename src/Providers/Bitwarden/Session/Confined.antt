-- ===== src/Providers/Bitwarden/Session/Confined.antt =====
-- A sync sends each secret of its configuration to the server that it is for only.
use keyring_rs.Base.{ℕ, ◌≡◌, refl, ap, inl, inr, Option-cases}
use keyring_rs.Base.Result.{Done, Result, ok, err}
use keyring_rs.Base.Run.{change_error, change_error-keeps, continue-keeps, continue-elim}
use keyring_rs.Providers.Bitwarden.Config.{BitwardenProviderConfig}
use keyring_rs.Providers.Bitwarden.Auth.{
  BitwardenTokenSuccessResponse, token_request, transport, TokenPost, SyncGet, HttpConfiguration,
  token_post, request_api_key_token,
}
use keyring_rs.Providers.Bitwarden.Auth.Laws.{Granted, request_api_key_token-Granted}
use keyring_rs.Providers.Bitwarden.KeyStore.{Crypto, CryptoError}
use keyring_rs.Providers.Bitwarden.Session.{
  checked_add, State, publish, ensure_crypto, login_with, request_token, login, sync_get, sync,
}
use keyring_rs.Providers.Bitwarden.Session.Keeping.{Keeps, sync_keeps}
use keyring_rs.Providers.Bitwarden.Session.Confinement.{
  posted, got, Issued, Permitted, IsOwn, OfToken-some, invalidate-IsOwn,
}
use keyring_rs.Providers.Bitwarden.Net.{BitwardenSession, Net, from_secs}

module _ {C : Crypto} {W V E F : Type 0} (base : Net C V F) (net : Net C W E)
    (config : BitwardenProviderConfig) (Log : W → Type 0) where
  -- A session of the configuration, with tokens that were granted in `base`, and a property of the world.
  abbrev pub Confined : State net → Type 0
  Confined st = IsOwn base config st.0 × Log st.1

  -- Permitted requests, at the awaits of which other tasks may be at work, keep to that.
  pub record Confines : Type 0 where
    pub grants :
        (id : HttpConfiguration) (before after : State net) (token : BitwardenTokenSuccessResponse)
        → id.base_path ≡ config.identity_url
        → Granted net.http CryptoError id config.client_id config.client_secret before token after
        → Issued base config token.access_token
    pub post_keeps :
        (p : TokenPost) (st : State net)
        → Permitted base config (posted p)
        → Confined st
        → Confined (net.http.post p st).1
    pub get_keeps :
        (g : SyncGet) (st : State net)
        → Permitted base config (got g)
        → Confined st
        → Confined (net.http.get g st).1
    pub bytes_keeps :
        (r : net.http.Response) (st : State net) → Confined st → Confined (net.http.bytes r st).1
    pub gate_keeps : (st : State net) → Confined st → Confined (net.gate st)
    pub build_keeps :
        (connect read total : ℕ) (w : W) → Log w → Log (net.build_client connect read total w).1

  publish-Confined :
      (response : BitwardenTokenSuccessResponse) (exp : ℕ) (s : BitwardenSession C) (w : W)
      (r : Result CryptoError Done × C.Store)
      → Issued base config response.access_token
      → Confined (s, w)
      → Confined (publish net response exp s w r).1
  unfolding publish
  publish-Confined response exp s w (ok u, store) i h =
      (record { api_url = h.0.api_url; identity_url = h.0.identity_url; issued = i }, h.1)
  publish-Confined response exp s w (err e, store) i h =
      (record { api_url = h.0.api_url; identity_url = h.0.identity_url; issued = h.0.issued }, h.1)

  module _ (confines : Confines) where
    request_token-Confined :
        (st : State net) → Confined st → Confined (request_token net config st).1
    unfolding request_token request_api_key_token token_post
    request_token-Confined (s, w) h =
        let p = token_post net.http CryptoError s.id config.client_id config.client_secret in
        let sent = net.http.post p (s, w) in
        continue-keeps Confined (change_error (λ error. token_request (transport error)) sent) _
          (change_error-keeps Confined _ sent
            (confines.post_keeps p (s, w) (rw h.0.identity_url refl, refl) h))
          (λ response st k.
            let read = net.http.bytes response st in
            continue-keeps Confined (change_error (λ error. token_request (transport error)) read) _
              (change_error-keeps Confined _ read (confines.bytes_keeps response st k))
              (λ body st' k'. k'))

    request_token-Issued :
        (st : State net) (token : BitwardenTokenSuccessResponse)
        → Confined st
        → (request_token net config st).0 ≡ ok token
        → Issued base config token.access_token
    unfolding request_token
    request_token-Issued (s, w) token k h =
        let r =
          request_api_key_token net.http CryptoError s.id config.client_id config.client_secret
            (s, w) in
        confines.grants s.id (s, w) r.1 token k.0.identity_url
          ((request_api_key_token-Granted net.http CryptoError s.id config.client_id
              config.client_secret (s, w) r.1 token).0
            (ap (λ x. (x, r.1)) h))

    login_with-Confined :
        (response : BitwardenTokenSuccessResponse) (st : State net)
        → Issued base config response.access_token
        → Confined st
        → Confined (login_with net config response st).1
    unfolding login_with
    login_with-Confined response (s, w) i h =
        elim (Option-cases
          (checked_add net.instant_max (net.now w) (from_secs response.expires_in))) [
            | inl e ↦ rw (login_with, e) h
            | inr (exp, e) ↦
                rw (login_with, e)
                  (publish-Confined response exp s w (ensure_crypto net config response s) i h)
          ]

    login-Confined : (st : State net) → Confined st → Confined (login net config st).1
    unfolding login
    login-Confined st h =
        let r = request_token net config st in
        let k = request_token-Confined st h in
        continue-elim (λ r. Confined r.1) r (login_with net config)
          (λ token found. login_with-Confined token r.1 (request_token-Issued st token h found) k)
          (λ e _. k)

    pub Confined-Keeps : Keeps net config Confined
    unfolding sync_get
    Confined-Keeps = record {
      login_keeps = login-Confined;
      gate_keeps = confines.gate_keeps;
      reject_keeps = λ rejected st h. (invalidate-IsOwn base config rejected st.0 h.0, h.1);
      get_keeps = λ bearer st found h.
          confines.get_keeps (sync_get net st.0.api bearer) st
            (rw h.0.api_url refl, OfToken-some base config st.0.state.token bearer found h.0.issued)
            h;
      bytes_keeps = confines.bytes_keeps;
    }

    -- A sync keeps to that too, however it ends.
    pub sync-Confined : (st : State net) → Confined st → Confined (sync net config st).1
    sync-Confined = sync_keeps net config Confined Confined-Keeps
