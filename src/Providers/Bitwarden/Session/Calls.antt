-- ===== src/Providers/Bitwarden/Session/Calls.antt =====
-- How many requests one sync sends, counted by a net that counts them.
use keyring_rs.Base.{ℕ, suc, ◌+◌, ◌≤◌, ◌≡◌, refl, inl, inr, Bool-cases, Option-cases, arith}
use keyring_rs.Base.Text.{Text}
use keyring_rs.Base.Result.{Done, Result, ok, err, Run, continue}
use keyring_rs.Base.Run.{change_error, change_error-keeps, continue-keeps, continue-leads}
use keyring_rs.Providers.Bitwarden.Config.{BitwardenProviderConfig}
use keyring_rs.Providers.Bitwarden.Models.{BitwardenSyncResponse}
use keyring_rs.Providers.Bitwarden.Auth.{
  BitwardenTokenSuccessResponse, token_request, transport, request_api_key_token, token_post,
}
use keyring_rs.Providers.Bitwarden.KeyStore.{Crypto, CryptoError}
use keyring_rs.Providers.Bitwarden.Session.{
  checked_add, State, stale, publish, ensure_crypto, login_with, request_token, login, renew, token,
  current_token, sync_get, request_sync, read_sync, answer,
}
use keyring_rs.Providers.Bitwarden.Session.Recording.{recorded}
use keyring_rs.Providers.Bitwarden.Net.{
  BitwardenSession, Net, SyncError, request_failed, body_failed, from_secs,
}

pub record Calls : Type 0 where
  pub posts : ℕ
  pub gets : ℕ

abbrev pub post_tick : Calls → Calls
post_tick c = record c { posts = suc c.posts }

abbrev pub get_tick : Calls → Calls
get_tick c = record c { gets = suc c.gets }

-- The same net, with a count of the requests of the one task whose code runs.
abbrev pub counted : {C : Crypto} {W E : Type 0} → Net C W E → Net C (W × Calls) E
counted net = recorded net (λ _. post_tick) (λ _. get_tick)

-- At most `p` posts and `g` gets more.
abbrev pub Within : ℕ → ℕ → Calls → Calls → Type 0
Within p g c c' = (c'.posts ≤ c.posts + p) × (c'.gets ≤ c.gets + g)

module _ {C : Crypto} {W E : Type 0} (net : Net C W E) where
  abbrev pub calls : State (counted net) → Calls
  calls st = st.1.1

  -- The bound on all calls since `c`.
  module _ (p g : ℕ) (c : Calls) where
    abbrev pub Spent : ℕ → ℕ → State (counted net) → Type 0
    Spent more_posts more_gets st = Within (p + more_posts) (g + more_gets) c (calls st)

    request_token-calls :
        (config : BitwardenProviderConfig) (st : State (counted net))
        → Spent 0 0 st
        → Spent 1 0 (request_token (counted net) config st).1
    unfolding request_token request_api_key_token
    request_token-calls config (s, (w, c')) h =
        let post =
          token_post (counted net).http CryptoError s.id config.client_id config.client_secret in
        continue-keeps (Spent 1 0)
          (change_error (λ error. token_request (transport error))
            ((counted net).http.post post (s, (w, c'))))
          _
          (change_error-keeps (Spent 1 0) _ ((counted net).http.post post (s, (w, c')))
            (omega (arith, h.0), omega (arith, h.1)))
          (λ response st k.
            continue-keeps (Spent 1 0)
              (change_error (λ error. token_request (transport error))
                ((counted net).http.bytes response st))
              _ (change_error-keeps (Spent 1 0) _ ((counted net).http.bytes response st) k)
              (λ body st' k'. k'))

    publish-calls :
        (response : BitwardenTokenSuccessResponse) (exp : ℕ) (s : BitwardenSession C)
        (w : W × Calls) (r : Result CryptoError Done × C.Store)
        → calls (publish (counted net) response exp s w r).1 ≡ w.1
    unfolding publish
    publish-calls response exp s w (ok u, store) = refl
    publish-calls response exp s w (err e, store) = refl

    login_with-calls :
        (config : BitwardenProviderConfig) (response : BitwardenTokenSuccessResponse)
        (st : State (counted net))
        → calls (login_with (counted net) config response st).1 ≡ calls st
    unfolding login_with
    login_with-calls config response (s, w) =
        elim (Option-cases
          (checked_add net.instant_max (net.now w.0) (from_secs response.expires_in))) [
            | inl e ↦ rw (login_with, e) refl
            | inr (exp, e) ↦
                rw (login_with, e)
                  (publish-calls response exp s w (ensure_crypto (counted net) config response s))
          ]

    pub login-calls :
        (config : BitwardenProviderConfig) (st : State (counted net))
        → Spent 0 0 st
        → Spent 1 0 (login (counted net) config st).1
    unfolding login
    login-calls config st h =
        continue-keeps (Spent 1 0) (request_token (counted net) config st)
          (login_with (counted net) config) (request_token-calls config st h)
          (λ response st' k. rw (login_with-calls config response st') k)

    renew-calls :
        (config : BitwardenProviderConfig) (st : State (counted net))
        → Spent 0 0 st
        → Spent 1 0 (renew (counted net) config st).1
    unfolding renew
    renew-calls config st h = elim (Bool-cases (stale (counted net) st)) [
      | inl e ↦ rw (renew, e) (login-calls config st h)
      | inr e ↦ rw (renew, e) (omega (arith, h.0), h.1)
    ]

    pub token-calls :
        (config : BitwardenProviderConfig) (st : State (counted net))
        → Spent 0 0 st
        → Spent 1 0 (token (counted net) config st).1
    unfolding token
    token-calls config st h = elim (Bool-cases (stale (counted net) st)) [
      | inl e ↦ rw (token, e) (renew-calls config ((counted net).gate st) h)
      | inr e ↦ rw (token, e) (omega (arith, h.0), h.1)
    ]

    pub read_sync-calls :
        (response : net.http.Response) (st : State (counted net))
        → Spent 0 0 st
        → Spent 0 0 (read_sync (counted net) response st).1
    unfolding read_sync
    read_sync-calls response st h =
        continue-keeps (Spent 0 0) (change_error body_failed ((counted net).http.bytes response st))
          _ (change_error-keeps (Spent 0 0) body_failed ((counted net).http.bytes response st) h)
          (λ body st' k. k)

    -- One attempt: a get, and what its answer leads to.
    pub attempt-calls :
        (Q : State (counted net) → Type 0)
        (next : Run (State (counted net)) (SyncError E) BitwardenSyncResponse) (attempt : ℕ)
        (config : BitwardenProviderConfig)
        → ((st : State (counted net)) → Spent 0 1 st → Q st)
        → ((rejected : Text) (response : net.http.Response) (st : State (counted net))
            → Spent 0 1 st
            → Q (answer (counted net) next attempt config rejected response st).1)
        → (st : State (counted net)) → Spent 0 0 st
        → Q
            (continue (current_token (counted net) st) (λ bearer st'.
              continue
                (request_sync (counted net) bearer st')
                (answer (counted net) next attempt config bearer))).1
    unfolding request_sync
    attempt-calls Q next attempt config weak k (s, w) h =
        continue-leads (Spent 0 0) Q (current_token (counted net) (s, w)) _ h
          (λ st' k'. weak st' (k'.0, omega (arith, k'.1)))
          (λ bearer (s', w') k'.
            continue-leads (Spent 0 1) Q
              (change_error request_failed
                ((counted net).http.get (sync_get (counted net) s'.api bearer) (s', w')))
              _
              (change_error-keeps (Spent 0 1) request_failed
                ((counted net).http.get (sync_get (counted net) s'.api bearer) (s', w'))
                (k'.0, omega (arith, k'.1)))
              weak (k bearer))
