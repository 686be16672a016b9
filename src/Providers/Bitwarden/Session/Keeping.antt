-- ===== src/Providers/Bitwarden/Session/Keeping.antt =====
-- What `token` and `sync` keep: a property of the session and the world that logins, requests and the
-- clearing of a rejected token keep.
use keyring_rs.Base.{ℕ, zero, suc, ◌≡◌, inl, inr, Bool-cases, ◌==◌, some}
use keyring_rs.Base.Text.{Text}
use keyring_rs.Base.Result.{Run, ok_or-eq-ok}
use keyring_rs.Base.Run.{change_error, change_error-keeps, continue-keeps, continue-elim}
use keyring_rs.Providers.Bitwarden.Config.{BitwardenProviderConfig}
use keyring_rs.Providers.Bitwarden.Models.{BitwardenSyncResponse}
use keyring_rs.Providers.Bitwarden.Auth.{is_success}
use keyring_rs.Providers.Bitwarden.KeyStore.{Crypto}
use keyring_rs.Providers.Bitwarden.Session.{
  State, stale, login, renew, token, current_token, sync_get, request_sync, retry, reject,
  read_sync, answer, attempts, sync, is_none,
}
use keyring_rs.Providers.Bitwarden.Net.{
  BitwardenSession, Net, SyncError, auth_failed, missing_token, request_failed, body_failed,
}

-- The parts of a sync that touch the session or the world keep the property, other tasks at work or not.
pub record Keeps {C : Crypto} {W E : Type 0} (net : Net C W E) (config : BitwardenProviderConfig)
    (Holds : BitwardenSession C × W → Type 0) : Type 0 where
  pub login_keeps : (st : BitwardenSession C × W) → Holds st → Holds (login net config st).1
  pub gate_keeps : (st : BitwardenSession C × W) → Holds st → Holds (net.gate st)
  pub reject_keeps :
      (rejected : Text) (st : BitwardenSession C × W) → Holds st → Holds (reject net rejected st)
  pub get_keeps :
      (bearer : Text) (st : BitwardenSession C × W)
      → st.0.state.token ≡ some bearer
      → Holds st
      → Holds (net.http.get (sync_get net st.0.api bearer) st).1
  pub bytes_keeps :
      (response : net.http.Response) (st : BitwardenSession C × W)
      → Holds st
      → Holds (net.http.bytes response st).1

module _ {C : Crypto} {W E : Type 0} (net : Net C W E) (config : BitwardenProviderConfig)
    (Holds : BitwardenSession C × W → Type 0) (keeps : Keeps net config Holds) where
  renew_keeps : (st : State net) → Holds st → Holds (renew net config st).1
  unfolding renew
  renew_keeps st h = elim (Bool-cases (stale net st)) [
    | inl e ↦ rw (renew, e) (keeps.login_keeps st h)
    | inr e ↦ rw (renew, e) h
  ]

  pub token_keeps : (st : State net) → Holds st → Holds (token net config st).1
  unfolding token
  token_keeps st h = elim (Bool-cases (stale net st)) [
    | inl e ↦ rw (token, e) (renew_keeps (net.gate st) (keeps.gate_keeps st h))
    | inr e ↦ rw (token, e) h
  ]

  retry_keeps :
      (next : Run (State net) (SyncError E) BitwardenSyncResponse) (attempt : ℕ)
      → ((st : State net) → Holds st → Holds (next st).1)
      → (st : State net) → Holds st
      → Holds (retry net next attempt config st).1
  unfolding retry
  retry_keeps next attempt k (s, w) h = elim (Bool-cases (attempt == 1)) [
    | inl e ↦ rw (retry, e) h
    | inr e ↦ elim (Bool-cases (is_none s.state.token)) [
      | inl q ↦
          rw (retry, e, q)
            (continue-keeps Holds (change_error auth_failed (login net config (s, w))) (λ _. next)
              (change_error-keeps Holds auth_failed (login net config (s, w))
                (keeps.login_keeps (s, w) h))
              (λ _. k))
      | inr q ↦ rw (retry, e, q) (k (s, w) h)
    ]
  ]

  read_sync_keeps :
      (response : net.http.Response) (st : State net)
      → Holds st
      → Holds (read_sync net response st).1
  unfolding read_sync
  read_sync_keeps response st h =
      continue-keeps Holds (change_error body_failed (net.http.bytes response st)) _
        (change_error-keeps Holds body_failed (net.http.bytes response st)
          (keeps.bytes_keeps response st h))
        (λ body st' k. k)

  answer_keeps :
      (next : Run (State net) (SyncError E) BitwardenSyncResponse) (attempt : ℕ) (rejected : Text)
      (response : net.http.Response)
      → ((st : State net) → Holds st → Holds (next st).1)
      → (st : State net) → Holds st
      → Holds (answer net next attempt config rejected response st).1
  unfolding answer
  answer_keeps next attempt rejected response k st h =
      elim (Bool-cases (net.http.status response == 401)) [
        | inl e ↦
            rw (answer, e)
              (retry_keeps next attempt k (reject net rejected (net.gate st))
                (keeps.reject_keeps rejected (net.gate st) (keeps.gate_keeps st h)))
        | inr e ↦ elim (Bool-cases (is_success (net.http.status response))) [
          | inl q ↦ rw (answer, e, q) (read_sync_keeps response st h)
          | inr q ↦ rw (answer, e, q) h
        ]
      ]

  attempts_keeps :
      (n attempt : ℕ) (st : State net) → Holds st → Holds (attempts net n attempt config st).1
  unfolding attempts request_sync
  attempts_keeps zero attempt st h = h
  attempts_keeps (suc n) attempt (s, w) h =
      continue-elim (λ r. Holds r.1) (current_token net (s, w)) _
        (λ bearer found.
          let got = net.http.get (sync_get net s.api bearer) (s, w) in
          continue-keeps Holds (change_error request_failed got) _
            (change_error-keeps Holds request_failed got
              (keeps.get_keeps bearer (s, w) (ok_or-eq-ok s.state.token missing_token found) h))
            (λ response.
              answer_keeps (attempts net n (suc attempt) config) attempt bearer response
                (attempts_keeps n (suc attempt))))
        (λ e _. h)

  -- What its parts keep, a sync keeps, however it ends.
  pub sync_keeps : (st : State net) → Holds st → Holds (sync net config st).1
  unfolding sync
  sync_keeps st h =
      continue-keeps Holds (change_error auth_failed (token net config st)) _
        (change_error-keeps Holds auth_failed (token net config st) (token_keeps st h))
        (λ _. attempts_keeps 2 0)
