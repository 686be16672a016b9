-- ===== src/Providers/Bitwarden/Session/Provenance.antt =====
-- The vault that a sync returns, by the request that it answered.
use keyring_rs.Base.{ℕ, zero, suc, ◌≡◌, inl, inr, true, Bool-cases, ◌==◌, some}
use keyring_rs.Base.Text.{Text}
use keyring_rs.Base.Result.{Result, ok, Run, ok_or-eq-ok}
use keyring_rs.Base.Run.{change_error, change_error-keeps, change_error-ok, continue-elim}
use keyring_rs.Providers.Bitwarden.Config.{BitwardenProviderConfig}
use keyring_rs.Providers.Bitwarden.Models.{BitwardenSyncResponse}
use keyring_rs.Providers.Bitwarden.Auth.{is_success}
use keyring_rs.Providers.Bitwarden.KeyStore.{Crypto}
use keyring_rs.Providers.Bitwarden.Session.{
  State, login, token, current_token, sync_get, request_sync, retry, reject, read_sync, answer,
  attempts, sync, is_none,
}
use keyring_rs.Providers.Bitwarden.Session.Keeping.{Keeps, token_keeps}
use keyring_rs.Providers.Bitwarden.Net.{
  BitwardenSession, Net, SyncError, auth_failed, missing_token, request_failed, body_failed,
  bad_json,
}

module _ {C : Crypto} {W E : Type 0} (net : Net C W E)
    (Holds : BitwardenSession C × W → Type 0) where
  -- The vault is the body of a successful answer to a sync request, which a session with the property
  -- sent with its token.
  pub record Traced (vault : BitwardenSyncResponse) : Type 0 where
    pub bearer : Text
    pub asked : State net
    pub response : net.http.Response
    pub between : State net
    pub body : net.http.Bytes
    pub after : State net
    pub owned : Holds asked
    pub current : asked.0.state.token ≡ some bearer
    pub sent : net.http.get (sync_get net asked.0.api bearer) asked ≡ (ok response, between)
    pub successful : is_success (net.http.status response) ≡ true
    pub read : net.http.bytes response between ≡ (ok body, after)
    pub decoded : net.decode_sync body ≡ some vault

  abbrev Tracked : Result (SyncError E) BitwardenSyncResponse × State net → Type 0
  Tracked r = (vault : BitwardenSyncResponse) → r.0 ≡ ok vault → Traced vault

  -- A response to a request of such a session.
  record Reply (response : net.http.Response) (st : State net) : Type 0 where
    bearer : Text
    asked : State net
    owned : Holds asked
    current : asked.0.state.token ≡ some bearer
    sent : net.http.get (sync_get net asked.0.api bearer) asked ≡ (ok response, st)

  read_sync-Tracked :
      (response : net.http.Response) (st : State net)
      → Reply response st
      → is_success (net.http.status response) ≡ true
      → Tracked (read_sync net response st)
  unfolding read_sync
  read_sync-Tracked response st r good =
      let read = change_error body_failed (net.http.bytes response st) in
      continue-elim Tracked read _
        (λ body h vault q. record {
          bearer = r.bearer;
          asked = r.asked;
          response = response;
          between = st;
          body = body;
          after = read.1;
          owned = r.owned;
          current = r.current;
          sent = r.sent;
          successful = good;
          read = change_error-ok body_failed (net.http.bytes response st) body h;
          decoded = ok_or-eq-ok (net.decode_sync body) bad_json q;
        })
        (λ e h vault q. cc q)

  module _ (config : BitwardenProviderConfig) (keeps : Keeps net config Holds) where
    retry-Tracked :
        (next : Run (State net) (SyncError E) BitwardenSyncResponse) (attempt : ℕ)
        → ((st : State net) → Holds st → Tracked (next st))
        → (st : State net) → Holds st
        → Tracked (retry net next attempt config st)
    unfolding retry
    retry-Tracked next attempt k (s, w) h = elim (Bool-cases (attempt == 1)) [
      | inl e ↦ rw (retry, e) (λ vault q. cc q)
      | inr e ↦ elim (Bool-cases (is_none s.state.token)) [
        | inl q ↦
            let r = change_error auth_failed (login net config (s, w)) in
            rw (retry, e, q)
              (continue-elim Tracked r (λ _. next)
                (λ u _. k r.1 (
                  change_error-keeps Holds auth_failed (login net config (s, w))
                    (keeps.login_keeps (s, w) h)))
                (λ e _ vault q. cc q))
        | inr q ↦ rw (retry, e, q) (k (s, w) h)
      ]
    ]

    answer-Tracked :
        (next : Run (State net) (SyncError E) BitwardenSyncResponse) (attempt : ℕ) (rejected : Text)
        (response : net.http.Response)
        → ((st : State net) → Holds st → Tracked (next st))
        → (st : State net) → Reply response st
        → Holds st
        → Tracked (answer net next attempt config rejected response st)
    unfolding answer
    answer-Tracked next attempt rejected response k st r h =
        elim (Bool-cases (net.http.status response == 401)) [
          | inl e ↦
              rw (answer, e)
                (retry-Tracked next attempt k (reject net rejected (net.gate st))
                  (keeps.reject_keeps rejected (net.gate st) (keeps.gate_keeps st h)))
          | inr e ↦ elim (Bool-cases (is_success (net.http.status response))) [
            | inl q ↦ rw (answer, e, q) (read_sync-Tracked response st r q)
            | inr q ↦ rw (answer, e, q) (λ vault i. cc i)
          ]
        ]

    attempts-Tracked :
        (n attempt : ℕ) (st : State net) → Holds st → Tracked (attempts net n attempt config st)
    unfolding attempts request_sync
    attempts-Tracked zero attempt st h = λ vault q. cc q
    attempts-Tracked (suc n) attempt (s, w) h =
        continue-elim Tracked (current_token net (s, w)) _
          (λ bearer found.
            let current = ok_or-eq-ok s.state.token missing_token found in
            let got = net.http.get (sync_get net s.api bearer) (s, w) in
            let r = change_error request_failed got in
            continue-elim Tracked r _
              (λ response answered.
                answer-Tracked (attempts net n (suc attempt) config) attempt bearer response
                  (attempts-Tracked n (suc attempt)) r.1
                  (record {
                    bearer = bearer;
                    asked = (s, w);
                    owned = h;
                    current = current;
                    sent = change_error-ok request_failed got response answered;
                  })
                  (change_error-keeps Holds request_failed got
                    (keeps.get_keeps bearer (s, w) current h)))
              (λ e _ vault q. cc q))
          (λ e _ vault q. cc q)

    -- A vault that a sync returns came in answer to a request of the session while it had the property.
    pub sync-Traced : (st : State net) → Holds st → Tracked (sync net config st)
    unfolding sync
    sync-Traced st h =
        let r = change_error auth_failed (token net config st) in
        continue-elim Tracked r _
          (λ u _. attempts-Tracked 2 0 r.1 (
            change_error-keeps Holds auth_failed (token net config st)
              (token_keeps net config Holds keeps st h)))
          (λ e _ vault q. cc q)
