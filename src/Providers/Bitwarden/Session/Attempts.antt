-- ===== src/Providers/Bitwarden/Session/Attempts.antt =====
-- How many requests one sync sends, over its attempts.
use keyring_rs.Base.{ℕ, ◌+◌, inl, inr, Bool-cases, ◌==◌, arith}
use keyring_rs.Base.Text.{Text}
use keyring_rs.Base.Result.{Run}
use keyring_rs.Base.Run.{change_error, change_error-keeps, continue-leads}
use keyring_rs.Providers.Bitwarden.Config.{BitwardenProviderConfig}
use keyring_rs.Providers.Bitwarden.Models.{BitwardenSyncResponse}
use keyring_rs.Providers.Bitwarden.Auth.{is_success}
use keyring_rs.Providers.Bitwarden.KeyStore.{Crypto}
use keyring_rs.Providers.Bitwarden.Session.{
  State, login, token, retry, reject, answer, attempts, sync, is_none,
}
use keyring_rs.Providers.Bitwarden.Net.{Net, SyncError, auth_failed}
use keyring_rs.Providers.Bitwarden.Session.Calls.{
  Calls, counted, Within, calls, Spent, login-calls, token-calls, read_sync-calls, attempt-calls,
}

module _ {C : Crypto} {W E : Type 0} (net : Net C W E) where
  module _ (config : BitwardenProviderConfig) (c : Calls) where
    -- The answer to the second attempt ends the loop.
    answer_last :
        (p g : ℕ) (next : Run (State (counted net)) (SyncError E) BitwardenSyncResponse)
        (rejected : Text) (response : net.http.Response) (st : State (counted net))
        → Within p g c (calls net st)
        → Within p g c (calls net (answer (counted net) next 1 config rejected response st).1)
    unfolding answer retry
    answer_last p g next rejected response st h =
        elim (Bool-cases (net.http.status response == 401)) [
          | inl e ↦ rw (answer, e) h
          | inr e ↦ elim (Bool-cases (is_success (net.http.status response))) [
            | inl q ↦
                rw (answer, e, q)
                  (let k =
                      read_sync-calls net p g c response st
                        (omega (arith, h.0), omega (arith, h.1)) in
                    (omega (arith, k.0), omega (arith, k.1)))
            | inr q ↦ rw (answer, e, q) h
          ]
        ]

    attempts_last :
        (p g : ℕ) (st : State (counted net))
        → Within p g c (calls net st)
        → Within p (g + 1) c (calls net (attempts (counted net) 1 1 config st).1)
    unfolding attempts
    attempts_last p g st h =
        attempt-calls net p g c (λ st'. Within p (g + 1) c (calls net st'))
          (attempts (counted net) 0 2 config) 1 config
          (λ st' k. (omega (arith, k.0), omega (arith, k.1)))
          (λ rejected response st' k.
            answer_last p (g + 1) (attempts (counted net) 0 2 config) rejected response st'
              (omega (arith, k.0), omega (arith, k.1)))
          st (omega (arith, h.0), omega (arith, h.1))

    retry_first :
        (p g : ℕ) (st : State (counted net))
        → Within p g c (calls net st)
        → Within
            (p + 1)
            (g + 1)
            c
            (calls net (retry (counted net) (attempts (counted net) 1 1 config) 0 config st).1)
    unfolding retry
    retry_first p g (s, w) h = elim (Bool-cases (is_none s.state.token)) [
      | inl e ↦
          rw (retry, e)
            (continue-leads (Spent net p g c 1 0) (λ st. Within (p + 1) (g + 1) c (calls net st))
              (change_error auth_failed (login (counted net) config (s, w)))
              (λ _. attempts (counted net) 1 1 config)
              (change_error-keeps (Spent net p g c 1 0) auth_failed
                (login (counted net) config (s, w))
                (login-calls net p g c config (s, w) (omega (arith, h.0), omega (arith, h.1))))
              (λ st k. (omega (arith, k.0), omega (arith, k.1)))
              (λ u st k. attempts_last (p + 1) g st (omega (arith, k.0), omega (arith, k.1))))
      | inr e ↦ rw (retry, e) (let k = attempts_last p g (s, w) h in (omega (arith, k.0), k.1))
    ]

    answer_first :
        (p g : ℕ) (rejected : Text) (response : net.http.Response) (st : State (counted net))
        → Within p g c (calls net st)
        → Within (p + 1) (g + 1) c (
            calls net
              (answer
                (counted net)
                (attempts (counted net) 1 1 config)
                0
                config
                rejected
                response
                st).1)
    unfolding answer
    answer_first p g rejected response st h = elim (Bool-cases (net.http.status response == 401)) [
      | inl e ↦
          rw (answer, e) (retry_first p g (reject (counted net) rejected ((counted net).gate st)) h)
      | inr e ↦ elim (Bool-cases (is_success (net.http.status response))) [
        | inl q ↦
            rw (answer, e, q)
              (let k =
                  read_sync-calls net p g c response st (omega (arith, h.0), omega (arith, h.1)) in
                (omega (arith, k.0), omega (arith, k.1)))
        | inr q ↦ rw (answer, e, q) (omega (arith, h.0), omega (arith, h.1))
      ]
    ]

    attempts_first :
        (p g : ℕ) (st : State (counted net))
        → Within p g c (calls net st)
        → Within (p + 1) (g + 2) c (calls net (attempts (counted net) 2 0 config st).1)
    unfolding attempts
    attempts_first p g st h =
        attempt-calls net p g c (λ st'. Within (p + 1) (g + 2) c (calls net st'))
          (attempts (counted net) 1 1 config) 0 config
          (λ st' k. (omega (arith, k.0), omega (arith, k.1)))
          (λ rejected response st' k.
            let q =
              answer_first p (g + 1) rejected response st'
                (omega (arith, k.0), omega (arith, k.1)) in
            (omega (arith, q.0), omega (arith, q.1)))
          st (omega (arith, h.0), omega (arith, h.1))

  -- One sync sends at most two token requests and two sync requests, whatever the answers are and
  -- whatever other tasks do.
  pub sync-calls :
      (config : BitwardenProviderConfig) (st : State (counted net))
      → Within 2 2 (calls net st) (calls net (sync (counted net) config st).1)
  unfolding sync
  sync-calls config st =
      continue-leads (Spent net 0 0 (calls net st) 1 0)
        (λ st'. Within 2 2 (calls net st) (calls net st'))
        (change_error auth_failed (token (counted net) config st)) _
        (change_error-keeps (Spent net 0 0 (calls net st) 1 0) auth_failed
          (token (counted net) config st)
          (token-calls net 0 0 (calls net st) config st (omega arith, omega arith)))
        (λ st' k. (omega (arith, k.0), omega (arith, k.1)))
        (λ u st' k. attempts_first config (calls net st) 1 0 st' k)
