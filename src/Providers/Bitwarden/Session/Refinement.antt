-- ===== src/Providers/Bitwarden/Session/Refinement.antt =====
-- A call of `sync` takes the steps of a task, its recovery from a 401 included.
use keyring_rs.Base.{
  ℕ, suc, ◌≤◌, ◌≡◌, refl, sym, ap, ◌∙◌, inl, inr, Bool, true, false, Bool-cases, ◌==◌, Option, none,
  some,
}
use keyring_rs.Base.Text.{Text}
use keyring_rs.Base.Result.{Done, Result, ok, err, Run, ok_or, continue}
use keyring_rs.Base.Run.{change_error, change_error-keeps, continue-keeps}
use keyring_rs.Providers.Bitwarden.Config.{BitwardenProviderConfig}
use keyring_rs.Providers.Bitwarden.Models.{BitwardenSyncResponse}
use keyring_rs.Providers.Bitwarden.Auth.{is_success, BitwardenAuthError}
use keyring_rs.Providers.Bitwarden.KeyStore.{Crypto, CryptoError}
use keyring_rs.Providers.Bitwarden.Net.{
  BitwardenSession, Net, SyncError, auth_failed, missing_token, request_failed, still_unauthorized,
  bad_status, body_failed,
}
use keyring_rs.Providers.Bitwarden.Session.{
  State, invalidate, is_none, login, token, sync_get, request_sync, retry, reject, read_sync,
  answer, attempts, sync,
}
use keyring_rs.Providers.Bitwarden.Session.Tasks.{
  Phase, idle, failed, ready, sent, rejected, Tasks, set, hold, sending, logs_in_again, recovering,
  note, sends, unauthorized, invalidates,
}
use keyring_rs.Providers.Bitwarden.Session.Solo.{
  Steps, goes_on, set_same, IsAlone, Ends, login-Ends,
}
use keyring_rs.Providers.Bitwarden.Session.Renewal.{token-Ends}
use keyring_rs.Providers.Bitwarden.Session.Alone.{
  SyncEnds, Agrees, failed-SyncEnds, answered-SyncEnds, waits-Agrees, Ends-Agrees,
}

module _ {C : Crypto} {W E : Type 0} (net : Net C W E) (config : BitwardenProviderConfig)
    (alone : IsAlone net) (i : ℕ) (s : Tasks) where
  abbrev Runs : (State net → Result (SyncError E) BitwardenSyncResponse × State net) → Type 0
  Runs next = (st : State net) → Agrees net i s (ready 1) st → SyncEnds net i s (next st)

  abbrev After : State net → State net → Type 0
  After st st' = (st'.0 ≡ st.0) × (net.now st.1 ≤ net.now st'.1)

  read_sync-After :
      (response : net.http.Response) (st : State net) → After st (read_sync net response st).1
  unfolding read_sync
  read_sync-After response st =
      continue-keeps (After st) (change_error body_failed (net.http.bytes response st)) _
        (change_error-keeps (After st) body_failed (net.http.bytes response st)
          (alone.bytes_session response st, alone.bytes_time response st))
        (λ body st' k. k)

  -- The two steps after a 401.
  abbrev missing : Text → Tasks → Bool
  missing bearer t = is_none (invalidate bearer t.state).token

  abbrev after_401 : ℕ → Text → Tasks → Tasks
  after_401 n bearer t = record t {
    state = invalidate bearer t.state;
    phase = set i (recovering (n == 1) (missing bearer t)) (set i (rejected n bearer) t.phase);
    gate = hold i (logs_in_again (n == 1) (missing bearer t));
    history = note bearer t.state.token t.history;
  }

  after_401-Steps :
      (n : ℕ) (bearer : Text) (st : State net) (a : Agrees net i s (sent n bearer) st)
      → Steps s (after_401 n bearer a.tasks)
  after_401-Steps n bearer st a =
      goes_on (goes_on a.steps (unauthorized i n bearer a.phase))
        (invalidates i n bearer a.unlocked (set_same i (rejected n bearer) a.tasks.phase))

  after_401-Agrees :
      (n : ℕ) (bearer : Text) (st : State net) (a : Agrees net i s (sent n bearer) st) (p : Phase)
      → recovering (n == 1) (missing bearer a.tasks) ≡ p
      → hold i (logs_in_again (n == 1) (missing bearer a.tasks)) ≡ none
      → Agrees net i s p (reject net bearer st)
  after_401-Agrees n bearer st a p e free = record {
    tasks = after_401 n bearer a.tasks;
    steps = after_401-Steps n bearer st a;
    same_state = ap (invalidate bearer) a.same_state;
    same_clock = a.same_clock;
    unlocked = free;
    phase =
        set_same i (recovering (n == 1) (missing bearer a.tasks))
          (set i (rejected n bearer) a.tasks.phase)
        ∙ e;
  }

  relogin-SyncEnds :
      (next : Run (State net) (SyncError E) BitwardenSyncResponse)
      (r : Result (BitwardenAuthError E CryptoError) Done × State net)
      → Runs next
      → Ends net i 1 s r
      → SyncEnds net i s (continue (change_error auth_failed r) (λ _. next))
  relogin-SyncEnds next (ok u, st) again e =
      again st (Ends-Agrees net i s 1 (ok u, st) (ready 1) e refl)
  relogin-SyncEnds next (err x, st) again e =
      failed-SyncEnds net i s (auth_failed x) st (Ends-Agrees net i s 1 (err x, st) failed e refl)

  retry-SyncEnds :
      (next : Run (State net) (SyncError E) BitwardenSyncResponse) (n : ℕ) (bearer : Text)
      (st : State net)
      → ((n == 1) ≡ false → Runs next)
      → Agrees net i s (sent n bearer) st
      → SyncEnds net i s (retry net next n config (reject net bearer st))
  unfolding retry
  retry-SyncEnds next n bearer (x, w) again a = elim (Bool-cases (n == 1)) [
    | inl second ↦
        rw (retry, second)
          (failed-SyncEnds net i s still_unauthorized (reject net bearer (x, w))
            (after_401-Agrees n bearer (x, w) a failed (rw second refl) (rw second refl)))
    | inr first ↦ elim (Bool-cases (missing bearer a.tasks)) [
      | inl cleared ↦
          let here : is_none (invalidate bearer x.state).token ≡ true =
            ap (λ t. is_none (invalidate bearer t).token) (sym a.same_state) ∙ cleared in
          rw (retry, first, here)
            (relogin-SyncEnds next (login net config (reject net bearer (x, w))) (again first) (
              login-Ends net config alone i 1 s (after_401 n bearer a.tasks)
                (after_401-Steps n bearer (x, w) a)
                (set_same i (recovering (n == 1) (missing bearer a.tasks))
                    (set i (rejected n bearer) a.tasks.phase)
                  ∙ rw (first, cleared) refl)
                (reject net bearer (x, w)) (ap (invalidate bearer) a.same_state) a.same_clock))
      | inr kept ↦
          let here : is_none (invalidate bearer x.state).token ≡ false =
            ap (λ t. is_none (invalidate bearer t).token) (sym a.same_state) ∙ kept in
          rw (retry, first, here)
            (again first (reject net bearer (x, w)) (
              after_401-Agrees n bearer (x, w) a (ready 1) (rw (first, kept) refl)
                (rw (first, kept) refl)))
    ]
  ]

  answer-SyncEnds :
      (next : Run (State net) (SyncError E) BitwardenSyncResponse) (n : ℕ) (bearer : Text)
      (response : net.http.Response) (st : State net)
      → ((n == 1) ≡ false → Runs next)
      → Agrees net i s (sent n bearer) st
      → SyncEnds net i s (answer net next n config bearer response st)
  unfolding answer
  answer-SyncEnds next n bearer response st again a =
      elim (Bool-cases (net.http.status response == 401)) [
        | inl e ↦ rw (answer, e, alone.gate st) (retry-SyncEnds next n bearer st again a)
        | inr e ↦ elim (Bool-cases (is_success (net.http.status response))) [
          | inl q ↦
              let after = read_sync-After response st in
              rw (answer, e, q)
                (answered-SyncEnds net i s n bearer (read_sync net response st) (
                  waits-Agrees net i s (sent n bearer) st (read_sync net response st).1 after.0
                    after.1 a))
          | inr q ↦
              rw (answer, e, q)
                (answered-SyncEnds net i s n bearer
                  (err (bad_status (net.http.status response)), st) a)
        ]
      ]

  attempt-SyncEnds :
      (k n : ℕ)
      → ((n == 1) ≡ false → Runs (attempts net k (suc n) config))
      → (st : State net) → Agrees net i s (ready n) st
      → SyncEnds net i s (attempts net (suc k) n config st)
  unfolding attempts request_sync
  attempt-SyncEnds k n again (x, w) a = current x.state.token refl
    where
      sends-Agrees : (o : Option Text) → x.state.token ≡ o → Agrees net i s (sending n o) (x, w)
      sends-Agrees o e = record {
        tasks = record a.tasks { phase = set i (sending n a.tasks.state.token) a.tasks.phase };
        steps = goes_on a.steps (sends i n a.phase);
        same_state = a.same_state;
        same_clock = a.same_clock;
        unlocked = a.unlocked;
        phase =
            set_same i (sending n a.tasks.state.token) a.tasks.phase
            ∙ ap (sending n) (ap (λ t. t.token) a.same_state ∙ e);
      }

      got :
          (bearer : Text) (r : Result E net.http.Response × State net)
          → net.http.get (sync_get net x.api bearer) (x, w) ≡ r
          → Agrees net i s (sent n bearer) r.1
          → SyncEnds net i s (
              continue
                (change_error request_failed r)
                (answer net (attempts net k (suc n) config) n config bearer))
      got bearer (err e, st) q b = answered-SyncEnds net i s n bearer (err (request_failed e), st) b
      got bearer (ok response, st) q b =
          answer-SyncEnds (attempts net k (suc n) config) n bearer response st again b

      current :
          (o : Option Text)
          → x.state.token ≡ o
          → SyncEnds net i s (
              continue
                (ok_or o missing_token, (x, w))
                (λ bearer st.
                  continue
                    (request_sync net bearer st)
                    (answer net (attempts net k (suc n) config) n config bearer)))
      current none e = failed-SyncEnds net i s missing_token (x, w) (sends-Agrees none e)
      current (some bearer) e =
          let g = sync_get net x.api bearer in
          got bearer (net.http.get g (x, w)) refl (
            waits-Agrees net i s (sent n bearer) (x, w) (net.http.get g (x, w)).1
              (alone.get_session g (x, w)) (alone.get_time g (x, w)) (sends-Agrees (some bearer) e))

  -- The two attempts of a task that has a token, or none.
  attempts-SyncEnds :
      (st : State net) → Agrees net i s (ready 0) st → SyncEnds net i s (attempts net 2 0 config st)
  attempts-SyncEnds =
      attempt-SyncEnds 1 0 (λ _. attempt-SyncEnds 0 1 (λ second. absurd (cc second)))

  token-SyncEnds :
      (r : Result (BitwardenAuthError E CryptoError) Done × State net)
      → Ends net i 0 s r
      → SyncEnds net i s (continue (change_error auth_failed r) (λ _. attempts net 2 0 config))
  token-SyncEnds (ok u, st) e =
      attempts-SyncEnds st (Ends-Agrees net i s 0 (ok u, st) (ready 0) e refl)
  token-SyncEnds (err x, st) e =
      failed-SyncEnds net i s (auth_failed x) st (Ends-Agrees net i s 0 (err x, st) failed e refl)

  -- A call of `sync` by an idle task, with the gate free and nobody else at work, is a run of steps of
  -- the relation on all tasks: it leads to the authentication and the time that the call leaves
  -- behind, with the gate free, and to a task at its end, which has not failed where the call
  -- succeeds. Requests leave the session alone, and time goes on.
  pub sync-SyncEnds :
      (x : BitwardenSession C) (w : W)
      → s.gate ≡ none
      → s.phase i ≡ idle
      → s.state ≡ x.state
      → s.clock ≡ net.now w
      → SyncEnds net i s (sync net config (x, w))
  unfolding sync
  sync-SyncEnds x w free at same clock =
      token-SyncEnds (token net config (x, w))
        (token-Ends net config alone i s x w free at same clock)
