-- ===== src/Tests/Gate.antt =====
-- Two tasks on one Bitwarden session, and one alone.
use keyring_rs.Base.{ℕ, ◌≡◌, refl, true, some, none, [], ◌∷◌, arith}
use keyring_rs.Base.Text.{text, text_eq}
use keyring_rs.Providers.Bitwarden.Session.{stale_at, invalidate, token, sync}
use keyring_rs.Providers.Bitwarden.Session.Tasks.{
  Tasks, queued, requesting, ready, sent, rejected, logged_in, cleared, set, with_token, begin,
  Reached, started, then_step, checks, enters, logs_in, sends, unauthorized, invalidates, Justified,
}
use keyring_rs.Providers.Bitwarden.Session.Solo.{IsAlone, Ends}
use keyring_rs.Providers.Bitwarden.Session.Renewal.{token-Ends}
use keyring_rs.Providers.Bitwarden.Session.Alone.{SyncEnds}
use keyring_rs.Providers.Bitwarden.Session.Refinement.{sync-SyncEnds}
use keyring_rs.Tests.Providers.{toy_net, vault_config, fresh_session}
use keyring_rs.Providers.Bitwarden.Session.Gate.{Reached-single_login}

-- Both find no token and queue for the gate.
abbrev both_queued : Tasks
both_queued = record (begin 5) { phase = set 1 queued (set 0 queued (begin 5).phase) }

both_queued-Reached : Reached both_queued
unfolding stale_at
both_queued-Reached = then_step (then_step (started 5) (checks 0 refl)) (checks 1 refl)

-- The first logs in and sends a request.
abbrev one_sent : Tasks
one_sent = record both_queued {
  state = with_token (text "t") 3600000000005;
  phase = set 0 (sent 0 (text "t")) (set 0 (ready 0) (set 0 (requesting 0) both_queued.phase));
  history = logged_in (text "t") 3600000000005 5 ∷ [];
}

one_sent-Reached : Reached one_sent
unfolding stale_at
one_sent-Reached =
    then_step
      (then_step (then_step both_queued-Reached (enters 0 refl refl))
        (logs_in 0 0 (text "t") 5 3600 refl (omega arith)))
      (sends 0 0 refl)

-- Its token is rejected, and it logs in again with the gate in its hands.
abbrev again : Tasks
again = record one_sent {
  state = record { token = none; exp = none; crypto = true };
  phase = set 0 (requesting 1) (set 0 (rejected 0 (text "t")) one_sent.phase);
  gate = some 0;
  history = cleared (text "t") ∷ one_sent.history;
}

again-Reached : Reached again
unfolding stale_at invalidate text_eq
again-Reached =
    then_step (then_step one_sent-Reached (unauthorized 0 0 (text "t") refl))
      (invalidates 0 0 (text "t") refl refl)

Reached-single_login_example :
    ((i j n m : ℕ) → again.phase i ≡ requesting n → again.phase j ≡ requesting m → i ≡ j)
    × ((i n : ℕ) → again.phase i ≡ requesting n → stale_at again.clock again.state ≡ true)
    × Justified again.history
Reached-single_login_example = Reached-single_login again-Reached

toy_net-IsAlone : IsAlone toy_net
toy_net-IsAlone = record {
  post_session = λ p st. refl;
  post_time = λ p st. omega arith;
  bytes_session = λ r st. refl;
  bytes_time = λ r st. omega arith;
  get_session = λ g st. refl;
  get_time = λ g st. omega arith;
  gate = λ st. refl;
}

-- Its token is refused, it logs in again and is answered.
sync-SyncEnds_example :
    SyncEnds toy_net 0 (begin 1000) (sync toy_net vault_config (fresh_session, 401 ∷ 200 ∷ []))
sync-SyncEnds_example =
    sync-SyncEnds toy_net vault_config toy_net-IsAlone 0 (begin 1000) fresh_session (401 ∷ 200 ∷ [])
      refl refl refl refl

alone_token : Ends toy_net 0 0 (begin 1000) (token toy_net vault_config (fresh_session, []))
alone_token =
    token-Ends toy_net vault_config toy_net-IsAlone 0 (begin 1000) fresh_session [] refl refl refl
      refl
