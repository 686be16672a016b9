-- ===== src/Providers/Bitwarden/Session/Alone.antt =====
-- Where a task of the relation on all tasks stands while it follows a call of `sync`.
use keyring_rs.Base.{ℕ, ◌+◌, ◌-◌, ◌≤◌, ◌≡◌, sym, ap, ◌∙◌, subst, ◌⊎◌, inl, inr, none}
use keyring_rs.Base.Text.{Text}
use keyring_rs.Base.Result.{Done, Result, ok, err}
use keyring_rs.Providers.Bitwarden.Models.{BitwardenSyncResponse}
use keyring_rs.Providers.Bitwarden.Auth.{BitwardenAuthError}
use keyring_rs.Providers.Bitwarden.KeyStore.{Crypto, CryptoError}
use keyring_rs.Providers.Bitwarden.Net.{BitwardenSession, Net, SyncError}
use keyring_rs.Providers.Bitwarden.Session.{State}
use keyring_rs.Providers.Bitwarden.Session.Tasks.{
  Phase, failed, ended, sent, Tasks, set, passes, answered,
}
use keyring_rs.Providers.Bitwarden.Session.Solo.{Steps, goes_on, set_same, waited, outcome, Ends}

module _ {C : Crypto} {W E : Type 0} (net : Net C W E) where
  -- Where steps from `s` lead that do what a sync with the result `r` does.
  pub record SyncEnds (i : ℕ) (s : Tasks)
      (r : Result (SyncError E) BitwardenSyncResponse × State net) : Type 0 where
    pub last : Tasks
    pub steps : Steps s last
    pub same_state : last.state ≡ r.1.0.state
    pub same_clock : last.clock ≡ net.now r.1.1
    pub unlocked : last.gate ≡ none
    pub over : (last.phase i ≡ ended) ⊎ (last.phase i ≡ failed)
    pub success : (vault : BitwardenSyncResponse) → r.0 ≡ ok vault → last.phase i ≡ ended

  -- The tasks as they are when this one is at a phase, and the call at a state.
  pub record Agrees (i : ℕ) (s : Tasks) (p : Phase) (st : State net) : Type 0 where
    pub tasks : Tasks
    pub steps : Steps s tasks
    pub same_state : tasks.state ≡ st.0.state
    pub same_clock : tasks.clock ≡ net.now st.1
    pub unlocked : tasks.gate ≡ none
    pub phase : tasks.phase i ≡ p

  module _ (i : ℕ) (s : Tasks) where
    -- A task that has failed, with the error of the call.
    pub failed-SyncEnds :
        (e : SyncError E) (st : State net) → Agrees i s failed st → SyncEnds i s (err e, st)
    failed-SyncEnds e st a = record {
      last = a.tasks;
      steps = a.steps;
      same_state = a.same_state;
      same_clock = a.same_clock;
      unlocked = a.unlocked;
      over = inr a.phase;
      success = λ vault q. cc q;
    }

    -- Whatever follows an answer that is no 401, the task is at its end.
    pub answered-SyncEnds :
        (n : ℕ) (bearer : Text) (r : Result (SyncError E) BitwardenSyncResponse × State net)
        → Agrees i s (sent n bearer) r.1
        → SyncEnds i s r
    answered-SyncEnds n bearer r a = record {
      last = record a.tasks { phase = set i ended a.tasks.phase };
      steps = goes_on a.steps (answered i n bearer a.phase);
      same_state = a.same_state;
      same_clock = a.same_clock;
      unlocked = a.unlocked;
      over = inl (set_same i ended a.tasks.phase);
      success = λ vault q. set_same i ended a.tasks.phase;
    }

    -- Time passes in a request.
    pub waits-Agrees :
        (p : Phase) (st st' : State net)
        → st'.0 ≡ st.0
        → net.now st.1 ≤ net.now st'.1
        → Agrees i s p st
        → Agrees i s p st'
    waits-Agrees p st st' same later a = record {
      tasks = record a.tasks { clock = a.tasks.clock + (net.now st'.1 - a.tasks.clock) };
      steps = goes_on a.steps (passes (net.now st'.1 - a.tasks.clock));
      same_state = a.same_state ∙ sym (ap (λ (x : BitwardenSession C). x.state) same);
      same_clock =
          waited a.tasks.clock (net.now st'.1)
            (subst (λ c. c ≤ net.now st'.1) (sym a.same_clock) later);
      unlocked = a.unlocked;
      phase = a.phase;
    }

    pub Ends-Agrees :
        (n : ℕ) (r : Result (BitwardenAuthError E CryptoError) Done × State net) (p : Phase)
        → Ends net i n s r
        → p ≡ outcome n r.0
        → Agrees i s p r.1
    Ends-Agrees n r p e q = record {
      tasks = e.last;
      steps = e.steps;
      same_state = e.same_state;
      same_clock = e.same_clock;
      unlocked = e.unlocked;
      phase = e.same_outcome ∙ sym q;
    }
