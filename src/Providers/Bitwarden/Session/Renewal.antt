-- ===== src/Providers/Bitwarden/Session/Renewal.antt =====
-- A call of `token` takes the steps of a task.
use keyring_rs.Base.{ℕ, ◌≡◌, refl, ap, ◌∙◌, inl, inr, true, false, Bool-cases, none}
use keyring_rs.Base.Result.{ok}
use keyring_rs.Providers.Bitwarden.Config.{BitwardenProviderConfig}
use keyring_rs.Providers.Bitwarden.KeyStore.{Crypto}
use keyring_rs.Providers.Bitwarden.Net.{BitwardenSession, Net}
use keyring_rs.Providers.Bitwarden.Session.{State, stale, stale_at, login, renew, token}
use keyring_rs.Providers.Bitwarden.Session.Tasks.{
  idle, Tasks, set, hold, checked, entered, checks, enters,
}
use keyring_rs.Providers.Bitwarden.Session.Solo.{
  Steps, stays, goes_on, set_same, IsAlone, Ends, login-Ends,
}

module _ {C : Crypto} {W E : Type 0} (net : Net C W E) (config : BitwardenProviderConfig)
    (alone : IsAlone net) where
  stale_token : (st : State net) → stale net st ≡ true → token net config st ≡ login net config st
  unfolding token renew
  stale_token st e = rw (token, e, alone.gate st) (rw (renew, e) refl)

  fresh_token : (st : State net) → stale net st ≡ false → token net config st ≡ (ok tt, st)
  unfolding token
  fresh_token st e = rw (token, e) refl

  -- A call of `token` by an idle task, with the gate free and nobody else at work, is a run of steps of
  -- the relation: it leads to the authentication and the time that the call leaves behind, with the
  -- gate free, and to a task that is ready to sync where the call succeeds, or has failed.
  pub token-Ends :
      (i : ℕ) (s : Tasks) (x : BitwardenSession C) (w : W)
      → s.gate ≡ none
      → s.phase i ≡ idle
      → s.state ≡ x.state
      → s.clock ≡ net.now w
      → Ends net i 0 s (token net config (x, w))
  unfolding stale
  token-Ends i s x w free at same clock =
      let b = stale_at s.clock s.state in
      let agree : b ≡ stale net (x, w) =
        ap (λ c. stale_at c s.state) clock ∙ ap (stale_at (net.now w)) same in
      let s1 : Tasks = record s { phase = set i (checked b) s.phase } in
      let look : Steps s s1 = goes_on stays (checks i at) in
      elim (Bool-cases (stale net (x, w))) [
        | inr e ↦ rw (fresh_token (x, w) e) (record {
          last = s1;
          steps = look;
          same_state = same;
          same_clock = clock;
          unlocked = free;
          same_outcome = set_same i (checked b) s.phase ∙ ap checked (agree ∙ e);
        })
        | inl e ↦
            let s2 : Tasks = record s1 { phase = set i (entered b) s1.phase; gate = hold i b } in
            rw (stale_token (x, w) e) (
              login-Ends net config alone i 0 s s2
                (goes_on look
                  (enters i free (set_same i (checked b) s.phase ∙ ap checked (agree ∙ e))))
                (set_same i (entered b) s1.phase ∙ ap entered (agree ∙ e)) (x, w) same clock)
      ]
