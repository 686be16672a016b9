-- ===== src/Providers/Bitwarden/Session/Solo.antt =====
-- A login takes the steps of a task that holds the gate.
use keyring_rs.Base.{
  ℕ, ◌+◌, ◌-◌, ◌≤◌, ◌≡◌, refl, sym, ap, ◌∙◌, subst, inl, inr, ==_refl, none, Option-cases, ◌∷◌,
  arith,
}
use keyring_rs.Base.Result.{Done, Result, ok, err}
use keyring_rs.Base.Run.{change_error, change_error-keeps, continue-keeps}
use keyring_rs.Providers.Bitwarden.Config.{BitwardenProviderConfig}
use keyring_rs.Providers.Bitwarden.Auth.{
  BitwardenTokenSuccessResponse, BitwardenAuthError, TokenPost, SyncGet, token_request, transport,
  request_api_key_token, token_post,
}
use keyring_rs.Providers.Bitwarden.KeyStore.{Crypto, CryptoError}
use keyring_rs.Providers.Bitwarden.Net.{BitwardenSession, Net, from_secs}
use keyring_rs.Providers.Bitwarden.Session.{
  State, checked_add, publish, ensure_crypto, login_with, request_token, login,
}
use keyring_rs.Providers.Bitwarden.Session.Publishing.{Published, login-Published}
use keyring_rs.Providers.Bitwarden.Session.Tasks.{
  Phase, failed, requesting, ready, logged_in, with_token, Tasks, set, Step, passes, logs_in,
  login_fails,
}

-- A run of steps.
pub data Steps (s : Tasks) : Tasks → Type 0 where
  stays : Steps s s
  goes_on : {t u : Tasks} → Steps s t → Step t u → Steps s u

-- Where a task is that is ready for attempt `n` if a call succeeds.
abbrev pub outcome : {E A : Type 0} → ℕ → Result E A → Phase
outcome n (ok a) = ready n
outcome n (err e) = failed

pub set_same : (i : ℕ) (p : Phase) (phase : ℕ → Phase) → set i p phase i ≡ p
set_same i p phase = rw (==_refl i) refl

pub waited : (t w : ℕ) → t ≤ w → t + (w - t) ≡ w
waited t w h = omega (arith, h)

module _ {C : Crypto} {W E : Type 0} (net : Net C W E) where
  -- No other task is at work, and time goes on.
  pub record IsAlone : Type 0 where
    pub post_session : (p : TokenPost) (st : State net) → (net.http.post p st).1.0 ≡ st.0
    pub post_time :
        (p : TokenPost) (st : State net) → net.now st.1 ≤ net.now (net.http.post p st).1.1
    pub bytes_session : (r : net.http.Response) (st : State net) → (net.http.bytes r st).1.0 ≡ st.0
    pub bytes_time :
        (r : net.http.Response) (st : State net) → net.now st.1 ≤ net.now (net.http.bytes r st).1.1
    pub get_session : (g : SyncGet) (st : State net) → (net.http.get g st).1.0 ≡ st.0
    pub get_time : (g : SyncGet) (st : State net) → net.now st.1 ≤ net.now (net.http.get g st).1.1
    pub gate : (st : State net) → net.gate st ≡ st

  -- Where steps from `s` lead that do what a call with the result `r` does.
  pub record Ends (i n : ℕ) (s : Tasks)
      (r : Result (BitwardenAuthError E CryptoError) Done × State net) : Type 0 where
    pub last : Tasks
    pub steps : Steps s last
    pub same_state : last.state ≡ r.1.0.state
    pub same_clock : last.clock ≡ net.now r.1.1
    pub unlocked : last.gate ≡ none
    pub same_outcome : last.phase i ≡ outcome n r.0

  module _ (config : BitwardenProviderConfig) (alone : IsAlone) where
    -- A token request leaves the session alone.
    abbrev After : State net → State net → Type 0
    After st st' = (st'.0 ≡ st.0) × (net.now st.1 ≤ net.now st'.1)

    request_token-After : (st : State net) → After st (request_token net config st).1
    unfolding request_token request_api_key_token
    request_token-After (s, w) =
        let p = token_post net.http CryptoError s.id config.client_id config.client_secret in
        continue-keeps (After (s, w))
          (change_error (λ error. token_request (transport error)) (net.http.post p (s, w))) _
          (change_error-keeps (After (s, w)) _ (net.http.post p (s, w))
            (alone.post_session p (s, w), alone.post_time p (s, w)))
          (λ response st k.
            continue-keeps (After (s, w))
              (change_error (λ error. token_request (transport error)) (net.http.bytes response st))
              _
              (change_error-keeps (After (s, w)) _ (net.http.bytes response st) (
                alone.bytes_session response st ∙ k.0,
                omega (arith, k.1, alone.bytes_time response st),
              ))
              (λ body st' k'. k'))

    publish_world :
        (response : BitwardenTokenSuccessResponse) (exp : ℕ) (s : BitwardenSession C) (w : W)
        (r : Result CryptoError Done × C.Store)
        → (publish net response exp s w r).1.1 ≡ w
    unfolding publish
    publish_world response exp s w (ok u, store) = refl
    publish_world response exp s w (err e, store) = refl

    login_with_world :
        (response : BitwardenTokenSuccessResponse) (s : BitwardenSession C) (w : W)
        → (login_with net config response (s, w)).1.1 ≡ w
    unfolding login_with
    login_with_world response s w =
        elim (Option-cases
          (checked_add net.instant_max (net.now w) (from_secs response.expires_in))) [
            | inl e ↦ rw (login_with, e) refl
            | inr (exp, e) ↦
                rw (login_with, e)
                  (publish_world response exp s w (ensure_crypto net config response s))
          ]

    module _ (i n : ℕ) (s t : Tasks) (steps : Steps s t) (at : t.phase i ≡ requesting n) where
      -- The task waits until `w`.
      abbrev until : W → Tasks
      until w = record t { clock = t.clock + (net.now w - t.clock) }

      until-Steps : (w : W) → Steps s (until w)
      until-Steps w = goes_on steps (passes (net.now w - t.clock))

      fails-Ends :
          (e : BitwardenAuthError E CryptoError) (st : State net)
          → t.state ≡ st.0.state
          → t.clock ≤ net.now st.1
          → Ends i n s (err e, st)
      fails-Ends e st same later = record {
        last = record (until st.1) { phase = set i failed t.phase; gate = none };
        steps = goes_on (until-Steps st.1) (login_fails i n at);
        same_state = same;
        same_clock = waited t.clock (net.now st.1) later;
        unlocked = refl;
        same_outcome = set_same i failed t.phase;
      }

      Published-Ends :
          (response : BitwardenTokenSuccessResponse) (x : BitwardenSession C) (w : W)
          (r : Result (BitwardenAuthError E CryptoError) Done × State net)
          → Published net config response x w r
          → r.1.1 ≡ w
          → t.state ≡ x.state
          → t.clock ≤ net.now w
          → Ends i n s r
      Published-Ends response x w (err e, st) p world same later =
          fails-Ends e st (same ∙ sym (p.or_nothing e refl))
            (subst (λ v. t.clock ≤ net.now v) (sym world) later)
      Published-Ends response x w (ok u, st) p world same later =
          let clock = waited t.clock (net.now w) later in
          record {
            last = record (until w) {
              state = with_token response.access_token (net.now w + from_secs response.expires_in);
              phase = set i (ready n) t.phase;
              gate = none;
              history =
                  logged_in response.access_token (net.now w + from_secs response.expires_in)
                    (until w).clock
                  ∷ t.history;
            };
            steps = goes_on (until-Steps w) (
                logs_in i n response.access_token (net.now w) response.expires_in at
                  (omega (arith, clock)));
            same_state = sym (p.all_at_once refl);
            same_clock = clock ∙ ap net.now (sym world);
            unlocked = refl;
            same_outcome = set_same i (ready n) t.phase;
          }

      pub login-Ends :
          (st : State net)
          → t.state ≡ st.0.state
          → t.clock ≡ net.now st.1
          → Ends i n s (login net config st)
      unfolding login
      login-Ends st same clock = go (request_token net config st) refl (request_token-After st)
        where
          go :
              (r : Result (BitwardenAuthError E CryptoError) BitwardenTokenSuccessResponse
                × State net)
              → request_token net config st ≡ r
              → After st r.1
              → Ends i n s (login net config st)
          go (err e, st') q a = rw ((login-Published net config st).1 e st' q) (
              fails-Ends e st' (same ∙ sym (ap (λ (x : BitwardenSession C). x.state) a.0))
                (subst (λ c. c ≤ net.now st'.1) (sym clock) a.1))
          go (ok response, (x, w)) q a =
              Published-Ends response x w (login net config st)
                ((login-Published net config st).0 response x w q)
                (rw (login, q) (login_with_world response x w))
                (same ∙ sym (ap (λ (x : BitwardenSession C). x.state) a.0))
                (subst (λ c. c ≤ net.now w) (sym clock) a.1)
