-- ===== src/Providers/Bitwarden/Session/Publishing.antt =====
-- What a login publishes, and when.
use keyring_rs.Base.{
  ℕ, ◌+◌, ◌≤◌, ◌≡◌, ◌⊎◌, ◌↔◌, none, refl, sym, ap, subst, inl, inr, true, leb, Bool-cases, some,
  Option-cases, arith,
}
use keyring_rs.Base.Result.{Done, Result, ok, err, continue}
use keyring_rs.Providers.Bitwarden.Config.{BitwardenProviderConfig}
use keyring_rs.Providers.Bitwarden.Auth.{BitwardenTokenSuccessResponse, BitwardenAuthError}
use keyring_rs.Providers.Bitwarden.Crypto.{initialize_user_crypto}
use keyring_rs.Providers.Bitwarden.KeyStore.{Crypto, CryptoError}
use keyring_rs.Providers.Bitwarden.Net.{Auth, BitwardenSession, Net, from_secs}
use keyring_rs.Providers.Bitwarden.Session.{
  State, checked_add, publish, ensure_crypto, login_with, request_token, login,
}

checked_add-some :
    (max now d : ℕ) {exp : ℕ} → checked_add max now d ≡ some exp → (exp ≡ now + d) × (now + d ≤ max)
unfolding checked_add
checked_add-some max now d h = elim (Bool-cases (leb (now + d) max)) [
  | inl e ↦ (ground arith, ground arith)
  | inr e ↦ ground arith
]

checked_add-none : (max now d : ℕ) → checked_add max now d ≡ none → ¬ (now + d ≤ max)
unfolding checked_add
checked_add-none max now d h = elim (Bool-cases (leb (now + d) max)) [
  | inl e ↦ ground arith
  | inr e ↦ ground arith
]

abbrev pub published : BitwardenTokenSuccessResponse → ℕ → Auth
published response exp = record {
  token = some response.access_token;
  exp = some exp;
  crypto = true;
}

module _ {C : Crypto} {W E : Type 0} (net : Net C W E) where
  -- The key store is ready: it was before, or the crypto bootstrap with the response succeeds.
  abbrev pub Ready :
      BitwardenProviderConfig → BitwardenTokenSuccessResponse → BitwardenSession C → Type 0
  Ready config response s =
      (s.state.crypto ≡ true)
      ⊎ ((initialize_user_crypto C config.password response s.store).0 ≡ ok tt)

  -- The end of a login that began with a token response in the session `s` of the world `w`.
  pub record Published (config : BitwardenProviderConfig) (response : BitwardenTokenSuccessResponse)
      (s : BitwardenSession C) (w : W)
      (r : Result (BitwardenAuthError E CryptoError) Done × State net) : Type 0 where
    pub all_steps :
        (r.0 ≡ ok tt)
        ↔ ((net.now w + from_secs response.expires_in ≤ net.instant_max) × Ready config response s)
    pub all_at_once :
        r.0 ≡ ok tt → r.1.0.state ≡ published response (net.now w + from_secs response.expires_in)
    pub or_nothing : (e : BitwardenAuthError E CryptoError) → r.0 ≡ err e → r.1.0.state ≡ s.state

  ensure_crypto-Ready :
      (config : BitwardenProviderConfig) (response : BitwardenTokenSuccessResponse)
      (s : BitwardenSession C)
      → ((ensure_crypto net config response s).0 ≡ ok tt) ↔ Ready config response s
  ensure_crypto-Ready config response s = elim (Bool-cases s.state.crypto) [
    | inl e ↦ (λ h. inl e, λ h. rw e refl)
    | inr e ↦ rw e (λ h. inr h, λ h. elim h [ inl q ↦ cc q | inr q ↦ q ])
  ]

  publish-Published :
      (config : BitwardenProviderConfig) (response : BitwardenTokenSuccessResponse) (exp : ℕ)
      (s : BitwardenSession C) (w : W) (r : Result CryptoError Done × C.Store)
      → (r.0 ≡ ok tt) ↔ Ready config response s
      → exp ≡ net.now w + from_secs response.expires_in
      → net.now w + from_secs response.expires_in ≤ net.instant_max
      → Published config response s w (publish net response exp s w r)
  unfolding publish
  publish-Published config response exp s w (ok u, store) ready e b = record {
    all_steps = (λ _. (b, ready.0 refl), λ _. refl);
    all_at_once = λ _. ap (published response) e;
    or_nothing = λ e' h. cc h;
  }
  publish-Published config response exp s w (err e', store) ready e b = record {
    all_steps = (λ h. cc h, λ h. cc (ready.1 h.1));
    all_at_once = λ h. cc h;
    or_nothing = λ _ _. refl;
  }

  login_with-Published :
      (config : BitwardenProviderConfig) (response : BitwardenTokenSuccessResponse)
      (s : BitwardenSession C) (w : W)
      → Published config response s w (login_with net config response (s, w))
  unfolding login_with
  login_with-Published config response s w =
      elim (Option-cases
        (checked_add net.instant_max (net.now w) (from_secs response.expires_in))) [
          | inl e ↦
              let late = checked_add-none net.instant_max (net.now w) _ e in
              rw (login_with, e)
                (record {
                  all_steps = (λ h. cc h, λ h. absurd (late h.0));
                  all_at_once = λ h. cc h;
                  or_nothing = λ _ _. refl;
                })
          | inr (exp, e) ↦
              let q =
                checked_add-some net.instant_max (net.now w) (from_secs response.expires_in) e in
              rw (login_with, e)
                (publish-Published config response exp s w (ensure_crypto net config response s)
                  (ensure_crypto-Ready config response s) q.0 q.1)
        ]

  -- After a token response, a login succeeds exactly if the expiry can be represented and the key store
  -- is ready, or the crypto bootstrap makes it so. It then publishes the token, its expiry and the
  -- readiness of the store together; else the authentication state stays as it was at the response.
  -- Without a token response the login fails with the error of the request.
  pub login-Published :
      (config : BitwardenProviderConfig) (st : State net)
      → ((response : BitwardenTokenSuccessResponse) (s : BitwardenSession C) (w : W)
          → request_token net config st ≡ (ok response, (s, w))
          → Published config response s w (login net config st))
        × ((e : BitwardenAuthError E CryptoError) (st' : State net)
            → request_token net config st ≡ (err e, st')
            → login net config st ≡ (err e, st'))
  unfolding login
  login-Published config st = (
    λ response s w h.
        subst (λ r. Published config response s w (continue r (login_with net config))) (sym h)
          (login_with-Published config response s w),
    λ e st' h. ap (λ r. continue r (login_with net config)) h,
  )
