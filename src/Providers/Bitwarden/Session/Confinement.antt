-- ===== src/Providers/Bitwarden/Session/Confinement.antt =====
-- Where the requests of a session go, and which secrets they carry.
use keyring_rs.Base.{
  ◌≡◌, subst, inl, inr, Bool-cases, Option-cases, List, ◌∷◌, ◌++◌, Option, none, some,
}
use keyring_rs.Base.Text.{Text, text, text_eq}
use keyring_rs.Providers.Bitwarden.Config.{BitwardenProviderConfig}
use keyring_rs.Providers.Bitwarden.Auth.{
  BitwardenTokenSuccessResponse, TokenPost, SyncGet, HttpConfiguration, new_token_request,
}
use keyring_rs.Providers.Bitwarden.Auth.Laws.{Granted}
use keyring_rs.Providers.Bitwarden.KeyStore.{Crypto, CryptoError}
use keyring_rs.Providers.Bitwarden.Session.{invalidate, State}
use keyring_rs.Providers.Bitwarden.Session.Recording.{recorded}
use keyring_rs.Providers.Bitwarden.Net.{BitwardenSession, Net}

pub data Sent : Type 0 where
  posted : TokenPost → Sent
  got : SyncGet → Sent

-- The same net, with a log of the requests of the one task whose code runs, the newest first.
abbrev pub logged : {C : Crypto} {W E : Type 0} → Net C W E → Net C (W × List Sent) E
logged net = recorded net (λ p log. posted p ∷ log) (λ g log. got g ∷ log)

module _ {C : Crypto} {W E : Type 0} (net : Net C W E) (config : BitwardenProviderConfig) where
  -- A token that the identity server of the configuration granted to its credentials.
  pub record Issued (bearer : Text) : Type 0 where
    pub id : HttpConfiguration
    pub token : BitwardenTokenSuccessResponse
    pub before : State net
    pub after : State net
    pub own : id.base_path ≡ config.identity_url
    pub granted :
        Granted net.http CryptoError id config.client_id config.client_secret before token after
    pub same : token.access_token ≡ bearer

  -- The credentials go to the identity server, with nothing else of the configuration, and tokens that
  -- this server issued go to the API server.
  abbrev pub Permitted : Sent → Type 0
  Permitted (posted p) =
      (p.url ≡ config.identity_url ++ text "/connect/token")
      × (p.form ≡ new_token_request config.client_id config.client_secret)
  Permitted (got g) = (g.url ≡ config.api_url ++ text "/sync?excludeDomains=true") × Issued g.bearer

  abbrev pub OfToken : Option Text → Type 0
  OfToken none = Unit
  OfToken (some bearer) = Issued bearer

  -- A session of the configuration.
  pub record IsOwn (s : BitwardenSession C) : Type 0 where
    pub api_url : s.api.base_path ≡ config.api_url
    pub identity_url : s.id.base_path ≡ config.identity_url
    pub issued : OfToken s.state.token

  -- Other tasks, at the awaits of this one, leave the session one of the configuration.
  pub record Respects : Type 0 where
    pub post-IsOwn : (p : TokenPost) (st : State net) → IsOwn st.0 → IsOwn (net.http.post p st).1.0
    pub get-IsOwn : (g : SyncGet) (st : State net) → IsOwn st.0 → IsOwn (net.http.get g st).1.0
    pub bytes-IsOwn :
        (r : net.http.Response) (st : State net) → IsOwn st.0 → IsOwn (net.http.bytes r st).1.0
    pub gate-IsOwn : (st : State net) → IsOwn st.0 → IsOwn (net.gate st).0

  pub OfToken-some :
      (token : Option Text) (bearer : Text) → token ≡ some bearer → OfToken token → Issued bearer
  OfToken-some none bearer e h = cc e
  OfToken-some (some t) bearer e h = subst Issued (cc e) h

  pub invalidate-IsOwn :
      (rejected : Text) (s : BitwardenSession C)
      → IsOwn s
      → IsOwn (record s { state = invalidate rejected s.state })
  unfolding invalidate
  invalidate-IsOwn rejected s h = elim (Option-cases s.state.token) [
    | inl e ↦ rw (invalidate, e) h
    | inr (t, e) ↦ elim (Bool-cases (text_eq t rejected)) [
      | inl q ↦
          rw (invalidate, e, q)
            (record { api_url = h.api_url; identity_url = h.identity_url; issued = tt })
      | inr q ↦ rw (invalidate, e, q) h
    ]
  ]
