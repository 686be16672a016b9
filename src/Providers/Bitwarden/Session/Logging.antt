-- ===== src/Providers/Bitwarden/Session/Logging.antt =====
-- The requests of one task are confined, whether they are recorded or not.
use keyring_rs.Base.{◌≡◌, refl, ap, All}
use keyring_rs.Providers.Bitwarden.Config.{BitwardenProviderConfig}
use keyring_rs.Providers.Bitwarden.Auth.{
  BitwardenTokenSuccessResponse, HttpConfiguration, token_post,
}
use keyring_rs.Providers.Bitwarden.Auth.Laws.{Granted}
use keyring_rs.Providers.Bitwarden.KeyStore.{Crypto, CryptoError}
use keyring_rs.Providers.Bitwarden.Session.{State}
use keyring_rs.Providers.Bitwarden.Session.Confinement.{
  Sent, posted, got, logged, Issued, Permitted, Respects,
}
use keyring_rs.Providers.Bitwarden.Session.Confined.{Confines}
use keyring_rs.Providers.Bitwarden.Net.{Net}

module _ {C : Crypto} {W E : Type 0} (net : Net C W E) (config : BitwardenProviderConfig)
    (respects : Respects net config) where
  -- A session alone.
  pub Respects-Confines : Confines net net config (λ w. Unit)
  Respects-Confines = record {
    grants = λ id before after token own g. record {
      id = id;
      token = token;
      before = before;
      after = after;
      own = own;
      granted = g;
      same = refl;
    };
    post_keeps = λ p st _ h. (respects.post-IsOwn p st h.0, tt);
    get_keeps = λ g st _ h. (respects.get-IsOwn g st h.0, tt);
    bytes_keeps = λ r st h. (respects.bytes-IsOwn r st h.0, tt);
    gate_keeps = λ st h. (respects.gate-IsOwn st h.0, tt);
    build_keeps = λ connect read total w h. h;
  }

  module _ (Allowed : Sent → Type 0)
      (allows : (x : Sent) → Permitted net config x → Allowed x) where
    Granted-logged :
        (id : HttpConfiguration) (before after : State (logged net))
        (token : BitwardenTokenSuccessResponse)
        → id.base_path ≡ config.identity_url
        → Granted
            (logged net).http
            CryptoError
            id
            config.client_id
            config.client_secret
            before
            token
            after
        → Issued net config token.access_token
    unfolding token_post
    Granted-logged id before after token own g = record {
      id = id;
      token = token;
      before = (before.0, before.1.0);
      after = (after.0, after.1.0);
      own = own;
      granted = record {
        response = g.response;
        between = (g.between.0, g.between.1.0);
        body = g.body;
        posted = ap (λ q. (q.0, (q.1.0, q.1.1.0))) g.posted;
        read = ap (λ q. (q.0, (q.1.0, q.1.1.0))) g.read;
        successful = g.successful;
        decoded = g.decoded;
      };
      same = refl;
    }

    -- A session with a log of requests that are allowed, as the permitted ones are.
    pub logged-Confines : Confines net (logged net) config (λ w. All Allowed w.1)
    logged-Confines = record {
      grants = Granted-logged;
      post_keeps = λ p st permitted h.
          (respects.post-IsOwn p (st.0, st.1.0) h.0, (allows (posted p) permitted, h.1));
      get_keeps = λ g st permitted h.
          (respects.get-IsOwn g (st.0, st.1.0) h.0, (allows (got g) permitted, h.1));
      bytes_keeps = λ r st h. (respects.bytes-IsOwn r (st.0, st.1.0) h.0, h.1);
      gate_keeps = λ st h. (respects.gate-IsOwn (st.0, st.1.0) h.0, h.1);
      build_keeps = λ connect read total w h. h;
    }
