-- ===== src/Providers/Bitwarden/Session/Recording.antt =====
-- A net that records in a log `L` the requests of the one task whose code runs.
use keyring_rs.Base.Result.{Run}
use keyring_rs.Providers.Bitwarden.Auth.{TokenPost, SyncGet}
use keyring_rs.Providers.Bitwarden.KeyStore.{Crypto}
use keyring_rs.Providers.Bitwarden.Net.{Net}

abbrev pub noting : {B W L E A : Type 0} → Run (B × W) E A → (L → L) → Run (B × (W × L)) E A
noting f note st = let r = f (st.0, st.1.0) in (r.0, (r.1.0, (r.1.1, note st.1.1)))

abbrev pub recorded :
    {C : Crypto} {W L E : Type 0}
    → Net C W E
    → (TokenPost → L → L)
    → (SyncGet → L → L)
    → Net C (W × L) E
recorded net post_note get_note = record {
  http = record {
    Response = net.http.Response;
    Bytes = net.http.Bytes;
    post = λ p. noting (net.http.post p) (post_note p);
    get = λ g. noting (net.http.get g) (get_note g);
    status = net.http.status;
    bytes = λ r. noting (net.http.bytes r) (λ log. log);
    decode_token = net.http.decode_token;
  };
  build_client = λ connect read total st.
      let r = net.build_client connect read total st.0 in (r.0, (r.1, st.1));
  gate = λ st. let t = net.gate (st.0, st.1.0) in (t.0, (t.1, st.1.1));
  now = λ st. net.now st.0;
  instant_max = net.instant_max;
  decode_sync = net.decode_sync;
}
