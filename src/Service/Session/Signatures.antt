-- ===== src/Service/Session/Signatures.antt =====
-- `sign`: which private key answers a request.
use keyring_rs.Base.{◌≡◌, ◌∙◌, ap, Option, none, some, arith}
use keyring_rs.Base.Result.{Result, ok, err, map_err, continue}
use keyring_rs.Base.Run.{change_error}
use keyring_rs.Core.Provider.{SshKey, KeyPairSnapshot}
use keyring_rs.Service.Index.{Index, get}
use keyring_rs.Service.Index.Laws.{last_with}
use keyring_rs.Service.Sig.{Signing, sig}
use keyring_rs.Service.Session.{
  LoadError, AgentError, load_failed, unpublished_key, sign_failed, ServiceSession, SignRequest,
  load_once, sign,
}
use keyring_rs.Service.Session.Loading.{collect, load_once-last}

module _ (K : SshKey) (S : Signing K) {E : Type 0} where
  -- The reply to a request once the key is looked up.
  abbrev pub reply : SignRequest K.KeyData → Option K.PrivateKey → Result (AgentError E) S.Signature
  reply req none = err unpublished_key
  reply req (some key) = map_err (sig S key req.bytes req.flags) sign_failed

module _ (K : SshKey) (S : Signing K) {W E : Type 0} where
  pub sign-reply :
      (req : SignRequest K.KeyData) (s s' : ServiceSession K W E × W) (m : Index K)
      → load_once K s ≡ (ok m, s')
      → sign K S req s ≡ (reply K S req (get K req.pubkey m), s')
  unfolding sign
  sign-reply req s s' m loaded = rw (loaded, change_error, continue) (ground arith)

  -- The first request on a session signs with the last key, in the order of the providers and of
  -- their snapshots, that has the requested public key; without one it fails as unpublished. If a
  -- provider fails, the request fails and the session stays cold.
  pub sign-last :
      (req : SignRequest K.KeyData) (session : ServiceSession K W E) (w : W)
      → session.keys ≡ none
      → ((keys : KeyPairSnapshot K) (w' : W)
          → collect K 0 session.providers w ≡ (ok keys, w')
          → ((sign K S req (session, w)).0 ≡ reply K S req (last_with K req.pubkey keys))
            × ((sign K S req (session, w)).1.1 ≡ w'))
        × ((e : LoadError E) (w' : W)
            → collect K 0 session.providers w ≡ (err e, w')
            → sign K S req (session, w) ≡ (err (load_failed e), (session, w')))
  unfolding sign
  sign-last req session w cold =
      let (success, failed) = load_once-last K session w cold in
      (
        λ keys w' e.
            let (m, loaded, last) = success keys w' e in
            let answer = sign-reply req (session, w) _ m loaded in
            (ap (λ r. r.0) answer ∙ ap (reply K S req) (last req.pubkey), ap (λ r. r.1.1) answer),
        λ e' w' e. rw (failed e' w' e, change_error, continue),
      )
