-- ===== src/Cli/Handle/Conversation.antt =====
-- What a client is told by a session that has its keys from good providers.
use keyring_rs.Base.{
  ◌≡◌, refl, sym, ap, subst, inl, inr, Option-cases, All, List, [], ◌∷◌, Option, none, some, Paired,
}
use keyring_rs.Base.Result.{Result, ok, err}
use keyring_rs.Core.Provider.{SshKey}
use keyring_rs.Service.Index.{Index}
use keyring_rs.Service.Sig.{Signing}
use keyring_rs.Service.Session.{
  AgentProto, AgentError, AgentIdentity, ServiceSession, SignRequest, request_identities, sign,
  extension,
}
use keyring_rs.Service.Session.Snapshot.{Call, lists, signs, extends, perform, perform_all}
use keyring_rs.Service.Session.Supply.{Supplied}
use keyring_rs.Service.Session.Supply.Replies.{
  Listed, SignedBy, perform_all-Supplied, request_identities-Listed, sign-SignedBy,
}
use keyring_rs.Cli.Handle.{
  Round, HandleError, extension_failed, other_error, Response, reply, failure, to_response, handle,
}
use keyring_rs.Cli.Handle.Laws.{all_served, replies, handle-replies}

-- The two patterns under which `handle` matches an error.
abbrev pub handle_error : {E X : Type 0} → (AgentError E → X) → AgentError E → HandleError X
handle_error other AgentError.extension_failure = extension_failed
handle_error other e = other_error (other e)

abbrev pub forwarded :
    {T A E Res X : Type 0}
    → (AgentError E → X)
    → (A → Res)
    → Result (AgentError E) A × T
    → Result (HandleError X) Res × T
forwarded other wrap (ok a, t) = (ok (wrap a), t)
forwarded other wrap (err e, t) = (err (handle_error other e), t)

module _ (K : SshKey) (S : Signing K) (P : AgentProto) {W E Req Res X : Type 0}
    (iter : Index K → Index K)
    (answer : Req
      → ServiceSession K W E × W
      → Result (HandleError X) Res × (ServiceSession K W E × W)) where
  abbrev pub Client : Type 0
  Client = ServiceSession K W E × W

  -- What the documentation of `ssh_agent_lib` says of `Session::handle`: it passes a request on to the
  -- operation for it and wraps what that returns, and it refuses requests without an operation.
  pub record Dispatches : Type 0 where
    pub call : Req → Option (Call K P)
    pub identities_answer : List (AgentIdentity K.KeyData) → Res
    pub sign_response : S.Signature → Res
    pub extension_answer : Option P.Extension → Res
    pub other : AgentError E → X
    pub unsupported : X
    pub listing :
        (req : Req) (st : Client)
        → call req ≡ some lists
        → answer req st ≡ forwarded other identities_answer (request_identities K iter st)
    pub signing :
        (req : Req) (r : SignRequest K.KeyData) (st : Client)
        → call req ≡ some (signs r)
        → answer req st ≡ forwarded other sign_response (sign K S r st)
    pub extending :
        (req : Req) (ext : P.Extension) (session : ServiceSession K W E) (w : W)
        → call req ≡ some (extends ext)
        → answer req (session, w)
          ≡ forwarded other extension_answer (let r = extension K P ext session in (r.0, (r.1, w)))
    pub refusing :
        (req : Req) (st : Client)
        → call req ≡ none
        → answer req st ≡ (err (other_error unsupported), st)

  module _ (d : Dispatches) (Good : K.PrivateKey → Type 0) where
    -- A response that may be written to a request: a list of identities of good keys to a listing, a
    -- signature of the requested data by a good key with the requested public key to a sign request, an
    -- answer to an extension message, or a failure.
    pub data Vouched (req : Req) : Response Res → Type 0 where
      listed :
          (ids : List (AgentIdentity K.KeyData))
          → d.call req ≡ some lists
          → All (Listed K Good) ids
          → Vouched req (reply (d.identities_answer ids))
      signed :
          (r : SignRequest K.KeyData) (signature : S.Signature)
          → d.call req ≡ some (signs r)
          → SignedBy K Good S r signature
          → Vouched req (reply (d.sign_response signature))
      extended :
          (ext : P.Extension) (o : Option P.Extension)
          → d.call req ≡ some (extends ext)
          → Vouched req (reply (d.extension_answer o))
      fails : Vouched req failure
      extension_fails : Vouched req Response.extension_failure

    error-Vouched :
        (req : Req) (e : AgentError E)
        → Vouched req (to_response answer (err (handle_error d.other e)))
    error-Vouched req (AgentError.load_failed e) = fails
    error-Vouched req AgentError.unpublished_key = fails
    error-Vouched req AgentError.query_failed = fails
    error-Vouched req AgentError.extension_failure = extension_fails
    error-Vouched req AgentError.failure = fails
    error-Vouched req (AgentError.sign_failed e) = fails

    forwarded-Vouched :
        {A : Type 0} (req : Req) (wrap : A → Res) (r : Result (AgentError E) A × Client)
        → ((a : A) → r.0 ≡ ok a → Vouched req (reply (wrap a)))
        → (to : Result (HandleError X) Res × Client) → to ≡ forwarded d.other wrap r
        → Vouched req (to_response answer to.0) × (to.1 ≡ r.1)
    forwarded-Vouched req wrap (ok a, st) good to e =
        (subst (λ t. Vouched req (to_response answer t.0)) (sym e) (good a refl), ap (λ t. t.1) e)
    forwarded-Vouched req wrap (err x, st) good to e = (
      subst (λ t. Vouched req (to_response answer t.0)) (sym e) (error-Vouched req x),
      ap (λ t. t.1) e,
    )

    module _ (Inv : W → Type 0)
        (visits : (Q : K.KeyData × K.PrivateKey → Type 0) (m : Index K)
          → All Q m
          → All Q (iter m)) where
      abbrev Fine : Client → Type 0
      Fine = Supplied K Inv Good

      answer-Vouched :
          (req : Req) (st : Client)
          → Fine st
          → Fine (answer req st).1 × Vouched req (to_response answer (answer req st).0)
      unfolding perform_all perform
      answer-Vouched req (session, w) h = elim (Option-cases (d.call req)) [
        | inl q ↦ rw (d.refusing req (session, w) q) (h, fails)
        | inr (lists, q) ↦
            let f =
              forwarded-Vouched req d.identities_answer (request_identities K iter (session, w))
                (λ ids e.
                  listed ids q
                    (request_identities-Listed K Inv Good S P iter visits (session, w) h ids e))
                (answer req (session, w)) (d.listing req (session, w) q) in
            (
              subst Fine (sym f.1)
                  (perform_all-Supplied K Inv Good S P iter (lists ∷ []) (session, w) h),
              f.0,
            )
        | inr (signs r, q) ↦
            let f =
              forwarded-Vouched req d.sign_response (sign K S r (session, w))
                (λ signature e.
                  signed r signature q
                    (sign-SignedBy K Inv Good S P iter r (session, w) h signature e))
                (answer req (session, w)) (d.signing req r (session, w) q) in
            (
              subst Fine (sym f.1)
                  (perform_all-Supplied K Inv Good S P iter (signs r ∷ []) (session, w) h),
              f.0,
            )
        | inr (extends ext, q) ↦
            let r = extension K P ext session in
            let f =
              forwarded-Vouched req d.extension_answer (r.0, (r.1, w)) (λ o e. extended ext o q)
                (answer req (session, w)) (d.extending req ext session w q) in
            (
              subst Fine (sym f.1)
                  (perform_all-Supplied K Inv Good S P iter (extends ext ∷ []) (session, w) h),
              f.0,
            )
      ]

      replies-Vouched :
          (reqs : List Req) (st : Client) → Fine st → Paired Vouched reqs (replies answer reqs st)
      replies-Vouched [] st h = tt
      replies-Vouched (req ∷ reqs) st h =
          let a = answer-Vouched req st h in (a.1, replies-Vouched reqs (answer req st).1 a.0)

      -- A client whose session has its keys from good providers is written one response for each
      -- request that is served, in order, and each is vouched for.
      pub handle-Vouched :
          (rounds : List (Round Req X)) (st : Client)
          → Fine st
          → Paired Vouched (all_served rounds) (handle answer rounds st).written
      handle-Vouched rounds st h =
          rw (handle-replies answer rounds st) (replies-Vouched (all_served rounds) st h)
