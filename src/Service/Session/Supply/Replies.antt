-- ===== src/Service/Session/Supply/Replies.antt =====
-- What a session tells its client, whatever it has been asked before.
use keyring_rs.Base.{◌≡◌, refl, sym, ap, subst, All, List, [], ◌∷◌, map, arith}
use keyring_rs.Base.Result.{Result, ok, ok_or, ok_or-eq-ok}
use keyring_rs.Base.Run.{change_error, change_error-ok, continue-elim}
use keyring_rs.Base.Sort.{All-sorted_by}
use keyring_rs.Core.Provider.{SshKey}
use keyring_rs.Service.Index.{Index, get}
use keyring_rs.Service.Sig.{Signing, sig}
use keyring_rs.Service.Session.{
  AgentProto, AgentError, unpublished_key, sign_failed, AgentIdentity, load_failed, ServiceSession,
  SignRequest, load_once, request_identities, sign, extension, identity_of, pubkey_of,
}
use keyring_rs.Service.Session.Snapshot.{
  Call, lists, signs, extends, perform, perform_all, perform-lists, perform-signs, perform-extends,
}
use keyring_rs.Service.Session.Supply.{
  Entry, get-Entry, Supplies, Stocked, Supplied, load_once-Supplied,
}

module _ (K : SshKey) (Good : K.PrivateKey → Type 0) where
  -- An identity of a good key.
  pub record Listed (id : AgentIdentity K.KeyData) : Type 0 where
    pub key : K.PrivateKey
    pub good : Good key
    pub pubkey : K.key_data key ≡ id.pubkey
    pub comment : K.comment key ≡ id.comment

  identities-Listed : (m : Index K) → All (Entry K Good) m → All Listed (map (identity_of K) m)
  identities-Listed [] t = tt
  identities-Listed ((d, k) ∷ m) t =
      (record { key = k; good = t.0.0; pubkey = t.0.1; comment = refl }, identities-Listed m t.1)

  -- A signature by a good key that has the requested public key.
  pub record SignedBy (S : Signing K) (req : SignRequest K.KeyData) (signature : S.Signature)
      : Type 0 where
    pub key : K.PrivateKey
    pub good : Good key
    pub pubkey : K.key_data key ≡ req.pubkey
    pub signed : sig S key req.bytes req.flags ≡ ok signature

module _ (K : SshKey) {W E : Type 0} (Inv : W → Type 0) (Good : K.PrivateKey → Type 0) where
  module _ (S : Signing K) (P : AgentProto) (iter : Index K → Index K) where
    extends-providers :
        (ext : P.Extension) (session : ServiceSession K W E) (w : W)
        → (perform K S P iter (extends ext) (session, w)).0.providers ≡ session.providers
    unfolding perform extension
    extends-providers ext session w = ground arith

    extends-Supplied :
        (ext : P.Extension) (session : ServiceSession K W E) (w : W)
        → Supplied K Inv Good (session, w)
        → Supplied K Inv Good (perform K S P iter (extends ext) (session, w))
    unfolding perform
    extends-Supplied ext session w h =
        let (keys, world) = perform-extends K S P iter ext session w in
        record {
          world = subst Inv (sym world) h.world;
          providers =
              subst (All (Supplies K Inv Good)) (sym (extends-providers ext session w)) h.providers;
          stock = subst (Stocked K Good) (sym keys) h.stock;
        }

    perform-Supplied :
        (c : Call K P) (st : ServiceSession K W E × W)
        → Supplied K Inv Good st
        → Supplied K Inv Good (perform K S P iter c st)
    perform-Supplied lists st h =
        rw (perform-lists K S P iter st) (load_once-Supplied K Inv Good st h).0
    perform-Supplied (signs req) st h =
        rw (perform-signs K S P iter req st) (load_once-Supplied K Inv Good st h).0
    perform-Supplied (extends ext) (session, w) h = extends-Supplied ext session w h

    pub perform_all-Supplied :
        (cs : List (Call K P)) (st : ServiceSession K W E × W)
        → Supplied K Inv Good st
        → Supplied K Inv Good (perform_all K S P iter cs st)
    unfolding perform_all
    perform_all-Supplied [] st h = h
    perform_all-Supplied (c ∷ cs) st h =
        perform_all-Supplied cs (perform K S P iter c st) (perform-Supplied c st h)

    pub request_identities-Listed :
        ((Q : K.KeyData × K.PrivateKey → Type 0) (m : Index K) → All Q m → All Q (iter m))
        → (st : ServiceSession K W E × W) → Supplied K Inv Good st
        → (ids : List (AgentIdentity K.KeyData)) → (request_identities K iter st).0 ≡ ok ids
        → All (Listed K Good) ids
    unfolding request_identities
    request_identities-Listed visits st h =
        let loaded = change_error load_failed (load_once K st) in
        continue-elim Q loaded _
          (λ m found ids q. subst (All (Listed K Good)) (cc q) (
            All-sorted_by (pubkey_of K) K.cmp (Listed K Good) (map (identity_of K) (iter m)) (
              identities-Listed K Good (iter m) (
                visits (Entry K Good) m (
                  (load_once-Supplied K Inv Good st h).1 m
                    (ap (λ r. r.0) (change_error-ok load_failed (load_once K st) m found)))))))
          (λ e _ ids q. cc q)
      where
        Q :
            Result (AgentError E) (List (AgentIdentity K.KeyData)) × (ServiceSession K W E × W)
            → Type 0
        Q r = (ids : List (AgentIdentity K.KeyData)) → r.0 ≡ ok ids → All (Listed K Good) ids

    pub sign-SignedBy :
        (req : SignRequest K.KeyData) (st : ServiceSession K W E × W)
        → Supplied K Inv Good st
        → (signature : S.Signature) → (sign K S req st).0 ≡ ok signature
        → SignedBy K Good S req signature
    unfolding sign
    sign-SignedBy req st h =
        let loaded = change_error load_failed (load_once K st) in
        continue-elim Q loaded _
          (λ m found.
            continue-elim Q (ok_or (get K req.pubkey m) unpublished_key, loaded.1) _
              (λ key got signature q.
                let e =
                  get-Entry K Good req.pubkey key m
                    ((load_once-Supplied K Inv Good st h).1 m
                      (ap (λ r. r.0) (change_error-ok load_failed (load_once K st) m found)))
                    (ok_or-eq-ok (get K req.pubkey m) unpublished_key got) in
                record {
                  key = key;
                  good = e.0;
                  pubkey = e.1;
                  signed =
                      ap (λ r. r.0)
                        (change_error-ok sign_failed (sig S key req.bytes req.flags, loaded.1)
                          signature q);
                })
              (λ e _ signature q. cc q))
          (λ e _ signature q. cc q)
      where
        Q : Result (AgentError E) S.Signature × (ServiceSession K W E × W) → Type 0
        Q r = (signature : S.Signature) → r.0 ≡ ok signature → SignedBy K Good S req signature
