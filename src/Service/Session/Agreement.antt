-- ===== src/Service/Session/Agreement.antt =====
-- Listing and signing agree: what a session has listed is what it signs with.
use mathlib.Core.HLevel.{⊥_prop}
use mathlib.Core.Logic.Or
use mathlib.Core.List.{Perm, Mem, mem-cons, not-mem-nil}
use keyring_rs.Base.{
  ◌≡◌, ◌≢◌, refl, ◌∙◌, sym, ap, subst, inl, inr, Option-cases, All, List, [], ◌∷◌, some,
}
use keyring_rs.Base.Result.{Result, ok, err, map_err}
use keyring_rs.Base.Sort.{IsTotalOrder}
use keyring_rs.Core.Provider.{SshKey}
use keyring_rs.Service.Index.{Index, get}
use keyring_rs.Service.Sig.{Signing, sig}
use keyring_rs.Service.Session.{
  LoadError, AgentIdentity, ServiceSession, SignRequest, load_once, request_identities, sign,
  sign_failed, unpublished_key,
}
use keyring_rs.Service.Session.Loading.{
  IsIndexed, load_once-warm, load_once-IsIndexed, load_once-cached,
}
use keyring_rs.Service.Session.Listing.{
  IsListing, listing, request_identities-IsListing, request_identities-err,
}
use keyring_rs.Service.Session.Signatures.{reply, sign-reply}

module _ (K : SshKey) where
  unlisted :
      (d : K.KeyData) (x : AgentIdentity K.KeyData) (ids : List (AgentIdentity K.KeyData))
      → All (λ id. id.pubkey ≢ d) ids
      → x.pubkey ≡ d
      → ¬ Mem x ids
  unlisted d x [] t e h = not-mem-nil h
  unlisted d x (id ∷ ids) t e h =
      Or.elim ⊥_prop (mem-cons.0 h)
        (λ q. t.0 (sym (ap (λ (i : AgentIdentity K.KeyData). i.pubkey) q) ∙ e))
        (unlisted d x ids t.1 e)

module _ (K : SshKey) (S : Signing K) {W E : Type 0} where
  -- A request for a listed key is answered with a signature of the key that was listed, or with the
  -- error of that key's algorithm.
  abbrev pub Answers : ServiceSession K W E × W → AgentIdentity K.KeyData → Type 0
  Answers s id =
      (req : SignRequest K.KeyData)
      → req.pubkey ≡ id.pubkey
      → (k : K.PrivateKey) × (K.comment k ≡ id.comment)
        × (sign K S req s ≡ (map_err (sig S k req.bytes req.flags) sign_failed, s))

  answers :
      (s : ServiceSession K W E × W) (m : Index K)
      → load_once K s ≡ (ok m, s)
      → (ids : List (AgentIdentity K.KeyData))
      → All
          (λ id. (k : K.PrivateKey) × (get K id.pubkey m ≡ some k) × (K.comment k ≡ id.comment))
          ids
      → All (Answers s) ids
  answers s m loaded [] t = tt
  answers s m loaded (id ∷ ids) t = (
    λ req same.
        let (k, found, comment) = t.0 in
        (
          k,
          comment,
          sign-reply K S req s s m loaded
              ∙ ap (λ o. (reply K S req o, s)) (ap (λ d. get K d m) same ∙ found),
        ),
    answers s m loaded ids t.1,
  )

  refuses :
      (s : ServiceSession K W E × W) (m : Index K) (ids : List (AgentIdentity K.KeyData))
      → load_once K s ≡ (ok m, s)
      → IsListing K m ids
      → (req : SignRequest K.KeyData) → All (λ id. id.pubkey ≢ req.pubkey) ids
      → sign K S req s ≡ (err unpublished_key, s)
  refuses s m ids loaded listed req t = elim (Option-cases (get K req.pubkey m)) [
    | inl e ↦ sign-reply K S req s s m loaded ∙ ap (λ o. (reply K S req o, s)) e
    | inr (k, e) ↦ absurd (
        unlisted K req.pubkey (record { pubkey = req.pubkey; comment = K.comment k }) ids t refl
          (listed.complete req.pubkey k e))
  ]

  -- After a listing, the session signs with what it has listed and with nothing else: a request for a
  -- listed key gets the answer of the key that was listed, with its comment, and a request for any
  -- other key is refused as unpublished. No request reaches the providers again.
  pub sign-request_identities :
      (iter : Index K → Index K)
      → IsTotalOrder K.cmp
      → ((m : Index K) → Perm m (iter m))
      → (s s' : ServiceSession K W E × W) (ids : List (AgentIdentity K.KeyData))
      → IsIndexed K s.0.keys
      → request_identities K iter s ≡ (ok ids, s')
      → All (Answers s') ids
        × ((req : SignRequest K.KeyData)
            → All (λ id. id.pubkey ≢ req.pubkey) ids
            → sign K S req s' ≡ (err unpublished_key, s'))
  sign-request_identities iter order any_order s s' ids indexed h = go (load_once K s) refl
    where
      go :
          (r : Result (LoadError E) (Index K) × (ServiceSession K W E × W))
          → load_once K s ≡ r
          → All (Answers s') ids
            × ((req : SignRequest K.KeyData)
                → All (λ id. id.pubkey ≢ req.pubkey) ids
                → sign K S req s' ≡ (err unpublished_key, s'))
      go (err e, t) q = cc (request_identities-err K iter s t e q, h)
      go (ok m, t) q =
          let cached = load_once-cached K s m (ap (λ r. r.0) q) in
          let is_indexed : IsIndexed K (some m) =
            subst (IsIndexed K) cached (load_once-IsIndexed K s.0 s.1 indexed) in
          let l = request_identities-IsListing K iter order any_order s t m q is_indexed.0 in
          let same : s' ≡ t = cc (l.0, h) in
          let ids_same : listing K m ≡ ids = cc (l.0, h) in
          let listed : IsListing K m ids = subst (IsListing K m) ids_same l.1 in
          let warm : s'.0.keys ≡ some m = cc (same, q, cached) in
          let loaded : load_once K s' ≡ (ok m, s') = load_once-warm K s'.0 s'.1 warm in
          (answers s' m loaded ids listed.sound, refuses s' m ids loaded listed)
