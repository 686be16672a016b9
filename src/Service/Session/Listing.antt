-- ===== src/Service/Session/Listing.antt =====
-- `request_identities`: what is listed, in which order, whatever order the map is iterated in.
use mathlib.Core.HLevel.{hedberg}
use mathlib.Core.Logic.Or
use mathlib.Core.List.{Perm, Mem, mem-cons, mem-cons_of_mem}
use mathlib.Core.List.Perm
use keyring_rs.Base.{◌≡◌, refl, ◌≢◌, sym, ap, List, [], ◌∷◌, map, All, some, arith}
use keyring_rs.Base.Result.{ok, err, continue}
use keyring_rs.Base.Run.{change_error}
use keyring_rs.Base.Sort.{
  IsTotalOrder, Distinct, Ascending, sorted_by, sorted_by-Ascending, sorted_by-Perm, All-sorted_by,
  sorted_by-perm,
}
use keyring_rs.Core.Provider.{SshKey}
use keyring_rs.Service.Index.{Index, get}
use keyring_rs.Service.Index.Laws.{entry_key}
use keyring_rs.Service.Session.{
  LoadError, load_failed, ServiceSession, AgentIdentity, load_once, request_identities, identity_of,
  pubkey_of,
}

module _ (K : SshKey) where
  -- What a client sees of an index.
  pub record IsListing (m : Index K) (ids : List (AgentIdentity K.KeyData)) : Type 0 where
    -- in strictly ascending order of the public keys
    pub ascending : Ascending (pubkey_of K) K.cmp ids
    -- each identity is an entry, with the comment of its key
    pub sound :
        All
          (λ id. (k : K.PrivateKey) × (get K id.pubkey m ≡ some k) × (K.comment k ≡ id.comment))
          ids
    -- each entry is listed
    pub complete :
        (d : K.KeyData) (k : K.PrivateKey)
        → get K d m ≡ some k
        → Mem (record { pubkey = d; comment = K.comment k }) ids

  pub identities-Distinct :
      (m : Index K) → Distinct (entry_key K) m → Distinct (pubkey_of K) (map (identity_of K) m)
  identities-Distinct [] t = tt
  identities-Distinct (e ∷ m) t = (ne e m t.0, identities-Distinct m t.1)
    where
      ne :
          (e : K.KeyData × K.PrivateKey) (m : Index K)
          → All (λ y. entry_key K e ≢ entry_key K y) m
          → All (λ y. pubkey_of K (identity_of K e) ≢ pubkey_of K y) (map (identity_of K) m)
      ne e [] t = tt
      ne (d, k) ((c, j) ∷ m) t = (t.0, ne (d, k) m t.1)

  All-get :
      (d : K.KeyData) (j : K.PrivateKey) (m n : Index K)
      → All (λ e. d ≢ entry_key K e) n
      → All
          (λ id. (k : K.PrivateKey) × (get K id.pubkey m ≡ some k) × (K.comment k ≡ id.comment))
          (map (identity_of K) n)
      → All
          (λ id.
            (k : K.PrivateKey) × (get K id.pubkey ((d, j) ∷ m) ≡ some k)
            × (K.comment k ≡ id.comment))
          (map (identity_of K) n)
  unfolding get
  All-get d j m [] h t = tt
  All-get d j m ((c, k) ∷ n) h t =
      let (i, found, same) = t.0 in ((i, ground arith, same), All-get d j m n h.1 t.1)

  identities_sound :
      (m : Index K)
      → Distinct (entry_key K) m
      → All
          (λ id. (k : K.PrivateKey) × (get K id.pubkey m ≡ some k) × (K.comment k ≡ id.comment))
          (map (identity_of K) m)
  unfolding get
  identities_sound [] t = tt
  identities_sound ((d, k) ∷ m) t =
      ((k, ground arith, refl), All-get d k m m t.0 (identities_sound m t.1))

  identities-complete :
      (m : Index K) (d : K.KeyData) (k : K.PrivateKey)
      → get K d m ≡ some k
      → Mem (record { pubkey = d; comment = K.comment k }) (map (identity_of K) m)
  unfolding get
  identities-complete [] d k h = cc
  identities-complete ((c, j) ∷ m) d k h = elim (K.key_data_eq c d) [
    | yes same ↦ mem-cons.1 (Or.inl (ground arith))
    | no differ ↦ mem-cons_of_mem _ (identities-complete m d k (ground arith))
  ]

  abbrev pub listing : Index K → List (AgentIdentity K.KeyData)
  listing m = sorted_by (pubkey_of K) K.cmp (map (identity_of K) m)

  listing-IsListing :
      IsTotalOrder K.cmp → (m : Index K) → Distinct (entry_key K) m → IsListing m (listing m)
  listing-IsListing order m t = record {
    ascending =
        sorted_by-Ascending (pubkey_of K) K.cmp order (map (identity_of K) m)
          (identities-Distinct m t);
    sound =
        All-sorted_by (pubkey_of K) K.cmp
          (λ id. (k : K.PrivateKey) × (get K id.pubkey m ≡ some k) × (K.comment k ≡ id.comment))
          (map (identity_of K) m) (identities_sound m t);
    complete = λ d k found.
        Perm.subset (Perm.symm (sorted_by-perm (pubkey_of K) K.cmp (map (identity_of K) m))) _
          (identities-complete m d k found);
  }

  pub Identity-set : IsSet (AgentIdentity K.KeyData)
  Identity-set = hlevel (hedberg K.key_data_eq)

  -- Whatever order the map is iterated in, a request on an index of distinct keys returns the one
  -- list that ascends strictly by public key and holds exactly the entries, with their comments.
  pub request_identities-IsListing :
      {W E : Type 0} (iter : Index K → Index K)
      → IsTotalOrder K.cmp
      → ((m : Index K) → Perm m (iter m))
      → (s s' : ServiceSession K W E × W) (m : Index K) → load_once K s ≡ (ok m, s')
      → Distinct (entry_key K) m
      → (request_identities K iter s ≡ (ok (listing m), s')) × IsListing m (listing m)
  unfolding request_identities
  request_identities-IsListing iter order any_order s s' m loaded t = (
    rw (loaded, change_error, continue)
        (ap (λ ids. (ok ids, s'))
          (sym (
            sorted_by-Perm (pubkey_of K) K.cmp order Identity-set (identities-Distinct m t)
              (Perm.map (identity_of K) (any_order m))))),
    listing-IsListing order m t,
  )

  -- If loading fails, so does the listing, and the session is as the failed load left it.
  pub request_identities-err :
      {W E : Type 0} (iter : Index K → Index K) (s s' : ServiceSession K W E × W) (e : LoadError E)
      → load_once K s ≡ (err e, s')
      → request_identities K iter s ≡ (err (load_failed e), s')
  unfolding request_identities
  request_identities-err iter s s' e failed = rw (failed, change_error, continue)
