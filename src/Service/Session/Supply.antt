-- ===== src/Service/Session/Supply.antt =====
-- Indexes of keys that the providers supply.
pub mod Replies
use keyring_rs.Base.{
  ℕ, suc, ◌≡◌, refl, ◌∙◌, sym, ap, subst, ite, inl, inr, Option-cases, All, List, [], ◌∷◌, map,
  Option, none, some, arith,
}
use keyring_rs.Base.Result.{Result, ok, err, Run, ok_or, ok_or-eq-ok, continue}
use keyring_rs.Base.Run.{change_error, change_error-keeps, change_error-ok, continue-elim}
use keyring_rs.Base.Sort.{All-sorted_by}
use keyring_rs.Core.Provider.{SshKey, KeyPairSnapshot, KeyPairProvider}
use keyring_rs.Service.Index.{Index, get, insert, extend}
use keyring_rs.Service.Sig.{Signing, sig}
use keyring_rs.Service.Session.{
  AgentProto, AgentError, unpublished_key, AgentIdentity, LoadError, provider_load_failed,
  load_failed, ServiceAgent, ServiceSession, SignRequest, new_session, load_from, load, load_once,
  init_keys, request_identities, sign, extension, identity_of, pubkey_of,
}
use keyring_rs.Service.Session.Snapshot.{
  Call, lists, signs, extends, perform, perform_all, perform-lists, perform-signs, perform-extends,
}

module _ (K : SshKey) (Good : K.PrivateKey → Type 0) where
  -- An entry of an index, filed under the public key of its good key.
  abbrev pub Entry : K.KeyData × K.PrivateKey → Type 0
  Entry (d, k) = Good k × (K.key_data k ≡ d)

  abbrev pub Stocked : Option (Index K) → Type 0
  Stocked none = Unit
  Stocked (some m) = All Entry m

  insert-Entry :
      (k : K.PrivateKey) (m : Index K)
      → Good k
      → All Entry m
      → All Entry (insert K (K.key_data k) k m)
  unfolding insert
  insert-Entry k [] g t = ((g, refl), tt)
  insert-Entry k ((c, j) ∷ m) g t =
      elim (K.key_data_eq c (K.key_data k))
        as (λ x. All Entry (ite x ((c, k) ∷ m) ((c, j) ∷ insert K (K.key_data k) k m))) [
          | yes same ↦ ((g, sym same), t.1)
          | no differ ↦ (t.0, insert-Entry k m g t.1)
        ]

  extend-Entry :
      (out : Index K) (ks : KeyPairSnapshot K)
      → All Entry out
      → All Good ks
      → All Entry (extend K out ks)
  unfolding extend
  extend-Entry out [] t g = t
  extend-Entry out (k ∷ ks) t g =
      extend-Entry (insert K (K.key_data k) k out) ks (insert-Entry k out g.0 t) g.1

  pub get-Entry :
      (d : K.KeyData) (k : K.PrivateKey) (m : Index K)
      → All Entry m
      → get K d m ≡ some k
      → Good k × (K.key_data k ≡ d)
  unfolding get
  get-Entry d k [] t h = cc h
  get-Entry d k ((c, j) ∷ m) t h =
      (elim (K.key_data_eq c d)
          as (λ x. ite x (some j) (get K d m) ≡ some k → Good k × (K.key_data k ≡ d)) [
            | yes same ↦ λ q. subst (λ i. Good i × (K.key_data i ≡ d)) (cc q) (t.0.0, t.0.1 ∙ same)
            | no differ ↦ λ q. get-Entry d k m t.1 q
          ])
        h

module _ (K : SshKey) {W E : Type 0} (Inv : W → Type 0) (Good : K.PrivateKey → Type 0) where
  -- A provider keeps the world in order, and the keys that it returns are good.
  abbrev pub Supplies : KeyPairProvider K W E → Type 0
  Supplies src =
      (w : W) → Inv w → Inv (src w).1 × ((ks : KeyPairSnapshot K) → (src w).0 ≡ ok ks → All Good ks)

  abbrev Loaded : Result (LoadError E) (Index K) × W → Type 0
  Loaded r = Inv r.1 × ((m : Index K) → r.0 ≡ ok m → All (Entry K Good) m)

  load_from-Loaded :
      (i : ℕ) (ps : List (KeyPairProvider K W E)) (out : Index K) (w : W)
      → All Supplies ps
      → Inv w
      → All (Entry K Good) out
      → Loaded (load_from K i ps out w)
  unfolding load_from
  load_from-Loaded i [] out w hs inv t = (inv, λ m h. subst (All (Entry K Good)) (cc h) t)
  load_from-Loaded i (src ∷ rest) out w hs inv t =
      let r = change_error (provider_load_failed i) (src w) in
      let supplied = hs.0 w inv in
      let inv' = change_error-keeps Inv (provider_load_failed i) (src w) supplied.0 in
      continue-elim Loaded r _
        (λ ks h. load_from-Loaded (suc i) rest (extend K out ks) r.1 hs.1 inv' (
          extend-Entry K Good out ks t (
            supplied.1 ks (ap (λ q. q.0) (change_error-ok (provider_load_failed i) (src w) ks h)))))
        (λ e h. (inv', λ m q. cc q))

  -- A session whose providers supply good keys, with what it has cached of them.
  pub record Supplied (st : ServiceSession K W E × W) : Type 0 where
    pub world : Inv st.1
    pub providers : All Supplies st.0.providers
    pub stock : Stocked K Good st.0.keys

  init_keys-Supplied :
      (session : ServiceSession K W E) (r : Result (LoadError E) (Index K) × W)
      → All Supplies session.providers
      → Stocked K Good session.keys
      → Loaded r
      → Supplied (init_keys K session r).1
        × ((m : Index K) → (init_keys K session r).0 ≡ ok m → All (Entry K Good) m)
  init_keys-Supplied session (ok m, w) hs st l =
      (record { world = l.0; providers = hs; stock = l.1 m refl }, λ n h. l.1 n h)
  init_keys-Supplied session (err e, w) hs st l =
      (record { world = l.0; providers = hs; stock = st }, λ n h. cc h)

  pub load_once-Supplied :
      (st : ServiceSession K W E × W)
      → Supplied st
      → Supplied (load_once K st).1
        × ((m : Index K) → (load_once K st).0 ≡ ok m → All (Entry K Good) m)
  unfolding load_once load
  load_once-Supplied (session, w) h = elim (Option-cases session.keys) [
    | inl cold ↦
        rw (load_once, cold)
          (init_keys-Supplied session (load_from K 0 session.providers [] w) h.providers h.stock
            (load_from-Loaded 0 session.providers [] w h.providers h.world tt))
    | inr (m, warm) ↦
        rw (load_once, warm)
          (h, λ n q. subst (All (Entry K Good)) (cc q) (subst (Stocked K Good) warm h.stock))
  ]
