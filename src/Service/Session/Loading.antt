-- ===== src/Service/Session/Loading.antt =====
-- Loading the key index of a session, and how long the loaded index lives.
use mathlib.Core.Option.{or_else}
use keyring_rs.Base.{
  ℕ, suc, inl, inr, Option-cases, ◌≡◌, refl, ◌∙◌, ap, List, [], ◌∷◌, ◌++◌, Option, none, some,
  arith,
}
use keyring_rs.Base.Result.{Result, ok, err, Run, continue, map_ok}
use keyring_rs.Base.Run.{◌>>=◌, return, on_error, change_error}
use keyring_rs.Base.Sort.{Distinct}
use keyring_rs.Core.Provider.{SshKey, KeyPairSnapshot, KeyPairProvider}
use keyring_rs.Service.Index.{Index, get, extend}
use keyring_rs.Service.Index.Laws.{
  last_with, get-extend, entry_key, Filed, extend-append, extend-Distinct, extend-Filed,
}
use keyring_rs.Service.Session.{
  LoadError, load, provider_load_failed, ServiceSession, load_from, load_once, init_keys,
}

module _ (K : SshKey) where
  -- The index that a session caches has one entry for each public key, filed under it.
  abbrev pub IsIndexed : Option (Index K) → Type 0
  IsIndexed none = Unit
  IsIndexed (some m) = Distinct (entry_key K) m × Filed K m

module _ (K : SshKey) {W E : Type 0} where
  -- All snapshots of the providers, in order, or the first failure with the provider's index.
  unfoldable pub collect :
      ℕ → List (KeyPairProvider K W E) → Run W (LoadError E) (KeyPairSnapshot K)
  collect i [] = return []
  collect i (src ∷ rest) = do
    keys ← on_error src (provider_load_failed i)
    more ← collect (suc i) rest
    return (keys ++ more)

  -- The outcome of `load` that goes with a collected outcome.
  abbrev pub indexed :
      Index K → Result (LoadError E) (KeyPairSnapshot K) × W → Result (LoadError E) (Index K) × W
  indexed out (r, w) = (map_ok (extend K out) r, w)

  indexed-more :
      (out : Index K) (keys : KeyPairSnapshot K) (r : Result (LoadError E) (KeyPairSnapshot K) × W)
      → indexed (extend K out keys) r ≡ indexed out (continue r (λ more. return (keys ++ more)))
  indexed-more out keys (ok more, w) = cc (extend-append K out keys more)
  indexed-more out keys (err e, w) = refl

  indexed-step :
      (i : ℕ) (rest : List (KeyPairProvider K W E)) (out : Index K)
      → ((o : Index K) (w : W) → load_from K (suc i) rest o w ≡ indexed o (collect (suc i) rest w))
      → (r : Result E (KeyPairSnapshot K) × W)
      → continue
          (change_error (provider_load_failed i) r)
          (λ keys. load_from K (suc i) rest (extend K out keys))
        ≡ indexed out (
            continue
              (change_error (provider_load_failed i) r)
              (λ keys. collect (suc i) rest >>= λ more. return (keys ++ more)))
  indexed-step i rest out ih (ok keys, w) =
      ih (extend K out keys) w ∙ indexed-more out keys (collect (suc i) rest w)
  indexed-step i rest out ih (err e, w) = refl

  -- The loop of `load` indexes the keys of all snapshots, in order.
  pub load_from-collect :
      (i : ℕ) (ps : List (KeyPairProvider K W E)) (out : Index K) (w : W)
      → load_from K i ps out w ≡ indexed out (collect i ps w)
  unfolding load_from collect extend
  load_from-collect i [] out w = refl
  load_from-collect i (src ∷ rest) out w =
      indexed-step i rest out (load_from-collect (suc i) rest) (src w)

  pub load_once-collect :
      (session : ServiceSession K W E) (w : W)
      → session.keys ≡ none
      → load_once K (session, w) ≡ init_keys K session (indexed [] (collect 0 session.providers w))
  unfolding load_once
  load_once-collect session w cold = simp (cold, load_from-collect)

  -- A cold session asks its providers in order. If all succeed, it caches an index in which each
  -- public key has the last key that was loaded for it. If one fails, the error names its position,
  -- and the session stays cold.
  pub load_once-last :
      (session : ServiceSession K W E) (w : W)
      → session.keys ≡ none
      → ((keys : KeyPairSnapshot K) (w' : W)
          → collect 0 session.providers w ≡ (ok keys, w')
          → (m : Index K) × (load_once K (session, w)
              ≡ (ok m, (record session { keys = some m }, w')))
            × ((d : K.KeyData) → get K d m ≡ last_with K d keys))
        × ((e : LoadError E) (w' : W)
            → collect 0 session.providers w ≡ (err e, w')
            → load_once K (session, w) ≡ (err e, (session, w')))
  unfolding extend get or_else
  load_once-last session w cold = (
    λ keys w' e. (
      extend K [] keys,
      load_once-collect session w cold ∙ ap (λ r. init_keys K session (indexed [] r)) e,
      λ d. ground (arith, get-extend K d keys []),
    ),
    λ err' w' e. load_once-collect session w cold ∙ ap (λ r. init_keys K session (indexed [] r)) e,
  )

  pub load_once-warm :
      (session : ServiceSession K W E) (w : W) {m : Index K}
      → session.keys ≡ some m
      → load_once K (session, w) ≡ (ok m, (session, w))
  unfolding load_once
  load_once-warm session w warm = simp warm

  init_keys-IsIndexed :
      (session : ServiceSession K W E) (r : Result (LoadError E) (List K.PrivateKey) × W)
      → IsIndexed K session.keys
      → IsIndexed K (init_keys K session (indexed [] r)).1.0.keys
  init_keys-IsIndexed session (ok keys, w) h =
      (extend-Distinct K [] keys tt, extend-Filed K [] keys tt)
  init_keys-IsIndexed session (err e, w) h = h

  -- What `load_once` caches is an index of loaded keys.
  pub load_once-IsIndexed :
      (session : ServiceSession K W E) (w : W)
      → IsIndexed K session.keys
      → IsIndexed K (load_once K (session, w)).1.0.keys
  load_once-IsIndexed session w h = elim (Option-cases session.keys) [
    | inl cold ↦
        rw (load_once-collect session w cold)
          (init_keys-IsIndexed session (collect 0 session.providers w) h)
    | inr (m, warm) ↦ rw (load_once-warm session w warm) h
  ]

  init_keys-warm :
      (session : ServiceSession K W E) (r : Result (LoadError E) (Index K) × W) (m : Index K)
      → (init_keys K session r).0 ≡ ok m
      → (init_keys K session r).1.0.keys ≡ some m
  init_keys-warm session (ok n, w) m h = cc h
  init_keys-warm session (err e, w) m h = cc h

  pub load_once-cached :
      (s : ServiceSession K W E × W) (m : Index K)
      → (load_once K s).0 ≡ ok m
      → (load_once K s).1.0.keys ≡ some m
  unfolding load_once
  load_once-cached (session, w) m = elim (Option-cases session.keys) [
    | inl cold ↦ rw (load_once, cold) (init_keys-warm session (load K session w) m)
    | inr (n, warm) ↦ rw (load_once, warm) (λ h. warm ∙ cc h)
  ]
