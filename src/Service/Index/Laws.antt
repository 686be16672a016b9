-- ===== src/Service/Index/Laws.antt =====
-- The index against its specification: the last loaded key of each public key.
use mathlib.Core.Option.{or_else}
use keyring_rs.Base.{◌≡◌, refl, ◌≢◌, [], ◌∷◌, ◌++◌, All, Option, none, some, ite, arith}
use keyring_rs.Base.Sort.{Distinct}
use keyring_rs.Core.Provider.{SshKey, KeyPairSnapshot}
use keyring_rs.Service.Index.{Index, get, insert, extend}

module _ (K : SshKey) where
  -- The last key of a snapshot with the given public key.
  abbrev pub last_with : K.KeyData → KeyPairSnapshot K → Option K.PrivateKey
  last_with d [] = none
  last_with d (key ∷ keys) =
      let rest = last_with d keys in
      or_else rest (ite (K.key_data_eq (K.key_data key) d) (some key) none)

  pub get-insert :
      (c d : K.KeyData) (k : K.PrivateKey) (m : Index K)
      → get K d (insert K c k m) ≡ ite (K.key_data_eq c d) (some k) (get K d m)
  unfolding get insert
  get-insert c d k [] = refl
  get-insert c d k ((b, j) ∷ m) = ground (arith, get-insert c d k m)

  pub get-extend :
      (d : K.KeyData) (keys : KeyPairSnapshot K) (out : Index K)
      → get K d (extend K out keys) ≡ or_else (last_with d keys) (get K d out)
  unfolding extend or_else
  get-extend d [] out = refl
  get-extend d (key ∷ keys) out = ground (
    arith,
    get-extend d keys (insert K (K.key_data key) key out),
    get-insert (K.key_data key) d key out,
  )

  abbrev pub entry_key : K.KeyData × K.PrivateKey → K.KeyData
  entry_key (d, _) = d

  -- Each key is filed under its own public key.
  abbrev pub Filed : Index K → Type 0
  Filed = All (λ (d, k). K.key_data k ≡ d)

  All-insert_ne :
      (b c : K.KeyData) (k : K.PrivateKey) (m : Index K)
      → b ≢ c
      → All (λ e. b ≢ entry_key e) m
      → All (λ e. b ≢ entry_key e) (insert K c k m)
  unfolding insert
  All-insert_ne b c k [] h t = (h, tt)
  All-insert_ne b c k ((a, j) ∷ m) h t = ground (arith, All-insert_ne b c k m h t.1)

  insert-Distinct :
      (c : K.KeyData) (k : K.PrivateKey) (m : Index K)
      → Distinct entry_key m
      → Distinct entry_key (insert K c k m)
  unfolding insert
  insert-Distinct c k [] t = (tt, tt)
  insert-Distinct c k ((a, j) ∷ m) t =
      ground (arith, insert-Distinct c k m t.1, All-insert_ne a c k m)

  insert-Filed : (k : K.PrivateKey) (m : Index K) → Filed m → Filed (insert K (K.key_data k) k m)
  unfolding insert
  insert-Filed k [] t = (refl, tt)
  insert-Filed k ((a, j) ∷ m) t = ground (arith, insert-Filed k m t.1)

  pub extend-Distinct :
      (out : Index K) (keys : KeyPairSnapshot K)
      → Distinct entry_key out
      → Distinct entry_key (extend K out keys)
  unfolding extend
  extend-Distinct out [] t = t
  extend-Distinct out (k ∷ keys) t =
      extend-Distinct (insert K (K.key_data k) k out) keys (insert-Distinct (K.key_data k) k out t)

  pub extend-Filed :
      (out : Index K) (keys : KeyPairSnapshot K) → Filed out → Filed (extend K out keys)
  unfolding extend
  extend-Filed out [] t = t
  extend-Filed out (k ∷ keys) t =
      extend-Filed (insert K (K.key_data k) k out) keys (insert-Filed k out t)

  pub extend-append :
      (out : Index K) (xs ys : KeyPairSnapshot K)
      → extend K out (xs ++ ys) ≡ extend K (extend K out xs) ys
  unfolding extend
  extend-append out [] ys = refl
  extend-append out (x ∷ xs) ys = extend-append (insert K (K.key_data x) x out) xs ys
