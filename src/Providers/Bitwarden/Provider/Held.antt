-- ===== src/Providers/Bitwarden/Provider/Held.antt =====
-- The keys that the ciphers of a vault yield.
use mathlib.Core.Logic.Or
use mathlib.Core.List.{Mem, mem-cons, mem-cons_of_mem}
use keyring_rs.Base.{ℕ, ◌≡◌, refl, All, List, [], ◌∷◌, Option, none, some}
use keyring_rs.Base.Text.{Text}
use keyring_rs.Base.Result.{Result, ok, err}
use keyring_rs.Core.Provider.{SshKey, KeyPairSnapshot}
use keyring_rs.Providers.Bitwarden.Models.{BitwardenCipher}
use keyring_rs.Providers.Bitwarden.KeyStore.{Crypto}
use keyring_rs.Providers.Bitwarden.Provider.{CipherError, key, usable, discover}
use keyring_rs.Providers.Bitwarden.Provider.Discovery.{Live, key-Live}

module _ (K : SshKey) (C : Crypto) (show_uuid : ℕ → Text) where
  -- A key that one of some ciphers yields, in some state of the key store.
  pub record Held (ciphers : List BitwardenCipher) (k : K.PrivateKey) : Type 0 where
    pub cipher : BitwardenCipher
    pub member : Mem cipher ciphers
    pub store : C.Store
    pub yielded : (key K C show_uuid cipher store).0 ≡ ok (some k)
    pub live : Live K C show_uuid cipher store k

  Held-more :
      (c : BitwardenCipher) (ciphers : List BitwardenCipher) (ks : KeyPairSnapshot K)
      → All (Held ciphers) ks
      → All (Held (c ∷ ciphers)) ks
  Held-more c ciphers [] t = tt
  Held-more c ciphers (k ∷ ks) t = (
    record {
      cipher = t.0.cipher;
      member = mem-cons_of_mem _ t.0.member;
      store = t.0.store;
      yielded = t.0.yielded;
      live = t.0.live;
    },
    Held-more c ciphers ks t.1,
  )

  usable-Held :
      (c : BitwardenCipher) (store : C.Store) (ciphers : List BitwardenCipher)
      (r : Result CipherError (Option K.PrivateKey)) (ks : KeyPairSnapshot K)
      → (key K C show_uuid c store).0 ≡ r
      → All (Held ciphers) ks
      → All (Held (c ∷ ciphers)) (usable K C show_uuid r ks)
  usable-Held c store ciphers (ok (some k)) ks e t = (
    record {
      cipher = c;
      member = mem-cons.1 (Or.inl refl);
      store = store;
      yielded = e;
      live = (key-Live K C show_uuid c store).0 k e;
    },
    Held-more c ciphers ks t,
  )
  usable-Held c store ciphers (ok none) ks e t = Held-more c ciphers ks t
  usable-Held c store ciphers (err x) ks e t = Held-more c ciphers ks t

  pub discover-Held :
      (ciphers : List BitwardenCipher) (store : C.Store)
      → All (Held ciphers) (discover K C show_uuid ciphers store).0
  unfolding discover
  discover-Held [] store = tt
  discover-Held (c ∷ rest) store =
      let r = key K C show_uuid c store in
      usable-Held c store rest r.0 (discover K C show_uuid rest r.1).0 refl (discover-Held rest r.1)
