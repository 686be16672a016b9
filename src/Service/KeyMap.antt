-- ===== src/Service/KeyMap.antt =====
-- The abstract view of the key map of a session: an index of distinct keys, up to the order of its
-- entries.
pub mod Machine
pub mod Replies
use mathlib.Core.Logic.{∥∥₁_elim}
use mathlib.Core.Logic.Or
use mathlib.Core.List.{Perm, Permᴰ, Nodup, Nodup-cons, Mem, mem-cons_self, map as list_map}
use mathlib.Core.List.Perm
use mathlib.Core.Quot
use mathlib.Core.Quot.{Quot}
use keyring_rs.Base.{
  ◌≡◌, refl, ◌≢◌, ◌∙◌, sym, ap, subst, List, [], ◌∷◌, map, Option, none, some, ite, arith,
}
use keyring_rs.Base.Sort.{IsTotalOrder, Distinct, Nodup-Distinct, sorted_by-Perm}
use keyring_rs.Core.Provider.{SshKey}
use keyring_rs.Service.Index.{Index, get}
use keyring_rs.Service.Index.Laws.{entry_key}
use keyring_rs.Service.Session.{AgentIdentity, identity_of, pubkey_of}
use keyring_rs.Service.Session.Listing.{listing, identities-Distinct, Identity-set}

module _ (K : SshKey) where
  abbrev pub UniqueIndex : Type 0
  UniqueIndex = (m : Index K) × Distinct (entry_key K) m

  abbrev pub KeyMap : Type 0
  KeyMap = Quot {α = UniqueIndex} (λ m n. Perm m.0 n.0)

  get-swap :
      (d : K.KeyData) (a b : K.KeyData × K.PrivateKey) (m : Index K)
      → a.0 ≢ b.0
      → get K d (a ∷ b ∷ m) ≡ get K d (b ∷ a ∷ m)
  unfolding get
  get-swap d a b m differ = ground arith

  get-Permᴰ :
      (d : K.KeyData) {m n : Index K}
      → Permᴰ m n
      → Nodup (map (entry_key K) m)
      → get K d m ≡ get K d n
  unfolding get
  get-Permᴰ d Permᴰ.nil h = refl
  get-Permᴰ d (Permᴰ.cons {a = a} {b = b} e p) h = let rest = get-Permᴰ d p (Nodup-cons.0 h).1 in cc
  get-Permᴰ d (Permᴰ.swap {a = a} {b = b} {a' = c} {b' = e} {l = l} same same') h =
      rw (sym same, sym same') (get-swap d a b l λ same. (Nodup-cons.0 h).0 (rw same mem-cons_self))
  get-Permᴰ d (Permᴰ.trans p q) h =
      get-Permᴰ d p h ∙ get-Permᴰ d q (Perm.nodup (Perm.map (entry_key K) ∣ p ∣₁) h)

  pub get-Perm :
      IsSet K.PrivateKey
      → (d : K.KeyData) (m n : UniqueIndex) → Perm m.0 n.0
      → get K d m.0 ≡ get K d n.0
  get-Perm set d m n p =
      ∥∥₁_elim p (hlevel set) λ q. get-Permᴰ d q (Nodup-Distinct (entry_key K) m.0 m.1)

  pub listing-Perm :
      IsTotalOrder K.cmp → (m n : UniqueIndex) → Perm m.0 n.0 → listing K m.0 ≡ listing K n.0
  listing-Perm order m n p =
      sorted_by-Perm (pubkey_of K) K.cmp order (Identity-set K) (identities-Distinct K m.0 m.1)
        (Perm.map (identity_of K) p)

  -- `HashMap::get` on the abstract map.
  abbrev pub lookup : IsSet K.PrivateKey → K.KeyData → KeyMap → Option K.PrivateKey
  lookup set d = Quot.lift (hlevel set) (λ m. get K d m.0) (get-Perm set d)

  -- The identities of the abstract map, in the order of the public keys.
  abbrev pub publish : IsTotalOrder K.cmp → KeyMap → List (AgentIdentity K.KeyData)
  publish order = Quot.lift (hlevel (Identity-set K)) (λ m. listing K m.0) (listing-Perm order)

  -- The map that an index of distinct keys stands for.
  abbrev pub key_map : (m : Index K) → Distinct (entry_key K) m → KeyMap
  key_map m t = Quot.mk (m, t)

  pub key_map_same :
      (m n : Index K) (t : Distinct (entry_key K) m) (t' : Distinct (entry_key K) n)
      → Perm m n
      → key_map m t ≡ key_map n t'
  key_map_same m n t t' p = Quot.sound p
