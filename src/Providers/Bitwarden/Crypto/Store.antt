-- ===== src/Providers/Bitwarden/Crypto/Store.antt =====
-- What the key store is relied on for: the keys under the ids that outlive a context.
use keyring_rs.Base.{◌≡◌, ◌≢◌, Bool, true, false, Option, none, some, if◌then◌else◌}
use keyring_rs.Providers.Bitwarden.Crypto.{SymmetricKeyId}
use keyring_rs.Providers.Bitwarden.KeyStore.{
  Crypto, BitwardenSymmetricKeyId, BitwardenAsymmetricKeyId, user, organization, local,
  user_private_key,
}

abbrev pub IsGlobal : {L : Type 0} → BitwardenSymmetricKeyId L → Type 0
IsGlobal user = Unit
IsGlobal (organization id) = Unit
IsGlobal (local l) = ⊥

abbrev pub is_some : {A : Type 0} → Option A → Bool
is_some none = false
is_some (some a) = true

-- `find` and `lookup` are the keys of a store and of a context, `opened` is what the user's private key
-- makes of a shared key, and `global` is the part of a context that outlives it.
pub record KeyView (C : Crypto) : Type 1 where
  pub find : SymmetricKeyId C → C.Store → Option C.SymmetricKey
  pub lookup : SymmetricKeyId C → C.Context → Option C.SymmetricKey
  pub opened : C.UnsignedSharedKey → C.Context → Option C.SymmetricKey

pub record StoreLaws (C : Crypto) (view : KeyView C) : Type 0 where
  pub lookup_context :
      (id : SymmetricKeyId C) (s : C.Store)
      → IsGlobal id
      → view.lookup id (C.context_mut s) ≡ view.find id s
  pub find_close :
      (id : SymmetricKeyId C) (c : C.Context)
      → IsGlobal id
      → view.find id (C.close c) ≡ view.lookup id c
  pub has_lookup :
      (id : SymmetricKeyId C) (c : C.Context)
      → C.has_symmetric_key id c ≡ is_some (view.lookup id c)
  pub lookup_retain :
      (keep : SymmetricKeyId C → Bool) (id : SymmetricKeyId C) (c : C.Context)
      → view.lookup id (C.retain_symmetric_keys keep c)
        ≡ (if keep id then view.lookup id c else none)
  pub opened_retain :
      (keep : SymmetricKeyId C → Bool) (k : C.UnsignedSharedKey) (c : C.Context)
      → view.opened k (C.retain_symmetric_keys keep c) ≡ view.opened k c
  pub lookup_add :
      (k : C.SymmetricKey) (id : SymmetricKeyId C) (c : C.Context)
      → IsGlobal id
      → view.lookup id (C.add_local_symmetric_key k c).1 ≡ view.lookup id c
  pub lookup_unwrap_private :
      (from id : SymmetricKeyId C) (e : C.EncString) (c : C.Context)
      → IsGlobal id
      → view.lookup id (C.unwrap_private_key from e c).1 ≡ view.lookup id c
  pub lookup_persist_private :
      (from to : BitwardenAsymmetricKeyId C.LocalId) (id : SymmetricKeyId C) (c : C.Context)
      → IsGlobal id
      → view.lookup id (C.persist_asymmetric_key from to c).1 ≡ view.lookup id c
  -- A key is persisted, or the store stays.
  pub persisted :
      (from to : SymmetricKeyId C) (c : C.Context)
      → is_some (view.lookup to (C.persist_symmetric_key from to c).1)
        ≡ (if (C.persist_symmetric_key from to c).0 then true else is_some (view.lookup to c))
  pub persist_others :
      (from to id : SymmetricKeyId C) (c : C.Context)
      → IsGlobal id
      → id ≢ to
      → view.lookup id (C.persist_symmetric_key from to c).1 ≡ view.lookup id c
  pub decapsulated :
      (id : SymmetricKeyId C) (k : C.UnsignedSharedKey) (c : C.Context)
      → (C.decapsulate_key_unsigned user_private_key id k c).0 ≡ true
      → view.lookup id (C.decapsulate_key_unsigned user_private_key id k c).1 ≡ view.opened k c
  pub decapsulate_others :
      (id other : SymmetricKeyId C) (k : C.UnsignedSharedKey) (c : C.Context)
      → other ≢ id
      → view.lookup other (C.decapsulate_key_unsigned user_private_key id k c).1
        ≡ view.lookup other c
  pub opened_decapsulate :
      (id : SymmetricKeyId C) (k other : C.UnsignedSharedKey) (c : C.Context)
      → view.opened other (C.decapsulate_key_unsigned user_private_key id k c).1
        ≡ view.opened other c

-- Reading a cipher adds local keys at most.
pub record ReadLaws (C : Crypto) : Type 0 where
  pub close_context : (s : C.Store) → C.close (C.context_mut s) ≡ s
  pub close_unwrap :
      (base : SymmetricKeyId C) (e : C.EncString) (c : C.Context)
      → C.close (C.unwrap_symmetric_key base e c).1 ≡ C.close c
  pub close_decrypt :
      (id : SymmetricKeyId C) (e : C.EncString) (c : C.Context)
      → C.close (C.decrypt id e c).1 ≡ C.close c
