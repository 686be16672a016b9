-- ===== src/Tests/Vault.antt =====
-- A small key store with the laws that are relied on, and a small net.
use keyring_rs.Base.{
  ℕ, ◌+◌, ◌≡◌, ◌≢◌, refl, ap, inl, inr, Bool, true, false, Bool-cases, length, [], ◌∷◌, Option,
  none, some, ◌==◌, ==_iff, ==_refl, if◌then◌else◌,
}
use keyring_rs.Base.Text.{Text}
use keyring_rs.Providers.Bitwarden.KeyStore.{
  Crypto, BitwardenSymmetricKeyId, BitwardenAsymmetricKeyId, user, organization, local,
  user_private_key, local_private_key,
}
use keyring_rs.Providers.Bitwarden.Crypto.Store.{IsGlobal, is_some, KeyView, StoreLaws, ReadLaws}

pub record ToyStore : Type 0 where
  pub user_key : Option ℕ
  pub private_key : Option ℕ
  pub organizations : ℕ → Option ℕ

-- A context has one place for a local key of each sort.
pub record ToyContext : Type 0 where
  pub kept : ToyStore
  pub local_key : Option ℕ
  pub local_private : Option ℕ

abbrev pub SymId : Type 0
SymId = BitwardenSymmetricKeyId (Unit {0})

abbrev pub AsymId : Type 0
AsymId = BitwardenAsymmetricKeyId (Unit {0})

abbrev pub toy_find : SymId → ToyStore → Option ℕ
toy_find user s = s.user_key
toy_find (organization id) s = s.organizations id
toy_find (local l) s = none

abbrev pub toy_lookup : SymId → ToyContext → Option ℕ
toy_lookup user c = c.kept.user_key
toy_lookup (organization id) c = c.kept.organizations id
toy_lookup (local l) c = c.local_key

abbrev pub toy_opened : Text → ToyContext → Option ℕ
toy_opened k c = elim c.kept.private_key [ none ↦ none | some p ↦ some (p + length k) ]

abbrev pub non_empty : Text → Option Text
non_empty [] = none
non_empty (c ∷ s) = some (c ∷ s)

abbrev pub toy_has_private : AsymId → ToyContext → Bool
toy_has_private user_private_key c = is_some c.kept.private_key
toy_has_private (local_private_key l) c = is_some c.local_private

abbrev pub toy_persist_private : AsymId → AsymId → ToyContext → Bool × ToyContext
toy_persist_private from user_private_key c =
    (true, record c { kept = record c.kept { private_key = c.local_private } })
toy_persist_private from (local_private_key l) c = (false, c)

abbrev pub put_user : Option ℕ → ToyContext → Bool × ToyContext
put_user none c = (false, c)
put_user (some k) c = (true, record c { kept = record c.kept { user_key = some k } })

abbrev pub toy_persist : SymId → SymId → ToyContext → Bool × ToyContext
toy_persist from user c = put_user (toy_lookup from c) c
toy_persist from (organization id) c = (false, c)
toy_persist from (local l) c = (false, c)

abbrev pub toy_retain : (SymId → Bool) → ToyContext → ToyContext
toy_retain keep c = record {
  kept = record c.kept {
    user_key = if keep user then c.kept.user_key else none;
    organizations = λ id. if keep (organization id) then c.kept.organizations id else none;
  };
  local_key = if keep (local tt) then c.local_key else none;
  local_private = c.local_private;
}

abbrev pub put_organization : ℕ → Option ℕ → ToyContext → Bool × ToyContext
put_organization id none c = (false, c)
put_organization id (some k) c = (
  true,
  record c {
    kept = record c.kept {
      organizations = λ n. if n == id then some k else c.kept.organizations n;
    };
  },
)

abbrev pub toy_decapsulate : AsymId → SymId → Text → ToyContext → Bool × ToyContext
toy_decapsulate from user k c = (false, c)
toy_decapsulate from (organization id) k c = put_organization id (toy_opened k c) c
toy_decapsulate from (local l) k c = (false, c)

abbrev pub toy_crypto : Crypto
toy_crypto = record {
  Store = ToyStore;
  Context = ToyContext;
  LocalId = Unit {0};
  EncString = Text;
  UnsignedSharedKey = Text;
  MasterKey = ℕ;
  SymmetricKey = ℕ;
  empty = record { user_key = none; private_key = none; organizations = λ id. none };
  context_mut = λ s. record { kept = s; local_key = none; local_private = none };
  close = λ c. c.kept;
  parse_enc_string = non_empty;
  parse_shared_key = non_empty;
  derive = λ password salt kdf. some (length password);
  decrypt_user_key = λ k e. some (k + length e);
  has_symmetric_key = λ id c. is_some (toy_lookup id c);
  has_asymmetric_key = toy_has_private;
  add_local_symmetric_key = λ k c. (local tt, record c { local_key = some k });
  has_known_algorithm = λ id c. true;
  unwrap_private_key =
      λ id e c. (some (local_private_key tt), record c { local_private = some (length e) });
  persist_asymmetric_key = toy_persist_private;
  persist_symmetric_key = toy_persist;
  retain_symmetric_keys = toy_retain;
  decapsulate_key_unsigned = toy_decapsulate;
  unwrap_symmetric_key = λ id e c. (some (local tt), record c { local_key = some (length e) });
  decrypt = λ id e c. (some e, c);
}

abbrev pub toy_view : KeyView toy_crypto
toy_view = record { find = toy_find; lookup = toy_lookup; opened = toy_opened }

toy_lookup_context :
    (id : SymId) (s : ToyStore)
    → IsGlobal id
    → toy_lookup id (toy_crypto.context_mut s) ≡ toy_find id s
toy_lookup_context user s g = refl
toy_lookup_context (organization id) s g = refl
toy_lookup_context (local l) s g = elim g [ ]

toy_find_close :
    (id : SymId) (c : ToyContext) → IsGlobal id → toy_find id (toy_crypto.close c) ≡ toy_lookup id c
toy_find_close user c g = refl
toy_find_close (organization id) c g = refl
toy_find_close (local l) c g = elim g [ ]

toy_lookup_retain :
    (keep : SymId → Bool) (id : SymId) (c : ToyContext)
    → toy_lookup id (toy_retain keep c) ≡ (if keep id then toy_lookup id c else none)
toy_lookup_retain keep user c = refl
toy_lookup_retain keep (organization id) c = refl
toy_lookup_retain keep (local tt) c = refl

-- A change of the local keys alone.
toy_lookup_local :
    (id : SymId) (c d : ToyContext)
    → c.kept ≡ d.kept
    → IsGlobal id
    → toy_lookup id c ≡ toy_lookup id d
toy_lookup_local user c d e g = ap (λ s. s.user_key) e
toy_lookup_local (organization id) c d e g = ap (λ s. s.organizations id) e
toy_lookup_local (local l) c d e g = elim g [ ]

toy_lookup_persist_private :
    (from to : AsymId) (id : SymId) (c : ToyContext)
    → IsGlobal id
    → toy_lookup id (toy_persist_private from to c).1 ≡ toy_lookup id c
toy_lookup_persist_private from user_private_key user c g = refl
toy_lookup_persist_private from user_private_key (organization id) c g = refl
toy_lookup_persist_private from user_private_key (local l) c g = elim g [ ]
toy_lookup_persist_private from (local_private_key l) id c g = refl

put_user_persisted :
    (o : Option ℕ) (c : ToyContext)
    → is_some (toy_lookup user (put_user o c).1)
      ≡ (if (put_user o c).0 then true else is_some (toy_lookup user c))
put_user_persisted none c = refl
put_user_persisted (some k) c = refl

toy_persisted :
    (from to : SymId) (c : ToyContext)
    → is_some (toy_lookup to (toy_persist from to c).1)
      ≡ (if (toy_persist from to c).0 then true else is_some (toy_lookup to c))
toy_persisted from user c = put_user_persisted (toy_lookup from c) c
toy_persisted from (organization id) c = refl
toy_persisted from (local l) c = refl

put_user_others :
    (o : Option ℕ) (c : ToyContext) (id : ℕ)
    → toy_lookup (organization id) (put_user o c).1 ≡ toy_lookup (organization id) c
put_user_others none c id = refl
put_user_others (some k) c id = refl

toy_persist_others :
    (from to id : SymId) (c : ToyContext)
    → IsGlobal id
    → id ≢ to
    → toy_lookup id (toy_persist from to c).1 ≡ toy_lookup id c
toy_persist_others from user user c g n = absurd (n refl)
toy_persist_others from user (organization id) c g n = put_user_others (toy_lookup from c) c id
toy_persist_others from user (local l) c g n = elim g [ ]
toy_persist_others from (organization o) id c g n = refl
toy_persist_others from (local l) id c g n = refl

put_decapsulated :
    (id : ℕ) (o : Option ℕ) (c : ToyContext)
    → (put_organization id o c).0 ≡ true
    → toy_lookup (organization id) (put_organization id o c).1 ≡ o
put_decapsulated id none c h = cc h
put_decapsulated id (some k) c h = rw (==_refl id) refl

toy_decapsulated :
    (id : SymId) (k : Text) (c : ToyContext)
    → (toy_decapsulate user_private_key id k c).0 ≡ true
    → toy_lookup id (toy_decapsulate user_private_key id k c).1 ≡ toy_opened k c
toy_decapsulated user k c h = cc h
toy_decapsulated (organization id) k c h = put_decapsulated id (toy_opened k c) c h
toy_decapsulated (local l) k c h = cc h

put_others :
    (id : ℕ) (other : SymId) (o : Option ℕ) (c : ToyContext)
    → other ≢ organization id
    → toy_lookup other (put_organization id o c).1 ≡ toy_lookup other c
put_others id other none c n = refl
put_others id user (some k) c n = refl
put_others id (organization m) (some k) c n = elim (Bool-cases (m == id)) [
  | inl e ↦ absurd (n (ap (λ i. organization i) ((==_iff m id).0 e)))
  | inr e ↦ rw e refl
]
put_others id (local l) (some k) c n = refl

toy_decapsulate_others :
    (id other : SymId) (k : Text) (c : ToyContext)
    → other ≢ id
    → toy_lookup other (toy_decapsulate user_private_key id k c).1 ≡ toy_lookup other c
toy_decapsulate_others user other k c n = refl
toy_decapsulate_others (organization id) other k c n = put_others id other (toy_opened k c) c n
toy_decapsulate_others (local l) other k c n = refl

put_opened :
    (id : ℕ) (o : Option ℕ) (other : Text) (c : ToyContext)
    → toy_opened other (put_organization id o c).1 ≡ toy_opened other c
put_opened id none other c = refl
put_opened id (some k) other c = refl

toy_opened_decapsulate :
    (id : SymId) (k other : Text) (c : ToyContext)
    → toy_opened other (toy_decapsulate user_private_key id k c).1 ≡ toy_opened other c
toy_opened_decapsulate user k other c = refl
toy_opened_decapsulate (organization id) k other c = put_opened id (toy_opened k c) other c
toy_opened_decapsulate (local l) k other c = refl

pub toy_store_laws : StoreLaws toy_crypto toy_view
toy_store_laws = record {
  lookup_context = toy_lookup_context;
  find_close = toy_find_close;
  has_lookup = λ id c. refl;
  lookup_retain = toy_lookup_retain;
  opened_retain = λ keep k c. refl;
  lookup_add = λ k id c g. toy_lookup_local id (record c { local_key = some k }) c refl g;
  lookup_unwrap_private =
      λ from id e c g. toy_lookup_local id (record c { local_private = some (length e) }) c refl g;
  lookup_persist_private = toy_lookup_persist_private;
  persisted = toy_persisted;
  persist_others = toy_persist_others;
  decapsulated = toy_decapsulated;
  decapsulate_others = toy_decapsulate_others;
  opened_decapsulate = toy_opened_decapsulate;
}

pub toy_read_laws : ReadLaws toy_crypto
toy_read_laws = record {
  close_context = λ s. refl;
  close_unwrap = λ base e c. refl;
  close_decrypt = λ id e c. refl;
}
