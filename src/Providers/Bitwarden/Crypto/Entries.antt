-- ===== src/Providers/Bitwarden/Crypto/Entries.antt =====
-- The organization keys that the entries of a profile bring in.
use keyring_rs.Base.{
  ℕ, ◌≡◌, refl, ◌∙◌, sym, ap, subst, inl, inr, Bool, true, false, Bool-cases, ==_iff, ==_refl, List,
  [], ◌∷◌, Option, none, some, ◌==◌, if◌then◌else◌,
}
use keyring_rs.Base.Text.{Text}
use keyring_rs.Base.Result.{Done, Result, ok, err, Run, ok_or, continue}
use keyring_rs.Providers.Bitwarden.Models.{BitwardenProfileOrganization}
use keyring_rs.Providers.Bitwarden.Crypto.{
  step, import_key, import_organization, import_organizations, rebuild_organizations,
  is_not_organization, in_context,
}
use keyring_rs.Providers.Bitwarden.KeyStore.{
  Crypto, CryptoError, bad_organization_key, organization_key_not_decrypted, user, organization,
  user_private_key,
}
use keyring_rs.Providers.Bitwarden.Crypto.Store.{KeyView, StoreLaws}

-- The key text of the last entry for an organization that has one.
abbrev pub entry_key : ℕ → BitwardenProfileOrganization → Option Text
entry_key id o = elim o.id [ none ↦ none | some own ↦ if own == id then o.key else none ]

abbrev pub or_else : {A : Type 0} → Option A → Option A → Option A
or_else none b = b
or_else (some a) b = some a

abbrev pub last_key : ℕ → List BitwardenProfileOrganization → Option Text
last_key id [] = none
last_key id (o ∷ rest) = or_else (last_key id rest) (entry_key id o)

module _ (C : Crypto) (view : KeyView C) (laws : StoreLaws C view) where
  abbrev pub opened_by : Option C.UnsignedSharedKey → C.Context → Option C.SymmetricKey
  opened_by none c = none
  opened_by (some k) c = view.opened k c

  -- What the user's private key makes of a key text.
  abbrev pub opened_text : Text → C.Context → Option C.SymmetricKey
  opened_text key c = opened_by (C.parse_shared_key key) c

  -- The key for an organization after entries, `before` being the key without them.
  abbrev pub key_from : C.Context → Option C.SymmetricKey → Option Text → Option C.SymmetricKey
  key_from c before none = before
  key_from c before (some key) = opened_text key c

  -- Two contexts in which shared keys open alike, with the same user key, and related keys for an
  -- organization.
  pub record Imported (id : ℕ) (entry : Option Text) (c c' : C.Context) : Type 0 where
    pub same_opened : (k : C.UnsignedSharedKey) → view.opened k c' ≡ view.opened k c
    pub same_user : view.lookup user c' ≡ view.lookup user c
    pub key : view.lookup (organization id) c' ≡ key_from c (view.lookup (organization id) c) entry

  decapsulate_cases :
      (id own : ℕ) (key : Text) (k : C.UnsignedSharedKey) (c : C.Context)
      → C.parse_shared_key key ≡ some k
      → (C.decapsulate_key_unsigned user_private_key (organization own) k c).0 ≡ true
      → view.lookup
          (organization id)
          (C.decapsulate_key_unsigned user_private_key (organization own) k c).1
        ≡ key_from c (view.lookup (organization id) c) (if own == id then some key else none)
  decapsulate_cases id own key k c p h = elim (Bool-cases (own == id)) [
    | inl e ↦
        subst
          (λ n.
            view.lookup (organization n)
              (C.decapsulate_key_unsigned user_private_key (organization own) k c).1
            ≡ key_from c (view.lookup (organization n) c) (if own == n then some key else none))
          ((==_iff own id).0 e)
          (rw (==_refl own)
            (laws.decapsulated (organization own) k c h ∙ ap (λ o. opened_by o c) (sym p)))
    | inr e ↦ rw e (
        laws.decapsulate_others (organization own) (organization id) k c
          (λ q. cc (q, e, ==_refl own)))
  ]

  step_end :
      (r : Bool × C.Context) (e : CryptoError) (c' : C.Context)
      → step C (λ _. r) e c' ≡ (ok tt, c')
      → (r.0 ≡ true) × (r.1 ≡ c')
  step_end (true, c) e c' h = (refl, ap (λ q. q.1) h)
  step_end (false, c) e c' h = cc h

  lift_end :
      {A : Type 0} (o : Option A) (e : CryptoError) (c c' : C.Context)
      (f : A → Run C.Context CryptoError Done)
      → continue (ok_or o e, c) f ≡ (ok tt, c')
      → (a : A) × (o ≡ some a) × (f a c ≡ (ok tt, c'))
  lift_end none e c c' f h = cc h
  lift_end (some a) e c c' f h = (a, refl, h)

  then_end :
      (r : Result CryptoError Done × C.Context) (c' : C.Context)
      (f : Run C.Context CryptoError Done)
      → continue r (λ _. f) ≡ (ok tt, c')
      → (d : C.Context) × (r ≡ (ok tt, d)) × (f d ≡ (ok tt, c'))
  then_end (ok u, d) c' f h = (d, refl, h)
  then_end (err e, d) c' f h = cc h

  import_key-Imported :
      (id own : ℕ) (key : Text) (c c' : C.Context)
      → import_key C own key c ≡ (ok tt, c')
      → Imported id (if own == id then some key else none) c c'
  unfolding import_key
  import_key-Imported id own key c c' h =
      let l =
        lift_end (C.parse_shared_key key) (bad_organization_key own) c c'
          (λ k.
            step C (C.decapsulate_key_unsigned user_private_key (organization own) k)
              (organization_key_not_decrypted own))
          h in
      let s =
        step_end (C.decapsulate_key_unsigned user_private_key (organization own) l.0 c)
          (organization_key_not_decrypted own) c' l.2 in
      subst (λ d. Imported id (if own == id then some key else none) c d) s.1
        (record {
          same_opened = λ other. laws.opened_decapsulate (organization own) l.0 other c;
          same_user = laws.decapsulate_others (organization own) user l.0 c (λ e. cc e);
          key = decapsulate_cases id own key l.0 c l.1 s.0;
        })

  Imported-none : (id : ℕ) (c : C.Context) → Imported id none c c
  Imported-none id c = record { same_opened = λ k. refl; same_user = refl; key = refl }

  import_entry :
      (id : ℕ) (own : Option ℕ) (key : Option Text) (c c' : C.Context)
      → import_organization C (record { id = own; key = key }) c ≡ (ok tt, c')
      → Imported id (entry_key id (record { id = own; key = key })) c c'
  unfolding import_organization
  import_entry id none key c c' h =
      subst (λ d. Imported id none c d) (ap (λ q. q.1) h) (Imported-none id c)
  import_entry id (some own) none c c' h = elim (Bool-cases (own == id)) [
    | inl e ↦
        subst (λ d. Imported id (if own == id then none else none) c d) (ap (λ q. q.1) h)
          (rw e (Imported-none id c))
    | inr e ↦
        subst (λ d. Imported id (if own == id then none else none) c d) (ap (λ q. q.1) h)
          (rw e (Imported-none id c))
  ]
  import_entry id (some own) (some key) c c' h = import_key-Imported id own key c c' h

  pub key_from-or_else :
      (c d : C.Context) (before : Option C.SymmetricKey) (a b : Option Text)
      → ((key : Text) → opened_text key d ≡ opened_text key c)
      → key_from d (key_from c before a) b ≡ key_from c before (or_else b a)
  key_from-or_else c d before a none same = refl
  key_from-or_else c d before a (some key) same = same key

  pub opened_by_same :
      (c d : C.Context)
      → ((k : C.UnsignedSharedKey) → view.opened k d ≡ view.opened k c)
      → (o : Option C.UnsignedSharedKey) → opened_by o d ≡ opened_by o c
  opened_by_same c d same none = refl
  opened_by_same c d same (some k) = same k

  Imported-then :
      (id : ℕ) (a b : Option Text) (c d c' : C.Context)
      → Imported id a c d
      → Imported id b d c'
      → Imported id (or_else b a) c c'
  Imported-then id a b c d c' h h' = record {
    same_opened = λ k. h'.same_opened k ∙ h.same_opened k;
    same_user = h'.same_user ∙ h.same_user;
    key =
        h'.key
        ∙ ap (λ before. key_from d before b) h.key
        ∙ key_from-or_else c d (view.lookup (organization id) c) a b
            (λ key. opened_by_same c d h.same_opened (C.parse_shared_key key));
  }

  pub import_organizations-Imported :
      (id : ℕ) (os : List BitwardenProfileOrganization) (c c' : C.Context)
      → import_organizations C os c ≡ (ok tt, c')
      → Imported id (last_key id os) c c'
  unfolding import_organizations
  import_organizations-Imported id [] c c' h =
      subst (λ d. Imported id none c d) (ap (λ q. q.1) h) (Imported-none id c)
  import_organizations-Imported id (o ∷ rest) c c' h =
      let s = then_end (import_organization C o c) c' (import_organizations C rest) h in
      Imported-then id (entry_key id o) (last_key id rest) c s.0 c'
        (import_entry id o.id o.key c s.0 s.1) (import_organizations-Imported id rest s.0 c' s.2)

  pub rebuild_cases :
      (os : List BitwardenProfileOrganization) (c c' : C.Context)
      → rebuild_organizations C os c ≡ (ok tt, c')
      → import_organizations C os (C.retain_symmetric_keys (is_not_organization C) c) ≡ (ok tt, c')
  unfolding rebuild_organizations
  rebuild_cases os c c' h = elim (Bool-cases (C.has_asymmetric_key user_private_key c)) [
    | inl e ↦ cc (e, h)
    | inr e ↦ cc (e, h)
  ]

  pub in_context_end :
      (f : Run C.Context CryptoError Done) (store store' : C.Store)
      → in_context C f store ≡ (ok tt, store')
      → (c' : C.Context) × (f (C.context_mut store) ≡ (ok tt, c')) × (C.close c' ≡ store')
  in_context_end f store store' h = go (f (C.context_mut store)) h
    where
      go :
          (r : Result CryptoError Done × C.Context)
          → in_context C (λ _. r) store ≡ (ok tt, store')
          → (c' : C.Context) × (r ≡ (ok tt, c')) × (C.close c' ≡ store')
      go (ok u, c') h = (c', refl, ap (λ q. q.1) h)
      go (err e, c') h = cc h
