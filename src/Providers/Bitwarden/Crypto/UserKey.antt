-- ===== src/Providers/Bitwarden/Crypto/UserKey.antt =====
-- The import of organization keys keeps the user key, however it ends.
use keyring_rs.Base.{
  ℕ, ◌≡◌, refl, ◌∙◌, inl, inr, Bool-cases, List, [], ◌∷◌, Option, none, some, is_empty,
}
use keyring_rs.Base.Text.{Text}
use keyring_rs.Base.Result.{ok_or, continue}
use keyring_rs.Base.Run.{continue-keeps}
use keyring_rs.Providers.Bitwarden.Models.{BitwardenProfileOrganization, BitwardenProfile}
use keyring_rs.Providers.Bitwarden.Crypto.{
  step, import_key, import_organization, import_organizations, rebuild_organizations,
  is_not_organization, initialize_org_keys, or_empty,
}
use keyring_rs.Providers.Bitwarden.KeyStore.{
  Crypto, bad_organization_key, organization_key_not_decrypted, user, organization,
  user_private_key,
}
use keyring_rs.Providers.Bitwarden.Crypto.Store.{KeyView, StoreLaws}

module _ (C : Crypto) (view : KeyView C) (laws : StoreLaws C view)
    (before : Option C.SymmetricKey) where
  abbrev Kept : C.Context → Type 0
  Kept c = view.lookup user c ≡ before

  decapsulate-Kept :
      (id : ℕ) (c : C.Context)
      → Kept c
      → (o : Option C.UnsignedSharedKey)
      → Kept
          (continue
            (ok_or o (bad_organization_key id), c)
            (λ k.
              step C
                (C.decapsulate_key_unsigned user_private_key (organization id) k)
                (organization_key_not_decrypted id))).1
  decapsulate-Kept id c h none = h
  decapsulate-Kept id c h (some k) =
      laws.decapsulate_others (organization id) user k c (λ e. cc e) ∙ h

  import_key-Kept : (id : ℕ) (key : Text) (c : C.Context) → Kept c → Kept (import_key C id key c).1
  unfolding import_key
  import_key-Kept id key c h = decapsulate-Kept id c h (C.parse_shared_key key)

  import_entry-Kept :
      (id : Option ℕ) (key : Option Text) (c : C.Context)
      → Kept c
      → Kept (import_organization C (record { id = id; key = key }) c).1
  unfolding import_organization
  import_entry-Kept none key c h = h
  import_entry-Kept (some id) none c h = h
  import_entry-Kept (some id) (some key) c h = import_key-Kept id key c h

  import_organizations-Kept :
      (os : List BitwardenProfileOrganization) (c : C.Context)
      → Kept c
      → Kept (import_organizations C os c).1
  unfolding import_organizations
  import_organizations-Kept [] c h = h
  import_organizations-Kept (o ∷ rest) c h =
      continue-keeps Kept (import_organization C o c) _ (import_entry-Kept o.id o.key c h)
        (λ u. import_organizations-Kept rest)

  rebuild_organizations-Kept :
      (os : List BitwardenProfileOrganization) (c : C.Context)
      → Kept c
      → Kept (rebuild_organizations C os c).1
  unfolding rebuild_organizations
  rebuild_organizations-Kept os c h = elim (Bool-cases (C.has_asymmetric_key user_private_key c)) [
    | inl e ↦
        rw (rebuild_organizations, e)
          (import_organizations-Kept os (C.retain_symmetric_keys (is_not_organization C) c)
            (laws.lookup_retain (is_not_organization C) user c ∙ h))
    | inr e ↦ rw (rebuild_organizations, e) h
  ]

module _ (C : Crypto) (view : KeyView C) (laws : StoreLaws C view) where
  pub initialize_org_keys-user :
      (profile : BitwardenProfile) (store : C.Store)
      → view.find user (initialize_org_keys C profile store).1 ≡ view.find user store
  unfolding initialize_org_keys
  initialize_org_keys-user profile store =
      elim (Bool-cases (is_empty (or_empty profile.organizations))) [
        | inl e ↦ rw (initialize_org_keys, e) refl
        | inr e ↦
            rw (initialize_org_keys, e)
              (laws.find_close user
                  (rebuild_organizations C (or_empty profile.organizations) (C.context_mut store)).1
                  tt
                ∙ rebuild_organizations-Kept C view laws (view.find user store)
                    (or_empty profile.organizations) (C.context_mut store)
                    (laws.lookup_context user store tt))
      ]
