-- ===== src/Providers/Bitwarden/Crypto/Organizations.antt =====
-- The organization keys after a sync: those of its profile.
use keyring_rs.Base.{ℕ, ◌≡◌, refl, ◌∙◌, sym, ap, true, false, List, Option, none, some, is_empty}
use keyring_rs.Base.Text.{Text}
use keyring_rs.Base.Result.{ok}
use keyring_rs.Providers.Bitwarden.Models.{BitwardenProfileOrganization, BitwardenProfile}
use keyring_rs.Providers.Bitwarden.Crypto.{
  rebuild_organizations, is_not_organization, in_context, initialize_org_keys, or_empty,
}
use keyring_rs.Providers.Bitwarden.KeyStore.{Crypto, user, organization}
use keyring_rs.Providers.Bitwarden.Crypto.Store.{KeyView, StoreLaws}
use keyring_rs.Providers.Bitwarden.Crypto.Entries.{
  or_else, last_key, key_from, import_organizations-Imported, opened_by_same, key_from-or_else,
  rebuild_cases, in_context_end,
}

module _ (C : Crypto) (view : KeyView C) (laws : StoreLaws C view) where
  -- The keys that the loop finds: no organization keys, and the user key.
  retained :
      (id : ℕ) (os : List BitwardenProfileOrganization) (c c' : C.Context)
      → rebuild_organizations C os c ≡ (ok tt, c')
      → (view.lookup (organization id) c' ≡ key_from C view laws c none (last_key id os))
        × (view.lookup user c' ≡ view.lookup user c)
  retained id os c c' h =
      let kept = C.retain_symmetric_keys (is_not_organization C) c in
      let i =
        import_organizations-Imported C view laws id os kept c'
          (rebuild_cases C view laws os c c' h) in
      (
        i.key
            ∙ ap (λ before. key_from C view laws kept before (last_key id os))
                (laws.lookup_retain (is_not_organization C) (organization id) c)
            ∙ key_from-or_else C view laws c kept none none (last_key id os) (λ key.
              opened_by_same C view laws c kept
                (λ k. laws.opened_retain (is_not_organization C) k c) (C.parse_shared_key key))
            ∙ ap (λ o. key_from C view laws c none o) (or_else_none (last_key id os)),
        i.same_user ∙ laws.lookup_retain (is_not_organization C) user c,
      )
    where
      or_else_none : (o : Option Text) → or_else o none ≡ o
      or_else_none none = refl
      or_else_none (some key) = refl

  org_keys_end :
      (profile : BitwardenProfile) (store store' : C.Store)
      → initialize_org_keys C profile store ≡ (ok tt, store')
      → is_empty (or_empty profile.organizations) ≡ false
      → in_context C (rebuild_organizations C (or_empty profile.organizations)) store
        ≡ (ok tt, store')
  unfolding initialize_org_keys
  org_keys_end profile store store' h e = cc (e, h)

  -- After a successful import for a profile with organizations, an organization has the key that the
  -- user's private key makes of its last entry with a key, and none without such an entry; the user
  -- key is as before. A profile without organizations leaves the store as it was.
  pub initialize_org_keys-last :
      (profile : BitwardenProfile) (store store' : C.Store)
      → initialize_org_keys C profile store ≡ (ok tt, store')
      → (is_empty (or_empty profile.organizations) ≡ false
          → ((id : ℕ)
              → view.find (organization id) store'
                ≡ key_from C view laws
                    (C.context_mut store)
                    none
                    (last_key id (or_empty profile.organizations)))
            × (view.find user store' ≡ view.find user store))
        × (is_empty (or_empty profile.organizations) ≡ true → store' ≡ store)
  unfolding initialize_org_keys
  initialize_org_keys-last profile store store' h = (
    λ e.
        let r =
          in_context_end C view laws (rebuild_organizations C (or_empty profile.organizations))
            store store' (org_keys_end profile store store' h e) in
        (
          λ id.
              ap (view.find (organization id)) (sym r.2)
              ∙ laws.find_close (organization id) r.0 tt
              ∙ (retained id (or_empty profile.organizations) (C.context_mut store) r.0 r.1).0,
          ap (view.find user) (sym r.2)
              ∙ laws.find_close user r.0 tt
              ∙ (retained 0 (or_empty profile.organizations) (C.context_mut store) r.0 r.1).1
              ∙ laws.lookup_context user store tt,
        ),
    λ e. cc (e, h),
  )
