-- ===== src/Providers/Bitwarden/Crypto/Bootstrap.antt =====
-- What the bootstrap of the user's keys leaves in the key store.
use keyring_rs.Base.{
  ℕ, ◌≡◌, refl, ◌∙◌, sym, ap, inl, inr, Bool, true, false, Bool-cases, Option, none, some,
  if◌then◌else◌,
}
use keyring_rs.Base.Text.{Text}
use keyring_rs.Base.Result.{Done, Result, ok, err, continue}
use keyring_rs.Providers.Bitwarden.Auth.{BitwardenTokenSuccessResponse}
use keyring_rs.Providers.Bitwarden.Crypto.{
  SymmetricKeyId, step, persist_private_key, import_user_key, bootstrap, user_keys,
  import_user_keys, initialize_user_crypto,
}
use keyring_rs.Providers.Bitwarden.KeyStore.{
  Crypto, CryptoError, unknown_algorithm, user_key_not_persisted, BitwardenAsymmetricKeyId, user,
  organization, user_private_key,
}
use keyring_rs.Providers.Bitwarden.Crypto.Store.{IsGlobal, is_some, KeyView, StoreLaws}

abbrev pub is_ok : {E A : Type 0} → Result E A → Bool
is_ok (ok a) = true
is_ok (err e) = false

module _ (C : Crypto) (view : KeyView C) (laws : StoreLaws C view) where
  abbrev pub Keeps : C.Context → C.Context → Type 0
  Keeps c c' = (id : SymmetricKeyId C) → IsGlobal id → view.lookup id c' ≡ view.lookup id c

  -- The end of a bootstrap that began in the context `c`.
  pub record Bootstrapped (c : C.Context) (r : Result CryptoError Done × C.Context) : Type 0 where
    pub has_user :
        is_some (view.lookup user r.1) ≡ (if is_ok r.0 then true else is_some (view.lookup user c))
    pub same_others : (id : ℕ) → view.lookup (organization id) r.1 ≡ view.lookup (organization id) c

  Bootstrapped-err : (c c' : C.Context) (e : CryptoError) → Keeps c c' → Bootstrapped c (err e, c')
  Bootstrapped-err c c' e k = record {
    has_user = ap is_some (k user tt);
    same_others = λ id. k (organization id) tt;
  }

  step_has :
      (r : Bool × C.Context) (e : CryptoError) (d : C.Context) → is_ok (step C (λ _. r) e d).0 ≡ r.0
  step_has (true, c') e d = refl
  step_has (false, c') e d = refl

  persist_user-Bootstrapped :
      (from : SymmetricKeyId C) (c d : C.Context)
      → Keeps c d
      → Bootstrapped c (step C (C.persist_symmetric_key from user) user_key_not_persisted d)
  persist_user-Bootstrapped from c d k = record {
    has_user =
        rw
          (step_has (C.persist_symmetric_key from user d) user_key_not_persisted d, sym (k user tt))
          (laws.persisted from user d);
    same_others = λ id.
        laws.persist_others from user (organization id) d tt (λ e. cc e) ∙ k (organization id) tt;
  }

  persist_private-Keeps :
      (o : Option (BitwardenAsymmetricKeyId C.LocalId)) (c d : C.Context)
      → Keeps c d
      → Keeps c (persist_private_key C o d).1
  unfolding persist_private_key
  persist_private-Keeps none c d k id g = k id g
  persist_private-Keeps (some p) c d k id g =
      laws.lookup_persist_private p user_private_key id d g ∙ k id g

  then-Bootstrapped :
      (from : SymmetricKeyId C) (c : C.Context) (r : Result CryptoError Done × C.Context)
      → Keeps c r.1
      → Bootstrapped c
          (continue r (λ _. step C (C.persist_symmetric_key from user) user_key_not_persisted))
  then-Bootstrapped from c (ok u, d) k = persist_user-Bootstrapped from c d k
  then-Bootstrapped from c (err e, d) k = Bootstrapped-err c d e k

  import_user_key-Bootstrapped :
      (e : C.EncString) (from : SymmetricKeyId C) (c d : C.Context)
      → Keeps c d
      → Bootstrapped c (import_user_key C e from d)
  unfolding import_user_key
  import_user_key-Bootstrapped e from c d k = elim (Bool-cases (C.has_known_algorithm from d)) [
    | inl q ↦
        rw (import_user_key, q)
          (then-Bootstrapped from c
            (persist_private_key C (C.unwrap_private_key from e d).0
              (C.unwrap_private_key from e d).1)
            (persist_private-Keeps (C.unwrap_private_key from e d).0 c
              (C.unwrap_private_key from e d).1
              (λ id g. laws.lookup_unwrap_private from id e d g ∙ k id g)))
    | inr q ↦ rw (import_user_key, q) (Bootstrapped-err c d unknown_algorithm k)
  ]

  bootstrap-Bootstrapped :
      (keys : C.EncString × C.SymmetricKey) (c : C.Context) → Bootstrapped c (bootstrap C keys c)
  unfolding bootstrap
  bootstrap-Bootstrapped (e, k) c = elim (Bool-cases (C.has_symmetric_key user c)) [
    | inl q ↦
        rw (bootstrap, q)
          (record { has_user = sym (laws.has_lookup user c) ∙ q; same_others = λ id. refl })
    | inr q ↦
        rw (bootstrap, q)
          (import_user_key-Bootstrapped e (C.add_local_symmetric_key k c).0 c
            (C.add_local_symmetric_key k c).1 (λ id g. laws.lookup_add k id c g))
  ]

  import_user_keys-has_user :
      (store : C.Store) (r : Result CryptoError (C.EncString × C.SymmetricKey))
      → (is_some (view.find user (import_user_keys C store r).1)
          ≡ (if is_ok (import_user_keys C store r).0 then true else is_some (view.find user store)))
        × ((id : ℕ)
            → view.find (organization id) (import_user_keys C store r).1
              ≡ view.find (organization id) store)
  unfolding import_user_keys
  import_user_keys-has_user store (err e) = (refl, λ id. refl)
  import_user_keys-has_user store (ok keys) =
      let b = bootstrap-Bootstrapped keys (C.context_mut store) in
      let r = bootstrap C keys (C.context_mut store) in
      (
        ap is_some (laws.find_close user r.1 tt)
            ∙ b.has_user
            ∙ ap (λ o. if is_ok r.0 then true else is_some o) (laws.lookup_context user store tt),
        λ id.
            laws.find_close (organization id) r.1 tt
            ∙ b.same_others id
            ∙ laws.lookup_context (organization id) store tt,
      )

  -- A successful bootstrap leaves a user key in the store. A failed one leaves one exactly if there
  -- was one before. Organization keys stay in any case.
  pub initialize_user_crypto-has_user :
      (password : Text) (token : BitwardenTokenSuccessResponse) (store : C.Store)
      → (is_some (view.find user (initialize_user_crypto C password token store).1) ≡ (
          if is_ok (initialize_user_crypto C password token store).0
          then true
          else is_some (view.find user store)))
        × ((id : ℕ)
            → view.find (organization id) (initialize_user_crypto C password token store).1
              ≡ view.find (organization id) store)
  unfolding initialize_user_crypto
  initialize_user_crypto-has_user password token store =
      import_user_keys-has_user store (user_keys C password token)
