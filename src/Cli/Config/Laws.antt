-- ===== src/Cli/Config/Laws.antt =====
-- Which configurations start the program.
use keyring_rs.Base.{
  ℕ, ◌≡◌, refl, sym, ap, Bool, true, false, ◌||◌, any, List, [], ◌∷◌, ◌++◌, map, Option, none, some,
  if◌then◌else◌, inl, inr, Bool-cases,
}
use keyring_rs.Base.Text.{Text, is_blank}
use keyring_rs.Base.Result.{Result, ok, err, Run, map_ok, and_then, continue}
use keyring_rs.Base.Run.{change_error}
use keyring_rs.Core.Provider.{SshKey, KeyPairProvider}
use keyring_rs.Service.Session.{no_providers, new}
use keyring_rs.Providers.Dummy.{DummyProviderConfig, dummy_name_empty, try_from_dummy, seed}
use keyring_rs.Providers.Bitwarden.Config.{BitwardenProviderConfig}
use keyring_rs.Providers.Bitwarden.KeyStore.{Crypto}
use keyring_rs.Providers.Bitwarden.Provider.{bitwarden_name_empty, try_from_bitwarden}
use keyring_rs.Cli.Platform.{Os, bind}
use keyring_rs.Cli.Signal.{Streams, Signal, new_signal}
use keyring_rs.Cli.Config.{
  Args, Config, Provider, dummy_provider, bitwarden_provider, ProviderError, bad_dummy,
  bad_bitwarden, bad_provider, bad_service, no_socket, collect, build_dummy, build_bitwarden,
  providers, read_config, load, startup, attached,
}

-- A list of results of which each fails by `bad`, with error `e`.
module _ {A B E : Type 0} (make : A → Result E B) (bad : A → Bool) (e : E) (good : A → B) where
  map_ok_id : {X : Type 0} (r : Result E X) → r ≡ map_ok (λ x. x) r
  map_ok_id (ok x) = refl
  map_ok_id (err e') = refl

  collect_cons :
      (b c : Bool) (y : B) (ys : List B) (r : Result E (List B))
      → and_then
          (if b then err e else ok y)
          (λ a. map_ok (λ more. a ∷ more) (if c then err e else map_ok (λ more. ys ++ more) r))
        ≡ (if b || c then err e else map_ok (λ more. y ∷ ys ++ more) r)
  collect_cons true c y ys r = refl
  collect_cons false true y ys r = refl
  collect_cons false false y ys (ok more) = refl
  collect_cons false false y ys (err e') = refl

  append_nil : {X : Type 0} (xs : List X) → xs ++ [] ≡ xs
  append_nil [] = refl
  append_nil (x ∷ xs) = ap (λ ys. x ∷ ys) (append_nil xs)

  collect-map :
      ((a : A) → make a ≡ (if bad a then err e else ok (good a)))
      → (xs : List A) (rest : List (Result E B))
      → collect (map make xs ++ rest)
        ≡ (if any bad xs then err e else map_ok (λ more. map good xs ++ more) (collect rest))
  unfolding collect
  collect-map h [] rest = map_ok_id (collect rest)
  collect-map h (x ∷ xs) rest =
      rw (h x, collect-map h xs rest)
        (collect_cons (bad x) (any bad xs) (good x) (map good xs) (collect rest))

  collect_last :
      ((a : A) → make a ≡ (if bad a then err e else ok (good a)))
      → (xs : List A) → collect (map make xs) ≡ (if any bad xs then err e else ok (map good xs))
  unfolding collect
  collect_last h xs =
      rw
        (ap collect (sym (append_nil (map make xs))), collect-map h xs [], append_nil (map good xs))
        refl

module _ (K : SshKey) (C : Crypto) (from_seed : List ℕ → K.PrivateKey) where
  abbrev pub blank_dummy : DummyProviderConfig → Bool
  blank_dummy cfg = is_blank cfg.name

  abbrev pub blank_bitwarden : BitwardenProviderConfig → Bool
  blank_bitwarden cfg = is_blank cfg.name

  abbrev pub fixed : DummyProviderConfig → Provider K C
  fixed cfg = dummy_provider (record { identities = from_seed seed ∷ [] })

  abbrev pub lazy : BitwardenProviderConfig → Provider K C
  lazy cfg = bitwarden_provider (record { config = cfg; session = none; keys = none })

  build_dummy-fixed :
      (cfg : DummyProviderConfig)
      → build_dummy K C from_seed cfg
        ≡ (if blank_dummy cfg then err (bad_dummy dummy_name_empty) else ok (fixed cfg))
  unfolding build_dummy try_from_dummy
  build_dummy-fixed cfg = elim (Bool-cases (is_blank cfg.name)) [
    | inl e ↦ rw e refl
    | inr e ↦ rw e refl
  ]

  build_bitwarden-lazy :
      (cfg : BitwardenProviderConfig)
      → build_bitwarden K C from_seed cfg
        ≡ (if blank_bitwarden cfg then err (bad_bitwarden bitwarden_name_empty) else ok (lazy cfg))
  unfolding build_bitwarden try_from_bitwarden
  build_bitwarden-lazy cfg = elim (Bool-cases (is_blank cfg.name)) [
    | inl e ↦ rw e refl
    | inr e ↦ rw e refl
  ]

  -- The providers that a configuration builds, if none of its names is blank.
  abbrev pub all_declared : Config → List (Provider K C)
  all_declared config = map fixed config.dummy ++ map lazy config.bitwarden

  -- The providers that a configuration stands for, in their order, or the name that is blank.
  abbrev pub declared : Config → Result ProviderError (List (Provider K C))
  declared config =
      if any blank_dummy config.dummy
      then err (bad_dummy dummy_name_empty)
      else if any blank_bitwarden config.bitwarden
      then err (bad_bitwarden bitwarden_name_empty)
      else ok (all_declared config)

  declared_cases :
      (b c : Bool) (xs ys : List (Provider K C))
      → (if b
          then err (bad_dummy dummy_name_empty)
          else map_ok
              (λ more. xs ++ more)
              (if c then err (bad_bitwarden bitwarden_name_empty) else ok ys))
        ≡ (if b
            then err (bad_dummy dummy_name_empty)
            else if c
            then err (bad_bitwarden bitwarden_name_empty)
            else ok (xs ++ ys))
  declared_cases true c xs ys = refl
  declared_cases false true xs ys = refl
  declared_cases false false xs ys = refl

  -- A configuration builds its dummy providers and then its Bitwarden ones, in declaration order, all
  -- of them without a session or keys but the fixed key of a dummy; or it fails on a blank name, a
  -- dummy's first.
  pub providers-declared : (config : Config) → providers K C from_seed config ≡ declared config
  unfolding providers
  providers-declared config =
      rw
        (
          collect-map (build_dummy K C from_seed) blank_dummy (bad_dummy dummy_name_empty) fixed
              build_dummy-fixed config.dummy (map (build_bitwarden K C from_seed) config.bitwarden),
          collect_last (build_bitwarden K C from_seed) blank_bitwarden
              (bad_bitwarden bitwarden_name_empty) lazy build_bitwarden-lazy config.bitwarden,
        )
        (declared_cases (any blank_dummy config.dummy) (any blank_bitwarden config.bitwarden)
          (map fixed config.dummy) (map lazy config.bitwarden))

  module _ {W V E F L : Type 0} (read_to_string : Text → Run W E Text)
      (from_toml : Text → Option Config) (attach : ℕ → Provider K C → KeyPairProvider K V F)
      {G : Type 0} (streams : Streams W G E) where
    -- The program with a configuration that decodes: a blank name, or no provider, ends it before it
    -- touches the socket, whatever the system `os` is; else it binds the socket, and serves by an
    -- agent of the declared providers if that succeeds.
    pub startup_lem :
        (os : Os W L) (args : Args) (w w1 w2 : W) (signal : Signal G) (source : Text)
        (config : Config)
        → new_signal streams w ≡ (ok signal, w1)
        → read_to_string args.config w1 ≡ (ok source, w2)
        → from_toml source ≡ some config
        → ((e : ProviderError)
            → declared config ≡ err e
            → startup K C from_seed read_to_string from_toml attach streams os args w
              ≡ (err (bad_provider e), w2))
          × (declared config ≡ ok []
              → startup K C from_seed read_to_string from_toml attach streams os args w
                ≡ (err (bad_service no_providers), w2))
          × ((p : Provider K C) (ps : List (Provider K C))
              → declared config ≡ ok (p ∷ ps)
              → startup K C from_seed read_to_string from_toml attach streams os args w
                ≡ continue (change_error no_socket (bind os args.path w2)) (λ socket w3.
                  (ok (socket, (signal, record { providers = attached attach 0 (p ∷ ps) })), w3)))
    unfolding startup load read_config new
    startup_lem os args w w1 w2 signal source config h h' h'' = (
      λ e d. simp (h, h', h'', providers-declared config, d),
      λ d. simp (h, h', h'', providers-declared config, d),
      λ p ps d. simp (h, h', h'', providers-declared config, d),
    )
