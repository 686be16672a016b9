-- ===== src/Cli/Config/Agent/Built.antt =====
-- The providers of the agent that `load` returns: crates/keyring-cli/src/main.rs.
use keyring_rs.Base.{ℕ, ◌≡◌, refl, ◌∙◌, sym, ap, subst, arith, List, [], ◌∷◌, Option, some}
use keyring_rs.Base.Text.{Text}
use keyring_rs.Base.Result.{Result, ok, err, Run, map_err, continue}
use keyring_rs.Base.Run.{lift}
use keyring_rs.Core.Provider.{SshKey, KeyPairProvider}
use keyring_rs.Service.Session.{NewError, ServiceAgent, new}
use keyring_rs.Providers.Bitwarden.KeyStore.{Crypto}
use keyring_rs.Cli.Config.{
  Config, Provider, ProviderError, StartError, attached, read_config, load, bad_provider,
  bad_service,
}
use keyring_rs.Cli.Config.Laws.{declared, all_declared, providers-declared}

module _ (K : SshKey) (C : Crypto) (from_seed : List ℕ → K.PrivateKey) where
  module _ {W V E F : Type 0} (read_to_string : Text → Run W E Text)
      (from_toml : Text → Option Config) (attach : ℕ → Provider K C → KeyPairProvider K V F)
      (agent : ServiceAgent K V F) where
    new-providers : (ps : List (KeyPairProvider K V F)) → new K ps ≡ ok agent → agent.providers ≡ ps
    unfolding new
    new-providers [] h = cc h
    new-providers (p ∷ ps) h = subst (λ (a : ServiceAgent K V F). a.providers ≡ p ∷ ps) (cc h) refl

    new-attached :
        (ps : List (Provider K C)) (n : Result NewError (ServiceAgent K V F))
        → new K (attached attach 0 ps) ≡ n
        → map_err {F = StartError E} n (λ e. bad_service e) ≡ ok agent
        → agent.providers ≡ attached attach 0 ps
    new-attached ps (ok a) e h = new-providers (attached attach 0 ps) (cc (e, h))
    new-attached ps (err x) e h = cc h

    built-attached :
        (r : Result ProviderError (List (Provider K C))) (w : W)
        → (continue
            (map_err {F = StartError E} r (λ e. bad_provider e), w)
            (λ built. lift (map_err (new K (attached attach 0 built)) (λ e. bad_service e)))).0
          ≡ ok agent
        → (ps : List (Provider K C)) × (r ≡ ok ps) × (agent.providers ≡ attached attach 0 ps)
    built-attached (ok ps) w h = (ps, refl, new-attached ps (new K (attached attach 0 ps)) refl h)
    built-attached (err e) w h = cc h

    declared-all_declared :
        (config : Config) (ps : List (Provider K C))
        → declared K C from_seed config ≡ ok ps
        → all_declared K C from_seed config ≡ ps
    declared-all_declared config ps h = ground arith

    -- Where the configuration is read and decoded, the providers are the declared ones.
    pub load-all_declared :
        (path : Text) (w w' : W) (source : Text) (config : Config)
        → read_to_string path w ≡ (ok source, w')
        → from_toml source ≡ some config
        → (load K C from_seed read_to_string from_toml attach path w).0 ≡ ok agent
        → agent.providers ≡ attached attach 0 (all_declared K C from_seed config)
    unfolding load read_config
    load-all_declared path w w' source config h h' loaded =
        let b =
          built-attached (declared K C from_seed config) w'
            (simp (h, h', providers-declared K C from_seed config) at loaded) in
        b.2 ∙ sym (ap (attached attach 0) (declared-all_declared config b.0 b.1))
