-- ===== src/Providers/Bitwarden/Provider/Confinement.antt =====
-- A load of the provider sends each secret of its configuration to the server that it is for only.
use keyring_rs.Base.{ℕ, refl, Option, none, some}
use keyring_rs.Base.Text.{Text}
use keyring_rs.Base.Run.{change_error, change_error-keeps, continue-elim}
use keyring_rs.Core.Provider.{SshKey}
use keyring_rs.Providers.Bitwarden.Config.{BitwardenProviderConfig}
use keyring_rs.Providers.Bitwarden.KeyStore.{Crypto}
use keyring_rs.Providers.Bitwarden.Session.{new, init_orgs}
use keyring_rs.Providers.Bitwarden.Session.Confinement.{IsOwn}
use keyring_rs.Providers.Bitwarden.Session.Confined.{Confined, Confines, sync-Confined}
use keyring_rs.Providers.Bitwarden.Net.{
  connect_timeout, read_timeout, http_timeout, BitwardenSession, Net, client_not_built,
}
use keyring_rs.Providers.Bitwarden.Provider.{Loading, load_bitwarden}
use keyring_rs.Providers.Bitwarden.Provider.Keeping.{
  OfCell, OfNew, RefreshKeeps, load_bitwarden_keeps,
}

-- The once-cell is empty, or has a session of the configuration.
abbrev pub OwnCell :
    {C : Crypto} {W E : Type 0}
    → Net C W E
    → BitwardenProviderConfig
    → Option (BitwardenSession C)
    → Type 0
OwnCell net config none = Unit
OwnCell net config (some s) = IsOwn net config s

module _ {C : Crypto} {W V E F : Type 0} (base : Net C V F) (net : Net C W E)
    (config : BitwardenProviderConfig) (Log : W → Type 0) where
  -- The same, and a property of the world.
  abbrev pub ConfinedCell : Option (BitwardenSession C) × W → Type 0
  ConfinedCell = OfCell (Confined base net config Log) Log

  pub ConfinedCell-join :
      (o : Option (BitwardenSession C)) (w : W)
      → OwnCell base config o
      → Log w
      → ConfinedCell (o, w)
  ConfinedCell-join none w h logs = logs
  ConfinedCell-join (some s) w h logs = (h, logs)

  pub ConfinedCell-split :
      (o : Option (BitwardenSession C)) (w : W)
      → ConfinedCell (o, w)
      → OwnCell base config o × Log w
  ConfinedCell-split none w logs = (tt, logs)
  ConfinedCell-split (some s) w h = h

  module _ (K : SshKey) (show_uuid : ℕ → Text) (confines : Confines base net config Log) where
    pub new-Confined : (w : W) → Log w → OfNew (Confined base net config Log) Log (new net config w)
    unfolding new
    new-Confined w h =
        let built = net.build_client connect_timeout read_timeout http_timeout w in
        let logs =
          change_error-keeps Log client_not_built built
            (confines.build_keeps connect_timeout read_timeout http_timeout w h) in
        continue-elim (OfNew (Confined base net config Log) Log)
          (change_error client_not_built built) _
          (λ u _. (record { api_url = refl; identity_url = refl; issued = tt }, logs)) (λ e _. logs)

    pub Confined-RefreshKeeps :
        RefreshKeeps K C show_uuid net config (Confined base net config Log) Log
    unfolding init_orgs
    Confined-RefreshKeeps = record {
      new_keeps = new-Confined;
      sync_keeps = sync-Confined base net config Log confines;
      init_orgs_keeps = λ profile st h. (
        record { api_url = h.0.api_url; identity_url = h.0.identity_url; issued = h.0.issued },
        h.1,
      );
      discover_in_keeps = λ ciphers st h. (
        record { api_url = h.0.api_url; identity_url = h.0.identity_url; issued = h.0.issued },
        h.1,
      );
    }

    -- A load leaves the once-cell empty or with a session of the configuration, and keeps what its
    -- requests keep, whichever way it ends.
    pub load_bitwarden-Confined :
        (acquire : Loading K C show_uuid net config → Loading K C show_uuid net config)
        → ((st : Loading K C show_uuid net config)
            → ConfinedCell st.1
            → ConfinedCell (acquire st).1)
        → (st : Loading K C show_uuid net config) → ConfinedCell st.1
        → ConfinedCell (load_bitwarden K C show_uuid net config acquire st).1.1
    load_bitwarden-Confined =
        load_bitwarden_keeps K C show_uuid net config (Confined base net config Log) Log
          Confined-RefreshKeeps
