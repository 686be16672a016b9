-- ===== src/Service/Debug.antt =====
-- `Debug` of `ServiceAgent` and `ServiceSession` of crates/keyring-service/src/runtime.rs.
use keyring_rs.Base.{◌≡◌, ◌↔◌, ap, Bool, true, false, Option, none, some, [], ◌∷◌, length}
use keyring_rs.Base.Text.{text}
use keyring_rs.Base.Fmt.{number, boolean, DebugStruct}
use keyring_rs.Core.Provider.{SshKey}
use keyring_rs.Service.Session.{ServiceAgent, ServiceSession}

-- `OnceCell::initialized`
abbrev pub initialized : {A : Type 0} → Option A → Bool
initialized none = false
initialized (some a) = true

module _ {K : SshKey} {W E : Type 0} where
  unfoldable pub debug_agent : ServiceAgent K W E → DebugStruct
  debug_agent agent = record {
    name = text "ServiceAgent";
    fields = (text "providers", number (length agent.providers)) ∷ [];
    exhaustive = true;
  }

  unfoldable pub debug_session : ServiceSession K W E → DebugStruct
  debug_session session = record {
    name = text "ServiceSession";
    fields =
        (text "loaded", boolean (initialized session.keys))
        ∷ (text "providers", number (length session.providers))
        ∷ (text "bindings", number (length session.binds))
        ∷ [];
    exhaustive = true;
  }

  -- What is printed of a session tells whether it has loaded, and how many providers and bindings it
  -- has; the keys and the session ids do not appear.
  debug_session-public :
      (s t : ServiceSession K W E)
      → (debug_session s ≡ debug_session t) ↔ (
          (initialized s.keys ≡ initialized t.keys)
          × (length s.providers ≡ length t.providers)
          × (length s.binds ≡ length t.binds))
  unfolding debug_session
  debug_session-public s t = (
    λ h. let f = ap (λ (d : DebugStruct). d.fields) h in (cc f, cc f, cc f),
    λ h. cc (h.0, h.1, h.2),
  )
