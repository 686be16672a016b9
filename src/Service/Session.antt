-- ===== src/Service/Session.antt =====
-- `ServiceAgent` and `ServiceSession` of crates/keyring-service/src/runtime.rs. A request changes
-- the session and the world `W` that the providers act on. The messages of `ssh_agent_lib` are the
-- parameter `AgentProto`; the iteration order of the key map is the parameter `iter`.
pub mod Loading
pub mod Snapshot
pub mod Listing
pub mod Signatures
pub mod Binding
pub mod Supply
pub mod Agreement
use keyring_rs.Base.{
  ℕ, suc, Bool, true, false, not, List, [], ◌∷◌, ◌++◌, map, Option, none, some, any, is_empty,
  length, if◌then◌else◌,
}
use keyring_rs.Base.Text.{Text, text, text_eq}
use keyring_rs.Base.Result.{Result, ok, err, ok_or, map_ok, Run}
use keyring_rs.Base.Run.{◌>>=◌, ◌>>◌, return, fail, lift, on_error, change_error}
use keyring_rs.Base.Sort.{sorted_by}
use keyring_rs.Core.Provider.{SshKey, KeyPairSnapshot, KeyPairProvider}
use keyring_rs.Service.Index.{Index, get, extend}
use keyring_rs.Service.Sig.{Bytes, Signing, SigError, sig}

pub record AgentProto : Type 1 where
  pub Extension : Type 0
  pub name : Extension → Text
  pub SessionBind : Type 0
  pub session_id : SessionBind → Bytes
  pub is_forwarding : SessionBind → Bool
  -- `none` for an error, `some none` for a payload of another type.
  pub parse_message : Extension → Option (Option SessionBind)
  pub verify_signature : SessionBind → Bool
  pub query_response : List Text → Option Extension

pub data LoadError (E : Type 0) : Type 0 where
  provider_load_failed : ℕ → E → LoadError E

pub data AgentError (E : Type 0) : Type 0 where
  load_failed : LoadError E → AgentError E
  unpublished_key query_failed extension_failure failure : AgentError E
  sign_failed : SigError → AgentError E

pub data NewError : Type 0 where
  no_providers : NewError

pub record Bind : Type 0 where
  pub id : Bytes
  pub fwd : Bool

pub record ServiceAgent (K : SshKey) (W E : Type 0) : Type 0 where
  pub providers : List (KeyPairProvider K W E)

pub record ServiceSession (K : SshKey) (W E : Type 0) : Type 0 where
  pub providers : List (KeyPairProvider K W E)
  pub keys : Option (Index K)
  pub binds : List Bind

pub record AgentIdentity (KeyData : Type 0) : Type 0 where
  pub pubkey : KeyData
  pub comment : Text

pub record SignRequest (KeyData : Type 0) : Type 0 where
  pub pubkey : KeyData
  pub bytes : Bytes
  pub flags : ℕ

abbrev pub query : Text
query = text "query"

abbrev pub bind : Text
bind = text "session-bind@openssh.com"

abbrev pub is_dup : Bytes → List Bind → Bool
is_dup id = any (λ item. text_eq item.id id)

abbrev pub is_locked : List Bind → Bool
is_locked = any (λ item. not item.fwd)

module _ (K : SshKey) where
  abbrev pub identity_of : K.KeyData × K.PrivateKey → AgentIdentity K.KeyData
  identity_of (pubkey, key) = record { pubkey = pubkey; comment = K.comment key }

  abbrev pub pubkey_of : AgentIdentity K.KeyData → K.KeyData
  pubkey_of identity = identity.pubkey

module _ (P : AgentProto) {E : Type 0} where
  -- The payload of a `session-bind` message, parsed and verified.
  unfoldable pub verified_bind : P.Extension → Result (AgentError E) P.SessionBind
  verified_bind ext = elim (P.parse_message ext) [
    | none ↦ err extension_failure
    | some none ↦ err extension_failure
    | some (some b) ↦ if P.verify_signature b then ok b else err extension_failure
  ]

module _ (K : SshKey) {W E : Type 0} where
  -- `ServiceAgent::new`
  unfoldable pub new : List (KeyPairProvider K W E) → Result NewError (ServiceAgent K W E)
  new providers =
      if is_empty providers then err no_providers else ok (record { providers = providers })

  unfoldable pub new_session : ServiceAgent K W E → ServiceSession K W E
  new_session agent = record { providers = agent.providers; keys = none; binds = [] }

  -- The loop of `load`, from the provider at index `i` on.
  unfoldable pub load_from :
      ℕ → List (KeyPairProvider K W E) → Index K → Run W (LoadError E) (Index K)
  load_from i [] out = return out
  load_from i (src ∷ rest) out = do
    keys ← on_error src (provider_load_failed i)
    load_from (suc i) rest (extend K out keys)

  unfoldable pub load : ServiceSession K W E → Run W (LoadError E) (Index K)
  unfolding load_from
  load session = load_from 0 session.providers []

  -- The two outcomes of the initializer of `OnceCell::get_or_try_init`.
  abbrev pub init_keys :
      ServiceSession K W E
      → Result (LoadError E) (Index K) × W
      → Result (LoadError E) (Index K) × (ServiceSession K W E × W)
  init_keys session (ok keys, w) = (ok keys, (record session { keys = some keys }, w))
  init_keys session (err e, w) = (err e, (session, w))

  unfoldable pub load_once : Run (ServiceSession K W E × W) (LoadError E) (Index K)
  unfolding load
  load_once (session, w) = elim session.keys [
    | some keys ↦ (ok keys, (session, w))
    | none ↦ init_keys session (load session w)
  ]

  unfoldable pub request_identities :
      (iter : Index K → Index K)
      → Run (ServiceSession K W E × W) (AgentError E) (List (AgentIdentity K.KeyData))
  unfolding load_once
  request_identities iter = do
    keys ← on_error load_once load_failed
    return (sorted_by (pubkey_of K) K.cmp (map (identity_of K) (iter keys)))

  unfoldable pub sign :
      (S : Signing K)
      → SignRequest K.KeyData
      → Run (ServiceSession K W E × W) (AgentError E) S.Signature
  unfolding load_once
  sign S req = do
    keys ← on_error load_once load_failed
    key ← lift (ok_or (get K req.pubkey keys) unpublished_key)
    on_error (lift (sig S key req.bytes req.flags)) sign_failed

  module _ (P : AgentProto) where
    unfoldable pub accept_bind :
        P.SessionBind
        → ServiceSession K W E
        → Result (AgentError E) (Option P.Extension) × ServiceSession K W E
    accept_bind b session =
        if is_dup (P.session_id b) session.binds
        then (err extension_failure, session)
        else if is_locked session.binds
        then (err extension_failure, session)
        else (
          ok none,
          record session {
            binds = session.binds ++ record { id = P.session_id b; fwd = P.is_forwarding b } ∷ [];
          },
        )

    -- `extension`; it does not reach the providers.
    unfoldable pub extension :
        P.Extension → Run (ServiceSession K W E) (AgentError E) (Option P.Extension)
    unfolding verified_bind accept_bind
    extension ext session =
        if text_eq (P.name ext) query
        then (map_ok some (ok_or (P.query_response (query ∷ bind ∷ [])) query_failed), session)
        else if text_eq (P.name ext) bind
        then (do b ← lift (verified_bind P ext); accept_bind b) session
        else (err failure, session)
