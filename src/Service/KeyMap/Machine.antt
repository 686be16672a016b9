-- ===== src/Service/KeyMap/Machine.antt =====
-- A machine that holds an abstract key map and the recorded binds, and no providers.
use keyring_rs.Base.{List, [], ◌∷◌, Option, none}
use keyring_rs.Base.Result.{Result, ok}
use keyring_rs.Base.Sort.{IsTotalOrder}
use keyring_rs.Core.Provider.{SshKey}
use keyring_rs.Service.KeyMap.{KeyMap, lookup, publish}
use keyring_rs.Service.Sig.{Signing}
use keyring_rs.Service.Session.{
  AgentProto, AgentError, AgentIdentity, Bind, ServiceSession, extension,
}
use keyring_rs.Service.Session.Signatures.{reply}
use keyring_rs.Service.Session.Snapshot.{Call, lists, signs, extends}

module _ (K : SshKey) (S : Signing K) (P : AgentProto) (E : Type 0) where
  pub data Reply : Type 0 where
    listed : Result (AgentError E) (List (AgentIdentity K.KeyData)) → Reply
    signed : Result (AgentError E) S.Signature → Reply
    extended : Result (AgentError E) (Option P.Extension) → Reply

-- What the replies depend on.
pub record View (K : SshKey) : Type 0 where
  pub keys : KeyMap K
  pub binds : List Bind

module _ (K : SshKey) {E : Type 0} where
  -- A session that holds these binds and nothing else, and acts on no world.
  abbrev pub bound : List Bind → ServiceSession K Unit E
  bound binds = record { providers = []; keys = none; binds = binds }

module _ (K : SshKey) (S : Signing K) (P : AgentProto) {E : Type 0} (set : IsSet K.PrivateKey)
    (order : IsTotalOrder K.cmp) where
  unfoldable pub answer : View K → Call K P → Reply K S P E
  answer v lists = listed (ok (publish K order v.keys))
  answer v (signs req) = signed (reply K S req (lookup K set req.pubkey v.keys))
  answer v (extends ext) = extended (extension K P ext (bound K v.binds)).0

module _ (K : SshKey) (P : AgentProto) (E : Type 0) where
  unfoldable pub next : View K → Call K P → View K
  next v lists = v
  next v (signs req) = v
  next v (extends ext) = record v { binds = (extension K P ext (bound K {E = E} v.binds)).1.binds }

module _ (K : SshKey) (S : Signing K) (P : AgentProto) {E : Type 0} (set : IsSet K.PrivateKey)
    (order : IsTotalOrder K.cmp) where
  -- The abstract machine: it has the keys from the start and no providers.
  unfoldable pub answers : View K → List (Call K P) → List (Reply K S P E)
  answers v [] = []
  answers v (c ∷ cs) = answer K S P set order v c ∷ answers (next K P E v c) cs
