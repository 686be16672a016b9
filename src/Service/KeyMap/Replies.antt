-- ===== src/Service/KeyMap/Replies.antt =====
-- The replies of a session to any sequence of requests, against the machine with an abstract key map.
use keyring_rs.Service.KeyMap.Machine.{
  Reply, listed, signed, extended, bound, answer, next, answers,
}
use keyring_rs.Base.{
  ◌≡◌, refl, ◌∙◌, sym, ap, List, [], ◌∷◌, Option-cases, arith, inl, inr, Bool-cases,
}
use keyring_rs.Base.Text.{text_eq}
use mathlib.Core.List.{Perm}
use keyring_rs.Base.Result.{Result, ok, err}
use keyring_rs.Base.Sort.{IsTotalOrder, Distinct}
use keyring_rs.Core.Provider.{SshKey}
use keyring_rs.Service.Index.{Index}
use keyring_rs.Service.Index.Laws.{entry_key}
use keyring_rs.Service.KeyMap.{KeyMap, key_map, key_map_same}
use keyring_rs.Service.Sig.{Signing}
use keyring_rs.Service.Session.{
  AgentProto, LoadError, ServiceSession, load, load_once, init_keys, request_identities, sign,
  extension, query, bind, accept_bind,
}
use keyring_rs.Service.Session.Loading.{load_once-warm, load_once-cached}
use keyring_rs.Service.Session.Binding.{verified_cases}
use keyring_rs.Service.Session.Listing.{request_identities-IsListing}
use keyring_rs.Service.Session.Signatures.{sign-reply}
use keyring_rs.Service.Session.Snapshot.{
  Call, lists, signs, extends, perform, perform-lists, perform-signs, perform-extends,
}

module _ (K : SshKey) (P : AgentProto) {W E : Type 0} where
  -- Two outcomes that agree but for the providers and the keys of the session.
  abbrev Alike :
      {A : Type 0}
      → ServiceSession K W E
      → A × ServiceSession K W E
      → A × ServiceSession K Unit E
      → Type 0
  Alike session r r' = (r.0 ≡ r'.0) × (r.1.binds ≡ r'.1.binds) × (r.1.providers ≡ session.providers)

  accept_bind-Alike :
      (b : P.SessionBind) (session : ServiceSession K W E)
      → Alike session (accept_bind K P b session) (accept_bind K P b (bound K session.binds))
  unfolding accept_bind
  accept_bind-Alike b session = ground arith

  extension-Alike :
      (ext : P.Extension) (session : ServiceSession K W E)
      → Alike session (extension K P ext session) (extension K P ext (bound K session.binds))
  unfolding extension
  extension-Alike ext session = elim (Bool-cases (text_eq (P.name ext) query)) [
    | inl asked ↦ rw asked (refl, refl, refl)
    | inr other ↦ elim (Bool-cases (text_eq (P.name ext) bind)) [
      | inr unknown ↦ rw (other, unknown) (refl, refl, refl)
      | inl named ↦ elim (verified_cases P {E = E} ext) [
        | inl refused ↦ rw (other, named, refused) (refl, refl, refl)
        | inr (b, parsed, verified, e) ↦ rw (other, named, e) (accept_bind-Alike b session)
      ]
    ]
  ]

module _ (K : SshKey) {W E : Type 0} where
  init_keys-binds :
      (session : ServiceSession K W E) (r : Result (LoadError E) (Index K) × W)
      → ((init_keys K session r).0 ≡ r.0) × ((init_keys K session r).1.0.binds ≡ session.binds)
  init_keys-binds session (ok m, w) = (refl, refl)
  init_keys-binds session (err e, w) = (refl, refl)

  load_once-binds : (s : ServiceSession K W E × W) → (load_once K s).1.0.binds ≡ s.0.binds
  unfolding load_once load
  load_once-binds (session, w) = elim (Option-cases session.keys) [
    | inl cold ↦ rw (load_once, cold) ((init_keys-binds session (load K session w)).1)
    | inr (m, warm) ↦ rw (load_once-warm K session w warm) refl
  ]

  load_once_same :
      (s t : ServiceSession K W E) (w : W)
      → s.providers ≡ t.providers
      → s.keys ≡ t.keys
      → (load_once K (s, w)).0 ≡ (load_once K (t, w)).0
  unfolding load_once load
  load_once_same s t w providers keys = elim (Option-cases s.keys) [
    | inl cold ↦
        let same : load K s w ≡ load K t w = rw (load, providers) refl in
        rw (load_once, cold, (sym keys ∙ cold), (init_keys-binds s (load K s w)).0)
          (ap (λ r. r.0) same ∙ sym ((init_keys-binds t (load K t w)).0))
    | inr (m, warm) ↦ rw (load_once-warm K s w warm, load_once-warm K t w (sym keys ∙ warm)) refl
  ]

module _ (K : SshKey) (S : Signing K) (P : AgentProto) {W E : Type 0}
    (iter : Index K → Index K) where
  unfoldable pub reply_to : Call K P → ServiceSession K W E × W → Reply K S P E
  reply_to lists s = listed (request_identities K iter s).0
  reply_to (signs req) s = signed (sign K S req s).0
  reply_to (extends ext) s = extended (extension K P ext s.0).0

  -- The reply to each request, in turn.
  unfoldable pub replies : List (Call K P) → ServiceSession K W E × W → List (Reply K S P E)
  replies [] s = []
  replies (c ∷ cs) s = reply_to c s ∷ replies cs (perform K S P iter c s)

  module _ (set : IsSet K.PrivateKey) (order : IsTotalOrder K.cmp)
      (any_order : (m : Index K) → Perm m (iter m)) where
    reply_to-answer :
        (c : Call K P) (s : ServiceSession K W E × W) (m : Index K) (t : Distinct (entry_key K) m)
        → (load_once K s).0 ≡ ok m
        → reply_to c s
          ≡ answer K S P set order (record { keys = key_map K m t; binds = s.0.binds }) c
    unfolding reply_to answer
    reply_to-answer lists s m t h =
        ap (λ r. listed r.0)
          (request_identities-IsListing K iter order any_order s _ m
            (ap (λ r. (r, (load_once K s).1)) h) t).0
    reply_to-answer (signs req) s m t h =
        ap (λ r. signed r.0) (sign-reply K S req s _ m (ap (λ r. (r, (load_once K s).1)) h))
    reply_to-answer (extends ext) s m t h = ap extended (extension-Alike K P ext s.0).0

    loaded-next :
        (s : ServiceSession K W E × W) (m : Index K)
        → (load_once K s).0 ≡ ok m
        → (load_once K (load_once K s).1).0 ≡ ok m
    loaded-next s m h =
        ap (λ r. r.0) (load_once-warm K (load_once K s).1.0 _ (load_once-cached K s m h))

    perform-next :
        (c : Call K P) (s : ServiceSession K W E × W) (m : Index K) (keys : KeyMap K)
        → (load_once K s).0 ≡ ok m
        → ((load_once K (perform K S P iter c s)).0 ≡ ok m)
          × ((next K P E (record { keys = keys; binds = s.0.binds }) c)
              ≡ record { keys = keys; binds = (perform K S P iter c s).0.binds })
    unfolding next perform
    perform-next lists s m keys h =
        rw (perform-lists K S P iter s, load_once-binds K s) (loaded-next s m h, refl)
    perform-next (signs req) s m keys h =
        rw (perform-signs K S P iter req s, load_once-binds K s) (loaded-next s m h, refl)
    perform-next (extends ext) (session, w) m keys h =
        let (_, binds, providers) = extension-Alike K P ext session in
        (
          load_once_same K _ session w providers ((perform-extends K S P iter ext session w).0) ∙ h,
          ap (λ bs. record { keys = keys; binds = bs }) (sym binds),
        )

    -- Whatever a client asks for, in any sequence, a session whose load yields an index of distinct
    -- keys replies as a machine that holds these keys as an abstract map, up to order, and the
    -- binds: the replies depend neither on when the session loads nor on how its map is iterated.
    -- Public keys are totally ordered, private keys are a set, an iteration visits each entry once.
    pub replies-answers :
        (cs : List (Call K P)) (s : ServiceSession K W E × W) (m : Index K)
        (t : Distinct (entry_key K) m)
        → (load_once K s).0 ≡ ok m
        → replies cs s
          ≡ answers K S P set order (record { keys = key_map K m t; binds = s.0.binds }) cs
    unfolding replies answers
    replies-answers [] s m t h = refl
    replies-answers (c ∷ cs) s m t h =
        let (loaded, same) = perform-next c s m (key_map K m t) h in
        rw (same, reply_to-answer c s m t h, replies-answers cs (perform K S P iter c s) m t loaded)
          refl

-- Sessions of any two agents that load the same keys, be it in another order, and have the same
-- binds reply alike to every sequence of requests, however each iterates its map.
pub replies-Perm :
    (K : SshKey) (S : Signing K) (P : AgentProto) {W V E : Type 0}
    → IsSet K.PrivateKey
    → IsTotalOrder K.cmp
    → (iter iter' : Index K → Index K) → ((m : Index K) → Perm m (iter m))
    → ((m : Index K) → Perm m (iter' m))
    → (cs : List (Call K P)) (s : ServiceSession K W E × W) (s' : ServiceSession K V E × V)
      (m n : Index K)
    → Distinct (entry_key K) m
    → Distinct (entry_key K) n
    → Perm m n
    → s.0.binds ≡ s'.0.binds
    → (load_once K s).0 ≡ ok m
    → (load_once K s').0 ≡ ok n
    → replies K S P iter cs s ≡ replies K S P iter' cs s'
replies-Perm K S P set order iter iter' any any' cs s s' m n t t' p binds h h' =
    rw
      (
        replies-answers K S P iter set order any cs s m t h,
        replies-answers K S P iter' set order any' cs s' n t' h',
        binds,
        key_map_same K m n t t' p,
      )
      refl
