-- ===== src/Service/Session/Snapshot.antt =====
-- One session sees one snapshot: what any sequence of requests does to the cached index.
use keyring_rs.Base.{◌≡◌, refl, ◌∙◌, List, [], ◌∷◌, some, arith}
use keyring_rs.Base.Result.{Result, ok, err, continue}
use keyring_rs.Base.Run.{change_error}
use keyring_rs.Core.Provider.{SshKey}
use keyring_rs.Service.Index.{Index}
use keyring_rs.Service.Sig.{Signing}
use keyring_rs.Service.Session.{
  AgentProto, load_failed, ServiceAgent, ServiceSession, SignRequest, new_session, load_once,
  request_identities, sign, extension,
}
use keyring_rs.Service.Session.Loading.{load_once-warm, load_once-IsIndexed, IsIndexed}

-- The requests that reach a session's handlers.
pub data Call (K : SshKey) (P : AgentProto) : Type 0 where
  lists : Call K P
  signs : SignRequest K.KeyData → Call K P
  extends : P.Extension → Call K P

module _ {T A B E F : Type 0} where
  read_only :
      (f : E → F) (r : Result E A × T) (k : A → T → Result F B × T)
      → ((a : A) (t : T) → (k a t).1 ≡ t)
      → (continue (change_error f r) k).1 ≡ r.1
  read_only f (ok a, t) k h = h a t
  read_only f (err e, t) k h = refl

module _ (K : SshKey) (S : Signing K) (P : AgentProto) {W E : Type 0}
    (iter : Index K → Index K) where
  abbrev keep_world : {A : Type 0} → W → A × ServiceSession K W E → ServiceSession K W E × W
  keep_world w (_, session) = (session, w)

  unfoldable pub perform : Call K P → ServiceSession K W E × W → ServiceSession K W E × W
  perform lists s = (request_identities K iter s).1
  perform (signs req) s = (sign K S req s).1
  perform (extends ext) (session, w) = keep_world w (extension K P ext session)

  unfoldable pub perform_all : List (Call K P) → ServiceSession K W E × W → ServiceSession K W E × W
  unfolding perform
  perform_all [] s = s
  perform_all (c ∷ cs) s = perform_all cs (perform c s)

  pub perform-lists : (s : ServiceSession K W E × W) → perform lists s ≡ (load_once K s).1
  unfolding perform request_identities
  perform-lists s = read_only load_failed (load_once K s) _ (λ a t. refl)

  pub perform-signs :
      (req : SignRequest K.KeyData) (s : ServiceSession K W E × W)
      → perform (signs req) s ≡ (load_once K s).1
  unfolding perform sign
  perform-signs req s = read_only load_failed (load_once K s) _ (λ a t. ground arith)

  pub perform-extends :
      (ext : P.Extension) (session : ServiceSession K W E) (w : W)
      → ((perform (extends ext) (session, w)).0.keys ≡ session.keys)
        × ((perform (extends ext) (session, w)).1 ≡ w)
  unfolding perform extension
  perform-extends ext session w = ground arith

  perform-warm :
      (c : Call K P) (session : ServiceSession K W E) (w : W) {m : Index K}
      → session.keys ≡ some m
      → ((perform c (session, w)).0.keys ≡ some m) × ((perform c (session, w)).1 ≡ w)
  perform-warm lists session w warm =
      rw (perform-lists, load_once-warm K session w warm) (warm, refl)
  perform-warm (signs req) session w warm =
      rw (perform-signs, load_once-warm K session w warm) (warm, refl)
  perform-warm (extends ext) session w warm =
      let (keys, world) = perform-extends ext session w in (keys ∙ warm, world)

  -- Once a session has cached an index, no sequence of requests changes it, and none of them
  -- reaches the providers: the world that the providers act on stays as it was.
  pub perform_all-warm :
      (cs : List (Call K P)) (session : ServiceSession K W E) (w : W) {m : Index K}
      → session.keys ≡ some m
      → ((perform_all cs (session, w)).0.keys ≡ some m) × ((perform_all cs (session, w)).1 ≡ w)
  unfolding perform_all
  perform_all-warm [] session w warm = (warm, refl)
  perform_all-warm (c ∷ cs) session w warm =
      let (keys, world) = perform-warm c session w warm in
      let (keys', world') = perform_all-warm cs (perform c (session, w)).0 _ keys in
      (keys', world' ∙ world)

  perform-IsIndexed :
      (c : Call K P) (s : ServiceSession K W E × W)
      → IsIndexed K s.0.keys
      → IsIndexed K (perform c s).0.keys
  perform-IsIndexed lists s h = rw (perform-lists s) (load_once-IsIndexed K s.0 s.1 h)
  perform-IsIndexed (signs req) s h = rw (perform-signs req s) (load_once-IsIndexed K s.0 s.1 h)
  perform-IsIndexed (extends ext) s h = rw ((perform-extends ext s.0 s.1).0) h

  perform_all-IsIndexed :
      (cs : List (Call K P)) (s : ServiceSession K W E × W)
      → IsIndexed K s.0.keys
      → IsIndexed K (perform_all cs s).0.keys
  unfolding perform_all
  perform_all-IsIndexed [] s h = h
  perform_all-IsIndexed (c ∷ cs) s h =
      perform_all-IsIndexed cs (perform c s) (perform-IsIndexed c s h)

  -- After any requests on a new session, what it has cached, if anything, has one entry for each
  -- public key, and each entry is filed under the public key of its private key.
  pub perform_all-new_session :
      (agent : ServiceAgent K W E) (cs : List (Call K P)) (w : W)
      → IsIndexed K (perform_all cs (new_session K agent, w)).0.keys
  perform_all-new_session agent cs w =
      perform_all-IsIndexed cs (new_session K agent, w) (unfold new_session in tt)
