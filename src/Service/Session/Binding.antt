-- ===== src/Service/Session/Binding.antt =====
-- `extension`: which session-bind messages a connection accepts, one after another.
use keyring_rs.Base.{
  ◌≡◌, refl, ◌≢◌, ◌⊎◌, inl, inr, true, false, List, [], ◌∷◌, ◌++◌, All-append, Option, none, some,
  arith, Bool-cases,
}
use keyring_rs.Base.Text.{text_eq, text_eq_iff}
use keyring_rs.Base.Result.{ok, err}
use keyring_rs.Base.Sort.{Distinct}
use keyring_rs.Core.Provider.{SshKey}
use keyring_rs.Service.Sig.{Bytes}
use keyring_rs.Service.Session.{
  AgentProto, extension_failure, Bind, ServiceAgent, ServiceSession, new_session, query, bind,
  is_dup, is_locked, verified_bind, accept_bind, extension,
}

abbrev pub bind_id : Bind → Bytes
bind_id b = b.id

-- Only the last record may be a bind for authentication, which does not forward.
abbrev pub OnlyLast : List Bind → Type 0
OnlyLast [] = Unit
OnlyLast (b ∷ []) = Unit
OnlyLast (b ∷ c ∷ bs) = (b.fwd ≡ true) × OnlyLast (c ∷ bs)

pub record IsBound (bs : List Bind) : Type 0 where
  pub distinct : Distinct bind_id bs
  pub only_last : OnlyLast bs

-- An accepted message: verified, new, and after forwarding binds only.
pub record Accepts (P : AgentProto) (ext : P.Extension) (bs : List Bind) (b : P.SessionBind)
    : Type 0 where
  pub named : P.name ext ≡ bind
  pub parsed : P.parse_message ext ≡ some (some b)
  pub verified : P.verify_signature b ≡ true
  pub fresh : is_dup (P.session_id b) bs ≡ false
  pub unlocked : is_locked bs ≡ false

-- A message passes the parser and the signature check, or is refused.
pub verified_cases :
    (P : AgentProto) {E : Type 0} (ext : P.Extension)
    → (verified_bind P {E = E} ext ≡ err extension_failure)
      ⊎ ((b : P.SessionBind) × (P.parse_message ext ≡ some (some b))
          × (P.verify_signature b ≡ true)
          × (verified_bind P {E = E} ext ≡ ok b))
unfolding verified_bind
verified_cases P {E} ext = go (P.parse_message ext) refl
  where
    go :
        (o : Option (Option P.SessionBind))
        → P.parse_message ext ≡ o
        → (verified_bind P {E = E} ext ≡ err extension_failure)
          ⊎ ((b : P.SessionBind) × (P.parse_message ext ≡ some (some b))
              × (P.verify_signature b ≡ true)
              × (verified_bind P {E = E} ext ≡ ok b))
    go none e = inl (rw (e, verified_bind))
    go (some none) e = inl (rw (e, verified_bind))
    go (some (some b)) e = elim (Bool-cases (P.verify_signature b)) [
      | inl good ↦ inr (b, e, good, rw (e, verified_bind, good))
      | inr bad ↦ inl (rw (e, verified_bind, bad))
    ]

Distinct-append :
    (b : Bind) (bs : List Bind)
    → is_dup b.id bs ≡ false
    → Distinct bind_id bs
    → Distinct bind_id (bs ++ b ∷ [])
Distinct-append b [] h t = (tt, tt)
Distinct-append b (c ∷ bs) h t = (
  All-append (λ x. bind_id c ≢ bind_id x) bs (b ∷ []) t.0 (differ, tt),
  Distinct-append b bs (ground arith) t.1,
)
  where
    differ : c.id ≢ b.id
    differ e = ground (arith, (text_eq_iff c.id b.id).1 e)

OnlyLast-append : (b : Bind) (bs : List Bind) → is_locked bs ≡ false → OnlyLast (bs ++ b ∷ [])
OnlyLast-append b [] h = tt
OnlyLast-append b (c ∷ []) h = (ground arith, tt)
OnlyLast-append b (c ∷ d ∷ bs) h = (ground arith, OnlyLast-append b (d ∷ bs) (ground arith))

module _ (K : SshKey) (P : AgentProto) {W E : Type 0} where
  abbrev pub appended : P.SessionBind → ServiceSession K W E → ServiceSession K W E
  appended b session = record session {
    binds = session.binds ++ record { id = P.session_id b; fwd = P.is_forwarding b } ∷ [];
  }

  accept_cases :
      (b : P.SessionBind) (session : ServiceSession K W E)
      → ((accept_bind K P b session).1 ≡ session)
        ⊎ ((is_dup (P.session_id b) session.binds ≡ false)
            × (is_locked session.binds ≡ false)
            × (accept_bind K P b session ≡ (ok none, appended b session)))
  unfolding accept_bind
  accept_cases b session = elim (Bool-cases (is_dup (P.session_id b) session.binds)) [
    | inl dup ↦ inl (rw dup)
    | inr fresh ↦ elim (Bool-cases (is_locked session.binds)) [
      | inl locked ↦ inl (rw (fresh, locked))
      | inr free ↦ inr (fresh, free, rw (fresh, free))
    ]
  ]

  -- A request leaves the session as it was, or is a verified session-bind message with a new
  -- session id after forwarding binds only, which is recorded at the end.
  pub extension_cases :
      (ext : P.Extension) (session : ServiceSession K W E)
      → ((extension K P ext session).1 ≡ session)
        ⊎ ((b : P.SessionBind) × Accepts P ext session.binds b
            × (extension K P ext session ≡ (ok none, appended b session)))
  unfolding extension
  extension_cases ext session = elim (Bool-cases (text_eq (P.name ext) query)) [
    | inl asked ↦ inl (rw asked)
    | inr other ↦ elim (Bool-cases (text_eq (P.name ext) bind)) [
      | inr unknown ↦ inl (rw (other, unknown))
      | inl named ↦ elim (verified_cases P {E = E} ext) [
        | inl refused ↦ inl (rw (other, named, refused))
        | inr (b, parsed, verified, e) ↦ elim (accept_cases b session) [
          | inl refused ↦ inl (rw (other, named, e) refused)
          | inr (fresh, unlocked, done) ↦ inr (
            b,
            record {
              named = (text_eq_iff _ _).0 named;
              parsed = parsed;
              verified = verified;
              fresh = fresh;
              unlocked = unlocked;
            },
            rw (other, named, e) done,
          )
        ]
      ]
    ]
  ]

  extension-IsBound :
      (ext : P.Extension) (session : ServiceSession K W E)
      → IsBound session.binds
      → IsBound (extension K P ext session).1.binds
  extension-IsBound ext session h = elim (extension_cases ext session) [
    | inl same ↦ rw same h
    | inr (b, a, done) ↦ rw done (record {
      distinct = Distinct-append _ session.binds a.fresh h.distinct;
      only_last = OnlyLast-append _ session.binds a.unlocked;
    })
  ]

  unfoldable pub extensions : List P.Extension → ServiceSession K W E → ServiceSession K W E
  extensions [] session = session
  extensions (ext ∷ exts) session = extensions exts (extension K P ext session).1

  keeps_IsBound :
      (exts : List P.Extension) (session : ServiceSession K W E)
      → IsBound session.binds
      → IsBound (extensions exts session).binds
  unfolding extensions
  keeps_IsBound [] session h = h
  keeps_IsBound (ext ∷ exts) session h =
      keeps_IsBound exts (extension K P ext session).1 (extension-IsBound ext session h)

  -- After any extension messages on a new session, no session id is bound twice, and every bind
  -- but the last is a forwarding one.
  pub extensions-IsBound :
      (agent : ServiceAgent K W E) (exts : List P.Extension)
      → IsBound (extensions exts (new_session K agent)).binds
  unfolding new_session
  extensions-IsBound agent exts =
      keeps_IsBound exts (new_session K agent) (record { distinct = tt; only_last = tt })

  -- Once a bind for authentication is recorded, no later message changes the session.
  pub extensions-locked :
      (exts : List P.Extension) (session : ServiceSession K W E)
      → is_locked session.binds ≡ true
      → extensions exts session ≡ session
  unfolding extensions
  extensions-locked [] session h = refl
  extensions-locked (ext ∷ exts) session h = elim (extension_cases ext session) [
    | inl same ↦ rw same (extensions-locked exts session h)
    | inr (b, a, done) ↦ absurd (cc (a.unlocked, h))
  ]
