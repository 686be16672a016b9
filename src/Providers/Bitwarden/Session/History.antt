-- ===== src/Providers/Bitwarden/Session/History.antt =====
-- What the history of a session says of its authentication.
use keyring_rs.Base.{
  ℕ, ◌+◌, ◌≤◌, ◌≡◌, inl, inr, refl, subst, Bool, true, leb, Bool-cases, Option, none, some, List,
  [], ◌∷◌, arith,
}
use keyring_rs.Base.Text.{Text, text_eq, text_eq_iff}
use keyring_rs.Providers.Bitwarden.Net.{Auth, token_renewal_window}
use keyring_rs.Providers.Bitwarden.Session.{stale_at, invalidate, is_none}
use keyring_rs.Providers.Bitwarden.Session.Tasks.{Event, logged_in, cleared, note, Due, Justified}

-- The state is what the newest event has made of it.
abbrev pub Matches : Auth → List Event → Type 0
Matches state [] = (state.token ≡ none) × (state.exp ≡ none)
Matches state (cleared token ∷ rest) = (state.token ≡ none) × (state.exp ≡ none)
Matches state (logged_in token exp at ∷ rest) = (state.token ≡ some token) × (state.exp ≡ some exp)

stale_none : (now : ℕ) (state : Auth) → state.exp ≡ none → stale_at now state ≡ true
unfolding stale_at
stale_none now state e = rw (stale_at, e) refl

later_leb :
    (a now d : ℕ)
    → leb a (now + token_renewal_window) ≡ true
    → leb a (now + d + token_renewal_window) ≡ true
later_leb a now d h = ground (arith, h)

leb_le : (a b : ℕ) → leb a b ≡ true → a ≤ b
leb_le a b h = ground (arith, h)

-- Authentication of given parts.
abbrev pub auth : Option Text → Option ℕ → Bool → Auth
auth token exp crypto = record { token = token; exp = exp; crypto = crypto }

pub stale_later :
    (now d : ℕ) (token : Option Text) (exp : Option ℕ) (crypto : Bool)
    → stale_at now (auth token exp crypto) ≡ true
    → stale_at (now + d) (auth token exp crypto) ≡ true
unfolding stale_at
stale_later now d token none crypto h = refl
stale_later now d token (some exp) crypto h = later_leb exp now d h

-- A stale state is due for a login.
pub stale-Due :
    (now : ℕ) (token : Option Text) (exp : Option ℕ) (crypto : Bool) (history : List Event)
    → stale_at now (auth token exp crypto) ≡ true
    → Matches (auth token exp crypto) history
    → Due now history
unfolding stale_at
stale-Due now token exp crypto [] h m = tt
stale-Due now token exp crypto (cleared t ∷ rest) h m = tt
stale-Due now token none crypto (logged_in t exp at ∷ rest) h m = cc m.1
stale-Due now token (some e) crypto (logged_in t exp at ∷ rest) h m =
    subst (λ o. o ≤ now + token_renewal_window) (cc m.1) (leb_le e (now + token_renewal_window) h)

pub missing_stale :
    (now : ℕ) (state : Auth) (history : List Event)
    → Matches state history
    → is_none state.token ≡ true
    → stale_at now state ≡ true
missing_stale now state [] m e = stale_none now state m.1
missing_stale now state (cleared t ∷ rest) m e = stale_none now state m.1
missing_stale now state (logged_in t exp at ∷ rest) m e = cc (m.0, e)

-- A rejected token is cleared where it is the current one, and the history says so.
abbrev pub Noted : Text → Auth → List Event → Type 0
Noted token state history =
    Matches (invalidate token state) (note token state.token history)
    × Justified (note token state.token history)

pub invalidate-Noted :
    (old : Text) (token : Option Text) (exp : Option ℕ) (crypto : Bool) (history : List Event)
    → Matches (auth token exp crypto) history
    → Justified history
    → Noted old (auth token exp crypto) history
unfolding invalidate
invalidate-Noted old none exp crypto history m j = (m, j)
invalidate-Noted old (some c) exp crypto [] m j = cc m.0
invalidate-Noted old (some c) exp crypto (cleared t ∷ rest) m j = cc m.0
invalidate-Noted old (some c) exp crypto (logged_in t e at ∷ rest) m j =
    elim (Bool-cases (text_eq c old)) [
      | inl q ↦ rw q ((refl, refl), (cc (m.0, (text_eq_iff c old).0 q), j))
      | inr q ↦ rw q (m, j)
    ]
