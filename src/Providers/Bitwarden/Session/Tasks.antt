-- ===== src/Providers/Bitwarden/Session/Tasks.antt =====
-- Tasks side by side on one session: the steps of `token` and `sync` between their awaits, in any order.
-- The lock on `state` is held within one step only; the gate is held from the check under it to the end
-- of the login.
use keyring_rs.Base.{
  ℕ, ◌+◌, ◌≤◌, ◌≡◌, Bool, true, false, Option, none, some, List, [], ◌∷◌, ◌==◌, if◌then◌else◌,
}
use keyring_rs.Base.Text.{Text, text_eq}
use keyring_rs.Providers.Bitwarden.Net.{Auth, default_auth, from_secs, token_renewal_window}
use keyring_rs.Providers.Bitwarden.Session.{stale_at, invalidate, is_none}

-- What a task is at, with the number of the sync attempt to come or under way.
pub data Phase : Type 0 where
  idle queued failed ended : Phase
  requesting ready : ℕ → Phase
  sent rejected : ℕ → Text → Phase

-- For the laws only: a login with its token, expiry and time, and a token that was cleared.
pub data Event : Type 0 where
  logged_in : (token : Text) → (exp at : ℕ) → Event
  cleared : (token : Text) → Event

-- `gate` is the task that holds it; `history` has the newest event first.
pub record Tasks : Type 0 where
  pub state : Auth
  pub clock : ℕ
  pub gate : Option ℕ
  pub phase : ℕ → Phase
  pub history : List Event

abbrev pub set : ℕ → Phase → (ℕ → Phase) → ℕ → Phase
set i p phase j = if j == i then p else phase j

abbrev pub hold : ℕ → Bool → Option ℕ
hold i true = some i
hold i false = none

-- A dropped future releases the gate.
abbrev pub release : ℕ → Option ℕ → Option ℕ
release i none = none
release i (some j) = if j == i then none else some j

abbrev pub checked : Bool → Phase
checked true = queued
checked false = ready 0

abbrev pub entered : Bool → Phase
entered true = requesting 0
entered false = ready 0

abbrev pub sending : ℕ → Option Text → Phase
sending n none = failed
sending n (some token) = sent n token

-- After a 401: whether a login follows, and what the task is at, by whether it was the second attempt
-- and whether the session is without a token.
abbrev pub logs_in_again : (second missing : Bool) → Bool
logs_in_again true missing = false
logs_in_again false missing = missing

abbrev pub recovering : (second missing : Bool) → Phase
recovering true missing = failed
recovering false true = requesting 1
recovering false false = ready 1

abbrev pub note : Text → Option Text → List Event → List Event
note token none history = history
note token (some current) history =
    if text_eq current token then cleared token ∷ history else history

abbrev pub with_token : Text → ℕ → Auth
with_token token exp = record { token = some token; exp = some exp; crypto = true }

pub data Step (s : Tasks) : Tasks → Type 0 where
  passes : (d : ℕ) → Step s (record s { clock = s.clock + d })
  checks :
      (i : ℕ)
      → s.phase i ≡ idle
      → Step s (record s { phase = set i (checked (stale_at s.clock s.state)) s.phase })
  enters :
      (i : ℕ)
      → s.gate ≡ none
      → s.phase i ≡ queued
      → Step s (record s {
        phase = set i (entered (stale_at s.clock s.state)) s.phase;
        gate = hold i (stale_at s.clock s.state);
      })
  logs_in :
      (i n : ℕ) (token : Text) (now expires_in : ℕ)
      → s.phase i ≡ requesting n
      → now ≤ s.clock
      → Step s (record s {
        state = with_token token (now + from_secs expires_in);
        phase = set i (ready n) s.phase;
        gate = none;
        history = logged_in token (now + from_secs expires_in) s.clock ∷ s.history;
      })
  login_fails :
      (i n : ℕ)
      → s.phase i ≡ requesting n
      → Step s (record s { phase = set i failed s.phase; gate = none })
  sends :
      (i n : ℕ)
      → s.phase i ≡ ready n
      → Step s (record s { phase = set i (sending n s.state.token) s.phase })
  answered :
      (i n : ℕ) (token : Text)
      → s.phase i ≡ sent n token
      → Step s (record s { phase = set i ended s.phase })
  unauthorized :
      (i n : ℕ) (token : Text)
      → s.phase i ≡ sent n token
      → Step s (record s { phase = set i (rejected n token) s.phase })
  invalidates :
      (i n : ℕ) (token : Text)
      → s.gate ≡ none
      → s.phase i ≡ rejected n token
      → Step s (record s {
        state = invalidate token s.state;
        phase = set i (recovering (n == 1) (is_none (invalidate token s.state).token)) s.phase;
        gate = hold i (logs_in_again (n == 1) (is_none (invalidate token s.state).token));
        history = note token s.state.token s.history;
      })
  drops : (i : ℕ) → Step s (record s { phase = set i idle s.phase; gate = release i s.gate })

abbrev pub begin : ℕ → Tasks
begin now = record {
  state = default_auth;
  clock = now;
  gate = none;
  phase = λ i. idle;
  history = [];
}

pub data Reached : Tasks → Type 0 where
  started : (now : ℕ) → Reached (begin now)
  then_step : {s t : Tasks} → Reached s → Step s t → Reached t

-- A login is due where there is no token, or the token of the last one expires soon.
abbrev pub Due : ℕ → List Event → Type 0
Due at [] = Unit
Due at (cleared token ∷ rest) = Unit
Due at (logged_in token exp before ∷ rest) = exp ≤ at + token_renewal_window

-- The last event is the login with the token.
abbrev pub Current : Text → List Event → Type 0
Current token [] = ⊥
Current token (cleared other ∷ rest) = ⊥
Current token (logged_in other exp at ∷ rest) = other ≡ token

-- Each login was due, and each cleared token was the current one.
abbrev pub Justified : List Event → Type 0
Justified [] = Unit
Justified (logged_in token exp at ∷ rest) = Due at rest × Justified rest
Justified (cleared token ∷ rest) = Current token rest × Justified rest
