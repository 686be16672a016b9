-- ===== src/Providers/Bitwarden/Session/Gate.antt =====
-- What the gate of a session is good for: one login at a time, and none that is not due.
use keyring_rs.Base.{
  ℕ, ◌+◌, ◌≡◌, ◌≢◌, ◌⊎◌, inl, inr, refl, sym, ap, ◌∙◌, Bool, true, false, ◌==◌, ==_iff, Bool-cases,
  Option, none, some, List, ◌∷◌, arith,
}
use keyring_rs.Base.Text.{Text}
use keyring_rs.Providers.Bitwarden.Net.{Auth, from_secs}
use keyring_rs.Providers.Bitwarden.Session.{stale_at, invalidate, is_none}
use keyring_rs.Providers.Bitwarden.Session.Tasks.{
  Phase, idle, failed, ended, requesting, ready, rejected, Event, logged_in, Tasks, set, hold,
  release, checked, entered, sending, logs_in_again, recovering, note, with_token, Step, passes,
  checks, enters, logs_in, login_fails, sends, answered, unauthorized, invalidates, drops, Reached,
  started, then_step, Justified,
}
use keyring_rs.Providers.Bitwarden.Session.History.{
  Matches, stale_later, stale-Due, missing_stale, invalidate-Noted,
}

record IsGated (s : Tasks) : Type 0 where
  requesting-gate : (i n : ℕ) → s.phase i ≡ requesting n → s.gate ≡ some i
  gate_stale : (i : ℕ) → s.gate ≡ some i → stale_at s.clock s.state ≡ true
  state-Matches : Matches s.state s.history
  history-Justified : Justified s.history

set_cases :
    (i j : ℕ) (p : Phase) (phase : ℕ → Phase)
    → ((j ≡ i) × (set i p phase j ≡ p)) ⊎ ((j ≢ i) × (set i p phase j ≡ phase j))
set_cases i j p phase = elim (Bool-cases (j == i)) [
  | inl e ↦ inl ((==_iff j i).0 e, rw e refl)
  | inr e ↦ inr (ground arith, rw e refl)
]

released : (i j : ℕ) (gate : Option ℕ) → release i gate ≡ some j → (gate ≡ some j) × (j ≢ i)
released i j none h = cc h
released i j (some k) h = elim (Bool-cases (k == i)) [ inl e ↦ ground arith | inr e ↦ ground arith ]

unreleased : (i j : ℕ) (gate : Option ℕ) → gate ≡ some j → j ≢ i → release i gate ≡ some j
unreleased i j none h n = cc h
unreleased i j (some k) h n = elim (Bool-cases (k == i)) [
  | inl e ↦ ground arith
  | inr e ↦ ground arith
]

-- A task that moves on without the gate, to a phase that is no login.
moves-IsGated :
    (s : Tasks) (i : ℕ) (p : Phase)
    → IsGated s
    → ((n : ℕ) → p ≢ requesting n)
    → IsGated (record s { phase = set i p s.phase })
moves-IsGated s i p h other = record {
  requesting-gate = λ j n w. elim (set_cases i j p s.phase) [
    | inl (e, q) ↦ absurd (other n (sym q ∙ w))
    | inr (ne, q) ↦ h.requesting-gate j n (sym q ∙ w)
  ];
  gate_stale = h.gate_stale;
  state-Matches = h.state-Matches;
  history-Justified = h.history-Justified;
}

-- A task that finds the gate free takes it for a login, or leaves it.
takes-IsGated :
    (s : Tasks) (i : ℕ) (p : Phase) (login : Bool) (state : Auth) (history : List Event)
    → IsGated s
    → s.gate ≡ none
    → ((n : ℕ) → p ≡ requesting n → login ≡ true)
    → (login ≡ true → stale_at s.clock state ≡ true)
    → Matches state history
    → Justified history
    → IsGated (record s {
      state = state;
      phase = set i p s.phase;
      gate = hold i login;
      history = history;
    })
takes-IsGated s i p login state history h free asks stale m j = record {
  requesting-gate = λ k n w. elim (set_cases i k p s.phase) [
    | inl (e, q) ↦ rw (asks n (sym q ∙ w)) (ap some (sym e))
    | inr (ne, q) ↦ cc (h.requesting-gate k n (sym q ∙ w), free)
  ];
  gate_stale = λ k g. holder login g stale;
  state-Matches = m;
  history-Justified = j;
}
  where
    holder :
        {k : ℕ} (b : Bool)
        → hold i b ≡ some k
        → (b ≡ true → stale_at s.clock state ≡ true)
        → stale_at s.clock state ≡ true
    holder true g f = f refl
    holder false g f = cc g

-- The holder ends its login, and nobody else is at one.
ends-IsGated :
    (s : Tasks) (i n : ℕ) (p : Phase) (state : Auth) (history : List Event)
    → IsGated s
    → s.phase i ≡ requesting n
    → ((n : ℕ) → p ≢ requesting n)
    → Matches state history
    → Justified history
    → IsGated (record s { state = state; phase = set i p s.phase; gate = none; history = history })
ends-IsGated s i n p state history h at other m j = record {
  requesting-gate = λ k l w. elim (set_cases i k p s.phase) [
    | inl (e, q) ↦ absurd (other l (sym q ∙ w))
    | inr (ne, q) ↦
        absurd (ne (ground (arith, h.requesting-gate i n at, h.requesting-gate k l (sym q ∙ w))))
  ];
  gate_stale = λ k g. cc g;
  state-Matches = m;
  history-Justified = j;
}

entered-requesting : (b : Bool) (n : ℕ) → entered b ≡ requesting n → b ≡ true
entered-requesting true n e = refl
entered-requesting false n e = cc e

recovering-requesting :
    (second missing : Bool) (m : ℕ)
    → recovering second missing ≡ requesting m
    → logs_in_again second missing ≡ true
recovering-requesting true missing m e = cc e
recovering-requesting false true m e = refl
recovering-requesting false false m e = cc e

logs_in_again-missing :
    (second missing : Bool) → logs_in_again second missing ≡ true → missing ≡ true
logs_in_again-missing true missing e = cc e
logs_in_again-missing false missing e = e

checked-other : (b : Bool) (n : ℕ) → checked b ≢ requesting n
checked-other true n e = cc e
checked-other false n e = cc e

sending-other : (m : ℕ) (o : Option Text) (n : ℕ) → sending m o ≢ requesting n
sending-other m none n e = cc e
sending-other m (some t) n e = cc e

Step-IsGated : (s t : Tasks) → Step s t → IsGated s → IsGated t
Step-IsGated s _ (passes d) h = record {
  requesting-gate = h.requesting-gate;
  gate_stale =
      λ i g. stale_later s.clock d s.state.token s.state.exp s.state.crypto (h.gate_stale i g);
  state-Matches = h.state-Matches;
  history-Justified = h.history-Justified;
}
Step-IsGated s _ (checks i at) h =
    moves-IsGated s i (checked (stale_at s.clock s.state)) h
      (checked-other (stale_at s.clock s.state))
Step-IsGated s _ (enters i free at) h =
    takes-IsGated s i (entered (stale_at s.clock s.state)) (stale_at s.clock s.state) s.state
      s.history h free (entered-requesting (stale_at s.clock s.state)) (λ e. e) h.state-Matches
      h.history-Justified
Step-IsGated s _ (logs_in i n t now expires_in at past) h =
    ends-IsGated s i n (ready n) (with_token t (now + from_secs expires_in))
      (logged_in t (now + from_secs expires_in) s.clock ∷ s.history) h at (λ m e. cc e) (refl, refl)
      (
        stale-Due s.clock s.state.token s.state.exp s.state.crypto s.history
            (h.gate_stale i (h.requesting-gate i n at)) h.state-Matches,
        h.history-Justified,
      )
Step-IsGated s _ (login_fails i n at) h =
    ends-IsGated s i n failed s.state s.history h at (λ m e. cc e) h.state-Matches
      h.history-Justified
Step-IsGated s _ (sends i n at) h =
    moves-IsGated s i (sending n s.state.token) h (sending-other n s.state.token)
Step-IsGated s _ (answered i n t at) h = moves-IsGated s i ended h (λ m e. cc e)
Step-IsGated s _ (unauthorized i n t at) h = moves-IsGated s i (rejected n t) h (λ m e. cc e)
Step-IsGated s _ (invalidates i n t free at) h =
    let noted =
      invalidate-Noted t s.state.token s.state.exp s.state.crypto s.history h.state-Matches
        h.history-Justified in
    let missing = is_none (invalidate t s.state).token in
    takes-IsGated s i (recovering (n == 1) missing) (logs_in_again (n == 1) missing)
      (invalidate t s.state) (note t s.state.token s.history) h free
      (recovering-requesting (n == 1) missing)
      (λ e.
        missing_stale s.clock (invalidate t s.state) (note t s.state.token s.history) noted.0
          (logs_in_again-missing (n == 1) missing e))
      noted.0 noted.1
Step-IsGated s _ (drops i) h = record {
  requesting-gate = λ j n w. elim (set_cases i j idle s.phase) [
    | inl (e, q) ↦ cc (w, q)
    | inr (ne, q) ↦ unreleased i j s.gate (h.requesting-gate j n (sym q ∙ w)) ne
  ];
  gate_stale = λ j g. h.gate_stale j (released i j s.gate g).0;
  state-Matches = h.state-Matches;
  history-Justified = h.history-Justified;
}

Reached-IsGated : {s : Tasks} → Reached s → IsGated s
Reached-IsGated (started now) = record {
  requesting-gate = λ i n w. cc w;
  gate_stale = λ i g. cc g;
  state-Matches = (refl, refl);
  history-Justified = tt;
}
Reached-IsGated (then_step {s} {t} r step) = Step-IsGated s t step (Reached-IsGated r)

-- However the tasks of a session interleave and whenever some are dropped: at most one of them is at
-- a login, only while the authentication is missing or expires soon; each login that is published
-- comes when the token before it has been cleared or expires within the renewal window; and a 401
-- clears only the very token that was rejected, never one that replaced it.
pub Reached-single_login :
    {s : Tasks}
    → Reached s
    → ((i j n m : ℕ) → s.phase i ≡ requesting n → s.phase j ≡ requesting m → i ≡ j)
      × ((i n : ℕ) → s.phase i ≡ requesting n → stale_at s.clock s.state ≡ true)
      × Justified s.history
Reached-single_login {s} r =
    let h = Reached-IsGated r in
    (
      λ i j n m v w. ground (arith, h.requesting-gate i n v, h.requesting-gate j m w),
      λ i n v. h.gate_stale i (h.requesting-gate i n v),
      h.history-Justified,
    )
