-- ===== src/Cli/Serve/Reloads.antt =====
-- Reload signals: one build at a time, and no signal is lost.
use keyring_rs.Base.{
  ℕ, ◌+◌, ◌-◌, ◌≤◌, ◌≡◌, ◌⊎◌, inl, inr, true, List, [], ◌∷◌, none, some, arith, ◌==◌, if◌then◌else◌,
}
use keyring_rs.Cli.Serve.{reload, shutdown, Ready, continue, Service, turn, turns, start}
use keyring_rs.Cli.Serve.Turns.{Holds, turns_inv, turns-continue}

module _ {A C : Type 0} where
  -- At most one build runs, and a signal waits only for a running build.
  pub record IsBuilding (s : Service A C) : Type 0 where
    pub single : s.reloads ≤ 1
    pub waits : s.reload_pending ≡ true → s.reloads ≡ 1

  -- A signal that waits for the running build.
  abbrev pub waiting : Service A C → ℕ
  waiting s = if s.reload_pending then 1 else 0

module _ {A C E : Type 0} where
  turn-IsBuilding : (r : Ready A C E) (s : Service A C) → IsBuilding s → Holds IsBuilding (turn r s)
  unfolding turn
  turn-IsBuilding r s h = ground arith

  -- From the start of the service, whatever becomes ready in whatever order, at most one build
  -- runs at a time, and a reload signal is kept waiting only while a build runs.
  pub turns-IsBuilding :
      (rs : List (Ready A C E)) (agent : A) → Holds IsBuilding (turns rs (start agent))
  unfolding start
  turns-IsBuilding rs agent =
      turns_inv IsBuilding turn-IsBuilding rs (start agent)
        (record { single = omega arith; waits = λ e. cc })

  -- Whether a turn takes the arm of a finished build.
  abbrev pub completes : Ready A C E → Service A C → ℕ
  completes r s = elim r.signal [
    | some e ↦ 0
    | none ↦ elim r.loaded [ none ↦ 0 | some l ↦ if s.reloads == 0 then 0 else 1 ]
  ]

  abbrev pub signals : Ready A C E → ℕ
  signals r = elim r.signal [ some e ↦ elim e [ reload ↦ 1 | shutdown ↦ 0 ] | none ↦ 0 ]

  -- The builds that a turn starts.
  abbrev started : Ready A C E → Service A C → Service A C → ℕ
  started r s t = t.reloads + completes r s - s.reloads

  turn_balance :
      (r : Ready A C E) (s t : Service A C)
      → IsBuilding s
      → turn r s ≡ continue t
      → started r s t + waiting t ≤ signals r + waiting s
  unfolding turn
  turn_balance r s t h e = ground arith

  -- Over a run of turns: the builds started, the builds completed, the reload signals received.
  abbrev pub builds : List (Ready A C E) → Service A C → ℕ
  builds [] s = 0
  builds (r ∷ rs) s = elim (turn r s) [ continue t ↦ started r s t + builds rs t | _ ↦ 0 ]

  abbrev pub completions : List (Ready A C E) → Service A C → ℕ
  completions [] s = 0
  completions (r ∷ rs) s = elim (turn r s) [ continue t ↦ completes r s + completions rs t | _ ↦ 0 ]

  abbrev pub all_signals : List (Ready A C E) → ℕ
  all_signals [] = 0
  all_signals (r ∷ rs) = signals r + all_signals rs

  -- A signal that waits keeps waiting until a build completes, and then starts a build.
  turn_waiting :
      (r : Ready A C E) (s t : Service A C)
      → IsBuilding s
      → s.reload_pending ≡ true
      → turn r s ≡ continue t
      → ((t.reload_pending ≡ true) × (completes r s ≡ 0)) ⊎ (1 ≤ started r s t)
  unfolding turn
  turn_waiting r s t h p e = ground arith

  turn_signal :
      (r : Ready A C E) (s t : Service A C)
      → IsBuilding s
      → r.signal ≡ some reload
      → turn r s ≡ continue t
      → (t.reload_pending ≡ true) ⊎ (1 ≤ started r s t)
  unfolding turn
  turn_signal r s t h p e = ground arith

  after_turn :
      (r : Ready A C E) (s t : Service A C) → IsBuilding s → turn r s ≡ continue t → IsBuilding t
  after_turn r s t h e = rw e at (turn-IsBuilding r s h)

  -- Signals are coalesced: a run of turns starts no more builds than it receives signals, counting
  -- the one that waits before it, and leaving the one that waits after it.
  pub builds_coalesce :
      (rs : List (Ready A C E)) (s t : Service A C)
      → IsBuilding s
      → turns rs s ≡ continue t
      → builds rs s + waiting t ≤ all_signals rs + waiting s
  unfolding turns
  builds_coalesce [] s t h e = ground arith
  builds_coalesce (r ∷ rs) s t h e =
      let (u, step, rest) = turns-continue r rs s e in
      rw (step, builds)
        (omega
          (arith, turn_balance r s u h step, builds_coalesce rs u t (after_turn r s u h step) rest))

  builds_waiting :
      (rs : List (Ready A C E)) (s t : Service A C)
      → IsBuilding s
      → s.reload_pending ≡ true
      → turns rs s ≡ continue t
      → ((t.reload_pending ≡ true) × (completions rs s ≡ 0)) ⊎ (1 ≤ builds rs s)
  unfolding turns
  builds_waiting [] s t h p e = ground arith
  builds_waiting (r ∷ rs) s t h p e =
      let (u, step, rest) = turns-continue r rs s e in
      rw (step, builds, completions)
        (elim (turn_waiting r s u h p step) [
          | inr now ↦ inr (omega arith)
          | inl (still, idle) ↦ elim (builds_waiting rs u t (after_turn r s u h step) still rest) [
            | inl (later, none_yet) ↦ inl (later, omega arith)
            | inr some_build ↦ inr (omega arith)
          ]
        ])

  -- No signal is lost: if a turn receives a reload signal, then in the turns from it on a build is
  -- started, unless the signal still waits and the running build has not completed since.
  pub reload_honoured :
      (r : Ready A C E) (rs : List (Ready A C E)) (s t : Service A C)
      → IsBuilding s
      → r.signal ≡ some reload
      → turns (r ∷ rs) s ≡ continue t
      → ((t.reload_pending ≡ true) × (completions (r ∷ rs) s ≡ 0)) ⊎ (1 ≤ builds (r ∷ rs) s)
  reload_honoured r rs s t h p e =
      let (u, step, rest) = turns-continue r rs s e in
      rw (step, builds, completions)
        (elim (turn_signal r s u h p step) [
          | inr now ↦ inr (omega arith)
          | inl still ↦ elim (builds_waiting rs u t (after_turn r s u h step) still rest) [
            | inl (later, none_yet) ↦ inl (later, ground arith)
            | inr some_build ↦ inr (omega arith)
          ]
        ])
