-- ===== src/Cli/Serve/Generations.antt =====
-- Which agent serves a client, and when its task is told to stop.
use keyring_rs.Base.{
  ℕ, zero, suc, ◌≤◌, ◌<◌, ◌≡◌, refl, inl, inr, true, false, List, [], ◌∷◌, All, All-append, Option,
  none, some, arith, ◌==◌, ◌≢◌, is_empty, Bool-cases,
}
use keyring_rs.Base.Result.{Result, ok, err}
use keyring_rs.Cli.Serve.{
  Loaded, candidate, rejected, crashed, Job, Service, Ready, DrainEvent, JoinOutcome, SignalEvent,
  reload, shutdown, remove_at, apply_loaded, rebuild_pending, on_loaded, accept_arm, joined_arm,
  loaded_arm, signal_arm, turn, turns, start, finish,
}
use keyring_rs.Cli.Serve.Turns.{Holds, turns_inv}

module _ {A C : Type 0} where
  -- A task on the current channel serves the current agent; no task is on a channel to come.
  abbrev pub Fits : A → ℕ → Job A C → Type 0
  Fits agent stop j = (j.stop ≤ stop) × (j.stop ≡ stop → j.agent ≡ agent)

  pub record IsGeneration (s : Service A C) : Type 0 where
    pub current : s.stopped s.stop ≡ false
    pub old : (c : ℕ) → c < s.stop → s.stopped c ≡ true
    pub fits : All (Fits s.agent s.stop) s.jobs

  Fits-suc : (a b : A) (n : ℕ) (js : List (Job A C)) → All (Fits a n) js → All (Fits b (suc n)) js
  Fits-suc a b n [] h = tt
  Fits-suc a b n (j ∷ js) h =
      ((omega (arith, h.0.0), λ e. absurd (omega (arith, h.0.0))), Fits-suc a b n js h.1)

  pub All-remove_at :
      (P : Job A C → Type 0) (i : ℕ) (js : List (Job A C)) → All P js → All P (remove_at i js)
  All-remove_at P i [] h = tt
  All-remove_at P zero (j ∷ js) h = h.1
  All-remove_at P (suc i) (j ∷ js) h = (h.0, All-remove_at P i js h.1)

module _ {A C E : Type 0} where
  apply_loaded-IsGeneration :
      (l : Loaded A E) (s : Service A C) → IsGeneration s → IsGeneration (apply_loaded l s)
  unfolding apply_loaded
  apply_loaded-IsGeneration (candidate a) s h = record {
    current = ground arith;
    old = λ c lt. ground (arith, h.old c);
    fits = Fits-suc s.agent a s.stop s.jobs h.fits;
  }
  apply_loaded-IsGeneration (rejected e) s h = record {
    current = h.current;
    old = h.old;
    fits = h.fits;
  }
  apply_loaded-IsGeneration crashed s h = record { current = h.current; old = h.old; fits = h.fits }

  on_loaded-IsGeneration :
      (l : Loaded A E) (s : Service A C) → IsGeneration s → IsGeneration (on_loaded l s)
  unfolding on_loaded
  on_loaded-IsGeneration l s h = pending (apply_loaded l s) (apply_loaded-IsGeneration l s h)
    where
      pending : (t : Service A C) → IsGeneration t → IsGeneration (rebuild_pending t)
      pending t g = elim (Bool-cases t.reload_pending) [
        | inl yes' ↦
            rw (yes', rebuild_pending) (record { current = g.current; old = g.old; fits = g.fits })
        | inr no' ↦
            rw (no', rebuild_pending) (record { current = g.current; old = g.old; fits = g.fits })
      ]

  accept_arm-IsGeneration :
      (o : Option (Result E C)) (s : Service A C)
      → IsGeneration s
      → Holds IsGeneration (accept_arm o s)
  unfolding accept_arm
  accept_arm-IsGeneration none s h = h
  accept_arm-IsGeneration (some (ok c)) s h = record {
    current = h.current;
    old = h.old;
    fits =
        All-append (Fits s.agent s.stop) s.jobs
          (record { client = c; agent = s.agent; stop = s.stop } ∷ []) h.fits
          ((omega arith, λ e. refl), tt);
  }
  accept_arm-IsGeneration (some (err e)) s h = tt

  joined_arm-IsGeneration :
      (r : Ready A C E) (o : Option (ℕ × JoinOutcome)) (s : Service A C)
      → IsGeneration s
      → Holds IsGeneration (joined_arm r o s)
  unfolding joined_arm
  joined_arm-IsGeneration r none s h = accept_arm-IsGeneration r.accepted s h
  joined_arm-IsGeneration r (some (i, out)) s h = elim (Bool-cases (is_empty s.jobs)) [
    | inl none_left ↦ rw none_left (accept_arm-IsGeneration r.accepted s h)
    | inr busy ↦ rw busy (record {
      current = h.current;
      old = h.old;
      fits = All-remove_at (Fits s.agent s.stop) i s.jobs h.fits;
    })
  ]

  loaded_arm-IsGeneration :
      (r : Ready A C E) (o : Option (Loaded A E)) (s : Service A C)
      → IsGeneration s
      → Holds IsGeneration (loaded_arm r o s)
  unfolding loaded_arm
  loaded_arm-IsGeneration r none s h = joined_arm-IsGeneration r r.joined s h
  loaded_arm-IsGeneration r (some l) s h = elim (Bool-cases (s.reloads == 0)) [
    | inl idle ↦ rw idle (joined_arm-IsGeneration r r.joined s h)
    | inr busy ↦ rw busy (on_loaded-IsGeneration l s h)
  ]

  signal_arm-IsGeneration :
      (r : Ready A C E) (o : Option SignalEvent) (s : Service A C)
      → IsGeneration s
      → Holds IsGeneration (signal_arm r o s)
  unfolding signal_arm
  signal_arm-IsGeneration r none s h = loaded_arm-IsGeneration r r.loaded s h
  signal_arm-IsGeneration r (some shutdown) s h = h
  signal_arm-IsGeneration r (some reload) s h = elim (Bool-cases (s.reloads == 0)) [
    | inl idle ↦ rw idle (record { current = h.current; old = h.old; fits = h.fits })
    | inr busy ↦ rw busy (record { current = h.current; old = h.old; fits = h.fits })
  ]

  turn-IsGeneration :
      (r : Ready A C E) (s : Service A C) → IsGeneration s → Holds IsGeneration (turn r s)
  unfolding turn
  turn-IsGeneration r s h = signal_arm-IsGeneration r r.signal s h

  -- From the start of the service, whatever becomes ready: the channel of the current generation
  -- is not stopped, every earlier channel is, and each running task is on one of these channels, on
  -- the current one only if it serves the current agent.
  pub turns-IsGeneration :
      (rs : List (Ready A C E)) (agent : A) → Holds IsGeneration (turns rs (start agent))
  unfolding start
  turns-IsGeneration rs agent =
      turns_inv IsGeneration turn-IsGeneration rs (start agent)
        (record { current = refl; old = λ c h. elim h [ ]; fits = tt })

  -- A finished build swaps the agent and stops the old channel if it made a candidate. Otherwise
  -- the agent, its clients and its channel stay as they were.
  pub on_loaded_cases :
      (l : Loaded A E) (s : Service A C)
      → ((a : A)
          → l ≡ candidate a
          → ((on_loaded l s).agent ≡ a)
            × ((on_loaded l s).stop ≡ suc s.stop)
            × ((on_loaded l s).stopped s.stop ≡ true)
            × ((on_loaded l s).jobs ≡ s.jobs))
        × (((a : A) → l ≢ candidate a)
            → ((on_loaded l s).agent ≡ s.agent)
              × ((on_loaded l s).stop ≡ s.stop)
              × ((on_loaded l s).stopped ≡ s.stopped)
              × ((on_loaded l s).jobs ≡ s.jobs))
  unfolding on_loaded
  on_loaded_cases (candidate b) s = (λ a e. ground arith, λ h. absurd (h b refl))
  on_loaded_cases (rejected e) s = (λ a e. cc, λ h. ground arith)
  on_loaded_cases crashed s = (λ a e. cc, λ h. ground arith)

module _ {A C : Type 0} where
  -- At shutdown the tasks of all generations are on channels that are stopped.
  pub finish-stopped :
      (es : List DrainEvent) (s : Service A C)
      → IsGeneration s
      → (c : ℕ) → c ≤ s.stop
      → (finish es s).0.stopped c ≡ true
  unfolding finish
  finish-stopped es s h c le = ground (arith, h.old c)
