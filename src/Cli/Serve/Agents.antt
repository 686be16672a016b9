-- ===== src/Cli/Serve/Agents.antt =====
-- The agents that serve clients are the first one and the candidates of builds.
use keyring_rs.Base.{
  ℕ, inl, inr, List, [], ◌∷◌, All, All-append, Option, none, some, ◌==◌, is_empty, Bool-cases,
}
use keyring_rs.Base.Result.{Result, ok, err}
use keyring_rs.Cli.Serve.{
  Loaded, candidate, rejected, crashed, Job, Service, Ready, JoinOutcome, SignalEvent, reload,
  shutdown, apply_loaded, rebuild_pending, on_loaded, accept_arm, joined_arm, loaded_arm,
  signal_arm, turn, turns, start,
}
use keyring_rs.Cli.Serve.Turns.{Holds, turns-cons, Holds-next}
use keyring_rs.Cli.Serve.Generations.{All-remove_at}

module _ {A C : Type 0} (Good : A → Type 0) where
  -- The current agent and those of all running tasks are good.
  pub record IsProvisioned (s : Service A C) : Type 0 where
    pub current : Good s.agent
    pub serving : All (λ (j : Job A C). Good j.agent) s.jobs

  rebuild_pending-IsProvisioned :
      (s : Service A C) → IsProvisioned s → IsProvisioned (rebuild_pending s)
  unfolding rebuild_pending
  rebuild_pending-IsProvisioned s h = elim (Bool-cases s.reload_pending) [
    | inl e ↦ rw (rebuild_pending, e) (record { current = h.current; serving = h.serving })
    | inr e ↦ rw (rebuild_pending, e) (record { current = h.current; serving = h.serving })
  ]

abbrev pub OfLoaded : {A E : Type 0} → (A → Type 0) → Option (Loaded A E) → Type 0
OfLoaded Good none = Unit
OfLoaded Good (some (candidate a)) = Good a
OfLoaded Good (some (rejected e)) = Unit
OfLoaded Good (some crashed) = Unit

module _ {A C E : Type 0} (Good : A → Type 0) where
  -- The candidate of a build that is ready, if there is one, is good.
  abbrev pub Offers : Ready A C E → Type 0
  Offers r = OfLoaded Good r.loaded

  apply_loaded-IsProvisioned :
      (l : Loaded A E) (s : Service A C)
      → OfLoaded Good (some l)
      → IsProvisioned Good s
      → IsProvisioned Good (apply_loaded l s)
  unfolding apply_loaded
  apply_loaded-IsProvisioned (candidate a) s g h = record { current = g; serving = h.serving }
  apply_loaded-IsProvisioned (rejected e) s g h = record {
    current = h.current;
    serving = h.serving;
  }
  apply_loaded-IsProvisioned crashed s g h = record { current = h.current; serving = h.serving }

  accept_arm-IsProvisioned :
      (o : Option (Result E C)) (s : Service A C)
      → IsProvisioned Good s
      → Holds (IsProvisioned Good) (accept_arm o s)
  unfolding accept_arm
  accept_arm-IsProvisioned none s h = h
  accept_arm-IsProvisioned (some (ok c)) s h = record {
    current = h.current;
    serving =
        All-append (λ (j : Job A C). Good j.agent) s.jobs
          (record { client = c; agent = s.agent; stop = s.stop } ∷ []) h.serving (h.current, tt);
  }
  accept_arm-IsProvisioned (some (err e)) s h = tt

  joined_arm-IsProvisioned :
      (r : Ready A C E) (o : Option (ℕ × JoinOutcome)) (s : Service A C)
      → IsProvisioned Good s
      → Holds (IsProvisioned Good) (joined_arm r o s)
  unfolding joined_arm
  joined_arm-IsProvisioned r none s h = accept_arm-IsProvisioned r.accepted s h
  joined_arm-IsProvisioned r (some (i, out)) s h = elim (Bool-cases (is_empty s.jobs)) [
    | inl e ↦ rw e (accept_arm-IsProvisioned r.accepted s h)
    | inr e ↦ rw e (record {
      current = h.current;
      serving = All-remove_at (λ (j : Job A C). Good j.agent) i s.jobs h.serving;
    })
  ]

  loaded_arm-IsProvisioned :
      (r : Ready A C E) (o : Option (Loaded A E)) (s : Service A C)
      → OfLoaded Good o
      → IsProvisioned Good s
      → Holds (IsProvisioned Good) (loaded_arm r o s)
  unfolding loaded_arm on_loaded
  loaded_arm-IsProvisioned r none s g h = joined_arm-IsProvisioned r r.joined s h
  loaded_arm-IsProvisioned r (some l) s g h = elim (Bool-cases (s.reloads == 0)) [
    | inl e ↦ rw e (joined_arm-IsProvisioned r r.joined s h)
    | inr e ↦
        rw e (
          rebuild_pending-IsProvisioned Good (apply_loaded l s)
            (apply_loaded-IsProvisioned l s g h))
  ]

  turn-IsProvisioned :
      (r : Ready A C E) (s : Service A C)
      → Offers r
      → IsProvisioned Good s
      → Holds (IsProvisioned Good) (turn r s)
  unfolding turn
  turn-IsProvisioned r s g h = signals r.signal
    where
      signals : (o : Option SignalEvent) → Holds (IsProvisioned Good) (signal_arm r o s)
      signals none = loaded_arm-IsProvisioned r r.loaded s g h
      signals (some shutdown) = h
      signals (some reload) = elim (Bool-cases (s.reloads == 0)) [
        | inl e ↦ rw e (record { current = h.current; serving = h.serving })
        | inr e ↦ rw e (record { current = h.current; serving = h.serving })
      ]

  all_turns-IsProvisioned :
      (rs : List (Ready A C E)) (s : Service A C)
      → All Offers rs
      → IsProvisioned Good s
      → Holds (IsProvisioned Good) (turns rs s)
  unfolding turns
  all_turns-IsProvisioned [] s g h = h
  all_turns-IsProvisioned (r ∷ rs) s g h = rw (turns-cons r rs s) (
      Holds-next (IsProvisioned Good) (turns rs) (turn r s)
        (λ s' h'. all_turns-IsProvisioned rs s' g.1 h') (turn-IsProvisioned r s g.0 h))

  -- Whatever becomes ready: if the first agent and each candidate of a build have a property, then so
  -- has the agent that serves new clients, and the agent of each running task.
  pub turns-IsProvisioned :
      (rs : List (Ready A C E)) (agent : A)
      → Good agent
      → All Offers rs
      → Holds (IsProvisioned Good) (turns rs (start agent))
  unfolding start
  turns-IsProvisioned rs agent h g =
      all_turns-IsProvisioned rs (start agent) g (record { current = h; serving = tt })
