-- ===== src/Cli/Serve.antt =====
-- `serve` of crates/keyring-cli/src/main.rs: accepting, reloading and draining. A turn of the loop
-- is one `select!` over what is ready; tasks, the builds of candidates and the sockets are known by
-- what they report. Watch channels are numbered in the order in which they are made.
pub mod Turns
pub mod Reloads
pub mod Generations
pub mod Agents
pub mod Clients
pub mod Draining
pub mod Shutdown
use keyring_rs.Base.{
  ℕ, zero, suc, ◌+◌, ◌-◌, Bool, true, false, List, [], ◌∷◌, ◌++◌, Option, none, some, leb, ◌==◌,
  is_empty, if◌then◌else◌,
}
use keyring_rs.Base.Result.{Result, ok, err}
use keyring_rs.Cli.Signal.{SignalEvent, reload, shutdown}

-- What `join_next` of the reload set reports: the result of `load`, or a panic of the build.
pub data Loaded (A E : Type 0) : Type 0 where
  candidate : A → Loaded A E
  rejected : E → Loaded A E
  crashed : Loaded A E

-- How a client task ended: its own result is logged inside the task.
pub data JoinOutcome : Type 0 where
  finished panicked cancelled : JoinOutcome

-- A spawned `handle` task: its client, the agent of its session, and the channel that stops it.
pub record Job (A C : Type 0) : Type 0 where
  pub client : C
  pub agent : A
  pub stop : ℕ

pub record Service (A C : Type 0) : Type 0 where
  pub agent : A
  pub jobs : List (Job A C)
  pub reloads : ℕ  -- running builds
  pub reload_pending : Bool
  pub stop : ℕ  -- the channel of the current generation
  pub stopped : ℕ → Bool  -- the value of each channel

-- What is ready when a turn of the loop selects. A task joins by its position in the set.
pub record Ready (A C E : Type 0) : Type 0 where
  pub signal : Option SignalEvent
  pub loaded : Option (Loaded A E)
  pub joined : Option (ℕ × JoinOutcome)
  pub accepted : Option (Result E C)

pub data Turn (A C E : Type 0) : Type 0 where
  continue : Service A C → Turn A C E
  break : Service A C → Turn A C E
  failed : E → Turn A C E

abbrev pub remove_at {ℓ} : {A : Type ℓ} → ℕ → List A → List A
remove_at i [] = []
remove_at zero (x ∷ xs) = xs
remove_at (suc i) (x ∷ xs) = x ∷ remove_at i xs

module _ {A C : Type 0} where
  -- `watch::Sender::send_replace(true)` on the current channel
  unfoldable pub send_stop : Service A C → Service A C
  send_stop s = record s { stopped = λ c. if c == s.stop then true else s.stopped c }

  -- `stop = watch::channel(false).0`
  unfoldable pub new_stop : Service A C → Service A C
  new_stop s = record s {
    stop = suc s.stop;
    stopped = λ c. if c == suc s.stop then false else s.stopped c;
  }

  -- `reloads.spawn_blocking(move || load(&path))`
  unfoldable pub spawn_build : Service A C → Service A C
  spawn_build s = record s { reloads = s.reloads + 1 }

  -- The arm of a reload signal.
  unfoldable pub on_reload : Service A C → Service A C
  unfolding spawn_build
  on_reload s = if s.reloads == 0 then spawn_build s else record s { reload_pending = true }

  -- `if reload_pending { .. }`
  unfoldable pub rebuild_pending : Service A C → Service A C
  unfolding spawn_build
  rebuild_pending s =
      if s.reload_pending then spawn_build (record s { reload_pending = false }) else s

  -- The arm of a finished client task; `report` only logs.
  unfoldable pub on_joined : ℕ × JoinOutcome → Service A C → Service A C
  on_joined (i, outcome) s = record s { jobs = remove_at i s.jobs }

  -- The state at the head of `serve`.
  unfoldable pub start : A → Service A C
  start agent = record {
    agent = agent;
    jobs = [];
    reloads = 0;
    reload_pending = false;
    stop = 0;
    stopped = λ c. false;
  }

module _ {A C E : Type 0} where
  -- The match on a finished build. The build leaves the set.
  unfoldable pub apply_loaded : Loaded A E → Service A C → Service A C
  unfolding send_stop new_stop
  apply_loaded (candidate a) s =
      new_stop (send_stop (record s { agent = a; reloads = s.reloads - 1 }))
  apply_loaded (rejected e) s = record s { reloads = s.reloads - 1 }
  apply_loaded crashed s = record s { reloads = s.reloads - 1 }

  -- The arm of a finished build.
  unfoldable pub on_loaded : Loaded A E → Service A C → Service A C
  unfolding apply_loaded rebuild_pending
  on_loaded l s = rebuild_pending (apply_loaded l s)

  -- The arm of a new client: its session comes from the agent, and its task subscribes to the
  -- channel, that are current.
  unfoldable pub on_accepted : Result E C → Service A C → Turn A C E
  on_accepted (ok c) s =
      continue
        (record s { jobs = s.jobs ++ record { client = c; agent = s.agent; stop = s.stop } ∷ [] })
  on_accepted (err e) s = failed e

  unfoldable pub on_signal : SignalEvent → Service A C → Turn A C E
  unfolding on_reload
  on_signal reload s = continue (on_reload s)
  on_signal shutdown s = break s

  -- The arms in the order of the `biased` select; the two guarded arms wait on sets with tasks.
  unfoldable pub accept_arm : Option (Result E C) → Service A C → Turn A C E
  unfolding on_accepted
  accept_arm none s = continue s
  accept_arm (some r) s = on_accepted r s

  unfoldable pub joined_arm : Ready A C E → Option (ℕ × JoinOutcome) → Service A C → Turn A C E
  unfolding accept_arm on_joined
  joined_arm r none s = accept_arm r.accepted s
  joined_arm r (some j) s =
      if is_empty s.jobs then accept_arm r.accepted s else continue (on_joined j s)

  unfoldable pub loaded_arm : Ready A C E → Option (Loaded A E) → Service A C → Turn A C E
  unfolding joined_arm on_loaded
  loaded_arm r none s = joined_arm r r.joined s
  loaded_arm r (some l) s =
      if s.reloads == 0 then joined_arm r r.joined s else continue (on_loaded l s)

  unfoldable pub signal_arm : Ready A C E → Option SignalEvent → Service A C → Turn A C E
  unfolding loaded_arm on_signal
  signal_arm r none s = loaded_arm r r.loaded s
  signal_arm r (some e) s = on_signal e s

  -- One turn of the loop.
  unfoldable pub turn : Ready A C E → Service A C → Turn A C E
  unfolding signal_arm
  turn r s = signal_arm r r.signal s

  -- The loop over what becomes ready, turn by turn; `continue` if it still runs at the end.
  unfoldable pub turns : List (Ready A C E) → Service A C → Turn A C E
  unfolding turn
  turns [] s = continue s
  turns (r ∷ rs) s = elim (turn r s) [
    | continue t ↦ turns rs t
    | break t ↦ break t
    | failed e ↦ failed e
  ]

-- What the shutdown drain waits for: a task that ends, or the end of `SHUTDOWN_TIMEOUT`.
pub data DrainEvent : Type 0 where
  ended : ℕ → JoinOutcome → DrainEvent
  elapsed : DrainEvent

-- The drain: the tasks that it cancels, or `none` while it waits. When the time is over, the loop
-- after `abort_all` joins each cancelled task.
module _ {J : Type 0} where
  unfoldable pub drain : List DrainEvent → List J → Option (List J)
  drain es [] = some []
  drain [] (j ∷ js) = none
  drain (elapsed ∷ es) (j ∷ js) = some (j ∷ js)
  drain (ended i o ∷ es) (j ∷ js) = drain es (remove_at i (j ∷ js))

-- After a `break`: the current generation is stopped, and the tasks of all generations are drained.
-- `abort_all` drops the builds that have not begun; one that runs reads on, and nobody takes its
-- result, so the builds stay as they are here. The result is the tasks that were cancelled, or
-- `none` while the drain goes on; with it, the set of tasks is empty and `serve` returns `Ok`.
unfoldable pub finish :
    {A C : Type 0} → List DrainEvent → Service A C → Service A C × Option (List (Job A C))
unfolding send_stop drain
finish es s = (send_stop s, drain es s.jobs)
