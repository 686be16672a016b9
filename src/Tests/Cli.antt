-- ===== src/Tests/Cli.antt =====
-- The service loop of crates/keyring-cli on short histories.
use keyring_rs.Base.{ℕ, ◌+◌, ◌≤◌, ◌≡◌, refl, ◌≢◌, ◌⊎◌, ◌↔◌, true, List, [], ◌∷◌, none, some, arith}
use keyring_rs.Base.Result.{ok, err}
use keyring_rs.Cli.Signal.{reload, shutdown}
use keyring_rs.Cli.Serve.{
  Loaded, candidate, rejected, panicked, Service, Ready, Turn, continue, break, failed, DrainEvent,
  ended, elapsed, turn, turns, start, on_loaded, drain, finish,
}
use keyring_rs.Cli.Serve.Turns.{Holds, turn_ends}
use keyring_rs.Cli.Serve.Reloads.{
  IsBuilding, waiting, builds, completions, all_signals, turns-IsBuilding, builds_coalesce,
  reload_honoured,
}
use keyring_rs.Cli.Serve.Generations.{
  IsGeneration, turns-IsGeneration, on_loaded_cases, finish-stopped,
}
use keyring_rs.Cli.Serve.Draining.{drain_ends}
use keyring_rs.Cli.Serve.Shutdown.{Drained, finish-Drained}

-- Agents, clients and errors are numbers.
abbrev quiet : Ready ℕ ℕ ℕ
quiet = record { signal = none; loaded = none; joined = none; accepted = none }

abbrev hup : Ready ℕ ℕ ℕ
hup = record quiet { signal = some reload }

abbrev built : ℕ → Ready ℕ ℕ ℕ
built a = record quiet { loaded = some (candidate a) }

abbrev client : ℕ → Ready ℕ ℕ ℕ
client c = record quiet { accepted = some (ok c) }

-- Two reloads arrive during a build, which is then followed by one more build.
abbrev history : List (Ready ℕ ℕ ℕ)
history = client 10 ∷ hup ∷ hup ∷ hup ∷ built 1 ∷ client 11 ∷ built 2 ∷ []

abbrev begin : Service ℕ ℕ
begin = start 0

-- A reload signal is ready together with a listener that fails.
abbrev hup_and_error : Ready ℕ ℕ ℕ
hup_and_error = record hup { accepted = some (err 9) }

reload_ends_nothing :
    (turn hup_and_error begin ≡ break begin)
    ↔ ((begin ≡ begin) × (hup_and_error.signal ≡ some shutdown))
reload_ends_nothing = (turn_ends hup_and_error begin).0 begin

turns-IsBuilding_example : Holds IsBuilding (turns history (start 0))
turns-IsBuilding_example = turns-IsBuilding history 0

turns-IsGeneration_example : Holds IsGeneration (turns history (start 0))
turns-IsGeneration_example = turns-IsGeneration history 0

begin-IsBuilding : IsBuilding begin
unfolding start
begin-IsBuilding = record { single = omega arith; waits = λ e. cc }

abbrev state_of : Turn ℕ ℕ ℕ → Service ℕ ℕ
state_of (continue t) = t
state_of (break t) = t
state_of (failed e) = begin

abbrev last : Service ℕ ℕ
last = state_of (turns history begin)

history_goes_on : turns history begin ≡ continue last
unfolding turns start
history_goes_on = refl

history_agent : last.agent ≡ 2
unfolding turns start
history_agent = refl

history_clients :
    last.jobs
    ≡ record { client = 10; agent = 0; stop = 0 } ∷ record { client = 11; agent = 1; stop = 1 } ∷ []
unfolding turns start
history_clients = refl

history-builds : builds history begin ≡ 2
unfolding turns start
history-builds = refl

history_coalesces : builds history begin + waiting last ≤ all_signals history + waiting begin
history_coalesces = builds_coalesce history begin last begin-IsBuilding history_goes_on

reload_honoured_example :
    ((last.reload_pending ≡ true) × (completions (hup ∷ built 1 ∷ []) begin ≡ 0))
    ⊎ (1 ≤ builds (hup ∷ built 1 ∷ []) begin)
unfolding turns start
reload_honoured_example =
    reload_honoured hup (built 1 ∷ []) begin (state_of (turns (hup ∷ built 1 ∷ []) begin))
      begin-IsBuilding refl refl

abbrev bad_config : Loaded ℕ ℕ
bad_config = rejected 4

bad_config_ne : (a : ℕ) → bad_config ≢ candidate a
bad_config_ne a e = cc

bad_config_keeps_agent : (on_loaded bad_config last).agent ≡ last.agent
bad_config_keeps_agent = ((on_loaded_cases bad_config last).1 bad_config_ne).0

begin-IsGeneration : IsGeneration begin
unfolding start
begin-IsGeneration = record { current = refl; old = λ c h. elim h [ ]; fits = tt }

all_channels_stopped : (finish [] begin).0.stopped 0 ≡ true
unfolding start
all_channels_stopped = finish-stopped [] begin begin-IsGeneration 0 (omega arith)

-- One of two tasks joins before the time is over.
abbrev slow : List DrainEvent
slow = ended 1 panicked ∷ elapsed ∷ []

abbrev tasks : List ℕ
tasks = 7 ∷ 8 ∷ []

slow-drain_returns : drain slow tasks ≢ none
slow-drain_returns = (drain_ends slow tasks).0 refl

slow-drain : drain slow tasks ≡ some (7 ∷ [])
unfolding drain
slow-drain = refl

abbrev term : Ready ℕ ℕ ℕ
term = record quiet { signal = some shutdown }

abbrev ended_history : List (Ready ℕ ℕ ℕ)
ended_history = client 10 ∷ hup ∷ built 1 ∷ client 11 ∷ term ∷ []

abbrev at_end : Service ℕ ℕ
at_end = state_of (turns ended_history begin)

history_ends : turns ended_history begin ≡ break at_end
unfolding turns start
history_ends = refl

-- Of the two clients that run, the one of the new agent joins in time.
cancelled_client : (finish slow at_end).1 ≡ some (record { client = 10; agent = 0; stop = 0 } ∷ [])
unfolding finish turns start
cancelled_client = refl

finish-Drained_example : Drained slow at_end (record { client = 10; agent = 0; stop = 0 } ∷ [])
finish-Drained_example =
    (finish-Drained ended_history 0 at_end slow history_ends).0 _ cancelled_client
