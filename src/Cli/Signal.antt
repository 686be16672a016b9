-- ===== src/Cli/Signal.antt =====
-- `Signal` of crates/keyring-cli/src/platform.rs on Unix: registering the three signals that the
-- program listens to, and waiting for one. Tokio's signal streams are the parameter `Streams`.
pub mod Delivery
use keyring_rs.Base.{Bool, true, false, List, [], ◌∷◌, Option, none, some}
use keyring_rs.Base.Result.{Run}
use keyring_rs.Base.Run.{◌>>=◌, return}

-- `tokio::signal::unix::SignalKind`, as far as the program uses it.
pub data SignalKind : Type 0 where
  user_defined1 interrupt terminate : SignalKind

pub data SignalEvent : Type 0 where
  reload shutdown : SignalEvent

-- `G` is a stream. `poll` polls its `recv` once: true if it is ready, and then its notification is
-- taken.
pub record Streams (W G E : Type 0) : Type 0 where
  pub signal : SignalKind → Run W E G
  pub poll : G → W → Bool × W

pub record Signal (G : Type 0) : Type 0 where
  pub reload : G
  pub interrupt : G
  pub terminate : G

-- The branches of `select!` in `recv`: what is received, and what it becomes.
abbrev pub branch : {G : Type 0} → Signal G → SignalKind → G
branch s user_defined1 = s.reload
branch s interrupt = s.interrupt
branch s terminate = s.terminate

abbrev pub event : SignalKind → SignalEvent
event user_defined1 = reload
event interrupt = shutdown
event terminate = shutdown

-- `select!` polls its branches in turn, from one that it draws at random.
abbrev pub turn : SignalKind → List SignalKind
turn user_defined1 = user_defined1 ∷ interrupt ∷ terminate ∷ []
turn interrupt = interrupt ∷ terminate ∷ user_defined1 ∷ []
turn terminate = terminate ∷ user_defined1 ∷ interrupt ∷ []

module _ {W G E : Type 0} (os : Streams W G E) where
  unfoldable pub new_signal : Run W E (Signal G)
  new_signal = do
    usr1 ← os.signal user_defined1
    int ← os.signal interrupt
    term ← os.signal terminate
    return (record { reload = usr1; interrupt = int; terminate = term })

  -- The first branch that is ready ends a poll, and the branches after it are not polled.
  unfoldable pub poll_branches : List SignalKind → Signal G → W → Option SignalEvent × W
  poll_branches [] s w = (none, w)
  poll_branches (k ∷ ks) s w =
      let r = os.poll (branch s k) w in
      elim r.0 [ true ↦ (some (event k), r.1) | false ↦ poll_branches ks s r.1 ]

  -- One poll of `recv`, with the branch that is first.
  unfoldable pub recv : SignalKind → Signal G → W → Option SignalEvent × W
  unfolding poll_branches
  recv first = poll_branches (turn first)
