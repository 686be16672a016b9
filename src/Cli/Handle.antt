-- ===== src/Cli/Handle.antt =====
-- `handle` of crates/keyring-cli/src/main.rs: one client's loop. The session's dispatch, which
-- `ssh_agent_lib` provides, is the parameter `answer`; a round of the loop is what the client, the
-- stop channel and the clock do in it.
pub mod Laws
pub mod Conversation
use keyring_rs.Base.{
  ℕ, ◌+◌, ◌*◌, Bool, true, false, List, [], ◌∷◌, ◌++◌, Option, none, some, ltb, if◌then◌else◌,
}
use keyring_rs.Base.Result.{Result, ok, err}

-- Milliseconds.
abbrev pub request_timeout : ℕ
request_timeout = 30 * 1000

-- What `wire.try_next()` gives.
pub data Incoming (Req X : Type 0) : Type 0 where
  request : Req → Incoming Req X
  closed : Incoming Req X
  broken : X → Incoming Req X

pub record Round (Req X : Type 0) : Type 0 where
  pub stopped : Bool  -- `*stop.borrow()` at the head of the loop
  pub changed : Bool  -- `stop.changed()` is ready when the select resolves
  pub incoming : Incoming Req X
  pub handle_time : ℕ
  pub send_time : ℕ
  pub sent : Result X (Unit {0})  -- the result of `wire.send(res)`

-- The errors of `Session::handle`, as far as the loop tells them apart.
pub data HandleError (X : Type 0) : Type 0 where
  extension_failed : HandleError X
  other_error : X → HandleError X

pub data Response (Res : Type 0) : Type 0 where
  reply : Res → Response Res
  extension_failure failure : Response Res

-- How the loop returns.
pub data End (X : Type 0) : Type 0 where
  finished : End X
  wire_error : X → End X
  timed_out : End X

-- The session, the responses written, and the end, or `none` while the client is served.
pub record Served (T Res X : Type 0) : Type 0 where
  pub session : T
  pub written : List (Response Res)
  pub end : Option (End X)

module _ {T Req Res X : Type 0} (answer : Req → T → Result (HandleError X) Res × T) where
  abbrev pub to_response : Result (HandleError X) Res → Response Res
  to_response (ok res) = reply res
  to_response (err extension_failed) = extension_failure
  to_response (err (other_error e)) = failure

  abbrev pub wrote : Response Res → Served T Res X → Served T Res X
  wrote res s = record s { written = res ∷ s.written }

  abbrev pub ended : T → End X → Served T Res X
  ended session e = record { session = session; written = []; end = some e }

  -- The part under `timeout`. A request whose time is over writes nothing that counts: its
  -- connection is closed.
  unfoldable pub respond :
      Round Req X → Result (HandleError X) Res × T → (T → Served T Res X) → Served T Res X
  respond round (r, session) rest =
      if ltb request_timeout (round.handle_time + round.send_time)
      then ended session timed_out
      else elim round.sent [
        | ok u ↦ wrote (to_response r) (rest session)
        | err e ↦ ended session (wire_error e)
      ]

  unfoldable pub receive : Round Req X → Incoming Req X → T → (T → Served T Res X) → Served T Res X
  unfolding respond
  receive round (request req) session rest = respond round (answer req session) rest
  receive round closed session rest = ended session finished
  receive round (broken e) session rest = ended session (wire_error e)

  unfoldable pub handle : List (Round Req X) → T → Served T Res X
  unfolding receive
  handle [] session = record { session = session; written = []; end = none }
  handle (round ∷ rounds) session =
      if round.stopped
      then ended session finished
      else if round.changed
      then ended session finished
      else receive round round.incoming session (handle rounds)
