-- ===== src/Tests/Task.antt =====
-- A client task and the socket of crates/keyring-cli on short runs.
use keyring_rs.Base.{ℕ, ◌+◌, ◌≡◌, refl, ◌==◌, if◌then◌else◌, Bool, true, false, List, [], ◌∷◌, some}
use keyring_rs.Base.Result.{Result, ok, err}
use keyring_rs.Cli.Handle.{Round, request, finished, HandleError, other_error, handle}
use keyring_rs.Cli.Handle.Laws.{replies, handle-replies, handle_stop}
use keyring_rs.Cli.Platform.{
  Os, ErrorKind, IoError, Metadata, Probe, addr_in_use, connection_refused, not_found, connected,
  connect_failed, bind_unix,
}
use keyring_rs.Cli.Platform.Reclaim.{logged, BindLog, bind_unix-log}

-- A session that counts its requests, and fails on 0.
abbrev counting : ℕ → ℕ → Result (HandleError ℕ) ℕ × ℕ
counting req n = (if req == 0 then err (other_error 1) else ok (req + n), n + 1)

abbrev asks : ℕ → Round ℕ ℕ
asks req = record {
  stopped = false;
  changed = false;
  incoming = request req;
  handle_time = 5;
  send_time = 1;
  sent = ok tt;
}

-- The third request is queued when the stop arrives.
abbrev rounds : List (Round ℕ ℕ)
rounds = asks 4 ∷ asks 0 ∷ record (asks 6) { changed = true } ∷ []

handle-replies_example : (handle counting rounds 0).written ≡ replies counting (4 ∷ 0 ∷ []) 0
handle-replies_example = handle-replies counting rounds 0

handle_stop_example :
    handle counting rounds 0
    ≡ record { session = 2; written = replies counting (4 ∷ 0 ∷ []) 0; end = some finished }
handle_stop_example =
    handle_stop counting (asks 4 ∷ asks 0 ∷ []) (record (asks 6) { changed = true }) [] 0
      ((4, refl), ((0, refl), tt)) refl

-- A path that holds nothing, a file, or a socket; `true` for a socket that someone listens on.
data Node : Type 0 where
  missing file : Node
  socket : Bool → Node

abbrev error : ErrorKind → IoError
error kind = record { kind = kind; code = 0 }

abbrev entry : Bool → Metadata
entry is_socket = record { is_socket = is_socket; dev = 1; ino = 7 }

abbrev listen : Node → Result IoError ℕ × Node
listen missing = (ok 1, socket true)
listen file = (err (error addr_in_use), file)
listen (socket b) = (err (error addr_in_use), socket b)

abbrev inspect : Node → Result IoError Metadata × Node
inspect missing = (err (error not_found), missing)
inspect file = (ok (entry false), file)
inspect (socket b) = (ok (entry true), socket b)

abbrev connect : Node → Probe × Node
connect missing = (connect_failed (error not_found), missing)
connect file = (connect_failed (error connection_refused), file)
connect (socket true) = (connected, socket true)
connect (socket false) = (connect_failed (error connection_refused), socket false)

abbrev disk : Os Node ℕ
disk = record {
  listen = λ path w. listen w;
  symlink_metadata = λ path w. inspect w;
  connect = λ path w. connect w;
  remove_file = λ path w. (ok tt, missing);
}

bind_unix-log_example : BindLog disk [] (bind_unix (logged disk) [] (socket false, [])).1.1
bind_unix-log_example = bind_unix-log disk [] (socket false)

stale_reclaimed : bind_unix disk [] (socket false) ≡ (ok 1, socket true)
unfolding bind_unix
stale_reclaimed = refl

active_kept : (bind_unix disk [] (socket true)).1 ≡ socket true
unfolding bind_unix
active_kept = refl

file_kept : (bind_unix disk [] file).1 ≡ file
unfolding bind_unix
file_kept = refl
