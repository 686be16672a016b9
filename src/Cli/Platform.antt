-- ===== src/Cli/Platform.antt =====
-- `Listener` on Unix, of crates/keyring-cli/src/platform.rs: binding the socket and reclaiming a
-- stale one. The operating system is the parameter `Os`.
pub mod Reclaim
use keyring_rs.Base.{ℕ, Bool, true, false, not, ◌&&◌, ◌||◌, ◌==◌, if◌then◌else◌}
use keyring_rs.Base.Text.{Text}
use keyring_rs.Base.Result.{Result, ok, err, Run, map_ok}

pub data ErrorKind : Type 0 where
  addr_in_use not_found connection_refused other_kind : ErrorKind

pub record IoError : Type 0 where
  pub kind : ErrorKind
  pub code : ℕ

pub record Metadata : Type 0 where
  pub is_socket : Bool
  pub dev : ℕ
  pub ino : ℕ

-- `timeout(1 s, UnixStream::connect(path))`
pub data Probe : Type 0 where
  connected : Probe
  connect_failed : IoError → Probe
  probe_elapsed : Probe

pub record Os (W L : Type 0) : Type 0 where
  pub listen : Text → Run W IoError L  -- `UnixListener::bind`
  pub symlink_metadata : Text → Run W IoError Metadata
  pub connect : Text → W → Probe × W
  pub remove_file : Text → Run W IoError (Unit {0})

abbrev pub is_not_found : ErrorKind → Bool
is_not_found not_found = true
is_not_found _ = false

abbrev pub is_refused : ErrorKind → Bool
is_refused connection_refused = true
is_refused _ = false

abbrev pub is_in_use : ErrorKind → Bool
is_in_use addr_in_use = true
is_in_use _ = false

-- The same inode, still a socket.
abbrev pub unchanged : Metadata → Metadata → Bool
unchanged original current = not (
    not current.is_socket || not (original.dev == current.dev) || not (original.ino == current.ino))

pub record Listener (L : Type 0) : Type 0 where
  pub inner : L
  pub path : Text

module _ {W L : Type 0} (os : Os W L) (path : Text) where
  unfoldable pub after_remove : Result IoError (Unit {0}) × W → Result IoError Bool × W
  after_remove (ok u, w) = (ok true, w)
  after_remove (err e, w) = if is_not_found e.kind then (ok true, w) else (err e, w)

  unfoldable pub after_recheck : Metadata → Result IoError Metadata × W → Result IoError Bool × W
  unfolding after_remove
  after_recheck original (ok current, w) =
      if unchanged original current then after_remove (os.remove_file path w) else (ok false, w)
  after_recheck original (err e, w) = if is_not_found e.kind then (ok true, w) else (ok false, w)

  unfoldable pub after_probe : Metadata → Probe × W → Result IoError Bool × W
  unfolding after_recheck
  after_probe original (connected, w) = (ok false, w)
  after_probe original (connect_failed e, w) =
      if is_refused e.kind
      then after_recheck original (os.symlink_metadata path w)
      else if is_not_found e.kind
      then (ok true, w)
      else (ok false, w)
  after_probe original (probe_elapsed, w) = (ok false, w)

  unfoldable pub after_inspect : Result IoError Metadata × W → Result IoError Bool × W
  unfolding after_probe
  after_inspect (ok metadata, w) =
      if metadata.is_socket then after_probe metadata (os.connect path w) else (ok false, w)
  after_inspect (err e, w) = if is_not_found e.kind then (ok true, w) else (ok false, w)

  unfoldable pub reclaim_stale_socket : Run W IoError Bool
  unfolding after_inspect
  reclaim_stale_socket w = after_inspect (os.symlink_metadata path w)

  abbrev pub rebind : IoError → Result IoError Bool × W → Result IoError L × W
  rebind first (ok true, w) = os.listen path w
  rebind first (ok false, w) = (err first, w)
  rebind first (err e, w) = (err e, w)

  abbrev pub after_listen : Result IoError L × W → Result IoError L × W
  after_listen (ok l, w) = (ok l, w)
  after_listen (err e, w) =
      if is_in_use e.kind then rebind e (reclaim_stale_socket w) else (err e, w)

  unfoldable pub bind_unix : Run W IoError L
  unfolding reclaim_stale_socket
  bind_unix w = after_listen (os.listen path w)

  abbrev pub listener_of : Result IoError L × W → Result IoError (Listener L) × W
  listener_of (ok l, w) = (ok (record { inner = l; path = path }), w)
  listener_of (err e, w) = (err e, w)

  -- `Listener::bind`
  unfoldable pub bind : Run W IoError (Listener L)
  unfolding bind_unix
  bind w = listener_of (bind_unix w)

-- `Drop for Listener`: the result of the removal is ignored.
unfoldable pub drop : {W L : Type 0} → Os W L → Listener L → W → W
drop os l w = (os.remove_file l.path w).1

-- `ListeningSocket::accept`: `take` is the accept of the socket, with the address of the peer.
unfoldable pub accept :
    {W L S A : Type 0} → (L → Run W IoError (S × A)) → Listener L → Run W IoError S
accept take l w = let r = take l.inner w in (map_ok (λ (stream, _). stream) r.0, r.1)
