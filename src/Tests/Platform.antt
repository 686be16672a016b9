-- ===== src/Tests/Platform.antt =====
-- Signals, and the named pipes of a small Windows.
use keyring_rs.Base.{ℕ, suc, ◌<◌, ◌==◌, Bool, false, [], ◌||◌, if◌then◌else◌, arith}
use keyring_rs.Base.Text.{text}
use keyring_rs.Base.Result.{ok, err}
use keyring_rs.Cli.Signal.{interrupt, Streams, Signal}
use keyring_rs.Cli.NamedPipe.{Windows, PipeListener, bind_pipe}
use keyring_rs.Cli.NamedPipe.Descriptor.{recorded, Released, bind_pipe-Released}
use keyring_rs.Cli.NamedPipe.Instances.{Instances, accepts, Held, accepts-Held}

-- The world is the streams with a notification.
abbrev flag : ℕ → (ℕ → Bool) → Bool
flag g w = w g

abbrev toy_streams : Streams (ℕ → Bool) ℕ ℕ
toy_streams = record {
  signal = λ kind w. (ok 0, w);
  poll = λ g w. (w g, λ h. if g == h then false else w h);
}

abbrev three : Signal ℕ
three = record { reload = 1; interrupt = 2; terminate = 3 }

-- A reload and a termination are pending, and the poll begins with the interrupts.
abbrev two_pending : ℕ → Bool
two_pending g = (g == 1) || (g == 3)

-- The world counts the instances that were made; the third client breaks off.
abbrev toy_windows : Windows ℕ ℕ ℕ
toy_windows = record {
  size_of_attributes = 24;
  convert_descriptor = λ source w. (ok 77, w);
  local_free = λ d w. w;
  create_with_security_attributes = λ o path a w. (ok w, suc w);
  create = λ path w. (ok w, suc w);
  connect = λ p w. (if p == 3 then err 9 else ok tt, w);
}

bind_pipe-Released_example : Released [] (bind_pipe (recorded toy_windows) (text "p") (0, [])).1.1
bind_pipe-Released_example = bind_pipe-Released toy_windows (text "p") 0 []

abbrev Issued : ℕ → ℕ → Type 0
Issued w p = p < w

toy_instances : Instances toy_windows Issued
toy_instances = record {
  fresh = λ path w p q h i. ground (arith, h);
  issued = λ path w p h. ground (arith, h);
  create_keeps = λ path w q h. omega (arith, h);
  connect_keeps = λ p w q h. h;
}

abbrev bound : PipeListener ℕ
bound = record { inner = 0; path = text "p" }

accepts-Held_example :
    Held toy_windows Issued toy_instances
      (accepts toy_windows 3 [] (bound, 1)).0
      (accepts toy_windows 3 [] (bound, 1)).1
accepts-Held_example =
    accepts-Held toy_windows Issued toy_instances 3 [] (bound, 1) ((tt, tt), (omega arith, tt))
