-- ===== src/Cli/NamedPipe.antt =====
-- The Windows half of crates/keyring-cli/src/platform.rs: the security descriptor of the first pipe
-- instance, and the listener that replaces its instance on each accept. Win32 and tokio's named pipes are
-- the parameter `Windows`; a pointer is a number, and the null pointer is 0.
pub mod Descriptor
pub mod Instances
use keyring_rs.Base.{ℕ, ◌==◌, Bool, true, false, List, [], ◌∷◌, ◌++◌, if◌then◌else◌}
use keyring_rs.Base.Text.{Text, text}
use keyring_rs.Base.Result.{Done, Result, ok, err, Run}

pub record SecurityAttributes : Type 0 where
  pub length : ℕ
  pub security_descriptor : ℕ
  pub inherit_handle : Bool

pub record NamedPipeSecurity : Type 0 where
  pub descriptor : ℕ
  pub attributes : SecurityAttributes

pub record PipeOptions : Type 0 where
  pub first_pipe_instance : Bool
  pub access_inbound : Bool
  pub access_outbound : Bool

-- `P` is a `NamedPipeServer`.
pub record Windows (W P E : Type 0) : Type 0 where
  pub size_of_attributes : ℕ
  pub convert_descriptor : Text → Run W E ℕ
  pub local_free : ℕ → W → W
  pub create_with_security_attributes : PipeOptions → Text → SecurityAttributes → Run W E P
  pub create : Text → Run W E P
  pub connect : P → Run W E Done

pub record PipeListener (P : Type 0) : Type 0 where
  pub inner : P
  pub path : Text

abbrev pub sddl : Text
sddl = text "D:(A;;GRGW;;;AU)(A;;GA;;;BA)(A;;GA;;;SY)" ++ 0 ∷ []

abbrev pub first_instance : PipeOptions
first_instance = record {
  first_pipe_instance = true;
  access_inbound = true;
  access_outbound = true;
}

abbrev pub listener_on : {P E : Type 0} → Text → Result E P → Result E (PipeListener P)
listener_on path (ok inner) = ok (record { inner = inner; path = path })
listener_on path (err e) = err e

module _ {W P E : Type 0} where
  -- `mem::replace`, once the fresh instance is there.
  unfoldable pub replace_inner : PipeListener P → Result E P × W → Result E P × (PipeListener P × W)
  replace_inner l (ok fresh, w) = (ok l.inner, (record l { inner = fresh }, w))
  replace_inner l (err e, w) = (err e, (l, w))

module _ {W P E : Type 0} (win : Windows W P E) where
  -- The attributes point to the descriptor that Windows has allocated.
  abbrev pub with_descriptor : Result E ℕ × W → Result E NamedPipeSecurity × W
  with_descriptor (err e, w) = (err e, w)
  with_descriptor (ok descriptor, w) = (
    ok (record {
      descriptor = descriptor;
      attributes = record {
        length = win.size_of_attributes;
        security_descriptor = descriptor;
        inherit_handle = false;
      };
    }),
    w,
  )

  unfoldable pub new_security : Text → Run W E NamedPipeSecurity
  new_security source w = with_descriptor (win.convert_descriptor source w)

  -- `Drop for NamedPipeSecurity`
  unfoldable pub drop_security : NamedPipeSecurity → W → W
  drop_security security w =
      if security.descriptor == 0 then w else win.local_free security.descriptor w

  -- The block that creates the first instance: the security is dropped at its end in any case.
  unfoldable pub create_first :
      Text → Result E NamedPipeSecurity × W → Result E (PipeListener P) × W
  unfolding drop_security
  create_first path (err e, w) = (err e, w)
  create_first path (ok security, w) =
      let r = win.create_with_security_attributes first_instance path security.attributes w in
      (listener_on path r.0, drop_security security r.1)

  unfoldable pub bind_pipe : Text → Run W E (PipeListener P)
  unfolding create_first new_security
  bind_pipe path w = create_first path (new_security sddl w)

  unfoldable pub after_connect :
      PipeListener P → Result E Done × W → Result E P × (PipeListener P × W)
  unfolding replace_inner
  after_connect l (ok u, w) = replace_inner l (win.create l.path w)
  after_connect l (err e, w) = (err e, (l, w))

  unfoldable pub accept_pipe : Run (PipeListener P × W) E P
  unfolding after_connect
  accept_pipe (l, w) = after_connect l (win.connect l.inner w)
