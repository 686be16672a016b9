-- ===== src/Cli/NamedPipe/Descriptor.antt =====
-- The life of the security descriptor of the first pipe instance.
use keyring_rs.Base.{ℕ, zero, suc, ◌≡◌, ◌≢◌, refl, false, List, ◌∷◌, ◌==◌, arith}
use keyring_rs.Base.Text.{Text}
use keyring_rs.Base.Result.{Result, ok, err}
use keyring_rs.Cli.NamedPipe.{
  Windows, sddl, drop_security, create_first, new_security, with_descriptor, bind_pipe,
}

-- What is done with a descriptor: it is allocated, read by the creation of a pipe, and freed.
pub data Use : Type 0 where
  allocated created freed : ℕ → Use

abbrev note_allocated : {W E : Type 0} → Result E ℕ × W → List Use → Result E ℕ × (W × List Use)
note_allocated (ok d, w) log = (ok d, (w, allocated d ∷ log))
note_allocated (err e, w) log = (err e, (w, log))

abbrev quiet : {W L A : Type 0} → (W → A × W) → W × L → A × (W × L)
quiet f st = let r = f st.0 in (r.0, (r.1, st.1))

-- The same system, with a record of the uses, the newest first.
abbrev pub recorded : {W P E : Type 0} → Windows W P E → Windows (W × List Use) P E
recorded win = record {
  size_of_attributes = win.size_of_attributes;
  convert_descriptor = λ source st. note_allocated (win.convert_descriptor source st.0) st.1;
  local_free = λ d st. (win.local_free d st.0, freed d ∷ st.1);
  create_with_security_attributes = λ o path a st.
      let r = win.create_with_security_attributes o path a st.0 in
      (r.0, (r.1, created a.security_descriptor ∷ st.1));
  create = λ path. quiet (win.create path);
  connect = λ p. quiet (win.connect p);
}

-- A descriptor is allocated, used and freed in this order, and nothing else happens; a null one needs
-- no release, and a failed allocation leaves nothing to release.
pub data Released (before after : List Use) : Type 0 where
  not_allocated : after ≡ before → Released before after
  null : after ≡ created 0 ∷ allocated 0 ∷ before → Released before after
  released :
      (d : ℕ) → d ≢ 0 → after ≡ freed d ∷ created d ∷ allocated d ∷ before → Released before after

not_null : (d : ℕ) → (suc d == 0) ≡ false
not_null d = ground arith

module _ {W P E : Type 0} (win : Windows W P E) (path : Text) where
  create_first-Released :
      (r : Result E ℕ × W) (log : List Use)
      → Released log
          (create_first
            (recorded win)
            path
            (with_descriptor (recorded win) (note_allocated r log))).1.1
  unfolding create_first drop_security
  create_first-Released (err e, w) log = not_allocated refl
  create_first-Released (ok zero, w) log = null refl
  create_first-Released (ok (suc d), w) log = released (suc d) (ground arith) (rw (not_null d) refl)

  -- Binding a Windows pipe never leaks the security descriptor, frees it twice or uses it after the
  -- release: whatever Windows answers, the descriptor is allocated, read by the creation of the first
  -- instance, and then freed, once each and in this order; a null descriptor is not freed, and where
  -- the conversion fails nothing is done with one.
  pub bind_pipe-Released :
      (w : W) (log : List Use) → Released log (bind_pipe (recorded win) path (w, log)).1.1
  unfolding bind_pipe new_security
  bind_pipe-Released w log = create_first-Released (win.convert_descriptor sddl w) log
