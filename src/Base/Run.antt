-- ===== src/Base/Run.antt =====
-- `do` notation for code that changes a state `S` and may fail with an `E`.
use mathlib.Core.Path.{◌≡◌, refl}
use keyring_rs.Base.Result.{Result, ok, err, Run, continue}

infixl 5 ◌>>=◌ ◌>>◌
abbrev pub ◌>>=◌ : {S E A B : Type 0} → Run S E A → (A → Run S E B) → Run S E B
◌>>=◌ m f s = continue (m s) f

abbrev pub ◌>>◌ : {S E B : Type 0} → Run S E (Unit {0}) → Run S E B → Run S E B
◌>>◌ m k s = continue (m s) (λ _. k)

module _ {S E A : Type 0} where
  abbrev pub return : A → Run S E A
  return a s = (ok a, s)

  abbrev pub fail : E → Run S E A
  fail e s = (err e, s)

  abbrev pub lift : Result E A → Run S E A
  lift r s = (r, s)

module _ {S E F A : Type 0} where
  abbrev pub change_error : (E → F) → Result E A × S → Result F A × S
  change_error f (ok a, s) = (ok a, s)
  change_error f (err e, s) = (err (f e), s)

  -- `map_err` and `with_context` on the result of an operation.
  abbrev pub on_error : Run S E A → (E → F) → Run S F A
  on_error m f s = change_error f (m s)

-- A property of states that every part of a computation keeps is kept by the whole.
module _ {S E A : Type 0} (P : S → Type 0) where
  pub change_error-keeps :
      {F : Type 0} (f : E → F) (r : Result E A × S) → P r.1 → P (change_error f r).1
  change_error-keeps f (ok a, s) h = h
  change_error-keeps f (err e, s) h = h

  pub continue-keeps :
      {B : Type 0} (r : Result E A × S) (f : A → Run S E B)
      → P r.1
      → ((a : A) (s : S) → P s → P (f a s).1)
      → P (continue r f).1
  continue-keeps (ok a, s) f h k = k a s h
  continue-keeps (err e, s) f h k = h

  -- A part that leads from `P` to `Q`, in any way it ends.
  pub continue-leads :
      {B : Type 0} (Q : S → Type 0) (r : Result E A × S) (f : A → Run S E B)
      → P r.1
      → ((s : S) → P s → Q s)
      → ((a : A) (s : S) → P s → Q (f a s).1)
      → Q (continue r f).1
  continue-leads Q (ok a, s) f h w k = k a s h
  continue-leads Q (err e, s) f h w k = w s h

-- To show `Q` of a computation, show it where a part fails, and of what follows its success.
module _ {S E A : Type 0} where
  pub change_error-elim :
      {F : Type 0} (Q : Result F A × S → Type 0) (f : E → F) (r : Result E A × S)
      → ((a : A) → Q (ok a, r.1))
      → ((e : E) → Q (err (f e), r.1))
      → Q (change_error f r)
  change_error-elim Q f (ok a, s) good bad = good a
  change_error-elim Q f (err e, s) good bad = bad e

  pub continue-elim :
      {B : Type 0} (Q : Result E B × S → Type 0) (r : Result E A × S) (f : A → Run S E B)
      → ((a : A) → r.0 ≡ ok a → Q (f a r.1))
      → ((e : E) → r.0 ≡ err e → Q (err e, r.1))
      → Q (continue r f)
  continue-elim Q (ok a, s) f good bad = good a refl
  continue-elim Q (err e, s) f good bad = bad e refl

module _ {S E F A : Type 0} (f : E → F) where
  pub change_error-ok :
      (r : Result E A × S) (a : A) → (change_error f r).0 ≡ ok a → r ≡ (ok a, (change_error f r).1)
  change_error-ok (ok b, s) a h = cc h
  change_error-ok (err e, s) a h = cc h

  pub change_error-err :
      (r : Result E A × S) (e : F) → (change_error f r).0 ≡ err e → (e' : E) × (e ≡ f e')
  change_error-err (ok b, s) e h = cc h
  change_error-err (err e', s) e h = (e', cc h)
