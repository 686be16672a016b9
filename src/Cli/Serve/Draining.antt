-- ===== src/Cli/Serve/Draining.antt =====
-- The shutdown drain: every task ends, and none is cancelled before the time is over.
use keyring_rs.Base.{
  ℕ, zero, suc, ◌≤◌, ◌<◌, ◌≡◌, refl, ap, ◌≢◌, ◌⊎◌, inl, inr, Bool, true, false, List, [], ◌∷◌, none,
  some, arith, any, length,
}
use keyring_rs.Cli.Serve.{DrainEvent, ended, elapsed, remove_at, drain}

abbrev pub is_elapsed : DrainEvent → Bool
is_elapsed elapsed = true
is_elapsed (ended i o) = false

abbrev pub joins : List DrainEvent → ℕ
joins [] = 0
joins (elapsed ∷ es) = joins es
joins (ended i o ∷ es) = suc (joins es)

module _ {J : Type 0} where
  -- Each reported task is in the set when it is reported.
  abbrev pub Valid : List DrainEvent → List J → Type 0
  Valid [] js = Unit
  Valid (elapsed ∷ es) js = Valid es js
  Valid (ended i o ∷ es) js = (i < length js) × Valid es (remove_at i js)

  length-remove_at :
      (i : ℕ) (js : List J) → i < length js → suc (length (remove_at i js)) ≡ length js
  length-remove_at i [] h = elim h [ ]
  length-remove_at zero (j ∷ js) h = refl
  length-remove_at (suc i) (j ∷ js) h = ap suc (length-remove_at i js (omega arith))

  drain-nil : (es : List DrainEvent) → drain {J = J} es [] ≡ some []
  unfolding drain
  drain-nil [] = refl
  drain-nil (e ∷ es) = refl

  drain_elapsed :
      (es : List DrainEvent) (js : List J) → any is_elapsed es ≡ true → drain es js ≢ none
  unfolding drain
  drain_elapsed [] js h e = cc
  drain_elapsed (ev ∷ es) [] h e = cc
  drain_elapsed (elapsed ∷ es) (j ∷ js) h e = cc
  drain_elapsed (ended i o ∷ es) (j ∷ js) h e = drain_elapsed es (remove_at i (j ∷ js)) h e

  pub drain_in_time :
      (es : List DrainEvent) (js : List J)
      → any is_elapsed es ≡ false
      → (drain es js ≡ none) ⊎ (drain es js ≡ some [])
  unfolding drain
  drain_in_time [] [] h = inr refl
  drain_in_time [] (j ∷ js) h = inl refl
  drain_in_time (ev ∷ es) [] h = inr refl
  drain_in_time (elapsed ∷ es) (j ∷ js) h = cc
  drain_in_time (ended i o ∷ es) (j ∷ js) h = drain_in_time es (remove_at i (j ∷ js)) h

  drain_joined :
      (es : List DrainEvent) (js : List J)
      → any is_elapsed es ≡ false
      → Valid es js
      → length js ≤ joins es
      → drain es js ≡ some []
  unfolding drain
  drain_joined es [] h v le = drain-nil es
  drain_joined [] (j ∷ js) h v le = elim le [ ]
  drain_joined (elapsed ∷ es) (j ∷ js) h v le = cc
  drain_joined (ended i o ∷ es) (j ∷ js) h v le =
      drain_joined es (remove_at i (j ∷ js)) h v.1 (omega (arith, length-remove_at i (j ∷ js) v.0))

  -- The drain ends once the time is over. Before that it cancels no task, and it ends as soon as
  -- as many tasks have joined as were running.
  pub drain_ends :
      (es : List DrainEvent) (js : List J)
      → ((any is_elapsed es ≡ true) → drain es js ≢ none)
        × ((any is_elapsed es ≡ false)
            → ((drain es js ≡ none) ⊎ (drain es js ≡ some []))
              × (Valid es js → length js ≤ joins es → drain es js ≡ some []))
  drain_ends es js =
      (drain_elapsed es js, λ h. (drain_in_time es js h, λ v le. drain_joined es js h v le))
