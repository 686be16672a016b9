-- ===== src/Cli/Serve/Turns.antt =====
-- Invariants of the loop of `serve`, and how the loop can end.
use keyring_rs.Base.{◌≡◌, refl, subst, ◌⊎◌, inl, inr, ◌↔◌, List, [], ◌∷◌, none, some, arith}
use keyring_rs.Base.Result.{err}
use keyring_rs.Cli.Serve.{shutdown, Ready, Turn, continue, break, failed, Service, turn, turns}

module _ {A C E : Type 0} where
  -- The state after a turn has a property, if there is one.
  abbrev pub Holds {ℓ} : (Service A C → Type ℓ) → Turn A C E → Type ℓ
  Holds P (continue s) = P s
  Holds P (break s) = P s
  Holds P (failed e) = Unit

  abbrev pub next : (Service A C → Turn A C E) → Turn A C E → Turn A C E
  next f (continue s) = f s
  next f (break s) = break s
  next f (failed e) = failed e

  pub turns-cons :
      (r : Ready A C E) (rs : List (Ready A C E)) (s : Service A C)
      → turns (r ∷ rs) s ≡ next (turns rs) (turn r s)
  unfolding turns
  turns-cons r rs s = ground arith

  next-continue :
      (f : Service A C → Turn A C E) (t : Turn A C E) {v : Service A C}
      → next f t ≡ continue v
      → (u : Service A C) × (t ≡ continue u) × (f u ≡ continue v)
  next-continue f (continue u) h = (u, refl, h)
  next-continue f (break u) h = cc
  next-continue f (failed e) h = cc

  -- A run of turns that goes on has gone on after each turn.
  pub turns-continue :
      (r : Ready A C E) (rs : List (Ready A C E)) (s : Service A C) {v : Service A C}
      → turns (r ∷ rs) s ≡ continue v
      → (u : Service A C) × (turn r s ≡ continue u) × (turns rs u ≡ continue v)
  turns-continue r rs s h = next-continue (turns rs) (turn r s) (rw (turns-cons r rs s) at h)

  pub Holds-next {ℓ} :
      (P : Service A C → Type ℓ) (f : Service A C → Turn A C E) (t : Turn A C E)
      → ((s : Service A C) → P s → Holds P (f s))
      → Holds P t
      → Holds P (next f t)
  Holds-next P f (continue s) k h = k s h
  Holds-next P f (break s) k h = h
  Holds-next P f (failed e) k h = tt

  -- The state in which the loop still runs, or which it leaves to be drained.
  pub Holds_at {ℓ} :
      (P : Service A C → Type ℓ) (t : Turn A C E) (s : Service A C)
      → (t ≡ continue s) ⊎ (t ≡ break s)
      → Holds P t
      → P s
  Holds_at P t s (inl e) h = subst (Holds P) e h
  Holds_at P t s (inr e) h = subst (Holds P) e h

  -- What every turn keeps, every run of turns keeps.
  pub turns_inv {ℓ} :
      (P : Service A C → Type ℓ)
      → ((r : Ready A C E) (s : Service A C) → P s → Holds P (turn r s))
      → (rs : List (Ready A C E)) (s : Service A C) → P s
      → Holds P (turns rs s)
  unfolding turns
  turns_inv P keep [] s h = h
  turns_inv P keep (r ∷ rs) s h =
      rw (turns-cons r rs s) (Holds-next P (turns rs) (turn r s) (turns_inv P keep rs) (keep r s h))

  -- A turn leaves the loop exactly on a shutdown signal, with the state as it was; it fails
  -- exactly when the listener fails while no signal, no finished build and no finished task is
  -- ready. So neither clients nor rejected or crashed builds end the service.
  pub turn_ends :
      (r : Ready A C E) (s : Service A C)
      → ((t : Service A C) → (turn r s ≡ break t) ↔ ((t ≡ s) × (r.signal ≡ some shutdown)))
        × ((e : E)
            → (turn r s ≡ failed e) ↔ (
                (r.signal ≡ none)
                × ((r.loaded ≡ none) ⊎ (s.reloads ≡ 0))
                × ((r.joined ≡ none) ⊎ (s.jobs ≡ []))
                × (r.accepted ≡ some (err e))))
  unfolding turn
  turn_ends r s =
      (λ t. (λ h. ground arith, λ h. ground arith), λ e. (λ h. ground arith, λ h. ground arith))
