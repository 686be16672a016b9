-- ===== src/Core/Cell/Laws.antt =====
-- What a caller of `get_or_try_init` can get.
use keyring_rs.Base.{
  ℕ, ◌-◌, ◌≤◌, ◌<◌, ◌≡◌, refl, ◌∙◌, ap, inl, inr, none, some, Option-cases, Bool-cases, ltb, arith,
}
use keyring_rs.Base.Result.{Result, ok, err, Run}
use keyring_rs.Core.Cell.{CacheCell, fresh, store, slow_path, get_or_try_init}

-- A cell holds a value that is younger than `ttl`.
abbrev pub IsFresh : {A : Type 0} → ℕ → ℕ → CacheCell A → A → Type 0
IsFresh {A = A} ttl now cell value = (ts : ℕ) × (cell ≡ some (value, ts)) × (now - ts < ttl)

abbrev pub IsStale : {A : Type 0} → ℕ → ℕ → CacheCell A → Type 0
IsStale ttl now none = Unit
IsStale ttl now (some (value, ts)) = ttl ≤ now - ts

module _ {A : Type 0} (ttl now : ℕ) where
  pub fresh-IsFresh :
      (cell : CacheCell A) {a : A} → fresh ttl now cell ≡ some a → IsFresh ttl now cell a
  unfolding fresh
  fresh-IsFresh none h = cc
  fresh-IsFresh (some (value, ts)) h = elim (Bool-cases (ltb (now - ts) ttl)) [
    | inl e ↦ (ts, ground arith, ground arith)
    | inr e ↦ ground arith
  ]

  pub fresh-IsStale : (cell : CacheCell A) → fresh ttl now cell ≡ none → IsStale ttl now cell
  unfolding fresh
  fresh-IsStale none h = tt
  fresh-IsStale (some (value, ts)) h = ground arith

  pub fresh_of_IsFresh :
      (cell : CacheCell A) {a : A} → IsFresh ttl now cell a → fresh ttl now cell ≡ some a
  unfolding fresh
  fresh_of_IsFresh none (ts, h, young) = cc h
  fresh_of_IsFresh (some (value, ts)) (t, h, young) = ground arith

  pub fresh_of_IsStale : (cell : CacheCell A) → IsStale ttl now cell → fresh ttl now cell ≡ none
  unfolding fresh
  fresh_of_IsStale none h = refl
  fresh_of_IsStale (some (value, ts)) h = ground arith

module _ {W E A : Type 0} (clock : W → ℕ) (acquire : CacheCell A × W → CacheCell A × W) where
  -- The four ways in which a call from a cell `cell` in a world `w` ends.
  pub data Outcome (ttl : ℕ) (f : Run W E A) (cell : CacheCell A) (w : W)
      : Result E A × (CacheCell A × W) → Type 0 where
    hit : (a : A) → IsFresh ttl (clock w) cell a → Outcome ttl f cell w (ok a, (cell, w))
    waited :
        (a : A) (locked : CacheCell A) (v : W)
        → IsStale ttl (clock w) cell
        → acquire (cell, w) ≡ (locked, v)
        → IsFresh ttl (clock v) locked a
        → Outcome ttl f cell w (ok a, (locked, v))
    refreshed :
        (a : A) (locked : CacheCell A) (v u : W)
        → IsStale ttl (clock w) cell
        → acquire (cell, w) ≡ (locked, v)
        → IsStale ttl (clock v) locked
        → f v ≡ (ok a, u)
        → Outcome ttl f cell w (ok a, (some (a, clock u), u))
    not_refreshed :
        (e : E) (locked : CacheCell A) (v u : W)
        → IsStale ttl (clock w) cell
        → acquire (cell, w) ≡ (locked, v)
        → IsStale ttl (clock v) locked
        → f v ≡ (err e, u)
        → Outcome ttl f cell w (err e, (locked, u))

  module _ (ttl : ℕ) (f : Run W E A) (cell : CacheCell A) (w : W) where
    store-Outcome :
        (locked : CacheCell A) (v : W) (r : Result E A × W)
        → IsStale ttl (clock w) cell
        → acquire (cell, w) ≡ (locked, v)
        → IsStale ttl (clock v) locked
        → f v ≡ r
        → Outcome ttl f cell w (store clock acquire locked r)
    unfolding store
    store-Outcome locked v (ok a, u) s q s' h = refreshed a locked v u s q s' h
    store-Outcome locked v (err e, u) s q s' h = not_refreshed e locked v u s q s' h

    slow_path-Outcome :
        (st : CacheCell A × W)
        → IsStale ttl (clock w) cell
        → acquire (cell, w) ≡ st
        → Outcome ttl f cell w (slow_path clock acquire ttl f st)
    unfolding slow_path
    slow_path-Outcome (locked, v) s q = elim (Option-cases (fresh ttl (clock v) locked)) [
      | inl e ↦
          rw (slow_path, e)
            (store-Outcome locked v (f v) s q (fresh-IsStale ttl (clock v) locked e) refl)
      | inr (a, e) ↦
          rw (slow_path, e) (waited a locked v s q (fresh-IsFresh ttl (clock v) locked e))
    ]

    -- A call returns the stored value if it is fresh; else it waits for the lock and returns a value
    -- that another caller has stored meanwhile if that is fresh; else it runs the initializer, and
    -- stores its value with the time at its end, or passes on its error and keeps the old entry.
    pub get_or_try_init-Outcome :
        Outcome ttl f cell w (get_or_try_init clock acquire ttl f (cell, w))
    unfolding get_or_try_init
    get_or_try_init-Outcome = elim (Option-cases (fresh ttl (clock w) cell)) [
      | inl e ↦
          rw (get_or_try_init, e)
            (slow_path-Outcome (acquire (cell, w)) (fresh-IsStale ttl (clock w) cell e) refl)
      | inr (a, e) ↦ rw (get_or_try_init, e) (hit a (fresh-IsFresh ttl (clock w) cell e))
    ]

  module _ (ttl : ℕ) (f : Run W E A) (cell : CacheCell A) (w : W) where
    get_stale :
        IsStale ttl (clock w) cell
        → get_or_try_init clock acquire ttl f (cell, w)
          ≡ slow_path clock acquire ttl f (acquire (cell, w))
    unfolding get_or_try_init
    get_stale s = rw (get_or_try_init, fresh_of_IsStale ttl (clock w) cell s) refl

    slow_path_stale :
        IsStale ttl (clock w) cell
        → slow_path clock acquire ttl f (cell, w) ≡ store clock acquire cell (f w)
    unfolding slow_path
    slow_path_stale s = rw (slow_path, fresh_of_IsStale ttl (clock w) cell s) refl

    pub get_fresh :
        {a : A}
        → IsFresh ttl (clock w) cell a
        → get_or_try_init clock acquire ttl f (cell, w) ≡ (ok a, (cell, w))
    unfolding get_or_try_init
    get_fresh h = rw (get_or_try_init, fresh_of_IsFresh ttl (clock w) cell h) refl

  -- A call that refreshes a stale cell returns the initializer's value. Within the time to live, a
  -- later call returns the same value and runs no initializer.
  pub get_or_try_init-reuse :
      (ttl : ℕ) (f g : Run W E A) (cell : CacheCell A) (w : W) (a : A) (locked : CacheCell A)
      (v u : W)
      → IsStale ttl (clock w) cell
      → acquire (cell, w) ≡ (locked, v)
      → IsStale ttl (clock v) locked
      → f v ≡ (ok a, u)
      → (get_or_try_init clock acquire ttl f (cell, w) ≡ (ok a, (some (a, clock u), u)))
        × ((later : W)
            → clock later - clock u < ttl
            → get_or_try_init clock acquire ttl g (some (a, clock u), later)
              ≡ (ok a, (some (a, clock u), later)))
  unfolding store
  get_or_try_init-reuse ttl f g cell w a locked v u s q s' h = (
    get_stale ttl f cell w s
        ∙ ap (slow_path clock acquire ttl f) q
        ∙ slow_path_stale ttl f locked v s'
        ∙ ap (store clock acquire locked) h,
    λ later young. get_fresh ttl g (some (a, clock u)) later (clock u, refl, young),
  )
