-- ===== src/Core/Cell.antt =====
-- crates/keyring-core/src/cell.rs: a cache of one value with the instant of its last refresh.
pub mod Laws
pub mod Sharing
use keyring_rs.Base.{ℕ, ◌-◌, Option, none, some, ltb, if◌then◌else◌}
use keyring_rs.Base.Result.{Result, ok, err, Run}

-- `CacheCell::inner`; instants and durations are numbers of nanoseconds.
abbrev pub CacheCell : Type 0 → Type 0
CacheCell A = Option (A × ℕ)

-- The value, if `ts.elapsed() < ttl`; an elapsed time is never negative.
unfoldable pub fresh : {A : Type 0} → ℕ → ℕ → CacheCell A → Option A
fresh ttl now none = none
fresh ttl now (some (value, ts)) = if ltb (now - ts) ttl then some value else none

-- The world `W` has a clock, and `acquire` is the wait for the write lock, in which other callers may
-- have changed the cell.
module _ {W E A : Type 0} (clock : W → ℕ) (acquire : CacheCell A × W → CacheCell A × W) where
  -- The end of the slow path, on the outcome of the initializer.
  unfoldable pub store : CacheCell A → Result E A × W → Result E A × (CacheCell A × W)
  store cell (ok value, w) = (ok value, (some (value, clock w), w))
  store cell (err e, w) = (err e, (cell, w))

  -- Under the write lock.
  unfoldable pub slow_path : ℕ → Run W E A → Run (CacheCell A × W) E A
  unfolding store
  slow_path ttl f (cell, w) = elim (fresh ttl (clock w) cell) [
    | some value ↦ (ok value, (cell, w))
    | none ↦ store cell (f w)
  ]

  unfoldable pub get_or_try_init : ℕ → Run W E A → Run (CacheCell A × W) E A
  unfolding slow_path
  get_or_try_init ttl f (cell, w) = elim (fresh ttl (clock w) cell) [
    | some value ↦ (ok value, (cell, w))
    | none ↦ slow_path ttl f (acquire (cell, w))
  ]
