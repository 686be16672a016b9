-- ===== src/Core/Cell/Sharing.antt =====
-- Callers of one cell side by side: the steps of `get_or_try_init` between its awaits, in any order.
-- Readers hold the lock within one step only; the writer holds it while its initializer runs.
pub mod Flight
pub mod Solo
use keyring_rs.Base.{
  ℕ, ◌+◌, ◌-◌, ◌≤◌, ◌≡◌, ◌≢◌, ◌⊎◌, inl, inr, refl, Bool, true, false, ◌==◌, ==_iff, if◌then◌else◌,
  Bool-cases, Option, none, some, Option-cases, List, [], ◌∷◌, arith,
}
use keyring_rs.Core.Cell.{CacheCell, fresh}
use keyring_rs.Core.Cell.Laws.{IsStale, fresh-IsStale}

pub data Phase (A : Type 0) : Type 0 where
  idle waiting working failed : Phase A
  returned : A → Phase A

-- `lock` is the holder of the write lock. `stores` is for the laws only: the times of all stores, the
-- newest first.
pub record Shared (A : Type 0) : Type 0 where
  pub cell : CacheCell A
  pub clock : ℕ
  pub lock : Option ℕ
  pub phase : ℕ → Phase A
  pub stores : List ℕ

module _ {A : Type 0} where
  abbrev pub set : ℕ → Phase A → (ℕ → Phase A) → ℕ → Phase A
  set i p phase j = if j == i then p else phase j

  -- The phase that follows a look at the cell.
  abbrev pub found : Phase A → Option A → Phase A
  found p none = p
  found p (some a) = returned a

  abbrev pub held_by : ℕ → Option A → Option ℕ
  held_by i none = some i
  held_by i (some a) = none

-- A dropped future releases its lock.
abbrev pub release : ℕ → Option ℕ → Option ℕ
release i none = none
release i (some j) = if j == i then none else some j

pub data Step {A : Type 0} (ttl : ℕ) (s : Shared A) : Shared A → Type 0 where
  passes : (d : ℕ) → Step ttl s (record s { clock = s.clock + d })
  reads :
      (i : ℕ)
      → s.lock ≡ none
      → s.phase i ≡ idle
      → Step ttl s (record s { phase = set i (found waiting (fresh ttl s.clock s.cell)) s.phase })
  acquires :
      (i : ℕ)
      → s.lock ≡ none
      → s.phase i ≡ waiting
      → Step ttl s (record s {
        phase = set i (found working (fresh ttl s.clock s.cell)) s.phase;
        lock = held_by i (fresh ttl s.clock s.cell);
      })
  refreshes :
      (i : ℕ) (a : A)
      → s.phase i ≡ working
      → Step ttl s (record s {
        phase = set i (returned a) s.phase;
        lock = none;
        cell = some (a, s.clock);
        stores = s.clock ∷ s.stores;
      })
  fails :
      (i : ℕ)
      → s.phase i ≡ working
      → Step ttl s (record s { phase = set i failed s.phase; lock = none })
  drops : (i : ℕ) → Step ttl s (record s { phase = set i idle s.phase; lock = release i s.lock })

abbrev pub begin : {A : Type 0} → ℕ → Shared A
begin now = record { cell = none; clock = now; lock = none; phase = λ i. idle; stores = [] }

pub data Reached {A : Type 0} (ttl : ℕ) : Shared A → Type 0 where
  started : (now : ℕ) → Reached ttl (begin now)
  then_step : {s t : Shared A} → Reached ttl s → Step ttl s t → Reached ttl t

-- The cell holds the newest store, which is not in the future.
abbrev pub IsNewest : {A : Type 0} → CacheCell A → List ℕ → ℕ → Type 0
IsNewest none [] now = Unit
IsNewest none (t ∷ ts) now = ⊥
IsNewest (some (a, ts)) [] now = ⊥
IsNewest (some (a, ts)) (t ∷ rest) now = (ts ≡ t) × (ts ≤ now)

-- Each time is at least `ttl` after the one before.
abbrev pub Spaced : ℕ → List ℕ → Type 0
Spaced ttl [] = Unit
Spaced ttl (t ∷ []) = Unit
Spaced ttl (t ∷ u ∷ rest) = (u + ttl ≤ t) × Spaced ttl (u ∷ rest)

pub record IsShared {A : Type 0} (ttl : ℕ) (s : Shared A) : Type 0 where
  pub working-lock : (i : ℕ) → s.phase i ≡ working → s.lock ≡ some i
  pub lock-IsStale : (i : ℕ) → s.lock ≡ some i → IsStale ttl s.clock s.cell
  pub cell-IsNewest : IsNewest s.cell s.stores s.clock
  pub stores-Spaced : Spaced ttl s.stores
