-- ===== src/Core/Cell/Sharing/Flight.antt =====
-- At most one refresh of a shared cell at a time, and none before the value has expired.
use keyring_rs.Base.{
  ℕ, ◌+◌, ◌≡◌, ◌≢◌, ◌⊎◌, inl, inr, refl, ◌==◌, Bool-cases, Option, none, some, List, [], ◌∷◌, arith,
}
use keyring_rs.Core.Cell.{CacheCell, fresh}
use keyring_rs.Core.Cell.Laws.{IsStale, fresh-IsStale}
use keyring_rs.Core.Cell.Sharing.{
  Phase, idle, waiting, working, failed, returned, Shared, set, found, held_by, release, Step,
  passes, reads, acquires, refreshes, fails, drops, Reached, started, then_step, IsNewest, Spaced,
  IsShared,
}

released : (i j : ℕ) (lock : Option ℕ) → release i lock ≡ some j → (lock ≡ some j) × (j ≢ i)
released i j none h = cc h
released i j (some k) h = elim (Bool-cases (k == i)) [ inl e ↦ ground arith | inr e ↦ ground arith ]

unreleased : (i j : ℕ) (lock : Option ℕ) → lock ≡ some j → j ≢ i → release i lock ≡ some j
unreleased i j none h n = cc h
unreleased i j (some k) h n = elim (Bool-cases (k == i)) [
  | inl e ↦ ground arith
  | inr e ↦ ground arith
]

module _ {A : Type 0} (ttl : ℕ) where
  passes-IsStale :
      (cell : CacheCell A) (now d : ℕ) → IsStale ttl now cell → IsStale ttl (now + d) cell
  passes-IsStale none now d h = tt
  passes-IsStale (some (a, ts)) now d h = ground arith

  passes-IsNewest :
      (cell : CacheCell A) (stores : List ℕ) (now d : ℕ)
      → IsNewest cell stores now
      → IsNewest cell stores (now + d)
  passes-IsNewest none [] now d h = tt
  passes-IsNewest none (t ∷ ts) now d h = h
  passes-IsNewest (some (a, ts)) [] now d h = h
  passes-IsNewest (some (a, ts)) (t ∷ rest) now d h = (h.0, ground (arith, h.1))

  refreshes-Spaced :
      (cell : CacheCell A) (stores : List ℕ) (now : ℕ)
      → IsNewest cell stores now
      → IsStale ttl now cell
      → Spaced ttl stores
      → Spaced ttl (now ∷ stores)
  refreshes-Spaced none [] now new stale h = tt
  refreshes-Spaced none (t ∷ ts) now new stale h = elim new [ ]
  refreshes-Spaced (some (a, ts)) [] now new stale h = elim new [ ]
  refreshes-Spaced (some (a, ts)) (t ∷ rest) now new stale h = (ground (arith, new), h)

  -- The phase of another caller is untouched, and the own phase is the one set.
  set_cases :
      (i j : ℕ) (p : Phase A) (phase : ℕ → Phase A)
      → ((j ≡ i) × (set i p phase j ≡ p)) ⊎ ((j ≢ i) × (set i p phase j ≡ phase j))
  set_cases i j p phase = elim (Bool-cases (j == i)) [
    | inl e ↦ inl (ground arith, rw e refl)
    | inr e ↦ inr (ground arith, rw e refl)
  ]

  found-waiting : (o : Option A) → found waiting o ≢ working
  found-waiting none h = cc h
  found-waiting (some a) h = cc h

  reads-IsShared :
      (s : Shared A) (i : ℕ) (o : Option A)
      → IsShared ttl s
      → s.lock ≡ none
      → IsShared ttl (record s { phase = set i (found waiting o) s.phase })
  reads-IsShared s i o h free = record {
    working-lock = λ j w. elim (set_cases i j (found waiting o) s.phase) [
      | inl (e, q) ↦ absurd (found-waiting o (cc (w, q)))
      | inr (n, q) ↦ h.working-lock j (cc (w, q))
    ];
    lock-IsStale = h.lock-IsStale;
    cell-IsNewest = h.cell-IsNewest;
    stores-Spaced = h.stores-Spaced;
  }

  acquires-IsShared :
      (s : Shared A) (i : ℕ) (o : Option A)
      → IsShared ttl s
      → s.lock ≡ none
      → fresh ttl s.clock s.cell ≡ o
      → IsShared ttl (record s { phase = set i (found working o) s.phase; lock = held_by i o })
  acquires-IsShared s i none h free e = record {
    working-lock = λ j w. elim (set_cases i j working s.phase) [
      | inl (e', q) ↦ cc e'
      | inr (n, q) ↦ cc (h.working-lock j (cc (w, q)), free)
    ];
    lock-IsStale = λ j l. fresh-IsStale ttl s.clock s.cell e;
    cell-IsNewest = h.cell-IsNewest;
    stores-Spaced = h.stores-Spaced;
  }
  acquires-IsShared s i (some a) h free e = record {
    working-lock = λ j w. elim (set_cases i j (returned a) s.phase) [
      | inl (e', q) ↦ cc (w, q)
      | inr (n, q) ↦ cc (h.working-lock j (cc (w, q)), free)
    ];
    lock-IsStale = λ j l. cc l;
    cell-IsNewest = h.cell-IsNewest;
    stores-Spaced = h.stores-Spaced;
  }

  -- When the holder ends, nobody is at work.
  ends-nobody :
      (s : Shared A) (i j : ℕ) (p : Phase A)
      → IsShared ttl s
      → s.phase i ≡ working
      → p ≢ working
      → set i p s.phase j ≢ working
  ends-nobody s i j p h at n w = elim (set_cases i j p s.phase) [
    | inl (e, q) ↦ n (cc (w, q))
    | inr (m, q) ↦ m (ground (arith, h.working-lock i at, h.working-lock j (cc (w, q))))
  ]

  Step-IsShared : (s t : Shared A) → Step ttl s t → IsShared ttl s → IsShared ttl t
  Step-IsShared s _ (passes d) h = record {
    working-lock = h.working-lock;
    lock-IsStale = λ i l. passes-IsStale s.cell s.clock d (h.lock-IsStale i l);
    cell-IsNewest = passes-IsNewest s.cell s.stores s.clock d h.cell-IsNewest;
    stores-Spaced = h.stores-Spaced;
  }
  Step-IsShared s _ (reads i free at) h = reads-IsShared s i (fresh ttl s.clock s.cell) h free
  Step-IsShared s _ (acquires i free at) h =
      acquires-IsShared s i (fresh ttl s.clock s.cell) h free refl
  Step-IsShared s _ (refreshes i a at) h = record {
    working-lock = λ j w. absurd (ends-nobody s i j (returned a) h at (λ e. cc e) w);
    lock-IsStale = λ j l. cc l;
    cell-IsNewest = (refl, omega arith);
    stores-Spaced =
        refreshes-Spaced s.cell s.stores s.clock h.cell-IsNewest
          (h.lock-IsStale i (h.working-lock i at)) h.stores-Spaced;
  }
  Step-IsShared s _ (fails i at) h = record {
    working-lock = λ j w. absurd (ends-nobody s i j failed h at (λ e. cc e) w);
    lock-IsStale = λ j l. cc l;
    cell-IsNewest = h.cell-IsNewest;
    stores-Spaced = h.stores-Spaced;
  }
  Step-IsShared s _ (drops i) h = record {
    working-lock = λ j w. elim (set_cases i j idle s.phase) [
      | inl (e, q) ↦ cc (w, q)
      | inr (n, q) ↦ unreleased i j s.lock (h.working-lock j (cc (w, q))) n
    ];
    lock-IsStale = λ j l. h.lock-IsStale j (released i j s.lock l).0;
    cell-IsNewest = h.cell-IsNewest;
    stores-Spaced = h.stores-Spaced;
  }

  Reached-IsShared : {s : Shared A} → Reached ttl s → IsShared ttl s
  Reached-IsShared (started now) = record {
    working-lock = λ i w. cc w;
    lock-IsStale = λ i l. cc l;
    cell-IsNewest = tt;
    stores-Spaced = tt;
  }
  Reached-IsShared (then_step {s} {t} r step) = Step-IsShared s t step (Reached-IsShared r)

  -- However callers interleave and whenever some are dropped, at most one of them runs its
  -- initializer, only while the cell is stale, and each store comes at least the time to live after
  -- the store before it.
  pub Reached-single_flight :
      {s : Shared A}
      → Reached ttl s
      → ((i j : ℕ) → s.phase i ≡ working → s.phase j ≡ working → i ≡ j)
        × ((i : ℕ) → s.phase i ≡ working → IsStale ttl s.clock s.cell)
        × Spaced ttl s.stores
  Reached-single_flight {s} r =
      let h = Reached-IsShared r in
      (
        λ i j v w. ground (arith, h.working-lock i v, h.working-lock j w),
        λ i v. h.lock-IsStale i (h.working-lock i v),
        h.stores-Spaced,
      )
