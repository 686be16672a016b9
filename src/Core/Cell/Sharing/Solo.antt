-- ===== src/Core/Cell/Sharing/Solo.antt =====
-- A call of `get_or_try_init` takes the steps of a caller.
use keyring_rs.Base.{
  ℕ, ◌+◌, ◌-◌, ◌≤◌, ◌≡◌, refl, ap, ◌∙◌, inl, inr, ==_refl, none, some, Option-cases, ◌∷◌, arith,
}
use keyring_rs.Base.Result.{Result, ok, err, Run}
use keyring_rs.Core.Cell.{CacheCell, fresh, store, slow_path, get_or_try_init}
use keyring_rs.Core.Cell.Sharing.{
  Phase, idle, waiting, working, failed, returned, Shared, set, found, held_by, Step, passes, reads,
  acquires, refreshes, fails,
}

pub data Steps {A : Type 0} (ttl : ℕ) (s : Shared A) : Shared A → Type 0 where
  stays : Steps ttl s s
  goes_on : {t u : Shared A} → Steps ttl s t → Step ttl t u → Steps ttl s u

abbrev pub outcome : {E A : Type 0} → Result E A → Phase A
outcome (ok a) = returned a
outcome (err e) = failed

-- The world of the call is the time.
abbrev now : ℕ → ℕ
now t = t

abbrev alone : {A : Type 0} → CacheCell A × ℕ → CacheCell A × ℕ
alone st = st

set_same : {A : Type 0} (i : ℕ) (p : Phase A) (phase : ℕ → Phase A) → set i p phase i ≡ p
set_same i p phase = rw (==_refl i) refl

waited : (t w : ℕ) → t ≤ w → t + (w - t) ≡ w
waited t w h = omega (arith, h)

module _ {A E : Type 0} (ttl i : ℕ) where
  -- Where steps from `s` lead that do what a call with the result `r` does.
  pub record Ends (s : Shared A) (r : Result E A × (CacheCell A × ℕ)) : Type 0 where
    pub last : Shared A
    pub steps : Steps ttl s last
    pub same_cell : last.cell ≡ r.1.0
    pub same_clock : last.clock ≡ r.1.1
    pub unlocked : last.lock ≡ none
    pub same_outcome : last.phase i ≡ outcome r.0

  -- From a state in which the caller works: time passes, and it ends.
  works-Ends :
      (s t : Shared A) (r : Result E A × ℕ)
      → Steps ttl s t
      → t.phase i ≡ working
      → t.clock ≤ r.1
      → Ends s (store now alone t.cell r)
  unfolding store
  works-Ends s t (ok a, w) st at later =
      let u : Shared A = record t { clock = t.clock + (w - t.clock) } in
      record {
        last = record u {
          phase = set i (returned a) u.phase;
          lock = none;
          cell = some (a, u.clock);
          stores = u.clock ∷ u.stores;
        };
        steps = goes_on (goes_on st (passes (w - t.clock))) (refreshes i a at);
        same_cell = ap (λ c. some (a, c)) (waited t.clock w later);
        same_clock = waited t.clock w later;
        unlocked = refl;
        same_outcome = set_same i (returned a) u.phase;
      }
  works-Ends s t (err e, w) st at later =
      let u : Shared A = record t { clock = t.clock + (w - t.clock) } in
      record {
        last = record u { phase = set i failed u.phase; lock = none };
        steps = goes_on (goes_on st (passes (w - t.clock))) (fails i at);
        same_cell = refl;
        same_clock = waited t.clock w later;
        unlocked = refl;
        same_outcome = set_same i failed u.phase;
      }

  -- A call of `get_or_try_init` by an idle caller, with the lock free and nobody else at work, is a run
  -- of steps of the relation: it leads to the cell and the time of the call, with the lock free and
  -- the caller in the phase of the result.
  pub get_or_try_init-Ends :
      (s : Shared A) (f : Run ℕ E A)
      → s.lock ≡ none
      → s.phase i ≡ idle
      → ((t : ℕ) → t ≤ (f t).1)
      → Ends s (get_or_try_init now alone ttl f (s.cell, s.clock))
  unfolding get_or_try_init slow_path
  get_or_try_init-Ends s f free at later =
      let o = fresh ttl s.clock s.cell in
      let s1 : Shared A = record s { phase = set i (found waiting o) s.phase } in
      let read : Steps ttl s s1 = goes_on stays (reads i free at) in
      elim (Option-cases o) [
        | inr (a, e) ↦
            rw (get_or_try_init, e)
              (record {
                last = s1;
                steps = read;
                same_cell = refl;
                same_clock = refl;
                unlocked = free;
                same_outcome = set_same i (found waiting o) s.phase ∙ ap (found waiting) e;
              })
        | inl e ↦
            let at1 = set_same i (found waiting o) s.phase ∙ ap (found waiting) e in
            let s2 : Shared A = record s1 {
              phase = set i (found working o) s1.phase;
              lock = held_by i o;
            } in
            let at2 = set_same i (found working o) s1.phase ∙ ap (found working) e in
            rw (get_or_try_init, e)
              (rw (slow_path, e)
                (works-Ends s s2 (f s.clock) (goes_on read (acquires i free at1)) at2
                  (later s.clock)))
      ]
