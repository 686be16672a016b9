-- ===== src/Tests/Core.antt =====
-- The cache of crates/keyring-core on short histories.
use keyring_rs.Base.{ℕ, ◌+◌, ◌-◌, ◌<◌, ◌≡◌, refl, some, [], arith}
use keyring_rs.Base.Result.{ok, err, Run}
use keyring_rs.Core.Cell.{CacheCell, fresh, get_or_try_init}
use keyring_rs.Core.Cell.Laws.{IsStale, Outcome, get_or_try_init-Outcome, get_or_try_init-reuse}
use keyring_rs.Core.Cell.Sharing.{
  waiting, working, Shared, set, begin, Reached, started, then_step, reads, acquires, Spaced,
}
use keyring_rs.Core.Cell.Sharing.Solo.{Ends, get_or_try_init-Ends}
use keyring_rs.Core.Cell.Sharing.Flight.{Reached-single_flight}

-- The world is the time. A refresh takes 2, and the lock is free at once.
abbrev now : ℕ → ℕ
now t = t

abbrev at_once : CacheCell ℕ × ℕ → CacheCell ℕ × ℕ
at_once st = st

abbrev seven : Run ℕ ℕ ℕ
seven t = (ok 7, t + 2)

abbrev broken : Run ℕ ℕ ℕ
broken t = (err 3, t + 2)

keeps_old_entry :
    get_or_try_init now at_once 5 broken (some (7, 10), 15) ≡ (err 3, (some (7, 10), 17))
unfolding get_or_try_init fresh
keeps_old_entry = refl

get_or_try_init-Outcome_example :
    Outcome now at_once 5 seven
      (some (6, 10))
      15
      (get_or_try_init now at_once 5 seven (some (6, 10), 15))
get_or_try_init-Outcome_example = get_or_try_init-Outcome now at_once 5 seven (some (6, 10)) 15

seven_is_reused :
    (get_or_try_init now at_once 5 seven (some (6, 10), 15) ≡ (ok 7, (some (7, 17), 17)))
    × ((later : ℕ)
        → later - 17 < 5
        → get_or_try_init now at_once 5 broken (some (7, 17), later)
          ≡ (ok 7, (some (7, 17), later)))
seven_is_reused =
    get_or_try_init-reuse now at_once 5 seven broken (some (6, 10)) 15 7 (some (6, 10)) 15 17
      (omega arith) refl (omega arith) refl

-- Two callers miss, and one of them takes the lock.
abbrev both_missed : Shared ℕ
both_missed = record (begin 100) { phase = set 1 waiting (set 0 waiting (begin 100).phase) }

both_missed-Reached : Reached 5 both_missed
unfolding fresh
both_missed-Reached = then_step (then_step (started 100) (reads 0 refl refl)) (reads 1 refl refl)

abbrev one_works : Shared ℕ
one_works = record both_missed { phase = set 0 working both_missed.phase; lock = some 0 }

one_works-Reached : Reached 5 one_works
unfolding fresh
one_works-Reached = then_step both_missed-Reached (acquires 0 refl refl)

Reached-single_flight_example :
    ((i j : ℕ) → one_works.phase i ≡ working → one_works.phase j ≡ working → i ≡ j)
    × ((i : ℕ) → one_works.phase i ≡ working → IsStale 5 100 one_works.cell)
    × Spaced 5 []
Reached-single_flight_example = Reached-single_flight 5 one_works-Reached

get_or_try_init-Ends_example :
    Ends 5 0 (begin 100) (get_or_try_init now at_once 5 seven ((begin 100).cell, 100))
get_or_try_init-Ends_example =
    get_or_try_init-Ends 5 0 (begin 100) seven refl refl (λ t. omega arith)
