-- ===== src/Cli/Serve/Shutdown.antt =====
-- The end of `serve`: what becomes of the tasks that run when a shutdown signal ends the loop.
use mathlib.Core.List.{Perm}
use mathlib.Core.List.Perm
use keyring_rs.Base.{
  ℕ, zero, suc, ◌≡◌, refl, sym, ◌≤◌, length, ◌≢◌, inl, inr, true, false, List, [], ◌∷◌, ◌++◌, All,
  Option, none, some, any, get_elem?, subst, Bool-cases, Option-cases,
}
use keyring_rs.Cli.Serve.{
  Job, Service, Ready, DrainEvent, ended, elapsed, remove_at, break, turns, start, drain, finish,
}
use keyring_rs.Cli.Serve.Turns.{Holds_at}
use keyring_rs.Cli.Serve.Generations.{Fits, IsGeneration, turns-IsGeneration, finish-stopped}
use keyring_rs.Cli.Serve.Draining.{is_elapsed, joins, Valid, drain_ends, drain_in_time}

module _ {J : Type 0} where
  abbrev add : Option J → List J → List J
  add none js = js
  add (some j) js = j ∷ js

  -- The tasks that join before the time is over, in order.
  unfoldable pub joined_jobs : List DrainEvent → List J → List J
  joined_jobs es [] = []
  joined_jobs [] (j ∷ js) = []
  joined_jobs (elapsed ∷ es) (j ∷ js) = []
  joined_jobs (ended i o ∷ es) (j ∷ js) =
      add (get_elem? (j ∷ js) i) (joined_jobs es (remove_at i (j ∷ js)))

  add-append : (o : Option J) (js ks : List J) → add o js ++ ks ≡ add o (js ++ ks)
  add-append none js ks = refl
  add-append (some j) js ks = refl

  add-Perm : (o : Option J) {js ks : List J} → Perm js ks → Perm (add o js) (add o ks)
  add-Perm none p = p
  add-Perm (some j) p = Perm.cons j p

  add-cons : (o : Option J) (j : J) (js : List J) → Perm (j ∷ add o js) (add o (j ∷ js))
  add-cons none j js = Perm.refl (j ∷ js)
  add-cons (some k) j js = Perm.swap k j js

  remove_at-Perm : (i : ℕ) (js : List J) → Perm js (add (get_elem? js i) (remove_at i js))
  remove_at-Perm i [] = Perm.nil
  remove_at-Perm zero (j ∷ js) = Perm.refl (j ∷ js)
  remove_at-Perm (suc i) (j ∷ js) =
      Perm.trans (Perm.cons j (remove_at-Perm i js)) (add-cons (get_elem? js i) j (remove_at i js))

  drain-Perm :
      (es : List DrainEvent) (js left : List J)
      → drain es js ≡ some left
      → Perm js (joined_jobs es js ++ left)
  unfolding drain joined_jobs
  drain-Perm es [] left h = subst (Perm []) (cc h) Perm.nil
  drain-Perm [] (j ∷ js) left h = cc
  drain-Perm (elapsed ∷ es) (j ∷ js) left h = subst (Perm (j ∷ js)) (cc h) (Perm.refl (j ∷ js))
  drain-Perm (ended i o ∷ es) (j ∷ js) left h =
      let joined = get_elem? (j ∷ js) i in
      let more = joined_jobs es (remove_at i (j ∷ js)) in
      subst (Perm (j ∷ js)) (sym (add-append joined more left)) (
        Perm.trans (remove_at-Perm i (j ∷ js))
          (add-Perm joined (drain-Perm es (remove_at i (j ∷ js)) left h)))

  drain-cancels :
      (es : List DrainEvent) (js left : List J)
      → drain es js ≡ some left
      → left ≢ []
      → any is_elapsed es ≡ true
  drain-cancels es js left h some_left = elim (Bool-cases (any is_elapsed es)) [
    | inl over ↦ over
    | inr early ↦ elim (drain_in_time es js early) [
      | inl e ↦ cc (e, h)
      | inr e ↦ absurd (some_left (cc (e, h)))
    ]
  ]

  drain_returns :
      (es : List DrainEvent) (js : List J)
      → any is_elapsed es ≡ true
      → (left : List J) × (drain es js ≡ some left)
  drain_returns es js over = elim (Option-cases (drain es js)) [
    | inl none' ↦ absurd ((drain_ends es js).0 over none')
    | inr found ↦ found
  ]

-- What `serve` does with the tasks, between the end of its loop and its return.
pub record Drained {A C : Type 0} (es : List DrainEvent) (s : Service A C) (left : List (Job A C))
    : Type 0 where
  -- each task has been told to stop, whatever generation it is of
  pub told : All (λ j. (finish es s).0.stopped j.stop ≡ true) s.jobs
  -- each task has joined or is cancelled, and not both
  pub ended_once : Perm s.jobs (joined_jobs es s.jobs ++ left)
  -- none is cancelled before the time is over
  pub in_time : left ≢ [] → any is_elapsed es ≡ true

module _ {A C : Type 0} where
  told_all :
      (es : List DrainEvent) (s : Service A C)
      → IsGeneration s
      → (js : List (Job A C)) → All (Fits s.agent s.stop) js
      → All (λ j. (finish es s).0.stopped j.stop ≡ true) js
  told_all es s g [] h = tt
  told_all es s g (j ∷ js) h = (finish-stopped es s g j.stop h.0.0, told_all es s g js h.1)

module _ {A C E : Type 0} where
  -- When a shutdown signal has ended the loop, whatever came before: each running task, of any
  -- generation, is told to stop, and either joins or is cancelled, never both; none is cancelled
  -- before the time is over. Once the time is over, or all tasks have joined, `serve` returns;
  -- builds are not waited for.
  pub finish-Drained :
      (rs : List (Ready A C E)) (agent : A) (s : Service A C) (es : List DrainEvent)
      → turns rs (start agent) ≡ break s
      → ((left : List (Job A C)) → (finish es s).1 ≡ some left → Drained es s left)
        × (any is_elapsed es ≡ true → (left : List (Job A C)) × ((finish es s).1 ≡ some left))
        × (Valid es s.jobs
            → length s.jobs ≤ joins es
            → any is_elapsed es ≡ false
            → (finish es s).1 ≡ some [])
  unfolding finish
  finish-Drained rs agent s es h =
      let g =
        Holds_at IsGeneration (turns rs (start agent)) s (inr h) (turns-IsGeneration rs agent) in
      (
        λ left e. record {
          told = told_all es s g s.jobs g.fits;
          ended_once = drain-Perm es s.jobs left e;
          in_time = drain-cancels es s.jobs left e;
        },
        λ over. drain_returns es s.jobs over,
        λ valid enough early. ((drain_ends es s.jobs).1 early).1 valid enough,
      )
