-- ===== src/Cli/Platform/Reclaim.antt =====
-- Which path `bind_unix` may remove, seen in the record of its system calls.
use keyring_rs.Base.{
  ◌≡◌, refl, ◌⊎◌, inl, inr, Bool, true, false, List, [], ◌∷◌, ◌++◌, any, arith, Bool-cases,
}
use keyring_rs.Base.Text.{Text}
use keyring_rs.Base.Result.{Result, ok, err}
use keyring_rs.Cli.Platform.{
  IoError, Metadata, Probe, connected, connect_failed, probe_elapsed, Os, is_refused, is_in_use,
  unchanged, after_remove, after_recheck, after_probe, after_inspect, reclaim_stale_socket, rebind,
  after_listen, bind_unix,
}

-- A system call with its outcome.
pub data Call : Type 0 where
  listened : Bool → Call
  inspected : Result IoError Metadata → Call
  probed : Probe → Call
  removed : Result IoError (Unit {0}) → Call

abbrev pub is_removal : Call → Bool
is_removal (removed r) = true
is_removal _ = false

abbrev pub succeeded : {A : Type 0} → Result IoError A → Bool
succeeded (ok a) = true
succeeded (err e) = false

module _ {W : Type 0} where
  abbrev pub noting : {A : Type 0} → (A → Call) → A × W → List Call → A × (W × List Call)
  noting call (a, w) log = (a, (w, call a ∷ log))

-- The same system, with a record of the calls, the newest first.
abbrev pub logged : {W L : Type 0} → Os W L → Os (W × List Call) L
logged os = record {
  listen = λ path (w, log). noting (λ r. listened (succeeded r)) (os.listen path w) log;
  symlink_metadata = λ path (w, log). noting inspected (os.symlink_metadata path w) log;
  connect = λ path (w, log). noting probed (os.connect path w) log;
  remove_file = λ path (w, log). noting removed (os.remove_file path w) log;
}

-- How a record grows while a stale socket is reclaimed: without a removal, or by one removal that
-- follows an inspection that found a socket, a probe that was refused, and a second inspection
-- that found the same socket.
pub data Reclaimed (before after : List Call) : Type 0 where
  kept :
      (calls : List Call)
      → after ≡ calls ++ before
      → any is_removal calls ≡ false
      → Reclaimed before after
  stale :
      (original current : Metadata) (e : IoError) (r : Result IoError (Unit {0}))
      → original.is_socket ≡ true
      → is_refused e.kind ≡ true
      → unchanged original current ≡ true
      → after
        ≡ removed r
          ∷ inspected (ok current)
          ∷ probed (connect_failed e)
          ∷ inspected (ok original)
          ∷ before
      → Reclaimed before after

module _ {W L : Type 0} (os : Os W L) (path : Text) where
  after_remove-log :
      (r : Result IoError (Unit {0})) (w : W) (log : List Call)
      → (after_remove (logged os) path (r, (w, log))).1.1 ≡ log
  unfolding after_remove
  after_remove-log (ok u) w log = refl
  after_remove-log (err e) w log = ground arith

  after_recheck-log :
      (original : Metadata) (e : IoError) (r : Result IoError Metadata) (w : W) (log : List Call)
      → original.is_socket ≡ true
      → is_refused e.kind ≡ true
      → Reclaimed log
          (after_recheck
            (logged os)
            path
            original
            (r, (w, inspected r ∷ probed (connect_failed e) ∷ inspected (ok original) ∷ log))).1.1
  unfolding after_recheck
  after_recheck-log original e (ok current) w log s f =
      elim (Bool-cases (unchanged original current)) [
        | inl same ↦ rw same (
            stale original current e (os.remove_file path w).0 s f same
              (after_remove-log (os.remove_file path w).0 (os.remove_file path w).1 _))
        | inr differ ↦ rw differ (
            kept (inspected (ok current) ∷ probed (connect_failed e) ∷ inspected (ok original) ∷ [])
              refl refl)
      ]
  after_recheck-log original e (err x) w log s f =
      kept (inspected (err x) ∷ probed (connect_failed e) ∷ inspected (ok original) ∷ [])
        (ground arith) refl

  after_probe-log :
      (original : Metadata) (p : Probe) (w : W) (log : List Call)
      → original.is_socket ≡ true
      → Reclaimed log
          (after_probe
            (logged os)
            path
            original
            (p, (w, probed p ∷ inspected (ok original) ∷ log))).1.1
  unfolding after_probe
  after_probe-log original connected w log s =
      kept (probed connected ∷ inspected (ok original) ∷ []) refl refl
  after_probe-log original (connect_failed e) w log s = elim (Bool-cases (is_refused e.kind)) [
    | inl refused ↦ rw refused (
        after_recheck-log original e (os.symlink_metadata path w).0 (os.symlink_metadata path w).1
          log s refused)
    | inr other ↦
        rw other
          (kept (probed (connect_failed e) ∷ inspected (ok original) ∷ []) (ground arith) refl)
  ]
  after_probe-log original probe_elapsed w log s =
      kept (probed probe_elapsed ∷ inspected (ok original) ∷ []) refl refl

  after_inspect-log :
      (r : Result IoError Metadata) (w : W) (log : List Call)
      → Reclaimed log (after_inspect (logged os) path (r, (w, inspected r ∷ log))).1.1
  unfolding after_inspect
  after_inspect-log (ok m) w log = elim (Bool-cases m.is_socket) [
    | inl socket ↦
        simp socket (after_probe-log m (os.connect path w).0 (os.connect path w).1 log socket)
    | inr other ↦ simp other (kept (inspected (ok m) ∷ []) refl refl)
  ]
  after_inspect-log (err e) w log = kept (inspected (err e) ∷ []) (ground arith) refl

  reclaim-log :
      (w : W) (log : List Call) → Reclaimed log (reclaim_stale_socket (logged os) path (w, log)).1.1
  unfolding reclaim_stale_socket
  reclaim-log w log =
      after_inspect-log (os.symlink_metadata path w).0 (os.symlink_metadata path w).1 log

  -- The record of a whole bind: one attempt; or a failed attempt, the reclaiming of the path, and
  -- at most one more attempt.
  abbrev pub BindLog : List Call → Type 0
  BindLog log =
      ((b : Bool) × (log ≡ listened b ∷ []))
      ⊎ ((middle : List Call) × Reclaimed (listened false ∷ []) middle
          × ((log ≡ middle) ⊎ ((b : Bool) × (log ≡ listened b ∷ middle))))

  rebind-log :
      (e : IoError) (r : Result IoError Bool) (w : W) (log : List Call)
      → Reclaimed (listened false ∷ []) log
      → BindLog (rebind (logged os) path e (r, (w, log))).1.1
  rebind-log e (ok true) w log c = inr (log, c, inr (succeeded (os.listen path w).0, refl))
  rebind-log e (ok false) w log c = inr (log, c, inl refl)
  rebind-log e (err x) w log c = inr (log, c, inl refl)

  after_listen-log :
      (r : Result IoError L) (w : W)
      → BindLog (after_listen (logged os) path (r, (w, listened (succeeded r) ∷ []))).1.1
  after_listen-log (ok l) w = inl (true, refl)
  after_listen-log (err e) w = elim (Bool-cases (is_in_use e.kind)) [
    | inr other ↦ rw other (inl (false, refl))
    | inl in_use ↦ rw in_use (rebind-log e _ _ _ (reclaim-log w (listened false ∷ [])))
  ]

  -- A bind removes the path at most once, and only after an attempt that failed, an inspection that
  -- found a socket, a probe that was refused, and a second inspection that found the same socket.
  -- After a removal there is one more attempt at most.
  pub bind_unix-log : (w : W) → BindLog (bind_unix (logged os) path (w, [])).1.1
  unfolding bind_unix
  bind_unix-log w = after_listen-log (os.listen path w).0 (os.listen path w).1
