-- ===== src/Cli/NamedPipe/Instances.antt =====
-- The pipe instances that a Windows listener hands out over a run of accepts.
use keyring_rs.Base.{ℕ, zero, suc, ◌≡◌, ◌≢◌, refl, All, List, [], ◌∷◌}
use keyring_rs.Base.Text.{Text}
use keyring_rs.Base.Result.{Done, Result, ok, err}
use keyring_rs.Cli.NamedPipe.{Windows, PipeListener, replace_inner, after_connect, accept_pipe}

abbrev pub Distinct : {P : Type 0} → List P → Type 0
Distinct [] = Unit
Distinct (p ∷ ps) = All (λ q. p ≢ q) ps × Distinct ps

-- What Windows promises of instances: `Issued w p` says that `p` exists. A new instance is not one of
-- those that exist, and an instance does not go away while it is held.
pub record Instances {W P E : Type 0} (win : Windows W P E) (Issued : W → P → Type 0) : Type 0 where
  pub fresh : (path : Text) (w : W) (p q : P) → (win.create path w).0 ≡ ok p → Issued w q → p ≢ q
  pub issued :
      (path : Text) (w : W) (p : P) → (win.create path w).0 ≡ ok p → Issued (win.create path w).1 p
  pub create_keeps : (path : Text) (w : W) (q : P) → Issued w q → Issued (win.create path w).1 q
  pub connect_keeps : (p : P) (w : W) (q : P) → Issued w q → Issued (win.connect p w).1 q

All_weaken :
    {P : Type 0} {Q R : P → Type 0} → ((p : P) → Q p → R p) → (ps : List P) → All Q ps → All R ps
All_weaken f [] h = tt
All_weaken f (p ∷ ps) h = (f p h.0, All_weaken f ps h.1)

-- The connections that a run of accepts hands out, the newest first; a failed accept hands out none.
abbrev pub hand : {P E : Type 0} → Result E P → List P → List P
hand (ok p) ps = p ∷ ps
hand (err e) ps = ps

module _ {W P E : Type 0} (win : Windows W P E) where
  unfoldable pub accepts : ℕ → List P → PipeListener P × W → List P × (PipeListener P × W)
  unfolding accept_pipe
  accepts zero handed s = (handed, s)
  accepts (suc n) handed s = let r = accept_pipe win s in accepts n (hand r.0 handed) r.1

  module _ (Issued : W → P → Type 0) (laws : Instances win Issued) where
    abbrev pub Held : List P → PipeListener P × W → Type 0
    Held handed s = Distinct (s.0.inner ∷ handed) × All (λ p. Issued s.1 p) (s.0.inner ∷ handed)

    replace_inner-Held :
        (l : PipeListener P) (handed : List P) (w : W) (r : Result E P × W)
        → Held handed (l, w)
        → ((p q : P) → r.0 ≡ ok p → Issued w q → p ≢ q)
        → ((p : P) → r.0 ≡ ok p → Issued r.1 p)
        → ((q : P) → Issued w q → Issued r.1 q)
        → let r' = replace_inner l r in Held (hand r'.0 handed) r'.1
    unfolding replace_inner
    replace_inner-Held l handed w (err e, w') h fresh issued keeps =
        (h.0, All_weaken keeps (l.inner ∷ handed) h.1)
    replace_inner-Held l handed w (ok p, w') h fresh issued keeps = (
      (All_weaken (λ q. fresh p q refl) (l.inner ∷ handed) h.1, h.0),
      (issued p refl, All_weaken keeps (l.inner ∷ handed) h.1),
    )

    after_connect-Held :
        (l : PipeListener P) (handed : List P) (r : Result E Done × W)
        → Held handed (l, r.1)
        → let r' = after_connect win l r in Held (hand r'.0 handed) r'.1
    unfolding after_connect
    after_connect-Held l handed (ok u, w) h =
        replace_inner-Held l handed w (win.create l.path w) h (laws.fresh l.path w)
          (laws.issued l.path w) (laws.create_keeps l.path w)
    after_connect-Held l handed (err e, w) h = h

    -- However many clients a Windows listener accepts, and whichever accepts fail, the pipe instances
    -- it has handed out are pairwise different, and the instance it waits on is none of them.
    pub accepts-Held :
        (n : ℕ) (handed : List P) (s : PipeListener P × W)
        → Held handed s
        → Held (accepts n handed s).0 (accepts n handed s).1
    unfolding accepts accept_pipe
    accepts-Held zero handed s h = h
    accepts-Held (suc n) handed s h =
        let r = accept_pipe win s in
        accepts-Held n (hand r.0 handed) r.1 (
          after_connect-Held s.0 handed (win.connect s.0.inner s.1)
            (h.0, All_weaken (laws.connect_keeps s.0.inner s.1) (s.0.inner ∷ handed) h.1))
