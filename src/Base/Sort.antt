-- ===== src/Base/Sort.antt =====
-- A stable sort by a key, and why its result does not depend on the order of the input.
use Prim.Native.Nat.{Ordering}
use mathlib.Core.Path.{◌≡◌, refl, ◌∙◌}
use mathlib.Core.HLevel.{⊥_prop}
use mathlib.Core.Logic.{◌≢◌, ∥∥₁_elim}
use mathlib.Core.Logic.Or
use mathlib.Core.Bool.{Bool, true, false}
use mathlib.Core.List.{
  List, [], ◌∷◌, map, Mem, Nodup, Nodup-cons, Nodup-nil, Permᴰ, Perm, mem-cons, mem-cons_self,
  not-mem-nil,
}
use mathlib.Core.List.Perm
use native.Mathlib.Omega.{arith}
use keyring_rs.Base.Tests.{if◌then◌else◌}
use keyring_rs.Base.Lists.{All}

-- What `Ord` documents of `cmp`.
pub record IsTotalOrder {D : Type 0} (cmp : D → D → Ordering) : Type 0 where
  pub eq_of_cmp : (a b : D) → cmp a b ≡ Ordering.eq → a ≡ b
  pub cmp_refl : (a : D) → cmp a a ≡ Ordering.eq
  pub gt_flip : (a b : D) → cmp a b ≡ Ordering.gt → cmp b a ≡ Ordering.lt
  pub lt_flip : (a b : D) → cmp a b ≡ Ordering.lt → cmp b a ≡ Ordering.gt
  pub lt_trans : (a b c : D) → cmp a b ≡ Ordering.lt → cmp b c ≡ Ordering.lt → cmp a c ≡ Ordering.lt

abbrev pub is_gt : Ordering → Bool
is_gt Ordering.gt = true
is_gt _ = false

module _ {A D : Type 0} (key : A → D) where
  -- No key occurs twice.
  abbrev pub Distinct : List A → Type 0
  Distinct [] = Unit
  Distinct (x ∷ xs) = All (λ y. key x ≢ key y) xs × Distinct xs

  not-mem-map : (d : D) (xs : List A) → All (λ y. d ≢ key y) xs → ¬ Mem d (map key xs)
  not-mem-map d [] h m = not-mem-nil m
  not-mem-map d (x ∷ xs) h m = Or.elim ⊥_prop (mem-cons.0 m) h.0 (not-mem-map d xs h.1)

  pub Nodup-Distinct : (xs : List A) → Distinct xs → Nodup (map key xs)
  Nodup-Distinct [] h = Nodup-nil
  Nodup-Distinct (x ∷ xs) h = Nodup-cons.1 (not-mem-map (key x) xs h.0, Nodup-Distinct xs h.1)

module _ {A D : Type 0} (key : A → D) (cmp : D → D → Ordering) where
  -- Before the first element that is not smaller, so that equal elements keep their order.
  unfoldable pub insert_sorted : A → List A → List A
  insert_sorted x [] = x ∷ []
  insert_sorted x (y ∷ ys) =
      let rest = insert_sorted x ys in if is_gt (cmp (key x) (key y)) then y ∷ rest else x ∷ y ∷ ys

  -- `Itertools::sorted_by` on the key: a stable sort.
  unfoldable pub sorted_by : List A → List A
  unfolding insert_sorted
  sorted_by [] = []
  sorted_by (x ∷ xs) = insert_sorted x (sorted_by xs)

  abbrev pub Ascending : List A → Type 0
  Ascending [] = Unit
  Ascending (x ∷ xs) = All (λ y. cmp (key x) (key y) ≡ Ordering.lt) xs × Ascending xs

  All-insert_sorted :
      (P : A → Type 0) (x : A) (l : List A) → P x → All P l → All P (insert_sorted x l)
  unfolding insert_sorted
  All-insert_sorted P x [] h t = (h, tt)
  All-insert_sorted P x (y ∷ l) h t = ground (arith, All-insert_sorted P x l h t.1)

  pub All-sorted_by : (P : A → Type 0) (l : List A) → All P l → All P (sorted_by l)
  unfolding sorted_by
  All-sorted_by P [] h = tt
  All-sorted_by P (x ∷ l) h = All-insert_sorted P x (sorted_by l) h.0 (All-sorted_by P l h.1)

  insert_sorted-perm : (x : A) (l : List A) → Perm (insert_sorted x l) (x ∷ l)
  unfolding insert_sorted
  insert_sorted-perm x [] = Perm.refl (x ∷ [])
  insert_sorted-perm x (y ∷ l) =
      let later = Perm.trans (Perm.cons y (insert_sorted-perm x l)) (Perm.swap x y l) in
      ground (arith, later, Perm.refl (x ∷ y ∷ l))

  pub sorted_by-perm : (l : List A) → Perm (sorted_by l) l
  unfolding sorted_by
  sorted_by-perm [] = Perm.refl []
  sorted_by-perm (x ∷ l) =
      Perm.trans (insert_sorted-perm x (sorted_by l)) (Perm.cons x (sorted_by-perm l))

  module _ (order : IsTotalOrder cmp) where
    open order use {eq_of_cmp, cmp_refl, gt_flip, lt_flip, lt_trans}

    insert_sorted_comm :
        (x y : A) (l : List A)
        → key x ≢ key y
        → insert_sorted x (insert_sorted y l) ≡ insert_sorted y (insert_sorted x l)
    unfolding insert_sorted
    insert_sorted_comm x y [] h =
        ground (arith, eq_of_cmp (key x) (key y), gt_flip (key x) (key y), lt_flip (key x) (key y))
    insert_sorted_comm x y (z ∷ l) h = ground (
      arith,
      insert_sorted_comm x y l h,
      eq_of_cmp (key x) (key y),
      gt_flip (key x) (key y),
      lt_flip (key x) (key y),
      eq_of_cmp (key x) (key z),
      gt_flip (key x) (key z),
      eq_of_cmp (key y) (key z),
      gt_flip (key y) (key z),
      lt_trans (key x) (key z) (key y),
      lt_trans (key y) (key z) (key x),
    )

    -- Inputs that hold the same elements, with distinct keys, are sorted alike.
    sorted_by-Permᴰ :
        {xs ys : List A} → Permᴰ xs ys → Nodup (map key xs) → sorted_by xs ≡ sorted_by ys
    unfolding sorted_by
    sorted_by-Permᴰ Permᴰ.nil n = refl
    sorted_by-Permᴰ (Permᴰ.cons e p) n = cc (e, sorted_by-Permᴰ p (Nodup-cons.0 n).1)
    sorted_by-Permᴰ (Permᴰ.swap {a = a} {b = b} {l = l} e f) n =
        rw (← e, ← f)
          (insert_sorted_comm a b (sorted_by l)
            λ same. (Nodup-cons.0 n).0 (rw same (mem-cons_self)))
    sorted_by-Permᴰ (Permᴰ.trans p q) n =
        sorted_by-Permᴰ p n ∙ sorted_by-Permᴰ q (Perm.nodup (Perm.map key ∣ p ∣₁) n)

    All-lt_trans :
        (d : D) (y : A) (l : List A)
        → cmp d (key y) ≡ Ordering.lt
        → All (λ z. cmp (key y) (key z) ≡ Ordering.lt) l
        → All (λ z. cmp d (key z) ≡ Ordering.lt) l
    All-lt_trans d y [] h t = tt
    All-lt_trans d y (z ∷ l) h t = (lt_trans d (key y) (key z) h t.0, All-lt_trans d y l h t.1)

    insert_sorted-Ascending :
        (x : A) (l : List A)
        → All (λ y. key x ≢ key y) l
        → Ascending l
        → Ascending (insert_sorted x l)
    unfolding insert_sorted
    insert_sorted-Ascending x [] n s = (tt, tt)
    insert_sorted-Ascending x (y ∷ l) n s = ground (
      arith,
      eq_of_cmp (key x) (key y),
      gt_flip (key x) (key y),
      insert_sorted-Ascending x l n.1 s.1,
      All-lt_trans (key x) y l,
      All-insert_sorted (λ (z : A). cmp (key y) (key z) ≡ Ordering.lt) x l,
    )

    -- The result ascends strictly, if no two elements share a key.
    pub sorted_by-Ascending : (l : List A) → Distinct key l → Ascending (sorted_by l)
    unfolding sorted_by
    sorted_by-Ascending [] h = tt
    sorted_by-Ascending (x ∷ l) h =
        insert_sorted-Ascending x (sorted_by l) (All-sorted_by (λ y. key x ≢ key y) l h.0)
          (sorted_by-Ascending l h.1)

    pub sorted_by-Perm :
        IsSet A → {xs ys : List A} → Distinct key xs → Perm xs ys → sorted_by xs ≡ sorted_by ys
    sorted_by-Perm set {xs} {ys} h p =
        ∥∥₁_elim p (hlevel set) λ q. sorted_by-Permᴰ q (Nodup-Distinct key xs h)
