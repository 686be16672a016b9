-- ===== src/Base/Fmt.antt =====
-- `std::fmt::DebugStruct`: what an implementation of `Debug` hands to the formatter.
use Prim.Native.Nat.{ℕ}
use mathlib.Core.Bool.{Bool}
use mathlib.Core.List.{List}
use keyring_rs.Base.Text.{Text}

-- A value that is printed by `Debug`; a string is put in quotes.
pub data Shown : Type 0 where
  quoted : Text → Shown
  number : ℕ → Shown
  boolean : Bool → Shown

-- `finish`, or `finish_non_exhaustive` where fields are left out.
pub record DebugStruct : Type 0 where
  pub name : Text
  pub fields : List (Text × Shown)
  pub exhaustive : Bool
