-- ===== src/Prelude/GoMap.antt =====
-- A Go map: what it holds under each key, and its `len`.
use Prim.Native.Nat.{ℕ, suc, ◌-◌}
use mathlib.Core.Logic.{ite}
use mathlib.Core.Option.{Option, none, some}

pub record GoMap (K V : Type 0) : Type 0 where
  pub at : K → Option V
  pub len : ℕ

module _ {K V : Type 0} where
  abbrev pub empty : GoMap K V
  empty = record { at = λ _. none; len = 0 }

module _ {K V : Type 0} (dec : Discrete K) where
  -- `m[k] = v`
  unfoldable pub insert : GoMap K V → K → V → GoMap K V
  insert m k v = record {
    at = λ j. ite (dec k j) (some v) (m.at j);
    len = elim (m.at k) [ none ↦ suc m.len | some _ ↦ m.len ];
  }

  -- `delete(m, k)`
  unfoldable pub delete : GoMap K V → K → GoMap K V
  delete m k = record {
    at = λ j. ite (dec k j) none (m.at j);
    len = elim (m.at k) [ none ↦ m.len | some _ ↦ m.len - 1 ];
  }
