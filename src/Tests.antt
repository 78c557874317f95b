-- ===== src/Tests.antt =====
-- The theorems at concrete inputs.
mod Segments
mod Indexes
mod Caches
mod Loads
mod Meters
mod Workers
mod Stored
mod Units
use pacecache.Prelude.{Result, ok, panic, ◌≡◌, sym, ap, subst}

-- The result, or the default on a panic.
abbrev pub or_default {ℓ} : {A : Type ℓ} → A → Result A → A
or_default d (ok a) = a
or_default d panic = d

pub at_result {ℓ κ} :
    {A : Type ℓ} (P : A → Type κ) (d : A) (r : Result A) (a : A)
    → r ≡ ok a
    → P a
    → P (or_default d r)
at_result P d r a e p = subst P (sym (ap (or_default d) e)) p
