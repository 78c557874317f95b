-- ===== src/Types.antt =====
-- The results of loads in types.go.
use pacecache.Prelude.{ℕ, Bool, true, false, Option, none, some}
use pacecache.Errors.{Error}
use pacecache.Segment.{CachedEntry}

-- The value is `none` for the zero value, which goes with `found = false`.
pub record LoadResult (V : Type 0) : Type 0 where
  pub value : Option V
  pub deadline : ℕ
  pub found : Bool

-- What a `Loader` does when it is called: it returns a value, whether it was found and an error,
-- or it panics, or it ends its goroutine.
pub data LoaderRun (V : Type 0) : Type 0 where
  returns : (value : V) → (found : Bool) → (err : Option Error) → LoaderRun V
  panics : (value : ℕ) → LoaderRun V
  exits : LoaderRun V

abbrev pub no_load_result : {V : Type 0} → LoadResult V
no_load_result = record { value = none; deadline = 0; found = false }

abbrev pub cached_result : {V : Type 0} → CachedEntry V → LoadResult V
cached_result c = record { value = some c.value; deadline = c.deadline; found = true }
