-- ===== src/Errors.antt =====
-- errors.go, and the errors that a load can meet besides. An error is told apart by its identity, as
-- the comparisons of the code do; the text of an error is left out.
use pacecache.Prelude.{ℕ}

-- The last three are errors of internal/singleflight/group.go, the context and the loader; a
-- recovered value and an error from outside stand as numbers.
pub data Error : Type 0 where
  not_initialized : Error
  no_loader : Error
  load_superseded : Error
  context_is_nil : Error
  panic_error : (value : ℕ) → Error
  goexit : Error
  other_error : (identity : ℕ) → Error
