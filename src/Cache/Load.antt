-- ===== src/Cache/Load.antt =====
-- `GetOrLoad`, `GetOrLoadFunc`, `GetOrLoadEntry` and `GetOrLoadEntryFunc` of load.go on a whole cache,
-- run by one caller alone. An element of `envs` is what the caller reads at a step.
pub mod Stored
pub mod Overtaken
use pacecache.Prelude.{
  ℕ, Bool, true, false, Option, none, some, List, [], ◌∷◌, Result, ok, panic, ◌>>=◌, get_elem?, set,
  if◌then◌else◌,
}
use pacecache.Cache.{Cache, EntrySnapshot, expires_at, index_of}
use pacecache.Errors.{Error, not_initialized}
use pacecache.Loads.{
  Shard, Request, Env, Outcome, loaded, failed, panicked_with, ended, Pc, entered, left, run_load,
}

-- The results of a call, or none if it does not return, since it is not at its end, it panics or
-- its goroutine ends. The value is none for the zero value.
abbrev pub Reply : Type 0 → Type 0
Reply A = Option (Option A × Bool × Option Error)

abbrev pub value_reply : {V : Type 0} → Pc V → Reply V
value_reply (left (loaded r)) = some (r.value, r.found, none)
value_reply (left (failed err)) = some (none, false, some err)
value_reply _ = none

-- An entry that was not found is the zero entry.
abbrev pub entry_reply : {V : Type 0} → (origin : ℕ) → Pc V → Reply (EntrySnapshot V)
entry_reply origin (left (loaded r)) =
    if r.found
    then some (
      elim r.value [
        | none ↦ none
        | some value ↦ some (record { value = value; expires_at = expires_at origin r.deadline })
      ],
      true,
      none,
    )
    else some (none, false, none)
entry_reply origin (left (failed err)) = some (none, false, some err)
entry_reply origin _ = none

module _ {K V : Type 0} where
  -- The segment and the state at an index; out of range the code panics.
  unfoldable pub shard_at : ℕ → Cache K V → Result (Shard K V)
  shard_at index c = elim (get_elem? c.store.segments index) [
    | none ↦ panic
    | some t ↦ elim (get_elem? c.states index) [
      | none ↦ panic
      | some g ↦ ok (record { segment = t; group = g })
    ]
  ]

  abbrev pub put_shard : ℕ → Shard K V → Cache K V → Cache K V
  put_shard index s c = record c {
    store = record c.store { segments = set c.store.segments index s.segment };
    states = set c.states index s.group;
  }

module _ {K V : Type 0} (dec : Discrete K) (hash : K → ℕ) where
  unfoldable pub get_or_load :
      Request K → List (Env V) → Option (Cache K V) → Result (Option (Cache K V) × Pc V)
  get_or_load req envs none = ok (none, left (failed not_initialized))
  get_or_load req envs (some c) =
      let index = index_of dec hash c req.key in
      do
        s ← shard_at index c
        (t, pc) ← run_load dec c.ttl c.jitter req envs entered s
        ok (some (put_shard index t c), pc)

  -- The default loader of the cache, if it has one.
  abbrev pub default_loader : Option (Cache K V) → Bool
  default_loader none = false
  default_loader (some c) = c.loader

  unfoldable pub get_or_load_func :
      (has_context has_loader : Bool)
      → K
      → List (Env V)
      → Option (Cache K V)
      → Result (Option (Cache K V) × Reply V)
  unfolding get_or_load
  get_or_load_func has_context has_loader key envs cache = do
    (c, pc) ←
        get_or_load (record { key = key; has_context = has_context; has_loader = has_loader }) envs
          cache
    ok (c, value_reply pc)

  unfoldable pub get_or_load_entry_func :
      (origin : ℕ)
      → (has_context has_loader : Bool) → K
      → List (Env V)
      → Option (Cache K V)
      → Result (Option (Cache K V) × Reply (EntrySnapshot V))
  unfolding get_or_load
  get_or_load_entry_func origin has_context has_loader key envs cache = do
    (c, pc) ←
        get_or_load (record { key = key; has_context = has_context; has_loader = has_loader }) envs
          cache
    ok (c, entry_reply origin pc)

  abbrev pub get_or_load_default :
      (has_context : Bool)
      → K
      → List (Env V)
      → Option (Cache K V)
      → Result (Option (Cache K V) × Reply V)
  get_or_load_default has_context key envs cache =
      get_or_load_func has_context (default_loader cache) key envs cache

  abbrev pub get_or_load_entry :
      (origin : ℕ)
      → (has_context : Bool) → K
      → List (Env V)
      → Option (Cache K V)
      → Result (Option (Cache K V) × Reply (EntrySnapshot V))
  get_or_load_entry origin has_context key envs cache =
      get_or_load_entry_func origin has_context (default_loader cache) key envs cache
