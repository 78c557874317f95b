-- ===== src/Cache.antt =====
-- The operations of a cache: cache.go, lookup.go, set.go and delete.go, with what they record by
-- stats.go. The cache is initialised: the early return of each operation on one that is not is left
-- out. The parameters are what the operations read besides the cache: the hash of a key, the random
-- source of the jitter, the sort of slices.SortFunc, and the clock, each reading of which is an
-- argument, in the order of the readings.
pub mod Valid
pub mod Steps
pub mod Publish
pub mod Removal
pub mod Clearing
pub mod Expired
pub mod Snapshot
pub mod Load
use pacecache.Prelude.{
  ℕ, zero, suc, ◌+◌, ◌-◌, min, Bool, true, false, Option, none, some, List, [], ◌∷◌, map, Result,
  ok, panic, ◌>>=◌, ltb, ◌==◌, ◌!=◌, if◌then◌else◌, length, get_elem?, set,
}
use pacecache.Prelude.Int.{ℤ}
use pacecache.Clock.{deadline_after, effective_ttl}
use pacecache.Options.{Settings, Setter, new_settings}
use pacecache.Segment.{CachedEntry}
use pacecache.Singleflight
use pacecache.Singleflight.{Group, no_calls, forget, forget_all}
use pacecache.Stats.{SegmentStats, no_segment_stats, add_deleted}
use pacecache.Types.{LoadResult}
use pacecache.Storage
use pacecache.Storage.{
  Storage, StorageSegment, at_segment, new_storage, segment_index, exists_at, refresh_ttl_at,
  lookup_at, lookup_entry_at, set_at, get_or_set_at, get_or_set_entry_at, get_and_delete_at,
  delete_at, cleanup_expired,
}

-- `loader` says whether the default loader is not nil. `states` are the coordination groups of the
-- segments. The counters of the segments are in the segments.
pub record Cache (K V : Type 0) : Type 0 where
  pub loader : Bool
  pub store : Storage K V
  pub states : List (Group K (LoadResult V))
  pub cleared_entry_count : ℕ
  pub cleanup_count : ℕ
  pub cleanup_worker_run_count : ℕ
  pub cleanup_worker_pending_count : ℕ
  pub cleanup_worker_duration_nanos : ℕ
  pub name : List ℕ
  pub ttl : ℤ
  pub jitter : ℕ
  pub batch_size : ℕ
  pub entry_budget : ℕ
  pub cleanup_interval : ℕ

-- The exported `Entry`; `expires_at` is none for the zero time.
pub record EntrySnapshot (V : Type 0) : Type 0 where
  pub value : V
  pub expires_at : Option ℕ

-- `origin` is the time at which the storage was created.
abbrev pub expires_at : (origin deadline : ℕ) → Option ℕ
expires_at origin deadline = if deadline == 0 then none else some (origin + deadline)

abbrev pub entry_snapshot : {V : Type 0} → (origin : ℕ) → CachedEntry V → EntrySnapshot V
entry_snapshot origin c = record { value = c.value; expires_at = expires_at origin c.deadline }

module _ {K V : Type 0} where
  -- Every segment gets its counters.
  abbrev pub with_counters : Storage K V → Storage K V
  with_counters s = record s {
    segments =
        map {A = StorageSegment K V} (λ t. record t { stats = some no_segment_stats }) s.segments;
  }

  unfoldable pub new_cache : (loader : Bool) → List (Option Setter) → Result (Cache K V)
  new_cache loader options =
      let settings = new_settings options in
      do
        store ← new_storage settings.max_entries settings.segment_count settings.sliding_expiration
        ok (record {
          loader = loader;
          store = with_counters store;
          states = map {A = StorageSegment K V} (λ _. no_calls) store.segments;
          cleared_entry_count = 0;
          cleanup_count = 0;
          cleanup_worker_run_count = 0;
          cleanup_worker_pending_count = 0;
          cleanup_worker_duration_nanos = 0;
          name = settings.name;
          ttl = settings.ttl;
          jitter = settings.jitter;
          batch_size = settings.cleanup_batch_size;
          entry_budget = settings.cleanup_entry_budget;
          cleanup_interval = settings.cleanup_interval;
        })

  -- `stats.segment(index)`, of which the count of deleted entries is raised.
  unfoldable pub record_delete : (index count : ℕ) → Cache K V → Result (Cache K V)
  record_delete index count c = if count == 0 then ok c else do
    (store, _) ←
        at_segment index (λ t. ok (record t { stats = add_deleted count t.stats }, tt {0})) c.store
    ok (record c { store = store })

  unfoldable pub record_clear : (count : ℕ) → Cache K V → Cache K V
  record_clear count c =
      if count == 0 then c else record c { cleared_entry_count = c.cleared_entry_count + count }

  unfoldable pub record_cleanup : Cache K V → Cache K V
  record_cleanup c = record c { cleanup_count = c.cleanup_count + 1 }

  -- An operation of the storage on the segment of a key.
  abbrev pub on_store :
      {A : Type 0} → (Storage K V → Result (Storage K V × A)) → Cache K V → Result (Cache K V × A)
  on_store f c = do (store, a) ← f c.store; ok (record c { store = store }, a)

module _ {K V : Type 0} (dec : Discrete K) where
  -- `state.group.Forget(key)` of the state at an index; out of range it panics.
  unfoldable pub forget_at : ℕ → K → Cache K V → Result (Cache K V)
  forget_at index key c = elim (get_elem? c.states index) [
    | none ↦ panic
    | some g ↦ ok (record c { states = set c.states index (forget dec key g) })
  ]

  unfoldable pub delete_one : ℕ → K → Cache K V → Result (Cache K V × Bool)
  delete_one index key c = do c1 ← forget_at index key c; on_store (delete_at dec index key) c1

  -- `Forget` and `deleteAt` for each target in turn, and how many entries were removed.
  unfoldable pub delete_targets : List (K × ℕ) → Cache K V → Result (Cache K V × ℕ)
  delete_targets [] c = ok (c, 0)
  delete_targets ((key, index) ∷ targets) c = do
    (c1, removed) ← delete_one index key c
    (c2, n) ← delete_targets targets c1
    ok (c2, if removed then n + 1 else n)

  unfoldable pub clear : Cache K V → Cache K V
  clear c =
      let (store, removed) = Storage.delete_all dec c.store in
      record_clear removed (record c { states = map forget_all c.states; store = store })

  unfoldable pub delete_expired : (now : ℕ) → Cache K V → Result (Cache K V × ℕ)
  delete_expired now c = do
    (c1, removed) ← on_store (cleanup_expired dec now c.batch_size c.entry_budget) c
    ok (record_cleanup c1, removed)

module _ {K V : Type 0} (dec : Discrete K) (hash : K → ℕ) where
  abbrev pub index_of : Cache K V → K → ℕ
  index_of c key = segment_index hash c.store key

  unfoldable pub exists : K → (now : ℕ) → Cache K V → Result (Cache K V × Bool)
  exists key now c = on_store (exists_at dec (index_of c key) key now) c

  unfoldable pub refresh_ttl : K → (now : ℕ) → Cache K V → Result (Cache K V × Bool)
  refresh_ttl key now c = on_store (refresh_ttl_at dec (index_of c key) key now) c

  unfoldable pub get : K → (now : ℕ) → Cache K V → Result (Cache K V × Option V)
  get key now c = on_store (lookup_at dec (index_of c key) key now) c

  unfoldable pub get_entry :
      (origin : ℕ) → K → (now : ℕ) → Cache K V → Result (Cache K V × Option (EntrySnapshot V))
  get_entry origin key now c = do
    (c', cached) ← on_store (lookup_entry_at dec (index_of c key) key now) c
    ok (c', elim cached [ none ↦ none | some e ↦ some (entry_snapshot origin e) ])

  unfoldable pub get_and_delete : K → (now : ℕ) → Cache K V → Result (Cache K V × Option V)
  get_and_delete key now c =
      let index = index_of c key in
      do
        c1 ← forget_at dec index key c
        (c2, value) ← on_store (get_and_delete_at dec index key now) c1
        elim value [
          | none ↦ ok (c2, none)
          | some v ↦ do c3 ← record_delete index 1 c2; ok (c3, some v)
        ]

  -- `sort` orders the targets by their segments. The locks leave the state as it is.
  unfoldable pub delete :
      (sort : List (K × ℕ) → List (K × ℕ)) → List K → Cache K V → Result (Cache K V)
  delete sort [] c = ok c
  delete sort (key ∷ []) c =
      let index = index_of c key in
      do
        (c1, removed) ← delete_one dec index key c
        if removed then record_delete index 1 c1 else ok c1
  delete sort (key ∷ second ∷ keys) c =
      if length c.states == 1
      then (do
        (c1, n) ← delete_targets dec (map (λ k. (k, 0)) (key ∷ second ∷ keys)) c
        record_delete 0 n c1)
      else (do
        (c1, n) ← delete_targets dec (sort (map (λ k. (k, index_of c k)) (key ∷ second ∷ keys))) c
        record_delete (index_of c key) n c1)

  module _ (rand : ℕ → ℕ) where
    unfoldable pub set_value : K → V → (expiration : ℤ) → (now : ℕ) → Cache K V → Result (Cache K V)
    set_value key value expiration now c =
        let index = index_of c key in
        do
          c1 ← forget_at dec index key c
          let ttl = effective_ttl rand c.ttl c.jitter expiration
          let deadline = if ltb 0 ttl then deadline_after now ttl else 0
          (c2, _) ← on_store (set_at dec index key value ttl deadline) c1
          ok c2

    -- The first reading of the clock is that of the lookup, the second that of the insertion. The
    -- value is `none` where the code returns the zero value.
    unfoldable pub get_or_set :
        K
        → V
        → (expiration : ℤ) → (now later : ℕ) → Cache K V
        → Result (Cache K V × Option V × Bool)
    get_or_set key value expiration now later c =
        let index = index_of c key in
        do
          (c1, current) ← on_store (lookup_at dec index key now) c
          elim current [
            | some v ↦ ok (c1, some v, true)
            | none ↦ do
              c2 ← forget_at dec index key c1
              let ttl = effective_ttl rand c.ttl c.jitter expiration
              (c3, result) ←
                  on_store (get_or_set_at dec index key value ttl (deadline_after later ttl) later)
                    c2
              ok (c3, result.0, result.1)
          ]

    unfoldable pub get_or_set_entry :
        (origin : ℕ)
        → K
        → V
        → (expiration : ℤ) → (now later : ℕ) → Cache K V
        → Result (Cache K V × Option (EntrySnapshot V) × Bool)
    get_or_set_entry origin key value expiration now later c =
        let index = index_of c key in
        do
          (c1, current) ← on_store (lookup_entry_at dec index key now) c
          elim current [
            | some e ↦ ok (c1, some (entry_snapshot origin e), true)
            | none ↦ do
              c2 ← forget_at dec index key c1
              let ttl = effective_ttl rand c.ttl c.jitter expiration
              (c3, result) ←
                  on_store
                    (get_or_set_entry_at dec index key value ttl (deadline_after later ttl) later)
                    c2
              ok (
                c3,
                elim result.0 [ none ↦ none | some e ↦ some (entry_snapshot origin e) ],
                result.1,
              )
          ]
