-- ===== src/Tests/Stored.antt =====
-- Loads, mutations and statistics of a cache of cache.go with two segments.
use pacecache.Prelude.{
  sym, ap, ◌∙◌, ℕ, ◌+◌, ◌≡◌, refl, not, true, false, Option, none, some, List, [], ◌∷◌, map, ok,
  set, get_elem?, arith, ℕ_discrete, zero, suc, length, length-map, ◌<◌, ◌≤◌, ◌⊎◌,
}
use pacecache.Prelude.Int.{pos}
use pacecache.Cache.{Cache, new_cache, set_value, delete_expired, get, clear}
use pacecache.Cache.Clearing.{emptied, clear-Valid}
use pacecache.Cache.Load.{shard_at, put_shard, get_or_load_func}
use pacecache.Cache.Load.Overtaken.{set-overtakes}
use pacecache.Cache.Expired.{delete_expired-exact}
use pacecache.Cache.Steps.{routed}
use pacecache.Errors.{load_superseded}
use pacecache.Singleflight.{start_call, no_calls, returned}
use pacecache.Cache.Load.Stored.{Idle, load-get}
use pacecache.Tests.{or_default, at_result}
use pacecache.Cache.Publish.{set_value-Valid, stored_ttl, stored_deadline}
use pacecache.Cache.Snapshot.{stats, get-stats, AllCounted, one_if, is_some}
use pacecache.Cache.Valid.{Valid}
use pacecache.Loads.{Shard, Env, advance, publishing, ending}
use pacecache.Segment.Model.{Model}
use pacecache.Stats.{no_segment_stats}
use pacecache.Loads.Lone.{loaded_ttl, loaded_deadline}
use pacecache.Segment.{Entry, is_expired}
use pacecache.Segment.Model.{fresh_entry, find, set_model}
use pacecache.Segment.Update
use pacecache.Storage
use pacecache.Cache.{record_clear}
use pacecache.Singleflight.{find_call, Group, forget_all}
use pacecache.Types.{LoadResult, returns}
use pacecache.Options.{
  new_settings, default_settings, with_max_entries, with_segment_count, with_ttl,
}
use pacecache.Storage.Drain.{total}
use pacecache.Clock.{deadline_after, effective_ttl, jittered_ttl}
use pacecache.Storage.{
  segment_index, new_segments, new_storage, new_storage_with_expiration_resolution,
  new_storage_with_segments, enable_expiration_index,
}
use pacecache.Tests.Caches.{test_cache, test_specs}

-- The loader finds 700.
abbrev test_env : Env ℕ
test_env = record {
  now = 15;
  later = 10;
  context = none;
  loader = returns 700 true none;
  context_first = false;
  rand = λ _. 0;
}

-- A load of key 7 is in flight in each group.
abbrev loading_group : Group ℕ (LoadResult ℕ)
loading_group = (start_call ℕ_discrete 7 no_calls).0

abbrev loading_cache : Cache ℕ ℕ
loading_cache = record test_cache { states = map (λ _. loading_group) test_cache.states }

loading_Valid : Valid ℕ_discrete loading_cache test_specs.0
loading_Valid =
    let v = test_specs.1 in
    record {
      refines = v.refines;
      indexed = v.indexed;
      roomy = v.roomy;
      capacity = v.capacity;
      some_segment = v.some_segment;
      word = v.word;
      mask = v.mask;
      groups = length-map (λ _. loading_group) test_cache.states ∙ v.groups;
      batch = v.batch;
      budget = v.budget;
    }

get_elem?-constant :
    (gs : List (Group ℕ (LoadResult ℕ))) (i : ℕ)
    → i < length gs
    → get_elem? (map (λ _. loading_group) gs) i ≡ some loading_group
get_elem?-constant [] i lt = absurd (omega arith)
get_elem?-constant (g ∷ gs) zero lt = refl
get_elem?-constant (g ∷ gs) (suc i) lt = get_elem?-constant gs i (omega arith)

loading_there :
    get_elem? loading_cache.states (segment_index (λ k. k) loading_cache.store 7)
    ≡ some loading_group
loading_there =
    get_elem?-constant test_cache.states (segment_index (λ k. k) loading_cache.store 7) (
      omega (
        arith,
        routed ℕ_discrete test_cache test_specs.0 test_specs.1 (λ k. k) 7,
        test_specs.1.groups,
      ))

loading_in_flight : find_call ℕ_discrete 7 loading_group.m ≡ some 0
unfolding start_call ℕ_discrete
loading_in_flight = refl

-- Stored at 10 for the configured lifetime of 50, the value is there at 59.
loading_lifetime :
    is_expired {K = ℕ} {V = ℕ}
      (fresh_entry 7 700
        (stored_ttl (λ _. 0) loading_cache (pos 0))
        (stored_deadline (λ _. 0) loading_cache (pos 0) 10))
      59
    ≡ false
unfolding new_cache new_settings default_settings with_max_entries with_segment_count with_ttl
    new_storage new_storage_with_expiration_resolution new_storage_with_segments
    enable_expiration_index effective_ttl jittered_ttl deadline_after
loading_lifetime = refl

-- The load has found 5 in the meantime.
set-overtakes_example :
    (c1 c2 : Cache ℕ ℕ) × (s t : Shard ℕ ℕ) × (set_value ℕ_discrete
        (λ k. k)
        (λ _. 0)
        7
        700
        (pos 0)
        10
        loading_cache
      ≡ ok c1)
    × (shard_at (segment_index (λ k. k) loading_cache.store 7) c1 ≡ ok s)
    × (advance ℕ_discrete c1.ttl c1.jitter
          (record { key = 7; has_context = true; has_loader = true })
          test_env
          (publishing 0 (record { value = some 5; deadline = 65; found = true }) 50)
          s
        ≡ ok (t, ending 0 (returned none (some load_superseded))))
    × (get ℕ_discrete (λ k. k) 7 59 (put_shard (segment_index (λ k. k) loading_cache.store 7) t c1)
        ≡ ok (c2, some 700))
set-overtakes_example =
    set-overtakes ℕ_discrete (λ k. k) loading_cache test_specs.0 loading_Valid 7 loading_group
      loading_there 0 loading_in_flight test_env
      (record { value = some 5; deadline = 65; found = true }) 50 (λ _. 0) 700 (pos 0) 10 59
      loading_lifetime

-- Key 7 stored at 10 for the configured lifetime of 50.
abbrev filled_cache : Cache ℕ ℕ
filled_cache =
    or_default test_cache (set_value ℕ_discrete (λ k. k) (λ _. 0) 7 700 (pos 0) 10 test_cache)

filled_specs : (ms : List (Model ℕ ℕ)) × Valid ℕ_discrete filled_cache ms
filled_specs =
    let (c, m, e, em, size, forgot, v) =
      set_value-Valid ℕ_discrete (λ k. k) test_cache test_specs.0 test_specs.1 7 (λ _. 0) 700
        (pos 0) 10 in
    let ms = set test_specs.0 (segment_index (λ k. k) test_cache.store 7) (
      set_model ℕ_discrete
        (fresh_entry 7 700 (stored_ttl (λ _. 0) test_cache (pos 0))
          (stored_deadline (λ _. 0) test_cache (pos 0) 10))
        m) in
    (
      ms,
      at_result (λ c. Valid ℕ_discrete c ms) test_cache
          (set_value ℕ_discrete (λ k. k) (λ _. 0) 7 700 (pos 0) 10 test_cache) c e v,
    )

delete_expired-exact_example :
    (c : Cache ℕ ℕ) × (n : ℕ) × (ms : List (Model ℕ ℕ)) × (delete_expired ℕ_discrete 40 filled_cache
      ≡ ok (c, n))
    × Valid ℕ_discrete c ms
    × (total ℕ_discrete ms + n ≡ total ℕ_discrete filled_specs.0)
    × ((k : ℕ) (e : Entry ℕ ℕ) (m : Model ℕ ℕ) (later : ℕ)
        → get_elem? filled_specs.0 (segment_index (λ k. k) filled_cache.store k) ≡ some m
        → find ℕ_discrete k m.items ≡ some e
        → 40 ≤ later
        → is_expired e later ≡ false
        → (c' : Cache ℕ ℕ) × (get ℕ_discrete (λ k. k) k later c ≡ ok (c', some e.value)))
    × ((i : ℕ) (m : Model ℕ ℕ)
        → get_elem? ms i ≡ some m
        → (k : ℕ) (e : Entry ℕ ℕ) → find ℕ_discrete k m.items ≡ some e
        → (e.deadline ≡ 0) ⊎ (40 + 1 < e.deadline + m.resolution))
delete_expired-exact_example =
    delete_expired-exact ℕ_discrete (λ k. k) filled_cache filled_specs.0 40 filled_specs.1

test_counted : AllCounted test_cache.store.segments
unfolding new_cache new_settings default_settings with_max_entries with_segment_count with_ttl
    new_storage new_storage_with_expiration_resolution new_storage_with_segments new_segments
    enable_expiration_index
test_counted = ((no_segment_stats, refl), ((no_segment_stats, refl), tt))

get-stats_example :
    (c : Cache ℕ ℕ) × (v : Option ℕ) × (get ℕ_discrete (λ k. k) 7 59 test_cache ≡ ok (c, v))
    × ((stats c).hit_count ≡ (stats test_cache).hit_count + one_if (is_some v))
    × ((stats c).miss_count ≡ (stats test_cache).miss_count + one_if (not (is_some v)))
get-stats_example =
    get-stats ℕ_discrete (λ k. k) test_cache test_specs.0 test_specs.1 test_counted 7 59

-- In a cache that was cleared, every key is idle.
emptied-at :
    (ms : List (Model ℕ ℕ)) (i : ℕ) (m : Model ℕ ℕ)
    → get_elem? (emptied ℕ_discrete ms) i ≡ some m
    → m.items ≡ []
emptied-at [] i m e = ground arith
emptied-at (d ∷ ms) zero m e = ground arith
emptied-at (d ∷ ms) (suc i) m e = emptied-at ms i m e

forgotten-at :
    (gs : List (Group ℕ (LoadResult ℕ))) (i : ℕ) (g : Group ℕ (LoadResult ℕ))
    → get_elem? (map forget_all gs) i ≡ some g
    → g.m ≡ []
unfolding forget_all
forgotten-at [] i g e = ground arith
forgotten-at (h ∷ gs) zero g e = ground arith
forgotten-at (h ∷ gs) (suc i) g e = forgotten-at gs i g e

abbrev cleared : Cache ℕ ℕ
cleared = clear ℕ_discrete test_cache

cleared_Valid :
    Valid ℕ_discrete cleared (emptied ℕ_discrete test_specs.0)
    × (cleared.cleared_entry_count ≡ test_cache.cleared_entry_count + total ℕ_discrete test_specs.0)
    × (cleared.states ≡ map forget_all test_cache.states)
cleared_Valid = clear-Valid ℕ_discrete test_cache test_specs.0 test_specs.1

cleared_Idle : Idle ℕ_discrete (λ k. k) cleared (emptied ℕ_discrete test_specs.0) cleared_Valid.0 7
cleared_Idle = record {
  absent = λ m e. ground (arith, emptied-at test_specs.0 _ m e);
  no_call = λ g e.
      let none_left : g.m ≡ [] =
        forgotten-at test_cache.states (segment_index (λ k. k) cleared.store 7) g (
          ap (λ l. get_elem? l (segment_index (λ k. k) cleared.store 7)) (sym cleared_Valid.2)
          ∙ e) in
      ap (λ l. find_call ℕ_discrete 7 l) none_left;
}

test_lifetime :
    is_expired {K = ℕ} {V = ℕ}
      (fresh_entry 7 700
        (loaded_ttl cleared.ttl cleared.jitter test_env)
        (loaded_deadline cleared.ttl cleared.jitter test_env))
      59
    ≡ false
unfolding new_cache new_settings default_settings with_max_entries with_segment_count with_ttl
    new_storage new_storage_with_expiration_resolution new_storage_with_segments new_segments
    enable_expiration_index clear record_clear Storage.delete_all Storage.delete_segments
    Update.delete_all effective_ttl jittered_ttl deadline_after
test_lifetime = refl

load-get_example :
    (c c' : Cache ℕ ℕ) × (get_or_load_func ℕ_discrete
        (λ k. k)
        true
        true
        7
        (test_env ∷ test_env ∷ test_env ∷ test_env ∷ test_env ∷ test_env ∷ test_env ∷ [])
        (some cleared)
      ≡ ok (some c, some (some 700, true, none)))
    × (get ℕ_discrete (λ k. k) 7 59 c ≡ ok (c', some 700))
load-get_example =
    load-get ℕ_discrete (λ k. k) cleared (emptied ℕ_discrete test_specs.0) cleared_Valid.0 7
      cleared_Idle 700 test_env test_env test_env test_env test_env test_env test_env refl refl refl
      refl 59 test_lifetime
