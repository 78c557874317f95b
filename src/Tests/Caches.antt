-- ===== src/Tests/Caches.antt =====
-- A cache of cache.go with two segments.
use pacecache.Prelude.{
  ◌+◌, ℕ, ◌%◌, ◌^◌, ◌≡◌, ◌<◌, refl, true, false, some, List, [], ◌∷◌, map, ok, arith, ℕ_discrete,
  length,
}
use pacecache.Prelude.Int.{pos}
use pacecache.Tests.{or_default, at_result}
use pacecache.Cache.{Cache, new_cache, set_value, get}
use pacecache.Cache.Valid.{Valid, new_cache-Valid}
use pacecache.Cache.Publish.{set_value-get, stored_ttl, stored_deadline}
use pacecache.Cache.{delete, exists, clear}
use pacecache.Cache.Removal.{delete-exists}
use pacecache.Cache.Clearing.{emptied, clear-Valid}
use pacecache.Singleflight.{forget_all}
use pacecache.Storage.Drain.{total}
use pacecache.Clock.{deadline_after, effective_ttl, jittered_ttl}
use pacecache.Options.{
  new_settings, default_settings, with_max_entries, with_segment_count, with_ttl,
}
use pacecache.Options.Valid.{Choice, chosen}
use pacecache.Segment.{is_expired}
use pacecache.Segment.Model.{Model, fresh_entry}
use pacecache.Storage.{
  new_storage, new_storage_with_expiration_resolution, new_storage_with_segments,
  enable_expiration_index, segment_index, word_bits,
}
use pacecache.Storage.Routing.{segment_index-mod}

abbrev pub test_choices : List Choice
test_choices = Choice.max_entries (pos 4) ∷ Choice.segment_count (pos 2) ∷ Choice.ttl (pos 50) ∷ []

small : (new_settings (map chosen test_choices)).max_entries < 2 ^ word_bits
unfolding new_settings default_settings with_max_entries with_segment_count with_ttl
small = omega arith

new_cache-Valid_example :
    (c : Cache ℕ ℕ) × (ms : List (Model ℕ ℕ)) × (new_cache true (map chosen test_choices) ≡ ok c)
    × Valid ℕ_discrete c ms
new_cache-Valid_example = new_cache-Valid ℕ_discrete true test_choices small

abbrev pub unused_cache : Cache ℕ ℕ
unused_cache = record {
  loader = false;
  store = record { segments = []; mask = 0; max_entries = 0 };
  states = [];
  cleared_entry_count = 0;
  cleanup_count = 0;
  cleanup_worker_run_count = 0;
  cleanup_worker_pending_count = 0;
  cleanup_worker_duration_nanos = 0;
  name = [];
  ttl = pos 0;
  jitter = 0;
  batch_size = 0;
  entry_budget = 0;
  cleanup_interval = 0;
}

abbrev pub test_cache : Cache ℕ ℕ
test_cache = or_default unused_cache (new_cache true (map chosen test_choices))

pub test_specs : (ms : List (Model ℕ ℕ)) × Valid ℕ_discrete test_cache ms
test_specs =
    let (c, ms, e, v) = new_cache-Valid {V = ℕ} ℕ_discrete true test_choices small in
    (
      ms,
      at_result (λ c. Valid ℕ_discrete c ms) unused_cache (new_cache true (map chosen test_choices))
          c e v,
    )

segment_index-mod_example :
    (segment_index (λ k. k) test_cache.store 7 ≡ 7 % length test_cache.store.segments)
    × (segment_index (λ k. k) test_cache.store 7 < length test_cache.store.segments)
segment_index-mod_example =
    segment_index-mod (λ k. k) test_cache.store 7 test_specs.1.some_segment test_specs.1.word
      test_specs.1.mask

test_lifetime :
    is_expired {K = ℕ} {V = ℕ}
      (fresh_entry 7 700
        (stored_ttl (λ _. 0) test_cache (pos 0))
        (stored_deadline (λ _. 0) test_cache (pos 0) 10))
      59
    ≡ false
unfolding new_cache new_settings default_settings with_max_entries with_segment_count with_ttl
    new_storage new_storage_with_expiration_resolution new_storage_with_segments
    enable_expiration_index effective_ttl jittered_ttl deadline_after
test_lifetime = refl

-- Stored at 10 for the configured lifetime of 50, the value is there at 59.
set_value-get_example :
    (c' c'' : Cache ℕ ℕ) × (set_value ℕ_discrete (λ k. k) (λ _. 0) 7 700 (pos 0) 10 test_cache
      ≡ ok c')
    × (get ℕ_discrete (λ k. k) 7 59 c' ≡ ok (c'', some 700))
set_value-get_example =
    set_value-get ℕ_discrete (λ k. k) test_cache test_specs.0 test_specs.1 7 (λ _. 0) 700 (pos 0) 10
      59 test_lifetime

delete-exists_example :
    (c' c'' : Cache ℕ ℕ) × (delete ℕ_discrete (λ k. k) (λ targets. targets) (7 ∷ []) test_cache
      ≡ ok c')
    × (exists ℕ_discrete (λ k. k) 7 59 c' ≡ ok (c'', false))
delete-exists_example =
    delete-exists ℕ_discrete (λ k. k) test_cache test_specs.0 test_specs.1 7 (λ targets. targets) 59

clear-Valid_example :
    Valid ℕ_discrete (clear ℕ_discrete test_cache) (emptied ℕ_discrete test_specs.0)
    × ((clear ℕ_discrete test_cache).cleared_entry_count
        ≡ test_cache.cleared_entry_count + total ℕ_discrete test_specs.0)
    × ((clear ℕ_discrete test_cache).states ≡ map forget_all test_cache.states)
clear-Valid_example = clear-Valid ℕ_discrete test_cache test_specs.0 test_specs.1
