-- ===== src/Tests/Segments.antt =====
-- A segment of segment.go with two entries and room for no third.
use pacecache.Prelude.{
  ℕ, ◌≡◌, ◌≢◌, ◌<◌, ◌≤◌, refl, Bool, true, false, none, some, List, [], ◌∷◌, ok, arith, ℕ_discrete,
}
use pacecache.Expiration.{due_bucket_id}
use pacecache.Expiration.Index.{index_ops, new_expiration_index}
use pacecache.Expiration.Index.Laws.{index_laws}
use pacecache.Lru.{no_links}
use pacecache.Prelude.GoMap
use pacecache.Segment.{Entry}
use pacecache.Segment.Cleanup.{IsDue, Reclaims, cleanup_expired-Refines}
use pacecache.Segment.Insert.{set_locked-Refines}
use pacecache.Segment.Lookup
use pacecache.Segment.Model.{
  Model, fresh_entry, write_entry, read, find, exists_model, refresh_model, get_or_set_model,
  take_model,
}
use pacecache.Segment.Reads.{counted, exists-Refines, refresh_ttl-Refines, lookup-Refines}
use pacecache.Segment.Refines.{Refines}
use pacecache.Segment.Removal.{get_and_delete-Refines}
use pacecache.Segment.Store.{get_or_set-Refines}
use pacecache.Segment.Update
use pacecache.Storage.{StorageSegment, entry_count}
use pacecache.Storage.Drain.{AllRefine, Swept, Clean, cleanup_expired-Clean}
use pacecache.Storage.{entry_count}
use pacecache.Storage.Fresh.{empty_model, empty-Refines}
use pacecache.Storage
use pacecache.Storage.{Storage}

abbrev pub TestSegment : Type 0
TestSegment = StorageSegment ℕ ℕ

abbrev pub empty_segment : TestSegment
empty_segment = record {
  entries = GoMap.empty;
  cells = λ _. none;
  fresh = 1;
  lru = no_links;
  expirations = new_expiration_index 10;
  sliding_expiration = true;
  max_entries = 2;
  stats = none;
}

abbrev pub empty_spec : Model ℕ ℕ
empty_spec = empty_model 2 true 10

abbrev pub one_spec : Model ℕ ℕ
one_spec = write_entry ℕ_discrete (fresh_entry 1 100 20 25) empty_spec

abbrev pub two_spec : Model ℕ ℕ
two_spec = write_entry ℕ_discrete (fresh_entry 2 200 30 35) one_spec

pub empty-Refines_empty : Refines ℕ_discrete index_laws empty_segment empty_spec
empty-Refines_empty = empty-Refines ℕ ℕ_discrete empty_segment 2 true 10 refl

pub one_result :
    (t : TestSegment) × (Update.set_locked ℕ_discrete index_ops 1 100 20 25 empty_segment ≡ ok t)
    × Refines ℕ_discrete index_laws t one_spec
one_result =
    set_locked-Refines ℕ_discrete index_laws empty-Refines_empty 1 100 20 25 (λ e. ground arith)

one_room : one_result.0.max_entries ≢ 0
unfolding ℕ_discrete
one_room e = let c : 2 ≡ one_result.0.max_entries = one_result.2.capacity in absurd (omega arith)

pub two_result :
    (t : TestSegment) × (Update.set_locked ℕ_discrete index_ops 2 200 30 35 one_result.0 ≡ ok t)
    × Refines ℕ_discrete index_laws t two_spec
two_result = set_locked-Refines ℕ_discrete index_laws one_result.2 2 200 30 35 one_room

abbrev pub two_entries : TestSegment
two_entries = two_result.0

two_room : two_entries.max_entries ≢ 0
unfolding ℕ_discrete
two_room e = let c : 2 ≡ two_entries.max_entries = two_result.2.capacity in absurd (omega arith)

-- The third entry evicts the first.
set_locked-Refines_example :
    (t : TestSegment) × (Update.set_locked ℕ_discrete index_ops 3 300 40 45 two_entries ≡ ok t)
    × Refines ℕ_discrete index_laws t (write_entry ℕ_discrete (fresh_entry 3 300 40 45) two_spec)
set_locked-Refines_example =
    set_locked-Refines ℕ_discrete index_laws two_result.2 3 300 40 45 two_room

third_evicts_first :
    (write_entry ℕ_discrete (fresh_entry 3 300 40 45) two_spec).items
    ≡ (fresh_entry 3 300 40 45 ∷ fresh_entry 2 200 30 35 ∷ [])
unfolding ℕ_discrete
third_evicts_first = refl

lookup-Refines_example :
    (t : TestSegment) × (Lookup.lookup ℕ_discrete index_ops 1 5 two_entries ≡ ok (t, some 100))
    × Refines ℕ_discrete index_laws t (counted (read ℕ_discrete 1 5 two_spec)).0
unfolding ℕ_discrete
lookup-Refines_example = lookup-Refines ℕ_discrete index_laws two_result.2 1 5

-- At its deadline an entry is gone.
exists-Refines_example :
    (t : TestSegment) × (Lookup.exists ℕ_discrete index_ops 1 25 two_entries ≡ ok (t, false))
    × Refines ℕ_discrete index_laws t (exists_model ℕ_discrete 1 25 two_spec).0
unfolding ℕ_discrete
exists-Refines_example = exists-Refines ℕ_discrete index_laws two_result.2 1 25

refresh_ttl-Refines_example :
    (t : TestSegment) × (Lookup.refresh_ttl ℕ_discrete index_ops 1 24 two_entries ≡ ok (t, true))
    × Refines ℕ_discrete index_laws t (refresh_model ℕ_discrete 1 24 two_spec).0
unfolding ℕ_discrete
refresh_ttl-Refines_example = refresh_ttl-Refines ℕ_discrete index_laws two_result.2 1 24

get_or_set-Refines_example :
    (t : TestSegment) × (Update.get_or_set ℕ_discrete index_ops 1 111 20 46 26 two_entries
      ≡ ok (t, some 111, false))
    × Refines ℕ_discrete index_laws t
        (get_or_set_model ℕ_discrete (fresh_entry 1 111 20 46) 26 two_spec).0
unfolding ℕ_discrete
get_or_set-Refines_example = get_or_set-Refines ℕ_discrete index_laws two_result.2 1 111 20 46 26

get_and_delete-Refines_example :
    (t : TestSegment) × (Update.get_and_delete ℕ_discrete index_ops 2 5 two_entries
      ≡ ok (t, some 200))
    × Refines ℕ_discrete index_laws t (take_model ℕ_discrete 2 5 two_spec).0
unfolding ℕ_discrete
get_and_delete-Refines_example = get_and_delete-Refines ℕ_discrete index_laws two_result.2 2 5

pub two_resolution : 0 < two_spec.resolution
unfolding ℕ_discrete
two_resolution = omega arith

-- Both buckets are due at time 40, and the limit is one entry.
cleanup_expired-Refines_example :
    let due = due_bucket_id two_spec.resolution 40 in
    (t : TestSegment) × (n : ℕ) × (pending : Bool) × (m' : Model ℕ ℕ) × (Update.cleanup_expired
        ℕ_discrete index_ops 40 1 two_entries
      ≡ ok (t, n, pending))
    × Reclaims ℕ_discrete due n two_spec m'
    × Refines ℕ_discrete index_laws t m'
    × (n ≤ 1)
    × (pending ≡ true → n ≡ 1)
    × (pending ≡ false
        → (k : ℕ) (c : Entry ℕ ℕ) → find ℕ_discrete k m'.items ≡ some c
        → ¬ IsDue ℕ_discrete due m' c)
cleanup_expired-Refines_example =
    cleanup_expired-Refines ℕ_discrete index_laws 40 1 two_result.2 two_resolution (omega arith)

abbrev pub two_segments : Storage ℕ ℕ
two_segments = record { segments = two_entries ∷ empty_segment ∷ []; mask = 1; max_entries = 4 }

abbrev pub two_specs : List (Model ℕ ℕ)
two_specs = two_spec ∷ empty_spec ∷ []

cleanup_expired-Clean_example :
    (t : Storage ℕ ℕ) × (n : ℕ) × (ms' : List (Model ℕ ℕ)) × (Storage.cleanup_expired ℕ_discrete 40
        1 3 two_segments
      ≡ ok (t, n))
    × Swept ℕ_discrete 40 n two_specs ms'
    × AllRefine ℕ_discrete t.segments ms'
    × Clean ℕ_discrete 40 ms'
cleanup_expired-Clean_example =
    cleanup_expired-Clean ℕ_discrete 40 1 3 (omega arith) (omega arith) two_segments two_specs
      (two_result.2, (empty-Refines_empty, tt)) (two_resolution, (omega arith, tt))
