-- ===== src/Stats.antt =====
-- stats.go
use pacecache.Prelude.{ℕ, ◌+◌, Bool, Option, none, some, if◌then◌else◌}
use pacecache.Errors.{Error}

pub record SegmentStats : Type 0 where
  pub hit_count : ℕ
  pub miss_count : ℕ
  pub eviction_count : ℕ
  pub expiration_count : ℕ
  pub load_found_count : ℕ
  pub load_not_found_count : ℕ
  pub load_error_count : ℕ
  pub load_superseded_count : ℕ
  pub load_duration_nanos : ℕ
  pub shared_count : ℕ
  pub deleted_entry_count : ℕ

abbrev pub no_segment_stats : SegmentStats
no_segment_stats = record {
  hit_count = 0;
  miss_count = 0;
  eviction_count = 0;
  expiration_count = 0;
  load_found_count = 0;
  load_not_found_count = 0;
  load_error_count = 0;
  load_superseded_count = 0;
  load_duration_nanos = 0;
  shared_count = 0;
  deleted_entry_count = 0;
}

-- `deletedEntryCount.Add(count)`
abbrev pub add_deleted : ℕ → Option SegmentStats → Option SegmentStats
add_deleted n none = none
add_deleted n (some c) = some (record c { deleted_entry_count = c.deleted_entry_count + n })

-- `recordLoad` on the counters of a segment.
abbrev pub count_load :
    (found : Bool) → (err : Option Error) → (duration : ℕ) → SegmentStats → SegmentStats
count_load found err duration c =
    let c1 = record c { load_duration_nanos = c.load_duration_nanos + duration } in
    elim err [
      | some e ↦ record c1 { load_error_count = c1.load_error_count + 1 }
      | none ↦
          if found
          then record c1 { load_found_count = c1.load_found_count + 1 }
          else record c1 { load_not_found_count = c1.load_not_found_count + 1 }
    ]

abbrev pub count_load_superseded : SegmentStats → SegmentStats
count_load_superseded c = record c { load_superseded_count = c.load_superseded_count + 1 }

abbrev pub count_shared : SegmentStats → SegmentStats
count_shared c = record c { shared_count = c.shared_count + 1 }
