-- ===== src/Cache/Snapshot.antt =====
-- `Stats` of stats.go: the snapshot of the counters of a cache.
use pacecache.Prelude.{
  ℕ, zero, suc, ◌+◌, ◌≤◌, ◌≡◌, not, subst, refl, ap, ◌∙◌, Bool, true, false, Bool-cases, inl, inr,
  Option, none, some, Option-cases, List, [], ◌∷◌, ok, length, get_elem?, set, arith,
}
use pacecache.Cache.{Cache, get}
use pacecache.Cache.Steps.{routed}
use pacecache.Cache.Valid.{Valid, entry_count-max_entries}
use pacecache.Expiration.Index.{index_ops}
use pacecache.Expiration.Index.Laws.{index_laws}
use pacecache.Segment.Lookup
use pacecache.Segment.{is_expired, count_miss, count_hit, count_expiration}
use pacecache.Segment.Model.{Model, read, find}
use pacecache.Segment.Reads.{value_of, counted, lookup-Refines}
use pacecache.Stats.{SegmentStats, no_segment_stats}
use pacecache.Storage.{StorageSegment, segment_index, entry_count}
use pacecache.Storage.At.{AllRefine-at, at_segment_lem, length-AllRefine}

pub record Stats : Type 0 where
  pub entry_count : ℕ
  pub max_entries : ℕ
  pub segment_count : ℕ
  pub hit_count : ℕ
  pub miss_count : ℕ
  pub load_found_count : ℕ
  pub load_not_found_count : ℕ
  pub load_error_count : ℕ
  pub load_superseded_count : ℕ
  pub load_duration : ℕ
  pub shared_count : ℕ
  pub deleted_entry_count : ℕ
  pub cleared_entry_count : ℕ
  pub cleanup_count : ℕ
  pub cleanup_worker_run_count : ℕ
  pub cleanup_worker_pending_count : ℕ
  pub cleanup_worker_duration : ℕ
  pub eviction_count : ℕ
  pub expiration_count : ℕ

module _ {K V : Type 0} where
  -- A segment of a cache always has counters.
  abbrev pub counters : StorageSegment K V → SegmentStats
  counters t = elim t.stats [ none ↦ no_segment_stats | some c ↦ c ]

  -- What the loop over the segments adds up.
  unfoldable pub add_segment : StorageSegment K V → Stats → Stats
  add_segment t s =
      let c = counters t in
      record s {
        entry_count = s.entry_count + t.entries.len;
        hit_count = s.hit_count + c.hit_count;
        miss_count = s.miss_count + c.miss_count;
        eviction_count = s.eviction_count + c.eviction_count;
        expiration_count = s.expiration_count + c.expiration_count;
        load_found_count = s.load_found_count + c.load_found_count;
        load_not_found_count = s.load_not_found_count + c.load_not_found_count;
        load_error_count = s.load_error_count + c.load_error_count;
        load_superseded_count = s.load_superseded_count + c.load_superseded_count;
        load_duration = s.load_duration + c.load_duration_nanos;
        shared_count = s.shared_count + c.shared_count;
        deleted_entry_count = s.deleted_entry_count + c.deleted_entry_count;
      }

  unfoldable pub add_segments : List (StorageSegment K V) → Stats → Stats
  unfolding add_segment
  add_segments [] s = s
  add_segments (t ∷ ts) s = add_segments ts (add_segment t s)

  abbrev pub start_stats : Cache K V → Stats
  start_stats c = record {
    entry_count = 0;
    max_entries = c.store.max_entries;
    segment_count = length c.store.segments;
    hit_count = 0;
    miss_count = 0;
    load_found_count = 0;
    load_not_found_count = 0;
    load_error_count = 0;
    load_superseded_count = 0;
    load_duration = 0;
    shared_count = 0;
    deleted_entry_count = 0;
    cleared_entry_count = c.cleared_entry_count;
    cleanup_count = c.cleanup_count;
    cleanup_worker_run_count = c.cleanup_worker_run_count;
    cleanup_worker_pending_count = c.cleanup_worker_pending_count;
    cleanup_worker_duration = c.cleanup_worker_duration_nanos;
    eviction_count = 0;
    expiration_count = 0;
  }

  unfoldable pub stats : Cache K V → Stats
  unfolding add_segments
  stats c = add_segments c.store.segments (start_stats c)

  abbrev pub sum : (StorageSegment K V → ℕ) → List (StorageSegment K V) → ℕ
  sum f [] = 0
  sum f (t ∷ ts) = f t + sum f ts

  sum-set :
      (f : StorageSegment K V → ℕ) (i : ℕ) (ts : List (StorageSegment K V))
      (t u : StorageSegment K V)
      → get_elem? ts i ≡ some t
      → sum f (set ts i u) + f t ≡ sum f ts + f u
  sum-set f i [] t u e = ground arith
  sum-set f zero (v ∷ ts) t u e = ground arith
  sum-set f (suc i) (v ∷ ts) t u e = omega (arith, sum-set f i ts t u e)

  -- The loop adds the sums of the segments to where it began.
  add_segments-sum :
      (ts : List (StorageSegment K V)) (s : Stats)
      → ((add_segments ts s).entry_count ≡ s.entry_count + sum (λ t. t.entries.len) ts)
        × ((add_segments ts s).max_entries ≡ s.max_entries)
        × ((add_segments ts s).segment_count ≡ s.segment_count)
        × ((add_segments ts s).hit_count ≡ s.hit_count + sum (λ t. (counters t).hit_count) ts)
        × ((add_segments ts s).miss_count ≡ s.miss_count + sum (λ t. (counters t).miss_count) ts)
  unfolding add_segments add_segment
  add_segments-sum [] s = (omega arith, refl, refl, omega arith, omega arith)
  add_segments-sum (t ∷ ts) s =
      let (a, b, c, d, e) = add_segments-sum ts (add_segment t s) in
      (omega (arith, a), b, c, omega (arith, d), omega (arith, e))

  stats-sum :
      (c : Cache K V)
      → ((stats c).entry_count ≡ sum (λ t. t.entries.len) c.store.segments)
        × ((stats c).max_entries ≡ c.store.max_entries)
        × ((stats c).segment_count ≡ length c.store.segments)
        × ((stats c).hit_count ≡ sum (λ t. (counters t).hit_count) c.store.segments)
        × ((stats c).miss_count ≡ sum (λ t. (counters t).miss_count) c.store.segments)
  unfolding stats
  stats-sum c =
      let (a, b, d, e, f) = add_segments-sum c.store.segments (start_stats c) in
      (omega (arith, a), b, d, omega (arith, e), omega (arith, f))

  -- Every segment has its counters.
  abbrev pub AllCounted : List (StorageSegment K V) → Type 0
  AllCounted [] = Unit {0}
  AllCounted (t ∷ ts) = ((c : SegmentStats) × (t.stats ≡ some c)) × AllCounted ts

  AllCounted-at :
      (i : ℕ) (ts : List (StorageSegment K V)) (t : StorageSegment K V)
      → AllCounted ts
      → get_elem? ts i ≡ some t
      → (c : SegmentStats) × (t.stats ≡ some c)
  AllCounted-at i [] t a e = ground arith
  AllCounted-at zero (u ∷ ts) t a e =
      let same : u ≡ t = ground arith in
      subst (λ (v : StorageSegment K V). (c : SegmentStats) × (v.stats ≡ some c)) same a.0
  AllCounted-at (suc i) (u ∷ ts) t a e = AllCounted-at i ts t a.1 e

abbrev pub one_if : Bool → ℕ
one_if true = 1
one_if false = 0

abbrev pub is_some : {A : Type 0} → Option A → Bool
is_some none = false
is_some (some a) = true

module _ {K V : Type 0} (dec : Discrete K) where
  -- A lookup counts a hit or a miss.
  counted-read :
      (m : Model K V) (k : K) (now : ℕ) (c : SegmentStats)
      → m.stats ≡ some c
      → let found = is_some (value_of (read dec k now m).1) in
        (d : SegmentStats) × ((counted (read dec k now m)).0.stats ≡ some d)
        × (d.hit_count ≡ c.hit_count + one_if found)
        × (d.miss_count ≡ c.miss_count + one_if (not found))
  counted-read m k now c e = elim (Option-cases (find dec k m.items)) [
    | inl f ↦ rw (f, read) (count_miss c, ground (arith, e), omega arith, omega arith)
    | inr (d, f) ↦ elim (Bool-cases (is_expired d now)) [
      | inl old ↦
          rw (f, old, read)
            (count_miss (count_expiration c), ground (arith, e), omega arith, omega arith)
      | inr live ↦ rw (f, live, read) (count_hit c, ground (arith, e), omega arith, omega arith)
    ]
  ]

  entry_count-sum :
      (ts : List (StorageSegment K V)) → sum (λ t. t.entries.len) ts ≡ entry_count dec ts
  entry_count-sum [] = refl
  entry_count-sum (t ∷ ts) = ap (λ n. t.entries.len + n) (entry_count-sum ts)

  -- In the snapshot of the statistics of a valid cache, the number of entries is at most the
  -- capacity, and the number of segments is that of the storage.
  stats-bounded :
      (c : Cache K V) (ms : List (Model K V))
      → Valid dec c ms
      → ((stats c).entry_count ≤ (stats c).max_entries) × ((stats c).segment_count ≡ length ms)
  stats-bounded c ms v = (
    omega
        (arith, stats-sum c, entry_count-sum c.store.segments, entry_count-max_entries dec c ms v),
    (stats-sum c).2 ∙ length-AllRefine dec c.store.segments ms v.refines,
  )

  -- In a valid cache whose segments have counters, a Get succeeds and in the snapshot of the
  -- statistics raises the hit count by one if it returns a value, and the miss count by one if it
  -- does not.
  pub get-stats :
      (hash : K → ℕ) (c : Cache K V) (ms : List (Model K V))
      → Valid dec c ms
      → AllCounted c.store.segments
      → (k : K) (now : ℕ)
      → (c' : Cache K V) × (v : Option V) × (get dec hash k now c ≡ ok (c', v))
        × ((stats c').hit_count ≡ (stats c).hit_count + one_if (is_some v))
        × ((stats c').miss_count ≡ (stats c).miss_count + one_if (not (is_some v)))
  unfolding get
  get-stats hash c ms v all k now =
      let i = segment_index hash c.store k in
      let (t, m, et, em, r) =
        AllRefine-at dec i c.store.segments ms v.refines (routed dec c ms v hash k).1 in
      let (t', e, q) = lookup-Refines dec index_laws r k now in
      let (b, et_stats) = AllCounted-at i c.store.segments t all et in
      let (d, after, hits, misses) = counted-read m k now b (r.stats ∙ et_stats) in
      let c' : Cache K V = record c {
        store = record c.store { segments = set c.store.segments i t' };
      } in
      let was : counters t ≡ b = ground (arith, et_stats) in
      let is_now : counters t' ≡ d = ground (arith, q.stats, after) in
      (
        c',
        value_of (read dec k now m).1,
        rw
            (at_segment_lem dec i (Lookup.lookup dec index_ops k now) c.store t t'
              (value_of (read dec k now m).1) et e)
            refl,
        omega (
          arith,
          stats-sum c,
          stats-sum c',
          sum-set (λ t. (counters t).hit_count) i c.store.segments t t' et,
          ap (λ (x : SegmentStats). x.hit_count) was,
          ap (λ (x : SegmentStats). x.hit_count) is_now,
          hits,
        ),
        omega (
          arith,
          stats-sum c,
          stats-sum c',
          sum-set (λ t. (counters t).miss_count) i c.store.segments t t' et,
          ap (λ (x : SegmentStats). x.miss_count) was,
          ap (λ (x : SegmentStats). x.miss_count) is_now,
          misses,
        ),
      )
