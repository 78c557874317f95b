-- ===== src/Cache/Valid.antt =====
-- What a cache of cache.go stands for: one model for each segment, to which its keys are routed.
use pacecache.Prelude.{
  ℕ, zero, suc, ◌≤◌, ◌<◌, ◌≡◌, ◌^◌, refl, sym, ap, ◌∙◌, Bool, some, List, [], ◌∷◌, map, ok, length,
  length-map, arith, ◌+◌, ◌/◌,
}
use native.Mathlib.Nat.{le-div_iff_mul-le}
use pacecache.Singleflight.{no_calls}
use pacecache.Cache.{Cache, new_cache, with_counters}
use pacecache.Expiration.{default_expiration_bucket_resolution}
use pacecache.Options.{new_settings}
use pacecache.Options.Valid.{Choice, chosen, new_settings-Positive}
use pacecache.Segment.Model.{Model}
use pacecache.Stats.{no_segment_stats}
use pacecache.Storage.Routing.{total_capacity, total_capacity-new_segments}
use pacecache.Storage.{
  entry_count, new_segments, StorageSegment, segment_mask, word_bits, segment_capacity,
}
use pacecache.Storage.Drain.{AllRefine, AllIndexed}
use pacecache.Storage.At.{length-AllRefine, entry_count-bounded}
use pacecache.Storage.Fresh.{empty_models, new_storage-AllRefine}

-- Every segment can hold an entry.
abbrev pub AllRoomy : {K V : Type 0} → List (Model K V) → Type 0
AllRoomy [] = Unit {0}
AllRoomy (m ∷ ms) = (0 < m.max_entries) × AllRoomy ms

-- The sum of the capacities.
abbrev pub model_capacity : {K V : Type 0} → List (Model K V) → ℕ
model_capacity [] = 0
model_capacity (m ∷ ms) = m.max_entries + model_capacity ms

abbrev counted : {K V : Type 0} → List (Model K V) → List (Model K V)
counted [] = []
counted (m ∷ ms) = record m { stats = some no_segment_stats } ∷ counted ms

module _ (K V : Type 0) where
  length-empty_models :
      (sliding : Bool) (r m c i n : ℕ) → length (empty_models {K = K} {V = V} sliding r m c i n) ≡ n
  length-empty_models sliding r m c i zero = refl
  length-empty_models sliding r m c i (suc n) = ap suc (length-empty_models sliding r m c (i + 1) n)

  fresh_capacity :
      (sliding : Bool) (r m c i n : ℕ)
      → model_capacity (counted (empty_models {K = K} {V = V} sliding r m c i n))
        ≡ total_capacity (new_segments {K = K} {V = V} m c i n)
  unfolding new_segments
  fresh_capacity sliding r m c i zero = refl
  fresh_capacity sliding r m c i (suc n) =
      ap (λ t. segment_capacity m c i + t) (fresh_capacity sliding r m c (i + 1) n)

  module _ (sliding : Bool) (r m c : ℕ) (fits : c ≤ m) (some_segment : 0 < c) where
    capacity_positive : (i : ℕ) → 0 < segment_capacity m c i
    capacity_positive i =
        let base : 1 ≤ m / c = (le-div_iff_mul-le some_segment).1 (omega arith) in ground arith

    fresh_roomy : (i n : ℕ) → AllRoomy (counted (empty_models {K = K} {V = V} sliding r m c i n))
    fresh_roomy i zero = tt
    fresh_roomy i (suc n) = (capacity_positive i, fresh_roomy (i + 1) n)

module _ {K : Type 0} (dec : Discrete K) where
  fresh_indexed :
      (V : Type 0) (sliding : Bool) (r m c i n : ℕ)
      → 0 < r
      → AllIndexed dec (counted (empty_models {K = K} {V = V} sliding r m c i n))
  fresh_indexed V sliding r m c i zero on = tt
  fresh_indexed V sliding r m c i (suc n) on = (on, fresh_indexed V sliding r m c (i + 1) n on)

module _ {K V : Type 0} (dec : Discrete K) where
  pub record Valid (c : Cache K V) (ms : List (Model K V)) : Type 0 where
    pub refines : AllRefine dec c.store.segments ms
    pub indexed : AllIndexed dec ms
    pub roomy : AllRoomy ms
    pub capacity : model_capacity ms ≡ c.store.max_entries
    pub some_segment : 0 < length c.store.segments
    pub word : length c.store.segments < 2 ^ word_bits
    pub mask : c.store.mask ≡ segment_mask (length c.store.segments)
    pub groups : length c.states ≡ length c.store.segments
    pub batch : 0 < c.batch_size
    pub budget : 0 < c.entry_budget

  counted-AllRefine :
      (ts : List (StorageSegment K V)) (ms : List (Model K V))
      → AllRefine dec ts ms
      → AllRefine dec
          (map {A = StorageSegment K V} (λ t. record t { stats = some no_segment_stats }) ts)
          (counted ms)
  counted-AllRefine [] [] a = tt
  counted-AllRefine [] (m ∷ ms) a = elim a [ ]
  counted-AllRefine (t ∷ ts) [] a = elim a [ ]
  counted-AllRefine (t ∷ ts) (m ∷ ms) (r, a) = (
    record {
      nodes = r.nodes;
      holds = record { shape = r.holds.shape; filed = r.holds.filed; bounded = r.holds.bounded };
      listed = r.listed;
      capacity = r.capacity;
      sliding = r.sliding;
      resolution = r.resolution;
      stats = refl;
    },
    counted-AllRefine ts ms a,
  )

  -- Whatever options are given, as long as the capacity that they set is below 2 ^ 64, a cache is
  -- created without a panic and is valid: each segment stands for a model, has room for an entry
  -- and an expiration index, the capacities sum to that of the storage, there is a group for each
  -- segment, and the mask is that of their number.
  pub new_cache-Valid :
      (loader : Bool) (cs : List Choice)
      → (new_settings (map chosen cs)).max_entries < 2 ^ word_bits
      → (c : Cache K V) × (ms : List (Model K V)) × (new_cache loader (map chosen cs) ≡ ok c)
        × Valid c ms
  unfolding new_cache
  new_cache-Valid loader cs word =
      let s = new_settings (map chosen cs) in
      let (p, fits) = new_settings-Positive cs in
      let (store, e, a, mask, most) =
        new_storage-AllRefine V dec s.max_entries s.segment_count s.sliding_expiration p.0 p.1 in
      let ms =
        empty_models s.sliding_expiration default_expiration_bucket_resolution s.max_entries
          s.segment_count 0 s.segment_count in
      let size : length store.segments ≡ s.segment_count =
        length-AllRefine dec store.segments ms a
        ∙ length-empty_models K V s.sliding_expiration default_expiration_bucket_resolution
            s.max_entries s.segment_count 0 s.segment_count in
      let c : Cache K V = record {
        loader = loader;
        store = with_counters store;
        states = map {A = StorageSegment K V} (λ _. no_calls) store.segments;
        cleared_entry_count = 0;
        cleanup_count = 0;
        cleanup_worker_run_count = 0;
        cleanup_worker_pending_count = 0;
        cleanup_worker_duration_nanos = 0;
        name = s.name;
        ttl = s.ttl;
        jitter = s.jitter;
        batch_size = s.cleanup_batch_size;
        entry_budget = s.cleanup_entry_budget;
        cleanup_interval = s.cleanup_interval;
      } in
      let whole : length c.store.segments ≡ s.segment_count =
        length-map {A = StorageSegment K V} _ store.segments ∙ size in
      (
        c,
        counted ms,
        rw e refl,
        record {
          refines = counted-AllRefine store.segments ms a;
          indexed =
              fresh_indexed dec V s.sliding_expiration default_expiration_bucket_resolution
                s.max_entries s.segment_count 0 s.segment_count (ground arith);
          roomy =
              fresh_roomy K V s.sliding_expiration default_expiration_bucket_resolution
                s.max_entries s.segment_count fits p.1 0 s.segment_count;
          capacity =
              fresh_capacity K V s.sliding_expiration default_expiration_bucket_resolution
                s.max_entries s.segment_count 0 s.segment_count
              ∙ total_capacity-new_segments K V s.max_entries s.segment_count p.1
              ∙ sym most;
          some_segment = omega (arith, whole, p.1);
          word = omega (arith, whole, fits);
          mask = mask ∙ ap segment_mask (sym whole);
          groups = length-map {A = StorageSegment K V} _ store.segments ∙ size ∙ sym whole;
          batch = p.4;
          budget = p.5;
        },
      )

  model_capacity-AllRefine :
      (ts : List (StorageSegment K V)) (ms : List (Model K V))
      → AllRefine dec ts ms
      → total_capacity ts ≡ model_capacity ms
  model_capacity-AllRefine [] [] a = refl
  model_capacity-AllRefine [] (m ∷ ms) a = elim a [ ]
  model_capacity-AllRefine (t ∷ ts) [] a = elim a [ ]
  model_capacity-AllRefine (t ∷ ts) (m ∷ ms) (r, a) =
      omega (arith, r.capacity, model_capacity-AllRefine ts ms a)

  -- A valid cache holds no more entries than the capacity of its storage.
  pub entry_count-max_entries :
      (c : Cache K V) (ms : List (Model K V))
      → Valid c ms
      → entry_count dec c.store.segments ≤ c.store.max_entries
  entry_count-max_entries c ms v = omega (
    arith,
    entry_count-bounded dec c.store.segments ms v.refines,
    model_capacity-AllRefine c.store.segments ms v.refines,
    v.capacity,
  )
