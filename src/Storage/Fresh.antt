-- ===== src/Storage/Fresh.antt =====
-- A new storage of storage.go stands for empty models with the settings that it was created with.
use pacecache.Prelude.{
  ℕ, zero, suc, ◌+◌, ◌<◌, ◌≡◌, refl, sym, Bool, true, false, none, List, [], ◌∷◌, ok, if◌then◌else◌,
  arith,
}
use pacecache.Prelude.GoMap
use pacecache.Expiration.{default_expiration_bucket_resolution}
use pacecache.Expiration.Index.{new_expiration_index}
use pacecache.Expiration.Index.Laws.{index_laws}
use pacecache.Lru.{no_links}
use pacecache.Segment.Model.{Model}
use pacecache.Segment.Refines.{Refines}
use pacecache.Storage.{
  Storage, StorageSegment, segment_capacity, segment_mask, new_segments, new_storage,
  new_storage_with_segments, new_storage_with_expiration_resolution, enable_expiration_index,
  enable_sliding_expiration,
}
use pacecache.Storage.Drain.{AllRefine}

abbrev pub empty_model :
    {K V : Type 0} → (max_entries : ℕ) (sliding : Bool) (resolution : ℕ) → Model K V
empty_model m sliding r = record {
  items = [];
  max_entries = m;
  sliding = sliding;
  resolution = r;
  stats = none;
}

-- The models of `n` segments from `index` on.
abbrev pub empty_models :
    {K V : Type 0}
    → (sliding : Bool) (resolution max_entries segment_count index n : ℕ) → List (Model K V)
empty_models sliding r m c index zero = []
empty_models sliding r m c index (suc n) =
    empty_model (segment_capacity m c index) sliding r ∷ empty_models sliding r m c (index + 1) n

module _ {K : Type 0} (V : Type 0) (dec : Discrete K) where
  pub empty-Refines :
      (s : StorageSegment K V) (m : ℕ) (sliding : Bool) (r : ℕ)
      → s ≡ record {
        entries = GoMap.empty;
        cells = λ _. none;
        fresh = 1;
        lru = no_links;
        expirations = new_expiration_index r;
        sliding_expiration = sliding;
        max_entries = m;
        stats = none;
      }
      → Refines dec index_laws s (empty_model m sliding r)
  unfolding new_expiration_index
  empty-Refines s m sliding r e = rw e (record {
    nodes = [];
    holds = record {
      shape = record {
        order = record { chain = (refl, refl); proper = refl; distinct = tt };
        stored = tt;
        mapped = λ k. refl;
        counted = refl;
        keys = tt;
        allocated = tt;
        positive = omega arith;
      };
      filed = (index_laws.create_files r).0;
      bounded = omega arith;
    };
    listed = refl;
    capacity = refl;
    sliding = refl;
    resolution = sym (index_laws.create_files r).1;
    stats = refl;
  })

  fresh-AllRefine :
      (m c k index n : ℕ) (sliding : Bool)
      → AllRefine dec
          (if sliding
            then (enable_sliding_expiration (
                enable_expiration_index {K = K} {V = V} default_expiration_bucket_resolution
                  (record {
                    segments = new_segments {K = K} {V = V} m c index n;
                    mask = segment_mask k;
                    max_entries = m;
                  }))).segments
            else (enable_expiration_index default_expiration_bucket_resolution (record {
              segments = new_segments {K = K} {V = V} m c index n;
              mask = segment_mask k;
              max_entries = m;
            })).segments)
          (empty_models sliding default_expiration_bucket_resolution m c index n)
  unfolding enable_sliding_expiration enable_expiration_index new_segments
  fresh-AllRefine m c k index zero true = tt
  fresh-AllRefine m c k index zero false = tt
  fresh-AllRefine m c k index (suc n) true = (
    empty-Refines _ (segment_capacity m c index) true default_expiration_bucket_resolution refl,
    fresh-AllRefine m c k (index + 1) n true,
  )
  fresh-AllRefine m c k index (suc n) false = (
    empty-Refines _ (segment_capacity m c index) false default_expiration_bucket_resolution refl,
    fresh-AllRefine m c k (index + 1) n false,
  )

  -- For a positive capacity and number of segments, a new storage has empty segments, each with its
  -- part of the capacity and an index at the default resolution; it has the mask of their number and the whole capacity.
  pub new_storage-AllRefine :
      (m c : ℕ) (sliding : Bool)
      → 0 < m
      → 0 < c
      → (s : Storage K V) × (new_storage m c sliding ≡ ok s)
        × AllRefine dec s.segments
            (empty_models sliding default_expiration_bucket_resolution m c 0 c)
        × (s.mask ≡ segment_mask c)
        × (s.max_entries ≡ m)
  unfolding new_storage new_storage_with_expiration_resolution new_storage_with_segments
      enable_sliding_expiration enable_expiration_index
  new_storage-AllRefine m c true pm pc = (
    enable_sliding_expiration (
        enable_expiration_index default_expiration_bucket_resolution
          (record { segments = new_segments m c 0 c; mask = segment_mask c; max_entries = m })),
    ground (arith, pm, pc),
    fresh-AllRefine m c c 0 c true,
    refl,
    refl,
  )
  new_storage-AllRefine m c false pm pc = (
    enable_expiration_index default_expiration_bucket_resolution
        (record { segments = new_segments m c 0 c; mask = segment_mask c; max_entries = m }),
    ground (arith, pm, pc),
    fresh-AllRefine m c c 0 c false,
    refl,
    refl,
  )
