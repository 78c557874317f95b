-- ===== src/Storage.antt =====
-- storage.go: independent segments, the routing of keys to them, and the operations on all of them.
-- `hash` is maphash.Comparable under the seed of the storage.
pub mod Routing
pub mod Drain
pub mod Fresh
pub mod At
use pacecache.Prelude.{
  ℕ, zero, suc, ◌+◌, ◌-◌, ◌*◌, ◌/◌, ◌%◌, ◌^◌, min, Bool, true, false, ◌||◌, Option, none, some,
  List, [], ◌∷◌, map, Result, ok, panic, ◌>>=◌, ltb, ◌==◌, ◌!=◌, if◌then◌else◌, length, get_elem?,
  set,
}
use pacecache.Prelude.GoMap
use pacecache.Expiration.{default_expiration_bucket_resolution}
use pacecache.Expiration.Index.{Index, index_ops, new_expiration_index}
use pacecache.Lru.{no_links}
use pacecache.Options.{default_max_entries, default_storage_segment_count}
use pacecache.Segment.{Segment, CachedEntry}
use pacecache.Segment.Lookup
use pacecache.Segment.Update

-- A segment with the index of expiration.go.
abbrev pub StorageSegment : (K V : Type 0) → Type 0
StorageSegment K V = Segment K V Index

-- `mask` is 0 where the number of segments is 1 or not a power of two.
pub record Storage (K V : Type 0) : Type 0 where
  pub segments : List (StorageSegment K V)
  pub mask : ℕ
  pub max_entries : ℕ

-- The bitwise and of two numbers below 2 ^ bits.
unfoldable pub bit_and : (bits : ℕ) → (a b : ℕ) → ℕ
bit_and zero a b = 0
bit_and (suc bits) a b = (a % 2) * (b % 2) + 2 * bit_and bits (a / 2) (b / 2)

abbrev pub word_bits : ℕ
word_bits = 64

abbrev pub segment_capacity : (max_entries segment_count index : ℕ) → ℕ
segment_capacity max_entries segment_count index =
    let base = max_entries / segment_count in
    if ltb index (max_entries % segment_count) then base + 1 else base

unfoldable pub segment_mask : (segment_count : ℕ) → ℕ
segment_mask n = if bit_and word_bits n (n - 1) == 0 then n - 1 else 0

module _ {K V : Type 0} where
  -- The zero value of the index has the resolution 0.
  abbrev pub new_segment : (max_entries : ℕ) → StorageSegment K V
  new_segment max_entries = record {
    entries = GoMap.empty;
    cells = λ _. none;
    fresh = 1;
    lru = no_links;
    expirations = new_expiration_index 0;
    sliding_expiration = false;
    max_entries = max_entries;
    stats = none;
  }

  -- The `n` segments from `index` on.
  unfoldable pub new_segments : (max_entries segment_count index n : ℕ) → List (StorageSegment K V)
  new_segments max_entries segment_count index zero = []
  new_segments max_entries segment_count index (suc n) =
      new_segment (segment_capacity max_entries segment_count index)
      ∷ new_segments max_entries segment_count (index + 1) n

  -- No segments at all is a division by zero. That `make` panics when so many segments do not fit in
  -- memory is left out.
  unfoldable pub new_storage_with_segments : (max_entries segment_count : ℕ) → Result (Storage K V)
  new_storage_with_segments max_entries segment_count =
      if segment_count == 0
      then panic
      else ok (record {
        segments = new_segments max_entries segment_count 0 segment_count;
        mask = segment_mask segment_count;
        max_entries = max_entries;
      })

  unfoldable pub enable_expiration_index : (resolution : ℕ) → Storage K V → Storage K V
  enable_expiration_index resolution s = if resolution == 0 then s else record s {
    segments =
        map {A = StorageSegment K V}
          (λ t. record t { expirations = new_expiration_index resolution }) s.segments;
  }

  unfoldable pub enable_sliding_expiration : Storage K V → Storage K V
  enable_sliding_expiration s = record s {
    segments =
        map {A = StorageSegment K V} (λ t. record t { sliding_expiration = true }) s.segments;
  }

  unfoldable pub new_storage_with_expiration_resolution :
      (max_entries segment_count resolution : ℕ) → Result (Storage K V)
  unfolding new_storage_with_segments enable_expiration_index
  new_storage_with_expiration_resolution max_entries segment_count resolution = do
    let m = if max_entries == 0 then default_max_entries else max_entries
    let n = if segment_count == 0 then default_storage_segment_count else segment_count
    store ← new_storage_with_segments m n
    ok (enable_expiration_index resolution store)

  unfoldable pub new_storage :
      (max_entries segment_count : ℕ) → (sliding : Bool) → Result (Storage K V)
  unfolding new_storage_with_expiration_resolution enable_sliding_expiration
  new_storage max_entries segment_count sliding = do
    store ←
        new_storage_with_expiration_resolution max_entries segment_count
          default_expiration_bucket_resolution
    ok (if sliding then enable_sliding_expiration store else store)

  unfoldable pub segment_index : (hash : K → ℕ) → Storage K V → K → ℕ
  segment_index hash s key =
      if length s.segments == 1
      then 0
      else if s.mask != 0
      then bit_and word_bits (hash key) s.mask
      else hash key % length s.segments

  -- `storage.segments[index]` under an operation of the segment; out of range it panics.
  unfoldable pub at_segment :
      {A : Type 0}
      → ℕ
      → (StorageSegment K V → Result (StorageSegment K V × A))
      → Storage K V
      → Result (Storage K V × A)
  at_segment index f s = elim (get_elem? s.segments index) [
    | none ↦ panic
    | some t ↦ do (t', a) ← f t; ok (record s { segments = set s.segments index t' }, a)
  ]

module _ {K V : Type 0} (dec : Discrete K) where
  abbrev pub exists_at : ℕ → K → (now : ℕ) → Storage K V → Result (Storage K V × Bool)
  exists_at index key now s = at_segment index (Lookup.exists dec index_ops key now) s

  abbrev pub refresh_ttl_at : ℕ → K → (now : ℕ) → Storage K V → Result (Storage K V × Bool)
  refresh_ttl_at index key now s = at_segment index (Lookup.refresh_ttl dec index_ops key now) s

  abbrev pub lookup_at : ℕ → K → (now : ℕ) → Storage K V → Result (Storage K V × Option V)
  lookup_at index key now s = at_segment index (Lookup.lookup dec index_ops key now) s

  abbrev pub lookup_entry_at :
      ℕ → K → (now : ℕ) → Storage K V → Result (Storage K V × Option (CachedEntry V))
  lookup_entry_at index key now s = at_segment index (Lookup.lookup_entry dec index_ops key now) s

  abbrev pub get_entry_at :
      ℕ → K → (now : ℕ) → Storage K V → Result (Storage K V × Option (CachedEntry V))
  get_entry_at index key now s = at_segment index (Lookup.get_entry_locked dec index_ops key now) s

  abbrev pub set_at :
      ℕ → K → V → (refresh_ttl deadline : ℕ) → Storage K V → Result (Storage K V × Unit {0})
  set_at index key value ttl deadline s =
      at_segment index (λ t. do t' ← Update.set dec index_ops key value ttl deadline t; ok (t', tt))
        s

  abbrev pub get_or_set_at :
      ℕ
      → K
      → V
      → (refresh_ttl deadline now : ℕ) → Storage K V
      → Result (Storage K V × (Option V × Bool))
  get_or_set_at index key value ttl deadline now s =
      at_segment index
        (λ t. do
          (t', current, found) ← Update.get_or_set dec index_ops key value ttl deadline now t
          ok (t', (current, found)))
        s

  abbrev pub get_or_set_entry_at :
      ℕ
      → K
      → V
      → (refresh_ttl deadline now : ℕ) → Storage K V
      → Result (Storage K V × (Option (CachedEntry V) × Bool))
  get_or_set_entry_at index key value ttl deadline now s =
      at_segment index
        (λ t. do
          (t', current, found) ← Update.get_or_set_entry dec index_ops key value ttl deadline now t
          ok (t', (current, found)))
        s

  abbrev pub get_and_delete_at : ℕ → K → (now : ℕ) → Storage K V → Result (Storage K V × Option V)
  get_and_delete_at index key now s =
      at_segment index (Update.get_and_delete dec index_ops key now) s

  abbrev pub delete_at : ℕ → K → Storage K V → Result (Storage K V × Bool)
  delete_at index key s = at_segment index (Update.delete dec index_ops key) s

  unfoldable pub delete_segments : List (StorageSegment K V) → List (StorageSegment K V) × ℕ
  delete_segments [] = ([], 0)
  delete_segments (t ∷ ts) =
      let (t', n) = Update.delete_all dec index_ops t in
      let (ts', k) = delete_segments ts in (t' ∷ ts', n + k)

  unfoldable pub delete_all : Storage K V → Storage K V × ℕ
  unfolding delete_segments
  delete_all s = let (ts, n) = delete_segments s.segments in (record s { segments = ts }, n)

  -- One round of `cleanupExpired` over the segments: the segments, what is left of the budget, how
  -- many entries were removed, and whether some segment has more.
  unfoldable pub cleanup_pass :
      (now batch_size entry_budget remaining : ℕ)
      → List (StorageSegment K V)
      → Result (List (StorageSegment K V) × ℕ × ℕ × Bool)
  cleanup_pass now batch_size entry_budget remaining [] = ok ([], remaining, 0, false)
  cleanup_pass now batch_size entry_budget remaining (t ∷ ts) = do
    let available = if remaining == 0 then entry_budget else remaining
    (t', count, pending) ← Update.cleanup_expired dec index_ops now (min batch_size available) t
    (ts', left, removed, more) ← cleanup_pass now batch_size entry_budget (available - count) ts
    ok (t' ∷ ts', left, count + removed, pending || more)

  -- Rounds until no segment has more, each with the whole budget. `fuel` bounds their number.
  unfoldable pub cleanup_rounds :
      (fuel now batch_size entry_budget : ℕ)
      → List (StorageSegment K V)
      → Result (List (StorageSegment K V) × ℕ)
  unfolding cleanup_pass
  cleanup_rounds zero now batch_size entry_budget ts = panic
  cleanup_rounds (suc fuel) now batch_size entry_budget ts = do
    (ts', left, removed, more) ← cleanup_pass now batch_size entry_budget entry_budget ts
    elim more [
      | false ↦ ok (ts', removed)
      | true ↦ do
        (ts'', n) ← cleanup_rounds fuel now batch_size entry_budget ts'
        ok (ts'', removed + n)
    ]

  -- The number of resident entries.
  abbrev pub entry_count : List (StorageSegment K V) → ℕ
  entry_count [] = 0
  entry_count (t ∷ ts) = t.entries.len + entry_count ts

  -- Each round but the last removes an entry.
  unfoldable pub cleanup_expired :
      (now batch_size entry_budget : ℕ) → Storage K V → Result (Storage K V × ℕ)
  unfolding cleanup_rounds
  cleanup_expired now batch_size entry_budget s = do
    (ts, n) ← cleanup_rounds (suc (entry_count s.segments)) now batch_size entry_budget s.segments
    ok (record s { segments = ts }, n)
