-- ===== src/Segment.antt =====
-- `storageSegment` of segment.go: the map from keys to entries, the LRU list, the expiration index
-- and the counters under the segment's lock. An operation holds the lock from start to end, so it
-- is one function of the state. `panic` stands for the code's panics and nil dereferences.
pub mod Lookup
pub mod Update
pub mod Model
pub mod Nodes
pub mod Shape
pub mod Invariant
pub mod Refines
pub mod Reads
pub mod Insert
pub mod Store
pub mod Removal
pub mod Cleanup
use pacecache.Prelude.{
  ℕ, suc, ◌+◌, ◌≡◌, Bool, true, false, Option, none, some, Result, ok, panic, ◌>>=◌, leb, ltb, ◌==◌,
  ◌!=◌, ◌&&◌, if◌then◌else◌,
}
use mathlib.Core.Option as O
use pacecache.Prelude.GoMap
use pacecache.Prelude.GoMap.{GoMap}
use pacecache.Chain.{Ptr, nil, write}
use pacecache.Clock.{deadline_after}
use pacecache.Expiration.{IndexOps, enabled, due_bucket_id}
use pacecache.Lru.{Lru, no_links, push_front, unlink, move_to_front}
use pacecache.Stats.{SegmentStats}

-- The fields of `entry` that are not links. A `deadline` of 0 means that the entry does not expire,
-- a `refresh_ttl` of 0 that sliding expiration leaves it alone.
pub record Entry (K V : Type 0) : Type 0 where
  pub key : K
  pub value : V
  pub refresh_ttl : ℕ
  pub deadline : ℕ

-- `fresh` is the next address that an allocation returns. `stats` are the counters that each call
-- of the program passes for this segment; `none` is the nil that the tests pass.
pub record Segment (K V I : Type 0) : Type 0 where
  pub entries : GoMap K Ptr
  pub cells : Ptr → Option (Entry K V)
  pub fresh : Ptr
  pub lru : Lru
  pub expirations : I
  pub sliding_expiration : Bool
  pub max_entries : ℕ
  pub stats : Option SegmentStats

-- The snapshot of a value and its deadline.
pub record CachedEntry (V : Type 0) : Type 0 where
  pub value : V
  pub deadline : ℕ

module _ {K V : Type 0} where
  -- `item.deadline != 0 && now >= item.deadline`
  abbrev pub is_expired : Entry K V → ℕ → Bool
  is_expired item now = (item.deadline != 0) && leb item.deadline now

  abbrev pub snapshot : Entry K V → CachedEntry V
  snapshot item = record { value = item.value; deadline = item.deadline }

abbrev pub count_expiration : SegmentStats → SegmentStats
count_expiration c = record c { expiration_count = c.expiration_count + 1 }

abbrev pub count_miss : SegmentStats → SegmentStats
count_miss c = record c { miss_count = c.miss_count + 1 }

abbrev pub count_hit : SegmentStats → SegmentStats
count_hit c = record c { hit_count = c.hit_count + 1 }

abbrev pub count_eviction : SegmentStats → SegmentStats
count_eviction c = record c { eviction_count = c.eviction_count + 1 }

module _ {K V I : Type 0} where
  -- `if stats != nil { stats.xCount++ }`
  abbrev pub count : (SegmentStats → SegmentStats) → Segment K V I → Segment K V I
  count f s = record s { stats = elim s.stats [ none ↦ none | some c ↦ some (f c) ] }

  abbrev pub load : Segment K V I → Ptr → Result (Entry K V)
  load s p = elim (s.cells p) [ none ↦ panic | some item ↦ ok item ]

  abbrev pub store : Segment K V I → Ptr → Entry K V → Segment K V I
  store s p item = record s { cells = write s.cells p (some item) }

module _ {K V : Type 0} (dec : Discrete K) (ix : IndexOps) where
  -- `expirations.update(item, deadline)`: the index and the entry's deadline.
  unfoldable pub update_deadline :
      Segment K V ix.State → Ptr → (deadline : ℕ) → Result (Segment K V ix.State)
  update_deadline s p deadline = do
    item ← load s p
    i ← ix.update s.expirations p item.deadline deadline
    ok (store (record s { expirations = i }) p (record item { deadline = deadline }))

  unfoldable pub remove_locked : Segment K V ix.State → Ptr → Result (Segment K V ix.State)
  remove_locked s p = do
    item ← load s p
    i ← ix.remove s.expirations p item.deadline
    ok (record s {
      expirations = i;
      entries = GoMap.delete dec s.entries item.key;
      lru = unlink s.lru p;
    })

  -- The deadline moves only forward: `now` may be older than the last refresh.
  unfoldable pub refresh :
      Segment K V ix.State → Ptr → Entry K V → (now : ℕ) → Result (Segment K V ix.State)
  unfolding update_deadline
  refresh s p item now =
      let deadline = deadline_after now item.refresh_ttl in
      if ltb item.deadline deadline then update_deadline s p deadline else ok s

  -- The live path of `getLocked` and `getEntryLocked`.
  unfoldable pub touch :
      Segment K V ix.State → Ptr → Entry K V → (now : ℕ) → Result (Segment K V ix.State)
  unfolding refresh
  touch s p item now = do
    s' ← if s.sliding_expiration && ltb 0 item.refresh_ttl then refresh s p item now else ok s
    ok (record s' { lru = move_to_front s'.lru p })
