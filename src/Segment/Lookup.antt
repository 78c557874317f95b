-- ===== src/Segment/Lookup.antt =====
-- The operations of segment.go that read: `exists`, `refreshTTL`, `lookup`, `lookupEntry` and the
-- locked reads that they share with the insertions.
use pacecache.Prelude.{
  ℕ, Bool, true, false, Option, none, some, Result, ok, ◌>>=◌, ◌==◌, if◌then◌else◌,
}
use pacecache.Expiration.{IndexOps}
use pacecache.Segment.{
  Segment, CachedEntry, is_expired, snapshot, count_expiration, count_miss, count_hit, count, load,
  remove_locked, refresh, touch,
}

module _ {K V : Type 0} (dec : Discrete K) (ix : IndexOps) where
  unfoldable pub exists :
      K → (now : ℕ) → Segment K V ix.State → Result (Segment K V ix.State × Bool)
  unfolding remove_locked
  exists key now s = elim (s.entries.at key) [
    | none ↦ ok (s, false)
    | some p ↦ do
      item ← load s p
      if is_expired item now
          then (do s' ← remove_locked dec ix s p; ok (count count_expiration s', false))
          else ok (s, true)
  ]

  unfoldable pub refresh_ttl :
      K → (now : ℕ) → Segment K V ix.State → Result (Segment K V ix.State × Bool)
  unfolding remove_locked refresh
  refresh_ttl key now s = elim (s.entries.at key) [
    | none ↦ ok (s, false)
    | some p ↦ do
      item ← load s p
      if is_expired item now
          then (do s' ← remove_locked dec ix s p; ok (count count_expiration s', false))
          else if item.refresh_ttl == 0
          then ok (s, true)
          else (do s' ← refresh dec ix s p item now; ok (s', true))
  ]

  unfoldable pub get_entry_locked :
      K → (now : ℕ) → Segment K V ix.State → Result (Segment K V ix.State × Option (CachedEntry V))
  unfolding remove_locked touch
  get_entry_locked key now s = elim (s.entries.at key) [
    | none ↦ ok (s, none)
    | some p ↦ do
      item ← load s p
      if is_expired item now
          then (do s' ← remove_locked dec ix s p; ok (count count_expiration s', none))
          else (do
            s' ← touch dec ix s p item now
            current ← load s' p
            ok (s', some (snapshot current)))
  ]

  unfoldable pub get_locked :
      K → (now : ℕ) → Segment K V ix.State → Result (Segment K V ix.State × Option V)
  unfolding remove_locked touch
  get_locked key now s = elim (s.entries.at key) [
    | none ↦ ok (s, none)
    | some p ↦ do
      item ← load s p
      if is_expired item now
          then (do s' ← remove_locked dec ix s p; ok (count count_expiration s', none))
          else (do s' ← touch dec ix s p item now; current ← load s' p; ok (s', some current.value))
  ]

  -- `if ok { hitCount++ } else { missCount++ }`
  abbrev pub count_lookup :
      {A : Type 0} → Segment K V ix.State × Option A → Segment K V ix.State × Option A
  count_lookup (s, none) = (count count_miss s, none)
  count_lookup (s, some a) = (count count_hit s, some a)

  unfoldable pub lookup :
      K → (now : ℕ) → Segment K V ix.State → Result (Segment K V ix.State × Option V)
  lookup key now s = do r ← get_locked key now s; ok (count_lookup r)

  unfoldable pub lookup_entry :
      K → (now : ℕ) → Segment K V ix.State → Result (Segment K V ix.State × Option (CachedEntry V))
  lookup_entry key now s = do r ← get_entry_locked key now s; ok (count_lookup r)
