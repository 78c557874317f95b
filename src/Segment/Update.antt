-- ===== src/Segment/Update.antt =====
-- The operations of segment.go that insert and remove.
use pacecache.Prelude.{
  ℕ, zero, suc, ◌+◌, Bool, true, false, Option, none, some, Result, ok, panic, ◌>>=◌, leb, ◌==◌,
  ◌!=◌, if◌then◌else◌,
}
use pacecache.Prelude.GoMap
use pacecache.Prelude.GoMap.{GoMap}
use pacecache.Chain.{nil}
use pacecache.Expiration.{IndexOps, enabled, due_bucket_id}
use pacecache.Lru.{push_front, unlink, move_to_front}
use pacecache.Segment.{
  Entry, Segment, CachedEntry, is_expired, count_expiration, count_eviction, count, load, store,
  update_deadline, remove_locked,
}
use pacecache.Segment.Lookup.{get_locked, get_entry_locked}

module _ {K V : Type 0} (dec : Discrete K) (ix : IndexOps) where
  unfoldable pub set_locked :
      K → V → (refresh_ttl deadline : ℕ) → Segment K V ix.State → Result (Segment K V ix.State)
  unfolding update_deadline
  set_locked key value ttl deadline s =
      let refresh_ttl = if deadline == 0 then 0 else ttl in
      elim (s.entries.at key) [
        | some p ↦ do
          item ← load s p
          s1 ←
              update_deadline dec ix
                (store s p (record item { value = value; refresh_ttl = refresh_ttl })) p deadline
          ok (record s1 { lru = move_to_front s1.lru p })
        | none ↦
            let new : Entry K V = record {
              key = key;
              value = value;
              refresh_ttl = refresh_ttl;
              deadline = 0;
            } in
            if leb s.max_entries s.entries.len
            then (do
              let p = s.lru.tail
              item ← load s p
              i ← ix.remove s.expirations p item.deadline
              s1 ←
                  update_deadline dec ix
                    (store
                      (record (count count_eviction s) {
                        expirations = i;
                        entries = GoMap.delete dec s.entries item.key;
                      })
                      p new)
                    p deadline
              ok (record s1 {
                entries = GoMap.insert dec s1.entries key p;
                lru = move_to_front s1.lru p;
              }))
            else (do
              let p = s.fresh
              s1 ←
                  update_deadline dec ix (store (record s { fresh = suc s.fresh }) p new) p deadline
              ok (record s1 {
                entries = GoMap.insert dec s1.entries key p;
                lru = push_front s1.lru p;
              }))
      ]

  -- A segment of capacity 0 stores nothing.
  unfoldable pub set :
      K → V → (refresh_ttl deadline : ℕ) → Segment K V ix.State → Result (Segment K V ix.State)
  unfolding set_locked
  set key value ttl deadline s =
      if s.max_entries == 0 then ok s else set_locked key value ttl deadline s

  -- The value is `none` where the code returns the zero value.
  unfoldable pub get_or_set :
      K
      → V
      → (refresh_ttl deadline now : ℕ) → Segment K V ix.State
      → Result (Segment K V ix.State × Option V × Bool)
  unfolding set_locked
  get_or_set key value ttl deadline now s = if s.max_entries == 0 then ok (s, none, false) else do
    (s1, current) ← get_locked dec ix key now s
    elim current [
      | some v ↦ ok (s1, some v, true)
      | none ↦ do s2 ← set_locked key value ttl deadline s1; ok (s2, some value, false)
    ]

  unfoldable pub get_or_set_entry :
      K
      → V
      → (refresh_ttl deadline now : ℕ) → Segment K V ix.State
      → Result (Segment K V ix.State × Option (CachedEntry V) × Bool)
  unfolding set_locked
  get_or_set_entry key value ttl deadline now s =
      if s.max_entries == 0 then ok (s, none, false) else do
        (s1, current) ← get_entry_locked dec ix key now s
        elim current [
          | some v ↦ ok (s1, some v, true)
          | none ↦ do
            s2 ← set_locked key value ttl deadline s1
            ok (s2, some (record { value = value; deadline = deadline }), false)
        ]

  unfoldable pub get_and_delete :
      K → (now : ℕ) → Segment K V ix.State → Result (Segment K V ix.State × Option V)
  get_and_delete key now s = elim (s.entries.at key) [
    | none ↦ ok (s, none)
    | some p ↦ do
      item ← load s p
      if is_expired item now
          then (do s' ← remove_locked dec ix s p; ok (count count_expiration s', none))
          else (do let value = item.value; s' ← remove_locked dec ix s p; ok (s', some value))
  ]

  unfoldable pub delete : K → Segment K V ix.State → Result (Segment K V ix.State × Bool)
  delete key s = elim (s.entries.at key) [
    | none ↦ ok (s, false)
    | some p ↦ do s' ← remove_locked dec ix s p; ok (s', true)
  ]

  unfoldable pub delete_all : Segment K V ix.State → Segment K V ix.State × ℕ
  delete_all s = (
    record s {
      entries = GoMap.empty;
      lru = record s.lru { head = nil; tail = nil };
      expirations = ix.reset s.expirations;
    },
    s.entries.len,
  )

  -- One round of the loop of `cleanupExpired`.
  unfoldable pub cleanup_one : Segment K V ix.State → Result (Segment K V ix.State)
  cleanup_one s = do
    (p, i) ← ix.pop_root_entry s.expirations
    item ← load s p
    elim (s.entries.at item.key) [
      | none ↦ panic
      | some current ↦
          if current != p
          then panic
          else ok (
              count count_expiration (record s {
                expirations = i;
                entries = GoMap.delete dec s.entries item.key;
                lru = unlink s.lru p;
              }))
    ]

  -- `rounds` is `limit - removed`, so that the loop ends by itself.
  unfoldable pub cleanup_loop :
      (rounds due removed : ℕ) → Segment K V ix.State → Result (Segment K V ix.State × ℕ)
  unfolding cleanup_one
  cleanup_loop zero due removed s = ok (s, removed)
  cleanup_loop (suc rounds) due removed s = elim (ix.has_due_bucket s.expirations due) [
    | false ↦ ok (s, removed)
    | true ↦ do s' ← cleanup_one s; cleanup_loop rounds due (removed + 1) s'
  ]

  unfoldable pub cleanup_expired :
      (now limit : ℕ) → Segment K V ix.State → Result (Segment K V ix.State × ℕ × Bool)
  unfolding cleanup_loop
  cleanup_expired now limit s =
      if limit == 0
      then ok (s, 0, false)
      else if enabled ix s.expirations
      then (do
        let due = due_bucket_id (ix.resolution s.expirations) now
        (s', removed) ← cleanup_loop limit due 0 s
        ok (s', removed, ix.has_due_bucket s'.expirations due))
      else ok (s, 0, false)
