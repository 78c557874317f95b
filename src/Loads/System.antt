-- ===== src/Loads/System.antt =====
-- The callers of load.go and the operations of set.go, delete.go, lookup.go and cleanup.go on one
-- segment and its group, interleaved in any order. An operation that takes `state.mu` is one step:
-- no registration and no publication comes between its call of `Forget` and its change of the
-- segment, and a lookup that does sees what it sees before the step.
use pacecache.Prelude.{ℕ, ◌≡◌, Result, ok, ◌>>=◌}
use pacecache.Prelude.Int.{ℤ}
use pacecache.Chain.{write}
use pacecache.Expiration.Index.{index_ops}
use pacecache.Loads.{Shard, Request, Env, Pc, entered, advance}
use pacecache.Segment.Lookup
use pacecache.Segment.Update
use pacecache.Singleflight.{Group, forget, forget_all}
use pacecache.Storage.{StorageSegment}
use pacecache.Stats.{add_deleted}
use pacecache.Types.{LoadResult}

-- The insertion of `GetOrSet` and `GetOrSetEntry` is apart from their first lookup, which is that
-- of `get` and `get_entry`.
pub data Operation (K V : Type 0) : Type 0 where
  exists : K → (now : ℕ) → Operation K V
  refresh_ttl : K → (now : ℕ) → Operation K V
  get : K → (now : ℕ) → Operation K V
  get_entry : K → (now : ℕ) → Operation K V
  set : K → V → (ttl deadline : ℕ) → Operation K V
  get_or_set : K → V → (ttl deadline now : ℕ) → Operation K V
  get_or_set_entry : K → V → (ttl deadline now : ℕ) → Operation K V
  delete : K → Operation K V
  get_and_delete : K → (now : ℕ) → Operation K V
  clear : Operation K V
  cleanup : (now limit : ℕ) → Operation K V
  record_delete : (removed : ℕ) → Operation K V

-- The keys of which calls are forgotten.
pub data Target (K : Type 0) : Type 0 where
  nobody : Target K
  one : K → Target K
  everybody : Target K

-- The keys that an operation changes.
abbrev pub target : {K V : Type 0} → Operation K V → Target K
target (set key value ttl deadline) = one key
target (get_or_set key value ttl deadline now) = one key
target (get_or_set_entry key value ttl deadline now) = one key
target (delete key) = one key
target (get_and_delete key now) = one key
target clear = everybody
target _ = nobody

module _ {K V : Type 0} (dec : Discrete K) where
  -- `Forget`, `ForgetAll` or neither.
  abbrev pub forgets : Target K → Group K (LoadResult V) → Group K (LoadResult V)
  forgets nobody g = g
  forgets (one key) g = forget dec key g
  forgets everybody g = forget_all g

  -- What an operation does to the segment.
  abbrev pub operate : Operation K V → StorageSegment K V → Result (StorageSegment K V)
  operate (exists key now) t = do p ← Lookup.exists dec index_ops key now t; ok p.0
  operate (refresh_ttl key now) t = do p ← Lookup.refresh_ttl dec index_ops key now t; ok p.0
  operate (get key now) t = do p ← Lookup.lookup dec index_ops key now t; ok p.0
  operate (get_entry key now) t = do p ← Lookup.lookup_entry dec index_ops key now t; ok p.0
  operate (set key value ttl deadline) t = Update.set dec index_ops key value ttl deadline t
  operate (get_or_set key value ttl deadline now) t = do
    p ← Update.get_or_set dec index_ops key value ttl deadline now t
    ok p.0
  operate (get_or_set_entry key value ttl deadline now) t = do
    p ← Update.get_or_set_entry dec index_ops key value ttl deadline now t
    ok p.0
  operate (delete key) t = do p ← Update.delete dec index_ops key t; ok p.0
  operate (get_and_delete key now) t = do p ← Update.get_and_delete dec index_ops key now t; ok p.0
  operate clear t = ok (Update.delete_all dec index_ops t).0
  operate (cleanup now limit) t = do p ← Update.cleanup_expired dec index_ops now limit t; ok p.0
  operate (record_delete removed) t = ok (record t { stats = add_deleted removed t.stats })

  unfoldable pub apply : Operation K V → Shard K V → Result (Shard K V)
  apply op s = do
    t ← operate op s.segment
    ok (record { segment = t; group = forgets (target op) s.group })

-- The callers by number. One that has not been called stays at `entered`.
pub record System (K V : Type 0) : Type 0 where
  pub shard : Shard K V
  pub pc : ℕ → Pc V

-- A segment with callers that have not begun.
abbrev pub start : {K V : Type 0} → Shard K V → System K V
start s = record { shard = s; pc = λ _. entered }

module _ {K V : Type 0} (dec : Discrete K) (ttl : ℤ) (jitter : ℕ) (requests : ℕ → Request K) where
  pub data Step (s : System K V) : System K V → Type 0 where
    load :
        (i : ℕ) (env : Env V) {t : Shard K V} {p : Pc V}
        → advance dec ttl jitter (requests i) env (s.pc i) s.shard ≡ ok (t, p)
        → Step s (record { shard = t; pc = write s.pc i p })
    perform :
        (op : Operation K V) {t : Shard K V}
        → apply dec op s.shard ≡ ok t
        → Step s (record s { shard = t })

  pub data Steps (s : System K V) : System K V → Type 0 where
    stay : Steps s s
    more : {t u : System K V} → Steps s t → Step t u → Steps s u
