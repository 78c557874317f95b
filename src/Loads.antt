-- ===== src/Loads.antt =====
-- load.go: the callers of `GetOrLoad` and its kin on one segment of storage and its group of calls.
-- `getOrLoad` computes the index of the key's segment once and then works on that segment alone.
-- Each function is one step of a caller that no other step divides, since it holds a lock or
-- touches nothing shared: an operation of the segment under its mutex, `StartCall` and the
-- publication under `state.mu`, the end of `DoCall` under the mutex of the group. What a caller
-- reads of the world at a step is in `Env`.
pub mod System
pub mod Invariant
pub mod Moves
pub mod Barrier
pub mod Agreement
pub mod Sound
pub mod Progress
pub mod Lone
pub mod Alone
pub mod Early
use pacecache.Prelude.{
  ℕ, List, [], ◌∷◌, ◌+◌, ◌-◌, Bool, true, false, Option, none, some, Result, ok, ◌>>=◌,
  if◌then◌else◌,
}
use pacecache.Prelude.Int.{ℤ, pos}
use pacecache.Clock.{deadline_after, effective_ttl}
use pacecache.Errors.{Error, no_loader, load_superseded, context_is_nil}
use pacecache.Expiration.Index.{index_ops}
use pacecache.Segment.{CachedEntry, count}
use pacecache.Segment.Lookup
use pacecache.Segment.Update
use pacecache.Singleflight.{
  CallPtr, Group, Ran, returned, panicked, exited, Waited, blocked, canceled, panicking, exiting,
  delivered, start_call, do_call, wait,
}
use pacecache.Stats.{SegmentStats, count_load, count_load_superseded, count_shared}
use pacecache.Storage.{StorageSegment}
use pacecache.Types.{LoadResult, LoaderRun, returns, panics, exits, no_load_result, cached_result}

-- A segment of `cache.store` with its `cacheState`.
pub record Shard (K V : Type 0) : Type 0 where
  pub segment : StorageSegment K V
  pub group : Group K (LoadResult V)

-- The arguments of a caller: its key, and whether its context and its loader are not nil.
pub record Request (K : Type 0) : Type 0 where
  pub key : K
  pub has_context : Bool
  pub has_loader : Bool

-- Two readings of the clock, the error of the caller's context if that is done, what the loader does,
-- which channel a select takes when both are ready, and the random source of the jitter.
pub record Env (V : Type 0) : Type 0 where
  pub now : ℕ
  pub later : ℕ
  pub context : Option Error
  pub loader : LoaderRun V
  pub context_first : Bool
  pub rand : ℕ → ℕ

-- How `getOrLoad` ends.
pub data Outcome (V : Type 0) : Type 0 where
  loaded : LoadResult V → Outcome V
  failed : Error → Outcome V
  panicked_with : (value : ℕ) → Outcome V
  ended : Outcome V

-- Where a caller stands, with the variables that are live there.
pub data Pc (V : Type 0) : Type 0 where
  entered : Pc V
  missed : Pc V  -- before StartCall
  owning : CallPtr → Pc V  -- before the second lookup of the owner
  calling : CallPtr → (started_at : ℕ) → Pc V  -- the loader runs
  publishing : CallPtr → LoadResult V → (refresh_ttl : ℕ) → Pc V  -- before the publication
  ending : CallPtr → Ran (LoadResult V) → Pc V  -- before the deferred end of DoCall
  waiting : CallPtr → Pc V
  left : Outcome V → Pc V

module _ {K V : Type 0} where
  -- `recordLoad`, `recordLoadSuperseded`, `recordShared`: `f` is the change of the counters.
  abbrev pub record_stats : (SegmentStats → SegmentStats) → Shard K V → Shard K V
  record_stats f s = record s { segment = count f s.segment }

  -- `call.Wait` and what follows it.
  abbrev pub after_wait : CallPtr → Waited (LoadResult V) → Shard K V → Shard K V × Pc V
  after_wait c blocked s = (s, waiting c)
  after_wait c (canceled err) s = (s, left (failed err))
  after_wait c (panicking value) s = (s, left (panicked_with value))
  after_wait c exiting s = (s, left ended)
  after_wait c (delivered val err shared) s = (
    if shared then record_stats count_shared s else s,
    left (elim err [
      | some e ↦ failed e
      | none ↦ elim val [ none ↦ loaded no_load_result | some r ↦ loaded r ]
    ]),
  )

  -- The loader has come back. A lifetime of 0 goes with a value that was not found.
  abbrev pub after_loader :
      (ttl : ℤ)
      → (jitter : ℕ) → Env V
      → CallPtr
      → (started_at : ℕ) → LoaderRun V
      → Shard K V
      → Shard K V × Pc V
  after_loader ttl jitter env c started_at (panics value) s = (s, ending c (panicked value))
  after_loader ttl jitter env c started_at exits s = (s, ending c exited)
  after_loader ttl jitter env c started_at (returns value found err) s = (
    record_stats (count_load found err (env.now - started_at)) s,
    elim err [
      | some e ↦ ending c (returned none (some e))
      | none ↦
          if found
          then (let refresh_ttl = effective_ttl env.rand ttl jitter (pos 0) in
              publishing c
                (record {
                  value = some value;
                  deadline = deadline_after env.now refresh_ttl;
                  found = true;
                })
                refresh_ttl)
          else publishing c no_load_result 0
    ],
  )

module _ {K V : Type 0} (dec : Discrete K) where
  -- The lookup, after the check of the context.
  unfoldable pub load_lookup : Request K → Env V → Shard K V → Result (Shard K V × Pc V)
  load_lookup req env s =
      if req.has_context
      then (do
        (t, cached) ← Lookup.lookup_entry dec index_ops req.key env.now s.segment
        ok (
          record s { segment = t },
          elim cached [ none ↦ missed | some e ↦ left (loaded (cached_result e)) ],
        ))
      else ok (s, left (failed context_is_nil))

  -- The checks after a miss, and `StartCall`.
  unfoldable pub load_start : Request K → Env V → Shard K V → Shard K V × Pc V
  load_start req env s = elim env.context [
    | some err ↦ (s, left (failed err))
    | none ↦
        if req.has_loader
        then (let (group, c, owner) = start_call dec req.key s.group in
            (record s { group = group }, if owner then owning c else waiting c))
        else (s, left (failed no_loader))
  ]

  -- The owner looks the key up again; a lookup of the owner is not counted.
  unfoldable pub load_recheck : Request K → Env V → CallPtr → Shard K V → Result (Shard K V × Pc V)
  load_recheck req env c s = do
    (t, cached) ← Lookup.get_entry_locked dec index_ops req.key env.now s.segment
    ok (
      record s { segment = t },
      elim cached [
        | none ↦ calling c env.later
        | some e ↦ ending c (returned (some (cached_result e)) none)
      ],
    )

  unfoldable pub load_publish :
      Request K → CallPtr → LoadResult V → (refresh_ttl : ℕ) → Shard K V → Result (Shard K V × Pc V)
  load_publish req c r refresh_ttl s =
      if (s.group.calls c).forgotten
      then ok
          (record_stats count_load_superseded s, ending c (returned none (some load_superseded)))
      else elim (if r.found then r.value else none) [
        | none ↦ ok (s, ending c (returned (some r) none))
        | some value ↦ do
          t ← Update.set dec index_ops req.key value refresh_ttl r.deadline s.segment
          ok (record s { segment = t }, ending c (returned (some r) none))
      ]

module _ {K V : Type 0} (dec : Discrete K) (ttl : ℤ) (jitter : ℕ) where
  -- The step of a caller. Where `Wait` blocks, the caller stays as it is.
  unfoldable pub advance : Request K → Env V → Pc V → Shard K V → Result (Shard K V × Pc V)
  unfolding load_lookup load_start load_recheck load_publish
  advance req env entered s = load_lookup dec req env s
  advance req env missed s = ok (load_start dec req env s)
  advance req env (owning c) s = load_recheck dec req env c s
  advance req env (calling c started_at) s =
      ok (after_loader ttl jitter env c started_at env.loader s)
  advance req env (publishing c r refresh_ttl) s = load_publish dec req c r refresh_ttl s
  advance req env (ending c ran) s =
      ok (record s { group = do_call dec req.key c ran s.group }, waiting c)
  advance req env (waiting c) s =
      ok (after_wait c (wait env.context env.context_first (s.group.calls c)) s)
  advance req env (left o) s = ok (s, left o)

  -- A caller on its own, with what it reads at each step.
  unfoldable pub run_load : Request K → List (Env V) → Pc V → Shard K V → Result (Shard K V × Pc V)
  unfolding advance
  run_load req [] pc s = ok (s, pc)
  run_load req (env ∷ envs) pc s = do (t, pc') ← advance req env pc s; run_load req envs pc' t
