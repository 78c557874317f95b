-- ===== src/Worker.antt =====
-- cleanup.go: the background worker that reclaims expired entries a quantum at a time. The time
-- budget is a parameter: `exceeded n` is the answer of `cleanupTimeBudgetExceeded` when it is asked
-- for the n-th time in a quantum. `scratchSegments` holds nothing between quanta; how a quantum
-- reuses it is in Worker/Scratch.
pub mod Scratch
pub mod Lifecycle
pub mod Sweep
pub mod Around
pub mod Batches
pub mod Passes
pub mod Rounds
pub mod Quantum
use pacecache.Prelude.{
  ℕ, zero, suc, ◌+◌, ◌-◌, ◌*◌, ◌%◌, min, Bool, true, false, ◌||◌, List, [], ◌∷◌, Result, ok, panic,
  ◌>>=◌, ◌==◌, if◌then◌else◌, length,
}
use pacecache.Cache.{Cache}
use pacecache.Expiration.Index.{index_ops}
use pacecache.Segment.Update
use pacecache.Storage.{Storage, at_segment}

-- What a worker keeps besides the cache and the channel by which it is stopped.
pub record Worker : Type 0 where
  pub batch_size : ℕ
  pub entry_budget : ℕ
  pub interval : ℕ
  pub next_segment : ℕ

abbrev pub cleanup_next_delay : ℕ
cleanup_next_delay = 1000000

abbrev pub new_cleanup_worker : {K V : Type 0} → Cache K V → Worker
new_cleanup_worker c = record {
  batch_size = c.batch_size;
  entry_budget = c.entry_budget;
  interval = c.cleanup_interval;
  next_segment = 0;
}

abbrev pub next_delay : Worker → ℕ
next_delay w = min w.interval cleanup_next_delay

-- How a pass over segments ends: it stops before a segment, or it has passed them all, after so
-- many checks of the time, with what is left of the entry budget and the segments that have more.
pub data Pass : Type 0 where
  stopped : (index : ℕ) → Pass
  passed : (checks remaining : ℕ) → (pending : List ℕ) → Pass

-- `append(pending, index)` in front of what the rest of the pass appends.
abbrev pub also_pending : ℕ → Bool → Pass → Pass
also_pending index more (stopped i) = stopped i
also_pending index more (passed checks remaining pending) =
    passed checks remaining (if more then index ∷ pending else pending)

-- The segments from `start` on, around the end.
unfoldable pub around : (count start offset n : ℕ) → List ℕ
around count start offset zero = []
around count start offset (suc n) = (start + offset) % count ∷ around count start (offset + 1) n

unfoldable pub record_cleanup_worker :
    {K V : Type 0} → (pending : Bool) → (duration : ℕ) → Cache K V → Cache K V
record_cleanup_worker pending duration c = record c {
  cleanup_worker_run_count = c.cleanup_worker_run_count + 1;
  cleanup_worker_duration_nanos = c.cleanup_worker_duration_nanos + duration;
  cleanup_worker_pending_count =
      if pending then c.cleanup_worker_pending_count + 1 else c.cleanup_worker_pending_count;
}

module _ {K V : Type 0} (dec : Discrete K) (cutoff : ℕ) where
  abbrev pub cleanup_expired_at : ℕ → (limit : ℕ) → Storage K V → Result (Storage K V × (ℕ × Bool))
  cleanup_expired_at index limit s =
      at_segment index
        (λ t. do
          (t', removed, pending) ← Update.cleanup_expired dec index_ops cutoff limit t
          ok (t', (removed, pending)))
        s

module _ {K V : Type 0} (dec : Discrete K) (exceeded : ℕ → Bool) (cutoff : ℕ) where
  -- `fuel` bounds the number of batches.
  unfoldable pub cleanup_batches :
      (fuel : ℕ) → (batch_size checks remaining : ℕ) → Storage K V → Result (Storage K V × Bool)
  cleanup_batches zero batch_size checks remaining s = panic
  cleanup_batches (suc fuel) batch_size checks remaining s =
      elim ((remaining == 0) || exceeded checks) [
        | true ↦ ok (s, true)
        | false ↦ do
          (t, result) ← cleanup_expired_at dec cutoff 0 (min batch_size remaining) s
          elim result.1 [
            | false ↦ ok (t, false)
            | true ↦ cleanup_batches fuel batch_size (checks + 1) (remaining - result.0) t
          ]
      ]

  -- Each batch but the last removes an entry of the budget.
  unfoldable pub cleanup_single_segment : Worker → Storage K V → Result (Storage K V × Bool)
  unfolding cleanup_batches
  cleanup_single_segment w s = cleanup_batches (suc w.entry_budget) w.batch_size 0 w.entry_budget s

  -- The body of the loops of `cleanupSegments` for each of the segments in turn.
  unfoldable pub cleanup_listed :
      (batch_size checks remaining : ℕ) → List ℕ → Storage K V → Result (Storage K V × Pass)
  cleanup_listed batch_size checks remaining [] s = ok (s, passed checks remaining [])
  cleanup_listed batch_size checks remaining (index ∷ indexes) s =
      elim ((remaining == 0) || exceeded checks) [
        | true ↦ ok (s, stopped index)
        | false ↦ do
          (t, result) ← cleanup_expired_at dec cutoff index (min batch_size remaining) s
          (u, pass) ← cleanup_listed batch_size (checks + 1) (remaining - result.0) indexes t
          ok (u, also_pending index result.1 pass)
      ]

  -- `for len(pending) != 0`; `fuel` bounds the number of rounds.
  unfoldable pub cleanup_pending :
      (fuel : ℕ)
      → (checks remaining : ℕ) → List ℕ
      → Worker
      → Storage K V
      → Result (Storage K V × Worker × Bool)
  unfolding cleanup_listed
  cleanup_pending fuel checks remaining [] w s = ok (s, w, false)
  cleanup_pending zero checks remaining (index ∷ indexes) w s = panic
  cleanup_pending (suc fuel) checks remaining (index ∷ indexes) w s = do
    (t, pass) ← cleanup_listed w.batch_size checks remaining (index ∷ indexes) s
    elim pass [
      | stopped i ↦ ok (t, record w { next_segment = i }, true)
      | passed checks' remaining' pending ↦ cleanup_pending fuel checks' remaining' pending w t
    ]

  -- The first pass begins at `next_segment`, and the next quantum one further.
  unfoldable pub cleanup_segments : Worker → Storage K V → Result (Storage K V × Worker × Bool)
  unfolding cleanup_pending around
  cleanup_segments w s =
      let count = length s.segments in
      if count == 0 then ok (s, w, false) else do
        (t, pass) ←
            cleanup_listed w.batch_size 0 w.entry_budget (around count w.next_segment 0 count) s
        elim pass [
          | stopped i ↦ ok (t, record w { next_segment = i }, true)
          | passed checks remaining pending ↦
              cleanup_pending (suc w.entry_budget) checks remaining pending
                (record w { next_segment = (w.next_segment + 1) % count }) t
        ]

  -- Whether there may be more to reclaim.
  unfoldable pub cleanup_quantum : Worker → Storage K V → Result (Storage K V × Worker × Bool)
  unfolding cleanup_single_segment cleanup_segments
  cleanup_quantum w s =
      if length s.segments == 1
      then (do (t, pending) ← cleanup_single_segment w s; ok (t, w, pending))
      else cleanup_segments w s

  -- What `run` does when the timer fires and nobody stops it: the delay until the next time. The
  -- quantum ends at the time `ended`.
  unfoldable pub run_quantum : (ended : ℕ) → Worker → Cache K V → Result (Cache K V × Worker × ℕ)
  unfolding cleanup_quantum record_cleanup_worker
  run_quantum ended w c = do
    (store, w', pending) ← cleanup_quantum w c.store
    ok (
      record_cleanup_worker pending (ended - cutoff) (record c { store = store }),
      w',
      if pending then next_delay w' else w'.interval,
    )
