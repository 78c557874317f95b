-- ===== src/Tests/Workers.antt =====
-- A worker of cleanup.go over two segments, and its start and stop.
use pacecache.Prelude.{
  ℕ, ◌≡◌, ◌≤◌, ◌<◌, refl, Bool, true, false, none, some, List, [], ◌∷◌, ok, length, arith,
  ℕ_discrete,
}
use pacecache.Storage.{Storage}
use pacecache.Storage.Drain.{AllRefine, Swept, Clean}
use pacecache.Segment.Model.{Model}
use pacecache.Tests.Segments.{
  two_segments, two_specs, two_result, two_resolution, empty-Refines_empty,
}
use pacecache.Worker.{Worker, cleanup_quantum, cleanup_listed}
use pacecache.Worker.Lifecycle.{
  Lifecycle, no_worker, start_cleanup, stop_cleanup, run_step, start, take_lock, run, Reach,
  initial, later, live, one_worker, stop_cleanup-returns, worker_steps,
}
use pacecache.Worker.Quantum.{quantum-Refines}
use pacecache.Worker.Scratch.{cleanup_scratch, scratch-listed, then_after}

abbrev test_worker : Worker
test_worker = record { batch_size = 1; entry_budget = 3; interval = 100; next_segment = 1 }

-- The time is never over.
abbrev in_time : ℕ → Bool
in_time _ = false

quantum-Refines_example :
    (t : Storage ℕ ℕ) × (w : Worker) × (more : Bool) × (n : ℕ) × (ms' : List (Model ℕ ℕ))
    × (cleanup_quantum ℕ_discrete in_time 40 test_worker two_segments ≡ ok (t, w, more))
    × Swept ℕ_discrete 40 n two_specs ms'
    × AllRefine ℕ_discrete t.segments ms'
    × (n ≤ 3)
    × (w.next_segment < length t.segments)
    × (more ≡ false → Clean ℕ_discrete 40 ms')
quantum-Refines_example =
    quantum-Refines ℕ_discrete in_time 40 test_worker two_segments two_specs (omega arith)
      (omega arith) (two_result.2, (empty-Refines_empty, tt)) (two_resolution, (omega arith, tt))

scratch-listed_example :
    cleanup_scratch ℕ_discrete in_time 40 2 1 0 3 0 0 (1 ∷ 0 ∷ []) two_segments
    ≡ then_after [] (cleanup_listed ℕ_discrete in_time 40 1 0 3 (1 ∷ 0 ∷ []) two_segments)
scratch-listed_example =
    scratch-listed ℕ_discrete in_time 40 (1 ∷ 0 ∷ []) 1 0 3 0 0 (1 ∷ 0 ∷ []) two_segments
      (refl, (refl, tt)) (omega arith)

-- A worker at its select, and somebody who wants to stop it.
abbrev running : Lifecycle
running = run_step 0 (start_cleanup no_worker)

running-Reach : Reach running
running-Reach = later (later initial (start refl)) (run 0)

one_worker_example : ◌≡◌ {A = ℕ} 0 0
unfolding run_step start_cleanup
one_worker_example = one_worker running running-Reach 0 0 refl refl

abbrev stopped_soon : Lifecycle
stopped_soon = record running { stopping = true }

is_free : running.stopping ≡ false
unfolding run_step start_cleanup
is_free = refl

stop_cleanup-returns_example :
    (n : ℕ) × (l : Lifecycle) × (n ≤ 1)
    × (stop_cleanup (worker_steps n stopped_soon) ≡ some l)
    × (l.cleanup ≡ none)
    × (l.stopping ≡ false)
    × ((w : ℕ) → live (l.runs w) ≡ false)
stop_cleanup-returns_example =
    stop_cleanup-returns stopped_soon (later running-Reach (take_lock is_free)) refl
