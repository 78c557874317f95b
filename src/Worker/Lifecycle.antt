-- ===== src/Worker/Lifecycle.antt =====
-- `StartCleanup` and `StopCleanup` of cache.go and the loop of `run` of cleanup.go as steps of their
-- goroutines. A worker has a number in place of its channel.
use pacecache.Prelude.{
  ℕ, zero, suc, ◌≤◌, ◌≡◌, ◌⊎◌, inl, inr, refl, ap, ◌∙◌, Bool, true, false, Option, none, some,
  Option-cases, Bool-cases, arith,
}
use pacecache.Chain.{write}

-- Where the goroutine of a worker stands.
pub data Run : Type 0 where
  absent : Run
  beginning : Run  -- in `StartCleanup`, before the loop
  selecting : Run  -- at the select of the loop
  fired : Run  -- at the select after the timer
  sweeping : Run  -- in a quantum
  returned : Run

-- `cleanup` is the worker of the cache. `stopping` says that a `StopCleanup` holds `cleanupMu` and
-- sends; no step of a worker depends on which of the two comes first.
pub record Lifecycle : Type 0 where
  pub cleanup : Option ℕ
  pub runs : ℕ → Run
  pub fresh : ℕ
  pub stopping : Bool

abbrev pub no_worker : Lifecycle
no_worker = record { cleanup = none; runs = λ _. absent; fresh = 0; stopping = false }

-- `StartCleanup` up to the loop; where a worker is there already, it returns at once.
unfoldable pub start_cleanup : Lifecycle → Lifecycle
start_cleanup l = elim l.cleanup [
  | some w ↦ l
  | none ↦ record l {
    cleanup = some l.fresh;
    runs = write l.runs l.fresh beginning;
    fresh = suc l.fresh;
  }
]

-- A `StopCleanup` that has the lock: it returns where there is no worker, and else it does so when
-- the worker takes what it sends, which the worker does at a select. Otherwise it waits.
unfoldable pub stop_cleanup : Lifecycle → Option Lifecycle
stop_cleanup l = elim l.cleanup [
  | none ↦ some (record l { stopping = false })
  | some w ↦
      let stopped =
        some (record l { cleanup = none; runs = write l.runs w returned; stopping = false }) in
      elim (l.runs w) [
        | selecting ↦ stopped
        | fired ↦ stopped
        | absent ↦ none
        | beginning ↦ none
        | sweeping ↦ none
        | returned ↦ none
      ]
]

-- A step of `run` that is not a receipt from the channel. After the timer has fired, the loop goes
-- on only if nobody is sending.
abbrev pub next_run : (stopping : Bool) → Run → Run
next_run stopping beginning = selecting
next_run stopping selecting = fired
next_run true fired = fired
next_run false fired = sweeping
next_run stopping sweeping = selecting
next_run stopping absent = absent
next_run stopping returned = returned

unfoldable pub run_step : ℕ → Lifecycle → Lifecycle
run_step w l = record l { runs = write l.runs w (next_run l.stopping (l.runs w)) }

pub data Step (l : Lifecycle) : Lifecycle → Type 0 where
  start : l.stopping ≡ false → Step l (start_cleanup l)
  take_lock : l.stopping ≡ false → Step l (record l { stopping = true })
  stop : {l' : Lifecycle} → l.stopping ≡ true → stop_cleanup l ≡ some l' → Step l l'
  run : (w : ℕ) → Step l (run_step w l)

pub data Reach : Lifecycle → Type 0 where
  initial : Reach no_worker
  later : {l l' : Lifecycle} → Reach l → Step l l' → Reach l'

abbrev pub live : Run → Bool
live absent = false
live returned = false
live _ = true

-- The live worker is that of the cache.
record Inv (l : Lifecycle) : Type 0 where
  known : (w : ℕ) → live (l.runs w) ≡ true → l.cleanup ≡ some w
  there : (w : ℕ) → l.cleanup ≡ some w → live (l.runs w) ≡ true

live-next_run : (stopping : Bool) (r : Run) → live (next_run stopping r) ≡ live r
live-next_run stopping r = ground arith

Step-Inv : {l l' : Lifecycle} → Step l l' → Inv l → Inv l'
unfolding start_cleanup stop_cleanup run_step
Step-Inv {l} (start free) inv = record {
  known = λ w h. ground (arith, inv.known w);
  there = λ w h. ground (arith, inv.there w);
}
Step-Inv (take_lock free) inv = record { known = inv.known; there = inv.there }
Step-Inv {l} {l'} (stop held e) inv = record {
  known = λ w h. ground (arith, inv.known w);
  there = λ w h. ground (arith, inv.there w);
}
Step-Inv {l} (run v) inv = record {
  known = λ w h. ground (arith, inv.known w, live-next_run l.stopping (l.runs v));
  there = λ w h. ground (arith, inv.there w, live-next_run l.stopping (l.runs v));
}

Reach-Inv : {l : Lifecycle} → Reach l → Inv l
Reach-Inv initial = record { known = λ w h. ground arith; there = λ w h. ground arith }
Reach-Inv (later r st) = Step-Inv st (Reach-Inv r)

-- In every state that is reached from a cache without a worker by starts, stops and steps of
-- workers in any order, at most one worker is live.
pub one_worker :
    (l : Lifecycle) → Reach l → (v w : ℕ) → live (l.runs v) ≡ true → live (l.runs w) ≡ true → v ≡ w
one_worker l r v w h h' = ground (arith, (Reach-Inv r).known v h, (Reach-Inv r).known w h')

run_step-cleanup : (w : ℕ) (l : Lifecycle) → l.cleanup ≡ some w → (run_step w l).cleanup ≡ some w
unfolding run_step
run_step-cleanup w l e = e

run_step_self :
    (w : ℕ) (l : Lifecycle)
    → next_run l.stopping (l.runs w) ≡ selecting
    → (run_step w l).runs w ≡ selecting
unfolding run_step
run_step_self w l e = ground arith

-- Steps of the worker of the cache alone.
abbrev pub worker_steps : ℕ → Lifecycle → Lifecycle
worker_steps zero l = l
worker_steps (suc n) l = elim l.cleanup [ none ↦ l | some w ↦ worker_steps n (run_step w l) ]

one_step : (w : ℕ) (l : Lifecycle) → l.cleanup ≡ some w → worker_steps 1 l ≡ run_step w l
one_step w l e = ground (arith, e)

-- A worker at a select takes the signal.
record Stopped (l l' : Lifecycle) : Type 0 where
  returns : stop_cleanup l ≡ some l'
  no_cleanup : l'.cleanup ≡ none
  free : l'.stopping ≡ false
  dead : (w : ℕ) → live (l'.runs w) ≡ false

at_select :
    (l : Lifecycle) (w : ℕ)
    → Inv l
    → l.cleanup ≡ some w
    → (l.runs w ≡ selecting) ⊎ (l.runs w ≡ fired)
    → (l' : Lifecycle) × Stopped l l'
unfolding stop_cleanup
at_select l w inv e at = (
  record l { cleanup = none; runs = write l.runs w returned; stopping = false },
  record {
    returns = ground arith;
    no_cleanup = refl;
    free = refl;
    dead = λ v. elim (Bool-cases (live (l.runs v))) [
      | inl h ↦ ground (arith, inv.known v h)
      | inr h ↦ ground arith
    ];
  },
)

near_select :
    (stopping : Bool) (r : Run)
    → live r ≡ true
    → ((r ≡ selecting) ⊎ (r ≡ fired)) ⊎ (next_run stopping r ≡ selecting)
near_select stopping absent h = ground arith
near_select stopping returned h = ground arith
near_select stopping beginning h = inr refl
near_select stopping selecting h = inl (inl refl)
near_select stopping fired h = inl (inr refl)
near_select stopping sweeping h = inr refl

-- In every state that is reached from a cache without a worker, a StopCleanup that holds the lock
-- returns after at most one step of the worker; then the cache has no worker, none is live, and the
-- lock is free.
pub stop_cleanup-returns :
    (l : Lifecycle)
    → Reach l
    → l.stopping ≡ true
    → (n : ℕ) × (l' : Lifecycle) × (n ≤ 1)
      × (stop_cleanup (worker_steps n l) ≡ some l')
      × (l'.cleanup ≡ none)
      × (l'.stopping ≡ false)
      × ((w : ℕ) → live (l'.runs w) ≡ false)
unfolding stop_cleanup
stop_cleanup-returns l r held =
    let inv = Reach-Inv r in
    elim (Option-cases l.cleanup) [
      | inl e ↦ (
        0,
        record l { stopping = false },
        omega arith,
        ground (arith, e),
        e,
        refl,
        λ w. elim (Bool-cases (live (l.runs w))) [
          | inl h ↦ ground (arith, inv.known w h)
          | inr h ↦ h
        ],
      )
      | inr (w, e) ↦ elim (near_select l.stopping (l.runs w) (inv.there w e)) [
        | inl at ↦
            let (l', s) = at_select l w inv e at in
            (0, l', omega arith, s.returns, s.no_cleanup, s.free, s.dead)
        | inr soon ↦
            let (l', s) =
              at_select (run_step w l) w (Step-Inv (run w) inv) (run_step-cleanup w l e)
                (inl (run_step_self w l soon)) in
            (
              1,
              l',
              omega arith,
              ap stop_cleanup (one_step w l e) ∙ s.returns,
              s.no_cleanup,
              s.free,
              s.dead,
            )
      ]
    ]
