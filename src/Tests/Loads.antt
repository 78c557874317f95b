-- ===== src/Tests/Loads.antt =====
-- Callers of load.go on an empty segment of segment.go.
use pacecache.Prelude.{
  Result, ℕ, ◌≡◌, ◌≤◌, refl, true, false, none, some, List, [], ◌∷◌, ◌++◌, ok, length, ℕ_discrete,
}
use pacecache.Prelude.Int.{pos}
use pacecache.Errors.{load_superseded, no_loader}
use pacecache.Expiration.Index.Laws.{index_laws}
use pacecache.Loads.{
  Shard, Request, Env, Outcome, Pc, failed, entered, missed, owning, calling, publishing, ending,
  waiting, left, advance, load_lookup, load_start, load_recheck, load_publish, record_stats,
  run_load,
}
use pacecache.Loads.System.{Operation, apply, System, Steps, stay, more, load, start}
use pacecache.Loads.Barrier.{mutation-supersedes}
use pacecache.Loads.Invariant.{owned}
use pacecache.Loads.Agreement.{single_flight, callers-agree}
use pacecache.Loads.Alone.{load-alone}
use pacecache.Loads.Lone.{outcome_of, ran_of, loaded_ttl, loaded_deadline, model_after}
use pacecache.Loads.Early.{load-early}
use pacecache.Loads.Progress.{waiter-leaves}
use pacecache.Loads.Sound.{Sound, apply-Sound}
use pacecache.Segment.{count_miss}
use pacecache.Segment.Model.{read, tally}
use pacecache.Segment.Reads.{counted}
use pacecache.Segment.Refines.{Refines}
use pacecache.Storage.{StorageSegment}
use pacecache.Singleflight.{find_call}
use pacecache.Stats.{count_load}
use pacecache.Types.{no_load_result}
use pacecache.Segment.Lookup
use pacecache.Chain.{write}
use pacecache.Clock.{effective_ttl, jittered_ttl, deadline_after}
use pacecache.Singleflight.{Group, new_call, no_calls, start_call, do_call, finish, returned}
use pacecache.Stats.{count_load_superseded}
use pacecache.Tests.Segments.{empty_segment, empty_spec, empty-Refines_empty}
use pacecache.Types.{LoadResult, returns}

-- The loader finds 700 after 5 units of time.
abbrev test_env : Env ℕ
test_env = record {
  now = 15;
  later = 10;
  context = none;
  loader = returns 700 true none;
  context_first = false;
  rand = λ _. 0;
}

abbrev test_request : Request ℕ
test_request = record { key = 7; has_context = true; has_loader = true }

-- Every caller wants the same key.
abbrev test_requests : ℕ → Request ℕ
test_requests _ = test_request

abbrev test_shard : Shard ℕ ℕ
test_shard = record { segment = empty_segment; group = no_calls }

-- A system that some steps lead to from the start.
record Run : Type 0 where
  last : System ℕ ℕ
  steps : Steps ℕ_discrete (pos 50) 0 test_requests (start test_shard) last

abbrev begin : Run
begin = record { last = start test_shard; steps = stay }

abbrev step_load :
    (r : Run) (i : ℕ) (env : Env ℕ) {t : Shard ℕ ℕ} {p : Pc ℕ}
    → advance ℕ_discrete (pos 50) 0 (test_requests i) env (r.last.pc i) r.last.shard ≡ ok (t, p)
    → Run
step_load r i env e = record { last = _; steps = more r.steps (load i env e) }

abbrev MyGroup : Type 0
MyGroup = Group ℕ (LoadResult ℕ)

abbrev shard_with : MyGroup → Shard ℕ ℕ
shard_with g = record { segment = empty_segment; group = g }

abbrev step : Pc ℕ → Shard ℕ ℕ → Result (Shard ℕ ℕ × Pc ℕ)
step p s = advance ℕ_discrete (pos 50) 0 test_request test_env p s

look : (g : MyGroup) → step entered (shard_with g) ≡ ok (shard_with g, missed)
unfolding advance load_lookup Lookup.lookup_entry Lookup.get_entry_locked
look g = refl

-- The group after the first caller has started its call.
abbrev first_group : MyGroup
first_group = record { m = (7, 0) ∷ []; calls = write (λ _. new_call) 0 new_call; fresh = 1 }

start_first : step missed test_shard ≡ ok (shard_with first_group, owning 0)
unfolding advance load_start start_call
start_first = refl

-- The group after the second has joined it.
abbrev joined_group : MyGroup
joined_group = record first_group {
  calls = write first_group.calls 0 (record (first_group.calls 0) { dups = 1 });
}

join_second : step missed (shard_with first_group) ≡ ok (shard_with joined_group, waiting 0)
unfolding advance load_start start_call ℕ_discrete
join_second = refl

recheck : (g : MyGroup) → step (owning 0) (shard_with g) ≡ ok (shard_with g, calling 0 10)
unfolding advance load_recheck Lookup.get_entry_locked
recheck g = refl

abbrev found_result : LoadResult ℕ
found_result = record { value = some 700; deadline = 65; found = true }

call :
    (s : Shard ℕ ℕ)
    → step (calling 0 10) s
      ≡ ok (record_stats (count_load true none 5) s, publishing 0 found_result 50)
unfolding advance effective_ttl jittered_ttl deadline_after
call s = refl

-- The first caller owns a call and runs its loader, and the second waits.
abbrev loading : Run
loading =
    step_load
      (step_load
        (step_load
          (step_load (step_load begin 0 test_env (look no_calls)) 1 test_env (look no_calls)) 0
          test_env start_first)
        1 test_env join_second)
      0 test_env (recheck joined_group)

test_Sound : Sound ℕ_discrete empty_segment
test_Sound = record { model = empty_spec; refines = empty-Refines_empty }

-- A deletion while the loader runs.
deleted :
    (s : Shard ℕ ℕ) × (apply ℕ_discrete (Operation.delete 7) loading.last.shard ≡ ok s)
    × Sound ℕ_discrete s.segment
deleted = apply-Sound ℕ_discrete (Operation.delete 7) loading.last.shard test_Sound

mutation-supersedes_example :
    advance ℕ_discrete
      (pos 50)
      0
      test_request
      test_env
      (publishing 0 found_result 50)
      (record_stats (count_load true none 5) deleted.0)
    ≡ ok (
      record_stats count_load_superseded (record_stats (count_load true none 5) deleted.0),
      ending 0 (returned none (some load_superseded)),
    )
mutation-supersedes_example =
    mutation-supersedes ℕ_discrete test_requests (pos 50) 0 test_shard deleted.0 loading.last
      (record {
        shard = record_stats (count_load true none 5) deleted.0;
        pc = write loading.last.pc 0 (publishing 0 found_result 50);
      })
      (Operation.delete 7) refl loading.steps 0 0 refl refl deleted.1
      (more stay (load 0 test_env (call deleted.0))) found_result 50 test_env refl

single_flight_example : ◌≡◌ {A = ℕ} 0 0
single_flight_example =
    single_flight ℕ_discrete (pos 50) 0 test_requests test_shard refl loading.last loading.steps 0 0
      0 0 refl refl refl refl refl

waiter-leaves_example :
    (j : ℕ) × (owned (loading.last.pc j) ≡ some 0)
    × ((test_requests j).key ≡ (test_requests 1).key)
    × ((envs : List (Env ℕ))
        → 4 ≤ length envs
        → (now rest : List (Env ℕ)) × (t : Shard ℕ ℕ) × (envs ≡ now ++ rest)
          × (run_load ℕ_discrete
                (pos 50)
                0
                (test_requests j)
                now
                (loading.last.pc j)
                loading.last.shard
              ≡ ok (t, waiting 0))
          × ((env : Env ℕ)
              → (u : Shard ℕ ℕ) × (o : Outcome ℕ) × (advance ℕ_discrete
                    (pos 50)
                    0
                    (test_requests 1)
                    env
                    (waiting 0)
                    t
                  ≡ ok (u, left o))))
waiter-leaves_example =
    waiter-leaves ℕ_discrete (pos 50) 0 test_requests test_shard refl test_Sound loading.last
      loading.steps 1 0 refl refl

-- The loader finds nothing.
abbrev empty_env : Env ℕ
empty_env = record test_env { loader = returns 700 false none }

nothing :
    advance ℕ_discrete (pos 50) 0 test_request empty_env (calling 0 10) (shard_with joined_group)
    ≡ ok (shard_with joined_group, publishing 0 no_load_result 0)
unfolding advance
nothing = refl

publish :
    step (publishing 0 no_load_result 0) (shard_with joined_group)
    ≡ ok (shard_with joined_group, ending 0 (returned (some no_load_result) none))
unfolding advance load_publish
publish = refl

abbrev ended_group : MyGroup
ended_group = do_call ℕ_discrete 7 0 (returned (some no_load_result) none) joined_group

end :
    step (ending 0 (returned (some no_load_result) none)) (shard_with joined_group)
    ≡ ok (shard_with ended_group, waiting 0)
unfolding advance
end = refl

abbrev done : Run
done =
    step_load (step_load (step_load loading 0 empty_env nothing) 0 test_env publish) 0 test_env end

is_done : (ended_group.calls 0).done ≡ true
unfolding do_call finish ℕ_discrete
is_done = refl

callers-agree_example :
    (o : Outcome ℕ) × (s t : Shard ℕ ℕ) × (step (waiting 0) done.last.shard ≡ ok (s, left o))
    × (step (waiting 0) done.last.shard ≡ ok (t, left o))
callers-agree_example =
    callers-agree ℕ_discrete (pos 50) 0 test_requests test_shard refl done.last done.steps 0 1 0
      done.last refl is_done stay refl test_env test_env refl refl

abbrev no_loader_request : Request ℕ
no_loader_request = record test_request { has_loader = false }

load-early_example :
    (t : StorageSegment ℕ ℕ) × (run_load ℕ_discrete
        (pos 50)
        0
        no_loader_request
        (test_env ∷ test_env ∷ [])
        entered
        test_shard
      ≡ ok (record test_shard { segment = t }, left (failed no_loader)))
    × Refines ℕ_discrete index_laws t (counted (read ℕ_discrete 7 15 empty_spec)).0
load-early_example =
    load-early ℕ_discrete (pos 50) 0 no_loader_request test_shard empty_spec empty-Refines_empty
      test_env test_env [] (failed no_loader) refl

load-alone_example :
    (t : Shard ℕ ℕ) × (run_load ℕ_discrete
        (pos 50)
        0
        test_request
        (test_env ∷ test_env ∷ test_env ∷ test_env ∷ test_env ∷ test_env ∷ test_env ∷ [])
        entered
        test_shard
      ≡ ok (
        t,
        left (outcome_of (ran_of (loaded_deadline (pos 50) 0 test_env) (returns 700 true none))),
      ))
    × (find_call ℕ_discrete 7 t.group.m ≡ none)
    × Refines ℕ_discrete index_laws t.segment (
        model_after ℕ_discrete 7
          (loaded_ttl (pos 50) 0 test_env)
          (loaded_deadline (pos 50) 0 test_env)
          5
          (returns 700 true none)
          (tally count_miss empty_spec))
load-alone_example =
    load-alone ℕ_discrete (pos 50) 0 test_request test_shard empty_spec empty-Refines_empty refl
      refl refl test_env test_env test_env test_env test_env test_env test_env refl refl refl refl
