-- ===== src/Loads/Lone.antt =====
-- What a load of load.go by one caller alone comes to, and the steps at its end.
use pacecache.Prelude.{
  ℕ, ◌≡◌, refl, ap, Bool, true, false, Option, none, some, List, [], ◌∷◌, arith, ok,
}
use pacecache.Prelude.Int.{ℤ, pos}
use pacecache.Clock.{deadline_after, effective_ttl}
use pacecache.Errors.{Error, panic_error, goexit}
use pacecache.Loads.{
  Shard, Request, Env, Outcome, loaded, failed, panicked_with, ended, Pc, calling, ending, left,
  advance, after_loader, after_wait, run_load,
}
use pacecache.Segment.Model.{Model, tally, set_model, fresh_entry}
use pacecache.Singleflight.{
  CallPtr, Call, Group, Ran, returned, panicked, exited, new_call, do_call, wait, completed, settle,
}
use pacecache.Singleflight.Fields.{calls-do_call}
use pacecache.Stats.{count_load}
use pacecache.Types.{LoadResult, LoaderRun, returns, panics, exits, no_load_result}

-- What the caller gets when the function of its call does this.
abbrev pub outcome_of : {V : Type 0} → Ran (LoadResult V) → Outcome V
outcome_of (returned val (some (panic_error value))) = panicked_with value
outcome_of (returned val (some goexit)) = ended
outcome_of (returned val (some err)) = failed err
outcome_of (returned none none) = loaded no_load_result
outcome_of (returned (some r) none) = loaded r
outcome_of (panicked value) = panicked_with value
outcome_of exited = ended

-- The call of a caller that nobody joined, when it is done.
abbrev lone_call : {V : Type 0} → Ran (LoadResult V) → Call (LoadResult V)
lone_call ran = record (settle ran new_call) { done = true }

lone_completed :
    {V : Type 0} (context : Option Error) (first : Bool) (ran : Ran (LoadResult V))
    → context ≡ none
    → wait context first (lone_call ran) ≡ completed (lone_call ran)
unfolding wait
lone_completed context first ran e = rw e refl

module _ {K V : Type 0} where
  lone_wait :
      (ran : Ran (LoadResult V)) (c : CallPtr) (s : Shard K V)
      → after_wait c (completed (lone_call ran)) s ≡ (s, left (outcome_of ran))
  lone_wait (returned none none) c s = refl
  lone_wait (returned (some r) none) c s = refl
  lone_wait (returned val (some (panic_error value))) c s = refl
  lone_wait (returned val (some goexit)) c s = refl
  lone_wait (returned val (some _)) c s = refl
  lone_wait (panicked value) c s = refl
  lone_wait exited c s = refl

  calls-lone :
      (dec : Discrete K) (k : K) (g : Group K (LoadResult V)) (c : CallPtr)
      (ran : Ran (LoadResult V))
      → g.calls c ≡ new_call
      → (do_call dec k c ran g).calls c ≡ lone_call ran
  calls-lone dec k g c ran e = ground (arith, calls-do_call dec k g c ran c, ap (settle ran) e)

-- The lifetime and the deadline of a value that the loader returns at the time of `env`.
abbrev pub loaded_ttl : {V : Type 0} → (ttl : ℤ) → (jitter : ℕ) → Env V → ℕ
loaded_ttl ttl jitter env = effective_ttl env.rand ttl jitter (pos 0)

abbrev pub loaded_deadline : {V : Type 0} → (ttl : ℤ) → (jitter : ℕ) → Env V → ℕ
loaded_deadline ttl jitter env = deadline_after env.now (loaded_ttl ttl jitter env)

-- What the function of the call does when the loader does this.
abbrev pub ran_of : {V : Type 0} → (deadline : ℕ) → LoaderRun V → Ran (LoadResult V)
ran_of deadline (returns value found (some err)) = returned none (some err)
ran_of deadline (returns value true none) =
    returned (some (record { value = some value; deadline = deadline; found = true })) none
ran_of deadline (returns value false none) = returned (some no_load_result) none
ran_of deadline (panics value) = panicked value
ran_of deadline exits = exited

-- What the load leaves in the model: only a value that was found is stored.
abbrev pub model_after :
    {K V : Type 0}
    → Discrete K
    → K
    → (ttl deadline duration : ℕ) → LoaderRun V
    → Model K V
    → Model K V
model_after dec k ttl deadline duration (returns value found (some err)) m =
    tally (count_load found (some err) duration) m
model_after dec k ttl deadline duration (returns value true none) m =
    set_model dec (fresh_entry k value ttl deadline) (tally (count_load true none duration) m)
model_after dec k ttl deadline duration (returns value false none) m =
    tally (count_load false none duration) m
model_after dec k ttl deadline duration (panics value) m = m
model_after dec k ttl deadline duration exits m = m

module _ {K V : Type 0} (dec : Discrete K) (ttl : ℤ) (jitter : ℕ) (req : Request K) where
  pub run_load-step :
      (env : Env V) (envs : List (Env V)) (p q : Pc V) (s t : Shard K V)
      → advance dec ttl jitter req env p s ≡ ok (t, q)
      → run_load dec ttl jitter req (env ∷ envs) p s ≡ run_load dec ttl jitter req envs q t
  unfolding run_load
  run_load-step env envs p q s t e = rw e refl

  pub calling-step :
      (env : Env V) (envs : List (Env V)) (c : CallPtr) (started_at : ℕ) (s : Shard K V)
      → let after = after_loader ttl jitter env c started_at env.loader s in
        run_load dec ttl jitter req (env ∷ envs) (calling c started_at) s
        ≡ run_load dec ttl jitter req envs after.1 after.0
  unfolding run_load advance
  calling-step env envs c started_at s = refl

  pub left-stays :
      (envs : List (Env V)) (o : Outcome V) (s : Shard K V)
      → run_load dec ttl jitter req envs (left o) s ≡ ok (s, left o)
  unfolding run_load advance
  left-stays [] o s = refl
  left-stays (env ∷ envs) o s = left-stays envs o s

  -- The owner of a call that nobody joined ends it and leaves with its outcome.
  pub ends-alone :
      (ran : Ran (LoadResult V)) (c : CallPtr) (s : Shard K V) (env env' : Env V)
      (envs : List (Env V))
      → env'.context ≡ none
      → s.group.calls c ≡ new_call
      → run_load dec ttl jitter req (env ∷ env' ∷ envs) (ending c ran) s
        ≡ ok (record s { group = do_call dec req.key c ran s.group }, left (outcome_of ran))
  unfolding run_load advance
  ends-alone ran c s env env' envs alive fresh =
      rw
        (
          calls-lone dec req.key s.group c ran fresh,
          lone_completed env'.context env'.context_first ran alive,
          lone_wait ran c (record s { group = do_call dec req.key c ran s.group }),
        )
        (left-stays envs (outcome_of ran) (record s { group = do_call dec req.key c ran s.group }))
