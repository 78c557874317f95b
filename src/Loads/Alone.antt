-- ===== src/Loads/Alone.antt =====
-- A load of load.go that no other caller and no mutation interrupts: every way in which it can end.
use pacecache.Prelude.{
  ℕ, ◌-◌, ◌≡◌, refl, ◌∙◌, subst, true, false, Option, none, some, [], ◌∷◌, arith, ok,
}
use pacecache.Prelude.Int.{ℤ}
use pacecache.Expiration.Index.Laws.{index_laws}
use pacecache.Loads.{
  Shard, Request, Env, entered, missed, owning, calling, publishing, ending, left, advance,
  load_lookup, load_start, load_recheck, load_publish, after_loader, run_load,
}
use pacecache.Segment.{Entry, count_miss, count}
use pacecache.Segment.Model.{Model, find, tally, set_model, fresh_entry, read}
use pacecache.Segment.Reads.{lookup_entry-Refines, get_entry_locked-Refines, counted}
use pacecache.Segment.Refines.{Refines, count-Refines}
use pacecache.Segment.Store.{set-Refines}
use pacecache.Singleflight.{
  CallPtr, Group, Ran, returned, panicked, exited, new_call, find_call, start_call, do_call,
}
use pacecache.Singleflight.Fields.{find_call-do_call}
use pacecache.Stats.{count_load}
use pacecache.Storage.{StorageSegment}
use pacecache.Types.{LoadResult, LoaderRun, returns, panics, exits, no_load_result}
use pacecache.Loads.Lone.{
  outcome_of, loaded_ttl, loaded_deadline, ran_of, model_after, run_load-step, calling-step,
  ends-alone,
}

module _ {K V : Type 0} (dec : Discrete K) (ttl : ℤ) (jitter : ℕ) (req : Request K) where
  -- From the second lookup of the owner on.
  module _ {t : StorageSegment K V} {m : Model K V} (r : Refines dec index_laws t m)
      (absent : find dec req.key m.items ≡ none) where
    absent-read : (now : ℕ) → read dec req.key now m ≡ (m, none)
    absent-read now = rw (absent, read) refl

    recheck-alone :
        (env : Env V) (g : Group K (LoadResult V)) (c : CallPtr)
        → (t' : StorageSegment K V) × (advance dec ttl jitter req env
              (owning c)
              (record { segment = t; group = g })
            ≡ ok (record { segment = t'; group = g }, calling c env.later))
          × Refines dec index_laws t' m
    unfolding advance load_recheck
    recheck-alone env g c =
        let (t', e, q) = get_entry_locked-Refines dec index_laws r req.key env.now in
        (
          t',
          rw (e, absent-read env.now) refl,
          subst (λ (p : Model K V × Option (Entry K V)). Refines dec index_laws t' p.0)
              (absent-read env.now) q,
        )

  module _ {t : StorageSegment K V} {m : Model K V} (r : Refines dec index_laws t m)
      (g : Group K (LoadResult V)) (c : CallPtr) (fresh : g.calls c ≡ new_call) where
    publish-alone :
        (env : Env V) (value : V) (life deadline : ℕ)
        → let result : LoadResult V = record {
          value = some value;
          deadline = deadline;
          found = true;
        } in
          (t' : StorageSegment K V) × (advance dec ttl jitter req env
              (publishing c result life)
              (record { segment = t; group = g })
            ≡ ok (record { segment = t'; group = g }, ending c (returned (some result) none)))
          × Refines dec index_laws t' (set_model dec (fresh_entry req.key value life deadline) m)
    unfolding advance load_publish
    publish-alone env value life deadline =
        let (t', e, q) = set-Refines dec index_laws r req.key value life deadline in
        (t', rw (fresh, e) refl, q)

  module _ {t : StorageSegment K V} {m : Model K V} (r : Refines dec index_laws t m)
      (g : Group K (LoadResult V)) (c : CallPtr) (fresh : g.calls c ≡ new_call) (started_at : ℕ)
      (e3 e4 e5 e6 : Env V) (alive : e5.context ≡ none) (alive' : e6.context ≡ none) where
    not_found-alone :
        (s : Shard K V)
        → s.group ≡ g
        → advance dec ttl jitter req e4 (publishing c no_load_result 0) s
          ≡ ok (s, ending c (returned (some no_load_result) none))
    unfolding advance load_publish
    not_found-alone s same = rw (same, fresh) refl

    -- From the loader on.
    load-rest :
        (run : LoaderRun V)
        → let ran = ran_of (loaded_deadline ttl jitter e3) run in
          let after =
            after_loader ttl jitter e3 c started_at run (record { segment = t; group = g }) in
          (t' : StorageSegment K V) × (run_load dec ttl jitter req
              (e4 ∷ e5 ∷ e6 ∷ [])
              after.1
              after.0
            ≡ ok (
              record { segment = t'; group = do_call dec req.key c ran g },
              left (outcome_of ran),
            ))
          × Refines dec index_laws t' (
              model_after dec req.key
                (loaded_ttl ttl jitter e3)
                (loaded_deadline ttl jitter e3)
                (e3.now - started_at)
                run
                m)
    load-rest (panics value) =
        (t, ends-alone dec ttl jitter req (panicked value) c _ e4 e5 (e6 ∷ []) alive fresh, r)
    load-rest exits = (t, ends-alone dec ttl jitter req exited c _ e4 e5 (e6 ∷ []) alive fresh, r)
    load-rest (returns value found (some err)) = (
      count (count_load found (some err) (e3.now - started_at)) t,
      ends-alone dec ttl jitter req (returned none (some err)) c _ e4 e5 (e6 ∷ []) alive fresh,
      count-Refines dec index_laws (count_load found (some err) (e3.now - started_at)) r,
    )
    load-rest (returns value false none) =
        let counters = count_load false none (e3.now - started_at) in
        let s : Shard K V = record { segment = count counters t; group = g } in
        (
          count counters t,
          run_load-step dec ttl jitter req e4 (e5 ∷ e6 ∷ []) (publishing c no_load_result 0)
                (ending c (returned (some no_load_result) none)) s s (not_found-alone s refl)
              ∙ ends-alone dec ttl jitter req (returned (some no_load_result) none) c s e5 e6 []
                  alive' fresh,
          count-Refines dec index_laws counters r,
        )
    load-rest (returns value true none) =
        let counters = count_load true none (e3.now - started_at) in
        let result : LoadResult V = record {
          value = some value;
          deadline = loaded_deadline ttl jitter e3;
          found = true;
        } in
        let (t', e, q) =
          publish-alone (count-Refines dec index_laws counters r) g c fresh e4 value
            (loaded_ttl ttl jitter e3) (loaded_deadline ttl jitter e3) in
        let s : Shard K V = record { segment = count counters t; group = g } in
        let s' : Shard K V = record { segment = t'; group = g } in
        (
          t',
          run_load-step dec ttl jitter req e4 (e5 ∷ e6 ∷ [])
                (publishing c result (loaded_ttl ttl jitter e3))
                (ending c (returned (some result) none)) s s' e
              ∙ ends-alone dec ttl jitter req (returned (some result) none) c s' e5 e6 [] alive'
                  fresh,
          q,
        )

  module _ (s : Shard K V) (m : Model K V) (r : Refines dec index_laws s.segment m)
      (absent : find dec req.key m.items ≡ none) (idle : find_call dec req.key s.group.m ≡ none)
      (with_context : req.has_context ≡ true) where
    lookup-alone :
        (env : Env V)
        → (t : StorageSegment K V) × (advance dec ttl jitter req env entered s
            ≡ ok (record s { segment = t }, missed))
          × Refines dec index_laws t (tally count_miss m)
    unfolding advance load_lookup
    lookup-alone env =
        let (t, e, q) = lookup_entry-Refines dec index_laws r req.key env.now in
        (
          t,
          rw (with_context, e, absent-read r absent env.now) refl,
          subst (λ (p : Model K V × Option (Entry K V)). Refines dec index_laws t (counted p).0)
              (absent-read r absent env.now) q,
        )

    -- The group with the call of the caller.
    abbrev begun_group : Group K (LoadResult V)
    begun_group = (start_call dec req.key s.group).0

    start-alone :
        (env : Env V) (t : StorageSegment K V)
        → env.context ≡ none
        → req.has_loader ≡ true
        → (advance dec ttl jitter req env missed (record s { segment = t })
            ≡ ok (record { segment = t; group = begun_group }, owning s.group.fresh))
          × (begun_group.calls s.group.fresh ≡ new_call)
          × (find_call dec req.key begun_group.m ≡ some s.group.fresh)
    unfolding advance load_start start_call
    start-alone env t alive with_loader = (ground (arith, idle), ground arith, ground arith)

    gone :
        (ran : Ran (LoadResult V))
        → find_call dec req.key begun_group.m ≡ some s.group.fresh
        → find_call dec req.key (do_call dec req.key s.group.fresh ran begun_group).m ≡ none
    gone ran e = ground (arith, find_call-do_call dec req.key begun_group s.group.fresh ran req.key)

    -- On a segment that stands for a model with room for an entry, a caller with a context and a
    -- loader, alone, whose key has neither an entry nor a call and whose context is not done, runs
    -- through and leaves with what its loader did: its value, not found, its error, its panic or
    -- the end of its goroutine. It counts a miss and, if the loader returned, the load; only a
    -- value that was found without an error is stored, with the deadline of the default lifetime,
    -- and the key has no call afterwards.
    pub load-alone :
        (e0 e1 e2 e3 e4 e5 e6 : Env V)
        → req.has_loader ≡ true
        → e1.context ≡ none
        → e5.context ≡ none
        → e6.context ≡ none
        → let life = loaded_ttl ttl jitter e3 in
          let deadline = loaded_deadline ttl jitter e3 in
          (t : Shard K V) × (run_load dec ttl jitter req
              (e0 ∷ e1 ∷ e2 ∷ e3 ∷ e4 ∷ e5 ∷ e6 ∷ [])
              entered
              s
            ≡ ok (t, left (outcome_of (ran_of deadline e3.loader))))
          × (find_call dec req.key t.group.m ≡ none)
          × Refines dec index_laws t.segment (
              model_after dec req.key life deadline
                (e3.now - e2.later)
                e3.loader
                (tally count_miss m))
    load-alone e0 e1 e2 e3 e4 e5 e6 with_loader alive1 alive5 alive6 =
        let c = s.group.fresh in
        let ran = ran_of (loaded_deadline ttl jitter e3) e3.loader in
        let (t0, a0, r0) = lookup-alone e0 in
        let (a1, fresh, current) = start-alone e1 t0 alive1 with_loader in
        let (t2, a2, r2) = recheck-alone r0 absent e2 begun_group c in
        let (t3, rest, r3) =
          load-rest r2 begun_group c fresh e2.later e3 e4 e5 e6 alive5 alive6 e3.loader in
        (
          record { segment = t3; group = do_call dec req.key c ran begun_group },
          run_load-step dec ttl jitter req e0 (e1 ∷ e2 ∷ e3 ∷ e4 ∷ e5 ∷ e6 ∷ []) entered missed s
                (record s { segment = t0 }) a0
              ∙ run_load-step dec ttl jitter req e1 (e2 ∷ e3 ∷ e4 ∷ e5 ∷ e6 ∷ []) missed (owning c)
                  (record s { segment = t0 }) (record { segment = t0; group = begun_group }) a1
              ∙ run_load-step dec ttl jitter req e2 (e3 ∷ e4 ∷ e5 ∷ e6 ∷ []) (owning c)
                  (calling c e2.later) (record { segment = t0; group = begun_group })
                  (record { segment = t2; group = begun_group }) a2
              ∙ calling-step dec ttl jitter req e3 (e4 ∷ e5 ∷ e6 ∷ []) c e2.later
                  (record { segment = t2; group = begun_group })
              ∙ rest,
          gone ran current,
          r3,
        )
