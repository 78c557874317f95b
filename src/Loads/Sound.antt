-- ===== src/Loads/Sound.antt =====
-- No step of a caller of load.go panics by itself, and no operation does: the segment stands for a
-- model throughout.
use pacecache.Prelude.{
  ℕ, ◌≡◌, inl, inr, refl, subst, true, false, Option, none, some, Option-cases, Bool-cases, arith,
  ok, if◌then◌else◌, ◌==◌, ◌-◌,
}
use pacecache.Prelude.Int.{ℤ}
use pacecache.Expiration.Index.Laws.{index_laws}
use pacecache.Loads.{
  Shard, Request, Env, Pc, entered, missed, owning, calling, publishing, ending, waiting, left,
  advance, load_lookup, load_start, load_recheck, load_publish, after_loader, after_wait,
  record_stats,
}
use pacecache.Loads.System.{
  exists, refresh_ttl, get, get_entry, set, get_or_set, get_or_set_entry, delete, get_and_delete,
  clear, cleanup, record_delete, Operation, operate, forgets, target, apply, System, Step, load,
  perform, Steps, stay, more,
}
use pacecache.Errors.{context_is_nil, load_superseded}
use pacecache.Loads.{failed, loaded}
use pacecache.Types.{cached_result}
use pacecache.Singleflight.{returned}
use pacecache.Segment.Reads.{snapshot_of}
use pacecache.Segment.Model.{read}
use pacecache.Segment.Cleanup.{cleanup_expired-Refines}
use pacecache.Segment.Model.{Model}
use pacecache.Segment.Reads.{
  exists-Refines, refresh_ttl-Refines, lookup-Refines, lookup_entry-Refines,
  get_entry_locked-Refines,
}
use pacecache.Segment.Refines.{Refines}
use pacecache.Segment.Removal.{delete-Refines, delete_all-Refines, get_and_delete-Refines}
use pacecache.Segment.Store.{set-Refines, get_or_set-Refines, get_or_set_entry-Refines}
use pacecache.Segment.Update
use pacecache.Stats.{count_shared, count_load, count_load_superseded, SegmentStats, add_deleted}
use pacecache.Singleflight.{CallPtr, Waited, blocked, canceled, panicking, exiting, delivered, wait}
use pacecache.Types.{LoadResult, LoaderRun, returns, panics, exits}
use pacecache.Segment.{count}
use pacecache.Storage.{StorageSegment}

module _ {K V : Type 0} (dec : Discrete K) where
  -- The segment stands for a model.
  pub record Sound (t : StorageSegment K V) : Type 0 where
    pub model : Model K V
    pub refines : Refines dec index_laws t model

  -- The counters may be anything.
  recount-Sound :
      (stats : Option SegmentStats) (t : StorageSegment K V)
      → Sound t
      → Sound (record t { stats = stats })
  recount-Sound stats t s = record {
    model = record s.model { stats = stats };
    refines = record {
      nodes = s.refines.nodes;
      holds = record {
        shape = s.refines.holds.shape;
        filed = s.refines.holds.filed;
        bounded = s.refines.holds.bounded;
      };
      listed = s.refines.listed;
      capacity = s.refines.capacity;
      sliding = s.refines.sliding;
      resolution = s.refines.resolution;
      stats = refl;
    };
  }

  -- A segment without an expiration index has nothing to clean.
  cleanup-Sound :
      (now limit : ℕ) (t : StorageSegment K V)
      → Sound t
      → (t' : StorageSegment K V) × (operate dec (cleanup now limit) t ≡ ok t') × Sound t'
  unfolding Update.cleanup_expired
  cleanup-Sound now limit t s = elim (Bool-cases (limit == 0)) [
    | inl e ↦ (t, ground (arith, e), s)
    | inr e ↦ elim (Bool-cases (s.model.resolution == 0)) [
      | inl off ↦ (t, ground (arith, e, off, s.refines.resolution), s)
      | inr on ↦
          let (t', n, pending, m', f, _, r, _, _, _) =
            cleanup_expired-Refines dec index_laws now limit s.refines (ground arith)
              (ground arith) in
          (t', rw f refl, record { model = m'; refines = r })
    ]
  ]

  operate-Sound :
      (op : Operation K V) (t : StorageSegment K V)
      → Sound t
      → (t' : StorageSegment K V) × (operate dec op t ≡ ok t') × Sound t'
  operate-Sound (exists key now) t s =
      let (u, e, r) = exists-Refines dec index_laws s.refines key now in
      (u, rw e refl, record { model = _; refines = r })
  operate-Sound (refresh_ttl key now) t s =
      let (u, e, r) = refresh_ttl-Refines dec index_laws s.refines key now in
      (u, rw e refl, record { model = _; refines = r })
  operate-Sound (get key now) t s =
      let (u, e, r) = lookup-Refines dec index_laws s.refines key now in
      (u, rw e refl, record { model = _; refines = r })
  operate-Sound (get_entry key now) t s =
      let (u, e, r) = lookup_entry-Refines dec index_laws s.refines key now in
      (u, rw e refl, record { model = _; refines = r })
  operate-Sound (set key value ttl deadline) t s =
      let (u, e, r) = set-Refines dec index_laws s.refines key value ttl deadline in
      (u, e, record { model = _; refines = r })
  operate-Sound (get_or_set key value ttl deadline now) t s =
      let (u, e, r) = get_or_set-Refines dec index_laws s.refines key value ttl deadline now in
      (u, rw e refl, record { model = _; refines = r })
  operate-Sound (get_or_set_entry key value ttl deadline now) t s =
      let (u, e, r) =
        get_or_set_entry-Refines dec index_laws s.refines key value ttl deadline now in
      (u, rw e refl, record { model = _; refines = r })
  operate-Sound (delete key) t s =
      let (u, e, r) = delete-Refines dec index_laws s.refines key in
      (u, rw e refl, record { model = _; refines = r })
  operate-Sound (get_and_delete key now) t s =
      let (u, e, r) = get_and_delete-Refines dec index_laws s.refines key now in
      (u, rw e refl, record { model = _; refines = r })
  operate-Sound clear t s =
      (_, refl, record { model = _; refines = (delete_all-Refines dec index_laws s.refines).0 })
  operate-Sound (cleanup now limit) t s = cleanup-Sound now limit t s
  operate-Sound (record_delete removed) t s =
      (_, refl, recount-Sound (add_deleted removed t.stats) t s)

  pub apply-Sound :
      (op : Operation K V) (s : Shard K V)
      → Sound s.segment
      → (t : Shard K V) × (apply dec op s ≡ ok t) × Sound t.segment
  unfolding apply
  apply-Sound op s sound =
      let (t, e, r) = operate-Sound op s.segment sound in
      (record { segment = t; group = forgets dec (target op) s.group }, rw e refl, r)

  count-Sound :
      (f : SegmentStats → SegmentStats) (t : StorageSegment K V) → Sound t → Sound (count f t)
  count-Sound f t s = recount-Sound _ t s

  module _ (ttl : ℤ) (jitter : ℕ) (req : Request K) (env : Env V) where
    after_wait-Sound :
        (c : CallPtr) (w : Waited (LoadResult V)) (s : Shard K V)
        → Sound s.segment
        → Sound (after_wait c w s).0.segment
    after_wait-Sound c blocked s sound = sound
    after_wait-Sound c (canceled err) s sound = sound
    after_wait-Sound c (panicking value) s sound = sound
    after_wait-Sound c exiting s sound = sound
    after_wait-Sound c (delivered val err true) s sound = count-Sound count_shared s.segment sound
    after_wait-Sound c (delivered val err false) s sound = sound

    after_loader-Sound :
        (c : CallPtr) (started_at : ℕ) (run : LoaderRun V) (s : Shard K V)
        → Sound s.segment
        → Sound (after_loader ttl jitter env c started_at run s).0.segment
    after_loader-Sound c started_at (returns value found err) s sound =
        count-Sound (count_load found err (env.now - started_at)) s.segment sound
    after_loader-Sound c started_at (panics value) s sound = sound
    after_loader-Sound c started_at exits s sound = sound

    pub advance-Sound :
        (p : Pc V) (s : Shard K V)
        → Sound s.segment
        → (t : Shard K V) × (q : Pc V) × (advance dec ttl jitter req env p s ≡ ok (t, q))
          × Sound t.segment
    unfolding advance load_lookup load_start load_recheck load_publish
    advance-Sound entered s sound = elim (Bool-cases req.has_context) [
      | inr lacks ↦ (s, left (failed context_is_nil), rw lacks refl, sound)
      | inl has ↦
          let (t, e, r) = lookup_entry-Refines dec index_laws sound.refines req.key env.now in
          (
            record s { segment = t },
            elim (snapshot_of (read dec req.key env.now sound.model).1) [
              | none ↦ missed
              | some found ↦ left (loaded (cached_result found))
            ],
            rw (has, e) refl,
            record { model = _; refines = r },
          )
    ]
    advance-Sound missed s sound =
        ((load_start dec req env s).0, (load_start dec req env s).1, refl, ground (arith, sound))
    advance-Sound (owning c) s sound =
        let (t, e, r) = get_entry_locked-Refines dec index_laws sound.refines req.key env.now in
        (
          record s { segment = t },
          elim (snapshot_of (read dec req.key env.now sound.model).1) [
            | none ↦ calling c env.later
            | some found ↦ ending c (returned (some (cached_result found)) none)
          ],
          rw e refl,
          record { model = _; refines = r },
        )
    advance-Sound (calling c started_at) s sound =
        (_, _, refl, after_loader-Sound c started_at env.loader s sound)
    advance-Sound (publishing c r life) s sound = elim (Bool-cases (s.group.calls c).forgotten) [
      | inl old ↦ (
        record_stats count_load_superseded s,
        ending c (returned none (some load_superseded)),
        rw old refl,
        count-Sound count_load_superseded s.segment sound,
      )
      | inr current ↦ elim (Option-cases (if r.found then r.value else none)) [
        | inl nothing ↦ (s, ending c (returned (some r) none), rw (current, nothing) refl, sound)
        | inr (value, found) ↦
            let (t, e, w) =
              set-Refines dec index_laws sound.refines req.key value life r.deadline in
            (
              record s { segment = t },
              ending c (returned (some r) none),
              rw (current, found, e) refl,
              record { model = _; refines = w },
            )
      ]
    ]
    advance-Sound (ending c ran) s sound = (_, _, refl, sound)
    advance-Sound (waiting c) s sound = (
      _,
      _,
      refl,
      after_wait-Sound c (wait env.context env.context_first (s.group.calls c)) s sound,
    )
    advance-Sound (left o) s sound = (s, left o, refl, sound)

  module _ (ttl : ℤ) (jitter : ℕ) (requests : ℕ → Request K) where
    Step-Sound :
        {s t : System K V}
        → Step dec ttl jitter requests s t
        → Sound s.shard.segment
        → Sound t.shard.segment
    Step-Sound {s} (load i env {t} {p} e) sound =
        let (t', q, f, sound') = advance-Sound ttl jitter (requests i) env (s.pc i) s.shard sound in
        let same : t' ≡ t = ground arith in subst (λ (x : Shard K V). Sound x.segment) same sound'
    Step-Sound {s} (perform op {t} e) sound =
        let (t', f, sound') = apply-Sound op s.shard sound in
        let same : t' ≡ t = ground arith in subst (λ (x : Shard K V). Sound x.segment) same sound'

    pub Steps-Sound :
        {s t : System K V}
        → Steps dec ttl jitter requests s t
        → Sound s.shard.segment
        → Sound t.shard.segment
    Steps-Sound stay sound = sound
    Steps-Sound (more rest st) sound = Step-Sound st (Steps-Sound rest sound)
