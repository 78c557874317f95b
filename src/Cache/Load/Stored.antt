-- ===== src/Cache/Load/Stored.antt =====
-- A value that a cache loads by load.go is what lookup.go returns for the key.
use pacecache.Prelude.{
  ℕ, ◌≡◌, ◌%◌, ◌-◌, subst, refl, sym, ap, ◌∙◌, true, false, none, some, List, [], ◌∷◌, ok,
  get_elem?, set, length-set, get_elem?-some, arith,
}
use pacecache.Cache.{Cache, get}
use pacecache.Cache.Load.{shard_at, put_shard, get_or_load, get_or_load_func}
use pacecache.Cache.Publish.{get-stored}
use pacecache.Cache.Steps.{AllRoomy-at, routed, changed-Valid}
use pacecache.Cache.Valid.{Valid}
use pacecache.Loads.{Env, Request, Shard}
use pacecache.Loads.Alone.{load-alone}
use pacecache.Loads.Lone.{model_after, loaded_ttl, loaded_deadline}
use pacecache.Expiration.Index.Laws.{index_laws}
use pacecache.Segment.Refines.{Refines}
use pacecache.Segment.{Entry, count_miss, is_expired}
use pacecache.Segment.Model.{Model, find, fresh_entry, set_model, tally}
use pacecache.Singleflight.{Group, find_call}
use pacecache.Stats.{count_load}
use pacecache.Storage.{StorageSegment, segment_index}
use pacecache.Storage.At.{AllRefine-at, length-AllRefine}
use pacecache.Types.{LoadResult, returns}

pub shard_at-some :
    {K V : Type 0} (i : ℕ) (c : Cache K V) (t : StorageSegment K V) (g : Group K (LoadResult V))
    → get_elem? c.store.segments i ≡ some t
    → get_elem? c.states i ≡ some g
    → shard_at i c ≡ ok (record { segment = t; group = g })
unfolding shard_at
shard_at-some i c t g et eg = rw (et, eg, shard_at) refl

module _ {K V : Type 0} (dec : Discrete K) where
  -- A write keeps the settings of the model.
  settings :
      (e : Entry K V) (m : Model K V)
      → ((set_model dec e m).resolution ≡ m.resolution)
        × ((set_model dec e m).max_entries ≡ m.max_entries)
  settings e m = ground arith

module _ {K V : Type 0} (dec : Discrete K) (hash : K → ℕ) (c : Cache K V) (ms : List (Model K V))
    (v : Valid dec c ms) (k : K) where
  -- The key has no entry in its segment and no call in its group.
  pub record Idle : Type 0 where
    pub absent :
        (m : Model K V)
        → get_elem? ms (segment_index hash c.store k) ≡ some m
        → find dec k m.items ≡ none
    pub no_call :
        (g : Group K (LoadResult V))
        → get_elem? c.states (segment_index hash c.store k) ≡ some g
        → find_call dec k g.m ≡ none

  -- In a valid cache in which a key has neither an entry nor a call, a GetOrLoadFunc alone, with a
  -- context that is not done and a loader that finds a value, returns that value as found without
  -- an error; and a Get returns it afterwards, as long as the stored entry has not expired by then.
  pub load-get :
      Idle
      → (value : V) (e0 e1 e2 e3 e4 e5 e6 : Env V) → e1.context ≡ none
      → e3.loader ≡ returns value true none
      → e5.context ≡ none
      → e6.context ≡ none
      → (later : ℕ)
      → is_expired
          (fresh_entry k value (loaded_ttl c.ttl c.jitter e3) (loaded_deadline c.ttl c.jitter e3))
          later
        ≡ false
      → (c' c'' : Cache K V) × (get_or_load_func dec hash true true k
            (e0 ∷ e1 ∷ e2 ∷ e3 ∷ e4 ∷ e5 ∷ e6 ∷ [])
            (some c)
          ≡ ok (some c', some (some value, true, none)))
        × (get dec hash k later c' ≡ ok (c'', some value))
  unfolding get_or_load_func get_or_load
  load-get idle value e0 e1 e2 e3 e4 e5 e6 alive1 run alive5 alive6 later live =
      let i = segment_index hash c.store k in
      let at = routed dec c ms v hash k in
      let (t, m, et, em, r) = AllRefine-at dec i c.store.segments ms v.refines at.1 in
      let (g, group) = get_elem?-some i c.states (omega (arith, at, v.groups)) in
      let req : Request K = record { key = k; has_context = true; has_loader = true } in
      let s : Shard K V = record { segment = t; group = g } in
      let (u, e, gone, q) =
        load-alone dec c.ttl c.jitter req s m r (idle.absent m em) (idle.no_call g group) refl e0 e1
          e2 e3 e4 e5 e6 refl alive1 alive5 alive6 in
      let life = loaded_ttl c.ttl c.jitter e3 in
      let deadline = loaded_deadline c.ttl c.jitter e3 in
      let m1 = tally (count_load true none (e3.now - e2.later)) (tally count_miss m) in
      let entry = fresh_entry k value life deadline in
      let q' : Refines dec index_laws u.segment (set_model dec entry m1) =
        subst
          (λ x.
            Refines dec index_laws u.segment
              (model_after dec k life deadline (e3.now - e2.later) x (tally count_miss m)))
          run q in
      let c' = put_shard i u c in
      let valid : Valid dec c' (set ms i (set_model dec entry m1)) =
        changed-Valid dec c ms v i m (set_model dec entry m1) u.segment (set c.states i u.group) em
          q' (settings dec entry m1).0 (settings dec entry m1).1 (length-set c.states i u.group) in
      let (c'', found) =
        get-stored dec hash c' ms k entry m1 i later valid
          (at.0 ∙ ap (λ n. hash k % n) (sym (length-set c.store.segments i u.segment)))
          (omega (arith, at, length-AllRefine dec c.store.segments ms v.refines)) refl
          (AllRoomy-at dec i ms m v.roomy em) live in
      (c', c'', rw (shard_at-some i c t g et group, e, run) refl, found)
