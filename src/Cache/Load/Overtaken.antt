-- ===== src/Cache/Load/Overtaken.antt =====
-- A mutation of a whole cache, by `Set` of set.go or `deleteOne` of delete.go, that overtakes a load
-- of load.go for the same key.
use pacecache.Prelude.{
  ℕ, ◌<◌, ◌≡◌, refl, ◌∙◌, true, false, Bool, none, some, List, ok, length, get_elem?, set,
  length-set, get_elem?-set, subst, arith,
}
use pacecache.Prelude.Int.{ℤ}
use pacecache.Cache.{Cache, set_value, delete_one, get, exists}
use pacecache.Cache.Load.{shard_at, put_shard}
use pacecache.Cache.Load.Stored.{shard_at-some}
use pacecache.Cache.Publish.{stored_ttl, stored_deadline, set_value-Valid, get-held, find-set_model}
use pacecache.Cache.Removal.{delete_one-Valid, absent-exists, still_routed}
use pacecache.Cache.Steps.{AllRoomy-at, routed, changed-Valid}
use pacecache.Cache.Valid.{Valid}
use pacecache.Errors.{load_superseded}
use pacecache.Expiration.Index.Laws.{index_laws}
use pacecache.Loads.{Shard, Request, Env, publishing, ending, advance, record_stats}
use pacecache.Loads.Barrier.{publish-Forgotten}
use pacecache.Segment.{is_expired}
use pacecache.Segment.Model.{Model, tally, set_model, fresh_entry}
use pacecache.Segment.Refines.{Refines, count-Refines}
use pacecache.Singleflight.{CallPtr, Group, find_call, forget, returned}
use pacecache.Singleflight.Fields.{forgotten-forget_self}
use pacecache.Stats.{count_load_superseded}
use pacecache.Storage.{segment_index}
use pacecache.Storage.At.{AllRefine-at, length-AllRefine}
use pacecache.Types.{LoadResult}

module _ {K V : Type 0} (dec : Discrete K) where
  -- The publication of a forgotten call in a valid cache.
  record Discards (c : Cache K V) (ms : List (Model K V)) (i : ℕ) (call : CallPtr) (req : Request K)
      (env : Env V) (r : LoadResult V) (refresh_ttl : ℕ) (m : Model K V) : Type 0 where
    shard : Shard K V
    there : shard_at i c ≡ ok shard
    steps :
        advance dec c.ttl c.jitter req env (publishing call r refresh_ttl) shard
        ≡ ok (
          record_stats count_load_superseded shard,
          ending call (returned none (some load_superseded)),
        )
    valid :
        Valid dec
          (put_shard i (record_stats count_load_superseded shard) c)
          (set ms i (tally count_load_superseded m))

  discards :
      (c : Cache K V) (ms : List (Model K V)) (i : ℕ) (g : Group K (LoadResult V)) (call : CallPtr)
      (req : Request K) (env : Env V) (r : LoadResult V) (refresh_ttl : ℕ) (m : Model K V)
      → Valid dec c ms
      → i < length c.store.segments
      → get_elem? c.states i ≡ some g
      → (g.calls call).forgotten ≡ true
      → get_elem? ms i ≡ some m
      → Discards c ms i call req env r refresh_ttl m
  discards c ms i g call req env r refresh_ttl m v lt group forgotten at =
      let (t, n, et, en, q) = AllRefine-at dec i c.store.segments ms v.refines lt in
      let same : n ≡ m = ground (arith, en, at) in
      let q' : Refines dec index_laws t m = subst (λ z. Refines dec index_laws t z) same q in
      let s : Shard K V = record { segment = t; group = g } in
      record {
        shard = s;
        there = shard_at-some i c t g et group;
        steps =
            publish-Forgotten dec (λ _. req) c.ttl c.jitter req env call r refresh_ttl s forgotten;
        valid =
            changed-Valid dec c ms v i m (tally count_load_superseded m)
              (record_stats count_load_superseded s).segment (set c.states i g) at
              (count-Refines dec index_laws count_load_superseded q') refl refl
              (length-set c.states i g);
      }

module _ {K V : Type 0} (dec : Discrete K) (hash : K → ℕ) (c : Cache K V) (ms : List (Model K V))
    (v : Valid dec c ms) (k : K) (g : Group K (LoadResult V))
    (group : get_elem? c.states (segment_index hash c.store k) ≡ some g) (call : CallPtr)
    (in_flight : find_call dec k g.m ≡ some call) (env : Env V) (r : LoadResult V)
    (refresh_ttl : ℕ) where
  abbrev pub index : ℕ
  index = segment_index hash c.store k

  -- The caller whose loader has returned.
  abbrev pub request : Request K
  request = record { key = k; has_context = true; has_loader = true }

  -- After a mutation of the key, the publication is discarded.
  overtaken :
      (c1 : Cache K V) (m : Model K V)
      → length c1.store.segments ≡ length c.store.segments
      → get_elem? c1.states index ≡ some (forget dec k g)
      → Valid dec c1 (set ms index m)
      → Discards dec c1 (set ms index m) index call request env r refresh_ttl m
  overtaken c1 m size forgot v1 =
      let at = routed dec c ms v hash k in
      discards dec c1 (set ms index m) index (forget dec k g) call request env r refresh_ttl m v1
        (omega (arith, at, size)) forgot (forgotten-forget_self dec k g call in_flight)
        (ground (
          arith,
          get_elem?-set ms index index m
              (omega (arith, at, length-AllRefine dec c.store.segments ms v.refines)),
        ))

  -- The model of the segment after that is the last one written.
  last_written :
      (c2 : Cache K V) (m n : Model K V)
      → Valid dec c2 (set (set ms index m) index n)
      → length c2.store.segments ≡ length c.store.segments
      → get_elem? (set (set ms index m) index n) (segment_index hash c2.store k) ≡ some n
  last_written c2 m n v2 size =
      rw (still_routed dec hash c ms v k c2 (set (set ms index m) index n) v2 size) (
        ground (
          arith,
          get_elem?-set (set ms index m) index index n (
              omega (
                arith,
                routed dec c ms v hash k,
                length-AllRefine dec c.store.segments ms v.refines,
                length-set ms index m,
              )),
        ))

  -- In a valid cache in which a load of a key is in flight, a Set of the key succeeds; when the
  -- owner of the load then publishes, whatever its loader has returned without an error, it gets
  -- ErrLoadSuperseded; and a Get after that returns the value that was set, as long as its entry
  -- has not expired by then.
  pub set-overtakes :
      (rand : ℕ → ℕ) (value : V) (expiration : ℤ) (now later : ℕ)
      → is_expired
          (fresh_entry k value
            (stored_ttl rand c expiration)
            (stored_deadline rand c expiration now))
          later
        ≡ false
      → (c1 c2 : Cache K V) × (s t : Shard K V) × (set_value dec hash rand k value expiration now c
          ≡ ok c1)
        × (shard_at index c1 ≡ ok s)
        × (advance dec c1.ttl c1.jitter request env (publishing call r refresh_ttl) s
            ≡ ok (t, ending call (returned none (some load_superseded))))
        × (get dec hash k later (put_shard index t c1) ≡ ok (c2, some value))
  set-overtakes rand value expiration now later live =
      let (c1, m, e, em, size, forgot, v1) =
        set_value-Valid dec hash c ms v k rand value expiration now in
      let entry =
        fresh_entry k value (stored_ttl rand c expiration)
          (stored_deadline rand c expiration now) in
      let d = overtaken c1 (set_model dec entry m) size (forgot g group) v1 in
      let t = record_stats count_load_superseded d.shard in
      let n = tally count_load_superseded (set_model dec entry m) in
      let (c2, found) =
        get-held dec hash (put_shard index t c1)
          (set (set ms index (set_model dec entry m)) index n) k entry n later d.valid
          (last_written (put_shard index t c1) (set_model dec entry m) n d.valid
            (length-set c1.store.segments index t.segment ∙ size))
          (find-set_model dec entry m (AllRoomy-at dec index ms m v.roomy em)) live in
      (c1, c2, d.shard, t, e, d.there, d.steps, found)

  -- So for a deletion: the key is not found after the publication.
  delete_one-overtakes :
      (now : ℕ)
      → (c1 c2 : Cache K V) × (removed : Bool) × (s t : Shard K V) × (delete_one dec index k c
          ≡ ok (c1, removed))
        × (shard_at index c1 ≡ ok s)
        × (advance dec c1.ttl c1.jitter request env (publishing call r refresh_ttl) s
            ≡ ok (t, ending call (returned none (some load_superseded))))
        × (exists dec hash k now (put_shard index t c1) ≡ ok (c2, false))
  delete_one-overtakes now =
      let (c1, removed, m, e, absent, size, forgot, v1) = delete_one-Valid dec hash c ms v k in
      let d = overtaken c1 m size (forgot g group) v1 in
      let t = record_stats count_load_superseded d.shard in
      let n = tally count_load_superseded m in
      let (c2, missing) =
        absent-exists dec hash (put_shard index t c1) (set (set ms index m) index n) d.valid k now n
          (last_written (put_shard index t c1) m n d.valid
            (length-set c1.store.segments index t.segment ∙ size))
          absent in
      (c1, c2, removed, d.shard, t, e, d.there, d.steps, missing)
