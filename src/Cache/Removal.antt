-- ===== src/Cache/Removal.antt =====
-- `Delete` of one key and `Clear` of delete.go: what was deleted is not found, and a clear empties
-- every segment.
use pacecache.Prelude.{
  ℕ, ◌<◌, ◌≡◌, ◌%◌, refl, sym, ap, ◌∙◌, subst, inl, inr, Bool, false, Bool-cases, none, some, List,
  [], ◌∷◌, ok, length, get_elem?, set, length-set, get_elem?-set, get_elem?-some, arith,
}
use pacecache.Cache.{Cache, delete_one, delete, record_delete, exists}
use pacecache.Cache.Steps.{forget_at_lem, routed, changed-Valid}
use pacecache.Cache.Valid.{Valid}
use pacecache.Expiration.Index.{index_ops}
use pacecache.Expiration.Index.Laws.{index_laws}
use pacecache.Segment.Lookup
use pacecache.Segment.Update
use pacecache.Segment.Model.{Model, find, exists_model, delete_model}
use pacecache.Segment.Reads.{exists-Refines}
use pacecache.Segment.Refines.{Refines}
use pacecache.Segment.Removal.{find-delete_model, delete-Refines}
use pacecache.Cache.Publish.{forgot}
use pacecache.Singleflight.{Group, forget}
use pacecache.Types.{LoadResult}
use pacecache.Stats.{add_deleted}
use pacecache.Storage.{Storage, StorageSegment, segment_index, delete_at, exists_at}
use pacecache.Storage.At.{AllRefine-at, at_segment_lem, length-AllRefine}

module _ {K V : Type 0} (dec : Discrete K) where
  module _ (hash : K → ℕ) (c : Cache K V) (ms : List (Model K V)) (v : Valid dec c ms) (k : K) where
    pub delete_at_lem :
        (i : ℕ) (s : Storage K V) (t t' : StorageSegment K V) (b : Bool)
        → get_elem? s.segments i ≡ some t
        → Update.delete dec index_ops k t ≡ ok (t', b)
        → delete_at dec i k s ≡ ok (record s { segments = set s.segments i t' }, b)
    delete_at_lem i s t t' b et e = at_segment_lem dec i _ s t t' b et e

    exists_at_lem :
        (i now : ℕ) (s : Storage K V) (t t' : StorageSegment K V) (b : Bool)
        → get_elem? s.segments i ≡ some t
        → Lookup.exists dec index_ops k now t ≡ ok (t', b)
        → exists_at dec i k now s ≡ ok (record s { segments = set s.segments i t' }, b)
    exists_at_lem i now s t t' b et e = at_segment_lem dec i _ s t t' b et e

    delete_model-settings :
        (m : Model K V)
        → ((delete_model dec k m).0.resolution ≡ m.resolution)
          × ((delete_model dec k m).0.max_entries ≡ m.max_entries)
    delete_model-settings m = ground arith

    -- A deletion succeeds, and the key is absent from the model of its segment.
    pub delete_one-Valid :
        (c' : Cache K V) × (removed : Bool) × (m : Model K V) × (delete_one dec
            (segment_index hash c.store k)
            k
            c
          ≡ ok (c', removed))
        × (find dec k m.items ≡ none)
        × (length c'.store.segments ≡ length c.store.segments)
        × ((g : Group K (LoadResult V))
            → get_elem? c.states (segment_index hash c.store k) ≡ some g
            → get_elem? c'.states (segment_index hash c.store k) ≡ some (forget dec k g))
        × Valid dec c' (set ms (segment_index hash c.store k) m)
    unfolding delete_one
    delete_one-Valid =
        let i = segment_index hash c.store k in
        let at = routed dec c ms v hash k in
        let (g, group) = get_elem?-some i c.states (omega (arith, at, v.groups)) in
        let (t, m, et, em, r) = AllRefine-at dec i c.store.segments ms v.refines at.1 in
        let (t', e, r') = delete-Refines dec index_laws r k in
        (
          record c {
            store = record c.store { segments = set c.store.segments i t' };
            states = set c.states i (forget dec k g);
          },
          (delete_model dec k m).1,
          (delete_model dec k m).0,
          ground (
            arith,
            forget_at_lem dec i k c g group,
            delete_at_lem i c.store t t' (delete_model dec k m).1 et e,
          ),
          find-delete_model dec index_laws r k,
          length-set c.store.segments i t',
          forgot dec hash c ms v k i g group,
          changed-Valid dec c ms v i m (delete_model dec k m).0 t' (set c.states i (forget dec k g))
              em r' (delete_model-settings m).0 (delete_model-settings m).1
              (length-set c.states i (forget dec k g)),
        )

    -- A key that is absent from the model of its segment is not found.
    pub absent-exists :
        (now : ℕ) (m : Model K V)
        → get_elem? ms (segment_index hash c.store k) ≡ some m
        → find dec k m.items ≡ none
        → (c' : Cache K V) × (exists dec hash k now c ≡ ok (c', false))
    unfolding exists
    absent-exists now m em absent =
        let i = segment_index hash c.store k in
        let at = routed dec c ms v hash k in
        let (t, n, et, en, r) = AllRefine-at dec i c.store.segments ms v.refines at.1 in
        let (t', e, r') = exists-Refines dec index_laws r k now in
        let same : n ≡ m = ground (arith, en, em) in
        let no_hit : (exists_model dec k now n).1 ≡ false = rw (same, absent, exists_model) refl in
        (
          record c { store = record c.store { segments = set c.store.segments i t' } },
          ground
              (arith, exists_at_lem i now c.store t t' (exists_model dec k now n).1 et e, no_hit),
        )

  -- Counting a removed entry changes the counters of one segment only.
  record_delete-Valid :
      (c : Cache K V) (ms : List (Model K V)) (i : ℕ) (m : Model K V)
      → Valid dec c ms
      → i < length c.store.segments
      → get_elem? ms i ≡ some m
      → (c' : Cache K V) × (record_delete i 1 c ≡ ok c')
        × (length c'.store.segments ≡ length c.store.segments)
        × Valid dec c' (set ms i (record m { stats = add_deleted 1 m.stats }))
  unfolding record_delete
  record_delete-Valid c ms i m v lt em =
      let (t, n, et, en, r) = AllRefine-at dec i c.store.segments ms v.refines lt in
      let same : n ≡ m = ground (arith, en, em) in
      let q : Refines dec index_laws t m = subst (λ z. Refines dec index_laws t z) same r in
      let t' = record t { stats = add_deleted 1 t.stats } in
      (
        record c { store = record c.store { segments = set c.store.segments i t' } },
        rw (at_segment_lem dec i _ c.store t t' tt et refl) refl,
        length-set c.store.segments i t',
        changed-Valid dec c ms v i m (record m { stats = add_deleted 1 m.stats }) t' c.states em
            (record {
              nodes = q.nodes;
              holds = record {
                shape = q.holds.shape;
                filed = q.holds.filed;
                bounded = q.holds.bounded;
              };
              listed = q.listed;
              capacity = q.capacity;
              sliding = q.sliding;
              resolution = q.resolution;
              stats = ap (add_deleted 1) q.stats;
            })
            refl refl refl,
      )

  module _ (hash : K → ℕ) (c : Cache K V) (ms : List (Model K V)) (v : Valid dec c ms) (k : K) where
    pub still_routed :
        (c' : Cache K V) (ms' : List (Model K V))
        → Valid dec c' ms'
        → length c'.store.segments ≡ length c.store.segments
        → segment_index hash c'.store k ≡ segment_index hash c.store k
    still_routed c' ms' v' size =
        (routed dec c' ms' v' hash k).0
        ∙ ap (λ n. hash k % n) size
        ∙ sym (routed dec c ms v hash k).0

    set-at :
        (ms' : List (Model K V)) (m : Model K V)
        → segment_index hash c.store k < length ms'
        → get_elem? (set ms' (segment_index hash c.store k) m) (segment_index hash c.store k)
          ≡ some m
    set-at ms' m lt = ground (
      arith,
      get_elem?-set ms' (segment_index hash c.store k) (segment_index hash c.store k) m lt,
    )

    -- In a valid cache, deleting one key succeeds, whatever sort is passed, and so does the
    -- existence test after it, which is false for the key.
    pub delete-exists :
        (sort : List (K × ℕ) → List (K × ℕ)) (now : ℕ)
        → (c' c'' : Cache K V) × (delete dec hash sort (k ∷ []) c ≡ ok c')
          × (exists dec hash k now c' ≡ ok (c'', false))
    unfolding delete
    delete-exists sort now =
        let i = segment_index hash c.store k in
        let (c1, removed, m, e, absent, size, forgotten, v1) = delete_one-Valid hash c ms v k in
        let inside : i < length ms =
          omega
            (arith, length-AllRefine dec c.store.segments ms v.refines, routed dec c ms v hash k) in
        let here = set-at ms m inside in
        elim (Bool-cases removed) [
          | inr kept ↦
              let (c2, f) =
                absent-exists hash c1 (set ms i m) v1 k now m
                  (rw (still_routed c1 (set ms i m) v1 size) here) absent in
              (c1, c2, ground (arith, e, kept), f)
          | inl gone ↦
              let (c2, d, size', v2) =
                record_delete-Valid c1 (set ms i m) i m v1
                  (omega (arith, size, routed dec c ms v hash k)) here in
              let m2 = record m { stats = add_deleted 1 m.stats } in
              let (c3, f) =
                absent-exists hash c2 (set (set ms i m) i m2) v2 k now m2
                  (rw (still_routed c2 (set (set ms i m) i m2) v2 (size' ∙ size))
                    (set-at (set ms i m) m2 (omega (arith, inside, length-set ms i m))))
                  absent in
              (c2, c3, ground (arith, e, gone, d), f)
        ]
